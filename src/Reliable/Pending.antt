-- ===== src/Reliable/Pending.antt =====
-- The pending messages of DelegateMQ/extras/util/TransportMonitor.h.
use async_duck_db.Common.{
  ℕ, suc, ◌≤◌, ◌<◌, ◌≡◌, ◌≢◌, refl, sym, subst, not, List, [], ◌∷◌, ◌++◌, Option, none, some, arith,
  length, length-keep_if-le, lookup, insert, erase, IsOrdered, Above, Above-mono, insert-Above,
  erase-Above, lookup-insert, lookup-erase, length-insert-le, length-erase-le,
}
use async_duck_db.Reliable.{
  TransportMonitor, TimeoutData, Event, send_status, success, add, remove, key_of, is_expired,
  find_entry,
}
use async_duck_db.Reliable.Scan.{waiting}
use async_duck_db.Reliable.Drain.{process_at, process-drains, Noted}

-- The map is in the order of its keys and holds at most `MAX_TRANSPORT_MONITOR_PENDING` entries.
pub record IsMonitor (m : TransportMonitor) : Type 0 where
  pub ordered : IsOrdered m.pending
  pub bounded : length m.pending ≤ 100

-- the calls of a monitor
pub data Request : Type 0 where
  added : ℕ → ℕ → ℕ → Request
  removed : ℕ → ℕ → Request
  processed : ℕ → Request

abbrev pub serve : Request → Noted → Option Noted
serve (added now seq id) (m, es) = some ((add now seq id m).1, es ++ (add now seq id m).0.1)
serve (removed seq id) (m, es) = some ((remove seq id m).1, es ++ (remove seq id m).0)
serve (processed now) (m, es) = process_at now 101 (m, es)

abbrev pub serve_on : List Request → Option Noted → Option Noted
serve_on [] o = o
serve_on (r ∷ rs) none = none
serve_on (r ∷ rs) (some w) = serve_on rs (serve r w)

waiting-Above :
    (limit now b : ℕ) (m : List (ℕ × TimeoutData)) → Above b m → Above b (waiting limit now m)
waiting-Above limit now b [] a = tt
waiting-Above limit now b ((k, d) ∷ m) a =
    ground (
      arith,
      waiting-Above limit now (suc k) m,
      Above-mono {a = b} {b = suc k} (waiting limit now m),
    )

add-IsMonitor :
    (now seq id : ℕ) (m : TransportMonitor) → IsMonitor m → IsMonitor (add now seq id m).1
unfolding add
add-IsMonitor now seq id m w = record {
  ordered = ground (
    arith,
    w.ordered,
    insert-Above 0 (key_of id seq) (record { remote_id = id; seq_num = seq; time_stamp = now })
        m.pending,
  );
  bounded = ground (
    arith,
    w.bounded,
    length-insert-le (key_of id seq) (record { remote_id = id; seq_num = seq; time_stamp = now })
        m.pending,
  );
}

remove_entry-IsMonitor :
    (seq : ℕ) (m : TransportMonitor) (o : Option (ℕ × TimeoutData))
    → IsMonitor m
    → IsMonitor
        (elim o as (λ x. List Event × TransportMonitor) [
          | none ↦ ([], m)
          | some kd ↦ (
            send_status kd.1.remote_id seq success ∷ [],
            record m { pending = erase kd.0 m.pending },
          )
        ]).1
remove_entry-IsMonitor seq m none w = w
remove_entry-IsMonitor seq m (some kd) w = record {
  ordered = erase-Above 0 kd.0 m.pending w.ordered;
  bounded = omega (arith, w.bounded, length-erase-le kd.0 m.pending);
}

remove-IsMonitor : (seq id : ℕ) (m : TransportMonitor) → IsMonitor m → IsMonitor (remove seq id m).1
unfolding remove
remove-IsMonitor seq id m w = remove_entry-IsMonitor seq m (find_entry seq id m.pending) w

waiting-IsMonitor :
    (now : ℕ) (m : TransportMonitor)
    → IsMonitor m
    → IsMonitor (record m { pending = waiting m.transport_timeout now m.pending })
waiting-IsMonitor now m w = record {
  ordered = waiting-Above m.transport_timeout now 0 m.pending w.ordered;
  bounded = omega (
    arith,
    w.bounded,
    length-keep_if-le (λ e. not (is_expired m.transport_timeout now e.1)) m.pending,
  );
}

-- what a monitor has become after the calls: none of them fails to return
abbrev pub Served : Option Noted → Type 0
Served o = (w : Noted) × (o ≡ some w) × IsMonitor w.0

serve-Served : (r : Request) (w : Noted) → IsMonitor w.0 → Served (serve r w)
serve-Served (added now seq id) (m, es) w = (_, refl, add-IsMonitor now seq id m w)
serve-Served (removed seq id) (m, es) w = (_, refl, remove-IsMonitor seq id m w)
serve-Served (processed now) (m, es) w =
    let d = process-drains 101 now m es (omega (arith, w.bounded)) in
    (_, d.1, waiting-IsMonitor now m w)

-- From a monitor with at most 100 pending messages in the order of their keys, every sequence of
-- calls of `Add`, `Remove` and `Process` returns and leaves such a monitor, if a `Process` runs at
-- one time, may take 101 passes and has subscribers that do not call the monitor.
pub serve_on-IsMonitor :
    (rs : List Request) (w : Noted) → IsMonitor w.0 → Served (serve_on rs (some w))
serve_on-IsMonitor [] w i = (w, refl, i)
serve_on-IsMonitor (r ∷ rs) w i =
    let s = serve-Served r w i in
    subst (λ o. Served (serve_on rs o)) (sym s.1) (serve_on-IsMonitor rs s.0 s.2)

-- In a monitor that `IsMonitor` holds of, a message of a remote other than 0 that was added under
-- an unused key, with room left, and is then acknowledged is reported as received, and every key is
-- as it was before.
pub remove-add :
    (now seq id : ℕ) (m : TransportMonitor) (j : ℕ)
    → IsMonitor m
    → id ≢ 0
    → length m.pending < 100
    → lookup (key_of id seq) m.pending ≡ none
    → ((remove seq id (add now seq id m).1).0 ≡ send_status id seq success ∷ [])
      × (lookup j (remove seq id (add now seq id m).1).1.pending ≡ lookup j m.pending)
unfolding remove add
remove-add now seq id m j w ne h f = ground (
  arith,
  lookup-insert (key_of id seq) (key_of id seq)
      (record { remote_id = id; seq_num = seq; time_stamp = now }) m.pending,
  lookup-insert (key_of id seq) j (record { remote_id = id; seq_num = seq; time_stamp = now })
      m.pending,
  lookup-erase 0 (key_of id seq) j
      (insert (key_of id seq) (record { remote_id = id; seq_num = seq; time_stamp = now })
        m.pending)
      (insert-Above 0 (key_of id seq) _ m.pending (omega arith) w.ordered),
)
