-- ===== src/Reliable/Drain.antt =====
-- `TransportMonitor::Process` (DelegateMQ/extras/util/TransportMonitor.h), for subscribers that do not
-- call the monitor back.
use async_duck_db.Common.{
  ℕ, zero, suc, ◌<◌, ◌≡◌, refl, sym, ◌∙◌, ap, List, [], ◌∷◌, ◌++◌, Option, some, if◌then◌else◌,
  arith, length, subst, inl, inr, append-nil, append_assoc, ◌⊎◌,
}
use async_duck_db.Reliable.{
  TransportMonitor, TimeoutData, Event, send_status, pending_exceeded, cap_exceeded, timeout, scan,
  Pass, process, notify_timeouts, after_pass,
}
use async_duck_db.Reliable.Scan.{
  timeouts, as_timeouts, waiting, length-scan, scan-waiting, scan-timeouts, scan-done,
  length-scan-le,
}

-- `OnSendStatus` alone
pub statuses : List Event → List Event
statuses [] = []
statuses (send_status id seq s ∷ es) = send_status id seq s ∷ statuses es
statuses (cap_exceeded n ∷ es) = statuses es
statuses (pending_exceeded n ∷ es) = statuses es

statuses-append : (xs ys : List Event) → statuses (xs ++ ys) ≡ statuses xs ++ statuses ys
unfolding statuses
statuses-append [] ys = refl
statuses-append (send_status id seq s ∷ es) ys =
    ap (λ t. send_status id seq s ∷ t) (statuses-append es ys)
statuses-append (cap_exceeded n ∷ es) ys = statuses-append es ys
statuses-append (pending_exceeded n ∷ es) ys = statuses-append es ys

statuses-as_timeouts : (ds : List TimeoutData) → statuses (as_timeouts ds) ≡ as_timeouts ds
unfolding statuses
statuses-as_timeouts [] = refl
statuses-as_timeouts (d ∷ ds) =
    ap (λ t. send_status d.remote_id d.seq_num timeout ∷ t) (statuses-as_timeouts ds)

-- subscribers that note what they are told
abbrev pub Noted : Type 0
Noted = TransportMonitor × List Event

abbrev pub noted : Event → Noted → Noted
noted e w = (w.0, w.1 ++ (e ∷ []))

abbrev pub put_noted : TransportMonitor → Noted → Noted
put_noted m w = (m, w.1)

abbrev pub process_at : ℕ → ℕ → Noted → Option Noted
process_at now = process (λ w. w.0) put_noted noted (λ n. now)

abbrev pub remaining_events : Pass → List Event
remaining_events p = if p.stopped then pending_exceeded (length p.left) ∷ [] else []

notify_timeouts-noted :
    (now : ℕ) (ds : List TimeoutData) (m : TransportMonitor) (es : List Event)
    → notify_timeouts (λ w. w.0) put_noted noted (λ n. now) ds (m, es) ≡ (m, es ++ as_timeouts ds)
notify_timeouts-noted now [] m es = ap (λ t. (m, t)) (sym (append-nil es))
notify_timeouts-noted now (d ∷ ds) m es =
    notify_timeouts-noted now ds m (es ++ (send_status d.remote_id d.seq_num timeout ∷ []))
    ∙ ap (λ t. (m, t))
        (append_assoc es (send_status d.remote_id d.seq_num timeout ∷ []) (as_timeouts ds))

abbrev pub pass_events : Pass → List Event
pass_events p = as_timeouts p.expired ++ remaining_events p

after_pass-noted :
    (now : ℕ) (p : Pass) (m : TransportMonitor) (es : List Event)
    → after_pass (λ w. w.0) put_noted noted (λ n. now) p (m, es)
      ≡ (record m { pending = p.left }, es ++ pass_events p)
after_pass-noted now p m es = ground (
  arith,
  notify_timeouts-noted now p.expired (record m { pending = p.left }) es,
  append_assoc es (as_timeouts p.expired) (pending_exceeded (length p.left) ∷ []),
  append-nil (as_timeouts p.expired),
)

statuses-pass : (p : Pass) → statuses (pass_events p) ≡ as_timeouts p.expired
unfolding statuses
statuses-pass p = ground (
  arith,
  statuses-append (as_timeouts p.expired) (remaining_events p),
  statuses-as_timeouts p.expired,
  append-nil (as_timeouts p.expired),
)

abbrev pub Drained : ℕ → TransportMonitor → List Event → Option Noted → Type 0
Drained now m es r =
    (evs : List Event) × (r
      ≡ some (record m { pending = waiting m.transport_timeout now m.pending }, es ++ evs))
    × (statuses evs ≡ timeouts m.transport_timeout now m.pending)

module _ (now : ℕ) (m : TransportMonitor) (es : List Event) where
  abbrev first_pass : Pass
  first_pass = scan m.transport_timeout now 16 m.pending

  Drained-empty : m.pending ≡ [] → Drained now m es (some (m, es))
  unfolding timeouts statuses
  Drained-empty h = (
    [],
    cc (h, ap (waiting m.transport_timeout now) h, append-nil es),
    cc (ap (timeouts m.transport_timeout now) h),
  )

  Drained-once :
      length first_pass.expired < 16
      → Drained now m es
          (some (record m { pending = first_pass.left }, es ++ pass_events first_pass))
  Drained-once h = (
    pass_events first_pass,
    cc ((scan-done m.transport_timeout now 16 m.pending h).0),
    cc (
      statuses-pass first_pass,
      scan-timeouts m.transport_timeout now 16 m.pending,
      (scan-done m.transport_timeout now 16 m.pending h).1,
      append-nil (as_timeouts first_pass.expired),
    ),
  )

  Drained-again :
      (r : Option Noted)
      → Drained now (record m { pending = first_pass.left }) (es ++ pass_events first_pass) r
      → Drained now m es r
  Drained-again r d = (
    pass_events first_pass ++ d.0,
    cc (
      d.1,
      scan-waiting m.transport_timeout now 16 m.pending,
      append_assoc es (pass_events first_pass) d.0,
    ),
    cc (
      d.2,
      statuses-append (pass_events first_pass) d.0,
      statuses-pass first_pass,
      scan-timeouts m.transport_timeout now 16 m.pending,
    ),
  )

  process_step :
      (n : ℕ)
      → (m.pending ≡ [] × process_at now (suc n) (m, es) ≡ some (m, es))
        ⊎ ((0 < length m.pending
              × length first_pass.expired < 16
              × process_at now (suc n) (m, es)
                ≡ some (record m { pending = first_pass.left }, es ++ pass_events first_pass))
            ⊎ (length first_pass.expired ≡ 16
                × process_at now (suc n) (m, es)
                  ≡ process_at now n
                      (record m { pending = first_pass.left }, es ++ pass_events first_pass)))
  unfolding process
  process_step n = ground (
    arith,
    after_pass-noted now first_pass m es,
    length-scan-le m.transport_timeout now 16 m.pending,
  )

-- With the clock at `now`, subscribers that do not call the monitor, and as many passes allowed as
-- there are entries and one more, `Process` returns: it leaves exactly the entries that have not
-- expired, in the order of the map, and emits one `TIMEOUT` for each that has, in that order,
-- whatever the passes that takes.
pub process-drains :
    (n now : ℕ) (m : TransportMonitor) (es : List Event)
    → length m.pending < n
    → Drained now m es (process_at now n (m, es))
unfolding process
process-drains zero now m es h = absurd (omega arith)
process-drains (suc n) now m es h = elim (process_step now m es n) [
  | inl (e, q) ↦ subst (Drained now m es) (sym q) (Drained-empty now m es e)
  | inr (inl (p, l, q)) ↦ subst (Drained now m es) (sym q) (Drained-once now m es l)
  | inr (inr (l, q)) ↦ subst (Drained now m es) (sym q) (
      Drained-again now m es
        (process_at now n (
          record m { pending = (first_pass now m es).left },
          es ++ pass_events (first_pass now m es),
        ))
        (process-drains n now (record m { pending = (first_pass now m es).left })
          (es ++ pass_events (first_pass now m es))
          (omega (arith, length-scan m.transport_timeout now 16 m.pending))))
]
