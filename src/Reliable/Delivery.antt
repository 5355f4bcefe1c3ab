-- ===== src/Reliable/Delivery.antt =====
-- `SendWithRetry` of DelegateMQ/extras/util/RetryMonitor.h and the events that follow it.
use async_duck_db.Common.{
  ℕ, ◌+◌, ◌≤◌, ◌≡◌, refl, Bool, true, false, List, [], ◌∷◌, ◌++◌, none, some, ◌⊎◌, arith, lookup,
  insert, IsOrdered, insert-Above, erase-Above, lookup-insert, lookup-erase,
}
use async_duck_db.Reliable.{Status, add}
use async_duck_db.Reliable.Retry.{
  Link, Packet, RetryEntry, DmqHeader, accepted, monitor_full, send_failed, header_key,
  send_with_retry, on_status_changed, mark_sent, store_packet,
}
use async_duck_db.Reliable.Budget.{
  transmissions, transmissions-snoc, budget, budget_of, IsLink, IsKeyed, lookup-IsKeyed,
  insert-IsKeyed, erase-IsKeyed, on_status_changed-IsLink, on_status_changed-budget,
}

-- An event of the monitor that the retry monitor hears of, with its time.
pub record Heard : Type 0 where
  pub time : ℕ
  pub remote : ℕ
  pub seq : ℕ
  pub status : Status

mark_sent-IsKeyed : (k : ℕ) (m : List (ℕ × RetryEntry)) → IsKeyed m → IsKeyed (mark_sent k m)
mark_sent-IsKeyed k m w =
    elim (lookup k m)
        as (λ o.
          lookup k m ≡ o
          → IsKeyed (elim o [ none ↦ m | some e ↦ insert k (record e { is_sent = true }) m ])) [
            | none ↦ λ q. w
            | some e ↦
                λ q. insert-IsKeyed k (record e { is_sent = true }) m (lookup-IsKeyed k e m w q) w
          ]
      refl

mark_sent-IsOrdered : (k : ℕ) (m : List (ℕ × RetryEntry)) → IsOrdered m → IsOrdered (mark_sent k m)
mark_sent-IsOrdered k m w =
    elim (lookup k m)
      as (λ o.
        IsOrdered (elim o [ none ↦ m | some e ↦ insert k (record e { is_sent = true }) m ])) [
          | none ↦ w
          | some e ↦ insert-Above 0 k (record e { is_sent = true }) m (omega arith) w
        ]

mark_sent-budget :
    (k i : ℕ) (m : List (ℕ × RetryEntry))
    → budget_of (lookup i (mark_sent k m)) ≡ budget_of (lookup i m)
mark_sent-budget k i m =
    elim (lookup k m)
        as (λ o.
          lookup k m ≡ o
          → budget_of
              (lookup i (elim o [ none ↦ m | some e ↦ insert k (record e { is_sent = true }) m ]))
            ≡ budget_of (lookup i m)) [
              | none ↦ λ q. refl
              | some e ↦ λ q. ground (arith, lookup-insert k i (record e { is_sent = true }) m)
            ]
      refl

module _ (send : List Packet → Packet → Bool) where
  abbrev pub hear : List Heard → Link → Link
  hear [] l = l
  hear (e ∷ es) l = hear es (on_status_changed send e.time e.remote e.seq e.status l)

  hear-budget :
      (es : List Heard) (i : ℕ) (l : Link)
      → IsLink l
      → transmissions i (hear es l).sent + budget i (hear es l)
        ≤ transmissions i l.sent + budget i l
  hear-budget [] i l w = omega arith
  hear-budget (e ∷ es) i l w = omega (
    arith,
    hear-budget es i (on_status_changed send e.time e.remote e.seq e.status l)
        (on_status_changed-IsLink send e.time e.remote e.seq e.status l w),
    on_status_changed-budget send i e.time e.remote e.seq e.status l w,
  )

  abbrev stored : DmqHeader → List ℕ → Link → List (ℕ × RetryEntry)
  stored h d l = (store_packet send h d l).retry_store

  stored-IsOrdered :
      (h : DmqHeader) (d : List ℕ) (l : Link)
      → IsOrdered l.retry_store
      → IsOrdered (store_packet send h d l).retry_store
  stored-IsOrdered h d l w = insert-Above 0 (header_key h) _ l.retry_store (omega arith) w

  stored-budget :
      (h : DmqHeader) (d : List ℕ) (l : Link)
      → budget_of (lookup (header_key h) (stored h d l)) ≡ l.max_retries
  stored-budget h d l = ground (
    arith,
    lookup-insert (header_key h) (header_key h)
        (record {
          packet_data = d;
          header = h;
          attempts_remaining = l.max_retries;
          is_sent = false;
        })
        l.retry_store,
  )

  stored-IsKeyed :
      (h : DmqHeader) (d : List ℕ) (l : Link)
      → IsKeyed l.retry_store
      → IsKeyed (store_packet send h d l).retry_store
  stored-IsKeyed h d l w = insert-IsKeyed (header_key h) _ l.retry_store refl w

  send_with_retry-IsLink :
      (now : ℕ) (h : DmqHeader) (d : List ℕ) (l : Link)
      → IsLink l
      → IsLink (send_with_retry send now h d l).1
  unfolding send_with_retry
  send_with_retry-IsLink now h d l w = record {
    keyed = ground (
      arith,
      stored-IsKeyed h d l w.keyed,
      erase-IsKeyed (header_key h) (stored h d l) (stored-IsKeyed h d l w.keyed),
      mark_sent-IsKeyed (header_key h) (stored h d l) (stored-IsKeyed h d l w.keyed),
    );
    ordered = ground (
      arith,
      stored-IsOrdered h d l w.ordered,
      erase-Above 0 (header_key h) (stored h d l) (stored-IsOrdered h d l w.ordered),
      mark_sent-IsOrdered (header_key h) (stored h d l) (stored-IsOrdered h d l w.ordered),
    );
  }

  send_with_retry-budget :
      (now : ℕ) (h : DmqHeader) (d : List ℕ) (l : Link)
      → IsLink l
      → transmissions (header_key h) (send_with_retry send now h d l).1.sent
          + budget (header_key h) (send_with_retry send now h d l).1
        ≤ transmissions (header_key h) l.sent + 1 + l.max_retries
  unfolding send_with_retry
  send_with_retry-budget now h d l w = ground (
    arith,
    lookup-erase 0 (header_key h) (header_key h) (stored h d l) (stored-IsOrdered h d l w.ordered),
    mark_sent-budget (header_key h) (header_key h) (stored h d l),
    stored-budget h d l,
    transmissions-snoc (header_key h) l.sent (record { head = h; payload = d }),
  )

  -- In a link that `IsLink` holds of, however status events for any packets follow a call of
  -- `SendWithRetry`, packets with its key are handed to the transport at most once and `maxRetries`
  -- times more than before the call.
  pub send_with_retry-bounded :
      (now : ℕ) (h : DmqHeader) (d : List ℕ) (l : Link) (es : List Heard)
      → IsLink l
      → transmissions (header_key h) (hear es (send_with_retry send now h d l).1).sent
        ≤ transmissions (header_key h) l.sent + 1 + l.max_retries
  send_with_retry-bounded now h d l es w = omega (
    arith,
    hear-budget es (header_key h) (send_with_retry send now h d l).1
        (send_with_retry-IsLink now h d l w),
    send_with_retry-budget now h d l w,
  )

  -- In a link that `IsLink` holds of, `SendWithRetry` has one of three outcomes. The packet is
  -- handed to the transport, stored as sent with all its retries, and watched by the monitor; or
  -- the transport refuses it, and it is forgotten while the monitor goes on waiting for its
  -- acknowledgement; or the monitor is full, and nothing is handed over or stored.
  pub send_with_retry_cases :
      (now : ℕ) (h : DmqHeader) (d : List ℕ) (l : Link)
      → IsLink l
      → (((send_with_retry send now h d l).0 ≡ accepted)
          × ((send_with_retry send now h d l).1.sent
              ≡ l.sent ++ (record { head = h; payload = d } ∷ []))
          × (lookup (header_key h) (send_with_retry send now h d l).1.retry_store
              ≡ some (record {
                packet_data = d;
                header = h;
                attempts_remaining = l.max_retries;
                is_sent = true;
              }))
          × (lookup (header_key h) (send_with_retry send now h d l).1.monitor.pending
              ≡ some (record { remote_id = h.id; seq_num = h.seq_num; time_stamp = now })))
        ⊎ ((((send_with_retry send now h d l).0 ≡ send_failed)
              × (lookup (header_key h) (send_with_retry send now h d l).1.retry_store ≡ none)
              × (lookup (header_key h) (send_with_retry send now h d l).1.monitor.pending
                  ≡ some (record { remote_id = h.id; seq_num = h.seq_num; time_stamp = now })))
            ⊎ (((send_with_retry send now h d l).0 ≡ monitor_full)
                × (lookup (header_key h) (send_with_retry send now h d l).1.retry_store ≡ none)
                × ((send_with_retry send now h d l).1.sent ≡ l.sent)))
  unfolding send_with_retry add
  send_with_retry_cases now h d l w = ground (
    arith,
    lookup-erase 0 (header_key h) (header_key h) (stored h d l) (stored-IsOrdered h d l w.ordered),
    lookup-insert (header_key h) (header_key h)
        (record { remote_id = h.id; seq_num = h.seq_num; time_stamp = now }) l.monitor.pending,
    lookup-insert (header_key h) (header_key h)
        (record {
          packet_data = d;
          header = h;
          attempts_remaining = l.max_retries;
          is_sent = false;
        })
        l.retry_store,
    lookup-insert (header_key h) (header_key h)
        (record { packet_data = d; header = h; attempts_remaining = l.max_retries; is_sent = true })
        (stored h d l),
  )
