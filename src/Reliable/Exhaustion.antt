-- ===== src/Reliable/Exhaustion.antt =====
-- The end of the retries of DelegateMQ/extras/util/RetryMonitor.h.
use async_duck_db.Common.{
  ℕ, ◌<◌, ◌≡◌, ◌⊎◌, inl, inr, sym, ◌∙◌, ap, subst, Bool, true, List, [], ◌∷◌, none, some, arith,
  length, lookup, insert, insert-Above, lookup-insert, lookup-erase,
}
use async_duck_db.Reliable.{timeout, key_of}
use async_duck_db.Reliable.Retry.{Link, Packet, RetryEntry, on_status_changed, on_entry}
use async_duck_db.Reliable.Budget.{IsLink, spend, on_status_changed-IsLink}
use async_duck_db.Reliable.Delivery.{Heard, hear}

-- timeouts of one message at these times
abbrev pub timeouts_at : ℕ → ℕ → List ℕ → List Heard
timeouts_at id seq [] = []
timeouts_at id seq (t ∷ ts) =
    record { time = t; remote = id; seq = seq; status = timeout } ∷ timeouts_at id seq ts

module _ (send : List Packet → Packet → Bool) (id seq : ℕ) where
  -- A timeout of a packet that was sent takes one of its attempts, or there are none and it is
  -- forgotten; a full monitor makes it forgotten at once.
  timeout_cases :
      (now : ℕ) (l : Link) (e : RetryEntry)
      → IsLink l
      → lookup (key_of id seq) l.retry_store ≡ some e
      → e.is_sent ≡ true
      → (lookup (key_of id seq) (on_status_changed send now id seq timeout l).retry_store ≡ none)
        ⊎ ((0 < e.attempts_remaining)
            × (lookup (key_of id seq) (on_status_changed send now id seq timeout l).retry_store
                ≡ some (spend e)))
  unfolding on_status_changed
  timeout_cases now l e w f s =
      subst
        (λ o.
          (lookup (key_of id seq) (on_entry send now (key_of id seq) timeout o l).retry_store
            ≡ none)
          ⊎ ((0 < e.attempts_remaining)
              × (lookup (key_of id seq) (on_entry send now (key_of id seq) timeout o l).retry_store
                  ≡ some (spend e))))
        (sym f)
        (ground (
          arith,
          s,
          lookup-insert (key_of id seq) (key_of id seq) (spend e) l.retry_store,
          lookup-erase 0 (key_of id seq) (key_of id seq) l.retry_store w.ordered,
          lookup-erase 0 (key_of id seq) (key_of id seq)
              (insert (key_of id seq) (spend e) l.retry_store)
              (insert-Above 0 (key_of id seq) (spend e) l.retry_store (omega arith) w.ordered),
        ))

  forgotten_stays :
      (ts : List ℕ) (l : Link)
      → lookup (key_of id seq) l.retry_store ≡ none
      → lookup (key_of id seq) (hear send (timeouts_at id seq ts) l).retry_store ≡ none
  unfolding on_status_changed
  forgotten_stays [] l f = f
  forgotten_stays (t ∷ ts) l f = forgotten_stays ts (on_status_changed send t id seq timeout l) (
      ap (λ o. lookup (key_of id seq) (on_entry send t (key_of id seq) timeout o l).retry_store) f
      ∙ f)

  -- A stored packet that was sent and is not acknowledged is forgotten after one timeout more than it
  -- has attempts, whatever the transport and the monitor answer.
  pub timeouts_exhaust :
      (ts : List ℕ) (l : Link) (e : RetryEntry)
      → IsLink l
      → lookup (key_of id seq) l.retry_store ≡ some e
      → e.is_sent ≡ true
      → e.attempts_remaining < length ts
      → lookup (key_of id seq) (hear send (timeouts_at id seq ts) l).retry_store ≡ none
  timeouts_exhaust [] l e w f s h = absurd (omega arith)
  timeouts_exhaust (t ∷ ts) l e w f s h = elim (timeout_cases t l e w f s) [
    | inl g ↦ forgotten_stays ts (on_status_changed send t id seq timeout l) g
    | inr (p, g) ↦
        timeouts_exhaust ts (on_status_changed send t id seq timeout l) (spend e)
          (on_status_changed-IsLink send t id seq timeout l w) g s (omega (arith, p))
  ]
