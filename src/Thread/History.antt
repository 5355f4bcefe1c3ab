-- ===== src/Thread/History.antt =====
-- Histories of the two queues of Thread.cpp, over any interleaving of producers and the worker. A
-- producer that waits for room under `FullPolicy::TIMEOUT` changes nothing while it waits: its call is
-- an event at the moment at which the wait ends.
use async_duck_db.Common.{
  ◌≡◌, refl, Bool, true, false, List, [], ◌∷◌, ◌++◌, append_assoc, append-nil, none, some, arith,
  All, keep_if,
}
use async_duck_db.Thread.{
  Thread, ThreadMsg, DelegateMsg, Priority, normal, high, Dispatched, posted, refused, threw,
  faulted, message_priority, dispatch_message, dispatch_delegate, take_next,
}

-- A thread with what producers got accepted and what its worker has taken so far.
pub record History {ℓ} (I : Type ℓ) : Type ℓ where
  pub thread : Thread I
  pub accepted : List (ThreadMsg I)
  pub taken : List (ThreadMsg I)

pub data Event {ℓ} (I : Type ℓ) : Type ℓ where
  produce : DelegateMsg I → Event I
  consume : Event I

module _ {ℓ} {I : Type ℓ} where
  abbrev pub same_priority : Priority → ThreadMsg I → Bool
  same_priority high m = elim (message_priority m) [ high ↦ true | normal ↦ false ]
  same_priority normal m = elim (message_priority m) [ high ↦ false | normal ↦ true ]

  abbrev pub queue_of : Priority → Thread I → List (ThreadMsg I)
  queue_of high t = t.high_queue
  queue_of normal t = t.normal_queue

  -- The messages of one priority, in order.
  abbrev pub select : Priority → List (ThreadMsg I) → List (ThreadMsg I)
  select p = keep_if (same_priority p)

  -- Every message waits in the queue of its priority.
  abbrev pub IsSorted : Thread I → Type 0
  IsSorted t =
      All (λ m. same_priority high m ≡ true) t.high_queue
      × All (λ m. same_priority normal m ≡ true) t.normal_queue

  abbrev pub record_post : History I → DelegateMsg I → Dispatched → Thread I → History I
  record_post h d posted t = record {
    thread = t;
    accepted = h.accepted ++ (dispatch_message d ∷ []);
    taken = h.taken;
  }
  record_post h d refused t = record h { thread = t }
  record_post h d threw t = record h { thread = t }
  record_post h d faulted t = record h { thread = t }

  -- A producer's call of `DispatchDelegate`, or the worker's taking of a message.
  unfoldable pub event : History I → Event I → History I
  event h (produce d) = let r = dispatch_delegate (λ t. t) d h.thread in record_post h d r.0 r.1
  event h consume = elim (take_next h.thread) [
    | none ↦ h
    | some (m, t) ↦ record { thread = t; accepted = h.accepted; taken = h.taken ++ (m ∷ []) }
  ]

  unfoldable pub events : History I → List (Event I) → History I
  events h [] = h
  events h (e ∷ es) = events (event h e) es

  -- The accepted messages of a priority are those taken, then those that wait, in order.
  abbrev pub InOrder : History I → Type ℓ
  InOrder h =
      IsSorted h.thread
      × (select high h.accepted ≡ select high h.taken ++ h.thread.high_queue)
      × (select normal h.accepted ≡ select normal h.taken ++ h.thread.normal_queue)

  keep_if-append :
      (f : ThreadMsg I → Bool) (xs ys : List (ThreadMsg I))
      → keep_if f (xs ++ ys) ≡ keep_if f xs ++ keep_if f ys
  keep_if-append f [] ys = refl
  keep_if-append f (x ∷ xs) ys = ground (arith, keep_if-append f xs ys)

  select-same :
      (p : Priority) (m : ThreadMsg I) (xs : List (ThreadMsg I))
      → same_priority p m ≡ true
      → select p (xs ++ (m ∷ [])) ≡ select p xs ++ (m ∷ [])
  select-same p m xs e = rw (keep_if-append (same_priority p) xs (m ∷ [])) (rw e)

  pub select-other :
      (p : Priority) (m : ThreadMsg I) (xs : List (ThreadMsg I))
      → same_priority p m ≡ false
      → select p (xs ++ (m ∷ [])) ≡ select p xs
  select-other p m xs e =
      rw (keep_if-append (same_priority p) xs (m ∷ [])) (rw e (append-nil (select p xs)))

  -- an accepted message goes to the end of the queue of its priority
  pub accept_same :
      (p : Priority) (m : ThreadMsg I) (accepted taken queue : List (ThreadMsg I))
      → same_priority p m ≡ true
      → select p accepted ≡ select p taken ++ queue
      → select p (accepted ++ (m ∷ [])) ≡ select p taken ++ (queue ++ (m ∷ []))
  accept_same p m accepted taken queue e o =
      rw (select-same p m accepted e, o, append_assoc (select p taken) queue (m ∷ []))

  -- a message that leaves the front of a queue is the next of its priority
  pub take_same :
      (p : Priority) (m : ThreadMsg I) (accepted taken queue : List (ThreadMsg I))
      → same_priority p m ≡ true
      → select p accepted ≡ select p taken ++ (m ∷ queue)
      → select p accepted ≡ select p (taken ++ (m ∷ [])) ++ queue
  take_same p m accepted taken queue e o =
      rw (select-same p m taken e, o, append_assoc (select p taken) (m ∷ []) queue)
