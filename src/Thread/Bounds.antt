-- ===== src/Thread/Bounds.antt =====
-- The size limit of the queue and the outcomes of `DispatchDelegate` (Thread.cpp).
use async_duck_db.Common.{◌+◌, ◌≤◌, ◌<◌, ◌≡◌, [], ◌∷◌, arith, length-append}
use async_duck_db.Thread.{
  Thread, DelegateMsg, queue_size, push_back, dispatch_message, dispatch_delegate,
}

module _ {ℓ} {I : Type ℓ} where
  -- A size limit of 0 is no limit.
  abbrev pub IsBounded : Thread I → Type 0
  IsBounded t = 0 < t.max_queue_size → queue_size t ≤ t.max_queue_size

  queue_size-push_back :
      (d : DelegateMsg I) (t : Thread I)
      → queue_size (push_back (dispatch_message d) t) ≡ queue_size t + 1
  queue_size-push_back d t = ground (
    arith,
    length-append t.high_queue (dispatch_message d ∷ []),
    length-append t.normal_queue (dispatch_message d ∷ []),
  )

  -- No call of `DispatchDelegate` takes the queue over its limit, where there is one and it was
  -- kept before, whatever the other threads do during a wait for room, as long as they keep to it
  -- too.
  pub dispatch_delegate-IsBounded :
      (others : Thread I → Thread I) (d : DelegateMsg I) (t : Thread I)
      → ((u : Thread I) → IsBounded u → IsBounded (others u))
      → IsBounded t
      → IsBounded (dispatch_delegate others d t).1
  unfolding dispatch_delegate
  dispatch_delegate-IsBounded others d t keep b =
      ground (arith, keep t b, queue_size-push_back d t, queue_size-push_back d (others t))
