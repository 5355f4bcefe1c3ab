-- ===== src/AsyncWait/Tests.antt =====
-- Tests of DelegateMQ/delegate/DelegateAsyncWait.h: the target returns 7, and the default is 0.
use async_duck_db.Common.{ℕ, ◌≤◌, ◌≡◌, ◌⊎◌, refl, true, false, none, some}
use async_duck_db.Semaphore.{signal}
use async_duck_db.AsyncWait.{Call, returned, new_call, dispatch, wake, finish, invoke, async_invoke}
use async_duck_db.AsyncWait.Handshake.{
  Reachable, at_start, next, dispatched, wait_ended, finished, invoked, returned_cases,
  returned_final,
}

abbrev seven : ℕ
seven = 7

abbrev served : Call ℕ
served = finish 0 true (wake (invoke 7 (dispatch true new_call)))

abbrev served-Reachable : Reachable 7 0 served
unfolding dispatch wake finish invoke signal
served-Reachable =
    next (next (next (next at_start (dispatched true refl)) (invoked refl)) (wait_ended refl))
      (finished true refl)

-- The time of the source is over, and the destination takes the lock before it.
abbrev overtaken : Call ℕ
overtaken = finish 0 false (invoke 7 (wake (dispatch true new_call)))

overtaken-Reachable : Reachable 7 0 overtaken
unfolding dispatch wake finish invoke signal
overtaken-Reachable =
    next (next (next (next at_start (dispatched true refl)) (wait_ended refl)) (invoked refl))
      (finished false refl)

overtaken_is_called : overtaken.target_calls ≡ 1
unfolding dispatch wake finish invoke signal
overtaken_is_called = refl

overtaken_fails : overtaken.success ≡ false
unfolding dispatch wake finish invoke signal
overtaken_fails = refl

returned_cases_example :
    ((served.success ≡ true)
      × (served.target_calls ≡ 1)
      × (seven ≡ 7)
      × (async_invoke served 7 ≡ some 7))
    ⊎ ((served.success ≡ false)
        × (served.target_calls ≤ 1)
        × (seven ≡ 0)
        × (async_invoke served 7 ≡ none))
unfolding dispatch wake finish invoke signal
returned_cases_example = returned_cases 7 0 served 7 served-Reachable refl

abbrev timed_out : Call ℕ
timed_out = finish 0 false (wake (dispatch true new_call))

abbrev timed_out-Reachable : Reachable 7 0 timed_out
unfolding dispatch wake finish invoke signal
timed_out-Reachable =
    next (next (next at_start (dispatched true refl)) (wait_ended refl)) (finished false refl)

returned_final_example :
    ((invoke 7 timed_out).stage ≡ returned 0)
    × ((invoke 7 timed_out).target_calls ≡ timed_out.target_calls)
unfolding dispatch wake finish
returned_final_example =
    returned_final 7 0 timed_out (invoke 7 timed_out) 0 timed_out-Reachable refl (invoked refl)
