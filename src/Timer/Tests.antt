-- ===== src/Timer/Tests.antt =====
-- Tests of DelegateMQ/extras/util/Timer.cpp.
use async_duck_db.Common.{ℕ, ◌≡◌, refl, true, false, [], ◌∷◌, some}
use async_duck_db.Timer.{
  Timers, Readings, new_timer, start, purge, check_expired, process_timers, walk,
}
use async_duck_db.Timer.Expiry.{expired_of}
use async_duck_db.Timer.Linked.{IsTimers, at_start, next, was_started, Reachable-IsTimers}

abbrev empty : Timers
empty = record { timer = λ i. new_timer; linked = []; stopped = false }

abbrev two : Timers
two = (start 0 5 true 2 (start 0 9 false 1 empty).1).1

abbrev at_ten : ℕ → Readings
at_ten i = record { at_test = 10; at_compare = 10; at_reset = 10 }

both_due : expired_of (process_timers at_ten two) ≡ some (2 ∷ 1 ∷ [])
unfolding process_timers walk purge check_expired start
both_due = refl

Reachable-IsTimers_example : IsTimers two
Reachable-IsTimers_example =
    Reachable-IsTimers (next (next at_start (was_started 0 9 false 1)) (was_started 0 5 true 2))
