-- ===== src/Timer/Linked.antt =====
-- The list of the timers of DelegateMQ/extras/util/Timer.cpp.
use async_duck_db.Common.{
  ℕ, zero, suc, ◌≡◌, ap, subst, Bool, true, false, ◌&&◌, List, [], ◌∷◌, ◌==◌, if◌then◌else◌, arith,
  contains, IsSimple, keep_if,
}
use async_duck_db.Timer.{
  Timers, Readings, new_timer, check_expired, walk, purge, process_timers, Processed, ran, faulted,
  also_expired, create_timer, destroy_timer, start, stop, unlink,
}
use async_duck_db.Timer.Expiry.{keep_if-IsSimple}

-- No timer is linked twice, an enabled one is linked, and a linked one that is not enabled has set the
-- flag that makes `ProcessTimers` remove it.
pub record IsTimers (s : Timers) : Type 0 where
  pub simple : IsSimple s.linked
  pub listed : (i : ℕ) → (s.timer i).enabled ≡ true → contains i s.linked ≡ true
  pub tidy : (i : ℕ) → s.stopped ≡ false → contains i s.linked ≡ true → (s.timer i).enabled ≡ true

contains-unlink :
    (i j : ℕ) (xs : List ℕ)
    → IsSimple xs
    → contains j (unlink i xs) ≡ (if i == j then false else contains j xs)
contains-unlink i j [] u = ground arith
contains-unlink i j (k ∷ xs) u = ground (arith, contains-unlink i j xs)

unlink-IsSimple : (i : ℕ) (xs : List ℕ) → IsSimple xs → IsSimple (unlink i xs)
unlink-IsSimple i [] u = tt
unlink-IsSimple i (k ∷ xs) u = ground (arith, unlink-IsSimple i xs u.1, contains-unlink i k xs u.1)

same_test : (p : ℕ → Bool) (x i : ℕ) → x ≡ i → p x ≡ p i
same_test p x i q = ap p q

contains-keep_if :
    (p : ℕ → Bool) (i : ℕ) (xs : List ℕ) → contains i (keep_if p xs) ≡ (p i && contains i xs)
contains-keep_if p i [] = ground arith
contains-keep_if p i (x ∷ xs) = ground (arith, contains-keep_if p i xs, same_test p x i)

start-IsTimers :
    (now t : ℕ) (once : Bool) (i : ℕ) (s : Timers) → IsTimers s → IsTimers (start now t once i s).1
unfolding start
start-IsTimers now zero once i s w = w
start-IsTimers now (suc t) once i s w = record {
  simple = ground (arith, w.simple);
  listed = λ j h. ground (arith, w.listed j);
  tidy = λ j f h. ground (arith, w.tidy j);
}

stop-IsTimers : (i : ℕ) (s : Timers) → IsTimers s → IsTimers (stop i s)
unfolding stop
stop-IsTimers i s w = record {
  simple = w.simple;
  listed = λ j h. ground (arith, w.listed j);
  tidy = λ j f h. ground arith;
}

destroy_timer-IsTimers : (i : ℕ) (s : Timers) → IsTimers s → IsTimers (destroy_timer i s)
unfolding destroy_timer
destroy_timer-IsTimers i s w = record {
  simple = unlink-IsSimple i s.linked w.simple;
  listed = λ j h. ground (arith, w.listed j, contains-unlink i j s.linked w.simple);
  tidy = λ j f h. ground (arith, w.tidy j, contains-unlink i j s.linked w.simple);
}

expire-IsTimers :
    (r : Readings) (i : ℕ) (s : Timers) → IsTimers s → IsTimers (check_expired r i s).1
unfolding check_expired
expire-IsTimers r i s w = record {
  simple = ground (arith, w.simple);
  listed = λ j h. ground (arith, w.listed j);
  tidy = λ j f h. ground (arith, w.tidy j);
}

purge-IsTimers : (s : Timers) → IsTimers s → IsTimers (purge s)
unfolding purge
purge-IsTimers s w = record {
  simple = ground (arith, w.simple, keep_if-IsSimple (λ i. (s.timer i).enabled) s.linked w.simple);
  listed =
      λ j h. ground (arith, w.listed j, contains-keep_if (λ i. (s.timer i).enabled) j s.linked);
  tidy = λ j f h. ground (arith, w.tidy j, contains-keep_if (λ i. (s.timer i).enabled) j s.linked);
}

abbrev pub Ran : Processed → Type 0
Ran (ran es s) = IsTimers s
Ran faulted = Unit

also_expired-Ran : (i : ℕ) (p : Processed) → Ran p → Ran (also_expired i p)
also_expired-Ran i (ran es s) w = w
also_expired-Ran i faulted w = w

walk-Ran :
    (clock : ℕ → Readings) (room : ℕ) (rest : List ℕ) (s : Timers)
    → IsTimers s
    → Ran (walk clock room rest s)
unfolding walk
walk-Ran clock room [] s w = w
walk-Ran clock zero (i ∷ rest) s w = tt
walk-Ran clock (suc room) (i ∷ rest) s w =
    elim (check_expired (clock i) i s).0
      as (λ b. Ran (
        if b
        then also_expired i (walk clock room rest (check_expired (clock i) i s).1)
        else walk clock (suc room) rest (check_expired (clock i) i s).1)) [
          | true ↦
              also_expired-Ran i _ (walk-Ran clock room rest _ (expire-IsTimers (clock i) i s w))
          | false ↦ walk-Ran clock (suc room) rest _ (expire-IsTimers (clock i) i s w)
        ]

-- what programs do with timers: one that is made is not linked
pub data Step (s : Timers) : Timers → Type 0 where
  created : (i : ℕ) → contains i s.linked ≡ false → Step s (create_timer i s)
  destroyed : (i : ℕ) → Step s (destroy_timer i s)
  was_started : (now t : ℕ) (once : Bool) (i : ℕ) → Step s (start now t once i s).1
  was_stopped : (i : ℕ) → Step s (stop i s)
  timers_ran :
      (clock : ℕ → Readings) (es : List ℕ) (k : Timers)
      → process_timers clock s ≡ ran es k
      → Step s k

pub data Reachable : Timers → Type 0 where
  at_start : Reachable (record { timer = λ i. new_timer; linked = []; stopped = false })
  next : {s k : Timers} → Reachable s → Step s k → Reachable k

Step-IsTimers : {s k : Timers} → Step s k → IsTimers s → IsTimers k
unfolding create_timer process_timers
Step-IsTimers {s = s} (created i f) w = record {
  simple = w.simple;
  listed = λ j h. ground (arith, w.listed j);
  tidy = λ j g h. ground (arith, w.tidy j);
}
Step-IsTimers {s = s} (destroyed i) w = destroy_timer-IsTimers i s w
Step-IsTimers {s = s} (was_started now t once i) w = start-IsTimers now t once i s w
Step-IsTimers {s = s} (was_stopped i) w = stop-IsTimers i s w
Step-IsTimers {s = s} (timers_ran clock es k q) w =
    subst Ran q (walk-Ran clock 16 (purge s).linked (purge s) (purge-IsTimers s w))

-- In every state that making, ending, starting and stopping timers and `ProcessTimers` reach from
-- the start, no timer is linked twice, every enabled timer is linked, so that `ProcessTimers` sees
-- it, and if one is linked but not enabled, the flag for its removal is up.
pub Reachable-IsTimers : {s : Timers} → Reachable s → IsTimers s
Reachable-IsTimers at_start = record { simple = tt; listed = λ i h. cc; tidy = λ i h g. cc }
Reachable-IsTimers (next r t) = Step-IsTimers t (Reachable-IsTimers r)
