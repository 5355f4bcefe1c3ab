-- ===== src/Timer/Expiry.antt =====
-- Which timers `ProcessTimers` (DelegateMQ/extras/util/Timer.cpp) finds expired, and when it faults.
use async_duck_db.Common.{
  ℕ, ◌≤◌, ◌<◌, ◌≡◌, refl, Bool, true, false, not, List, [], ◌∷◌, Option, none, some, leb,
  if◌then◌else◌, arith, contains, IsSimple, keep_if, length, ◌⊎◌,
}
use async_duck_db.Timer.{Timer, Timers, Readings, is_due, check_expired, Processed, ran, faulted}

-- the linked timers that are due, in the order of the list
pub due : (ℕ → Readings) → (ℕ → Timer) → List ℕ → List ℕ
due clock timer = keep_if (λ i. is_due (clock i) (timer i))

-- all but the last
abbrev pub drop_last : List ℕ → List ℕ
drop_last [] = []
drop_last (i ∷ []) = []
drop_last (i ∷ j ∷ rest) = i ∷ drop_last (j ∷ rest)

abbrev pub expired_of : Processed → Option (List ℕ)
expired_of (ran expired s) = some expired
expired_of faulted = none

contains-keep_if :
    (p : ℕ → Bool) (i : ℕ) (xs : List ℕ) → contains i xs ≡ false → contains i (keep_if p xs) ≡ false
contains-keep_if p i [] h = refl
contains-keep_if p i (x ∷ xs) h = ground (arith, contains-keep_if p i xs)

pub keep_if-IsSimple : (p : ℕ → Bool) (xs : List ℕ) → IsSimple xs → IsSimple (keep_if p xs)
keep_if-IsSimple p [] u = tt
keep_if-IsSimple p (x ∷ xs) u =
    ground (arith, keep_if-IsSimple p xs u.1, contains-keep_if p x xs u.0)

module _ (clock : ℕ → Readings) where
  abbrev expected : ℕ → (ℕ → Timer) → List ℕ → Option (List ℕ)
  expected room f rest =
      if leb room (length (due clock f (drop_last rest))) then none else some (due clock f rest)

-- If `CheckExpired` finds a timer with a positive timeout expired, then one that runs once is
-- disabled, and a periodic one stays enabled and is next due later than before, and, with a clock
-- that does not go back, not before the time that its next expiration was compared to.
pub check_expired-next :
    (r : Readings) (i : ℕ) (s : Timers)
    → (check_expired r i s).0 ≡ true
    → 0 < (s.timer i).timeout
    → r.at_compare ≤ r.at_reset
    → (((check_expired r i s).1.timer i).enabled ≡ not (s.timer i).once)
      × ((s.timer i).once ≡ true
          ⊎ ((s.timer i).expire_time < ((check_expired r i s).1.timer i).expire_time
              × r.at_compare ≤ ((check_expired r i s).1.timer i).expire_time))
unfolding check_expired
check_expired-next r i s h p m = ground arith
