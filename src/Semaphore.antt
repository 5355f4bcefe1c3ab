-- ===== src/Semaphore.antt =====
-- The binary semaphore of DelegateMQ/delegate/Semaphore.h.
-- A wait releases the lock until it is notified or its time is over; `others` is what the other
-- threads do to the semaphore in that time. The predicate of the wait is evaluated before and after.
use async_duck_db.Common.{◌≡◌, arith, Bool, true, false, Option, none, some, if◌then◌else◌}

pub record Semaphore : Type 0 where
  pub signaled : Bool

abbrev pub fresh : Semaphore
fresh = record { signaled = false }

unfoldable pub signal : Semaphore → Semaphore
signal s = record s { signaled = true }

-- The end of the wait: the flag is taken if it is up. `none` is a wait that never ends, which only
-- a wait with no timeout (`Duration::max()`) can be.
settle : Bool → Semaphore → Option (Bool × Semaphore)
settle infinite s =
    if s.signaled
    then some (true, record s { signaled = false })
    else if infinite
    then none
    else some (false, s)

unfoldable pub wait : Bool → (Semaphore → Semaphore) → Semaphore → Option (Bool × Semaphore)
unfolding settle
wait infinite others s = settle infinite (if s.signaled then s else others s)

-- A wait with a timeout returns `true` exactly when the flag is up at its end, and takes the flag.
pub wait-signaled :
    (others : Semaphore → Semaphore) (s : Semaphore)
    → s.signaled ≡ true
    → wait false others s ≡ some (true, fresh)
unfolding wait
wait-signaled others s e = ground arith

pub wait-unsignaled :
    (others : Semaphore → Semaphore) (s : Semaphore)
    → s.signaled ≡ false
    → wait false others s
      ≡ (if (others s).signaled then some (true, fresh) else some (false, others s))
unfolding wait
wait-unsignaled others s e = ground arith
