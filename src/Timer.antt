-- ===== src/Timer.antt =====
-- DelegateMQ/extras/util/Timer.h and Timer.cpp. Timers are numbered; the intrusive list is the list of
-- their numbers from its head on. Times are counts of the library's `Duration`.
pub mod Expiry
pub mod Linked
mod Tests
use async_duck_db.Common.{
  ℕ, zero, suc, ◌+◌, Bool, true, false, ◌&&◌, not, List, [], ◌∷◌, Option, none, some, ◌==◌, ltb,
  leb, if◌then◌else◌, update, contains, keep_if,
}

abbrev pub max_timer_expired : ℕ
max_timer_expired = 16

pub record Timer : Type 0 where
  pub timeout : ℕ
  pub expire_time : ℕ
  pub enabled : Bool
  pub once : Bool

-- the timers, the list of `GetTimersHead` and `m_timerStopped`
pub record Timers : Type 0 where
  pub timer : ℕ → Timer
  pub linked : List ℕ
  pub stopped : Bool

-- what `GetNow` answers to the three calls in `CheckExpired`
pub record Readings : Type 0 where
  pub at_test : ℕ
  pub at_compare : ℕ
  pub at_reset : ℕ

abbrev pub set_timer : ℕ → Timer → Timers → Timers
set_timer i t s = record s { timer = update s.timer i t }

-- the constructor
abbrev pub new_timer : Timer
new_timer = record { timeout = 0; expire_time = 0; enabled = false; once = false }

unfoldable pub create_timer : ℕ → Timers → Timers
create_timer i s = set_timer i new_timer s

abbrev pub unlink : ℕ → List ℕ → List ℕ
unlink i [] = []
unlink i (j ∷ rest) = if j == i then rest else j ∷ unlink i rest

-- the destructor: the object is gone, so its fields are those of no timer
unfoldable pub destroy_timer : ℕ → Timers → Timers
destroy_timer i s = record s { timer = update s.timer i new_timer; linked = unlink i s.linked }

abbrev pub started : ℕ → ℕ → Bool → Timer
started now timeout once = record {
  timeout = timeout;
  expire_time = now + timeout;
  enabled = true;
  once = once;
}

-- `Start`: false for the exception on a timeout of 0
unfoldable pub start : ℕ → ℕ → Bool → ℕ → Timers → Bool × Timers
start now zero once i s = (false, s)
start now (suc n) once i s = (
  true,
  record s {
    timer = update s.timer i (started now (suc n) once);
    linked = if contains i s.linked then s.linked else i ∷ s.linked;
  },
)

unfoldable pub stop : ℕ → Timers → Timers
stop i s = record s {
  timer = update s.timer i (record (s.timer i) { enabled = false });
  stopped = true;
}

abbrev pub is_due : Readings → Timer → Bool
is_due r t = t.enabled && not (ltb r.at_test t.expire_time)

-- the next expiration of a periodic timer
abbrev pub next_expire : Readings → Timer → ℕ
next_expire r t =
    if ltb (t.expire_time + t.timeout) r.at_compare then r.at_reset else t.expire_time + t.timeout

abbrev pub expire : Readings → ℕ → Timers → Timers
expire r i s =
    if (s.timer i).once
    then record s {
      timer = update s.timer i (record (s.timer i) { enabled = false });
      stopped = true;
    }
    else set_timer i (record (s.timer i) { expire_time = next_expire r (s.timer i) }) s

unfoldable pub check_expired : Readings → ℕ → Timers → Bool × Timers
check_expired r i s = if is_due r (s.timer i) then (true, expire r i s) else (false, s)

-- the removal of the timers that are not enabled
unfoldable pub purge : Timers → Timers
purge s =
    if s.stopped
    then record s { linked = keep_if (λ i. (s.timer i).enabled) s.linked; stopped = false }
    else s

-- What `ProcessTimers` did: the timers whose snapshots it calls after the lock, in order, or the call
-- of the fault handler, which does not return.
pub data Processed : Type 0 where
  ran : List ℕ → Timers → Processed
  faulted : Processed

abbrev pub also_expired : ℕ → Processed → Processed
also_expired i (ran expired s) = ran (i ∷ expired) s
also_expired i faulted = faulted

module _ (clock : ℕ → Readings) where
  -- `room` is how many more snapshots fit
  unfoldable pub walk : ℕ → List ℕ → Timers → Processed
  walk room [] s = ran [] s
  walk zero (i ∷ rest) s = faulted
  walk (suc room) (i ∷ rest) s =
      let checked = check_expired (clock i) i s in
      let fewer = walk room rest checked.1 in
      let same = walk (suc room) rest checked.1 in if checked.0 then also_expired i fewer else same

  unfoldable pub process_timers : Timers → Processed
  process_timers s = walk max_timer_expired (purge s).linked (purge s)
