-- ===== src/Thread/Process.antt =====
-- `Thread::Process`, the loop of the worker (Thread.cpp). `S` is the state that the delegates work
-- on and `invoke` what an invoker does to it; a turn takes one message and invokes it. The statistics
-- that DMQ_DATABUS_TOOLS turns on are left out, and so is a thread that destroys its owner.
use async_duck_db.Common.{ℕ, zero, suc, Option, none, some, if◌then◌else◌}
use async_duck_db.Thread.{Thread, ThreadMsg, DelegateMsg, dispatch, exit, take_next}

-- What `Invoke` does: it returns `true` or `false`, or an exception comes out of it.
pub data Invoked : Type 0 where
  succeeded failed raised : Invoked

-- How a turn of the loop ends. `waits` is the empty queue, where the condition variable blocks; with a
-- watchdog it does so for a tenth of its timeout, and the turn that follows only sets the time again.
pub data Turn : Type 0 where
  continues waits exits faults : Turn

abbrev pub after_invoke : Invoked → Turn
after_invoke succeeded = continues
after_invoke failed = faults
after_invoke raised = faults

module _ {ℓ κ} {I : Type ℓ} {S : Type κ} where
  -- the body of `case MSG_DISPATCH_DELEGATE`
  abbrev pub run_delegate : (I → S → Invoked × S) → Option (DelegateMsg I) → S → Turn × S
  run_delegate invoke none s = (continues, s)
  run_delegate invoke (some d) s = elim d.invoker [
    | none ↦ (continues, s)
    | some i ↦ (after_invoke (invoke i s).0, (invoke i s).1)
  ]

  -- the `switch` on the message's id
  abbrev pub run_message : (I → S → Invoked × S) → ThreadMsg I → S → Turn × S
  run_message invoke m s = elim m.id [
    | dispatch ↦ run_delegate invoke m.payload s
    | exit ↦ (exits, s)
  ]

  -- one turn of the `while` loop, at time `now`
  unfoldable pub process_turn : (I → S → Invoked × S) → ℕ → Thread I → S → Turn × Thread I × S
  process_turn invoke now t s =
      let awake = record t { alive = now } in
      elim (take_next awake) [
        | none ↦ (if t.exiting then exits else waits, awake, s)
        | some (m, rest) ↦ ((run_message invoke m s).0, rest, (run_message invoke m s).1)
      ]

  -- what follows a turn: the rest of the loop, unless the turn ended it
  abbrev pub proceed :
      (Thread I → S → Turn × Thread I × S) → Turn × Thread I × S → Turn × Thread I × S
  proceed rest (continues, t, s) = rest t s
  proceed rest (waits, t, s) = (waits, t, s)
  proceed rest (exits, t, s) = (exits, t, s)
  proceed rest (faults, t, s) = (faults, t, s)

  -- The loop, until it blocks or ends. `continues` is fuel that ran out.
  unfoldable pub process : (I → S → Invoked × S) → (ℕ → ℕ) → ℕ → Thread I → S → Turn × Thread I × S
  process invoke clock zero t s = (continues, t, s)
  process invoke clock (suc fuel) t s =
      proceed (process invoke clock fuel) (process_turn invoke (clock fuel) t s)
