-- ===== src/AsyncWait.antt =====
-- DelegateMQ/delegate/DelegateAsyncWait.h: a call of a delegate on another thread that waits for its
-- return value, from the source's `operator()` to the destination's `Invoke`. Each section under the
-- message's lock is one step; the target returns `result`, and `default` is `RetType()`. The delegate is
-- not empty, and is not itself the clone that runs on the destination, which calls the target directly.
pub mod Handshake
mod Tests
use async_duck_db.Common.{ℕ, suc, Bool, true, false, Option, none, some, if◌then◌else◌}
use async_duck_db.Semaphore
use async_duck_db.Semaphore.{Semaphore, signal}

-- Where the source is in `operator()`: before the dispatch, in `Wait`, between `Wait` and the lock with
-- what `Wait` answered, or back at its caller with a value.
pub data Stage (R : Type 0) : Type 0 where
  calling : Stage R
  waiting : Stage R
  woken : Bool → Stage R
  returned : R → Stage R

-- One call: the delegate's `m_success` and `m_retVal`, the clone's `m_retVal`, and the message with its
-- semaphore and flag; whether the message is queued, and how often the target was called.
pub record Call (R : Type 0) : Type 0 where
  pub stage : Stage R
  pub success : Bool
  pub ret_val : Option R
  pub clone_ret_val : Option R
  pub sema : Semaphore
  pub invoker_waiting : Bool
  pub queued : Bool
  pub target_calls : ℕ

module _ {R : Type 0} where
  abbrev pub value_or : R → Option R → R
  value_or default none = default
  value_or default (some r) = r

  -- the start of `operator()`, up to the new message
  abbrev pub new_call : Call R
  new_call = record {
    stage = calling;
    success = false;
    ret_val = none;
    clone_ret_val = none;
    sema = Semaphore.fresh;
    invoker_waiting = true;
    queued = false;
    target_calls = 0;
  }

  -- `DispatchDelegate` of the message, and its answer
  unfoldable pub dispatch : Bool → Call R → Call R
  dispatch true c = record c { stage = waiting; queued = true }
  dispatch false c = record c { stage = woken false }

  -- the end of `Wait`: it takes the signal, or its time is over
  unfoldable pub wake : Call R → Call R
  wake c =
      if c.sema.signaled
      then record c { stage = woken true; sema = record { signaled = false } }
      else record c { stage = woken false }

  abbrev pub take_value : Bool → Call R → Call R
  take_value true c = record c { success = true; ret_val = c.clone_ret_val }
  take_value false c = c

  abbrev pub answer_caller : R → Call R → Call R
  answer_caller default c = record c {
    invoker_waiting = false;
    stage = returned (value_or default c.ret_val);
  }

  -- the last section of `operator()`, under the lock
  unfoldable pub finish : R → Bool → Call R → Call R
  finish default waited c = answer_caller default (take_value waited c)

  -- `Invoke` on the destination thread, under the lock
  unfoldable pub invoke : R → Call R → Call R
  invoke result c =
      if c.invoker_waiting
      then record c {
        clone_ret_val = some result;
        sema = signal c.sema;
        queued = false;
        target_calls = suc c.target_calls;
      }
      else record c { queued = false }

  -- `AsyncInvoke`: the value, if `IsSuccess`
  unfoldable pub async_invoke : Call R → R → Option R
  async_invoke c r = if c.success then some r else none
