-- ===== src/Async/Task.antt =====
-- The tasks of DuckDB/async_duckdb.cpp and what they share. `R` is the type of what a task returns
-- and `St` that of the state that tasks work on, which only the worker touches.
use async_duck_db.Common.{ℕ, Option, none, some, update}
use async_duck_db.Semaphore
use async_duck_db.Semaphore.{Semaphore, signal}
use async_duck_db.Thread.{Thread}
use async_duck_db.Thread.Process.{Invoked, succeeded, raised}

-- The exceptions of the wrapper, and those of the engine by number.
pub data Exn : Type 0 where
  timed_out index_too_low index_too_high no_thread broken_promise : Exn
  engine_error : ℕ → Exn

-- How a call ends. `crashed` is the end of the process: a fault, or a null pointer followed.
pub data Outcome {ℓ} (A : Type ℓ) : Type ℓ where
  value : A → Outcome A
  thrown : Exn → Outcome A
  crashed : Outcome A

-- Where the wrapper lambda of `RunSync` or `RunAsync` puts the outcome; the tasks of destructors
-- have no wrapper.
pub data Sink : Type 0 where
  slot promise : ℕ → Sink
  detached : Sink

pub record Task (St R : Type 0) : Type 0 where
  pub sink : Sink
  pub body : St → Outcome R × St

-- `SyncState`
pub record SyncState (R : Type 0) : Type 0 where
  pub sema : Semaphore
  pub ex : Option Exn
  pub result : Option R

-- the shared state of a `std::promise`
pub data Promise (R : Type 0) : Type 0 where
  pending broken : Promise R
  fulfilled : R → Promise R
  rejected : Exn → Promise R

-- What the worker works on: the engine's state, the `SyncState`s and the promises.
pub record Shared (St R : Type 0) : Type 0 where
  pub store : St
  pub slots : ℕ → SyncState R
  pub promises : ℕ → Promise R

-- `central` is `CentralThread`, the number of a thread; `DuckThread` is number 0.
pub record World (St R : Type 0) : Type 0 where
  pub shared : Shared St R
  pub central : Option ℕ
  pub threads : ℕ → Thread (Task St R)
  pub next_slot : ℕ
  pub next_promise : ℕ

abbrev pub empty_slot : {R : Type 0} → SyncState R
empty_slot = record { sema = Semaphore.fresh; ex = none; result = none }

module _ {St R : Type 0} where
  -- the outcome of a task in its wrapper: `state->result`, `state->ex` and the signal, or the
  -- promise's `set_value` and `set_exception`
  abbrev pub deliver : Sink → Outcome R → Shared St R → Invoked × Shared St R
  deliver (slot n) (value r) s =
      let old = s.slots n in
      (
        succeeded,
        record s {
          slots = update s.slots n (record old { sema = signal old.sema; result = some r });
        },
      )
  deliver (slot n) (thrown e) s =
      let old = s.slots n in
      (
        succeeded,
        record s { slots = update s.slots n (record old { sema = signal old.sema; ex = some e }) },
      )
  deliver (slot n) crashed s = (raised, s)
  deliver (promise n) (value r) s =
      (succeeded, record s { promises = update s.promises n (fulfilled r) })
  deliver (promise n) (thrown e) s =
      (succeeded, record s { promises = update s.promises n (rejected e) })
  deliver (promise n) crashed s = (raised, s)
  deliver detached (value r) s = (succeeded, s)
  deliver detached (thrown e) s = (raised, s)
  deliver detached crashed s = (raised, s)

  -- the task, run on the worker by `DelegateFunctionAsync::Invoke`
  unfoldable pub invoke : Task St R → Shared St R → Invoked × Shared St R
  invoke task s =
      let (o, store) = task.body s.store in deliver task.sink o (record s { store = store })
