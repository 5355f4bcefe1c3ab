-- ===== src/Async/Dispatch.antt =====
-- The core of DuckDB/async_duckdb.cpp: `DispatchTask`, `RunAsync`, `RunSync` and the life of the
-- worker. What happens in the meantime is an argument: `room`, what the other threads do while a
-- producer waits for room in the queue, and `meanwhile`, what happens until a waiting caller is
-- signaled or its time is over.
use async_duck_db.Common.{
  ℕ, suc, Bool, true, false, ◌&&◌, ◌==◌, Option, none, some, update, if◌then◌else◌,
}
use async_duck_db.Semaphore
use async_duck_db.Thread.{
  Thread, DelegateMsg, normal, Dispatched, posted, refused, threw, faulted, dispatch_delegate,
  create_thread,
}
use async_duck_db.Thread.Process.{Turn, exits, process}
use async_duck_db.Thread.Drain.{exit_thread}
use async_duck_db.Async.Task.{
  Shared, Exn, timed_out, no_thread, Outcome, value, thrown, crashed, slot, promise, Task,
  SyncState, Promise, pending, broken, fulfilled, rejected, World, empty_slot, invoke,
}

pub record Env (St R : Type 0) : Type 0 where
  pub room : Thread (Task St R) → Thread (Task St R)
  pub meanwhile : World St R → World St R

-- `AsyncInvoke` drops the answer of `DispatchDelegate`; whether the message was posted is kept
-- here for `RunAsync`, whose promise dies with a message that was not.
abbrev pub posting : Dispatched → Outcome Bool
posting posted = value true
posting refused = value false
posting threw = thrown no_thread
posting faulted = crashed

-- `future.get()`. `none` blocks.
abbrev pub get_future : {R : Type 0} → Promise R → Option (Outcome R)
get_future pending = none
get_future broken = some (thrown Exn.broken_promise)
get_future (fulfilled r) = some (value r)
get_future (rejected e) = some (thrown e)

-- the end of `RunSync`, once it was signaled; `check` is the test of `HasError` on a result that
-- points to a `QueryResult`
abbrev pub resolve : {R : Type 0} → (R → Outcome R) → SyncState R → Outcome R
resolve check s = elim s.ex [
  | some e ↦ thrown e
  | none ↦ elim s.result [ some r ↦ check r | none ↦ crashed ]
]

module _ {St R : Type 0} where
  -- `MakeDelegate(task, *thread)` makes a message of normal priority.
  abbrev pub task_message : Task St R → DelegateMsg (Task St R)
  task_message task = record { invoker = some task; priority = normal }

  -- `DispatchTask`
  unfoldable pub dispatch_task : Env St R → Task St R → World St R → Outcome Bool × World St R
  dispatch_task env task w = elim w.central [
    | none ↦ (value false, w)
    | some n ↦ (
      posting (dispatch_delegate env.room (task_message task) (w.threads n)).0,
      record w {
        threads =
            update w.threads n (dispatch_delegate env.room (task_message task) (w.threads n)).1;
      },
    )
  ]

  -- The worker of thread `n`, for at most `fuel` turns.
  unfoldable pub work : ℕ → (ℕ → ℕ) → ℕ → World St R → Turn × World St R
  work n clock fuel w =
      let (turn, t, s) = process invoke clock fuel (w.threads n) w.shared in
      (turn, record w { shared = s; threads = update w.threads n t })

  -- the end of `RunAsync`: a message that was not posted takes the promise with it
  abbrev pub keep_promise : ℕ → Outcome Bool × World St R → Outcome ℕ × World St R
  keep_promise p (value true, w) = (value p, w)
  keep_promise p (value false, w) = (
    value p,
    record w { shared = record w.shared { promises = update w.shared.promises p broken } },
  )
  keep_promise p (thrown e, w) = (thrown e, w)
  keep_promise p (crashed, w) = (crashed, w)

  abbrev pub make_promise : World St R → World St R
  make_promise w = record w {
    shared = record w.shared { promises = update w.shared.promises w.next_promise pending };
    next_promise = suc w.next_promise;
  }

  -- `RunAsync`: the number of the promise of the future that it returns
  unfoldable pub run_async : Env St R → (St → Outcome R × St) → World St R → Outcome ℕ × World St R
  run_async env body w =
      keep_promise w.next_promise
        (dispatch_task env (record { sink = promise w.next_promise; body = body }) (make_promise w))

  -- `state->sema.Wait(timeout)` and what follows
  abbrev pub take_signal :
      (R → Outcome R)
      → ℕ
      → World St R
      → Option (Bool × Semaphore.Semaphore)
      → Outcome R × World St R
  take_signal check n w none = (thrown timed_out, w)
  take_signal check n w (some (false, sema)) = (thrown timed_out, w)
  take_signal check n w (some (true, sema)) = (
    resolve check (w.shared.slots n),
    record w {
      shared = record w.shared {
        slots = update w.shared.slots n (record (w.shared.slots n) { sema = sema });
      };
    },
  )

  -- The caller waits until its semaphore is signaled or its time is over.
  abbrev pub await : Env St R → (R → Outcome R) → ℕ → World St R → Outcome R × World St R
  await env check n w =
      let later = if (w.shared.slots n).sema.signaled then w else env.meanwhile w in
      take_signal check n later (Semaphore.wait false (λ s. s) (later.shared.slots n).sema)

  abbrev pub await_posted :
      Env St R → (R → Outcome R) → ℕ → Outcome Bool × World St R → Outcome R × World St R
  await_posted env check n (value sent, w) = await env check n w
  await_posted env check n (thrown e, w) = (thrown e, w)
  await_posted env check n (crashed, w) = (crashed, w)

  abbrev pub make_slot : World St R → World St R
  make_slot w = record w {
    shared = record w.shared { slots = update w.shared.slots w.next_slot empty_slot };
    next_slot = suc w.next_slot;
  }

  -- `RunSync` on another thread than the worker
  unfoldable pub run_remote :
      Env St R → (R → Outcome R) → (St → Outcome R × St) → World St R → Outcome R × World St R
  run_remote env check body w =
      await_posted env check w.next_slot
        (dispatch_task env (record { sink = slot w.next_slot; body = body }) (make_slot w))

  -- `thread && thread->IsCurrentThread()`; `caller` is the thread that calls, if it is one of these.
  abbrev pub on_worker : Option ℕ → World St R → Bool
  on_worker caller w = elim w.central [
    | none ↦ false
    | some n ↦ elim caller [ none ↦ false | some c ↦ (w.threads n).created && c == n ]
  ]

  abbrev pub run_inline : (St → Outcome R × St) → World St R → Outcome R × World St R
  run_inline body w = (
    (body w.shared.store).0,
    record w { shared = record w.shared { store = (body w.shared.store).1 } },
  )

  -- `RunSync`
  unfoldable pub run_sync :
      Option ℕ
      → Env St R
      → (R → Outcome R)
      → (St → Outcome R × St)
      → World St R
      → Outcome R × World St R
  run_sync caller env check body w =
      if on_worker caller w then run_inline body w else run_remote env check body w

  -- `init_worker`
  unfoldable pub init_worker : ℕ → Option ℕ → World St R → World St R
  init_worker now (some n) w = record w { central = some n }
  init_worker now none w = record w {
    threads = update w.threads 0 (create_thread now none (w.threads 0));
    central = some 0;
  }

  abbrev pub after_exit : World St R → Turn × Thread (Task St R) × Shared St R → Turn × World St R
  after_exit w (turn, t, s) =
      (turn, record w { shared = s; threads = update w.threads 0 t; central = none })

  abbrev pub exit_duck_thread : (ℕ → ℕ) → ℕ → World St R → Turn × World St R
  exit_duck_thread clock fuel w =
      after_exit w (exit_thread invoke clock fuel (w.threads 0) w.shared)

  -- `shutdown_worker`; `ExitThread` joins the worker, which runs for at most `fuel` turns
  unfoldable pub shutdown_worker : (ℕ → ℕ) → ℕ → World St R → Turn × World St R
  shutdown_worker clock fuel w = elim w.central [
    | none ↦ (exits, w)
    | some n ↦
        if n == 0 then exit_duck_thread clock fuel w else (exits, record w { central = none })
  ]

  -- `get_worker_thread`
  abbrev pub get_worker_thread : World St R → Option ℕ
  get_worker_thread w = w.central
