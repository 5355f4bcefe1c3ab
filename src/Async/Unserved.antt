-- ===== src/Async/Unserved.antt =====
-- Calls of DuckDB/async_duckdb.cpp that the worker does not serve: no worker, no thread, no time.
use async_duck_db.Common.{ℕ, ◌≡◌, refl, ap, Bool, false, Option, none, some, arith, update_self}
use async_duck_db.Thread.{Thread, dispatch_delegate}
use async_duck_db.Async.Task.{
  Exn, timed_out, no_thread, broken_promise, Outcome, value, thrown, crashed, slot, promise, Task,
  World, broken, empty_slot,
}
use async_duck_db.Async.Dispatch.{
  await_posted, make_promise, Env, dispatch_task, run_remote, run_sync, run_async, get_future,
  on_worker, make_slot,
}
use async_duck_db.Async.Sequential.{effects}
use async_duck_db.Async.Sync.{at_work, IsServing, await-unsignaled, dispatch_task-serving}
use async_duck_db.Async.Answer.{IsSafe, waiting, later_store}

module _ {St R : Type 0} (env : Env St R) (check : R → Outcome R) (body : St → Outcome R × St)
    (w : World St R) where
  unsignaled : ((make_slot w).shared.slots w.next_slot).sema.signaled ≡ false
  unsignaled = ap (λ s. s.sema.signaled) (update_self w.shared.slots w.next_slot empty_slot)

  dispatch_task-none :
      (task : Task St R) (u : World St R)
      → u.central ≡ none
      → dispatch_task env task u ≡ (value false, u)
  unfolding dispatch_task
  dispatch_task-none task u e = rw e

  off_worker : (caller : Option ℕ) → w.central ≡ none → on_worker caller w ≡ false
  off_worker caller e = ground arith

  -- With no worker, as after `shutdown_worker`, a synchronous call drops its task, waits out its
  -- time and throws, if nothing signals its slot in that time; it does not call the engine.
  pub run_sync_no_worker :
      (caller : Option ℕ)
      → w.central ≡ none
      → ((env.meanwhile (make_slot w)).shared.slots w.next_slot).sema.signaled ≡ false
      → run_sync caller env check body w ≡ (thrown timed_out, env.meanwhile (make_slot w))
  unfolding run_sync run_remote
  run_sync_no_worker caller e quiet =
      simp
        (
          off_worker caller e,
          dispatch_task-none (record { sink = slot w.next_slot; body = body }) (make_slot w) e,
        )
        (await-unsignaled env check w.next_slot (make_slot w) unsignaled quiet)

  -- With no worker, as after `shutdown_worker`, an asynchronous call returns a future that throws
  -- `broken_promise`, and the engine is not called.
  pub run_async_no_worker :
      w.central ≡ none
      → let (o, w') = run_async env body w in
        (o ≡ value w.next_promise)
        × (get_future (w'.shared.promises w.next_promise) ≡ some (thrown broken_promise))
        × (w'.shared.store ≡ w.shared.store)
        × (w'.threads ≡ w.threads)
  unfolding run_async
  run_async_no_worker e =
      simp
        (dispatch_task-none (record { sink = promise w.next_promise; body = body }) (make_promise w)
          e)
        (
          refl,
          ap get_future (update_self (make_promise w).shared.promises w.next_promise broken),
          refl,
          refl,
        )

  dispatch_task-uncreated :
      (task : Task St R) (n : ℕ) (u : World St R)
      → u.central ≡ some n
      → (u.threads n).created ≡ false
      → (u.threads n).exiting ≡ false
      → (dispatch_task env task u).0 ≡ thrown no_thread
  unfolding dispatch_task dispatch_delegate
  dispatch_task-uncreated task n u e c x = rw e (ground arith)

  await_posted-thrown :
      (r : Outcome Bool × World St R) (x : Exn)
      → r.0 ≡ thrown x
      → (await_posted env check w.next_slot r).0 ≡ thrown x
  await_posted-thrown (value b, u) x h = cc
  await_posted-thrown (thrown y, u) x h = ground arith
  await_posted-thrown (crashed, u) x h = cc

  -- If the worker is a thread that was not created and has not exited, as before `init_worker`,
  -- every synchronous call throws `std::invalid_argument` at once.
  pub run_sync_uncreated :
      (caller : Option ℕ) (n : ℕ)
      → w.central ≡ some n
      → (w.threads n).created ≡ false
      → (w.threads n).exiting ≡ false
      → (run_sync caller env check body w).0 ≡ thrown no_thread
  unfolding run_sync run_remote
  run_sync_uncreated caller n e c x = simp (off caller) (
      await_posted-thrown _ no_thread (
        dispatch_task-uncreated (record { sink = slot w.next_slot; body = body }) n (make_slot w) e
          c x))
    where
      off : (caller : Option ℕ) → on_worker caller w ≡ false
      off none = ground arith
      off (some c') = rw e (ground arith)

module _ {St R : Type 0} (room : Thread (Task St R) → Thread (Task St R)) (clock : ℕ → ℕ) (n k : ℕ)
    (w : World St R) (v : IsServing n w) (body : St → Outcome R × St) (safe : IsSafe body) where
  late :
      (caller : Option ℕ) (check : R → Outcome R)
      → on_worker caller w ≡ false
      → run_sync caller (record { room = room; meanwhile = λ u. u }) check body w
        ≡ (thrown timed_out, waiting room clock n k w v body safe)
  unfolding run_sync run_remote
  late caller check off =
      let env : Env St R = record { room = room; meanwhile = λ u. u } in
      let unsignaled =
        ap (λ s. s.sema.signaled) (update_self w.shared.slots w.next_slot empty_slot) in
      simp
        (
          off,
          dispatch_task-serving env (record { sink = slot w.next_slot; body = body }) n
              (make_slot w) v.current v.created v.running v.unlimited,
        )
        (await-unsignaled env check w.next_slot (waiting room clock n k w v body safe) unsignaled
          unsignaled)

  -- A synchronous call from another thread, of a function that does not crash, that times out
  -- before the worker takes a message throws and leaves the engine as it was; but its task stays
  -- queued, and when the worker has come to it, the engine's state is as if the call had succeeded.
  pub run_sync_late :
      (caller : Option ℕ) (check : R → Outcome R)
      → on_worker caller w ≡ false
      → let (o, w') = run_sync caller (record { room = room; meanwhile = λ u. u }) check body w in
        (o ≡ thrown timed_out)
        × (w'.shared.store ≡ w.shared.store)
        × (((at_work room n clock k).meanwhile w').shared.store
            ≡ (body (effects (w.threads n).normal_queue w.shared.store)).1)
  run_sync_late caller check off =
      rw (late caller check off) (refl, refl, later_store room clock n k w v body safe)
