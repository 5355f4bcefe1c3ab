-- ===== src/Async/Future.antt =====
-- `RunAsync` of DuckDB/async_duckdb.cpp and the future that it returns, with the worker at work.
use async_duck_db.Common.{ℕ, ◌≡◌, ◌≢◌, refl, ap, ◌∙◌, none, some, update_self}
use async_duck_db.Thread.{Thread}
use async_duck_db.Thread.Drain.{run_all}
use async_duck_db.Async.Task.{
  Outcome, value, thrown, crashed, promise, Task, Shared, World, pending, invoke, deliver,
}
use async_duck_db.Async.Dispatch.{Env, run_async, get_future, make_promise}
use async_duck_db.Async.Sequential.{effects, deliver-store, run_all-store}
use async_duck_db.Async.Sync.{IsServing, at_work, dispatch_task-serving}
use async_duck_db.Async.Answer.{IsSafe, asked, asked_work, run_all-task_for}

module _ {St R : Type 0} (room : Thread (Task St R) → Thread (Task St R)) (clock : ℕ → ℕ) (n k : ℕ)
    (w : World St R) (v : IsServing n w) (body : St → Outcome R × St) (safe : IsSafe body) where
  abbrev promised : World St R
  promised = asked room clock n k w v body safe (promise w.next_promise) (make_promise w)

  abbrev reached : Shared St R
  reached = run_all invoke (w.threads n).normal_queue (make_promise w).shared

  abbrev kept : Shared St R
  kept =
      (deliver (promise w.next_promise) (body reached.store).0
        (record reached { store = (body reached.store).1 })).1

  run_async-posts : (env : Env St R) → run_async env body w ≡ (value w.next_promise, promised)
  unfolding run_async
  run_async-posts env = rw (
      dispatch_task-serving env (record { sink = promise w.next_promise; body = body }) n
        (make_promise w) v.current v.created v.running v.unlimited)

  future-delivered :
      (p : ℕ) (o : Outcome R) (s : Shared St R)
      → o ≢ crashed
      → get_future ((deliver (promise p) o s).1.promises p) ≡ some o
  future-delivered p (value r) s h = ap get_future (update_self s.promises p _)
  future-delivered p (thrown e) s h = ap get_future (update_self s.promises p _)
  future-delivered p crashed s h = absurd (h refl)

  kept_shared : ((at_work room n clock k).meanwhile promised).shared ≡ kept
  kept_shared =
      ap (λ u. u.shared)
        (asked_work room clock n k w v body safe (promise w.next_promise) (make_promise w)
          (λ e. cc))
      ∙ run_all-task_for body (promise w.next_promise) (w.threads n).normal_queue
          (make_promise w).shared

  -- `RunAsync` of a function that does not crash, with the worker serving, returns at once, with
  -- the engine untouched and the future not ready. When the worker has come to the end of its
  -- queue, the future has the function's result or its exception, on the state that the calls
  -- queued before it leave.
  pub run_async-sequential :
      (env : Env St R)
      → let (o, w') = run_async env body w in
        let later = (at_work room n clock k).meanwhile w' in
        let st = effects (w.threads n).normal_queue w.shared.store in
        (o ≡ value w.next_promise)
        × (w'.shared.store ≡ w.shared.store)
        × (get_future (w'.shared.promises w.next_promise) ≡ none)
        × (get_future (later.shared.promises w.next_promise) ≡ some (body st).0)
        × (later.shared.store ≡ (body st).1)
  run_async-sequential env = rw (run_async-posts env) (
    refl,
    refl,
    ap get_future (update_self w.shared.promises w.next_promise pending),
    ap (λ s. get_future (s.promises w.next_promise)) kept_shared
        ∙ future-delivered w.next_promise (body reached.store).0 _ (safe reached.store)
        ∙ ap (λ st. some (body st).0)
            (run_all-store (w.threads n).normal_queue (make_promise w).shared),
    ap (λ s. s.store) kept_shared
        ∙ deliver-store (promise w.next_promise) (body reached.store).0 _
        ∙ ap (λ st. (body st).1) (run_all-store (w.threads n).normal_queue (make_promise w).shared),
  )
