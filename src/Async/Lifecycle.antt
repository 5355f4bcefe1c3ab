-- ===== src/Async/Lifecycle.antt =====
-- `init_worker` and `shutdown_worker` of DuckDB/async_duckdb.cpp, from start to end.
use async_duck_db.Common.{
  ℕ, ◌+◌, ◌≡◌, refl, ap, ◌∙◌, subst, sym, true, false, [], ◌++◌, none, some, arith, All,
}
use async_duck_db.Thread.{Thread, queue_size, create_thread}
use async_duck_db.Thread.Process.{exits}
use async_duck_db.Thread.Drain.{run_all, Returns, exit_thread, exit_thread-run_all}
use async_duck_db.Async.Task.{Task, World, invoke}
use async_duck_db.Async.Dispatch.{exit_duck_thread, init_worker, shutdown_worker}
use async_duck_db.Async.Sequential.{MessageBelow, effects, run_all-store}
use async_duck_db.Async.Sync.{IsServing}

module _ {St R : Type 0} where
  create_thread-new :
      (now : ℕ) (t : Thread (Task St R))
      → t.created ≡ false
      → create_thread now none t ≡ record t { created = true; exiting = false; alive = now }
  unfolding create_thread
  create_thread-new now t c = ground arith

  -- `init_worker()` makes `DuckThread` serve if it has not been created, has no limit and holds no
  -- message: the first time and after a `shutdown_worker`.
  pub init_worker-IsServing :
      (now : ℕ) (w : World St R)
      → (w.threads 0).created ≡ false
      → (w.threads 0).max_queue_size ≡ 0
      → (w.threads 0).high_queue ≡ []
      → (w.threads 0).normal_queue ≡ []
      → IsServing 0 (init_worker now none w)
  unfolding init_worker
  init_worker-IsServing now w c m h q = rw (create_thread-new now (w.threads 0) c) (record {
    current = refl;
    created = refl;
    running = refl;
    unlimited = m;
    no_high = h;
    returns = subst (All (Returns invoke)) (sym q) tt;
    below = subst (All (MessageBelow w.next_slot)) (sym q) tt;
  })

  abbrev ended_thread : ℕ → Thread (Task St R) → Thread (Task St R)
  ended_thread now t = record t {
    created = false;
    exiting = true;
    alive = now;
    high_queue = [];
    normal_queue = [];
  }

  ended :
      (clock : ℕ → ℕ) (k : ℕ) (w : World St R)
      → IsServing 0 w
      → exit_thread invoke clock (queue_size (w.threads 0) + k + 1) (w.threads 0) w.shared ≡ (
        exits,
        ended_thread (clock k) (w.threads 0),
        run_all invoke (w.threads 0).normal_queue w.shared,
      )
  ended clock k w v =
      exit_thread-run_all invoke clock k (w.threads 0) w.shared v.created
        (subst (All (Returns invoke)) (sym v.no_high) tt) v.returns
      ∙ ap
          (λ hs. (
            exits,
            ended_thread (clock k) (w.threads 0),
            run_all invoke (hs ++ (w.threads 0).normal_queue) w.shared,
          ))
          v.no_high

  shutdown_worker_lem :
      (clock : ℕ → ℕ) (fuel : ℕ) (w : World St R)
      → w.central ≡ some 0
      → shutdown_worker clock fuel w ≡ exit_duck_thread clock fuel w
  unfolding shutdown_worker
  shutdown_worker_lem clock fuel w e = ground arith

  -- `shutdown_worker` by another thread, with `DuckThread` serving, waits until it has run every
  -- task that was queued, in order; then there is no worker and no thread. One turn for each task
  -- and one more are enough.
  pub shutdown_worker-effects :
      (clock : ℕ → ℕ) (k : ℕ) (w : World St R)
      → IsServing 0 w
      → let (turn, w') = shutdown_worker clock (queue_size (w.threads 0) + k + 1) w in
        (turn ≡ exits)
        × (w'.shared.store ≡ effects (w.threads 0).normal_queue w.shared.store)
        × (w'.central ≡ none)
        × ((w'.threads 0).created ≡ false)
        × ((w'.threads 0).normal_queue ≡ [])
  shutdown_worker-effects clock k w v =
      rw
        (
          shutdown_worker_lem clock (queue_size (w.threads 0) + k + 1) w v.current,
          ended clock k w v,
        )
        (refl, run_all-store (w.threads 0).normal_queue w.shared, refl, refl, refl)
