-- ===== src/Async/Tests.antt =====
-- Tests of the core of DuckDB/async_duckdb.cpp: the state is a number, and so is a result.
use async_duck_db.Common.{ℕ, suc, ◌+◌, ◌*◌, ◌≡◌, refl, true, false, [], ◌∷◌, none, some, arith}
use async_duck_db.Thread.{Thread, new_thread, fault, queue_size}
use async_duck_db.Thread.Process.{exits}
use async_duck_db.Async.Task.{
  timed_out, Outcome, value, thrown, slot, Task, World, pending, empty_slot, invoke,
}
use async_duck_db.Async.Dispatch.{Env, run_sync, run_async, get_future, shutdown_worker}
use async_duck_db.Async.Sequential.{effects}
use async_duck_db.Async.Sync.{IsServing, at_work, answer}
use async_duck_db.Async.Answer.{IsSafe, task_for, run_sync-sequential}
use async_duck_db.Async.Unserved.{run_sync_late}
use async_duck_db.Async.Future.{run_async-sequential}
use async_duck_db.Async.Lifecycle.{shutdown_worker-effects}

abbrev double : ℕ → Outcome ℕ × ℕ
double s = (value (s * 2), suc s)

double-IsSafe : IsSafe double
double-IsSafe s = λ e. cc

abbrev idle : World ℕ ℕ
idle = record {
  shared = record { store = 10; slots = λ i. empty_slot; promises = λ i. pending };
  central = none;
  threads = λ i. new_thread 0 fault;
  next_slot = 1;
  next_promise = 0;
}

-- `DuckThread` runs, and an older call waits in its queue.
abbrev serving : World ℕ ℕ
serving = record idle {
  central = some 0;
  threads = λ i. record (new_thread 0 fault) {
    created = true;
    normal_queue = task_for double (slot 0) ∷ [];
  };
}

abbrev serving-IsServing : IsServing 0 serving
unfolding invoke
serving-IsServing = record {
  current = refl;
  created = refl;
  running = refl;
  unlimited = refl;
  no_high = refl;
  returns = ((λ s. refl), tt);
  below = (omega arith, tt);
}

abbrev stay : Thread (Task ℕ ℕ) → Thread (Task ℕ ℕ)
stay t = t

abbrev tick : ℕ → ℕ
tick i = i

abbrev quiet : Env ℕ ℕ
quiet = record { room = stay; meanwhile = λ w. w }

run_sync-sequential_example :
    ((run_sync none (at_work stay 0 tick 2) value double serving).0 ≡ answer value (double 11).0)
    × ((run_sync none (at_work stay 0 tick 2) value double serving).1.shared.store ≡ (double 11).1)
    × (((run_sync none (at_work stay 0 tick 2) value double serving).1.threads 0).normal_queue ≡ [])
unfolding effects
run_sync-sequential_example =
    run_sync-sequential stay tick 0 2 serving serving-IsServing double double-IsSafe value none refl

run_async-sequential_example :
    ((run_async quiet double serving).0 ≡ value 0)
    × ((run_async quiet double serving).1.shared.store ≡ 10)
    × (get_future ((run_async quiet double serving).1.shared.promises 0) ≡ none)
    × (get_future
          (((at_work stay 0 tick 2).meanwhile (run_async quiet double serving).1).shared.promises 0)
        ≡ some (double 11).0)
    × (((at_work stay 0 tick 2).meanwhile (run_async quiet double serving).1).shared.store
        ≡ (double 11).1)
unfolding effects
run_async-sequential_example =
    run_async-sequential stay tick 0 2 serving serving-IsServing double double-IsSafe quiet

run_sync_late_example :
    ((run_sync none quiet value double serving).0 ≡ thrown timed_out)
    × ((run_sync none quiet value double serving).1.shared.store ≡ 10)
    × (((at_work stay 0 tick 2).meanwhile (run_sync none quiet value double serving).1).shared.store
        ≡ (double 11).1)
unfolding effects
run_sync_late_example =
    run_sync_late stay tick 0 2 serving serving-IsServing double double-IsSafe none value refl

abbrev uncreated : World ℕ ℕ
uncreated = record idle { central = some 3 }

shutdown_worker-effects_example :
    ((shutdown_worker tick (queue_size (serving.threads 0) + 0 + 1) serving).0 ≡ exits)
    × ((shutdown_worker tick (queue_size (serving.threads 0) + 0 + 1) serving).1.shared.store ≡ 11)
    × ((shutdown_worker tick (queue_size (serving.threads 0) + 0 + 1) serving).1.central ≡ none)
    × (((shutdown_worker tick (queue_size (serving.threads 0) + 0 + 1) serving).1.threads 0).created
        ≡ false)
    × (((shutdown_worker tick (queue_size (serving.threads 0) + 0 + 1) serving).1.threads
          0).normal_queue
        ≡ [])
unfolding effects
shutdown_worker-effects_example = shutdown_worker-effects tick 0 serving serving-IsServing
