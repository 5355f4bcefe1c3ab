-- ===== src/Async/Sync.antt =====
-- `RunSync` of DuckDB/async_duckdb.cpp, seen from its caller.
use async_duck_db.Common.{
  ℕ, ◌+◌, ◌≡◌, ◌≢◌, refl, sym, true, false, [], ◌∷◌, ◌++◌, some, arith, All, update_self, update,
  length,
}
use async_duck_db.Semaphore
use async_duck_db.Thread.{normal, Thread, DelegateMsg, posted, dispatch_message, dispatch_delegate}
use async_duck_db.Thread.Process.{waits}
use async_duck_db.Thread.Drain.{run_all, Returns, fuel_for-length, drain_idle}
use async_duck_db.Async.Task.{
  timed_out, Outcome, value, thrown, crashed, slot, Task, Shared, World, invoke, deliver,
  empty_slot,
}
use async_duck_db.Async.Dispatch.{Env, task_message, dispatch_task, work, resolve, await}
use async_duck_db.Async.Sequential.{MessageBelow}

-- What `RunSync` makes of the outcome of its function.
abbrev pub answer : {R : Type 0} → (R → Outcome R) → Outcome R → Outcome R
answer check (value r) = check r
answer check (thrown e) = thrown e
answer check crashed = crashed

module _ {St R : Type 0} where
  -- Thread `n` is the worker and runs; its queue has no limit and holds tasks of normal priority,
  -- which do not crash and whose callers have older slots.
  pub record IsServing (n : ℕ) (w : World St R) : Type 0 where
    pub current : w.central ≡ some n
    pub created : (w.threads n).created ≡ true
    pub running : (w.threads n).exiting ≡ false
    pub unlimited : (w.threads n).max_queue_size ≡ 0
    pub no_high : (w.threads n).high_queue ≡ []
    pub returns : All (Returns invoke) (w.threads n).normal_queue
    pub below : All (MessageBelow w.next_slot) (w.threads n).normal_queue

  dispatch_serving :
      (room : Thread (Task St R) → Thread (Task St R)) (d : DelegateMsg (Task St R))
      (t : Thread (Task St R))
      → d.priority ≡ normal
      → t.created ≡ true
      → t.exiting ≡ false
      → t.max_queue_size ≡ 0
      → dispatch_delegate room d t
        ≡ (posted, record t { normal_queue = t.normal_queue ++ (dispatch_message d ∷ []) })
  unfolding dispatch_delegate
  dispatch_serving room d t p c x m = ground arith

  pub dispatch_task-serving :
      (env : Env St R) (task : Task St R) (n : ℕ) (w : World St R)
      → w.central ≡ some n
      → (w.threads n).created ≡ true
      → (w.threads n).exiting ≡ false
      → (w.threads n).max_queue_size ≡ 0
      → dispatch_task env task w ≡ (
        value true,
        record w {
          threads = update w.threads n (record (w.threads n) {
            normal_queue =
                (w.threads n).normal_queue ++ (dispatch_message (task_message task) ∷ []);
          });
        },
      )
  unfolding dispatch_task
  dispatch_task-serving env task n w e c x m =
      rw (e, dispatch_serving env.room (task_message task) (w.threads n) refl c x m)

  -- The caller that finds its slot signaled at the end of its wait takes what is in it.
  pub await-signaled :
      (env : Env St R) (check : R → Outcome R) (j : ℕ) (w : World St R)
      → (w.shared.slots j).sema.signaled ≡ false
      → ((env.meanwhile w).shared.slots j).sema.signaled ≡ true
      → ((await env check j w).0 ≡ resolve check ((env.meanwhile w).shared.slots j))
        × ((await env check j w).1.shared.store ≡ (env.meanwhile w).shared.store)
        × ((await env check j w).1.threads ≡ (env.meanwhile w).threads)
  await-signaled env check j w e f =
      simp (e, Semaphore.wait-signaled (λ s. s) ((env.meanwhile w).shared.slots j).sema f)
        (refl, refl, refl)

  pub await-unsignaled :
      (env : Env St R) (check : R → Outcome R) (j : ℕ) (w : World St R)
      → (w.shared.slots j).sema.signaled ≡ false
      → ((env.meanwhile w).shared.slots j).sema.signaled ≡ false
      → await env check j w ≡ (thrown timed_out, env.meanwhile w)
  await-unsignaled env check j w e f =
      simp (e, Semaphore.wait-unsignaled (λ s. s) ((env.meanwhile w).shared.slots j).sema f, f)

  pub delivered :
      (check : R → Outcome R) (j : ℕ) (o : Outcome R) (s : Shared St R)
      → o ≢ crashed
      → s.slots j ≡ empty_slot
      → (((deliver (slot j) o s).1.slots j).sema.signaled ≡ true)
        × (resolve check ((deliver (slot j) o s).1.slots j) ≡ answer check o)
  unfolding Semaphore.signal
  delivered check j (value r) s h e = simp (update_self s.slots j) (refl, rw e)
  delivered check j (thrown x) s h e = simp (update_self s.slots j) (refl, refl)
  delivered check j crashed s h e = absurd (h refl)

  -- The world after the worker has run what waits on its queue.
  pub work-serving :
      (n : ℕ) (clock : ℕ → ℕ) (k : ℕ) (w : World St R)
      → (w.threads n).exiting ≡ false
      → (w.threads n).high_queue ≡ []
      → All (Returns invoke) (w.threads n).normal_queue
      → work n clock (length (w.threads n).normal_queue + k + 1) w ≡ (
        waits,
        record w {
          shared = run_all invoke (w.threads n).normal_queue w.shared;
          threads = update w.threads n (record (w.threads n) {
            exiting = false;
            alive = clock k;
            high_queue = [];
            normal_queue = [];
          });
        },
      )
  unfolding work
  work-serving n clock k w x h r =
      rw (sym (fuel_for-length invoke (w.threads n).normal_queue k)) (
        rw (drain_idle invoke clock (w.threads n).normal_queue k (w.threads n) w.shared h refl x r))

  -- The worker that the waiting caller leaves at work: enough turns for what is queued.
  abbrev pub at_work : (Thread (Task St R) → Thread (Task St R)) → ℕ → (ℕ → ℕ) → ℕ → Env St R
  at_work room n clock k = record {
    room = room;
    meanwhile = λ w. (work n clock (length (w.threads n).normal_queue + k + 1) w).1;
  }
