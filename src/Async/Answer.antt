-- ===== src/Async/Answer.antt =====
-- What a caller of `RunSync` or `RunAsync` of DuckDB/async_duckdb.cpp gets.
use async_duck_db.Common.{
  ℕ, ◌≡◌, ◌≢◌, ap, ◌∙◌, sym, subst, true, false, List, [], ◌∷◌, ◌++◌, Option, arith, All,
  update_self, update, All-append,
}
use async_duck_db.Thread.{Thread, ThreadMsg, dispatch_message}
use async_duck_db.Thread.Process.{Invoked, after_invoke}
use async_duck_db.Thread.Drain.{run_all, Returns, run_all-append}
use async_duck_db.Async.Task.{
  Outcome, crashed, Sink, slot, detached, Task, Shared, World, invoke, deliver, empty_slot,
}
use async_duck_db.Async.Dispatch.{
  task_message, resolve, await, run_remote, run_sync, on_worker, make_slot,
}
use async_duck_db.Async.Sequential.{effects, deliver-store, run_all-store, run_all-slots}
use async_duck_db.Async.Sync.{
  IsServing, answer, at_work, dispatch_task-serving, await-signaled, delivered, work-serving,
}

module _ {St R : Type 0} (body : St → Outcome R × St) where
  -- The function that a caller hands to the worker returns or throws.
  abbrev pub IsSafe : Type 0
  IsSafe = (st : St) → (body st).0 ≢ crashed

  abbrev pub task_for : Sink → ThreadMsg (Task St R)
  task_for sink = dispatch_message (task_message (record { sink = sink; body = body }))

  deliver-continues :
      (sink : Sink) (o : Outcome R) (s : Shared St R)
      → sink ≢ detached
      → o ≢ crashed
      → (deliver sink o s).0 ≡ Invoked.succeeded
  deliver-continues sink o s h e = ground arith

  task_for-Returns : (sink : Sink) → sink ≢ detached → IsSafe → Returns invoke (task_for sink)
  unfolding invoke
  task_for-Returns sink h safe s =
      ap after_invoke (deliver-continues sink (body s.store).0 _ h (safe s.store))

  -- the shared state after a queue and then this task
  pub run_all-task_for :
      (sink : Sink) (q : List (ThreadMsg (Task St R))) (s : Shared St R)
      → run_all invoke (q ++ (task_for sink ∷ [])) s
        ≡ (deliver sink
            (body (run_all invoke q s).store).0
            (record (run_all invoke q s) { store = (body (run_all invoke q s).store).1 })).1
  unfolding run_all invoke
  run_all-task_for sink q s = run_all-append invoke q (task_for sink ∷ []) s

module _ {St R : Type 0} (room : Thread (Task St R) → Thread (Task St R)) (clock : ℕ → ℕ) (n k : ℕ)
    (w : World St R) (v : IsServing n w) (body : St → Outcome R × St) (safe : IsSafe body) where
  -- the world when the task of sink `sink` has been posted in world `u`, which differs from `w` in
  -- its slots and promises only
  abbrev pub asked : Sink → World St R → World St R
  asked sink u = record u {
    threads = update u.threads n (record (w.threads n) {
      normal_queue = (w.threads n).normal_queue ++ (task_for body sink ∷ []);
    });
  }

  pub asked_work :
      (sink : Sink) (u : World St R)
      → sink ≢ detached
      → (at_work room n clock k).meanwhile (asked sink u) ≡ record u {
        shared = run_all invoke ((w.threads n).normal_queue ++ (task_for body sink ∷ [])) u.shared;
        threads = update (asked sink u).threads n (record (w.threads n) {
          exiting = false;
          alive = clock k;
          high_queue = [];
          normal_queue = [];
        });
      }
  asked_work sink u h =
      ap (λ r. r.1)
        (work-serving n clock k (asked sink u) (ap (λ t. t.exiting) here ∙ v.running)
          (ap (λ t. t.high_queue) here ∙ v.no_high)
          (subst (λ t. All (Returns invoke) t.normal_queue) (sym here)
            (All-append (Returns invoke) _ (task_for body sink ∷ []) v.returns
              (task_for-Returns body sink h safe, tt))))
      ∙ rw here
    where
      here : (asked sink u).threads n ≡ record (w.threads n) {
        normal_queue = (w.threads n).normal_queue ++ (task_for body sink ∷ []);
      }
      here = update_self u.threads n (record (w.threads n) {
        normal_queue = (w.threads n).normal_queue ++ (task_for body sink ∷ []);
      })

  abbrev pub waiting : World St R
  waiting = asked (slot w.next_slot) (make_slot w)

  abbrev pub later : World St R
  later = (at_work room n clock k).meanwhile waiting

  -- what the worker has made of the older messages when it comes to the caller's
  abbrev pub reached : Shared St R
  reached = run_all invoke (w.threads n).normal_queue (make_slot w).shared

  abbrev pub ended : Shared St R
  ended =
      (deliver (slot w.next_slot) (body reached.store).0
        (record reached { store = (body reached.store).1 })).1

  pub later_shared : later.shared ≡ ended
  later_shared =
      ap (λ u. u.shared) (asked_work (slot w.next_slot) (make_slot w) (λ e. cc))
      ∙ run_all-task_for body (slot w.next_slot) (w.threads n).normal_queue (make_slot w).shared

  pub reached_store : reached.store ≡ effects (w.threads n).normal_queue w.shared.store
  reached_store = run_all-store (w.threads n).normal_queue (make_slot w).shared

  pub reached_slot : reached.slots w.next_slot ≡ empty_slot
  reached_slot =
      run_all-slots w.next_slot (w.threads n).normal_queue (make_slot w).shared v.below
      ∙ update_self w.shared.slots w.next_slot empty_slot

  pub later_store :
      later.shared.store ≡ (body (effects (w.threads n).normal_queue w.shared.store)).1
  later_store =
      ap (λ s. s.store) later_shared
      ∙ deliver-store (slot w.next_slot) (body reached.store).0
          (record reached { store = (body reached.store).1 })
      ∙ ap (λ st. (body st).1) reached_store

  module _ (check : R → Outcome R) where
    ended_slot :
        ((ended.slots w.next_slot).sema.signaled ≡ true)
        × (resolve check (ended.slots w.next_slot) ≡ answer check (body reached.store).0)
    ended_slot =
        delivered check w.next_slot (body reached.store).0
          (record reached { store = (body reached.store).1 }) (safe reached.store) reached_slot

    awaited :
        ((await (at_work room n clock k) check w.next_slot waiting).0
          ≡ resolve check (later.shared.slots w.next_slot))
        × ((await (at_work room n clock k) check w.next_slot waiting).1.shared.store
            ≡ later.shared.store)
        × ((await (at_work room n clock k) check w.next_slot waiting).1.threads ≡ later.threads)
    awaited =
        await-signaled (at_work room n clock k) check w.next_slot waiting
          (ap (λ s. s.sema.signaled) (update_self w.shared.slots w.next_slot empty_slot))
          (ap (λ s. (s.slots w.next_slot).sema.signaled) later_shared ∙ ended_slot.0)

    remote-await :
        run_remote (at_work room n clock k) check body w
        ≡ await (at_work room n clock k) check w.next_slot waiting
    unfolding run_remote
    remote-await = rw (
        dispatch_task-serving (at_work room n clock k)
          (record { sink = slot w.next_slot; body = body }) n (make_slot w) v.current v.created
          v.running v.unlimited)

    -- `RunSync` of a function that does not crash, from another thread, with the worker serving and
    -- coming to the end of its queue within the caller's time: the function runs on the state that
    -- the calls queued before it leave, in their order, the caller gets its result, checked, or its
    -- exception, and the queue is empty afterwards. So calls of many threads act one after the
    -- other.
    pub run_sync-sequential :
        (caller : Option ℕ)
        → on_worker caller w ≡ false
        → let st = effects (w.threads n).normal_queue w.shared.store in
          let (o, w') = run_sync caller (at_work room n clock k) check body w in
          (o ≡ answer check (body st).0)
          × (w'.shared.store ≡ (body st).1)
          × ((w'.threads n).normal_queue ≡ [])
    unfolding run_sync
    run_sync-sequential caller off =
        simp (off, remote-await)
          (
            awaited.0
                ∙ ap (λ s. resolve check (s.slots w.next_slot)) later_shared
                ∙ ended_slot.1
                ∙ ap (λ st. answer check (body st).0) reached_store,
            awaited.1 ∙ later_store,
            ap (λ f. (f n).normal_queue)
                  (awaited.2
                    ∙ ap (λ u. u.threads) (asked_work (slot w.next_slot) (make_slot w) (λ e. cc)))
                ∙ ap (λ t. t.normal_queue) (update_self waiting.threads n _),
          )
