-- ===== src/Async/Checked.antt =====
-- `RunSync` of DuckDB/async_duckdb.cpp from another thread returns only what passed its check.
use async_duck_db.Common.{ℕ, ◌≡◌, Bool, true, false, Option, none, some, if◌then◌else◌}
use async_duck_db.Semaphore.{Semaphore, wait}
use async_duck_db.Async.Task.{Outcome, value, thrown, crashed, SyncState, World}
use async_duck_db.Async.Dispatch.{
  Env, resolve, take_signal, await_posted, run_remote, run_sync, on_worker,
}

module _ {R : Type 0} (check : R → Outcome R) (r : R) where
  resolve-checked : (s : SyncState R) → resolve check s ≡ value r → (x : R) × (check x ≡ value r)
  resolve-checked s h = cases s.ex s.result h
    where
      cases :
          (ex : Option _) (res : Option R)
          → resolve check (record { sema = s.sema; ex = ex; result = res }) ≡ value r
          → (x : R) × (check x ≡ value r)
      cases (some e) res h = cc
      cases none (some x) h = (x, h)
      cases none none h = cc

module _ {St R : Type 0} (check : R → Outcome R) (r : R) where
  take_signal-checked :
      (n : ℕ) (w : World St R) (o : Option (Bool × Semaphore))
      → (take_signal check n w o).0 ≡ value r
      → (x : R) × (check x ≡ value r)
  take_signal-checked n w none h = cc
  take_signal-checked n w (some (false, s)) h = cc
  take_signal-checked n w (some (true, s)) h = resolve-checked check r (w.shared.slots n) h

  await_posted-checked :
      (env : Env St R) (n : ℕ) (p : Outcome Bool × World St R)
      → (await_posted env check n p).0 ≡ value r
      → (x : R) × (check x ≡ value r)
  await_posted-checked env n (value b, w) h =
      let later = if (w.shared.slots n).sema.signaled then w else env.meanwhile w in
      take_signal-checked n later (wait false (λ s. s) (later.shared.slots n).sema) h
  await_posted-checked env n (thrown e, w) h = cc
  await_posted-checked env n (crashed, w) h = cc

  pub run_sync-checked :
      (caller : Option ℕ) (env : Env St R) (body : St → Outcome R × St) (w : World St R)
      → on_worker caller w ≡ false
      → (run_sync caller env check body w).0 ≡ value r
      → (x : R) × (check x ≡ value r)
  unfolding run_sync run_remote
  run_sync-checked caller env body w off h = await_posted-checked env w.next_slot _ (simp off at h)
