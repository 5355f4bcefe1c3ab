-- ===== src/Thread/Drain.antt =====
-- The end of a worker: `ExitThread` and the last turns of `Process` (Thread.cpp).
use async_duck_db.Common.{
  ℕ, suc, ◌+◌, ◌≡◌, refl, ap, ◌∙◌, true, false, List, [], ◌∷◌, ◌++◌, arith, length, length-append,
  if◌then◌else◌, All,
}
use async_duck_db.Thread.{
  Thread, ThreadMsg, exit_message, queue_size, post_exit, finish_exit, take_next,
}
use async_duck_db.Thread.Process.{
  Invoked, Turn, continues, waits, exits, run_message, process_turn, process,
}

module _ {ℓ κ} {I : Type ℓ} {S : Type κ} (invoke : I → S → Invoked × S) where
  -- The delegates of a list of messages, run one after the other.
  unfoldable pub run_all : List (ThreadMsg I) → S → S
  run_all [] s = s
  run_all (m ∷ ms) s = run_all ms (run_message invoke m s).1

  -- Messages that carry a delegate which returns and does not throw.
  abbrev pub Returns : ThreadMsg I → Type κ
  Returns m = (s : S) → (run_message invoke m s).0 ≡ continues

  -- One turn for each message of a list, one for the exit message, and `k` to spare.
  pub fuel_for : List (ThreadMsg I) → ℕ → ℕ
  fuel_for [] k = suc k
  fuel_for (m ∷ ms) k = suc (fuel_for ms k)

  pub fuel_for-length : (ms : List (ThreadMsg I)) (k : ℕ) → fuel_for ms k ≡ length ms + k + 1
  unfolding fuel_for
  fuel_for-length [] k = omega arith
  fuel_for-length (m ∷ ms) k = omega (arith, fuel_for-length ms k)

  turn_high :
      (now : ℕ) (t : Thread I) (s : S) (m : ThreadMsg I) (rest : List (ThreadMsg I))
      → t.high_queue ≡ m ∷ rest
      → (run_message invoke m s).0 ≡ continues
      → process_turn invoke now t s
        ≡ (continues, record t { alive = now; high_queue = rest }, (run_message invoke m s).1)
  unfolding process_turn take_next
  turn_high now t s m rest e r = rw e (rw r)

  turn_normal :
      (now : ℕ) (t : Thread I) (s : S) (m : ThreadMsg I) (rest : List (ThreadMsg I))
      → t.high_queue ≡ []
      → t.normal_queue ≡ m ∷ rest
      → (run_message invoke m s).0 ≡ continues
      → process_turn invoke now t s
        ≡ (continues, record t { alive = now; normal_queue = rest }, (run_message invoke m s).1)
  unfolding process_turn take_next
  turn_normal now t s m rest e f r = rw (e, f) (rw r)

  turn_exit :
      (now : ℕ) (t : Thread I) (s : S) (rest : List (ThreadMsg I))
      → t.high_queue ≡ []
      → t.normal_queue ≡ exit_message ∷ rest
      → process_turn invoke now t s
        ≡ (exits, record t { alive = now; high_queue = []; normal_queue = rest }, s)
  unfolding process_turn take_next
  turn_exit now t s rest e f = ground arith

  -- a turn that goes on is followed by the rest of the loop
  process-continues :
      (clock : ℕ → ℕ) (fuel : ℕ) (t t' : Thread I) (s s' : S)
      → process_turn invoke (clock fuel) t s ≡ (continues, t', s')
      → process invoke clock (suc fuel) t s ≡ process invoke clock fuel t' s'
  unfolding process
  process-continues clock fuel t t' s s' e = rw e

  process-exits :
      (clock : ℕ → ℕ) (fuel : ℕ) (t t' : Thread I) (s s' : S)
      → process_turn invoke (clock fuel) t s ≡ (exits, t', s')
      → process invoke clock (suc fuel) t s ≡ (exits, t', s')
  unfolding process
  process-exits clock fuel t t' s s' e = rw e

  drain_normal :
      (clock : ℕ → ℕ) (ns : List (ThreadMsg I)) (k : ℕ) (t : Thread I) (s : S)
      → t.high_queue ≡ []
      → t.normal_queue ≡ ns ++ (exit_message ∷ [])
      → All Returns ns
      → process invoke clock (fuel_for ns k) t s
        ≡ (exits, record t { alive = clock k; high_queue = []; normal_queue = [] }, run_all ns s)
  unfolding fuel_for run_all
  drain_normal clock [] k t s e f r = process-exits clock k t _ s _ (turn_exit (clock k) t s [] e f)
  drain_normal clock (m ∷ ns) k t s e f r =
      process-continues clock (fuel_for ns k) t _ s _ (turn_normal _ t s m _ e f (r.0 s))
      ∙ drain_normal clock ns k
          (record t { alive = clock (fuel_for ns k); normal_queue = ns ++ (exit_message ∷ []) })
          (run_message invoke m s).1 e refl r.1

  drain_high :
      (clock : ℕ → ℕ) (hs ns : List (ThreadMsg I)) (k : ℕ) (t : Thread I) (s : S)
      → t.high_queue ≡ hs
      → t.normal_queue ≡ ns ++ (exit_message ∷ [])
      → All Returns hs
      → All Returns ns
      → process invoke clock (fuel_for (hs ++ ns) k) t s ≡ (
        exits,
        record t { alive = clock k; high_queue = []; normal_queue = [] },
        run_all (hs ++ ns) s,
      )
  unfolding fuel_for run_all
  drain_high clock [] ns k t s e f r q = drain_normal clock ns k t s e f q
  drain_high clock (m ∷ hs) ns k t s e f r q =
      process-continues clock (fuel_for (hs ++ ns) k) t _ s _ (turn_high _ t s m _ e (r.0 s))
      ∙ drain_high clock hs ns k
          (record t { alive = clock (fuel_for (hs ++ ns) k); high_queue = hs })
          (run_message invoke m s).1 refl f r.1 q

  turn_waits :
      (now : ℕ) (t : Thread I) (s : S)
      → t.high_queue ≡ []
      → t.normal_queue ≡ []
      → t.exiting ≡ false
      → process_turn invoke now t s
        ≡ (waits, record t { alive = now; high_queue = []; normal_queue = []; exiting = false }, s)
  unfolding process_turn take_next
  turn_waits now t s e f x = ground arith

  process-waits :
      (clock : ℕ → ℕ) (fuel : ℕ) (t t' : Thread I) (s s' : S)
      → process_turn invoke (clock fuel) t s ≡ (waits, t', s')
      → process invoke clock (suc fuel) t s ≡ (waits, t', s')
  unfolding process
  process-waits clock fuel t t' s s' e = rw e

  -- A worker that is not told to exit runs what waits, and then blocks on the empty queue.
  pub drain_idle :
      (clock : ℕ → ℕ) (ns : List (ThreadMsg I)) (k : ℕ) (t : Thread I) (s : S)
      → t.high_queue ≡ []
      → t.normal_queue ≡ ns
      → t.exiting ≡ false
      → All Returns ns
      → process invoke clock (fuel_for ns k) t s ≡ (
        waits,
        record t { alive = clock k; high_queue = []; normal_queue = []; exiting = false },
        run_all ns s,
      )
  unfolding fuel_for run_all
  drain_idle clock [] k t s e f x r = process-waits clock k t _ s _ (turn_waits (clock k) t s e f x)
  drain_idle clock (m ∷ ns) k t s e f x r =
      process-continues clock (fuel_for ns k) t _ s _ (turn_normal _ t s m _ e f (r.0 s))
      ∙ drain_idle clock ns k (record t { alive = clock (fuel_for ns k); normal_queue = ns })
          (run_message invoke m s).1 e refl x r.1

  pub run_all-append :
      (xs ys : List (ThreadMsg I)) (s : S) → run_all (xs ++ ys) s ≡ run_all ys (run_all xs s)
  unfolding run_all
  run_all-append [] ys s = refl
  run_all-append (x ∷ xs) ys s = run_all-append xs ys (run_message invoke x s).1

  abbrev pub after_join : Turn × Thread I × S → Turn × Thread I × S
  after_join (turn, t, s) = (turn, finish_exit t, s)

  -- `ExitThread` called by another thread: post the exit message, join the worker, clean up.
  unfoldable pub exit_thread : (ℕ → ℕ) → ℕ → Thread I → S → Turn × Thread I × S
  exit_thread clock fuel t s =
      if t.created then after_join (process invoke clock fuel (post_exit t) s) else (exits, t, s)

  exit_thread_lem :
      (clock : ℕ → ℕ) (fuel : ℕ) (t : Thread I) (s : S)
      → t.created ≡ true
      → exit_thread clock fuel t s ≡ after_join (process invoke clock fuel (post_exit t) s)
  unfolding exit_thread
  exit_thread_lem clock fuel t s c = simp c

  post_exit_created :
      (t : Thread I)
      → t.created ≡ true
      → post_exit t
        ≡ record t { exiting = true; normal_queue = t.normal_queue ++ (exit_message ∷ []) }
  unfolding post_exit
  post_exit_created t c = ground arith

  finish_exit_created :
      (t : Thread I)
      → t.created ≡ true
      → finish_exit t ≡ record t { created = false; high_queue = []; normal_queue = [] }
  unfolding finish_exit
  finish_exit_created t c = ground arith

  -- `ExitThread` by another thread on a thread that was created, whose messages return and do not
  -- throw, runs every message that waits, those of high priority and then the others, each in
  -- order; then the worker ends, the queues are empty and there is no thread. One turn for each
  -- message and one more are enough.
  pub exit_thread-run_all :
      (clock : ℕ → ℕ) (k : ℕ) (t : Thread I) (s : S)
      → t.created ≡ true
      → All Returns t.high_queue
      → All Returns t.normal_queue
      → exit_thread clock (queue_size t + k + 1) t s ≡ (
        exits,
        record t {
          created = false;
          exiting = true;
          alive = clock k;
          high_queue = [];
          normal_queue = [];
        },
        run_all (t.high_queue ++ t.normal_queue) s,
      )
  exit_thread-run_all clock k t s c r q =
      exit_thread_lem clock (queue_size t + k + 1) t s c
      ∙ rw (fuel, post_exit_created t c, drained)
          (ap (λ u. (exits, u, run_all (t.high_queue ++ t.normal_queue) s))
            (finish_exit_created _ c))
    where
      fuel : queue_size t + k + 1 ≡ fuel_for (t.high_queue ++ t.normal_queue) k
      fuel = omega (
        arith,
        fuel_for-length (t.high_queue ++ t.normal_queue) k,
        length-append t.high_queue t.normal_queue,
      )

      exiting : Thread I
      exiting = record t { exiting = true; normal_queue = t.normal_queue ++ (exit_message ∷ []) }

      drained : process invoke clock (fuel_for (t.high_queue ++ t.normal_queue) k) exiting s ≡ (
        exits,
        record t { exiting = true; alive = clock k; high_queue = []; normal_queue = [] },
        run_all (t.high_queue ++ t.normal_queue) s,
      )
      drained = drain_high clock t.high_queue t.normal_queue k exiting s refl refl r q
