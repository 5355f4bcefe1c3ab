-- ===== src/Thread/Watchdog.antt =====
-- The watchdog of Thread.cpp: the list of watched threads, `WatchdogCheck` and `WatchdogCheckAll`.
-- Threads are numbered; the intrusive list is the list of their numbers from its head on.
use async_duck_db.Common.{
  ℕ, ◌+◌, ◌-◌, ◌<◌, ◌≡◌, refl, Bool, true, false, ◌&&◌, ◌||◌, List, [], ◌∷◌, Option, none, some,
  arith, ltb, ◌==◌, if◌then◌else◌, All, take, contains, IsSimple, sym, ◌∙◌, ◌⊎◌, inl, inr,
  Bool-cases, ◌↔◌,
}
use async_duck_db.Thread.{Thread}

abbrev pub max_watchdog_threads : ℕ
max_watchdog_threads = 16

-- the registration at the end of `CreateThread`
pub watch : ℕ → List ℕ → List ℕ
watch i threads = if contains i threads then threads else i ∷ threads

-- the unlinking in the destructor
pub unwatch : ℕ → List ℕ → List ℕ
unwatch i [] = []
unwatch i (j ∷ threads) = if j == i then threads else j ∷ unwatch i threads

module _ {ℓ} {I : Type ℓ} where
  -- `ThreadCheck`, and what each turn of `Process` does
  pub thread_check : ℕ → Thread I → Thread I
  thread_check now t = record t { alive = now }

  -- `WatchdogCheck`: whether it calls `WatchdogHandler`. `-` stops at 0 for a thread that was alive
  -- after `now` was read; the difference is negative there, and the test fails too.
  pub watchdog_check : ℕ → Thread I → Bool
  watchdog_check now t = ltb 0 t.watchdog_timeout && ltb t.watchdog_timeout (now - t.alive)

  pub first_stalled : ℕ → (ℕ → Thread I) → List ℕ → Option ℕ
  first_stalled now thread [] = none
  first_stalled now thread (i ∷ rest) =
      if watchdog_check now (thread i) then some i else first_stalled now thread rest

  -- `WatchdogCheckAll`: the thread for which the handler is called. It does not return.
  pub watchdog_check_all : ℕ → (ℕ → Thread I) → List ℕ → Option ℕ
  watchdog_check_all now thread threads =
      first_stalled now thread (take max_watchdog_threads threads)

pub contains-unwatch :
    (i j : ℕ) (threads : List ℕ)
    → IsSimple threads
    → contains j (unwatch i threads) ≡ (if i == j then false else contains j threads)
unfolding unwatch
contains-unwatch i j [] u = ground arith
contains-unwatch i j (k ∷ threads) u = ground (arith, contains-unwatch i j threads)

contains-watch :
    (i j : ℕ) (threads : List ℕ) → contains j (watch i threads) ≡ (i == j || contains j threads)
unfolding watch
contains-watch i j threads = ground (arith)

-- A thread that is created is watched and one that is destroyed is not; the others stay as they
-- were, and none is linked twice, which the list's `m_watchdogNext` could not express.
pub watch-IsSimple : (i : ℕ) (threads : List ℕ) → IsSimple threads → IsSimple (watch i threads)
unfolding watch
watch-IsSimple i threads u = ground arith

pub unwatch-IsSimple : (i : ℕ) (threads : List ℕ) → IsSimple threads → IsSimple (unwatch i threads)
unfolding unwatch
unwatch-IsSimple i [] u = tt
unwatch-IsSimple i (k ∷ threads) u =
    ground (arith, unwatch-IsSimple i threads u.1, contains-unwatch i k threads u.1)

module _ {ℓ} {I : Type ℓ} (now : ℕ) (thread : ℕ → Thread I) where
  abbrev pub IsStalled : ℕ → Type 0
  IsStalled i =
      (0 < (thread i).watchdog_timeout) × ((thread i).alive + (thread i).watchdog_timeout < now)

  check_iff : (i : ℕ) → (watchdog_check now (thread i) ≡ true) ↔ IsStalled i
  unfolding watchdog_check
  check_iff i = ground arith

  first_stalled_cases :
      (threads : List ℕ)
      → ((first_stalled now thread threads ≡ none) × All (λ i. ¬ IsStalled i) threads)
        ⊎ ((i : ℕ) × (first_stalled now thread threads ≡ some i)
            × (contains i threads ≡ true)
            × IsStalled i)
  unfolding first_stalled
  first_stalled_cases [] = inl (refl, tt)
  first_stalled_cases (j ∷ threads) = elim (Bool-cases (watchdog_check now (thread j))) [
    | inl e ↦ inr (j, rw e, ground arith, (check_iff j).0 e)
    | inr e ↦ elim (first_stalled_cases threads) [
      | inl (none_here, fine) ↦ inl (rw e none_here, (λ d. cc (sym e ∙ (check_iff j).1 d), fine))
      | inr (i, found, mem, late) ↦ inr (i, rw e found, ground arith, late)
    ]
  ]

  -- Either `WatchdogCheckAll` calls no handler and none of the first 16 watched threads has gone
  -- without a turn for longer than its timeout, or it calls the handler for one of those 16 that
  -- has.
  pub watchdog_check_all_cases :
      (threads : List ℕ)
      → ((watchdog_check_all now thread threads ≡ none)
          × All (λ i. ¬ IsStalled i) (take max_watchdog_threads threads))
        ⊎ ((i : ℕ) × (watchdog_check_all now thread threads ≡ some i)
            × (contains i (take max_watchdog_threads threads) ≡ true)
            × IsStalled i)
  unfolding watchdog_check_all
  watchdog_check_all_cases threads = first_stalled_cases (take max_watchdog_threads threads)
