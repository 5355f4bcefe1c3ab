-- ===== src/Reliable/Scan.antt =====
-- One pass of `TransportMonitor::Process` (DelegateMQ/extras/util/TransportMonitor.h) over the map.
use async_duck_db.Common.{
  ℕ, zero, suc, ◌+◌, ◌≤◌, ◌<◌, ◌≡◌, refl, false, not, List, [], ◌∷◌, ◌++◌, if◌then◌else◌, arith,
  length, keep_if,
}
use async_duck_db.Reliable.{TimeoutData, Event, send_status, timeout, scan, is_expired}

-- the timeouts of the entries that expired at `now`, in the order of the map
unfoldable pub timeouts : ℕ → ℕ → List (ℕ × TimeoutData) → List Event
timeouts limit now [] = []
timeouts limit now ((k, d) ∷ m) =
    if is_expired limit now d
    then send_status d.remote_id d.seq_num timeout ∷ timeouts limit now m
    else timeouts limit now m

abbrev pub as_timeouts : List TimeoutData → List Event
as_timeouts [] = []
as_timeouts (d ∷ ds) = send_status d.remote_id d.seq_num timeout ∷ as_timeouts ds

abbrev pub waiting : ℕ → ℕ → List (ℕ × TimeoutData) → List (ℕ × TimeoutData)
waiting limit now = keep_if (λ e. not (is_expired limit now e.1))

module _ (limit now : ℕ) where
  pub length-scan :
      (room : ℕ) (m : List (ℕ × TimeoutData))
      → length (scan limit now room m).expired + length (scan limit now room m).left ≡ length m
  unfolding scan
  length-scan room [] = refl
  length-scan zero ((k, d) ∷ m) = ground (arith, length-scan zero m)
  length-scan (suc room) ((k, d) ∷ m) = ground (arith, length-scan room m, length-scan (suc room) m)

  pub scan-waiting :
      (room : ℕ) (m : List (ℕ × TimeoutData))
      → waiting limit now (scan limit now room m).left ≡ waiting limit now m
  unfolding scan
  scan-waiting room [] = refl
  scan-waiting zero ((k, d) ∷ m) = ground (arith, scan-waiting zero m)
  scan-waiting (suc room) ((k, d) ∷ m) =
      ground (arith, scan-waiting room m, scan-waiting (suc room) m)

  pub scan-timeouts :
      (room : ℕ) (m : List (ℕ × TimeoutData))
      → timeouts limit now m
        ≡ as_timeouts (scan limit now room m).expired
          ++ timeouts limit now (scan limit now room m).left
  unfolding scan timeouts
  scan-timeouts room [] = refl
  scan-timeouts zero ((k, d) ∷ m) = ground (arith, scan-timeouts zero m)
  scan-timeouts (suc room) ((k, d) ∷ m) =
      ground (arith, scan-timeouts room m, scan-timeouts (suc room) m)

  -- A pass that did not fill its buffer went through the whole map.
  pub scan-done :
      (room : ℕ) (m : List (ℕ × TimeoutData))
      → length (scan limit now room m).expired < room
      → ((scan limit now room m).left ≡ waiting limit now m)
        × (timeouts limit now (scan limit now room m).left ≡ [])
        × ((scan limit now room m).stopped ≡ false)
  unfolding scan timeouts
  scan-done room [] h = (refl, refl, refl)
  scan-done zero ((k, d) ∷ m) h = absurd (omega arith)
  scan-done (suc room) ((k, d) ∷ m) h = ground (arith, scan-done room m, scan-done (suc room) m)

  pub length-scan-le :
      (room : ℕ) (m : List (ℕ × TimeoutData)) → length (scan limit now room m).expired ≤ room
  unfolding scan
  length-scan-le room [] = omega arith
  length-scan-le zero ((k, d) ∷ m) = ground (arith, length-scan-le zero m)
  length-scan-le (suc room) ((k, d) ∷ m) =
      ground (arith, length-scan-le room m, length-scan-le (suc room) m)
