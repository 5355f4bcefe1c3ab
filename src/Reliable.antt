-- ===== src/Reliable.antt =====
-- The reliability layer of DelegateMQ/extras/util: TransportMonitor.h here, RetryMonitor.h and
-- ReliableTransport.h in the children. Times are counts of the library's `Duration`.
pub mod Scan
pub mod Drain
pub mod Pending
pub mod Retry
pub mod Budget
pub mod Delivery
pub mod Exhaustion
mod Tests
use async_duck_db.Common.{
  ℕ, zero, suc, ◌+◌, ◌-◌, ◌*◌, Bool, true, false, List, [], ◌∷◌, ◌++◌, Option, none, some, ◌==◌,
  ltb, leb, not, if◌then◌else◌, length, is_empty, lookup, insert, erase,
}

abbrev pub max_transport_monitor_pending : ℕ
max_transport_monitor_pending = 100

abbrev pub max_timer_expired : ℕ
max_timer_expired = 16

pub record TimeoutData : Type 0 where
  pub remote_id : ℕ
  pub seq_num : ℕ
  pub time_stamp : ℕ

pub record TransportMonitor : Type 0 where
  pub pending : List (ℕ × TimeoutData)
  pub transport_timeout : ℕ

pub data Status : Type 0 where
  success : Status
  timeout : Status

-- what the three signals of a monitor carry
pub data Event : Type 0 where
  send_status : ℕ → ℕ → Status → Event
  cap_exceeded : ℕ → Event
  pending_exceeded : ℕ → Event

-- `(remoteId << 16) | seqNum`, of two numbers of 16 bits
abbrev pub key_of : ℕ → ℕ → ℕ
key_of id seq = id * 65536 + seq

unfoldable pub add : ℕ → ℕ → ℕ → TransportMonitor → (Bool × List Event) × TransportMonitor
add now seq id m =
    if leb max_transport_monitor_pending (length m.pending)
    then ((false, cap_exceeded (length m.pending) ∷ []), m)
    else (
      (true, []),
      record m {
        pending =
            insert (key_of id seq) (record { remote_id = id; seq_num = seq; time_stamp = now })
              m.pending;
      },
    )

-- the scan for a sequence number whose remote is not known
abbrev pub find_seq : ℕ → List (ℕ × TimeoutData) → Option (ℕ × TimeoutData)
find_seq seq [] = none
find_seq seq ((k, d) ∷ m) = if d.seq_num == seq then some (k, d) else find_seq seq m

abbrev pub find_entry : ℕ → ℕ → List (ℕ × TimeoutData) → Option (ℕ × TimeoutData)
find_entry seq id m =
    if id == 0
    then find_seq seq m
    else elim (lookup (key_of id seq) m) [ none ↦ none | some d ↦ some (key_of id seq, d) ]

unfoldable pub remove : ℕ → ℕ → TransportMonitor → List Event × TransportMonitor
remove seq id m = elim (find_entry seq id m.pending) [
  | none ↦ ([], m)
  | some kd ↦
      (send_status kd.1.remote_id seq success ∷ [], record m { pending = erase kd.0 m.pending })
]

abbrev pub is_expired : ℕ → ℕ → TimeoutData → Bool
is_expired limit now d = ltb limit (now - d.time_stamp)

-- One pass over the map: the entries that were erased, those that stay, and whether the pass stopped
-- at an expired entry because its buffer was full.
pub record Pass : Type 0 where
  pub expired : List TimeoutData
  pub left : List (ℕ × TimeoutData)
  pub stopped : Bool

abbrev pub keep_entry : ℕ × TimeoutData → Pass → Pass
keep_entry e p = record p { left = e ∷ p.left }

abbrev pub take_entry : TimeoutData → Pass → Pass
take_entry d p = record p { expired = d ∷ p.expired }

unfoldable pub scan : ℕ → ℕ → ℕ → List (ℕ × TimeoutData) → Pass
scan limit now room [] = record { expired = []; left = []; stopped = false }
scan limit now zero ((k, d) ∷ m) =
    let rest = scan limit now zero m in
    if is_expired limit now d
    then record { expired = []; left = (k, d) ∷ m; stopped = true }
    else keep_entry (k, d) rest
scan limit now (suc room) ((k, d) ∷ m) =
    let taken = scan limit now room m in
    let kept = scan limit now (suc room) m in
    if is_expired limit now d then take_entry d taken else keep_entry (k, d) kept

-- `Process`, among the subscribers of the monitor's signals: the world `W` holds the monitor, and
-- `notify` is what the subscribers do. `clock` is the time of a pass, by the passes still allowed.
module _ {W : Type 0} (monitor : W → TransportMonitor) (put : TransportMonitor → W → W)
    (notify : Event → W → W) (clock : ℕ → ℕ) where
  abbrev pub notify_timeouts : List TimeoutData → W → W
  notify_timeouts [] w = w
  notify_timeouts (d ∷ ds) w =
      notify_timeouts ds (notify (send_status d.remote_id d.seq_num timeout) w)

  abbrev pub notify_remaining : Pass → W → W
  notify_remaining p w = if p.stopped then notify (pending_exceeded (length p.left)) w else w

  abbrev pub after_pass : Pass → W → W
  after_pass p w =
      notify_remaining p
        (notify_timeouts p.expired (put (record (monitor w) { pending = p.left }) w))

  unfoldable pub process : ℕ → W → Option W
  process zero w = none
  process (suc n) w =
      let p = scan (monitor w).transport_timeout (clock n) max_timer_expired (monitor w).pending in
      let again = process n (after_pass p w) in
      if is_empty (monitor w).pending
      then some w
      else if length p.expired == max_timer_expired
      then again
      else some (after_pass p w)
