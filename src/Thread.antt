-- ===== src/Thread.antt =====
-- The worker thread of DelegateMQ/port/os/stdlib: Thread.h, Thread.cpp and ThreadMsg.h, with
-- DelegateMsg.h of DelegateMQ/delegate. `I` is the type of the invokers that messages carry.
-- Each function is one critical section of the queue's mutex. What other threads do while a
-- producer waits for room is the argument `others`. Times are numbers of clock ticks.
pub mod Process
pub mod History
pub mod Fifo
pub mod Bounds
pub mod Drain
pub mod Watchdog
mod Tests
use async_duck_db.Common.{
  ℕ, ◌+◌, Bool, true, false, not, ◌&&◌, ◌||◌, List, [], ◌∷◌, ◌++◌, Option, none, some, ltb, leb,
  if◌then◌else◌, length,
}

-- `enum class Priority` and `enum class FullPolicy`
pub data Priority : Type 0 where
  normal high : Priority

pub data FullPolicy : Type 0 where
  drop fault timeout : FullPolicy

pub record DelegateMsg {ℓ} (I : Type ℓ) : Type ℓ where
  pub invoker : Option I
  pub priority : Priority

-- `MSG_DISPATCH_DELEGATE` and `MSG_EXIT_THREAD`
pub data MsgId : Type 0 where
  dispatch exit : MsgId

pub record ThreadMsg {ℓ} (I : Type ℓ) : Type ℓ where
  pub id : MsgId
  pub payload : Option (DelegateMsg I)

-- `created` is `m_thread.has_value()`; `alive` is `m_lastAliveTime`.
pub record Thread {ℓ} (I : Type ℓ) : Type ℓ where
  pub created : Bool
  pub exiting : Bool
  pub high_queue : List (ThreadMsg I)
  pub normal_queue : List (ThreadMsg I)
  pub max_queue_size : ℕ
  pub full_policy : FullPolicy
  pub alive : ℕ
  pub watchdog_timeout : ℕ

-- How a call of `DispatchDelegate` ends: `true`, `false`, the exception, or the fault handler.
pub data Dispatched : Type 0 where
  posted refused threw faulted : Dispatched

module _ {ℓ} {I : Type ℓ} where
  abbrev pub message_priority : ThreadMsg I → Priority
  message_priority m = elim m.payload [ none ↦ normal | some d ↦ d.priority ]

  abbrev pub new_thread : ℕ → FullPolicy → Thread I
  new_thread size policy = record {
    created = false;
    exiting = false;
    high_queue = [];
    normal_queue = [];
    max_queue_size = size;
    full_policy = policy;
    alive = 0;
    watchdog_timeout = 0;
  }

  abbrev pub queue_size : Thread I → ℕ
  queue_size t = length t.high_queue + length t.normal_queue

  abbrev pub has_room : Thread I → Bool
  has_room t = ltb (queue_size t) t.max_queue_size

  abbrev is_full : Thread I → Bool
  is_full t = ltb 0 t.max_queue_size && leb t.max_queue_size (queue_size t)

  -- `push_back` on the queue of the message's priority
  abbrev pub push_back : ThreadMsg I → Thread I → Thread I
  push_back m t = elim (message_priority m) [
    | high ↦ record t { high_queue = t.high_queue ++ (m ∷ []) }
    | normal ↦ record t { normal_queue = t.normal_queue ++ (m ∷ []) }
  ]

  abbrev pub dispatch_message : DelegateMsg I → ThreadMsg I
  dispatch_message d = record { id = dispatch; payload = some d }

  abbrev pub exit_message : ThreadMsg I
  exit_message = record { id = exit; payload = none }

  -- the end of `DispatchDelegate`, from the second test of `m_exit` on
  abbrev post : DelegateMsg I → Thread I → Dispatched × Thread I
  post d t = if t.exiting then (refused, t) else (posted, push_back (dispatch_message d) t)

  abbrev at_full_queue :
      (Thread I → Thread I) → DelegateMsg I → Thread I → FullPolicy → Dispatched × Thread I
  at_full_queue others d t drop = (refused, t)
  at_full_queue others d t fault = (faulted, t)
  at_full_queue others d t timeout =
      let t' = others t in if has_room t' || t'.exiting then post d t' else (refused, t')

  -- `DispatchDelegate`
  unfoldable pub dispatch_delegate :
      (Thread I → Thread I) → DelegateMsg I → Thread I → Dispatched × Thread I
  dispatch_delegate others d t =
      if t.exiting
      then (refused, t)
      else if not t.created
      then (threw, t)
      else if is_full t
      then at_full_queue others d t t.full_policy
      else post d t

  -- `CreateThread` with the start of `Process`; the watchdog list is `Watchdog.create`.
  unfoldable pub create_thread : ℕ → Option ℕ → Thread I → Thread I
  create_thread now watchdog t = if t.created then t else record t {
    created = true;
    exiting = false;
    alive = now;
    watchdog_timeout = elim watchdog [ none ↦ t.watchdog_timeout | some w ↦ w ];
  }

  -- `ExitThread` up to the join: the flag and the exit message, past the size limit
  unfoldable pub post_exit : Thread I → Thread I
  post_exit t = if t.created then push_back exit_message (record t { exiting = true }) else t

  -- `ExitThread` after the join
  unfoldable pub finish_exit : Thread I → Thread I
  finish_exit t =
      if t.created then record t { created = false; high_queue = []; normal_queue = [] } else t

  -- the next message: the oldest of high priority, else the oldest of normal priority
  unfoldable pub take_next : Thread I → Option (ThreadMsg I × Thread I)
  take_next t = elim t.high_queue [
    | m ∷ rest ↦ some (m, record t { high_queue = rest })
    | [] ↦ elim t.normal_queue [ m ∷ rest ↦ some (m, record t { normal_queue = rest }) | [] ↦ none ]
  ]
