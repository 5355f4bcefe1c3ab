-- ===== src/Reliable/Retry.antt =====
-- DelegateMQ/extras/util/RetryMonitor.h and ReliableTransport.h over a physical transport, which is a
-- parameter: what `ITransport::Send` answers, from the packets sent before and the packet.
use async_duck_db.Common.{
  ℕ, ◌-◌, Bool, true, false, List, [], ◌∷◌, ◌++◌, Option, none, some, ltb, if◌then◌else◌, lookup,
  insert, erase,
}
use async_duck_db.Reliable.{
  TransportMonitor, Event, send_status, cap_exceeded, pending_exceeded, Status, success, timeout,
  key_of, add, process,
}

-- DelegateMQ/port/transport/DmqHeader.h
pub record DmqHeader : Type 0 where
  pub marker : ℕ
  pub id : ℕ
  pub seq_num : ℕ
  pub length : ℕ

abbrev pub new_header : ℕ → ℕ → ℕ → DmqHeader
new_header i s l = record { marker = 43605; id = i; seq_num = s; length = l }

-- `attemptsRemaining` counts down to 0 from the `maxRetries` of `Init`, at least 0.
pub record RetryEntry : Type 0 where
  pub packet_data : List ℕ
  pub header : DmqHeader
  pub attempts_remaining : ℕ
  pub is_sent : Bool

pub record Packet : Type 0 where
  pub head : DmqHeader
  pub payload : List ℕ

-- The retry monitor, the transport monitor that it listens to, and the packets handed to the physical
-- transport, oldest first.
pub record Link : Type 0 where
  pub monitor : TransportMonitor
  pub max_retries : ℕ
  pub retry_store : List (ℕ × RetryEntry)
  pub sent : List Packet

abbrev pub header_key : DmqHeader → ℕ
header_key h = key_of h.id h.seq_num

abbrev pub mark_sent : ℕ → List (ℕ × RetryEntry) → List (ℕ × RetryEntry)
mark_sent k store = elim (lookup k store) [
  | none ↦ store
  | some e ↦ insert k (record e { is_sent = true }) store
]

-- `m_monitor->Add`; nothing that listens to `OnCapExceeded` is part of the link.
abbrev pub watch_packet : ℕ → DmqHeader → Link → Bool × Link
watch_packet now h l = (
  (add now h.seq_num h.id l.monitor).0.0,
  record l { monitor = (add now h.seq_num h.id l.monitor).1 },
)

abbrev pub forget : ℕ → Link → Link
forget k l = record l { retry_store = erase k l.retry_store }

-- What the send answers: 0, -1 when the monitor is full, or the transport's failure.
pub data SendResult : Type 0 where
  accepted : SendResult
  monitor_full : SendResult
  send_failed : SendResult

module _ (send : List Packet → Packet → Bool) where
  abbrev pub transmit : DmqHeader → List ℕ → Link → Bool × Link
  transmit h data_ l = (
    send l.sent (record { head = h; payload = data_ }),
    record l { sent = l.sent ++ (record { head = h; payload = data_ } ∷ []) },
  )

  abbrev pub store_packet : DmqHeader → List ℕ → Link → Link
  store_packet h data_ l = record l {
    retry_store =
        insert (header_key h)
          (record {
            packet_data = data_;
            header = h;
            attempts_remaining = l.max_retries;
            is_sent = false;
          })
          l.retry_store;
  }

  abbrev pub settle_send : DmqHeader → Bool × Link → SendResult × Link
  settle_send h (true, l) =
      (accepted, record l { retry_store = mark_sent (header_key h) l.retry_store })
  settle_send h (false, l) = (send_failed, forget (header_key h) l)

  abbrev pub send_watched : DmqHeader → List ℕ → Bool × Link → SendResult × Link
  send_watched h data_ (true, l) = settle_send h (transmit h data_ l)
  send_watched h data_ (false, l) = (monitor_full, forget (header_key h) l)

  unfoldable pub send_with_retry : ℕ → DmqHeader → List ℕ → Link → SendResult × Link
  send_with_retry now h data_ l = send_watched h data_ (watch_packet now h (store_packet h data_ l))

  -- `ReliableTransport::Send`
  abbrev pub reliable_send : ℕ → DmqHeader → List ℕ → Link → SendResult × Link
  reliable_send = send_with_retry

  abbrev pub retry_watched : ℕ → RetryEntry → Bool × Link → Link
  retry_watched k e (true, l) = (transmit e.header e.packet_data l).1
  retry_watched k e (false, l) = forget k l

  abbrev pub retry : ℕ → ℕ → RetryEntry → Link → Link
  retry now k e l = retry_watched k e (
      watch_packet now e.header (record l {
        retry_store =
            insert k (record e { attempts_remaining = e.attempts_remaining - 1 }) l.retry_store;
      }))

  -- a `TIMEOUT`: retry, wait for the first send, or give up
  abbrev pub on_timeout : ℕ → ℕ → RetryEntry → Link → Link
  on_timeout now k e l =
      if ltb 0 e.attempts_remaining
      then (if e.is_sent then retry now k e l else (watch_packet now e.header l).1)
      else forget k l

  abbrev pub on_entry : ℕ → ℕ → Status → Option RetryEntry → Link → Link
  on_entry now k s none l = l
  on_entry now k success (some e) l = forget k l
  on_entry now k timeout (some e) l = on_timeout now k e l

  unfoldable pub on_status_changed : ℕ → ℕ → ℕ → Status → Link → Link
  on_status_changed now id seq s l =
      on_entry now (key_of id seq) s (lookup (key_of id seq) l.retry_store) l

  -- what the link does with the events of its monitor
  abbrev pub listen : ℕ → Event → Link → Link
  listen now (send_status id seq s) l = on_status_changed now id seq s l
  listen now (cap_exceeded n) l = l
  listen now (pending_exceeded n) l = l

  -- `TransportMonitor::Process` with the retry monitor as its subscriber, at one time
  abbrev pub process_link : ℕ → ℕ → Link → Option Link
  process_link now =
      process (λ l. l.monitor) (λ m l. record l { monitor = m }) (listen now) (λ n. now)
