-- ===== src/Reliable/Tests.antt =====
-- Tests of TransportMonitor.h and RetryMonitor.h of DelegateMQ/extras/util.
use async_duck_db.Common.{
  ◌+◌, ◌≤◌, ◌≡◌, ◌⊎◌, refl, Bool, true, false, List, [], ◌∷◌, ◌++◌, none, some, arith, lookup,
}
use async_duck_db.Reliable.{TransportMonitor, send_status, timeout, add, process, scan, key_of}
use async_duck_db.Reliable.Drain.{process_at, process-drains, Drained}
use async_duck_db.Reliable.Pending.{
  IsMonitor, added, removed, processed, serve_on, Served, serve_on-IsMonitor,
}
use async_duck_db.Reliable.Retry.{
  RetryEntry, Link, Packet, DmqHeader, new_header, header_key, send_with_retry, accepted,
  send_failed, monitor_full,
}
use async_duck_db.Reliable.Budget.{IsLink, transmissions}
use async_duck_db.Reliable.Exhaustion.{timeouts_at, timeouts_exhaust}
use async_duck_db.Reliable.Delivery.{Heard, hear, send_with_retry-bounded, send_with_retry_cases}

abbrev empty : TransportMonitor
empty = record { pending = []; transport_timeout = 2000 }

abbrev waiting_two : TransportMonitor
waiting_two = (add 3000 6 9 (add 100 5 9 empty).1).1

empty-IsMonitor : IsMonitor empty
empty-IsMonitor = record { ordered = tt; bounded = omega arith }

process-drains_example : Drained 4000 waiting_two [] (process_at 4000 3 (waiting_two, []))
unfolding add
process-drains_example = process-drains 3 4000 waiting_two [] (omega arith)

one_times_out :
    process_at 4000 3 (waiting_two, [])
    ≡ some (
      record {
        pending = (key_of 9 6, record { remote_id = 9; seq_num = 6; time_stamp = 3000 }) ∷ [];
        transport_timeout = 2000;
      },
      send_status 9 5 timeout ∷ [],
    )
unfolding process scan add
one_times_out = refl

serve_on-IsMonitor_example :
    Served (serve_on (added 1 5 9 ∷ removed 5 9 ∷ processed 4000 ∷ []) (some (empty, [])))
serve_on-IsMonitor_example =
    serve_on-IsMonitor (added 1 5 9 ∷ removed 5 9 ∷ processed 4000 ∷ []) (empty, []) empty-IsMonitor

abbrev link : Link
link = record { monitor = empty; max_retries = 2; retry_store = []; sent = [] }

link-IsLink : IsLink link
link-IsLink = record { keyed = tt; ordered = tt }

abbrev lost : List Heard
lost = record { time = 5000; remote = 9; seq = 5; status = timeout } ∷ []

abbrev header : DmqHeader
header = new_header 9 5 1

abbrev works : List Packet → Packet → Bool
works sent p = true

send_with_retry-bounded_example :
    transmissions
      (header_key header)
      (hear works lost (send_with_retry works 0 header (1 ∷ []) link).1).sent
    ≤ transmissions (header_key header) link.sent + 1 + link.max_retries
send_with_retry-bounded_example =
    send_with_retry-bounded works 0 header (1 ∷ []) link lost link-IsLink

abbrev fails : List Packet → Packet → Bool
fails sent p = false

refused_waits : (send_with_retry fails 0 header (1 ∷ []) link).0 ≡ send_failed
unfolding send_with_retry add
refused_waits = refl

abbrev after_send : Link
after_send = (send_with_retry works 0 header (1 ∷ []) link).1

send_with_retry_cases_example :
    (((send_with_retry works 0 header (1 ∷ []) link).0 ≡ accepted)
      × (after_send.sent ≡ [] ++ (record { head = header; payload = 1 ∷ [] } ∷ []))
      × (lookup (header_key header) after_send.retry_store
          ≡ some (record {
            packet_data = 1 ∷ [];
            header = header;
            attempts_remaining = 2;
            is_sent = true;
          }))
      × (lookup (header_key header) after_send.monitor.pending
          ≡ some (record { remote_id = 9; seq_num = 5; time_stamp = 0 })))
    ⊎ ((((send_with_retry works 0 header (1 ∷ []) link).0 ≡ send_failed)
          × (lookup (header_key header) after_send.retry_store ≡ none)
          × (lookup (header_key header) after_send.monitor.pending
              ≡ some (record { remote_id = 9; seq_num = 5; time_stamp = 0 })))
        ⊎ (((send_with_retry works 0 header (1 ∷ []) link).0 ≡ monitor_full)
            × (lookup (header_key header) after_send.retry_store ≡ none)
            × (after_send.sent ≡ [])))
send_with_retry_cases_example = send_with_retry_cases works 0 header (1 ∷ []) link link-IsLink

abbrev kept : RetryEntry
kept = record { packet_data = 1 ∷ []; header = header; attempts_remaining = 2; is_sent = true }

abbrev keeping : Link
keeping = record link { retry_store = (key_of 9 5, kept) ∷ [] }

timeouts_exhaust_example :
    lookup (key_of 9 5) (hear works (timeouts_at 9 5 (10 ∷ 20 ∷ 30 ∷ [])) keeping).retry_store
    ≡ none
timeouts_exhaust_example =
    timeouts_exhaust works 9 5 (10 ∷ 20 ∷ 30 ∷ []) keeping kept
      (record { keyed = (refl, tt); ordered = (omega arith, tt) }) refl refl (omega arith)
