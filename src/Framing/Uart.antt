-- ===== src/Framing/Uart.antt =====
-- `Stm32UartTransport` of DelegateMQ/port/transport/stm32-uart/Stm32UartTransport.h, between a UART whose
-- interrupt puts bytes into a ring and the caller. What `header` and `is` hold after a failure is outside.
pub mod Source
pub mod RoundTrip
use async_duck_db.Common.{
  ℕ, zero, suc, Bool, true, false, not, ◌&&◌, ◌||◌, List, [], ◌∷◌, ◌++◌, Option, none, some, ◌==◌,
  ltb, length, is_empty, take, ◌%◌, if◌then◌else◌,
}
use async_duck_db.Framing.{
  DmqHeader, marker, new_header, set_length, ack_remote_id, header_bytes, header_of, word_bytes,
  word_of, crc_of_parts,
}
use async_duck_db.Framing.Ring.{UartRingBuffer, put, get}

abbrev pub ring_size : ℕ
ring_size = 1024

abbrev pub buffer_size : ℕ
buffer_size = 512

-- a `HAL_UART_Transmit`, with whether it is HAL_OK, and then what follows
abbrev pub then_transmit : (List ℕ → Bool) → List ℕ → Bool × List ℕ → Bool × List ℕ
then_transmit transmit bytes (ok, more) =
    if transmit bytes then (ok, bytes ++ more) else (false, [])

-- `Send`, on a transport that has been created and a stream that is good, with the result of taking the
-- mutex: whether it returns 0, and the bytes that it has put on the line. The length of the payload is cast
-- to `uint16_t` for the UART as well.
unfoldable pub send : Bool → (List ℕ → Bool) → DmqHeader → List ℕ → Bool × List ℕ
send mutex transmit header payload =
    let packet = header_bytes (set_length (length payload) header) in
    let last = then_transmit transmit (word_bytes (crc_of_parts packet payload)) (true, []) in
    if mutex
    then then_transmit transmit packet (
        if is_empty payload
        then last
        else then_transmit transmit (take (length payload % 65536) payload) last)
    else (false, [])

-- What a wait comes to: a result, a failure, or a wait that does not end.
pub data Wait (A : Type 0) : Type 0 where
  done : A → Wait A
  failed : Wait A
  blocked : Wait A

-- What there is of interrupts up to a look into the ring: the bytes received, and how the wait for the
-- semaphore ends if the ring is empty then.
pub record Look : Type 0 where
  pub burst : List ℕ
  pub taken : Bool

-- The ring, and the looks still to come. After the last there is no interrupt.
pub record Line : Type 0 where
  pub ring : UartRingBuffer
  pub looks : List Look

-- `OnRxCplt` for each byte: a byte that does not fit is lost
unfoldable pub interrupts : List ℕ → UartRingBuffer → UartRingBuffer
interrupts [] r = r
interrupts (b ∷ bs) r = interrupts bs (put b r).1

abbrev pub line_after : Option ℕ × UartRingBuffer → List Look → Wait ℕ × Line
line_after (none, r) ls = (blocked, record { ring = r; looks = ls })
line_after (some b, r) ls = (done b, record { ring = r; looks = ls })

unfoldable pub read_looks : List Look → UartRingBuffer → Wait ℕ × Line
read_looks [] r = line_after (get r) []
read_looks (l ∷ ls) r = elim (get (interrupts l.burst r)).0 [
  | some b ↦ (done b, record { ring = (get (interrupts l.burst r)).1; looks = ls })
  | none ↦ elim l.taken [
    | true ↦ read_looks ls (interrupts l.burst r)
    | false ↦ (failed, record { ring = interrupts l.burst r; looks = ls })
  ]
]

-- `ReadByteBlocked`
unfoldable pub read_byte_blocked : Line → Wait ℕ × Line
unfolding read_looks
read_byte_blocked l = read_looks l.looks l.ring

pub data Effect : Type 0 where
  removed : ℕ → Effect
  acknowledged : DmqHeader → Effect

pub record Stm32UartTransport : Type 0 where
  pub is_receiver : Bool
  pub has_monitor : Bool
  pub has_sender : Bool

-- 0 with the header and the payload, -1, a wait that does not end, or the search out of fuel
pub data Received : Type 0 where
  received : DmqHeader → List ℕ → List Effect → Received
  refused : Received
  waiting : Received
  running : Received

-- 5. the acknowledgement
unfoldable pub acks : Stm32UartTransport → DmqHeader → List Effect
acks c h =
    if h.id == ack_remote_id
    then (if c.has_monitor then removed h.seq_num ∷ [] else [])
    else if c.has_monitor && c.has_sender
    then acknowledged (new_header ack_remote_id h.seq_num) ∷ []
    else []

-- `Receive`, over a source of bytes that is `ReadByteBlocked`
module _ {S : Type 0} (next : S → Wait ℕ × S) where
  abbrev pub add_byte : ℕ → Wait (List ℕ) × S → Wait (List ℕ) × S
  add_byte b (done bs, s) = (done (b ∷ bs), s)
  add_byte b (failed, s) = (failed, s)
  add_byte b (blocked, s) = (blocked, s)

  -- a number of bytes, one by one
  unfoldable pub read_bytes : ℕ → S → Wait (List ℕ) × S
  read_bytes zero s = (done [], s)
  read_bytes (suc n) s = elim (next s).0 [
    | done b ↦ add_byte b (read_bytes n (next s).1)
    | failed ↦ (failed, (next s).1)
    | blocked ↦ (blocked, (next s).1)
  ]

  -- 1. the search for the first byte of the marker; out of fuel it is `none`
  unfoldable pub sync : ℕ → S → Option (Wait ℕ) × S
  sync zero s = (none, s)
  sync (suc fuel) s = elim (next s).0 [
    | done b ↦ elim (b == 170) [ true ↦ (some (done b), (next s).1) | false ↦ sync fuel (next s).1 ]
    | failed ↦ (some failed, (next s).1)
    | blocked ↦ (some blocked, (next s).1)
  ]

  module _ (c : Stm32UartTransport) where
    abbrev pub check_crc : List ℕ → List ℕ → Wait (List ℕ) × S → Received × S
    check_crc header payload (blocked, s) = (waiting, s)
    check_crc header payload (failed, s) = (refused, s)
    check_crc header payload (done bs, s) =
        if word_of bs == crc_of_parts header payload
        then (received (header_of header) payload (acks c (header_of header)), s)
        else (refused, s)

    abbrev pub with_payload : List ℕ → Wait (List ℕ) × S → Received × S
    with_payload header (blocked, s) = (waiting, s)
    with_payload header (failed, s) = (refused, s)
    with_payload header (done payload, s) = check_crc header payload (read_bytes 2 s)

    abbrev pub with_header : Wait (List ℕ) × S → Received × S
    with_header (blocked, s) = (waiting, s)
    with_header (failed, s) = (refused, s)
    with_header (done bs, s) =
        let h = header_of (170 ∷ bs) in
        if not (h.marker == marker) || ltb buffer_size h.length
        then (refused, s)
        else with_payload (170 ∷ bs) (read_bytes h.length s)

    abbrev pub synced : Option (Wait ℕ) × S → Received × S
    synced (none, s) = (running, s)
    synced (some blocked, s) = (waiting, s)
    synced (some failed, s) = (refused, s)
    synced (some (done b), s) = with_header (read_bytes 7 s)

    unfoldable pub receive : ℕ → S → Received × S
    unfolding read_bytes sync
    receive fuel s = if c.is_receiver then synced (sync fuel s) else (refused, s)
