-- ===== src/Framing/Serial.antt =====
-- DelegateMQ/port/transport/serial/SerialTransport.h: how a message goes over a serial port. What the
-- caller's `header` and `is` hold after a failure is outside: the caller does not read them.
pub mod Reading
pub mod Endings
pub mod Packets
pub mod Receipt
pub mod RoundTrip
pub mod Sync
use async_duck_db.Common.{
  ℕ, zero, suc, ◌+◌, ◌-◌, Bool, true, false, List, [], ◌∷◌, ◌++◌, Option, none, some, ◌==◌, ltb,
  if◌then◌else◌, length, not, ◌||◌, ◌&&◌,
}
use async_duck_db.Framing.{
  DmqHeader, marker, new_header, set_length, ack_remote_id, header_bytes, header_of, word_bytes,
  word_of, crc_of, crc_of_parts,
}
use async_duck_db.Framing.Port.{Read}

abbrev pub buffer_size : ℕ
buffer_size = 4096

-- what goes over the port for a message
unfoldable pub packet : DmqHeader → List ℕ → List ℕ
packet header payload =
    let bytes = header_bytes (set_length (length payload) header) ++ payload in
    bytes ++ word_bytes (crc_of bytes)

-- The result of `sp_blocking_write`: the bytes written, `none` for an error.
abbrev pub is_all : Option ℕ → ℕ → Bool
is_all none n = false
is_all (some k) n = k == n

-- `Send`, with its port if it is open: whether it returns 0, and what it writes
unfoldable pub send : Option (List ℕ → Option ℕ) → DmqHeader → List ℕ → Bool × Option (List ℕ)
send none header payload = (false, none)
send (some write) header payload =
    let bytes = packet header payload in
    if ltb 65535 (length payload)
    then (false, none)
    else (is_all (write bytes) (length bytes), some bytes)

-- What `Receive` does for a message: it takes the sequence number off the monitor, or it sends an
-- acknowledgement on the transport for sending.
pub data Effect : Type 0 where
  removed : ℕ → Effect
  acknowledged : DmqHeader → Effect

pub record SerialTransport : Type 0 where
  pub is_open : Bool
  pub is_receiver : Bool
  pub has_monitor : Bool
  pub has_sender : Bool

-- 0 with the header and the payload, or -1. `running` is the search for a packet out of fuel.
pub data Received : Type 0 where
  received : DmqHeader → List ℕ → List Effect → Received
  refused : Received
  running : Received

pub data Search : Type 0 where
  found : Search
  ended : Search
  going : Search

-- 6. the acknowledgement
unfoldable pub acks : SerialTransport → DmqHeader → List Effect
acks c h =
    if h.id == ack_remote_id
    then (if c.has_monitor then removed h.seq_num ∷ [] else [])
    else (if c.has_sender then acknowledged (new_header ack_remote_id h.seq_num) ∷ [] else [])

module _ {S : Type 0} (read : Read S) where
  -- `ReadExact`; the fuel is the number of bytes
  unfoldable pub read_exact : ℕ → ℕ → ℕ → S → Option (List ℕ) × S
  read_exact fuel zero t s = (some [], s)
  read_exact zero (suc n) t s = (none, s)
  read_exact (suc fuel) (suc n) t s = elim (read (suc n) t s).0 [
    | [] ↦ (none, (read (suc n) t s).1)
    | b ∷ bs ↦ elim (read_exact fuel (n - length bs) t (read (suc n) t s).1).0 [
      | none ↦ (none, (read_exact fuel (n - length bs) t (read (suc n) t s).1).1)
      | some cs ↦
          (some (b ∷ (bs ++ cs)), (read_exact fuel (n - length bs) t (read (suc n) t s).1).1)
    ]
  ]

  -- 1. one turn of the search for the marker
  abbrev pub second_byte : List ℕ × S → Search × S
  second_byte ([], s) = (going, s)
  second_byte (b ∷ bs, s) = if b == 85 then (found, s) else (going, s)

  abbrev pub first_byte : List ℕ × S → Search × S
  first_byte ([], s) = (ended, s)
  first_byte (b ∷ bs, s) = if b == 170 then second_byte (read 1 100 s) else (going, s)

  unfoldable pub sync : ℕ → S → Search × S
  sync zero s = (going, s)
  sync (suc fuel) s = elim (first_byte (read 1 10 s)).0 [
    | found ↦ (found, (first_byte (read 1 10 s)).1)
    | ended ↦ (ended, (first_byte (read 1 10 s)).1)
    | going ↦ sync fuel (first_byte (read 1 10 s)).1
  ]

  module _ (c : SerialTransport) where
    -- 5. the checksum
    abbrev pub check_crc : List ℕ → List ℕ → Option (List ℕ) × S → Received × S
    check_crc header payload (none, s) = (refused, s)
    check_crc header payload (some bs, s) =
        if word_of bs == crc_of_parts header payload
        then (received (header_of header) payload (acks c (header_of header)), s)
        else (refused, s)

    abbrev pub with_payload : List ℕ → Option (List ℕ) × S → Received × S
    with_payload header (none, s) = (refused, s)
    with_payload header (some payload, s) = check_crc header payload (read_exact 2 2 500 s)

    -- 3. and 4., with the bytes of the header after the marker
    abbrev pub with_header : Option (List ℕ) × S → Received × S
    with_header (none, s) = (refused, s)
    with_header (some bs, s) =
        let h = header_of (170 ∷ 85 ∷ bs) in
        if not (h.marker == marker) || ltb buffer_size h.length
        then (refused, s)
        else with_payload (170 ∷ 85 ∷ bs) (read_exact h.length h.length 1000 s)

    abbrev pub synced : Search × S → Received × S
    synced (found, s) = with_header (read_exact 6 6 1000 s)
    synced (ended, s) = (refused, s)
    synced (going, s) = (running, s)

    -- `Receive`
    unfoldable pub receive : ℕ → S → Received × S
    unfolding read_exact sync
    receive fuel s = if c.is_open && c.is_receiver then synced (sync fuel s) else (refused, s)
