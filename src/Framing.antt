-- ===== src/Framing.antt =====
-- DelegateMQ/port/transport/DmqHeader.h, and what the serial and the UART transport make of a message:
-- a header of eight bytes, the payload and a checksum. A `uint16_t` and a byte are numbers. The host is
-- little-endian.
pub mod Port
pub mod Ring
pub mod Serial
pub mod Uart
pub mod Words
mod Tests
use async_duck_db.Common.{
  ℕ, ◌+◌, ◌*◌, ◌/◌, ◌%◌, Bool, true, List, [], ◌∷◌, ◌++◌, map, replicate, length, is_empty,
  if◌then◌else◌,
}
use async_duck_db.Crc.{bits, number_of, crc16_table}

abbrev pub marker : ℕ
marker = 43605

abbrev pub header_size : ℕ
header_size = 8

abbrev pub ack_remote_id : ℕ
ack_remote_id = 0

pub record DmqHeader : Type 0 where
  pub marker : ℕ
  pub id : ℕ
  pub seq_num : ℕ
  pub length : ℕ

abbrev pub new_header : ℕ → ℕ → DmqHeader
new_header id seq_num = record { marker = marker; id = id; seq_num = seq_num; length = 0 }

-- `SetLength`, with the cast to `uint16_t`
abbrev pub set_length : ℕ → DmqHeader → DmqHeader
set_length n h = record h { length = n % 65536 }

-- `(v << 8) | (v >> 8)` of a `uint16_t`
abbrev pub swap16 : ℕ → ℕ
swap16 v = (v % 256) * 256 + v / 256

-- the bytes of a `uint16_t` in memory, and back
abbrev pub word_bytes : ℕ → List ℕ
word_bytes v = v % 256 ∷ v / 256 ∷ []

abbrev pub word_at : ℕ → ℕ → ℕ
word_at low high = low + high * 256

abbrev pub word_of : List ℕ → ℕ
word_of [] = 0
word_of (low ∷ []) = word_at low 0
word_of (low ∷ high ∷ bs) = word_at low high

-- the header, big-endian
unfoldable pub header_bytes : DmqHeader → List ℕ
header_bytes h =
    word_bytes (swap16 h.marker)
    ++ (word_bytes (swap16 h.id) ++ (word_bytes (swap16 h.seq_num) ++ word_bytes (swap16 h.length)))

abbrev pub take_word : List ℕ → List ℕ
take_word [] = []
take_word (a ∷ []) = []
take_word (a ∷ b ∷ bs) = bs

unfoldable pub header_of : List ℕ → DmqHeader
header_of bs = record {
  marker = swap16 (word_of bs);
  id = swap16 (word_of (take_word bs));
  seq_num = swap16 (word_of (take_word (take_word bs)));
  length = swap16 (word_of (take_word (take_word (take_word bs))));
}

-- `Crc16CalcBlock` on bytes
abbrev pub crc_block : List ℕ → List Bool → List Bool
crc_block bs crc = crc16_table (map (bits 8) bs) crc

-- 0xFFFF
abbrev pub crc_start : List Bool
crc_start = replicate 16 true

-- the checksum of one block, and of the header and then the payload, if there is one
unfoldable pub crc_of : List ℕ → ℕ
crc_of bs = number_of 0 (crc_block bs crc_start)

unfoldable pub crc_of_parts : List ℕ → List ℕ → ℕ
crc_of_parts header payload =
    let crc = crc_block header crc_start in
    number_of 0 (if is_empty payload then crc else crc_block payload crc)
