-- ===== src/Crc/Entries.antt =====
-- The entries of the table of DelegateMQ/extras/util/crc16.h.
use async_duck_db.Common.{ℕ, zero, suc, ◌≡◌, refl, Bool, true, List, ◌++◌, if◌then◌else◌, length}
use async_duck_db.Crc.{xor_bits, shift, top, poly, zero_byte, table_entry}
use async_duck_db.Crc.Bits.{all_bits, all_bits_lem, same_bits, same_bits_lem}

-- a turn of the loop on the checksum with the data added to it
abbrev pub turn : List Bool → List Bool
turn xs = if top xs then xor_bits (shift xs) poly else shift xs

abbrev pub turns : ℕ → List Bool → List Bool
turns zero xs = xs
turns (suc n) xs = turns n (turn xs)

abbrev is_entry : List Bool → Bool
is_entry byte = same_bits (table_entry byte) (turns 8 (byte ++ zero_byte))

entries_checked : all_bits 8 is_entry ≡ true
unfolding table_entry
entries_checked = refl

-- Each entry is eight turns of the loop on its index.
pub table_entry-turns :
    (byte : List Bool) → length byte ≡ 8 → table_entry byte ≡ turns 8 (byte ++ zero_byte)
table_entry-turns byte h = same_bits_lem _ _ (all_bits_lem 8 is_entry byte entries_checked h)
