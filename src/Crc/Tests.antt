-- ===== src/Crc/Tests.antt =====
-- Tests of DelegateMQ/extras/util/crc16.h.
use async_duck_db.Common.{◌≡◌, refl, Bool, true, List, [], ◌∷◌, replicate}
use async_duck_db.Crc.{bits, crc16_table, crc16_loop, table_entry}
use async_duck_db.Crc.Equivalence.{crc16_table-crc16_loop}

-- the digits from 1 to 9 in ASCII
abbrev digits : List (List Bool)
digits =
    bits 8 49
    ∷ bits 8 50
    ∷ bits 8 51
    ∷ bits 8 52
    ∷ bits 8 53
    ∷ bits 8 54
    ∷ bits 8 55
    ∷ bits 8 56
    ∷ bits 8 57
    ∷ []

-- the published checksum of CRC-16 with this polynomial and start
check_value : crc16_table digits (replicate 16 true) ≡ bits 16 10673
unfolding crc16_table table_entry
check_value = refl

crc16_table-crc16_loop_example :
    crc16_table (bits 8 49 ∷ []) (replicate 16 true)
    ≡ crc16_loop (bits 8 49 ∷ []) (replicate 16 true)
crc16_table-crc16_loop_example =
    crc16_table-crc16_loop (bits 8 49 ∷ []) (replicate 16 true) (refl, tt) refl
