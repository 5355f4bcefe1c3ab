-- ===== src/Crc.antt =====
-- DelegateMQ/extras/util/crc16.h: the checksum by table, which is built, and by loop. An `unsigned
-- short` is the list of its 16 bits and an `unsigned char` of its 8, the most significant first.
pub mod Bits
pub mod Entries
pub mod Equivalence
mod Tests
use async_duck_db.Common.{
  ℕ, zero, suc, ◌+◌, ◌*◌, ◌/◌, ◌%◌, ◌^◌, Bool, true, false, List, [], ◌∷◌, ◌++◌, Option, none, some,
  ◌==◌, if◌then◌else◌, replicate,
}

abbrev pub xor : Bool → Bool → Bool
xor false b = b
xor true true = false
xor true false = true

abbrev pub xor_bits : List Bool → List Bool → List Bool
xor_bits [] ys = []
xor_bits (x ∷ xs) [] = []
xor_bits (x ∷ xs) (y ∷ ys) = xor x y ∷ xor_bits xs ys

-- `x << 1`, without the bit that falls out
abbrev pub shift : List Bool → List Bool
shift [] = []
shift (x ∷ xs) = xs ++ (false ∷ [])

abbrev pub shifts : ℕ → List Bool → List Bool
shifts zero xs = xs
shifts (suc n) xs = shifts n (shift xs)

-- the bit that `& 0x8000` tests
abbrev pub top : List Bool → Bool
top [] = false
top (x ∷ xs) = x

abbrev pub high_byte : ℕ → List Bool → List Bool
high_byte zero xs = []
high_byte (suc n) [] = []
high_byte (suc n) (x ∷ xs) = x ∷ high_byte n xs

-- the `n` low bits of a number
abbrev pub bits : ℕ → ℕ → List Bool
bits zero k = []
bits (suc n) k = (((k / 2 ^ n) % 2) == 1) ∷ bits n k

abbrev pub number_of : ℕ → List Bool → ℕ
number_of acc [] = acc
number_of acc (b ∷ bs) = number_of (2 * acc + (if b then 1 else 0)) bs

-- `POLY`, 0x1021
abbrev pub poly : List Bool
poly = bits 16 4129

abbrev pub zero_byte : List Bool
zero_byte = replicate 8 false

-- `crc16` by the loop: one turn of the inner loop, and all eight
abbrev pub loop_turn : List Bool → List Bool → List Bool
loop_turn data_ crc = if xor (top data_) (top crc) then xor_bits (shift crc) poly else shift crc

abbrev pub loop_turns : ℕ → List Bool → List Bool → List Bool
loop_turns zero data_ crc = crc
loop_turns (suc n) data_ crc = loop_turns n (shift data_) (loop_turn data_ crc)

unfoldable pub crc16_loop : List (List Bool) → List Bool → List Bool
crc16_loop [] crc = crc
crc16_loop (byte ∷ msg) crc = crc16_loop msg (loop_turns 8 (byte ++ zero_byte) crc)

unfoldable pub crcccitt_table : List ℕ
crcccitt_table =
    0 ∷ 4129 ∷ 8258 ∷ 12387 ∷ 16516 ∷ 20645 ∷ 24774 ∷ 28903 ∷ 33032 ∷ 37161 ∷ 41290 ∷ 45419 ∷ 49548
    ∷ 53677 ∷ 57806 ∷ 61935 ∷ 4657 ∷ 528 ∷ 12915 ∷ 8786 ∷ 21173 ∷ 17044 ∷ 29431 ∷ 25302 ∷ 37689
    ∷ 33560 ∷ 45947 ∷ 41818 ∷ 54205 ∷ 50076 ∷ 62463 ∷ 58334 ∷ 9314 ∷ 13379 ∷ 1056 ∷ 5121 ∷ 25830
    ∷ 29895 ∷ 17572 ∷ 21637 ∷ 42346 ∷ 46411 ∷ 34088 ∷ 38153 ∷ 58862 ∷ 62927 ∷ 50604 ∷ 54669 ∷ 13907
    ∷ 9842 ∷ 5649 ∷ 1584 ∷ 30423 ∷ 26358 ∷ 22165 ∷ 18100 ∷ 46939 ∷ 42874 ∷ 38681 ∷ 34616 ∷ 63455
    ∷ 59390 ∷ 55197 ∷ 51132 ∷ 18628 ∷ 22757 ∷ 26758 ∷ 30887 ∷ 2112 ∷ 6241 ∷ 10242 ∷ 14371 ∷ 51660
    ∷ 55789 ∷ 59790 ∷ 63919 ∷ 35144 ∷ 39273 ∷ 43274 ∷ 47403 ∷ 23285 ∷ 19156 ∷ 31415 ∷ 27286 ∷ 6769
    ∷ 2640 ∷ 14899 ∷ 10770 ∷ 56317 ∷ 52188 ∷ 64447 ∷ 60318 ∷ 39801 ∷ 35672 ∷ 47931 ∷ 43802 ∷ 27814
    ∷ 31879 ∷ 19684 ∷ 23749 ∷ 11298 ∷ 15363 ∷ 3168 ∷ 7233 ∷ 60846 ∷ 64911 ∷ 52716 ∷ 56781 ∷ 44330
    ∷ 48395 ∷ 36200 ∷ 40265 ∷ 32407 ∷ 28342 ∷ 24277 ∷ 20212 ∷ 15891 ∷ 11826 ∷ 7761 ∷ 3696 ∷ 65439
    ∷ 61374 ∷ 57309 ∷ 53244 ∷ 48923 ∷ 44858 ∷ 40793 ∷ 36728 ∷ 37256 ∷ 33193 ∷ 45514 ∷ 41451 ∷ 53516
    ∷ 49453 ∷ 61774 ∷ 57711 ∷ 4224 ∷ 161 ∷ 12482 ∷ 8419 ∷ 20484 ∷ 16421 ∷ 28742 ∷ 24679 ∷ 33721
    ∷ 37784 ∷ 41979 ∷ 46042 ∷ 49981 ∷ 54044 ∷ 58239 ∷ 62302 ∷ 689 ∷ 4752 ∷ 8947 ∷ 13010 ∷ 16949
    ∷ 21012 ∷ 25207 ∷ 29270 ∷ 46570 ∷ 42443 ∷ 38312 ∷ 34185 ∷ 62830 ∷ 58703 ∷ 54572 ∷ 50445 ∷ 13538
    ∷ 9411 ∷ 5280 ∷ 1153 ∷ 29798 ∷ 25671 ∷ 21540 ∷ 17413 ∷ 42971 ∷ 47098 ∷ 34713 ∷ 38840 ∷ 59231
    ∷ 63358 ∷ 50973 ∷ 55100 ∷ 9939 ∷ 14066 ∷ 1681 ∷ 5808 ∷ 26199 ∷ 30326 ∷ 17941 ∷ 22068 ∷ 55628
    ∷ 51565 ∷ 63758 ∷ 59695 ∷ 39368 ∷ 35305 ∷ 47498 ∷ 43435 ∷ 22596 ∷ 18533 ∷ 30726 ∷ 26663 ∷ 6336
    ∷ 2273 ∷ 14466 ∷ 10403 ∷ 52093 ∷ 56156 ∷ 60223 ∷ 64286 ∷ 35833 ∷ 39896 ∷ 43963 ∷ 48026 ∷ 19061
    ∷ 23124 ∷ 27191 ∷ 31254 ∷ 2801 ∷ 6864 ∷ 10931 ∷ 14994 ∷ 64814 ∷ 60687 ∷ 56684 ∷ 52557 ∷ 48554
    ∷ 44427 ∷ 40424 ∷ 36297 ∷ 31782 ∷ 27655 ∷ 23652 ∷ 19525 ∷ 15522 ∷ 11395 ∷ 7392 ∷ 3265 ∷ 61215
    ∷ 65342 ∷ 53085 ∷ 57212 ∷ 44955 ∷ 49082 ∷ 36825 ∷ 40952 ∷ 28183 ∷ 32310 ∷ 20053 ∷ 24180 ∷ 11923
    ∷ 16050 ∷ 3793 ∷ 7920 ∷ []

abbrev pub entry_at : List ℕ → ℕ → ℕ
entry_at [] i = 0
entry_at (x ∷ xs) zero = x
entry_at (x ∷ xs) (suc i) = entry_at xs i

unfoldable pub table_entry : List Bool → List Bool
unfolding crcccitt_table
table_entry byte = bits 16 (entry_at crcccitt_table (number_of 0 byte))

-- `crc16` by the table
unfoldable pub crc16_table : List (List Bool) → List Bool → List Bool
crc16_table [] crc = crc
crc16_table (byte ∷ msg) crc =
    crc16_table msg (xor_bits (shifts 8 crc) (table_entry (xor_bits (high_byte 8 crc) byte)))
