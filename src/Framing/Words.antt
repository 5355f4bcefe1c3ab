-- ===== src/Framing/Words.antt =====
-- The header of DelegateMQ/port/transport/DmqHeader.h as bytes, and the checksum of a message.
use async_duck_db.Common.{
  ℕ, ◌/◌, ◌%◌, ◌<◌, ◌≡◌, refl, ap, Bool, List, [], ◌∷◌, ◌++◌, length, arith, All, append-nil,
}
use async_duck_db.Crc.{crc16_table, number_of}
use async_duck_db.Framing.{
  DmqHeader, swap16, word_bytes, word_at, word_of, header_bytes, header_of, crc_block, crc_of,
  crc_of_parts, crc_start,
}

abbrev pub IsByte : ℕ → Type 0
IsByte b = b < 256

-- The fields are numbers of the type `uint16_t`.
abbrev pub IsHeader : DmqHeader → Type 0
IsHeader h = (h.marker < 65536) × (h.id < 65536) × (h.seq_num < 65536) × (h.length < 65536)

swap16-swap16 : (v : ℕ) → v < 65536 → swap16 (word_of (word_bytes (swap16 v))) ≡ v
swap16-swap16 v h = omega arith

swap16_bytes :
    (a b : ℕ)
    → a < 256
    → b < 256
    → (swap16 (swap16 (word_at a b)) % 256 ≡ a) × (swap16 (swap16 (word_at a b)) / 256 ≡ b)
swap16_bytes a b ha hb = (omega arith, omega arith)

pub word_bytes-word_of :
    (bs : List ℕ) → length bs ≡ 2 → All IsByte bs → word_bytes (word_of bs) ≡ bs
word_bytes-word_of [] l p = absurd (omega arith)
word_bytes-word_of (a ∷ []) l p = absurd (omega arith)
word_bytes-word_of (a ∷ b ∷ []) l (pa, (pb, u)) =
    let low : word_at a b % 256 ≡ a = omega arith in
    let high : word_at a b / 256 ≡ b = omega arith in cc (low, high)
word_bytes-word_of (a ∷ b ∷ c ∷ bs) l p = absurd (omega arith)

pub header_of-header_bytes : (h : DmqHeader) → IsHeader h → header_of (header_bytes h) ≡ h
unfolding header_of header_bytes
header_of-header_bytes h (m, i, n, l) = cc (
  swap16-swap16 h.marker m,
  swap16-swap16 h.id i,
  swap16-swap16 h.seq_num n,
  swap16-swap16 h.length l,
)

pub header_bytes-header_of :
    (a b c d e f g h : ℕ)
    → All IsByte (a ∷ b ∷ c ∷ d ∷ e ∷ f ∷ g ∷ h ∷ [])
    → let bs = a ∷ b ∷ c ∷ d ∷ e ∷ f ∷ g ∷ h ∷ [] in header_bytes (header_of bs) ≡ bs
unfolding header_of header_bytes
header_bytes-header_of a b c d e f g h (pa, (pb, (pc, (pd, (pe, (pf, (pg, (ph, u)))))))) =
    let (x0, x1) = swap16_bytes a b pa pb in
    let (x2, x3) = swap16_bytes c d pc pd in
    let (x4, x5) = swap16_bytes e f pe pf in
    let (x6, x7) = swap16_bytes g h pg ph in cc (x0, x1, x2, x3, x4, x5, x6, x7)

crc_block-append :
    (xs ys : List ℕ) (crc : List Bool) → crc_block (xs ++ ys) crc ≡ crc_block ys (crc_block xs crc)
unfolding crc16_table
crc_block-append [] ys crc = refl
crc_block-append (x ∷ xs) ys crc = crc_block-append xs ys _

-- The checksum in two steps is that of the whole.
pub crc_of-append :
    (header payload : List ℕ) → crc_of (header ++ payload) ≡ crc_of_parts header payload
unfolding crc_of crc_of_parts
crc_of-append header [] = ap crc_of (append-nil header)
crc_of-append header (b ∷ bs) = ap (number_of 0) (crc_block-append header (b ∷ bs) crc_start)
