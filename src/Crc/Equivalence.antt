-- ===== src/Crc/Equivalence.antt =====
-- The two versions of `crc16` in DelegateMQ/extras/util/crc16.h give the same checksum.
use async_duck_db.Common.{
  ℕ, zero, suc, ◌+◌, ◌≤◌, ◌≡◌, refl, sym, ◌∙◌, ap, subst, Bool, true, false, List, [], ◌∷◌, ◌++◌,
  append_assoc, append-nil, arith, length, length-append, length-replicate, replicate, All,
}
use async_duck_db.Crc.{
  xor, xor_bits, shift, shifts, top, high_byte, poly, zero_byte, loop_turn, loop_turns, crc16_loop,
  crc16_table, table_entry,
}
use async_duck_db.Crc.Bits.{
  xor_comm, xor_bits_comm, xor_bits_assoc, length-xor_bits, shift-xor_bits, top-xor_bits,
  length-shift, xor_bits-zero, all_bits, all_bits_lem, same_bits, same_bits_lem,
}
use async_duck_db.Crc.Entries.{turn, turns, table_entry-turns}

length-turn : (xs : List Bool) → length xs ≡ 16 → length (turn xs) ≡ 16
length-turn xs h = ground (arith, length-shift xs, length-xor_bits (shift xs) poly)

length-loop_turn : (d xs : List Bool) → length xs ≡ 16 → length (loop_turn d xs) ≡ 16
length-loop_turn d xs h = ground (arith, length-shift xs, length-xor_bits (shift xs) poly)

length-loop_turns : (n : ℕ) (d xs : List Bool) → length xs ≡ 16 → length (loop_turns n d xs) ≡ 16
length-loop_turns zero d xs h = h
length-loop_turns (suc n) d xs h =
    length-loop_turns n (shift d) (loop_turn d xs) (length-loop_turn d xs h)

-- the polynomial may be added before the data or after it
xor_poly : (xs ds : List Bool) → xor_bits (xor_bits xs poly) ds ≡ xor_bits (xor_bits xs ds) poly
xor_poly xs ds =
    xor_bits_assoc xs poly ds
    ∙ ap (xor_bits xs) (xor_bits_comm poly ds)
    ∙ sym (xor_bits_assoc xs ds poly)

turn-xor_bits :
    (xs ds : List Bool)
    → length xs ≡ length ds
    → xor_bits (loop_turn ds xs) (shift ds) ≡ turn (xor_bits xs ds)
turn-xor_bits xs ds h = ground (
  arith,
  top-xor_bits xs ds h,
  xor_comm (top xs) (top ds),
  shift-xor_bits xs ds h,
  xor_poly (shift xs) (shift ds),
)

-- The loop on data and checksum is the loop on their sum.
turns-xor_bits :
    (n : ℕ) (xs ds : List Bool)
    → length xs ≡ 16
    → length ds ≡ 16
    → xor_bits (loop_turns n ds xs) (shifts n ds) ≡ turns n (xor_bits xs ds)
turns-xor_bits zero xs ds h g = refl
turns-xor_bits (suc n) xs ds h g =
    turns-xor_bits n (loop_turn ds xs) (shift ds) (length-loop_turn ds xs h) (length-shift ds ∙ g)
    ∙ ap (turns n) (turn-xor_bits xs ds (h ∙ sym g))

-- Bits that do not come to the top in a turn may be added after it.
turn-low :
    (xs vs : List Bool)
    → length xs ≡ length vs
    → top vs ≡ false
    → turn (xor_bits xs vs) ≡ xor_bits (turn xs) (shift vs)
turn-low xs vs h t = ground (
  arith,
  top-xor_bits xs vs h,
  xor_comm (top xs) (top vs),
  t,
  shift-xor_bits xs vs h,
  xor_poly (shift xs) (shift vs),
)

turns-low :
    (n : ℕ) (xs lo : List Bool)
    → length xs ≡ 16
    → n + length lo ≡ 16
    → turns n (xor_bits xs (replicate n false ++ lo))
      ≡ xor_bits (turns n xs) (shifts n (replicate n false ++ lo))
turns-low zero xs lo h g = refl
turns-low (suc n) xs lo h g =
    ap (turns n) (
      turn-low xs (replicate (suc n) false ++ lo)
        (omega (arith, length-append (replicate n false) lo, length-replicate n false)) refl
      ∙ ap (xor_bits (turn xs)) (append_assoc (replicate n false) lo (false ∷ [])))
    ∙ turns-low n (turn xs) (lo ++ (false ∷ [])) (length-turn xs h)
        (omega (arith, length-append lo (false ∷ [])))
    ∙ ap (λ ys. xor_bits (turns n (turn xs)) (shifts n ys))
        (sym (append_assoc (replicate n false) lo (false ∷ [])))

shifts-append :
    (hi lo : List Bool) → shifts (length hi) (hi ++ lo) ≡ lo ++ replicate (length hi) false
shifts-append [] lo = sym (append-nil lo)
shifts-append (x ∷ hi) lo =
    ap (shifts (length hi)) (append_assoc hi lo (false ∷ []))
    ∙ shifts-append hi (lo ++ (false ∷ []))
    ∙ append_assoc lo (false ∷ []) (replicate (length hi) false)

xor_bits-append :
    (xs ys as_ bs : List Bool)
    → length xs ≡ length as_
    → xor_bits (xs ++ ys) (as_ ++ bs) ≡ xor_bits xs as_ ++ xor_bits ys bs
xor_bits-append [] ys [] bs h = refl
xor_bits-append [] ys (a ∷ as_) bs h = absurd (omega arith)
xor_bits-append (x ∷ xs) ys [] bs h = absurd (omega arith)
xor_bits-append (x ∷ xs) ys (a ∷ as_) bs h =
    ap (λ t. xor x a ∷ t) (xor_bits-append xs ys as_ bs (omega arith))

-- A list in its first `n` bits and the others.
abbrev Halves : ℕ → List Bool → Type 0
Halves n xs = (lo : List Bool) × (xs ≡ high_byte n xs ++ lo) × (length (high_byte n xs) ≡ n)

halves : (n : ℕ) (xs : List Bool) → n ≤ length xs → Halves n xs
halves zero xs h = (xs, refl, refl)
halves (suc n) [] h = absurd (omega arith)
halves (suc n) (x ∷ xs) h =
    let s = halves n xs (omega arith) in (s.0, ap (λ t. x ∷ t) s.1, ap suc s.2)

abbrev is_shifted_out : List Bool → Bool
is_shifted_out byte = same_bits (shifts 8 (byte ++ zero_byte)) (replicate 16 false)

shifted_out_checked : all_bits 8 is_shifted_out ≡ true
shifted_out_checked = refl

shifts-data :
    (byte : List Bool) → length byte ≡ 8 → shifts 8 (byte ++ zero_byte) ≡ replicate 16 false
shifts-data byte h = same_bits_lem _ _ (all_bits_lem 8 is_shifted_out byte shifted_out_checked h)

module _ (byte hi lo : List Bool) (b : length byte ≡ 8) (h : length hi ≡ 8)
    (l : length lo ≡ 8) where
  abbrev index : List Bool
  index = xor_bits hi byte

  length-index : length index ≡ 8
  length-index = length-xor_bits hi byte (h ∙ sym b) ∙ h

  with_data : xor_bits (hi ++ lo) (byte ++ zero_byte) ≡ index ++ lo
  with_data =
      xor_bits-append hi lo byte zero_byte (h ∙ sym b) ∙ ap (λ t. index ++ t) (xor_bits-zero lo 8 l)

  apart : xor_bits (index ++ zero_byte) (zero_byte ++ lo) ≡ index ++ lo
  apart =
      xor_bits-append index zero_byte zero_byte lo length-index
      ∙ ap (λ t. t ++ xor_bits zero_byte lo) (xor_bits-zero index 8 length-index)
      ∙ ap (λ t. index ++ t) (xor_bits_comm zero_byte lo ∙ xor_bits-zero lo 8 l)

  low_shifted : shifts 8 (hi ++ lo) ≡ shifts 8 (zero_byte ++ lo)
  low_shifted =
      subst (λ n. shifts n (hi ++ lo) ≡ lo ++ replicate n false) h (shifts-append hi lo)
      ∙ sym (shifts-append zero_byte lo)

  by_table : xor_bits (shifts 8 (hi ++ lo)) (table_entry index) ≡ turns 8 (index ++ lo)
  by_table =
      ap (xor_bits (shifts 8 (hi ++ lo))) (table_entry-turns index length-index)
      ∙ xor_bits_comm (shifts 8 (hi ++ lo)) (turns 8 (index ++ zero_byte))
      ∙ ap (xor_bits (turns 8 (index ++ zero_byte))) low_shifted
      ∙ sym (
          turns-low 8 (index ++ zero_byte) lo
            (omega (arith, length-append index zero_byte, length-index)) (omega (arith, l)))
      ∙ ap (turns 8) apart

  by_loop : loop_turns 8 (byte ++ zero_byte) (hi ++ lo) ≡ turns 8 (index ++ lo)
  by_loop =
      sym (
        xor_bits-zero (loop_turns 8 (byte ++ zero_byte) (hi ++ lo)) 16 (
          length-loop_turns 8 (byte ++ zero_byte) (hi ++ lo)
            (omega (arith, length-append hi lo, h, l))))
      ∙ ap (xor_bits (loop_turns 8 (byte ++ zero_byte) (hi ++ lo))) (sym (shifts-data byte b))
      ∙ turns-xor_bits 8 (hi ++ lo) (byte ++ zero_byte) (omega (arith, length-append hi lo, h, l))
          (omega (arith, length-append byte zero_byte, b))
      ∙ ap (turns 8) with_data

-- one byte by the table and by the loop
step_eq :
    (byte crc : List Bool)
    → length byte ≡ 8
    → length crc ≡ 16
    → xor_bits (shifts 8 crc) (table_entry (xor_bits (high_byte 8 crc) byte))
      ≡ loop_turns 8 (byte ++ zero_byte) crc
step_eq byte crc b c =
    let s = halves 8 crc (omega (arith, c)) in
    let l : length s.0 ≡ 8 =
      omega (arith, ap length s.1, length-append (high_byte 8 crc) s.0, s.2, c) in
    ap (λ x. xor_bits (shifts 8 x) (table_entry (xor_bits (high_byte 8 crc) byte))) s.1
    ∙ by_table byte (high_byte 8 crc) s.0 b s.2 l
    ∙ sym (by_loop byte (high_byte 8 crc) s.0 b s.2 l)
    ∙ ap (loop_turns 8 (byte ++ zero_byte)) (sym s.1)

-- For every message of bytes and every checksum of 16 bits to start from, the version by the table
-- gives the checksum that the version by the loop gives.
pub crc16_table-crc16_loop :
    (msg : List (List Bool)) (crc : List Bool)
    → All (λ byte. length byte ≡ 8) msg
    → length crc ≡ 16
    → crc16_table msg crc ≡ crc16_loop msg crc
unfolding crc16_table crc16_loop
crc16_table-crc16_loop [] crc m c = refl
crc16_table-crc16_loop (byte ∷ msg) crc m c =
    ap (crc16_table msg) (step_eq byte crc m.0 c)
    ∙ crc16_table-crc16_loop msg (loop_turns 8 (byte ++ zero_byte) crc) m.1
        (length-loop_turns 8 (byte ++ zero_byte) crc c)
