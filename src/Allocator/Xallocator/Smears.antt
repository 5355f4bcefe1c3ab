-- ===== src/Allocator/Xallocator/Smears.antt =====
-- The loop of `nexthigher` in DelegateMQ/extras/allocator/xallocator.cpp on bits.
use async_duck_db.Common.{
  ℕ, zero, suc, ◌+◌, ◌-◌, ◌≤◌, ◌<◌, ◌≡◌, refl, ◌∙◌, ap, Bool, true, false, ◌||◌, List, [], ◌∷◌,
  ◌++◌, ltb, length, take, replicate, arith, length-append, Bool-cases, inl, inr, ◌⊎◌, ltb→lt,
  if◌then◌else◌,
}
use async_duck_db.Allocator.Xallocator.{or_bits, shift_right, smears}

-- the bit at a place, `false` beyond the end
abbrev pub bit : List Bool → ℕ → Bool
bit [] p = false
bit (x ∷ xs) zero = x
bit (x ∷ xs) (suc p) = bit xs p

bit-or_bits :
    (xs ys : List Bool) (p : ℕ)
    → length ys ≡ length xs
    → bit (or_bits xs ys) p ≡ bit xs p || bit ys p
bit-or_bits [] [] p l = refl
bit-or_bits [] (y ∷ ys) p l = absurd (omega arith)
bit-or_bits (x ∷ xs) [] p l = absurd (omega arith)
bit-or_bits (x ∷ xs) (y ∷ ys) zero l = refl
bit-or_bits (x ∷ xs) (y ∷ ys) (suc p) l = bit-or_bits xs ys p (omega arith)

length-or_bits : (xs ys : List Bool) → length (or_bits xs ys) ≡ length xs
length-or_bits [] ys = refl
length-or_bits (x ∷ xs) [] = refl
length-or_bits (x ∷ xs) (y ∷ ys) = ap suc (length-or_bits xs ys)

length-take : (n : ℕ) (xs : List Bool) → n ≤ length xs → length (take n xs) ≡ n
length-take zero xs l = refl
length-take (suc n) [] l = absurd (omega arith)
length-take (suc n) (x ∷ xs) l = ap suc (length-take n xs (omega arith))

bit-take : (n : ℕ) (xs : List Bool) (p : ℕ) → p < n → bit (take n xs) p ≡ bit xs p
bit-take zero xs p l = absurd (omega arith)
bit-take (suc n) [] p l = refl
bit-take (suc n) (x ∷ xs) zero l = refl
bit-take (suc n) (x ∷ xs) (suc p) l = bit-take n xs p (omega arith)

bit-shifted :
    (i : ℕ) (xs : List Bool) (p : ℕ)
    → bit (replicate i false ++ xs) p ≡ (if ltb p i then false else bit xs (p - i))
bit-shifted zero xs p = ground arith
bit-shifted (suc i) xs zero = ground arith
bit-shifted (suc i) xs (suc p) = ground (arith, bit-shifted i xs p)

length-shift_right : (i : ℕ) (xs : List Bool) → length (shift_right i xs) ≡ length xs
length-shift_right i xs =
    length-take (length xs) (replicate i false ++ xs)
      (omega (arith, length-append (replicate i false) xs))

-- The bits before `z` are clear and `t` bits from there are set, as far as they go.
pub record IsSmeared (z t : ℕ) (xs : List Bool) : Type 0 where
  pub clear : (p : ℕ) → p < z → bit xs p ≡ false
  pub full : (p : ℕ) → z ≤ p → p < z + t → p < length xs → bit xs p ≡ true

-- a bit after a turn, below the length
bit-turn :
    (t : ℕ) (xs : List Bool) (p : ℕ)
    → p < length xs
    → bit (or_bits xs (shift_right t xs)) p
      ≡ bit xs p || (if ltb p t then false else bit xs (p - t))
bit-turn t xs p l =
    bit-or_bits xs (shift_right t xs) p (length-shift_right t xs)
    ∙ ap (λ b. bit xs p || b)
        (bit-take (length xs) (replicate t false ++ xs) p l ∙ bit-shifted t xs p)

or_bits-IsSmeared :
    (z t : ℕ) (xs : List Bool)
    → z ≤ length xs
    → IsSmeared z t xs
    → IsSmeared z (t + t) (or_bits xs (shift_right t xs))
or_bits-IsSmeared z t xs lz w = record {
  clear = λ p h.
      ground (arith, bit-turn t xs p (omega arith), w.clear p h, w.clear (p - t) (omega arith));
  full = λ p a b l.
      let l' : p < length xs = omega (arith, length-or_bits xs (shift_right t xs)) in
      let e = bit-turn t xs p l' in
      elim (Bool-cases (ltb p (z + t))) [
        | inl y ↦ ground (arith, e, w.full p a (ltb→lt p (z + t) y) l')
        | inr n ↦
            let far : z + t ≤ p = ground arith in
            ground (arith, e, far, w.full (p - t) (omega arith) (omega arith) (omega arith))
      ];
}

abbrev pub doubled : ℕ → ℕ → ℕ
doubled zero i = i
doubled (suc n) i = doubled n (i + i)

pub smears-IsSmeared :
    (n i z : ℕ) (xs : List Bool)
    → z ≤ length xs
    → IsSmeared z i xs
    → IsSmeared z (doubled n i) (smears n i xs) × (length (smears n i xs) ≡ length xs)
unfolding smears
smears-IsSmeared zero i z xs l w = (w, refl)
smears-IsSmeared (suc n) i z xs l w =
    let ys = or_bits xs (shift_right i xs) in
    let ly = length-or_bits xs (shift_right i xs) in
    let (v, e) = smears-IsSmeared n (i + i) z ys (omega arith) (or_bits-IsSmeared z i xs l w) in
    (v, e ∙ ly)

cons_clear :
    (xs : List Bool) (z : ℕ)
    → ((p : ℕ) → p < z → bit xs p ≡ false)
    → (p : ℕ) → p < suc z
    → bit (false ∷ xs) p ≡ false
cons_clear xs z c zero h = refl
cons_clear xs z c (suc p) h = c p (omega arith)

-- the place of the first bit that is set
pub first_set :
    (xs : List Bool)
    → (z : ℕ) × ((p : ℕ) → p < z → bit xs p ≡ false)
      × ((z ≡ length xs) ⊎ ((bit xs z ≡ true) × (z < length xs)))
first_set [] = (0, λ p h. refl, inl refl)
first_set (true ∷ xs) = (0, λ p h. absurd (omega arith), inr (refl, omega arith))
first_set (false ∷ xs) =
    let (z, c, e) = first_set xs in (suc z, cons_clear xs z c, ground (arith, e))
