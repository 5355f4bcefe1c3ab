-- ===== src/Allocator/Xallocator/Powers.antt =====
-- `nexthigher` of DelegateMQ/extras/allocator/xallocator.cpp.
use native.Mathlib.Nat.{
  pow-succ', mod-eq_of_lt, mul-add-div_right, div-eq_of_lt, add-mul, mul_assoc, mul-add,
}
use async_duck_db.Common.{
  ℕ, zero, suc, ◌+◌, ◌-◌, ◌*◌, ◌/◌, ◌%◌, ◌^◌, ◌≤◌, ◌<◌, ◌≡◌, refl, sym, ◌∙◌, ap, Bool, true, false,
  List, [], ◌∷◌, ◌==◌, ltb, length, arith, Bool-cases, inl, inr, ◌⊎◌, ltb→lt, subst,
}
use async_duck_db.Crc.{bits, number_of}
use async_duck_db.Allocator.Xallocator.Smears.{bit, smears-IsSmeared, first_set}
use async_duck_db.Allocator.Xallocator.{smears, nexthigher, size_sum}

pow : (n : ℕ) → 2 ^ suc n ≡ 2 ^ n + 2 ^ n
pow n = omega (arith, pow-succ' 2 n)

pow-positive : (n : ℕ) → 0 < 2 ^ n
pow-positive zero = omega arith
pow-positive (suc n) = omega (arith, pow n, pow-positive n)

spread : (a b n : ℕ) → (2 * a + b) * 2 ^ n ≡ a * 2 ^ suc n + b * 2 ^ n
spread a b n = omega (
  arith,
  add-mul (2 * a) b (2 ^ n),
  mul_assoc 2 a (2 ^ n),
  mul-add a (2 ^ n) (2 ^ n),
  ap (λ k. a * k) (pow n),
)

number_of-acc : (acc : ℕ) (xs : List Bool) → number_of acc xs ≡ acc * 2 ^ length xs + number_of 0 xs
number_of-acc acc [] = omega arith
number_of-acc acc (true ∷ xs) =
    let up = number_of-acc (2 * acc + 1) xs in
    omega (arith, up, number_of-acc 1 xs, spread acc 1 (length xs))
number_of-acc acc (false ∷ xs) =
    let up = number_of-acc (2 * acc + 0) xs in omega (arith, up, spread acc 0 (length xs))

number_of-lt : (xs : List Bool) → number_of 0 xs < 2 ^ length xs
number_of-lt [] = omega arith
number_of-lt (false ∷ xs) =
    omega (arith, number_of-lt xs, pow (length xs), pow-positive (length xs))
number_of-lt (true ∷ xs) = omega (arith, number_of-lt xs, number_of-acc 1 xs, pow (length xs))

-- all bits from a place on make a power of two, less one
number_of-smeared :
    (xs : List Bool) (z m : ℕ)
    → z + m ≡ length xs
    → ((p : ℕ) → p < z → bit xs p ≡ false)
    → ((p : ℕ) → z ≤ p → p < length xs → bit xs p ≡ true)
    → number_of 0 xs + 1 ≡ 2 ^ m
number_of-smeared [] z m e c f = let n : m ≡ 0 = omega arith in ap (λ k. 2 ^ k) (sym n)
number_of-smeared (x ∷ xs) zero m e c f =
    let n : m ≡ suc (length xs) = omega arith in
    let ih =
      number_of-smeared xs zero (length xs) (omega arith) (λ p h. absurd (omega arith))
        (λ p a b. f (suc p) (omega arith) (omega arith)) in
    rw (f 0 (omega arith) (omega arith))
      (omega (arith, ih, number_of-acc 1 xs, ap (λ k. 2 ^ k) n, pow (length xs)))
number_of-smeared (x ∷ xs) (suc z) m e c f = rw (c 0 (omega arith)) (
    number_of-smeared xs z m (omega arith) (λ p h. c (suc p) (omega arith))
      (λ p a b. f (suc p) (omega arith) (omega arith)))

-- a number lies between the powers that its first bit gives
number_of-between :
    (xs : List Bool) (z m : ℕ)
    → z + m ≡ length xs
    → ((p : ℕ) → p < z → bit xs p ≡ false)
    → bit xs z ≡ true
    → (number_of 0 xs < 2 ^ m) × (2 ^ m ≤ number_of 0 xs + number_of 0 xs)
number_of-between [] z m e c t = absurd (cc t)
number_of-between (x ∷ xs) zero m e c t =
    let n : m ≡ suc (length xs) = omega arith in
    let q = ap (λ k. 2 ^ k) n in
    let low = number_of-lt (x ∷ xs) in
    (omega (arith, q, low), rw (t) (omega (arith, number_of-acc 1 xs, q, pow (length xs))))
number_of-between (x ∷ xs) (suc z) m e c t =
    rw (c 0 (omega arith))
      (number_of-between xs z m (omega arith) (λ p h. c (suc p) (omega arith)) t)

div-step : (q r P : ℕ) → r < P → (q * P + r) / P ≡ q
div-step q r P h =
    mul-add-div_right {m = P} (omega arith) q r ∙ omega (arith, div-eq_of_lt {n = r} {m = P} h)

length-bits : (n k : ℕ) → length (bits n k) ≡ n
length-bits zero k = refl
length-bits (suc n) k = ap suc (length-bits n k)

-- the bits of a number make that number
number_of-bits : (n q r k : ℕ) → k ≡ q * 2 ^ n + r → r < 2 ^ n → number_of 0 (bits n k) ≡ r
number_of-bits zero q r k e h = omega arith
number_of-bits (suc n) q r k e h = elim (Bool-cases (ltb r (2 ^ n))) [
  | inl y ↦
      let l = ltb→lt r (2 ^ n) y in
      let e' : k ≡ (2 * q + 0) * 2 ^ n + r = omega (arith, e, spread q 0 n) in
      let d : k / 2 ^ n ≡ 2 * q + 0 = ap (λ x. x / 2 ^ n) e' ∙ div-step (2 * q + 0) r (2 ^ n) l in
      let t : ((k / 2 ^ n) % 2 == 1) ≡ false = ground (arith, d) in
      rw (t) (number_of-bits n (2 * q + 0) r k e' l)
  | inr x ↦
      let ge : 2 ^ n ≤ r = ground arith in
      let l : r - 2 ^ n < 2 ^ n = omega (arith, pow n, h, ge) in
      let e' : k ≡ (2 * q + 1) * 2 ^ n + (r - 2 ^ n) = omega (arith, e, ge, spread q 1 n) in
      let d : k / 2 ^ n ≡ 2 * q + 1 =
        ap (λ x. x / 2 ^ n) e' ∙ div-step (2 * q + 1) (r - 2 ^ n) (2 ^ n) l in
      let t : ((k / 2 ^ n) % 2 == 1) ≡ true = ground (arith, d) in
      rw (t) (
        omega (
          arith,
          number_of-acc 1 (bits n k),
          number_of-bits n (2 * q + 1) (r - 2 ^ n) k e' l,
          ap (λ m. 2 ^ m) (length-bits n k),
          ge,
        ))
]

number_of-clear :
    (xs : List Bool) → ((p : ℕ) → p < length xs → bit xs p ≡ false) → number_of 0 xs ≡ 0
number_of-clear [] c = refl
number_of-clear (x ∷ xs) c =
    rw (c 0 (omega arith)) (number_of-clear xs (λ p l. c (suc p) (omega arith)))

bounds :
    (xs : List Bool) (z m : ℕ)
    → z + m ≡ length xs
    → ((p : ℕ) → p < z → bit xs p ≡ false)
    → (z ≡ length xs) ⊎ ((bit xs z ≡ true) × (z < length xs))
    → (number_of 0 xs < 2 ^ m) × (2 ^ m ≤ number_of 0 xs + number_of 0 xs + 1)
bounds xs z m e c (inl h) =
    let n : m ≡ 0 = omega arith in
    let q : 2 ^ m ≡ 1 = ap (λ k. 2 ^ k) n in
    let zero_number : number_of 0 xs ≡ 0 = number_of-clear xs (λ p l. c p (omega arith)) in
    (omega arith, omega arith)
bounds xs z m e c (inr (t, h)) =
    let (lo, hi) = number_of-between xs z m e c t in (lo, omega (arith, hi))

one_set :
    (xs : List Bool) (z : ℕ)
    → (z ≡ length xs) ⊎ ((bit xs z ≡ true) × (z < length xs))
    → (p : ℕ) → z ≤ p
    → p < z + 1
    → p < length xs
    → bit xs p ≡ true
one_set xs z (inl e) p a b l = absurd (omega arith)
one_set xs z (inr (t, h)) p a b l = subst (λ q. bit xs q ≡ true) (omega arith) t

-- the result of the loop is a power of two, less one, for a list of 64 bits
smears_power :
    (xs : List Bool)
    → length xs ≡ 64
    → (m : ℕ) × (number_of 0 (smears 6 1 xs) + 1 ≡ 2 ^ m)
      × (number_of 0 xs < 2 ^ m)
      × (2 ^ m ≤ number_of 0 xs + number_of 0 xs + 1)
smears_power xs l =
    let (z, c, cases) = first_set xs in
    let inside : z ≤ length xs = ground (arith, cases) in
    let (w, ly) =
      smears-IsSmeared 6 1 z xs inside (record { clear = c; full = one_set xs z cases }) in
    let ys = smears 6 1 xs in
    let m = 64 - z in
    let e : z + m ≡ length ys = omega arith in
    let full : (p : ℕ) → z ≤ p → p < length ys → bit ys p ≡ true =
      λ p a b. w.full p a (omega arith) b in
    let (lo, hi) = bounds xs z m (omega arith) c cases in
    (m, number_of-smeared ys z m e w.clear full, lo, hi)

-- `nexthigher` gives the least power of two that is not below its argument, if that is at least 1 and at
-- most half of what the type can count.
pub nexthigher_lem :
    (k : ℕ) → 0 < k → k ≤ 2 ^ 63 → (m : ℕ) × (nexthigher k ≡ 2 ^ m) × (k ≤ 2 ^ m) × (2 ^ m < k + k)
unfolding nexthigher smears
nexthigher_lem k p l =
    let j = k - 1 in
    let less : size_sum k 18446744073709551615 ≡ j = omega arith in
    let (m, e, low, high) = smears_power (bits 64 j) (length-bits 64 j) in
    let value = number_of-bits 64 0 j j (omega arith) (omega arith) in
    let same : nexthigher k ≡ size_sum (number_of 0 (smears 6 1 (bits 64 j))) 1 =
      ap (λ i. size_sum (number_of 0 (smears 6 1 (bits 64 i))) 1) less in
    let out = same ∙ ap (λ n. n % 18446744073709551616) e in
    (
      m,
      out ∙ mod-eq_of_lt (omega (arith, high, value)),
      omega (arith, low, value),
      omega (arith, high, value),
    )
