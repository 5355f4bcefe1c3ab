-- ===== src/Crc/Bits.antt =====
-- Lists of bits, as DelegateMQ/extras/util/crc16.h uses them.
use async_duck_db.Common.{
  ℕ, zero, suc, ◌≡◌, refl, sym, ap, Bool, true, false, ◌&&◌, List, [], ◌∷◌, ◌++◌, arith, length,
  length-append, replicate,
}
use async_duck_db.Crc.{xor, xor_bits, shift, top}

pub xor_comm : (a b : Bool) → xor a b ≡ xor b a
xor_comm true true = refl
xor_comm true false = refl
xor_comm false true = refl
xor_comm false false = refl

xor_assoc : (a b c : Bool) → xor (xor a b) c ≡ xor a (xor b c)
xor_assoc true true true = refl
xor_assoc true true false = refl
xor_assoc true false true = refl
xor_assoc true false false = refl
xor_assoc false b c = refl

pub xor_bits_comm : (xs ys : List Bool) → xor_bits xs ys ≡ xor_bits ys xs
xor_bits_comm [] [] = refl
xor_bits_comm [] (y ∷ ys) = refl
xor_bits_comm (x ∷ xs) [] = refl
xor_bits_comm (x ∷ xs) (y ∷ ys) = cc (xor_comm x y, xor_bits_comm xs ys)

pub xor_bits_assoc :
    (xs ys zs : List Bool) → xor_bits (xor_bits xs ys) zs ≡ xor_bits xs (xor_bits ys zs)
xor_bits_assoc [] ys zs = refl
xor_bits_assoc (x ∷ xs) [] zs = refl
xor_bits_assoc (x ∷ xs) (y ∷ ys) [] = refl
xor_bits_assoc (x ∷ xs) (y ∷ ys) (z ∷ zs) = cc (xor_assoc x y z, xor_bits_assoc xs ys zs)

pub length-xor_bits :
    (xs ys : List Bool) → length xs ≡ length ys → length (xor_bits xs ys) ≡ length xs
length-xor_bits [] ys h = refl
length-xor_bits (x ∷ xs) [] h = absurd (omega arith)
length-xor_bits (x ∷ xs) (y ∷ ys) h = ap suc (length-xor_bits xs ys (omega arith))

xor_bits-append :
    (xs ys : List Bool) (a b : Bool)
    → length xs ≡ length ys
    → xor_bits (xs ++ (a ∷ [])) (ys ++ (b ∷ [])) ≡ xor_bits xs ys ++ (xor a b ∷ [])
xor_bits-append [] [] a b h = refl
xor_bits-append [] (y ∷ ys) a b h = absurd (omega arith)
xor_bits-append (x ∷ xs) [] a b h = absurd (omega arith)
xor_bits-append (x ∷ xs) (y ∷ ys) a b h =
    ap (λ t. xor x y ∷ t) (xor_bits-append xs ys a b (omega arith))

pub shift-xor_bits :
    (xs ys : List Bool)
    → length xs ≡ length ys
    → shift (xor_bits xs ys) ≡ xor_bits (shift xs) (shift ys)
shift-xor_bits [] ys h = refl
shift-xor_bits (x ∷ xs) [] h = absurd (omega arith)
shift-xor_bits (x ∷ xs) (y ∷ ys) h = sym (xor_bits-append xs ys false false (omega arith))

pub top-xor_bits :
    (xs ys : List Bool) → length xs ≡ length ys → top (xor_bits xs ys) ≡ xor (top xs) (top ys)
top-xor_bits [] [] h = refl
top-xor_bits [] (y ∷ ys) h = absurd (omega arith)
top-xor_bits (x ∷ xs) [] h = absurd (omega arith)
top-xor_bits (x ∷ xs) (y ∷ ys) h = refl

pub length-shift : (xs : List Bool) → length (shift xs) ≡ length xs
length-shift [] = refl
length-shift (x ∷ xs) = omega (arith, length-append xs (false ∷ []))

pub xor_bits-zero : (xs : List Bool) (n : ℕ) → length xs ≡ n → xor_bits xs (replicate n false) ≡ xs
xor_bits-zero [] n h = refl
xor_bits-zero (x ∷ xs) zero h = absurd (omega arith)
xor_bits-zero (true ∷ xs) (suc n) h = ap (λ t. true ∷ t) (xor_bits-zero xs n (omega arith))
xor_bits-zero (false ∷ xs) (suc n) h = ap (λ t. false ∷ t) (xor_bits-zero xs n (omega arith))

-- Tests of all lists of a length, and of equality.
abbrev pub all_bits : ℕ → (List Bool → Bool) → Bool
all_bits zero p = p []
all_bits (suc n) p = all_bits n (λ bs. p (true ∷ bs)) && all_bits n (λ bs. p (false ∷ bs))

abbrev pub same_bit : Bool → Bool → Bool
same_bit true b = b
same_bit false true = false
same_bit false false = true

abbrev pub same_bits : List Bool → List Bool → Bool
same_bits [] [] = true
same_bits [] (y ∷ ys) = false
same_bits (x ∷ xs) [] = false
same_bits (x ∷ xs) (y ∷ ys) = same_bit x y && same_bits xs ys

pub all_bits_lem :
    (n : ℕ) (p : List Bool → Bool) (bs : List Bool)
    → all_bits n p ≡ true
    → length bs ≡ n
    → p bs ≡ true
all_bits_lem zero p [] h l = h
all_bits_lem zero p (b ∷ bs) h l = absurd (omega arith)
all_bits_lem (suc n) p [] h l = absurd (omega arith)
all_bits_lem (suc n) p (true ∷ bs) h l =
    all_bits_lem n (λ cs. p (true ∷ cs)) bs (ground (arith, h)) (omega arith)
all_bits_lem (suc n) p (false ∷ bs) h l =
    all_bits_lem n (λ cs. p (false ∷ cs)) bs (ground (arith, h)) (omega arith)

pub same_bits_lem : (xs ys : List Bool) → same_bits xs ys ≡ true → xs ≡ ys
same_bits_lem [] [] h = refl
same_bits_lem [] (y ∷ ys) h = cc h
same_bits_lem (x ∷ xs) [] h = cc h
same_bits_lem (true ∷ xs) (true ∷ ys) h = ap (λ t. true ∷ t) (same_bits_lem xs ys h)
same_bits_lem (true ∷ xs) (false ∷ ys) h = cc h
same_bits_lem (false ∷ xs) (true ∷ ys) h = cc h
same_bits_lem (false ∷ xs) (false ∷ ys) h = ap (λ t. false ∷ t) (same_bits_lem xs ys h)
