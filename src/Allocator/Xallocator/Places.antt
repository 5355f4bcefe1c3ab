-- ===== src/Allocator/Xallocator/Places.antt =====
-- The search in the array of allocators of DelegateMQ/extras/allocator/xallocator.cpp.
use async_duck_db.Common.{
  ℕ, zero, suc, ◌+◌, ◌≡◌, ◌≢◌, refl, ap, List, [], ◌∷◌, ◌++◌, none, some, ◌==◌, length, get_elem?,
  arith, Bool-cases, inl, inr, subst, ◌⊎◌,
}
use async_duck_db.Allocator.{Allocator}
use async_duck_db.Allocator.Xallocator.{block_size, find_from, find_allocator}

-- An allocator stands at a place and makes blocks of a size.
pub record IsAt (i size : ℕ) (table : List Allocator) : Type 0 where
  pub allocator : Allocator
  pub here : get_elem? table i ≡ some allocator
  pub sized : block_size allocator ≡ size

find_from-IsAt :
    (i size j : ℕ) (table : List Allocator)
    → find_from i size table ≡ some j
    → (k : ℕ) × (j ≡ i + k) × IsAt k size table
find_from-IsAt i size j [] h = absurd (cc h)
find_from-IsAt i size j (a ∷ table) h = elim (Bool-cases (block_size a == size)) [
  | inl y ↦ (0, ground arith, record { allocator = a; here = refl; sized = ground arith })
  | inr n ↦
      let (k, e, w) = find_from-IsAt (suc i) size j table (ground arith) in
      (suc k, omega arith, record { allocator = w.allocator; here = w.here; sized = w.sized })
]

pub get_elem?-end :
    (table : List Allocator) (a : Allocator) → get_elem? (table ++ (a ∷ [])) (length table) ≡ some a
get_elem?-end [] a = refl
get_elem?-end (x ∷ table) a = get_elem?-end table a

pub find_allocator-IsAt :
    (size j : ℕ) (table : List Allocator) → find_allocator size table ≡ some j → IsAt j size table
find_allocator-IsAt size j table h =
    let (k, e, w) = find_from-IsAt 0 size j table h in
    subst (λ n. IsAt n size table) (omega (arith, e)) w

pub find_from-none :
    (i k size : ℕ) (table : List Allocator) → IsAt k size table → find_from i size table ≢ none
find_from-none i k size [] w h = cc (w.here)
find_from-none i zero size (a ∷ table) w h = ground (arith, w.here, w.sized)
find_from-none i (suc k) size (a ∷ table) w h =
    find_from-none (suc i) k size table
      (record { allocator = w.allocator; here = w.here; sized = w.sized }) (ground arith)

-- a place of the longer array is one of the shorter, or the last
pub IsAt-cases :
    (i size : ℕ) (table : List Allocator) (a : Allocator)
    → IsAt i size (table ++ (a ∷ []))
    → IsAt i size table ⊎ ((i ≡ length table) × (block_size a ≡ size))
IsAt-cases zero size [] a w = inr (refl, ground (arith, w.here, w.sized))
IsAt-cases (suc i) size [] a w = absurd (cc (w.here))
IsAt-cases zero size (x ∷ table) a w =
    inl (record { allocator = w.allocator; here = w.here; sized = w.sized })
IsAt-cases (suc i) size (x ∷ table) a w =
    elim (IsAt-cases i size table a
      (record { allocator = w.allocator; here = w.here; sized = w.sized })) [
        | inl v ↦ inl (record { allocator = v.allocator; here = v.here; sized = v.sized })
        | inr (e, b) ↦ inr (ap suc e, b)
      ]
