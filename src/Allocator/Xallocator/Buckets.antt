-- ===== src/Allocator/Xallocator/Buckets.antt =====
-- The array of allocators of DelegateMQ/extras/allocator/xallocator.cpp, and blocks that come and go.
use async_duck_db.Common.{
  ℕ, ◌+◌, ◌≤◌, ◌<◌, ◌^◌, ◌≡◌, sym, ◌∙◌, ap, true, false, List, [], ◌∷◌, ◌++◌, none, some, ltb,
  length, get_elem?, arith, length-append, Bool-cases, Option-cases, inl, inr, subst, ltb→lt,
}
use async_duck_db.Allocator.{Allocator, new_allocator}
use async_duck_db.Allocator.Xallocator.{
  nexthigher, max_allocators, block_size, Xallocator, header_size, footer_size, size_class,
  find_allocator, check_and_insert, get_allocator,
}
use async_duck_db.Allocator.Xallocator.Powers.{nexthigher_lem}
use async_duck_db.Allocator.Xallocator.Places.{
  IsAt, get_elem?-end, find_allocator-IsAt, find_from-none, IsAt-cases,
}

-- what the second critical section comes to
inserted :
    (size : ℕ) (s : Xallocator)
    → find_allocator size s.allocators ≡ none
    → ltb (length s.allocators) max_allocators ≡ true
    → check_and_insert size s ≡ (
      some (length s.allocators),
      record s { allocators = s.allocators ++ (new_allocator size 0 ∷ []) },
    )
unfolding check_and_insert
inserted size s e y = ground arith

kept :
    (size j : ℕ) (s : Xallocator)
    → find_allocator size s.allocators ≡ some j
    → check_and_insert size s ≡ (some j, s)
unfolding check_and_insert
kept size j s e = ground arith

full_array :
    (size : ℕ) (s : Xallocator)
    → find_allocator size s.allocators ≡ none
    → ltb (length s.allocators) max_allocators ≡ false
    → check_and_insert size s ≡ (none, s)
unfolding check_and_insert
full_array size s e n = ground arith

check_and_insert-IsAt :
    (size i : ℕ) (s : Xallocator)
    → 8 ≤ size
    → (check_and_insert size s).0 ≡ some i
    → IsAt i size (check_and_insert size s).1.allocators
check_and_insert-IsAt size i s l h = elim (Option-cases (find_allocator size s.allocators)) [
  | inr (j, e) ↦
      let t = kept size j s e in
      let same : find_allocator size s.allocators ≡ some i = e ∙ sym (ap (λ x. x.0) t) ∙ h in
      subst (λ x. IsAt i size x.1.allocators) (sym t) (find_allocator-IsAt size i s.allocators same)
  | inl e ↦ elim (Bool-cases (ltb (length s.allocators) max_allocators)) [
    | inl y ↦
        let t = inserted size s e y in
        let at : some (length s.allocators) ≡ some i = sym (ap (λ x. x.0) t) ∙ h in
        let i' : length s.allocators ≡ i = cc at in
        subst (λ x. IsAt i size x.1.allocators) (sym t)
          (record {
            allocator = new_allocator size 0;
            here =
                ap (get_elem? (s.allocators ++ (new_allocator size 0 ∷ []))) (sym i')
                ∙ get_elem?-end s.allocators (new_allocator size 0);
            sized = ground arith;
          })
    | inr n ↦ absurd (cc (ap (λ x. x.0) (full_array size s e n), h))
  ]
]

pub found_first :
    (others : Xallocator → Xallocator) (size j : ℕ) (s : Xallocator)
    → find_allocator (size_class s.safeguards size) s.allocators ≡ some j
    → get_allocator others size s ≡ (some j, s)
unfolding get_allocator
found_first others size j s e = ground arith

found_later :
    (others : Xallocator → Xallocator) (size : ℕ) (s : Xallocator)
    → find_allocator (size_class s.safeguards size) s.allocators ≡ none
    → get_allocator others size s ≡ check_and_insert (size_class s.safeguards size) (others s)
unfolding get_allocator
found_later others size s e = ground arith

get_allocator-IsAt :
    (others : Xallocator → Xallocator) (size i : ℕ) (s : Xallocator)
    → 8 ≤ size_class s.safeguards size
    → (get_allocator others size s).0 ≡ some i
    → IsAt i (size_class s.safeguards size) (get_allocator others size s).1.allocators
get_allocator-IsAt others size i s l h =
    let class_ = size_class s.safeguards size in
    elim (Option-cases (find_allocator class_ s.allocators)) [
      | inr (j, e) ↦
          let t = found_first others size j s e in
          let same : find_allocator class_ s.allocators ≡ some i = e ∙ sym (ap (λ x. x.0) t) ∙ h in
          subst (λ x. IsAt i class_ x.1.allocators) (sym t)
            (find_allocator-IsAt class_ i s.allocators same)
      | inl e ↦
          let t = found_later others size s e in
          subst (λ x. IsAt i class_ x.1.allocators) (sym t)
            (check_and_insert-IsAt class_ i (others s) l (sym (ap (λ x. x.0) t) ∙ h))
    ]

-- Whatever other threads do to the array between the two critical sections: the allocator that a client
-- gets for a size makes blocks of a power of two, which hold the size, the header and the footer, and are
-- less than twice as large as these, if these together are at most half of what the type can count.
pub get_allocator_fits :
    (others : Xallocator → Xallocator) (size i : ℕ) (s : Xallocator)
    → let need = size + header_size + footer_size s.safeguards in
      need ≤ 2 ^ 63
      → (get_allocator others size s).0 ≡ some i
      → (a : Allocator) × (m : ℕ) × (get_elem? (get_allocator others size s).1.allocators i
          ≡ some a)
        × (block_size a ≡ 2 ^ m)
        × (need ≤ block_size a)
        × (block_size a < need + need)
get_allocator_fits others size i s l h =
    let need = size + header_size + footer_size s.safeguards in
    let (m, e, low, high) = nexthigher_lem need (omega arith) l in
    let exact : size_class s.safeguards size ≡ 2 ^ m = ap nexthigher (omega arith) ∙ e in
    let w = get_allocator-IsAt others size i s (omega (arith, exact, low)) h in
    let b = w.sized ∙ exact in
    (w.allocator, m, w.here, b, omega (arith, b, low), omega (arith, b, high))

-- No two allocators make blocks of the same size, and the array is long enough.
pub record IsTable (table : List Allocator) : Type 0 where
  pub distinct : (i j size : ℕ) → IsAt i size table → IsAt j size table → i ≡ j
  pub room : length table ≤ max_allocators

append-IsTable :
    (size : ℕ) (table : List Allocator)
    → 8 ≤ size
    → IsTable table
    → find_allocator size table ≡ none
    → length table < max_allocators
    → IsTable (table ++ (new_allocator size 0 ∷ []))
append-IsTable size table l w e r = record {
  distinct = λ i j n x y.
      let a = new_allocator size 0 in
      let b : block_size a ≡ size = ground arith in
      elim (IsAt-cases i n table a x) [
        | inl x' ↦ elim (IsAt-cases j n table a y) [
          | inl y' ↦ w.distinct i j n x' y'
          | inr (ey, by) ↦
              absurd (find_from-none 0 i size table (subst (λ k. IsAt i k table) (sym by ∙ b) x') e)
        ]
        | inr (ex, bx) ↦ elim (IsAt-cases j n table a y) [
          | inl y' ↦
              absurd (find_from-none 0 j size table (subst (λ k. IsAt j k table) (sym bx ∙ b) y') e)
          | inr (ey, by) ↦ ex ∙ sym ey
        ]
      ];
  room = omega (arith, length-append table (new_allocator size 0 ∷ []), r);
}

check_and_insert-IsTable :
    (size : ℕ) (s : Xallocator)
    → 8 ≤ size
    → IsTable s.allocators
    → IsTable (check_and_insert size s).1.allocators
check_and_insert-IsTable size s l w = elim (Option-cases (find_allocator size s.allocators)) [
  | inr (j, e) ↦ subst (λ x. IsTable x.1.allocators) (sym (kept size j s e)) w
  | inl e ↦ elim (Bool-cases (ltb (length s.allocators) max_allocators)) [
    | inl y ↦
        subst (λ x. IsTable x.1.allocators) (sym (inserted size s e y))
          (append-IsTable size s.allocators l w e (ltb→lt (length s.allocators) max_allocators y))
    | inr n ↦ subst (λ x. IsTable x.1.allocators) (sym (full_array size s e n)) w
  ]
]

-- `xallocator_get_allocator` keeps the array without two allocators of one size and within its length, if
-- what other threads do to it between the two critical sections does, and the size, the header and the
-- footer are at most half of what the type can count. The second search is what makes it so.
pub get_allocator-IsTable :
    (others : Xallocator → Xallocator) (size : ℕ) (s : Xallocator)
    → size + header_size + footer_size s.safeguards ≤ 2 ^ 63
    → ((x : Xallocator) → IsTable x.allocators → IsTable (others x).allocators)
    → IsTable s.allocators
    → IsTable (get_allocator others size s).1.allocators
get_allocator-IsTable others size s l k w =
    let need = size + header_size + footer_size s.safeguards in
    let class_ = size_class s.safeguards size in
    let (m, e, low, high) = nexthigher_lem need (omega arith) l in
    let exact : class_ ≡ 2 ^ m = ap nexthigher (omega arith) ∙ e in
    elim (Option-cases (find_allocator class_ s.allocators)) [
      | inr (j, f) ↦ subst (λ x. IsTable x.1.allocators) (sym (found_first others size j s f)) w
      | inl f ↦
          subst (λ x. IsTable x.1.allocators) (sym (found_later others size s f))
            (check_and_insert-IsTable class_ (others s) (omega (arith, exact, low)) (k s w))
    ]
