-- ===== src/Allocator/Blocks.antt =====
-- Who has the blocks of DelegateMQ/extras/allocator/Allocator.cpp.
use async_duck_db.Common.{
  ℕ, suc, ◌+◌, ◌≤◌, ◌<◌, ◌≡◌, ◌⊎◌, inl, inr, refl, ap, sym, subst, true, false, List, [], ◌∷◌,
  arith, ltb, ◌==◌, if◌then◌else◌, length, List-cases, Bool-cases,
}
use async_duck_db.Allocator.{
  Allocator, Allocated, block, bad_alloc, faulted, new_allocator, wrap, allocate, deallocate,
}

unfoldable pub count : ℕ → List ℕ → ℕ
count b [] = 0
count b (c ∷ cs) = if c == b then suc (count b cs) else count b cs

-- the list without one `b`
abbrev pub without : ℕ → List ℕ → List ℕ
without b [] = []
without b (c ∷ cs) = if c == b then cs else c ∷ without b cs

count-without :
    (b c : ℕ) (cs : List ℕ)
    → 0 < count b cs
    → count c cs ≡ (if b == c then suc (count c (without b cs)) else count c (without b cs))
unfolding count
count-without b c [] h = absurd (omega arith)
count-without b c (d ∷ cs) h = ground (arith, count-without b c cs)

length-without : (b : ℕ) (cs : List ℕ) → 0 < count b cs → length cs ≡ suc (length (without b cs))
unfolding count
length-without b [] h = absurd (omega arith)
length-without b (d ∷ cs) h = ground (arith, length-without b cs)

-- the blocks made so far
abbrev pub made : Allocator → ℕ
made a = if ltb 0 a.max_objects then a.pool_index else a.heap_blocks

-- Every block that was made is free or in the hands of a client, once in all, and the counters agree.
pub record IsPool (a : Allocator) (held : List ℕ) : Type 0 where
  pub partition : (b : ℕ) → count b a.free + count b held ≡ (if ltb b (made a) then 1 else 0)
  pub total : length a.free + length held ≡ made a
  pub in_use : a.blocks_in_use ≡ wrap (length held)
  pub balance : a.allocations ≡ wrap (a.deallocations + length held)
  pub limit : 0 < a.max_objects → a.pool_index ≤ a.max_objects

-- the blocks in the hands of clients after an allocation
abbrev pub hold : Allocated → List ℕ → List ℕ
hold (block b) held = b ∷ held
hold bad_alloc held = held
hold faulted held = held

allocate-IsPool :
    (size : ℕ) (a : Allocator) (held : List ℕ)
    → IsPool a held
    → IsPool (allocate size a).1 (hold (allocate size a).0 held)
unfolding allocate count
allocate-IsPool size a held w = record {
  partition = λ b. ground (arith, w.partition b);
  total = ground (arith, w.total);
  in_use = ground (arith, w.in_use);
  balance = ground (arith, w.balance);
  limit = λ p. ground (arith, w.limit);
}

deallocate-IsPool :
    (b : ℕ) (a : Allocator) (held : List ℕ)
    → 0 < count b held
    → IsPool a held
    → IsPool (deallocate b a) (without b held)
unfolding deallocate count
deallocate-IsPool b a held h w = record {
  partition = λ c. ground (arith, w.partition c, count-without b c held h);
  total = ground (arith, w.total, length-without b held h);
  in_use = ground (arith, w.in_use, length-without b held h);
  balance = ground (arith, w.balance, length-without b held h);
  limit = λ p. w.limit p;
}

-- Clients allocate, and give back blocks that they have.
pub data Reachable (size objects : ℕ) : Allocator → List ℕ → Type 0 where
  at_start : Reachable size objects (new_allocator size objects) []
  allocated :
      {a : Allocator} {held : List ℕ} (n : ℕ)
      → Reachable size objects a held
      → Reachable size objects (allocate n a).1 (hold (allocate n a).0 held)
  given_back :
      {a : Allocator} {held : List ℕ} (b : ℕ)
      → Reachable size objects a held
      → 0 < count b held
      → Reachable size objects (deallocate b a) (without b held)

new_allocator-IsPool : (size objects : ℕ) → IsPool (new_allocator size objects) []
unfolding count
new_allocator-IsPool size objects = record {
  partition = λ b. ground arith;
  total = ground arith;
  in_use = refl;
  balance = refl;
  limit = λ p. omega arith;
}

pub Reachable-IsPool :
    (size objects : ℕ) (a : Allocator) (held : List ℕ)
    → Reachable size objects a held
    → IsPool a held
Reachable-IsPool size objects a held at_start = new_allocator-IsPool size objects
Reachable-IsPool size objects a held (allocated n r) =
    allocate-IsPool n _ _ (Reachable-IsPool size objects _ _ r)
Reachable-IsPool size objects a held (given_back b r h) =
    deallocate-IsPool b _ _ h (Reachable-IsPool size objects _ _ r)

-- An allocation of at most the object's size gives a block that no client has, or is refused, and
-- then there is a pool and all its blocks are with clients.
pub data Allocation (a : Allocator) (held : List ℕ) : Allocated → Type 0 where
  fresh : (b : ℕ) → count b held ≡ 0 → Allocation a held (block b)
  exhausted : 0 < a.max_objects → length held ≡ a.max_objects → Allocation a held bad_alloc

first_free :
    (a : Allocator) (held : List ℕ) (b : ℕ) (rest : List ℕ)
    → IsPool a held
    → a.free ≡ b ∷ rest
    → count b held ≡ 0
unfolding count
first_free a held b rest w p =
    let q = ap (count b) p in let e = w.partition b in ground (arith, q, e)

next_made : (a : Allocator) (held : List ℕ) → IsPool a held → count (made a) held ≡ 0
next_made a held w = let e = w.partition (made a) in ground (arith, e)

none_left :
    (a : Allocator) (held : List ℕ)
    → IsPool a held
    → a.free ≡ []
    → 0 < a.max_objects
    → a.max_objects ≤ a.pool_index
    → length held ≡ a.max_objects
none_left a held w p h i =
    let q = ap length p in let t = w.total in let l = w.limit h in ground (arith, q, t, l)

module _ (n : ℕ) (a : Allocator) (h : n ≤ a.object_size) where
  allocate-free : (b : ℕ) (rest : List ℕ) → a.free ≡ b ∷ rest → (allocate n a).0 ≡ block b
  unfolding allocate
  allocate-free b rest p = ground (arith, p)

  allocate-made :
      a.free ≡ []
      → (ltb 0 a.max_objects ≡ false) ⊎ (ltb a.pool_index a.max_objects ≡ true)
      → (allocate n a).0 ≡ block (made a)
  unfolding allocate
  allocate-made p (inl q) = ground (arith, p, q)
  allocate-made p (inr q) = ground (arith, p, q)

  allocate-refused :
      a.free ≡ []
      → ltb 0 a.max_objects ≡ true
      → ltb a.pool_index a.max_objects ≡ false
      → (allocate n a).0 ≡ bad_alloc
  unfolding allocate
  allocate-refused p q r = ground (arith, p, q, r)

  allocate-Allocation : (held : List ℕ) → IsPool a held → Allocation a held (allocate n a).0
  allocate-Allocation held w = elim (List-cases a.free) [
    | inr (b, rest, p) ↦
        subst (Allocation a held) (sym (allocate-free b rest p))
          (fresh b (first_free a held b rest w p))
    | inl p ↦ elim (Bool-cases (ltb 0 a.max_objects)) [
      | inl q ↦ elim (Bool-cases (ltb a.pool_index a.max_objects)) [
        | inl r ↦
            subst (Allocation a held) (sym (allocate-made p (inr r)))
              (fresh (made a) (next_made a held w))
        | inr r ↦ subst (Allocation a held) (sym (allocate-refused p q r)) (
            exhausted (ground (arith, q))
              (none_left a held w p (ground (arith, q)) (ground (arith, r))))
      ]
      | inr q ↦
          subst (Allocation a held) (sym (allocate-made p (inl q)))
            (fresh (made a) (next_made a held w))
    ]
  ]

-- After any allocations and returns, an allocation of at most the object's size gives a block that no
-- client has, or is refused, and then there is a pool and all its blocks are with clients.
pub Reachable-Allocation :
    (size objects n : ℕ) (a : Allocator) (held : List ℕ)
    → Reachable size objects a held
    → n ≤ a.object_size
    → Allocation a held (allocate n a).0
Reachable-Allocation size objects n a held r h =
    allocate-Allocation n a h held (Reachable-IsPool size objects a held r)
