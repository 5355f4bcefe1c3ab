-- ===== src/Allocator/Xallocator/Recycling.antt =====
-- Blocks that go back and come again in DelegateMQ/extras/allocator/xallocator.cpp.
use async_duck_db.Common.{
  ℕ, ◌≡◌, sym, ◌∙◌, ap, true, ◌&&◌, Option, none, some, get_elem?, set, update, arith, Bool-cases,
  Option-cases, inl, inr,
}
use async_duck_db.Allocator.{Allocator, deallocate}
use async_duck_db.Allocator.Xallocator.{BlockHeader, Xallocator, xfree, is_freed, free_magic}

some-injective : {x y : Xallocator} → ◌≡◌ {A = Option Xallocator} (some x) (some y) → x ≡ y
some-injective h = cc h

-- the state after `xfree`
abbrev returned : ℕ → BlockHeader → Allocator → Xallocator → Xallocator
returned b h a s = record s {
  allocators = set s.allocators h.allocator (deallocate b a);
  headers =
      update s.headers b
        (some (record { allocator = h.allocator; magic = free_magic s.safeguards h.magic }));
}

xfree-returned :
    (b : ℕ) (s s' : Xallocator) (h : BlockHeader) (a : Allocator)
    → s.headers b ≡ some h
    → get_elem? s.allocators h.allocator ≡ some a
    → xfree (some b) s ≡ some s'
    → s' ≡ returned b h a s
unfolding xfree
xfree-returned b s s' h a e g f = elim (Bool-cases (s.safeguards && is_freed h.magic)) [
  | inl y ↦ absurd (ground arith)
  | inr n ↦
      let t : xfree (some b) s ≡ some (returned b h a s) = ground arith in
      some-injective (sym f ∙ t)
]

-- With the safeguards, a block that has been freed and not been given again ends a second `xfree` in the
-- fault handler.
pub xfree_twice :
    (b : ℕ) (s s' : Xallocator)
    → s.safeguards ≡ true
    → xfree (some b) s ≡ some s'
    → xfree (some b) s' ≡ none
unfolding xfree
xfree_twice b s s' g f = elim (Option-cases (s.headers b)) [
  | inl n ↦ absurd (ground arith)
  | inr (h, e) ↦ elim (Option-cases (get_elem? s.allocators h.allocator)) [
    | inl n ↦ absurd (ground arith)
    | inr (a, k) ↦
        let t : xfree (some b) (returned b h a s) ≡ none = ground arith in
        ap (xfree (some b)) (xfree-returned b s s' h a e k f) ∙ t
  ]
]
