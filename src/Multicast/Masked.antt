-- ===== src/Multicast/Masked.antt =====
-- The container of DelegateMQ/delegate/MulticastDelegate.h while targets remove others during a broadcast.
use async_duck_db.Common.{
  ℕ, zero, suc, ◌+◌, ◌≤◌, ◌<◌, ◌≡◌, refl, ap, false, List, [], ◌∷◌, ◌++◌, Option, none, some, arith,
  if◌then◌else◌, get_elem?, length, contains, IsSimple,
}
use async_duck_db.Multicast.{
  MulticastDelegate, Action, removes, remove, perform, reset_first, holds,
}

-- the list of a container with the targets of `dead` reset
abbrev pub mask : List ℕ → List ℕ → List (Option ℕ)
mask dead [] = []
mask dead (d ∷ ds) = (if contains d dead then none else some d) ∷ mask dead ds

abbrev pub removals : List ℕ → List Action
removals [] = []
removals (v ∷ vs) = removes v ∷ removals vs

-- `vs` put in front of `dead`, the last one first
abbrev pub bury : List ℕ → List ℕ → List ℕ
bury [] dead = dead
bury (v ∷ vs) dead = bury vs (v ∷ dead)

mask-fresh : (v : ℕ) (dead ds : List ℕ) → contains v ds ≡ false → mask (v ∷ dead) ds ≡ mask dead ds
mask-fresh v dead [] h = refl
mask-fresh v dead (d ∷ ds) h = ground (arith, mask-fresh v dead ds)

reset_first-mask :
    (v : ℕ) (dead ds : List ℕ) → IsSimple ds → reset_first v (mask dead ds) ≡ mask (v ∷ dead) ds
reset_first-mask v dead [] u = refl
reset_first-mask v dead (d ∷ ds) u =
    ground (arith, reset_first-mask v dead ds u.1, mask-fresh v dead ds)

reset_first-missing : (v : ℕ) (ps : List (Option ℕ)) → holds v ps ≡ false → reset_first v ps ≡ ps
reset_first-missing v [] h = refl
reset_first-missing v (p ∷ ps) h = ground (arith, reset_first-missing v ps)

pub get_elem?-mask :
    (dead pre : List ℕ) (d : ℕ) (ds : List ℕ)
    → get_elem? (mask dead (pre ++ (d ∷ ds))) (length pre)
      ≡ some (if contains d dead then none else some d)
get_elem?-mask dead [] d ds = refl
get_elem?-mask dead (p ∷ pre) d ds = get_elem?-mask dead pre d ds

pub get_elem?-mask_end : (dead pre : List ℕ) → get_elem? (mask dead (pre ++ [])) (length pre) ≡ none
get_elem?-mask_end dead [] = refl
get_elem?-mask_end dead (p ∷ pre) = get_elem?-mask_end dead pre

pub length-snoc : (pre : List ℕ) (d : ℕ) → length (pre ++ (d ∷ [])) ≡ suc (length pre)
length-snoc [] d = refl
length-snoc (p ∷ pre) d = ap suc (length-snoc pre d)

-- A container during a broadcast: `ds` with the targets of `dead` reset.
pub record IsMasked (dead ds : List ℕ) (c : MulticastDelegate) : Type 0 where
  pub masked : c.delegates ≡ mask dead ds
  pub inside : 0 < c.broadcast_count

remove-IsMasked :
    (v : ℕ) (dead ds : List ℕ) (c : MulticastDelegate)
    → IsSimple ds
    → IsMasked dead ds c
    → IsMasked (v ∷ dead) ds (remove v c)
unfolding remove
remove-IsMasked v dead ds c u w = record {
  masked = ground (
    arith,
    ap (reset_first v) w.masked,
    reset_first-mask v dead ds u,
    reset_first-missing v c.delegates,
    w.masked,
    w.inside,
  );
  inside = ground (arith, w.inside);
}

module _ (behave : List ℕ → ℕ → List Action) where
  -- A target that removes others comes back, and no exception with it.
  pub perform-removals :
      (vs : List ℕ) (n : ℕ) (dead ds log : List ℕ) (c : MulticastDelegate)
      → IsSimple ds
      → IsMasked dead ds c
      → length vs + 2 ≤ n
      → (k : MulticastDelegate) × IsMasked (bury vs dead) ds k
        × (perform behave n (removals vs) (record { container = c; calls = log; raised = false })
            ≡ some (record { container = k; calls = log; raised = false }))
  unfolding perform
  perform-removals [] zero dead ds log c u w h = absurd (omega arith)
  perform-removals [] (suc n) dead ds log c u w h = (c, w, refl)
  perform-removals (v ∷ vs) zero dead ds log c u w h = absurd (omega arith)
  perform-removals (v ∷ vs) (suc zero) dead ds log c u w h = absurd (omega arith)
  perform-removals (v ∷ vs) (suc (suc n)) dead ds log c u w h =
      perform-removals vs (suc n) (v ∷ dead) ds log (remove v c) u (remove-IsMasked v dead ds c u w)
        (omega arith)

-- a container of these targets
abbrev pub targets : List ℕ → List (Option ℕ)
targets [] = []
targets (d ∷ ds) = some d ∷ targets ds

pub mask-nil : (ds : List ℕ) → targets ds ≡ mask [] ds
mask-nil [] = refl
mask-nil (d ∷ ds) = ap (λ ps. some d ∷ ps) (mask-nil ds)
