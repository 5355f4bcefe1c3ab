-- ===== src/Common/Maps.antt =====
-- Maps: functions updated at a number, and `std::map` as an association list in the order of its
-- keys. `insert` is `m[k] = v`, `erase` is `m.erase(k)`, `lookup` is `m.find(k)`.
use Prim.Native.Nat.{ℕ, suc, ◌≤◌, ◌<◌}
use mathlib.Core.Path.{◌≡◌, refl}
use mathlib.Core.Logic.{◌≢◌}
use mathlib.Core.List.{List, [], ◌∷◌}
use mathlib.Core.Option.{Option, none, some}
use native.Mathlib.Omega.{arith}
use async_duck_db.Common.Tests.{if◌then◌else◌, ◌==◌, ltb}
use async_duck_db.Common.Lists.{length}

module _ {ℓ} {A : Type ℓ} where
  abbrev pub update : (ℕ → A) → ℕ → A → ℕ → A
  update f i v j = if i == j then v else f j

  pub update_self : (f : ℕ → A) (i : ℕ) (v : A) → update f i v i ≡ v
  update_self f i v = ground arith

  pub update_other : (f : ℕ → A) (i j : ℕ) (v : A) → i ≢ j → update f i v j ≡ f j
  update_other f i j v h = ground arith

  abbrev pub lookup : ℕ → List (ℕ × A) → Option A
  lookup k [] = none
  lookup k ((j, v) ∷ m) = if j == k then some v else lookup k m

  abbrev pub insert : ℕ → A → List (ℕ × A) → List (ℕ × A)
  insert k v [] = (k, v) ∷ []
  insert k v ((j, w) ∷ m) =
      if k == j then (k, v) ∷ m else if ltb k j then (k, v) ∷ (j, w) ∷ m else (j, w) ∷ insert k v m

  abbrev pub erase : ℕ → List (ℕ × A) → List (ℕ × A)
  erase k [] = []
  erase k ((j, w) ∷ m) = if j == k then m else (j, w) ∷ erase k m

  -- The keys rise strictly and lie above a bound.
  abbrev pub Above : ℕ → List (ℕ × A) → Type 0
  Above b [] = Unit
  Above b ((k, v) ∷ m) = (b ≤ k) × Above (suc k) m

  abbrev pub IsOrdered : List (ℕ × A) → Type 0
  IsOrdered m = Above 0 m

  pub Above-mono : {a b : ℕ} (m : List (ℕ × A)) → a ≤ b → Above b m → Above a m
  Above-mono [] h s = tt
  Above-mono ((k, v) ∷ m) h s = (omega arith, s.1)

  pub insert-Above :
      (b k : ℕ) (v : A) (m : List (ℕ × A)) → b ≤ k → Above b m → Above b (insert k v m)
  insert-Above b k v [] h s = (h, tt)
  insert-Above b k v ((j, w) ∷ m) h s =
      ground (arith, insert-Above (suc j) k v m, Above-mono {a = suc k} {b = suc j} m)

  pub erase-Above : (b k : ℕ) (m : List (ℕ × A)) → Above b m → Above b (erase k m)
  erase-Above b k [] s = tt
  erase-Above b k ((j, w) ∷ m) s =
      ground (arith, erase-Above (suc j) k m, Above-mono {a = b} {b = suc j} m)

  pub lookup-insert :
      (k j : ℕ) (v : A) (m : List (ℕ × A))
      → lookup j (insert k v m) ≡ (if k == j then some v else lookup j m)
  lookup-insert k j v [] = refl
  lookup-insert k j v ((i, w) ∷ m) = ground (arith, lookup-insert k j v m)

  pub lookup_below : (b k : ℕ) (m : List (ℕ × A)) → Above b m → k < b → lookup k m ≡ none
  lookup_below b k [] s h = refl
  lookup_below b k ((j, w) ∷ m) s h = ground (arith, lookup_below (suc j) k m)

  pub lookup-erase :
      (b k j : ℕ) (m : List (ℕ × A))
      → Above b m
      → lookup j (erase k m) ≡ (if k == j then none else lookup j m)
  lookup-erase b k j [] s = ground arith
  lookup-erase b k j ((i, w) ∷ m) s =
      ground (arith, lookup-erase (suc i) k j m, lookup_below (suc i) j m)

  pub length-insert-le : (k : ℕ) (v : A) (m : List (ℕ × A)) → length (insert k v m) ≤ suc (length m)
  length-insert-le k v [] = omega arith
  length-insert-le k v ((i, w) ∷ m) = ground (arith, length-insert-le k v m)

  pub length-erase-le : (k : ℕ) (m : List (ℕ × A)) → length (erase k m) ≤ length m
  length-erase-le k [] = omega arith
  length-erase-le k ((i, w) ∷ m) = ground (arith, length-erase-le k m)
