-- ===== src/Signal/Snapshot.antt =====
-- `GetSnapshot` and `InvokeSnapshot` of DelegateMQ/delegate/Signal.h, with the buffer of
-- `SIGNAL_SBO_COUNT` places (DelegateMQ/delegate/DelegateOpt.h) for few subscribers.
use async_duck_db.Common.{
  ℕ, zero, suc, ◌+◌, ◌≤◌, ◌<◌, ◌≡◌, refl, ◌∙◌, ap, List, [], ◌∷◌, Option, none, some, if◌then◌else◌,
  leb, arith, length, set, get_elem?, replicate, length-set, get_elem?-set_self,
}
use async_duck_db.Signal.{Signal, Heap, subscribers}

abbrev pub signal_sbo_count : ℕ
signal_sbo_count = 8

pub record Snapshot : Type 0 where
  pub small_buf : List (Option (ℕ × ℕ))
  pub large_buf : List (Option (ℕ × ℕ))
  pub count : ℕ

-- `s.small_buf[i++] = d` for each delegate
abbrev pub fill : ℕ → List (ℕ × ℕ) → List (Option (ℕ × ℕ)) → List (Option (ℕ × ℕ))
fill i [] buf = buf
fill i (d ∷ ds) buf = fill (suc i) ds (set buf i (some d))

abbrev pub pointers : List (ℕ × ℕ) → List (Option (ℕ × ℕ))
pointers [] = []
pointers (d ∷ ds) = some d ∷ pointers ds

unfoldable pub snapshot_of : List (ℕ × ℕ) → Snapshot
snapshot_of ds =
    if leb (length ds) signal_sbo_count
    then record {
      small_buf = fill 0 ds (replicate signal_sbo_count none);
      large_buf = [];
      count = length ds;
    }
    else record {
      small_buf = replicate signal_sbo_count none;
      large_buf = pointers ds;
      count = length ds;
    }

abbrev pub get_snapshot : Signal → Heap → Snapshot
get_snapshot g h = snapshot_of (subscribers g h)

-- The targets that are called, in order: a null pointer is passed over.
abbrev pub call_pointer : Option (Option (ℕ × ℕ)) → List ℕ → List ℕ
call_pointer (some (some d)) rest = d.1 ∷ rest
call_pointer (some none) rest = rest
call_pointer none rest = rest

abbrev pub invoke_small : ℕ → ℕ → List (Option (ℕ × ℕ)) → List ℕ
invoke_small zero i buf = []
invoke_small (suc n) i buf = call_pointer (get_elem? buf i) (invoke_small n (suc i) buf)

abbrev pub invoke_large : List (Option (ℕ × ℕ)) → List ℕ
invoke_large [] = []
invoke_large (p ∷ ps) = call_pointer (some p) (invoke_large ps)

unfoldable pub invoke_snapshot : Snapshot → List ℕ
invoke_snapshot s =
    if leb s.count signal_sbo_count
    then invoke_small s.count 0 s.small_buf
    else invoke_large s.large_buf

-- `operator()`
unfoldable pub emit : Signal → Heap → List ℕ
emit g h = invoke_snapshot (get_snapshot g h)

pub targets : List (ℕ × ℕ) → List ℕ
targets [] = []
targets (d ∷ ds) = d.1 ∷ targets ds

get_elem?-set_other :
    (xs : List (Option (ℕ × ℕ))) (i j : ℕ) (v : Option (ℕ × ℕ))
    → j < i
    → get_elem? (set xs i v) j ≡ get_elem? xs j
get_elem?-set_other [] i j v h = refl
get_elem?-set_other (x ∷ xs) zero j v h = absurd (omega arith)
get_elem?-set_other (x ∷ xs) (suc i) zero v h = refl
get_elem?-set_other (x ∷ xs) (suc i) (suc j) v h = get_elem?-set_other xs i j v (omega arith)

get_elem?-fill_below :
    (i j : ℕ) (ds : List (ℕ × ℕ)) (buf : List (Option (ℕ × ℕ)))
    → j < i
    → get_elem? (fill i ds buf) j ≡ get_elem? buf j
get_elem?-fill_below i j [] buf h = refl
get_elem?-fill_below i j (d ∷ ds) buf h =
    get_elem?-fill_below (suc i) j ds (set buf i (some d)) (omega arith)
    ∙ get_elem?-set_other buf i j (some d) h

-- The buffer holds what was put into it.
invoke_small-fill :
    (i : ℕ) (ds : List (ℕ × ℕ)) (buf : List (Option (ℕ × ℕ)))
    → length ds + i ≤ length buf
    → invoke_small (length ds) i (fill i ds buf) ≡ targets ds
unfolding targets
invoke_small-fill i [] buf h = refl
invoke_small-fill i (d ∷ ds) buf h =
    ap
      (λ p.
        call_pointer p (invoke_small (length ds) (suc i) (fill (suc i) ds (set buf i (some d)))))
      (get_elem?-fill_below (suc i) i ds (set buf i (some d)) (omega arith)
        ∙ get_elem?-set_self buf i (some d) (omega arith))
    ∙ ap (λ t. d.1 ∷ t)
        (invoke_small-fill (suc i) ds (set buf i (some d))
          (omega (arith, length-set buf i (some d))))

invoke_large-pointers : (ds : List (ℕ × ℕ)) → invoke_large (pointers ds) ≡ targets ds
unfolding targets
invoke_large-pointers [] = refl
invoke_large-pointers (d ∷ ds) = ap (λ t. d.1 ∷ t) (invoke_large-pointers ds)

-- A snapshot of any number of subscribers, held in the small buffer or in the list, calls the
-- target of each subscriber once, in the order of the subscriptions.
pub invoke_snapshot-snapshot_of :
    (ds : List (ℕ × ℕ)) → invoke_snapshot (snapshot_of ds) ≡ targets ds
unfolding invoke_snapshot snapshot_of
invoke_snapshot-snapshot_of ds =
    ground (arith, invoke_small-fill 0 ds (replicate 8 none), invoke_large-pointers ds)
