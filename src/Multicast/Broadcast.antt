-- ===== src/Multicast/Broadcast.antt =====
-- Which targets a broadcast of DelegateMQ/delegate/MulticastDelegate.h calls when targets remove others.
use async_duck_db.Common.{
  ℕ, zero, suc, ◌+◌, ◌*◌, ◌≤◌, ◌≡◌, refl, sym, ◌∙◌, ap, subst, false, true, List, [], ◌∷◌, ◌++◌,
  none, some, arith, if◌then◌else◌, get_elem?, length, contains, IsSimple, append_assoc, append-nil,
  Bool-cases, inl, inr,
}
use async_duck_db.Multicast.{
  MulticastDelegate, Scene, Action, enter, leave, broadcast, visit, visit_pointer, on_container,
  with_scene,
}
use async_duck_db.Multicast.Masked.{
  mask, removals, bury, IsMasked, get_elem?-mask, get_elem?-mask_end, length-snoc, perform-removals,
  targets, mask-nil,
}

-- Each target in order, unless one that was called before has removed it: `victims` are those that a
-- target removes, from the calls before it.
pub served : (List ℕ → ℕ → List ℕ) → List ℕ → List ℕ → List ℕ → List ℕ
served victims log dead [] = []
served victims log dead (d ∷ ds) =
    let skipped = served victims log dead ds in
    let rest = served victims (log ++ (d ∷ [])) (bury (victims log d) dead) ds in
    if contains d dead then skipped else d ∷ rest

served-skip :
    (victims : List ℕ → ℕ → List ℕ) (log dead ds : List ℕ) (d : ℕ)
    → contains d dead ≡ true
    → served victims log dead (d ∷ ds) ≡ served victims log dead ds
unfolding served
served-skip victims log dead ds d h = rw h refl

served-call :
    (victims : List ℕ → ℕ → List ℕ) (log dead ds : List ℕ) (d : ℕ)
    → contains d dead ≡ false
    → served victims log dead (d ∷ ds)
      ≡ d ∷ served victims (log ++ (d ∷ [])) (bury (victims log d) dead) ds
unfolding served
served-call victims log dead ds d h = rw h refl

module _ (victims : List ℕ → ℕ → List ℕ) where
  abbrev pub removing : List ℕ → ℕ → List Action
  removing log d = removals (victims log d)

  abbrev pub scene : MulticastDelegate → List ℕ → Scene
  scene c log = record { container = c; calls = log; raised = false }

  -- A broadcast that goes on from the place `i` ends with the calls `log`.
  abbrev Ends : ℕ → ℕ → Scene → List ℕ → Type 0
  Ends n i s log = (t : Scene) × (visit removing n i s ≡ some t) × (t.calls ≡ log)

  skip-Ends :
      (n i : ℕ) (s : Scene) (log : List ℕ)
      → get_elem? s.container.delegates i ≡ some none
      → Ends n (suc i) s log
      → Ends (suc (suc n)) i s log
  unfolding visit
  skip-Ends n i s log q e = (e.0, ap (λ p. visit_pointer removing (suc n) i p s) q ∙ e.1, e.2)

  call-Ends :
      (most n i d : ℕ) (dead all log rest : List ℕ) (c : MulticastDelegate)
      → IsSimple all
      → IsMasked dead all c
      → length (victims log d) + 2 ≤ n
      → get_elem? c.delegates i ≡ some (some d)
      → ((k : MulticastDelegate)
          → IsMasked (bury (victims log d) dead) all k
          → Ends n (suc i) (scene k (log ++ (d ∷ []))) rest)
      → Ends (suc (suc n)) i (scene c log) rest
  unfolding visit
  call-Ends most n i d dead all log rest c u w h q next =
      let p = perform-removals removing (victims log d) n dead all (log ++ (d ∷ [])) c u w h in
      let e = next p.0 p.1 in
      (
        e.0,
        ap (λ o. visit_pointer removing (suc n) i o (scene c log)) q
            ∙ ap (with_scene (λ t. if t.raised then some t else visit removing n (suc i) t)) p.2
            ∙ e.1,
        e.2,
      )

  -- The rest of a broadcast that has gone through `pre`.
  visit-served :
      (most : ℕ) (ds pre all dead log : List ℕ) (n : ℕ) (c : MulticastDelegate)
      → ((l : List ℕ) (d : ℕ) → length (victims l d) ≤ most)
      → all ≡ pre ++ ds
      → IsSimple all
      → IsMasked dead all c
      → 2 * length ds + most + 3 ≤ n
      → Ends n (length pre) (scene c log) (log ++ served victims log dead ds)
  unfolding visit served
  visit-served most [] pre all dead log zero c b a u w h = absurd (omega arith)
  visit-served most [] pre all dead log (suc zero) c b a u w h = absurd (omega arith)
  visit-served most [] pre all dead log (suc (suc n)) c b a u w h = (
    scene c log,
    ap (λ p. visit_pointer removing (suc n) (length pre) p (scene c log))
        (ap (λ ps. get_elem? ps (length pre)) (w.masked ∙ ap (mask dead) a)
          ∙ get_elem?-mask_end dead pre),
    sym (append-nil log),
  )
  visit-served most (d ∷ ds) pre all dead log zero c b a u w h = absurd (omega arith)
  visit-served most (d ∷ ds) pre all dead log (suc zero) c b a u w h = absurd (omega arith)
  visit-served most (d ∷ ds) pre all dead log (suc (suc n)) c b a u w h =
      let here =
        ap (λ ps. get_elem? ps (length pre)) (w.masked ∙ ap (mask dead) a)
        ∙ get_elem?-mask dead pre d ds in
      let further = a ∙ sym (append_assoc pre (d ∷ []) ds) in
      elim (Bool-cases (contains d dead)) [
        | inl t ↦
            subst (λ l. Ends (suc (suc n)) (length pre) (scene c log) (log ++ l))
              (sym (served-skip victims log dead ds d t))
              (skip-Ends n (length pre) (scene c log) _
                (here ∙ ap (λ b. some (if b then none else some d)) t)
                (subst (λ i. Ends n i (scene c log) (log ++ served victims log dead ds))
                  (length-snoc pre d)
                  (visit-served most ds (pre ++ (d ∷ [])) all dead log n c b further u w
                    (omega arith))))
        | inr f ↦
            subst (λ l. Ends (suc (suc n)) (length pre) (scene c log) (log ++ l))
              (sym (served-call victims log dead ds d f))
              (call-Ends most n (length pre) d dead all log _ c u w (omega (arith, b log d))
                (here ∙ ap (λ b. some (if b then none else some d)) f)
                (λ k m.
                  subst (λ l. Ends n (suc (length pre)) (scene k (log ++ (d ∷ []))) l)
                    (append_assoc log (d ∷ []) _)
                    (subst
                      (λ i. Ends n i (scene k (log ++ (d ∷ []))) (
                        (log ++ (d ∷ []))
                        ++ served victims (log ++ (d ∷ [])) (bury (victims log d) dead) ds))
                      (length-snoc pre d)
                      (visit-served most ds (pre ++ (d ∷ [])) all (bury (victims log d) dead)
                        (log ++ (d ∷ [])) n k b further u m (omega arith)))))
      ]

  -- A broadcast to targets without repetition, which only remove targets, at most `most` a call,
  -- comes to its end with fuel of twice their number, `most` and 4, and calls each target in order
  -- except those that a target called before has removed.
  pub broadcast-served :
      (most : ℕ) (ds log : List ℕ) (n count : ℕ)
      → ((l : List ℕ) (d : ℕ) → length (victims l d) ≤ most)
      → IsSimple ds
      → 2 * length ds + most + 4 ≤ n
      → (t : Scene) × (broadcast removing n (
            scene (record { delegates = targets ds; broadcast_count = count; cleanup = false }) log)
          ≡ some t)
        × (t.calls ≡ log ++ served victims log [] ds)
  unfolding broadcast enter
  broadcast-served most ds log zero count b u h = absurd (omega arith)
  broadcast-served most ds log (suc n) count b u h =
      let c : MulticastDelegate = record {
        delegates = targets ds;
        broadcast_count = suc count;
        cleanup = false;
      } in
      let e =
        visit-served most ds [] ds [] log n c b refl u
          (record { masked = mask-nil ds; inside = omega arith }) (omega arith) in
      (on_container leave e.0, ap (with_scene (λ t. some (on_container leave t))) e.1, e.2)
