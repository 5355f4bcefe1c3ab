-- ===== src/DataBus/History/Window.antt =====
-- What the ring of `SeqHistory` (DelegateMQ/extras/databus/Participant.h) promises: to know the last
-- numbers that it let pass.
use mathlib.Core.List.{reverse, reverse_aux, reverse-append}
use native.Mathlib.Nat.{mod-eq_of_lt, mod_self}
use async_duck_db.Common.{
  ℕ, zero, suc, ◌+◌, ◌%◌, ◌≡◌, refl, sym, ◌∙◌, ap, ◌||◌, Bool, true, false, List, [], ◌∷◌, ◌++◌,
  Option, none, some, arith, ◌==◌, if◌then◌else◌, length, set, replicate, take, contains, map,
  append_assoc, length-append, length-replicate, Bool-cases, inl, inr,
}
use async_duck_db.DataBus.History.{SeqHistory, new_history, is_in, is_duplicate}

-- The specification keeps every number that passed, the newest first, and looks at the last `size`.
pub expected : ℕ → List ℕ → List ℕ → List Bool
expected size passed [] = []
expected size passed (seq ∷ seqs) =
    let known = contains seq (take size passed) in
    known ∷ expected size (if known then passed else seq ∷ passed) seqs

-- the answers of `is_duplicate` to a sequence of messages
unfoldable pub verdicts : SeqHistory → List ℕ → List Bool
verdicts h [] = []
verdicts h (seq ∷ seqs) = (is_duplicate seq h).0 ∷ verdicts (is_duplicate seq h).1 seqs

abbrev pub padded : ℕ → List ℕ → List (Option ℕ)
padded size passed = take size (map some passed ++ replicate size none)

-- The entries, the newest first: those before `head`, then those from it on, each backwards.
pub record Shows (size : ℕ) (passed : List ℕ) (h : SeqHistory) : Type 0 where
  pub newer : List (Option ℕ)
  pub oldest : Option ℕ
  pub older : List (Option ℕ)
  pub whole : h.buffer ≡ newer ++ (oldest ∷ older)
  pub place : h.head ≡ length newer
  pub sized : length newer + suc (length older) ≡ size
  pub ages : reverse newer ++ reverse (oldest ∷ older) ≡ padded size passed

is_in-append :
    (seq : ℕ) (xs ys : List (Option ℕ)) → is_in seq (xs ++ ys) ≡ (is_in seq xs || is_in seq ys)
is_in-append seq [] ys = refl
is_in-append seq (x ∷ xs) ys = ground (arith, is_in-append seq xs ys)

is_in-reverse : (seq : ℕ) (xs : List (Option ℕ)) → is_in seq (reverse xs) ≡ is_in seq xs
is_in-reverse seq [] = refl
is_in-reverse seq (x ∷ xs) = ground (
  arith,
  reverse-append (x ∷ []) xs,
  is_in-append seq (reverse xs) (x ∷ []),
  is_in-reverse seq xs,
)

is_in-none : (seq n k : ℕ) → is_in seq (take n (replicate k none)) ≡ false
is_in-none seq zero k = refl
is_in-none seq (suc n) zero = refl
is_in-none seq (suc n) (suc k) = is_in-none seq n k

is_in-padded :
    (seq n k : ℕ) (passed : List ℕ)
    → is_in seq (take n (map some passed ++ replicate k none)) ≡ contains seq (take n passed)
is_in-padded seq zero k passed = refl
is_in-padded seq (suc n) k [] = is_in-none seq (suc n) k
is_in-padded seq (suc n) k (p ∷ passed) = ap (λ b. (p == seq) || b) (is_in-padded seq n k passed)

set-length :
    (xs ys : List (Option ℕ)) (y v : Option ℕ) → set (xs ++ (y ∷ ys)) (length xs) v ≡ xs ++ (v ∷ ys)
set-length [] ys y v = refl
set-length (x ∷ xs) ys y v = ap (λ l. x ∷ l) (set-length xs ys y v)

take-suc : (n : ℕ) (xs : List (Option ℕ)) → take n (take (suc n) xs) ≡ take n xs
take-suc zero xs = refl
take-suc (suc n) [] = refl
take-suc (suc n) (x ∷ xs) = ap (λ l. x ∷ l) (take-suc n xs)

take-snoc : (xs : List (Option ℕ)) (y : Option ℕ) → take (length xs) (xs ++ (y ∷ [])) ≡ xs
take-snoc [] y = refl
take-snoc (x ∷ xs) y = ap (λ l. x ∷ l) (take-snoc xs y)

length-reverse : (xs : List (Option ℕ)) → length (reverse xs) ≡ length xs
length-reverse [] = refl
length-reverse (x ∷ xs) = omega (
  arith,
  ap length (reverse-append (x ∷ []) xs),
  length-append (reverse xs) (x ∷ []),
  length-reverse xs,
)

-- a number that passes drops the oldest one
padded-step :
    (n seq : ℕ) (passed : List ℕ) (xs : List (Option ℕ)) (y : Option ℕ)
    → length xs ≡ n
    → xs ++ (y ∷ []) ≡ padded (suc n) passed
    → some seq ∷ xs ≡ padded (suc n) (seq ∷ passed)
padded-step n seq passed xs y h e =
    ap (λ l. some seq ∷ l)
      (sym (take-snoc xs y)
        ∙ ap (λ k. take k (xs ++ (y ∷ []))) h
        ∙ ap (take n) e
        ∙ take-suc n (map some passed ++ replicate (suc n) none))

reverse-cons : (x : Option ℕ) (xs : List (Option ℕ)) → reverse (x ∷ xs) ≡ reverse xs ++ (x ∷ [])
reverse-cons x xs = reverse-append (x ∷ []) xs

reverse-snoc : (x : Option ℕ) (xs : List (Option ℕ)) → reverse (xs ++ (x ∷ [])) ≡ x ∷ reverse xs
reverse-snoc x xs = reverse-append xs (x ∷ [])

-- what `is_duplicate` makes of the ring when the number is new
abbrev pub write : ℕ → SeqHistory → SeqHistory
write seq h = record {
  buffer = set h.buffer h.head (some seq);
  head = (h.head + 1) % length h.buffer;
}

written :
    (seq : ℕ) (h : SeqHistory) (newer older : List (Option ℕ)) (oldest : Option ℕ)
    → h.buffer ≡ newer ++ (oldest ∷ older)
    → h.head ≡ length newer
    → (write seq h).buffer ≡ newer ++ (some seq ∷ older)
written seq h newer older oldest e p =
    ap (λ b. set b h.head (some seq)) e
    ∙ ap (λ i. set (newer ++ (oldest ∷ older)) i (some seq)) p
    ∙ set-length newer older oldest (some seq)

next_head :
    (seq : ℕ) (h : SeqHistory) (newer older : List (Option ℕ)) (oldest : Option ℕ)
    → h.buffer ≡ newer ++ (oldest ∷ older)
    → h.head ≡ length newer
    → (write seq h).head ≡ (length newer + 1) % (length newer + suc (length older))
next_head seq h newer older oldest e p =
    ap (λ i. (i + 1) % length h.buffer) p
    ∙ ap (λ k. (length newer + 1) % k) (ap length e ∙ length-append newer (oldest ∷ older))

-- the head moves on within the ring
write_within :
    (n seq : ℕ) (passed : List ℕ) (h : SeqHistory) (newer older : List (Option ℕ)) (o o' : Option ℕ)
    → h.buffer ≡ newer ++ (o ∷ o' ∷ older)
    → h.head ≡ length newer
    → length newer + suc (suc (length older)) ≡ suc n
    → reverse newer ++ reverse (o ∷ o' ∷ older) ≡ padded (suc n) passed
    → Shows (suc n) (seq ∷ passed) (write seq h)
write_within n seq passed h newer older o o' e p s a = record {
  newer = newer ++ (some seq ∷ []);
  oldest = o';
  older = older;
  whole =
      written seq h newer (o' ∷ older) o e p
      ∙ sym (append_assoc newer (some seq ∷ []) (o' ∷ older));
  place =
      next_head seq h newer (o' ∷ older) o e p
      ∙ mod-eq_of_lt (omega arith)
      ∙ omega (arith, length-append newer (some seq ∷ []));
  sized = omega (arith, length-append newer (some seq ∷ []));
  ages =
      ap (λ l. l ++ reverse (o' ∷ older)) (reverse-snoc (some seq) newer)
      ∙ padded-step n seq passed (reverse newer ++ reverse (o' ∷ older)) o
          (omega (
            arith,
            length-append (reverse newer) (reverse (o' ∷ older)),
            length-reverse newer,
            length-reverse (o' ∷ older),
          ))
          (append_assoc (reverse newer) (reverse (o' ∷ older)) (o ∷ [])
            ∙ ap (λ l. reverse newer ++ l) (sym (reverse-cons o (o' ∷ older)))
            ∙ a);
}

-- the head goes back to the start
write_last :
    (n seq : ℕ) (passed : List ℕ) (h : SeqHistory) (newer : List (Option ℕ)) (o x : Option ℕ)
    (rest : List (Option ℕ))
    → newer ++ (some seq ∷ []) ≡ x ∷ rest
    → h.buffer ≡ newer ++ (o ∷ [])
    → h.head ≡ length newer
    → length newer + 1 ≡ suc n
    → reverse newer ++ (o ∷ []) ≡ padded (suc n) passed
    → Shows (suc n) (seq ∷ passed) (write seq h)
write_last n seq passed h newer o x rest q e p s a = record {
  newer = [];
  oldest = x;
  older = rest;
  whole = written seq h newer [] o e p ∙ q;
  place = next_head seq h newer [] o e p ∙ mod_self (length newer + 1);
  sized = omega (arith, ap length q, length-append newer (some seq ∷ []));
  ages =
      ap reverse (sym q)
      ∙ reverse-snoc (some seq) newer
      ∙ padded-step n seq passed (reverse newer) o (omega (arith, length-reverse newer)) a;
}

write-Shows :
    (n seq : ℕ) (passed : List ℕ) (h : SeqHistory) (newer older : List (Option ℕ)) (o : Option ℕ)
    → h.buffer ≡ newer ++ (o ∷ older)
    → h.head ≡ length newer
    → length newer + suc (length older) ≡ suc n
    → reverse newer ++ reverse (o ∷ older) ≡ padded (suc n) passed
    → Shows (suc n) (seq ∷ passed) (write seq h)
write-Shows n seq passed h [] [] o e p s a =
    write_last n seq passed h [] o (some seq) [] refl e p s a
write-Shows n seq passed h (x ∷ newer) [] o e p s a =
    write_last n seq passed h (x ∷ newer) o x (newer ++ (some seq ∷ [])) refl e p s a
write-Shows n seq passed h newer (o' ∷ older) o e p s a =
    write_within n seq passed h newer older o o' e p s a

known :
    (size seq : ℕ) (passed : List ℕ) (h : SeqHistory)
    → Shows size passed h
    → is_in seq h.buffer ≡ contains seq (take size passed)
known size seq passed h w =
    ap (is_in seq) w.whole
    ∙ is_in-append seq w.newer (w.oldest ∷ w.older)
    ∙ ap (λ b. b || is_in seq (w.oldest ∷ w.older)) (sym (is_in-reverse seq w.newer))
    ∙ ap (λ b. is_in seq (reverse w.newer) || b) (sym (is_in-reverse seq (w.oldest ∷ w.older)))
    ∙ sym (is_in-append seq (reverse w.newer) (reverse (w.oldest ∷ w.older)))
    ∙ ap (is_in seq) w.ages
    ∙ is_in-padded seq size size passed

pub is_duplicate-old :
    (size seq : ℕ) (passed : List ℕ) (h : SeqHistory)
    → Shows size passed h
    → contains seq (take size passed) ≡ true
    → is_duplicate seq h ≡ (true, h)
unfolding is_duplicate
is_duplicate-old size seq passed h w e = rw (known size seq passed h w ∙ e) refl

pub is_duplicate-new :
    (size seq : ℕ) (passed : List ℕ) (h : SeqHistory)
    → Shows size passed h
    → contains seq (take size passed) ≡ false
    → is_duplicate seq h ≡ (false, write seq h)
unfolding is_duplicate
is_duplicate-new size seq passed h w e = rw (known size seq passed h w ∙ e) refl

pub Shows-write :
    (n seq : ℕ) (passed : List ℕ) (h : SeqHistory)
    → Shows (suc n) passed h
    → Shows (suc n) (seq ∷ passed) (write seq h)
Shows-write n seq passed h w =
    write-Shows n seq passed h w.newer w.older w.oldest w.whole w.place w.sized w.ages

verdicts-expected :
    (n : ℕ) (seqs passed : List ℕ) (h : SeqHistory)
    → Shows (suc n) passed h
    → verdicts h seqs ≡ expected (suc n) passed seqs
unfolding verdicts expected
verdicts-expected n [] passed h w = refl
verdicts-expected n (seq ∷ seqs) passed h w =
    elim (Bool-cases (contains seq (take (suc n) passed))) [
      | inl t ↦
          rw (is_duplicate-old (suc n) seq passed h w t, t)
            (ap (λ l. true ∷ l) (verdicts-expected n seqs passed h w))
      | inr f ↦
          rw (is_duplicate-new (suc n) seq passed h w f, f)
            (ap (λ l. false ∷ l)
              (verdicts-expected n seqs (seq ∷ passed) (write seq h)
                (Shows-write n seq passed h w)))
    ]

reverse_aux-none :
    (n k : ℕ)
    → reverse_aux (replicate {A = Option ℕ} n none) (none ∷ replicate k none)
      ≡ none ∷ replicate (n + k) none
reverse_aux-none zero k = ap (λ m. none ∷ replicate m none) (omega arith)
reverse_aux-none (suc n) k =
    reverse_aux-none n (suc k) ∙ ap (λ m. none ∷ replicate m none) (omega arith)

take-replicate : (n : ℕ) → take n (replicate {A = Option ℕ} n none) ≡ replicate n none
take-replicate zero = refl
take-replicate (suc n) = ap (λ l. none ∷ l) (take-replicate n)

pub new_history-Shows : (n : ℕ) → Shows (suc n) [] (new_history (suc n))
new_history-Shows n = record {
  newer = [];
  oldest = none;
  older = replicate n none;
  whole = refl;
  place = refl;
  sized = omega (arith, length-replicate {A = Option ℕ} n none);
  ages =
      reverse_aux-none n 0
      ∙ ap (λ m. none ∷ replicate m none) (omega arith)
      ∙ ap (λ l. none ∷ l) (sym (take-replicate n));
}

-- For a ring of any size but 0, and any sequence of messages: `is_duplicate` refuses exactly those whose
-- number is among the last `size` that it let pass.
pub is_duplicate-refines :
    (n : ℕ) (seqs : List ℕ) → verdicts (new_history (suc n)) seqs ≡ expected (suc n) [] seqs
is_duplicate-refines n seqs =
    verdicts-expected n seqs [] (new_history (suc n)) (new_history-Shows n)
