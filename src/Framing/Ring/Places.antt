-- ===== src/Framing/Ring/Places.antt =====
-- `UartRingBuffer` of DelegateMQ/port/transport/stm32-uart/Stm32UartTransport.h: where its bytes are.
use native.Mathlib.Nat.{mod-eq_of_lt, mod-eq-sub-mod}
use async_duck_db.Common.{
  ℕ, zero, suc, ◌+◌, ◌-◌, ◌%◌, ◌<◌, ◌≡◌, ◌≢◌, ◌≤◌, subst, refl, sym, ◌∙◌, ap, true, false, List, [],
  ◌∷◌, ◌++◌, none, some, ◌==◌, ltb, length, set, get_elem?, if◌then◌else◌, arith, length-set,
  length-append, get_elem?-set_self, length-replicate, Bool-cases, inl, inr, ltb→lt,
}
use async_duck_db.Framing.Ring.{UartRingBuffer, new_ring, put, get, clear}

-- an index of the ring, from a place and a distance
abbrev pub wrap : ℕ → ℕ → ℕ
wrap size k = if ltb k size then k else k - size

mod-wrap : (size k : ℕ) → k < size + size → k % size ≡ wrap size k
mod-wrap size k h = elim (Bool-cases (ltb k size)) [
  | inl y ↦ ground (arith, mod-eq_of_lt {n = k} {m = size} (ltb→lt k size y))
  | inr n ↦
      let le : size ≤ k = ground arith in
      ground (
        arith,
        mod-eq-sub-mod {n = k} {m = size} le,
        mod-eq_of_lt {n = k - size} {m = size} (omega arith),
      )
]

pub record Holds (size : ℕ) (q : List ℕ) (r : UartRingBuffer) : Type 0 where
  pub sized : length r.buffer ≡ size
  pub tail_in : r.tail < size
  pub fits : length q < size
  pub head_at : r.head ≡ wrap size (r.tail + length q)
  pub bytes : (i : ℕ) → i < length q → get_elem? r.buffer (wrap size (r.tail + i)) ≡ get_elem? q i

get_elem?-set_other : (xs : List ℕ) (i j v : ℕ) → i ≢ j → get_elem? (set xs i v) j ≡ get_elem? xs j
get_elem?-set_other [] i j v n = refl
get_elem?-set_other (x ∷ xs) zero zero v n = absurd (n refl)
get_elem?-set_other (x ∷ xs) zero (suc j) v n = refl
get_elem?-set_other (x ∷ xs) (suc i) zero v n = refl
get_elem?-set_other (x ∷ xs) (suc i) (suc j) v n = get_elem?-set_other xs i j v (λ e. n (ap suc e))

get_elem?-before :
    (q : List ℕ) (b i : ℕ) → i < length q → get_elem? (q ++ (b ∷ [])) i ≡ get_elem? q i
get_elem?-before [] b i h = absurd (omega arith)
get_elem?-before (x ∷ q) b zero h = refl
get_elem?-before (x ∷ q) b (suc i) h = get_elem?-before q b i (omega arith)

get_elem?-end : (q : List ℕ) (b : ℕ) → get_elem? (q ++ (b ∷ [])) (length q) ≡ some b
get_elem?-end [] b = refl
get_elem?-end (x ∷ q) b = get_elem?-end q b

next_index :
    (size : ℕ) (q : List ℕ) (r : UartRingBuffer)
    → Holds size q r
    → ((r.head + 1) % length r.buffer ≡ wrap size (r.head + 1))
      × ((r.tail + 1) % length r.buffer ≡ wrap size (r.tail + 1))
next_index size q r h =
    let t = h.tail_in in
    let e = h.head_at in
    let f = h.fits in
    let inside : r.head < size = ground (arith, e) in
    (
      ap (λ n. (r.head + 1) % n) h.sized ∙ mod-wrap size (r.head + 1) (omega arith),
      ap (λ n. (r.tail + 1) % n) h.sized ∙ mod-wrap size (r.tail + 1) (omega arith),
    )

pub put-full :
    (size b : ℕ) (q : List ℕ) (r : UartRingBuffer)
    → Holds size q r
    → ltb (length q + 1) size ≡ false
    → put b r ≡ (false, r)
unfolding put
put-full size b q r h f = ground (arith, (next_index size q r h).0, h.head_at, h.tail_in, h.fits)

put_byte :
    (size b i : ℕ) (q : List ℕ) (r : UartRingBuffer)
    → Holds size q r
    → i < length (q ++ (b ∷ []))
    → length q + 1 < size
    → get_elem? (set r.buffer r.head b) (wrap size (r.tail + i)) ≡ get_elem? (q ++ (b ∷ [])) i
put_byte size b i q r h l f = elim (Bool-cases (ltb i (length q))) [
  | inl y ↦
      get_elem?-set_other r.buffer r.head (wrap size (r.tail + i)) b
        (λ x. ground (arith, x, h.head_at, h.tail_in, f))
      ∙ h.bytes i (ltb→lt i (length q) y)
      ∙ sym (get_elem?-before q b i (ltb→lt i (length q) y))
  | inr n ↦
      let e : i ≡ length q = ground (arith, length-append q (b ∷ [])) in
      let at : wrap size (r.tail + i) ≡ r.head =
        ap (λ k. wrap size (r.tail + k)) e ∙ sym h.head_at in
      let inside : r.head < length r.buffer = ground (arith, h.head_at, h.tail_in, h.sized) in
      ap (get_elem? (set r.buffer r.head b)) at
      ∙ get_elem?-set_self r.buffer r.head b inside
      ∙ sym (get_elem?-end q b)
      ∙ ap (get_elem? (q ++ (b ∷ []))) (sym e)
]

pub put-Holds :
    (size b : ℕ) (q : List ℕ) (r : UartRingBuffer)
    → Holds size q r
    → ltb (length q + 1) size ≡ true
    → ((put b r).0 ≡ true) × Holds size (q ++ (b ∷ [])) (put b r).1
unfolding put
put-Holds size b q r h f =
    let room = ltb→lt (length q + 1) size f in
    let free : ((r.head + 1) % length r.buffer == r.tail) ≡ false =
      ground (arith, (next_index size q r h).0, h.head_at, h.tail_in, room) in
    let next : UartRingBuffer = record {
      buffer = set r.buffer r.head b;
      head = (r.head + 1) % length r.buffer;
      tail = r.tail;
    } in
    let e : put b r ≡ (true, next) = ground (arith, free) in
    let l = length-append q (b ∷ []) in
    let kept : Holds size (q ++ (b ∷ [])) next = record {
      sized = length-set r.buffer r.head b ∙ h.sized;
      tail_in = h.tail_in;
      fits = omega (arith, l, room);
      head_at = ground (arith, (next_index size q r h).0, h.head_at, h.tail_in, room, l);
      bytes = λ i li. put_byte size b i q r h li room;
    } in
    (ap (λ x. x.0) e, subst (λ x. Holds size (q ++ (b ∷ [])) x.1) (sym e) kept)

pub get-empty : (size : ℕ) (r : UartRingBuffer) → Holds size [] r → get r ≡ (none, r)
unfolding get
get-empty size r h = ground (arith, h.head_at, h.tail_in)

pub get-Holds :
    (size b : ℕ) (q : List ℕ) (r : UartRingBuffer)
    → Holds size (b ∷ q) r
    → ((get r).0 ≡ some b) × Holds size q (get r).1
unfolding get
get-Holds size b q r h =
    let f = h.fits in
    let t = h.tail_in in
    let some_byte : (r.head == r.tail) ≡ false = ground (arith, h.head_at) in
    let oldest : get_elem? r.buffer r.tail ≡ some b = ground (arith, h.bytes 0 (omega arith)) in
    let next : UartRingBuffer = record {
      buffer = r.buffer;
      head = r.head;
      tail = (r.tail + 1) % length r.buffer;
    } in
    let e : get r ≡ (some b, next) = ground (arith, some_byte, oldest) in
    let step = (next_index size (b ∷ q) r h).1 in
    let kept : Holds size q next = record {
      sized = h.sized;
      tail_in = ground (arith, step);
      fits = omega arith;
      head_at = ground (arith, step, h.head_at);
      bytes = λ i li.
          ap (get_elem? r.buffer) (ground (arith, step, t, f)) ∙ h.bytes (suc i) (omega arith);
    } in
    (ap (λ x. x.0) e, subst (λ x. Holds size q x.1) (sym e) kept)

pub clear-Holds :
    (size : ℕ) (q : List ℕ) (r : UartRingBuffer) → Holds size q r → Holds size [] (clear r)
unfolding clear
clear-Holds size q r h =
    let t = h.tail_in in
    record {
      sized = h.sized;
      tail_in = omega arith;
      fits = omega arith;
      head_at = ground arith;
      bytes = λ i li. absurd (omega arith);
    }

pub new_ring-Holds : (size : ℕ) → 0 < size → Holds size [] (new_ring size)
new_ring-Holds size p = record {
  sized = length-replicate size 0;
  tail_in = p;
  fits = p;
  head_at = ground arith;
  bytes = λ i li. absurd (omega arith);
}
