-- ===== src/Framing/Uart/Source.antt =====
-- `ReadByteBlocked` of DelegateMQ/port/transport/stm32-uart/Stm32UartTransport.h as a source of bytes.
use async_duck_db.Common.{
  ℕ, zero, suc, ◌+◌, ◌<◌, ◌≡◌, ◌≢◌, List-cases, inl, inr, refl, sym, ◌∙◌, ap, subst, true, false,
  List, [], ◌∷◌, ◌++◌, some, lt→ltb, length, contains, arith, append_assoc, append-nil,
  length-append, All,
}
use async_duck_db.Framing.Ring.{UartRingBuffer, new_ring, put, get}
use async_duck_db.Framing.Ring.Places.{Holds, put-Holds, get-empty, get-Holds, new_ring-Holds}
use async_duck_db.Framing.Uart.{
  ring_size, Wait, done, blocked, Look, Line, interrupts, read_looks, read_byte_blocked, read_bytes,
  sync,
}

-- A source that has certain bytes to give, and after them none: it gives them one by one.
pub record IsSource {S : Type 0} (next : S → Wait ℕ × S) : Type 1 where
  pub Has : S → List ℕ → Type 0
  pub gives :
      (s : S) (b : ℕ) (bs : List ℕ) → Has s (b ∷ bs) → ((next s).0 ≡ done b) × Has (next s).1 bs
  pub waits : (s : S) → Has s [] → (next s).0 ≡ blocked

abbrev pub all_bytes : List Look → List ℕ
all_bytes [] = []
all_bytes (l ∷ ls) = l.burst ++ all_bytes ls

-- A line on which these bytes are in the ring or to come, fewer than the ring's size, and on which every
-- wait for the semaphore ends well.
pub record IsLine (l : Line) (bs : List ℕ) : Type 0 where
  pub held : List ℕ
  pub holds : Holds ring_size held l.ring
  pub split : bs ≡ held ++ all_bytes l.looks
  pub room : length bs < ring_size
  pub woken : All (λ k. k.taken ≡ true) l.looks

interrupts-Holds :
    (bs q : List ℕ) (r : UartRingBuffer)
    → Holds ring_size q r
    → length q + length bs < ring_size
    → Holds ring_size (q ++ bs) (interrupts bs r)
unfolding interrupts
interrupts-Holds [] q r h l = subst (λ k. Holds ring_size k r) (sym (append-nil q)) h
interrupts-Holds (b ∷ bs) q r h l =
    let more = (put-Holds ring_size b q r h (lt→ltb (length q + 1) ring_size (omega arith))).1 in
    subst (λ k. Holds ring_size k (interrupts bs (put b r).1)) (append_assoc q (b ∷ []) bs)
      (interrupts-Holds bs (q ++ (b ∷ [])) (put b r).1 more
        (omega (arith, length-append q (b ∷ []))))

-- the first byte comes out of the ring
ring-gives :
    (ls : List Look) (q : List ℕ) (r : UartRingBuffer) (b : ℕ) (bs : List ℕ)
    → Holds ring_size q r
    → q ≢ []
    → b ∷ bs ≡ q ++ all_bytes ls
    → suc (length bs) < ring_size
    → All (λ k. k.taken ≡ true) ls
    → ((get r).0 ≡ some b) × IsLine (record { ring = (get r).1; looks = ls }) bs
ring-gives ls [] r b bs h n e l w = absurd (n refl)
ring-gives ls (x ∷ q) r b bs h n e l w =
    let (g, k) = get-Holds ring_size x q r h in
    (cc (g, e), record { held = q; holds = k; split = cc e; room = omega arith; woken = w })

looks-give :
    (ls : List Look) (q : List ℕ) (r : UartRingBuffer) (b : ℕ) (bs : List ℕ)
    → Holds ring_size q r
    → b ∷ bs ≡ q ++ all_bytes ls
    → suc (length bs) < ring_size
    → All (λ k. k.taken ≡ true) ls
    → ((read_looks ls r).0 ≡ done b) × IsLine (read_looks ls r).1 bs
unfolding read_looks
looks-give [] q r b bs h e l w =
    let (g, k) = ring-gives [] q r b bs h (λ z. cc (e, z)) e l w in
    let t : read_looks [] r ≡ (done b, record { ring = (get r).1; looks = [] }) = ground arith in
    (ap (λ x. x.0) t, subst (λ x. IsLine x.1 bs) (sym t) k)
looks-give (a ∷ ls) q r b bs h e l w =
    let r' = interrupts a.burst r in
    let e' : b ∷ bs ≡ (q ++ a.burst) ++ all_bytes ls =
      e ∙ sym (append_assoc q a.burst (all_bytes ls)) in
    let fits : length q + length a.burst < ring_size =
      omega (
        arith,
        ap length e',
        length-append (q ++ a.burst) (all_bytes ls),
        length-append q a.burst,
      ) in
    let h' = interrupts-Holds a.burst q r h fits in
    elim (List-cases (q ++ a.burst)) [
      | inl z ↦
          let g = get-empty ring_size r' (subst (λ k. Holds ring_size k r') z h') in
          let t : read_looks (a ∷ ls) r ≡ read_looks ls r' = ground (arith, g, w.0) in
          subst (λ x. (x.0 ≡ done b) × IsLine x.1 bs) (sym t)
            (looks-give ls [] r' b bs (subst (λ k. Holds ring_size k r') z h')
              (e' ∙ ap (λ k. k ++ all_bytes ls) z) l w.1)
      | inr (x, xs, z) ↦
          let (g, k) = ring-gives ls (q ++ a.burst) r' b bs h' (λ y. cc (y, z)) e' l w.1 in
          let t : read_looks (a ∷ ls) r ≡ (done b, record { ring = (get r').1; looks = ls }) =
            ground arith in
          (ap (λ y. y.0) t, subst (λ y. IsLine y.1 bs) (sym t) k)
    ]

looks-wait :
    (ls : List Look) (r : UartRingBuffer)
    → Holds ring_size [] r
    → all_bytes ls ≡ []
    → All (λ k. k.taken ≡ true) ls
    → (read_looks ls r).0 ≡ blocked
unfolding read_looks interrupts
looks-wait [] r h e w = ground (arith, get-empty ring_size r h)
looks-wait (a ∷ ls) r h e w = elim (List-cases a.burst) [
  | inl z ↦
      let t : interrupts a.burst r ≡ r = ap (λ k. interrupts k r) z in
      ground (
        arith,
        t,
        get-empty ring_size r h,
        w.0,
        looks-wait ls r h (ap (λ k. k ++ all_bytes ls) (sym z) ∙ e) w.1,
      )
  | inr (x, xs, z) ↦ absurd (cc (z, e))
]

append-nil_both : (xs ys : List ℕ) → [] ≡ xs ++ ys → (xs ≡ []) × (ys ≡ [])
append-nil_both [] ys e = (refl, sym e)
append-nil_both (x ∷ xs) ys e = absurd (cc e)

pub line-gives :
    (l : Line) (b : ℕ) (bs : List ℕ)
    → IsLine l (b ∷ bs)
    → ((read_byte_blocked l).0 ≡ done b) × IsLine (read_byte_blocked l).1 bs
unfolding read_byte_blocked
line-gives l b bs h = looks-give l.looks h.held l.ring b bs h.holds h.split h.room h.woken

pub line-waits : (l : Line) → IsLine l [] → (read_byte_blocked l).0 ≡ blocked
unfolding read_byte_blocked
line-waits l h =
    let (x, y) = append-nil_both h.held (all_bytes l.looks) h.split in
    looks-wait l.looks l.ring (subst (λ k. Holds ring_size k l.ring) x h.holds) y h.woken

abbrev pub line_source : IsSource read_byte_blocked
line_source = record { Has = IsLine; gives = line-gives; waits = line-waits }

-- A line at the start, with an empty ring and bursts to come.
pub new_ring-IsLine :
    (ls : List Look)
    → length (all_bytes ls) < ring_size
    → All (λ k. k.taken ≡ true) ls
    → IsLine (record { ring = new_ring ring_size; looks = ls }) (all_bytes ls)
new_ring-IsLine ls l w = record {
  held = [];
  holds = new_ring-Holds ring_size (omega arith);
  split = refl;
  room = l;
  woken = w;
}

module _ {S : Type 0} (next : S → Wait ℕ × S) (src : IsSource next) where
  pub read_bytes-all :
      (bs rest : List ℕ) (s : S)
      → src.Has s (bs ++ rest)
      → ((read_bytes next (length bs) s).0 ≡ done bs)
        × src.Has (read_bytes next (length bs) s).1 rest
  unfolding read_bytes
  read_bytes-all [] rest s h = (refl, h)
  read_bytes-all (b ∷ bs) rest s h =
      let (e, k) = src.gives s b (bs ++ rest) h in
      let (e', k') = read_bytes-all bs rest (next s).1 k in
      let t : read_bytes next (suc (length bs)) s
          ≡ (done (b ∷ bs), (read_bytes next (length bs) (next s).1).1) =
        ground (arith, e, e') in
      (ap (λ x. x.0) t, subst (λ x. src.Has x.1 rest) (sym t) k')

  pub sync-first :
      (noise rest : List ℕ) (fuel : ℕ) (s : S)
      → src.Has s (noise ++ (170 ∷ rest))
      → contains 170 noise ≡ false
      → length noise < fuel
      → ((sync next fuel s).0 ≡ some (done 170)) × src.Has (sync next fuel s).1 rest
  unfolding sync
  sync-first noise rest zero s h n f = absurd (omega arith)
  sync-first [] rest (suc fuel) s h n f =
      let (e, k) = src.gives s 170 rest h in
      let t : sync next (suc fuel) s ≡ (some (done 170), (next s).1) = ground (arith, e) in
      (ap (λ x. x.0) t, subst (λ x. src.Has x.1 rest) (sym t) k)
  sync-first (b ∷ noise) rest (suc fuel) s h n f =
      let (e, k) = src.gives s b (noise ++ (170 ∷ rest)) h in
      let t : sync next (suc fuel) s ≡ sync next fuel (next s).1 = ground (arith, e, n) in
      let (e', k') = sync-first noise rest fuel (next s).1 k (ground (arith, n)) (omega arith) in
      (ap (λ x. x.0) t ∙ e', subst (λ x. src.Has x.1 rest) (sym t) k')
