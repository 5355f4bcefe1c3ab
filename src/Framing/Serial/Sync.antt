-- ===== src/Framing/Serial/Sync.antt =====
-- The search for the marker in `Receive` of DelegateMQ/port/transport/serial/SerialTransport.h, on a
-- port that keeps what is documented of it.
use async_duck_db.Common.{
  ℕ, zero, suc, ◌≤◌, ◌<◌, ◌≡◌, ◌≢◌, refl, ap, false, List, [], ◌∷◌, ◌++◌, ◌==◌, length, contains,
  arith, append_assoc, length-append, List-cases, Bool-cases, inl, inr, ◌⊎◌,
}
use async_duck_db.Framing.Port.{Read, IsStream, IsTimely}
use async_duck_db.Framing.Serial.{sync, Search, found, ended, going, first_byte}

pub Search-cases : (x : Search) → (x ≡ found) ⊎ ((x ≡ ended) ⊎ (x ≡ going))
Search-cases found = inl refl
Search-cases ended = inr (inl refl)
Search-cases going = inr (inr refl)

module _ {S : Type 0} (read : Read S) (str : IsStream read) where
  -- a read of one byte
  one_byte :
      (t : ℕ) (s : S)
      → (((read 1 t s).0 ≡ []) × (str.pending (read 1 t s).1 ≡ str.pending s))
        ⊎ ((b : ℕ) × ((read 1 t s).0 ≡ b ∷ []) × (str.pending s ≡ b ∷ str.pending (read 1 t s).1))
  one_byte t s = elim (List-cases (read 1 t s).0) [
    | inl e ↦ inl (e, ground (arith, str.in_order 1 t s))
    | inr (b, cs, e) ↦ elim (List-cases cs) [
      | inl n ↦ inr (b, cc (e, n), ground (arith, str.in_order 1 t s))
      | inr (c, ds, n) ↦ absurd (omega (arith, str.at_most 1 t s, ap length e, ap length n))
    ]
  ]

  one_timely :
      IsTimely read str
      → (t : ℕ) (s : S) (b : ℕ) (rest : List ℕ) → str.pending s ≡ b ∷ rest
      → ((read 1 t s).0 ≡ b ∷ []) × (str.pending (read 1 t s).1 ≡ rest)
  one_timely timely t s b rest e = elim (one_byte t s) [
    | inl (h, p) ↦ absurd (timely 0 t s (λ q. omega (arith, ap length e, ap length q)) h)
    | inr (b', h, p) ↦ ground arith
  ]

  -- what a turn of the search takes from the port
  found_turn :
      (s : S)
      → (first_byte read (read 1 10 s)).0 ≡ found
      → str.pending s ≡ 170 ∷ (85 ∷ str.pending (first_byte read (read 1 10 s)).1)
  found_turn s h = elim (one_byte 10 s) [
    | inl (e, p) ↦ absurd (ground arith)
    | inr (b, e, p) ↦ elim (one_byte 100 (read 1 10 s).1) [
      | inl (e', p') ↦ absurd (ground arith)
      | inr (b', e', p') ↦ ground arith
    ]
  ]

  going_turn :
      (s : S)
      → (first_byte read (read 1 10 s)).0 ≡ going
      → (skipped : List ℕ) × (str.pending s
          ≡ skipped ++ str.pending (first_byte read (read 1 10 s)).1)
        × (1 ≤ length skipped)
  going_turn s h = elim (one_byte 10 s) [
    | inl (e, p) ↦ absurd (ground arith)
    | inr (b, e, p) ↦ elim (one_byte 100 (read 1 10 s).1) [
      | inl (e', p') ↦ (b ∷ [], ground arith, omega arith)
      | inr (b', e', p') ↦ elim (Bool-cases (b == 170)) [
        | inl y ↦ (b ∷ b' ∷ [], ground arith, omega arith)
        | inr n ↦ (b ∷ [], ground arith, omega arith)
      ]
    ]
  ]

  marker_turn :
      IsTimely read str
      → (s : S) (rest : List ℕ) → str.pending s ≡ 170 ∷ 85 ∷ rest
      → ((first_byte read (read 1 10 s)).0 ≡ found)
        × (str.pending (first_byte read (read 1 10 s)).1 ≡ rest)
  marker_turn timely s rest e =
      let (h, p) = one_timely timely 10 s 170 (85 ∷ rest) e in
      let (h', p') = one_timely timely 100 (read 1 10 s).1 85 rest p in ground arith

  noise_turn :
      IsTimely read str
      → (s : S) (b : ℕ) (rest : List ℕ) → str.pending s ≡ b ∷ rest
      → (b == 170) ≡ false
      → ((first_byte read (read 1 10 s)).0 ≡ going)
        × (str.pending (first_byte read (read 1 10 s)).1 ≡ rest)
  noise_turn timely s b rest e n = let (h, p) = one_timely timely 10 s b rest e in ground arith

  pub sync-found :
      (fuel : ℕ) (s : S)
      → (sync read fuel s).0 ≡ found
      → (skipped : List ℕ) × (str.pending s
          ≡ skipped ++ (170 ∷ (85 ∷ str.pending (sync read fuel s).1)))
  unfolding sync
  sync-found zero s h = absurd (cc h)
  sync-found (suc fuel) s h = elim (Search-cases (first_byte read (read 1 10 s)).0) [
    | inl e ↦ ([], ground (arith, found_turn s e))
    | inr (inl e) ↦ absurd (ground arith)
    | inr (inr e) ↦
        let next = (first_byte read (read 1 10 s)).1 in
        let (skipped, p, l) = going_turn s e in
        let (more, q) = sync-found fuel next (ground arith) in
        (
          skipped ++ more,
          ground (
            arith,
            p,
            q,
            append_assoc skipped more (170 ∷ (85 ∷ str.pending (sync read fuel next).1)),
          ),
        )
  ]

  -- Fuel for every byte to come is enough.
  pub sync-going : (fuel : ℕ) (s : S) → length (str.pending s) < fuel → (sync read fuel s).0 ≢ going
  unfolding sync
  sync-going zero s f h = omega arith
  sync-going (suc fuel) s f h = elim (Search-cases (first_byte read (read 1 10 s)).0) [
    | inl e ↦ ground arith
    | inr (inl e) ↦ ground arith
    | inr (inr e) ↦
        let next = (first_byte read (read 1 10 s)).1 in
        let (skipped, p, l) = going_turn s e in
        sync-going fuel next
          (omega (arith, ap length p, l, length-append skipped (str.pending next))) (ground arith)
  ]

  pub sync-marker :
      IsTimely read str
      → (noise rest : List ℕ) (fuel : ℕ) (s : S) → str.pending s ≡ noise ++ (170 ∷ 85 ∷ rest)
      → contains 170 noise ≡ false
      → length noise < fuel
      → ((sync read fuel s).0 ≡ found) × (str.pending (sync read fuel s).1 ≡ rest)
  unfolding sync
  sync-marker timely noise rest zero s e n f = absurd (omega arith)
  sync-marker timely [] rest (suc fuel) s e n f =
      let (h, p) = marker_turn timely s rest e in ground arith
  sync-marker timely (b ∷ noise) rest (suc fuel) s e n f =
      let (h, p) = noise_turn timely s b (noise ++ (170 ∷ 85 ∷ rest)) e (ground (arith, n)) in
      let next = (first_byte read (read 1 10 s)).1 in
      ground (arith, sync-marker timely noise rest fuel next p (ground (arith, n)) (omega arith))

  end_turn : (s : S) → str.pending s ≡ [] → (first_byte read (read 1 10 s)).0 ≡ ended
  end_turn s e = elim (one_byte 10 s) [
    | inl (h, p) ↦ ground arith
    | inr (b, h, p) ↦ absurd (cc (e, p))
  ]

  pub sync-noise :
      IsTimely read str
      → (noise : List ℕ) (fuel : ℕ) (s : S) → str.pending s ≡ noise
      → contains 170 noise ≡ false
      → length noise < fuel
      → (sync read fuel s).0 ≡ ended
  unfolding sync
  sync-noise timely noise zero s e n f = absurd (omega arith)
  sync-noise timely [] (suc fuel) s e n f = ground (arith, end_turn s e)
  sync-noise timely (b ∷ noise) (suc fuel) s e n f =
      let (h, p) = noise_turn timely s b noise e (ground (arith, n)) in
      let next = (first_byte read (read 1 10 s)).1 in
      ground (arith, sync-noise timely noise fuel next p (ground (arith, n)) (omega arith))

  -- The byte after 0xAA is dropped with it, whatever it is.
  pub sync-doubled :
      IsTimely read str
      → (rest : List ℕ) (fuel : ℕ) (s : S) → str.pending s ≡ 170 ∷ 170 ∷ rest
      → (next : S) × (sync read (suc fuel) s ≡ sync read fuel next) × (str.pending next ≡ rest)
  unfolding sync
  sync-doubled timely rest fuel s e =
      let (h, p) = one_timely timely 10 s 170 (170 ∷ rest) e in
      let (h', p') = one_timely timely 100 (read 1 10 s).1 170 rest p in
      let g : (first_byte read (read 1 10 s)).0 ≡ going = ground arith in
      ((first_byte read (read 1 10 s)).1, ground (arith, g), ground arith)
