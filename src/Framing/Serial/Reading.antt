-- ===== src/Framing/Serial/Reading.antt =====
-- `ReadExact` in DelegateMQ/port/transport/serial/SerialTransport.h, on a
-- port that keeps what is documented of it.
use async_duck_db.Common.{
  ℕ, zero, suc, ◌-◌, ◌≤◌, ◌≡◌, ◌≢◌, refl, ◌∙◌, ap, List, [], ◌∷◌, ◌++◌, none, some, length, arith,
  append_assoc, length-append, List-cases, Option-cases, inl, inr,
}
use async_duck_db.Framing.Port.{Read, IsStream, IsTimely}
use async_duck_db.Framing.Serial.{read_exact}

-- lists with equal prefixes by length
append-injective :
    (xs ys xs' ys' : List ℕ)
    → length xs ≡ length xs'
    → xs ++ ys ≡ xs' ++ ys'
    → (xs ≡ xs') × (ys ≡ ys')
append-injective [] ys [] ys' h e = (refl, e)
append-injective [] ys (x ∷ xs') ys' h e = absurd (omega arith)
append-injective (x ∷ xs) ys [] ys' h e = absurd (omega arith)
append-injective (x ∷ xs) ys (x' ∷ xs') ys' h e =
    let t = append-injective xs ys xs' ys' (omega arith) (cc e) in (cc (e, t.0), t.1)

module _ {S : Type 0} (read : Read S) (str : IsStream read) where
  pub read_exact-pending :
      (fuel n t : ℕ) (s : S) (bs : List ℕ)
      → (read_exact read fuel n t s).0 ≡ some bs
      → (length bs ≡ n) × (bs ++ str.pending (read_exact read fuel n t s).1 ≡ str.pending s)
  unfolding read_exact
  read_exact-pending fuel zero t s bs h = ground arith
  read_exact-pending zero (suc n) t s bs h = absurd (cc h)
  read_exact-pending (suc fuel) (suc n) t s bs h = elim (List-cases (read (suc n) t s).0) [
    | inl e ↦ absurd (ground arith)
    | inr (b, cs, e) ↦
        elim (Option-cases (read_exact read fuel (n - length cs) t (read (suc n) t s).1).0) [
          | inl e' ↦ absurd (ground arith)
          | inr (ds, e') ↦
              let next = (read (suc n) t s).1 in
              let (l, p) = read_exact-pending fuel (n - length cs) t next ds e' in
              ground (
                arith,
                l,
                p,
                str.in_order (suc n) t s,
                str.at_most (suc n) t s,
                length-append cs ds,
                append_assoc (b ∷ cs) ds
                    (str.pending (read_exact read fuel (n - length cs) t next).1),
              )
        ]
  ]

  pub read_exact-some :
      IsTimely read str
      → (fuel n t : ℕ) (s : S) → n ≤ fuel
      → n ≤ length (str.pending s)
      → (read_exact read fuel n t s).0 ≢ none
  unfolding read_exact
  read_exact-some timely fuel zero t s f l h = cc h
  read_exact-some timely zero (suc n) t s f l h = omega arith
  read_exact-some timely (suc fuel) (suc n) t s f l h = elim (List-cases (read (suc n) t s).0) [
    | inl e ↦ timely n t s (λ p. omega (arith, ap length p)) e
    | inr (b, cs, e) ↦
        let next = (read (suc n) t s).1 in
        read_exact-some timely fuel (n - length cs) t next (omega arith)
          (omega (
            arith,
            ap length (str.in_order (suc n) t s),
            ap length e,
            length-append (read (suc n) t s).0 (str.pending next),
          ))
          (ground arith)
  ]

  pub read_exact-all :
      IsTimely read str
      → (n t : ℕ) (s : S) (bs rest : List ℕ) → str.pending s ≡ bs ++ rest
      → length bs ≡ n
      → ((read_exact read n n t s).0 ≡ some bs) × (str.pending (read_exact read n n t s).1 ≡ rest)
  read_exact-all timely n t s bs rest p l = elim (Option-cases (read_exact read n n t s).0) [
    | inl e ↦ absurd (
        read_exact-some timely n n t s (omega arith)
          (omega (arith, ap length p, length-append bs rest)) e)
    | inr (cs, h) ↦
        let (lc, q) = read_exact-pending n n t s cs h in
        let (same, left) =
          append-injective cs (str.pending (read_exact read n n t s).1) bs rest (omega arith)
            (q ∙ p) in
        (cc (h, same), left)
  ]
