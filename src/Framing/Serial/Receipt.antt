-- ===== src/Framing/Serial/Receipt.antt =====
-- `Receive` of DelegateMQ/port/transport/serial/SerialTransport.h takes what `Send` writes.
use async_duck_db.Common.{
  ℕ, ◌≤◌, ◌≡◌, sym, ◌∙◌, ap, subst, List, ◌∷◌, ◌++◌, ◌==◌, ltb, length, arith, not, ◌||◌, All,
  Option-cases, Bool-cases, inl, inr,
}
use async_duck_db.Framing.{DmqHeader, marker, header_of, word_of, crc_of_parts}
use async_duck_db.Framing.Words.{IsByte}
use async_duck_db.Framing.Port.{Read, IsStream}
use async_duck_db.Framing.Serial.{
  packet, SerialTransport, Effect, acks, received, read_exact, sync, with_header, with_payload,
  check_crc, receive, buffer_size,
}
use async_duck_db.Framing.Serial.Reading.{read_exact-pending}
use async_duck_db.Framing.Serial.Sync.{sync-found, Search-cases}
use async_duck_db.Framing.Serial.Packets.{All-parts, packet-read}

-- A message that was taken from the bytes `bs`, which go on with `rest`.
pub record IsTaken (c : SerialTransport) (h : DmqHeader) (payload : List ℕ) (es : List Effect)
    (bs rest : List ℕ) : Type 0 where
  pub skipped : List ℕ
  pub whole : bs ≡ skipped ++ (packet h payload ++ rest)
  pub has_marker : h.marker ≡ marker
  pub has_length : h.length ≡ length payload
  pub fits : length payload ≤ buffer_size
  pub answers : es ≡ acks c h

module _ {S : Type 0} (read : Read S) (str : IsStream read) (c : SerialTransport) where
  -- the last read, and the test of the checksum
  check_crc-received :
      (header payload : List ℕ) (s : S) (h : DmqHeader) (p : List ℕ) (es : List Effect)
      → let r = check_crc read c header payload (read_exact read 2 2 500 s) in
        r.0 ≡ received h p es
        → (crc : List ℕ) × (crc ++ str.pending r.1 ≡ str.pending s)
          × (length crc ≡ 2)
          × (word_of crc ≡ crc_of_parts header payload)
          × (h ≡ header_of header)
          × (p ≡ payload)
          × (es ≡ acks c h)
  check_crc-received header payload s h p es e = elim (Option-cases (read_exact read 2 2 500 s).0) [
    | inl n ↦ absurd (ground arith)
    | inr (crc, y) ↦
        let (l, q) = read_exact-pending read str 2 2 500 s crc y in
        (crc, ground arith, l, ground arith, ground arith, ground arith, ground arith)
  ]

  with_payload-received :
      (header : List ℕ) (n : ℕ) (s : S) (h : DmqHeader) (p : List ℕ) (es : List Effect)
      → let r = with_payload read c header (read_exact read n n 1000 s) in
        r.0 ≡ received h p es
        → (crc : List ℕ) × (p ++ (crc ++ str.pending r.1) ≡ str.pending s)
          × (length crc ≡ 2)
          × (word_of crc ≡ crc_of_parts header p)
          × (h ≡ header_of header)
          × (length p ≡ n)
          × (es ≡ acks c h)
  with_payload-received header n s h p es e = elim (Option-cases (read_exact read n n 1000 s).0) [
    | inl z ↦ absurd (ground arith)
    | inr (payload, y) ↦
        let next = (read_exact read n n 1000 s).1 in
        let (l, q) = read_exact-pending read str n n 1000 s payload y in
        let (crc, w, lc, wc, eh, ep, a) =
          check_crc-received header payload next h p es (ground arith) in
        (
          crc,
          ground (arith, w, q, ep),
          lc,
          wc ∙ ap (crc_of_parts header) (sym ep),
          eh,
          ap length ep ∙ l,
          a,
        )
  ]

  with_header-received :
      (s : S) (h : DmqHeader) (p : List ℕ) (es : List Effect)
      → let r = with_header read c (read_exact read 6 6 1000 s) in
        r.0 ≡ received h p es
        → (bs crc : List ℕ) × (bs ++ (p ++ (crc ++ str.pending r.1)) ≡ str.pending s)
          × (length bs ≡ 6)
          × (length crc ≡ 2)
          × (word_of crc ≡ crc_of_parts (170 ∷ 85 ∷ bs) p)
          × (h ≡ header_of (170 ∷ 85 ∷ bs))
          × (h.marker ≡ marker)
          × (h.length ≡ length p)
          × (length p ≤ buffer_size)
          × (es ≡ acks c h)
  with_header-received s h p es e = elim (Option-cases (read_exact read 6 6 1000 s).0) [
    | inl z ↦ absurd (ground arith)
    | inr (bs, y) ↦
        let next = (read_exact read 6 6 1000 s).1 in
        let n = (header_of (170 ∷ 85 ∷ bs)).length in
        let (l, q) = read_exact-pending read str 6 6 1000 s bs y in
        elim (Bool-cases
          (not ((header_of (170 ∷ 85 ∷ bs)).marker == marker) || ltb buffer_size n)) [
            | inl bad ↦ absurd (ground arith)
            | inr good ↦
                let (crc, w, lc, wc, eh, lp, a) =
                  with_payload-received (170 ∷ 85 ∷ bs) n next h p es (ground arith) in
                (
                  bs,
                  crc,
                  ground (arith, w, q),
                  l,
                  lc,
                  wc,
                  eh,
                  ground arith,
                  ground arith,
                  ground arith,
                  a,
                )
          ]
  ]

  -- Whatever comes in, if each is a byte: a message that `Receive` hands out with 0 is in what it takes
  -- off the port as a packet that `Send` writes for it, at the end and after bytes that are skipped. Its
  -- header has the marker and the length of its payload, which fits the buffer, and it is answered by its id.
  pub receive-IsTaken :
      (fuel : ℕ) (s : S) (h : DmqHeader) (p : List ℕ) (es : List Effect)
      → All IsByte (str.pending s)
      → (receive read c fuel s).0 ≡ received h p es
      → IsTaken c h p es (str.pending s) (str.pending (receive read c fuel s).1)
  unfolding receive
  receive-IsTaken fuel s h p es b e = elim (Search-cases (sync read fuel s).0) [
    | inl y ↦
        let next = (sync read fuel s).1 in
        let (skipped, w) = sync-found read str fuel s y in
        let (bs, crc, w', lb, lc, wc, eh, m, n, le, a) =
          with_header-received next h p es (ground arith) in
        let after = str.pending (with_header read c (read_exact read 6 6 1000 next)).1 in
        let b1 = (All-parts skipped (170 ∷ 85 ∷ str.pending next) (subst (All IsByte) w b)).1.1.1 in
        let (bb, b2) = All-parts bs (p ++ (crc ++ after)) (subst (All IsByte) (sym w') b1) in
        let (bc, b3) = All-parts crc after (All-parts p (crc ++ after) b2).1 in
        let end : (receive read c fuel s).1
            ≡ (with_header read c (read_exact read 6 6 1000 next)).1 =
          ground arith in
        let q = packet-read h bs p crc after lb lc bb bc wc eh n le in
        record {
          skipped = skipped;
          whole =
              w
              ∙ ap (λ k. skipped ++ (170 ∷ 85 ∷ k)) (sym w')
              ∙ ap (λ k. skipped ++ k) q
              ∙ ap (λ k. skipped ++ (packet h p ++ str.pending k)) (sym end);
          has_marker = m;
          has_length = n;
          fits = le;
          answers = a;
        }
    | inr (inl y) ↦ absurd (ground arith)
    | inr (inr y) ↦ absurd (ground arith)
  ]
