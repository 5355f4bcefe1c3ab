-- ===== src/Framing/Serial/Packets.antt =====
-- The bytes of a message on the line in DelegateMQ/port/transport/serial/SerialTransport.h.
use native.Mathlib.Nat.{mod-eq_of_lt}
use async_duck_db.Common.{
  ℕ, ◌≤◌, ◌<◌, ◌≡◌, refl, sym, ◌∙◌, ap, List, [], ◌∷◌, ◌++◌, length, arith, All, append_assoc,
}
use async_duck_db.Framing.{
  DmqHeader, marker, set_length, header_bytes, header_of, word_bytes, word_of, crc_of, crc_of_parts,
  swap16,
}
use async_duck_db.Framing.Words.{
  IsByte, IsHeader, word_bytes-word_of, header_of-header_bytes, header_bytes-header_of,
  crc_of-append,
}
use async_duck_db.Framing.Serial.{packet, buffer_size}

pub All-parts : (xs ys : List ℕ) → All IsByte (xs ++ ys) → All IsByte xs × All IsByte ys
All-parts [] ys p = (tt, p)
All-parts (x ∷ xs) ys p = let (px, py) = All-parts xs ys p.1 in ((p.0, px), py)

pub set_length-same : (n : ℕ) (h : DmqHeader) → h.length ≡ n → n < 65536 → set_length n h ≡ h
set_length-same n h e l = ap (λ k. record h { length = k }) (mod-eq_of_lt l ∙ sym e)

pub packet-header :
    (h : DmqHeader) (payload : List ℕ)
    → h.length ≡ length payload
    → length payload ≤ buffer_size
    → packet h payload
      ≡ header_bytes h ++ (payload ++ word_bytes (crc_of_parts (header_bytes h) payload))
unfolding packet
packet-header h payload e l =
    let same = set_length-same (length payload) h e (omega arith) in
    ap (λ k. (header_bytes k ++ payload) ++ word_bytes (crc_of (header_bytes k ++ payload))) same
    ∙ append_assoc (header_bytes h) payload (word_bytes (crc_of (header_bytes h ++ payload)))
    ∙ ap (λ k. header_bytes h ++ (payload ++ word_bytes k)) (crc_of-append (header_bytes h) payload)

header_bytes-marked :
    (bs : List ℕ)
    → length bs ≡ 6
    → All IsByte bs
    → header_bytes (header_of (170 ∷ 85 ∷ bs)) ≡ 170 ∷ 85 ∷ bs
header_bytes-marked [] l p = absurd (omega arith)
header_bytes-marked (a ∷ []) l p = absurd (omega arith)
header_bytes-marked (a ∷ b ∷ []) l p = absurd (omega arith)
header_bytes-marked (a ∷ b ∷ d ∷ []) l p = absurd (omega arith)
header_bytes-marked (a ∷ b ∷ d ∷ e ∷ []) l p = absurd (omega arith)
header_bytes-marked (a ∷ b ∷ d ∷ e ∷ f ∷ []) l p = absurd (omega arith)
header_bytes-marked (a ∷ b ∷ d ∷ e ∷ f ∷ g ∷ []) l p =
    header_bytes-header_of 170 85 a b d e f g (omega arith, (omega arith, p))
header_bytes-marked (a ∷ b ∷ d ∷ e ∷ f ∷ g ∷ i ∷ bs) l p = absurd (omega arith)

-- what was read is the packet of what was made of it
pub packet-read :
    (h : DmqHeader) (bs p crc rest : List ℕ)
    → length bs ≡ 6
    → length crc ≡ 2
    → All IsByte bs
    → All IsByte crc
    → word_of crc ≡ crc_of_parts (170 ∷ 85 ∷ bs) p
    → h ≡ header_of (170 ∷ 85 ∷ bs)
    → h.length ≡ length p
    → length p ≤ buffer_size
    → 170 ∷ 85 ∷ (bs ++ (p ++ (crc ++ rest))) ≡ packet h p ++ rest
packet-read h bs p crc rest lb lc bb bc wc eh n le =
    let same : header_bytes h ≡ 170 ∷ 85 ∷ bs = ap header_bytes eh ∙ header_bytes-marked bs lb bb in
    let whole : packet h p ≡ 170 ∷ 85 ∷ (bs ++ (p ++ crc)) =
      packet-header h p n le
      ∙ ap (λ k. k ++ (p ++ word_bytes (crc_of_parts k p))) same
      ∙ ap (λ k. 170 ∷ 85 ∷ (bs ++ (p ++ word_bytes k))) (sym wc)
      ∙ ap (λ k. 170 ∷ 85 ∷ (bs ++ (p ++ k))) (word_bytes-word_of crc lc bc) in
    sym (
      ap (λ k. k ++ rest) whole
      ∙ ap (λ k. 170 ∷ 85 ∷ k)
          (append_assoc bs (p ++ crc) rest ∙ ap (λ k. bs ++ k) (append_assoc p crc rest)))

-- the header's bytes after the marker
abbrev pub header_tail : DmqHeader → List ℕ
header_tail h =
    word_bytes (swap16 h.id) ++ (word_bytes (swap16 h.seq_num) ++ word_bytes (swap16 h.length))

header_bytes-tail : (h : DmqHeader) → h.marker ≡ marker → header_bytes h ≡ 170 ∷ 85 ∷ header_tail h
unfolding header_bytes
header_bytes-tail h e = ap (λ m. word_bytes (swap16 m) ++ header_tail h) e

word_of-word_bytes : (v : ℕ) → word_of (word_bytes v) ≡ v
word_of-word_bytes v = omega arith

-- The pieces of what is sent, as the receiver reads them.
pub record IsSplit (h : DmqHeader) (payload bytes : List ℕ) : Type 0 where
  pub tail : List ℕ
  pub crc : List ℕ
  pub whole : bytes ≡ 170 ∷ 85 ∷ (tail ++ (payload ++ crc))
  pub tail_length : length tail ≡ 6
  pub crc_length : length crc ≡ 2
  pub header_back : header_of (170 ∷ 85 ∷ tail) ≡ h
  pub crc_right : word_of crc ≡ crc_of_parts (170 ∷ 85 ∷ tail) payload

pub packet-IsSplit :
    (h : DmqHeader) (payload : List ℕ)
    → IsHeader h
    → h.marker ≡ marker
    → h.length ≡ length payload
    → length payload ≤ buffer_size
    → IsSplit h payload (packet h payload)
packet-IsSplit h payload wf m n le =
    let e = header_bytes-tail h m in
    let crc = crc_of_parts (170 ∷ 85 ∷ header_tail h) payload in
    record {
      tail = header_tail h;
      crc = word_bytes crc;
      whole =
          packet-header h payload n le
          ∙ ap (λ k. k ++ (payload ++ word_bytes (crc_of_parts k payload))) e;
      tail_length = refl;
      crc_length = refl;
      header_back = ap header_of (sym e) ∙ header_of-header_bytes h wf;
      crc_right = word_of-word_bytes crc;
    }

-- A packet carries the length of its payload, whatever length its header had.
pub packet-set_length :
    (h : DmqHeader) (payload : List ℕ)
    → packet (set_length (length payload) h) payload ≡ packet h payload
unfolding packet
packet-set_length h payload = refl
