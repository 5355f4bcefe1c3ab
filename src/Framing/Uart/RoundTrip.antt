-- ===== src/Framing/Uart/RoundTrip.antt =====
-- What `Send` of DelegateMQ/port/transport/stm32-uart/Stm32UartTransport.h puts on the line, `Receive`
-- returns, through the interrupt and its ring.
use native.Mathlib.Nat.{mod-eq_of_lt}
use async_duck_db.Common.{
  ℕ, suc, ◌<◌, ◌≤◌, ◌%◌, ◌≡◌, refl, sym, ◌∙◌, ap, subst, Bool, true, false, not, ◌||◌, List, [],
  ◌∷◌, ◌++◌, ◌==◌, ltb, length, contains, arith, append_assoc, All, take, if◌then◌else◌,
}
use async_duck_db.Framing.{
  DmqHeader, marker, set_length, header_bytes, header_of, word_bytes, word_of, crc_of, crc_of_parts,
}
use async_duck_db.Framing.Words.{IsHeader, crc_of-append}
use async_duck_db.Framing.Ring.{new_ring}
use async_duck_db.Framing.Serial.{packet}
use async_duck_db.Framing.Serial.Packets.{IsSplit, packet-IsSplit, packet-set_length}
use async_duck_db.Framing.Uart.{
  ring_size, buffer_size, send, then_transmit, Wait, done, Look, Line, read_byte_blocked,
  Stm32UartTransport, Received, received, refused, acks, read_bytes, sync, check_crc, with_payload,
  with_header, synced, receive,
}
use async_duck_db.Framing.Uart.Source.{
  IsSource, IsLine, all_bytes, line_source, new_ring-IsLine, read_bytes-all, sync-first,
}

take-length : (xs : List ℕ) → take (length xs) xs ≡ xs
take-length [] = refl
take-length (x ∷ xs) = ap (λ l. x ∷ l) (take-length xs)

transmitted :
    (transmit : List ℕ → Bool) (bytes more bs : List ℕ) (ok : Bool)
    → then_transmit transmit bytes (ok, more) ≡ (true, bs)
    → (ok ≡ true) × (bs ≡ bytes ++ more)
transmitted transmit bytes more bs ok e = ground arith

packet-parts :
    (header : DmqHeader) (payload : List ℕ)
    → let h = header_bytes (set_length (length payload) header) in
      packet header payload ≡ h ++ (payload ++ word_bytes (crc_of_parts h payload))
unfolding packet
packet-parts header payload =
    let h = header_bytes (set_length (length payload) header) in
    append_assoc h payload (word_bytes (crc_of (h ++ payload)))
    ∙ ap (λ k. h ++ (payload ++ word_bytes k)) (crc_of-append h payload)

-- If `Send` returns 0 for a payload whose length is a number of the type `uint16_t`, it has put on the line
-- the bytes that `SerialTransport` writes for the message.
pub send-packet :
    (mutex : Bool) (transmit : List ℕ → Bool) (header : DmqHeader) (payload bytes : List ℕ)
    → length payload < 65536
    → send mutex transmit header payload ≡ (true, bytes)
    → bytes ≡ packet header payload
unfolding send
send-packet mutex transmit header [] bytes l e = ground (arith, packet-parts header [])
send-packet mutex transmit header (p ∷ ps) bytes l e =
    let payload = p ∷ ps in
    let whole : take (length payload % 65536) payload ≡ payload =
      ap (λ k. take k payload) (mod-eq_of_lt l) ∙ take-length payload in
    ground (arith, packet-parts header payload, whole)

module _ {S : Type 0} (next : S → Wait ℕ × S) (src : IsSource next) (c : Stm32UartTransport) where
  header_step :
      (tail : List ℕ) (h : DmqHeader) (s : S)
      → header_of (170 ∷ 85 ∷ tail) ≡ h
      → not (h.marker == marker) || ltb buffer_size h.length ≡ false
      → with_header next c (done (85 ∷ tail), s)
        ≡ with_payload next c (170 ∷ 85 ∷ tail) (read_bytes next h.length s)
  header_step tail h s back test = rw (back, test) refl

  crc_step :
      (header payload crc : List ℕ) (h : DmqHeader) (s : S)
      → header_of header ≡ h
      → word_of crc ≡ crc_of_parts header payload
      → check_crc next c header payload (done crc, s) ≡ (received h payload (acks c h), s)
  crc_step header payload crc h s back e = ground arith

  pub receive-bytes :
      c.is_receiver ≡ true
      → (h : DmqHeader) (payload bytes noise rest : List ℕ) (fuel : ℕ) (s : S)
      → IsSplit h payload bytes
      → h.marker ≡ marker
      → h.length ≡ length payload
      → length payload ≤ buffer_size
      → src.Has s (noise ++ (bytes ++ rest))
      → contains 170 noise ≡ false
      → length noise < fuel
      → ((receive next c fuel s).0 ≡ received h payload (acks c h))
        × src.Has (receive next c fuel s).1 rest
  unfolding receive
  receive-bytes r h payload bytes noise rest fuel s sp m n le p free f =
      let tail = sp.tail in
      let crc = sp.crc in
      let k = length payload in
      let e0 : bytes ++ rest ≡ 170 ∷ 85 ∷ (tail ++ (payload ++ (crc ++ rest))) =
        ap (λ x. x ++ rest) sp.whole
        ∙ ap (λ x. 170 ∷ 85 ∷ x) (append_assoc tail (payload ++ crc) rest)
        ∙ ap (λ x. 170 ∷ 85 ∷ (tail ++ x)) (append_assoc payload crc rest) in
      let p0 = subst (λ x. src.Has s (noise ++ x)) e0 p in
      let (e1, p1) =
        sync-first next src noise (85 ∷ (tail ++ (payload ++ (crc ++ rest)))) fuel s p0 free f in
      let s1 = (sync next fuel s).1 in
      let (e2', p2') = read_bytes-all next src (85 ∷ tail) (payload ++ (crc ++ rest)) s1 p1 in
      let seven : suc (length tail) ≡ 7 = ap suc sp.tail_length in
      let e2 : (read_bytes next 7 s1).0 ≡ done (85 ∷ tail) =
        subst (λ i. (read_bytes next i s1).0 ≡ done (85 ∷ tail)) seven e2' in
      let p2 : src.Has (read_bytes next 7 s1).1 (payload ++ (crc ++ rest)) =
        subst (λ i. src.Has (read_bytes next i s1).1 (payload ++ (crc ++ rest))) seven p2' in
      let s2 = (read_bytes next 7 s1).1 in
      let (e3, p3) = read_bytes-all next src payload (crc ++ rest) s2 p2 in
      let s3 = (read_bytes next k s2).1 in
      let (e4', p4') = read_bytes-all next src crc rest s3 p3 in
      let e4 : (read_bytes next 2 s3).0 ≡ done crc =
        subst (λ i. (read_bytes next i s3).0 ≡ done crc) sp.crc_length e4' in
      let p4 : src.Has (read_bytes next 2 s3).1 rest =
        subst (λ i. src.Has (read_bytes next i s3).1 rest) sp.crc_length p4' in
      let back = sp.header_back in
      let test : not (h.marker == marker) || ltb buffer_size h.length ≡ false =
        ground (arith, m, n, le) in
      let end : Received × S = (received h payload (acks c h), (read_bytes next 2 s3).1) in
      let s4 = (read_bytes next 2 s3).1 in
      let t4 : check_crc next c (170 ∷ 85 ∷ tail) payload (read_bytes next 2 s3) ≡ end =
        ap (λ x. check_crc next c (170 ∷ 85 ∷ tail) payload (x, s4)) e4
        ∙ crc_step (170 ∷ 85 ∷ tail) payload crc h s4 back sp.crc_right in
      let t3 : with_payload next c (170 ∷ 85 ∷ tail) (read_bytes next k s2) ≡ end =
        ap (λ x. with_payload next c (170 ∷ 85 ∷ tail) (x, s3)) e3 ∙ t4 in
      let t2 : with_header next c (read_bytes next 7 s1) ≡ end =
        ap (λ x. with_header next c (x, s2)) e2
        ∙ header_step tail h s2 back test
        ∙ ap (λ i. with_payload next c (170 ∷ 85 ∷ tail) (read_bytes next i s2)) n
        ∙ t3 in
      let t1 : receive next c fuel s ≡ end =
        ap (λ b. if b then synced next c (sync next fuel s) else (refused, s)) r
        ∙ ap (λ x. synced next c (x, s1)) e1
        ∙ t2 in
      (ap (λ x. x.0) t1, subst (λ x. src.Has x.1 rest) (sym t1) p4)

-- The interrupt receives fewer bytes than the ring's size, in bursts, from when the ring is empty: bytes
-- without 0xAA, then those that `Send` has put on the line for a message, and others. The header has fields
-- of the type `uint16_t` and the marker, the payload fits the receiver's buffer, and every wait for the
-- semaphore ends well. Then `Receive` returns 0 with the header, the length set, and the payload, answers
-- the message by its id, and the others are in the ring or to come. Fuel for the first bytes and one turn
-- is enough.
pub receive-send_uart :
    (c : Stm32UartTransport) (mutex : Bool) (transmit : List ℕ → Bool) (header : DmqHeader)
    (payload noise bytes rest : List ℕ) (looks : List Look) (fuel : ℕ)
    → c.is_receiver ≡ true
    → IsHeader header
    → header.marker ≡ marker
    → length payload ≤ buffer_size
    → send mutex transmit header payload ≡ (true, bytes)
    → all_bytes looks ≡ noise ++ (bytes ++ rest)
    → length (all_bytes looks) < ring_size
    → All (λ k. k.taken ≡ true) looks
    → contains 170 noise ≡ false
    → length noise < fuel
    → let r =
        receive read_byte_blocked c fuel (record { ring = new_ring ring_size; looks = looks }) in
      (r.0 ≡ received (set_length (length payload) header) payload (acks c header))
      × IsLine r.1 rest
unfolding acks
receive-send_uart c mutex transmit header payload noise bytes rest looks fuel r wf m le e p room w
      free f =
    let h = set_length (length payload) header in
    let n : h.length ≡ length payload = mod-eq_of_lt (omega arith) in
    let wf' : IsHeader h = (wf.0, wf.1, wf.2, omega (arith, n)) in
    let sp = packet-IsSplit h payload wf' m n (omega arith) in
    let same : bytes ≡ packet h payload =
      send-packet mutex transmit header payload bytes (omega arith) e
      ∙ sym (packet-set_length header payload) in
    let start : Line = record { ring = new_ring ring_size; looks = looks } in
    receive-bytes read_byte_blocked line_source c r h payload bytes noise rest fuel start
      (subst (IsSplit h payload) (sym same) sp) m n le
      (subst (IsLine start) p (new_ring-IsLine looks room w)) free f
