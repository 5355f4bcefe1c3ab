-- ===== src/Framing/Serial/RoundTrip.antt =====
-- What `Send` of DelegateMQ/port/transport/serial/SerialTransport.h writes, `Receive` returns.
use native.Mathlib.Nat.{mod-eq_of_lt}
use async_duck_db.Common.{
  ℕ, ◌≤◌, ◌<◌, ◌≡◌, refl, sym, ◌∙◌, ap, subst, true, false, List, ◌∷◌, ◌++◌, Option, some, ◌==◌,
  ltb, length, contains, arith, not, ◌||◌, append_assoc,
}
use async_duck_db.Framing.{DmqHeader, marker, set_length}
use async_duck_db.Framing.Words.{IsHeader}
use async_duck_db.Framing.Port.{Read, IsStream, IsTimely}
use async_duck_db.Framing.Serial.{
  packet, send, SerialTransport, acks, Received, received, read_exact, sync, with_header,
  with_payload, check_crc, receive, buffer_size,
}
use async_duck_db.Framing.Serial.Reading.{read_exact-all}
use async_duck_db.Framing.Serial.Sync.{sync-marker}
use async_duck_db.Framing.Serial.Packets.{IsSplit, packet-IsSplit, packet-set_length}

module _ {S : Type 0} (read : Read S) (str : IsStream read) (c : SerialTransport) where
  receive-bytes :
      IsTimely read str
      → c.is_open ≡ true
      → c.is_receiver ≡ true
      → (h : DmqHeader) (payload bytes noise rest : List ℕ) (fuel : ℕ) (s : S)
      → IsSplit h payload bytes
      → h.marker ≡ marker
      → h.length ≡ length payload
      → length payload ≤ buffer_size
      → str.pending s ≡ noise ++ (bytes ++ rest)
      → contains 170 noise ≡ false
      → length noise < fuel
      → ((receive read c fuel s).0 ≡ received h payload (acks c h))
        × (str.pending (receive read c fuel s).1 ≡ rest)
  unfolding receive
  receive-bytes timely o r h payload bytes noise rest fuel s sp m n le p free f =
      let tail = sp.tail in
      let crc = sp.crc in
      let k = length payload in
      let p0 : str.pending s ≡ noise ++ (170 ∷ 85 ∷ (tail ++ (payload ++ (crc ++ rest)))) =
        p
        ∙ ap (λ x. noise ++ (x ++ rest)) sp.whole
        ∙ ap (λ x. noise ++ (170 ∷ 85 ∷ x)) (append_assoc tail (payload ++ crc) rest)
        ∙ ap (λ x. noise ++ (170 ∷ 85 ∷ (tail ++ x))) (append_assoc payload crc rest) in
      let (e1, p1) =
        sync-marker read str timely noise (tail ++ (payload ++ (crc ++ rest))) fuel s p0 free f in
      let s1 = (sync read fuel s).1 in
      let (e2, p2) =
        read_exact-all read str timely 6 1000 s1 tail (payload ++ (crc ++ rest)) p1
          sp.tail_length in
      let s2 = (read_exact read 6 6 1000 s1).1 in
      let (e3, p3) = read_exact-all read str timely k 1000 s2 payload (crc ++ rest) p2 refl in
      let s3 = (read_exact read k k 1000 s2).1 in
      let (e4, p4) = read_exact-all read str timely 2 500 s3 crc rest p3 sp.crc_length in
      let back = sp.header_back in
      let test : not (h.marker == marker) || ltb buffer_size h.length ≡ false =
        ground (arith, m, n, le) in
      let end : Received × S = (received h payload (acks c h), (read_exact read 2 2 500 s3).1) in
      let t4 : check_crc read c (170 ∷ 85 ∷ tail) payload (read_exact read 2 2 500 s3) ≡ end =
        ground (arith, sp.crc_right) in
      let t3 : with_payload read c (170 ∷ 85 ∷ tail) (read_exact read k k 1000 s2) ≡ end =
        ground (arith, t4) in
      let t2 : with_header read c (read_exact read 6 6 1000 s1) ≡ end = ground (arith, t3) in
      let t1 : receive read c fuel s ≡ end = ground (arith, t2) in
      (ap (λ x. x.0) t1, ap (λ x. str.pending x.1) t1 ∙ p4)

  -- Bytes without 0xAA, and then what `Send` has written for a message whose header has fields of the type
  -- `uint16_t` and the marker, and whose payload fits the receiver's buffer: if they come in time, `Receive`
  -- of an open port returns 0 with the header, the length set, and the payload, answers the message by its
  -- id, and leaves what comes after. Fuel for the skipped bytes and one turn is enough.
  pub receive-send :
      IsTimely read str
      → c.is_open ≡ true
      → c.is_receiver ≡ true
      → (write : List ℕ → Option ℕ) (header : DmqHeader) (payload noise bytes rest : List ℕ)
        (fuel : ℕ) (s : S)
      → IsHeader header
      → header.marker ≡ marker
      → length payload ≤ buffer_size
      → (send (some write) header payload).1 ≡ some bytes
      → str.pending s ≡ noise ++ (bytes ++ rest)
      → contains 170 noise ≡ false
      → length noise < fuel
      → ((receive read c fuel s).0
          ≡ received (set_length (length payload) header) payload (acks c header))
        × (str.pending (receive read c fuel s).1 ≡ rest)
  unfolding receive send acks
  receive-send timely o r write header payload noise bytes rest fuel s wf m le e p free f =
      let h = set_length (length payload) header in
      let n : h.length ≡ length payload = mod-eq_of_lt (omega arith) in
      let wf' : IsHeader h = (wf.0, wf.1, wf.2, omega (arith, n)) in
      let sp = packet-IsSplit h payload wf' m n le in
      let same : bytes ≡ packet h payload = ground (arith, packet-set_length header payload) in
      receive-bytes timely o r h payload bytes noise rest fuel s
        (subst (IsSplit h payload) (sym same) sp) m n le p free f
