-- ===== src/Framing/Serial/Endings.antt =====
-- How `Receive` of DelegateMQ/port/transport/serial/SerialTransport.h ends.
use async_duck_db.Common.{
  ℕ, zero, suc, ◌<◌, ◌≡◌, ◌≢◌, false, List, ◌∷◌, Option, none, some, length, contains, arith, inl,
  inr,
}
use async_duck_db.Framing.{DmqHeader, header_of}
use async_duck_db.Framing.Port.{Read, IsStream, IsTimely}
use async_duck_db.Framing.Serial.{
  send, SerialTransport, refused, running, read_exact, sync, with_header, with_payload, check_crc,
  receive,
}
use async_duck_db.Framing.Serial.Sync.{sync-going, sync-noise, sync-doubled, Search-cases}

module _ {S : Type 0} (read : Read S) (str : IsStream read) (c : SerialTransport) where
  check_crc-ends :
      (header payload : List ℕ) (r : Option (List ℕ) × S)
      → (check_crc read c header payload r).0 ≢ running
  check_crc-ends header payload (none, s) h = cc h
  check_crc-ends header payload (some bs, s) h = ground arith

  with_payload-ends :
      (header : List ℕ) (r : Option (List ℕ) × S) → (with_payload read c header r).0 ≢ running
  with_payload-ends header (none, s) h = cc h
  with_payload-ends header (some p, s) h = check_crc-ends header p (read_exact read 2 2 500 s) h

  with_header-ends : (r : Option (List ℕ) × S) → (with_header read c r).0 ≢ running
  with_header-ends (none, s) h = cc h
  with_header-ends (some bs, s) h =
      let header = 170 ∷ 85 ∷ bs in
      let n = (header_of header).length in
      ground (arith, with_payload-ends header (read_exact read n n 1000 s))

  -- The search for the marker ends: with fuel for more turns than there are bytes to come, `Receive`
  -- returns 0 or -1, whatever the bytes are.
  pub receive-ends :
      (fuel : ℕ) (s : S) → length (str.pending s) < fuel → (receive read c fuel s).0 ≢ running
  unfolding receive
  receive-ends fuel s f h = elim (Search-cases (sync read fuel s).0) [
    | inl y ↦ with_header-ends (read_exact read 6 6 1000 (sync read fuel s).1) (ground arith)
    | inr (inl y) ↦ ground arith
    | inr (inr y) ↦ sync-going read str fuel s f y
  ]

  -- A message that `Send` has written comes in time right after a byte 0xAA, at a port that is open, and no
  -- byte after its first is 0xAA: `Receive` does not return it, but -1, with fuel for every byte.
  pub receive-doubled :
      IsTimely read str
      → (write : List ℕ → Option ℕ) (header : DmqHeader) (payload bytes : List ℕ) (fuel : ℕ) (s : S)
      → (send (some write) header payload).1 ≡ some (170 ∷ bytes)
      → contains 170 bytes ≡ false
      → str.pending s ≡ 170 ∷ 170 ∷ bytes
      → suc (length bytes) < fuel
      → (receive read c fuel s).0 ≡ refused
  unfolding receive
  receive-doubled timely write header payload bytes zero s e n p f = absurd (omega arith)
  receive-doubled timely write header payload bytes (suc fuel) s e n p f =
      let (next, same, q) = sync-doubled read str timely bytes fuel s p in
      let out = sync-noise read str timely bytes fuel next q n (omega arith) in
      ground (arith, same, out)
