-- ===== src/Framing/Port.antt =====
-- The serial port that DelegateMQ/port/transport/serial/SerialTransport.h reads from, which is a
-- library's: `sp_blocking_read` as an argument of the model, and what it documents.
use async_duck_db.Common.{ℕ, suc, ◌≤◌, ◌≡◌, ◌≢◌, List, [], ◌++◌, length}

-- The bytes that a read of at most a number of bytes gives within a time in milliseconds. It is empty if
-- the time is over, or on an error.
abbrev pub Read : Type 0 → Type 0
Read S = ℕ → ℕ → S → List ℕ × S

-- A read takes some of the bytes that are still to come, in order, and no more than it asks for.
pub record IsStream {S : Type 0} (read : Read S) : Type 0 where
  pub pending : S → List ℕ
  pub in_order : (n t : ℕ) (s : S) → (read n t s).0 ++ pending (read n t s).1 ≡ pending s
  pub at_most : (n t : ℕ) (s : S) → length (read n t s).0 ≤ n

-- The bytes come in time: a read gives one, if there is one to come.
abbrev pub IsTimely : {S : Type 0} → (read : Read S) → IsStream read → Type 0
IsTimely {S} read str = (n t : ℕ) (s : S) → str.pending s ≢ [] → (read (suc n) t s).0 ≢ []
