-- ===== src/DataBus/History.antt =====
-- `SeqHistory` of DelegateMQ/extras/databus/Participant.h: the filter of repeated messages, a ring of
-- the last sequence numbers. `valid[i]` and `buffer[i]` are one entry, `none` while it is not valid.
-- The ring's size, `DMQ_SEQ_HISTORY_SIZE`, is the length of the list.
pub mod Window
use async_duck_db.Common.{
  ℕ, ◌+◌, ◌%◌, Bool, true, false, ◌||◌, List, [], ◌∷◌, Option, none, some, ◌==◌, length, set,
  replicate, if◌then◌else◌,
}

pub record SeqHistory : Type 0 where
  pub buffer : List (Option ℕ)
  pub head : ℕ

abbrev pub new_history : ℕ → SeqHistory
new_history size = record { buffer = replicate size none; head = 0 }

abbrev pub is_entry : ℕ → Option ℕ → Bool
is_entry seq none = false
is_entry seq (some s) = s == seq

-- the loop of `is_duplicate`
abbrev pub is_in : ℕ → List (Option ℕ) → Bool
is_in seq [] = false
is_in seq (e ∷ es) = is_entry seq e || is_in seq es

unfoldable pub is_duplicate : ℕ → SeqHistory → Bool × SeqHistory
is_duplicate seq h = if is_in seq h.buffer then (true, h) else (
  false,
  record { buffer = set h.buffer h.head (some seq); head = (h.head + 1) % length h.buffer },
)
