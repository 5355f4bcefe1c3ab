-- ===== src/DataBus/Latch.antt =====
-- The latching of errors that DataBus.h and Participant.h (DelegateMQ/extras/databus) have alike, with
-- `DelegateError` of DelegateMQ/delegate/DelegateRemote.h.
use async_duck_db.Common.{
  ℕ, suc, Bool, true, false, ◌&&◌, ◌||◌, ◌==◌, if◌then◌else◌, List, [], ◌∷◌, ◌≡◌, arith, Bool-cases,
  inl, inr, ◌∙◌,
}

pub data DelegateError : Type 0 where
  success err_stream_not_good err_no_serializer err_serialize err_deserialize : DelegateError
  err_deserialize_exception err_no_dispatcher err_dispatch err_type_mismatch : DelegateError

-- the value of the enumerator, and so the place of its bit
abbrev pub error_code : DelegateError → ℕ
error_code success = 0
error_code err_stream_not_good = 1
error_code err_no_serializer = 2
error_code err_serialize = 3
error_code err_deserialize = 4
error_code err_deserialize_exception = 5
error_code err_no_dispatcher = 6
error_code err_dispatch = 7
error_code err_type_mismatch = 8

-- A topic, by number, or the text "UnknownRemoteId:" with an id. No topic has an empty name.
pub data Topic : Type 0 where
  named : ℕ → Topic
  unknown_remote_id : ℕ → Topic

abbrev pub same_topic : Topic → Topic → Bool
same_topic (named i) (named j) = i == j
same_topic (named i) (unknown_remote_id j) = false
same_topic (unknown_remote_id i) (named j) = false
same_topic (unknown_remote_id i) (unknown_remote_id j) = i == j

-- the map of the words of bits: whether a topic's word has a bit
abbrev pub Bits : Type 0
Bits = Topic → ℕ → Bool

abbrev pub no_bits : Bits
no_bits t i = false

abbrev pub set_bit : Topic → ℕ → Bits → Bits
set_bit t i bits t' i' = if same_topic t t' && i == i' then true else bits t' i'

pub record Latch : Type 0 where
  pub reported_errors : Bits
  pub continuous_errors : Bool

abbrev pub new_latch : Latch
new_latch = record { reported_errors = no_bits; continuous_errors = false }

-- Whether the error signal is to fire, and the latch afterwards.
unfoldable pub report : Topic → DelegateError → Latch → Bool × Latch
report topic error l =
    if l.reported_errors topic (error_code error)
    then (l.continuous_errors, l)
    else (true, record l { reported_errors = set_bit topic (error_code error) l.reported_errors })

-- how often a list of reports fires for one topic and error
pub fired : Topic → DelegateError → Latch → List (Topic × DelegateError) → ℕ
fired topic error l [] = 0
fired topic error l ((t, e) ∷ rs) =
    let rest = fired topic error (report t e l).1 rs in
    if (report t e l).0 && same_topic t topic && error_code e == error_code error
    then suc rest
    else rest

-- whether the reports have one of a topic and an error
pub reports : Topic → DelegateError → List (Topic × DelegateError) → Bool
reports topic error [] = false
reports topic error ((t, e) ∷ rs) =
    (same_topic t topic && error_code e == error_code error) || reports topic error rs

same_topic-eq : (t t' : Topic) → same_topic t t' ≡ true → t ≡ t'
same_topic-eq (named i) (named j) h = ground arith
same_topic-eq (named i) (unknown_remote_id j) h = cc
same_topic-eq (unknown_remote_id i) (named j) h = cc
same_topic-eq (unknown_remote_id i) (unknown_remote_id j) h = ground arith

-- A report of another topic or error leaves the bit alone.
report-other :
    (topic t : Topic) (error e : DelegateError) (l : Latch)
    → (same_topic t topic && error_code e == error_code error) ≡ false
    → (report t e l).1.reported_errors topic (error_code error)
      ≡ l.reported_errors topic (error_code error)
unfolding report
report-other topic t error e l h = ground arith

report-same :
    (topic t : Topic) (error e : DelegateError) (l : Latch)
    → (same_topic t topic && error_code e == error_code error) ≡ true
    → ((report t e l).1.reported_errors topic (error_code error) ≡ true)
      × ((report t e l).0
          ≡ (if l.reported_errors topic (error_code error) then l.continuous_errors else true))
unfolding report
report-same topic t error e l h = ground (arith, same_topic-eq t topic)

report-continuous :
    (t : Topic) (e : DelegateError) (l : Latch)
    → (report t e l).1.continuous_errors ≡ l.continuous_errors
unfolding report
report-continuous t e l = ground arith

-- An error signal that is not in continuous mode fires once for each topic and error that is reported,
-- however often it is, and not at all for one that has been reported before.
pub fired_once :
    (topic : Topic) (error : DelegateError) (l : Latch) (rs : List (Topic × DelegateError))
    → l.continuous_errors ≡ false
    → fired topic error l rs ≡ (
        if l.reported_errors topic (error_code error)
        then 0
        else if reports topic error rs
        then 1
        else 0)
unfolding fired reports
fired_once topic error l [] c = ground arith
fired_once topic error l ((t, e) ∷ rs) c =
    let ih = fired_once topic error (report t e l).1 rs (report-continuous t e l ∙ c) in
    elim (Bool-cases (same_topic t topic && error_code e == error_code error)) [
      | inl h ↦ ground (arith, ih, report-same topic t error e l h)
      | inr h ↦ ground (arith, ih, report-other topic t error e l h)
    ]
