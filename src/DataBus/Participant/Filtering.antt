-- ===== src/DataBus/Participant/Filtering.antt =====
-- The filter of repeated messages in `ProcessIncoming` of DelegateMQ/extras/databus/Participant.h.
use async_duck_db.Common.{
  ℕ, ◌≡◌, ◌≢◌, refl, sym, ◌∙◌, ap, Bool, true, false, ◌&&◌, List, [], ◌∷◌, ◌++◌, map, subst, some,
  arith, ◌==◌, if◌then◌else◌, keep_if, contains, take, Bool-cases, inl, inr, update,
}
use async_duck_db.DataBus.History.{is_duplicate, new_history}
use async_duck_db.DataBus.History.Window.{
  Shows, is_duplicate-old, is_duplicate-new, Shows-write, new_history-Shows,
}
use async_duck_db.DataBus.Latch.{err_no_dispatcher}
use async_duck_db.DataBus.Participant.{
  Participant, Channel, Message, Action, fired, invoked, process_incoming, marker, ack_remote_id,
  seq_history_size, on_channel_error,
}

abbrev pub is_invoked : ℕ → Action → Bool
is_invoked id (fired t e) = false
is_invoked id (invoked i c payload) = i == id

-- the calls of the invoker of one id, for messages received one after the other
pub invocations : ℕ → Participant → List Message → List Action
invocations id p [] = []
invocations id p (m ∷ ms) =
    keep_if (is_invoked id) (process_incoming (inr m) p).1
    ++ invocations id (process_incoming (inr m) p).2 ms

abbrev pub is_for : ℕ → Message → Bool
is_for id m = m.header_marker == marker && m.id == id

-- The messages that pass: for this id, with the marker, and with a number that is not among the last
-- eight that passed.
pub passing : ℕ → List ℕ → List Message → List Message
passing id passed [] = []
passing id passed (m ∷ ms) =
    let rest = passing id passed ms in
    let more = m ∷ passing id (m.seq_num ∷ passed) ms in
    if is_for id m
    then (if contains m.seq_num (take seq_history_size passed) then rest else more)
    else rest

abbrev pub call : ℕ → Channel → Message → Action
call id c m = invoked id c m.payload

on_channel_error-quiet :
    (id i : ℕ) (p : Participant)
    → let r = on_channel_error i err_no_dispatcher p in
      (keep_if (is_invoked id) r.0 ≡ []) × (r.1.history ≡ p.history) × (r.1.channels ≡ p.channels)
unfolding on_channel_error
on_channel_error-quiet id i p = ground arith

-- a message that is not for `id` leaves it alone
other_message :
    (id : ℕ) (m : Message) (p : Participant)
    → is_for id m ≡ false
    → let r = process_incoming (inr m) p in
      (keep_if (is_invoked id) r.1 ≡ [])
      × (r.2.history id ≡ p.history id)
      × (r.2.channels ≡ p.channels)
unfolding process_incoming
other_message id m p h = ground (
  arith,
  on_channel_error-quiet id m.id p,
  on_channel_error-quiet id m.id
      (record p { history = update p.history m.id (is_duplicate m.seq_num (p.history m.id)).1 }),
)

-- a message for `id`, which has a channel, reaches it if its number is new
own_message :
    (id : ℕ) (c : Channel) (m : Message) (p : Participant)
    → id ≢ ack_remote_id
    → p.channels id ≡ some c
    → is_for id m ≡ true
    → let r = process_incoming (inr m) p in
      (keep_if (is_invoked id) r.1
        ≡ (if (is_duplicate m.seq_num (p.history id)).0 then [] else call id c m ∷ []))
      × (r.2.history id ≡ (is_duplicate m.seq_num (p.history id)).1)
      × (r.2.channels ≡ p.channels)
unfolding process_incoming
own_message id c m p a e h = ground arith

passing-invocations :
    (id : ℕ) (c : Channel) (ms : List Message) (p : Participant) (passed : List ℕ)
    → id ≢ ack_remote_id
    → p.channels id ≡ some c
    → Shows seq_history_size passed (p.history id)
    → invocations id p ms ≡ map (call id c) (passing id passed ms)
unfolding invocations passing
passing-invocations id c [] p passed a e w = refl
passing-invocations id c (m ∷ ms) p passed a e w =
    let q = (process_incoming (inr m) p).2 in
    elim (Bool-cases (is_for id m)) [
      | inr other ↦
          let (quiet, same, chans) = other_message id m p other in
          rw (other, quiet)
            (passing-invocations id c ms q passed a (ap (λ f. f id) chans ∙ e)
              (subst (Shows seq_history_size passed) (sym same) w))
      | inl own ↦
          let (calls, hist, chans) = own_message id c m p a e own in
          elim (Bool-cases (contains m.seq_num (take seq_history_size passed))) [
            | inl old ↦
                let d = is_duplicate-old seq_history_size m.seq_num passed (p.history id) w old in
                rw (own, old, calls, d)
                  (passing-invocations id c ms q passed a (ap (λ f. f id) chans ∙ e)
                    (subst (Shows seq_history_size passed) (sym (hist ∙ ap (λ r. r.1) d)) w))
            | inr new ↦
                let d = is_duplicate-new seq_history_size m.seq_num passed (p.history id) w new in
                rw (own, new, calls, d)
                  (ap (λ l. call id c m ∷ l)
                    (passing-invocations id c ms q (m.seq_num ∷ passed) a (ap (λ f. f id) chans ∙ e)
                      (subst (Shows seq_history_size (m.seq_num ∷ passed))
                        (sym (hist ∙ ap (λ r. r.1) d))
                        (Shows-write 7 m.seq_num passed (p.history id) w))))
          ]
    ]

-- Messages of any nodes received one after the other, by a participant that has a channel for an id
-- that is not the one of acknowledgements, and an empty filter for it: the channel is invoked, in order,
-- for those with the marker and the id whose number is not among the last eight that passed.
pub invocations-passing :
    (id : ℕ) (c : Channel) (ms : List Message) (p : Participant)
    → id ≢ ack_remote_id
    → p.channels id ≡ some c
    → p.history id ≡ new_history seq_history_size
    → invocations id p ms ≡ map (call id c) (passing id [] ms)
invocations-passing id c ms p a e h =
    passing-invocations id c ms p [] a e
      (subst (Shows seq_history_size []) (sym h) (new_history-Shows 7))
