-- ===== src/DataBus/Publish.antt =====
-- `InternalPublish` of DelegateMQ/extras/databus/DataBus.h, and `Send` of Participant.h, which it calls.
-- `type_of` is the type of a value, and the time is in microseconds.
use async_duck_db.Common.{
  ℕ, Bool, true, false, ◌&&◌, not, if◌then◌else◌, List, [], ◌∷◌, ◌++◌, Option, none, some, update,
  keep_if, is_empty,
}
use async_duck_db.DataBus.Latch.{err_no_serializer, named}
use async_duck_db.DataBus.Participant.{
  Participant, Action, fired, invoked, get_remote_id, get_or_create_channel, Found, channel,
  mismatch, is_type,
}
use async_duck_db.DataBus.Bus.{
  TopicSignal, World, Effect, cast, spied, sent, queued_send, unhandled, returned, faulted, Run,
  after, followed, report_latched_error, mismatched, signal_slots, set_signal,
}

abbrev pub is_some {ℓ} : {A : Type ℓ} → Option A → Bool
is_some none = false
is_some (some a) = true

module _ {V : Type 0} where
  -- The error signal of a participant of the bus is connected to the bus.
  abbrev pub forward : List Action → World V → List (Effect V) × World V
  forward [] w = ([], w)
  forward (fired t e ∷ acts) w =
      let r = report_latched_error t e w in let rest = forward acts r.1 in (r.0 ++ rest.0, rest.1)
  forward (invoked i c x ∷ acts) w = forward acts w

  abbrev pub set_node : ℕ → Participant → World V → World V
  set_node p part w = record w { nodes = update w.nodes p part }

  abbrev pub transmit : ℕ → ℕ → V → Option ℕ → Effect V
  transmit p id v none = sent p id v
  transmit p id v (some t) = queued_send t p id v

  -- `Send` once it has its channel, which is cast to the type of the value
  abbrev pub send_on : ℕ → ℕ → ℕ → V → Found × List Action × Participant → World V → Run V
  send_on T p id v (channel c, acts, part) w =
      (cast c.type_index T ∷ transmit p id v part.send_thread ∷ [], returned, set_node p part w)
  send_on T p id v (mismatch, acts, part) w =
      let (es, w') = forward acts (set_node p part w) in (es, faulted, w')

  -- `Participant::Send`
  unfoldable pub send : ℕ → ℕ → V → ℕ → World V → Run V
  send T topic v p w = elim (get_remote_id topic (w.nodes p)) [
    | none ↦ ([], returned, w)
    | some id ↦ send_on T p id v (get_or_create_channel id T (w.nodes p)) w
  ]

  unfoldable pub send_all : ℕ → ℕ → V → List ℕ → World V → Run V
  send_all T topic v [] w = ([], returned, w)
  send_all T topic v (p ∷ ps) w = followed (send T topic v p w) (send_all T topic v ps)

  -- the participants with this topic
  abbrev pub interested : ℕ → World V → List ℕ
  interested topic w = keep_if (λ p. is_some (get_remote_id topic (w.nodes p))) w.bus.participants

  -- 8. remote distribution, with the serializer of the topic
  unfoldable pub send_remote : ℕ → ℕ → V → Option ℕ → World V → Run V
  send_remote T topic v none w =
      let (es, w') = report_latched_error (named topic) err_no_serializer w in (es, returned, w')
  send_remote T topic v (some s) w = send_all T topic v (interested topic w) w

  abbrev pub store_value : ℕ → ℕ → V → World V → World V
  store_value now topic v w = record w {
    bus = record w.bus {
      last_values = update w.bus.last_values topic (some (record { value = v; timestamp = now }));
    };
  }

  -- 2. the last value, if the topic caches it
  abbrev pub cache : ℕ → ℕ → V → World V → World V
  cache now topic v w = if w.bus.topic_qos topic then store_value now topic v w else w

  abbrev pub cast_to : ℕ → Option ℕ → List (Effect V)
  cast_to T none = []
  cast_to T (some t) = cast t T ∷ []

  abbrev pub signal_type : Option (TopicSignal V) → Option ℕ
  signal_type none = none
  signal_type (some s) = some s.type_index

  -- 3. to 6.: the casts under the lock, and what the monitors are told
  unfoldable pub prepare : ℕ → ℕ → V → World V → List (Effect V)
  prepare T topic v w =
      let spy = w.bus.stringifiers topic in
      let monitored = not (is_empty w.bus.monitors) in
      (if monitored then cast_to T spy else [])
      ++ (cast_to T (signal_type (w.bus.signals topic))
          ++ (cast_to T (w.bus.serializers topic)
              ++ (if monitored then spied topic spy v ∷ [] else [])))

  -- 7. local distribution
  unfoldable pub distribute :
      ℕ → ℕ → V → Option (TopicSignal V) → World V → List (Effect V) × World V
  unfolding signal_slots
  distribute now topic v none w = ([], w)
  distribute now topic v (some s) w =
      let r = signal_slots now v s.slots in (r.0, set_signal topic (record s { slots = r.1 }) w)

  -- 8. and 9.: the participants, and the signal for a message that no one receives
  unfoldable pub finish : ℕ → ℕ → V → Bool → World V → Run V
  unfolding send_remote
  finish T topic v local_only w =
      let remote = send_remote T topic v (w.bus.serializers topic) w in
      if not local_only && not (is_empty (interested topic w))
      then remote
      else if is_some (w.bus.signals topic)
      then ([], returned, w)
      else (unhandled topic ∷ [], returned, w)

  abbrev pub then_finish : ℕ → ℕ → V → Bool → List (Effect V) × World V → Run V
  then_finish T topic v local_only (es, w) = after es (finish T topic v local_only w)

  abbrev pub distributed : ℕ → ℕ → ℕ → V → Bool → World V → Run V
  distributed T now topic v local_only w =
      after (prepare T topic v w)
        (then_finish T topic v local_only (distribute now topic v (w.bus.signals topic) w))

module _ {V : Type 0} (type_of : V → ℕ) where
  -- `InternalPublish`; `Publish` and `PublishLocal` differ in `local_only`.
  unfoldable pub publish : ℕ → Bool → ℕ → V → World V → Run V
  unfolding distribute prepare finish
  publish now local_only topic v w =
      if is_type (type_of v) (w.bus.type_indices topic)
      then distributed (type_of v) now topic v local_only (cache now topic v w)
      else mismatched topic w
