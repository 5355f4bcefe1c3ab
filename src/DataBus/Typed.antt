-- ===== src/DataBus/Typed.antt =====
-- The casts that DelegateMQ/extras/databus/DataBus.h makes without a check.
pub mod Sending
pub mod Publishing
pub mod Subscribing
pub mod Steps
use async_duck_db.Common.{
  ℕ, ◌≡◌, refl, ap, sym, ◌∙◌, Bool, true, false, ◌&&◌, not, ◌==◌, if◌then◌else◌, List, [], ◌∷◌,
  ◌++◌, Option, none, some, update, arith, All, All-append, Bool-cases, inl, inr, Option-cases,
  is_empty, keep_if,
}
use async_duck_db.DataBus.Latch.{DelegateError, Topic, Latch}
use async_duck_db.DataBus.Participant.{
  Participant, Channel, Action, fired, invoked, Found, channel, mismatch, get_or_create_channel,
  on_channel_error, is_type,
}
use async_duck_db.DataBus.Bus.{
  Slot, TopicSignal, LvcEntry, DataBus, World, Effect, cast, spied, called, queued, sent,
  queued_send, error, unhandled, Run, after, followed, report_latched_error, signal_slots,
  signal_slot, run_slot, set_signal,
}
use async_duck_db.DataBus.Publish.{
  cast_to, signal_type, prepare, send, send_all, send_on, forward, is_some, set_node,
}

-- an object that was made for a type, against the type of its topic
abbrev pub Agrees : Option ℕ → Option ℕ → Type 0
Agrees none t = Unit
Agrees (some a) t = t ≡ some a

abbrev pub channel_index : Option Channel → Option ℕ
channel_index none = none
channel_index (some c) = some c.type_index

abbrev pub NodeTyped : Participant → Type 0
NodeTyped p = (id : ℕ) → p.channel_types id ≡ channel_index (p.channels id)

module _ {V : Type 0} (type_of : V → ℕ) where
  abbrev pub value_type : Option (LvcEntry V) → Option ℕ
  value_type none = none
  value_type (some e) = some (type_of e.value)

  -- Whatever is kept for a topic was made for the topic's type, and only a topic with a type has a
  -- last value cached.
  pub record IsTyped (w : World V) : Type 0 where
    pub of_signal : (t : ℕ) → Agrees (signal_type (w.bus.signals t)) (w.bus.type_indices t)
    pub of_serializer : (t : ℕ) → Agrees (w.bus.serializers t) (w.bus.type_indices t)
    pub of_stringifier : (t : ℕ) → Agrees (w.bus.stringifiers t) (w.bus.type_indices t)
    pub of_value : (t : ℕ) → Agrees (value_type (w.bus.last_values t)) (w.bus.type_indices t)
    pub of_cache : (t : ℕ) → w.bus.topic_qos t ≡ true → is_some (w.bus.type_indices t) ≡ true
    pub of_node : (p : ℕ) → NodeTyped (w.nodes p)

  -- a cast to the type that the object was made for
  abbrev pub IsRight : Effect V → Type 0
  IsRight (cast from to) = from ≡ to
  IsRight (spied t s v) = Unit
  IsRight (called h v) = Unit
  IsRight (queued t c v) = Unit
  IsRight (sent p id v) = Unit
  IsRight (queued_send t p id v) = Unit
  IsRight (error t e) = Unit
  IsRight (unhandled t) = Unit

  abbrev pub AllRight : List (Effect V) → Type 0
  AllRight = All IsRight

  pub AllRight-append : (es fs : List (Effect V)) → AllRight es → AllRight fs → AllRight (es ++ fs)
  AllRight-append = All-append IsRight

  pub cast_to-AllRight :
      (T : ℕ) (o t : Option ℕ) → Agrees o t → is_type T t ≡ true → AllRight (cast_to T o)
  cast_to-AllRight T none t a h = tt
  cast_to-AllRight T (some x) none a h = cc
  cast_to-AllRight T (some x) (some y) a h = ground arith

  pub prepare-AllRight :
      (T topic : ℕ) (v : V) (w : World V)
      → IsTyped w
      → is_type T (w.bus.type_indices topic) ≡ true
      → AllRight (prepare T topic v w)
  unfolding prepare
  prepare-AllRight T topic v w i h =
      let t = w.bus.type_indices topic in
      let spy = cast_to-AllRight T (w.bus.stringifiers topic) t (i.of_stringifier topic) h in
      let signal = cast_to-AllRight T (signal_type (w.bus.signals topic)) t (i.of_signal topic) h in
      let serializer = cast_to-AllRight T (w.bus.serializers topic) t (i.of_serializer topic) h in
      AllRight-append _ _ (monitored (not (is_empty w.bus.monitors)) _ spy) (
        AllRight-append _ _ signal
          (AllRight-append _ _ serializer (spying (not (is_empty w.bus.monitors)))))
    where
      monitored : (b : Bool) (es : List (Effect V)) → AllRight es → AllRight (if b then es else [])
      monitored true es r = r
      monitored false es r = tt

      spying :
          (b : Bool) → AllRight (if b then spied topic (w.bus.stringifiers topic) v ∷ [] else [])
      spying true = (tt, tt)
      spying false = tt

  pub run_slot-AllRight : (now : ℕ) (v : V) (s : Slot V) → AllRight (run_slot now v s).0
  unfolding run_slot
  run_slot-AllRight now v s = ground arith

  signal_slot-AllRight : (now : ℕ) (v : V) (s : Slot V) → AllRight (signal_slot now v s).0
  unfolding signal_slot run_slot
  signal_slot-AllRight now v s = ground arith

  pub signal_slots-AllRight :
      (now : ℕ) (v : V) (ss : List (Slot V)) → AllRight (signal_slots now v ss).0
  unfolding signal_slots
  signal_slots-AllRight now v [] = tt
  signal_slots-AllRight now v (s ∷ ss) =
      AllRight-append _ _ (signal_slot-AllRight now v s) (signal_slots-AllRight now v ss)
