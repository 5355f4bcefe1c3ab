-- ===== src/DataBus/Registry.antt =====
-- The operations of DelegateMQ/extras/databus/DataBus.h other than `Publish`: subscribers, participants,
-- serializers, stringifiers, the last value cache and the reset.
use async_duck_db.Common.{
  ℕ, suc, Bool, true, false, ◌&&◌, not, ◌==◌, ltb, if◌then◌else◌, List, [], ◌∷◌, ◌++◌, Option, none,
  some, update, keep_if, length, ◌-◌,
}
use async_duck_db.DataBus.Latch.{no_bits}
use async_duck_db.DataBus.Limiter.{RateLimiter, new_limiter}
use async_duck_db.DataBus.Participant.{
  Participant, is_type, channel_type, enable_continuous_errors, reset_errors,
}
use async_duck_db.DataBus.Bus.{
  Slot, TopicSignal, QoS, LvcEntry, World, Effect, cast, queued, returned, faulted, Run,
  max_participants, new_bus, mismatched, run_slot, set_signal,
}

abbrev pub limiter_of : Option ℕ → Option RateLimiter
limiter_of none = none
limiter_of (some m) = some (new_limiter m)

abbrev pub is_expired : ℕ → Option ℕ → ℕ → Bool
is_expired now none timestamp = false
is_expired now (some lifespan) timestamp = ltb lifespan (now - timestamp)

-- the first of the array that is this one, and the others moved down
abbrev pub remove_first : ℕ → List ℕ → List ℕ
remove_first p [] = []
remove_first p (q ∷ qs) = if q == p then qs else q ∷ remove_first p qs

abbrev pub for_each : (Participant → Participant) → List ℕ → (ℕ → Participant) → ℕ → Participant
for_each f [] nodes = nodes
for_each f (p ∷ ps) nodes = for_each f ps (update nodes p (f (nodes p)))

module _ {V : Type 0} where
  abbrev pub enable_cache : ℕ → World V → World V
  enable_cache topic w = record w {
    bus = record w.bus { topic_qos = update w.bus.topic_qos topic true };
  }

  -- the type of a topic, entered if it has none
  abbrev pub enter_type : ℕ → ℕ → World V → World V
  enter_type T topic w = record w {
    bus = record w.bus {
      type_indices =
          update w.bus.type_indices topic (some (channel_type T (w.bus.type_indices topic)));
    };
  }

  abbrev pub signal_of : ℕ → Option (TopicSignal V) → TopicSignal V
  signal_of T none = record { type_index = T; slots = [] }
  signal_of T (some s) = s

  abbrev pub append_slot : Slot V → TopicSignal V → TopicSignal V
  append_slot s t = record t { slots = t.slots ++ (s ∷ []) }

  -- 2. and 3.: the signal of the topic, made if there is none, with the new subscriber
  unfoldable pub connect : ℕ → ℕ → Slot V → World V → World V
  connect T topic s w =
      let w' = enter_type T topic w in
      let signal = append_slot s (signal_of T (w.bus.signals topic)) in
      record w' {
        bus = record w'.bus {
          signals = update w.bus.signals topic (some signal);
          next_connection = suc w.bus.next_connection;
        };
      }

  -- The slot of a new subscriber. A minimum separation is in milliseconds.
  abbrev pub new_slot : ℕ → (V → Bool) → Option ℕ → QoS → World V → Slot V
  new_slot handler accepts thread qos w = record {
    connection = w.bus.next_connection;
    handler = handler;
    thread = thread;
    accepts = accepts;
    limiter = limiter_of qos.min_separation;
  }

  abbrev pub last_slot : Slot V → List (Slot V) → List (Slot V)
  last_slot s [] = []
  last_slot s (x ∷ []) = s ∷ []
  last_slot s (x ∷ y ∷ ys) = x ∷ last_slot s (y ∷ ys)

  -- the limiter is shared with the slot that is connected
  abbrev pub put_slot : ℕ → Slot V → World V → World V
  put_slot topic s w = elim (w.bus.signals topic) [
    | none ↦ w
    | some t ↦ set_signal topic (record t { slots = last_slot s t.slots }) w
  ]

  -- 5. the cached value for a new subscriber, called or queued on its thread
  unfoldable pub deliver_cached : ℕ → ℕ → V → Slot V → World V → List (Effect V) × World V
  unfolding run_slot
  deliver_cached now topic v s w = elim s.thread [
    | none ↦ let r = run_slot now v s in (r.0, put_slot topic r.1 w)
    | some t ↦ (queued t s.connection v ∷ [], w)
  ]

module _ {V : Type 0} (type_of : V → ℕ) where
  -- 4. and 5.: the cast of the cached value, if there is one that is not too old
  unfoldable pub replay : ℕ → ℕ → ℕ → QoS → Slot V → Option (LvcEntry V) → World V → Run V
  unfolding deliver_cached
  replay T now topic qos s none w = ([], returned, w)
  replay T now topic qos s (some e) w =
      let r = deliver_cached now topic e.value s w in
      if qos.last_value_cache && not (is_expired now qos.lifespan e.timestamp)
      then (cast (type_of e.value) T ∷ r.0, returned, r.1)
      else ([], returned, w)

  -- `InternalSubscribe<T>`, with the predicate of `SubscribeFilter`
  unfoldable pub subscribe : ℕ → ℕ → ℕ → ℕ → (V → Bool) → Option ℕ → QoS → World V → Run V
  unfolding connect replay
  subscribe T now topic handler accepts thread qos w =
      let w' = if qos.last_value_cache then enable_cache topic w else w in
      let s = new_slot handler accepts thread qos w in
      let rest = replay T now topic qos s (w.bus.last_values topic) (connect T topic s w') in
      let found = (signal_of T (w.bus.signals topic)).type_index in
      if is_type T (w.bus.type_indices topic)
      then (cast found T ∷ rest.0, rest.1, rest.2)
      else mismatched topic w'

module _ {V : Type 0} where
  -- a `ScopedConnection` of a topic's signal that is dropped
  unfoldable pub disconnect : ℕ → ℕ → World V → World V
  disconnect topic connection w = elim (w.bus.signals topic) [
    | none ↦ w
    | some t ↦
        set_signal topic
          (record t { slots = keep_if (λ s. not (s.connection == connection)) t.slots }) w
  ]

  -- `LastValueCache`
  abbrev pub last_value_cache : ℕ → Bool → World V → World V
  last_value_cache topic enabled w = record w {
    bus = record w.bus { topic_qos = update w.bus.topic_qos topic enabled };
  }

  -- `InternalRegisterSerializer<T>`
  unfoldable pub register_serializer : ℕ → ℕ → World V → Run V
  register_serializer T topic w =
      let w' = enter_type T topic w in
      if is_type T (w.bus.type_indices topic)
      then (
        [],
        returned,
        record w' { bus = record w'.bus { serializers = update w.bus.serializers topic (some T) } },
      )
      else mismatched topic w

  -- `InternalRegisterStringifier<T>`
  unfoldable pub register_stringifier : ℕ → ℕ → World V → Run V
  register_stringifier T topic w =
      let w' = enter_type T topic w in
      if is_type T (w.bus.type_indices topic)
      then (
        [],
        returned,
        record w' {
          bus = record w'.bus { stringifiers = update w.bus.stringifiers topic (some T) };
        },
      )
      else mismatched topic w

  -- `Monitor`, without a thread
  abbrev pub monitor : ℕ → World V → World V
  monitor handler w = record w {
    bus = record w.bus { monitors = w.bus.monitors ++ (handler ∷ []) };
  }

  -- `InternalAddParticipant`
  unfoldable pub add_participant : ℕ → World V → Run V
  add_participant p w =
      if ltb (length w.bus.participants) max_participants
      then (
        [],
        returned,
        record w {
          bus = record w.bus { participants = w.bus.participants ++ (p ∷ []) };
          nodes =
              update w.nodes p (enable_continuous_errors w.bus.latch.continuous_errors (w.nodes p));
        },
      )
      else ([], faulted, w)

  -- `InternalRemoveParticipant`
  unfoldable pub remove_participant : ℕ → World V → World V
  remove_participant p w = record w {
    bus = record w.bus { participants = remove_first p w.bus.participants };
  }

  -- `InternalEnableContinuousErrors`
  unfoldable pub enable_continuous : Bool → World V → World V
  enable_continuous enable w = record w {
    bus = record w.bus { latch = record w.bus.latch { continuous_errors = enable } };
    nodes = for_each (enable_continuous_errors enable) w.bus.participants w.nodes;
  }

  -- `InternalReset`, which keeps the mode of the errors
  unfoldable pub reset : World V → World V
  reset w = record w {
    bus = record (new_bus {V = V}) {
      latch = record w.bus.latch { reported_errors = no_bits };
      next_connection = w.bus.next_connection;
    };
    nodes = for_each reset_errors w.bus.participants w.nodes;
  }
