-- ===== src/DataBus/Typed/Steps.antt =====
-- Type safety of DelegateMQ/extras/databus/DataBus.h over all its operations.
use async_duck_db.Common.{
  ℕ, ◌≡◌, refl, Bool, true, not, ◌==◌, List, [], ◌∷◌, Option, none, some, update, arith, ltb,
  length, ◌++◌, keep_if, ◌⊎◌, inr, inl,
}
use async_duck_db.DataBus.Latch.{Latch}
use async_duck_db.DataBus.Participant.{
  Participant, new_participant, Message, process_incoming, register_handler, add_remote_topic,
  is_type, enable_continuous_errors, reset_errors, on_channel_error, channel_type,
}
use async_duck_db.DataBus.Bus.{TopicSignal, World, QoS, new_bus, set_signal, max_participants}
use async_duck_db.DataBus.Publish.{publish, is_some, signal_type, set_node}
use async_duck_db.DataBus.Registry.{
  subscribe, disconnect, last_value_cache, register_serializer, register_stringifier, monitor,
  add_participant, remove_participant, enable_continuous, for_each, reset,
}
use async_duck_db.DataBus.Typed.{IsTyped, AllRight, Agrees, NodeTyped}
use async_duck_db.DataBus.Typed.Sending.{set_node-IsTyped, with_latch}
use async_duck_db.DataBus.Typed.Publishing.{
  publish-Sound, mismatched-Sound, if-Sound, set_signal-IsTyped,
}
use async_duck_db.DataBus.Typed.Subscribing.{
  subscribe-Sound, enter_type-IsTyped, enable_cache-IsTyped,
}

-- what an incoming message does to a participant leaves its channels alone
process_incoming-NodeTyped :
    (m : ℕ ⊎ Message) (p : Participant) → NodeTyped p → NodeTyped (process_incoming m p).2
unfolding process_incoming on_channel_error
process_incoming-NodeTyped (inl code) p n = n
process_incoming-NodeTyped (inr m) p n = λ id. ground (arith, n id)

register_handler-NodeTyped :
    (id type func : ℕ) (p : Participant)
    → NodeTyped p
    → (register_handler id type func p).0 ≡ true
    → NodeTyped (register_handler id type func p).1
unfolding register_handler
register_handler-NodeTyped id type func p n h = λ i. ground (arith, n i, n id)

own_channel_type : (T : ℕ) (o : Option ℕ) → is_type T o ≡ true → channel_type T o ≡ T
own_channel_type T none h = refl
own_channel_type T (some x) h = ground arith

module _ {V : Type 0} (type_of : V → ℕ) where
  disconnect-IsTyped :
      (topic connection : ℕ) (w : World V)
      → IsTyped type_of w
      → IsTyped type_of (disconnect topic connection w)
  unfolding disconnect
  disconnect-IsTyped topic connection w i = cut (w.bus.signals topic) (i.of_signal topic)
    where
      cut :
          (o : Option (TopicSignal V))
          → Agrees (signal_type o) (w.bus.type_indices topic)
          → IsTyped type_of (elim o [
            | none ↦ w
            | some t ↦
                set_signal topic
                  (record t { slots = keep_if (λ s. not (s.connection == connection)) t.slots })
                  w
          ])
      cut none a = i
      cut (some t) a = set_signal-IsTyped type_of topic _ w i a

  -- the type of a topic that has just been entered
  entered :
      (T topic t : ℕ) (o types : ℕ → Option ℕ)
      → ((t : ℕ) → Agrees (o t) (types t))
      → is_type T (types topic) ≡ true
      → Agrees
          (update o topic (some T) t)
          (update types topic (some (channel_type T (types topic))) t)
  entered T topic t o types a h =
      let own = own_channel_type T (types topic) h in ground (arith, a t, own)

  register_serializer-IsTyped :
      (T topic : ℕ) (w : World V)
      → IsTyped type_of w
      → IsTyped type_of (register_serializer T topic w).2
  unfolding register_serializer
  register_serializer-IsTyped T topic w i =
      (if-Sound type_of (is_type T (w.bus.type_indices topic)) _ _
        (λ h. (
          tt,
          (let j = enter_type-IsTyped type_of T topic w i in
              record {
                of_signal = j.of_signal;
                of_serializer =
                    λ t. entered T topic t w.bus.serializers w.bus.type_indices i.of_serializer h;
                of_stringifier = j.of_stringifier;
                of_value = j.of_value;
                of_cache = j.of_cache;
                of_node = j.of_node;
              }),
        ))
        (λ f. mismatched-Sound type_of topic w i)).1

  register_stringifier-IsTyped :
      (T topic : ℕ) (w : World V)
      → IsTyped type_of w
      → IsTyped type_of (register_stringifier T topic w).2
  unfolding register_stringifier
  register_stringifier-IsTyped T topic w i =
      (if-Sound type_of (is_type T (w.bus.type_indices topic)) _ _
        (λ h. (
          tt,
          (let j = enter_type-IsTyped type_of T topic w i in
              record {
                of_signal = j.of_signal;
                of_serializer = j.of_serializer;
                of_stringifier =
                    λ t. entered T topic t w.bus.stringifiers w.bus.type_indices i.of_stringifier h;
                of_value = j.of_value;
                of_cache = j.of_cache;
                of_node = j.of_node;
              }),
        ))
        (λ f. mismatched-Sound type_of topic w i)).1

  -- other participants with the same channels
  with_nodes :
      (nodes : ℕ → Participant) (w : World V)
      → IsTyped type_of w
      → ((p : ℕ) → NodeTyped (nodes p))
      → IsTyped type_of (record w { nodes = nodes })
  with_nodes nodes w i n = record {
    of_signal = i.of_signal;
    of_serializer = i.of_serializer;
    of_stringifier = i.of_stringifier;
    of_value = i.of_value;
    of_cache = i.of_cache;
    of_node = n;
  }

  for_each-NodeTyped :
      (f : Participant → Participant) (ps : List ℕ) (nodes : ℕ → Participant)
      → ((p : Participant) → NodeTyped p → NodeTyped (f p))
      → ((p : ℕ) → NodeTyped (nodes p))
      → (p : ℕ) → NodeTyped (for_each f ps nodes p)
  for_each-NodeTyped f [] nodes k n = n
  for_each-NodeTyped f (q ∷ ps) nodes k n =
      for_each-NodeTyped f ps (update nodes q (f (nodes q))) k
        (λ p id. ground (arith, n p id, k (nodes q) (n q) id))

  -- what has no types: the latch, the participants of the bus and the monitors
  with_rest :
      (l : Latch) (ps ms : List ℕ) (w : World V)
      → IsTyped type_of w
      → IsTyped type_of
          (record w { bus = record w.bus { latch = l; participants = ps; monitors = ms } })
  with_rest l ps ms w i = record {
    of_signal = i.of_signal;
    of_serializer = i.of_serializer;
    of_stringifier = i.of_stringifier;
    of_value = i.of_value;
    of_cache = i.of_cache;
    of_node = i.of_node;
  }

  add_participant-IsTyped :
      (p : ℕ) (w : World V) → IsTyped type_of w → IsTyped type_of (add_participant p w).2
  unfolding add_participant
  add_participant-IsTyped p w i =
      (if-Sound type_of (ltb (length w.bus.participants) max_participants) _ _
        (λ h. (
          tt,
          set_node-IsTyped type_of p _ _
              (with_rest w.bus.latch (w.bus.participants ++ (p ∷ [])) w.bus.monitors w i)
              (i.of_node p),
        ))
        (λ f. (tt, i))).1

  reset-IsTyped : (w : World V) → IsTyped type_of w → IsTyped type_of (reset w)
  unfolding reset
  reset-IsTyped w i = record {
    of_signal = λ t. tt;
    of_serializer = λ t. tt;
    of_stringifier = λ t. tt;
    of_value = λ t. tt;
    of_cache = λ t h. cc;
    of_node = for_each-NodeTyped reset_errors w.bus.participants w.nodes (λ p n. n) i.of_node;
  }

  -- An operation on the bus or on a participant. The cache of last values is switched on by hand only
  -- for a topic that has a type.
  pub data Step (w : World V) : World V → Type 0 where
    published :
        (now : ℕ) (local_only : Bool) (topic : ℕ) (v : V)
        → Step w (publish type_of now local_only topic v w).2
    subscribed :
        (T now topic handler : ℕ) (accepts : V → Bool) (thread : Option ℕ) (qos : QoS)
        → Step w (subscribe type_of T now topic handler accepts thread qos w).2
    disconnected : (topic connection : ℕ) → Step w (disconnect topic connection w)
    cached :
        (topic : ℕ) (enabled : Bool)
        → (enabled ≡ true → is_some (w.bus.type_indices topic) ≡ true)
        → Step w (last_value_cache topic enabled w)
    with_serializer : (T topic : ℕ) → Step w (register_serializer T topic w).2
    with_stringifier : (T topic : ℕ) → Step w (register_stringifier T topic w).2
    monitored : (handler : ℕ) → Step w (monitor handler w)
    with_participant : (p : ℕ) → Step w (add_participant p w).2
    without_participant : (p : ℕ) → Step w (remove_participant p w)
    continuous : (enable : Bool) → Step w (enable_continuous enable w)
    was_reset : Step w (reset w)
    with_topic : (p topic id : ℕ) → Step w (set_node p (add_remote_topic topic id (w.nodes p)) w)
    with_handler :
        (p id type func : ℕ)
        → (register_handler id type func (w.nodes p)).0 ≡ true
        → Step w (set_node p (register_handler id type func (w.nodes p)).1 w)
    received : (p : ℕ) (m : ℕ ⊎ Message) → Step w (set_node p (process_incoming m (w.nodes p)).2 w)

  Step-IsTyped : {w u : World V} → Step w u → IsTyped type_of w → IsTyped type_of u
  unfolding remove_participant enable_continuous
  Step-IsTyped {w} (published now local_only topic v) i =
      (publish-Sound type_of now local_only topic v w i).1
  Step-IsTyped {w} (subscribed T now topic handler accepts thread qos) i =
      (subscribe-Sound type_of T now topic handler accepts thread qos w i).1
  Step-IsTyped {w} (disconnected topic connection) i = disconnect-IsTyped topic connection w i
  Step-IsTyped {w} (cached topic enabled h) i = enable_cache-IsTyped type_of topic enabled w i h
  Step-IsTyped {w} (with_serializer T topic) i = register_serializer-IsTyped T topic w i
  Step-IsTyped {w} (with_stringifier T topic) i = register_stringifier-IsTyped T topic w i
  Step-IsTyped {w} (monitored handler) i = with_rest w.bus.latch w.bus.participants _ w i
  Step-IsTyped {w} (with_participant p) i = add_participant-IsTyped p w i
  Step-IsTyped {w} (without_participant p) i = with_rest w.bus.latch _ w.bus.monitors w i
  Step-IsTyped {w} (continuous enable) i = with_nodes _ _ (with_latch type_of _ w i) (
      for_each-NodeTyped (enable_continuous_errors enable) w.bus.participants w.nodes (λ p n. n)
        i.of_node)
  Step-IsTyped {w} was_reset i = reset-IsTyped w i
  Step-IsTyped {w} (with_topic p topic id) i = set_node-IsTyped type_of p _ w i (i.of_node p)
  Step-IsTyped {w} (with_handler p id type func h) i =
      set_node-IsTyped type_of p _ w i (register_handler-NodeTyped id type func _ (i.of_node p) h)
  Step-IsTyped {w} (received p m) i =
      set_node-IsTyped type_of p _ w i (process_incoming-NodeTyped m _ (i.of_node p))

  pub data Reachable : World V → Type 0 where
    at_start : Reachable (record { bus = new_bus; nodes = λ p. new_participant })
    stepped : {w u : World V} → Reachable w → Step w u → Reachable u

  start-IsTyped : IsTyped type_of (record { bus = new_bus; nodes = λ p. new_participant })
  start-IsTyped = record {
    of_signal = λ t. tt;
    of_serializer = λ t. tt;
    of_stringifier = λ t. tt;
    of_value = λ t. tt;
    of_cache = λ t h. cc;
    of_node = λ p id. refl;
  }

  Reachable-IsTyped : {w : World V} → Reachable w → IsTyped type_of w
  Reachable-IsTyped at_start = start-IsTyped
  Reachable-IsTyped (stepped r s) = Step-IsTyped s (Reachable-IsTyped r)

  -- After any operations on a new bus and its participants, where the last value cache is switched on by
  -- hand only for topics that have a type, and no handler of a wrong type is registered: every cast
  -- without a check that a further `Publish` or `Subscribe` makes is to the type for which the object was
  -- made.
  pub Reachable-AllRight :
      (w : World V)
      → Reachable w
      → (now T topic handler : ℕ) (local_only : Bool) (v : V) (accepts : V → Bool)
        (thread : Option ℕ) (qos : QoS)
      → AllRight type_of (publish type_of now local_only topic v w).0
        × AllRight type_of (subscribe type_of T now topic handler accepts thread qos w).0
  Reachable-AllRight w r now T topic handler local_only v accepts thread qos =
      let i = Reachable-IsTyped r in
      (
        (publish-Sound type_of now local_only topic v w i).0,
        (subscribe-Sound type_of T now topic handler accepts thread qos w i).0,
      )
