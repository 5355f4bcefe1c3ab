-- ===== src/DataBus/Typed/Subscribing.antt =====
-- Types in `InternalSubscribe` of DelegateMQ/extras/databus/DataBus.h.
use async_duck_db.Common.{
  ℕ, ◌≡◌, refl, ap, ◌∙◌, Bool, true, false, ◌&&◌, not, if◌then◌else◌, [], ◌∷◌, Option, none, some,
  update, update_self, arith,
}
use async_duck_db.DataBus.Participant.{is_type, channel_type}
use async_duck_db.DataBus.Bus.{
  Slot, TopicSignal, LvcEntry, QoS, World, set_signal, run_slot, queued,
}
use async_duck_db.DataBus.Publish.{is_some, signal_type}
use async_duck_db.DataBus.Registry.{
  subscribe, connect, replay, deliver_cached, put_slot, last_slot, new_slot, enable_cache,
  enter_type, signal_of, is_expired, append_slot, last_value_cache,
}
use async_duck_db.DataBus.Typed.{IsTyped, Agrees, value_type, run_slot-AllRight}
use async_duck_db.DataBus.Typed.Sending.{Sound, SoundPair}
use async_duck_db.DataBus.Typed.Publishing.{mismatched-Sound, if-Sound, set_signal-IsTyped}

module _ {V : Type 0} (type_of : V → ℕ) where
  -- what is kept for a topic agrees with its type also after the type has been entered
  Agrees-enter : (T : ℕ) (o t : Option ℕ) → Agrees o t → Agrees o (some (channel_type T t))
  Agrees-enter T none t a = tt
  Agrees-enter T (some x) none a = cc
  Agrees-enter T (some x) (some y) a = a

  Agrees-at :
      (T topic k : ℕ) (o : ℕ → Option ℕ) (types : ℕ → Option ℕ)
      → ((t : ℕ) → Agrees (o t) (types t))
      → Agrees (o k) (update types topic (some (channel_type T (types topic))) k)
  Agrees-at T topic k o types a =
      ground (arith, a k, Agrees-enter T (o topic) (types topic) (a topic))

  pub enter_type-IsTyped :
      (T topic : ℕ) (w : World V) → IsTyped type_of w → IsTyped type_of (enter_type T topic w)
  enter_type-IsTyped T topic w i = record {
    of_signal = λ k.
        Agrees-at T topic k (λ t. signal_type (w.bus.signals t)) w.bus.type_indices i.of_signal;
    of_serializer = λ k. Agrees-at T topic k w.bus.serializers w.bus.type_indices i.of_serializer;
    of_stringifier =
        λ k. Agrees-at T topic k w.bus.stringifiers w.bus.type_indices i.of_stringifier;
    of_value = λ k.
        Agrees-at T topic k (λ t. value_type type_of (w.bus.last_values t)) w.bus.type_indices
          i.of_value;
    of_cache = λ k h. ground (arith, i.of_cache k h);
    of_node = i.of_node;
  }

  -- the signal that the type check lets a subscriber have
  signal_of-type :
      (T : ℕ) (o : Option (TopicSignal V)) (t : Option ℕ)
      → Agrees (signal_type o) t
      → is_type T t ≡ true
      → (some (channel_type T t) ≡ some (signal_of T o).type_index)
        × ((signal_of T o).type_index ≡ T)
  signal_of-type T none none a h = (refl, refl)
  signal_of-type T none (some y) a h = ground arith
  signal_of-type T (some s) none a h = cc
  signal_of-type T (some s) (some y) a h = ground arith

  connect-IsTyped :
      (T topic : ℕ) (s : Slot V) (w : World V)
      → IsTyped type_of w
      → is_type T (w.bus.type_indices topic) ≡ true
      → IsTyped type_of (connect T topic s w)
  unfolding connect
  connect-IsTyped T topic s w i h =
      let j = enter_type-IsTyped T topic w i in
      let signal = append_slot s (signal_of T (w.bus.signals topic)) in
      let k = set_signal-IsTyped type_of topic signal (enter_type T topic w) j (
        update_self w.bus.type_indices topic (some (channel_type T (w.bus.type_indices topic)))
        ∙ (signal_of-type T (w.bus.signals topic) (w.bus.type_indices topic) (i.of_signal topic)
            h).0) in
      record {
        of_signal = k.of_signal;
        of_serializer = k.of_serializer;
        of_stringifier = k.of_stringifier;
        of_value = k.of_value;
        of_cache = k.of_cache;
        of_node = k.of_node;
      }

  pub enable_cache-IsTyped :
      (topic : ℕ) (enabled : Bool) (w : World V)
      → IsTyped type_of w
      → (enabled ≡ true → is_some (w.bus.type_indices topic) ≡ true)
      → IsTyped type_of (last_value_cache topic enabled w)
  enable_cache-IsTyped topic enabled w i e = record {
    of_signal = i.of_signal;
    of_serializer = i.of_serializer;
    of_stringifier = i.of_stringifier;
    of_value = i.of_value;
    of_cache = λ t h. ground (arith, i.of_cache t, e);
    of_node = i.of_node;
  }

  put_slot-IsTyped :
      (topic : ℕ) (s : Slot V) (w : World V)
      → IsTyped type_of w
      → IsTyped type_of (put_slot topic s w)
  put_slot-IsTyped topic s w i = puts (w.bus.signals topic) (i.of_signal topic)
    where
      puts :
          (o : Option (TopicSignal V))
          → Agrees (signal_type o) (w.bus.type_indices topic)
          → IsTyped type_of (elim o [
            | none ↦ w
            | some t ↦ set_signal topic (record t { slots = last_slot s t.slots }) w
          ])
      puts none a = i
      puts (some t) a = set_signal-IsTyped type_of topic _ w i a

  deliver_cached-SoundPair :
      (now topic : ℕ) (v : V) (s : Slot V) (w : World V)
      → IsTyped type_of w
      → SoundPair type_of (deliver_cached now topic v s w)
  unfolding deliver_cached
  deliver_cached-SoundPair now topic v s w i = delivers s.thread
    where
      delivers :
          (o : Option ℕ)
          → SoundPair type_of (elim o [
            | none ↦ ((run_slot now v s).0, put_slot topic (run_slot now v s).1 w)
            | some t ↦ (queued t s.connection v ∷ [], w)
          ])
      delivers none = (run_slot-AllRight type_of now v s, put_slot-IsTyped topic _ w i)
      delivers (some t) = ((tt, tt), i)

  replay-Sound :
      (T now topic : ℕ) (qos : QoS) (s : Slot V) (o : Option (LvcEntry V)) (t : Option ℕ)
      (w : World V)
      → IsTyped type_of w
      → Agrees (value_type type_of o) t
      → is_type T t ≡ true
      → Sound type_of (replay type_of T now topic qos s o w)
  unfolding replay
  replay-Sound T now topic qos s none t w i a h = (tt, i)
  replay-Sound T now topic qos s (some e) none w i a h = cc
  replay-Sound T now topic qos s (some e) (some y) w i a h =
      let d = deliver_cached-SoundPair now topic e.value s w i in
      let same : type_of e.value ≡ T = ground arith in
      if-Sound type_of (qos.last_value_cache && not (is_expired now qos.lifespan e.timestamp)) _ _
        (λ p. ((same, d.0), d.1)) (λ p. (tt, i))

  connected-IsTyped :
      (T topic : ℕ) (b : Bool) (s : Slot V) (w : World V)
      → IsTyped type_of w
      → is_type T (w.bus.type_indices topic) ≡ true
      → IsTyped type_of (connect T topic s (if b then enable_cache topic w else w))
  unfolding connect
  connected-IsTyped T topic false s w i h = connect-IsTyped T topic s w i h
  connected-IsTyped T topic true s w i h =
      enable_cache-IsTyped topic true (connect T topic s w) (connect-IsTyped T topic s w i h) (λ p.
        ap is_some
          (update_self w.bus.type_indices topic (some (channel_type T (w.bus.type_indices topic)))))

  -- Subscribing is sound, also when it ends in the fault handler.
  pub subscribe-Sound :
      (T now topic handler : ℕ) (accepts : V → Bool) (thread : Option ℕ) (qos : QoS) (w : World V)
      → IsTyped type_of w
      → Sound type_of (subscribe type_of T now topic handler accepts thread qos w)
  unfolding subscribe
  subscribe-Sound T now topic handler accepts thread qos w i =
      if-Sound type_of (is_type T (w.bus.type_indices topic)) _ _
        (λ h.
          let r =
            replay-Sound T now topic qos s (w.bus.last_values topic) (w.bus.type_indices topic) _
              (connected-IsTyped T topic qos.last_value_cache s w i h) (i.of_value topic) h in
          (
            (
              (signal_of-type T (w.bus.signals topic) (w.bus.type_indices topic) (i.of_signal topic)
                  h).1,
              r.0,
            ),
            r.1,
          ))
        (λ f. mismatched-Sound type_of topic _ (enabled qos.last_value_cache f))
    where
      s : Slot V
      s = new_slot handler accepts thread qos w

      enabled :
          (b : Bool)
          → is_type T (w.bus.type_indices topic) ≡ false
          → IsTyped type_of (if b then enable_cache topic w else w)
      enabled false f = i
      enabled true f = enable_cache-IsTyped topic true w i (λ p. ground arith)
