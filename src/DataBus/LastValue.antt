-- ===== src/DataBus/LastValue.antt =====
-- The last value cache of DelegateMQ/extras/databus/DataBus.h.
use async_duck_db.Common.{
  ℕ, ◌≡◌, ◌≢◌, refl, ap, sym, ◌∙◌, Bool, true, false, if◌then◌else◌, [], ◌∷◌, Option, none, some,
  update_self, subst,
}
use async_duck_db.DataBus.Participant.{is_type}
use async_duck_db.DataBus.Bus.{TopicSignal, QoS, World, cast, called, run_slot}
use async_duck_db.DataBus.Publish.{publish, distribute, distributed, cache, store_value}
use async_duck_db.DataBus.Registry.{
  subscribe, connect, replay, deliver_cached, new_slot, is_expired, last_value_cache, enable_cache,
  signal_of,
}
use async_duck_db.DataBus.Quiet.{calls, finish-IsQuiet}
use async_duck_db.DataBus.Typed.{AllRight}

abbrev pub caching : Option ℕ → QoS
caching lifespan = record { last_value_cache = true; lifespan = lifespan; min_separation = none }

module _ {V : Type 0} (type_of : V → ℕ) where
  distribute-keeps :
      (now topic : ℕ) (v : V) (o : Option (TopicSignal V)) (w : World V)
      → let u = (distribute now topic v o w).1 in
        (u.bus.last_values ≡ w.bus.last_values) × (u.bus.type_indices ≡ w.bus.type_indices)
  unfolding distribute
  distribute-keeps now topic v none w = (refl, refl)
  distribute-keeps now topic v (some s) w = (refl, refl)

  distributed-keeps :
      (T now topic : ℕ) (v : V) (local_only : Bool) (w : World V)
      → let u = (distributed T now topic v local_only w).2 in
        (u.bus.last_values ≡ w.bus.last_values) × (u.bus.type_indices ≡ w.bus.type_indices)
  distributed-keeps T now topic v local_only w =
      let d = distribute-keeps now topic v (w.bus.signals topic) w in
      let q =
        finish-IsQuiet T topic v local_only (distribute now topic v (w.bus.signals topic) w).1 in
      (q.same_values ∙ d.0, q.same_types ∙ d.1)

  cached :
      (now topic : ℕ) (v : V) (w : World V)
      → w.bus.topic_qos topic ≡ true
      → ((cache now topic v w).bus.last_values topic ≡ some (record { value = v; timestamp = now }))
        × ((cache now topic v w).bus.type_indices ≡ w.bus.type_indices)
  cached now topic v w h =
      subst
        (λ (b : Bool).
          let u : World V = if b then store_value now topic v w else w in
          (u.bus.last_values topic ≡ some (record { value = v; timestamp = now }))
          × (u.bus.type_indices ≡ w.bus.type_indices))
        (sym h)
        (update_self w.bus.last_values topic (some (record { value = v; timestamp = now })), refl)

  -- a published value is in the cache
  published :
      (now : ℕ) (local_only : Bool) (topic : ℕ) (v : V) (w : World V)
      → w.bus.topic_qos topic ≡ true
      → is_type (type_of v) (w.bus.type_indices topic) ≡ true
      → let u = (publish type_of now local_only topic v w).2 in
        (u.bus.last_values topic ≡ some (record { value = v; timestamp = now }))
        × (u.bus.type_indices ≡ w.bus.type_indices)
  unfolding publish
  published now local_only topic v w q h =
      let k = distributed-keeps (type_of v) now topic v local_only (cache now topic v w) in
      let c = cached now topic v w q in rw h (ap (λ f. f topic) k.0 ∙ c.0, k.1 ∙ c.1)

  subscribed-replay :
      (T now topic handler : ℕ) (accepts : V → Bool) (qos : QoS) (w : World V)
      → is_type T (w.bus.type_indices topic) ≡ true
      → (subscribe type_of T now topic handler accepts none qos w).0
        ≡ cast (signal_of T (w.bus.signals topic)).type_index T
          ∷ (replay type_of T now topic qos
              (new_slot handler accepts none qos w)
              (w.bus.last_values topic)
              (connect T topic
                (new_slot handler accepts none qos w)
                (if qos.last_value_cache then enable_cache topic w else w))).0
  unfolding subscribe
  subscribed-replay T now topic handler accepts qos w h = rw h refl

  replayed :
      (T now topic handler time : ℕ) (accepts : V → Bool) (lifespan : Option ℕ) (v : V)
      (n : World V) (w : World V)
      → is_expired now lifespan time ≡ false
      → (replay type_of T now topic
          (caching lifespan)
          (new_slot handler accepts none (caching lifespan) n)
          (some (record { value = v; timestamp = time }))
          w).0
        ≡ cast (type_of v) T ∷ (if accepts v then called handler v ∷ [] else [])
  unfolding replay deliver_cached run_slot
  replayed T now topic handler time accepts lifespan v n w h = rw h refl

  -- The value cached for a topic is the first that a new subscriber to the cache is called with, if its
  -- predicate accepts it: after a publication on a topic that caches its last value, of a value of the
  -- topic's type, by a subscriber of that type with no thread and no minimum separation, and within the
  -- lifespan.
  pub subscribe-publish :
      (now later : ℕ) (local_only : Bool) (topic handler : ℕ) (v : V) (accepts : V → Bool)
      (lifespan : Option ℕ) (w : World V)
      → w.bus.topic_qos topic ≡ true
      → is_type (type_of v) (w.bus.type_indices topic) ≡ true
      → is_expired later lifespan now ≡ false
      → calls
          (subscribe type_of
            (type_of v)
            later
            topic
            handler
            accepts
            none
            (caching lifespan)
            (publish type_of now local_only topic v w).2).0
        ≡ (if accepts v then (handler, v) ∷ [] else [])
  subscribe-publish now later local_only topic handler v accepts lifespan w q h e =
      let u = (publish type_of now local_only topic v w).2 in
      let p = published now local_only topic v w q h in
      let typed = ap (λ f. is_type (type_of v) (f topic)) p.1 ∙ h in
      let s = new_slot handler accepts none (caching lifespan) u in
      let x = connect (type_of v) topic s (enable_cache topic u) in
      ap calls
        (subscribed-replay (type_of v) later topic handler accepts (caching lifespan) u typed)
      ∙ ap (λ o. calls (replay type_of (type_of v) later topic (caching lifespan) s o x).0) p.0
      ∙ ap calls (replayed (type_of v) later topic handler now accepts lifespan v u x e)
      ∙ called_or_not (accepts v)
    where
      called_or_not :
          (b : Bool)
          → calls (if b then called handler v ∷ [] else []) ≡ (if b then (handler, v) ∷ [] else [])
      called_or_not true = refl
      called_or_not false = refl

  -- `LastValueCache` for a topic that has no type, then a publication, then a subscriber of another type
  -- to the cache: a cast without a check is to a type for which the object was not made.
  pub subscribe_wrong_cast :
      (now later T topic handler : ℕ) (local_only : Bool) (v : V) (accepts : V → Bool) (w : World V)
      → w.bus.type_indices topic ≡ none
      → T ≢ type_of v
      → ¬ AllRight type_of
          (subscribe type_of T later topic handler accepts none
            (caching none)
            (publish type_of now local_only topic v (last_value_cache topic true w)).2).0
  subscribe_wrong_cast now later T topic handler local_only v accepts w n d right =
      let c = last_value_cache topic true w in
      let u = (publish type_of now local_only topic v c).2 in
      let p =
        published now local_only topic v c (update_self w.bus.topic_qos topic true)
          (ap (is_type (type_of v)) n) in
      let typed = ap (λ f. is_type T (f topic)) p.1 ∙ ap (is_type T) n in
      let s = new_slot handler accepts none (caching none) u in
      let x = connect T topic s (enable_cache topic u) in
      let effects =
        subscribed-replay T later topic handler accepts (caching none) u typed
        ∙ ap
            (λ o.
              cast (signal_of T (u.bus.signals topic)).type_index T
              ∷ (replay type_of T later topic (caching none) s o x).0)
            p.0
        ∙ ap (λ l. cast (signal_of T (u.bus.signals topic)).type_index T ∷ l)
            (replayed T later topic handler now accepts none v u x refl) in
      d (sym (subst (AllRight type_of) effects right).1.0)
