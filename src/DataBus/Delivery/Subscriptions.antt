-- ===== src/DataBus/Delivery/Subscriptions.antt =====
-- Runs of `Subscribe`, `Publish` and ends of connections (DelegateMQ/extras/databus/DataBus.h).
use async_duck_db.Common.{
  ℕ, suc, ◌≡◌, refl, ap, sym, true, List, [], ◌∷◌, map, append-nil, Option, none, some, arith, All,
  subst,
}
use async_duck_db.DataBus.Participant.{is_type, channel_type}
use async_duck_db.DataBus.Bus.{Slot, TopicSignal, LvcEntry, World, cast, Run, returned}
use async_duck_db.DataBus.Registry.{subscribe, connect, replay, new_slot, signal_of}
use async_duck_db.DataBus.Quiet.{calls}
use async_duck_db.DataBus.Delivery.{
  Subscription, of_topic, plain_qos, Operation, subscription, disconnection, publication, Board,
  serve, serve_all, perform, perform_all, WellTyped, slot_of, slots_of, Implements, of_topic-snoc,
}
use async_duck_db.DataBus.Delivery.Refinement.{publish-serves, disconnect-Implements}

module _ {V : Type 0} (type_of : V → ℕ) (kind : ℕ → ℕ) where
  -- with no QoS there is no value from the cache
  replay-plain :
      (T now topic : ℕ) (s : Slot V) (o : Option (LvcEntry V)) (w : World V)
      → replay type_of T now topic plain_qos s o w ≡ ([], returned, w)
  unfolding replay
  replay-plain T now topic s none w = refl
  replay-plain T now topic s (some e) w = refl

  subscribe-plain :
      (T now topic handler : ℕ) (w : World V)
      → is_type T (w.bus.type_indices topic) ≡ true
      → subscribe type_of T now topic handler (λ v. true) none plain_qos w ≡ (
        cast (signal_of T (w.bus.signals topic)).type_index T ∷ [],
        returned,
        connect T topic (new_slot handler (λ v. true) none plain_qos w) w,
      )
  unfolding subscribe
  subscribe-plain T now topic handler w h = simp (
    h,
    replay-plain T now topic (new_slot handler (λ v. true) none plain_qos w)
        (w.bus.last_values topic)
        (connect T topic (new_slot handler (λ v. true) none plain_qos w) w),
  )

  slots_of-signal_of :
      (T : ℕ) (o : Option (TopicSignal V)) → (signal_of T o).slots ≡ slots_of type_of kind o
  slots_of-signal_of T none = refl
  slots_of-signal_of T (some s) = refl

  is_type-channel_type :
      (T : ℕ) (o : Option ℕ) → is_type T o ≡ true → is_type T (some (channel_type T o)) ≡ true
  is_type-channel_type T none h = ground arith
  is_type-channel_type T (some t) h = h

  connect-Implements :
      (topic handler : ℕ) (w : World V) (b : Board)
      → Implements type_of kind w b
      → Implements type_of kind
          (connect (kind topic) topic (new_slot handler (λ v. true) none plain_qos w) w)
          (serve {V = V} (subscription 0 topic handler) b).1
  unfolding connect serve
  connect-Implements topic handler w b i =
      let sub : Subscription = record { connection = b.next; topic = topic; handler = handler } in
      record {
        shows = λ t. ground (
          arith,
          i.shows t,
          i.shows topic,
          i.numbers,
          slots_of-signal_of (kind topic) (w.bus.signals topic),
          of_topic-snoc type_of kind t b.subscriptions sub,
          append-nil (map (slot_of type_of kind) (of_topic t b.subscriptions)),
        );
        numbers = ap suc i.numbers;
        types = λ t. ground (
          arith,
          i.types t,
          is_type-channel_type (kind topic) (w.bus.type_indices topic) (i.types topic),
        );
      }

  perform-serve :
      (o : Operation V) (w : World V) (b : Board)
      → WellTyped type_of kind o
      → Implements type_of kind w b
      → (calls (perform type_of kind o w).0 ≡ (serve o b).0)
        × Implements type_of kind (perform type_of kind o w).2 (serve o b).1
  unfolding perform serve
  perform-serve (subscription now topic handler) w b h i =
      subst
        (λ (r : Run V).
          (calls r.0 ≡ [])
          × Implements type_of kind r.2 (serve {V = V} (subscription 0 topic handler) b).1)
        (sym (subscribe-plain (kind topic) now topic handler w (i.types topic)))
        (refl, connect-Implements topic handler w b i)
  perform-serve (disconnection topic connection) w b h i =
      (refl, disconnect-Implements type_of kind topic connection w b i)
  perform-serve (publication now local_only topic v) w b h i =
      publish-serves type_of kind now local_only topic v w b h i

  perform_all-Implements :
      (os : List (Operation V)) (w : World V) (b : Board)
      → All (WellTyped type_of kind) os
      → Implements type_of kind w b
      → perform_all type_of kind os w ≡ serve_all os b
  unfolding perform_all serve_all
  perform_all-Implements [] w b h i = refl
  perform_all-Implements (o ∷ os) w b (h, hs) i =
      let (e, j) = perform-serve o w b h i in
      cc (e, perform_all-Implements os (perform type_of kind o w).2 (serve o b).1 hs j)

  -- Plain subscriptions, ends of connections and publications in any order, on a bus with no topics
  -- and any participants, with one type for each topic: the handlers that are called, in order, are
  -- those of a list of subscriptions, of which each publication calls the ones of its topic, oldest
  -- first. Where a participant's channel faults, the operations after it are taken to go on.
  pub perform_all-serve_all :
      (os : List (Operation V)) (w : World V)
      → All (WellTyped type_of kind) os
      → w.bus.next_connection ≡ 0
      → ((t : ℕ) → w.bus.signals t ≡ none)
      → ((t : ℕ) → w.bus.type_indices t ≡ none)
      → perform_all type_of kind os w ≡ serve_all os (record { subscriptions = []; next = 0 })
  perform_all-serve_all os w h n s t =
      perform_all-Implements os w (record { subscriptions = []; next = 0 }) h
        (record {
          shows = λ k. ap (slots_of type_of kind) (s k);
          numbers = n;
          types = λ k. ap (is_type (kind k)) (t k);
        })
