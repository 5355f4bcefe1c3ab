-- ===== src/DataBus/Delivery/Refinement.antt =====
-- `Subscribe`, `Publish` and the end of a connection (DelegateMQ/extras/databus/DataBus.h) against a
-- list of subscriptions.
use async_duck_db.Common.{
  ℕ, ◌≡◌, refl, ap, sym, ◌∙◌, Bool, true, false, not, ◌==◌, if◌then◌else◌, List, [], ◌∷◌, ◌++◌, map,
  append-nil, Option, none, some, arith, keep_if, subst,
}
use async_duck_db.DataBus.Participant.{is_type}
use async_duck_db.DataBus.Bus.{TopicSignal, World, Effect, Run, signal_slots, set_signal}
use async_duck_db.DataBus.Publish.{
  publish, prepare, distribute, distributed, finish, cache, store_value,
}
use async_duck_db.DataBus.Registry.{disconnect}
use async_duck_db.DataBus.Quiet.{calls, calls-append, IsQuiet, prepare-no_calls, finish-IsQuiet}
use async_duck_db.DataBus.Delivery.{
  Subscription, of_topic, Board, is_kept, notices, slot_of, slots_of, Implements,
  signal_slots-plain, of_topic-kept,
}

module _ {V : Type 0} (type_of : V → ℕ) (kind : ℕ → ℕ) where
  Implements-same :
      (w u : World V) (b : Board)
      → ((t : ℕ)
          → slots_of type_of kind (u.bus.signals t) ≡ slots_of type_of kind (w.bus.signals t))
      → u.bus.next_connection ≡ w.bus.next_connection
      → u.bus.type_indices ≡ w.bus.type_indices
      → Implements type_of kind w b
      → Implements type_of kind u b
  Implements-same w u b s n t i = record {
    shows = λ k. s k ∙ i.shows k;
    numbers = n ∙ i.numbers;
    types = λ k. ap (λ f. is_type (kind k) (f k)) t ∙ i.types k;
  }

  cache-Implements :
      (now topic : ℕ) (v : V) (w : World V) (b : Board)
      → Implements type_of kind w b
      → Implements type_of kind (cache now topic v w) b
  cache-Implements now topic v w b i = kept (w.bus.topic_qos topic)
    where
      kept : (c : Bool) → Implements type_of kind (if c then store_value now topic v w else w) b
      kept true = Implements-same w (store_value now topic v w) b (λ t. refl) refl refl i
      kept false = i

  distribute-plain :
      (now topic : ℕ) (v : V) (o : Option (TopicSignal V)) (w : World V) (b : Board)
      → w.bus.signals topic ≡ o
      → Implements type_of kind w b
      → let d = distribute now topic v o w in
        (calls d.0 ≡ notices v (of_topic topic b.subscriptions)) × Implements type_of kind d.1 b
  unfolding distribute
  distribute-plain now topic v none w b e i = (
    none_called (of_topic topic b.subscriptions)
        (ap (slots_of type_of kind) (sym e) ∙ i.shows topic),
    i,
  )
    where
      none_called :
          (ss : List Subscription) → [] ≡ map (slot_of type_of kind) ss → [] ≡ notices v ss
      none_called [] p = refl
      none_called (x ∷ ss) p = cc
  distribute-plain now topic v (some s) w b e i =
      let same = ap (slots_of type_of kind) (sym e) ∙ i.shows topic in
      let (p, q) = signal_slots-plain type_of kind now v (of_topic topic b.subscriptions) in
      (
        ap (λ l. calls (signal_slots now v l).0) same ∙ p,
        Implements-same w _ b
            (λ t. ground (arith, ap (λ l. (signal_slots now v l).1) same, q, same, e)) refl refl i,
      )

  Implements-quiet :
      (w u : World V) (es : List (Effect V)) (b : Board)
      → IsQuiet w es u
      → Implements type_of kind w b
      → Implements type_of kind u b
  Implements-quiet w u es b q i =
      Implements-same w u b (λ t. ap (λ f. slots_of type_of kind (f t)) q.same_signals) q.same_next
        q.same_types i

  publish_typed :
      (now : ℕ) (local_only : Bool) (topic : ℕ) (v : V) (w : World V)
      → is_type (type_of v) (w.bus.type_indices topic) ≡ true
      → publish type_of now local_only topic v w
        ≡ distributed (type_of v) now topic v local_only (cache now topic v w)
  unfolding publish
  publish_typed now local_only topic v w h = rw h refl

  distributed-serves :
      (T now topic : ℕ) (v : V) (local_only : Bool) (w : World V) (b : Board)
      → Implements type_of kind w b
      → let r = distributed T now topic v local_only w in
        (calls r.0 ≡ notices v (of_topic topic b.subscriptions)) × Implements type_of kind r.2 b
  distributed-serves T now topic v local_only w b i =
      let d = distribute now topic v (w.bus.signals topic) w in
      let f = finish T topic v local_only d.1 in
      let (p, j) = distribute-plain now topic v (w.bus.signals topic) w b refl i in
      let q = finish-IsQuiet T topic v local_only d.1 in
      (
        cc (
          calls-append (prepare T topic v w) (d.0 ++ f.0),
          prepare-no_calls T topic v w,
          calls-append d.0 f.0,
          q.no_calls,
          p,
          append-nil (notices v (of_topic topic b.subscriptions)),
        ),
        Implements-quiet d.1 f.2 f.0 b q j,
      )

  pub publish-serves :
      (now : ℕ) (local_only : Bool) (topic : ℕ) (v : V) (w : World V) (b : Board)
      → type_of v ≡ kind topic
      → Implements type_of kind w b
      → let r = publish type_of now local_only topic v w in
        (calls r.0 ≡ notices v (of_topic topic b.subscriptions)) × Implements type_of kind r.2 b
  publish-serves now local_only topic v w b h i =
      let typed = ap (λ T. is_type T (w.bus.type_indices topic)) h ∙ i.types topic in
      subst
        (λ (r : Run V).
          (calls r.0 ≡ notices v (of_topic topic b.subscriptions)) × Implements type_of kind r.2 b)
        (sym (publish_typed now local_only topic v w typed))
        (distributed-serves (type_of v) now topic v local_only (cache now topic v w) b
          (cache-Implements now topic v w b i))

  pub disconnect-Implements :
      (topic connection : ℕ) (w : World V) (b : Board)
      → Implements type_of kind w b
      → Implements type_of kind
          (disconnect topic connection w)
          (record b { subscriptions = keep_if (is_kept topic connection) b.subscriptions })
  unfolding disconnect
  disconnect-Implements topic connection w b i = cut (w.bus.signals topic) refl
    where
      board : Board
      board = record b { subscriptions = keep_if (is_kept topic connection) b.subscriptions }

      cut :
          (o : Option (TopicSignal V))
          → w.bus.signals topic ≡ o
          → Implements type_of kind
              (elim o [
                | none ↦ w
                | some t ↦
                    set_signal topic
                      (record t { slots = keep_if (λ s. not (s.connection == connection)) t.slots })
                      w
              ])
              board
      cut none e = record {
        shows = λ t. ground (
          arith,
          i.shows t,
          e,
          i.shows topic,
          of_topic-kept type_of kind t topic connection b.subscriptions,
        );
        numbers = i.numbers;
        types = i.types;
      }
      cut (some s) e = record {
        shows = λ t. ground (
          arith,
          i.shows t,
          e,
          ap (keep_if (λ s. not (s.connection == connection))) (i.shows topic),
          of_topic-kept type_of kind t topic connection b.subscriptions,
        );
        numbers = i.numbers;
        types = i.types;
      }
