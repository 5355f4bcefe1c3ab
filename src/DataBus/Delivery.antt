-- ===== src/DataBus/Delivery.antt =====
-- What DelegateMQ/extras/databus/DataBus.h promises to local subscribers.
pub mod Refinement
pub mod Subscriptions
use async_duck_db.Common.{
  ℕ, suc, ◌≡◌, refl, ap, sym, ◌∙◌, Bool, true, false, ◌&&◌, not, ◌==◌, if◌then◌else◌, List, [], ◌∷◌,
  ◌++◌, map, append-nil, Option, none, some, update, update_self, arith, keep_if, All, subst,
  fun_ext,
}
use async_duck_db.DataBus.Participant.{is_type, channel_type}
use async_duck_db.DataBus.Bus.{
  Slot, TopicSignal, QoS, World, Effect, called, Run, returned, signal_slots, signal_slot, run_slot,
  set_signal,
}
use async_duck_db.DataBus.Publish.{
  publish, prepare, distribute, distributed, finish, cache, store_value,
}
use async_duck_db.DataBus.Registry.{
  subscribe, connect, replay, new_slot, disconnect, signal_of, append_slot,
}
use async_duck_db.DataBus.Quiet.{calls, calls-append, IsQuiet, prepare-no_calls, finish-IsQuiet}

-- A subscription with no QoS, filter or thread, as an observer knows it.
pub record Subscription : Type 0 where
  pub connection : ℕ
  pub topic : ℕ
  pub handler : ℕ

abbrev pub of_topic : ℕ → List Subscription → List Subscription
of_topic t = keep_if (λ s. s.topic == t)

abbrev pub plain_qos : QoS
plain_qos = record { last_value_cache = false; lifespan = none; min_separation = none }

pub data Operation (V : Type 0) : Type 0 where
  subscription : ℕ → ℕ → ℕ → Operation V
  disconnection : ℕ → ℕ → Operation V
  publication : ℕ → Bool → ℕ → V → Operation V

-- The specification: a list of subscriptions, oldest first, and the number of the next one.
pub record Board : Type 0 where
  pub subscriptions : List Subscription
  pub next : ℕ

abbrev pub is_kept : ℕ → ℕ → Subscription → Bool
is_kept topic connection s = not (s.topic == topic && s.connection == connection)

module _ {V : Type 0} where
  abbrev pub notices : V → List Subscription → List (ℕ × V)
  notices v = map (λ s. (s.handler, v))

  pub serve : Operation V → Board → List (ℕ × V) × Board
  serve (subscription now topic handler) b = (
    [],
    record {
      subscriptions =
          b.subscriptions
          ++ (record { connection = b.next; topic = topic; handler = handler } ∷ []);
      next = suc b.next;
    },
  )
  serve (disconnection topic connection) b =
      ([], record b { subscriptions = keep_if (is_kept topic connection) b.subscriptions })
  serve (publication now local_only topic v) b = (notices v (of_topic topic b.subscriptions), b)

  pub serve_all : List (Operation V) → Board → List (ℕ × V)
  serve_all [] b = []
  serve_all (o ∷ os) b = (serve o b).0 ++ serve_all os (serve o b).1

module _ {V : Type 0} (type_of : V → ℕ) (kind : ℕ → ℕ) where
  -- the same on the bus, where each topic is used with one type
  pub perform : Operation V → World V → Run V
  perform (subscription now topic handler) w =
      subscribe type_of (kind topic) now topic handler (λ v. true) none plain_qos w
  perform (disconnection topic connection) w = ([], returned, disconnect topic connection w)
  perform (publication now local_only topic v) w = publish type_of now local_only topic v w

  pub perform_all : List (Operation V) → World V → List (ℕ × V)
  perform_all [] w = []
  perform_all (o ∷ os) w = calls (perform o w).0 ++ perform_all os (perform o w).2

  abbrev pub WellTyped : Operation V → Type 0
  WellTyped (subscription now topic handler) = Unit
  WellTyped (disconnection topic connection) = Unit
  WellTyped (publication now local_only topic v) = type_of v ≡ kind topic

  abbrev pub slot_of : Subscription → Slot V
  slot_of s = record {
    connection = s.connection;
    handler = s.handler;
    thread = none;
    accepts = λ v. true;
    limiter = none;
  }

  abbrev pub slots_of : Option (TopicSignal V) → List (Slot V)
  slots_of none = []
  slots_of (some s) = s.slots

  -- The signal of each topic has the subscriptions to it, in order.
  pub record Implements (w : World V) (b : Board) : Type 0 where
    pub shows : (t : ℕ) → slots_of (w.bus.signals t) ≡ map slot_of (of_topic t b.subscriptions)
    pub numbers : w.bus.next_connection ≡ b.next
    pub types : (t : ℕ) → is_type (kind t) (w.bus.type_indices t) ≡ true

  pub signal_slots-plain :
      (now : ℕ) (v : V) (ss : List Subscription)
      → let r = signal_slots now v (map slot_of ss) in
        (calls r.0 ≡ notices v ss) × (r.1 ≡ map slot_of ss)
  unfolding signal_slots signal_slot run_slot
  signal_slots-plain now v [] = (refl, refl)
  signal_slots-plain now v (s ∷ ss) =
      let (e, f) = signal_slots-plain now v ss in
      (ap (λ l. (s.handler, v) ∷ l) e, ap (λ l. slot_of s ∷ l) f)

  pub of_topic-snoc :
      (t : ℕ) (ss : List Subscription) (s : Subscription)
      → map slot_of (of_topic t (ss ++ (s ∷ [])))
        ≡ map slot_of (of_topic t ss) ++ (if s.topic == t then slot_of s ∷ [] else [])
  of_topic-snoc t [] s = ground arith
  of_topic-snoc t (x ∷ ss) s = ground (arith, of_topic-snoc t ss s)

  pub of_topic-kept :
      (t topic connection : ℕ) (ss : List Subscription)
      → map slot_of (of_topic t (keep_if (is_kept topic connection) ss)) ≡ (
          if topic == t
          then keep_if (λ s. not (s.connection == connection)) (map slot_of (of_topic t ss))
          else map slot_of (of_topic t ss))
  of_topic-kept t topic connection [] = ground arith
  of_topic-kept t topic connection (x ∷ ss) = ground (arith, of_topic-kept t topic connection ss)
