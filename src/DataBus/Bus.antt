-- ===== src/DataBus/Bus.antt =====
-- DelegateMQ/extras/databus/DataBus.h: the registry of topics. A topic, a handler, a thread and a
-- participant are numbers, and so is a type, for its `std::type_index`. An operation takes no time, its
-- callbacks do not call the bus, and what a thread does with a queued call is outside.
use async_duck_db.Common.{
  ℕ, Bool, false, ◌&&◌, if◌then◌else◌, List, [], ◌∷◌, ◌++◌, Option, none, some, update,
}
use async_duck_db.DataBus.Latch.{
  DelegateError, err_type_mismatch, Topic, named, Latch, new_latch, report,
}
use async_duck_db.DataBus.Limiter.{RateLimiter, pass}
use async_duck_db.DataBus.Participant.{Participant}

-- A connected subscriber: its function, the thread it asks for, its predicate and its rate limiter.
pub record Slot (V : Type 0) : Type 0 where
  pub connection : ℕ
  pub handler : ℕ
  pub thread : Option ℕ
  pub accepts : V → Bool
  pub limiter : Option RateLimiter

-- The signal of a topic, made for values of a type.
pub record TopicSignal (V : Type 0) : Type 0 where
  pub type_index : ℕ
  pub slots : List (Slot V)

pub record QoS : Type 0 where
  pub last_value_cache : Bool
  pub lifespan : Option ℕ
  pub min_separation : Option ℕ

pub record LvcEntry (V : Type 0) : Type 0 where
  pub value : V
  pub timestamp : ℕ

-- Of a serializer and a stringifier the type is kept for which each was made. The signals for errors
-- and unhandled messages are known by their firing.
pub record DataBus (V : Type 0) : Type 0 where
  pub latch : Latch
  pub signals : ℕ → Option (TopicSignal V)
  pub type_indices : ℕ → Option ℕ
  pub participants : List ℕ
  pub serializers : ℕ → Option ℕ
  pub last_values : ℕ → Option (LvcEntry V)
  pub topic_qos : ℕ → Bool
  pub stringifiers : ℕ → Option ℕ
  pub monitors : List ℕ
  pub next_connection : ℕ

-- The bus, and the participants that users share with it.
pub record World (V : Type 0) : Type 0 where
  pub bus : DataBus V
  pub nodes : ℕ → Participant

-- What an operation does, in order. `cast` is a `static_pointer_cast` of an object that was made for a
-- type, the first, to another. `spied` goes to the monitors with the type of the stringifier used.
pub data Effect (V : Type 0) : Type 0 where
  cast : ℕ → ℕ → Effect V
  spied : ℕ → Option ℕ → V → Effect V
  called : ℕ → V → Effect V
  queued : ℕ → ℕ → V → Effect V
  sent : ℕ → ℕ → V → Effect V
  queued_send : ℕ → ℕ → ℕ → V → Effect V
  error : Topic → DelegateError → Effect V
  unhandled : ℕ → Effect V

-- An operation returns, or it ends in the fault handler.
pub data Ended : Type 0 where
  returned : Ended
  faulted : Ended

abbrev pub Run : Type 0 → Type 0
Run V = List (Effect V) × Ended × World V

abbrev pub max_participants : ℕ
max_participants = 8

abbrev pub new_bus : {V : Type 0} → DataBus V
new_bus = record {
  latch = new_latch;
  signals = λ t. none;
  type_indices = λ t. none;
  participants = [];
  serializers = λ t. none;
  last_values = λ t. none;
  topic_qos = λ t. false;
  stringifiers = λ t. none;
  monitors = [];
  next_connection = 0;
}

module _ {V : Type 0} where
  -- effects before those of a run
  abbrev pub after : List (Effect V) → Run V → Run V
  after es (fs, e, w) = (es ++ fs, e, w)

  -- a run that goes on if it has returned
  abbrev pub followed : Run V → (World V → Run V) → Run V
  followed (es, returned, w) next = after es (next w)
  followed (es, faulted, w) next = (es, faulted, w)

  -- `InternalReportLatchedError`
  unfoldable pub report_latched_error : Topic → DelegateError → World V → List (Effect V) × World V
  report_latched_error topic e w =
      let r = report topic e w.bus.latch in
      ((if r.0 then error topic e ∷ [] else []), record w { bus = record w.bus { latch = r.1 } })

  -- the report that comes before the fault
  abbrev pub mismatched : ℕ → World V → Run V
  mismatched topic w =
      let (es, w') = report_latched_error (named topic) err_type_mismatch w in (es, faulted, w')

  -- The function of a subscriber: the limiter, then the predicate, then the handler.
  unfoldable pub run_slot : ℕ → V → Slot V → List (Effect V) × Slot V
  run_slot now v s =
      let (b, l) = pass s.limiter now in
      ((if b && s.accepts v then called s.handler v ∷ [] else []), record s { limiter = l })

  -- a slot of a signal, called or queued on its thread
  unfoldable pub signal_slot : ℕ → V → Slot V → List (Effect V) × Slot V
  unfolding run_slot
  signal_slot now v s = elim s.thread [
    | none ↦ run_slot now v s
    | some t ↦ (queued t s.connection v ∷ [], s)
  ]

  unfoldable pub signal_slots : ℕ → V → List (Slot V) → List (Effect V) × List (Slot V)
  signal_slots now v [] = ([], [])
  signal_slots now v (s ∷ ss) =
      let r = signal_slot now v s in let rs = signal_slots now v ss in (r.0 ++ rs.0, r.1 ∷ rs.1)

  abbrev pub set_signal : ℕ → TopicSignal V → World V → World V
  set_signal topic s w = record w {
    bus = record w.bus { signals = update w.bus.signals topic (some s) };
  }
