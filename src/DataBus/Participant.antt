-- ===== src/DataBus/Participant.antt =====
-- DelegateMQ/extras/databus/Participant.h: a remote node, its topics, its channels and the messages
-- that come from it. A type is the number of its `std::type_index`. What a channel does with a message,
-- the serializer, the transport and the threads are outside; that they are called is an event.
pub mod Filtering
use async_duck_db.Common.{
  ℕ, Bool, true, false, ◌==◌, if◌then◌else◌, List, [], ◌∷◌, Option, none, some, update, insert,
  lookup, ◌⊎◌, inl, inr,
}
use async_duck_db.DataBus.Latch.{
  DelegateError, success, err_no_dispatcher, err_type_mismatch, Topic, named, unknown_remote_id,
  Latch, new_latch, no_bits, report,
}
use async_duck_db.DataBus.History.{SeqHistory, new_history, is_duplicate}

abbrev pub seq_history_size : ℕ
seq_history_size = 8

abbrev pub marker : ℕ
marker = 43605

-- A channel for values of a type, with the function that `RegisterHandler` binds.
pub record Channel : Type 0 where
  pub type_index : ℕ
  pub handler : Option ℕ

pub record Participant : Type 0 where
  pub send_thread : Option ℕ
  pub latch : Latch
  pub topic_to_remote_id : List (ℕ × ℕ)
  pub channels : ℕ → Option Channel
  pub channel_types : ℕ → Option ℕ
  pub history : ℕ → SeqHistory

abbrev pub new_participant : Participant
new_participant = record {
  send_thread = none;
  latch = new_latch;
  topic_to_remote_id = [];
  channels = λ id. none;
  channel_types = λ id. none;
  history = λ id. new_history seq_history_size;
}

-- What a participant does to the world: `fired` is the error signal, `invoked` the call of a channel's
-- invoker with the payload of a message.
pub data Action : Type 0 where
  fired : Topic → DelegateError → Action
  invoked : ℕ → Channel → ℕ → Action

abbrev pub add_remote_topic : ℕ → ℕ → Participant → Participant
add_remote_topic topic id p = record p { topic_to_remote_id = insert topic id p.topic_to_remote_id }

abbrev pub enable_continuous_errors : Bool → Participant → Participant
enable_continuous_errors enable p = record p {
  latch = record p.latch { continuous_errors = enable };
}

abbrev pub reset_errors : Participant → Participant
reset_errors p = record p { latch = record p.latch { reported_errors = no_bits } }

abbrev pub get_remote_id : ℕ → Participant → Option ℕ
get_remote_id topic p = lookup topic p.topic_to_remote_id

-- the first topic of the map with this id, for the text of an error
abbrev pub topic_of : ℕ → List (ℕ × ℕ) → Topic
topic_of id [] = unknown_remote_id id
topic_of id ((t, rid) ∷ m) = if rid == id then named t else topic_of id m

abbrev pub is_success : DelegateError → Bool
is_success success = true
is_success _ = false

unfoldable pub on_channel_error : ℕ → DelegateError → Participant → List Action × Participant
on_channel_error id error p =
    let topic = topic_of id p.topic_to_remote_id in
    let r = report topic error p.latch in
    if is_success error
    then ([], p)
    else ((if r.0 then fired topic error ∷ [] else []), record p { latch = r.1 })

-- The header that the transport received, as far as it is read, and the payload.
pub record Message : Type 0 where
  pub header_marker : ℕ
  pub id : ℕ
  pub seq_num : ℕ
  pub payload : ℕ

-- How `ProcessIncoming` ends: 0, -1 for a wrong marker, or the transport's error.
pub data Incoming : Type 0 where
  processed : Incoming
  protocol_error : Incoming
  receive_failed : ℕ → Incoming

abbrev pub ack_remote_id : ℕ
ack_remote_id = 0

-- the part after the filter: look the channel up, and invoke it
abbrev pub invoke_channel : Message → Participant → List Action × Participant
invoke_channel m p = elim (p.channels m.id) [
  | none ↦ on_channel_error m.id err_no_dispatcher p
  | some c ↦ (invoked m.id c m.payload ∷ [], p)
]

abbrev pub filtered : Message → Participant → Bool × SeqHistory → List Action × Participant
filtered m p (true, h) = ([], record p { history = update p.history m.id h })
filtered m p (false, h) = invoke_channel m (record p { history = update p.history m.id h })

abbrev pub ended {ℓ} : {A : Type ℓ} → A → List Action × Participant → A × List Action × Participant
ended a (actions, p) = (a, actions, p)

-- A message that was received, `receive_failed` if `Receive` returns another code than 0.
unfoldable pub process_incoming : ℕ ⊎ Message → Participant → Incoming × List Action × Participant
process_incoming (inl code) p = (receive_failed code, [], p)
process_incoming (inr m) p =
    if m.header_marker == marker
    then ended processed (
        if m.id == ack_remote_id
        then invoke_channel m p
        else filtered m p (is_duplicate m.seq_num (p.history m.id)))
    else (protocol_error, [], p)

abbrev pub is_type : ℕ → Option ℕ → Bool
is_type type none = true
is_type type (some t) = t == type

abbrev pub channel_type : ℕ → Option ℕ → ℕ
channel_type type none = type
channel_type type (some t) = t

-- `RegisterHandler`; `false` is the fault, which comes after the channel has been replaced.
unfoldable pub register_handler : ℕ → ℕ → ℕ → Participant → Bool × Participant
register_handler id type func p = (
  is_type type (p.channel_types id),
  record p {
    channels = update p.channels id (some (record { type_index = type; handler = some func }));
    channel_types = update p.channel_types id (some (channel_type type (p.channel_types id)));
  },
)

-- What `GetOrCreateChannel` comes to: a channel, or the fault on a wrong type, after its report.
pub data Found : Type 0 where
  channel : Channel → Found
  mismatch : Found

unfoldable pub get_or_create_channel : ℕ → ℕ → Participant → Found × List Action × Participant
get_or_create_channel id type p = elim (p.channels id) [
  | none ↦ (
    channel (record { type_index = type; handler = none }),
    [],
    record p {
      channels = update p.channels id (some (record { type_index = type; handler = none }));
      channel_types = update p.channel_types id (some (channel_type type (p.channel_types id)));
    },
  )
  | some c ↦
      if is_type type (p.channel_types id)
      then (channel c, [], p)
      else ended mismatch (on_channel_error id err_type_mismatch p)
]
