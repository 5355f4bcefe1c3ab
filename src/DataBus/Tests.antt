-- ===== src/DataBus/Tests.antt =====
-- Runs of DelegateMQ/extras/databus. A value is a number, and its type is its hundreds.
use async_duck_db.Common.{
  ℕ, ◌/◌, ◌*◌, ◌≡◌, refl, true, false, List, [], ◌∷◌, map, none, some, arith,
}
use async_duck_db.DataBus.Limiter.{limit, deliveries}
use async_duck_db.DataBus.History.{new_history, is_duplicate}
use async_duck_db.DataBus.History.Window.{verdicts, expected, is_duplicate-refines}
use async_duck_db.DataBus.Participant.{
  Participant, Message, Channel, marker, new_participant, register_handler, add_remote_topic,
  get_or_create_channel,
}
use async_duck_db.DataBus.Participant.Filtering.{invocations, passing, call, invocations-passing}
use async_duck_db.DataBus.Bus.{World, called, cast, sent, new_bus, signal_slot}
use async_duck_db.DataBus.Publish.{publish, set_node, send, send_all}
use async_duck_db.DataBus.Registry.{
  subscribe, add_participant, register_serializer, last_value_cache, disconnect,
}
use async_duck_db.DataBus.Typed.{AllRight}
use async_duck_db.DataBus.Typed.Steps.{
  at_start, stepped, subscribed, with_serializer, with_participant, with_topic, Reachable-AllRight,
}
use async_duck_db.DataBus.Quiet.{calls}
use async_duck_db.DataBus.Delivery.{
  plain_qos, Operation, subscription, disconnection, publication, perform_all, serve_all,
}
use async_duck_db.DataBus.Delivery.Subscriptions.{perform_all-serve_all}
use async_duck_db.DataBus.LastValue.{caching, subscribe-publish, subscribe_wrong_cast}

abbrev kind_of : ℕ → ℕ
kind_of v = v / 100

abbrev start : World ℕ
start = record { bus = new_bus; nodes = λ p. new_participant }

-- a ring of three forgets the number 1 after three others
forgotten :
    verdicts (new_history 3) (1 ∷ 2 ∷ 1 ∷ 3 ∷ 4 ∷ 1 ∷ [])
    ≡ false ∷ false ∷ true ∷ false ∷ false ∷ false ∷ []
unfolding verdicts is_duplicate
forgotten = refl

is_duplicate-refines_example :
    verdicts (new_history 3) (1 ∷ 2 ∷ 1 ∷ 3 ∷ 4 ∷ 1 ∷ [])
    ≡ expected 3 [] (1 ∷ 2 ∷ 1 ∷ 3 ∷ 4 ∷ 1 ∷ [])
is_duplicate-refines_example = is_duplicate-refines 2 (1 ∷ 2 ∷ 1 ∷ 3 ∷ 4 ∷ 1 ∷ [])

abbrev message : ℕ → ℕ → Message
message id seq = record { header_marker = marker; id = id; seq_num = seq; payload = 10 * seq }

abbrev five : Channel
five = record { type_index = 1; handler = some 8 }

abbrev listening : Participant
listening = (register_handler 5 1 8 new_participant).1

invocations-passing_example :
    invocations 5 listening (message 5 1 ∷ message 6 1 ∷ message 5 1 ∷ message 5 2 ∷ [])
    ≡ map (call 5 five) (passing 5 [] (message 5 1 ∷ message 6 1 ∷ message 5 1 ∷ message 5 2 ∷ []))
unfolding register_handler
invocations-passing_example =
    invocations-passing 5 five (message 5 1 ∷ message 6 1 ∷ message 5 1 ∷ message 5 2 ∷ [])
      listening (λ e. cc) refl refl

-- with the clock at 5 and a new limiter of 10 the first message is dropped
first_dropped : deliveries (record { min_sep_rep = 10; last_delivery_rep = 0 }) (5 ∷ []) ≡ []
unfolding deliveries limit
first_dropped = refl

-- a topic of type 2 with a subscriber, a serializer and a remote node
abbrev connected : World ℕ
connected =
    let subscribed = (subscribe kind_of 2 0 7 1 (λ v. true) none plain_qos start).2 in
    let serialized = (register_serializer 2 7 subscribed).2 in
    let added = (add_participant 4 serialized).2 in
    set_node 4 (add_remote_topic 7 30 (added.nodes 4)) added

delivered :
    (publish kind_of 0 false 7 250 connected).0
    ≡ cast 2 2 ∷ cast 2 2 ∷ called 1 250 ∷ cast 2 2 ∷ sent 4 30 250 ∷ []
unfolding publish subscribe register_serializer add_participant signal_slot send_all send
    get_or_create_channel
delivered = refl

-- The unhandled signal does not fire for a topic whose only subscriber has gone.
deserted :
    let subscribed = (subscribe kind_of 2 0 7 1 (λ v. true) none plain_qos start).2 in
    (publish kind_of 0 false 7 250 (disconnect 7 0 subscribed)).0 ≡ cast 2 2 ∷ []
unfolding publish subscribe disconnect
deserted = refl

Reachable-AllRight_example :
    AllRight kind_of (publish kind_of 1 false 7 250 connected).0
    × AllRight kind_of (subscribe kind_of 2 1 7 9 (λ v. true) none (caching none) connected).0
Reachable-AllRight_example =
    Reachable-AllRight kind_of connected
      (stepped
        (stepped
          (stepped (stepped at_start (subscribed 2 0 7 1 (λ v. true) none plain_qos))
            (with_serializer 2 7))
          (with_participant 4))
        (with_topic 4 7 30))
      1 2 7 9 false 250 (λ v. true) none (caching none)

abbrev session : List (Operation ℕ)
session =
    subscription 0 7 1
    ∷ subscription 0 7 2
    ∷ publication 1 false 7 250
    ∷ disconnection 7 0
    ∷ publication 2 false 7 260
    ∷ []

perform_all-serve_all_example :
    perform_all kind_of (λ t. 2) session start
    ≡ serve_all session (record { subscriptions = []; next = 0 })
perform_all-serve_all_example =
    perform_all-serve_all kind_of (λ t. 2) session start (tt, (tt, (refl, (tt, (refl, tt))))) refl
      (λ t. refl) (λ t. refl)

subscribe-publish_example :
    calls
      (subscribe kind_of 2 9 7 1
        (λ v. true)
        none
        (caching (some 5))
        (publish kind_of 4 false 7 250 (last_value_cache 7 true start)).2).0
    ≡ (1, 250) ∷ []
subscribe-publish_example =
    subscribe-publish kind_of 4 9 false 7 1 250 (λ v. true) (some 5) (last_value_cache 7 true start)
      refl refl refl

subscribe_wrong_cast_example :
    ¬ AllRight kind_of
      (subscribe kind_of 3 9 7 1
        (λ v. true)
        none
        (caching none)
        (publish kind_of 4 false 7 250 (last_value_cache 7 true start)).2).0
subscribe_wrong_cast_example =
    subscribe_wrong_cast kind_of 4 9 3 7 1 false 250 (λ v. true) start refl (omega arith)
