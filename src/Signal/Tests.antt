-- ===== src/Signal/Tests.antt =====
-- Tests of DelegateMQ/delegate/Signal.h.
use async_duck_db.Common.{◌≡◌, refl, true, [], ◌∷◌}
use async_duck_db.Signal.{Signal, Heap, Connection, dead_block, new_signal, connect}
use async_duck_db.Signal.Snapshot.{emit, snapshot_of, invoke_snapshot}
use async_duck_db.Signal.Connections.{Reachable, at_start, next, made, connected}

abbrev start_heap : Heap
start_heap = record { blocks = λ b. dead_block; next_block = 0; next_copy = 0 }

abbrev heap1 : Heap
heap1 = (new_signal start_heap).1

abbrev signal0 : Signal
signal0 = record { state = 0 }

abbrev heap2 : Heap
heap2 = (connect 40 signal0 heap1).1

emits_in_order : emit signal0 (connect 41 signal0 heap2).1 ≡ 40 ∷ 41 ∷ []
unfolding emit snapshot_of invoke_snapshot connect new_signal
emits_in_order = refl

abbrev reached : Reachable heap2
unfolding new_signal
reached = next (next at_start made) (connected 40 signal0 refl)

abbrev connection : Connection
connection = record { block = 0; copy = 0; connected = true }
