-- ===== src/Signal.antt =====
-- DelegateMQ/delegate/Signal.h. A `State` block stands in a heap by its number, since the connections
-- hold it as well as the signal; a copy of a delegate is its address and the target it calls.
pub mod Snapshot
pub mod Connections
mod Tests
use async_duck_db.Common.{
  ℕ, suc, Bool, true, false, List, [], ◌∷◌, ◌++◌, Option, none, some, ◌==◌, not, if◌then◌else◌,
  update, keep_if, length,
}

pub record Block : Type 0 where
  pub alive : Bool
  pub delegates : List (ℕ × ℕ)

pub record Heap : Type 0 where
  pub blocks : ℕ → Block
  pub next_block : ℕ
  pub next_copy : ℕ

-- `Signal`: the number of its `m_state`
pub record Signal : Type 0 where
  pub state : ℕ

-- `Connection`: the block and the copy, and `m_connected`
pub record Connection : Type 0 where
  pub block : ℕ
  pub copy : ℕ
  pub connected : Bool

abbrev pub new_block : Block
new_block = record { alive = true; delegates = [] }

abbrev pub dead_block : Block
dead_block = record { alive = false; delegates = [] }

unfoldable pub new_signal : Heap → Signal × Heap
new_signal h = (
  record { state = h.next_block },
  record h { blocks = update h.blocks h.next_block new_block; next_block = suc h.next_block },
)

-- the destructor
unfoldable pub destroy_signal : Signal → Heap → Heap
destroy_signal g h = record h { blocks = update h.blocks g.state dead_block }

abbrev pub add_copy : ℕ → ℕ → Block → Block
add_copy copy target b = record b { delegates = b.delegates ++ ((copy, target) ∷ []) }

unfoldable pub connect : ℕ → Signal → Heap → Connection × Heap
connect target g h = (
  record { block = g.state; copy = h.next_copy; connected = true },
  record h {
    blocks = update h.blocks g.state (add_copy h.next_copy target (h.blocks g.state));
    next_copy = suc h.next_copy;
  },
)

-- `Connect` of a `UnicastDelegate`, which may hold nothing
unfoldable pub connect_unicast : Option ℕ → Signal → Heap → Connection × Heap
connect_unicast none g h = (record { block = 0; copy = 0; connected = false }, h)
connect_unicast (some target) g h = connect target g h

-- `delegates.remove(copy)`
abbrev pub remove_copy : ℕ → List (ℕ × ℕ) → List (ℕ × ℕ)
remove_copy copy = keep_if (λ d. not (d.0 == copy))

abbrev pub disconnect_block : ℕ → Block → Block
disconnect_block copy b =
    if b.alive then record b { delegates = remove_copy copy b.delegates } else b

unfoldable pub disconnect : Connection → Heap → Connection × Heap
disconnect c h =
    if c.connected
    then (
      record c { connected = false },
      record h { blocks = update h.blocks c.block (disconnect_block c.copy (h.blocks c.block)) },
    )
    else (c, h)

-- `Clear`: a new block in the place of the old one, which dies
unfoldable pub clear : Signal → Heap → Signal × Heap
clear g h = (
  record { state = h.next_block },
  record h {
    blocks = update (update h.blocks h.next_block new_block) g.state dead_block;
    next_block = suc h.next_block;
  },
)

abbrev pub subscribers : Signal → Heap → List (ℕ × ℕ)
subscribers g h = (h.blocks g.state).delegates

abbrev pub size : Signal → Heap → ℕ
size g h = length (subscribers g h)
