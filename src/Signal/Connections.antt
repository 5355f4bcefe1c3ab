-- ===== src/Signal/Connections.antt =====
-- The lifetime of a connection of DelegateMQ/delegate/Signal.h.
use async_duck_db.Common.{ℕ, ◌<◌, ◌≡◌, true, false, List, [], ◌∷◌, ◌++◌, arith, All}
use async_duck_db.Signal.{
  Signal, Heap, Connection, connect, disconnect, clear, destroy_signal, subscribers, remove_copy,
  dead_block, new_signal,
}

-- The copies of a block were all made before.
abbrev pub IsOld : ℕ → List (ℕ × ℕ) → Type 0
IsOld n = All (λ d. d.0 < n)

-- Blocks and copies of the heap have numbers below the next ones, and a dead block is empty.
pub record IsHeap (h : Heap) : Type 0 where
  pub old_copies : (b : ℕ) → IsOld h.next_copy (h.blocks b).delegates
  pub dead_empty : (b : ℕ) → (h.blocks b).alive ≡ false → (h.blocks b).delegates ≡ []

remove_copy-append :
    (n t : ℕ) (ds : List (ℕ × ℕ)) → IsOld n ds → remove_copy n (ds ++ ((n, t) ∷ [])) ≡ ds
remove_copy-append n t [] h = ground arith
remove_copy-append n t (d ∷ ds) h = ground (arith, remove_copy-append n t ds h.1)

-- In a heap that `IsHeap` holds of, a connection to a live signal that is disconnected again leaves
-- the signal's subscribers as they were.
pub disconnect-connect :
    (t : ℕ) (g : Signal) (h : Heap)
    → IsHeap h
    → (h.blocks g.state).alive ≡ true
    → subscribers g (disconnect (connect t g h).0 (connect t g h).1).1 ≡ subscribers g h
unfolding disconnect connect
disconnect-connect t g h w a =
    ground (arith, remove_copy-append h.next_copy t (subscribers g h) (w.old_copies g.state))

-- After `Clear` of its signal, and after the signal's end, `Disconnect` of a connection made before
-- changes no block, so that no later subscriber is lost.
pub disconnect-clear :
    (c : Connection) (g : Signal) (h : Heap) (b : ℕ)
    → c.block ≡ g.state
    → ((disconnect c (clear g h).1).1.blocks b ≡ (clear g h).1.blocks b)
      × ((disconnect c (destroy_signal g h)).1.blocks b ≡ (destroy_signal g h).blocks b)
unfolding disconnect clear destroy_signal
disconnect-clear c g h b e = ground arith

-- What programs do with signals and connections: a signal that is connected to is alive.
pub data Step (h : Heap) : Heap → Type 0 where
  made : Step h (new_signal h).1
  ended : (g : Signal) → Step h (destroy_signal g h)
  connected : (t : ℕ) (g : Signal) → (h.blocks g.state).alive ≡ true → Step h (connect t g h).1
  disconnected : (c : Connection) → Step h (disconnect c h).1
  cleared : (g : Signal) → Step h (clear g h).1

pub data Reachable : Heap → Type 0 where
  at_start : Reachable (record { blocks = λ b. dead_block; next_block = 0; next_copy = 0 })
  next : {h k : Heap} → Reachable h → Step h k → Reachable k
