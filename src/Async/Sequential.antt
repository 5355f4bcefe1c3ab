-- ===== src/Async/Sequential.antt =====
-- The abstract view of the worker of DuckDB/async_duckdb.cpp: the queued tasks act on the engine's
-- state one after the other, and what they deliver is for their own callers.
use async_duck_db.Common.{ℕ, ◌<◌, ◌≡◌, refl, ap, ◌∙◌, List, [], ◌∷◌, Option, none, some, arith, All}
use async_duck_db.Thread.{ThreadMsg, DelegateMsg, MsgId, dispatch, exit}
use async_duck_db.Thread.Process.{run_message, run_delegate}
use async_duck_db.Thread.Drain.{run_all}
use async_duck_db.Async.Task.{
  Outcome, value, thrown, crashed, Sink, slot, promise, detached, Task, Shared, invoke, deliver,
}

-- The message delivers to no slot from number `k` on.
abbrev pub SinkBelow : ℕ → Sink → Type 0
SinkBelow k (slot j) = j < k
SinkBelow k (promise j) = Unit
SinkBelow k detached = Unit

module _ {St R : Type 0} where
  -- what a message does to the engine's state
  abbrev pub task_effect : Option (Task St R) → St → St
  task_effect none st = st
  task_effect (some task) st = (task.body st).1

  abbrev pub payload_effect : Option (DelegateMsg (Task St R)) → St → St
  payload_effect none st = st
  payload_effect (some d) st = task_effect d.invoker st

  abbrev pub effect : ThreadMsg (Task St R) → St → St
  effect m st = elim m.id [ dispatch ↦ payload_effect m.payload st | exit ↦ st ]

  -- the queued messages, one after the other
  unfoldable pub effects : List (ThreadMsg (Task St R)) → St → St
  effects [] st = st
  effects (m ∷ ms) st = effects ms (effect m st)

  abbrev pub TaskBelow : ℕ → Option (Task St R) → Type 0
  TaskBelow k none = Unit
  TaskBelow k (some task) = SinkBelow k task.sink

  abbrev pub PayloadBelow : ℕ → Option (DelegateMsg (Task St R)) → Type 0
  PayloadBelow k none = Unit
  PayloadBelow k (some d) = TaskBelow k d.invoker

  abbrev pub MessageBelow : ℕ → ThreadMsg (Task St R) → Type 0
  MessageBelow k m = PayloadBelow k m.payload

  pub deliver-store :
      (sink : Sink) (o : Outcome R) (s : Shared St R) → (deliver sink o s).1.store ≡ s.store
  deliver-store sink o s = ground arith

  deliver-slots :
      (k : ℕ) (sink : Sink) (o : Outcome R) (s : Shared St R)
      → SinkBelow k sink
      → (deliver sink o s).1.slots k ≡ s.slots k
  deliver-slots k (slot j) (value r) s h = ground arith
  deliver-slots k (slot j) (thrown e) s h = ground arith
  deliver-slots k (slot j) crashed s h = refl
  deliver-slots k (promise j) (value r) s h = refl
  deliver-slots k (promise j) (thrown e) s h = refl
  deliver-slots k (promise j) crashed s h = refl
  deliver-slots k detached (value r) s h = refl
  deliver-slots k detached (thrown e) s h = refl
  deliver-slots k detached crashed s h = refl

  run_message-store :
      (m : ThreadMsg (Task St R)) (s : Shared St R)
      → (run_message invoke m s).1.store ≡ effect m s.store
  unfolding invoke
  run_message-store m s = ground arith

  invoke-slots :
      (k : ℕ) (task : Task St R) (s : Shared St R)
      → SinkBelow k task.sink
      → (invoke task s).1.slots k ≡ s.slots k
  unfolding invoke
  invoke-slots k task s h = deliver-slots k task.sink (task.body s.store).0 _ h

  run_delegate-slots :
      (k : ℕ) (p : Option (DelegateMsg (Task St R))) (s : Shared St R)
      → PayloadBelow k p
      → (run_delegate invoke p s).1.slots k ≡ s.slots k
  run_delegate-slots k none s h = refl
  run_delegate-slots k (some d) s h = task_slots d.invoker h
    where
      task_slots :
          (i : Option (Task St R))
          → TaskBelow k i
          → (run_delegate invoke (some (record { invoker = i; priority = d.priority })) s).1.slots k
            ≡ s.slots k
      task_slots none b = refl
      task_slots (some task) b = invoke-slots k task s b

  run_message-slots :
      (k : ℕ) (m : ThreadMsg (Task St R)) (s : Shared St R)
      → MessageBelow k m
      → (run_message invoke m s).1.slots k ≡ s.slots k
  run_message-slots k m s h = by_id m.id
    where
      by_id :
          (id : MsgId)
          → (run_message invoke (record { id = id; payload = m.payload }) s).1.slots k ≡ s.slots k
      by_id dispatch = run_delegate-slots k m.payload s h
      by_id exit = refl

  -- The state after the messages of a queue is that of their calls one after the other.
  pub run_all-store :
      (ms : List (ThreadMsg (Task St R))) (s : Shared St R)
      → (run_all invoke ms s).store ≡ effects ms s.store
  unfolding run_all effects
  run_all-store [] s = refl
  run_all-store (m ∷ ms) s =
      run_all-store ms (run_message invoke m s).1 ∙ ap (effects ms) (run_message-store m s)

  -- A slot that no message of a queue is for is left alone.
  pub run_all-slots :
      (k : ℕ) (ms : List (ThreadMsg (Task St R))) (s : Shared St R)
      → All (MessageBelow k) ms
      → (run_all invoke ms s).slots k ≡ s.slots k
  unfolding run_all
  run_all-slots k [] s h = refl
  run_all-slots k (m ∷ ms) s h =
      run_all-slots k ms (run_message invoke m s).1 h.1 ∙ run_message-slots k m s h.0
