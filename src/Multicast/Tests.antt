-- ===== src/Multicast/Tests.antt =====
-- Tests of DelegateMQ/delegate/MulticastDelegate.h.
use async_duck_db.Common.{
  ℕ, ◌≡◌, refl, false, ◌==◌, List, [], ◌∷◌, ◌++◌, some, arith, if◌then◌else◌, length, ◌≤◌,
}
use async_duck_db.Multicast.{
  MulticastDelegate, Scene, Action, pushes, removes, broadcast, push_back, remove, enter, leave,
  clean_up,
}
use async_duck_db.Multicast.Tidy.{Kept, broadcast-IsTidy}
use async_duck_db.Multicast.Masked.{targets}
use async_duck_db.Multicast.Broadcast.{served, removing, scene, broadcast-served}

abbrev three : MulticastDelegate
three = record { delegates = targets (1 ∷ 2 ∷ 3 ∷ []); broadcast_count = 0; cleanup = false }

-- target 1 removes target 2, and target 3 pushes 4, which removes itself
abbrev busy : List ℕ → ℕ → List Action
busy log d =
    if d == 1
    then removes 2 ∷ []
    else if d == 3
    then pushes 4 ∷ []
    else if d == 4
    then removes 4 ∷ []
    else []

busy_calls :
    broadcast busy 20 (record { container = three; calls = []; raised = false })
    ≡ some (record {
      container = record { delegates = targets (1 ∷ 3 ∷ []); broadcast_count = 0; cleanup = false };
      calls = 1 ∷ 3 ∷ 4 ∷ [];
      raised = false;
    })
unfolding broadcast push_back remove enter leave clean_up
busy_calls = refl

broadcast-IsTidy_example :
    Kept 0 (broadcast busy 20 (record { container = three; calls = []; raised = false }))
broadcast-IsTidy_example =
    broadcast-IsTidy busy 20 (record { container = three; calls = []; raised = false })
      (record { full = λ q. tt; settled = λ q. refl })

abbrev jealous : List ℕ → ℕ → List ℕ
jealous log d = if d == 1 then 2 ∷ [] else []

jealous_bound : (log : List ℕ) (d : ℕ) → length (jealous log d) ≤ 1
jealous_bound log d = ground arith

broadcast-served_example :
    (t : Scene) × (broadcast (removing jealous) 11 (scene jealous three []) ≡ some t)
    × (t.calls ≡ [] ++ served jealous [] [] (1 ∷ 2 ∷ 3 ∷ []))
broadcast-served_example =
    broadcast-served jealous 1 (1 ∷ 2 ∷ 3 ∷ []) [] 11 0 jealous_bound (refl, (refl, (refl, tt)))
      (omega arith)
