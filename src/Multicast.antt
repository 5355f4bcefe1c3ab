-- ===== src/Multicast.antt =====
-- DelegateMQ/delegate/MulticastDelegate.h: the container whose targets may change it while they are
-- called. A delegate is the number of its target, and a clone is equal to the original; `none` is a
-- pointer that was reset.
pub mod Tidy
pub mod Masked
pub mod Broadcast
mod Tests
use async_duck_db.Common.{
  ℕ, zero, suc, ◌+◌, ◌-◌, Bool, true, false, List, [], ◌∷◌, ◌++◌, Option, none, some, ◌==◌, ltb,
  if◌then◌else◌, get_elem?, length,
}

pub record MulticastDelegate : Type 0 where
  pub delegates : List (Option ℕ)
  pub broadcast_count : ℕ
  pub cleanup : Bool

abbrev pub new_multicast : MulticastDelegate
new_multicast = record { delegates = []; broadcast_count = 0; cleanup = false }

unfoldable pub push_back : ℕ → MulticastDelegate → MulticastDelegate
push_back d c = record c { delegates = c.delegates ++ (some d ∷ []) }

abbrev pub is_target : ℕ → Option ℕ → Bool
is_target d none = false
is_target d (some e) = e == d

-- the first pointer to an equal delegate, reset or erased
abbrev pub reset_first : ℕ → List (Option ℕ) → List (Option ℕ)
reset_first d [] = []
reset_first d (p ∷ ps) = if is_target d p then none ∷ ps else p ∷ reset_first d ps

abbrev pub erase_first : ℕ → List (Option ℕ) → List (Option ℕ)
erase_first d [] = []
erase_first d (p ∷ ps) = if is_target d p then ps else p ∷ erase_first d ps

abbrev pub holds : ℕ → List (Option ℕ) → Bool
holds d [] = false
holds d (p ∷ ps) = if is_target d p then true else holds d ps

unfoldable pub remove : ℕ → MulticastDelegate → MulticastDelegate
remove d c =
    if holds d c.delegates
    then (if ltb 0 c.broadcast_count
        then record c { delegates = reset_first d c.delegates; cleanup = true }
        else record c { delegates = erase_first d c.delegates })
    else c

abbrev pub reset_all : List (Option ℕ) → List (Option ℕ)
reset_all [] = []
reset_all (p ∷ ps) = none ∷ reset_all ps

unfoldable pub clear : MulticastDelegate → MulticastDelegate
clear c =
    if ltb 0 c.broadcast_count
    then record c { delegates = reset_all c.delegates; cleanup = true }
    else record c { delegates = [] }

-- `CopyFrom`: the pointers that are not null
abbrev pub live : List (Option ℕ) → List ℕ
live [] = []
live (none ∷ ps) = live ps
live (some d ∷ ps) = d ∷ live ps

abbrev pub drop_null : List (Option ℕ) → List (Option ℕ)
drop_null [] = []
drop_null (none ∷ ps) = drop_null ps
drop_null (some d ∷ ps) = some d ∷ drop_null ps

unfoldable pub copy_from : MulticastDelegate → MulticastDelegate → MulticastDelegate
copy_from other c = record c { delegates = c.delegates ++ drop_null other.delegates }

-- `Cleanup`
unfoldable pub clean_up : MulticastDelegate → MulticastDelegate
clean_up c =
    if c.cleanup then record c { delegates = drop_null c.delegates; cleanup = false } else c

-- the constructor and the destructor of `BroadcastGuard`
unfoldable pub enter : MulticastDelegate → MulticastDelegate
enter c = record c { broadcast_count = suc c.broadcast_count }

unfoldable pub leave : MulticastDelegate → MulticastDelegate
leave c =
    let d = record c { broadcast_count = c.broadcast_count - 1 } in
    if d.broadcast_count == 0 then clean_up d else d

-- What a target does with the container that calls it; `raise` is an exception, which ends it.
pub data Action : Type 0 where
  pushes : ℕ → Action
  removes : ℕ → Action
  clears : Action
  broadcasts : Action
  raises : Action

-- The container, the targets called so far, oldest first, and whether an exception is on its way.
pub record Scene : Type 0 where
  pub container : MulticastDelegate
  pub calls : List ℕ
  pub raised : Bool

abbrev pub on_container : (MulticastDelegate → MulticastDelegate) → Scene → Scene
on_container f s = record s { container = f s.container }

abbrev pub called : ℕ → Scene → Scene
called d s = record s { calls = s.calls ++ (d ∷ []) }

abbrev pub with_scene : (Scene → Option Scene) → Option Scene → Option Scene
with_scene f none = none
with_scene f (some s) = f s

-- `behave` is what a target does, from the calls before it: the code of the program that uses the
-- container. A broadcast need not end, since a target may push another: `none` is fuel run out.
module _ (behave : List ℕ → ℕ → List Action) where
  unfoldable mutual
    pub broadcast : ℕ → Scene → Option Scene
    broadcast zero s = none
    broadcast (suc n) s =
        with_scene (λ t. some (on_container leave t)) (visit n 0 (on_container enter s))

    pub visit : ℕ → ℕ → Scene → Option Scene
    visit zero i s = none
    visit (suc n) i s = visit_pointer n i (get_elem? s.container.delegates i) s

    pub visit_pointer : ℕ → ℕ → Option (Option ℕ) → Scene → Option Scene
    visit_pointer zero i p s = none
    visit_pointer (suc n) i none s = some s
    visit_pointer (suc n) i (some none) s = visit n (suc i) s
    visit_pointer (suc n) i (some (some d)) s =
        with_scene (λ t. if t.raised then some t else visit n (suc i) t)
          (perform n (behave s.calls d) (called d s))

    pub perform : ℕ → List Action → Scene → Option Scene
    perform zero todo s = none
    perform (suc n) [] s = some s
    perform (suc n) (a ∷ todo) s =
        with_scene (λ t. if t.raised then some t else perform n todo t) (act n a s)

    pub act : ℕ → Action → Scene → Option Scene
    act zero a s = none
    act (suc n) (pushes d) s = some (on_container (push_back d) s)
    act (suc n) (removes d) s = some (on_container (remove d) s)
    act (suc n) clears s = some (on_container clear s)
    act (suc n) broadcasts s = broadcast n s
    act (suc n) raises s = some (record s { raised = true })
