-- ===== src/AsyncWait/Handshake.antt =====
-- The source and the destination of DelegateMQ/delegate/DelegateAsyncWait.h, in any order of their
-- steps.
use async_duck_db.Common.{
  ◌≤◌, ◌≡◌, ◌⊎◌, inl, refl, sym, subst, Bool, true, false, none, some, arith,
}
use async_duck_db.Semaphore.{signal}
use async_duck_db.AsyncWait.{
  Stage, calling, waiting, woken, returned, Call, new_call, dispatch, wake, finish, invoke,
  async_invoke,
}

module _ {R : Type 0} (result default : R) where
  -- `Wait` may end at any time: with its signal, or without it when its time is over.
  pub data Step (c : Call R) : Call R → Type 0 where
    dispatched : (posted : Bool) → c.stage ≡ calling → Step c (dispatch posted c)
    wait_ended : c.stage ≡ waiting → Step c (wake c)
    finished : (waited : Bool) → c.stage ≡ woken waited → Step c (finish default waited c)
    invoked : c.queued ≡ true → Step c (invoke result c)

  pub data Reachable : Call R → Type 0 where
    at_start : Reachable new_call
    next : {c d : Call R} → Reachable c → Step c d → Reachable d

  -- What the stage of the source says of the rest.
  abbrev StageHolds : Stage R → Call R → Type 0
  StageHolds calling c =
      (c.invoker_waiting ≡ true)
      × (c.success ≡ false)
      × (c.ret_val ≡ none)
      × (c.target_calls ≡ 0)
      × (c.queued ≡ false)
  StageHolds waiting c = (c.invoker_waiting ≡ true) × (c.success ≡ false) × (c.ret_val ≡ none)
  StageHolds (woken true) c =
      (c.invoker_waiting ≡ true)
      × (c.success ≡ false)
      × (c.ret_val ≡ none)
      × (c.clone_ret_val ≡ some result)
  StageHolds (woken false) c = (c.invoker_waiting ≡ true) × (c.success ≡ false) × (c.ret_val ≡ none)
  StageHolds (returned r) c =
      (c.invoker_waiting ≡ false)
      × (((c.success ≡ true) × (r ≡ result) × (c.clone_ret_val ≡ some result))
          ⊎ ((c.success ≡ false) × (r ≡ default)))

  -- The target was called once, with its result in the clone, or not at all.
  abbrev TargetHolds : Call R → Type 0
  TargetHolds c =
      ((c.target_calls ≡ 0) × (c.clone_ret_val ≡ none) × (c.sema.signaled ≡ false))
      ⊎ ((c.target_calls ≡ 1) × (c.clone_ret_val ≡ some result) × (c.queued ≡ false))

  record IsCall (c : Call R) : Type 0 where
    holds : StageHolds c.stage c
    target : TargetHolds c

  -- what the stage says, once the stage is known
  at_stage : {c : Call R} {s : Stage R} → IsCall c → c.stage ≡ s → StageHolds s c
  at_stage {c = c} w q = subst (λ s. StageHolds s c) q w.holds

  invoke-StageHolds :
      (c : Call R) (s : Stage R)
      → c.queued ≡ true
      → TargetHolds c
      → StageHolds s c
      → StageHolds s (invoke result c)
  unfolding invoke signal
  invoke-StageHolds c calling q t h = cc (q, h.4)
  invoke-StageHolds c waiting q t h = ground (arith, h)
  invoke-StageHolds c (woken true) q t h = ground (arith, h)
  invoke-StageHolds c (woken false) q t h = ground (arith, h)
  invoke-StageHolds c (returned r) q t h = ground (arith, h)

  invoke-stage : (c : Call R) → (invoke result c).stage ≡ c.stage
  unfolding invoke
  invoke-stage c = ground arith

  Step-IsCall : {c d : Call R} → Step c d → IsCall c → IsCall d
  unfolding dispatch wake finish invoke signal
  Step-IsCall {c = c} (dispatched true q) w = record {
    holds = ground (arith, at_stage w q);
    target = ground (arith, at_stage w q, w.target);
  }
  Step-IsCall {c = c} (dispatched false q) w = record {
    holds = ground (arith, at_stage w q);
    target = w.target;
  }
  Step-IsCall {c = c} (wait_ended q) w = record {
    holds = ground (arith, at_stage w q, w.target);
    target = ground (arith, w.target);
  }
  Step-IsCall {c = c} (finished true q) w = record {
    holds = ground (arith, at_stage w q);
    target = w.target;
  }
  Step-IsCall {c = c} (finished false q) w = record {
    holds = ground (arith, at_stage w q);
    target = w.target;
  }
  Step-IsCall {c = c} (invoked q) w = record {
    holds =
        subst (λ s. StageHolds s (invoke result c)) (sym (invoke-stage c))
          (invoke-StageHolds c c.stage q w.target w.holds);
    target = ground (arith, q, w.target);
  }

  new_call-IsCall : IsCall new_call
  new_call-IsCall = record {
    holds = (refl, refl, refl, refl, refl);
    target = inl (refl, refl, refl);
  }

  Reachable-IsCall : {c : Call R} → Reachable c → IsCall c
  Reachable-IsCall at_start = new_call-IsCall
  Reachable-IsCall (next r t) = Step-IsCall t (Reachable-IsCall r)

  -- In whatever order the source and the destination take their steps, a call that has returned called
  -- the target once and returned its result, with `IsSuccess`, or returned the default value without;
  -- then the target was called at most once.
  pub returned_cases :
      (c : Call R) (r : R)
      → Reachable c
      → c.stage ≡ returned r
      → ((c.success ≡ true)
          × (c.target_calls ≡ 1)
          × (r ≡ result)
          × (async_invoke c r ≡ some result))
        ⊎ ((c.success ≡ false) × (c.target_calls ≤ 1) × (r ≡ default) × (async_invoke c r ≡ none))
  unfolding async_invoke
  returned_cases c r reach q =
      let w = Reachable-IsCall reach in ground (arith, at_stage w q, w.target)

  -- Once a call has returned, no step calls the target, which would read the arguments that the source
  -- shares with it, or changes what was returned.
  pub returned_final :
      (c d : Call R) (r : R)
      → Reachable c
      → c.stage ≡ returned r
      → Step c d
      → (d.stage ≡ returned r) × (d.target_calls ≡ c.target_calls)
  unfolding invoke
  returned_final c d r reach q (dispatched posted e) = cc (q, e)
  returned_final c d r reach q (wait_ended e) = cc (q, e)
  returned_final c d r reach q (finished waited e) = cc (q, e)
  returned_final c d r reach q (invoked e) =
      let w = Reachable-IsCall reach in ground (arith, at_stage w q, q)
