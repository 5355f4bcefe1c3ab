-- ===== src/Thread/Fifo.antt =====
-- The order of delivery of the two queues of Thread.cpp.
use async_duck_db.Common.{
  ◌≡◌, ap, ◌∙◌, sym, true, false, List, [], ◌∷◌, ◌++◌, arith, All, All-append, List-cases, subst,
  ◌⊎◌, inl, inr,
}
use async_duck_db.Thread.{
  Thread, ThreadMsg, DelegateMsg, normal, high, push_back, dispatch_message, dispatch_delegate,
  take_next,
}
use async_duck_db.Thread.History.{
  History, Event, produce, consume, same_priority, InOrder, event, events, select-other,
  accept_same, take_same,
}

module _ {ℓ} {I : Type ℓ} where
  opposite :
      (m : ThreadMsg I)
      → ((same_priority high m ≡ true) × (same_priority normal m ≡ false))
        ⊎ ((same_priority high m ≡ false) × (same_priority normal m ≡ true))
  opposite m = ground arith

  push_back_high :
      (m : ThreadMsg I) (t : Thread I)
      → same_priority high m ≡ true
      → push_back m t ≡ record t { high_queue = t.high_queue ++ (m ∷ []) }
  push_back_high m t e = ground arith

  push_back_normal :
      (m : ThreadMsg I) (t : Thread I)
      → same_priority normal m ≡ true
      → push_back m t ≡ record t { normal_queue = t.normal_queue ++ (m ∷ []) }
  push_back_normal m t e = ground arith

  push_back-InOrder :
      (h : History I) (m : ThreadMsg I)
      → InOrder h
      → InOrder (record h { thread = push_back m h.thread; accepted = h.accepted ++ (m ∷ []) })
  push_back-InOrder h m ((sh, sn), oh, on) = elim (opposite m) [
    | inl (hi, lo) ↦ rw (push_back_high m h.thread hi) (
      (All-append _ h.thread.high_queue (m ∷ []) sh (hi, tt), sn),
      accept_same high m h.accepted h.taken h.thread.high_queue hi oh,
      select-other normal m h.accepted lo ∙ on,
    )
    | inr (hi, lo) ↦ rw (push_back_normal m h.thread lo) (
      (sh, All-append _ h.thread.normal_queue (m ∷ []) sn (lo, tt)),
      select-other high m h.accepted hi ∙ oh,
      accept_same normal m h.accepted h.taken h.thread.normal_queue lo on,
    )
  ]

  take_high-InOrder :
      (h : History I) (m : ThreadMsg I) (rest : List (ThreadMsg I))
      → h.thread.high_queue ≡ m ∷ rest
      → InOrder h
      → InOrder
          (record h { thread = record h.thread { high_queue = rest }; taken = h.taken ++ (m ∷ []) })
  take_high-InOrder h m rest e ((sh, sn), oh, on) =
      let front = subst (All (λ m. same_priority high m ≡ true)) e sh in
      (
        (front.1, sn),
        take_same high m h.accepted h.taken rest front.0 (rw e at oh),
        on
            ∙ ap (λ l. l ++ h.thread.normal_queue)
                (sym (select-other normal m h.taken (not_normal front.0))),
      )
    where
      not_normal : same_priority high m ≡ true → same_priority normal m ≡ false
      not_normal f = ground arith

  take_normal-InOrder :
      (h : History I) (m : ThreadMsg I) (rest : List (ThreadMsg I))
      → h.thread.normal_queue ≡ m ∷ rest
      → InOrder h
      → InOrder (record h {
        thread = record h.thread { normal_queue = rest };
        taken = h.taken ++ (m ∷ []);
      })
  take_normal-InOrder h m rest e ((sh, sn), oh, on) =
      let front = subst (All (λ m. same_priority normal m ≡ true)) e sn in
      (
        (sh, front.1),
        oh
            ∙ ap (λ l. l ++ h.thread.high_queue)
                (sym (select-other high m h.taken (not_high front.0))),
        take_same normal m h.accepted h.taken rest front.0 (rw e at on),
      )
    where
      not_high : same_priority normal m ≡ true → same_priority high m ≡ false
      not_high f = ground arith

  -- A producer's call changes nothing, or appends its message.
  produce_cases :
      (h : History I) (d : DelegateMsg I)
      → (event h (produce d) ≡ h)
        ⊎ (event h (produce d) ≡ record h {
          thread = push_back (dispatch_message d) h.thread;
          accepted = h.accepted ++ (dispatch_message d ∷ []);
        })
  unfolding event dispatch_delegate
  produce_cases h d = ground arith

  high_first :
      (h : History I) (m : ThreadMsg I) (rest : List (ThreadMsg I))
      → h.thread.high_queue ≡ m ∷ rest
      → event h consume
        ≡ record h { thread = record h.thread { high_queue = rest }; taken = h.taken ++ (m ∷ []) }
  unfolding event take_next
  high_first h m rest e = ground arith

  then_normal :
      (h : History I) (m : ThreadMsg I) (rest : List (ThreadMsg I))
      → h.thread.high_queue ≡ []
      → h.thread.normal_queue ≡ m ∷ rest
      → event h consume
        ≡ record h { thread = record h.thread { normal_queue = rest }; taken = h.taken ++ (m ∷ []) }
  unfolding event take_next
  then_normal h m rest e f = ground arith

  then_nothing :
      (h : History I) → h.thread.high_queue ≡ [] → h.thread.normal_queue ≡ [] → event h consume ≡ h
  unfolding event take_next
  then_nothing h e f = ground arith

  event-InOrder : (h : History I) (e : Event I) → InOrder h → InOrder (event h e)
  event-InOrder h (produce d) o = elim (produce_cases h d) [
    | inl e ↦ rw e o
    | inr e ↦ rw e (push_back-InOrder h (dispatch_message d) o)
  ]
  event-InOrder h consume o = elim (List-cases h.thread.high_queue) [
    | inr (m, rest, e) ↦ rw (high_first h m rest e) (take_high-InOrder h m rest e o)
    | inl e ↦ elim (List-cases h.thread.normal_queue) [
      | inr (m, rest, f) ↦ rw (then_normal h m rest e f) (take_normal-InOrder h m rest f o)
      | inl f ↦ rw (then_nothing h e f) o
    ]
  ]

  -- Whatever producers and the worker do in whatever order, from a history in order: of each
  -- priority, the accepted messages are those taken and then those that wait, in the order of
  -- acceptance, so within a priority none is lost, doubled or overtaken.
  pub events-InOrder : (h : History I) (es : List (Event I)) → InOrder h → InOrder (events h es)
  unfolding events
  events-InOrder h [] o = o
  events-InOrder h (e ∷ es) o = events-InOrder (event h e) es (event-InOrder h e o)
