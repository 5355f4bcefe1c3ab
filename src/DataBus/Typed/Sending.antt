-- ===== src/DataBus/Typed/Sending.antt =====
-- Types on the way to the participants, in `InternalPublish` of DelegateMQ/extras/databus/DataBus.h.
use async_duck_db.Common.{
  ℕ, ◌≡◌, Bool, true, false, if◌then◌else◌, List, [], ◌∷◌, Option, none, some, arith,
}
use async_duck_db.DataBus.Latch.{DelegateError, Topic, Latch, err_no_serializer, named, report}
use async_duck_db.DataBus.Participant.{
  Participant, Action, fired, invoked, Found, channel, mismatch, get_or_create_channel,
  on_channel_error, get_remote_id,
}
use async_duck_db.DataBus.Bus.{
  World, Effect, error, Run, returned, faulted, followed, report_latched_error,
}
use async_duck_db.DataBus.Publish.{
  send, send_all, send_on, send_remote, forward, set_node, interested, transmit,
}
use async_duck_db.DataBus.Typed.{IsTyped, AllRight, AllRight-append, NodeTyped}

-- a channel that is found is for the type asked for
pub RightChannel : ℕ → Found → Type 0
RightChannel T (channel c) = c.type_index ≡ T
RightChannel T mismatch = Unit

get_or_create-NodeTyped :
    (id T : ℕ) (p : Participant) → NodeTyped p → NodeTyped (get_or_create_channel id T p).2
unfolding get_or_create_channel on_channel_error
get_or_create-NodeTyped id T p n i = ground (arith, n i, n id)

get_or_create-RightChannel :
    (id T : ℕ) (p : Participant) → NodeTyped p → RightChannel T (get_or_create_channel id T p).0
unfolding get_or_create_channel RightChannel
get_or_create-RightChannel id T p n = ground (arith, n id)

module _ {V : Type 0} (type_of : V → ℕ) where
  -- effects with casts that are right, and a world that stays typed
  abbrev pub Sound : Run V → Type 0
  Sound r = AllRight type_of r.0 × IsTyped type_of r.2

  abbrev pub SoundPair : List (Effect V) × World V → Type 0
  SoundPair r = AllRight type_of r.0 × IsTyped type_of r.1

  pub with_latch :
      (l : Latch) (w : World V)
      → IsTyped type_of w
      → IsTyped type_of (record w { bus = record w.bus { latch = l } })
  with_latch l w i = record {
    of_signal = i.of_signal;
    of_serializer = i.of_serializer;
    of_stringifier = i.of_stringifier;
    of_value = i.of_value;
    of_cache = i.of_cache;
    of_node = i.of_node;
  }

  pub set_node-IsTyped :
      (p : ℕ) (part : Participant) (w : World V)
      → IsTyped type_of w
      → NodeTyped part
      → IsTyped type_of (set_node p part w)
  set_node-IsTyped p part w i n = record {
    of_signal = i.of_signal;
    of_serializer = i.of_serializer;
    of_stringifier = i.of_stringifier;
    of_value = i.of_value;
    of_cache = i.of_cache;
    of_node = λ q id. ground (arith, n id, i.of_node q id);
  }

  pub report-SoundPair :
      (t : Topic) (e : DelegateError) (w : World V)
      → IsTyped type_of w
      → SoundPair (report_latched_error t e w)
  unfolding report_latched_error
  report-SoundPair t e w i = (fires (report t e w.bus.latch).0, with_latch _ w i)
    where
      fires : (b : Bool) → AllRight type_of (if b then error t e ∷ [] else [])
      fires true = (tt, tt)
      fires false = tt

  forward-SoundPair :
      (acts : List Action) (w : World V) → IsTyped type_of w → SoundPair (forward acts w)
  forward-SoundPair [] w i = (tt, i)
  forward-SoundPair (fired t e ∷ acts) w i =
      let r = report-SoundPair t e w i in
      let rest = forward-SoundPair acts (report_latched_error t e w).1 r.1 in
      (AllRight-append type_of _ _ r.0 rest.0, rest.1)
  forward-SoundPair (invoked n c x ∷ acts) w i = forward-SoundPair acts w i

  send_on-Sound :
      (T p id : ℕ) (v : V) (f : Found) (acts : List Action) (part : Participant) (w : World V)
      → IsTyped type_of w
      → NodeTyped part
      → RightChannel T f
      → Sound (send_on T p id v (f, acts, part) w)
  unfolding RightChannel
  send_on-Sound T p id v (channel c) acts part w i n h =
      ((h, transmits part.send_thread), set_node-IsTyped p part w i n)
    where
      transmits : (o : Option ℕ) → AllRight type_of (transmit p id v o ∷ [])
      transmits none = (tt, tt)
      transmits (some t) = (tt, tt)
  send_on-Sound T p id v mismatch acts part w i n h =
      forward-SoundPair acts (set_node p part w) (set_node-IsTyped p part w i n)

  send-Sound :
      (T topic : ℕ) (v : V) (p : ℕ) (w : World V) → IsTyped type_of w → Sound (send T topic v p w)
  unfolding send
  send-Sound T topic v p w i = sends (get_remote_id topic (w.nodes p))
    where
      sends :
          (o : Option ℕ)
          → Sound (elim o [
            | none ↦ ([], returned, w)
            | some id ↦ send_on T p id v (get_or_create_channel id T (w.nodes p)) w
          ])
      sends none = (tt, i)
      sends (some id) =
          send_on-Sound T p id v _ _ _ w i (get_or_create-NodeTyped id T (w.nodes p) (i.of_node p))
            (get_or_create-RightChannel id T (w.nodes p) (i.of_node p))

  followed-Sound :
      (r : Run V) (next : World V → Run V)
      → Sound r
      → ((w : World V) → IsTyped type_of w → Sound (next w))
      → Sound (followed r next)
  followed-Sound (es, returned, w) next s f =
      let rest = f w s.1 in (AllRight-append type_of _ _ s.0 rest.0, rest.1)
  followed-Sound (es, faulted, w) next s f = s

  send_all-Sound :
      (T topic : ℕ) (v : V) (ps : List ℕ) (w : World V)
      → IsTyped type_of w
      → Sound (send_all T topic v ps w)
  unfolding send_all
  send_all-Sound T topic v [] w i = (tt, i)
  send_all-Sound T topic v (p ∷ ps) w i =
      followed-Sound (send T topic v p w) (send_all T topic v ps) (send-Sound T topic v p w i)
        (λ w' i'. send_all-Sound T topic v ps w' i')

  pub send_remote-Sound :
      (T topic : ℕ) (v : V) (o : Option ℕ) (w : World V)
      → IsTyped type_of w
      → Sound (send_remote T topic v o w)
  unfolding send_remote
  send_remote-Sound T topic v none w i = report-SoundPair (named topic) err_no_serializer w i
  send_remote-Sound T topic v (some s) w i = send_all-Sound T topic v (interested topic w) w i
