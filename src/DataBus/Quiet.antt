-- ===== src/DataBus/Quiet.antt =====
-- What the remote part of `InternalPublish` (DelegateMQ/extras/databus/DataBus.h) leaves alone.
use async_duck_db.Common.{
  ℕ, ◌≡◌, refl, ap, ◌∙◌, Bool, true, false, ◌&&◌, not, if◌then◌else◌, List, [], ◌∷◌, ◌++◌, Option,
  none, some, is_empty,
}
use async_duck_db.DataBus.Latch.{DelegateError, Topic, named, err_no_serializer, report}
use async_duck_db.DataBus.Participant.{
  Participant, Action, fired, invoked, Found, channel, mismatch, get_remote_id,
  get_or_create_channel,
}
use async_duck_db.DataBus.Bus.{
  World, Effect, cast, spied, called, queued, sent, queued_send, error, unhandled, Run, returned,
  faulted, followed, report_latched_error,
}
use async_duck_db.DataBus.Publish.{
  send, send_all, send_on, send_remote, forward, set_node, interested, transmit, finish, prepare,
  cast_to, is_some, signal_type,
}

module _ {V : Type 0} where
  -- the calls of handlers, in order
  abbrev pub calls : List (Effect V) → List (ℕ × V)
  calls [] = []
  calls (cast from to ∷ es) = calls es
  calls (spied t s v ∷ es) = calls es
  calls (called h v ∷ es) = (h, v) ∷ calls es
  calls (queued t c v ∷ es) = calls es
  calls (sent p id v ∷ es) = calls es
  calls (queued_send t p id v ∷ es) = calls es
  calls (error t e ∷ es) = calls es
  calls (unhandled t ∷ es) = calls es

  pub calls-append : (es fs : List (Effect V)) → calls (es ++ fs) ≡ calls es ++ calls fs
  calls-append [] fs = refl
  calls-append (cast from to ∷ es) fs = calls-append es fs
  calls-append (spied t s v ∷ es) fs = calls-append es fs
  calls-append (called h v ∷ es) fs = ap (λ l. (h, v) ∷ l) (calls-append es fs)
  calls-append (queued t c v ∷ es) fs = calls-append es fs
  calls-append (sent p id v ∷ es) fs = calls-append es fs
  calls-append (queued_send t p id v ∷ es) fs = calls-append es fs
  calls-append (error t e ∷ es) fs = calls-append es fs
  calls-append (unhandled t ∷ es) fs = calls-append es fs

  -- No handler is called, and the topics stay as they are.
  pub record IsQuiet (w : World V) (es : List (Effect V)) (u : World V) : Type 0 where
    pub no_calls : calls es ≡ []
    pub same_signals : u.bus.signals ≡ w.bus.signals
    pub same_types : u.bus.type_indices ≡ w.bus.type_indices
    pub same_values : u.bus.last_values ≡ w.bus.last_values
    pub same_next : u.bus.next_connection ≡ w.bus.next_connection

  quiet : (w : World V) → IsQuiet w [] w
  quiet w = record {
    no_calls = refl;
    same_signals = refl;
    same_types = refl;
    same_values = refl;
    same_next = refl;
  }

  IsQuiet-append :
      (w u x : World V) (es fs : List (Effect V))
      → IsQuiet w es u
      → IsQuiet u fs x
      → IsQuiet w (es ++ fs) x
  IsQuiet-append w u x es fs q r = record {
    no_calls = cc (calls-append es fs, q.no_calls, r.no_calls);
    same_signals = r.same_signals ∙ q.same_signals;
    same_types = r.same_types ∙ q.same_types;
    same_values = r.same_values ∙ q.same_values;
    same_next = r.same_next ∙ q.same_next;
  }

  pub report-IsQuiet :
      (t : Topic) (e : DelegateError) (w : World V)
      → IsQuiet w (report_latched_error t e w).0 (report_latched_error t e w).1
  unfolding report_latched_error
  report-IsQuiet t e w = record {
    no_calls = fires (report t e w.bus.latch).0;
    same_signals = refl;
    same_types = refl;
    same_values = refl;
    same_next = refl;
  }
    where
      fires : (b : Bool) → calls (if b then error t e ∷ [] else []) ≡ []
      fires true = refl
      fires false = refl

  node-IsQuiet :
      (p : ℕ) (part : Participant) (es : List (Effect V)) (w : World V)
      → calls es ≡ []
      → IsQuiet w es (set_node p part w)
  node-IsQuiet p part es w e = record {
    no_calls = e;
    same_signals = refl;
    same_types = refl;
    same_values = refl;
    same_next = refl;
  }

  forward-IsQuiet :
      (acts : List Action) (w : World V) → IsQuiet w (forward acts w).0 (forward acts w).1
  forward-IsQuiet [] w = quiet w
  forward-IsQuiet (fired t e ∷ acts) w =
      let r = report_latched_error t e w in
      IsQuiet-append w r.1 (forward acts r.1).1 r.0 (forward acts r.1).0 (report-IsQuiet t e w)
        (forward-IsQuiet acts r.1)
  forward-IsQuiet (invoked n c x ∷ acts) w = forward-IsQuiet acts w

  transmit-no_calls : (p id : ℕ) (v : V) (o : Option ℕ) → calls (transmit p id v o ∷ []) ≡ []
  transmit-no_calls p id v none = refl
  transmit-no_calls p id v (some t) = refl

  send_on-IsQuiet :
      (T p id : ℕ) (v : V) (f : Found) (acts : List Action) (part : Participant) (w : World V)
      → let r = send_on T p id v (f, acts, part) w in IsQuiet w r.0 r.2
  send_on-IsQuiet T p id v (channel c) acts part w =
      node-IsQuiet p part _ w (transmit-no_calls p id v part.send_thread)
  send_on-IsQuiet T p id v mismatch acts part w =
      IsQuiet-append w (set_node p part w) (forward acts (set_node p part w)).1 []
        (forward acts (set_node p part w)).0 (node-IsQuiet p part [] w refl)
        (forward-IsQuiet acts (set_node p part w))

  send-IsQuiet :
      (T topic : ℕ) (v : V) (p : ℕ) (w : World V)
      → IsQuiet w (send T topic v p w).0 (send T topic v p w).2
  unfolding send
  send-IsQuiet T topic v p w = sends (get_remote_id topic (w.nodes p))
    where
      sends :
          (o : Option ℕ)
          → let r : Run V = elim o [
            | none ↦ ([], returned, w)
            | some id ↦ send_on T p id v (get_or_create_channel id T (w.nodes p)) w
          ] in
            IsQuiet w r.0 r.2
      sends none = quiet w
      sends (some id) =
          let g = get_or_create_channel id T (w.nodes p) in send_on-IsQuiet T p id v g.0 g.1 g.2 w

  followed-IsQuiet :
      (w : World V) (r : Run V) (next : World V → Run V)
      → IsQuiet w r.0 r.2
      → ((u : World V) → IsQuiet u (next u).0 (next u).2)
      → IsQuiet w (followed r next).0 (followed r next).2
  followed-IsQuiet w (es, returned, u) next q f =
      IsQuiet-append w u (next u).2 es (next u).0 q (f u)
  followed-IsQuiet w (es, faulted, u) next q f = q

  send_all-IsQuiet :
      (T topic : ℕ) (v : V) (ps : List ℕ) (w : World V)
      → IsQuiet w (send_all T topic v ps w).0 (send_all T topic v ps w).2
  unfolding send_all
  send_all-IsQuiet T topic v [] w = quiet w
  send_all-IsQuiet T topic v (p ∷ ps) w =
      followed-IsQuiet w (send T topic v p w) (send_all T topic v ps) (send-IsQuiet T topic v p w)
        (λ u. send_all-IsQuiet T topic v ps u)

  send_remote-IsQuiet :
      (T topic : ℕ) (v : V) (o : Option ℕ) (w : World V)
      → IsQuiet w (send_remote T topic v o w).0 (send_remote T topic v o w).2
  unfolding send_remote
  send_remote-IsQuiet T topic v none w = report-IsQuiet (named topic) err_no_serializer w
  send_remote-IsQuiet T topic v (some s) w = send_all-IsQuiet T topic v (interested topic w) w

  if-IsQuiet :
      (b : Bool) (w : World V) (r s : Run V)
      → IsQuiet w r.0 r.2
      → IsQuiet w s.0 s.2
      → let t : Run V = if b then r else s in IsQuiet w t.0 t.2
  if-IsQuiet true w r s q p = q
  if-IsQuiet false w r s q p = p

  -- The end of a publication calls no handler and leaves the topics alone.
  pub finish-IsQuiet :
      (T topic : ℕ) (v : V) (local_only : Bool) (w : World V)
      → IsQuiet w (finish T topic v local_only w).0 (finish T topic v local_only w).2
  unfolding finish
  finish-IsQuiet T topic v local_only w =
      if-IsQuiet (not local_only && not (is_empty (interested topic w))) w _ _
        (send_remote-IsQuiet T topic v (w.bus.serializers topic) w)
        (if-IsQuiet (is_some (w.bus.signals topic)) w _ _ (quiet w)
          (node-IsQuiet_unhandled topic w))
    where
      node-IsQuiet_unhandled : (topic : ℕ) (w : World V) → IsQuiet w (unhandled topic ∷ []) w
      node-IsQuiet_unhandled topic w = record {
        no_calls = refl;
        same_signals = refl;
        same_types = refl;
        same_values = refl;
        same_next = refl;
      }

  cast_to-no_calls : (T : ℕ) (o : Option ℕ) → calls (cast_to T o) ≡ []
  cast_to-no_calls T none = refl
  cast_to-no_calls T (some t) = refl

  no_calls-append :
      (es fs : List (Effect V)) → calls es ≡ [] → calls fs ≡ [] → calls (es ++ fs) ≡ []
  no_calls-append es fs p q = cc (calls-append es fs, p, q)

  if-no_calls :
      (b : Bool) (es : List (Effect V)) → calls es ≡ [] → calls (if b then es else []) ≡ []
  if-no_calls true es p = p
  if-no_calls false es p = refl

  pub prepare-no_calls : (T topic : ℕ) (v : V) (w : World V) → calls (prepare T topic v w) ≡ []
  unfolding prepare
  prepare-no_calls T topic v w =
      let monitored = not (is_empty w.bus.monitors) in
      let spy = w.bus.stringifiers topic in
      let type = signal_type (w.bus.signals topic) in
      let a : List (Effect V) = if monitored then cast_to T spy else [] in
      let b : List (Effect V) = cast_to T type in
      let c : List (Effect V) = cast_to T (w.bus.serializers topic) in
      let d : List (Effect V) = if monitored then spied topic spy v ∷ [] else [] in
      no_calls-append a (b ++ (c ++ d))
        (if-no_calls monitored (cast_to T spy) (cast_to-no_calls T spy))
        (no_calls-append b (c ++ d) (cast_to-no_calls T type) (
          no_calls-append c d (cast_to-no_calls T (w.bus.serializers topic))
            (if-no_calls monitored (spied topic spy v ∷ []) refl)))
