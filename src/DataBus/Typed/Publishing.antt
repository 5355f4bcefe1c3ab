-- ===== src/DataBus/Typed/Publishing.antt =====
-- Types in `InternalPublish` of DelegateMQ/extras/databus/DataBus.h.
use async_duck_db.Common.{
  ℕ, ◌≡◌, refl, ap, ◌∙◌, Bool, true, false, ◌&&◌, not, if◌then◌else◌, List, Option, none, some,
  arith, is_empty,
}
use async_duck_db.DataBus.Latch.{err_type_mismatch, named}
use async_duck_db.DataBus.Participant.{is_type}
use async_duck_db.DataBus.Bus.{TopicSignal, World, Effect, Run, after, mismatched, set_signal}
use async_duck_db.DataBus.Publish.{
  publish, prepare, distribute, distributed, finish, cache, store_value, is_some, interested,
  signal_type,
}
use async_duck_db.DataBus.Typed.{
  IsTyped, AllRight, AllRight-append, Agrees, prepare-AllRight, signal_slots-AllRight,
}
use async_duck_db.DataBus.Typed.Sending.{Sound, SoundPair, report-SoundPair, send_remote-Sound}

module _ {V : Type 0} (type_of : V → ℕ) where
  pub mismatched-Sound :
      (topic : ℕ) (w : World V) → IsTyped type_of w → Sound type_of (mismatched topic w)
  mismatched-Sound topic w i = report-SoundPair type_of (named topic) err_type_mismatch w i

  pub if-Sound :
      (b : Bool) (r s : Run V)
      → (b ≡ true → Sound type_of r)
      → (b ≡ false → Sound type_of s)
      → Sound type_of (if b then r else s)
  if-Sound true r s f g = f refl
  if-Sound false r s f g = g refl

  pub after-Sound :
      (es : List (Effect V)) (r : Run V)
      → AllRight type_of es
      → Sound type_of r
      → Sound type_of (after es r)
  after-Sound es r a s = (AllRight-append type_of es r.0 a s.0, s.1)

  -- another list of slots for a signal that is there
  pub set_signal-IsTyped :
      (topic : ℕ) (s : TopicSignal V) (w : World V)
      → IsTyped type_of w
      → w.bus.type_indices topic ≡ some s.type_index
      → IsTyped type_of (set_signal topic s w)
  set_signal-IsTyped topic s w i e = record {
    of_signal = λ t. ground (arith, i.of_signal t);
    of_serializer = i.of_serializer;
    of_stringifier = i.of_stringifier;
    of_value = i.of_value;
    of_cache = i.of_cache;
    of_node = i.of_node;
  }

  with_value :
      (now topic : ℕ) (v : V) (w : World V)
      → IsTyped type_of w
      → w.bus.type_indices topic ≡ some (type_of v)
      → IsTyped type_of (store_value now topic v w)
  with_value now topic v w i e = record {
    of_signal = i.of_signal;
    of_serializer = i.of_serializer;
    of_stringifier = i.of_stringifier;
    of_value = λ t. ground (arith, i.of_value t);
    of_cache = i.of_cache;
    of_node = i.of_node;
  }

  -- a topic with a type that passes the check has the type of the value
  pub own_type : (T : ℕ) (o : Option ℕ) → is_some o ≡ true → is_type T o ≡ true → o ≡ some T
  own_type T none e h = cc
  own_type T (some x) e h = ground arith

  cache-IsTyped :
      (now topic : ℕ) (v : V) (w : World V)
      → IsTyped type_of w
      → is_type (type_of v) (w.bus.type_indices topic) ≡ true
      → IsTyped type_of (cache now topic v w)
  cache-IsTyped now topic v w i h = kept (w.bus.topic_qos topic) refl
    where
      kept :
          (b : Bool)
          → w.bus.topic_qos topic ≡ b
          → IsTyped type_of (if b then store_value now topic v w else w)
      kept true e = with_value now topic v w i (own_type _ _ (i.of_cache topic e) h)
      kept false e = i

  cache-type_indices :
      (now topic : ℕ) (v : V) (w : World V)
      → (cache now topic v w).bus.type_indices ≡ w.bus.type_indices
  cache-type_indices now topic v w = ground arith

  finish-Sound :
      (T topic : ℕ) (v : V) (local_only : Bool) (w : World V)
      → IsTyped type_of w
      → Sound type_of (finish T topic v local_only w)
  unfolding finish
  finish-Sound T topic v local_only w i =
      if-Sound (not local_only && not (is_empty (interested topic w))) _ _
        (λ p. send_remote-Sound type_of T topic v (w.bus.serializers topic) w i)
        (λ p. if-Sound (is_some (w.bus.signals topic)) _ _ (λ q. (tt, i)) (λ q. ((tt, tt), i)))

  distribute-SoundPair :
      (now topic : ℕ) (v : V) (o : Option (TopicSignal V)) (w : World V)
      → IsTyped type_of w
      → Agrees (signal_type o) (w.bus.type_indices topic)
      → SoundPair type_of (distribute now topic v o w)
  unfolding distribute
  distribute-SoundPair now topic v none w i a = (tt, i)
  distribute-SoundPair now topic v (some s) w i a =
      (signal_slots-AllRight type_of now v s.slots, set_signal-IsTyped topic _ w i a)

  -- Publishing is sound, also when it ends in the fault handler.
  pub publish-Sound :
      (now : ℕ) (local_only : Bool) (topic : ℕ) (v : V) (w : World V)
      → IsTyped type_of w
      → Sound type_of (publish type_of now local_only topic v w)
  unfolding publish
  publish-Sound now local_only topic v w i =
      if-Sound (is_type (type_of v) (w.bus.type_indices topic)) _ _ typed
        (λ f. mismatched-Sound topic w i)
    where
      typed :
          is_type (type_of v) (w.bus.type_indices topic) ≡ true
          → Sound type_of (distributed (type_of v) now topic v local_only (cache now topic v w))
      typed h =
          let u = cache now topic v w in
          let j = cache-IsTyped now topic v w i h in
          let d = distribute-SoundPair now topic v (u.bus.signals topic) u j (j.of_signal topic) in
          let e = ap (λ f. is_type (type_of v) (f topic)) (cache-type_indices now topic v w) ∙ h in
          let r = distribute now topic v (u.bus.signals topic) u in
          let rest = finish (type_of v) topic v local_only r.1 in
          after-Sound (prepare (type_of v) topic v u) (after r.0 rest)
            (prepare-AllRight type_of (type_of v) topic v u j e)
            (after-Sound r.0 rest d.0 (finish-Sound (type_of v) topic v local_only r.1 d.1))
