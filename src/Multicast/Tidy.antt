-- ===== src/Multicast/Tidy.antt =====
-- The pointers that DelegateMQ/delegate/MulticastDelegate.h resets during a broadcast are erased at the
-- end of the outermost one.
use async_duck_db.Common.{
  ℕ, zero, suc, ◌≡◌, refl, subst, Bool, true, false, List, [], ◌∷◌, ◌++◌, Option, none, some, arith,
  if◌then◌else◌, get_elem?,
}
use async_duck_db.Multicast.{
  MulticastDelegate, Scene, Action, pushes, removes, clears, broadcasts, raises, push_back, remove,
  clear, clean_up, enter, leave, broadcast, visit, visit_pointer, perform, act, erase_first,
  drop_null, on_container, with_scene, called,
}

abbrev pub IsFull : List (Option ℕ) → Type 0
IsFull [] = Unit
IsFull (none ∷ ps) = ⊥
IsFull (some d ∷ ps) = IsFull ps

-- Without a pending clean-up no pointer is null, and outside a broadcast none is pending.
pub record IsTidy (c : MulticastDelegate) : Type 0 where
  pub full : c.cleanup ≡ false → IsFull c.delegates
  pub settled : c.broadcast_count ≡ 0 → c.cleanup ≡ false

IsFull-push : (d : ℕ) (ps : List (Option ℕ)) → IsFull ps → IsFull (ps ++ (some d ∷ []))
IsFull-push d [] f = tt
IsFull-push d (none ∷ ps) f = elim f [ ]
IsFull-push d (some e ∷ ps) f = IsFull-push d ps f

IsFull-erase : (d : ℕ) (ps : List (Option ℕ)) → IsFull ps → IsFull (erase_first d ps)
IsFull-erase d [] f = tt
IsFull-erase d (none ∷ ps) f = elim f [ ]
IsFull-erase d (some e ∷ ps) f = ground (arith, f, IsFull-erase d ps f)

IsFull-drop_null : (ps : List (Option ℕ)) → IsFull (drop_null ps)
IsFull-drop_null [] = tt
IsFull-drop_null (none ∷ ps) = IsFull-drop_null ps
IsFull-drop_null (some e ∷ ps) = IsFull-drop_null ps

IsFull-append : (ps qs : List (Option ℕ)) → IsFull ps → IsFull qs → IsFull (ps ++ qs)
IsFull-append [] qs f g = g
IsFull-append (none ∷ ps) qs f g = elim f [ ]
IsFull-append (some e ∷ ps) qs f g = IsFull-append ps qs f g

push_back-IsTidy : (d : ℕ) (c : MulticastDelegate) → IsTidy c → IsTidy (push_back d c)
unfolding push_back
push_back-IsTidy d c w = record {
  full = λ q. IsFull-push d c.delegates (w.full q);
  settled = w.settled;
}

remove-IsTidy : (d : ℕ) (c : MulticastDelegate) → IsTidy c → IsTidy (remove d c)
unfolding remove
remove-IsTidy d c w = record {
  full = λ q. ground (arith, w.full, IsFull-erase d c.delegates);
  settled = λ q. ground (arith, w.settled);
}

clear-IsTidy : (c : MulticastDelegate) → IsTidy c → IsTidy (clear c)
unfolding clear
clear-IsTidy c w = record {
  full = λ q. ground (arith, w.full);
  settled = λ q. ground (arith, w.settled);
}

enter-IsTidy : (c : MulticastDelegate) → IsTidy c → IsTidy (enter c)
unfolding enter
enter-IsTidy c w = record { full = w.full; settled = λ q. cc }

leave-IsTidy : (c : MulticastDelegate) → IsTidy c → IsTidy (leave c)
unfolding leave clean_up
leave-IsTidy c w = record {
  full = λ q. ground (arith, w.full, IsFull-drop_null c.delegates);
  settled = λ q. ground (arith, w.settled);
}

-- what a scene has become: the container is tidy, and as deep in broadcasts as before
abbrev pub Kept : ℕ → Option Scene → Type 0
Kept depth none = Unit
Kept depth (some t) = IsTidy t.container × (t.container.broadcast_count ≡ depth)

with_scene-Kept :
    (depth e : ℕ) (f : Scene → Option Scene) (o : Option Scene)
    → Kept depth o
    → ((t : Scene) → IsTidy t.container → t.container.broadcast_count ≡ depth → Kept e (f t))
    → Kept e (with_scene f o)
with_scene-Kept depth e f none k h = tt
with_scene-Kept depth e f (some t) k h = h t k.0 k.1

if-Kept :
    (depth : ℕ) (b : Bool) (o r : Option Scene)
    → Kept depth o
    → Kept depth r
    → Kept depth (if b then o else r)
if-Kept depth true o r k l = k
if-Kept depth false o r k l = l

leave-count :
    (c : MulticastDelegate) (d : ℕ) → c.broadcast_count ≡ suc d → (leave c).broadcast_count ≡ d
unfolding leave clean_up
leave-count c d q = ground arith

module _ (behave : List ℕ → ℕ → List Action) where
  mutual
    unfolding broadcast push_back remove clear enter leave

    Kept-broadcast :
        (n : ℕ) (s : Scene)
        → IsTidy s.container
        → Kept s.container.broadcast_count (broadcast behave n s)
    Kept-broadcast zero s w = tt
    Kept-broadcast (suc n) s w =
        with_scene-Kept (suc s.container.broadcast_count) s.container.broadcast_count
          (λ t. some (on_container leave t)) (visit behave n 0 (on_container enter s))
          (Kept-visit n 0 (suc s.container.broadcast_count) (on_container enter s)
            (enter-IsTidy s.container w) refl)
          (λ t k q.
            (leave-IsTidy t.container k, leave-count t.container s.container.broadcast_count q))

    Kept-visit :
        (n i depth : ℕ) (s : Scene)
        → IsTidy s.container
        → s.container.broadcast_count ≡ depth
        → Kept depth (visit behave n i s)
    Kept-visit zero i depth s w q = tt
    Kept-visit (suc n) i depth s w q =
        Kept-pointer n i depth (get_elem? s.container.delegates i) s w q

    Kept-pointer :
        (n i depth : ℕ) (p : Option (Option ℕ)) (s : Scene)
        → IsTidy s.container
        → s.container.broadcast_count ≡ depth
        → Kept depth (visit_pointer behave n i p s)
    Kept-pointer zero i depth p s w q = tt
    Kept-pointer (suc n) i depth none s w q = (w, q)
    Kept-pointer (suc n) i depth (some none) s w q = Kept-visit n (suc i) depth s w q
    Kept-pointer (suc n) i depth (some (some d)) s w q =
        with_scene-Kept depth depth (λ t. if t.raised then some t else visit behave n (suc i) t)
          (perform behave n (behave s.calls d) (called d s))
          (Kept-perform n depth (behave s.calls d) (called d s) w q)
          (λ t k r.
            if-Kept depth t.raised (some t) (visit behave n (suc i) t) (k, r)
              (Kept-visit n (suc i) depth t k r))

    Kept-perform :
        (n depth : ℕ) (todo : List Action) (s : Scene)
        → IsTidy s.container
        → s.container.broadcast_count ≡ depth
        → Kept depth (perform behave n todo s)
    Kept-perform zero depth todo s w q = tt
    Kept-perform (suc n) depth [] s w q = (w, q)
    Kept-perform (suc n) depth (a ∷ todo) s w q =
        with_scene-Kept depth depth (λ t. if t.raised then some t else perform behave n todo t)
          (act behave n a s) (Kept-act n depth a s w q)
          (λ t k r.
            if-Kept depth t.raised (some t) (perform behave n todo t) (k, r)
              (Kept-perform n depth todo t k r))

    Kept-act :
        (n depth : ℕ) (a : Action) (s : Scene)
        → IsTidy s.container
        → s.container.broadcast_count ≡ depth
        → Kept depth (act behave n a s)
    Kept-act zero depth a s w q = tt
    Kept-act (suc n) depth (pushes d) s w q = (push_back-IsTidy d s.container w, ground (arith, q))
    Kept-act (suc n) depth (removes d) s w q = (remove-IsTidy d s.container w, ground (arith, q))
    Kept-act (suc n) depth clears s w q = (clear-IsTidy s.container w, ground (arith, q))
    Kept-act (suc n) depth broadcasts s w q =
        subst (λ e. Kept e (broadcast behave n s)) q (Kept-broadcast n s w)
    Kept-act (suc n) depth raises s w q = (w, q)

  -- Whatever the targets do to the container while they are called, broadcasting again and throwing
  -- included, a broadcast of a tidy container that returns leaves it tidy, and as deep in
  -- broadcasts as before. So no pointer is null after the outermost one.
  pub broadcast-IsTidy :
      (n : ℕ) (s : Scene)
      → IsTidy s.container
      → Kept s.container.broadcast_count (broadcast behave n s)
  broadcast-IsTidy n s w = Kept-broadcast n s w
