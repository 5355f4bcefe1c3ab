-- ===== src/DataBus/Limiter.antt =====
-- `detail::RateLimiter` and `detail::Filter` of DelegateMQ/extras/databus/DataBus.h: what a subscriber's
-- QoS and predicate let through. Times are in milliseconds and kept in 32 bits; a time here is the
-- clock's, and `rep` what is left of it.
use async_duck_db.Common.{
  ℕ, ◌+◌, ◌-◌, ◌%◌, ◌/◌, ◌≤◌, ◌<◌, ◌≡◌, refl, Bool, true, false, Option, none, some, leb,
  if◌then◌else◌, arith, List, [], ◌∷◌, ap, Bool-cases, inl, inr,
}

abbrev pub rep : ℕ → ℕ
rep n = n % 4294967296

pub record RateLimiter : Type 0 where
  pub min_sep_rep : ℕ
  pub last_delivery_rep : ℕ

-- `min_separation` of a QoS, made a limiter
abbrev pub new_limiter : ℕ → RateLimiter
new_limiter min_separation = record { min_sep_rep = rep min_separation; last_delivery_rep = 0 }

-- `RateLimiter::Invoke`: whether the function is called
unfoldable pub limit : ℕ → RateLimiter → Bool × RateLimiter
limit now l =
    if leb l.min_sep_rep ((rep now + 4294967296 - l.last_delivery_rep) % 4294967296)
    then (true, record l { last_delivery_rep = rep now })
    else (false, l)

-- a subscriber's limiter, if it has one, at a time in microseconds
abbrev pub pass : Option RateLimiter → ℕ → Bool × Option RateLimiter
pass none now = (true, none)
pass (some l) now = let (b, l') = limit (now / 1000) l in (b, some l')

-- the times at which the function is called, of those at which messages come
unfoldable pub deliveries : RateLimiter → List ℕ → List ℕ
deliveries l [] = []
deliveries l (now ∷ nows) =
    let rest = deliveries (limit now l).1 nows in if (limit now l).0 then now ∷ rest else rest

-- A message is delivered if the last one that was is at least `m` ago.
pub greedy : ℕ → ℕ → List ℕ → List ℕ
greedy m last [] = []
greedy m last (now ∷ nows) =
    let delivered = now ∷ greedy m now nows in
    let dropped = greedy m last nows in if leb m (now - last) then delivered else dropped

-- Times that never fall, from one to below another.
abbrev pub Rises : ℕ → ℕ → List ℕ → Type 0
Rises from to [] = Unit
Rises from to (now ∷ nows) = (from ≤ now) × (now < to) × Rises now to nows

Rises-from : (a b to : ℕ) (nows : List ℕ) → a ≤ b → Rises b to nows → Rises a to nows
Rises-from a b to [] h r = tt
Rises-from a b to (now ∷ nows) h r = (omega arith, r.1, r.2)

elapsed :
    (last now : ℕ)
    → last ≤ now
    → now < last + 4294967296
    → (rep now + 4294967296 - rep last) % 4294967296 ≡ now - last
elapsed last now h k = omega arith

limit_lem :
    (m last now : ℕ)
    → last ≤ now
    → now < last + 4294967296
    → limit now (record { min_sep_rep = m; last_delivery_rep = rep last }) ≡ (
        if leb m (now - last)
        then (true, record { min_sep_rep = m; last_delivery_rep = rep now })
        else (false, record { min_sep_rep = m; last_delivery_rep = rep last }))
unfolding limit
limit_lem m last now h k =
    ap
      (λ d.
        if leb m d
        then (true, record { min_sep_rep = m; last_delivery_rep = rep now })
        else (false, record { min_sep_rep = m; last_delivery_rep = rep last }))
      (elapsed last now h k)

-- A rate limiter whose last delivery was at `last`, with messages at times that never fall, all less
-- than 2^32 milliseconds after it: a message is delivered exactly if it comes at least the minimum
-- separation after the delivery before it.
pub deliveries-greedy :
    (m last to : ℕ) (nows : List ℕ)
    → to ≤ last + 4294967296
    → Rises last to nows
    → deliveries (record { min_sep_rep = m; last_delivery_rep = rep last }) nows
      ≡ greedy m last nows
unfolding deliveries greedy
deliveries-greedy m last to [] h r = refl
deliveries-greedy m last to (now ∷ nows) h r =
    rw (limit_lem m last now r.0 (omega arith)) (elim (Bool-cases (leb m (now - last))) [
      | inl t ↦ rw t (ap (λ l. now ∷ l) (deliveries-greedy m now to nows (omega arith) r.2))
      | inr f ↦ rw f (deliveries-greedy m last to nows h (Rises-from last now to nows r.0 r.2))
    ])
