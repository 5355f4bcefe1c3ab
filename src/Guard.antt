-- ===== src/Guard.antt =====
-- DelegateMQ/extras/util/MonotonicGuard.h: the guard against stale sequence numbers, for an unsigned
-- `T` of each width. The difference is taken modulo the width and read as a signed number.
mod Tests
use async_duck_db.Common.{
  ℕ, ◌+◌, ◌-◌, ◌*◌, ◌/◌, ◌%◌, ◌<◌, ◌≤◌, ◌≡◌, refl, Bool, true, false, ◌&&◌, if◌then◌else◌, ltb,
  arith, List, [], ◌∷◌,
}

pub data Width : Type 0 where
  w8 : Width
  w16 : Width
  w32 : Width
  w64 : Width

-- the number of values of a `T`, and half of it
abbrev pub half_range : Width → ℕ
half_range w8 = 128
half_range w16 = 32768
half_range w32 = 2147483648
half_range w64 = 9223372036854775808

pub record MonotonicGuard : Type 0 where
  pub last_timestamp : ℕ
  pub first : Bool

abbrev pub new_guard : MonotonicGuard
new_guard = record { last_timestamp = 0; first = true }

-- `static_cast<SignedT>(timestamp - last) > 0`
abbrev pub is_ahead : ℕ → ℕ → ℕ → Bool
is_ahead half timestamp last =
    ltb 0 ((timestamp + 2 * half - last) % (2 * half))
    && ltb ((timestamp + 2 * half - last) % (2 * half)) half

abbrev pub newer_than : Width → ℕ → ℕ → Bool
newer_than w8 t last = is_ahead 128 t last
newer_than w16 t last = is_ahead 32768 t last
newer_than w32 t last = is_ahead 2147483648 t last
newer_than w64 t last = ltb last t

abbrev pub accept : ℕ → MonotonicGuard → Bool × MonotonicGuard
accept t g = (true, record { last_timestamp = t; first = false })

unfoldable pub is_newer : Width → ℕ → MonotonicGuard → Bool × MonotonicGuard
is_newer w t g =
    if g.first
    then accept t g
    else if newer_than w t g.last_timestamp
    then accept t g
    else (false, g)

abbrev pub reset : MonotonicGuard → MonotonicGuard
reset g = new_guard

pub data IsNarrow : Width → Type 0 where
  narrow8 : IsNarrow w8
  narrow16 : IsNarrow w16
  narrow32 : IsNarrow w32

-- For a type of at most 32 bits, a guard that has accepted the number `last` accepts the number `d`
-- steps after it, counted modulo the range of the type, exactly for `d` between 1 and half the
-- range less 1: also across the wrap-around.
pub is_newer_ahead :
    (w : Width) (last d : ℕ)
    → IsNarrow w
    → last < 2 * half_range w
    → d < 2 * half_range w
    → (is_newer w
        ((last + d) % (2 * half_range w))
        (record { last_timestamp = last; first = false })).0
      ≡ (ltb 0 d && ltb d (half_range w))
unfolding is_newer
is_newer_ahead w8 last d n hl hd = ground arith
is_newer_ahead w16 last d n hl hd = ground arith
is_newer_ahead w32 last d n hl hd = ground arith
is_newer_ahead w64 last d n hl hd = elim n [ ]

-- A number of the type that was accepted is rejected when it comes again, and the guard stays as it
-- was.
pub is_newer_replay :
    (w : Width) (t : ℕ) (g : MonotonicGuard)
    → t < 2 * half_range w
    → (is_newer w t g).0 ≡ true
    → is_newer w t (is_newer w t g).1 ≡ (false, (is_newer w t g).1)
unfolding is_newer
is_newer_replay w8 t g ht h = ground arith
is_newer_replay w16 t g ht h = ground arith
is_newer_replay w32 t g ht h = ground arith
is_newer_replay w64 t g ht h = ground arith
