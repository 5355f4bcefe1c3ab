-- ===== src/Guard/Tests.antt =====
-- Tests of the guard of DelegateMQ/extras/util/MonotonicGuard.h.
use async_duck_db.Common.{◌+◌, ◌*◌, ◌%◌, ◌≡◌, refl, true, false, arith, ◌&&◌, ltb}
use async_duck_db.Guard.{w16, narrow16, MonotonicGuard, is_newer, is_newer_ahead}

abbrev near_wrap : MonotonicGuard
near_wrap = record { last_timestamp = 65535; first = false }

wraps : is_newer w16 0 near_wrap ≡ (true, record { last_timestamp = 0; first = false })
unfolding is_newer
wraps = refl

is_newer_ahead_example :
    (is_newer w16 ((65535 + 3) % (2 * 32768)) near_wrap).0 ≡ (ltb 0 3 && ltb 3 32768)
is_newer_ahead_example = is_newer_ahead w16 65535 3 narrow16 (omega arith) (omega arith)
