-- ===== src/Framing/Ring.antt =====
-- `UartRingBuffer` of DelegateMQ/port/transport/stm32-uart/Stm32UartTransport.h: the bytes that the
-- interrupt has received. The length of the list is the template's `Size`.
pub mod Fifo
pub mod Places
use async_duck_db.Common.{
  ℕ, ◌+◌, ◌%◌, Bool, true, false, List, [], ◌∷◌, Option, none, some, ◌==◌, length, set, get_elem?,
  replicate, if◌then◌else◌,
}

pub record UartRingBuffer : Type 0 where
  pub buffer : List ℕ
  pub head : ℕ
  pub tail : ℕ

abbrev pub new_ring : ℕ → UartRingBuffer
new_ring size = record { buffer = replicate size 0; head = 0; tail = 0 }

unfoldable pub put : ℕ → UartRingBuffer → Bool × UartRingBuffer
put data_ r =
    let next_head = (r.head + 1) % length r.buffer in
    if next_head == r.tail
    then (false, r)
    else (true, record r { buffer = set r.buffer r.head data_; head = next_head })

-- `none` is an empty buffer; a read out of bounds, which there is none of, gives none too.
unfoldable pub get : UartRingBuffer → Option ℕ × UartRingBuffer
get r =
    if r.head == r.tail
    then (none, r)
    else (get_elem? r.buffer r.tail, record r { tail = (r.tail + 1) % length r.buffer })

unfoldable pub clear : UartRingBuffer → UartRingBuffer
clear r = record r { head = 0; tail = 0 }
