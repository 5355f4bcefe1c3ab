-- ===== src/Allocator/Xallocator.antt =====
-- DelegateMQ/extras/allocator/xallocator.cpp on a machine of 64 bits: blocks of sizes that are powers of
-- two, each from the allocator of its size, in the mode of heap blocks. The heap gives a block each time
-- it is asked, the number of blocks that it has given before. A function for the other threads acts
-- between the two critical sections of `xallocator_get_allocator`; the rest is one step. Writes over the
-- ends of a block, which the canaries are for, are outside.
pub mod Places
pub mod Powers
pub mod Buckets
pub mod Recycling
pub mod Smears
use async_duck_db.Common.{
  ℕ, zero, suc, ◌+◌, ◌-◌, ◌%◌, Bool, true, false, ◌||◌, List, [], ◌∷◌, ◌++◌, Option, none, some,
  ◌==◌, ltb, length, take, replicate, get_elem?, set, update, if◌then◌else◌, ◌&&◌,
}
use async_duck_db.Crc.{bits, number_of}
use async_duck_db.Allocator.{Allocator, new_allocator, pop, deallocate, wrap}

-- a sum of the type `size_t`
abbrev pub size_sum : ℕ → ℕ → ℕ
size_sum a b = (a + b) % 18446744073709551616

abbrev pub or_bits : List Bool → List Bool → List Bool
or_bits [] ys = []
or_bits (x ∷ xs) [] = x ∷ xs
or_bits (x ∷ xs) (y ∷ ys) = (x || y) ∷ or_bits xs ys

-- `k >> i`, the most significant bit first
abbrev pub shift_right : ℕ → List Bool → List Bool
shift_right i k = take (length k) (replicate i false ++ k)

-- the turns of the loop of `nexthigher`, the first with this shift
unfoldable pub smears : ℕ → ℕ → List Bool → List Bool
smears zero i k = k
smears (suc n) i k = smears n (i + i) (or_bits k (shift_right i k))

-- `nexthigher<size_t>`, whose loop shifts by 1, 2, 4, 8, 16 and 32
unfoldable pub nexthigher : ℕ → ℕ
unfolding smears
nexthigher k = size_sum (number_of 0 (smears 6 1 (bits 64 (size_sum k 18446744073709551615)))) 1

abbrev pub max_allocators : ℕ
max_allocators = 15

-- `GetBlockSize`
abbrev pub block_size : Allocator → ℕ
block_size a = if ltb a.object_size 8 then 8 else a.object_size

-- What is at the start of a block. `magic` is there with the safeguards only.
pub data Magic : Type 0 where
  xalloc_magic : Magic
  xalloc_freed : Magic

pub record BlockHeader : Type 0 where
  pub allocator : ℕ
  pub magic : Magic

-- An allocator is its place in the array, whose slots in use come first. `headers` is the memory.
pub record Xallocator : Type 0 where
  pub safeguards : Bool
  pub allocators : List Allocator
  pub headers : ℕ → Option BlockHeader
  pub heap : ℕ

abbrev pub header_size : ℕ
header_size = 16

abbrev pub footer_size : Bool → ℕ
footer_size safeguards = if safeguards then 4 else 0

-- the size of the blocks for a size that a client asks for
abbrev pub size_class : Bool → ℕ → ℕ
size_class safeguards size =
    nexthigher (size_sum (size_sum size header_size) (footer_size safeguards))

abbrev pub find_from : ℕ → ℕ → List Allocator → Option ℕ
find_from i size [] = none
find_from i size (a ∷ table) =
    let rest = find_from (suc i) size table in if block_size a == size then some i else rest

abbrev pub find_allocator : ℕ → List Allocator → Option ℕ
find_allocator size table = find_from 0 size table

-- `insert_allocator`; `none` is a full array
abbrev pub insert_allocator : Allocator → List Allocator → Option (List Allocator)
insert_allocator a table =
    if ltb (length table) max_allocators then some (table ++ (a ∷ [])) else none

-- the second critical section: a place, or the fault of a full array
unfoldable pub check_and_insert : ℕ → Xallocator → Option ℕ × Xallocator
check_and_insert size s = elim (find_allocator size s.allocators) [
  | some i ↦ (some i, s)
  | none ↦ elim (insert_allocator (new_allocator size 0) s.allocators) [
    | some table ↦ (some (length s.allocators), record s { allocators = table })
    | none ↦ (none, s)
  ]
]

-- `xallocator_get_allocator`
unfoldable pub get_allocator : (Xallocator → Xallocator) → ℕ → Xallocator → Option ℕ × Xallocator
unfolding check_and_insert
get_allocator others size s =
    let class_ = size_class s.safeguards size in
    elim (find_allocator class_ s.allocators) [
      | some i ↦ (some i, s)
      | none ↦ check_and_insert class_ (others s)
    ]

-- `AccountAlloc`
abbrev pub account_alloc : Bool → Allocator → Allocator
account_alloc new_block a = record a {
  block_cnt = if new_block then wrap (suc a.block_cnt) else a.block_cnt;
  blocks_in_use = wrap (suc a.blocks_in_use);
  allocations = wrap (suc a.allocations);
}

-- A block of an allocator, from its list or the heap, its header written by `set_block_allocator`.
abbrev pub give : ℕ → ℕ → Allocator → Xallocator → Option ℕ × Xallocator
give b i a s = (
  some b,
  record s {
    allocators = set s.allocators i a;
    headers = update s.headers b (some (record { allocator = i; magic = xalloc_magic }));
  },
)

abbrev pub take_block : ℕ → Allocator → Xallocator → Option ℕ × Xallocator
take_block i a s = elim (pop a).0 [
  | some b ↦ give b i (account_alloc false (pop a).1) s
  | none ↦ give s.heap i (account_alloc true a) (record s { heap = suc s.heap })
]

abbrev pub xmalloc_from : Option ℕ × Xallocator → Option ℕ × Xallocator
xmalloc_from (none, s) = (none, s)
xmalloc_from (some i, s) = elim (get_elem? s.allocators i) [
  | none ↦ (none, s)
  | some a ↦ take_block i a s
]

-- `xmalloc`; `none` is the fault
unfoldable pub xmalloc : (Xallocator → Xallocator) → ℕ → Xallocator → Option ℕ × Xallocator
unfolding get_allocator
xmalloc others size s = xmalloc_from (get_allocator others size s)

abbrev pub is_freed : Magic → Bool
is_freed xalloc_magic = false
is_freed xalloc_freed = true

abbrev pub free_magic : Bool → Magic → Magic
free_magic safeguards m = if safeguards then xalloc_freed else m

abbrev pub return_block : ℕ → BlockHeader → Xallocator → Option Xallocator
return_block b h s = elim (get_elem? s.allocators h.allocator) [
  | none ↦ none
  | some a ↦ some (record s {
    allocators = set s.allocators h.allocator (deallocate b a);
    headers =
        update s.headers b
          (some (record { allocator = h.allocator; magic = free_magic s.safeguards h.magic }));
  })
]

-- `xfree`; `none` is the fault of the safeguards, and stands for what happens to memory that `xmalloc`
-- has not given
unfoldable pub xfree : Option ℕ → Xallocator → Option Xallocator
xfree none s = some s
xfree (some b) s = elim (s.headers b) [
  | none ↦ none
  | some h ↦ if s.safeguards && is_freed h.magic then none else return_block b h s
]

-- `get_block_allocator`, with its checks; `none` is as for `xfree`
abbrev pub get_block_allocator : ℕ → Xallocator → Option Allocator
get_block_allocator b s = elim (s.headers b) [
  | none ↦ none
  | some h ↦ if s.safeguards && is_freed h.magic then none else get_elem? s.allocators h.allocator
]

-- How `xrealloc` ends: with a block and the number of bytes copied to it, with the block freed, or as
-- `xfree` or `xmalloc` with a fault.
pub data Realloc : Type 0 where
  moved : ℕ → ℕ → Xallocator → Realloc
  freed : Xallocator → Realloc
  fault : Realloc

abbrev pub copied : Bool → Allocator → ℕ → ℕ
copied safeguards a size =
    let old_size = block_size a - header_size - footer_size safeguards in
    if ltb old_size size then old_size else size

abbrev pub move_block : ℕ → ℕ → Option ℕ × Xallocator → Realloc
move_block old size (none, s) = fault
move_block old size (some b, s) = elim (get_block_allocator old s) [
  | none ↦ fault
  | some a ↦ elim (xfree (some old) s) [
    | none ↦ fault
    | some s' ↦ moved b (copied s.safeguards a size) s'
  ]
]

abbrev pub first_block : Option ℕ × Xallocator → Realloc
first_block (none, s) = fault
first_block (some b, s) = moved b 0 s

abbrev pub only_free : Option Xallocator → Realloc
only_free none = fault
only_free (some s) = freed s

-- `xrealloc`
unfoldable pub xrealloc : (Xallocator → Xallocator) → Option ℕ → ℕ → Xallocator → Realloc
unfolding xmalloc xfree
xrealloc others none size s = first_block (xmalloc others size s)
xrealloc others (some old) size s =
    if size == 0
    then only_free (xfree (some old) s)
    else move_block old size (xmalloc others size s)
