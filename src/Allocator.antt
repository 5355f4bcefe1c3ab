-- ===== src/Allocator.antt =====
-- DelegateMQ/extras/allocator/Allocator.h and Allocator.cpp: blocks of one size from a pool, or from
-- the heap, and the list of the free ones. A block is the number of blocks made before it, and no
-- handler is set for `new`. Pushing and popping are the ends of the list `m_pHead`. The counters have
-- 32 bits; the next index of the pool is at most `m_maxObjects`.
pub mod Blocks
pub mod Xallocator
mod Tests
use async_duck_db.Common.{ℕ, suc, ◌+◌, ◌%◌, List, [], ◌∷◌, Option, none, some, ltb, if◌then◌else◌}

-- what is left of a number in 32 bits
abbrev pub wrap : ℕ → ℕ
wrap n = n % 4294967296

-- `max_objects` of 0 is the mode of heap blocks. `heap_blocks` is the heap's: how many it has made.
pub record Allocator : Type 0 where
  pub object_size : ℕ
  pub max_objects : ℕ
  pub free : List ℕ
  pub pool_index : ℕ
  pub block_cnt : ℕ
  pub heap_blocks : ℕ
  pub blocks_in_use : ℕ
  pub allocations : ℕ
  pub deallocations : ℕ

abbrev pub new_allocator : ℕ → ℕ → Allocator
new_allocator size objects = record {
  object_size = size;
  max_objects = objects;
  free = [];
  pool_index = 0;
  block_cnt = 0;
  heap_blocks = 0;
  blocks_in_use = 0;
  allocations = 0;
  deallocations = 0;
}

-- How `Allocate` ends: with a block, with `BAD_ALLOC`, or in the fault handler.
pub data Allocated : Type 0 where
  block : ℕ → Allocated
  bad_alloc : Allocated
  faulted : Allocated

abbrev pub push : ℕ → Allocator → Allocator
push b a = record a { free = b ∷ a.free }

abbrev pub pop : Allocator → Option ℕ × Allocator
pop a = elim a.free [ [] ↦ (none, a) | b ∷ rest ↦ (some b, record a { free = rest }) ]

-- a block that is not on the list: the next of the pool, or one of the heap
abbrev pub new_block : Allocator → Option ℕ × Allocator
new_block a =
    if ltb 0 a.max_objects
    then (if ltb a.pool_index a.max_objects
        then (some a.pool_index, record a { pool_index = suc a.pool_index })
        else (none, a))
    else (
      some a.heap_blocks,
      record a { block_cnt = wrap (suc a.block_cnt); heap_blocks = suc a.heap_blocks },
    )

abbrev pub account : Option ℕ × Allocator → Allocated × Allocator
account (none, a) = (bad_alloc, a)
account (some b, a) = (
  block b,
  record a { blocks_in_use = wrap (suc a.blocks_in_use); allocations = wrap (suc a.allocations) },
)

abbrev pub or_new : Option ℕ × Allocator → Option ℕ × Allocator
or_new (none, a) = new_block a
or_new (some b, a) = (some b, a)

unfoldable pub allocate : ℕ → Allocator → Allocated × Allocator
allocate size a = if ltb a.object_size size then (faulted, a) else account (or_new (pop a))

unfoldable pub deallocate : ℕ → Allocator → Allocator
deallocate b a = record (push b a) {
  blocks_in_use = wrap (a.blocks_in_use + 4294967295);
  deallocations = wrap (suc a.deallocations);
}
