-- ===== src/Allocator/Tests.antt =====
-- Runs of the blocks of DelegateMQ/extras/allocator/Allocator.cpp.
use async_duck_db.Common.{◌≡◌, refl, [], ◌∷◌, arith, ◌<◌}
use async_duck_db.Common.{ℕ, true, ◌≤◌, ◌<◌, ◌^◌, get_elem?, update, none, some}
use async_duck_db.Allocator.Xallocator.{
  Xallocator, xalloc_magic, xalloc_freed, block_size, size_class, nexthigher, get_allocator,
  xrealloc, copied, freed,
}
use async_duck_db.Allocator.Xallocator.Buckets.{IsTable, get_allocator_fits, get_allocator-IsTable}
use async_duck_db.Allocator.{Allocator, bad_alloc, block, new_allocator, allocate, deallocate}

-- a pool of two blocks of eight bytes, after two allocations
abbrev two_out : Allocator
two_out = (allocate 8 (allocate 4 (new_allocator 8 2)).1).1

third-refused : (allocate 8 two_out).0 ≡ bad_alloc
unfolding allocate
third-refused = refl

-- the block given back is the one given out next
given_back-again : (allocate 8 (deallocate 0 two_out)).0 ≡ block 0
unfolding allocate deallocate
given_back-again = refl

abbrev empty_array : Xallocator
empty_array = record { safeguards = true; allocators = []; headers = λ b. none; heap = 0 }

first_allocator : (get_allocator (λ x. x) 100 empty_array).0 ≡ some 0
unfolding get_allocator nexthigher
first_allocator = refl

get_allocator_fits_example :
    (a : Allocator) × (m : ℕ) × (get_elem? (get_allocator (λ x. x) 100 empty_array).1.allocators 0
      ≡ some a)
    × (block_size a ≡ 2 ^ m)
    × (120 ≤ block_size a)
    × (block_size a < 240)
get_allocator_fits_example =
    get_allocator_fits (λ x. x) 100 0 empty_array (omega arith) first_allocator

empty_array-IsTable : IsTable []
empty_array-IsTable = record { distinct = λ i j size x y. absurd (cc (x.here)); room = omega arith }

get_allocator-IsTable_example : IsTable (get_allocator (λ x. x) 100 empty_array).1.allocators
get_allocator-IsTable_example =
    get_allocator-IsTable (λ x. x) 100 empty_array (omega arith) (λ x w. w) empty_array-IsTable

abbrev one_block : Xallocator
one_block = record {
  safeguards = true;
  allocators = new_allocator 128 0 ∷ [];
  headers = λ b. some (record { allocator = 0; magic = xalloc_magic });
  heap = 1;
}

abbrev block_back : Xallocator
block_back = record {
  safeguards = true;
  allocators = deallocate 0 (new_allocator 128 0) ∷ [];
  headers = update one_block.headers 0 (some (record { allocator = 0; magic = xalloc_freed }));
  heap = 1;
}

-- a size near the end of the type gets blocks that do not even hold the header
size_class-overflow : size_class true 18446744073709551600 ≡ 4
unfolding nexthigher
size_class-overflow = refl

-- a block of 128 bytes has 108 for its client
copied-smaller : copied true (new_allocator 128 0) 200 ≡ 108
copied-smaller = refl

xrealloc-freed : xrealloc (λ x. x) (some 0) 0 one_block ≡ freed block_back
unfolding xrealloc
xrealloc-freed = refl
