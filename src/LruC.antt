-- ===== src/LruC.antt =====
-- 01-basics/lru-in-c: an LRU cache in C of a linked list, a hash table and their owner. The allocator is not
-- the program's: whether each request succeeds is an input, and the memory counts blocks.
pub mod Answers
pub mod HashMap
pub mod Links
pub mod Cache
pub mod Lifetime
pub mod Input
pub mod Driver
pub mod Tests
use cpp_graduate.Base.{ℕ, suc, List, [], ◌∷◌, Bool, true, false, if◌then◌else◌}

-- The answers to the next requests; where there are none left, the allocator refuses.
pub record Memory : Type 0 where
  pub answers : List Bool
  pub allocated : ℕ
  pub freed : ℕ

-- `malloc` and `calloc`: whether there is a block
unfoldable pub malloc : Memory → Bool × Memory
malloc m = elim m.answers [
  | [] ↦ (false, m)
  | given ∷ rest ↦ (
    given,
    record m { answers = rest; allocated = if given then suc m.allocated else m.allocated },
  )
]

-- `free` of a block
unfoldable pub free : Memory → Memory
free m = record m { freed = suc m.freed }
