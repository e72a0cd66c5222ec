-- ===== src/LruC/Driver.antt =====
-- `main` of 01-basics/lru-in-c/src/main.c up to the output of the hits: how it ends, and the memory then.
pub mod Requests
pub mod Runs
pub mod Main
use cpp_graduate.Base.{
  ℕ, zero, suc, ◌+◌, ◌^◌, Bool, true, false, ◌||◌, Option, none, some, leb, ltb, if◌then◌else◌,
}
use cpp_graduate.LruC.{Memory}
use cpp_graduate.LruC.Links.{Heap}
use cpp_graduate.LruC.Cache.{
  CacheEntry, LruCache, LruResult, hit, miss, lru_no_memory, invalid_argument, index_error, Answer,
  lookup_update,
}
use cpp_graduate.LruC.Lifetime.{lru_create, lru_destroy}
use cpp_graduate.LruC.Input.{Input, read_integer}

-- The ends of the program: the hits that it counts, or what it complains of.
pub data Exit : Type 0 where
  finished : ℕ → Exit
  bad_sizes no_cache : Exit
  bad_element : ℕ → Exit
  no_page : LruResult → Exit

abbrev pub slow_get_page : ℕ → ℕ
slow_get_page key = key

unfoldable pub close : ℕ → LruCache ℕ → Memory → Exit → Option (Exit × Memory)
unfolding lru_destroy
close fuel cache mem exit = elim (lru_destroy fuel cache mem) [
  | none ↦ none
  | some mem' ↦ some (exit, mem')
]

-- The loop of `main`, with the number of the elements that are left.
unfoldable pub serve : ℕ → ℕ → ℕ → ℕ → LruCache ℕ → Memory → Input → Option (Exit × Memory)
unfolding close read_integer lookup_update
serve fuel zero i hits cache mem input = close fuel cache mem (finished hits)
serve fuel (suc left) i hits cache mem input = elim (read_integer input) [
  | none ↦ close fuel cache mem (bad_element (i + 1))
  | some (key, rest) ↦ elim (lookup_update cache key slow_get_page mem) [
    | none ↦ none
    | some a ↦ elim a.result [
      | hit ↦ serve fuel left (suc i) (suc hits) a.cache a.mem rest
      | miss ↦ serve fuel left (suc i) hits a.cache a.mem rest
      | lru_no_memory ↦ close fuel a.cache a.mem (no_page lru_no_memory)
      | invalid_argument ↦ close fuel a.cache a.mem (no_page invalid_argument)
      | index_error ↦ close fuel a.cache a.mem (no_page index_error)
    ]
  ]
]

-- `main` from the creation of the cache on.
unfoldable pub with_cache :
    ℕ → ℕ → Input → Option (Option (LruCache ℕ) × Memory) → Option (Exit × Memory)
unfolding serve
with_cache fuel count input none = none
with_cache fuel count input (some (none, mem)) = some (no_cache, mem)
with_cache fuel count input (some (some cache, mem)) = serve fuel count 0 0 cache mem input

-- Both sizes are `int64_t`.
unfoldable pub with_sizes :
    ℕ → Heap (CacheEntry ℕ) → Memory → ℕ → ℕ → Input → Option (Exit × Memory)
unfolding with_cache lru_create
with_sizes fuel heap mem capacity count input =
    let limit = if ltb capacity count then capacity else count in
    let started = with_cache fuel count input (lru_create fuel heap limit mem) in
    if leb (2 ^ 63) capacity || leb (2 ^ 63) count then some (bad_sizes, mem) else started

unfoldable pub main : ℕ → Heap (CacheEntry ℕ) → Memory → Input → Option (Exit × Memory)
unfolding with_sizes read_integer
main fuel heap mem input = elim (read_integer input) [
  | none ↦ some (bad_sizes, mem)
  | some (capacity, rest) ↦ elim (read_integer rest) [
    | none ↦ some (bad_sizes, mem)
    | some (count, elements) ↦ with_sizes fuel heap mem capacity count elements
  ]
]
