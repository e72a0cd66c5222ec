-- ===== src/LruC/Lifetime.antt =====
-- `lru_create` and `lru_destroy` of 01-basics/lru-in-c/src/lru.c. The loops have a fuel, and `none` is that it
-- ran out.
pub mod Laws
pub mod Create
use cpp_graduate.Base.{ℕ, zero, suc, Bool, true, false, Option, none, some, ◌==◌, if◌then◌else◌}
use cpp_graduate.LruC.{Memory, malloc, free}
use cpp_graduate.LruC.HashMap.{HashMap, hash_map_create, hash_map_destroy}
use cpp_graduate.LruC.Links.{Heap, list_create, list_empty, list_destroy}
use cpp_graduate.LruC.Cache.{CacheEntry, LruCache, evict_oldest}

-- `hash_map_destroy` of a pointer that may be null
unfoldable pub release_map : Option (HashMap ℕ) → Memory → Memory
unfolding hash_map_destroy
release_map none mem = mem
release_map (some m) mem = hash_map_destroy m mem

abbrev pub buckets_for : ℕ → ℕ
buckets_for capacity = if capacity == 0 then 1 else capacity

module _ {Page : Type 0} where
  -- `list_destroy` of a pointer that may be null
  unfoldable pub release_list : ℕ → Heap (CacheEntry Page) → Option ℕ → Memory → Option Memory
  unfolding list_destroy
  release_list fuel heap none mem = some mem
  release_list fuel heap (some list) mem = elim (list_destroy fuel heap list mem) [
    | none ↦ none
    | some (_, mem') ↦ some mem'
  ]

  -- The end of `lru_create`, by what it has got.
  unfoldable pub after_create :
      ℕ
      → ℕ
      → Heap (CacheEntry Page)
      → Option ℕ
      → Option (HashMap ℕ) × Memory
      → Option (Option (LruCache Page) × Memory)
  unfolding release_list release_map
  after_create fuel capacity heap (some recency) (some index, mem) = some (
    some (record { heap = heap; recency = recency; index = index; capacity = capacity; size = 0 }),
    mem,
  )
  after_create fuel capacity heap none (index, mem) = some (none, free (release_map index mem))
  after_create fuel capacity heap (some recency) (none, mem) =
      elim (release_list fuel heap (some recency) mem) [
        | none ↦ none
        | some mem' ↦ some (none, free mem')
      ]

  unfoldable pub after_list :
      ℕ → ℕ → Option ℕ × Heap (CacheEntry Page) × Memory → Option (Option (LruCache Page) × Memory)
  unfolding after_create hash_map_create
  after_list fuel capacity (recency, heap, mem) =
      after_create fuel capacity heap recency (hash_map_create (buckets_for capacity) mem)

  unfoldable pub after_calloc :
      ℕ → ℕ → Heap (CacheEntry Page) → Bool × Memory → Option (Option (LruCache Page) × Memory)
  unfolding after_list list_create
  after_calloc fuel capacity heap (false, mem) = some (none, mem)
  after_calloc fuel capacity heap (true, mem) = after_list fuel capacity (list_create heap mem)

  unfoldable pub lru_create :
      ℕ → Heap (CacheEntry Page) → ℕ → Memory → Option (Option (LruCache Page) × Memory)
  unfolding after_calloc malloc
  lru_create fuel heap capacity mem = after_calloc fuel capacity heap (malloc mem)

  -- The loop of `lru_destroy`.
  unfoldable pub evict_all : ℕ → LruCache Page → Memory → Option (LruCache Page × Memory)
  unfolding list_empty evict_oldest
  evict_all zero cache mem = none
  evict_all (suc fuel) cache mem =
      let rest : Option (LruCache Page × Memory) = elim (evict_oldest cache mem) [
        | none ↦ none
        | some (c, mem') ↦ evict_all fuel c mem'
      ] in
      if list_empty cache.heap cache.recency then some (cache, mem) else rest

  -- `lru_destroy` of a cache that is there
  unfoldable pub lru_destroy : ℕ → LruCache Page → Memory → Option Memory
  unfolding evict_all release_list release_map
  lru_destroy fuel cache mem = elim (evict_all fuel cache mem) [
    | none ↦ none
    | some (c, mem1) ↦ elim (release_list fuel c.heap (some c.recency) mem1) [
      | none ↦ none
      | some mem2 ↦ some (free (release_map (some c.index) mem2))
    ]
  ]
