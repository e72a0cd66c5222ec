-- ===== src/LruC/Cache.antt =====
-- 01-basics/lru-in-c/src/lru.c: the cache over the list of list.c and the table of hash_map.c. A payload is
-- a block of its own, which one node points at. `none` is the dereference of a null pointer.
pub mod Holds
pub mod Evict
pub mod Outcome
pub mod Insert
pub mod Load
pub mod Serve
pub mod Refine
use cpp_graduate.Base.{
  ℕ, zero, suc, ◌+◌, ◌-◌, List, [], ◌∷◌, Bool, true, false, ◌||◌, not, Option, none, some, ◌==◌,
  if◌then◌else◌,
}
use cpp_graduate.LruC.{Memory, malloc, free}
use cpp_graduate.LruC.HashMap.{
  HashMap, HashMapResult, inserted, duplicate, no_memory, hash_map_find, hash_map_insert,
  hash_map_remove, hash_map_create, hash_map_destroy,
}
use cpp_graduate.LruC.Links.{
  Heap, set_value, list_create, list_empty, list_back, list_value, list_push_front, list_move_front,
  list_remove, list_destroy,
}

-- `value` is not set before the page is loaded.
pub record CacheEntry (Page : Type 0) : Type 0 where
  pub key : ℕ
  pub value : Option Page

pub record LruCache (Page : Type 0) : Type 0 where
  pub heap : Heap (CacheEntry Page)
  pub recency : ℕ
  pub index : HashMap ℕ
  pub capacity : ℕ
  pub size : ℕ

pub data LruResult : Type 0 where
  hit miss lru_no_memory invalid_argument index_error : LruResult

-- What a call returns, leaves behind, and has written through `value`.
pub record Answer (Page : Type 0) : Type 0 where
  pub result : LruResult
  pub cache : LruCache Page
  pub mem : Memory
  pub value : Option Page

module _ {Page : Type 0} where
  unfoldable pub evict_oldest : LruCache Page → Memory → Option (LruCache Page × Memory)
  unfolding list_back list_value hash_map_remove list_remove
  evict_oldest cache mem = elim (list_back cache.heap cache.recency) [
    | none ↦ none
    | some node ↦ elim (list_value cache.heap node) [
      | none ↦ none
      | some entry ↦
          let (_, index, mem1) = hash_map_remove cache.index entry.key mem in
          let (heap, mem2) = list_remove cache.heap cache.recency node mem1 in
          some (record cache { heap = heap; index = index; size = cache.size - 1 }, free mem2)
    ]
  ]

  -- The end of `insert_page`, when all allocations have succeeded.
  unfoldable pub load_page : LruCache Page → ℕ → ℕ → (ℕ → Page) → Memory → Option (Answer Page)
  unfolding evict_oldest
  load_page cache key node slow_get_page mem =
      let page = slow_get_page key in
      let entry : CacheEntry Page = record { key = key; value = some page } in
      let loaded = record cache { heap = set_value cache.heap node (some entry) } in
      let evicted =
        if loaded.size == loaded.capacity then evict_oldest loaded mem else some (loaded, mem) in
      elim evicted [
        | none ↦ none
        | some (c, mem') ↦ some (record {
          result = miss;
          cache = record c { size = suc c.size };
          mem = mem';
          value = some page;
        })
      ]

  -- The end of `insert_page`, by the result of the insertion into the index.
  unfoldable pub index_page :
      LruCache Page → ℕ → ℕ → (ℕ → Page) → HashMapResult → Memory → Option (Answer Page)
  unfolding load_page list_remove
  index_page cache key node slow_get_page inserted mem = load_page cache key node slow_get_page mem
  index_page cache key node slow_get_page duplicate mem =
      let (heap, mem') = list_remove cache.heap cache.recency node mem in
      some (record {
        result = index_error;
        cache = record cache { heap = heap };
        mem = free mem';
        value = none;
      })
  index_page cache key node slow_get_page no_memory mem =
      let (heap, mem') = list_remove cache.heap cache.recency node mem in
      some (record {
        result = lru_no_memory;
        cache = record cache { heap = heap };
        mem = free mem';
        value = none;
      })

  -- `insert_page` after the insertion into the index, after that into the list, and after the first
  -- allocation, each by its result
  unfoldable pub after_index :
      LruCache Page → ℕ → ℕ → (ℕ → Page) → HashMapResult × HashMap ℕ × Memory → Option (Answer Page)
  unfolding index_page
  after_index cache key node slow_get_page (result, index, mem) =
      index_page (record cache { index = index }) key node slow_get_page result mem

  unfoldable pub after_push :
      LruCache Page
      → ℕ
      → (ℕ → Page)
      → Option ℕ × Heap (CacheEntry Page) × Memory
      → Option (Answer Page)
  unfolding after_index hash_map_insert
  after_push cache key slow_get_page (none, heap, mem) = some (record {
    result = lru_no_memory;
    cache = record cache { heap = heap };
    mem = free mem;
    value = none;
  })
  after_push cache key slow_get_page (some node, heap, mem) =
      after_index (record cache { heap = heap }) key node slow_get_page
        (hash_map_insert cache.index key node mem)

  unfoldable pub after_malloc :
      LruCache Page → ℕ → (ℕ → Page) → Bool × Memory → Option (Answer Page)
  unfolding after_push list_push_front
  after_malloc cache key slow_get_page (false, mem) =
      some (record { result = lru_no_memory; cache = cache; mem = mem; value = none })
  after_malloc cache key slow_get_page (true, mem) =
      after_push cache key slow_get_page
        (list_push_front cache.heap cache.recency (record { key = key; value = none }) mem)

  unfoldable pub insert_page : LruCache Page → ℕ → (ℕ → Page) → Memory → Option (Answer Page)
  unfolding after_malloc
  insert_page cache key slow_get_page mem = after_malloc cache key slow_get_page (malloc mem)

  -- `lookup_update` of a cache with pointers that are not null
  unfoldable pub lookup_update : LruCache Page → ℕ → (ℕ → Page) → Memory → Option (Answer Page)
  unfolding insert_page hash_map_find list_move_front
  lookup_update cache key slow_get_page mem =
      if cache.capacity == 0
      then some
          (record { result = miss; cache = cache; mem = mem; value = some (slow_get_page key) })
      else elim (hash_map_find cache.index key) [
        | none ↦ insert_page cache key slow_get_page mem
        | some node ↦ elim (list_value (list_move_front cache.heap cache.recency node) node) [
          | none ↦ none
          | some entry ↦ some (record {
            result = hit;
            cache = record cache { heap = list_move_front cache.heap cache.recency node };
            mem = mem;
            value = entry.value;
          })
        ]
      ]
