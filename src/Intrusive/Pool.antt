-- ===== src/Intrusive/Pool.antt =====
-- `lru_access` of 01-basics/lru-in-c-datastructs/src/lru.c. The number of an entry stands for its address, for
-- that of its link and for that of its mapping; `none` is a failed assert, an exhausted fuel or a null pointer.
pub mod Holds
pub mod Hit
use cpp_graduate.Base.{ℕ, suc, ◌+◌, Bool, true, false, Option, none, some, ltb, ◌==◌, if◌then◌else◌}
use cpp_graduate.Intrusive.IntMap.{Store, IntMap, int_map_find, int_map_insert, int_map_remove}
use cpp_graduate.Intrusive.Links.{Ring, list_init, list_push_front, list_remove}

-- `recency` is the address of the sentinel, `entries` that of the first entry.
pub record LruCache : Type 0 where
  pub ring : Ring
  pub table : Store
  pub value : ℕ → ℕ
  pub recency : ℕ
  pub index : IntMap
  pub entries : ℕ
  pub capacity : ℕ
  pub used : ℕ

-- The entry for a key that is not there: the next one of the array, or the oldest one.
unfoldable pub take_entry : LruCache → Option (ℕ × LruCache)
unfolding list_init list_remove int_map_remove
take_entry cache =
    let next = cache.entries + cache.used in
    let oldest = cache.ring.prev cache.recency in
    let reused : Option (ℕ × LruCache) = elim (int_map_remove cache.table oldest) [
      | none ↦ none
      | some t ↦ some (oldest, record cache { ring = list_remove cache.ring oldest; table = t })
    ] in
    if ltb cache.used cache.capacity
    then some (next, record cache { ring = list_init cache.ring next; used = suc cache.used })
    else reused

-- The key and the value are set, and the mapping is inserted.
unfoldable pub put_entry : ℕ → ℕ → ℕ → LruCache → Option LruCache
unfolding int_map_insert
put_entry fuel key entry cache =
    let keyed : Store = record cache.table {
      key = λ e. if e == entry then key else cache.table.key e;
    } in
    elim (int_map_insert fuel keyed cache.index entry) [
      | none ↦ none
      | some (false, t) ↦ none
      | some (true, t) ↦
          some
            (record cache { table = t; value = λ e. if e == entry then entry else cache.value e })
    ]

abbrev pub to_front : LruCache → ℕ → LruCache
to_front cache entry = record cache { ring = list_push_front cache.ring cache.recency entry }

unfoldable pub add_entry : ℕ → ℕ → LruCache → Option (Bool × LruCache)
unfolding take_entry put_entry list_push_front
add_entry fuel key cache = elim (take_entry cache) [
  | none ↦ none
  | some (entry, c) ↦ elim (put_entry fuel key entry c) [
    | none ↦ none
    | some c' ↦ some (false, to_front c' entry)
  ]
]

unfoldable pub lru_access : ℕ → LruCache → ℕ → Option (Bool × LruCache)
unfolding add_entry int_map_find list_remove list_push_front
lru_access fuel cache key =
    let result : Option (Bool × LruCache) = elim (int_map_find fuel cache.table cache.index key) [
      | none ↦ none
      | some (some found) ↦
          let entry = cache.value found in
          some (true, to_front (record cache { ring = list_remove cache.ring entry }) entry)
      | some none ↦ add_entry fuel key cache
    ] in
    if cache.capacity == 0 then some (false, cache) else result
