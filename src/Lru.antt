-- ===== src/Lru.antt =====
-- 01-basics/lru-in-cxx/cache.hpp: the template `cache_t`, an LRU cache of a `std::list` of entries and a
-- `std::unordered_map` from a key to the iterator of its entry. An iterator is the identity of the list
-- node that it points at, which `splice` does not change. Keys are compared only for equality, and are
-- numbers; the page type is any type.
pub mod Store
pub mod Spec
pub mod Refine
pub mod Requests
pub mod Recency
pub mod Tests
use cpp_graduate.Base.{
  ℕ, zero, suc, ◌+◌, List, [], ◌∷◌, ◌++◌, map, Bool, true, false, Option, none, some, ◌==◌,
  if◌then◌else◌, length,
}

pub record Node (T : Type 0) : Type 0 where
  pub id : ℕ
  pub key : ℕ
  pub page : T

-- `fresh` is the identity of the next node that is allocated.
pub record Cache (T : Type 0) : Type 0 where
  pub sz : ℕ
  pub cache : List (Node T)
  pub hash : List (ℕ × ℕ)
  pub fresh : ℕ

-- `hash_.find`
unfoldable pub hash_find : ℕ → List (ℕ × ℕ) → Option ℕ
hash_find k [] = none
hash_find k ((j, it) ∷ m) = if j == k then some it else hash_find k m

-- `hash_.erase(key)`
unfoldable pub hash_erase : ℕ → List (ℕ × ℕ) → List (ℕ × ℕ)
hash_erase k [] = []
hash_erase k ((j, it) ∷ m) = let rest = hash_erase k m in if j == k then rest else (j, it) ∷ rest

-- `hash_.emplace`: a key that is there keeps its value
unfoldable pub hash_emplace : ℕ → ℕ → List (ℕ × ℕ) → List (ℕ × ℕ)
unfolding hash_find
hash_emplace k it m = elim (hash_find k m) [ none ↦ (k, it) ∷ m | some _ ↦ m ]

module _ {T : Type 0} where
  -- The node at an iterator, and the list without it.
  unfoldable pub extract : ℕ → List (Node T) → Option (Node T × List (Node T))
  extract it [] = none
  extract it (n ∷ l) =
      let rest : Option (Node T × List (Node T)) = elim (extract it l) [
        | none ↦ none
        | some (m, r) ↦ some (m, n ∷ r)
      ] in
      if n.id == it then some (n, l) else rest

  -- `cache_.splice(cache_.begin(), cache_, it)`
  unfoldable pub splice_front : ℕ → List (Node T) → List (Node T)
  unfolding extract
  splice_front it l = elim (extract it l) [ none ↦ l | some (n, r) ↦ n ∷ r ]

  -- `cache_.back()` with what `cache_.pop_back()` leaves; `none` on an empty list.
  unfoldable pub pop_back : List (Node T) → Option (List (Node T) × Node T)
  pop_back [] = none
  pop_back (n ∷ []) = some ([], n)
  pop_back (n ∷ m ∷ l) = elim (pop_back (m ∷ l)) [
    | none ↦ none
    | some (r, last) ↦ some (n ∷ r, last)
  ]

  -- The constructor.
  unfoldable pub make_cache : ℕ → Cache T
  make_cache sz = record { sz = sz; cache = []; hash = []; fresh = 0 }

  abbrev pub full : Cache T → Bool
  full c = length c.cache == c.sz

  -- The eviction of the least recently used entry.
  unfoldable pub evict : Cache T → Cache T
  unfolding pop_back hash_erase
  evict c = elim (pop_back c.cache) [
    | none ↦ c
    | some (r, last) ↦ record c { cache = r; hash = hash_erase last.key c.hash }
  ]

  -- `cache_.emplace_front` and `hash_.emplace`
  unfoldable pub emplace_front : Cache T → ℕ → T → Cache T
  unfolding hash_emplace
  emplace_front c key page = record c {
    cache = record { id = c.fresh; key = key; page = page } ∷ c.cache;
    hash = hash_emplace key c.fresh c.hash;
    fresh = suc c.fresh;
  }

  -- `lookup_update`: the new state, and whether the key was there. `slow_get_page` is the caller's.
  unfoldable pub lookup_update : Cache T → ℕ → (ℕ → T) → Cache T × Bool
  unfolding splice_front evict emplace_front
  lookup_update c key slow_get_page =
      if c.sz == 0 then (c, false) else (elim (hash_find key c.hash) [
        | some it ↦ (record c { cache = splice_front it c.cache }, true)
        | none ↦ (emplace_front (if full c then evict c else c) key (slow_get_page key), false)
      ])

  -- The loop of `main` in cache.cc over the requested keys: the cache and the number of hits.
  unfoldable pub serve : List ℕ → (ℕ → T) → Cache T → ℕ → Cache T × ℕ
  unfolding lookup_update
  serve [] slow_get_page c hits = (c, hits)
  serve (key ∷ keys) slow_get_page c hits =
      let (c', hit) = lookup_update c key slow_get_page in
      serve keys slow_get_page c' (if hit then suc hits else hits)
