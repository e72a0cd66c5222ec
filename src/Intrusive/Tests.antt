-- ===== src/Intrusive/Tests.antt =====
-- A run of the cache of 01-basics/lru-in-c-datastructs/src/lru.c.
use cpp_graduate.Base.{ℕ, ◌≡◌, refl, List, [], ◌∷◌, Bool, true, false, none, some}
use cpp_graduate.Intrusive.Pool.{LruCache, lru_access}

-- An empty cache of the entries 10 and 11, with two buckets.
abbrev two_entries : LruCache
two_entries = record {
  ring = record { prev = λ _. 1; next = λ _. 1; value = λ _. none; unused = 100 };
  table = record { cell = λ _. none; key = λ _. 0; prev_next = λ _. none };
  value = λ _. 0;
  recency = 1;
  index = record { buckets = 100; bucket_count = 2 };
  entries = 10;
  capacity = 2;
  used = 0;
}

abbrev access_all : LruCache → List ℕ → List Bool
access_all cache [] = []
access_all cache (key ∷ keys) = elim (lru_access 5 cache key) [
  | none ↦ []
  | some (found, c) ↦ found ∷ access_all c keys
]

-- The key 2 is evicted for 3, and 1 for 2.
access_run :
    access_all two_entries (1 ∷ 2 ∷ 1 ∷ 3 ∷ 2 ∷ 3 ∷ 1 ∷ [])
    ≡ false ∷ false ∷ true ∷ false ∷ false ∷ true ∷ false ∷ []
unfolding lru_access
access_run = refl
