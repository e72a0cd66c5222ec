-- ===== src/LruC/Cache/Outcome.antt =====
-- What a request to the cache of 01-basics/lru-in-c/src/lru.c may do, by its result.
use cpp_graduate.Base.{
  ℕ, ◌+◌, ◌*◌, ◌≡◌, ◌<◌, List, ◌∷◌, ◌++◌, Bool, replicate, true, false, Option, none, some, elem,
  take, length, All,
}
use cpp_graduate.Lru.{Node}
use cpp_graduate.Lru.Spec.{touch}
use cpp_graduate.Lru.Store.{keys}
use cpp_graduate.LruC.{Memory}
use cpp_graduate.LruC.Answers.{Refuses}
use cpp_graduate.LruC.Cache.{
  LruCache, LruResult, hit, miss, lru_no_memory, invalid_argument, index_error, Answer,
}
use cpp_graduate.LruC.Cache.Holds.{Holds}

-- The allocator is not asked for a hit. For a miss it gives three blocks, and where memory ran out it
-- gave fewer than three and refused the next.
abbrev pub Asked : LruResult → List Bool → List Bool → Type 0
Asked hit answers answers' = answers ≡ answers'
Asked miss answers answers' = answers ≡ true ∷ true ∷ true ∷ answers'
Asked lru_no_memory answers answers' =
    (n : ℕ) × (rest : List Bool) × (n < 3)
    × (answers ≡ replicate n true ++ rest)
    × Refuses rest answers'
Asked invalid_argument answers answers' = ⊥
Asked index_error answers answers' = ⊥

module _ {Page : Type 0} where
  -- The pages of the entries are those that the loader gives for their keys.
  abbrev pub IsLoaded : (ℕ → Page) → List (Node Page) → Type 0
  IsLoaded f l = All (λ n. n.page ≡ f n.key) l

  -- A hit or a miss says whether the key was there, gives the page of the key, and leaves the most recent
  -- keys. Where memory ran out nothing is written and the entries are those before; there is no other result.
  abbrev pub Outcome :
      LruResult → (ℕ → Page) → ℕ → ℕ → List (Node Page) → List (Node Page) → Option Page → Type 0
  Outcome hit f capacity key l l' v =
      (elem key (keys l) ≡ true)
      × (keys l' ≡ take capacity (touch (keys l) key))
      × (v ≡ some (f key))
  Outcome miss f capacity key l l' v =
      (elem key (keys l) ≡ false)
      × (keys l' ≡ take capacity (touch (keys l) key))
      × (v ≡ some (f key))
  Outcome lru_no_memory f capacity key l l' v = (elem key (keys l) ≡ false) × (l' ≡ l) × (v ≡ none)
  Outcome invalid_argument f capacity key l l' v = ⊥
  Outcome index_error f capacity key l l' v = ⊥

  pub record IsAnswered (c : LruCache Page) (key : ℕ) (f : ℕ → Page) (mem : Memory)
      (l : List (Node Page)) (a : Answer Page) (l' : List (Node Page)) : Type 0 where
    pub holds : Holds a.cache l'
    pub capacity : a.cache.capacity ≡ c.capacity
    pub loaded : IsLoaded f l'
    pub outcome : Outcome a.result f c.capacity key l l' a.value
    pub asked : Asked a.result mem.answers a.mem.answers
    -- An entry is three blocks: its payload, its node, and its entry in the index.
    pub blocks :
        a.mem.allocated + mem.freed + 3 * length l ≡ mem.allocated + a.mem.freed + 3 * length l'
