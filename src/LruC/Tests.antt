-- ===== src/LruC/Tests.antt =====
-- Runs of the cache of 01-basics/lru-in-c, and examples for the theorems about it.
use cpp_graduate.Base.{
  ℕ, ◌+◌, ◌*◌, ◌<◌, ◌⊎◌, ◌^◌, ◌≡◌, ◌&&◌, refl, List, [], ◌∷◌, ◌++◌, true, false, Option, none, some,
  ◌==◌, if◌then◌else◌, replicate, arith,
}
use cpp_graduate.LruC.{Memory, malloc}
use cpp_graduate.LruC.HashMap.{
  HashMap, HashMapResult, inserted, hash_map_find, hash_map_insert, hash_map_remove,
  hash_map_create,
}
use cpp_graduate.LruC.HashMap.Laws.{
  IsMap, IsInsert, hash_map_insert-IsInsert, hash_map_remove_lem, hash_map_create-IsMap,
}
use cpp_graduate.LruC.Links.{Heap, list_move_front}
use cpp_graduate.LruC.Links.Laws.{IsList, list_move_front-IsList}
use cpp_graduate.LruC.Cache.{CacheEntry, LruCache, Answer, lookup_update}
use cpp_graduate.LruC.Cache.Holds.{Holds}
use cpp_graduate.LruC.Cache.Outcome.{IsAnswered}
use cpp_graduate.LruC.Cache.Refine.{lookup_update-IsAnswered}
use cpp_graduate.LruC.Answers.{Taken, Denied}
use cpp_graduate.LruC.Lifetime.{lru_create, lru_destroy}
use cpp_graduate.LruC.Lifetime.Create.{lru_create_lem}
use cpp_graduate.LruC.Lifetime.Laws.{lru_destroy_lem}
use cpp_graduate.LruC.Input.{Input, read_integer, isspace, is_digit, getchar}
use cpp_graduate.LruC.Input.Digits.{ends_well, fits, read_integer_lem}
use cpp_graduate.LruC.Input.Decimal.{decimal}
use cpp_graduate.LruC.Driver.{Exit, finished, main}
use cpp_graduate.LruC.Driver.Main.{MainVerdict, main_lem}
use cpp_graduate.Lru.{Node}
use cpp_graduate.Lru.Store.{node_of}

abbrev plenty : Memory
plenty = record { answers = replicate 30 true; allocated = 0; freed = 0 }

abbrev blank_heap : Heap (CacheEntry ℕ)
blank_heap = record { prev = λ _. 0; next = λ _. 0; value = λ _. none; unused = 1 }

-- "2 5 1 2 1 3 -7"
abbrev five_elements : Input
five_elements = record {
  bytes = 50 ∷ 32 ∷ 53 ∷ 10 ∷ 49 ∷ 32 ∷ 50 ∷ 32 ∷ 49 ∷ 32 ∷ 51 ∷ 32 ∷ 45 ∷ 55 ∷ [];
  broken = false;
}

-- One hit, and as many blocks are freed as were allocated.
run_five :
    (elim (main 10 blank_heap plenty five_elements) as (λ _. Option (Exit × ℕ × ℕ)) [
      | none ↦ none
      | some (exit, mem) ↦ some (exit, mem.allocated, mem.freed)
    ])
    ≡ some (finished 1, 16, 16)
unfolding main cpp_graduate.LruC.HashMap.bucket_for cpp_graduate.LruC.HashMap.mix
    cpp_graduate.LruC.free
run_five = refl

main_lem_example :
    (exit : Exit) × (mem' : Memory) × (main (2 ^ 63) blank_heap plenty five_elements
      ≡ some (exit, mem'))
    × (mem'.allocated + 0 ≡ 0 + mem'.freed)
    × MainVerdict five_elements plenty.answers mem'.answers exit
main_lem_example = main_lem (2 ^ 63) blank_heap plenty five_elements (omega arith)

-- "-9223372036854775808" is the least number, and one less is none.
abbrev least : List ℕ
least =
    45 ∷ 57 ∷ 50 ∷ 50 ∷ 51 ∷ 51 ∷ 55 ∷ 50 ∷ 48 ∷ 51 ∷ 54 ∷ 56 ∷ 53 ∷ 52 ∷ 55 ∷ 55 ∷ 53 ∷ 56 ∷ 48
    ∷ []

least_run :
    (read_integer (record { bytes = least ++ 56 ∷ []; broken = false })
      ≡ some (2 ^ 63, record { bytes = []; broken = false }))
    × (read_integer (record { bytes = least ++ 57 ∷ []; broken = false }) ≡ none)
unfolding read_integer
least_run = (refl, refl)

read_integer_lem_example :
    read_integer (record { bytes = 32 ∷ 45 ∷ 49 ∷ 50 ∷ 10 ∷ []; broken = false }) ≡ (
      if fits true 12 && ends_well false (10 ∷ [])
      then some (18446744073709551604, record { bytes = []; broken = false })
      else none)
unfolding getchar isspace is_digit decimal
read_integer_lem_example =
    read_integer_lem (32 ∷ []) (some true) (49 ∷ 50 ∷ []) (10 ∷ []) false (refl, tt)
      (refl, (refl, tt)) refl tt

abbrev two_buckets : HashMap ℕ
two_buckets = record { buckets = [] ∷ [] ∷ []; bucket_count = 2 }

two_buckets_empty : IsMap two_buckets × ((k : ℕ) → hash_map_find two_buckets k ≡ none)
unfolding hash_map_create malloc
two_buckets_empty = hash_map_create-IsMap 2 plenty two_buckets refl

hash_map_insert-IsInsert_example :
    IsInsert two_buckets 7 3 plenty
      (hash_map_insert two_buckets 7 3 plenty).0
      (hash_map_insert two_buckets 7 3 plenty).1
hash_map_insert-IsInsert_example =
    hash_map_insert-IsInsert two_buckets 7 3 plenty two_buckets_empty.0

-- A table with one entry.
abbrev one_entry : HashMap ℕ
one_entry = (hash_map_insert two_buckets 7 3 plenty).1

hash_map_remove_lem_example :
    ((hash_map_remove one_entry 7 plenty).0
      ≡ (elim (hash_map_find one_entry 7) [ none ↦ false | some v ↦ true ]))
    × IsMap (hash_map_remove one_entry 7 plenty).1
    × ((j : ℕ)
        → hash_map_find (hash_map_remove one_entry 7 plenty).1 j
          ≡ (if 7 == j then none else hash_map_find one_entry j))
hash_map_remove_lem_example =
    hash_map_remove_lem one_entry 7 plenty
      (hash_map_insert-IsInsert two_buckets 7 3 plenty two_buckets_empty.0).valid

-- A list at 0 of the nodes 1 and 2.
abbrev two_nodes : Heap ℕ
two_nodes = record {
  prev = λ p. if p == 0 then 2 else (if p == 1 then 0 else 1);
  next = λ p. if p == 0 then 1 else (if p == 1 then 2 else 0);
  value = λ p. some p;
  unused = 3;
}

two_nodes-IsList : IsList two_nodes 0 (1 ∷ 2 ∷ [])
two_nodes-IsList = record {
  distinct = (refl, (refl, (refl, tt)));
  linked = (refl, refl, (refl, refl, (refl, refl)));
  allocated = λ p e. ground arith;
}

list_move_front-IsList_example : IsList (list_move_front two_nodes 0 2) 0 (2 ∷ 1 ∷ [])
list_move_front-IsList_example = list_move_front-IsList two_nodes 0 (1 ∷ []) 2 [] two_nodes-IsList

abbrev empty_cache : LruCache ℕ
empty_cache = record { heap = blank_heap; recency = 0; index = two_buckets; capacity = 2; size = 0 }

empty_cache-Holds : Holds empty_cache []
unfolding node_of cpp_graduate.LruC.HashMap.Entries.total
empty_cache-Holds = record {
  stores = record {
    list = record { distinct = (refl, tt); linked = (refl, refl); allocated = λ p e. ground arith };
    payload = tt;
    unique = tt;
    table = two_buckets_empty.0;
    index = two_buckets_empty.1;
    filled = refl;
  };
  counted = refl;
  bounded = omega arith;
}

lru_create_lem_example :
    ((mem' : Memory) × (lru_create 1 blank_heap 2 plenty ≡ some (none, mem'))
      × (mem'.allocated + 0 ≡ 0 + mem'.freed)
      × (Denied plenty.answers mem'.answers ⊎ (2305843009213693951 < 2)))
    ⊎ ((c : LruCache ℕ) × (mem' : Memory) × (lru_create 1 blank_heap 2 plenty ≡ some (some c, mem'))
        × Holds c []
        × (c.capacity ≡ 2)
        × (mem'.allocated ≡ 0 + 4)
        × (mem'.freed ≡ 0)
        × Taken plenty.answers mem'.answers)
lru_create_lem_example = lru_create_lem 1 blank_heap 2 plenty (omega arith)

lru_destroy_lem_example :
    (mem' : Memory) × (lru_destroy 1 empty_cache plenty ≡ some mem')
    × (mem'.freed ≡ 0 + 3 * 0 + 4)
    × (mem'.allocated ≡ 0)
    × (mem'.answers ≡ plenty.answers)
lru_destroy_lem_example =
    lru_destroy_lem 1 empty_cache [] plenty empty_cache-Holds.stores (omega arith)

lookup_update-IsAnswered_example :
    (a : Answer ℕ) × (l' : List (Node ℕ)) × (lookup_update empty_cache 7 (λ k. k) plenty ≡ some a)
    × IsAnswered empty_cache 7 (λ k. k) plenty [] a l'
lookup_update-IsAnswered_example =
    lookup_update-IsAnswered empty_cache 7 (λ k. k) plenty [] empty_cache-Holds tt
      (λ e. omega arith)
