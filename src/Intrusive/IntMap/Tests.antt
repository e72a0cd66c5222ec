-- ===== src/Intrusive/IntMap/Tests.antt =====
-- Runs of the table of 01-basics/lru-in-c-datastructs/src/int_map.c, and an example for the theorem.
use cpp_graduate.Base.{
  ℕ, ◌+◌, ◌≡◌, refl, List, [], true, Option, none, some, ◌==◌, if◌then◌else◌, elem, arith,
}
use cpp_graduate.Intrusive.IntMap.{
  Store, IntMap, bucket_for, int_map_init, int_map_find, int_map_insert, int_map_remove, link,
}
use cpp_graduate.Intrusive.IntMap.Chain.{find_in}
use cpp_graduate.Intrusive.IntMap.Laws.{IsTable, lookup}
use cpp_graduate.Intrusive.IntMap.Init.{int_map_init_lem}
use cpp_graduate.Intrusive.IntMap.Insert.{linked-IsTable, home, longer}
use cpp_graduate.Intrusive.IntMap.Remove.{int_map_remove-IsTable}

-- The entries 1 to 9, none of them linked, have the keys 11 to 19.
abbrev fresh_store : Store
fresh_store = record { cell = λ _. none; key = λ e. e + 10; prev_next = λ _. none }

abbrev two_buckets : IntMap
two_buckets = record { buckets = 100; bucket_count = 2 }

abbrev zeroed : Store
zeroed = (int_map_init fresh_store 2 (some 100)).2

zeroed-IsTable : IsTable zeroed two_buckets (λ _. [])
unfolding int_map_init
zeroed-IsTable = (int_map_init_lem fresh_store 2 100 (omega arith) (omega arith)).1

-- Entries 1 and 2 are inserted, 1 not again, and found; after the removal of 1 it is not.
run_map :
    (elim (int_map_insert 5 zeroed two_buckets 1) as (λ _. Option (Option ℕ)) [
      | none ↦ none
      | some (_, t) ↦ elim (int_map_remove t 1) [
        | none ↦ none
        | some u ↦ int_map_find 5 u two_buckets 11
      ]
    ])
    ≡ some none
unfolding int_map_insert int_map_remove int_map_find int_map_init
run_map = refl

unlinked_five : zeroed.prev_next 5 ≡ none
unfolding int_map_init
unlinked_five = refl

absent_five : lookup zeroed two_buckets (λ _. []) (zeroed.key 5) ≡ none
unfolding find_in
absent_five = refl

-- The entry 5 alone.
abbrev one_linked : Store
one_linked =
    link zeroed
      (100 + home zeroed two_buckets (λ _. []) zeroed-IsTable 5 refl unlinked_five absent_five) 5

abbrev one_chain : ℕ → List ℕ
one_chain = longer zeroed two_buckets (λ _. []) zeroed-IsTable 5 refl unlinked_five absent_five

one_linked-IsTable : IsTable one_linked two_buckets one_chain
one_linked-IsTable =
    linked-IsTable zeroed two_buckets (λ _. []) zeroed-IsTable 5 refl unlinked_five absent_five

linked_five : elem 5 (one_chain (bucket_for 2 (one_linked.key 5))) ≡ true
unfolding int_map_init bucket_for link
linked_five = refl

int_map_remove-IsTable_example :
    (u : Store) × (after : ℕ → List ℕ) × (int_map_remove one_linked 5 ≡ some u)
    × IsTable u two_buckets after
    × ((k : ℕ)
        → lookup u two_buckets after k
          ≡ (if one_linked.key 5 == k then none else lookup one_linked two_buckets one_chain k))
    × (u.prev_next 5 ≡ none)
int_map_remove-IsTable_example =
    int_map_remove-IsTable one_linked two_buckets one_chain 5 one_linked-IsTable linked_five
