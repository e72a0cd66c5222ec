-- ===== src/LruC/Cache/Insert.antt =====
-- The allocations of `insert_page` of 01-basics/lru-in-c/src/lru.c, each by its result.
use cpp_graduate.Base.{
  ℕ, suc, ◌≡◌, ◌⊎◌, refl, ap, ◌∙◌, List, [], ◌∷◌, Bool, true, false, none, some, ◌==◌,
  if◌then◌else◌, inl, inr,
}
use cpp_graduate.LruC.{Memory, malloc}
use cpp_graduate.LruC.Answers.{Refuses}
use cpp_graduate.LruC.HashMap.{HashMap, inserted, no_memory, hash_map_find, hash_map_insert}
use cpp_graduate.LruC.HashMap.Laws.{IsMap, hash_map_insert-IsInsert}
use cpp_graduate.LruC.HashMap.Entries.{entries, hash_map_insert-entries}
use cpp_graduate.LruC.Links.{Heap, list_push_front, prepend}
use cpp_graduate.LruC.Links.Laws.{IsList, list_push_front-IsList}

-- A block more, and the same blocks.
pub record IsGiven (mem mem' : Memory) : Type 0 where
  pub allocated : mem'.allocated ≡ suc mem.allocated
  pub freed : mem'.freed ≡ mem.freed
  pub asked : mem.answers ≡ true ∷ mem'.answers

pub record IsRefused (mem mem' : Memory) : Type 0 where
  pub allocated : mem'.allocated ≡ mem.allocated
  pub freed : mem'.freed ≡ mem.freed
  pub asked : Refuses mem.answers mem'.answers

pub malloc_cases :
    (mem : Memory)
    → ((mem' : Memory) × (malloc mem ≡ (false, mem')) × IsRefused mem mem')
      ⊎ ((mem' : Memory) × (malloc mem ≡ (true, mem')) × IsGiven mem mem')
unfolding malloc
malloc_cases mem = go mem.answers refl
  where
    go :
        (l : List Bool)
        → mem.answers ≡ l
        → ((mem' : Memory) × (malloc mem ≡ (false, mem')) × IsRefused mem mem')
          ⊎ ((mem' : Memory) × (malloc mem ≡ (true, mem')) × IsGiven mem mem')
    go [] e = inl (mem, rw e refl, record { allocated = refl; freed = refl; asked = inl (e, e) })
    go (false ∷ rest) e = inl (
      record mem { answers = rest },
      rw e refl,
      record { allocated = refl; freed = refl; asked = inr e },
    )
    go (true ∷ rest) e = inr (
      record mem { answers = rest; allocated = suc mem.allocated },
      rw e refl,
      record { allocated = refl; freed = refl; asked = e },
    )

module _ {V : Type 0} where
  pub list_push_front_cases :
      (h : Heap V) (list : ℕ) (nodes : List ℕ) (value : V) (mem : Memory)
      → IsList h list nodes
      → ((mem' : Memory) × (list_push_front h list value mem ≡ (none, h, mem'))
          × IsRefused mem mem')
        ⊎ ((k : Heap V) × (mem' : Memory) × (list_push_front h list value mem
              ≡ (some h.unused, k, mem'))
            × IsGiven mem mem'
            × IsList k list (h.unused ∷ nodes)
            × ((p : ℕ) → (p == h.unused) ≡ false → k.value p ≡ h.value p))
  unfolding list_push_front prepend
  list_push_front_cases h list nodes value mem v = elim (malloc_cases mem) [
    | inl (mem', e, r) ↦ inl (mem', rw (e, if◌then◌else◌) refl, r)
    | inr (mem', e, r) ↦
        let w = (list_push_front-IsList h list nodes value mem v (ap (λ z. z.0) e)).1 in
        inr (
          (list_push_front h list value mem).1,
          mem',
          rw (e, if◌then◌else◌) refl,
          r,
          w,
          λ p q. rw (e, if◌then◌else◌, q) refl,
        )
  ]

  pub hash_map_insert_cases :
      (m : HashMap V) (key : ℕ) (value : V) (mem : Memory)
      → IsMap m
      → hash_map_find m key ≡ none
      → ((mem' : Memory) × (hash_map_insert m key value mem ≡ (no_memory, m, mem'))
          × IsRefused mem mem')
        ⊎ ((m' : HashMap V) × (mem' : Memory) × (hash_map_insert m key value mem
              ≡ (inserted, m', mem'))
            × IsGiven mem mem'
            × IsMap m'
            × ((j : ℕ) → hash_map_find m' j ≡ (if key == j then some value else hash_map_find m j))
            × (entries m' ≡ suc (entries m)))
  unfolding hash_map_insert
  hash_map_insert_cases m key value mem v h =
      let i = hash_map_insert-IsInsert m key value mem v in
      elim (malloc_cases mem) [
        | inl (mem', e, r) ↦ inl (mem', rw (hash_map_insert, h, e, if◌then◌else◌) refl, r)
        | inr (mem', e, r) ↦
            let t : (hash_map_insert m key value mem).0 ≡ inserted =
              rw (hash_map_insert, h, e, if◌then◌else◌) refl in
            inr (
              (hash_map_insert m key value mem).1,
              mem',
              rw (hash_map_insert, h, e, if◌then◌else◌) refl,
              r,
              i.valid,
              λ j. i.found j ∙ rw t refl,
              hash_map_insert-entries m key value mem mem' v h e,
            )
      ]
