-- ===== src/LruC/Lifetime/Create.antt =====
-- `lru_create` of 01-basics/lru-in-c/src/lru.c: an empty cache, or nothing kept.
use cpp_graduate.Base.{
  ℕ, suc, ◌+◌, ◌-◌, ◌^◌, ◌/◌, ◌<◌, ◌≡◌, ◌≢◌, ◌⊎◌, refl, ap, sym, subst, ◌∙◌, List, [], ◌∷◌, Bool,
  true, false, Option, none, some, ◌==◌, ltb, if◌then◌else◌, replicate, inl, inr, Bool-cases, arith,
}
use cpp_graduate.Lru.Store.{node_of}
use cpp_graduate.LruC.{Memory, free}
use cpp_graduate.LruC.Answers.{
  Taken, Denied, Taken-refl, Taken-trans, Refuses-Denied, Denied-Taken, Denied-later,
  Denied-earlier,
}
use cpp_graduate.LruC.HashMap.{HashMap, hash_map_find, hash_map_create}
use cpp_graduate.LruC.HashMap.Laws.{IsMap, hash_map_create-IsMap}
use cpp_graduate.LruC.HashMap.Entries.{
  entries, hash_map_destroy_lem, hash_map_destroy-answers, total-replicate,
}
use cpp_graduate.LruC.Links.{Heap, list_create}
use cpp_graduate.LruC.Links.Laws.{IsList}
use cpp_graduate.LruC.Links.Destroy.{list_destroy_lem}
use cpp_graduate.LruC.Cache.{CacheEntry, LruCache}
use cpp_graduate.LruC.Cache.Holds.{Stores, Holds}
use cpp_graduate.LruC.Cache.Insert.{IsGiven, IsRefused, malloc_cases}
use cpp_graduate.LruC.Lifetime.{
  release_list, release_map, after_create, after_list, after_calloc, buckets_for, lru_create,
}

-- The allocator refused after it had given a block.
given_refused :
    {mem mem1 mem2 : Memory}
    → IsGiven mem mem1
    → IsRefused mem1 mem2
    → Denied mem.answers mem2.answers
given_refused g r = Denied-later (true ∷ [], g.asked) (Refuses-Denied r.asked)

hash_map_create_cases :
    (n : ℕ) (mem : Memory)
    → n ≢ 0
    → ((mem' : Memory) × (hash_map_create {V = ℕ} n mem ≡ (none, mem'))
        × (mem'.allocated + mem.freed ≡ mem.allocated + mem'.freed)
        × Taken mem.answers mem'.answers
        × (Denied mem.answers mem'.answers ⊎ (2305843009213693951 < n)))
      ⊎ ((m : HashMap ℕ) × (mem' : Memory) × (hash_map_create n mem ≡ (some m, mem'))
          × (mem'.allocated ≡ 2 + mem.allocated)
          × (mem'.freed ≡ mem.freed)
          × (entries m ≡ 0)
          × Taken mem.answers mem'.answers)
unfolding hash_map_create free
hash_map_create_cases n mem ne = elim (Bool-cases (ltb ((2 ^ 64 - 1) / 8) n)) [
  | inl big ↦
      inl
        (mem, rw (some_bucket, big, if◌then◌else◌) refl, refl, Taken-refl refl, inr (ground arith))
  | inr small ↦ elim (malloc_cases mem) [
    | inl (mem1, e1, r1) ↦ inl (
      mem1,
      rw (some_bucket, small, if◌then◌else◌, e1) refl,
      omega (arith, r1.allocated, r1.freed),
      Denied-Taken (Refuses-Denied r1.asked),
      inl (Refuses-Denied r1.asked),
    )
    | inr (mem1, e1, g1) ↦ elim (malloc_cases mem1) [
      | inl (mem2, e2, r2) ↦ inl (
        free mem2,
        rw (some_bucket, small, if◌then◌else◌, e1, e2) refl,
        omega (arith, g1.allocated, g1.freed, r2.allocated, r2.freed),
        Denied-Taken (given_refused g1 r2),
        inl (given_refused g1 r2),
      )
      | inr (mem2, e2, g2) ↦ inr (
        record { buckets = replicate n []; bucket_count = n },
        mem2,
        rw (some_bucket, small, if◌then◌else◌, e1, e2) refl,
        omega (arith, g1.allocated, g2.allocated),
        g2.freed ∙ g1.freed,
        total-replicate ℕ n,
        (true ∷ true ∷ [], g1.asked ∙ ap (λ z. true ∷ z) g2.asked),
      )
    ]
  ]
]
  where
    some_bucket : (n == 0) ≡ false
    some_bucket = ground arith

module _ {Page : Type 0} where
  -- A list that is created is empty.
  list_create_cases :
      (h : Heap (CacheEntry Page)) (mem : Memory)
      → ((mem' : Memory) × (list_create h mem ≡ (none, h, mem')) × IsRefused mem mem')
        ⊎ ((k : Heap (CacheEntry Page)) × (mem' : Memory) × (list_create h mem
              ≡ (some h.unused, k, mem'))
            × IsGiven mem mem'
            × IsList k h.unused [])
  unfolding list_create
  list_create_cases h mem = elim (malloc_cases mem) [
    | inl (mem', e, r) ↦ inl (mem', rw (e, if◌then◌else◌) refl, r)
    | inr (mem', e, r) ↦ inr (
      (list_create h mem).1,
      mem',
      rw (e, if◌then◌else◌) refl,
      r,
      rw (e, if◌then◌else◌)
          (record {
            distinct = (refl, tt);
            linked = ground arith;
            allocated = λ p q. ground arith;
          }),
    )
  ]

  empty-Stores :
      (c : LruCache Page)
      → IsList c.heap c.recency []
      → IsMap c.index × ((k : ℕ) → hash_map_find c.index k ≡ none)
      → entries c.index ≡ 0
      → Stores c []
  unfolding node_of
  empty-Stores c v (m, absent) e = record {
    list = v;
    payload = tt;
    unique = tt;
    table = m;
    index = absent;
    filled = e;
  }

  -- What a creation leads to.
  abbrev Created : ℕ → Memory → Option (Option (LruCache Page) × Memory) → Type 0
  Created capacity mem o =
      ((mem' : Memory) × (o ≡ some (none, mem'))
        × (mem'.allocated + mem.freed ≡ mem.allocated + mem'.freed)
        × (Denied mem.answers mem'.answers ⊎ (2305843009213693951 < capacity)))
      ⊎ ((c : LruCache Page) × (mem' : Memory) × (o ≡ some (some c, mem'))
          × Holds c []
          × (c.capacity ≡ capacity)
          × (mem'.allocated ≡ mem.allocated + 4)
          × (mem'.freed ≡ mem.freed)
          × Taken mem.answers mem'.answers)

  unlisted-Created :
      (fuel capacity : ℕ) (h : Heap (CacheEntry Page)) (mem mem2 : Memory)
      → mem2.allocated + mem.freed ≡ suc mem.allocated + mem2.freed
      → Denied mem.answers mem2.answers
      → Created capacity mem (after_list fuel capacity (none, h, mem2))
  unfolding after_list after_create release_map free
  unlisted-Created fuel capacity h mem mem2 b denied =
      elim (hash_map_create_cases (buckets_for capacity) mem2 (ground arith)) [
        | inl (mem3, e, d, taken, why) ↦ inl (
          free mem3,
          ap (after_create fuel capacity h none) e,
          omega (arith, b, d),
          inl (Denied-earlier denied taken),
        )
        | inr (m, mem3, e, a, f, n, taken) ↦
            let (f2, a2) = hash_map_destroy_lem m mem3 in
            inl (
              _,
              ap (after_create fuel capacity h none) e,
              omega (arith, b, a, f, n, f2, a2),
              inl (
                  Denied-earlier denied
                    (Taken-trans taken (Taken-refl (sym (hash_map_destroy-answers m mem3))))),
            )
      ]

  listed-Created :
      (fuel capacity list : ℕ) (h : Heap (CacheEntry Page)) (mem mem2 : Memory)
      → 0 < fuel
      → IsList h list []
      → mem2.allocated ≡ 2 + mem.allocated
      → mem2.freed ≡ mem.freed
      → Taken mem.answers mem2.answers
      → Created capacity mem (after_list fuel capacity (some list, h, mem2))
  unfolding after_list after_create release_list release_map free
  listed-Created fuel capacity list h mem mem2 lt v b d before =
      elim (hash_map_create_cases (buckets_for capacity) mem2 (ground arith)) [
        | inl (mem3, e, x, taken, why) ↦
            let (k, mem4, e4, f4, a4, same) = list_destroy_lem fuel h list [] mem3 v lt in
            inl (
              free mem4,
              ap (after_create fuel capacity h (some list)) e
                  ∙ (rw (after_create, release_list, e4) refl),
              omega (arith, b, d, x, f4, a4),
              because why (Taken-refl (sym same)),
            )
        | inr (m, mem3, e, a, f, n, taken) ↦
            let c : LruCache Page = record {
              heap = h;
              recency = list;
              index = m;
              capacity = capacity;
              size = 0;
            } in
            let t = hash_map_create-IsMap (buckets_for capacity) mem2 m (ap (λ z. z.0) e) in
            inr (
              c,
              mem3,
              ap (after_create fuel capacity h (some list)) e,
              record { stores = empty-Stores c v t n; counted = refl; bounded = omega arith },
              refl,
              omega (arith, a, b),
              f ∙ d,
              Taken-trans before taken,
            )
      ]
    where
      because :
          {a b : List Bool}
          → Denied mem2.answers a ⊎ (2305843009213693951 < buckets_for capacity)
          → Taken a b
          → Denied mem.answers b ⊎ (2305843009213693951 < capacity)
      because (inl denied) taken = inl (Denied-later before (Denied-earlier denied taken))
      because (inr big) taken = inr (ground arith)

  -- With a fuel of one or more `lru_create` makes an empty cache of the capacity out of four blocks, or it
  -- makes nothing and gives back every block that it got. It makes nothing only if one of the answers of
  -- the allocator that it took is a refusal or none is left, or if the capacity is above 2^61 - 1.
  pub lru_create_lem :
      (fuel : ℕ) (h : Heap (CacheEntry Page)) (capacity : ℕ) (mem : Memory)
      → 0 < fuel
      → ((mem' : Memory) × (lru_create fuel h capacity mem ≡ some (none, mem'))
          × (mem'.allocated + mem.freed ≡ mem.allocated + mem'.freed)
          × (Denied mem.answers mem'.answers ⊎ (2305843009213693951 < capacity)))
        ⊎ ((c : LruCache Page) × (mem' : Memory) × (lru_create fuel h capacity mem
              ≡ some (some c, mem'))
            × Holds c []
            × (c.capacity ≡ capacity)
            × (mem'.allocated ≡ mem.allocated + 4)
            × (mem'.freed ≡ mem.freed)
            × Taken mem.answers mem'.answers)
  unfolding lru_create after_calloc
  lru_create_lem fuel h capacity mem lt = elim (malloc_cases mem) [
    | inl (mem1, e, r) ↦ inl (
      mem1,
      ap (after_calloc fuel capacity h) e,
      omega (arith, r.allocated, r.freed),
      inl (Refuses-Denied r.asked),
    )
    | inr (mem1, e, g) ↦
        subst (Created capacity mem) (sym (ap (after_calloc fuel capacity h) e))
          (elim (list_create_cases h mem1) [
            | inl (mem2, e2, r) ↦
                subst (λ z. Created capacity mem (after_list fuel capacity z)) (sym e2)
                  (unlisted-Created fuel capacity h mem mem2
                    (omega (arith, g.allocated, g.freed, r.allocated, r.freed)) (given_refused g r))
            | inr (k, mem2, e2, g2, v) ↦
                subst (λ z. Created capacity mem (after_list fuel capacity z)) (sym e2)
                  (listed-Created fuel capacity h.unused k mem mem2 lt v
                    (omega (arith, g.allocated, g2.allocated)) (g2.freed ∙ g.freed)
                    (true ∷ true ∷ [], g.asked ∙ ap (λ z. true ∷ z) g2.asked))
          ])
  ]
