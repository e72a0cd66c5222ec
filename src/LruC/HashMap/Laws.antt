-- ===== src/LruC/HashMap/Laws.antt =====
-- `hash_map.c` (01-basics/lru-in-c) is a map: what its operations do to what is found.
use native.Mathlib.Nat.{mod-lt}
use cpp_graduate.Base.{
  ℕ, ◌<◌, ◌≡◌, ◌≢◌, refl, ap, sym, subst, ◌∙◌, List, [], ◌∷◌, Bool, true, false, Option, none, some,
  ◌==◌, if◌then◌else◌, get_or, set, replicate, length, length-set, get_or-set, get_or-replicate,
  length-replicate, elem, ◌||◌, ltb, ◌^◌, ◌-◌, ◌/◌, Bool-cases, inl, inr, ==_iff, arith,
}
use cpp_graduate.Perms.Loops.Lists.{Unique}
use cpp_graduate.LruC.{Memory, malloc, free}
use cpp_graduate.LruC.HashMap.{
  HashMap, HashMapResult, inserted, duplicate, no_memory, mix, bucket_for, chain_find,
  hash_map_find, hash_map_insert, relink, hash_map_remove, hash_map_create,
}
use cpp_graduate.LruC.HashMap.Chains.{
  chain_keys, chain_find-none, without, chain_remove_cases, Unique-without, find-without,
}

abbrev pub is_inserted : HashMapResult → Bool
is_inserted inserted = true
is_inserted duplicate = false
is_inserted no_memory = false

pub bucket_for_lt : (n key : ℕ) → 0 < n → bucket_for n key < n
unfolding bucket_for
bucket_for_lt n key h = mod-lt (mix key) h

positive : (n : ℕ) → (n == 0) ≡ false → 0 < n
positive n e = ground arith

module _ {V : Type 0} where
  abbrev pub chain : HashMap V → ℕ → List (ℕ × V)
  chain m i = get_or m.buckets i []

  -- There are buckets, as many as are counted, and no chain has a key twice.
  pub record IsMap (m : HashMap V) : Type 0 where
    pub counted : length m.buckets ≡ m.bucket_count
    pub some_bucket : 0 < m.bucket_count
    pub unique : (i : ℕ) → Unique (chain_keys (chain m i))

  put_chain :
      (m : HashMap V) (key : ℕ) (l : List (ℕ × V))
      → IsMap m
      → (i : ℕ)
      → chain (record m { buckets = set m.buckets (bucket_for m.bucket_count key) l }) i
        ≡ (if bucket_for m.bucket_count key == i then l else chain m i)
  put_chain m key l v i = get_or-set m.buckets (bucket_for m.bucket_count key) i l [] (
      subst (λ n. bucket_for m.bucket_count key < n) (sym v.counted)
        (bucket_for_lt m.bucket_count key v.some_bucket))

  put_chain-IsMap :
      (m : HashMap V) (key : ℕ) (l : List (ℕ × V))
      → IsMap m
      → Unique (chain_keys l)
      → IsMap (record m { buckets = set m.buckets (bucket_for m.bucket_count key) l })
  put_chain-IsMap m key l v u = record {
    counted = length-set m.buckets (bucket_for m.bucket_count key) l ∙ v.counted;
    some_bucket = v.some_bucket;
    unique = λ i.
        subst (λ c. Unique (chain_keys c)) (sym (put_chain m key l v i))
          (chosen (bucket_for m.bucket_count key == i) (chain m i) (v.unique i));
  }
    where
      chosen :
          (b : Bool) (c : List (ℕ × V))
          → Unique (chain_keys c)
          → Unique (chain_keys (if b then l else c))
      chosen true c h = u
      chosen false c h = h

  -- What is found after a chain is put in the place of that of a key: nothing changes for a key of
  -- another chain.
  put_chain_find :
      (m : HashMap V) (key j : ℕ) (l : List (ℕ × V)) (o : Option V)
      → IsMap m
      → chain_find j l
        ≡ (if key == j then o else chain_find j (chain m (bucket_for m.bucket_count key)))
      → hash_map_find (record m { buckets = set m.buckets (bucket_for m.bucket_count key) l }) j
        ≡ (if key == j then o else hash_map_find m j)
  unfolding hash_map_find
  put_chain_find m key j l o v h =
      ap (chain_find j) (put_chain m key l v (bucket_for m.bucket_count j))
      ∙ (elim (Bool-cases (bucket_for m.bucket_count key == bucket_for m.bucket_count j)) [
        | inl e ↦
            let same = (==_iff (bucket_for m.bucket_count key) (bucket_for m.bucket_count j)).0 e in
            rw (e, if◌then◌else◌)
              (h ∙ ap (λ b. if key == j then o else chain_find j (chain m b)) same)
        | inr e ↦
            rw (e, if◌then◌else◌)
              (elim (Bool-cases (key == j)) [
                | inl f ↦ absurd (apart ((==_iff key j).0 f) e)
                | inr f ↦ rw (f, if◌then◌else◌) refl
              ])
      ])
    where
      apart : key ≡ j → (bucket_for m.bucket_count key == bucket_for m.bucket_count j) ≡ false → ⊥
      apart q n =
          let same =
            (==_iff (bucket_for m.bucket_count key) (bucket_for m.bucket_count j)).1
              (ap (bucket_for m.bucket_count) q) in
          absurd (cc)

  -- What an insertion does, by its result.
  pub record IsInsert (m : HashMap V) (key : ℕ) (value : V) (mem : Memory) (r : HashMapResult)
      (m' : HashMap V) : Type 0 where
    pub found :
        (j : ℕ)
        → hash_map_find m' j ≡ (
            if is_inserted r
            then (if key == j then some value else hash_map_find m j)
            else hash_map_find m j)
    pub absent : r ≢ duplicate → hash_map_find m key ≡ none
    pub present : r ≡ duplicate → hash_map_find m key ≢ none
    pub refused : r ≡ no_memory → (malloc mem).0 ≡ false
    pub valid : IsMap m'

  -- An insertion keeps a map a map. One that succeeds gives the key the value and leaves every other
  -- key, and the key was not there; one that fails changes nothing, and either the key was there or
  -- the allocator refused.
  pub hash_map_insert-IsInsert :
      (m : HashMap V) (key : ℕ) (value : V) (mem : Memory)
      → IsMap m
      → IsInsert m key value mem
          (hash_map_insert m key value mem).0
          (hash_map_insert m key value mem).1
  unfolding hash_map_insert
  hash_map_insert-IsInsert m key value mem v = go (hash_map_find m key) refl (malloc mem).0 refl
    where
      bucket : ℕ
      bucket = bucket_for m.bucket_count key

      put : HashMap V
      put = record m { buckets = set m.buckets bucket ((key, value) ∷ chain m bucket) }

      go :
          (o : Option V)
          → hash_map_find m key ≡ o
          → (b : Bool) → (malloc mem).0 ≡ b
          → IsInsert m key value mem
              (elim o as (λ _. HashMapResult × HashMap V × Memory) [
                | some existing ↦ (duplicate, m, mem)
                | none ↦
                    if b then (inserted, put, (malloc mem).1) else (no_memory, m, (malloc mem).1)
              ]).0
              (elim o as (λ _. HashMapResult × HashMap V × Memory) [
                | some existing ↦ (duplicate, m, mem)
                | none ↦
                    if b then (inserted, put, (malloc mem).1) else (no_memory, m, (malloc mem).1)
              ]).1
      go (some w) e b f = record {
        found = λ j. refl;
        absent = λ n. absurd (n refl);
        present = λ _ n. cc;
        refused = λ n. cc;
        valid = v;
      }
      go none e true f = record {
        found =
            λ j. put_chain_find m key j ((key, value) ∷ chain m bucket) (some value) v (first j);
        absent = λ _. e;
        present = λ n. cc;
        refused = λ n. cc;
        valid = put_chain-IsMap m key ((key, value) ∷ chain m bucket) v (fresh e, v.unique bucket);
      }
        where
          first :
              (j : ℕ)
              → chain_find j ((key, value) ∷ chain m bucket)
                ≡ (if key == j then some value else chain_find j (chain m bucket))
          first j = refl

          fresh : hash_map_find m key ≡ none → elem key (chain_keys (chain m bucket)) ≡ false
          fresh h = chain_find-none key (chain m bucket) h
      go none e false f = record {
        found = λ j. refl;
        absent = λ _. e;
        present = λ n. cc;
        refused = λ _. f;
        valid = v;
      }

  -- A removal reports whether the key was there, after it the key is not there and every other key has
  -- what it had, and what is left is a map.
  pub hash_map_remove_lem :
      (m : HashMap V) (key : ℕ) (mem : Memory)
      → IsMap m
      → ((hash_map_remove m key mem).0
          ≡ (elim (hash_map_find m key) [ none ↦ false | some v ↦ true ]))
        × IsMap (hash_map_remove m key mem).1
        × ((j : ℕ)
            → hash_map_find (hash_map_remove m key mem).1 j
              ≡ (if key == j then none else hash_map_find m j))
  unfolding hash_map_remove hash_map_find
  hash_map_remove_lem m key mem v = elim (chain_remove_cases key (chain m bucket)) [
    | inl (f, r) ↦
        subst (λ o. Removed (relink m bucket mem o)) (sym r)
          (ap (λ o. elim o [ none ↦ false | some w ↦ true ]) (sym f), v, absent f)
    | inr (w, f, r) ↦
        subst (λ o. Removed (relink m bucket mem o)) (sym r)
          (ap (λ o. elim o [ none ↦ false | some w ↦ true ]) (sym f), removed, others)
  ]
    where
      bucket : ℕ
      bucket = bucket_for m.bucket_count key

      Removed : Bool × HashMap V × Memory → Type 0
      Removed r =
          (r.0 ≡ (elim (hash_map_find m key) [ none ↦ false | some v ↦ true ]))
          × IsMap r.1
          × ((j : ℕ) → hash_map_find r.1 j ≡ (if key == j then none else hash_map_find m j))

      absent :
          chain_find key (chain m bucket) ≡ none
          → (j : ℕ) → hash_map_find m j ≡ (if key == j then none else hash_map_find m j)
      absent f j = elim (Bool-cases (key == j)) [
        | inl e ↦
            let same = (==_iff key j).0 e in
            rw (e, if◌then◌else◌) (subst (λ k. hash_map_find m k ≡ none) same f)
        | inr e ↦ rw (e, if◌then◌else◌) refl
      ]

      removed : IsMap (record m { buckets = set m.buckets bucket (without key (chain m bucket)) })
      removed =
          put_chain-IsMap m key (without key (chain m bucket)) v
            (Unique-without key (chain m bucket) (v.unique bucket))

      others :
          (j : ℕ)
          → hash_map_find
              (record m { buckets = set m.buckets bucket (without key (chain m bucket)) })
              j
            ≡ (if key == j then none else hash_map_find m j)
      others j =
          put_chain_find m key j (without key (chain m bucket)) none v
            (find-without key j (chain m bucket) (v.unique bucket))

  -- A removal frees the entry that it unlinks.
  pub hash_map_remove-free :
      (m : HashMap V) (key : ℕ) (mem : Memory) (value : V)
      → hash_map_find m key ≡ some value
      → (hash_map_remove m key mem).2 ≡ free mem
  unfolding hash_map_remove hash_map_find
  hash_map_remove-free m key mem value h =
      elim (chain_remove_cases key (chain m (bucket_for m.bucket_count key))) [
        | inl (f, r) ↦ absurd cc
        | inr (w, f, r) ↦ ap (λ o. (relink m (bucket_for m.bucket_count key) mem o).2) r
      ]

  -- A map that is created has no key.
  pub hash_map_create-IsMap :
      (n : ℕ) (mem : Memory) (m : HashMap V)
      → (hash_map_create n mem).0 ≡ some m
      → IsMap m × ((k : ℕ) → hash_map_find m k ≡ none)
  unfolding hash_map_create hash_map_find
  hash_map_create-IsMap n mem m h =
      go (n == 0) (ltb ((2 ^ 64 - 1) / 8) n) (malloc mem).0 (malloc (malloc mem).1).0 refl h
    where
      empty : HashMap V
      empty = record { buckets = replicate n []; bucket_count = n }

      same : some empty ≡ some m → empty ≡ m
      same q = cc

      empty-IsMap : (n == 0) ≡ false → IsMap empty × ((k : ℕ) → hash_map_find empty k ≡ none)
      empty-IsMap e = (
        record {
          counted = length-replicate n [];
          some_bucket = positive n e;
          unique =
              λ i. subst (λ c. Unique (chain_keys {V = V} c)) (sym (get_or-replicate n [] i)) tt;
        },
        λ k. ap (chain_find k) (get_or-replicate n [] (bucket_for n k)),
      )

      go :
          (zero_count excess a b : Bool)
          → (n == 0) ≡ zero_count
          → (let r : Option (HashMap V) × Memory =
                (if zero_count || excess
                  then (none, mem)
                  else (if a
                      then (if b
                          then (some empty, (malloc (malloc mem).1).1)
                          else (none, free (malloc (malloc mem).1).1))
                      else (none, (malloc mem).1))) in
              r.0)
            ≡ some m
          → IsMap m × ((k : ℕ) → hash_map_find m k ≡ none)
      go true excess a b e h = absurd cc
      go false true a b e h = absurd cc
      go false false false b e h = absurd cc
      go false false true false e h = absurd cc
      go false false true true e h =
          subst (λ z. IsMap z × ((k : ℕ) → hash_map_find z k ≡ none)) (same h) (empty-IsMap e)
