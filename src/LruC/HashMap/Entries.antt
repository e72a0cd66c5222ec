-- ===== src/LruC/HashMap/Entries.antt =====
-- The number of the entries in the table of 01-basics/lru-in-c/src/hash_map.c, each of which is a block.
use cpp_graduate.Base.{
  ℕ, zero, suc, ◌+◌, ◌<◌, ◌≡◌, refl, ap, sym, subst, ◌∙◌, List, [], ◌∷◌, true, none, some,
  if◌then◌else◌, get_or, set, replicate, length, inl, inr, arith,
}
use cpp_graduate.LruC.{Memory, malloc, free}
use cpp_graduate.LruC.HashMap.{
  HashMap, bucket_for, chain_find, hash_map_find, hash_map_insert, relink, hash_map_remove,
  free_chain, free_buckets, hash_map_destroy,
}
use cpp_graduate.LruC.HashMap.Chains.{without, chain_remove_cases}
use cpp_graduate.LruC.HashMap.Laws.{IsMap, chain, bucket_for_lt}

module _ {V : Type 0} where
  unfoldable pub total : List (List (ℕ × V)) → ℕ
  total [] = 0
  total (c ∷ cs) = length c + total cs

  abbrev pub entries : HashMap V → ℕ
  entries m = total m.buckets

  total-set :
      (cs : List (List (ℕ × V))) (i : ℕ) (c : List (ℕ × V))
      → i < length cs
      → total (set cs i c) + length (get_or cs i []) ≡ total cs + length c
  unfolding total
  total-set [] i c h = absurd (omega arith)
  total-set (d ∷ cs) zero c h = omega arith
  total-set (d ∷ cs) (suc i) c h = omega (arith, total-set cs i c)

  in_range : (m : HashMap V) (key : ℕ) → IsMap m → bucket_for m.bucket_count key < length m.buckets
  in_range m key v =
      subst (λ n. bucket_for m.bucket_count key < n) (sym v.counted)
        (bucket_for_lt m.bucket_count key v.some_bucket)

  -- An insertion that succeeds makes one entry more.
  pub hash_map_insert-entries :
      (m : HashMap V) (key : ℕ) (value : V) (mem mem' : Memory)
      → IsMap m
      → hash_map_find m key ≡ none
      → malloc mem ≡ (true, mem')
      → entries (hash_map_insert m key value mem).1 ≡ suc (entries m)
  unfolding hash_map_insert
  hash_map_insert-entries m key value mem mem' v h e =
      let t =
        total-set m.buckets (bucket_for m.bucket_count key)
          ((key, value) ∷ chain m (bucket_for m.bucket_count key)) (in_range m key v) in
      let put =
        set m.buckets (bucket_for m.bucket_count key)
          ((key, value) ∷ chain m (bucket_for m.bucket_count key)) in
      let done : entries (hash_map_insert m key value mem).1 ≡ total put =
        rw (hash_map_insert, h, e, if◌then◌else◌) refl in
      done ∙ omega (arith, t)

  length-without :
      (k : ℕ) (c : List (ℕ × V)) (v : V)
      → chain_find k c ≡ some v
      → length c ≡ suc (length (without k c))
  unfolding without chain_find
  length-without k [] v h = absurd cc
  length-without k ((j, w) ∷ rest) v h = ground (arith, length-without k rest v)

  -- A removal of a key that is there makes one entry less.
  pub hash_map_remove-entries :
      (m : HashMap V) (key : ℕ) (mem : Memory) (value : V)
      → IsMap m
      → hash_map_find m key ≡ some value
      → suc (entries (hash_map_remove m key mem).1) ≡ entries m
  unfolding hash_map_remove hash_map_find
  hash_map_remove-entries m key mem value v h =
      let i = bucket_for m.bucket_count key in
      elim (chain_remove_cases key (chain m i)) [
        | inl (f, r) ↦ absurd cc
        | inr (w, f, r) ↦
            let t = total-set m.buckets i (without key (chain m i)) (in_range m key v) in
            let n = length-without key (chain m i) w f in
            ap (λ o. suc (entries (relink m i mem o).1)) r ∙ omega (arith, t, n)
      ]

  free_chain_lem :
      (c : List (ℕ × V)) (mem : Memory)
      → ((free_chain c mem).freed ≡ mem.freed + length c)
        × ((free_chain c mem).allocated ≡ mem.allocated)
  unfolding free_chain free
  free_chain_lem [] mem = (omega arith, refl)
  free_chain_lem (e ∷ c) mem = let (f, a) = free_chain_lem c (free mem) in (f ∙ omega arith, a)

  free_buckets_lem :
      (cs : List (List (ℕ × V))) (mem : Memory)
      → ((free_buckets cs mem).freed ≡ mem.freed + total cs)
        × ((free_buckets cs mem).allocated ≡ mem.allocated)
  unfolding free_buckets total
  free_buckets_lem [] mem = (omega arith, refl)
  free_buckets_lem (c ∷ cs) mem =
      let (f, a) = free_buckets_lem cs (free_chain c mem) in
      let (g, b) = free_chain_lem c mem in (omega (arith, f, g), a ∙ b)

  -- The end of a table gives back the block of every entry, that of the buckets and that of the table.
  pub hash_map_destroy_lem :
      (m : HashMap V) (mem : Memory)
      → ((hash_map_destroy m mem).freed ≡ mem.freed + entries m + 2)
        × ((hash_map_destroy m mem).allocated ≡ mem.allocated)
  unfolding hash_map_destroy free
  hash_map_destroy_lem m mem = let (f, a) = free_buckets_lem m.buckets mem in (omega (arith, f), a)

module _ {V : Type 0} where
  -- A destruction asks for nothing.
  free_chain-answers :
      (entries : List (ℕ × V)) (mem : Memory) → (free_chain entries mem).answers ≡ mem.answers
  unfolding free_chain free
  free_chain-answers [] mem = refl
  free_chain-answers (entry ∷ entries) mem = free_chain-answers entries (free mem)

  free_buckets-answers :
      (chains : List (List (ℕ × V))) (mem : Memory)
      → (free_buckets chains mem).answers ≡ mem.answers
  unfolding free_buckets
  free_buckets-answers [] mem = refl
  free_buckets-answers (chain ∷ chains) mem =
      free_buckets-answers chains (free_chain chain mem) ∙ free_chain-answers chain mem

  pub hash_map_destroy-answers :
      (m : HashMap V) (mem : Memory) → (hash_map_destroy m mem).answers ≡ mem.answers
  unfolding hash_map_destroy free
  hash_map_destroy-answers m mem = free_buckets-answers m.buckets mem

pub total-replicate : (V : Type 0) (n : ℕ) → total {V = V} (replicate n []) ≡ 0
unfolding total
total-replicate V zero = refl
total-replicate V (suc n) = omega (arith, total-replicate V n)
