-- ===== src/LruC/HashMap.antt =====
-- 01-basics/lru-in-c/src/hash_map.c: a table of chains. A key is an `int64_t` as its bit pattern, a chain
-- the list of its entries, of which each is a block.
pub mod Chains
pub mod Laws
pub mod Entries
use Prim.Native.Nat.{bit_xor}
use cpp_graduate.Base.{
  ℕ, zero, suc, ◌+◌, ◌*◌, ◌/◌, ◌%◌, ◌^◌, List, [], ◌∷◌, Bool, true, false, ◌||◌, Option, none, some,
  ltb, ◌==◌, if◌then◌else◌, get_or, set, replicate, ◌-◌,
}
use cpp_graduate.LruC.{Memory, malloc, free}

-- The entries of the buckets, the last inserted first.
pub record HashMap (V : Type 0) : Type 0 where
  pub buckets : List (List (ℕ × V))
  pub bucket_count : ℕ

pub data HashMapResult : Type 0 where
  inserted duplicate no_memory : HashMapResult

-- The multiplications are those of `uint64_t`.
unfoldable pub mix : ℕ → ℕ
mix key =
    let h1 = bit_xor key (key / 2 ^ 30) in
    let h2 = h1 * 0xbf58476d1ce4e5b9 % 2 ^ 64 in
    let h3 = bit_xor h2 (h2 / 2 ^ 27) in
    let h4 = h3 * 0x94d049bb133111eb % 2 ^ 64 in bit_xor h4 (h4 / 2 ^ 31)

unfoldable pub bucket_for : ℕ → ℕ → ℕ
bucket_for bucket_count key = mix key % bucket_count

module _ {V : Type 0} where
  -- The loop of `hash_map_find` along a chain.
  unfoldable pub chain_find : ℕ → List (ℕ × V) → Option V
  chain_find key [] = none
  chain_find key ((k, value) ∷ entries) = if k == key then some value else chain_find key entries

  unfoldable pub hash_map_find : HashMap V → ℕ → Option V
  unfolding chain_find
  hash_map_find m key = chain_find key (get_or m.buckets (bucket_for m.bucket_count key) [])

  unfoldable pub hash_map_insert : HashMap V → ℕ → V → Memory → HashMapResult × HashMap V × Memory
  unfolding hash_map_find
  hash_map_insert m key value mem = elim (hash_map_find m key) [
    | some existing ↦ (duplicate, m, mem)
    | none ↦
        let (given, mem') = malloc mem in
        let bucket = bucket_for m.bucket_count key in
        let chains = set m.buckets bucket ((key, value) ∷ get_or m.buckets bucket []) in
        if given then (inserted, record m { buckets = chains }, mem') else (no_memory, m, mem')
  ]

  -- The loop of `hash_map_remove` along the links of a chain, up to the entry that it unlinks.
  unfoldable pub chain_remove : ℕ → List (ℕ × V) → Option (List (ℕ × V))
  chain_remove key [] = none
  chain_remove key ((k, value) ∷ entries) =
      let rest : Option (List (ℕ × V)) = elim (chain_remove key entries) [
        | none ↦ none
        | some left ↦ some ((k, value) ∷ left)
      ] in
      if k == key then some entries else rest

  -- The end of `hash_map_remove`, by what the loop found.
  abbrev pub relink : HashMap V → ℕ → Memory → Option (List (ℕ × V)) → Bool × HashMap V × Memory
  relink m bucket mem none = (false, m, mem)
  relink m bucket mem (some entries) =
      (true, record m { buckets = set m.buckets bucket entries }, free mem)

  unfoldable pub hash_map_remove : HashMap V → ℕ → Memory → Bool × HashMap V × Memory
  unfolding chain_remove
  hash_map_remove m key mem =
      let bucket = bucket_for m.bucket_count key in
      relink m bucket mem (chain_remove key (get_or m.buckets bucket []))

  -- `hash_map_create` with the size of a pointer for `sizeof(HashMapEntry *)` and SIZE_MAX
  unfoldable pub hash_map_create : ℕ → Memory → Option (HashMap V) × Memory
  hash_map_create bucket_count mem =
      if bucket_count == 0 || ltb ((2 ^ 64 - 1) / 8) bucket_count
      then (none, mem)
      else (let (map_given, mem1) = malloc mem in
          let (buckets_given, mem2) = malloc mem1 in
          let empty : HashMap V = record {
            buckets = replicate bucket_count [];
            bucket_count = bucket_count;
          } in
          if map_given
          then (if buckets_given then (some empty, mem2) else (none, free mem2))
          else (none, mem1))

  -- `free` of each entry of a chain
  unfoldable pub free_chain : List (ℕ × V) → Memory → Memory
  free_chain [] mem = mem
  free_chain (entry ∷ entries) mem = free_chain entries (free mem)

  unfoldable pub free_buckets : List (List (ℕ × V)) → Memory → Memory
  unfolding free_chain
  free_buckets [] mem = mem
  free_buckets (chain ∷ chains) mem = free_buckets chains (free_chain chain mem)

  -- `hash_map_destroy` of a map that is there
  unfoldable pub hash_map_destroy : HashMap V → Memory → Memory
  unfolding free_buckets
  hash_map_destroy m mem = free (free (free_buckets m.buckets mem))
