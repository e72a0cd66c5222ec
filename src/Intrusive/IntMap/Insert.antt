-- ===== src/Intrusive/IntMap/Insert.antt =====
-- `int_map_insert` of 01-basics/lru-in-c-datastructs/src/int_map.c.
use cpp_graduate.Base.{
  ℕ, ◌+◌, ◌<◌, ◌≡◌, refl, ap, sym, subst, ◌∙◌, List, [], ◌∷◌, map, true, false, none, some, ◌==◌,
  if◌then◌else◌, elem, length, Bool-cases, inl, inr, ==_iff, arith,
}
use cpp_graduate.Perms.Loops.Lists.{Unique}
use cpp_graduate.LruC.Links.Chain.{here, eq_self}
use cpp_graduate.Intrusive.IntMap.{Store, IntMap, bucket_for, link, int_map_insert}
use cpp_graduate.Intrusive.IntMap.Chain.{Chain, find_in, link-Chain, link-other}
use cpp_graduate.Intrusive.IntMap.Laws.{
  Outside, put, IsTable, lookup, bucket_for_lt, link_key, find_in_key, find_in-none, apart,
  no_bucket, unlinked, int_map_find_lem,
}

-- What holds of the bucket that was changed and of every other one holds of all.
pub put-case :
    (P : ℕ → List ℕ → Type 0) (chains : ℕ → List ℕ) (b i : ℕ) (l : List ℕ)
    → P b l
    → ((b == i) ≡ false → P i (chains i))
    → P i (put chains b l i)
put-case P chains b i l p r = elim (Bool-cases (b == i)) [
  | inl q ↦
      subst (λ j. P j (if b == j then l else chains j)) ((==_iff b i).0 q)
        (rw (eq_self b, if◌then◌else◌) p)
  | inr q ↦ rw (q, if◌then◌else◌) (r q)
]

head_in : (t : Store) (a x : ℕ) (es : List ℕ) → Chain t a es → t.cell a ≡ some x → elem x es ≡ true
head_in t a x [] c h = absurd cc
head_in t a x (e ∷ es) (c, d, k) h = let same : e ≡ x = cc in ground (arith, here e es)

module _ (t : Store) (m : IntMap) (chains : ℕ → List ℕ) (v : IsTable t m chains) (e : ℕ)
    (out : Outside m e) (free : t.prev_next e ≡ none)
    (new : lookup t m chains (t.key e) ≡ none) where
  abbrev pub home : ℕ
  home = bucket_for m.bucket_count (t.key e)

  abbrev pub longer : ℕ → List ℕ
  longer = put chains home (e ∷ chains home)

  home_lt : home < m.bucket_count
  home_lt = bucket_for_lt m.bucket_count (t.key e) v.positive

  linked-Chain :
      (i : ℕ) → i < m.bucket_count → Chain (link t (m.buckets + home) e) (m.buckets + i) (longer i)
  linked-Chain i lt =
      put-case (λ i l. i < m.bucket_count → Chain (link t (m.buckets + home) e) (m.buckets + i) l)
        chains home i (e ∷ chains home)
        (λ _.
          link-Chain t (m.buckets + home) e (chains home)
            (ground (arith, home_lt, absent home home_lt))
            (no_bucket t m chains v home home home_lt, v.distinct home) (v.chained home home_lt))
        (λ ne lt.
          link-other t (m.buckets + home) e (m.buckets + i) (chains i) (ground (arith, home_lt))
            (ground (arith, absent i lt)) (ground (arith, no_bucket t m chains v home i home_lt))
            (λ x h.
              apart t m chains v home i x ne
                (head_in t (m.buckets + home) x (chains home) (v.chained home home_lt) h))
            (v.chained i lt))
        lt
    where
      absent : (i : ℕ) → i < m.bucket_count → elem e (chains i) ≡ false
      absent i lt = unlinked t m chains v i e lt free

  pub linked-IsTable : IsTable (link t (m.buckets + home) e) m longer
  linked-IsTable = record {
    positive = v.positive;
    chained = linked-Chain;
    distinct = λ i.
        put-case (λ i l. Unique l) chains home i (e ∷ chains home)
          (unlinked t m chains v home e home_lt free, v.distinct home) (λ ne. v.distinct i);
    unique = λ i.
        subst (λ f. Unique (map f (longer i))) (sym (link_key t (m.buckets + home) e))
          (put-case (λ i l. Unique (map t.key l)) chains home i (e ∷ chains home)
            (find_in-none t (t.key e) (chains home) new, v.unique home) (λ ne. v.unique i));
    placed = λ i x.
        subst (λ f. elem x (longer i) ≡ true → bucket_for m.bucket_count (f x) ≡ i)
          (sym (link_key t (m.buckets + home) e))
          (put-case (λ i l. elem x l ≡ true → bucket_for m.bucket_count (t.key x) ≡ i) chains home i
            (e ∷ chains home) (first x) (λ ne. v.placed i x));
    outside = λ i x.
        put-case (λ i l. elem x l ≡ true → Outside m x) chains home i (e ∷ chains home)
          (first_outside x) (λ ne. v.outside i x);
  }
    where
      first : (x : ℕ) → elem x (e ∷ chains home) ≡ true → bucket_for m.bucket_count (t.key x) ≡ home
      first x h = elim (Bool-cases (e == x)) [
        | inl q ↦ ap (λ z. bucket_for m.bucket_count (t.key z)) (sym ((==_iff e x).0 q))
        | inr q ↦ v.placed home x (ground arith)
      ]

      first_outside : (x : ℕ) → elem x (e ∷ chains home) ≡ true → Outside m x
      first_outside x h = elim (Bool-cases (e == x)) [
        | inl q ↦ subst (Outside m) ((==_iff e x).0 q) out
        | inr q ↦ v.outside home x (ground arith)
      ]

  linked-lookup :
      (k : ℕ)
      → lookup (link t (m.buckets + home) e) m longer k
        ≡ (if t.key e == k then some e else lookup t m chains k)
  unfolding find_in
  linked-lookup k =
      find_in_key t (link t (m.buckets + home) e) k (longer (bucket_for m.bucket_count k))
        (link_key t (m.buckets + home) e)
      ∙ (elim (Bool-cases (t.key e == k)) [
        | inl q ↦
            subst
              (λ z.
                find_in t z (longer (bucket_for m.bucket_count z))
                ≡ (if t.key e == z then some e else lookup t m chains z))
              ((==_iff (t.key e) k).0 q) (rw (eq_self home, if◌then◌else◌, eq_self (t.key e)) refl)
        | inr q ↦
            rw (q, if◌then◌else◌)
              (put-case (λ i l. find_in t k l ≡ find_in t k (chains i)) chains home
                (bucket_for m.bucket_count k) (e ∷ chains home) (rw (q, if◌then◌else◌) refl)
                (λ ne. refl))
      ])

  -- An entry that is not linked and whose key is not there is inserted: the table stays a table, its key is
  -- then found at it, and every other key where it was.
  pub int_map_insert_lem :
      (fuel : ℕ)
      → length (chains (bucket_for m.bucket_count (t.key e))) < fuel
      → (u : Store) × (after : ℕ → List ℕ) × (int_map_insert fuel t m e ≡ some (true, u))
        × IsTable u m after
        × ((k : ℕ) → lookup u m after k ≡ (if t.key e == k then some e else lookup t m chains k))
  unfolding int_map_insert
  int_map_insert_lem fuel lt =
      let some_bucket : (m.bucket_count == 0) ≡ false = (let p = v.positive in ground arith) in
      (
        link t (m.buckets + home) e,
        longer,
        rw
            (
              int_map_insert,
              some_bucket,
              free,
              if◌then◌else◌,
              int_map_find_lem t m chains v fuel (t.key e) lt,
              new,
            )
            refl,
        linked-IsTable,
        linked-lookup,
      )
