-- ===== src/Intrusive/IntMap/Remove.antt =====
-- `int_map_remove` of 01-basics/lru-in-c-datastructs/src/int_map.c.
use mathlib.Core.List.{map-append}
use cpp_graduate.Base.{
  ℕ, ◌+◌, ◌<◌, ◌≡◌, refl, ap, sym, subst, ◌∙◌, List, ◌∷◌, ◌++◌, map, true, false, Option, none,
  some, ◌==◌, if◌then◌else◌, elem, Bool-cases, inl, inr, ==_iff, arith,
}
use cpp_graduate.Perms.Loops.Lists.{Unique, elem-append, elem-split}
use cpp_graduate.LruC.Links.Chain.{here, eq_self, differ}
use cpp_graduate.LruC.Links.Laws.{Unique-middle}
use cpp_graduate.Intrusive.IntMap.{Store, IntMap, bucket_for, unlink, int_map_remove}
use cpp_graduate.Intrusive.IntMap.Chain.{
  Chain, slot_in, next_in, find_in, unlink-Chain, unlink-other,
}
use cpp_graduate.Intrusive.IntMap.Laws.{
  Outside, put, IsTable, lookup, bucket_for_lt, unlink_key, find_in_key, find_in-middle, apart,
  no_bucket,
}
use cpp_graduate.Intrusive.IntMap.Insert.{put-case}

more_middle :
    (p : ℕ) (ys : List ℕ) (n : ℕ) (zs : List ℕ)
    → elem p (ys ++ zs) ≡ true
    → elem p (ys ++ n ∷ zs) ≡ true
more_middle p ys n zs h = ground (arith, elem-append p ys (n ∷ zs), elem-append p ys zs)

right_of :
    (p : ℕ) (ys : List ℕ) (n : ℕ) (zs : List ℕ) → elem p zs ≡ true → elem p (ys ++ n ∷ zs) ≡ true
right_of p ys n zs h = ground (arith, elem-append p ys (n ∷ zs))

left_of :
    (p : ℕ) (ys : List ℕ) (n : ℕ) (zs : List ℕ) → elem p ys ≡ true → elem p (ys ++ n ∷ zs) ≡ true
left_of p ys n zs h = ground (arith, elem-append p ys (n ∷ zs))

Unique-keys :
    (f : ℕ → ℕ) (ys : List ℕ) (e : ℕ) (zs : List ℕ)
    → Unique (map f (ys ++ e ∷ zs))
    → Unique (map f (ys ++ zs))
Unique-keys f ys e zs u =
    subst Unique (sym (map-append f ys zs))
      (Unique-middle (map f ys) (f e) (map f zs) (subst Unique (map-append f ys (e ∷ zs)) u)).1

module _ (t : Store) (m : IntMap) (chains : ℕ → List ℕ) (v : IsTable t m chains) (e : ℕ)
    (ys zs : List ℕ) (split : chains (bucket_for m.bucket_count (t.key e)) ≡ ys ++ e ∷ zs) where
  abbrev home : ℕ
  home = bucket_for m.bucket_count (t.key e)

  abbrev pub shorter : ℕ → List ℕ
  shorter = put chains home (ys ++ zs)

  home_lt : home < m.bucket_count
  home_lt = bucket_for_lt m.bucket_count (t.key e) v.positive

  at_home : (x : ℕ) → elem x (ys ++ e ∷ zs) ≡ true → elem x (chains home) ≡ true
  at_home x h = subst (λ l. elem x l ≡ true) (sym split) h

  itself : elem e (ys ++ e ∷ zs) ≡ true
  itself = ground (arith, elem-append e ys (e ∷ zs), here e zs)

  pub chain : Chain t (m.buckets + home) (ys ++ e ∷ zs)
  chain = subst (Chain t (m.buckets + home)) split (v.chained home home_lt)

  alone : Unique (e ∷ (ys ++ zs))
  alone = Unique-middle ys e zs (subst Unique split (v.distinct home))

  abbrev pub slot : ℕ
  slot = (slot_in t (m.buckets + home) ys e zs chain).0

  not_itself : (e == slot) ≡ false
  not_itself =
      let q = (slot_in t (m.buckets + home) ys e zs chain).2 in
      let o = v.outside home e (at_home e itself) in
      let d =
        differ slot e ((m.buckets + home) ∷ ys) q
          (ground (arith, home_lt, alone, elem-append e ys zs)) in
      ground arith

  not_other :
      (i : ℕ)
      → i < m.bucket_count
      → (home == i) ≡ false
      → elem slot ((m.buckets + i) ∷ chains i) ≡ false
  not_other i lt ne =
      let q = (slot_in t (m.buckets + home) ys e zs chain).2 in
      elim (Bool-cases (m.buckets + home == slot)) [
        | inl s ↦
            subst (λ z. elem z ((m.buckets + i) ∷ chains i) ≡ false)
              ((==_iff (m.buckets + home) slot).0 s)
              (ground (arith, no_bucket t m chains v home i home_lt))
        | inr s ↦
            let h = at_home slot (left_of slot ys e zs (ground arith)) in
            ground (arith, apart t m chains v home i slot ne h, v.outside home slot h)
      ]

  unlinked-Chain :
      (i : ℕ) → i < m.bucket_count → Chain (unlink t slot e) (m.buckets + i) (shorter i)
  unlinked-Chain i lt =
      put-case (λ i l. i < m.bucket_count → Chain (unlink t slot e) (m.buckets + i) l) chains home i
        (ys ++ zs)
        (λ _.
          unlink-Chain t slot (m.buckets + home) ys e zs (subst Unique split (v.distinct home))
            (subst (λ l. elem (m.buckets + home) l ≡ false) split
              (no_bucket t m chains v home home home_lt))
            (slot_in t (m.buckets + home) ys e zs chain).1 not_itself chain)
        (λ ne lt.
          unlink-other t slot e (m.buckets + i) (chains i) not_itself
            (ground (
              arith,
              apart t m chains v home i e ne (at_home e itself),
              v.outside home e (at_home e itself),
            ))
            (not_other i lt ne)
            (λ x h.
              apart t m chains v home i x ne
                (at_home x (right_of x ys e zs (next_in t (m.buckets + home) ys e zs x chain h))))
            (v.chained i lt))
        lt

  pub unlinked-IsTable : IsTable (unlink t slot e) m shorter
  unlinked-IsTable = record {
    positive = v.positive;
    chained = unlinked-Chain;
    distinct =
        λ i. put-case (λ i l. Unique l) chains home i (ys ++ zs) alone.1 (λ ne. v.distinct i);
    unique = λ i.
        subst (λ f. Unique (map f (shorter i))) (sym (unlink_key t slot e))
          (put-case (λ i l. Unique (map t.key l)) chains home i (ys ++ zs)
            (Unique-keys t.key ys e zs (subst (λ l. Unique (map t.key l)) split (v.unique home)))
            (λ ne. v.unique i));
    placed = λ i x.
        subst (λ f. elem x (shorter i) ≡ true → bucket_for m.bucket_count (f x) ≡ i)
          (sym (unlink_key t slot e))
          (put-case (λ i l. elem x l ≡ true → bucket_for m.bucket_count (t.key x) ≡ i) chains home i
            (ys ++ zs) (λ h. v.placed home x (at_home x (more_middle x ys e zs h)))
            (λ ne. v.placed i x));
    outside = λ i x.
        put-case (λ i l. elem x l ≡ true → Outside m x) chains home i (ys ++ zs)
          (λ h. v.outside home x (at_home x (more_middle x ys e zs h))) (λ ne. v.outside i x);
  }

  without_entry :
      (k : ℕ) → find_in t k (ys ++ zs) ≡ (if t.key e == k then none else find_in t k (chains home))
  without_entry k =
      find_in-middle t k e ys zs (subst (λ l. Unique (map t.key l)) split (v.unique home))
      ∙ ap (λ l. if t.key e == k then none else find_in t k l) (sym split)

  unlinked-lookup :
      (k : ℕ)
      → lookup (unlink t slot e) m shorter k ≡ (if t.key e == k then none else lookup t m chains k)
  unlinked-lookup k =
      find_in_key t (unlink t slot e) k (shorter (bucket_for m.bucket_count k))
        (unlink_key t slot e)
      ∙ (elim (Bool-cases (t.key e == k)) [
        | inl q ↦
            subst
              (λ z.
                find_in t z (shorter (bucket_for m.bucket_count z))
                ≡ (if t.key e == z then none else lookup t m chains z))
              ((==_iff (t.key e) k).0 q)
              (rw (eq_self home, if◌then◌else◌) (without_entry (t.key e)))
        | inr q ↦
            rw (q, if◌then◌else◌)
              (put-case (λ i l. find_in t k l ≡ find_in t k (chains i)) chains home
                (bucket_for m.bucket_count k) (ys ++ zs)
                (without_entry k ∙ rw (q, if◌then◌else◌) refl) (λ ne. refl))
      ])

pub remove_at :
    (t : Store) (p e : ℕ) → t.prev_next e ≡ some p → int_map_remove t e ≡ some (unlink t p e)
unfolding int_map_remove
remove_at t p e h = ap removed h
  where
    removed : Option ℕ → Option Store
    removed none = none
    removed (some slot) = some (unlink t slot e)

unlink_itself : (t : Store) (p e : ℕ) → (unlink t p e).prev_next e ≡ none
unfolding unlink
unlink_itself t p e = rw (eq_self e, if◌then◌else◌) refl

-- An entry that is in its bucket of a table is removed without following a chain: the table stays a table, the
-- key of the entry is not found any more, every other key is found where it was, and the entry is not linked.
pub int_map_remove-IsTable :
    (t : Store) (m : IntMap) (chains : ℕ → List ℕ) (e : ℕ)
    → IsTable t m chains
    → elem e (chains (bucket_for m.bucket_count (t.key e))) ≡ true
    → (u : Store) × (after : ℕ → List ℕ) × (int_map_remove t e ≡ some u)
      × IsTable u m after
      × ((k : ℕ) → lookup u m after k ≡ (if t.key e == k then none else lookup t m chains k))
      × (u.prev_next e ≡ none)
int_map_remove-IsTable t m chains e v inside =
    let (ys, zs, split, _) = elem-split e (chains (bucket_for m.bucket_count (t.key e))) inside in
    let linked =
      (slot_in t (m.buckets + bucket_for m.bucket_count (t.key e)) ys e zs
        (chain t m chains v e ys zs split)).1 in
    (
      unlink t (slot t m chains v e ys zs split) e,
      shorter t m chains v e ys zs split,
      remove_at t (slot t m chains v e ys zs split) e linked,
      unlinked-IsTable t m chains v e ys zs split,
      unlinked-lookup t m chains v e ys zs split,
      unlink_itself t (slot t m chains v e ys zs split) e,
    )
