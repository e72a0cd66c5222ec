-- ===== src/Intrusive/IntMap/Laws.antt =====
-- The table of 01-basics/lru-in-c-datastructs/src/int_map.c is a map: what its writes do to all of its chains.
use native.Mathlib.Nat.{mod-lt}
use cpp_graduate.Base.{
  ℕ, ◌+◌, ◌<◌, ◌≡◌, refl, ap, sym, subst, ◌∙◌, List, [], ◌∷◌, ◌++◌, map, true, false, ◌||◌, Option,
  none, some, ◌==◌, leb, ltb, if◌then◌else◌, elem, length, Bool-cases, inl, inr, ==_iff, arith,
}
use cpp_graduate.Perms.Loops.Lists.{Unique}
use cpp_graduate.Intrusive.IntMap.{
  Store, IntMap, write, set_prev_next, set_prev_next_of, bucket_for, bucket_of, int_map_find, link,
  unlink,
}
use cpp_graduate.Intrusive.IntMap.Chain.{Chain, find_in, scan_lem}

-- The entry does not stand where the buckets do.
abbrev pub Outside : IntMap → ℕ → Type 0
Outside m e = (ltb e m.buckets || leb (m.buckets + m.bucket_count) e) ≡ true

abbrev pub put : (ℕ → List ℕ) → ℕ → List ℕ → ℕ → List ℕ
put chains b l i = if b == i then l else chains i

-- The buckets hold these chains of entries, each in the bucket of its key, and no key is there twice.
pub record IsTable (t : Store) (m : IntMap) (chains : ℕ → List ℕ) : Type 0 where
  pub positive : 0 < m.bucket_count
  pub chained : (i : ℕ) → i < m.bucket_count → Chain t (m.buckets + i) (chains i)
  pub distinct : (i : ℕ) → Unique (chains i)
  pub unique : (i : ℕ) → Unique (map t.key (chains i))
  pub placed : (i e : ℕ) → elem e (chains i) ≡ true → bucket_for m.bucket_count (t.key e) ≡ i
  pub outside : (i e : ℕ) → elem e (chains i) ≡ true → Outside m e

-- The entry of a key.
abbrev pub lookup : Store → IntMap → (ℕ → List ℕ) → ℕ → Option ℕ
lookup t m chains k = find_in t k (chains (bucket_for m.bucket_count k))

pub bucket_for_lt : (n key : ℕ) → 0 < n → bucket_for n key < n
unfolding bucket_for
bucket_for_lt n key h = mod-lt _ h

keys_of : (t : Store) (o q : Option ℕ) → (set_prev_next_of t o q).key ≡ t.key
keys_of t none q = refl
keys_of t (some e) q = refl

pub link_key : (t : Store) (a e : ℕ) → (link t a e).key ≡ t.key
unfolding link
link_key t a e =
    keys_of (set_prev_next (write t e (t.cell a)) e (some a)) ((write t e (t.cell a)).cell a)
      (some e)

pub unlink_key : (t : Store) (slot e : ℕ) → (unlink t slot e).key ≡ t.key
unfolding unlink
unlink_key t slot e =
    keys_of (write t slot (t.cell e)) ((write t slot (t.cell e)).cell e) (t.prev_next e)

-- Only the key of an entry matters to what is found.
pub find_in_key :
    (t u : Store) (k : ℕ) (es : List ℕ) → u.key ≡ t.key → find_in u k es ≡ find_in t k es
unfolding find_in
find_in_key t u k [] h = refl
find_in_key t u k (e ∷ es) h =
    let ih = find_in_key t u k es h in let same = ap (λ f. f e) h in rw (same, ih) refl

pub find_in-none :
    (t : Store) (k : ℕ) (es : List ℕ) → find_in t k es ≡ none → elem k (map t.key es) ≡ false
unfolding find_in
find_in-none t k [] h = refl
find_in-none t k (e ∷ es) h = ground (arith, find_in-none t k es)

find_in-absent :
    (t : Store) (k : ℕ) (es : List ℕ) → elem k (map t.key es) ≡ false → find_in t k es ≡ none
unfolding find_in
find_in-absent t k [] h = refl
find_in-absent t k (e ∷ es) h = ground (arith, find_in-absent t k es)

pub find_in-middle :
    (t : Store) (k e : ℕ) (ys zs : List ℕ)
    → Unique (map t.key (ys ++ e ∷ zs))
    → find_in t k (ys ++ zs) ≡ (if t.key e == k then none else find_in t k (ys ++ e ∷ zs))
unfolding find_in
find_in-middle t k e [] zs u = ground (arith, find_in-absent t (t.key e) zs u.0)
find_in-middle t k e (y ∷ ys) zs u =
    let ih = find_in-middle t k e ys zs u.1 in let m = elem_key e ys in ground arith
  where
    elem_key : (e : ℕ) (ys : List ℕ) → elem (t.key e) (map t.key (ys ++ e ∷ zs)) ≡ true
    elem_key e [] = ground arith
    elem_key e (y ∷ ys) = ground (arith, elem_key e ys)

elem_linked :
    (t : Store) (a e : ℕ) (es : List ℕ)
    → Chain t a es
    → elem e es ≡ true
    → (p : ℕ) × (t.prev_next e ≡ some p)
elem_linked t a e [] c h = absurd cc
elem_linked t a e (x ∷ es) (c, d, k) h = elim (Bool-cases (x == e)) [
  | inl q ↦ (a, subst (λ z. t.prev_next z ≡ some a) ((==_iff x e).0 q) d)
  | inr q ↦ elem_linked t x e es k (ground arith)
]

-- Two buckets have no entry in common, and none that is the address of a bucket.
module _ (t : Store) (m : IntMap) (chains : ℕ → List ℕ) (v : IsTable t m chains) where
  pub apart : (i j e : ℕ) → (i == j) ≡ false → elem e (chains i) ≡ true → elem e (chains j) ≡ false
  apart i j e n h = elim (Bool-cases (elem e (chains j))) [
    | inr q ↦ q
    | inl q ↦ let same : i ≡ j = sym (v.placed i e h) ∙ v.placed j e q in ground arith
  ]

  pub no_bucket : (i j : ℕ) → i < m.bucket_count → elem (m.buckets + i) (chains j) ≡ false
  no_bucket i j lt = elim (Bool-cases (elem (m.buckets + i) (chains j))) [
    | inr q ↦ q
    | inl q ↦ let o = v.outside j (m.buckets + i) q in ground arith
  ]

  pub unlinked : (i e : ℕ) → i < m.bucket_count → t.prev_next e ≡ none → elem e (chains i) ≡ false
  unlinked i e lt h = elim (Bool-cases (elem e (chains i))) [
    | inr q ↦ q
    | inl q ↦
        let (p, f) = elem_linked t (m.buckets + i) e (chains i) (v.chained i lt) q in absurd cc
  ]

  -- `int_map_find` finds the entry of the key.
  pub int_map_find_lem :
      (fuel key : ℕ)
      → length (chains (bucket_for m.bucket_count key)) < fuel
      → int_map_find fuel t m key ≡ some (lookup t m chains key)
  unfolding int_map_find
  int_map_find_lem fuel key lt =
      let some_bucket : (m.bucket_count == 0) ≡ false = (let p = v.positive in ground arith) in
      rw (some_bucket, if◌then◌else◌)
        (scan_lem fuel t (bucket_of m key) key (chains (bucket_for m.bucket_count key))
          (v.chained (bucket_for m.bucket_count key) (bucket_for_lt m.bucket_count key v.positive))
          lt)
