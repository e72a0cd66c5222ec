-- ===== src/Intrusive/Pool/Holds.antt =====
-- The entries that a cache of 01-basics/lru-in-c-datastructs/src/lru.c holds, by recency.
use cpp_graduate.Base.{
  ℕ, suc, ◌+◌, ◌<◌, ◌≤◌, ◌≡◌, refl, ap, sym, subst, ◌∙◌, List, [], ◌∷◌, ◌++◌, map, true, false,
  none, some, ◌==◌, elem, length, Bool-cases, inl, inr, ==_iff, arith,
}
use cpp_graduate.Perms.Loops.Lists.{Unique, elem-append, elem-split}
use cpp_graduate.Lru.Spec.{remove}
use cpp_graduate.LruC.Links.Laws.{IsList}
use cpp_graduate.Intrusive.IntMap.{Store}
use cpp_graduate.Intrusive.IntMap.Chain.{find_in}
use cpp_graduate.Intrusive.IntMap.Laws.{Outside, IsTable, lookup}
use cpp_graduate.Intrusive.Pool.{LruCache}

-- The list links the entries in this order, and the table finds exactly them. They are the first ones of
-- the array, and the others are not linked.
pub record Holds (c : LruCache) (chains : ℕ → List ℕ) (l : List ℕ) : Type 0 where
  pub ring : IsList c.ring c.recency l
  pub table : IsTable c.table c.index chains
  pub index : (k : ℕ) → lookup c.table c.index chains k ≡ find_in c.table k l
  pub unique : Unique (map c.table.key l)
  pub values : (e : ℕ) → elem e l ≡ true → c.value e ≡ e
  pub counted : length l ≡ c.used
  pub bounded : c.used ≤ c.capacity
  pub taken : (e : ℕ) → elem e l ≡ true → (c.entries ≤ e) × (e < c.entries + c.used)
  pub fresh :
      (e : ℕ) → c.entries + c.used ≤ e → e < c.entries + c.capacity → c.table.prev_next e ≡ none
  pub outside : (e : ℕ) → c.entries ≤ e → e < c.entries + c.capacity → Outside c.index e
  pub apart :
      (e : ℕ)
      → c.entries ≤ e
      → e < c.entries + c.capacity
      → ((c.recency == e) ≡ false) × (e < c.ring.unused)

-- A list that is included in another one, without repetitions, is not longer.
pub length-subset_le :
    (xs ys : List ℕ)
    → Unique xs
    → ((x : ℕ) → elem x xs ≡ true → elem x ys ≡ true)
    → length xs ≤ length ys
length-subset_le [] ys u sub = omega arith
length-subset_le (x ∷ xs) ys u sub =
    let (a, b, e, out) = elem-split x ys (sub x (ground arith)) in
    let rest =
      length-subset_le xs (a ++ b) u.1
        (λ y h. inside a b y e (sub y (ground arith)) (differs y h)) in
    let n = ap length e in let k = count a b in omega arith
  where
    differs : (y : ℕ) → elem y xs ≡ true → (x == y) ≡ false
    differs y h = elim (Bool-cases (x == y)) [
      | inr q ↦ q
      | inl q ↦ let m = subst (λ z. elem z xs ≡ false) ((==_iff x y).0 q) u.0 in cc
    ]

    inside :
        (a b : List ℕ) (y : ℕ)
        → ys ≡ a ++ x ∷ b
        → elem y ys ≡ true
        → (x == y) ≡ false
        → elem y (a ++ b) ≡ true
    inside a b y e h n =
        let g = subst (λ l. elem y l ≡ true) e h in
        ground (arith, elem-append y a (x ∷ b), elem-append y a b)

    count : (a b : List ℕ) → length (a ++ x ∷ b) ≡ suc (length (a ++ b))
    count [] b = refl
    count (y ∷ a) b = ap suc (count a b)

-- An entry that is found splits the list.
pub find_in-split :
    (t : Store) (k e : ℕ) (l : List ℕ)
    → find_in t k l ≡ some e
    → (ys zs : List ℕ) × (l ≡ ys ++ e ∷ zs) × (t.key e ≡ k) × (elem k (map t.key ys) ≡ false)
unfolding find_in
find_in-split t k e [] h = absurd cc
find_in-split t k e (x ∷ l) h = elim (Bool-cases (t.key x == k)) [
  | inl q ↦
      let same : x ≡ e = ground arith in
      ([], l, ap (λ z. z ∷ l) same, subst (λ z. t.key z ≡ k) same ((==_iff (t.key x) k).0 q), refl)
  | inr q ↦
      let (ys, zs, s, f, g) = find_in-split t k e l (ground arith) in
      (x ∷ ys, zs, ap (λ z. x ∷ z) s, f, ground arith)
]

-- Moved to the front, each entry is found as before.
pub find_in-front :
    (t : Store) (j e : ℕ) (ys zs : List ℕ)
    → elem (t.key e) (map t.key ys) ≡ false
    → find_in t j (e ∷ (ys ++ zs)) ≡ find_in t j (ys ++ e ∷ zs)
unfolding find_in
find_in-front t j e [] zs m = refl
find_in-front t j e (y ∷ ys) zs m = ground (arith, find_in-front t j e ys zs)

pub remove-keys :
    (t : Store) (k e : ℕ) (ys zs : List ℕ)
    → t.key e ≡ k
    → elem k (map t.key ys) ≡ false
    → remove k (map t.key (ys ++ e ∷ zs)) ≡ map t.key (ys ++ zs)
unfolding remove
remove-keys t k e [] zs h m = ground arith
remove-keys t k e (y ∷ ys) zs h m = ground (arith, remove-keys t k e ys zs)

elem-key :
    (t : Store) (e : ℕ) (es : List ℕ) → elem e es ≡ true → elem (t.key e) (map t.key es) ≡ true
elem-key t e [] h = h
elem-key t e (x ∷ es) h = elim (Bool-cases (x == e)) [
  | inl q ↦ let same = ap t.key ((==_iff x e).0 q) in ground arith
  | inr q ↦ ground (arith, elem-key t e es)
]

-- Where no key is there twice, an entry is found by its key.
pub find_in-elem :
    (t : Store) (e : ℕ) (es : List ℕ)
    → Unique (map t.key es)
    → elem e es ≡ true
    → find_in t (t.key e) es ≡ some e
unfolding find_in
find_in-elem t e [] u h = absurd cc
find_in-elem t e (x ∷ es) u h = elim (Bool-cases (x == e)) [
  | inl q ↦ let same = (==_iff x e).0 q in let k = ap t.key same in ground arith
  | inr q ↦
      let inside : elem e es ≡ true = ground arith in
      let m = elem-key t e es inside in ground (arith, find_in-elem t e es u.1 inside)
]

-- No chain is longer than the list.
pub length-chain_le :
    (c : LruCache) (chains : ℕ → List ℕ) (l : List ℕ)
    → Holds c chains l
    → (i : ℕ) → length (chains i) ≤ length l
length-chain_le c chains l v i =
    length-subset_le (chains i) l (v.table.distinct i) (λ e h. held e h)
  where
    found : (k e : ℕ) (es : List ℕ) → find_in c.table k es ≡ some e → elem e es ≡ true
    found k e es h =
        let (ys, zs, s, f, g) = find_in-split c.table k e es h in
        subst (λ z. elem e z ≡ true) (sym s) (ground (arith, elem-append e ys (e ∷ zs)))

    held : (e : ℕ) → elem e (chains i) ≡ true → elem e l ≡ true
    held e h =
        let b = v.table.placed i e h in
        found (c.table.key e) e l (
          sym (v.index (c.table.key e))
          ∙ ap (λ z. find_in c.table (c.table.key e) (chains z)) b
          ∙ find_in-elem c.table e (chains i) (v.table.unique i) h)
