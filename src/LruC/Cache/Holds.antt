-- ===== src/LruC/Cache/Holds.antt =====
-- The entries that a cache of 01-basics/lru-in-c/src/lru.c holds, by recency.
use cpp_graduate.Base.{
  ℕ, suc, ◌≤◌, ◌<◌, ◌≡◌, refl, ap, sym, subst, ◌∙◌, List, [], ◌∷◌, ◌++◌, false, some, ◌==◌, elem,
  length, All, Bool-cases, inl, inr, ==_iff, arith,
}
use cpp_graduate.Perms.Loops.Lists.{Unique}
use cpp_graduate.Lru.{Node}
use cpp_graduate.Lru.Spec.{remove}
use cpp_graduate.Lru.Store.{node_of, keys, ids}
use cpp_graduate.LruC.HashMap.{hash_map_find}
use cpp_graduate.LruC.HashMap.Laws.{IsMap}
use cpp_graduate.LruC.HashMap.Entries.{entries}
use cpp_graduate.LruC.Links.{Heap}
use cpp_graduate.LruC.Links.Chain.{Linked-frame}
use cpp_graduate.LruC.Links.Laws.{IsList}
use cpp_graduate.LruC.Cache.{CacheEntry, LruCache}

module _ {Page : Type 0} where
  abbrev pub entry_of : Node Page → CacheEntry Page
  entry_of n = record { key = n.key; value = some n.page }

  abbrev pub Points : Heap (CacheEntry Page) → Node Page → Type 0
  Points h n = h.value n.id ≡ some (entry_of n)

  -- The list holds the nodes of the entries in this order, each points at its payload, and the index
  -- finds exactly them.
  pub record Stores (c : LruCache Page) (l : List (Node Page)) : Type 0 where
    pub list : IsList c.heap c.recency (ids l)
    pub payload : All (Points c.heap) l
    pub unique : Unique (keys l)
    pub table : IsMap c.index
    pub index : (k : ℕ) → hash_map_find c.index k ≡ node_of k l
    pub filled : entries c.index ≡ length l

  -- Between two calls the size is that of the list, and not above the capacity.
  pub record Holds (c : LruCache Page) (l : List (Node Page)) : Type 0 where
    pub stores : Stores c l
    pub counted : c.size ≡ length l
    pub bounded : length l ≤ c.capacity

  -- The payloads do not matter to the list.
  pub IsList-value :
      (h k : Heap (CacheEntry Page)) (list : ℕ) (nodes : List ℕ)
      → ((p : ℕ) → k.next p ≡ h.next p)
      → ((p : ℕ) → k.prev p ≡ h.prev p)
      → k.unused ≡ h.unused
      → IsList h list nodes
      → IsList k list nodes
  IsList-value h k list nodes f g u v = record {
    distinct = v.distinct;
    linked = Linked-frame h k list nodes list (λ p q. f p) (λ p q. g p) v.linked;
    allocated = λ p q. subst (λ z. p < z) (sym u) (v.allocated p q);
  }

  pub Points-other :
      (h k : Heap (CacheEntry Page)) (node : ℕ) (l : List (Node Page))
      → elem node (ids l) ≡ false
      → ((p : ℕ) → (p == node) ≡ false → k.value p ≡ h.value p)
      → All (Points h) l
      → All (Points k) l
  Points-other h k node [] m f a = tt
  Points-other h k node (n ∷ l) m f (e, a) =
      (f n.id (ground arith) ∙ e, Points-other h k node l (ground arith) f a)

  pub Points-frame :
      (h k : Heap (CacheEntry Page)) (l : List (Node Page))
      → ((p : ℕ) → k.value p ≡ h.value p)
      → All (Points h) l
      → All (Points k) l
  Points-frame h k [] f a = tt
  Points-frame h k (n ∷ l) f (e, a) = (f n.id ∙ e, Points-frame h k l f a)

  -- An entry found by its key splits the list.
  pub node_of-split :
      (k it : ℕ) (l : List (Node Page))
      → node_of k l ≡ some it
      → (ys : List (Node Page)) × (n : Node Page) × (zs : List (Node Page)) × (l ≡ ys ++ n ∷ zs)
        × (n.id ≡ it)
        × (n.key ≡ k)
        × (elem k (keys ys) ≡ false)
  unfolding node_of
  node_of-split k it [] h = absurd cc
  node_of-split k it (m ∷ l) h = elim (Bool-cases (m.key == k)) [
    | inl e ↦ ([], m, l, refl, ground arith, (==_iff m.key k).0 e, refl)
    | inr e ↦
        let (ys, n, zs, f, g, i, j) = node_of-split k it l (ground arith) in
        (m ∷ ys, n, zs, ap (λ z. m ∷ z) f, g, i, ground arith)
  ]

  pub node_of-middle :
      (k : ℕ) (ys : List (Node Page)) (n : Node Page) (zs : List (Node Page))
      → elem n.key (keys ys) ≡ false
      → node_of k (n ∷ (ys ++ zs)) ≡ node_of k (ys ++ n ∷ zs)
  unfolding node_of
  node_of-middle k [] n zs m = refl
  node_of-middle k (y ∷ ys) n zs m = ground (arith, node_of-middle k ys n zs)

  pub remove-middle :
      (k : ℕ) (ys : List (Node Page)) (n : Node Page) (zs : List (Node Page))
      → n.key ≡ k
      → elem k (keys ys) ≡ false
      → remove k (keys (ys ++ n ∷ zs)) ≡ keys (ys ++ zs)
  unfolding remove
  remove-middle k [] n zs e m = ground arith
  remove-middle k (y ∷ ys) n zs e m = ground (arith, remove-middle k ys n zs)

  pub All-middle :
      (P : Node Page → Type 0) (ys : List (Node Page)) (n : Node Page) (zs : List (Node Page))
      → All P (ys ++ n ∷ zs)
      → P n × All P (ys ++ zs)
  All-middle P [] n zs a = a
  All-middle P (y ∷ ys) n zs (p, a) = let (q, b) = All-middle P ys n zs a in (q, (p, b))

  pub ids-middle :
      (ys : List (Node Page)) (n : Node Page) (zs : List (Node Page))
      → ids (ys ++ n ∷ zs) ≡ ids ys ++ n.id ∷ ids zs
  ids-middle [] n zs = refl
  ids-middle (y ∷ ys) n zs = ap (λ z. y.id ∷ z) (ids-middle ys n zs)

  pub ids-both : (ys zs : List (Node Page)) → ids (ys ++ zs) ≡ ids ys ++ ids zs
  ids-both [] zs = refl
  ids-both (y ∷ ys) zs = ap (λ z. y.id ∷ z) (ids-both ys zs)

  pub keys-middle :
      (ys : List (Node Page)) (n : Node Page) (zs : List (Node Page))
      → keys (ys ++ n ∷ zs) ≡ keys ys ++ n.key ∷ keys zs
  keys-middle [] n zs = refl
  keys-middle (y ∷ ys) n zs = ap (λ z. y.key ∷ z) (keys-middle ys n zs)

  pub keys-both : (ys zs : List (Node Page)) → keys (ys ++ zs) ≡ keys ys ++ keys zs
  keys-both [] zs = refl
  keys-both (y ∷ ys) zs = ap (λ z. y.key ∷ z) (keys-both ys zs)

  pub length-middle :
      (ys : List (Node Page)) (n : Node Page) (zs : List (Node Page))
      → length (ys ++ n ∷ zs) ≡ suc (length (ys ++ zs))
  length-middle [] n zs = refl
  length-middle (y ∷ ys) n zs = ap suc (length-middle ys n zs)
