-- ===== src/Lru/Store.antt =====
-- The index and the list of cache.hpp: what `find`, `erase`, `emplace`, `splice` and `pop_back` do.
use native.Mathlib.Decide.{ℕ_discrete}
use cpp_graduate.Base.{
  ℕ, suc, ◌≡◌, ◌≢◌, refl, ap, List, [], ◌∷◌, ◌++◌, map, true, false, ◌||◌, arith, Option, none,
  some, ◌==◌, if◌then◌else◌, length, elem, take, Bool-cases, inl, inr,
}
use cpp_graduate.Perms.Loops.Lists.{Unique}
use cpp_graduate.Lru.{Node, hash_find, hash_erase, hash_emplace, extract, splice_front, pop_back}
use cpp_graduate.Lru.Spec.{remove}

pub hash_find-erase :
    (k j : ℕ) (m : List (ℕ × ℕ))
    → hash_find k (hash_erase j m) ≡ (if j == k then none else hash_find k m)
unfolding hash_find hash_erase
hash_find-erase k j [] = ground arith
hash_find-erase k j ((i, it) ∷ m) = ground (arith, hash_find-erase k j m)

pub hash_find-emplace :
    (k j it : ℕ) (m : List (ℕ × ℕ))
    → hash_find j m ≡ none
    → hash_find k (hash_emplace j it m) ≡ (if j == k then some it else hash_find k m)
unfolding hash_find hash_emplace
hash_find-emplace k j it m h = ground arith

-- A new element behind the first of a list of different elements.
Unique-second :
    (a b : ℕ) (r l : List ℕ)
    → Unique (a ∷ r)
    → elem b l ≡ false
    → elem a l ≡ true
    → ((q : ℕ) → elem q r ≡ true → elem q l ≡ true)
    → Unique (a ∷ b ∷ r)
Unique-second a b r l u out inside sub =
    let absent : elem b r ≡ false = elim (Bool-cases (elem b r)) [
      | inl i ↦ cc (sub b i)
      | inr i ↦ i
    ] in
    let ne : b ≢ a = λ e. cc (ap (λ z. elem z l) e) in (ground arith, (absent, u.1))

module _ {T : Type 0} where
  -- The identity of the entry with a key.
  unfoldable pub node_of : ℕ → List (Node T) → Option ℕ
  node_of k [] = none
  node_of k (n ∷ l) = if n.key == k then some n.id else node_of k l

  abbrev pub keys : List (Node T) → List ℕ
  keys = map (λ n. n.key)

  abbrev pub ids : List (Node T) → List ℕ
  ids = map (λ n. n.id)

  pub node_of-some : (k i : ℕ) (l : List (Node T)) → node_of k l ≡ some i → elem i (ids l) ≡ true
  unfolding node_of
  node_of-some k i [] h = ground arith
  node_of-some k i (n ∷ l) h = ground (arith, node_of-some k i l)

  pub elem-keys : (k : ℕ) (l : List (Node T)) → (node_of k l ≡ none) → elem k (keys l) ≡ false
  unfolding node_of
  elem-keys k [] h = refl
  elem-keys k (n ∷ l) h = ground (arith, elem-keys k l)

  pub elem-keys-some :
      (k i : ℕ) (l : List (Node T)) → (node_of k l ≡ some i) → elem k (keys l) ≡ true
  unfolding node_of
  elem-keys-some k i [] h = ground arith
  elem-keys-some k i (n ∷ l) h = ground (arith, elem-keys-some k i l)

  -- The entry of a key, taken out of the list by its iterator.
  pub record IsExtracted (k i : ℕ) (l : List (Node T)) (n : Node T) (r : List (Node T))
      : Type 0 where
    pub found : extract i l ≡ some (n, r)
    pub key : n.key ≡ k
    pub id : n.id ≡ i
    pub size : suc (length r) ≡ length l
    pub rest : keys r ≡ remove k (keys l)
    pub same_keys : (q : ℕ) → elem q (keys r) ≡ true → elem q (keys l) ≡ true
    pub same_ids : (q : ℕ) → elem q (ids r) ≡ true → elem q (ids l) ≡ true
    pub others : (q : ℕ) → node_of q (n ∷ r) ≡ node_of q l

  pub extract-IsExtracted :
      (k i : ℕ) (l : List (Node T))
      → Unique (keys l)
      → Unique (ids l)
      → node_of k l ≡ some i
      → (n : Node T) × (r : List (Node T)) × IsExtracted k i l n r
        × Unique (keys (n ∷ r))
        × Unique (ids (n ∷ r))
  unfolding node_of extract remove
  extract-IsExtracted k i [] u v h = ground arith
  extract-IsExtracted k i (x ∷ l) u v h = elim (ℕ_discrete x.key k) [
    | yes e ↦ (
      x,
      l,
      record {
        found = ground arith;
        key = e;
        id = ground arith;
        size = refl;
        rest = ground arith;
        same_keys = λ q h. ground arith;
        same_ids = λ q h. ground arith;
        others = λ q. refl;
      },
      u,
      v,
    )
    | no ne ↦
        let later : node_of k l ≡ some i = ground arith in
        let (n, r, s, u', v') = extract-IsExtracted k i l u.1 v.1 later in
        let in_ids = node_of-some k i l later in
        let in_keys = elem-keys-some k i l later in
        (
          n,
          x ∷ r,
          record {
            found = ground (arith, s.found);
            key = s.key;
            id = s.id;
            size = ap suc s.size;
            rest = ground (arith, s.rest);
            same_keys = λ q h. ground (arith, s.same_keys q);
            same_ids = λ q h. ground (arith, s.same_ids q);
            others = λ q. ground (arith, s.others q, s.key);
          },
          Unique-second n.key x.key (keys r) (keys l) u' u.0 (rw s.key in_keys) s.same_keys,
          Unique-second n.id x.id (ids r) (ids l) v' v.0 (rw s.id in_ids) s.same_ids,
        )
  ]

  pub splice_front-extract :
      (i : ℕ) (l r : List (Node T)) (n : Node T)
      → extract i l ≡ some (n, r)
      → splice_front i l ≡ n ∷ r
  unfolding splice_front
  splice_front-extract i l r n h = ground arith

  pub pop_back-append :
      (n : Node T) (l : List (Node T))
      → (r : List (Node T)) × (last : Node T) × (pop_back (n ∷ l) ≡ some (r, last))
        × (n ∷ l ≡ r ++ last ∷ [])
  unfolding pop_back
  pop_back-append n [] = ([], n, refl, refl)
  pop_back-append n (m ∷ l) =
      let (r, last, e, f) = pop_back-append m l in (n ∷ r, last, ground arith, ap (◌∷◌ n) f)

  pub node_of-snoc :
      (q : ℕ) (r : List (Node T)) (last : Node T)
      → Unique (keys (r ++ last ∷ []))
      → node_of q r ≡ (if last.key == q then none else node_of q (r ++ last ∷ []))
  unfolding node_of
  node_of-snoc q [] last u = ground arith
  node_of-snoc q (n ∷ r) last u =
      let other : elem last.key (keys (r ++ last ∷ [])) ≡ true = elem_last last.key r in
      let ne : n.key ≢ last.key = λ e. cc (ap (λ z. elem z (keys (r ++ last ∷ []))) e, u.0) in
      ground (arith, node_of-snoc q r last u.1)
    where
      elem_last : (k : ℕ) (r : List (Node T)) → elem last.key (keys (r ++ last ∷ [])) ≡ true
      elem_last k [] = ground arith
      elem_last k (m ∷ r) = ground (arith, elem_last k r)

  pub keys-snoc :
      (r : List (Node T)) (last : Node T) → take (length r) (keys (r ++ last ∷ [])) ≡ keys r
  keys-snoc [] last = refl
  keys-snoc (n ∷ r) last = ap (◌∷◌ n.key) (keys-snoc r last)

  pub length-keys : (l : List (Node T)) → length (keys l) ≡ length l
  length-keys [] = refl
  length-keys (n ∷ l) = ap suc (length-keys l)

  pub elem-keys_append :
      (q : ℕ) (r : List (Node T)) (last : Node T)
      → elem q (keys (r ++ last ∷ [])) ≡ (elem q (keys r) || last.key == q)
  elem-keys_append q [] last = ground arith
  elem-keys_append q (n ∷ r) last = ground (arith, elem-keys_append q r last)

  pub Unique-keys_init :
      (r : List (Node T)) (last : Node T) → Unique (keys (r ++ last ∷ [])) → Unique (keys r)
  Unique-keys_init [] last u = tt
  Unique-keys_init (n ∷ r) last u =
      (ground (arith, elem-keys_append n.key r last), Unique-keys_init r last u.1)

  pub elem-ids_append :
      (q : ℕ) (r : List (Node T)) (last : Node T)
      → elem q (ids (r ++ last ∷ [])) ≡ (elem q (ids r) || last.id == q)
  elem-ids_append q [] last = ground arith
  elem-ids_append q (n ∷ r) last = ground (arith, elem-ids_append q r last)

  pub Unique-ids_init :
      (r : List (Node T)) (last : Node T) → Unique (ids (r ++ last ∷ [])) → Unique (ids r)
  Unique-ids_init [] last u = tt
  Unique-ids_init (n ∷ r) last u =
      (ground (arith, elem-ids_append n.id r last), Unique-ids_init r last u.1)
