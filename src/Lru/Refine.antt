-- ===== src/Lru/Refine.antt =====
-- `lookup_update` of cache.hpp keeps index and list in step, and implements the cache of Spec.
use native.Mathlib.Decide.{ℕ_discrete}
use cpp_graduate.Base.{
  ℕ, zero, suc, ◌+◌, ◌-◌, ◌≤◌, ◌<◌, ◌≡◌, ◌≢◌, refl, ap, sym, ◌∙◌, subst, List, [], ◌∷◌, ◌++◌, Bool,
  true, false, arith, none, some, ◌==◌, if◌then◌else◌, length, elem, take, Bool-cases, inl, inr,
  length-append,
}
use cpp_graduate.Perms.Loops.Lists.{Unique}
use cpp_graduate.Lru.{
  Node, Cache, hash_find, hash_erase, pop_back, full, evict, emplace_front, make_cache,
}
use cpp_graduate.Lru.Spec.{remove, touch}
use cpp_graduate.Lru.Store.{
  hash_find-erase, hash_find-emplace, node_of, keys, ids, elem-keys, pop_back-append, node_of-snoc,
  keys-snoc, length-keys, Unique-keys_init, Unique-ids_init, elem-ids_append,
}

length-take-le : (n : ℕ) (l : List ℕ) → length (take n l) ≤ n
length-take-le zero l = omega arith
length-take-le (suc n) [] = omega arith
length-take-le (suc n) (x ∷ l) = omega (arith, length-take-le n l)

pub take_all : (n : ℕ) (l : List ℕ) → length l ≤ n → take n l ≡ l
take_all zero [] h = refl
take_all zero (x ∷ l) h = absurd (omega arith)
take_all (suc n) [] h = refl
take_all (suc n) (x ∷ l) h = ap (◌∷◌ x) (take_all n l (omega arith))

pub remove_absent : (k : ℕ) (l : List ℕ) → elem k l ≡ false → remove k l ≡ l
unfolding remove
remove_absent k [] h = refl
remove_absent k (x ∷ l) h = ground (arith, remove_absent k l)

take-remove : (n k : ℕ) (l : List ℕ) → take n (remove k (take (suc n) l)) ≡ take n (remove k l)
unfolding remove
take-remove zero k l = refl
take-remove (suc n) k [] = refl
take-remove (suc n) k (x ∷ l) = elim (Bool-cases (x == k)) [
  | inl e ↦ rw e (take_all (suc n) (take (suc n) l) (length-take-le (suc n) l))
  | inr e ↦ rw e (ap (◌∷◌ x) (take-remove n k l))
]

-- What is outside the window does not come back by a request.
pub take-touch : (n k : ℕ) (h : List ℕ) → take n (touch (take n h) k) ≡ take n (touch h k)
unfolding touch
take-touch zero k h = refl
take-touch (suc n) k h = ap (◌∷◌ k) (take-remove n k h)

module _ {T : Type 0} where
  -- The index finds exactly the entries of the list; no key and no node is there twice.
  pub record IsValid (c : Cache T) : Type 0 where
    pub bounded : length c.cache ≤ c.sz
    pub unique_keys : Unique (keys c.cache)
    pub unique_ids : Unique (ids c.cache)
    pub allocated : (q : ℕ) → elem q (ids c.cache) ≡ true → q < c.fresh
    pub index : (k : ℕ) → hash_find k c.hash ≡ node_of k c.cache

  pub make_cache-IsValid : (sz : ℕ) → IsValid (make_cache {T = T} sz)
  unfolding make_cache hash_find node_of
  make_cache-IsValid sz = record {
    bounded = omega arith;
    unique_keys = tt;
    unique_ids = tt;
    allocated = λ q h. ground arith;
    index = λ k. refl;
  }

  -- What is made room for: fewer entries than the size, the most recent ones.
  pub record HasRoom (c c' : Cache T) : Type 0 where
    pub valid : IsValid c'
    pub size : c'.sz ≡ c.sz
    pub room : length c'.cache < c.sz
    pub kept : keys c'.cache ≡ take (c.sz - 1) (keys c.cache)
    pub absent : (k : ℕ) → node_of k c.cache ≡ none → node_of k c'.cache ≡ none

  evict-HasRoom :
      (c : Cache T)
      → IsValid c
      → (n : Node T) (l : List (Node T)) → c.cache ≡ n ∷ l
      → length c.cache ≡ c.sz
      → HasRoom c (evict c)
  unfolding evict
  evict-HasRoom c v n l e f =
      let (r, last, popped, split) = pop_back-append n l in
      let s : c.cache ≡ r ++ last ∷ [] = e ∙ split in
      let p : pop_back c.cache ≡ some (r, last) = ap pop_back e ∙ popped in
      let c' : Cache T = record c { cache = r; hash = hash_erase last.key c.hash } in
      let uk : Unique (keys (r ++ last ∷ [])) = subst (λ z. Unique (keys z)) s v.unique_keys in
      let n : length c.cache ≡ length r + 1 = rw s (length-append r (last ∷ [])) in
      let nodes : (k : ℕ) → node_of k r ≡ (if last.key == k then none else node_of k c.cache) =
        λ k. rw s (node_of-snoc k r last uk) in
      let room : HasRoom c c' = record {
        valid = record {
          bounded = omega (arith, v.bounded);
          unique_keys = Unique-keys_init r last uk;
          unique_ids = Unique-ids_init r last (subst (λ z. Unique (ids z)) s v.unique_ids);
          allocated = λ q h. v.allocated q (rw s (ground (arith, elem-ids_append q r last)));
          index = λ k. ground (arith, hash_find-erase k last.key c.hash, v.index k, nodes k);
        };
        size = refl;
        room = omega arith;
        kept =
            let m : c.sz - 1 ≡ length r = omega arith in
            sym (ap (λ z. take (length r) (keys z)) s ∙ keys-snoc r last) ∙ rw m refl;
        absent = λ k h. ground (arith, nodes k);
      } in
      rw (p, evict) room

  pub room-HasRoom :
      (c : Cache T) → IsValid c → c.sz ≢ 0 → HasRoom c (if full c then evict c else c)
  room-HasRoom c v ne = elim (ℕ_discrete (length c.cache) c.sz) [
    | yes e ↦ let t : full c ≡ true = ground arith in rw t (nonempty c.cache refl e)
    | no n ↦
        let t : full c ≡ false = ground arith in
        rw t (record {
          valid = v;
          size = refl;
          room = omega (arith, v.bounded);
          kept =
              sym (
                take_all (c.sz - 1) (keys c.cache) (omega (arith, v.bounded, length-keys c.cache)));
          absent = λ k h. h;
        })
  ]
    where
      nonempty : (l : List (Node T)) → c.cache ≡ l → length c.cache ≡ c.sz → HasRoom c (evict c)
      nonempty [] e f = absurd (omega (arith, ap length e))
      nonempty (n ∷ l) e f = evict-HasRoom c v n l e f

  pub emplace_front-IsValid :
      (c : Cache T) (key : ℕ) (page : T)
      → IsValid c
      → node_of key c.cache ≡ none
      → length c.cache < c.sz
      → IsValid (emplace_front c key page)
  unfolding emplace_front node_of
  emplace_front-IsValid c key page v out room =
      let new : elem c.fresh (ids c.cache) ≡ false =
        elim (Bool-cases (elem c.fresh (ids c.cache))) [
          | inl i ↦ absurd (omega (arith, v.allocated c.fresh i))
          | inr i ↦ i
        ] in
      record {
        bounded = omega arith;
        unique_keys = (elem-keys key c.cache out, v.unique_keys);
        unique_ids = (new, v.unique_ids);
        allocated = λ q h. ground (arith, v.allocated q);
        index = λ k.
            hash_find-emplace k key c.fresh c.hash (v.index key ∙ out) ∙ ground (arith, v.index k);
      }

  -- One request: the invariant, the keys, and the answer.
  pub record IsServed (c : Cache T) (key : ℕ) (c' : Cache T) (hit : Bool) : Type 0 where
    pub valid : IsValid c'
    pub size : c'.sz ≡ c.sz
    pub recency : keys c'.cache ≡ take c.sz (touch (keys c.cache) key)
    pub answer : hit ≡ elem key (keys c.cache)
