-- ===== src/Lru/Requests.antt =====
-- `lookup_update` and the loop of `main` (01-basics/lru-in-cxx, cache.hpp and cache.cc) against the list
-- of recent keys.
use native.Mathlib.Decide.{ℕ_discrete}
use cpp_graduate.Base.{
  ℕ, suc, ◌+◌, ◌-◌, ◌≤◌, ◌≡◌, ◌≢◌, refl, ap, sym, ◌∙◌, subst, List, [], ◌∷◌, foldl, Bool, true,
  false, arith, none, some, ◌==◌, if◌then◌else◌, length, elem, take, Bool-cases, inl, inr,
  Option-cases,
}
use cpp_graduate.Lru.{
  Node, Cache, hash_find, full, evict, emplace_front, splice_front, lookup_update, serve,
}
use cpp_graduate.Lru.Spec.{touch, window, hits}
use cpp_graduate.Lru.Store.{
  node_of, node_of-some, keys, ids, elem-keys, elem-keys-some, IsExtracted, extract-IsExtracted,
  splice_front-extract, length-keys,
}
use cpp_graduate.Lru.Refine.{
  IsValid, IsServed, room-HasRoom, emplace_front-IsValid, take_all, take-touch, remove_absent,
}

module _ {T : Type 0} where
  hit-IsServed :
      (c : Cache T) (key it : ℕ)
      → IsValid c
      → node_of key c.cache ≡ some it
      → IsServed c key (record c { cache = splice_front it c.cache }) true
  hit-IsServed c key it v h =
      let (n, r, x, uk, ui) = extract-IsExtracted key it c.cache v.unique_keys v.unique_ids h in
      let s : splice_front it c.cache ≡ n ∷ r = splice_front-extract it c.cache r n x.found in
      let served : IsServed c key (record c { cache = n ∷ r }) true = record {
        valid = record {
          bounded = omega (arith, v.bounded, x.size);
          unique_keys = uk;
          unique_ids = ui;
          allocated = λ q i. elim (Bool-cases (n.id == q)) [
            | inl e ↦ v.allocated q (here q (ground arith))
            | inr ne ↦ v.allocated q (x.same_ids q (ground arith))
          ];
          index = λ k. v.index k ∙ sym (x.others k);
        };
        size = refl;
        recency = recent n r x;
        answer = sym (elem-keys-some key it c.cache h);
      } in
      rw s served
    where
      here : (q : ℕ) → it ≡ q → elem q (ids c.cache) ≡ true
      here q e = subst (λ z. elem z (ids c.cache) ≡ true) e (node_of-some key it c.cache h)

      recent :
          (n : Node T) (r : List (Node T))
          → IsExtracted key it c.cache n r
          → keys (n ∷ r) ≡ take c.sz (touch (keys c.cache) key)
      recent n r x =
          let e : keys (n ∷ r) ≡ touch (keys c.cache) key =
            unfold touch in rw (x.key, x.rest) refl in
          let small : length (keys (n ∷ r)) ≤ c.sz =
            omega (arith, length-keys (n ∷ r), v.bounded, x.size) in
          e ∙ sym (take_all c.sz (touch (keys c.cache) key) (rw (← e) small))

  miss-IsServed :
      (c : Cache T) (key : ℕ) (page : T)
      → IsValid c
      → c.sz ≢ 0
      → node_of key c.cache ≡ none
      → IsServed c key (emplace_front (if full c then evict c else c) key page) false
  miss-IsServed c key page v ne h =
      let c' = if full c then evict c else c in
      let room = room-HasRoom c v ne in
      let out = elem-keys key c.cache h in
      record {
        valid =
            emplace_front-IsValid c' key page room.valid (room.absent key h)
              (omega (arith, room.room, room.size));
        size = unfold emplace_front in room.size;
        recency =
            unfold emplace_front touch in
            (let e : c.sz ≡ suc (c.sz - 1) = omega arith in
              rw (room.kept, remove_absent key (keys c.cache) out) (sym (taken c.sz (c.sz - 1) e)));
        answer = sym out;
      }
    where
      taken : (n m : ℕ) → n ≡ suc m → take n (key ∷ keys c.cache) ≡ key ∷ take m (keys c.cache)
      taken n m e = rw e refl

  lookup_update_hit :
      (c : Cache T) (key it : ℕ) (f : ℕ → T)
      → c.sz ≢ 0
      → hash_find key c.hash ≡ some it
      → lookup_update c key f ≡ (record c { cache = splice_front it c.cache }, true)
  unfolding lookup_update
  lookup_update_hit c key it f ne h = ground arith

  lookup_update_miss :
      (c : Cache T) (key : ℕ) (f : ℕ → T)
      → c.sz ≢ 0
      → hash_find key c.hash ≡ none
      → lookup_update c key f ≡ (emplace_front (if full c then evict c else c) key (f key), false)
  unfolding lookup_update
  lookup_update_miss c key f ne h = ground arith

  lookup_update_zero :
      (c : Cache T) (key : ℕ) (f : ℕ → T) → c.sz ≡ 0 → lookup_update c key f ≡ (c, false)
  unfolding lookup_update
  lookup_update_zero c key f e = ground arith

  -- A request keeps index and list in step and the size; it answers whether the key was among the
  -- keys, and leaves as keys the first `sz` of the old ones with the requested key moved to the front.
  pub lookup_update-IsServed :
      (c : Cache T) (key : ℕ) (f : ℕ → T)
      → IsValid c
      → IsServed c key (lookup_update c key f).0 (lookup_update c key f).1
  lookup_update-IsServed c key f v = elim (ℕ_discrete c.sz 0) [
    | yes e ↦ rw (lookup_update_zero c key f e) (nothing c.cache refl e)
    | no ne ↦ elim (Option-cases (node_of key c.cache)) [
      | inl h ↦
          rw (lookup_update_miss c key f ne (v.index key ∙ h)) (miss-IsServed c key (f key) v ne h)
      | inr (it, h) ↦
          rw (lookup_update_hit c key it f ne (v.index key ∙ h)) (hit-IsServed c key it v h)
    ]
  ]
    where
      nothing : (l : List (Node T)) → c.cache ≡ l → c.sz ≡ 0 → IsServed c key c false
      nothing [] e z = record {
        valid = v;
        size = refl;
        recency = rw (e, z) refl;
        answer = rw e refl;
      }
      nothing (n ∷ l) e z = absurd (omega (arith, ap length e, v.bounded))

  -- The cache after a request holds the most recent keys of the longer history.
  touch-window :
      (c : Cache T) (key : ℕ) (history : List ℕ)
      → keys c.cache ≡ window c.sz history
      → take c.sz (touch (keys c.cache) key) ≡ window c.sz (touch history key)
  touch-window c key history w = ap (λ l. take c.sz (touch l key)) w ∙ take-touch c.sz key history

  -- The driver's loop over any requests: the cache stays valid, holds exactly the `sz` most recently
  -- requested keys in the order of their last requests, and the hits that it counts are the
  -- requests whose key is among the `sz` most recent keys at that time.
  pub serve-hits :
      (requests history : List ℕ) (f : ℕ → T) (c : Cache T) (n : ℕ)
      → IsValid c
      → keys c.cache ≡ window c.sz history
      → IsValid (serve requests f c n).0
        × (keys (serve requests f c n).0.cache ≡ window c.sz (foldl touch history requests))
        × ((serve requests f c n).1 ≡ n + hits c.sz history requests)
  unfolding serve hits
  serve-hits [] history f c n v w = (v, w, omega arith)
  serve-hits (key ∷ requests) history f c n v w =
      let s = lookup_update-IsServed c key f v in
      let c' = (lookup_update c key f).0 in
      let hit = (lookup_update c key f).1 in
      let (a, b, d) =
        serve-hits requests (touch history key) f c' (if hit then suc n else n) s.valid (
          s.recency
          ∙ touch-window c key history w
          ∙ ap (λ z. window z (touch history key)) (sym s.size)) in
      let known : hit ≡ elem key (window c.sz history) = s.answer ∙ ap (elem key) w in
      (
        a,
        b ∙ ap (λ z. window z (foldl touch history (key ∷ requests))) s.size,
        d ∙ rw (known, s.size) (counted (elem key (window c.sz history)) n _),
      )
    where
      counted : (b : Bool) (n m : ℕ) → (if b then suc n else n) + m ≡ n + (if b then suc m else m)
      counted true n m = omega arith
      counted false n m = refl
