-- ===== src/Lru/Recency.antt =====
-- What is left of the keys of a cache (01-basics/lru-in-cxx) after as many different requests as it has
-- entries.
use mathlib.Core.List.{reverse_aux}
use cpp_graduate.Base.{
  ℕ, ◌+◌, ◌≤◌, ◌≡◌, refl, ap, sym, ◌∙◌, List, [], ◌∷◌, ◌++◌, reverse, foldl, true, false, arith,
  ◌==◌, length, elem, take, Bool-cases, inl, inr,
}
use cpp_graduate.Perms.Loops.Lists.{Unique}
use cpp_graduate.Lru.{Cache, serve}
use cpp_graduate.Lru.Spec.{touch, remove}
use cpp_graduate.Lru.Store.{keys, length-keys}
use cpp_graduate.Lru.Refine.{IsValid, take_all}
use cpp_graduate.Lru.Requests.{serve-hits}

remove-append :
    (k : ℕ) (xs ys : List ℕ) → elem k xs ≡ false → remove k (xs ++ ys) ≡ xs ++ remove k ys
unfolding remove
remove-append k [] ys e = refl
remove-append k (x ∷ xs) ys e = ground (arith, remove-append k xs ys)

-- Different requests stand in front of what was there, the last one first.
foldl-touch :
    (rs acc h : List ℕ)
    → Unique rs
    → ((x : ℕ) → elem x rs ≡ true → elem x acc ≡ false)
    → (h' : List ℕ) × (foldl touch (acc ++ h) rs ≡ reverse_aux rs acc ++ h')
unfolding touch
foldl-touch [] acc h u apart = (h, refl)
foldl-touch (r ∷ rs) acc h u apart =
    let (h', e) = foldl-touch rs (r ∷ acc) (remove r h) u.1 (λ x i. elim (Bool-cases (r == x)) [
      | inl q ↦ absurd (ground (arith, u.0, i))
      | inr q ↦ ground (arith, apart x)
    ]) in
    (h', ap (λ l. foldl touch (r ∷ l) rs) (remove-append r acc h (apart r (ground arith))) ∙ e)

length-reverse_aux : (rs acc : List ℕ) → length (reverse_aux rs acc) ≡ length rs + length acc
length-reverse_aux [] acc = omega arith
length-reverse_aux (r ∷ rs) acc = omega (arith, length-reverse_aux rs (r ∷ acc))

take-append : (xs ys : List ℕ) → take (length xs) (xs ++ ys) ≡ xs
take-append [] ys = refl
take-append (x ∷ xs) ys = ap (◌∷◌ x) (take-append xs ys)

module _ {T : Type 0} where
  -- After as many different requests as the cache has entries, it holds exactly their keys, the last
  -- one first: every other key has left it, whatever the cache held before.
  pub serve-reverse :
      (requests : List ℕ) (f : ℕ → T) (c : Cache T) (n : ℕ)
      → IsValid c
      → Unique requests
      → length requests ≡ c.sz
      → keys (serve requests f c n).0.cache ≡ reverse requests
  serve-reverse requests f c n v u e =
      let small : length (keys c.cache) ≤ c.sz = omega (arith, length-keys c.cache, v.bounded) in
      let (h', r) = foldl-touch requests [] (keys c.cache) u (λ x i. refl) in
      (serve-hits requests (keys c.cache) f c n v (sym (take_all c.sz (keys c.cache) small))).1
      ∙ ap (take c.sz) r
      ∙ ap (λ k. take k (reverse requests ++ h')) (omega (arith, e, length-reverse_aux requests []))
      ∙ take-append (reverse requests) h'
