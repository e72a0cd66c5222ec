-- ===== src/Arrays/Pops.antt =====
-- `pop` and `top` of 08-exceptions/myvec-demo/myvec-1.cc and myvec-2.cc.
use cpp_graduate.Base.{
  ℕ, zero, suc, ◌+◌, ◌-◌, ◌<◌, ◌≡◌, ◌≢◌, ◌⊎◌, refl, ap, sym, ◌∙◌, List, [], ◌∷◌, ◌++◌, false, ◌==◌,
  if◌then◌else◌, length, take, some, inl, inr, arith,
}
use cpp_graduate.Vectors.{World, copied, refused, construct}
use cpp_graduate.Arrays.{Array, gave, not_given, get_elem?, give}
use cpp_graduate.Arrays.Cells.{contents, IsValid}
use cpp_graduate.Arrays.Naive
use cpp_graduate.Arrays.Safe

construct_cases :
    (w : World)
    → ((w' : World) × (construct w ≡ copied w') × (w.control ≡ w'.control + 1))
      ⊎ ((w' : World) × (construct w ≡ refused w') × (w.control ≡ 0))
unfolding construct
construct_cases w = go w.control refl
  where
    go :
        (c : ℕ)
        → w.control ≡ c
        → ((w' : World) × (construct w ≡ copied w') × (w.control ≡ w'.control + 1))
          ⊎ ((w' : World) × (construct w ≡ refused w') × (w.control ≡ 0))
    go zero e = inr (record w { control = 5 }, rw (construct, e) refl, e)
    go (suc k) e =
        inl (record w { control = k; built = suc w.built }, rw (construct, e) refl, omega arith)

module _ {A : Type 0} where
  -- The element behind the first `n` ones.
  take_next :
      (xs : List A) (n : ℕ)
      → n < length xs
      → (x : A) × (get_elem? xs n ≡ some x) × (take (suc n) xs ≡ take n xs ++ x ∷ [])
  take_next [] n h = absurd (omega arith)
  take_next (x ∷ xs) zero h = (x, refl, refl)
  take_next (x ∷ xs) (suc n) h =
      let (y, e, f) = take_next xs n (omega arith) in (y, e, ap (λ z. x ∷ z) f)

  give_cases :
      (w : World) (v : Array A) (n : ℕ) (x : A)
      → get_elem? v.arr n ≡ some x
      → ((w' : World) × (give w v n ≡ gave w' v x))
        ⊎ ((w' : World) × (give w v n ≡ not_given w' v) × (w.control ≡ 0))
  give_cases w v n x h = elim (construct_cases w) [
    | inl (w', e, c) ↦ inl (w', unfold give in rw (give, h, e) refl)
    | inr (w', e, c) ↦ inr (w', unfold give in rw (give, h, e) refl, c)
  ]

  module _ (default : A) where
    -- `pop` of myvec-1.cc on a vector with elements gives the last one and leaves the others. Where its copy throws, the vector
    -- is left without it all the same, and the element is lost.
    pub pop_lem :
        (w : World) (v : Array A)
        → IsValid v
        → v.used ≢ 0
        → (x : A) × (v' : Array A) × (contents v ≡ contents v' ++ x ∷ [])
          × (((w' : World) × (Naive.pop default w v ≡ gave w' v' x))
              ⊎ ((w' : World) × (Naive.pop default w v ≡ not_given w' v') × (w.control ≡ 0)))
    unfolding Naive.pop
    pop_lem w v valid ne =
        let some_element : (v.used == 0) ≡ false = ground arith in
        let (x, e, f) = take_next v.arr (v.used - 1) (omega (arith, valid.cells, valid.bounded)) in
        let last : suc (v.used - 1) ≡ v.used = omega arith in
        (
          x,
          record v { used = v.used - 1 },
          ap (λ n. take n v.arr) (sym last) ∙ f,
          rw (some_element, if◌then◌else◌)
              (give_cases w (record v { used = v.used - 1 }) (v.used - 1) x e),
        )

    -- `top` of myvec-2.cc gives the last element or throws, and the vector stays as it is.
    pub top_lem :
        (w : World) (v : Array A)
        → IsValid v
        → v.used ≢ 0
        → (x : A) × (contents v ≡ take (v.used - 1) v.arr ++ x ∷ [])
          × (((w' : World) × (Safe.top default w v ≡ gave w' v x))
              ⊎ ((w' : World) × (Safe.top default w v ≡ not_given w' v) × (w.control ≡ 0)))
    unfolding Safe.top
    top_lem w v valid ne =
        let some_element : (v.used == 0) ≡ false = ground arith in
        let (x, e, f) = take_next v.arr (v.used - 1) (omega (arith, valid.cells, valid.bounded)) in
        let last : suc (v.used - 1) ≡ v.used = omega arith in
        (
          x,
          ap (λ n. take n v.arr) (sym last) ∙ f,
          rw (some_element, if◌then◌else◌) (give_cases w v (v.used - 1) x e),
        )
