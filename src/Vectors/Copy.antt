-- ===== src/Vectors/Copy.antt =====
-- Assignment and removal in the vector of 08-exceptions/myvec-demo/myvec-3.cc.
use cpp_graduate.Base.{
  ℕ, suc, ◌+◌, ◌<◌, ◌≤◌, ◌≡◌, refl, ap, subst, ◌∙◌, List, [], ◌∷◌, ◌++◌, length, arith,
}
use cpp_graduate.Vectors.{
  World, Vector, Outcome, returned, thrown, out_of_fuel, blocks, allocate, release, put, fill,
  finish, push, copy_elems, assign, but_last, pop,
}
use cpp_graduate.Vectors.Push.{
  Balance, IsFill, put-IsFill, fill-IsFill, copies, IsPush, push-IsPush,
}

module _ {A : Type 0} where
  -- An assignment returns a copy of the elements, where all copies succeeded, or it throws where one did
  -- not, and leaves the vector as it was. Neither loses an object or a block.
  abbrev pub IsAssign : World → Vector A → Vector A → Outcome A → Type 0
  IsAssign w v rhs (returned w' v') =
      (v'.elems ≡ rhs.elems)
      × (v'.size ≡ length rhs.elems)
      × (w.control ≡ w'.control + length rhs.elems)
      × Balance w w' (length v.elems) (length v'.elems) (blocks v.size) (blocks v'.size)
  IsAssign w v rhs (thrown w' v') = (v' ≡ v) × (w.control < length rhs.elems) × Balance w w' 0 0 0 0
  IsAssign w v rhs out_of_fuel = ⊥

  -- The assignment of a vector makes one copy of each element. If `control` allows them it returns with
  -- the same elements, and the capacity is their number; if not it throws and the vector is as it was.
  -- Either way the objects and the blocks that are live are those of the vectors.
  pub assign-IsAssign : (w : World) (v rhs : Vector A) → IsAssign w v rhs (assign w v rhs)
  unfolding assign copy_elems allocate release IsFill
  assign-IsAssign w v rhs =
      go (fill put (allocate w size) (record { elems = []; size = size }) rhs.elems) (
        fill-IsFill put (λ u tmp x _. put-IsFill u tmp x) (allocate w size)
          (record { elems = []; size = size }) rhs.elems (omega arith))
    where
      size : ℕ
      size = length rhs.elems

      go :
          (o : Outcome A)
          → IsFill (allocate w size) (record { elems = []; size = size }) rhs.elems o
          → IsAssign w v rhs (finish v o)
      go (returned u r) (e, s, c, (b, d)) =
          let k = ap blocks s in (e, s, c, (omega arith, omega arith))
      go (thrown u r) (s, c, (b, d)) = let k = ap blocks s in (refl, c, (omega arith, omega arith))
      go out_of_fuel h = h

  but_last-append : (x : A) (xs : List A) (t : A) → but_last x (xs ++ t ∷ []) ≡ x ∷ xs
  but_last-append x [] t = refl
  but_last-append x (y ∷ xs) t = ap (λ z. x ∷ z) (but_last-append y xs t)

  pop-append :
      (w : World) (l : List A) (n : ℕ) (t : A)
      → pop w (record { elems = l ++ t ∷ []; size = n })
        ≡ returned (record w { destroyed = suc w.destroyed }) (record { elems = l; size = n })
  unfolding pop
  pop-append w [] n t = refl
  pop-append w (x ∷ l) n t =
      ap (λ z. returned (record w { destroyed = suc w.destroyed }) (record { elems = z; size = n }))
        (but_last-append x l t)

  -- After a `push` that returned, of a vector whose size is at most its capacity, `pop` returns the
  -- elements that were there before and destroys one object.
  pub pop-push :
      (f : ℕ) (w w' : World) (v v' : Vector A) (t : A)
      → length v.elems ≤ v.size
      → push (suc (suc f)) w v t ≡ returned w' v'
      → pop w' v'
        ≡ returned
            (record w' { destroyed = suc w'.destroyed })
            (record { elems = v.elems; size = v'.size })
  pop-push f w w' v v' t h e =
      let ok = subst (IsPush w v t (copies v)) e (push-IsPush f w v t h) in
      ap (λ l. pop w' (record { elems = l; size = v'.size })) ok.0 ∙ pop-append w' v.elems v'.size t
