-- ===== src/Arrays/Cells.antt =====
-- What a loop of assignments between arrays of 08-exceptions/myvec-demo does.
use cpp_graduate.Base.{
  ℕ, zero, suc, ◌+◌, ◌≡◌, ◌⊎◌, subst, ◌≤◌, ◌<◌, refl, ap, sym, ◌∙◌, List, [], ◌∷◌, ◌++◌, true, ltb,
  if◌then◌else◌, length, set, take, drop, length-set, inl, inr, arith,
}
use cpp_graduate.Vectors.{World, Construct, copied, refused, construct}
use cpp_graduate.Vectors.Push.{Balance}
use cpp_graduate.Arrays.{
  Array, Ended, returned, thrown, undefined, Copied, filled, failed, outside, assign_elem,
  after_cell, copy_cells, store,
}

-- An assignment copies or it throws, as `control` says, and leaves as many objects as there were.
pub assign_elem_cases :
    (w : World)
    → ((w' : World) × (assign_elem w ≡ copied w')
        × (w.control ≡ w'.control + 1)
        × Balance w w' 0 0 0 0)
      ⊎ ((w' : World) × (assign_elem w ≡ refused w') × (w.control ≡ 0) × Balance w w' 0 0 0 0)
unfolding assign_elem construct
assign_elem_cases w = go w.control refl
  where
    step : ℕ → Construct
    step c =
        elim (elim c as (λ _. Construct) [
          | zero ↦ refused (record w { control = 5 })
          | suc k ↦ copied (record w { control = k; built = suc w.built })
        ])
          as (λ _. Construct) [
            | copied w' ↦ copied (record w' { destroyed = suc w'.destroyed })
            | refused w' ↦ refused w'
          ]

    go :
        (c : ℕ)
        → w.control ≡ c
        → ((w' : World) × (step w.control ≡ copied w')
            × (w.control ≡ w'.control + 1)
            × Balance w w' 0 0 0 0)
          ⊎ ((w' : World) × (step w.control ≡ refused w') × (w.control ≡ 0) × Balance w w' 0 0 0 0)
    go zero e = inr (record w { control = 5 }, rw e refl, e, (refl, refl))
    go (suc k) e = inl (
      record w { control = k; built = suc w.built; destroyed = suc w.destroyed },
      rw e refl,
      omega arith,
      (omega arith, refl),
    )

module _ {A : Type 0} where
  -- A loop of `n` assignments either makes all of them, or ends where `control` reached zero. It makes and
  -- destroys as many objects.
  abbrev pub IsCopied : World → ℕ → List A → List A → Copied A → Type 0
  IsCopied w n src dest (filled w' cells) =
      (cells ≡ take n src ++ drop n dest) × (w.control ≡ w'.control + n) × Balance w w' 0 0 0 0
  IsCopied w n src dest (failed w' cells) =
      (length cells ≡ length dest) × (w.control < n) × Balance w w' 0 0 0 0
  IsCopied w n src dest outside = ⊥

  IsCopied-step :
      (w w' : World) (n : ℕ) (s d : A) (src dest : List A) (o : Copied A)
      → w.control ≡ w'.control + 1
      → Balance w w' 0 0 0 0
      → IsCopied w' n src dest o
      → IsCopied w (suc n) (s ∷ src) (d ∷ dest) (after_cell s o)
  IsCopied-step w w' n s d src dest (filled u cells) c (b, e) (f, g, (h, k)) =
      (ap (λ z. s ∷ z) f, omega arith, (omega arith, omega arith))
  IsCopied-step w w' n s d src dest (failed u cells) c (b, e) (f, g, (h, k)) =
      (ap suc f, omega arith, (omega arith, omega arith))
  IsCopied-step w w' n s d src dest outside c b x = x

  pub copy_cells-IsCopied :
      (w : World) (n : ℕ) (src dest : List A)
      → n ≤ length src
      → n ≤ length dest
      → IsCopied w n src dest (copy_cells w n src dest)
  unfolding copy_cells
  copy_cells-IsCopied w zero src dest h k = (refl, omega arith, (refl, refl))
  copy_cells-IsCopied w (suc n) [] dest h k = absurd (omega arith)
  copy_cells-IsCopied w (suc n) (s ∷ src) [] h k = absurd (omega arith)
  copy_cells-IsCopied w (suc n) (s ∷ src) (d ∷ dest) h k = elim (assign_elem_cases w) [
    | inl (w', e, c, b) ↦
        subst (λ z. IsCopied w (suc n) (s ∷ src) (d ∷ dest) (next z)) (sym e)
          (IsCopied-step w w' n s d src dest _ c b
            (copy_cells-IsCopied w' n src dest (omega arith) (omega arith)))
    | inr (w', e, c, b) ↦
        subst (λ z. IsCopied w (suc n) (s ∷ src) (d ∷ dest) (next z)) (sym e) (refl, omega arith, b)
  ]
    where
      next : Construct → Copied A
      next (copied w') = after_cell s (copy_cells w' n src dest)
      next (refused w') = failed w' (d ∷ dest)

  -- The elements of a vector.
  abbrev pub contents : Array A → List A
  contents v = take v.used v.arr

  -- There are as many cells as the vector takes for granted, and not more elements.
  pub record IsValid (v : Array A) : Type 0 where
    pub cells : length v.arr ≡ v.size
    pub bounded : v.used ≤ v.size

  take-set :
      (xs : List A) (i : ℕ) (v : A)
      → i < length xs
      → take (suc i) (set xs i v) ≡ take i xs ++ v ∷ []
  take-set [] i v h = absurd (omega arith)
  take-set (x ∷ xs) zero v h = refl
  take-set (x ∷ xs) (suc i) v h = ap (λ z. x ∷ z) (take-set xs i v (omega arith))

  -- What the assignment behind the elements does to a vector with room.
  abbrev pub IsStored : World → Array A → A → Ended A → Type 0
  IsStored w v t (returned w' v') =
      IsValid v'
      × (contents v' ≡ contents v ++ t ∷ [])
      × (length v'.arr ≡ length v.arr)
      × Balance w w' 0 0 0 0
  IsStored w v t (thrown w' v') = (v' ≡ v) × (w.control ≡ 0) × Balance w w' 0 0 0 0
  IsStored w v t undefined = ⊥

  pub store-IsStored :
      (w : World) (v : Array A) (t : A) → IsValid v → v.used < v.size → IsStored w v t (store w v t)
  unfolding store
  store-IsStored w v t valid lt =
      let room : ltb v.used (length v.arr) ≡ true = ground (arith, valid.cells) in
      rw (room, if◌then◌else◌)
        (elim (assign_elem_cases w) [
          | inl (w', e, c, b) ↦
              subst (λ z. IsStored w v t (next z)) (sym e)
                (
                  record { cells = length-set v.arr v.used t ∙ valid.cells; bounded = omega arith },
                  take-set v.arr v.used t (omega (arith, valid.cells)),
                  length-set v.arr v.used t,
                  b,
                )
          | inr (w', e, c, b) ↦ subst (λ z. IsStored w v t (next z)) (sym e) (refl, c, b)
        ])
    where
      next : Construct → Ended A
      next (copied w') = returned w' (record v { arr = set v.arr v.used t; used = suc v.used })
      next (refused w') = thrown w' v
