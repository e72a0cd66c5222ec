-- ===== src/Arrays.antt =====
-- 08-exceptions/myvec-demo: the vectors of myvec-1.cc and myvec-2.cc, which assign to the cells of an array of
-- default elements. What they share: arrays, and copies from one to another.
pub mod Naive
pub mod Safe
pub mod Cells
pub mod Pushes
pub mod Pops
pub mod Tests
use cpp_graduate.Base.{
  ℕ, zero, suc, ◌+◌, List, [], ◌∷◌, Bool, true, false, ltb, if◌then◌else◌, length, replicate, set,
  Option, none, some,
}
use cpp_graduate.Vectors.{World, Construct, copied, refused, construct}

-- `MyVector` of both files: the cells that were allocated at `arr_`, and what the vector takes for their
-- number.
pub record Array (A : Type 0) : Type 0 where
  pub arr : List A
  pub size : ℕ
  pub used : ℕ

-- A call with the vector that it leaves; `undefined` is an access outside an array.
pub data Ended (A : Type 0) : Type 0 where
  returned : World → Array A → Ended A
  thrown : World → Array A → Ended A
  undefined : Ended A

-- A call that returns an element by value, or throws.
pub data Given (A : Type 0) : Type 0 where
  gave : World → Array A → A → Given A
  not_given : World → Array A → Given A
  no_element : Given A

-- A loop of assignments, with the cells that it leaves.
pub data Copied (A : Type 0) : Type 0 where
  filled : World → List A → Copied A
  failed : World → List A → Copied A
  outside : Copied A

-- `operator=(const Controllable &)`: the copy is destroyed with the old resource after the swap.
unfoldable pub assign_elem : World → Construct
unfolding construct
assign_elem w = elim (construct w) [
  | copied w' ↦ copied (record w' { destroyed = suc w'.destroyed })
  | refused w' ↦ refused w'
]

-- The world after `new T[n]`.
unfoldable pub new_array : World → ℕ → World
new_array w n = record w { built = w.built + n; allocated = suc w.allocated }

module _ {A : Type 0} where
  -- `delete[]`
  unfoldable pub delete_array : World → List A → World
  delete_array w cells = record w {
    destroyed = w.destroyed + length cells;
    deleted = suc w.deleted;
  }

  abbrev pub after_cell : A → Copied A → Copied A
  after_cell s (filled w cells) = filled w (s ∷ cells)
  after_cell s (failed w cells) = failed w (s ∷ cells)
  after_cell s outside = outside

  -- The loop `dest[idx] = src[idx]` from the cell that it has reached.
  unfoldable pub copy_cells : World → ℕ → List A → List A → Copied A
  unfolding assign_elem
  copy_cells w zero src dest = filled w dest
  copy_cells w (suc n) [] dest = outside
  copy_cells w (suc n) (s ∷ src) [] = outside
  copy_cells w (suc n) (s ∷ src) (d ∷ dest) = elim (assign_elem w) [
    | copied w' ↦ after_cell s (copy_cells w' n src dest)
    | refused w' ↦ failed w' (d ∷ dest)
  ]

  -- The end of `push`.
  unfoldable pub store : World → Array A → A → Ended A
  unfolding assign_elem
  store w v t =
      let stored : Ended A = elim (assign_elem w) [
        | copied w' ↦ returned w' (record v { arr = set v.arr v.used t; used = suc v.used })
        | refused w' ↦ thrown w' v
      ] in
      if ltb v.used (length v.arr) then stored else undefined

  abbrev pub get_elem? : List A → ℕ → Option A
  get_elem? [] i = none
  get_elem? (x ∷ xs) zero = some x
  get_elem? (x ∷ xs) (suc i) = get_elem? xs i

  -- `return arr_[idx]`, which copies the element
  unfoldable pub give : World → Array A → ℕ → Given A
  unfolding construct
  give w v idx = elim (get_elem? v.arr idx) [
    | none ↦ no_element
    | some x ↦ elim (construct w) [ copied w' ↦ gave w' v x | refused w' ↦ not_given w' v ]
  ]

  -- The vector that is moved from.
  abbrev pub emptied : Array A
  emptied = record { arr = []; size = 0; used = 0 }
