-- ===== src/Arrays/Naive.antt =====
-- 08-exceptions/myvec-demo/myvec-1.cc: no exception is caught. A constructor that throws runs no destructor.
use cpp_graduate.Base.{◌+◌, ◌-◌, ◌*◌, ◌==◌, if◌then◌else◌, replicate}
use cpp_graduate.Vectors.{World}
use cpp_graduate.Arrays.{
  Array, Ended, returned, thrown, undefined, Copied, filled, failed, outside, new_array,
  delete_array, copy_cells, store, Given, not_given, give, emptied,
}

-- `T()` is an element.
module _ {A : Type 0} (default : A) where
  -- The branch of `push` without room, after the loop.
  unfoldable pub grown : Array A → A → Copied A → Ended A
  unfolding store delete_array
  grown v t (filled w cells) =
      store (delete_array w v.arr) (record { arr = cells; size = v.size * 2 + 1; used = v.used }) t
  grown v t (failed w cells) = thrown w v
  grown v t outside = undefined

  unfoldable pub push : World → Array A → A → Ended A
  unfolding grown new_array copy_cells
  push w v t =
      let newsz = v.size * 2 + 1 in
      let full =
        grown v t (copy_cells (new_array w newsz) v.size v.arr (replicate newsz default)) in
      if v.used == v.size then full else store w v t

  -- The end of the copy assignment, whose `size_` and `used_` are set before the loop.
  unfoldable pub assigned : Array A → Copied A → Ended A
  assigned rhs (filled w cells) =
      returned w (record { arr = cells; size = rhs.size; used = rhs.used })
  assigned rhs (failed w cells) =
      thrown w (record { arr = cells; size = rhs.size; used = rhs.used })
  assigned rhs outside = undefined

  -- `operator=(const MyVector &rhs)` of another vector
  unfoldable pub assign : World → Array A → Array A → Ended A
  unfolding assigned new_array delete_array copy_cells
  assign w v rhs = assigned rhs (
      copy_cells (new_array (delete_array w v.arr) rhs.size) rhs.size rhs.arr
        (replicate rhs.size default))

  -- The end of the copy constructor; the vector of an exception is empty.
  unfoldable pub copied_from : Array A → Copied A → Ended A
  copied_from rhs (filled w cells) =
      returned w (record { arr = cells; size = rhs.size; used = rhs.used })
  copied_from rhs (failed w cells) = thrown w emptied
  copied_from rhs outside = undefined

  unfoldable pub copy : World → Array A → Ended A
  unfolding copied_from new_array copy_cells
  copy w rhs =
      copied_from rhs
        (copy_cells (new_array w rhs.size) rhs.size rhs.arr (replicate rhs.size default))

  -- `pop`, which takes the element away before it copies it.
  unfoldable pub pop : World → Array A → Given A
  unfolding give
  pop w v =
      let shorter : Array A = record v { used = v.used - 1 } in
      if v.used == 0 then not_given w v else give w shorter shorter.used
