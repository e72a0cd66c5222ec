-- ===== src/Arrays/Safe.antt =====
-- 08-exceptions/myvec-demo/myvec-2.cc: `safe_copy` deletes its array where a copy throws.
use cpp_graduate.Base.{ℕ, ◌+◌, ◌*◌, ◌-◌, List, [], ◌==◌, if◌then◌else◌, replicate}
use cpp_graduate.Vectors.{World}
use cpp_graduate.Arrays.{
  Array, Ended, returned, thrown, undefined, Copied, filled, failed, outside, new_array,
  delete_array, copy_cells, store, Given, not_given, give,
}

module _ {A : Type 0} (default : A) where
  -- The handler of `safe_copy`.
  unfoldable pub cleaned : Copied A → Copied A
  unfolding delete_array
  cleaned (filled w cells) = filled w cells
  cleaned (failed w cells) = failed (delete_array w cells) []
  cleaned outside = outside

  unfoldable pub safe_copy : World → List A → ℕ → ℕ → Copied A
  unfolding cleaned new_array copy_cells
  safe_copy w src srcsize dstsize =
      cleaned (copy_cells (new_array w dstsize) srcsize src (replicate dstsize default))

  -- The branch of `push` without room, after the copy.
  unfoldable pub regrown : Array A → A → Copied A → Ended A
  unfolding store delete_array
  regrown v t (filled w cells) =
      store (delete_array w v.arr) (record { arr = cells; size = v.size * 2 + 1; used = v.used }) t
  regrown v t (failed w cells) = thrown w v
  regrown v t outside = undefined

  unfoldable pub push : World → Array A → A → Ended A
  unfolding regrown safe_copy
  push w v t =
      let full = regrown v t (safe_copy w v.arr v.size (v.size * 2 + 1)) in
      if v.used == v.size then full else store w v t

  -- The copy constructor, by what `safe_copy` gives it; the vector of an exception is empty.
  unfoldable pub constructed : Array A → Copied A → Ended A
  constructed rhs (filled w cells) =
      returned w (record { arr = cells; size = rhs.size; used = rhs.used })
  constructed rhs (failed w cells) = thrown w (record { arr = []; size = 0; used = 0 })
  constructed rhs outside = undefined

  unfoldable pub copy : World → Array A → Ended A
  unfolding constructed safe_copy
  copy w rhs = constructed rhs (safe_copy w rhs.arr rhs.used rhs.used)

  -- `pop`; the exception is that of an empty vector.
  unfoldable pub pop : World → Array A → Ended A
  pop w v = if v.used == 0 then thrown w v else returned w (record v { used = v.used - 1 })

  -- `top`
  unfoldable pub top : World → Array A → Given A
  unfolding give
  top w v = if v.used == 0 then not_given w v else give w v (v.used - 1)
