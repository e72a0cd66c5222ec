-- ===== src/Arrays/Tests.antt =====
-- Runs of the vectors of 08-exceptions/myvec-demo/myvec-1.cc and myvec-2.cc, and examples for the theorems.
use cpp_graduate.Base.{ℕ, ◌≡◌, refl, [], ◌∷◌, arith}
use cpp_graduate.Vectors.{World}
use cpp_graduate.Arrays.{Array, returned, thrown, undefined}
use cpp_graduate.Arrays.Cells.{IsValid, contents}
use cpp_graduate.Arrays.Pushes.{
  IsPushed, lost, safe_push-IsPushed, naive_push-IsPushed, push-copy_overflow,
}
use cpp_graduate.Arrays.Naive
use cpp_graduate.Arrays.Safe

abbrev one_copy : World
one_copy = record { control = 1; built = 2; destroyed = 0; allocated = 1; deleted = 0 }

abbrev full_array : Array ℕ
full_array = record { arr = 7 ∷ 8 ∷ []; size = 2; used = 2 }

full_array-IsValid : IsValid full_array
full_array-IsValid = record { cells = refl; bounded = omega arith }

-- The second copy throws: the array of five is lost in the first version and deleted in the second.
abbrev after_five : World
after_five = record { control = 5; built = 8; destroyed = 1; allocated = 2; deleted = 0 }

naive_run : Naive.push 0 one_copy full_array 9 ≡ thrown after_five full_array
unfolding Naive.push
naive_run = refl

safe_run :
    Safe.push 0 one_copy full_array 9
    ≡ thrown
        (record { control = 5; built = 8; destroyed = 6; allocated = 2; deleted = 1 })
        full_array
unfolding Safe.push
safe_run = refl

naive_push-IsPushed_example :
    IsPushed one_copy full_array 9
      (lost 0 one_copy full_array 5)
      (lost 0 one_copy full_array 1)
      (Naive.push 0 one_copy full_array 9)
naive_push-IsPushed_example = naive_push-IsPushed 0 one_copy full_array 9 full_array-IsValid

safe_push-IsPushed_example : IsPushed one_copy full_array 9 0 0 (Safe.push 0 one_copy full_array 9)
safe_push-IsPushed_example = safe_push-IsPushed 0 one_copy full_array 9 full_array-IsValid

abbrev with_room : Array ℕ
with_room = record { arr = 7 ∷ 0 ∷ 0 ∷ []; size = 3; used = 1 }

push-copy_overflow_example :
    (w' : World) × (v : Array ℕ) × (Safe.copy 0 one_copy with_room ≡ returned w' v)
    × (contents v ≡ contents with_room)
    × (Safe.push 0 w' v 9 ≡ undefined)
push-copy_overflow_example =
    push-copy_overflow 0 one_copy with_room 9 (record { cells = refl; bounded = omega arith })
      (omega arith) (omega arith)
