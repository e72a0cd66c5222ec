-- ===== src/Vectors/Tests.antt =====
-- Pushes to a vector of 08-exceptions/myvec-demo/myvec-3.cc, and the theorem at one that throws.
use cpp_graduate.Base.{ℕ, ◌≡◌, refl, [], ◌∷◌, arith}
use cpp_graduate.Vectors
use cpp_graduate.Vectors.{World, Vector, returned, thrown, push, assign, pop}
use cpp_graduate.Vectors.Copy.{IsAssign, assign-IsAssign, pop-push}
use cpp_graduate.Vectors.Push.{IsPush, copies, push-IsPush}

-- Three elements in a full vector, with three copies left.
abbrev scarce : World
scarce = record { control = 3; built = 3; destroyed = 0; allocated = 1; deleted = 0 }

abbrev full : Vector ℕ
full = record { elems = 7 ∷ 8 ∷ 9 ∷ []; size = 3 }

push_run :
    push 2 scarce full 4
    ≡ thrown (record { control = 5; built = 6; destroyed = 3; allocated = 2; deleted = 1 }) full
unfolding push Vectors.put Vectors.grow Vectors.fill Vectors.construct Vectors.release
    Vectors.allocate
push_run = refl

push-IsPush_example : IsPush scarce full 4 (copies full) (push 2 scarce full 4)
push-IsPush_example = push-IsPush 0 scarce full 4 (omega arith)

abbrev roomy : Vector ℕ
roomy = record { elems = 7 ∷ []; size = 2 }

assign-IsAssign_example : IsAssign scarce roomy full (assign scarce roomy full)
assign-IsAssign_example = assign-IsAssign scarce roomy full

abbrev pushed : World
pushed = record { control = 2; built = 4; destroyed = 0; allocated = 1; deleted = 0 }

pop-push_example :
    pop pushed (record { elems = 7 ∷ 4 ∷ []; size = 2 })
    ≡ returned (record { control = 2; built = 4; destroyed = 1; allocated = 1; deleted = 0 }) roomy
unfolding push Vectors.put Vectors.construct
pop-push_example =
    pop-push 0 scarce pushed roomy (record { elems = 7 ∷ 4 ∷ []; size = 2 }) 4 (omega arith) refl
