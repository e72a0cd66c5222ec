-- ===== src/Perms/Groups/Tests.antt =====
-- Orbits (17-algorithms/permutations/groups.hpp) of small groups, and the theorem at one.
use mathlib.Core.List.{Memᴰ}
use mathlib.Core.List
use cpp_graduate.Base.{ℕ, zero, suc, ◌≡◌, ◌<◌, refl, sym, subst, List, [], ◌∷◌, arith, some}
use cpp_graduate.Perms
use cpp_graduate.Perms.Loops.{PermLoop}
use cpp_graduate.Perms.Permutation.{Permutation, apply}
use cpp_graduate.Perms.Groups.{orbit}
use cpp_graduate.Perms.Groups.Orbit.{IsOrbit, orbit-IsOrbit}

-- (0 1) (2), and (0) (1 2)
abbrev left : Permutation
left = record { loops = record { loop = 2 ∷ [] } ∷ record { loop = 0 ∷ 1 ∷ [] } ∷ [] }

abbrev right : Permutation
right = record { loops = record { loop = 1 ∷ 2 ∷ [] } ∷ record { loop = 0 ∷ [] } ∷ [] }

orbit_run : orbit 5 0 (left ∷ right ∷ []) ≡ some (2 ∷ 1 ∷ 0 ∷ [])
unfolding orbit Perms.Product.apply_loops Perms.Loops.apply
orbit_run = refl

left_lt : (x : ℕ) → x < 3 → apply left x < 3
unfolding Perms.Product.apply_loops Perms.Loops.apply
left_lt zero lt = omega arith
left_lt (suc zero) lt = omega arith
left_lt (suc (suc zero)) lt = omega arith
left_lt (suc (suc (suc x))) lt = absurd (omega arith)

right_lt : (x : ℕ) → x < 3 → apply right x < 3
unfolding Perms.Product.apply_loops Perms.Loops.apply
right_lt zero lt = omega arith
right_lt (suc zero) lt = omega arith
right_lt (suc (suc zero)) lt = omega arith
right_lt (suc (suc (suc x))) lt = absurd (omega arith)

gens_lt : (x : ℕ) (g : Permutation) → x < 3 → Memᴰ g (left ∷ right ∷ []) → apply g x < 3
gens_lt x g lt (Memᴰ.head e) = subst (λ k. apply k x < 3) (sym e) (left_lt x lt)
gens_lt x g lt (Memᴰ.tail (Memᴰ.head e)) = subst (λ k. apply k x < 3) (sym e) (right_lt x lt)
gens_lt x g lt (Memᴰ.tail (Memᴰ.tail m)) = absurd (List.Memᴰ.not-nil m)

orbit-IsOrbit_example :
    (o : List ℕ) × (orbit 5 0 (left ∷ right ∷ []) ≡ some o) × IsOrbit 0 (left ∷ right ∷ []) o
orbit-IsOrbit_example = orbit-IsOrbit 0 (left ∷ right ∷ []) 3 (omega arith) gens_lt 5 (omega arith)
