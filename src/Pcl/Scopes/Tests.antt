-- ===== src/Pcl/Scopes/Tests.antt =====
-- Lookups of names in nested scopes (15-llvm/naive-pcl), and the theorems at them.
use native.Mathlib.Decide.{ℕ_discrete}
use cpp_graduate.Base.{ℕ, ◌≡◌, refl, List, [], ◌∷◌, none, some, arith}
use cpp_graduate.Pcl.Scopes
use cpp_graduate.Pcl.Scopes.{Scope, outermost, inside, access, visible, free}
use cpp_graduate.Pcl.Scopes.Lookup.{visible-free}
use cpp_graduate.Pcl.Scopes.Access.{IsDistinct, IsAccess, access-IsAccess}

abbrev same_number : (x y : ℕ) → Dec (x ≡ y)
same_number = ℕ_discrete

abbrev block : Scope
block = inside 1 (outermost 0)

-- The name 7 in the outermost scope, the name 8 in the block.
abbrev tables : List (ℕ × List (ℕ × ℕ))
tables = (0, (7, 0) ∷ []) ∷ (1, (8, 1) ∷ []) ∷ []

visible_run :
    (visible same_number tables block 7 ≡ some 0)
    × (visible same_number tables (outermost 0) 8 ≡ none)
unfolding visible ℕ_discrete
visible_run = (refl, refl)

visible-free_example :
    (visible same_number (free same_number tables block) block 7
      ≡ visible same_number tables (outermost 0) 7)
    × (visible same_number (free same_number tables block) (outermost 0) 7
        ≡ visible same_number tables (outermost 0) 7)
visible-free_example = visible-free same_number tables 1 (outermost 0) 7 (omega arith)

empty-IsDistinct : IsDistinct same_number [] 0
unfolding Scopes.exists
empty-IsDistinct = record { older = λ s x d e. absurd cc; one_key = λ s u x y d e f. absurd cc }

access-IsAccess_example :
    IsAccess same_number [] 0 block 8
      (access same_number [] 0 block 8).0
      (access same_number [] 0 block 8).1
      (access same_number [] 0 block 8).2
access-IsAccess_example = access-IsAccess same_number [] 0 block 8 empty-IsDistinct
