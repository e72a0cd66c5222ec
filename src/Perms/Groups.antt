-- ===== src/Perms/Groups.antt =====
-- 17-algorithms/permutations/groups.hpp: the orbit of an element under generators. An
-- `std::unordered_set` is a list without repetitions; what its iterators visit first is left to the list.
pub mod Sets
pub mod Orbit
pub mod Tests
use cpp_graduate.Base.{ℕ, zero, suc, List, [], ◌∷◌, Option, none, some, elem, if◌then◌else◌}
use cpp_graduate.Perms.Permutation.{Permutation, apply}

-- `insert` of a set
unfoldable pub insert : List ℕ → ℕ → List ℕ
insert s x = if elem x s then s else x ∷ s

-- `orbit.insert(next.begin(), next.end())`
unfoldable pub insert_all : List ℕ → List ℕ → List ℕ
unfolding insert
insert_all s [] = s
insert_all s (x ∷ xs) = insert_all (insert s x) xs

-- The inner loop of `orbit`, over the generators.
unfoldable pub try_gens : List ℕ → ℕ → List Permutation → List ℕ → List ℕ
unfolding insert
try_gens seen e [] tmp = tmp
try_gens seen e (g ∷ gens) tmp =
    try_gens seen e gens (if elem (apply g e) seen then tmp else insert tmp (apply g e))

-- The loop over `next`.
unfoldable pub expand : List ℕ → List Permutation → List ℕ → List ℕ → List ℕ
unfolding try_gens
expand seen gens [] tmp = tmp
expand seen gens (e ∷ next) tmp = expand seen gens next (try_gens seen e gens tmp)

-- The loop of `orbit`, on fuel.
unfoldable pub orbit_from : ℕ → List Permutation → List ℕ → List ℕ → Option (List ℕ)
unfolding insert_all expand
orbit_from fuel gens seen [] = some seen
orbit_from zero gens seen (e ∷ next) = none
orbit_from (suc fuel) gens seen (e ∷ next) =
    let seen' = insert_all seen (e ∷ next) in
    orbit_from fuel gens seen' (expand seen' gens (e ∷ next) [])

unfoldable pub orbit : ℕ → ℕ → List Permutation → Option (List ℕ)
unfolding orbit_from
orbit fuel num gens = orbit_from fuel gens [] (num ∷ [])
