-- ===== src/Perms/Permutation.antt =====
-- perms.hpp: the class `Permutation`, a vector of loops that its constructors and products keep
-- simplified and sorted. A construction is `none` where an `assert` of `PermLoop::apply` fails or the
-- fuel of `create_loops` runs out.
pub mod Sort
pub mod Valid
pub mod Algebra
use cpp_graduate.Base.{
  ℕ, zero, suc, ◌+◌, ◌-◌, List, [], ◌∷◌, ◌++◌, map, Bool, true, false, ◌&&◌, not, Option, none,
  some, ltb, leb, ◌==◌, if◌then◌else◌, length,
}
use cpp_graduate.Perms.Idom.{iota}
use cpp_graduate.Perms.Loops.{PermLoop, make_loop, inverse, smallest, equals, less, apply_table}
use cpp_graduate.Perms.Product.{apply_loops, covered}
use cpp_graduate.Perms.Create.{simplify_loops}

pub record Permutation : Type 0 where
  pub loops : List PermLoop

-- `sortloops`: `std::sort` by decreasing smallest element, here by insertion. The smallest elements
-- of the loops differ wherever it is called, so that the sorted order is one.
unfoldable pub insert_loop : PermLoop → List PermLoop → List PermLoop
insert_loop p [] = p ∷ []
insert_loop p (q ∷ ls) = if ltb (smallest q) (smallest p) then p ∷ q ∷ ls else q ∷ insert_loop p ls

unfoldable pub sortloops : List PermLoop → List PermLoop
unfolding insert_loop
sortloops [] = []
sortloops (p ∷ ls) = insert_loop p (sortloops ls)

-- The constructor from a range of loops: `simplify_loops`, then `sortloops`.
unfoldable pub make_perm : ℕ → ℕ → List PermLoop → Option Permutation
unfolding simplify_loops sortloops
make_perm start fin ls = elim (simplify_loops start fin ls) [
  | none ↦ none
  | some out ↦ some (record { loops = sortloops out })
]

-- `Permutation()`: every element a loop of its own
unfoldable pub identity : ℕ → ℕ → Permutation
unfolding sortloops iota make_loop
identity start fin = record { loops = sortloops (map (λ x. make_loop (x ∷ [])) (iota start fin)) }

-- `lmul`: the loops of the argument before its own
unfoldable pub lmul : ℕ → ℕ → Permutation → Permutation → Option Permutation
unfolding make_perm
lmul start fin self input = make_perm start fin (input.loops ++ self.loops)

-- `rmul`: the loops of the argument behind its own
unfoldable pub rmul : ℕ → ℕ → Permutation → Permutation → Option Permutation
unfolding make_perm
rmul start fin self input = make_perm start fin (self.loops ++ input.loops)

-- `product`
unfoldable pub product : ℕ → ℕ → Permutation → Permutation → Option Permutation
unfolding rmul
product start fin lhs rhs = rmul start fin lhs rhs

-- `inverse` and `invert`
unfoldable pub invert : Permutation → Permutation
unfolding inverse
invert p = record { loops = map inverse p.loops }

-- `apply(T elem)`
abbrev pub apply : Permutation → ℕ → ℕ
apply p x = apply_loops p.loops x

-- `apply(tbeg, tend)`: all loops in direct order
unfoldable pub apply_each : ℕ → ℕ → List PermLoop → List ℕ → Option (List ℕ)
apply_each start fin [] table = some table
apply_each start fin (p ∷ ls) table = elim (apply_table start fin p table) [
  | none ↦ none
  | some t ↦ apply_each start fin ls t
]

abbrev pub contains : Permutation → ℕ → Bool
contains p x = covered p.loops x

-- `equals`
unfoldable pub equals_loops : List PermLoop → List PermLoop → Bool
equals_loops [] [] = true
equals_loops (p ∷ ps) (q ∷ qs) = equals p q && equals_loops ps qs
equals_loops _ _ = false

-- The loop of `less`, over two vectors of one size.
unfoldable pub less_loops : List PermLoop → List PermLoop → Bool
less_loops [] qs = false
less_loops (p ∷ ps) [] = false
less_loops (p ∷ ps) (q ∷ qs) = if equals p q then less_loops ps qs else less p q

unfoldable pub less_perm : Permutation → Permutation → Bool
unfolding less_loops
less_perm p q =
    if length q.loops == length p.loops
    then less_loops p.loops q.loops
    else ltb (length p.loops) (length q.loops)

-- The exceptions of `check`, in its order.
pub data CheckResult : Type 0 where
  valid : CheckResult
  domain_error empty_permutation uncovered equal_loops canonical_form_broken : CheckResult

-- The loop over `x` from `T::start` to `T::fin`, as the rounds left.
unfoldable pub all_covered : ℕ → ℕ → List PermLoop → Bool
all_covered zero x ls = true
all_covered (suc n) x ls = covered ls x && all_covered n (suc x) ls

-- The loop over neighbours.
unfoldable pub check_order : List PermLoop → CheckResult
check_order [] = valid
check_order (p ∷ []) = valid
check_order (p ∷ q ∷ ls) =
    if smallest p == smallest q
    then equal_loops
    else if ltb (smallest p) (smallest q)
    then canonical_form_broken
    else check_order (q ∷ ls)

-- `check`
unfoldable pub check : ℕ → ℕ → Permutation → CheckResult
unfolding all_covered check_order
check start fin p =
    if leb fin start
    then domain_error
    else if length p.loops == 0
    then empty_permutation
    else if all_covered (fin - start + 1) start p.loops
    then check_order p.loops
    else uncovered
