-- ===== src/Perms/Create.antt =====
-- `create_loops` and `simplify_loops` of permloops.hpp: the cycles of a permutation that a table gives.
-- Both loops take fuel; `none` means that it ran out, which does not happen for a table that is a
-- permutation (Create/Rounds).
pub mod Links
pub mod Trace
pub mod Marks
pub mod Rounds
pub mod Simplify
use cpp_graduate.Base.{
  ℕ, zero, suc, ◌+◌, ◌-◌, List, [], ◌∷◌, ◌++◌, Bool, true, false, Option, none, some, ◌==◌,
  if◌then◌else◌, length, get_or, set, drop, replicate,
}
use cpp_graduate.Perms.Idom.{at, iota}
use cpp_graduate.Perms.Loops.{PermLoop, make_loop, add, apply_table}

module _ (start : ℕ) where
  -- `marked[v - T::start]`
  unfoldable pub is_marked : List Bool → ℕ → Bool
  is_marked marked v = get_or marked (v - start) false

  unfoldable pub mark : List Bool → ℕ → List Bool
  mark marked v = set marked (v - start) true

  -- The inner loop of `create_loops`, from `nxt` until it is back at `t`.
  unfoldable pub trace : ℕ → List ℕ → ℕ → ℕ → PermLoop → List Bool → Option (PermLoop × List Bool)
  trace zero table t nxt perm marked = none
  trace (suc fuel) table t nxt perm marked =
      let rest = trace fuel table t (at start table nxt) (add perm nxt) (mark marked nxt) in
      if nxt == t then some (perm, marked) else rest

-- `std::find(mit, marked.end(), false)` from position `i`, as a position
unfoldable pub find_false : List Bool → ℕ → ℕ
find_false [] i = i
find_false (true ∷ bs) i = find_false bs (suc i)
find_false (false ∷ bs) i = i

module _ (start : ℕ) where
  -- The outer loop of `create_loops`; `out` holds what was written through `lbeg`.
  unfoldable pub create_from : ℕ → List ℕ → ℕ → List Bool → List PermLoop → Option (List PermLoop)
  create_from zero table relt marked out = none
  create_from (suc fuel) table relt marked out =
      let t = start + relt in
      let round =
        trace start (length table + 1) table t (at start table t) (make_loop (t ∷ []))
          (mark start marked t) in
      let rest : Option (List PermLoop) = elim round [
        | none ↦ none
        | some (perm, m) ↦
            create_from fuel table (find_false (drop (suc relt) m) (suc relt)) m (out ++ perm ∷ [])
      ] in
      if relt == length marked then some out else rest

  -- `create_loops`
  unfoldable pub create_loops : List ℕ → Option (List PermLoop)
  unfolding create_from
  create_loops table = create_from (length table + 1) table 0 (replicate (length table) false) []

-- The loop of `simplify_loops`, from the last loop to the first.
unfoldable pub apply_tables : ℕ → ℕ → List PermLoop → List ℕ → Option (List ℕ)
apply_tables start fin [] table = some table
apply_tables start fin (p ∷ ls) table = elim (apply_tables start fin ls table) [
  | none ↦ none
  | some t ↦ apply_table start fin p t
]

-- `simplify_loops` over the domain [start, fin]
unfoldable pub simplify_loops : ℕ → ℕ → List PermLoop → Option (List PermLoop)
unfolding apply_tables create_loops
simplify_loops start fin ls = elim (apply_tables start fin ls (iota start fin)) [
  | none ↦ none
  | some table ↦ create_loops start table
]
