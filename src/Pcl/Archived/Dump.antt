-- ===== src/Pcl/Archived/Dump.antt =====
-- archive/13-llvm/01-naive: the first version of `dump` in Node.cc, and what the later one changed.
use Prim.Native.String.{String}
use mathlib.Core.Path.{ap₂}
use mathlib.Core.List.{map-append}
use cpp_graduate.Base.{ℕ, ◌≡◌, refl, ap, sym, ◌∙◌, [], ◌∷◌, map, Option, none, some}
use cpp_graduate.Base.Int.{ℤ}
use cpp_graduate.Pcl.{
  Operation, plus, minus, assign, greater, less, std_out, std_in, equal, INode, null, value, decl,
  scope, operand, while_loop, if_then, Branches, no_branch, branch,
}
use cpp_graduate.Pcl.Dump.{
  Line, text, numbered, titled, Lines, after, joined, unless_null, operation_name, dump_decl, dump,
  dump_branches,
}

unfoldable pub op_name : Operation → String
op_name plus = "Plus"
op_name minus = "Minus"
op_name greater = "Greater"
op_name less = "Less"
op_name assign = "Assign"
op_name std_out = "StdOut"
op_name std_in = "StdIn"
op_name equal = "Equal"
op_name op = "Unknown"

abbrev pub value_dump : ℤ → Lines
value_dump v = some (numbered "Node Value: " v ∷ [])

abbrev pub while_dump : Lines → Lines
while_dump body = after (text "Node While ") body

abbrev pub if_dump : Lines → Lines
if_dump body = after (text "Node If ") body

module _ (vals : ℕ → Option ℤ) where
  unfoldable pub node_dump_decl : ℕ → Lines
  node_dump_decl d = elim (vals d) [ none ↦ none | some v ↦ some (numbered "Node Decl: " v ∷ []) ]

  unfoldable mutual
    unfolding op_name node_dump_decl

    pub node_dump : INode → Lines
    node_dump null = none
    node_dump (value v) = value_dump v
    node_dump (decl d) = node_dump_decl d
    node_dump (scope bs) = after (text "Node Scope: ") (scope_dump bs)
    node_dump (operand l op r) =
        after (titled "Node Op: " (op_name op)) (joined (unless_null l (node_dump l)) (node_dump r))
    node_dump (while_loop c body) = while_dump (node_dump body)
    node_dump (if_then c body) = if_dump (node_dump body)

    pub scope_dump : Branches → Lines
    scope_dump no_branch = some []
    scope_dump (branch x rest) = joined (node_dump x) (scope_dump rest)

-- The title of the lines for operations.
abbrev retitled : Line → Line
retitled (text t) = text t
retitled (numbered t v) = numbered t v
retitled (titled a t) = titled "Node Op: " t

abbrev pub retitled_lines : Lines → Lines
retitled_lines none = none
retitled_lines (some ls) = some (map retitled ls)

retitled-after :
    (l : Line) (k : Lines) → retitled_lines (after l k) ≡ after (retitled l) (retitled_lines k)
retitled-after l none = refl
retitled-after l (some ls) = refl

retitled-joined :
    (k j : Lines) → retitled_lines (joined k j) ≡ joined (retitled_lines k) (retitled_lines j)
retitled-joined none j = refl
retitled-joined (some ls) none = refl
retitled-joined (some ls) (some ks) = ap some (map-append retitled ls ks)

op_name-operation_name : (op : Operation) → op_name op ≡ operation_name op
unfolding op_name operation_name
op_name-operation_name op = refl

unless_null-retitled :
    (n : INode) (k : Lines) → unless_null n (retitled_lines k) ≡ retitled_lines (unless_null n k)
unless_null-retitled null k = refl
unless_null-retitled n k = refl

module _ (vals : ℕ → Option ℤ) where
  dump_decl-retitled : (d : ℕ) → node_dump_decl vals d ≡ retitled_lines (dump_decl vals d)
  unfolding node_dump_decl dump_decl
  dump_decl-retitled d = go (vals d)
    where
      go :
          (o : Option ℤ)
          → elim o [ none ↦ none | some v ↦ some (numbered "Node Decl: " v ∷ []) ]
            ≡ retitled_lines
                (elim o [ none ↦ none | some v ↦ some (numbered "Node Decl: " v ∷ []) ])
      go none = refl
      go (some v) = refl

  mutual
    unfolding node_dump scope_dump dump dump_branches

    node_Retitled : (n : INode) → node_dump vals n ≡ retitled_lines (dump vals n)
    node_Retitled null = refl
    node_Retitled (value v) = refl
    node_Retitled (decl d) = dump_decl-retitled d
    node_Retitled (scope bs) =
        ap (after (text "Node Scope: ")) (branches_Retitled bs)
        ∙ sym (retitled-after _ (dump_branches vals bs))
    node_Retitled (operand l op r) =
        ap₂ (λ k j. after (titled "Node Op: " (op_name op)) (joined k j))
          (ap (unless_null l) (node_Retitled l) ∙ unless_null-retitled l _) (node_Retitled r)
        ∙ ap₂ (λ t k. after (titled "Node Op: " t) k) (op_name-operation_name op)
            (sym (retitled-joined (unless_null l (dump vals l)) (dump vals r)))
        ∙ sym (retitled-after (titled "Node Operand: " (operation_name op)) _)
    node_Retitled (while_loop c body) =
        ap (after (text "Node While ")) (node_Retitled body)
        ∙ sym (retitled-after _ (dump vals body))
    node_Retitled (if_then c body) =
        ap (after (text "Node If ")) (node_Retitled body) ∙ sym (retitled-after _ (dump vals body))

    branches_Retitled :
        (bs : Branches) → scope_dump vals bs ≡ retitled_lines (dump_branches vals bs)
    branches_Retitled no_branch = refl
    branches_Retitled (branch n rest) =
        ap₂ joined (node_Retitled n) (branches_Retitled rest)
        ∙ sym (retitled-joined (dump vals n) (dump_branches vals rest))

  -- The two versions of `dump` print the same lines but for the title of the operations, and fail for
  -- the same programs.
  pub node_dump-dump : (n : INode) → node_dump vals n ≡ retitled_lines (dump vals n)
  node_dump-dump n = node_Retitled n
