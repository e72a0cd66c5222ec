-- ===== src/Pcl/Dump.antt =====
-- 15-llvm/naive-pcl: `dump` of the nodes in Node.hpp and Node.cc, as the lines that it prints.
use Prim.Native.String.{String}
use cpp_graduate.Base.{ℕ, ◌≡◌, refl, ap, sym, ◌∙◌, List, [], ◌∷◌, ◌++◌, Option, none, some}
use cpp_graduate.Base.Int.{ℤ}
use cpp_graduate.Pcl.{
  Operation, plus, minus, assign, greater, less, std_out, std_in, equal, INode, null, value, decl,
  scope, operand, while_loop, if_then, Branches, no_branch, branch,
}

-- A line that is a text, a text and a number, or two texts.
pub data Line : Type 0 where
  text : String → Line
  numbered : String → ℤ → Line
  titled : String → String → Line

-- What is printed, `none` where a null pointer is used or a variable without a value is read.
abbrev pub Lines : Type 0
Lines = Option (List Line)

abbrev pub after : Line → Lines → Lines
after l none = none
after l (some ls) = some (l ∷ ls)

abbrev pub joined : Lines → Lines → Lines
joined none k = none
joined (some ls) none = none
joined (some ls) (some ks) = some (ls ++ ks)

unfoldable pub operation_name : Operation → String
operation_name plus = "Plus"
operation_name minus = "Minus"
operation_name greater = "Greater"
operation_name less = "Less"
operation_name assign = "Assign"
operation_name std_out = "StdOut"
operation_name std_in = "StdIn"
operation_name equal = "Equal"
operation_name op = "Unknown"

-- `if (Left_ != nullptr) Left_->dump()`
abbrev pub unless_null : INode → Lines → Lines
unless_null null ls = some []
unless_null n ls = ls

abbrev pub dump_value : ℤ → Lines
dump_value v = some (numbered "Node Value: " v ∷ [])

-- `While::dump` and `If::dump`, by the `dump` of the body; the condition is not shown
abbrev pub dump_while : Lines → Lines
dump_while body = after (text "Node While ") body

abbrev pub dump_if : Lines → Lines
dump_if body = after (text "Node If ") body

module _ (vals : ℕ → Option ℤ) where
  unfoldable pub dump_decl : ℕ → Lines
  dump_decl d = elim (vals d) [ none ↦ none | some v ↦ some (numbered "Node Decl: " v ∷ []) ]

  unfoldable mutual
    unfolding operation_name dump_decl

    pub dump : INode → Lines
    dump null = none
    dump (value v) = dump_value v
    dump (decl d) = dump_decl d
    dump (scope bs) = after (text "Node Scope: ") (dump_branches bs)
    dump (operand l op r) =
        after (titled "Node Operand: " (operation_name op))
          (joined (unless_null l (dump l)) (dump r))
    dump (while_loop c body) = dump_while (dump body)
    dump (if_then c body) = dump_if (dump body)

    pub dump_branches : Branches → Lines
    dump_branches no_branch = some []
    dump_branches (branch n rest) = joined (dump n) (dump_branches rest)

-- The nodes that are shown, each before those below it: the branches of a scope, the left operand where
-- there is one and the right one, and the body of a loop or of an `if`. A null pointer is one of them.
unfoldable mutual
  pub shown : INode → List INode
  shown (scope bs) = scope bs ∷ all_shown bs
  shown (operand null op r) = operand null op r ∷ shown r
  shown (operand l op r) = operand l op r ∷ (shown l ++ shown r)
  shown (while_loop c body) = while_loop c body ∷ shown body
  shown (if_then c body) = if_then c body ∷ shown body
  shown n = n ∷ []

  pub all_shown : Branches → List INode
  all_shown no_branch = []
  all_shown (branch n rest) = shown n ++ all_shown rest

joined-nil : (k : Lines) → joined (some []) k ≡ k
joined-nil none = refl
joined-nil (some ls) = refl

module _ (vals : ℕ → Option ℤ) where
  -- The one line of a node: there is none for a null pointer and for a variable without a value.
  abbrev pub line_of : INode → Option Line
  line_of null = none
  line_of (value v) = some (numbered "Node Value: " v)
  line_of (decl d) = elim (vals d) [ none ↦ none | some v ↦ some (numbered "Node Decl: " v) ]
  line_of (scope bs) = some (text "Node Scope: ")
  line_of (operand l op r) = some (titled "Node Operand: " (operation_name op))
  line_of (while_loop c body) = some (text "Node While ")
  line_of (if_then c body) = some (text "Node If ")

  abbrev headed : Option Line → Lines → Lines
  headed none k = none
  headed (some l) k = after l k

  -- The lines of all of them, if each has one.
  abbrev pub printed : List INode → Lines
  printed [] = some []
  printed (n ∷ ns) = headed (line_of n) (printed ns)

  headed-joined : (o : Option Line) (k j : Lines) → headed o (joined k j) ≡ joined (headed o k) j
  headed-joined none k j = refl
  headed-joined (some l) none j = refl
  headed-joined (some l) (some ls) none = refl
  headed-joined (some l) (some ls) (some ks) = refl

  printed-append : (a b : List INode) → printed (a ++ b) ≡ joined (printed a) (printed b)
  printed-append [] b = sym (joined-nil (printed b))
  printed-append (n ∷ a) b =
      ap (headed (line_of n)) (printed-append a b)
      ∙ headed-joined (line_of n) (printed a) (printed b)

  printed-decl : (d : ℕ) → dump_decl vals d ≡ printed (decl d ∷ [])
  unfolding dump_decl
  printed-decl d = go (vals d)
    where
      go :
          (o : Option ℤ)
          → (elim o [ none ↦ none | some v ↦ some (numbered "Node Decl: " v ∷ []) ])
            ≡ headed (elim o [ none ↦ none | some v ↦ some (numbered "Node Decl: " v) ]) (some [])
      go none = refl
      go (some v) = refl

  both_joined : {a b c d : Lines} → a ≡ b → c ≡ d → joined a c ≡ joined b d
  both_joined e h = cc

  mutual
    unfolding dump dump_branches shown all_shown

    dump-shown : (n : INode) → dump vals n ≡ printed (shown n)
    dump-shown null = refl
    dump-shown (value v) = refl
    dump-shown (decl d) = printed-decl d
    dump-shown (scope bs) = ap (after (text "Node Scope: ")) (branches_shown bs)
    dump-shown (operand null op r) =
        ap (after (titled "Node Operand: " (operation_name op)))
          (joined-nil (dump vals r) ∙ dump-shown r)
    dump-shown (operand l op r) =
        ap (after (titled "Node Operand: " (operation_name op)))
          (both_joined (dump-shown l) (dump-shown r) ∙ sym (printed-append (shown l) (shown r)))
    dump-shown (while_loop c body) = ap (after (text "Node While ")) (dump-shown body)
    dump-shown (if_then c body) = ap (after (text "Node If ")) (dump-shown body)

    branches_shown : (bs : Branches) → dump_branches vals bs ≡ printed (all_shown bs)
    branches_shown no_branch = refl
    branches_shown (branch n rest) =
        both_joined (dump-shown n) (branches_shown rest)
        ∙ sym (printed-append (shown n) (all_shown rest))

-- `dump` prints one line for each node that is shown, a node before those below it and the left operand
-- before the right one, and no line for the condition of a loop or of an `if`. It uses what C++ leaves
-- undefined exactly where one of the nodes shown is a null pointer or a variable without a value.
pub dump-preorder : (vals : ℕ → Option ℤ) (n : INode) → dump vals n ≡ printed vals (shown n)
dump-preorder vals n = dump-shown vals n
