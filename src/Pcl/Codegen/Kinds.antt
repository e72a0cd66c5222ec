-- ===== src/Pcl/Codegen/Kinds.antt =====
-- The programs of ParaCL that the code generator (15-llvm/naive-pcl) is made for: a number and a truth
-- value are not mixed, and every variable is declared.
use cpp_graduate.Base.{ℕ, ◌≡◌, Bool, true, false}
use cpp_graduate.Base.Int.{ℤ}
use cpp_graduate.Pcl.{
  Operation, plus, minus, assign, greater, less, greater_eq, less_eq, std_out, std_in, equal,
  not_equal, div, mul, modulo, negation, conjunction, disjunction, INode, null, value, decl, scope,
  operand, while_loop, if_then, Branches, no_branch, branch,
}

pub data Kind : Type 0 where
  number condition statement : Kind

abbrev pub is_arithmetic : Operation → Bool
is_arithmetic plus = true
is_arithmetic minus = true
is_arithmetic mul = true
is_arithmetic div = true
is_arithmetic modulo = true
is_arithmetic op = false

abbrev pub is_comparison : Operation → Bool
is_comparison greater = true
is_comparison less = true
is_comparison greater_eq = true
is_comparison less_eq = true
is_comparison equal = true
is_comparison not_equal = true
is_comparison op = false

abbrev pub is_connective : Operation → Bool
is_connective conjunction = true
is_connective disjunction = true
is_connective op = false

module _ (IsDeclared : ℕ → Type 0) where
  mutual
    pub data HasKind : Kind → INode → Type 0 where
      constant : (v : ℤ) → HasKind number (value v)
      variable : (d : ℕ) → IsDeclared d → HasKind number (decl d)
      arithmetic :
          (op : Operation) (l r : INode)
          → is_arithmetic op ≡ true
          → HasKind number l
          → HasKind number r
          → HasKind number (operand l op r)
      opposite : (r : INode) → HasKind number r → HasKind number (operand null minus r)
      read : HasKind number (operand null std_in null)
      comparison :
          (op : Operation) (l r : INode)
          → is_comparison op ≡ true
          → HasKind number l
          → HasKind number r
          → HasKind condition (operand l op r)
      connective :
          (op : Operation) (l r : INode)
          → is_connective op ≡ true
          → HasKind condition l
          → HasKind condition r
          → HasKind condition (operand l op r)
      contrary : (r : INode) → HasKind condition r → HasKind condition (operand null negation r)
      store :
          (d : ℕ) (r : INode)
          → IsDeclared d
          → HasKind number r
          → HasKind statement (operand (decl d) assign r)
      write : (r : INode) → HasKind number r → HasKind statement (operand null std_out r)
      block : (bs : Branches) → AreStatements bs → HasKind statement (scope bs)
      loop :
          (c body : INode)
          → HasKind condition c
          → HasKind statement body
          → HasKind statement (while_loop c body)
      choice :
          (c body : INode)
          → HasKind condition c
          → HasKind statement body
          → HasKind statement (if_then c body)

    pub data AreStatements : Branches → Type 0 where
      finished : AreStatements no_branch
      followed :
          (n : INode) (rest : Branches)
          → HasKind statement n
          → AreStatements rest
          → AreStatements (branch n rest)
