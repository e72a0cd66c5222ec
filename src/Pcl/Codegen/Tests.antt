-- ===== src/Pcl/Codegen/Tests.antt =====
-- Runs of the code generator (15-llvm/naive-pcl) with a builder that checks types, and the theorem at one.
use Prim.Native.String.{String}
use cpp_graduate.Base.{ℕ, ◌≡◌, refl, inl, [], ◌∷◌, Bool, false}
use cpp_graduate.Base.Int.{pos}
use cpp_graduate.Pcl.{
  INode, null, value, decl, scope, operand, while_loop, no_branch, branch, minus, assign, greater,
  std_in, std_out,
}
use cpp_graduate.Pcl.Codegen
use cpp_graduate.Pcl.Codegen.{Outcome, generated, thrown, aborted, undefined, compile}
use cpp_graduate.Pcl.Codegen.Kinds.{
  statement, HasKind, constant, variable, arithmetic, read, comparison, store, write, block, loop,
  finished, followed,
}
use cpp_graduate.Pcl.Codegen.Operations.{Ends}
use cpp_graduate.Pcl.Codegen.Compile.{IsDeclared, IsFinished, compile-IsFinished}
use cpp_graduate.Pcl.Codegen.Sample
use cpp_graduate.Pcl.Codegen.Sample.{checking, observed, documented}

abbrev pub varname : ℕ → String
varname d = "a"

abbrev pub positive : INode
positive = operand (decl 0) greater (value (pos 0))

abbrev pub decrement : INode
decrement = operand (decl 0) assign (operand (decl 0) minus (value (pos 1)))

-- a = ?; while (a > 0) a = a - 1; print a;
abbrev pub countdown : INode
countdown = scope (
    branch (operand (decl 0) assign (operand null std_in null)) (
      branch (while_loop positive (scope (branch decrement no_branch)))
        (branch (operand null std_out (decl 0)) no_branch)))

-- The variable stands for the number and for the condition.
abbrev mixed : INode
mixed = scope (branch (while_loop (decl 0) (scope no_branch)) no_branch)

abbrev is_valid : Outcome checking Unit → Bool
is_valid (generated u g) = g.ir.valid
is_valid thrown = false
is_valid aborted = false
is_valid undefined = false

mixed_run : is_valid (compile checking varname ("a" ∷ []) mixed) ≡ false
unfolding compile Codegen.codegen Codegen.codegen_branches Codegen.codegen_while
    Codegen.codegen_decl Codegen.add_decls Codegen.add_decl_read Codegen.start_while
    Codegen.end_while Sample.Ty-discrete
mixed_run = refl

undeclared_run : compile checking varname [] countdown ≡ aborted
unfolding compile Codegen.codegen Codegen.codegen_branches Codegen.codegen_while
    Codegen.codegen_decl Codegen.add_decls Codegen.add_decl_read
undeclared_run = refl

abbrev IsKnown : ℕ → Type 0
IsKnown d = IsDeclared ("a" ∷ []) (varname d)

countdown-HasKind : HasKind IsKnown statement countdown
countdown-HasKind =
    let a = variable 0 (inl refl) in
    block _ (
      followed _ _ (store 0 _ (inl refl) read) (
        followed _ _
          (loop _ _ (comparison greater _ _ refl a (constant (pos 0))) (
            block _ (
              followed _ _ (store 0 _ (inl refl) (arithmetic minus _ _ refl a (constant (pos 1))))
                finished)))
          (followed _ _ (write _ a) finished)))

compile-IsFinished_example :
    Ends checking observed documented
      (λ _. IsFinished checking observed documented)
      (compile checking varname ("a" ∷ []) countdown)
compile-IsFinished_example =
    compile-IsFinished checking observed documented varname ("a" ∷ []) countdown countdown-HasKind
