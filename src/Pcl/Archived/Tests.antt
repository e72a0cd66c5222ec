-- ===== src/Pcl/Archived/Tests.antt =====
-- Runs of the first interpreter and code generator (archive/13-llvm/01-naive).
use Prim.Native.String.{String}
use text.Mathlib.Text.{◌==◌}
use text.Mathlib.TextEquality.{eq_iff}
use cpp_graduate.Base.{inl, inr, Bool-cases, ◌≡◌, refl, [], ◌∷◌, true, none}
use cpp_graduate.Base.Int.{pos}
use cpp_graduate.Pcl
use cpp_graduate.Pcl.{value, scope, operand, std_out, div, null, branch, no_branch}
use cpp_graduate.Pcl.Tests.{quotient, initial}
use cpp_graduate.Pcl.Codegen
use cpp_graduate.Pcl.Codegen.Sample.{checking}
use cpp_graduate.Pcl.Codegen.Tests.{countdown, varname}
use cpp_graduate.Pcl.Scopes
use cpp_graduate.Pcl.Scopes.{Scope, outermost, inside}
use cpp_graduate.Pcl.Archived
use cpp_graduate.Pcl.Archived.{exited, calc}
use cpp_graduate.Pcl.Archived.Scopes.{scope_visible, scope_visible-visible}
use cpp_graduate.Pcl.Archived.Agree.{Same}
use cpp_graduate.Pcl.Archived.Calc.{calc-Same, is_statement}
use cpp_graduate.Pcl.Archived.Codegen.{node_codegen}
use cpp_graduate.Pcl.Archived.Generated.{straight, node_codegen-straight}

calc-Same_example : Same (calc true 6 quotient initial) (Pcl.calc true 6 quotient initial)
unfolding is_statement
calc-Same_example = calc-Same true 6 quotient initial refl

-- A division by zero ends the program, and what was printed before stays.
division_run :
    calc true 6
      (scope (
        branch
          (operand null std_out (value (pos 5)))
          (branch (operand null std_out (operand (value (pos 1)) div (value (pos 0)))) no_branch)))
      initial
    ≡ exited "Division by zero!" 1 (record initial { output = pos 5 ∷ [] })
unfolding calc Archived.node_calc Archived.op_calc Archived.scope_calc Archived.print_and_exit
    Pcl.print
division_run = refl

abbrev empty_module : Codegen.CodeGen checking
empty_module = record {
  ir = checking.new_module "pcl.module";
  named_values = ("a", record { type_of = checking.int32_ty; allocated = checking.int32_ty }) ∷ [];
  function = none;
}

node_codegen-straight_example :
    node_codegen checking varname countdown empty_module
    ≡ Codegen.codegen checking varname (straight countdown) empty_module
node_codegen-straight_example =
    node_codegen-straight checking varname (λ v x ir. refl) countdown empty_module

abbrev block : Scope
block = inside 1 (outermost 0)

abbrev same_name : (x y : String) → Dec (x ≡ y)
same_name x y = elim (Bool-cases (x == y)) [
  | inl e ↦ yes ((eq_iff x y).0 e)
  | inr e ↦ no (λ p. let h = (eq_iff x y).1 p in cc)
]

scope_visible-visible_example :
    ((scope_visible same_name block [] "a").0 ≡ Scopes.visible same_name [] block "a")
    × (Scopes.visible same_name (scope_visible same_name block [] "a").1 block "b"
        ≡ Scopes.visible same_name [] block "b")
scope_visible-visible_example = scope_visible-visible same_name block block [] "a" "b"
