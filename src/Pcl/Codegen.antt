-- ===== src/Pcl/Codegen.antt =====
-- 15-llvm/naive-pcl: the code generator, `CodeGen` of Codegen.hpp and Codegen.cc, `codegen` of the nodes
-- in Node.hpp, and the calls of both in Node.cc and driver.cc. LLVM is a parameter. A `Value *` is an
-- option, `none` for nullptr, where the source has null pointers.
pub mod Documented
pub mod Kinds
pub mod Operations
pub mod Blocks
pub mod Correct
pub mod Program
pub mod Compile
pub mod Sample
pub mod Tests
use Prim.Native.String.{String}
use text.Mathlib.Text.{◌==◌}
use cpp_graduate.Base.{ℕ, List, [], ◌∷◌, Option, none, some, if◌then◌else◌}
use cpp_graduate.Base.Int.{ℤ, pos}
use cpp_graduate.Pcl.{
  Operation, plus, minus, assign, greater, less, greater_eq, less_eq, std_out, std_in, equal,
  not_equal, div, mul, modulo, negation, conjunction, disjunction, INode, null, value, decl, scope,
  operand, while_loop, if_then, Branches, no_branch, branch,
}
use cpp_graduate.Pcl.Llvm.{
  Llvm, Method, create_add, create_sub, create_mul, create_sdiv, create_srem, create_and, create_or,
  create_icmp_sgt, create_icmp_slt, create_icmp_sge, create_icmp_sle, create_icmp_eq,
  create_icmp_ne,
}

module _ (llvm : Llvm) where
  open llvm use {
    Ir, Ty, Value, Block, Function, new_module, int32_ty, void_ty, const_int, create_function,
    get_function, entry_block, create_block, set_insert_point, create_alloca, allocated_type,
    create_load, create_store, create_binary, create_not, create_call, create_cond_br, create_br,
    create_ret_void,
  }

  -- The entry of a name in `NamedValues_` is its first one.
  pub record CodeGen : Type 0 where
    pub ir : Ir
    pub named_values : List (String × Value)
    pub function : Option Function

  -- `thrown` is the `std::runtime_error`, `aborted` a failed `assert`, `undefined` a null pointer or a
  -- wrong `static_cast`.
  pub data Outcome (A : Type 0) : Type 0 where
    generated : A → CodeGen → Outcome A
    thrown aborted undefined : Outcome A

  abbrev pub Gen : Type 0 → Type 0
  Gen A = CodeGen → Outcome A

  abbrev pub pure : {A : Type 0} → A → Gen A
  pure a g = generated a g

  abbrev pub fault : {A : Type 0} → Gen A
  fault g = undefined

  infixl 5 ◌>>=◌
  abbrev pub ◌>>=◌ : {A B : Type 0} → Gen A → (A → Gen B) → Gen B
  ◌>>=◌ m f g = elim (m g) [
    | generated a g' ↦ f a g'
    | thrown ↦ thrown
    | aborted ↦ aborted
    | undefined ↦ undefined
  ]

  -- A call of the builder with a result, and one without.
  abbrev pub emit : {A : Type 0} → (Ir → A × Ir) → Gen A
  emit build g = generated (build g.ir).0 (record g { ir = (build g.ir).1 })

  abbrev pub change : (Ir → Ir) → Gen Unit
  change build g = generated tt (record g { ir = build g.ir })

  -- A pointer that is used where it must not be null.
  abbrev pub non_null : {A B : Type 0} → Option A → (A → Gen B) → Gen B
  non_null none f = fault
  non_null (some a) f = f a

  -- `assert(V)`
  abbrev pub asserted : {A B : Type 0} → Option A → (A → Gen B) → Gen B
  asserted none f g = aborted
  asserted (some a) f g = f a g

  unfoldable pub named : List (String × Value) → String → Option Value
  named [] x = none
  named ((y, v) ∷ rest) x = if y == x then some v else named rest x

  unfoldable pub add_decl_read : String → Gen Value
  unfolding named
  add_decl_read x g =
      asserted (named g.named_values x) (λ v. emit (create_load (allocated_type v) v x)) g

  unfoldable pub add_decl_write : String → Option Value → Gen Value
  unfolding named
  add_decl_write x rhs g =
      asserted (named g.named_values x) (λ v. non_null rhs (λ r. emit (create_store r v))) g

  unfoldable pub add_decl : String → Gen Unit
  add_decl x g =
      non_null g.function
        (λ f. emit (λ ir. create_alloca (entry_block f ir) int32_ty x ir) >>= λ alloca g'.
          generated tt (record g' { named_values = (x, alloca) ∷ g'.named_values }))
        g

  -- `Function_` is null before `StartFunction` only; a block of no function is left undefined.
  unfoldable pub start_if : Option Value → Gen Block
  start_if cond g =
      non_null g.function
        (λ f. emit (create_block "then" f) >>= λ then_bb.
          emit (create_block "endif" f) >>= λ merge_bb.
          non_null cond (λ c. change (create_cond_br c then_bb merge_bb)) >>= λ _.
          change (set_insert_point then_bb) >>= λ _. pure merge_bb)
        g

  unfoldable pub end_if : Block → Gen Unit
  end_if merge_bb = change (create_br merge_bb) >>= λ _. change (set_insert_point merge_bb)

  unfoldable pub start_while : Option Value → Gen (Block × Block)
  start_while cond g =
      non_null g.function
        (λ f. emit (create_block "body" f) >>= λ body_bb.
          emit (create_block "endwhile" f) >>= λ merge_bb.
          non_null cond (λ c. change (create_cond_br c body_bb merge_bb)) >>= λ _.
          change (set_insert_point body_bb) >>= λ _. pure (body_bb, merge_bb))
        g

  unfoldable pub end_while : Option Value → Block × Block → Gen Unit
  end_while cond bbs = non_null cond (λ c. change (create_cond_br c bbs.0 bbs.1)) >>= λ _.
      change (set_insert_point bbs.1)

  unfoldable pub create_fn_decl : Ty → List Ty → String → Gen Unit
  create_fn_decl result params x = emit (create_function result params x) >>= λ _. pure tt

  unfoldable pub start_function : String → Gen Unit
  start_function x = emit (create_function void_ty [] x) >>= λ f g.
      (emit (create_block "entry" f) >>= λ bb. change (set_insert_point bb))
        (record g { function = some f })

  unfoldable pub end_current_function : Gen Unit
  end_current_function = change create_ret_void

  -- A method of the builder on both operands.
  abbrev pub binary : Method → Option Value → Option Value → Gen Value
  binary m l r = non_null l (λ a. non_null r (λ b. emit (create_binary m a b)))

  -- `if (LeftV == nullptr) LeftV = ConstantInt::get(getInt32Ty(), 0)`
  abbrev pub or_zero : Option Value → Option Value
  or_zero none = some (const_int int32_ty (pos 0))
  or_zero (some v) = some v

  unfoldable pub add_operation : Operation → Option Value → Option Value → Gen Value
  add_operation plus l r = binary create_add (or_zero l) r
  add_operation minus l r = binary create_sub (or_zero l) r
  add_operation greater l r = binary create_icmp_sgt l r
  add_operation less l r = binary create_icmp_slt l r
  add_operation greater_eq l r = binary create_icmp_sge l r
  add_operation less_eq l r = binary create_icmp_sle l r
  add_operation std_out l r = λ g.
      asserted (get_function "__pcl_print" g.ir)
        (λ callee. asserted r (λ v. emit (create_call callee (v ∷ [])))) g
  add_operation std_in l r =
      λ g. asserted (get_function "__pcl_scan" g.ir) (λ callee. emit (create_call callee [])) g
  add_operation equal l r = binary create_icmp_eq l r
  add_operation not_equal l r = binary create_icmp_ne l r
  add_operation negation l r = non_null r (λ b. emit (create_not b))
  add_operation conjunction l r = binary create_and l r
  add_operation disjunction l r = binary create_or l r
  add_operation div l r = binary create_sdiv l r
  add_operation mul l r = binary create_mul l r
  add_operation modulo l r = binary create_srem l r
  add_operation assign l r = λ g. thrown

  unfoldable pub create_codegen : String → Outcome Unit
  unfolding create_fn_decl
  create_codegen x =
      (create_fn_decl void_ty (int32_ty ∷ []) "__pcl_print" >>= λ _.
      create_fn_decl int32_ty [] "__pcl_scan")
        (record { ir = new_module x; named_values = []; function = none })

  -- The calls of `AddDecl` in `Scope::access`, which the parser makes.
  unfoldable pub add_decls : List String → Gen Unit
  unfolding add_decl
  add_decls [] = pure tt
  add_decls (x ∷ xs) = add_decl x >>= λ _. add_decls xs

  -- `Left_ ? Left_->codegen() : nullptr`, for the `codegen` of the node
  abbrev pub unless_null : INode → Gen (Option Value) → Gen (Option Value)
  unless_null null m = pure none
  unless_null n m = m

  -- `Value::codegen`
  abbrev pub codegen_value : ℤ → Gen (Option Value)
  codegen_value v = pure (some (const_int int32_ty v))

  -- `While::codegen` and `If::codegen`, by the `codegen` of the condition and of the body
  unfoldable pub codegen_while : Gen (Option Value) → Gen (Option Value) → Gen (Option Value)
  codegen_while cond body = cond >>= λ cv. start_while cv >>= λ bbs.
      body >>= λ _. cond >>= λ again. end_while again bbs >>= λ _. pure none

  unfoldable pub codegen_if : Gen (Option Value) → Gen (Option Value) → Gen (Option Value)
  codegen_if cond body =
      cond >>= λ cv. start_if cv >>= λ merge_bb. body >>= λ _. end_if merge_bb >>= λ _. pure none

  -- `Varname_` of a declaration
  module _ (varname : ℕ → String) where
    -- `Decl::codegen`
    unfoldable pub codegen_decl : ℕ → Gen (Option Value)
    unfolding add_decl_read
    codegen_decl d = add_decl_read (varname d) >>= λ v. pure (some v)

    -- `Operand::codegen` after both operands
    unfoldable pub operand_codegen : Operation → INode → Option Value → Option Value → Gen Value
    unfolding add_operation add_decl_write
    operand_codegen assign (decl d) l r = add_decl_write (varname d) r
    operand_codegen assign n l r = fault
    operand_codegen op n l r = add_operation op l r

    unfoldable mutual
      pub codegen : INode → Gen (Option Value)
      codegen null = fault
      codegen (value v) = codegen_value v
      codegen (decl d) = codegen_decl d
      codegen (scope bs) = codegen_branches bs >>= λ _. pure none
      codegen (operand l op r) = unless_null l (codegen l) >>= λ lv.
          unless_null r (codegen r) >>= λ rv. operand_codegen op l lv rv >>= λ v. pure (some v)
      codegen (while_loop c body) = codegen_while (codegen c) (codegen body)
      codegen (if_then c body) = codegen_if (codegen c) (codegen body)

      pub codegen_branches : Branches → Gen Unit
      codegen_branches no_branch = pure tt
      codegen_branches (branch n rest) = codegen n >>= λ _. codegen_branches rest

    -- `main` of the driver: `xs` are the names that the parser declares, `n` is the scope it builds.
    unfoldable pub compile : List String → INode → Outcome Unit
    unfolding create_codegen start_function add_decls codegen end_current_function
    compile xs n = elim (create_codegen "pcl.module") [
      | generated _ g ↦
          (start_function "__pcl_start" >>= λ _.
          add_decls xs >>= λ _. codegen n >>= λ _. end_current_function)
            g
      | thrown ↦ thrown
      | aborted ↦ aborted
      | undefined ↦ undefined
    ]
