-- ===== src/Pcl/Archived/Codegen.antt =====
-- archive/13-llvm/01-naive: the first version of the code generator, `codegen` of the nodes in Node.cc. Its
-- globals `currentBuilder` with `currentModule`, `NamedValues` and `currentFunction` are the fields of
-- `CodeGen`.
use Prim.Native.String.{String}
use cpp_graduate.Base.{ℕ, [], ◌∷◌, Option, none, some}
use cpp_graduate.Base.Int.{ℤ}
use cpp_graduate.Pcl.{
  Operation, plus, minus, assign, greater, less, greater_eq, less_eq, std_out, std_in, equal,
  not_equal, div, mul, modulo, negation, conjunction, disjunction, INode, null, value, decl, scope,
  operand, while_loop, if_then, Branches, no_branch, branch,
}
use cpp_graduate.Pcl.Llvm.{
  Llvm, create_add, create_sub, create_mul, create_sdiv, create_srem, create_and, create_or,
  create_icmp_sgt, create_icmp_slt, create_icmp_sge, create_icmp_sle, create_icmp_eq,
  create_icmp_ne,
}
use cpp_graduate.Pcl.Codegen.{
  Gen, ◌>>=◌, pure, fault, emit, non_null, asserted, binary, or_zero, unless_null, named,
}

module _ (llvm : Llvm) where
  open llvm use {
    Value, int32_ty, const_int, get_function, create_load_pointee, create_store, create_not,
    create_call, entry_block, create_alloca,
  }

  -- `Value::codegen`
  abbrev pub value_codegen : ℤ → Gen llvm (Option Value)
  value_codegen v = pure llvm (some (const_int int32_ty v))

  -- `CreateEntryBlockAlloca`
  unfoldable pub create_entry_block_alloca : String → Gen llvm Value
  create_entry_block_alloca x g =
      non_null llvm g.function
        (λ f. emit llvm (λ ir. create_alloca (entry_block f ir) int32_ty x ir)) g

  -- `Decl::codegen`
  unfoldable pub read_codegen : String → Gen llvm Value
  read_codegen x g =
      asserted llvm (named llvm g.named_values x) (λ v. emit llvm (create_load_pointee v x)) g

  -- `Decl::assign`
  unfoldable pub assign_codegen : String → Option Value → Gen llvm Value
  assign_codegen x rhs g =
      asserted llvm (named llvm g.named_values x)
        (λ v. non_null llvm rhs (λ r. emit llvm (create_store r v))) g

  module _ (varname : ℕ → String) where
    -- The cases of `Op::codegen`, after its operands.
    unfoldable pub op_codegen : Operation → INode → Option Value → Option Value → Gen llvm Value
    unfolding assign_codegen
    op_codegen plus n l r = binary llvm create_add (or_zero llvm l) r
    op_codegen minus n l r = binary llvm create_sub (or_zero llvm l) r
    op_codegen greater n l r = binary llvm create_icmp_sgt l r
    op_codegen less n l r = binary llvm create_icmp_slt l r
    op_codegen greater_eq n l r = binary llvm create_icmp_sge l r
    op_codegen less_eq n l r = binary llvm create_icmp_sle l r
    op_codegen assign (decl d) l r = assign_codegen (varname d) r
    op_codegen assign n l r = fault llvm
    op_codegen std_out n l r = λ g.
        asserted llvm (get_function "__pcl_print" g.ir)
          (λ callee. asserted llvm r (λ v. emit llvm (create_call callee (v ∷ [])))) g
    op_codegen std_in n l r = λ g.
        asserted llvm (get_function "__pcl_scan" g.ir) (λ callee. emit llvm (create_call callee []))
          g
    op_codegen equal n l r = binary llvm create_icmp_eq l r
    op_codegen not_equal n l r = binary llvm create_icmp_ne l r
    op_codegen negation n l r = non_null llvm r (λ b. emit llvm (create_not b))
    op_codegen conjunction n l r = binary llvm create_and l r
    op_codegen disjunction n l r = binary llvm create_or l r
    op_codegen div n l r = binary llvm create_sdiv l r
    op_codegen mul n l r = binary llvm create_mul l r
    op_codegen modulo n l r = binary llvm create_srem l r

    -- `While::codegen` and `If::codegen`
    unfoldable pub while_codegen : INode → INode → Gen llvm (Option Value)
    while_codegen op body = pure llvm none

    unfoldable pub if_codegen : INode → INode → Gen llvm (Option Value)
    if_codegen op body = pure llvm none

    unfoldable mutual
      unfolding read_codegen op_codegen while_codegen if_codegen

      pub node_codegen : INode → Gen llvm (Option Value)
      node_codegen null = fault llvm
      node_codegen (value v) = value_codegen v
      node_codegen (decl d) = ◌>>=◌ llvm (read_codegen (varname d)) (λ v. pure llvm (some v))
      node_codegen (scope bs) = ◌>>=◌ llvm (scope_codegen bs) (λ _. pure llvm none)
      node_codegen (operand l op r) = ◌>>=◌ llvm (unless_null llvm l (node_codegen l)) (λ lv.
          ◌>>=◌ llvm (unless_null llvm r (node_codegen r))
            (λ rv. ◌>>=◌ llvm (op_codegen op l lv rv) (λ v. pure llvm (some v))))
      node_codegen (while_loop c body) = while_codegen c body
      node_codegen (if_then c body) = if_codegen c body

      pub scope_codegen : Branches → Gen llvm Unit
      scope_codegen no_branch = pure llvm tt
      scope_codegen (branch x rest) = ◌>>=◌ llvm (node_codegen x) (λ _. scope_codegen rest)
