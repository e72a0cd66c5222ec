-- ===== src/Pcl/Archived/Generated.antt =====
-- What the first code generator (archive/13-llvm/01-naive) makes of loops and conditionals.
use Prim.Native.String.{String}
use mathlib.Core.Path.{fun_ext, ap₂}
use cpp_graduate.Base.{ℕ, ◌≡◌, refl, ap, ◌∙◌, Option}
use cpp_graduate.Pcl.{
  Operation, assign, INode, null, value, decl, scope, operand, while_loop, if_then, Branches,
  no_branch, branch,
}
use cpp_graduate.Pcl.Llvm.{Llvm}
use cpp_graduate.Pcl.Codegen
use cpp_graduate.Pcl.Codegen.{Gen, emit, asserted, ◌>>=◌, unless_null}
use cpp_graduate.Pcl.Archived.Codegen.{
  read_codegen, assign_codegen, op_codegen, node_codegen, scope_codegen,
}

-- The program without its loops and conditionals.
mutual
  pub straight : INode → INode
  straight (scope bs) = scope (straight_branches bs)
  straight (operand l op r) = operand (straight l) op (straight r)
  straight (while_loop c body) = scope no_branch
  straight (if_then c body) = scope no_branch
  straight n = n

  pub straight_branches : Branches → Branches
  straight_branches no_branch = no_branch
  straight_branches (branch n rest) = branch (straight n) (straight_branches rest)

module _ (llvm : Llvm) (varname : ℕ → String) where
  open llvm use {Ir, Value, create_load, create_load_pointee, allocated_type}

  op_codegen-straight :
      (op : Operation) (n : INode) (l r : Option Value)
      → op_codegen llvm varname op n l r ≡ Codegen.operand_codegen llvm varname op (straight n) l r
  unfolding op_codegen assign_codegen straight Codegen.operand_codegen Codegen.add_operation
      Codegen.add_decl_write
  op_codegen-straight assign null l r = refl
  op_codegen-straight assign (value v) l r = refl
  op_codegen-straight assign (decl d) l r = refl
  op_codegen-straight assign (scope bs) l r = refl
  op_codegen-straight assign (operand a o b) l r = refl
  op_codegen-straight assign (while_loop c b) l r = refl
  op_codegen-straight assign (if_then c b) l r = refl
  op_codegen-straight op n l r = refl

  unless_null-straight :
      (n : INode) (m : Gen llvm (Option Value))
      → unless_null llvm n m ≡ unless_null llvm (straight n) m
  unfolding straight
  unless_null-straight null m = refl
  unless_null-straight n m = refl

  module _
      (same : (v : Value) (x : String) (ir : Ir)
        → create_load_pointee v x ir ≡ create_load (allocated_type v) v x ir) where
    read_codegen-add : (x : String) → read_codegen llvm x ≡ Codegen.add_decl_read llvm x
    unfolding read_codegen Codegen.add_decl_read
    read_codegen-add x =
        ap
          (λ load g.
            asserted llvm (Codegen.named llvm g.named_values x) (λ v. emit llvm (load v)) g)
          (fun_ext (λ v. fun_ext (same v x)))

    bind_eq :
        {A B : Type 0} (m m' : Gen llvm A) (f f' : A → Gen llvm B)
        → m ≡ m'
        → ((a : A) → f a ≡ f' a)
        → ◌>>=◌ llvm m f ≡ ◌>>=◌ llvm m' f'
    bind_eq m m' f f' e h = ap₂ (λ k j. ◌>>=◌ llvm k j) e (fun_ext h)

    mutual
      unfolding node_codegen scope_codegen straight straight_branches Codegen.codegen
          Codegen.codegen_decl Codegen.codegen_branches

      node_Straight :
          (n : INode) → node_codegen llvm varname n ≡ Codegen.codegen llvm varname (straight n)
      node_Straight null = refl
      node_Straight (value v) = refl
      node_Straight (decl d) = bind_eq _ _ _ _ (read_codegen-add (varname d)) (λ v. refl)
      node_Straight (scope bs) = bind_eq _ _ _ _ (branches_Straight bs) (λ u. refl)
      node_Straight (operand l op r) =
          bind_eq _ _ _ _ (ap (unless_null llvm l) (node_Straight l) ∙ unless_null-straight l _)
            (λ lv.
              bind_eq _ _ _ _ (ap (unless_null llvm r) (node_Straight r) ∙ unless_null-straight r _)
                (λ rv. bind_eq _ _ _ _ (op_codegen-straight op l lv rv) (λ v. refl)))
      node_Straight (while_loop c body) = refl
      node_Straight (if_then c body) = refl

      branches_Straight :
          (bs : Branches)
          → scope_codegen llvm varname bs
            ≡ Codegen.codegen_branches llvm varname (straight_branches bs)
      branches_Straight no_branch = refl
      branches_Straight (branch n rest) =
          bind_eq _ _ _ _ (node_Straight n) (λ o. branches_Straight rest)

    -- Where a load by the pointer alone is the load of the allocated type, the first generator makes for
    -- a program what the later one makes for the program without its loops and conditionals: it drops
    -- them without an error.
    pub node_codegen-straight :
        (n : INode) (g : Codegen.CodeGen llvm)
        → node_codegen llvm varname n g ≡ Codegen.codegen llvm varname (straight n) g
    node_codegen-straight n g = ap (λ m. m g) (node_Straight n)
