-- ===== src/Pcl/Codegen/Correct.antt =====
-- The generator (15-llvm/naive-pcl) makes valid calls of LLVM only, and finishes what it starts.
use Prim.Native.String.{String}
use cpp_graduate.Base.{ℕ, ◌≡◌, refl, sym, subst, List, Bool, true, false, Option, none, some}
use cpp_graduate.Pcl.{Operation, assign, INode, null, decl, operand, std_in}
use cpp_graduate.Pcl.Llvm.{Llvm}
use cpp_graduate.Pcl.Codegen.{
  CodeGen, Outcome, generated, ◌>>=◌, pure, Gen, add_operation, unless_null, operand_codegen,
  codegen, codegen_decl,
}
use cpp_graduate.Pcl.Codegen.Documented.{Observed, Documented}
use cpp_graduate.Pcl.Codegen.Kinds.{
  Kind, number, condition, statement, is_arithmetic, is_comparison, is_connective, HasKind,
}
use cpp_graduate.Pcl.Codegen.Operations.{
  Ends, Ends-bind, Inside, Gives, add_decl_read-Gives, add_decl_write-Inside, std_in-Gives,
}

abbrev is_assign : Operation → Bool
is_assign assign = true
is_assign op = false

pub is_assign-is_arithmetic : (op : Operation) → is_arithmetic op ≡ true → is_assign op ≡ false
is_assign-is_arithmetic assign e = absurd cc
is_assign-is_arithmetic op e = refl

pub is_assign-is_comparison : (op : Operation) → is_comparison op ≡ true → is_assign op ≡ false
is_assign-is_comparison assign e = absurd cc
is_assign-is_comparison op e = refl

pub is_assign-is_connective : (op : Operation) → is_connective op ≡ true → is_assign op ≡ false
is_assign-is_connective assign e = absurd cc
is_assign-is_connective op e = refl

module _ (llvm : Llvm) (seen : Observed llvm) (doc : Documented llvm seen) where
  open llvm use {Ty, Value, Block, Function, int32_ty}
  open seen use {int1_ty, type_of, parent}

  module _ (varname : ℕ → String) (IsNamed : String → Type 0) (f : Function) where
    abbrev pub In : List Block → CodeGen llvm → Type 0
    In = Inside llvm seen doc IsNamed f

    abbrev pub Has : Kind → INode → Type 0
    Has = HasKind (λ d. IsNamed (varname d))

    abbrev pub Typed : Ty → Option Value → Type 0
    Typed t o = (v : Value) × (o ≡ some v) × (type_of v ≡ t)

    -- What `codegen` of a node of a kind gives.
    abbrev pub ResultOf : Kind → Option Value → Type 0
    ResultOf number o = Typed int32_ty o
    ResultOf condition o = Typed int1_ty o
    ResultOf statement o = Unit

    abbrev pub Finishes : {A : Type 0} → (A → CodeGen llvm → Type 0) → Outcome llvm A → Type 0
    Finishes = Ends llvm seen doc

    abbrev pub Good : List Block → Kind → Outcome llvm (Option Value) → Type 0
    Good rest k = Finishes (λ o g. In rest g × ResultOf k o)

    operand_codegen-add :
        (op : Operation) (n : INode) (l r : Option Value)
        → is_assign op ≡ false
        → operand_codegen llvm varname op n l r ≡ add_operation llvm op l r
    unfolding operand_codegen
    operand_codegen-add assign n l r e = absurd cc
    operand_codegen-add op n l r e = refl

    pub unless_null-HasKind :
        (k : Kind) (n : INode) (m : Gen llvm (Option Value)) → Has k n → unless_null llvm n m ≡ m
    unless_null-HasKind k null m h = elim h [ ]
    unless_null-HasKind k n m h = refl

    -- The operand of a node is no null pointer.
    abbrev pub IsOperand : INode → Type 0
    IsOperand n = (m : Gen llvm (Option Value)) → unless_null llvm n m ≡ m

    operand_Ends :
        (n : INode) (P : Option Value → CodeGen llvm → Type 0) (g : CodeGen llvm)
        → IsOperand n
        → Finishes P (codegen llvm varname n g)
        → Finishes P (unless_null llvm n (codegen llvm varname n) g)
    operand_Ends n P g e h = subst (λ m. Finishes P (m g)) (sym (e (codegen llvm varname n))) h

    module _ (rest : List Block) where
      -- The value of an operation after its operands.
      pub wrapped :
          (k : Kind) (t : Ty) (m : Outcome llvm Value)
          → ((v : Value) → type_of v ≡ t → ResultOf k (some v))
          → Finishes (Gives llvm seen doc IsNamed f rest t) m
          → Good rest k (elim m [
            | generated v g' ↦ generated (some v) g'
            | Outcome.thrown ↦ Outcome.thrown
            | Outcome.aborted ↦ Outcome.aborted
            | Outcome.undefined ↦ Outcome.undefined
          ])
      wrapped k t m typed h = Ends-bind llvm seen doc _ _ m _ h (λ v g p. (p.0, typed v p.1))

      -- `codegen` of a node, in any state that the builder is in.
      abbrev pub Expression : Ty → INode → Type 0
      Expression t n =
          (g : CodeGen llvm)
          → In rest g
          → Finishes (λ o g'. In rest g' × Typed t o) (codegen llvm varname n g)

      module _ (k : Kind) (t u : Ty) (op : Operation)
          (typed : (v : Value) → type_of v ≡ u → ResultOf k (some v)) (other : is_assign op ≡ false)
          (r : INode) (er : IsOperand r) (hr : Expression t r) where
        -- The right operand and the operation, after the left operand.
        right-Good :
            (l : INode) (lv : Option Value) (g : CodeGen llvm)
            → ((b : Value) (g' : CodeGen llvm)
                → In rest g'
                → type_of b ≡ t
                → Finishes
                    (Gives llvm seen doc IsNamed f rest u)
                    (add_operation llvm op lv (some b) g'))
            → In rest g
            → Good rest k (
                ◌>>=◌ llvm
                  (unless_null llvm r (codegen llvm varname r))
                  (λ rv.
                    ◌>>=◌ llvm (operand_codegen llvm varname op l lv rv) (λ v. pure llvm (some v)))
                  g)
        right-Good l lv g h s =
            Ends-bind llvm seen doc _ _ (unless_null llvm r (codegen llvm varname r) g) _
              (operand_Ends r _ g er (hr g s))
              (λ rv g' (s', (b, e, tb)).
                wrapped k u (operand_codegen llvm varname op l lv rv g') typed
                  (rw (operand_codegen-add op l lv rv other, e) (h b g' s' tb)))

        pub operand-Good :
            (l : INode)
            → IsOperand l
            → Expression t l
            → ((a b : Value) (g' : CodeGen llvm)
                → In rest g'
                → type_of a ≡ t
                → type_of b ≡ t
                → Finishes
                    (Gives llvm seen doc IsNamed f rest u)
                    (add_operation llvm op (some a) (some b) g'))
            → (g : CodeGen llvm) → In rest g
            → Good rest k (codegen llvm varname (operand l op r) g)
        unfolding codegen
        operand-Good l el hl h g s =
            Ends-bind llvm seen doc _ _ (unless_null llvm l (codegen llvm varname l) g) _
              (operand_Ends l _ g el (hl g s))
              (λ lv g' (s', (a, e, ta)).
                right-Good l lv g' (λ b g'' s'' tb. rw e (h a b g'' s'' ta tb)) s')

        pub unary-Good :
            ((b : Value) (g' : CodeGen llvm)
              → In rest g'
              → type_of b ≡ t
              → Finishes
                  (Gives llvm seen doc IsNamed f rest u)
                  (add_operation llvm op none (some b) g'))
            → (g : CodeGen llvm) → In rest g
            → Good rest k (codegen llvm varname (operand null op r) g)
        unfolding codegen
        unary-Good h g s = right-Good null none g h s

      pub read-Good :
          (g : CodeGen llvm)
          → In rest g
          → Good rest number (codegen llvm varname (operand null std_in null) g)
      unfolding codegen operand_codegen
      read-Good g s =
          wrapped number int32_ty (add_operation llvm std_in none none g) (λ v e. (v, refl, e))
            (std_in-Gives llvm seen doc IsNamed f rest g s)

      pub variable-Good : (d : ℕ) → IsNamed (varname d) → Expression int32_ty (decl d)
      unfolding codegen codegen_decl
      variable-Good d named g s =
          wrapped number int32_ty _ (λ v e. (v, refl, e))
            (add_decl_read-Gives llvm seen doc IsNamed f rest g s (varname d) named)

      -- The value of the variable is read first, and is not used.
      pub store-Good :
          (d : ℕ) (r : INode)
          → IsNamed (varname d)
          → IsOperand r
          → Expression int32_ty r
          → (g : CodeGen llvm) → In rest g
          → Good rest statement (codegen llvm varname (operand (decl d) assign r) g)
      unfolding codegen operand_codegen
      store-Good d r named er hr g s =
          Ends-bind llvm seen doc _ _ (codegen llvm varname (decl d) g) _
            (variable-Good d named g s)
            (λ lv g' (s', _).
              Ends-bind llvm seen doc _ _ (unless_null llvm r (codegen llvm varname r) g') _
                (operand_Ends r _ g' er (hr g' s'))
                (λ rv g'' (s'', (b, e, tb)). rw e (
                  Ends-bind llvm seen doc _ _
                    (operand_codegen llvm varname assign (decl d) lv (some b) g'') _
                    (add_decl_write-Inside llvm seen doc IsNamed f rest g'' s'' (varname d) b named
                      tb)
                    (λ v g3 t. (t, tt)))))
