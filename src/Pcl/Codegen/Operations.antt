-- ===== src/Pcl/Codegen/Operations.antt =====
-- What each operation of `CodeGen` (15-llvm/naive-pcl) does to the module under construction.
use Prim.Native.String.{String}
use cpp_graduate.Base.{
  ◌≡◌, refl, sym, ap, ◌∙◌, subst, inl, inr, List, [], ◌∷◌, if◌then◌else◌, true, Option, none, some,
}
use cpp_graduate.Base.Int.{pos}
use cpp_graduate.Pcl.{
  Operation, plus, minus, greater, less, greater_eq, less_eq, equal, not_equal, div, mul, modulo,
  conjunction, disjunction, std_out, std_in, negation,
}
use cpp_graduate.Pcl.Llvm.{
  Llvm, Method, create_add, create_sub, create_mul, create_sdiv, create_srem, create_and, create_or,
  create_icmp_sgt, create_icmp_slt, create_icmp_sge, create_icmp_sle, create_icmp_eq,
  create_icmp_ne,
}
use cpp_graduate.Pcl.Codegen.{
  CodeGen, Outcome, binary, non_null, generated, thrown, aborted, undefined, Gen, named,
  add_decl_read, add_decl_write, add_operation,
}
use cpp_graduate.Pcl.Codegen.Documented.{
  Observed, Opens, IsInstruction, Documented, SameFunctions, IsInteger, is_icmp,
}
use cpp_graduate.Pcl.Codegen.Kinds.{is_arithmetic, is_comparison, is_connective}

module _ (llvm : Llvm) (seen : Observed llvm) (doc : Documented llvm seen) where
  open llvm use {
    Ir, Ty, Value, Block, Function, int32_ty, void_ty, get_function, create_block, set_insert_point,
    allocated_type, const_int,
  }
  open seen use {int1_ty, type_of, signature, parent, open_blocks}

  -- The code generator has ended, and what it gives is such and such.
  abbrev pub Ends : {A : Type 0} → (A → CodeGen llvm → Type 0) → Outcome llvm A → Type 0
  Ends P (generated a g) = P a g
  Ends P thrown = ⊥
  Ends P aborted = ⊥
  Ends P undefined = ⊥

  pub Ends-bind :
      {A B : Type 0} (P : A → CodeGen llvm → Type 0) (Q : B → CodeGen llvm → Type 0)
      (o : Outcome llvm A) (f : A → Gen llvm B)
      → Ends P o
      → ((a : A) (g : CodeGen llvm) → P a g → Ends Q (f a g))
      → Ends Q (elim o [
        | generated a g' ↦ f a g'
        | thrown ↦ thrown
        | aborted ↦ aborted
        | undefined ↦ undefined
      ])
  Ends-bind P Q (generated a g) f h k = k a g h
  Ends-bind P Q thrown f h k = absurd h
  Ends-bind P Q aborted f h k = absurd h
  Ends-bind P Q undefined f h k = absurd h

  pub Ends-non_null :
      {A B : Type 0} (P : B → CodeGen llvm → Type 0) (o : Option A) (a : A)
      (use_it : A → Gen llvm B) (g : CodeGen llvm)
      → o ≡ some a
      → Ends P (use_it a g)
      → Ends P (non_null llvm o use_it g)
  Ends-non_null P o a use_it g e h = subst (λ z. Ends P (non_null llvm z use_it g)) (sym e) h

  abbrev pub HasType : Ty → Value → Type 0
  HasType t v = type_of v ≡ t

  module _ (IsNamed : String → Type 0) (f : Function) where
    -- The builder stands in an unfinished block of `f`, the others are `rest`; the declared variables have
    -- their place, the functions of the run-time library their declaration.
    pub record Inside (rest : List Block) (g : CodeGen llvm) : Type 0 where
      pub here : Block
      pub opens : Opens llvm seen f g.ir here rest
      pub current : g.function ≡ some f
      pub variable :
          (x : String)
          → IsNamed x
          → (v : Value) × (named llvm g.named_values x ≡ some v) × (allocated_type v ≡ int32_ty)
      pub printer :
          (p : Function) × (get_function "__pcl_print" g.ir ≡ some p)
          × (signature p ≡ (void_ty, int32_ty ∷ []))
      pub scanner :
          (p : Function) × (get_function "__pcl_scan" g.ir ≡ some p)
          × (signature p ≡ (int32_ty, []))

    abbrev pub Gives : List Block → Ty → Value → CodeGen llvm → Type 0
    Gives rest t v g = Inside rest g × HasType t v

    pub moved :
        (rest rest' : List Block) (g : CodeGen llvm) (ir' : Ir) (b : Block)
        → Inside rest g
        → SameFunctions llvm seen g.ir ir'
        → Opens llvm seen f ir' b rest'
        → Inside rest' (record g { ir = ir' })
    moved rest rest' g ir' b s same o = record {
      here = b;
      opens = o;
      current = s.current;
      variable = s.variable;
      printer = (s.printer.0, same _ ∙ s.printer.1, s.printer.2);
      scanner = (s.scanner.0, same _ ∙ s.scanner.1, s.scanner.2);
    }

    module _ (rest : List Block) (g : CodeGen llvm) (s : Inside rest g) where
      pub instructed :
          (ir' : Ir) → IsInstruction llvm seen g.ir ir' → Inside rest (record g { ir = ir' })
      instructed ir' i = moved rest rest g ir' s.here s i.functions (i.keeps f s.here rest s.opens)

      pub add_decl_read-Gives :
          (x : String) → IsNamed x → Ends (Gives rest int32_ty) (add_decl_read llvm x g)
      unfolding add_decl_read
      add_decl_read-Gives x d =
          let (v, e, t) = s.variable x d in
          rw e (
            instructed _ (doc.load_instruction v x g.ir),
            doc.load_type (allocated_type v) v x g.ir ∙ t,
          )

      pub add_decl_write-Inside :
          (x : String) (r : Value)
          → IsNamed x
          → HasType int32_ty r
          → Ends (λ v. Inside rest) (add_decl_write llvm x (some r) g)
      unfolding add_decl_write
      add_decl_write-Inside x r d h =
          let (v, e, t) = s.variable x d in
          rw e (instructed _ (doc.store_instruction r v g.ir (h ∙ sym t)))

      -- An operator of two numbers or two truth values.
      binary-Gives :
          (m : Method) (a b : Value) (t : Ty)
          → IsInteger llvm seen (type_of a)
          → type_of b ≡ type_of a
          → (if is_icmp m then int1_ty else type_of a) ≡ t
          → Ends (Gives rest t) (binary llvm m (some a) (some b) g)
      binary-Gives m a b t i k e =
          (instructed _ (doc.binary_instruction m a b g.ir i k), doc.binary_type m a b g.ir ∙ e)

      module _ (a b : Value) where
        pub arithmetic-Gives :
            (op : Operation)
            → is_arithmetic op ≡ true
            → HasType int32_ty a
            → HasType int32_ty b
            → Ends (Gives rest int32_ty) (add_operation llvm op (some a) (some b) g)
        unfolding add_operation
        arithmetic-Gives plus e h k = binary-Gives create_add a b _ (inr h) (k ∙ sym h) h
        arithmetic-Gives minus e h k = binary-Gives create_sub a b _ (inr h) (k ∙ sym h) h
        arithmetic-Gives div e h k = binary-Gives create_sdiv a b _ (inr h) (k ∙ sym h) h
        arithmetic-Gives mul e h k = binary-Gives create_mul a b _ (inr h) (k ∙ sym h) h
        arithmetic-Gives modulo e h k = binary-Gives create_srem a b _ (inr h) (k ∙ sym h) h
        arithmetic-Gives op e h k = absurd cc

        pub comparison-Gives :
            (op : Operation)
            → is_comparison op ≡ true
            → HasType int32_ty a
            → HasType int32_ty b
            → Ends (Gives rest int1_ty) (add_operation llvm op (some a) (some b) g)
        unfolding add_operation
        comparison-Gives greater e h k = binary-Gives create_icmp_sgt a b _ (inr h) (k ∙ sym h) refl
        comparison-Gives less e h k = binary-Gives create_icmp_slt a b _ (inr h) (k ∙ sym h) refl
        comparison-Gives greater_eq e h k =
            binary-Gives create_icmp_sge a b _ (inr h) (k ∙ sym h) refl
        comparison-Gives less_eq e h k = binary-Gives create_icmp_sle a b _ (inr h) (k ∙ sym h) refl
        comparison-Gives equal e h k = binary-Gives create_icmp_eq a b _ (inr h) (k ∙ sym h) refl
        comparison-Gives not_equal e h k =
            binary-Gives create_icmp_ne a b _ (inr h) (k ∙ sym h) refl
        comparison-Gives op e h k = absurd cc

        pub connective-Gives :
            (op : Operation)
            → is_connective op ≡ true
            → HasType int1_ty a
            → HasType int1_ty b
            → Ends (Gives rest int1_ty) (add_operation llvm op (some a) (some b) g)
        unfolding add_operation
        connective-Gives conjunction e h k = binary-Gives create_and a b _ (inl h) (k ∙ sym h) h
        connective-Gives disjunction e h k = binary-Gives create_or a b _ (inl h) (k ∙ sym h) h
        connective-Gives op e h k = absurd cc

      pub minus-Gives :
          (b : Value)
          → HasType int32_ty b
          → Ends (Gives rest int32_ty) (add_operation llvm minus none (some b) g)
      unfolding add_operation
      minus-Gives b k =
          let h = doc.const_type int32_ty (pos 0) in
          binary-Gives create_sub (const_int int32_ty (pos 0)) b _ (inr h) (k ∙ sym h) h

      pub negation-Gives :
          (b : Value)
          → HasType int1_ty b
          → Ends (Gives rest int1_ty) (add_operation llvm negation none (some b) g)
      unfolding add_operation
      negation-Gives b k =
          (instructed _ (doc.not_instruction b g.ir (inl k)), doc.not_type b g.ir ∙ k)

      pub std_in-Gives : Ends (Gives rest int32_ty) (add_operation llvm std_in none none g)
      unfolding add_operation
      std_in-Gives =
          let (p, e, h) = s.scanner in
          rw e (
            instructed _ (doc.call_instruction p [] g.ir (sym (ap (λ z. z.1) h))),
            doc.call_type p [] g.ir ∙ ap (λ z. z.0) h,
          )

      pub std_out-Gives :
          (b : Value)
          → HasType int32_ty b
          → Ends (Gives rest void_ty) (add_operation llvm std_out none (some b) g)
      unfolding add_operation
      std_out-Gives b k =
          let (p, e, h) = s.printer in
          rw e (
            instructed _
                (doc.call_instruction p (b ∷ []) g.ir (ap (λ t. t ∷ []) k ∙ sym (ap (λ z. z.1) h))),
            doc.call_type p (b ∷ []) g.ir ∙ ap (λ z. z.0) h,
          )
