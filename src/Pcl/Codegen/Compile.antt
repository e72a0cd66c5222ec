-- ===== src/Pcl/Codegen/Compile.antt =====
-- The whole run of the code generator in the driver of 15-llvm/naive-pcl.
use Prim.Native.String.{String}
use mathlib.Core.List.{Perm}
use mathlib.Core.List.Perm
use text.Mathlib.Text.{◌==◌}
use text.Mathlib.TextEquality.{eq_iff}
use cpp_graduate.Base.{
  ℕ, ◌≡◌, ◌≢◌, ◌⊎◌, inl, inr, refl, sym, ap, ◌∙◌, subst, List, [], ◌∷◌, true, false, none, some,
  Bool-cases,
}
use cpp_graduate.Pcl.{INode}
use cpp_graduate.Pcl.Llvm.{Llvm}
use cpp_graduate.Pcl.Codegen.{
  CodeGen, named, add_decl, add_decls, create_codegen, start_function, codegen, compile,
  create_fn_decl, end_current_function,
}
use cpp_graduate.Pcl.Codegen.Documented.{Observed, Documented}
use cpp_graduate.Pcl.Codegen.Kinds.{statement, HasKind}
use cpp_graduate.Pcl.Codegen.Operations.{Ends, Ends-bind, Ends-non_null, Inside, instructed}
use cpp_graduate.Pcl.Codegen.Program.{codegen_Goes}

-- The names that are declared.
abbrev pub IsDeclared : List String → String → Type 0
IsDeclared [] y = ⊥
IsDeclared (x ∷ xs) y = (y ≡ x) ⊎ IsDeclared xs y

-- The names that are declared after those with `P`.
abbrev Declared : List String → (String → Type 0) → String → Type 0
Declared [] P y = P y
Declared (x ∷ xs) P y = Declared xs (λ z. (z ≡ x) ⊎ P z) y

mono :
    (xs : List String) (P Q : String → Type 0)
    → ((y : String) → P y → Q y)
    → (y : String) → Declared xs P y
    → Declared xs Q y
mono [] P Q h y d = h y d
mono (x ∷ xs) P Q h y d = mono xs _ _ (λ z. elim [ inl e ↦ inl e | inr p ↦ inr (h z p) ]) y d

mono_P : (xs : List String) (P : String → Type 0) (y : String) → P y → Declared xs P y
mono_P [] P y p = p
mono_P (x ∷ xs) P y p = mono_P xs _ y (inr p)

IsDeclared-Declared :
    (xs : List String) (P : String → Type 0) (y : String) → IsDeclared xs y → Declared xs P y
IsDeclared-Declared [] P y d = absurd d
IsDeclared-Declared (x ∷ xs) P y (inl e) = mono_P xs _ y (inl e)
IsDeclared-Declared (x ∷ xs) P y (inr d) = IsDeclared-Declared xs _ y d

false≢true : false ≢ true
false≢true e = cc

differ : (x y : String) → (x == y) ≡ false → x ≢ y
differ x y e p = false≢true (sym e ∙ (eq_iff x y).1 p)

module _ (llvm : Llvm) (seen : Observed llvm) (doc : Documented llvm seen) where
  open llvm use {
    Ir, Value, Block, Function, int32_ty, void_ty, entry_block, create_alloca, allocated_type,
    get_function, create_function, create_block, set_insert_point, new_module,
  }
  open seen use {int1_ty, type_of, parent, has_body, IsValid, open_blocks, signature}

  -- A place of an `int` for a name.
  abbrev Placed : List (String × Value) → String → Type 0
  Placed l y = (v : Value) × (named llvm l y ≡ some v) × (allocated_type v ≡ int32_ty)

  named_after :
      (P : String → Type 0) (g : CodeGen llvm) (x : String) (a : Value)
      → allocated_type a ≡ int32_ty
      → ((y : String) → P y → Placed g.named_values y)
      → (y : String) → (y ≡ x) ⊎ P y
      → Placed ((x, a) ∷ g.named_values) y
  unfolding named
  named_after P g x a t h y d = elim (Bool-cases (x == y)) [
    | inl e ↦ (a, rw e refl, t)
    | inr e ↦ elim d [
      | inl q ↦ absurd (false≢true (sym e ∙ (eq_iff x y).1 (sym q)))
      | inr p ↦ let (v, k, t') = h y p in (v, rw e k, t')
    ]
  ]

  module _ (f : Function) where
    abbrev Started : (String → Type 0) → CodeGen llvm → Type 0
    Started P g = Inside llvm seen doc P f [] g × has_body f g.ir

    add_decl-Started :
        (P : String → Type 0) (x : String) (g : CodeGen llvm)
        → Started P g
        → Ends llvm seen doc (λ _. Started (λ y. (y ≡ x) ⊎ P y)) (add_decl llvm x g)
    unfolding add_decl
    add_decl-Started P x g (s, h) =
        let made = doc.alloca_instruction f int32_ty x g.ir h in
        let s' = instructed llvm seen doc P f [] g s _ made in
        Ends-non_null llvm seen doc _ g.function f _ g s.current (
          record {
            here = s'.here;
            opens = s'.opens;
            current = s'.current;
            variable = λ y d. named_after P g x _ (doc.alloca_type _ _ _ _) s'.variable y d;
            printer = s'.printer;
            scanner = s'.scanner;
          },
          made.bodies f h,
        )

    add_decls-Started :
        (xs : List String) (P : String → Type 0) (g : CodeGen llvm)
        → Started P g
        → Ends llvm seen doc (λ _. Started (Declared xs P)) (add_decls llvm xs g)
    unfolding add_decls
    add_decls-Started [] P g s = s
    add_decls-Started (x ∷ xs) P g s =
        Ends-bind llvm seen doc _ _ (add_decl llvm x g) _ (add_decl-Started P x g s)
          (λ u g' s'. add_decls-Started xs _ g' s')

    -- Fewer names.
    renamed :
        (P Q : String → Type 0) (g : CodeGen llvm)
        → ((y : String) → Q y → P y)
        → Inside llvm seen doc P f [] g
        → Inside llvm seen doc Q f [] g
    renamed P Q g h s = record {
      here = s.here;
      opens = s.opens;
      current = s.current;
      variable = λ y q. s.variable y (h y q);
      printer = s.printer;
      scanner = s.scanner;
    }

  -- The module after the declarations of the run-time library and the start of the function.
  abbrev printing : Ir
  printing = (create_function void_ty (int32_ty ∷ []) "__pcl_print" (new_module "pcl.module")).1

  abbrev scanning : Ir
  scanning = (create_function int32_ty [] "__pcl_scan" printing).1

  abbrev starting : Ir
  starting = (create_function void_ty [] "__pcl_start" scanning).1

  abbrev pcl_start : Function
  pcl_start = (create_function void_ty [] "__pcl_start" scanning).0

  abbrev entered : Ir
  entered = (create_block "entry" pcl_start starting).1

  abbrev entry : Block
  entry = (create_block "entry" pcl_start starting).0

  abbrev ready : CodeGen llvm
  ready = record {
    ir = set_insert_point entry entered;
    named_values = [];
    function = some pcl_start;
  }

  -- A function keeps its name.
  kept :
      (x : String) (p : Function)
      → get_function x scanning ≡ some p
      → "__pcl_start" ≢ x
      → get_function x (set_insert_point entry entered) ≡ some p
  kept x p e ne =
      doc.insert_functions entry entered x
      ∙ doc.block_functions "entry" pcl_start starting x
      ∙ doc.function_others void_ty [] "__pcl_start" x scanning ne
      ∙ e

  unused : (x : String) → get_function x (new_module "pcl.module") ≡ none
  unused = doc.new_functions "pcl.module"

  no_blocks : open_blocks starting ≡ []
  no_blocks =
      doc.function_blocks void_ty [] "__pcl_start" scanning
      ∙ doc.function_blocks int32_ty [] "__pcl_scan" printing
      ∙ doc.function_blocks void_ty (int32_ty ∷ []) "__pcl_print" (new_module "pcl.module")
      ∙ doc.new_blocks "pcl.module"

  ready-Started : Started pcl_start (λ y. ⊥) ready
  ready-Started = (
    record {
      here = entry;
      opens = record {
        valid = doc.insert_valid _ _ (
            doc.block_valid _ _ _ (
              doc.function_valid _ _ _ _
                (doc.function_valid _ _ _ _ (doc.function_valid _ _ _ _ (doc.new_valid _)))));
        within = doc.block_parent _ _ _;
        position = doc.insert_at _ _;
        unfinished =
            subst (λ l. Perm l (entry ∷ [])) (sym (doc.insert_blocks entry entered))
              (Perm.trans (doc.block_blocks "entry" pcl_start starting)
                (Perm.cons entry (subst (λ l. Perm l []) (sym no_blocks) Perm.nil)));
      };
      current = refl;
      variable = λ y d. absurd d;
      printer = (
        _,
        kept "__pcl_print" _
            (doc.function_others _ _ "__pcl_scan" "__pcl_print" _ (differ _ _ refl)
              ∙ doc.function_named _ _ "__pcl_print" _ (unused _))
            (differ _ _ refl),
        doc.function_signature _ _ _ _,
      );
      scanner = (
        _,
        kept "__pcl_scan" _
            (doc.function_named int32_ty [] "__pcl_scan" printing
              (doc.function_others _ _ "__pcl_print" "__pcl_scan" _ (differ _ _ refl) ∙ unused _))
            (differ _ _ refl),
        doc.function_signature _ _ _ _,
      );
    },
    doc.insert_body _ _ _ (doc.block_body _ _ _),
  )

  -- No requirement of LLVM was broken, and every block has its terminator.
  abbrev pub IsFinished : CodeGen llvm → Type 0
  IsFinished g = IsValid g.ir × (open_blocks g.ir ≡ [])

  -- Where LLVM behaves as documented, the generator translates every statement that keeps numbers and truth
  -- values apart and uses declared names only: it does not throw, no assertion fails and no null pointer
  -- is used, and it leaves a module for which no requirement of LLVM was broken and in which
  -- every block ends with a terminator.
  pub compile-IsFinished :
      (varname : ℕ → String) (xs : List String) (n : INode)
      → HasKind (λ d. IsDeclared xs (varname d)) statement n
      → Ends llvm seen doc (λ _. IsFinished) (compile llvm varname xs n)
  unfolding compile create_codegen create_fn_decl start_function end_current_function
  compile-IsFinished varname xs n d =
      Ends-bind llvm seen doc _ _ (add_decls llvm xs ready) _
        (add_decls-Started pcl_start xs (λ y. ⊥) ready ready-Started)
        (λ u g (s, h).
          Ends-bind llvm seen doc _ _ (codegen llvm varname n g) _
            (codegen_Goes llvm seen doc varname (IsDeclared xs) pcl_start statement n d [] g
              (renamed pcl_start _ _ g (IsDeclared-Declared xs (λ y. ⊥)) s))
            (λ o g' (s', _).
              let c =
                (doc.ret_terminator pcl_start g'.ir
                    (ap (λ z. z.0) (doc.function_signature _ _ _ _))).ends
                  s'.here [] s'.opens in
              (c.valid, Perm.eq-nil c.unfinished)))
