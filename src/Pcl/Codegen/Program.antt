-- ===== src/Pcl/Codegen/Program.antt =====
-- The generator (15-llvm/naive-pcl) on whole nodes and programs.
use Prim.Native.String.{String}
use cpp_graduate.Base.{ℕ, ◌≡◌, refl, sym, subst, List, ◌∷◌, true, Option}
use cpp_graduate.Pcl.{
  Operation, minus, INode, null, operand, while_loop, if_then, Branches, std_out, negation,
}
use cpp_graduate.Pcl.Llvm.{Llvm}
use cpp_graduate.Pcl.Codegen.{
  CodeGen, Outcome, start_if, end_if, start_while, end_while, codegen, codegen_branches,
  codegen_while, codegen_if,
}
use cpp_graduate.Pcl.Codegen.Documented.{Observed, Documented}
use cpp_graduate.Pcl.Codegen.Kinds.{
  Kind, number, condition, statement, HasKind, is_arithmetic, is_comparison, is_connective,
  AreStatements, constant, variable, arithmetic, opposite, read, comparison, connective, contrary,
  store, write, block, loop, choice, finished, followed,
}
use cpp_graduate.Pcl.Codegen.Operations.{
  Ends, Ends-bind, Inside, arithmetic-Gives, comparison-Gives, connective-Gives, minus-Gives,
  negation-Gives, std_out-Gives,
}
use cpp_graduate.Pcl.Codegen.Blocks.{
  start_if-Inside, end_if-Inside, start_while-Inside, end_while-Inside,
}
use cpp_graduate.Pcl.Codegen.Correct

module _ (llvm : Llvm) (seen : Observed llvm) (doc : Documented llvm seen) where
  open llvm use {Ty, Value, Block, Function, int32_ty, void_ty}
  open seen use {int1_ty, type_of, parent}

  module _ (varname : ℕ → String) (IsNamed : String → Type 0) (f : Function) where
    abbrev In : List Block → CodeGen llvm → Type 0
    In = Inside llvm seen doc IsNamed f

    abbrev Has : Kind → INode → Type 0
    Has = HasKind (λ d. IsNamed (varname d))

    abbrev pub Good : List Block → Kind → Outcome llvm (Option Value) → Type 0
    Good = Correct.Good llvm seen doc varname IsNamed f

    known : (n : INode) (k : Kind) → Has k n → Correct.IsOperand llvm seen doc varname IsNamed f n
    known n k d m = Correct.unless_null-HasKind llvm seen doc varname IsNamed f k n m d

    abbrev pub Goes : Kind → INode → Type 0
    Goes k n =
        (rest : List Block) (g : CodeGen llvm) → In rest g → Good rest k (codegen llvm varname n g)

    if_then-Goes :
        (c body : INode) → Goes condition c → Goes statement body → Goes statement (if_then c body)
    unfolding codegen codegen_while codegen_if
    if_then-Goes c body hc hb rest g s =
        Ends-bind llvm seen doc _ _ (codegen llvm varname c g) _ (hc rest g s)
          (λ cv g1 (s1, (v, e, t)).
            Ends-bind llvm seen doc _ _ (start_if llvm cv g1) _
              (subst
                (λ z.
                  Ends llvm seen doc (λ b g'. In (b ∷ rest) g' × (parent b ≡ f))
                    (start_if llvm z g1))
                (sym e) (start_if-Inside llvm seen doc IsNamed f rest g1 v s1 t))
              (λ b g2 (s2, p).
                Ends-bind llvm seen doc _ _ (codegen llvm varname body g2) _ (hb (b ∷ rest) g2 s2)
                  (λ o g3 (s3, _).
                    Ends-bind llvm seen doc _ _ (end_if llvm b g3) _
                      (end_if-Inside llvm seen doc IsNamed f rest g3 b s3 p)
                      (λ u g4 s4. (s4, tt)))))

    while_loop-Goes :
        (c body : INode)
        → Goes condition c
        → Goes statement body
        → Goes statement (while_loop c body)
    unfolding codegen codegen_while codegen_if
    while_loop-Goes c body hc hb rest g s =
        Ends-bind llvm seen doc _ _ (codegen llvm varname c g) _ (hc rest g s)
          (λ cv g1 (s1, (v, e, t)).
            Ends-bind llvm seen doc _ _ (start_while llvm cv g1) _
              (subst
                (λ z.
                  Ends llvm seen doc
                    (λ bbs g'. In (bbs.1 ∷ rest) g' × (parent bbs.0 ≡ f) × (parent bbs.1 ≡ f))
                    (start_while llvm z g1))
                (sym e) (start_while-Inside llvm seen doc IsNamed f rest g1 v s1 t))
              (λ (b, m) g2 (s2, p, q).
                Ends-bind llvm seen doc _ _ (codegen llvm varname body g2) _ (hb (m ∷ rest) g2 s2)
                  (λ o g3 (s3, _).
                    Ends-bind llvm seen doc _ _ (codegen llvm varname c g3) _ (hc (m ∷ rest) g3 s3)
                      (λ cw g4 (s4, (w, e', t')).
                        Ends-bind llvm seen doc _ _ (end_while llvm cw (b, m) g4) _
                          (subst
                            (λ z. Ends llvm seen doc (λ _. In rest) (end_while llvm z (b, m) g4))
                            (sym e')
                            (end_while-Inside llvm seen doc IsNamed f rest g4 w b m s4 t' p q))
                          (λ u g5 s5. (s5, tt))))))

    write-Goes :
        (r : INode) → Has number r → Goes number r → Goes statement (operand null std_out r)
    write-Goes r d h rest =
        Correct.unary-Good llvm seen doc varname IsNamed f rest statement int32_ty void_ty std_out
          (λ v e. tt) refl r (known r number d) (h rest)
          (λ b g s. std_out-Gives llvm seen doc IsNamed f rest g s b)

    opposite-Goes : (r : INode) → Has number r → Goes number r → Goes number (operand null minus r)
    opposite-Goes r d h rest =
        Correct.unary-Good llvm seen doc varname IsNamed f rest number int32_ty int32_ty minus
          (λ v e. (v, refl, e)) refl r (known r number d) (h rest)
          (λ b g s. minus-Gives llvm seen doc IsNamed f rest g s b)

    contrary-Goes :
        (r : INode) → Has condition r → Goes condition r → Goes condition (operand null negation r)
    contrary-Goes r d h rest =
        Correct.unary-Good llvm seen doc varname IsNamed f rest condition int1_ty int1_ty negation
          (λ v e. (v, refl, e)) refl r (known r condition d) (h rest)
          (λ b g s. negation-Gives llvm seen doc IsNamed f rest g s b)

    module _ (op : Operation) (l r : INode) where
      arithmetic-Goes :
          is_arithmetic op ≡ true
          → Has number l
          → Has number r
          → Goes number l
          → Goes number r
          → Goes number (operand l op r)
      arithmetic-Goes e dl dr hl hr rest =
          Correct.operand-Good llvm seen doc varname IsNamed f rest number int32_ty int32_ty op
            (λ v e. (v, refl, e)) (Correct.is_assign-is_arithmetic op e) r (known r number dr)
            (hr rest) l (known l number dl) (hl rest)
            (λ a b g s. arithmetic-Gives llvm seen doc IsNamed f rest g s a b op e)

      comparison-Goes :
          is_comparison op ≡ true
          → Has number l
          → Has number r
          → Goes number l
          → Goes number r
          → Goes condition (operand l op r)
      comparison-Goes e dl dr hl hr rest =
          Correct.operand-Good llvm seen doc varname IsNamed f rest condition int32_ty int1_ty op
            (λ v e. (v, refl, e)) (Correct.is_assign-is_comparison op e) r (known r number dr)
            (hr rest) l (known l number dl) (hl rest)
            (λ a b g s. comparison-Gives llvm seen doc IsNamed f rest g s a b op e)

      connective-Goes :
          is_connective op ≡ true
          → Has condition l
          → Has condition r
          → Goes condition l
          → Goes condition r
          → Goes condition (operand l op r)
      connective-Goes e dl dr hl hr rest =
          Correct.operand-Good llvm seen doc varname IsNamed f rest condition int1_ty int1_ty op
            (λ v e. (v, refl, e)) (Correct.is_assign-is_connective op e) r (known r condition dr)
            (hr rest) l (known l condition dl) (hl rest)
            (λ a b g s. connective-Gives llvm seen doc IsNamed f rest g s a b op e)

    mutual
      unfolding codegen codegen_branches

      pub codegen_Goes : (k : Kind) (n : INode) → Has k n → Goes k n
      codegen_Goes k n (constant v) = λ rest g s. (s, (_, refl, doc.const_type int32_ty v))
      codegen_Goes k n (variable d h) =
          λ rest g s. Correct.variable-Good llvm seen doc varname IsNamed f rest d h g s
      codegen_Goes k n (arithmetic op l r e dl dr) =
          arithmetic-Goes op l r e dl dr (codegen_Goes number l dl) (codegen_Goes number r dr)
      codegen_Goes k n (comparison op l r e dl dr) =
          comparison-Goes op l r e dl dr (codegen_Goes number l dl) (codegen_Goes number r dr)
      codegen_Goes k n (connective op l r e dl dr) =
          connective-Goes op l r e dl dr (codegen_Goes condition l dl) (codegen_Goes condition r dr)
      codegen_Goes k n (opposite r d) = opposite-Goes r d (codegen_Goes number r d)
      codegen_Goes k n (contrary r d) = contrary-Goes r d (codegen_Goes condition r d)
      codegen_Goes k n (write r d) = write-Goes r d (codegen_Goes number r d)
      codegen_Goes k n read = λ rest. Correct.read-Good llvm seen doc varname IsNamed f rest
      codegen_Goes k n (store d r h dr) = λ rest.
          Correct.store-Good llvm seen doc varname IsNamed f rest d r h (known r number dr)
            (codegen_Goes number r dr rest)
      codegen_Goes k n (block bs ds) = λ rest g s.
          Ends-bind llvm seen doc _ _ (codegen_branches llvm varname bs g) _
            (branches_Goes bs ds rest g s) (λ u g' s'. (s', tt))
      codegen_Goes k n (loop c body dc db) =
          while_loop-Goes c body (codegen_Goes condition c dc) (codegen_Goes statement body db)
      codegen_Goes k n (choice c body dc db) =
          if_then-Goes c body (codegen_Goes condition c dc) (codegen_Goes statement body db)

      branches_Goes :
          (bs : Branches)
          → AreStatements (λ d. IsNamed (varname d)) bs
          → (rest : List Block) (g : CodeGen llvm) → In rest g
          → Ends llvm seen doc (λ _. In rest) (codegen_branches llvm varname bs g)
      branches_Goes bs finished rest g s = s
      branches_Goes bs (followed n more h t) rest g s =
          Ends-bind llvm seen doc _ _ (codegen llvm varname n g) _
            (codegen_Goes statement n h rest g s) (λ o g' (s', _). branches_Goes more t rest g' s')
