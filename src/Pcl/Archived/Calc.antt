-- ===== src/Pcl/Archived/Calc.antt =====
-- `calc` of the first interpreter (archive/13-llvm/01-naive) against the later one (15-llvm/naive-pcl).
use cpp_graduate.Base.{
  and_left, and_right, ℕ, zero, suc, ◌≡◌, refl, Bool, true, false, ◌&&◌, if◌then◌else◌,
}
use cpp_graduate.Base.Int.{pos, ◌+ℤ◌, ◌-ℤ◌, ◌*ℤ◌, div_ℤ, mod_ℤ, ltb_ℤ, eqb_ℤ}
use cpp_graduate.Pcl
use cpp_graduate.Pcl.{
  Operation, plus, minus, assign, greater, less, greater_eq, less_eq, std_out, std_in, equal,
  not_equal, div, mul, modulo, conjunction, disjunction, negation, INode, null, value, decl, scope,
  operand, while_loop, if_then, Branches, no_branch, branch, Result, ok, thrown, undefined,
  out_of_fuel, State, truthy, from_bool,
}
use cpp_graduate.Pcl.Archived.Agree.{
  Same, SameRuns, Agrees, Same-Agrees, Same-bind, Same-test, Same-if, agree_bind, agree_if,
  agree_pure, agree_int, agree_set_value, agree_scan, agree_read_decl, agree_operands, agree_test,
  agree_arith, agree_truth,
}
use cpp_graduate.Pcl.Archived.{
  M, as_int, print_and_exit, op_calc, scope_calc, while_calc, if_calc, node_calc, calc,
}

-- An expression prints nothing and has no `+` with one operand.
abbrev pub is_expression : INode → Bool
is_expression (operand l std_out r) = false
is_expression (operand null plus r) = false
is_expression (operand l op r) = is_expression l && is_expression r
is_expression (scope bs) = false
is_expression (while_loop c body) = false
is_expression (if_then c body) = false
is_expression n = true

unfoldable mutual
  pub is_statement : INode → Bool
  is_statement (scope bs) = are_statements bs
  is_statement (while_loop c body) = is_expression c && is_statement body
  is_statement (if_then c body) = is_expression c && is_statement body
  is_statement (operand l std_out r) = is_expression r
  is_statement n = is_expression n

  pub are_statements : Branches → Bool
  are_statements no_branch = true
  are_statements (branch n rest) = is_statement n && are_statements rest

left_IsExpression :
    (l r : INode) (op : Operation) → is_expression (operand l op r) ≡ true → is_expression l ≡ true
left_IsExpression l r std_out e = absurd cc
left_IsExpression null r op e = refl
left_IsExpression l r op e = and_left (is_expression l) (is_expression r) e

right_IsExpression :
    (l r : INode) (op : Operation) → is_expression (operand l op r) ≡ true → is_expression r ≡ true
right_IsExpression l r std_out e = absurd cc
right_IsExpression null r plus e = absurd cc
right_IsExpression l r op e = and_right (is_expression l) (is_expression r) e

module _ (order : Bool) where
  op_calc-operate :
      (c : INode → M) (c' : INode → Pcl.M) (l : INode) (op : Operation) (r : INode)
      → Agrees (c l) (c' l)
      → Agrees (c r) (c' r)
      → is_expression (operand l op r) ≡ true
      → Agrees (op_calc order c l op r) (Pcl.operate order c' l op r)
  unfolding op_calc Pcl.operate Agrees print_and_exit
  op_calc-operate c c' null plus r h k e = absurd cc
  op_calc-operate c c' l plus r h k e = agree_arith order c c' l r h k ◌+ℤ◌
  op_calc-operate c c' null minus r h k e =
      agree_bind (c r) (c' r) _ _ k (λ b. agree_int (pos 0 -ℤ b))
  op_calc-operate c c' l minus r h k e = agree_arith order c c' l r h k ◌-ℤ◌
  op_calc-operate c c' (decl d) assign r h k e =
      agree_bind (c r) (c' r) _ _ k (λ v. agree_set_value d v)
  op_calc-operate c c' l assign r h k e = agree_bind (c r) (c' r) _ _ k (λ v s. refl)
  op_calc-operate c c' l greater r h k e =
      agree_test order c c' l r h k (λ a b. from_bool (ltb_ℤ b a))
  op_calc-operate c c' l less r h k e = agree_test order c c' l r h k (λ a b. from_bool (ltb_ℤ a b))
  op_calc-operate c c' l greater_eq r h k e =
      agree_test order c c' l r h k (λ a b. if ltb_ℤ a b then pos 0 else pos 1)
  op_calc-operate c c' l less_eq r h k e =
      agree_test order c c' l r h k (λ a b. if ltb_ℤ b a then pos 0 else pos 1)
  op_calc-operate c c' l std_out r h k e = absurd cc
  op_calc-operate c c' l std_in r h k e = agree_scan
  op_calc-operate c c' l equal r h k e =
      agree_test order c c' l r h k (λ a b. from_bool (eqb_ℤ a b))
  op_calc-operate c c' l not_equal r h k e =
      agree_test order c c' l r h k (λ a b. if eqb_ℤ a b then pos 0 else pos 1)
  op_calc-operate c c' l negation r h k e =
      agree_bind (c r) (c' r) _ _ k (λ b. agree_pure (if truthy b then pos 0 else pos 1))
  op_calc-operate c c' l conjunction r h k e =
      agree_bind (c l) (c' l) _ _ h
        (λ a. agree_if (truthy a) _ _ _ _ (agree_truth order c c' l r h k) (agree_pure (pos 0)))
  op_calc-operate c c' l disjunction r h k e =
      agree_bind (c l) (c' l) _ _ h
        (λ a. agree_if (truthy a) _ _ _ _ (agree_pure (pos 1)) (agree_truth order c c' l r h k))
  op_calc-operate c c' l div r h k e = agree_bind (c r) (c' r) _ _ k (λ v.
      agree_if (truthy v) _ _ _ _
        (agree_operands order (c l) (c r) (c' l) (c' r) _ _ h k
          (λ a b. agree_if (truthy b) _ _ _ _ (agree_int (div_ℤ a b)) (λ s. refl)))
        (λ s. refl))
  op_calc-operate c c' l mul r h k e = agree_arith order c c' l r h k ◌*ℤ◌
  op_calc-operate c c' l modulo r h k e =
      agree_operands order (c l) (c r) (c' l) (c' r) _ _ h k (λ a b.
        agree_if (truthy b) _ _ _ _
          (agree_bind (as_int (div_ℤ a b)) (Pcl.int (div_ℤ a b)) _ _ (agree_int (div_ℤ a b))
            (λ _. agree_pure (mod_ℤ a b)))
          (λ s. refl))

  calc_expression :
      (f : ℕ) (n : INode) → is_expression n ≡ true → Agrees (calc order f n) (Pcl.calc order f n)
  unfolding calc node_calc Pcl.calc Pcl.calc_node Agrees
  calc_expression zero n e = λ s. refl
  calc_expression (suc f) null e = λ s. refl
  calc_expression (suc f) (value v) e = λ s. refl
  calc_expression (suc f) (decl d) e = agree_read_decl d
  calc_expression (suc f) (operand l op r) e =
      op_calc-operate (calc order f) (Pcl.calc order f) l op r
        (calc_expression f l (left_IsExpression l r op e))
        (calc_expression f r (right_IsExpression l r op e)) e
  calc_expression (suc f) n e = absurd cc

  module _ (c : INode → M) (c' : INode → Pcl.M)
      (h : (n : INode) → is_statement n ≡ true → SameRuns (c n) (c' n)) where
    scope_calc-Same :
        (bs : Branches)
        → are_statements bs ≡ true
        → SameRuns (scope_calc order c bs) (Pcl.calc_branches order c' bs)
    unfolding scope_calc Pcl.calc_branches SameRuns are_statements
    scope_calc-Same no_branch e = λ s. refl
    scope_calc-Same (branch n rest) e =
        Same-bind (c n) (c' n) _ _ (h n (and_left _ _ e))
          (λ v w. scope_calc-Same rest (and_right (is_statement n) _ e))

  calc_statement :
      (f : ℕ) (n : INode) → is_statement n ≡ true → SameRuns (calc order f n) (Pcl.calc order f n)
  unfolding calc node_calc op_calc while_calc if_calc Pcl.calc Pcl.calc_node Pcl.operate Pcl.print
      SameRuns is_statement
  calc_statement zero n e = λ s. tt
  calc_statement (suc f) (scope bs) e =
      scope_calc-Same (calc order f) (Pcl.calc order f) (calc_statement f) bs e
  calc_statement (suc f) (while_loop g b) e =
      Same-test (calc order f g) (Pcl.calc order f g) _ _ (calc_expression f g (and_left _ _ e))
        (λ v.
          Same-if (truthy v) _ _ _ _
            (Same-bind (calc order f b) (Pcl.calc order f b) _ _
              (calc_statement f b (and_right (is_expression g) _ e))
              (λ v w. calc_statement f (while_loop g b) e))
            (λ s. refl))
  calc_statement (suc f) (if_then g b) e =
      Same-test (calc order f g) (Pcl.calc order f g) _ _ (calc_expression f g (and_left _ _ e))
        (λ v.
          Same-if (truthy v) _ _ _ _
            (Same-bind (calc order f b) (Pcl.calc order f b) _ _
              (calc_statement f b (and_right (is_expression g) _ e)) (λ v w s. refl))
            (λ s. refl))
  calc_statement (suc f) (operand l std_out r) e =
      Same-test (calc order f r) (Pcl.calc order f r) _ _ (calc_expression f r e) (λ v s. refl)
  calc_statement (suc f) n e =
      Same-Agrees (calc order (suc f) n) (Pcl.calc order (suc f) n) (calc_expression (suc f) n e)

  -- A program of the grammar, in which printing is a statement, has in the first interpreter a run that
  -- ends as the run in the later one does, with the same declarations, input and output; but where the later
  -- one throws, at a division by zero, the first prints one line more and exits with status 1.
  pub calc-Same :
      (f : ℕ) (n : INode) (s : State)
      → is_statement n ≡ true
      → Same (calc order f n s) (Pcl.calc order f n s)
  unfolding SameRuns
  calc-Same f n s e = calc_statement f n e s
