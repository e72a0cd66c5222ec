-- ===== src/Pcl/Order.antt =====
-- The operands of `Operand::calc` (15-llvm/naive-pcl/Node.cc), which C++ evaluates in an unspecified
-- order: a value of expressions without effects, described without a state and without an order.
use cpp_graduate.Base.{ℕ, zero, suc, ◌<◌, ◌≡◌, ap, Bool, Option, none, some, arith, if◌then◌else◌}
use cpp_graduate.Base.Int.{ℤ, pos, ◌+ℤ◌, ◌-ℤ◌, ◌*ℤ◌, div_ℤ, mod_ℤ, ltb_ℤ, eqb_ℤ}
use cpp_graduate.Pcl.{
  Operation, plus, minus, assign, greater, less, greater_eq, less_eq, std_out, std_in, equal,
  not_equal, div, mul, modulo, negation, conjunction, disjunction, INode, null, value, decl, scope,
  operand, while_loop, if_then, State, ok, thrown, M, ◌>>=◌, pure, fault, int, from_bool, truthy,
  both, operate, calc_node, calc, read_decl,
}
use cpp_graduate.Pcl.Eval.{
  bind, bind2, in_range, eval, height, none≢some, some-inj, Returns, Returns-pure, Returns-none,
  Returns-if, Returns-int, Returns-bind, Returns-both, Returns-div, decl_value,
}

module _ (s : State) where
  module _ (order : Bool) where
    module _ (c : INode → M) where
      abbrev Agrees : INode → Type 0
      Agrees n = Returns s (c n) (eval s.vals n)

      module _ (l r : INode) (h : Agrees l) (k : Agrees r) where
        agrees_both :
            (g : ℤ → ℤ → M) (f : ℤ → ℤ → Option ℤ)
            → ((a b : ℤ) → Returns s (g a b) (f a b))
            → Returns s (both order (c l) (c r) g) (bind2 (eval s.vals l) (eval s.vals r) f)
        agrees_both g f = Returns-both s order (c l) (c r) (eval s.vals l) (eval s.vals r) g f h k

        agrees_test :
            (f : ℤ → ℤ → ℤ)
            → Returns s
                (both order (c l) (c r) (λ a b. pure (f a b)))
                (bind2 (eval s.vals l) (eval s.vals r) (λ a b. some (f a b)))
        agrees_test f =
            agrees_both (λ a b. pure (f a b)) (λ a b. some (f a b)) (λ a b. Returns-pure s (f a b))

        agrees_arith :
            (f : ℤ → ℤ → ℤ)
            → Returns s
                (both order (c l) (c r) (λ a b. int (f a b)))
                (bind2 (eval s.vals l) (eval s.vals r) (λ a b. in_range (f a b)))
        agrees_arith f =
            agrees_both (λ a b. int (f a b)) (λ a b. in_range (f a b))
              (λ a b. Returns-int s (f a b))

        agrees_right :
            (g : ℤ → M) (f : ℤ → Option ℤ)
            → ((b : ℤ) → Returns s (g b) (f b))
            → Returns s (c r >>= g) (bind (eval s.vals r) f)
        agrees_right g f = Returns-bind s (c r) (eval s.vals r) g f k

        agrees_left :
            (g : ℤ → M) (f : ℤ → Option ℤ)
            → ((b : ℤ) → Returns s (g b) (f b))
            → Returns s (c l >>= g) (bind (eval s.vals l) f)
        agrees_left g f = Returns-bind s (c l) (eval s.vals l) g f h

        agrees_truth :
            Returns s
              (c r >>= λ b. pure (from_bool (truthy b)))
              (bind (eval s.vals r) (λ b. some (from_bool (truthy b))))
        agrees_truth =
            agrees_right (λ b. pure (from_bool (truthy b))) (λ b. some (from_bool (truthy b)))
              (λ b. Returns-pure s (from_bool (truthy b)))

        agrees_div :
            Returns s
              (c r >>= λ v.
                if truthy v
                then both order (c l) (c r) (λ a b. if truthy b then int (div_ℤ a b) else fault)
                else thrown)
              (bind2
                (eval s.vals l)
                (eval s.vals r)
                (λ a b. if truthy b then in_range (div_ℤ a b) else none))
        agrees_div = Returns-div s order (c l) (c r) (eval s.vals l) (eval s.vals r) h k

        agrees_mod :
            Returns s
              (both order
                (c l)
                (c r)
                (λ a b. if truthy b then (int (div_ℤ a b) >>= λ _. pure (mod_ℤ a b)) else fault))
              (bind2 (eval s.vals l) (eval s.vals r) (λ a b.
                if truthy b then bind (in_range (div_ℤ a b)) (λ _. some (mod_ℤ a b)) else none))
        agrees_mod =
            agrees_both
              (λ a b. if truthy b then (int (div_ℤ a b) >>= λ _. pure (mod_ℤ a b)) else fault)
              (λ a b.
                if truthy b then bind (in_range (div_ℤ a b)) (λ _. some (mod_ℤ a b)) else none)
              (λ a b.
                Returns-if s (truthy b) (int (div_ℤ a b) >>= λ _. pure (mod_ℤ a b)) fault
                  (bind (in_range (div_ℤ a b)) (λ _. some (mod_ℤ a b))) none
                  (Returns-bind s (int (div_ℤ a b)) (in_range (div_ℤ a b)) (λ _. pure (mod_ℤ a b))
                    (λ _. some (mod_ℤ a b)) (Returns-int s (div_ℤ a b))
                    (λ _. Returns-pure s (mod_ℤ a b)))
                  (Returns-none s fault))

      Agrees-operate :
          (l : INode) (op : Operation) (r : INode)
          → Agrees l
          → Agrees r
          → Returns s (operate order c l op r) (eval s.vals (operand l op r))
      unfolding operate
      Agrees-operate null plus r h k = k
      Agrees-operate l plus r h k = agrees_arith l r h k ◌+ℤ◌
      Agrees-operate null minus r h k =
          agrees_right null r h k (λ b. int (pos 0 -ℤ b)) (λ b. in_range (pos 0 -ℤ b))
            (λ b. Returns-int s (pos 0 -ℤ b))
      Agrees-operate l minus r h k = agrees_arith l r h k ◌-ℤ◌
      Agrees-operate l mul r h k = agrees_arith l r h k ◌*ℤ◌
      Agrees-operate l div r h k = agrees_div l r h k
      Agrees-operate l modulo r h k = agrees_mod l r h k
      Agrees-operate (decl d) assign r h k = λ v e. none≢some e
      Agrees-operate l assign r h k = λ v e. none≢some e
      Agrees-operate l greater r h k = agrees_test l r h k (λ a b. from_bool (ltb_ℤ b a))
      Agrees-operate l less r h k = agrees_test l r h k (λ a b. from_bool (ltb_ℤ a b))
      Agrees-operate l greater_eq r h k =
          agrees_test l r h k (λ a b. if ltb_ℤ a b then pos 0 else pos 1)
      Agrees-operate l less_eq r h k =
          agrees_test l r h k (λ a b. if ltb_ℤ b a then pos 0 else pos 1)
      Agrees-operate l equal r h k = agrees_test l r h k (λ a b. from_bool (eqb_ℤ a b))
      Agrees-operate l not_equal r h k =
          agrees_test l r h k (λ a b. if eqb_ℤ a b then pos 0 else pos 1)
      Agrees-operate l negation r h k =
          agrees_right l r h k (λ b. pure (if truthy b then pos 0 else pos 1))
            (λ b. some (if truthy b then pos 0 else pos 1))
            (λ b. Returns-pure s (if truthy b then pos 0 else pos 1))
      Agrees-operate l conjunction r h k =
          agrees_left l r h k _ _
            (λ a. Returns-if s (truthy a) _ _ _ _ (agrees_truth l r h k) (Returns-pure s (pos 0)))
      Agrees-operate l disjunction r h k =
          agrees_left l r h k _ _
            (λ a. Returns-if s (truthy a) _ _ _ _ (Returns-pure s (pos 1)) (agrees_truth l r h k))
      Agrees-operate l std_out r h k = λ v e. none≢some e
      Agrees-operate l std_in r h k = λ v e. none≢some e

    -- An expression that has a value by a description without states and without an order of the
    -- operands gives this value, with any order and from a fuel above its height on, and leaves
    -- declarations, input and output as they were.
    pub calc-eval :
        (f : ℕ) (n : INode)
        → height n < f
        → (v : ℤ) → eval s.vals n ≡ some v
        → calc order f n s ≡ ok v s
    unfolding calc calc_node read_decl
    calc-eval zero n lt v e = absurd (omega arith)
    calc-eval (suc f) null lt v e = none≢some e
    calc-eval (suc f) (value w) lt v e = ap (λ z. ok z s) (some-inj e)
    calc-eval (suc f) (decl d) lt v e = decl_value s (s.vals d) e
    calc-eval (suc f) (scope b) lt v e = none≢some e
    calc-eval (suc f) (while_loop c b) lt v e = none≢some e
    calc-eval (suc f) (if_then c b) lt v e = none≢some e
    calc-eval (suc f) (operand l op r) lt v e =
        Agrees-operate (calc order f) l op r (calc-eval f l (omega arith))
          (calc-eval f r (omega arith)) v e
