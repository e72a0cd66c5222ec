-- ===== src/Pcl/Fuel.antt =====
-- The fuel of `calc` (15-llvm/naive-pcl): a result that is not `out_of_fuel` is the result for every
-- larger fuel.
use cpp_graduate.Base.{
  ℕ, zero, suc, ◌+◌, ◌≡◌, ◌≢◌, refl, ap, sym, ◌∙◌, ◌⊎◌, inl, inr, Bool, true, false, arith,
  if◌then◌else◌, subst,
}
use cpp_graduate.Base.Int.{ℤ}
use cpp_graduate.Pcl.{
  Operation, plus, minus, assign, greater, less, greater_eq, less_eq, std_out, std_in, equal,
  not_equal, div, mul, modulo, negation, conjunction, disjunction, INode, null, value, decl, scope,
  operand, while_loop, if_then, Branches, no_branch, branch, State, Result, ok, thrown, undefined,
  out_of_fuel, M, ◌>>=◌, truthy, both, operate, calc_branches, calc_node, calc,
}

-- The first ran out of fuel, or both are one.
abbrev Le : Result → Result → Type 0
Le r r' = (r ≡ out_of_fuel) ⊎ (r ≡ r')

abbrev LeM : M → M → Type 0
LeM m m' = (s : State) → Le (m s) (m' s)

le_same : (m : M) → LeM m m
le_same m s = inr refl

le_bind :
    (m m' : M) (f f' : ℤ → M) → LeM m m' → ((v : ℤ) → LeM (f v) (f' v)) → LeM (m >>= f) (m' >>= f')
le_bind m m' f f' h k s = go (m s) (m' s) (h s)
  where
    after : Result → (ℤ → M) → Result
    after r f = elim r [
      | ok v s' ↦ f v s'
      | thrown s' ↦ thrown s'
      | undefined ↦ undefined
      | out_of_fuel ↦ out_of_fuel
    ]

    same : (r : Result) → Le (after r f) (after r f')
    same (ok v s') = k v s'
    same (thrown s') = inr refl
    same undefined = inr refl
    same out_of_fuel = inr refl

    go : (r r' : Result) → Le r r' → Le (after r f) (after r' f')
    go r r' (inl e) = inl (ap (λ z. after z f) e)
    go r r' (inr e) = subst (λ z. Le (after r f) (after z f')) e (same r)

le_if :
    (b : Bool) (m m' k k' : M)
    → LeM m m'
    → LeM k k'
    → LeM (if b then m else k) (if b then m' else k')
le_if true m m' k k' h g = h
le_if false m m' k k' h g = g

module _ (order : Bool) where
  le_both :
      (l l' r r' : M) (f : ℤ → ℤ → M)
      → LeM l l'
      → LeM r r'
      → LeM (both order l r f) (both order l' r' f)
  le_both l l' r r' f h k =
      le_if order _ _ _ _ (le_bind l l' _ _ h (λ a. le_bind r r' _ _ k (λ b. le_same (f a b))))
        (le_bind r r' _ _ k (λ b. le_bind l l' _ _ h (λ a. le_same (f a b))))

  module _ (c c' : INode → M) (h : (n : INode) → LeM (c n) (c' n)) where
    le_then : (n : INode) (f : ℤ → M) → LeM (c n >>= f) (c' n >>= f)
    le_then n f = le_bind (c n) (c' n) f f (h n) (λ v. le_same (f v))

    le_operate :
        (l : INode) (op : Operation) (r : INode)
        → LeM (operate order c l op r) (operate order c' l op r)
    unfolding operate
    le_operate null plus r = h r
    le_operate l plus r = le_both _ _ _ _ _ (h l) (h r)
    le_operate null minus r = le_then r _
    le_operate l minus r = le_both _ _ _ _ _ (h l) (h r)
    le_operate (decl d) assign r = le_then r _
    le_operate l assign r = le_then r _
    le_operate l greater r = le_both _ _ _ _ _ (h l) (h r)
    le_operate l less r = le_both _ _ _ _ _ (h l) (h r)
    le_operate l greater_eq r = le_both _ _ _ _ _ (h l) (h r)
    le_operate l less_eq r = le_both _ _ _ _ _ (h l) (h r)
    le_operate l std_out r = le_then r _
    le_operate l std_in r = le_same _
    le_operate l equal r = le_both _ _ _ _ _ (h l) (h r)
    le_operate l not_equal r = le_both _ _ _ _ _ (h l) (h r)
    le_operate l negation r = le_then r _
    le_operate l conjunction r =
        le_bind (c l) (c' l) _ _ (h l) (λ a. le_if (truthy a) _ _ _ _ (le_then r _) (le_same _))
    le_operate l disjunction r =
        le_bind (c l) (c' l) _ _ (h l) (λ a. le_if (truthy a) _ _ _ _ (le_same _) (le_then r _))
    le_operate l div r =
        le_bind (c r) (c' r) _ _ (h r)
          (λ v. le_if (truthy v) _ _ _ _ (le_both _ _ _ _ _ (h l) (h r)) (le_same _))
    le_operate l mul r = le_both _ _ _ _ _ (h l) (h r)
    le_operate l modulo r = le_both _ _ _ _ _ (h l) (h r)

    le_branches : (bs : Branches) → LeM (calc_branches order c bs) (calc_branches order c' bs)
    unfolding calc_branches
    le_branches no_branch = le_same _
    le_branches (branch n rest) = le_bind (c n) (c' n) _ _ (h n) (λ v. le_branches rest)

    le_node : (n : INode) → LeM (calc_node order c n) (calc_node order c' n)
    unfolding calc_node
    le_node null = le_same _
    le_node (value v) = le_same _
    le_node (decl d) = le_same _
    le_node (scope bs) = le_branches bs
    le_node (operand l op r) = le_operate l op r
    le_node (while_loop g b) = le_bind (c g) (c' g) _ _ (h g) (λ v.
        le_if (truthy v) _ _ _ _ (le_bind (c b) (c' b) _ _ (h b) (λ w. h (while_loop g b)))
          (le_same _))
    le_node (if_then g b) =
        le_bind (c g) (c' g) _ _ (h g) (λ v. le_if (truthy v) _ _ _ _ (le_then b _) (le_same _))

  le_suc : (f : ℕ) (n : INode) → LeM (calc order f n) (calc order (suc f) n)
  unfolding calc
  le_suc zero n = λ s. inl refl
  le_suc (suc f) n = le_node (calc order f) (calc order (suc f)) (le_suc f) n

  -- A run that ends, with a value, with the exception or in undefined behaviour, ends in the same way
  -- with any larger fuel: the fuel only bounds the search for the end.
  pub calc_mono :
      (k f : ℕ) (n : INode) (s : State)
      → calc order f n s ≢ out_of_fuel
      → calc order (k + f) n s ≡ calc order f n s
  calc_mono zero f n s e = ap (λ g. calc order g n s) (omega arith)
  calc_mono (suc k) f n s e =
      let ih = calc_mono k f n s e in
      let more : calc order (suc k + f) n s ≡ calc order (suc (k + f)) n s =
        ap (λ g. calc order g n s) (omega arith) in
      elim (le_suc (k + f) n s) [
        | inl out ↦ absurd (e (sym ih ∙ out))
        | inr same ↦ more ∙ sym same ∙ ih
      ]
