-- ===== src/Pcl/Eval.antt =====
-- Expressions of ParaCL (15-llvm/naive-pcl/Node.cc) that neither assign, read nor print: their value,
-- described without a state and without an order of the operands, and the steps of `calc` that give it.
use cpp_graduate.Base.{
  ℕ, suc, ◌+◌, ◌≡◌, refl, ap, ◌∙◌, Bool, true, false, Option, none, some, if◌then◌else◌,
}
use cpp_graduate.Base.Int.{ℤ, pos, in_int32, ◌+ℤ◌, ◌-ℤ◌, ◌*ℤ◌, div_ℤ, mod_ℤ, ltb_ℤ, eqb_ℤ}
use cpp_graduate.Pcl.{
  Operation, plus, minus, greater, less, greater_eq, less_eq, equal, not_equal, div, mul, modulo,
  negation, conjunction, disjunction, INode, null, value, decl, operand, State, ok, thrown,
  undefined, out_of_fuel, M, ◌>>=◌, pure, fault, int, from_bool, truthy, both,
}

abbrev pub bind : Option ℤ → (ℤ → Option ℤ) → Option ℤ
bind none f = none
bind (some a) f = f a

abbrev pub bind2 : Option ℤ → Option ℤ → (ℤ → ℤ → Option ℤ) → Option ℤ
bind2 x y f = bind x (λ a. bind y (λ b. f a b))

-- An `int` that does not overflow.
abbrev pub in_range : ℤ → Option ℤ
in_range v = if in_int32 v then some v else none

-- What an operation makes of the values of its operands; `alone` where there is no left operand.
abbrev pub combine : Operation → Bool → Option ℤ → Option ℤ → Option ℤ
combine plus alone x y = if alone then y else bind2 x y (λ a b. in_range (a +ℤ b))
combine minus alone x y =
    if alone then bind y (λ b. in_range (pos 0 -ℤ b)) else bind2 x y (λ a b. in_range (a -ℤ b))
combine mul alone x y = bind2 x y (λ a b. in_range (a *ℤ b))
combine div alone x y = bind2 x y (λ a b. if truthy b then in_range (div_ℤ a b) else none)
combine modulo alone x y =
    bind2 x y
      (λ a b. if truthy b then bind (in_range (div_ℤ a b)) (λ _. some (mod_ℤ a b)) else none)
combine greater alone x y = bind2 x y (λ a b. some (from_bool (ltb_ℤ b a)))
combine less alone x y = bind2 x y (λ a b. some (from_bool (ltb_ℤ a b)))
combine greater_eq alone x y = bind2 x y (λ a b. some (if ltb_ℤ a b then pos 0 else pos 1))
combine less_eq alone x y = bind2 x y (λ a b. some (if ltb_ℤ b a then pos 0 else pos 1))
combine equal alone x y = bind2 x y (λ a b. some (from_bool (eqb_ℤ a b)))
combine not_equal alone x y = bind2 x y (λ a b. some (if eqb_ℤ a b then pos 0 else pos 1))
combine negation alone x y = bind y (λ b. some (if truthy b then pos 0 else pos 1))
combine conjunction alone x y =
    bind x (λ a. if truthy a then bind y (λ b. some (from_bool (truthy b))) else some (pos 0))
combine disjunction alone x y =
    bind x (λ a. if truthy a then some (pos 1) else bind y (λ b. some (from_bool (truthy b))))
combine op alone x y = none

abbrev pub is_null : INode → Bool
is_null null = true
is_null n = false

-- The value of an expression that neither assigns, reads nor prints, `none` if it has none.
abbrev pub eval : (ℕ → Option ℤ) → INode → Option ℤ
eval vals (value v) = some v
eval vals (decl d) = vals d
eval vals (operand l op r) = combine op (is_null l) (eval vals l) (eval vals r)
eval vals n = none

abbrev pub height : INode → ℕ
height (operand l op r) = suc (height l + height r)
height n = 0

pub none≢some : {A : Type 0} {v : ℤ} → none ≡ some v → A
none≢some e = absurd cc

pub some-inj : {a b : ℤ} → some a ≡ some b → a ≡ b
some-inj e = cc

module _ (s : State) where
  -- A computation that returns the value without touching the state, where there is one.
  abbrev pub Returns : M → Option ℤ → Type 0
  Returns m x = (v : ℤ) → x ≡ some v → m s ≡ ok v s

  pub Returns-pure : (v : ℤ) → Returns (pure v) (some v)
  Returns-pure v w e = ap (λ z. ok z s) (some-inj e)

  pub Returns-none : (m : M) → Returns m none
  Returns-none m v e = none≢some e

  pub Returns-if :
      (b : Bool) (m k : M) (x y : Option ℤ)
      → Returns m x
      → Returns k y
      → Returns (if b then m else k) (if b then x else y)
  Returns-if true m k x y h g = h
  Returns-if false m k x y h g = g

  pub Returns-int : (v : ℤ) → Returns (int v) (in_range v)
  unfolding int
  Returns-int v =
      Returns-if (in_int32 v) (pure v) fault (some v) none (Returns-pure v) (Returns-none fault)

  pub Returns-bind :
      (m : M) (x : Option ℤ) (g : ℤ → M) (f : ℤ → Option ℤ)
      → Returns m x
      → ((a : ℤ) → Returns (g a) (f a))
      → Returns (m >>= g) (bind x f)
  Returns-bind m none g f h k v e = none≢some e
  Returns-bind m (some a) g f h k v e =
      ap
        (λ r. elim r [
          | ok b t ↦ g b t
          | thrown t ↦ thrown t
          | undefined ↦ undefined
          | out_of_fuel ↦ out_of_fuel
        ])
        (h a refl)
      ∙ k a v e

  if_same : {v : ℤ} {x : Option ℤ} (b : Bool) → x ≡ some v → (if b then x else x) ≡ some v
  if_same true e = e
  if_same false e = e

  pub decl_value :
      {v : ℤ} (x : Option ℤ) → x ≡ some v → elim x [ none ↦ undefined | some w ↦ ok w s ] ≡ ok v s
  decl_value none e = none≢some e
  decl_value (some w) e = ap (λ z. ok z s) (some-inj e)

  if_twice :
      {v : ℤ} (x : Option ℤ) (b : Bool)
      → (if b then x else none) ≡ some v
      → (if b then (if b then x else none) else none) ≡ some v
  if_twice x true e = e
  if_twice x false e = e

  module _ (order : Bool) where
    pub Returns-both :
        (l r : M) (x y : Option ℤ) (g : ℤ → ℤ → M) (f : ℤ → ℤ → Option ℤ)
        → Returns l x
        → Returns r y
        → ((a b : ℤ) → Returns (g a b) (f a b))
        → Returns (both order l r g) (bind2 x y f)
    Returns-both l r none y g f h k j v e = none≢some e
    Returns-both l r (some a) none g f h k j v e = none≢some e
    Returns-both l r (some a) (some b) g f h k j v e =
        Returns-if order (l >>= λ a'. r >>= g a') (r >>= λ b'. l >>= λ a'. g a' b') (f a b) (f a b)
          (Returns-bind l (some a) (λ a'. r >>= g a') (λ a'. f a' b) h
            (λ a'. Returns-bind r (some b) (g a') (f a') k (j a')))
          (Returns-bind r (some b) (λ b'. l >>= λ a'. g a' b') (λ b'. f a b') k
            (λ b'. Returns-bind l (some a) (λ a'. g a' b') (λ a'. f a' b') h (λ a'. j a' b')))
          v (if_same order e)

    pub Returns-quotient :
        (l r : M) (x y : Option ℤ)
        → Returns l x
        → Returns r y
        → Returns
            (both order l r (λ a b. if truthy b then int (div_ℤ a b) else fault))
            (bind2 x y (λ a b. if truthy b then in_range (div_ℤ a b) else none))
    Returns-quotient l r x y h k =
        Returns-both l r x y (λ a b. if truthy b then int (div_ℤ a b) else fault)
          (λ a b. if truthy b then in_range (div_ℤ a b) else none) h k
          (λ a b.
            Returns-if (truthy b) (int (div_ℤ a b)) fault (in_range (div_ℤ a b)) none
              (Returns-int (div_ℤ a b)) (Returns-none fault))

    -- The check of `Div` passes for a divisor that is not zero, and the second run of the divisor
    -- gives the same.
    pub Returns-div :
        (l r : M) (x y : Option ℤ)
        → Returns l x
        → Returns r y
        → Returns
            (r >>= λ v.
              if truthy v
              then both order l r (λ a b. if truthy b then int (div_ℤ a b) else fault)
              else thrown)
            (bind2 x y (λ a b. if truthy b then in_range (div_ℤ a b) else none))
    Returns-div l r none y h k v e = none≢some e
    Returns-div l r (some a) none h k v e = none≢some e
    Returns-div l r (some a) (some b) h k v e =
        Returns-bind r (some b)
          (λ w.
            if truthy w
            then both order l r (λ a b. if truthy b then int (div_ℤ a b) else fault)
            else thrown)
          (λ w. if truthy w then (if truthy b then in_range (div_ℤ a b) else none) else none) k
          (λ w.
            Returns-if (truthy w)
              (both order l r (λ a b. if truthy b then int (div_ℤ a b) else fault)) thrown
              (if truthy b then in_range (div_ℤ a b) else none) none
              (Returns-quotient l r (some a) (some b) h k) (Returns-none thrown))
          v (if_twice (in_range (div_ℤ a b)) (truthy b) e)
