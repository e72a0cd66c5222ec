-- ===== src/Pcl/Archived/Agree.antt =====
-- Runs of the first interpreter (archive/13-llvm/01-naive) and of the later one (15-llvm/naive-pcl) that go
-- the same way, and the steps that both have.
use Prim.Native.String.{String}
use cpp_graduate.Base.{
  ℕ, ◌≡◌, refl, ap, sym, subst, ◌∙◌, List, [], ◌∷◌, Bool, true, false, Option, none, some,
  if◌then◌else◌,
}
use cpp_graduate.Base.Int.{ℤ, pos, in_int32}
use cpp_graduate.Pcl
use cpp_graduate.Pcl.{
  Operation, plus, minus, assign, greater, less, greater_eq, less_eq, std_out, std_in, equal,
  not_equal, div, mul, modulo, conjunction, disjunction, negation, INode, null, value, decl, scope,
  operand, while_loop, if_then, Branches, no_branch, branch, Result, ok, thrown, undefined,
  out_of_fuel, State, truthy, from_bool,
}
use cpp_graduate.Pcl.Archived.{RunEnd, as_later, exited, M, lift, ◌>>=◌, pure, as_int, operands}

-- The line that the first interpreter prints where the later one throws.
abbrev pub message : String
message = "Division by zero!"

-- A run of the first interpreter and one of the later one end in the same way and in the same state; their
-- values need not agree. Where the later one throws, the first prints its line and exits with status 1.
abbrev pub Same : RunEnd → Result → Type 0
Same (as_later (ok v s)) (ok w t) = s ≡ t
Same (exited line status s) (thrown t) = (line ≡ message) × (status ≡ 1) × (s ≡ t)
Same (as_later undefined) undefined = Unit
Same (as_later out_of_fuel) out_of_fuel = Unit
Same r q = ⊥

-- The run of the first interpreter that is like one of the later, values included.
abbrev pub image : Result → RunEnd
image (ok v s) = as_later (ok v s)
image (thrown s) = exited message 1 s
image undefined = as_later undefined
image out_of_fuel = as_later out_of_fuel

unfoldable pub Agrees : M → Pcl.M → Type 0
Agrees m m' = (s : State) → m s ≡ image (m' s)

Same-image : (r : Result) → Same (image r) r
Same-image (ok v s) = refl
Same-image (thrown s) = (refl, refl, refl)
Same-image undefined = tt
Same-image out_of_fuel = tt

unfoldable pub SameRuns : M → Pcl.M → Type 0
SameRuns m m' = (s : State) → Same (m s) (m' s)

pub Same-Agrees : (m : M) (m' : Pcl.M) → Agrees m m' → SameRuns m m'
unfolding SameRuns Agrees
Same-Agrees m m' e s = subst (λ z. Same z (m' s)) (sym (e s)) (Same-image (m' s))

-- The rest of a run, after its first part.
abbrev after : (ℤ → M) → RunEnd → RunEnd
after f (as_later (ok v t)) = f v t
after f (as_later (thrown t)) = as_later (thrown t)
after f (as_later undefined) = as_later undefined
after f (as_later out_of_fuel) = as_later out_of_fuel
after f (exited line status t) = exited line status t

abbrev after_later : (ℤ → Pcl.M) → Result → Result
after_later f (ok v t) = f v t
after_later f (thrown t) = thrown t
after_later f undefined = undefined
after_later f out_of_fuel = out_of_fuel

bind_after : (m : M) (f : ℤ → M) (s : State) → (m >>= f) s ≡ after f (m s)
bind_after m f s = go (m s)
  where
    go :
        (r : RunEnd)
        → (elim r [
          | as_later q ↦ elim q [
            | ok v s' ↦ f v s'
            | thrown s' ↦ as_later (thrown s')
            | undefined ↦ as_later undefined
            | out_of_fuel ↦ as_later out_of_fuel
          ]
          | exited line status s' ↦ exited line status s'
        ])
          ≡ after f r
    go (as_later (ok v t)) = refl
    go (as_later (thrown t)) = refl
    go (as_later undefined) = refl
    go (as_later out_of_fuel) = refl
    go (exited line status t) = refl

bind_after_later : (m : Pcl.M) (f : ℤ → Pcl.M) (s : State) → Pcl.◌>>=◌ m f s ≡ after_later f (m s)
bind_after_later m f s = go (m s)
  where
    go :
        (r : Result)
        → (elim r [
          | ok v s' ↦ f v s'
          | thrown s' ↦ thrown s'
          | undefined ↦ undefined
          | out_of_fuel ↦ out_of_fuel
        ])
          ≡ after_later f r
    go (ok v t) = refl
    go (thrown t) = refl
    go undefined = refl
    go out_of_fuel = refl

pub Same-bind :
    (m : M) (m' : Pcl.M) (f : ℤ → M) (g : ℤ → Pcl.M)
    → SameRuns m m'
    → ((v w : ℤ) → SameRuns (f v) (g w))
    → SameRuns (m >>= f) (Pcl.◌>>=◌ m' g)
unfolding SameRuns
Same-bind m m' f g h k s =
    subst (λ z. Same z (Pcl.◌>>=◌ m' g s)) (sym (bind_after m f s))
      (subst (Same (after f (m s))) (sym (bind_after_later m' g s)) (go (m s) (m' s) (h s)))
  where
    go : (r : RunEnd) (q : Result) → Same r q → Same (after f r) (after_later g q)
    go (as_later (ok v t)) (ok w u) e = subst (λ z. Same (f v t) (g w z)) e (k v w t)
    go (exited line status t) (thrown u) e = e
    go (as_later undefined) undefined e = tt
    go (as_later out_of_fuel) out_of_fuel e = tt
    go _ _ e = absurd e

pub agree_bind :
    (m : M) (m' : Pcl.M) (f : ℤ → M) (g : ℤ → Pcl.M)
    → Agrees m m'
    → ((v : ℤ) → Agrees (f v) (g v))
    → Agrees (m >>= f) (Pcl.◌>>=◌ m' g)
unfolding Agrees
agree_bind m m' f g h k s =
    bind_after m f s ∙ ap (after f) (h s) ∙ go (m' s) ∙ ap image (sym (bind_after_later m' g s))
  where
    go : (r : Result) → after f (image r) ≡ image (after_later g r)
    go (ok v t) = k v t
    go (thrown t) = refl
    go undefined = refl
    go out_of_fuel = refl

-- After a test with the same value the runs may differ in theirs.
pub Same-test :
    (m : M) (m' : Pcl.M) (f : ℤ → M) (g : ℤ → Pcl.M)
    → Agrees m m'
    → ((v : ℤ) → SameRuns (f v) (g v))
    → SameRuns (m >>= f) (Pcl.◌>>=◌ m' g)
unfolding SameRuns Agrees
Same-test m m' f g h k s =
    subst (λ z. Same z (Pcl.◌>>=◌ m' g s)) (sym (bind_after m f s ∙ ap (after f) (h s)))
      (subst (Same (after f (image (m' s)))) (sym (bind_after_later m' g s)) (go (m' s)))
  where
    go : (r : Result) → Same (after f (image r)) (after_later g r)
    go (ok v t) = k v t
    go (thrown t) = (refl, refl, refl)
    go undefined = tt
    go out_of_fuel = tt

pub Same-if :
    (b : Bool) (m k : M) (m' k' : Pcl.M)
    → SameRuns m m'
    → SameRuns k k'
    → SameRuns (if b then m else k) (if b then m' else k')
Same-if true m k m' k' h j = h
Same-if false m k m' k' h j = j

pub agree_if :
    (b : Bool) (m k : M) (m' k' : Pcl.M)
    → Agrees m m'
    → Agrees k k'
    → Agrees (if b then m else k) (if b then m' else k')
agree_if true m k m' k' h j = h
agree_if false m k m' k' h j = j

pub agree_pure : (v : ℤ) → Agrees (pure v) (Pcl.pure v)
unfolding Agrees
agree_pure v s = refl

pub agree_int : (v : ℤ) → Agrees (as_int v) (Pcl.int v)
unfolding Agrees as_int Pcl.int
agree_int v s = go (in_int32 v)
  where
    go :
        (b : Bool)
        → as_later ((if b then Pcl.pure v else Pcl.fault) s)
          ≡ image ((if b then Pcl.pure v else Pcl.fault) s)
    go true = refl
    go false = refl

pub agree_set_value : (d : ℕ) (v : ℤ) → Agrees (lift (Pcl.set_value d v)) (Pcl.set_value d v)
unfolding Agrees Pcl.set_value
agree_set_value d v s = refl

pub agree_scan : Agrees (lift Pcl.scan) Pcl.scan
unfolding Agrees Pcl.scan
agree_scan s = go s.input
  where
    step : List ℤ → Result
    step l = elim l [
      | [] ↦ ok (pos 0) s
      | v ∷ rest ↦ ok (Pcl.nearest_int v) (record s { input = if in_int32 v then rest else [] })
    ]

    go : (l : List ℤ) → as_later (step l) ≡ image (step l)
    go [] = refl
    go (v ∷ rest) = refl

pub agree_read_decl : (d : ℕ) → Agrees (lift (Pcl.read_decl d)) (Pcl.read_decl d)
unfolding Agrees Pcl.read_decl
agree_read_decl d s = go (s.vals d)
  where
    step : Option ℤ → Result
    step o = elim o [ none ↦ undefined | some v ↦ ok v s ]

    go : (o : Option ℤ) → as_later (step o) ≡ image (step o)
    go none = refl
    go (some v) = refl

module _ (order : Bool) where
  pub agree_operands :
      (l r : M) (l' r' : Pcl.M) (f : ℤ → ℤ → M) (g : ℤ → ℤ → Pcl.M)
      → Agrees l l'
      → Agrees r r'
      → ((a b : ℤ) → Agrees (f a b) (g a b))
      → Agrees (operands order l r f) (Pcl.both order l' r' g)
  agree_operands l r l' r' f g h k j =
      agree_if order _ _ _ _ (agree_bind l l' _ _ h (λ a. agree_bind r r' _ _ k (λ b. j a b)))
        (agree_bind r r' _ _ k (λ b. agree_bind l l' _ _ h (λ a. j a b)))

  module _ (c : INode → M) (c' : INode → Pcl.M) (l r : INode) (h : Agrees (c l) (c' l))
      (k : Agrees (c r) (c' r)) where
    pub agree_test :
        (f : ℤ → ℤ → ℤ)
        → Agrees
            (operands order (c l) (c r) (λ a b. pure (f a b)))
            (Pcl.both order (c' l) (c' r) (λ a b. Pcl.pure (f a b)))
    agree_test f = agree_operands (c l) (c r) (c' l) (c' r) _ _ h k (λ a b. agree_pure (f a b))

    pub agree_arith :
        (f : ℤ → ℤ → ℤ)
        → Agrees
            (operands order (c l) (c r) (λ a b. as_int (f a b)))
            (Pcl.both order (c' l) (c' r) (λ a b. Pcl.int (f a b)))
    agree_arith f = agree_operands (c l) (c r) (c' l) (c' r) _ _ h k (λ a b. agree_int (f a b))

    pub agree_truth :
        Agrees
          (c r >>= λ b. pure (from_bool (truthy b)))
          (Pcl.◌>>=◌ (c' r) (λ b. Pcl.pure (from_bool (truthy b))))
    agree_truth = agree_bind (c r) (c' r) _ _ k (λ b. agree_pure (from_bool (truthy b)))
