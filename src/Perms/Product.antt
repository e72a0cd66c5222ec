-- ===== src/Perms/Product.antt =====
-- Loops one after the other, as `Permutation` of perms.hpp applies its vector `loops_`, and loops
-- without a common element.
use cpp_graduate.Base.{
  ℕ, ◌≡◌, refl, sym, ◌∙◌, List, [], ◌∷◌, ◌++◌, Bool, true, false, ◌||◌, arith, elem, All,
  Bool-cases, ◌⊎◌, inl, inr,
}
use cpp_graduate.Perms.Idom.{InDomain}
use cpp_graduate.Perms.Loops.{PermLoop, front, apply, contains}
use cpp_graduate.Perms.Loops.Lists.{next, next_absent}
use cpp_graduate.Perms.Loops.Canonical.{IsCanonical}
use cpp_graduate.Perms.Loops.Apply.{apply-cyclic}

-- The loop of `Permutation::apply(T elem)`.
unfoldable pub apply_loops : List PermLoop → ℕ → ℕ
apply_loops [] x = x
apply_loops (p ∷ ls) x = apply_loops ls (apply p x)

-- The `find_if` of `Permutation::contains`.
unfoldable pub covered : List PermLoop → ℕ → Bool
covered [] x = false
covered (p ∷ ls) x = contains p x || covered ls x

pub covered-nil : (v : ℕ) → covered [] v ≡ false
unfolding covered
covered-nil v = refl

abbrev pub Apart : PermLoop → PermLoop → Type 0
Apart p q = (v : ℕ) → contains p v ≡ true → contains q v ≡ false

abbrev pub Disjoint : List PermLoop → Type 0
Disjoint [] = Unit
Disjoint (p ∷ ls) = All (Apart p) ls × Disjoint ls

-- A canonical loop of elements of the domain.
pub record IsLoop (start fin : ℕ) (p : PermLoop) : Type 0 where
  pub canonical : IsCanonical p
  pub domain : All (InDomain start fin) p.loop

pub apply_absent : (p : PermLoop) (v : ℕ) → contains p v ≡ false → apply p v ≡ v
apply_absent p v h = apply-cyclic p v ∙ next_absent (front p.loop) v p.loop h

next-elem :
    (d v : ℕ) (l : List ℕ) → elem v l ≡ true → (elem (next d v l) l ≡ true) ⊎ (next d v l ≡ d)
unfolding next
next-elem d v [] h = ground arith
next-elem d v (c ∷ []) h = ground arith
next-elem d v (c ∷ z ∷ l) h = ground (arith, next-elem d v (z ∷ l))

elem-front : (v : ℕ) (l : List ℕ) → elem v l ≡ true → elem (front l) l ≡ true
elem-front v [] h = h
elem-front v (c ∷ l) h = ground arith

-- A loop permutes its own elements.
pub contains-apply : (p : PermLoop) (v : ℕ) → contains p v ≡ true → contains p (apply p v) ≡ true
contains-apply p v h = rw (apply-cyclic p v) (elim (next-elem (front p.loop) v p.loop h) [
  | inl i ↦ i
  | inr e ↦ rw e (elem-front v p.loop h)
])

pub Apart-sym : (p q : PermLoop) → Apart p q → Apart q p
Apart-sym p q h v i = elim (Bool-cases (contains p v)) [ inl j ↦ cc (h v j) | inr j ↦ j ]

-- Loops without a common element commute.
pub apply_comm : (p q : PermLoop) (v : ℕ) → Apart p q → apply q (apply p v) ≡ apply p (apply q v)
apply_comm p q v h = elim (Bool-cases (contains p v)) [
  | inl i ↦
      rw (apply_absent q v (h v i))
        (apply_absent q (apply p v) (h (apply p v) (contains-apply p v i)))
  | inr i ↦ rw (apply_absent p v i) (elim (Bool-cases (contains q v)) [
    | inl j ↦ sym (apply_absent p (apply q v) (Apart-sym p q h (apply q v) (contains-apply q v j)))
    | inr j ↦ rw (apply_absent q v j) (sym (apply_absent p v i))
  ])
]

pub apply_loops-append :
    (xs ys : List PermLoop) (v : ℕ) → apply_loops (xs ++ ys) v ≡ apply_loops ys (apply_loops xs v)
unfolding apply_loops
apply_loops-append [] ys v = refl
apply_loops-append (p ∷ xs) ys v = apply_loops-append xs ys (apply p v)

pub covered-append :
    (xs ys : List PermLoop) (v : ℕ) → covered (xs ++ ys) v ≡ (covered xs v || covered ys v)
unfolding covered
covered-append [] ys v = refl
covered-append (p ∷ xs) ys v = ground (arith, covered-append xs ys v)

pub apply_loops_absent : (ls : List PermLoop) (v : ℕ) → covered ls v ≡ false → apply_loops ls v ≡ v
unfolding apply_loops covered
apply_loops_absent [] v h = refl
apply_loops_absent (p ∷ ls) v h =
    let out : contains p v ≡ false = ground arith in
    rw (apply_absent p v out) (apply_loops_absent ls v (ground arith))

-- A loop apart from all others commutes with their product.
pub apply_loops_comm :
    (p : PermLoop) (ls : List PermLoop) (v : ℕ)
    → All (Apart p) ls
    → apply_loops ls (apply p v) ≡ apply p (apply_loops ls v)
unfolding apply_loops
apply_loops_comm p [] v h = refl
apply_loops_comm p (q ∷ ls) v h = rw (apply_comm p q v h.0) (apply_loops_comm p ls (apply q v) h.1)

pub All-snoc {ℓ} :
    (P : PermLoop → Type ℓ) (ls : List PermLoop) (p : PermLoop)
    → All P ls
    → P p
    → All P (ls ++ p ∷ [])
All-snoc P [] p h k = (k, tt)
All-snoc P (q ∷ ls) p h k = (h.0, All-snoc P ls p h.1 k)

pub Disjoint-snoc :
    (ls : List PermLoop) (p : PermLoop)
    → Disjoint ls
    → All (λ q. Apart q p) ls
    → Disjoint (ls ++ p ∷ [])
Disjoint-snoc [] p h k = (tt, tt)
Disjoint-snoc (q ∷ ls) p h k = (All-snoc (Apart q) ls p h.0 k.0, Disjoint-snoc ls p h.1 k.1)

pub covered-All {ℓ} :
    (P : PermLoop → Type ℓ) (start fin : ℕ) (ls : List PermLoop)
    → ((q : PermLoop)
        → IsLoop start fin q
        → ((v : ℕ) → contains q v ≡ true → covered ls v ≡ true)
        → P q)
    → All (IsLoop start fin) ls
    → All P ls
unfolding covered
covered-All P start fin [] f h = tt
covered-All P start fin (p ∷ ls) f h = (
  f p h.0 (λ v i. ground arith),
  covered-All P start fin ls (λ q l k. f q l (λ v i. ground (arith, k v i))) h.1,
)
