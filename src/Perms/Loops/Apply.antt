-- ===== src/Perms/Loops/Apply.antt =====
-- What `apply` and `inverse` of permloops.hpp do to one element.
use native.Mathlib.Decide.{ℕ_discrete}
use mathlib.Core.List.{append_assoc, reverse-append}
use cpp_graduate.Base.{
  ℕ, ◌≤◌, ◌<◌, ◌≡◌, refl, ap, sym, ◌∙◌, subst, inl, inr, List, [], ◌∷◌, ◌++◌, reverse, false, arith,
  length, elem, All, Bool-cases,
}
use cpp_graduate.Perms.Loops.{PermLoop, front, find, apply_at, apply, inverse, make_loop, contains}
use cpp_graduate.Perms.Loops.Lists.{
  Unique, Unique-snoc, Unique-reverse, Unique-append_right, rotation_rule, elem-append,
  elem-reverse, elem-split, All-reverse, next, next_absent, next_middle, cyclic, cyclic-snoc,
}
use cpp_graduate.Perms.Loops.Canonical.{IsCanonical, Rolled, make_loop-Rolled, Unique-middle}

apply_at-find : (x : ℕ) (all l : List ℕ) → apply_at x all (find x l) ≡ next (front all) x l
unfolding apply_at find next
apply_at-find x all [] = refl
apply_at-find x all (y ∷ []) = ground arith
apply_at-find x all (y ∷ z ∷ l) = ground (arith, apply_at-find x all (z ∷ l))

-- `apply` sends an element of the loop to the next one, the last to the first, and keeps all others.
pub apply-cyclic : (p : PermLoop) (x : ℕ) → apply p x ≡ cyclic p.loop x
unfolding apply
apply-cyclic p x = apply_at-find x p.loop p.loop

-- A constructed loop permutes as the list that it was given, whatever rotation `reroll` chose.
apply-make_loop : (ls : List ℕ) (x : ℕ) → Unique ls → apply (make_loop ls) x ≡ cyclic ls x
unfolding make_loop apply
apply-make_loop [] x u = apply-cyclic (make_loop []) x
apply-make_loop (y ∷ ys) x u =
    apply-cyclic (make_loop (y ∷ ys)) x
    ∙ ap (λ l. cyclic l x) r.rolled
    ∙ (rotation_rule (λ l. Unique l × (cyclic l x ≡ cyclic (r.before ++ r.least ∷ r.after) x))
        (λ z zs (v, e). (Unique-snoc z zs v, cyclic-snoc z x zs v ∙ e)) r.before (r.least ∷ r.after)
        (subst Unique r.split u, refl)).1
    ∙ ap (λ l. cyclic l x) (sym r.split)
  where
    r : Rolled (y ∷ ys) (make_loop (y ∷ ys)).loop
    r = make_loop-Rolled y ys

-- The reversed rest, whatever the size: below three elements it is the loop itself.
pub inverse-cons :
    (x : ℕ) (xs : List ℕ) → inverse (record { loop = x ∷ xs }) ≡ record { loop = x ∷ reverse xs }
unfolding inverse
inverse-cons x [] = refl
inverse-cons x (y ∷ []) = refl
inverse-cons x (y ∷ z ∷ xs) = ground arith

-- The inverse of a canonical loop is canonical, with the same elements.
pub inverse-IsCanonical : (p : PermLoop) → IsCanonical p → IsCanonical (inverse p)
inverse-IsCanonical p h = go p.loop h.nonempty h.unique h.least
  where
    go :
        (l : List ℕ)
        → 0 < length l
        → Unique l
        → All (λ y. front l ≤ y) l
        → IsCanonical (inverse (record { loop = l }))
    go [] n u k = absurd (omega arith)
    go (x ∷ xs) n u k = rw (inverse-cons x xs) (record {
      nonempty = omega arith;
      unique = (elem-reverse x xs ∙ u.0, Unique-reverse xs u.1);
      least = (k.0, All-reverse (λ y. x ≤ y) xs k.1);
    })

pub contains-inverse : (p : PermLoop) (x : ℕ) → contains (inverse p) x ≡ contains p x
contains-inverse p x = go p.loop
  where
    go : (l : List ℕ) → contains (inverse (record { loop = l })) x ≡ elem x l
    go [] = unfold inverse in refl
    go (y ∷ ys) = rw (inverse-cons y ys) (ground (arith, elem-reverse x ys))

-- At the first element, whose successor is the last of the inverse.
inverse_first :
    (x : ℕ) (xs : List ℕ) → Unique (x ∷ xs) → cyclic (x ∷ reverse xs) (cyclic (x ∷ xs) x) ≡ x
inverse_first x [] u = rw (next_middle x x [] [] refl) (next_middle x x [] [] refl)
inverse_first x (z ∷ c) u =
    let here : cyclic (x ∷ z ∷ c) x ≡ z = next_middle x x [] (z ∷ c) refl in
    let out : elem z (x ∷ reverse c) ≡ false = ground (arith, elem-reverse z c) in
    rw (here, reverse-append (z ∷ []) c) (next_middle x z (x ∷ reverse c) [] out)

-- At an element behind the first, by what stands behind it.
inverse_inside :
    (x y : ℕ) (a b : List ℕ)
    → Unique (x ∷ a ++ y ∷ b)
    → cyclic (x ∷ reverse (a ++ y ∷ b)) (cyclic (x ∷ a ++ y ∷ b) y) ≡ y
inverse_inside x y a [] u =
    rw (next_middle x y (x ∷ a) [] (Unique-middle y (x ∷ a) [] u), reverse-append a (y ∷ []))
      (next_middle x x [] (y ∷ reverse a) refl)
inverse_inside x y a (z ∷ c) u =
    let tail : Unique (y ∷ z ∷ c) = Unique-append_right (x ∷ a) (y ∷ z ∷ c) u in
    let out : elem z (x ∷ reverse c) ≡ false =
      ground (arith, elem-reverse z c, elem-append x a (y ∷ z ∷ c)) in
    let e : reverse (a ++ y ∷ z ∷ c) ≡ reverse c ++ z ∷ y ∷ reverse a =
      reverse-append a (y ∷ z ∷ c)
      ∙ ap (λ l. l ++ reverse a) (reverse-append (y ∷ z ∷ []) c)
      ∙ append_assoc (reverse c) (z ∷ y ∷ []) (reverse a) in
    rw (next_middle x y (x ∷ a) (z ∷ c) (Unique-middle y (x ∷ a) (z ∷ c) u), e)
      (next_middle x z (x ∷ reverse c) (y ∷ reverse a) out)

next-inverse :
    (x y : ℕ) (xs : List ℕ) → Unique (x ∷ xs) → cyclic (x ∷ reverse xs) (cyclic (x ∷ xs) y) ≡ y
next-inverse x y xs u = elim (ℕ_discrete x y) [
  | yes e ↦ subst (λ z. cyclic (x ∷ reverse xs) (cyclic (x ∷ xs) z) ≡ z) e (inverse_first x xs u)
  | no n ↦ elim (Bool-cases (elem y xs)) [
    | inl inside ↦
        let (a, b, e, _) = elem-split y xs inside in
        subst (λ l. cyclic (x ∷ reverse l) (cyclic (x ∷ l) y) ≡ y) (sym e)
          (inverse_inside x y a b (subst (λ l. Unique (x ∷ l)) e u))
    | inr outside ↦
        let out : elem y (x ∷ xs) ≡ false = ground arith in
        rw (next_absent x y (x ∷ xs) out)
          (next_absent x y (x ∷ reverse xs) (ground (arith, elem-reverse y xs)))
  ]
]

-- `inverse` undoes the loop: an element that the loop moved is sent back.
pub apply-inverse : (p : PermLoop) (y : ℕ) → Unique p.loop → apply (inverse p) (apply p y) ≡ y
apply-inverse p y u = go p.loop u
  where
    go :
        (l : List ℕ)
        → Unique l
        → apply (inverse (record { loop = l })) (apply (record { loop = l }) y) ≡ y
    go [] u = unfold inverse apply find apply_at in refl
    go (x ∷ xs) u =
        rw (inverse-cons x xs, apply-cyclic (record { loop = x ∷ xs }) y)
          (apply-cyclic (record { loop = x ∷ reverse xs }) (cyclic (x ∷ xs) y)
            ∙ next-inverse x y xs u)
