-- ===== src/Perms/Loops/Normal.antt =====
-- What the constructors, `add` and `check` of permloops.hpp promise of the normal form.
use cpp_graduate.Base.{
  ℕ, ◌≤◌, ◌<◌, ◌≡◌, refl, ap, sym, ◌∙◌, subst, ◌↔◌, inl, inr, List, [], ◌∷◌, ◌++◌, false, arith,
  length, get_or, elem, All, Bool-cases, length-append,
}
use cpp_graduate.Perms.Loops.{
  PermLoop, front, min_index, make_loop, add, contains, check, valid, uniqs,
}
use cpp_graduate.Perms.Loops.Lists.{
  Unique, Unique-snoc, rotation_rule, All-append, All-split, All-get_or,
}
use cpp_graduate.Perms.Loops.Canonical.{
  IsCanonical, Rolled, Rolled-eq_of_Unique, Rolled-snoc, make_loop-Rolled, min_index_lem,
}

PermLoop-eq : (p q : PermLoop) → p.loop ≡ q.loop → p ≡ q
PermLoop-eq p q e = ap (λ l. record { loop = l }) e

make_loop-Rolled_of : (l : List ℕ) → 0 < length l → Rolled l (make_loop l).loop
make_loop-Rolled_of [] h = absurd (omega arith)
make_loop-Rolled_of (x ∷ xs) h = make_loop-Rolled x xs

Rolled-IsCanonical : (l : List ℕ) (p : PermLoop) → Unique l → Rolled l p.loop → IsCanonical p
Rolled-IsCanonical l p u h = record {
  nonempty = rw h.rolled (omega arith);
  unique =
      rw h.rolled
        (rotation_rule Unique Unique-snoc h.before (h.least ∷ h.after) (subst Unique h.split u));
  least =
      let P : ℕ → Type 0 = λ y. h.least ≤ y in
      let (a, b) = All-split P h.before (h.least ∷ h.after) (subst (All P) h.split h.minimal) in
      rw h.rolled (All-append P (h.least ∷ h.after) h.before b a);
}

-- A loop constructed from a non-empty range of different elements is canonical.
make_loop-IsCanonical : (ls : List ℕ) → 0 < length ls → Unique ls → IsCanonical (make_loop ls)
make_loop-IsCanonical ls h u = Rolled-IsCanonical ls (make_loop ls) u (make_loop-Rolled_of ls h)

-- The loops (a c d), (d a c) and (c d a) are one: a list of different elements and each of its
-- rotations construct the same loop.
pub make_loop-rotation : (a b : List ℕ) → Unique (a ++ b) → make_loop (a ++ b) ≡ make_loop (b ++ a)
make_loop-rotation a b u =
    (rotation_rule (λ l. Unique l × (make_loop (a ++ b) ≡ make_loop l)) step a b (u, refl)).1
  where
    step :
        (x : ℕ) (xs : List ℕ)
        → Unique (x ∷ xs) × (make_loop (a ++ b) ≡ make_loop (x ∷ xs))
        → Unique (xs ++ x ∷ []) × (make_loop (a ++ b) ≡ make_loop (xs ++ x ∷ []))
    step x xs (v, e) =
        let w = Unique-snoc x xs v in
        let n : 0 < length (xs ++ x ∷ []) = omega (arith, length-append xs (x ∷ [])) in
        (
          w,
          e
              ∙ PermLoop-eq (make_loop (x ∷ xs)) (make_loop (xs ++ x ∷ [])) (
                  Rolled-eq_of_Unique (xs ++ x ∷ []) _ _ w
                    (Rolled-snoc x xs _ (make_loop-Rolled x xs)) (make_loop-Rolled_of _ n)),
        )

-- A canonical loop is rerolled to itself.
pub make_loop_fixed : (p : PermLoop) → IsCanonical p → make_loop p.loop ≡ p
make_loop_fixed p h = PermLoop-eq (make_loop p.loop) p (
    Rolled-eq_of_Unique p.loop _ _ h.unique (make_loop-Rolled_of p.loop h.nonempty)
      (self p.loop h.nonempty h.least))
  where
    self : (l : List ℕ) → 0 < length l → All (λ y. front l ≤ y) l → Rolled l l
    self [] n k = absurd (omega arith)
    self (x ∷ xs) n k = record {
      before = [];
      least = x;
      after = xs;
      split = refl;
      rolled = sym (mathlib.Core.List.append-nil (x ∷ xs));
      minimal = k;
    }

pub add-make_loop : (p : PermLoop) (x : ℕ) → add p x ≡ make_loop (p.loop ++ x ∷ [])
unfolding add make_loop
add-make_loop p x = refl

-- `add` keeps the loop canonical if the element is new.
pub add-IsCanonical :
    (p : PermLoop) (x : ℕ) → IsCanonical p → contains p x ≡ false → IsCanonical (add p x)
add-IsCanonical p x h new = rw (add-make_loop p x) (
    make_loop-IsCanonical (p.loop ++ x ∷ []) (omega (arith, length-append p.loop (x ∷ [])))
      (Unique-snoc x p.loop (new, h.unique)))

-- An element above the first is added at the end.
pub add-above :
    (p : PermLoop) (x : ℕ)
    → IsCanonical p
    → contains p x ≡ false
    → front p.loop ≤ x
    → add p x ≡ record { loop = p.loop ++ x ∷ [] }
add-above p x h new above =
    add-make_loop p x
    ∙ make_loop_fixed (record { loop = p.loop ++ x ∷ [] })
        (record {
          nonempty = omega (arith, length-append p.loop (x ∷ []));
          unique = Unique-snoc x p.loop (new, h.unique);
          least = go p.loop h.nonempty h.least above;
        })
  where
    go :
        (l : List ℕ)
        → 0 < length l
        → All (λ y. front l ≤ y) l
        → front l ≤ x
        → All (λ y. front (l ++ x ∷ []) ≤ y) (l ++ x ∷ [])
    go [] n k a = absurd (omega arith)
    go (z ∷ l) n k a = All-append (λ y. z ≤ y) (z ∷ l) (x ∷ []) k (a, tt)

elem-uniqs : (x : ℕ) (l : List ℕ) → elem x (uniqs l) ≡ elem x l
unfolding uniqs
elem-uniqs x [] = refl
elem-uniqs x (y ∷ l) = elim (Bool-cases (elem y (uniqs l))) [
  | inl old ↦ ground (arith, elem-uniqs x l, elem-uniqs y l)
  | inr new ↦ ground (arith, elem-uniqs x l, elem-uniqs y l)
]

length-uniqs-le : (l : List ℕ) → length (uniqs l) ≤ length l
unfolding uniqs
length-uniqs-le [] = omega arith
length-uniqs-le (y ∷ l) = ground (arith, length-uniqs-le l)

-- The set of the elements is as large as the loop exactly when no element is repeated.
length-uniqs_iff : (l : List ℕ) → (length (uniqs l) ≡ length l) ↔ Unique l
unfolding uniqs
length-uniqs_iff [] = (λ _. tt, λ _. refl)
length-uniqs_iff (y ∷ l) = ground (arith, length-uniqs_iff l, length-uniqs-le l, elem-uniqs y l)

min-eq_iff :
    (x : ℕ) (xs : List ℕ) → (get_or (x ∷ xs) (min_index x 0 1 xs) 0 ≡ x) ↔ All (λ y. x ≤ y) (x ∷ xs)
min-eq_iff x xs =
    let (inside, le_x, le_xs) = min_index_lem (x ∷ xs) x 0 1 _ xs refl (omega arith) refl refl in
    (
      λ e. subst (λ m. All (λ y. m ≤ y) (x ∷ xs)) e (le_x, le_xs),
      λ h.
          let i = min_index x 0 1 xs in
          let low : x ≤ get_or (x ∷ xs) i 0 = All-get_or (λ y. x ≤ y) (x ∷ xs) i h inside in
          omega arith,
    )

-- The two tests of `check` on a non-empty loop.
check_valid :
    (x : ℕ) (xs : List ℕ)
    → check (record { loop = x ∷ xs }) ≡ valid
    → (length (uniqs (x ∷ xs)) ≡ length (x ∷ xs)) × (get_or (x ∷ xs) (min_index x 0 1 xs) 0 ≡ x)
unfolding check
check_valid x xs e = ground arith

check_of_valid :
    (x : ℕ) (xs : List ℕ)
    → length (uniqs (x ∷ xs)) ≡ length (x ∷ xs)
    → get_or (x ∷ xs) (min_index x 0 1 xs) 0 ≡ x
    → check (record { loop = x ∷ xs }) ≡ valid
unfolding check
check_of_valid x xs e f = ground arith

-- `check` accepts exactly the canonical loops.
pub check-valid_iff : (p : PermLoop) → (check p ≡ valid) ↔ IsCanonical p
check-valid_iff p = go p.loop
  where
    go : (l : List ℕ) → (check (record { loop = l }) ≡ valid) ↔ IsCanonical (record { loop = l })
    go [] = (λ e. absurd (unfold check in cc), λ h. absurd (omega (arith, h.nonempty)))
    go (x ∷ xs) =
        let (a, b) = length-uniqs_iff (x ∷ xs) in
        let (c, d) = min-eq_iff x xs in
        (
          λ e. record {
            nonempty = omega arith;
            unique = a (check_valid x xs e).0;
            least = c (check_valid x xs e).1;
          },
          λ h. check_of_valid x xs (b h.unique) (d h.least),
        )
