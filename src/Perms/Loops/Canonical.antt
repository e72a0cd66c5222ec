-- ===== src/Perms/Loops/Canonical.antt =====
-- The normal form of a cycle: `reroll`, the constructors, `add` and `check` (permloops.hpp).
use mathlib.Core.List.{append-nil, append_assoc}
use cpp_graduate.Base.{
  ℕ, zero, suc, ◌≤◌, ◌<◌, ◌≡◌, refl, ap, sym, ◌∙◌, subst, inl, inr, List, [], ◌∷◌, ◌++◌, true,
  false, arith, length, get_or, take, drop, elem, All, Bool-cases, ltb, take-append-drop,
}
use cpp_graduate.Perms.Loops.{PermLoop, front, min_index, make_loop}
use cpp_graduate.Perms.Loops.Lists.{Unique, elem-append, All-append, All-elem}

-- The main assumptions that permloops.hpp lists: non-empty, different elements, the smallest first.
pub record IsCanonical (p : PermLoop) : Type 0 where
  pub nonempty : 0 < length p.loop
  pub unique : Unique p.loop
  pub least : All (λ y. front p.loop ≤ y) p.loop

drop-cons :
    (l : List ℕ) (i y : ℕ) (ys : List ℕ)
    → drop i l ≡ y ∷ ys
    → (get_or l i 0 ≡ y) × (drop (suc i) l ≡ ys) × (i < length l)
drop-cons [] zero y ys h = cc
drop-cons [] (suc i) y ys h = cc
drop-cons (x ∷ l) zero y ys h = (cc, cc, omega arith)
drop-cons (x ∷ l) (suc i) y ys h = let (p, q, r) = drop-cons l i y ys h in (p, q, omega arith)

-- `std::min_element` ends at an index of the list whose element no element is below.
pub min_index_lem :
    (l : List ℕ) (m mi i r : ℕ) (ys : List ℕ)
    → drop i l ≡ ys
    → mi < length l
    → get_or l mi 0 ≡ m
    → min_index m mi i ys ≡ r
    → (r < length l) × (get_or l r 0 ≤ m) × All (λ y. get_or l r 0 ≤ y) ys
unfolding min_index
min_index_lem l m mi i r [] d k e f = (ground arith, ground arith, tt)
min_index_lem l m mi i r (y ∷ ys) d k e f =
    let (at_i, rest, inside) = drop-cons l i y ys d in
    elim (Bool-cases (ltb y m)) [
      | inl below ↦
          let (a, b, c) = min_index_lem l y i (suc i) r ys rest inside at_i (rw below at f) in
          (a, ground arith, (b, c))
      | inr above ↦
          let (a, b, c) = min_index_lem l m mi (suc i) r ys rest k e (rw above at f) in
          (a, b, (ground arith, c))
    ]

-- A list at its least element: `r` is `l` rotated so that this comes first.
pub record Rolled (l r : List ℕ) : Type 0 where
  pub before : List ℕ
  pub least : ℕ
  pub after : List ℕ
  pub split : l ≡ before ++ least ∷ after
  pub rolled : r ≡ (least ∷ after) ++ before
  pub minimal : All (λ y. least ≤ y) l

drop-get_or : (l : List ℕ) (i : ℕ) → i < length l → drop i l ≡ get_or l i 0 ∷ drop (suc i) l
drop-get_or [] i h = absurd (omega arith)
drop-get_or (x ∷ l) zero h = refl
drop-get_or (x ∷ l) (suc i) h = drop-get_or l i (omega arith)

-- A non-empty vector is rerolled to its rotation that begins with a least element.
pub make_loop-Rolled : (x : ℕ) (xs : List ℕ) → Rolled (x ∷ xs) (make_loop (x ∷ xs)).loop
unfolding make_loop
make_loop-Rolled x xs =
    let i = min_index x 0 1 xs in
    let (inside, le_x, le_xs) = min_index_lem (x ∷ xs) x 0 1 i xs refl (omega arith) refl refl in
    let d = drop-get_or (x ∷ xs) i inside in
    record {
      before = take i (x ∷ xs);
      least = get_or (x ∷ xs) i 0;
      after = drop (suc i) (x ∷ xs);
      split = rw (← d) (sym (take-append-drop i (x ∷ xs)));
      rolled = ap (λ z. z ++ take i (x ∷ xs)) d;
      minimal = (le_x, le_xs);
    }

pub Unique-middle : (m : ℕ) (u v : List ℕ) → Unique (u ++ m ∷ v) → elem m u ≡ false
Unique-middle m [] v h = refl
Unique-middle m (x ∷ u) v h = ground (arith, elem-append x u (m ∷ v), Unique-middle m u v)

split_unique :
    (m : ℕ) (u u' v v' : List ℕ)
    → elem m u ≡ false
    → elem m u' ≡ false
    → u ++ m ∷ v ≡ u' ++ m ∷ v'
    → (u ≡ u') × (v ≡ v')
split_unique m [] [] v v' h h' e = (refl, cc)
split_unique m [] (x ∷ u') v v' h h' e = ground arith
split_unique m (x ∷ u) [] v v' h h' e = ground arith
split_unique m (x ∷ u) (x' ∷ u') v v' h h' e =
    let (p, q) = split_unique m u u' v v' (ground arith) (ground arith) (cc) in (cc, q)

-- A list of different elements has one such rotation.
pub Rolled-eq_of_Unique : (l r r' : List ℕ) → Unique l → Rolled l r → Rolled l r' → r ≡ r'
Rolled-eq_of_Unique l r r' h p q =
    let in_p : elem q.least l ≡ true =
      rw q.split (ground (arith, elem-append q.least q.before (q.least ∷ q.after))) in
    let in_q : elem p.least l ≡ true =
      rw p.split (ground (arith, elem-append p.least p.before (p.least ∷ p.after))) in
    let le : p.least ≤ q.least = All-elem (λ y. p.least ≤ y) q.least l p.minimal in_p in
    let ge : q.least ≤ p.least = All-elem (λ y. q.least ≤ y) p.least l q.minimal in_q in
    let e : q.least ≡ p.least = omega arith in
    let sp = Unique-middle p.least p.before p.after (subst Unique p.split h) in
    let sq = Unique-middle q.least q.before q.after (subst Unique q.split h) in
    let (b, a) =
      split_unique p.least p.before q.before p.after q.after sp (rw (← e) sq)
        (sym p.split ∙ q.split ∙ ap (λ z. q.before ++ z ∷ q.after) e) in
    p.rolled ∙ rw (b, a, ← e) refl ∙ sym q.rolled

pub Rolled-snoc : (x : ℕ) (xs r : List ℕ) → Rolled (x ∷ xs) r → Rolled (xs ++ x ∷ []) r
Rolled-snoc x xs r p = go p.before p.split p.rolled
  where
    all : All (λ y. p.least ≤ y) (xs ++ x ∷ [])
    all = All-append (λ y. p.least ≤ y) xs (x ∷ []) p.minimal.1 (p.minimal.0, tt)

    go :
        (b : List ℕ)
        → x ∷ xs ≡ b ++ p.least ∷ p.after
        → r ≡ (p.least ∷ p.after) ++ b
        → Rolled (xs ++ x ∷ []) r
    go [] e f = record {
      before = xs;
      least = p.least;
      after = [];
      split = cc;
      rolled = f ∙ append-nil (p.least ∷ p.after) ∙ (cc);
      minimal = all;
    }
    go (b ∷ bs) e f = record {
      before = bs;
      least = p.least;
      after = p.after ++ x ∷ [];
      split =
          let e' : xs ≡ bs ++ p.least ∷ p.after = cc in
          ap (λ z. z ++ x ∷ []) e' ∙ append_assoc bs (p.least ∷ p.after) (x ∷ []);
      rolled =
          let e' : b ≡ x = cc in
          f
          ∙ ap (λ z. p.least ∷ p.after ++ z ∷ bs) e'
          ∙ sym (append_assoc (p.least ∷ p.after) (x ∷ []) bs);
      minimal = all;
    }
