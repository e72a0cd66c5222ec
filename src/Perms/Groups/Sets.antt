-- ===== src/Perms/Groups/Sets.antt =====
-- Membership in the sets of 17-algorithms/permutations/groups.hpp.
use cpp_graduate.Base.{
  ℕ, zero, suc, ◌+◌, ◌<◌, ◌≤◌, ◌≡◌, refl, ap, sym, ◌∙◌, ◌⊎◌, inl, inr, List, [], ◌∷◌, Bool, true,
  false, ◌||◌, elem, if◌then◌else◌, ◌==◌, Bool-cases, arith, ==_iff,
}
use mathlib.Core.List.{Memᴰ}
use mathlib.Core.List
use cpp_graduate.Perms.Permutation.{Permutation, apply}
use cpp_graduate.Perms.Groups.{insert, insert_all, try_gens, expand}

pub elem-insert : (s : List ℕ) (x y : ℕ) → elem y (insert s x) ≡ (x == y || elem y s)
unfolding insert
elem-insert s x y = elim (Bool-cases (elem x s)) [
  | inr e ↦ rw (e, if◌then◌else◌) refl
  | inl e ↦
      rw (e, if◌then◌else◌)
        (elim (Bool-cases (x == y)) [
          | inl f ↦ let m = ap (λ z. elem z s) (sym ((==_iff x y).0 f)) ∙ e in rw (f, m) refl
          | inr f ↦ rw f refl
        ])
]

or_swap : (a b c : Bool) → (a || (b || c)) ≡ ((b || a) || c)
or_swap true true c = refl
or_swap true false c = refl
or_swap false true c = refl
or_swap false false c = refl

pub elem-insert_all : (s xs : List ℕ) (y : ℕ) → elem y (insert_all s xs) ≡ (elem y xs || elem y s)
unfolding insert_all
elem-insert_all s [] y = refl
elem-insert_all s (x ∷ xs) y =
    elem-insert_all (insert s x) xs y
    ∙ ap (λ b. elem y xs || b) (elem-insert s x y)
    ∙ or_swap (elem y xs) (x == y) (elem y s)

-- How many numbers below the bound are not in the set.
abbrev pub missing : ℕ → List ℕ → ℕ
missing zero s = 0
missing (suc n) s = (if elem n s then 0 else 1) + missing n s

pub missing-nil : (n : ℕ) → missing n [] ≡ n
missing-nil zero = refl
missing-nil (suc n) = let rest = missing-nil n in omega arith

missing_le :
    (n : ℕ) (s t : List ℕ)
    → ((y : ℕ) → elem y s ≡ true → elem y t ≡ true)
    → missing n t ≤ missing n s
missing_le zero s t h = omega arith
missing_le (suc n) s t h =
    let below = missing_le n s t h in
    elim (Bool-cases (elem n s)) [
      | inl e ↦ rw (e, h n e, if◌then◌else◌) (omega arith)
      | inr e ↦ rw e (ground arith)
    ]

smaller : (x n : ℕ) → x < suc n → (x == n) ≡ false → x < n
smaller x n lt q = ground arith

pub missing_lt :
    (n : ℕ) (s t : List ℕ) (x : ℕ)
    → ((y : ℕ) → elem y s ≡ true → elem y t ≡ true)
    → x < n
    → elem x s ≡ false
    → elem x t ≡ true
    → missing n t < missing n s
missing_lt zero s t x h lt e f = absurd (omega arith)
missing_lt (suc n) s t x h lt e f = elim (Bool-cases (x == n)) [
  | inl q ↦
      let same = (==_iff x n).0 q in
      let e' = ap (λ z. elem z s) (sym same) ∙ e in
      let f' = ap (λ z. elem z t) (sym same) ∙ f in
      let below = missing_le n s t h in rw (e', f', if◌then◌else◌) (omega arith)
  | inr q ↦
      let below = missing_lt n s t x h (smaller x n lt q) e f in
      elim (Bool-cases (elem n s)) [
        | inl g ↦ rw (g, h n g, if◌then◌else◌) (omega arith)
        | inr g ↦ rw g (ground arith)
      ]
]

-- What is put into the set of a round comes from an element of the last round and a generator, is not
-- among the elements seen, and nothing else that was in the set is lost.
abbrev pub Comes : List ℕ → List Permutation → List ℕ → ℕ → Type 0
Comes seen gens next y =
    (e : ℕ) × (g : Permutation) × (elem e next ≡ true)
    × Memᴰ g gens
    × (y ≡ apply g e)
    × (elem y seen ≡ false)

pub or_true : (b : Bool) → (b || true) ≡ true
or_true true = refl
or_true false = refl

-- A set that gets a value if a test fails.
put_keeps :
    (b : Bool) (s : List ℕ) (v y : ℕ)
    → elem y s ≡ true
    → elem y (if b then s else insert s v) ≡ true
put_keeps true s v y h = h
put_keeps false s v y h = elem-insert s v y ∙ ap (λ z. v == y || z) h ∙ or_true (v == y)

put_new :
    (b : Bool) (s : List ℕ) (v y : ℕ)
    → b ≡ false
    → v ≡ y
    → elem y (if b then s else insert s v) ≡ true
put_new true s v y e q = absurd cc
put_new false s v y e q = elem-insert s v y ∙ ap (λ z. z || elem y s) ((==_iff v y).1 q)

put_cases :
    (b : Bool) (s : List ℕ) (v y : ℕ)
    → elem y (if b then s else insert s v) ≡ true
    → (elem y s ≡ true) ⊎ ((b ≡ false) × (v ≡ y))
put_cases true s v y h = inl h
put_cases false s v y h = elim (Bool-cases (v == y)) [
  | inl q ↦ inr (refl, (==_iff v y).0 q)
  | inr q ↦ inl (ap (λ z. z || elem y s) (sym q) ∙ sym (elem-insert s v y) ∙ h)
]

elem-try_gens_sound :
    (seen : List ℕ) (e : ℕ) (gens : List Permutation) (tmp : List ℕ) (y : ℕ)
    → elem y (try_gens seen e gens tmp) ≡ true
    → (elem y tmp ≡ true)
      ⊎ ((g : Permutation) × Memᴰ g gens × (y ≡ apply g e) × (elem y seen ≡ false))
unfolding try_gens
elem-try_gens_sound seen e [] tmp y h = inl h
elem-try_gens_sound seen e (g ∷ gens) tmp y h = elim (elem-try_gens_sound seen e gens _ y h) [
  | inr (k, m, q, n) ↦ inr (k, Memᴰ.tail m, q, n)
  | inl i ↦ elim (put_cases (elem (apply g e) seen) tmp (apply g e) y i) [
    | inl s ↦ inl s
    | inr (s, q) ↦ inr (g, Memᴰ.head refl, sym q, ap (λ z. elem z seen) (sym q) ∙ s)
  ]
]

elem-try_gens_keeps :
    (seen : List ℕ) (e : ℕ) (gens : List Permutation) (tmp : List ℕ) (y : ℕ)
    → elem y tmp ≡ true
    → elem y (try_gens seen e gens tmp) ≡ true
unfolding try_gens
elem-try_gens_keeps seen e [] tmp y h = h
elem-try_gens_keeps seen e (g ∷ gens) tmp y h =
    elem-try_gens_keeps seen e gens _ y (put_keeps (elem (apply g e) seen) tmp (apply g e) y h)

elem-try_gens :
    (seen : List ℕ) (e : ℕ) (gens : List Permutation) (tmp : List ℕ) (g : Permutation)
    → Memᴰ g gens
    → elem (apply g e) seen ≡ false
    → elem (apply g e) (try_gens seen e gens tmp) ≡ true
unfolding try_gens
elem-try_gens seen e [] tmp g m n = absurd (List.Memᴰ.not-nil m)
elem-try_gens seen e (k ∷ gens) tmp g (Memᴰ.head q) n =
    elem-try_gens_keeps seen e gens _ (apply g e) (
      put_new (elem (apply k e) seen) tmp (apply k e) (apply g e)
        (ap (λ z. elem (apply z e) seen) (sym q) ∙ n) (ap (λ z. apply z e) (sym q)))
elem-try_gens seen e (k ∷ gens) tmp g (Memᴰ.tail m) n = elem-try_gens seen e gens _ g m n

pub elem-expand_sound :
    (seen : List ℕ) (gens : List Permutation) (next tmp : List ℕ) (y : ℕ)
    → elem y (expand seen gens next tmp) ≡ true
    → (elem y tmp ≡ true) ⊎ Comes seen gens next y
unfolding expand
elem-expand_sound seen gens [] tmp y h = inl h
elem-expand_sound seen gens (e ∷ next) tmp y h = elim (elem-expand_sound seen gens next _ y h) [
  | inr (k, g, m, c, q, n) ↦ inr (k, g, ap (λ z. e == k || z) m ∙ or_true (e == k), c, q, n)
  | inl i ↦ elim (elem-try_gens_sound seen e gens tmp y i) [
    | inl j ↦ inl j
    | inr (g, c, q, n) ↦ inr (e, g, ap (λ z. z || elem e next) ((==_iff e e).1 refl), c, q, n)
  ]
]

elem-expand_keeps :
    (seen : List ℕ) (gens : List Permutation) (next tmp : List ℕ) (y : ℕ)
    → elem y tmp ≡ true
    → elem y (expand seen gens next tmp) ≡ true
unfolding expand
elem-expand_keeps seen gens [] tmp y h = h
elem-expand_keeps seen gens (e ∷ next) tmp y h =
    elem-expand_keeps seen gens next _ y (elem-try_gens_keeps seen e gens tmp y h)

pub elem-expand :
    (seen : List ℕ) (gens : List Permutation) (next tmp : List ℕ) (e : ℕ) (g : Permutation)
    → elem e next ≡ true
    → Memᴰ g gens
    → elem (apply g e) seen ≡ false
    → elem (apply g e) (expand seen gens next tmp) ≡ true
unfolding expand
elem-expand seen gens [] tmp e g h m n = absurd cc
elem-expand seen gens (k ∷ next) tmp e g h m n = elim (Bool-cases (k == e)) [
  | inl q ↦ elem-expand_keeps seen gens next _ (apply g e) (first ((==_iff k e).0 q))
  | inr q ↦ elem-expand seen gens next _ e g (ap (λ z. z || elem e next) (sym q) ∙ h) m n
]
  where
    first : k ≡ e → elem (apply g e) (try_gens seen k gens tmp) ≡ true
    first q =
        ap (λ z. elem (apply g e) (try_gens seen z gens tmp)) q
        ∙ elem-try_gens seen e gens tmp g m n
