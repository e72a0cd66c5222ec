-- ===== src/Perms/Loops/Lists.antt =====
-- Lists without repetition, what a rotation keeps of them, and the cyclic successor by recursion, which
-- is the reference for `PermLoop::apply`.
use cpp_graduate.Base.{
  ℕ, zero, suc, ◌<◌, ◌≡◌, refl, ap, ◌∙◌, List, [], ◌∷◌, ◌++◌, reverse, true, false, ◌||◌, arith,
  subst, ◌==◌, if◌then◌else◌, length, get_or, elem, All,
}
use native.Mathlib.Decide.{ℕ_discrete}
use mathlib.Core.List.{append-nil, append_assoc, reverse-append}

-- All elements are different.
abbrev pub Unique : List ℕ → Type 0
Unique [] = Unit
Unique (x ∷ xs) = (elem x xs ≡ false) × Unique xs

-- The element that follows `x`, and `d` after the last.
unfoldable pub next : ℕ → ℕ → List ℕ → ℕ
next d x [] = x
next d x (y ∷ ys) = if y == x then get_or ys 0 d else next d x ys

pub elem-append : (x : ℕ) (xs ys : List ℕ) → elem x (xs ++ ys) ≡ (elem x xs || elem x ys)
elem-append x [] ys = refl
elem-append x (y ∷ xs) ys = ground (arith, elem-append x xs ys)

pub elem-reverse : (x : ℕ) (xs : List ℕ) → elem x (reverse xs) ≡ elem x xs
elem-reverse x [] = refl
elem-reverse x (y ∷ xs) =
    rw (reverse-append (y ∷ []) xs)
      (ground (arith, elem-append x (reverse xs) (y ∷ []), elem-reverse x xs))

-- An element of a list splits it at its first place.
pub elem-split :
    (x : ℕ) (xs : List ℕ)
    → elem x xs ≡ true
    → (a : List ℕ) × (b : List ℕ) × (xs ≡ a ++ x ∷ b) × (elem x a ≡ false)
elem-split x [] h = ground arith
elem-split x (y ∷ xs) h = elim (ℕ_discrete y x) [
  | yes e ↦ ([], xs, ap (λ z. z ∷ xs) e, refl)
  | no n ↦
      let (a, b, e, out) = elem-split x xs (ground arith) in (y ∷ a, b, ap (◌∷◌ y) e, ground arith)
]

module _ {κ} (P : List ℕ → Type κ) where
  -- What moving the first element to the end keeps, every rotation keeps.
  pub rotation_rule :
      ((x : ℕ) (xs : List ℕ) → P (x ∷ xs) → P (xs ++ x ∷ []))
      → (a b : List ℕ) → P (a ++ b)
      → P (b ++ a)
  rotation_rule step [] b h = rw (append-nil b) h
  rotation_rule step (x ∷ a) b h =
      let h' : P ((b ++ x ∷ []) ++ a) =
        rotation_rule step a (b ++ x ∷ []) (rw (← append_assoc a b (x ∷ [])) (step x (a ++ b) h)) in
      rw (append_assoc b (x ∷ []) a) at h'

pub Unique-snoc : (x : ℕ) (xs : List ℕ) → Unique (x ∷ xs) → Unique (xs ++ x ∷ [])
Unique-snoc x [] h = h
Unique-snoc x (y ∷ xs) h =
    (ground (arith, elem-append y xs (x ∷ [])), Unique-snoc x xs (ground arith, h.1.1))

pub Unique-reverse : (xs : List ℕ) → Unique xs → Unique (reverse xs)
Unique-reverse [] h = h
Unique-reverse (x ∷ xs) h =
    rw (reverse-append (x ∷ []) xs)
      (Unique-snoc x (reverse xs) (elem-reverse x xs ∙ h.0, Unique-reverse xs h.1))

pub next_absent : (d x : ℕ) (xs : List ℕ) → elem x xs ≡ false → next d x xs ≡ x
unfolding next
next_absent d x [] h = refl
next_absent d x (y ∷ xs) h = ground (arith, next_absent d x xs)

pub next_middle : (d x : ℕ) (a b : List ℕ) → elem x a ≡ false → next d x (a ++ x ∷ b) ≡ get_or b 0 d
unfolding next
next_middle d x [] b h = ground arith
next_middle d x (y ∷ a) b h = ground (arith, next_middle d x a b)

get_or-snoc : (d x : ℕ) (xs : List ℕ) → get_or (xs ++ x ∷ []) 0 d ≡ get_or xs 0 x
get_or-snoc d x [] = refl
get_or-snoc d x (y ∷ xs) = refl

next-snoc :
    (d y x : ℕ) (xs : List ℕ)
    → next d y (xs ++ x ∷ []) ≡ (if elem y xs then next x y xs else if x == y then d else y)
unfolding next
next-snoc d y x [] = refl
next-snoc d y x (z ∷ xs) = ground (arith, next-snoc d y x xs, get_or-snoc d x xs)

-- The cyclic successor in a list, whose first element follows the last.
abbrev pub cyclic : List ℕ → ℕ → ℕ
cyclic l y = next (get_or l 0 0) y l

-- The rotations of a cycle of different elements have the same successor function.
pub cyclic-snoc :
    (x y : ℕ) (xs : List ℕ) → Unique (x ∷ xs) → cyclic (xs ++ x ∷ []) y ≡ cyclic (x ∷ xs) y
unfolding next
cyclic-snoc x y xs h =
    ground
      (arith, next-snoc (get_or (xs ++ x ∷ []) 0 0) y x xs, get_or-snoc 0 x xs, next_absent x y xs)

pub All-append {ℓ} : (P : ℕ → Type ℓ) (xs ys : List ℕ) → All P xs → All P ys → All P (xs ++ ys)
All-append P [] ys h k = k
All-append P (x ∷ xs) ys h k = (h.0, All-append P xs ys h.1 k)

pub All-split {ℓ} : (P : ℕ → Type ℓ) (xs ys : List ℕ) → All P (xs ++ ys) → All P xs × All P ys
All-split P [] ys h = (tt, h)
All-split P (x ∷ xs) ys h = let (p, q) = All-split P xs ys h.1 in ((h.0, p), q)

pub All-reverse {ℓ} : (P : ℕ → Type ℓ) (xs : List ℕ) → All P xs → All P (reverse xs)
All-reverse P [] h = h
All-reverse P (x ∷ xs) h =
    rw (reverse-append (x ∷ []) xs)
      (All-append P (reverse xs) (x ∷ []) (All-reverse P xs h.1) (h.0, tt))

pub All-elem {ℓ} : (P : ℕ → Type ℓ) (x : ℕ) (xs : List ℕ) → All P xs → elem x xs ≡ true → P x
All-elem P x [] h e = ground arith
All-elem P x (y ∷ xs) h e = elim (ℕ_discrete y x) [
  | yes p ↦ subst P p h.0
  | no n ↦ All-elem P x xs h.1 (ground arith)
]

pub elem-All {ℓ} : (P : ℕ → Type ℓ) (xs : List ℕ) → ((x : ℕ) → elem x xs ≡ true → P x) → All P xs
elem-All P [] h = tt
elem-All P (x ∷ xs) h = (h x (ground arith), elem-All P xs (λ y e. h y (ground arith)))

pub Unique-append_right : (xs ys : List ℕ) → Unique (xs ++ ys) → Unique ys
Unique-append_right [] ys h = h
Unique-append_right (x ∷ xs) ys h = Unique-append_right xs ys h.1

pub All-get_or {ℓ} :
    (P : ℕ → Type ℓ) (xs : List ℕ) (i : ℕ) → All P xs → i < length xs → P (get_or xs i 0)
All-get_or P [] i h k = absurd (omega arith)
All-get_or P (x ∷ xs) zero h k = h.0
All-get_or P (x ∷ xs) (suc i) h k = All-get_or P xs i h.1 (omega arith)
