-- ===== src/Perms/Create/Links.antt =====
-- A list whose elements are sent each to the next by a function, as the inner loop of
-- `create_loops` builds it.
use native.Mathlib.Decide.{ℕ_discrete}
use cpp_graduate.Base.{
  ℕ, ◌<◌, ◌≡◌, refl, sym, ◌∙◌, ◌⊎◌, inl, inr, List, [], ◌∷◌, ◌++◌, true, arith, length, get_or,
  elem,
}
use cpp_graduate.Perms.Loops.{front}
use cpp_graduate.Perms.Loops.Lists.{Unique, next}

-- `f` sends each element to the next and the last one to `d`.
abbrev pub Links : (ℕ → ℕ) → ℕ → List ℕ → Type 0
Links f d [] = Unit
Links f d (c ∷ ls) = (f c ≡ get_or ls 0 d) × Links f d ls

module _ (f : ℕ → ℕ) where
  pub Links-snoc : (d : ℕ) (l : List ℕ) → Links f d l → Links f (f d) (l ++ d ∷ [])
  Links-snoc d [] h = (refl, tt)
  Links-snoc d (c ∷ []) h = (h.0, Links-snoc d [] h.1)
  Links-snoc d (c ∷ z ∷ l) h = (h.0, Links-snoc d (z ∷ l) h.1)

  -- The last element is sent to the end.
  pub Links-last :
      (d : ℕ) (l : List ℕ) → 0 < length l → Links f d l → (e : ℕ) × (elem e l ≡ true) × (f e ≡ d)
  Links-last d [] n h = absurd (omega arith)
  Links-last d (c ∷ []) n h = (c, ground arith, h.0)
  Links-last d (c ∷ z ∷ l) n h =
      let (e, i, p) = Links-last d (z ∷ l) (omega arith) h.1 in (e, ground arith, p)

  -- Every element but the first is the image of an element.
  pub Links-image :
      (d z : ℕ) (l : List ℕ)
      → Links f d l
      → elem z l ≡ true
      → (front l ≡ z) ⊎ ((e : ℕ) × (elem e l ≡ true) × (f e ≡ z))
  Links-image d z [] h i = ground arith
  Links-image d z (c ∷ []) h i = inl (ground arith)
  Links-image d z (c ∷ w ∷ l) h i = elim (ℕ_discrete c z) [
    | yes e ↦ inl e
    | no n ↦ elim (Links-image d z (w ∷ l) h.1 (ground arith)) [
      | inl e ↦ inr (c, ground arith, h.0 ∙ e)
      | inr (e, j, p) ↦ inr (e, ground arith, p)
    ]
  ]

  -- The image of an element is an element, or the end.
  pub Links-closed :
      (d x : ℕ) (l : List ℕ) → Links f d l → elem x l ≡ true → (elem (f x) l ≡ true) ⊎ (f x ≡ d)
  Links-closed d x [] h i = ground arith
  Links-closed d x (c ∷ []) h i = ground arith
  Links-closed d x (c ∷ z ∷ l) h i = ground (arith, Links-closed d x (z ∷ l))

  -- On its elements `f` is the successor in the list.
  pub next-Links : (d x : ℕ) (l : List ℕ) → Links f d l → elem x l ≡ true → next d x l ≡ f x
  unfolding next
  next-Links d x [] h i = ground arith
  next-Links d x (c ∷ l) h i = ground (arith, next-Links d x l)

  -- If `f` is injective on the elements, the end of the list is the first element or a new one.
  pub Links-end :
      (d : ℕ) (l : List ℕ)
      → Links f d l
      → Unique l
      → ((v w : ℕ) → elem v l ≡ true → elem w l ≡ true → f v ≡ f w → v ≡ w)
      → elem d l ≡ true
      → front l ≡ d
  Links-end d [] h u inj i = ground arith
  Links-end d (c ∷ []) h u inj i = ground arith
  Links-end d (c ∷ z ∷ l) h u inj i = elim (ℕ_discrete c d) [
    | yes e ↦ e
    | no n ↦
        let first : z ≡ d =
          Links-end d (z ∷ l) h.1 u.1 (λ v w a b. inj v w (ground arith) (ground arith))
            (ground arith) in
        let (e, j, p) = Links-last d (z ∷ l) (omega arith) h.1 in
        let same : c ≡ e = inj c e (ground arith) (ground arith) (h.0 ∙ first ∙ sym p) in
        absurd (ground arith)
  ]
