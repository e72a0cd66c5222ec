-- ===== src/Pcl/Scopes/Lookup.antt =====
-- What `Scope::access` and `Symtab::free` of 15-llvm/naive-pcl do to the names that a scope sees.
use mathlib.Core.Logic.{◌⊎◌, inl, inr}
use cpp_graduate.Base.{
  ℕ, ◌≡◌, refl, ap, sym, ◌∙◌, List, [], ◌∷◌, true, false, none, some, ◌==◌, if◌then◌else◌,
  Bool-cases, arith, ==_iff,
}
use cpp_graduate.Pcl.Scopes.{
  Scope, outermost, inside, address, find, add_local, exists, add, free, visible, first_of,
}

-- The address is one of a scope and the scopes around it.
abbrev pub Around : ℕ → Scope → Type 0
Around i (outermost j) = i ≡ j
Around i (inside j prev) = (i ≡ j) ⊎ Around i prev

module _ {Name : Type 0} (same : (x y : Name) → Dec (x ≡ y)) where
  abbrev pub Symbols : Type 0
  Symbols = List (Name × ℕ)

  same_true :
      {A : Type 0} (x y : Name) (a b : A) → x ≡ y → elim (same x y) [ yes p ↦ a | no p ↦ b ] ≡ a
  same_true x y a b e = go (same x y)
    where
      go : (q : Dec (x ≡ y)) → elim q [ yes p ↦ a | no p ↦ b ] ≡ a
      go (yes p) = refl
      go (no p) = absurd (p e)

  same_false :
      {A : Type 0} (x y : Name) (a b : A) → ¬ (x ≡ y) → elim (same x y) [ yes p ↦ a | no p ↦ b ] ≡ b
  same_false x y a b n = go (same x y)
    where
      go : (q : Dec (x ≡ y)) → elim q [ yes p ↦ a | no p ↦ b ] ≡ b
      go (yes p) = absurd (n p)
      go (no p) = refl

  find_hit : (rest : Symbols) (y x : Name) (d : ℕ) → y ≡ x → find same ((y, d) ∷ rest) x ≡ some d
  unfolding find
  find_hit rest y x d e = same_true y x (some d) (find same rest x) e

  find_miss :
      (rest : Symbols) (y x : Name) (d : ℕ)
      → ¬ (y ≡ x)
      → find same ((y, d) ∷ rest) x ≡ find same rest x
  unfolding find
  find_miss rest y x d n = same_false y x (some d) (find same rest x) n

  add_hit :
      (rest : Symbols) (y x : Name) (e d : ℕ)
      → y ≡ x
      → add_local same ((y, e) ∷ rest) x d ≡ (y, d) ∷ rest
  unfolding add_local
  add_hit rest y x e d q = same_true y x ((y, d) ∷ rest) ((y, e) ∷ add_local same rest x d) q

  add_miss :
      (rest : Symbols) (y x : Name) (e d : ℕ)
      → ¬ (y ≡ x)
      → add_local same ((y, e) ∷ rest) x d ≡ (y, e) ∷ add_local same rest x d
  unfolding add_local
  add_miss rest y x e d n = same_false y x ((y, d) ∷ rest) ((y, e) ∷ add_local same rest x d) n

  pub find-add_same : (l : Symbols) (x : Name) (d : ℕ) → find same (add_local same l x d) x ≡ some d
  unfolding add_local
  find-add_same [] x d = find_hit [] x x d refl
  find-add_same ((y, e) ∷ rest) x d = elim (same y x) [
    | yes q ↦ ap (λ z. find same z x) (add_hit rest y x e d q) ∙ find_hit rest y x d q
    | no n ↦
        ap (λ z. find same z x) (add_miss rest y x e d n)
        ∙ find_miss (add_local same rest x d) y x e n
        ∙ find-add_same rest x d
  ]

  find-add_other :
      (l : Symbols) (x y : Name) (d : ℕ)
      → ¬ (x ≡ y)
      → find same (add_local same l x d) y ≡ find same l y
  unfolding add_local
  find-add_other [] x y d n = find_miss [] x y d n
  find-add_other ((z, e) ∷ rest) x y d n = elim (same z x) [
    | yes q ↦
        let differ : ¬ (z ≡ y) = λ r. n (sym q ∙ r) in
        ap (λ k. find same k y) (add_hit rest z x e d q)
        ∙ find_miss rest z y d differ
        ∙ sym (find_miss rest z y e differ)
    | no m ↦ ap (λ k. find same k y) (add_miss rest z x e d m) ∙ (elim (same z y) [
      | yes r ↦ find_hit (add_local same rest x d) z y e r ∙ sym (find_hit rest z y e r)
      | no r ↦
          find_miss (add_local same rest x d) z y e r
          ∙ find-add_other rest x y d n
          ∙ sym (find_miss rest z y e r)
    ])
  ]

  pub exists-add_same :
      (t : List (ℕ × Symbols)) (s : Scope) (x : Name) (d : ℕ)
      → exists same (add same t s x d) s x ≡ some d
  unfolding exists add
  exists-add_same [] s x d = ground (arith, find-add_same [] x d)
  exists-add_same ((i, l) ∷ rest) s x d = elim (Bool-cases (i == address s)) [
    | inl e ↦ rw (e, if◌then◌else◌) (rw (e, if◌then◌else◌) (find-add_same l x d))
    | inr e ↦ rw (e, if◌then◌else◌) (rw (e, if◌then◌else◌) (exists-add_same rest s x d))
  ]

  -- Where two scopes have one address, two different keys have different names.
  names : (i j : ℕ) {x y : Name} → (i == j) ≡ true → (¬ (i ≡ j)) ⊎ (¬ (x ≡ y)) → ¬ (x ≡ y)
  names i j e (inl n) = absurd (n ((==_iff i j).0 e))
  names i j e (inr n) = n

  pub exists-add_other :
      (t : List (ℕ × Symbols)) (s u : Scope) (x y : Name) (d : ℕ)
      → (¬ (address s ≡ address u)) ⊎ (¬ (x ≡ y))
      → exists same (add same t s x d) u y ≡ exists same t u y
  unfolding exists add
  exists-add_other [] s u x y d n = elim (Bool-cases (address s == address u)) [
    | inl e ↦ rw (e, if◌then◌else◌) (find_miss [] x y d (names (address s) (address u) e n))
    | inr e ↦ rw (e, if◌then◌else◌) refl
  ]
  exists-add_other ((i, l) ∷ rest) s u x y d n = elim (Bool-cases (i == address s)) [
    | inl e ↦
        rw (e, if◌then◌else◌)
          (elim (Bool-cases (i == address u)) [
            | inl f ↦
                rw (f, if◌then◌else◌)
                  (find-add_other l x y d (
                    names (address s) (address u)
                      ((==_iff (address s) (address u)).1
                        (sym ((==_iff i (address s)).0 e) ∙ (==_iff i (address u)).0 f))
                      n))
            | inr f ↦ rw (f, if◌then◌else◌) refl
          ])
    | inr e ↦
        rw (e, if◌then◌else◌)
          (elim (Bool-cases (i == address u)) [
            | inl f ↦ rw (f, if◌then◌else◌) refl
            | inr f ↦ rw (f, if◌then◌else◌) (exists-add_other rest s u x y d n)
          ])
  ]

  -- The declaration that is added is the one that the name now means in its scope, and any other name
  -- in any scope, and the same name in a scope that does not lie in this one, means what it meant.
  pub visible-add_same :
      (t : List (ℕ × Symbols)) (s : Scope) (x : Name) (d : ℕ)
      → visible same (add same t s x d) s x ≡ some d
  unfolding visible
  visible-add_same t (outermost i) x d = exists-add_same t (outermost i) x d
  visible-add_same t (inside i p) x d =
      ap (λ a. first_of a (visible same (add same t (inside i p) x d) p x))
        (exists-add_same t (inside i p) x d)

  pub visible-add_other :
      (t : List (ℕ × Symbols)) (s u : Scope) (x y : Name) (d : ℕ)
      → (¬ Around (address s) u) ⊎ (¬ (x ≡ y))
      → visible same (add same t s x d) u y ≡ visible same t u y
  unfolding visible
  visible-add_other t s (outermost i) x y d n = exists-add_other t s (outermost i) x y d n
  visible-add_other t s (inside i p) x y d n =
      ap (λ a. first_of a (visible same (add same t s x d) p y))
        (exists-add_other t s (inside i p) x y d (here n))
      ∙ ap (λ b. first_of (exists same t (inside i p) y) b)
          (visible-add_other t s p x y d (outer n))
    where
      here : (¬ Around (address s) (inside i p)) ⊎ (¬ (x ≡ y)) → (¬ (address s ≡ i)) ⊎ (¬ (x ≡ y))
      here (inl h) = inl (λ e. h (inl e))
      here (inr h) = inr h

      outer :
          (¬ Around (address s) (inside i p)) ⊎ (¬ (x ≡ y)) → (¬ Around (address s) p) ⊎ (¬ (x ≡ y))
      outer (inl h) = inl (λ e. h (inr e))
      outer (inr h) = inr h

  apart : (j i k : ℕ) → (i == j) ≡ true → ¬ (j ≡ k) → (i == k) ≡ false
  apart j i k e n = ground arith

  exists-free_same :
      (t : List (ℕ × Symbols)) (s u : Scope) (x : Name)
      → address s ≡ address u
      → exists same (free same t s) u x ≡ none
  unfolding exists free find
  exists-free_same [] s u x e = refl
  exists-free_same ((i, l) ∷ rest) s u x e = elim (Bool-cases (i == address s)) [
    | inl f ↦
        let g : (i == address u) ≡ true = ap (λ a. i == a) (sym e) ∙ f in
        rw (f, if◌then◌else◌) (rw (g, if◌then◌else◌) refl)
    | inr f ↦
        let g : (i == address u) ≡ false = ap (λ a. i == a) (sym e) ∙ f in
        rw (f, if◌then◌else◌) (rw (g, if◌then◌else◌) (exists-free_same rest s u x e))
  ]

  exists-free_other :
      (t : List (ℕ × Symbols)) (s u : Scope) (x : Name)
      → ¬ (address s ≡ address u)
      → exists same (free same t s) u x ≡ exists same t u x
  unfolding exists free
  exists-free_other [] s u x n = refl
  exists-free_other ((i, l) ∷ rest) s u x n = elim (Bool-cases (i == address s)) [
    | inl e ↦
        let g : (i == address u) ≡ false = apart (address s) i (address u) e n in
        rw (e, if◌then◌else◌) (rw (g, if◌then◌else◌) refl)
    | inr e ↦
        rw (e, if◌then◌else◌)
          (ap (λ r. if i == address u then find same l x else r) (exists-free_other rest s u x n))
  ]

  visible-free_other :
      (t : List (ℕ × Symbols)) (s u : Scope) (x : Name)
      → ¬ Around (address s) u
      → visible same (free same t s) u x ≡ visible same t u x
  unfolding visible
  visible-free_other t s (outermost i) x n = exists-free_other t s (outermost i) x n
  visible-free_other t s (inside i p) x n =
      ap (λ a. first_of a (visible same (free same t s) p x))
        (exists-free_other t s (inside i p) x (λ e. n (inl e)))
      ∙ ap (λ b. first_of (exists same t (inside i p) x) b)
          (visible-free_other t s p x (λ e. n (inr e)))

  -- When a scope is freed that none of the scopes around it shares its address with, its names mean
  -- again what they mean in the scope around it, where nothing has changed.
  pub visible-free :
      (t : List (ℕ × Symbols)) (i : ℕ) (p : Scope) (x : Name)
      → ¬ Around i p
      → (visible same (free same t (inside i p)) (inside i p) x ≡ visible same t p x)
        × (visible same (free same t (inside i p)) p x ≡ visible same t p x)
  unfolding visible
  visible-free t i p x n =
      let outer = visible-free_other t (inside i p) p x n in
      (
        ap (λ a. first_of a (visible same (free same t (inside i p)) p x))
              (exists-free_same t (inside i p) (inside i p) x refl)
            ∙ outer,
        outer,
      )
