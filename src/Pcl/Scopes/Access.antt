-- ===== src/Pcl/Scopes/Access.antt =====
-- The declarations that `Scope::access` of 15-llvm/naive-pcl/Node.cc makes and finds.
use mathlib.Core.Logic.{◌⊎◌, inl, inr}
use cpp_graduate.Base.{
  ℕ, suc, ◌<◌, ◌≡◌, refl, ap, sym, ◌∙◌, List, [], ◌∷◌, Option, none, some, ◌==◌, if◌then◌else◌,
  Bool-cases, Option-cases, arith, ==_iff,
}
use cpp_graduate.Pcl.Scopes.{
  Scope, outermost, inside, first_of, address, find, exists, add, visible, access, declare,
}
use cpp_graduate.Pcl.Scopes.Lookup.{
  Around, Symbols, exists-add_same, exists-add_other, visible-add_same, visible-add_other,
}

module _ {Name : Type 0} (same : (x y : Name) → Dec (x ≡ y)) where
  -- Every declaration in the tables is older than the next one, and stands for one name in one scope.
  pub record IsDistinct (t : List (ℕ × Symbols same)) (next : ℕ) : Type 0 where
    pub older : (s : Scope) (x : Name) (d : ℕ) → exists same t s x ≡ some d → d < next
    pub one_key :
        (s u : Scope) (x y : Name) (d : ℕ)
        → exists same t s x ≡ some d
        → exists same t u y ≡ some d
        → (address s ≡ address u) × (x ≡ y)

  -- The declaration of the name in the innermost scope that declares it, of the scope and those around it.
  abbrev pub IsInnermost : List (ℕ × Symbols same) → Scope → Name → ℕ → Type 0
  IsInnermost t (outermost i) x d = exists same t (outermost i) x ≡ some d
  IsInnermost t (inside i p) x d =
      (exists same t (inside i p) x ≡ some d)
      ⊎ ((exists same t (inside i p) x ≡ none) × IsInnermost t p x d)

  visible-IsInnermost :
      (t : List (ℕ × Symbols same)) (s : Scope) (x : Name) (d : ℕ)
      → visible same t s x ≡ some d
      → IsInnermost t s x d
  unfolding visible
  visible-IsInnermost t (outermost i) x d e = e
  visible-IsInnermost t (inside i p) x d e = elim (Option-cases (exists same t (inside i p) x)) [
    | inl n ↦
        inr (n, visible-IsInnermost t p x d (sym (ap (λ o. first_of o (visible same t p x)) n) ∙ e))
    | inr (a, h) ↦ inl (h ∙ sym (ap (λ o. first_of o (visible same t p x)) h) ∙ e)
  ]

  visible_lem :
      (t : List (ℕ × Symbols same)) (s : Scope) (x : Name) (d : ℕ)
      → IsInnermost t s x d
      → visible same t s x ≡ some d
  unfolding visible
  visible_lem t (outermost i) x d e = e
  visible_lem t (inside i p) x d (inl h) = ap (λ o. first_of o (visible same t p x)) h
  visible_lem t (inside i p) x d (inr (n, r)) =
      ap (λ o. first_of o (visible same t p x)) n ∙ visible_lem t p x d r

  -- The answer, the tables and the next declaration of an access to the name in the scope.
  pub record IsAccess (t : List (ℕ × Symbols same)) (next : ℕ) (s : Scope) (x : Name) (d : ℕ)
      (t' : List (ℕ × Symbols same)) (next' : ℕ) : Type 0 where
    pub found : IsInnermost t' s x d
    pub kept : (e : ℕ) → IsInnermost t s x e → (d ≡ e) × (t' ≡ t)
    pub added : ((e : ℕ) → ¬ IsInnermost t s x e) → (d ≡ next) × (exists same t' s x ≡ some next)
    pub others :
        (u : Scope) (y : Name)
        → (¬ Around (address s) u) ⊎ (¬ (x ≡ y))
        → (e : ℕ)
        → (IsInnermost t u y e → IsInnermost t' u y e)
          × (IsInnermost t' u y e → IsInnermost t u y e)
    pub distinct : IsDistinct t' next'

  exists_address :
      (t : List (ℕ × Symbols same)) (s u : Scope) (x : Name)
      → address s ≡ address u
      → exists same t s x ≡ exists same t u x
  unfolding exists
  exists_address [] s u x e = refl
  exists_address ((i, l) ∷ rest) s u x e =
      ap (λ a. if i == a then find same l x else exists same rest s x) e
      ∙ ap (λ r. if i == address u then find same l x else r) (exists_address rest s u x e)

  -- A declaration of the tables with a new one is the new one, under its key, or an old one.
  exists-add_cases :
      (t : List (ℕ × Symbols same)) (s u : Scope) (x y : Name) (n d : ℕ)
      → exists same (add same t s x n) u y ≡ some d
      → ((d ≡ n) × (address s ≡ address u) × (x ≡ y)) ⊎ (exists same t u y ≡ some d)
  exists-add_cases t s u x y n d e = elim (Bool-cases (address s == address u)) [
    | inr f ↦ inr (
        sym (
          exists-add_other same t s u x y n
            (inl (λ q. let g = (==_iff (address s) (address u)).1 q in absurd cc)))
        ∙ e)
    | inl f ↦ elim (same x y) [
      | no m ↦ inr (sym (exists-add_other same t s u x y n (inr m)) ∙ e)
      | yes q ↦
          let q' = (==_iff (address s) (address u)).0 f in
          let new : exists same (add same t s x n) u y ≡ some n =
            sym (exists_address (add same t s x n) s u y q')
            ∙ ap (λ z. exists same (add same t s x n) s z) (sym q)
            ∙ exists-add_same same t s x n in
          inl (cc, q', q)
    ]
  ]

  add-IsDistinct :
      (t : List (ℕ × Symbols same)) (next : ℕ) (s : Scope) (x : Name)
      → IsDistinct t next
      → IsDistinct (add same t s x next) (suc next)
  add-IsDistinct t next s x h = record {
    older = λ u y d e. elim (exists-add_cases t s u x y next d e) [
      | inl new ↦ let q = new.0 in omega arith
      | inr old ↦ let lt = h.older u y d old in omega arith
    ];
    one_key = λ u v y z d e f. elim (exists-add_cases t s u x y next d e) [
      | inl new ↦ elim (exists-add_cases t s v x z next d f) [
        | inl new' ↦ (sym new.1 ∙ new'.1, sym new.2 ∙ new'.2)
        | inr old' ↦ let q = new.0 in let lt = h.older v z d old' in absurd (omega arith)
      ]
      | inr old ↦ elim (exists-add_cases t s v x z next d f) [
        | inl new' ↦ let q = new'.0 in let lt = h.older u y d old in absurd (omega arith)
        | inr old' ↦ h.one_key u v y z d old old'
      ]
    ];
  }

  -- Where each declaration in the tables is older than the next one and stands for one name in one scope,
  -- an access to a name gives the innermost declaration of it, of the scope and those around it. If there
  -- was one, it is the one, and the tables are as before; if not, it is a new one in the scope itself.
  -- Other names keep their innermost declarations everywhere, and the same name in every scope that
  -- does not lie in this one. The declarations stand for one name in one scope as before.
  pub access-IsAccess :
      (t : List (ℕ × Symbols same)) (next : ℕ) (s : Scope) (x : Name)
      → IsDistinct t next
      → IsAccess t next s x
          (access same t next s x).0
          (access same t next s x).1
          (access same t next s x).2
  unfolding access
  access-IsAccess t next s x h = go (visible same t s x) refl
    where
      go :
          (o : Option ℕ) (e : visible same t s x ≡ o)
          → IsAccess t next s x
              (declare same t next s x o).0
              (declare same t next s x o).1
              (declare same t next s x o).2
      go (some d) e = record {
        found = visible-IsInnermost t s x d e;
        kept = λ k i. let f = visible_lem t s x k i in (cc, refl);
        added = λ no_one. absurd (no_one d (visible-IsInnermost t s x d e));
        others = λ u y n k. (λ i. i, λ i. i);
        distinct = h;
      }
      go none e = record {
        found =
            visible-IsInnermost (add same t s x next) s x next (visible-add_same same t s x next);
        kept = λ k i. let f = visible_lem t s x k i in absurd cc;
        added = λ no_one. (refl, exists-add_same same t s x next);
        others = λ u y n k.
            let unchanged = visible-add_other same t s u x y next n in
            (
              λ i.
                  visible-IsInnermost (add same t s x next) u y k
                    (unchanged ∙ visible_lem t u y k i),
              λ i.
                  visible-IsInnermost t u y k
                    (sym unchanged ∙ visible_lem (add same t s x next) u y k i),
            );
        distinct = add-IsDistinct t next s x h;
      }
