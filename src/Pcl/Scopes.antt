-- ===== src/Pcl/Scopes.antt =====
-- The symbol tables of Symtab.hpp and the lookup of names in Node.cc (15-llvm/naive-pcl). A scope is its
-- identity with the scopes around it, which `PrevScope_` points at; a declaration is its identity.
pub mod Lookup
pub mod Access
pub mod Tests
use cpp_graduate.Base.{ℕ, suc, ◌≡◌, List, [], ◌∷◌, Option, none, some, ◌==◌, if◌then◌else◌}

-- `IScope`, as far as `PrevScope_` tells.
pub data Scope : Type 0 where
  outermost : ℕ → Scope
  inside : ℕ → Scope → Scope

abbrev pub address : Scope → ℕ
address (outermost i) = i
address (inside i prev) = i

-- A lookup that ends at the first declaration.
abbrev pub first_of : Option ℕ → Option ℕ → Option ℕ
first_of (some d) o = some d
first_of none o = o

-- A name is a `std::string`, which is compared for equality.
module _ {Name : Type 0} (same : (x y : Name) → Dec (x ≡ y)) where
  -- `Symtab_local::find`
  unfoldable pub find : List (Name × ℕ) → Name → Option ℕ
  find [] x = none
  find ((y, d) ∷ rest) x = elim (same y x) [ yes p ↦ some d | no p ↦ find rest x ]

  -- `Symtab_local::add`, an assignment to `Symbols_[Symbol]`
  unfoldable pub add_local : List (Name × ℕ) → Name → ℕ → List (Name × ℕ)
  add_local [] x d = (x, d) ∷ []
  add_local ((y, e) ∷ rest) x d = elim (same y x) [
    | yes p ↦ (y, d) ∷ rest
    | no p ↦ (y, e) ∷ add_local rest x d
  ]

  -- `Symtab::exists`
  unfoldable pub exists : List (ℕ × List (Name × ℕ)) → Scope → Name → Option ℕ
  unfolding find
  exists [] s x = none
  exists ((i, symbols) ∷ rest) s x = if i == address s then find symbols x else exists rest s x

  -- `Symtab::add`, where `Tables_[Scope]` makes an empty table for a scope without one
  unfoldable pub add : List (ℕ × List (Name × ℕ)) → Scope → Name → ℕ → List (ℕ × List (Name × ℕ))
  unfolding add_local
  add [] s x d = (address s, add_local [] x d) ∷ []
  add ((i, symbols) ∷ rest) s x d =
      if i == address s then (i, add_local symbols x d) ∷ rest else (i, symbols) ∷ add rest s x d

  -- `Symtab::free`
  unfoldable pub free : List (ℕ × List (Name × ℕ)) → Scope → List (ℕ × List (Name × ℕ))
  free [] s = []
  free ((i, symbols) ∷ rest) s =
      if i == address s then (i, []) ∷ rest else (i, symbols) ∷ free rest s

  -- `Scope::visible`
  unfoldable pub visible : List (ℕ × List (Name × ℕ)) → Scope → Name → Option ℕ
  unfolding exists
  visible tables (outermost i) x = exists tables (outermost i) x
  visible tables (inside i prev) x =
      first_of (exists tables (inside i prev) x) (visible tables prev x)

  -- The steps of `Scope::access` after the lookup.
  abbrev pub declare :
      List (ℕ × List (Name × ℕ)) → ℕ → Scope → Name → Option ℕ → ℕ × List (ℕ × List (Name × ℕ)) × ℕ
  declare tables next s x (some existing) = (existing, tables, next)
  declare tables next s x none = (next, add tables s x next, suc next)

  -- `Scope::access`: the declaration, the tables, and the next unused declaration.
  unfoldable pub access :
      List (ℕ × List (Name × ℕ)) → ℕ → Scope → Name → ℕ × List (ℕ × List (Name × ℕ)) × ℕ
  unfolding visible add
  access tables next s x = declare tables next s x (visible tables s x)
