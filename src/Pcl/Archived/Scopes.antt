-- ===== src/Pcl/Archived/Scopes.antt =====
-- archive/13-llvm/01-naive: names in the first version, `exists` of Symtab.hpp with `visible` and `access` of
-- `Scope` in Node.cc. The local tables are those of the later version.
use Prim.Native.String.{String}
use mathlib.Core.Path.{ap₂}
use cpp_graduate.Base.{
  ℕ, suc, ◌≡◌, refl, ap, ◌∙◌, List, [], ◌∷◌, Option, none, some, ◌==◌, if◌then◌else◌, Bool-cases,
  inl, inr,
}
use cpp_graduate.Pcl.Llvm.{Llvm}
use cpp_graduate.Pcl.Codegen.{Gen, ◌>>=◌, generated}
use cpp_graduate.Pcl.Scopes.{
  Scope, outermost, inside, address, find, exists, add, visible, first_of,
}
use cpp_graduate.Pcl.Archived.Codegen.{create_entry_block_alloca}

module _ (same : (x y : String) → Dec (x ≡ y)) where
  abbrev pub Tables : Type 0
  Tables = List (ℕ × List (String × ℕ))

  -- `tables[s]`, which makes an empty table for a scope without one
  unfoldable pub with_table : Tables → Scope → Tables
  with_table [] s = (address s, []) ∷ []
  with_table ((i, symbols) ∷ rest) s =
      if i == address s then (i, symbols) ∷ rest else (i, symbols) ∷ with_table rest s

  -- `Symtab::exists`
  unfoldable pub exists_in : Tables → Scope → String → Option ℕ × Tables
  unfolding with_table
  exists_in tables s x = (exists same (with_table tables s) s x, with_table tables s)

  -- A lookup that goes on where nothing was found.
  abbrev pub or_else : Option ℕ × Tables → (Tables → Option ℕ × Tables) → Option ℕ × Tables
  or_else (some d, tables) next = (some d, tables)
  or_else (none, tables) next = next tables

  unfoldable pub scope_visible : Scope → Tables → String → Option ℕ × Tables
  unfolding exists_in
  scope_visible (outermost i) tables x = exists_in tables (outermost i) x
  scope_visible (inside i prev) tables x =
      or_else (exists_in tables (inside i prev) x) (λ ts. scope_visible prev ts x)

  module _ (llvm : Llvm) where
    -- The declaration, the tables and the next unused declaration, where `Scope::access` adds one.
    abbrev pub declare_in : Option ℕ × Tables → ℕ → Scope → String → Gen llvm (ℕ × Tables × ℕ)
    declare_in (some d, tables) next s x = λ g. generated (d, tables, next) g
    declare_in (none, tables) next s x = ◌>>=◌ llvm (create_entry_block_alloca llvm x) (λ alloca g.
        generated (next, add same tables s x next, suc next)
          (record g { named_values = (x, alloca) ∷ g.named_values }))

    unfoldable pub scope_access : Tables → ℕ → Scope → String → Gen llvm (ℕ × Tables × ℕ)
    unfolding scope_visible
    scope_access tables next s x = declare_in (scope_visible s tables x) next s x

  exists-with_table :
      (tables : Tables) (s u : Scope) (x : String)
      → exists same (with_table tables s) u x ≡ exists same tables u x
  unfolding exists find with_table
  exists-with_table [] s u x = elim (Bool-cases (address s == address u)) [
    | inl e ↦ rw e refl
    | inr e ↦ rw e refl
  ]
  exists-with_table ((i, symbols) ∷ rest) s u x = elim (Bool-cases (i == address s)) [
    | inl e ↦ rw e refl
    | inr e ↦
        rw e (
          ap (λ o. if i == address u then find same symbols x else o)
            (exists-with_table rest s u x))
  ]

  -- Tables with the same entries.
  Alike : Tables → Tables → Type 0
  Alike ts us = (u : Scope) (y : String) → exists same ts u y ≡ exists same us u y

  visible-Alike :
      (ts us : Tables)
      → Alike ts us
      → (s : Scope) (x : String) → visible same ts s x ≡ visible same us s x
  unfolding Alike visible
  visible-Alike ts us h (outermost i) x = h (outermost i) x
  visible-Alike ts us h (inside i prev) x =
      ap₂ first_of (h (inside i prev) x) (visible-Alike ts us h prev x)

  or_else-first_of :
      (o : Option ℕ) (us ts : Tables) (next : Tables → Option ℕ × Tables) (rest : Option ℕ)
      → Alike us ts
      → ((next us).0 ≡ rest) × Alike (next us).1 ts
      → ((or_else (o, us) next).0 ≡ first_of o rest) × Alike (or_else (o, us) next).1 ts
  or_else-first_of (some d) us ts next rest h k = (refl, h)
  or_else-first_of none us ts next rest h k = k

  scope_visible-Alike :
      (s : Scope) (ts : Tables) (x : String)
      → ((scope_visible s ts x).0 ≡ visible same ts s x) × Alike (scope_visible s ts x).1 ts
  unfolding scope_visible exists_in visible Alike
  scope_visible-Alike (outermost i) ts x =
      (exists-with_table ts (outermost i) (outermost i) x, exists-with_table ts (outermost i))
  scope_visible-Alike (inside i prev) ts x =
      let us = with_table ts (inside i prev) in
      let alike = exists-with_table ts (inside i prev) in
      let (e, h) = scope_visible-Alike prev us x in
      let (r, k) =
        or_else-first_of (exists same us (inside i prev) x) us ts (λ vs. scope_visible prev vs x)
          (visible same ts prev x) alike
          (e ∙ visible-Alike us ts alike prev x, λ u y. h u y ∙ alike u y) in
      (r ∙ ap (λ o. first_of o (visible same ts prev x)) (alike (inside i prev) x), k)

  -- The lookup of the first version answers as that of the later one, and the empty tables that it leaves
  -- behind change no later lookup.
  pub scope_visible-visible :
      (s u : Scope) (ts : Tables) (x y : String)
      → ((scope_visible s ts x).0 ≡ visible same ts s x)
        × (visible same (scope_visible s ts x).1 u y ≡ visible same ts u y)
  scope_visible-visible s u ts x y =
      let (e, h) = scope_visible-Alike s ts x in
      (e, visible-Alike (scope_visible s ts x).1 ts h u y)
