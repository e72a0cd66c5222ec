-- ===== src/LruC/HashMap/Chains.antt =====
-- The chains of `hash_map.c` (01-basics/lru-in-c): an entry is found, unlinked and left alone by its key.
use cpp_graduate.Base.{
  ℕ, ◌≡◌, ◌⊎◌, refl, List, [], ◌∷◌, true, false, none, some, ◌==◌, if◌then◌else◌, elem, Bool-cases,
  inl, inr, arith,
}
use cpp_graduate.Perms.Loops.Lists.{Unique}
use cpp_graduate.LruC.HashMap.{chain_find, chain_remove}

module _ {V : Type 0} where
  abbrev pub chain_keys : List (ℕ × V) → List ℕ
  chain_keys [] = []
  chain_keys ((k, v) ∷ rest) = k ∷ chain_keys rest

  pub chain_find-none :
      (k : ℕ) (c : List (ℕ × V)) → chain_find k c ≡ none → elem k (chain_keys c) ≡ false
  unfolding chain_find
  chain_find-none k [] h = refl
  chain_find-none k ((j, v) ∷ rest) h = ground (arith, chain_find-none k rest)

  chain_find_absent :
      (k : ℕ) (c : List (ℕ × V)) → elem k (chain_keys c) ≡ false → chain_find k c ≡ none
  unfolding chain_find
  chain_find_absent k [] h = refl
  chain_find_absent k ((j, v) ∷ rest) h = ground (arith, chain_find_absent k rest)

  -- The chain without the first entry of the key.
  unfoldable pub without : ℕ → List (ℕ × V) → List (ℕ × V)
  without k [] = []
  without k ((j, v) ∷ rest) = if j == k then rest else (j, v) ∷ without k rest

  pub chain_remove_cases :
      (k : ℕ) (c : List (ℕ × V))
      → ((chain_find k c ≡ none) × (chain_remove k c ≡ none))
        ⊎ ((v : V) × (chain_find k c ≡ some v) × (chain_remove k c ≡ some (without k c)))
  unfolding chain_remove chain_find without
  chain_remove_cases k [] = inl (refl, refl)
  chain_remove_cases k ((j, v) ∷ rest) = elim (Bool-cases (j == k)) [
    | inl e ↦ inr (v, rw (e, if◌then◌else◌) refl, rw (e, if◌then◌else◌) refl)
    | inr e ↦ elim (chain_remove_cases k rest) [
      | inl (f, r) ↦ inl (rw (e, if◌then◌else◌) f, rw (e, r) refl)
      | inr (w, f, r) ↦ inr (w, rw (e, if◌then◌else◌) f, rw (e, r) refl)
    ]
  ]

  elem-without :
      (k j : ℕ) (c : List (ℕ × V))
      → elem j (chain_keys (without k c)) ≡ true
      → elem j (chain_keys c) ≡ true
  unfolding without
  elem-without k j [] h = h
  elem-without k j ((i, v) ∷ rest) h = ground (arith, elem-without k j rest)

  pub Unique-without :
      (k : ℕ) (c : List (ℕ × V)) → Unique (chain_keys c) → Unique (chain_keys (without k c))
  unfolding without
  Unique-without k [] u = u
  Unique-without k ((i, v) ∷ rest) u =
      ground (arith, elem-without k i rest, Unique-without k rest, u.1)

  pub find-without :
      (k j : ℕ) (c : List (ℕ × V))
      → Unique (chain_keys c)
      → chain_find j (without k c) ≡ (if k == j then none else chain_find j c)
  unfolding without chain_find
  find-without k j [] u = ground arith
  find-without k j ((i, v) ∷ rest) u =
      ground (arith, find-without k j rest u.1, chain_find_absent i rest u.0)
