-- ===== src/Perms/Idom.antt =====
-- idomain.hpp: the integral domain [start, fin], `Idom<T, start_, fin_>`. An element is its `val_`,
-- a number; the range is the predicate `InDomain`, which the constructor establishes or throws.
use cpp_graduate.Base.{
  ℕ, zero, suc, ◌+◌, ◌-◌, ◌≤◌, ◌<◌, ◌≡◌, refl, List, [], ◌∷◌, arith, ltb, if◌then◌else◌, length,
  get_or, get_or-set, set, ◌==◌,
}

-- The two `std::out_of_range` messages of the constructor.
pub data Checked : Type 0 where
  ok : ℕ → Checked
  too_big too_small : Checked

-- `start_ <= val_ <= fin_`
abbrev pub InDomain : ℕ → ℕ → ℕ → Type 0
InDomain start fin v = (start ≤ v) × (v ≤ fin)

-- `Idom(T val)`
unfoldable pub idom : ℕ → ℕ → ℕ → Checked
idom start fin val = if ltb fin val then too_big else if ltb val start then too_small else ok val

-- `std::iota` over `n` slots from `v`
unfoldable pub iota_from : ℕ → ℕ → List ℕ
iota_from zero v = []
iota_from (suc n) v = v ∷ iota_from n (suc v)

-- `Idom::iota()`: [start, ..., fin]
unfoldable pub iota : ℕ → ℕ → List ℕ
unfolding iota_from
iota start fin = iota_from (fin - start + 1) start

-- `table[v - T::start]`, read and written. A table is the values by position.
unfoldable pub at : ℕ → List ℕ → ℕ → ℕ
at start table v = get_or table (v - start) 0

unfoldable pub put : ℕ → List ℕ → ℕ → ℕ → List ℕ
put start table v a = set table (v - start) a

pub length-iota_from : (n v : ℕ) → length (iota_from n v) ≡ n
unfolding iota_from
length-iota_from zero v = refl
length-iota_from (suc n) v = omega (arith, length-iota_from n (suc v))

pub get_or-iota_from : (n v i : ℕ) → i < n → get_or (iota_from n v) i 0 ≡ v + i
unfolding iota_from
get_or-iota_from zero v i h = absurd (omega arith)
get_or-iota_from (suc n) v zero h = omega arith
get_or-iota_from (suc n) v (suc i) h = omega (arith, get_or-iota_from n (suc v) i)

module _ (start fin : ℕ) where
  -- The constructor accepts exactly the numbers of the domain and keeps them as they are.
  pub idom-ok_iff : (v w : ℕ) → (idom start fin v ≡ ok w → InDomain start fin v × (v ≡ w))
  unfolding idom
  idom-ok_iff v w h = ground arith

  pub idom-InDomain : (v : ℕ) → InDomain start fin v → idom start fin v ≡ ok v
  unfolding idom
  idom-InDomain v h = ground arith

  pub length-iota : start ≤ fin → length (iota start fin) ≡ fin - start + 1
  unfolding iota
  length-iota h = length-iota_from _ _

  pub at-iota : (v : ℕ) → InDomain start fin v → at start (iota start fin) v ≡ v
  unfolding iota at
  at-iota v h = omega (arith, get_or-iota_from (fin - start + 1) start (v - start))

  pub at-put :
      (table : List ℕ) (c v a : ℕ)
      → InDomain start fin c
      → InDomain start fin v
      → length table ≡ fin - start + 1
      → at start (put start table c a) v ≡ (if c == v then a else at start table v)
  unfolding at put
  at-put table c v a hc hv n = ground (arith, get_or-set table (c - start) (v - start) a 0)
