-- ===== src/Perms/Create/Marks.antt =====
-- The flags of `create_loops`.
use cpp_graduate.Base.{
  ℕ, zero, suc, ◌+◌, ◌-◌, ◌≤◌, ◌<◌, ◌≡◌, refl, ap, sym, ◌∙◌, List, [], ◌∷◌, Bool, true, false, ◌||◌,
  arith, ◌==◌, length, get_or, set, drop, length-set, get_or-set,
}
use cpp_graduate.Perms.Idom.{InDomain}
use cpp_graduate.Perms.Create.{is_marked, mark, find_false}

-- The flags that are still false.
pub unseen : List Bool → ℕ
unseen [] = 0
unseen (false ∷ bs) = suc (unseen bs)
unseen (true ∷ bs) = unseen bs

pub unseen-le : (bs : List Bool) → unseen bs ≤ length bs
unfolding unseen
unseen-le [] = omega arith
unseen-le (false ∷ bs) = omega (arith, unseen-le bs)
unseen-le (true ∷ bs) = omega (arith, unseen-le bs)

unseen-set :
    (bs : List Bool) (i : ℕ)
    → i < length bs
    → get_or bs i false ≡ false
    → suc (unseen (set bs i true)) ≡ unseen bs
unfolding unseen
unseen-set [] i h e = absurd (omega arith)
unseen-set (b ∷ bs) zero h e = ground arith
unseen-set (false ∷ bs) (suc i) h e = ap suc (unseen-set bs i (omega arith) e)
unseen-set (true ∷ bs) (suc i) h e = unseen-set bs i (omega arith) e

module _ (start fin : ℕ) where
  pub length-mark : (m : List Bool) (v : ℕ) → length (mark start m v) ≡ length m
  unfolding mark
  length-mark m v = length-set m (v - start) true

  pub is_marked-mark :
      (m : List Bool) (c v : ℕ)
      → InDomain start fin c
      → InDomain start fin v
      → length m ≡ fin - start + 1
      → is_marked start (mark start m c) v ≡ (c == v || is_marked start m v)
  unfolding is_marked mark
  is_marked-mark m c v hc hv n = ground (arith, get_or-set m (c - start) (v - start) true false)

  pub unseen-mark :
      (m : List Bool) (v : ℕ)
      → InDomain start fin v
      → length m ≡ fin - start + 1
      → is_marked start m v ≡ false
      → suc (unseen (mark start m v)) ≡ unseen m
  unfolding is_marked mark
  unseen-mark m v h n e = unseen-set m (v - start) (omega arith) e

get_or-drop : (bs : List Bool) (i j : ℕ) → get_or (drop i bs) j false ≡ get_or bs (i + j) false
get_or-drop bs zero j = let e : 0 + j ≡ j = omega arith in rw e refl
get_or-drop [] (suc i) j = refl
get_or-drop (b ∷ bs) (suc i) j =
    let e : suc i + j ≡ suc (i + j) = omega arith in rw e (get_or-drop bs i j)

length-drop : (bs : List Bool) (i : ℕ) → length (drop i bs) ≡ length bs - i
length-drop bs zero = omega arith
length-drop [] (suc i) = omega arith
length-drop (b ∷ bs) (suc i) = omega (arith, length-drop bs i)

-- The search skips flags that are set, and stops at one that is not or at the end.
find_false_lem :
    (bs : List Bool) (i : ℕ)
    → (i ≤ find_false bs i)
      × (find_false bs i ≤ i + length bs)
      × ((j : ℕ) → j < find_false bs i - i → get_or bs j false ≡ true)
      × (get_or bs (find_false bs i - i) false ≡ false)
unfolding find_false
find_false_lem [] i = (omega arith, omega arith, λ j h. absurd (omega arith), refl)
find_false_lem (false ∷ bs) i = (
  omega arith,
  omega arith,
  λ j h. absurd (omega arith),
  (let e : i - i ≡ 0 = omega arith in rw e refl),
)
find_false_lem (true ∷ bs) i =
    let (a, b, c, d) = find_false_lem bs (suc i) in
    (
      omega arith,
      omega arith,
      λ j h. skipped j c h,
      (let e : find_false bs (suc i) - i ≡ suc (find_false bs (suc i) - suc i) = omega arith in
          rw e d),
    )
  where
    skipped :
        (j : ℕ)
        → ((j : ℕ) → j < find_false bs (suc i) - suc i → get_or bs j false ≡ true)
        → j < find_false bs (suc i) - i
        → get_or (true ∷ bs) j false ≡ true
    skipped zero c h = refl
    skipped (suc j) c h = c j (omega arith)

module _ (start fin : ℕ) (m : List Bool) (relt : ℕ) (n : length m ≡ fin - start + 1) where
  abbrev pub found : ℕ
  found = find_false (drop (suc relt) m) (suc relt)

  pub found_range : relt < length m → (relt < found) × (found ≤ length m)
  found_range h =
      let (a, b, c, d) = find_false_lem (drop (suc relt) m) (suc relt) in
      omega (arith, length-drop m (suc relt))

  -- Between the position and the one that is found all flags are set.
  pub found_below : (v : ℕ) → start + relt < v → v < start + found → is_marked start m v ≡ true
  unfolding is_marked
  found_below v h k =
      let (a, b, c, d) = find_false_lem (drop (suc relt) m) (suc relt) in
      let j = v - start - suc relt in
      ap (λ i. get_or m i false) (omega arith)
      ∙ sym (get_or-drop m (suc relt) j)
      ∙ c j (omega arith)

  pub found_unmarked : is_marked start m (start + found) ≡ false
  unfolding is_marked
  found_unmarked =
      let (a, b, c, d) = find_false_lem (drop (suc relt) m) (suc relt) in
      ap (λ i. get_or m i false) (omega arith)
      ∙ sym (get_or-drop m (suc relt) (found - suc relt))
      ∙ d
