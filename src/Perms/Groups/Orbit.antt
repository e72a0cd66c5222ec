-- ===== src/Perms/Groups/Orbit.antt =====
-- `orbit` of 17-algorithms/permutations/groups.hpp computes the orbit, and ends.
use mathlib.Core.List.{Memᴰ}
use mathlib.Core.Logic.{◌↔◌}
use cpp_graduate.Base.{
  ℕ, zero, suc, ◌<◌, ◌≡◌, refl, ap, sym, subst, ◌∙◌, ◌⊎◌, inl, inr, List, [], ◌∷◌, Bool, true,
  false, ◌||◌, elem, some, ◌==◌, Bool-cases, arith, ==_iff,
}
use cpp_graduate.Perms.Permutation.{Permutation, apply}
use cpp_graduate.Perms.Groups.{insert_all, expand, orbit_from, orbit}
use cpp_graduate.Perms.Groups.Sets.{
  elem-insert_all, missing, missing_lt, missing-nil, Comes, elem-expand_sound, elem-expand, or_true,
}

module _ (num : ℕ) (gens : List Permutation) where
  -- What the generators lead to from the element.
  pub data Reaches : ℕ → Type 0 where
    start : Reaches num
    step : (x : ℕ) (g : Permutation) → Reaches x → Memᴰ g gens → Reaches (apply g x)

  abbrev pub IsOrbit : List ℕ → Type 0
  IsOrbit o = (y : ℕ) → (elem y o ≡ true) ↔ Reaches y

  -- Between two rounds: what the generators make of an element seen is seen or next.
  record IsBetween (seen next : List ℕ) : Type 0 where
    sound : (y : ℕ) → elem y seen ≡ true → Reaches y
    sound_next : (y : ℕ) → elem y next ≡ true → Reaches y
    started : (elem num seen ≡ true) ⊎ (elem num next ≡ true)
    closed :
        (y : ℕ) (g : Permutation)
        → elem y seen ≡ true
        → Memᴰ g gens
        → (elem (apply g y) seen ≡ true) ⊎ (elem (apply g y) next ≡ true)
    fresh : (y : ℕ) → elem y next ≡ true → elem y seen ≡ false

  or_cases : (a b : Bool) → (a || b) ≡ true → (a ≡ true) ⊎ (b ≡ true)
  or_cases true b h = inl refl
  or_cases false b h = inr h

  seen_cases :
      (seen next : List ℕ) (y : ℕ)
      → elem y (insert_all seen next) ≡ true
      → (elem y next ≡ true) ⊎ (elem y seen ≡ true)
  seen_cases seen next y h =
      or_cases (elem y next) (elem y seen) (sym (elem-insert_all seen next y) ∙ h)

  seen_next :
      (seen next : List ℕ) (y : ℕ) → elem y next ≡ true → elem y (insert_all seen next) ≡ true
  seen_next seen next y h = elem-insert_all seen next y ∙ ap (λ z. z || elem y seen) h

  seen_old :
      (seen next : List ℕ) (y : ℕ) → elem y seen ≡ true → elem y (insert_all seen next) ≡ true
  seen_old seen next y h =
      elem-insert_all seen next y ∙ ap (λ z. elem y next || z) h ∙ or_true (elem y next)

  abbrev round_of : (seen next : List ℕ) → List ℕ
  round_of seen next = expand (insert_all seen next) gens next []

  comes_lem :
      (seen next : List ℕ) (y : ℕ)
      → elem y (round_of seen next) ≡ true
      → Comes (insert_all seen next) gens next y
  comes_lem seen next y h = elim (elem-expand_sound (insert_all seen next) gens next [] y h) [
    | inl e ↦ absurd cc
    | inr c ↦ c
  ]

  IsBetween-round :
      (seen next : List ℕ)
      → IsBetween seen next
      → IsBetween (insert_all seen next) (round_of seen next)
  IsBetween-round seen next b = record {
    sound =
        λ y h. elim (seen_cases seen next y h) [ inl e ↦ b.sound_next y e | inr e ↦ b.sound y e ];
    sound_next = λ y h.
        let (e, g, n, m, q, f) = comes_lem seen next y h in
        subst Reaches (sym q) (step e g (b.sound_next e n) m);
    started =
        inl
          (elim b.started [ inl e ↦ seen_old seen next num e | inr e ↦ seen_next seen next num e ]);
    closed = λ y g h m. elim (seen_cases seen next y h) [
      | inr e ↦ inl (elim (b.closed y g e m) [
        | inl c ↦ seen_old seen next (apply g y) c
        | inr c ↦ seen_next seen next (apply g y) c
      ])
      | inl e ↦ elim (Bool-cases (elem (apply g y) (insert_all seen next))) [
        | inl c ↦ inl c
        | inr c ↦ inr (new y g e m c)
      ]
    ];
    fresh = λ y h. (comes_lem seen next y h).5;
  }
    where
      new :
          (y : ℕ) (g : Permutation)
          → elem y next ≡ true
          → Memᴰ g gens
          → elem (apply g y) (insert_all seen next) ≡ false
          → elem (apply g y) (round_of seen next) ≡ true
      new y g e m c = elem-expand (insert_all seen next) gens next [] y g e m c

  -- Where nothing is next, the elements seen are the orbit.
  IsOrbit-done : (seen : List ℕ) → IsBetween seen [] → IsOrbit seen
  IsOrbit-done seen b y = (b.sound y, complete y)
    where
      left : (z : ℕ) → (elem z seen ≡ true) ⊎ (elem z [] ≡ true) → elem z seen ≡ true
      left z (inl e) = e
      left z (inr e) = absurd cc

      complete : (z : ℕ) → Reaches z → elem z seen ≡ true
      complete z start = left num b.started
      complete z (step x g r m) = left (apply g x) (b.closed x g (complete x r) m)

  module _ (bound : ℕ) (below : num < bound)
      (closed : (x : ℕ) (g : Permutation) → x < bound → Memᴰ g gens → apply g x < bound) where
    Reaches-lt : (y : ℕ) → Reaches y → y < bound
    Reaches-lt y start = below
    Reaches-lt y (step x g r m) = closed x g (Reaches-lt x r) m

    -- A round sees an element of the domain that was not seen.
    round_missing :
        (seen : List ℕ) (e : ℕ) (next : List ℕ)
        → IsBetween seen (e ∷ next)
        → missing bound (insert_all seen (e ∷ next)) < missing bound seen
    round_missing seen e next b =
        let here : elem e (e ∷ next) ≡ true = ap (λ z. z || elem e next) ((==_iff e e).1 refl) in
        missing_lt bound seen (insert_all seen (e ∷ next)) e (seen_old seen (e ∷ next))
          (Reaches-lt e (b.sound_next e here)) (b.fresh e here) (seen_next seen (e ∷ next) e here)

    orbit_from_ends :
        (fuel : ℕ) (seen next : List ℕ)
        → missing bound seen < fuel
        → IsBetween seen next
        → (o : List ℕ) × (orbit_from fuel gens seen next ≡ some o) × IsOrbit o
    unfolding orbit_from
    orbit_from_ends zero seen next lt b = absurd (omega arith)
    orbit_from_ends (suc fuel) seen [] lt b = (seen, refl, IsOrbit-done seen b)
    orbit_from_ends (suc fuel) seen (e ∷ next) lt b =
        let less = round_missing seen e next b in
        orbit_from_ends fuel (insert_all seen (e ∷ next)) (round_of seen (e ∷ next)) (omega arith)
          (IsBetween-round seen (e ∷ next) b)

    initial-IsBetween : IsBetween [] (num ∷ [])
    initial-IsBetween = record {
      sound = λ y h. absurd cc;
      sound_next = λ y h. elim (or_cases (num == y) false h) [
        | inl e ↦ subst Reaches ((==_iff num y).0 e) start
        | inr e ↦ absurd cc
      ];
      started = inr (ap (λ z. z || false) ((==_iff num num).1 refl));
      closed = λ y g h m. absurd cc;
      fresh = λ y h. refl;
    }

    -- For generators that do not lead out of the numbers below a bound, `orbit` ends, by a number of
    -- rounds below a fuel that is above the bound, and its result holds exactly the elements that the
    -- generators lead to from the given one.
    pub orbit-IsOrbit :
        (fuel : ℕ) → bound < fuel → (o : List ℕ) × (orbit fuel num gens ≡ some o) × IsOrbit o
    unfolding orbit
    orbit-IsOrbit fuel lt =
        let all = missing-nil bound in
        orbit_from_ends fuel [] (num ∷ []) (omega arith) initial-IsBetween
