-- ===== src/Constexpr/Sqrt.antt =====
-- The square root of 18-constexpr/isqrt.cc is the integer part of the root, where `int` does not
-- overflow.
use cpp_graduate.Base.{
  ℕ, zero, suc, ◌+◌, ◌-◌, ◌*◌, ◌/◌, ◌<◌, ◌≤◌, ◌≡◌, refl, sym, subst, ◌∙◌, inl, inr, true, false,
  Option, some, ◌==◌, if◌then◌else◌, Bool-cases, ==_iff, ltb, ltb→lt, lt→ltb, arith,
}
use native.Mathlib.Nat.{mul-le-mul}
use cpp_graduate.Constexpr.{sqrt_from, sqrt}

not_below : (a b : ℕ) → ltb a b ≡ false → b ≤ a
not_below a b h = ground arith

differ : (a b : ℕ) → a ≤ b → (a == b) ≡ false → a < b
differ a b h e = ground arith

-- The middle of an interval of more than one number is above its lower end and not above its upper one,
-- and its square is an `int`.
middle_lem :
    (l h : ℕ)
    → l < h
    → (l < (l + h + 1) / 2)
      × ((l + h + 1) / 2 ≤ h)
      × (l + h + 1 < 2 * ((l + h + 1) / 2) + 2)
      × (2 * ((l + h + 1) / 2) ≤ l + h + 1)
middle_lem l h lt = (omega arith, omega arith, omega arith, omega arith)

square_lt : (m : ℕ) → m ≤ 46340 → m * m < 2147483648
square_lt m h = let s : m * m ≤ 46340 * 46340 = mul-le-mul h h in omega arith

abbrev mid : ℕ → ℕ → ℕ
mid l h = (l + h + 1) / 2

sqrt_end :
    (f n l h : ℕ) → (l == h) ≡ true → (l == mid l h) ≡ true → sqrt_from (suc f) n l h ≡ some l
unfolding sqrt_from
sqrt_end f n l h e g = rw (e, g, if◌then◌else◌) refl

sqrt_step :
    (f n l h : ℕ)
    → (l == h) ≡ false
    → ltb (mid l h * mid l h) 2147483648 ≡ true
    → sqrt_from (suc f) n l h
      ≡ sqrt_from f n
          (if ltb n (mid l h * mid l h) then l else mid l h)
          (if ltb n (mid l h * mid l h) then mid l h - 1 else h)
unfolding sqrt_from
sqrt_step f n l h e s = rw (e, s, if◌then◌else◌) refl

mid_same : (l h : ℕ) → l ≡ h → l ≡ mid l h
mid_same l h e = omega arith

pred_suc : (m : ℕ) → 0 < m → suc (m - 1) ≡ m
pred_suc m h = omega arith

abbrev IsRoot : ℕ → Option ℕ → Type 0
IsRoot n o = (r : ℕ) × (o ≡ some r) × (r * r ≤ n) × (n < suc r * suc r)

sqrt_from_lem :
    (f n l h : ℕ)
    → h < l + f
    → l ≤ h
    → h ≤ 46340
    → l * l ≤ n
    → n < suc h * suc h
    → IsRoot n (sqrt_from f n l h)
sqrt_from_lem zero n l h fuel le small low high = absurd (omega arith)
sqrt_from_lem (suc f) n l h fuel le small low high = elim (Bool-cases (l == h)) [
  | inl e ↦
      let same = (==_iff l h).0 e in
      let end = sqrt_end f n l h e ((==_iff l (mid l h)).1 (mid_same l h same)) in
      (l, end, low, subst (λ k. n < suc k * suc k) (sym same) high)
  | inr e ↦
      let (above, top, _, _) = middle_lem l h (differ l h le e) in
      let step =
        sqrt_step f n l h e
          (lt→ltb (mid l h * mid l h) 2147483648 (square_lt (mid l h) (omega arith))) in
      elim (Bool-cases (ltb n (mid l h * mid l h))) [
        | inl b ↦
            let less =
              subst (λ k. n < k * k) (sym (pred_suc (mid l h) (omega arith)))
                (ltb→lt n (mid l h * mid l h) b) in
            let ih =
              sqrt_from_lem f n l (mid l h - 1) (omega arith) (omega arith) (omega arith) low
                less in
            subst (IsRoot n) (sym (step ∙ rw (b, if◌then◌else◌) refl)) ih
        | inr b ↦
            let ih =
              sqrt_from_lem f n (mid l h) h (omega arith) top small
                (not_below n (mid l h * mid l h) b) high in
            subst (IsRoot n) (sym (step ∙ rw (b, if◌then◌else◌) refl)) ih
      ]
]

square_above : (n : ℕ) → n < suc n * suc n
square_above n =
    let s : suc n * 1 ≤ suc n * suc n = mul-le-mul (omega arith) (omega arith) in omega arith

-- For a number from 1 to 46340, whose square is an `int`, `Sqrt` is the greatest number whose square is
-- not above it, with a number of instantiations that is at most the number.
sqrt_lem :
    (fuel n : ℕ)
    → n ≤ fuel
    → 0 < n
    → n ≤ 46340
    → (r : ℕ) × (sqrt fuel n ≡ some r) × (r * r ≤ n) × (n < suc r * suc r)
unfolding sqrt
sqrt_lem fuel n h pos small =
    sqrt_from_lem fuel n 1 n (omega arith) (omega arith) small (omega arith) (square_above n)
