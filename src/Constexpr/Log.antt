-- ===== src/Constexpr/Log.antt =====
-- `static_log` of 18-constexpr/static-log.cc is the logarithm of base 2, rounded up.
use native.Mathlib.Nat.{div-eq_of_lt, div-eq_of_lt-le, two-pow-succ, one-le-pow, pow-le-pow_right}
use cpp_graduate.Base.{
  ℕ, zero, suc, ◌+◌, ◌/◌, ◌%◌, ◌^◌, ◌<◌, ◌≤◌, ◌≡◌, refl, ◌↔◌, inl, inr, true, false, some, ◌==◌,
  if◌then◌else◌, Bool-cases, ==_iff, leb, leb→le, arith,
}
use cpp_graduate.Constexpr.{find_bit, static_log}

bit_set : (n m : ℕ) → m ≤ n → n < m + m → (n / m % 2 == 1) ≡ true
bit_set n m h k =
    let q : n / m ≡ 1 = div-eq_of_lt-le {k = 1} m (omega arith) (omega arith) in rw q refl

bit_unset : (n m : ℕ) → n < m → (n / m % 2 == 1) ≡ false
bit_unset n m h = let q : n / m ≡ 0 = div-eq_of_lt h in rw q refl

below : (a b : ℕ) → leb a b ≡ false → b < a
below a b h = ground arith

-- The loop stops at the highest bit.
find_bit_lem :
    (p n : ℕ)
    → 0 < n
    → n < 2 ^ p
    → (q : ℕ) × (find_bit p n ≡ some q) × (2 ^ q ≤ n) × (n < 2 ^ suc q)
unfolding find_bit
find_bit_lem zero n pos lt = absurd (omega arith)
find_bit_lem (suc p) n pos lt =
    let double = two-pow-succ p in
    elim (Bool-cases (leb (2 ^ p) n)) [
      | inl e ↦
          let h = leb→le (2 ^ p) n e in
          (p, rw (bit_set n (2 ^ p) h (omega arith), if◌then◌else◌) refl, h, lt)
      | inr e ↦
          let less = below (2 ^ p) n e in
          let (q, r, h, k) = find_bit_lem p n pos less in
          (q, rw (bit_unset n (2 ^ p) less, if◌then◌else◌) r, h, k)
    ]

pow_lt : (a b : ℕ) → a < b → 2 ^ a < 2 ^ b
pow_lt a b h =
    let up : 2 ^ suc a ≤ 2 ^ b = pow-le-pow_right (omega arith) h in
    let double = two-pow-succ a in let one : 1 ≤ 2 ^ a = one-le-pow a 2 (omega arith) in omega arith

pow_reflects_le : (a b : ℕ) → 2 ^ a ≤ 2 ^ b → a ≤ b
pow_reflects_le a b h = elim (Bool-cases (leb a b)) [
  | inl e ↦ leb→le a b e
  | inr e ↦ let up = pow_lt b a (below a b e) in absurd (omega arith)
]

pow_reflects_lt : (a b : ℕ) → 2 ^ a < 2 ^ b → a < b
pow_reflects_lt a b h = elim (Bool-cases (leb b a)) [
  | inr e ↦ below b a e
  | inl e ↦
      let up : 2 ^ b ≤ 2 ^ a = pow-le-pow_right (omega arith) (leb→le b a e) in absurd (omega arith)
]

not_zero : (n : ℕ) → 0 < n → (n == 0) ≡ false
not_zero n h = ground arith

above : (n m : ℕ) → m ≤ n → (n == m) ≡ false → m < n
above n m h e = ground arith

-- For a number above zero that fits 64 bits, `static_log` returns the least exponent whose power of 2 is
-- not below the number.
pub static_log_lem :
    (n : ℕ)
    → 0 < n
    → n < 2 ^ 64
    → (r : ℕ) × (static_log n ≡ some r) × ((k : ℕ) → (n ≤ 2 ^ k) ↔ (r ≤ k))
unfolding static_log
static_log_lem n pos lt =
    let (q, e, h, k) = find_bit_lem 64 n pos lt in
    let some_bit : (n == 0) ≡ false = not_zero n pos in
    elim (Bool-cases (n == 2 ^ q)) [
      | inl f ↦
          let same = (==_iff n (2 ^ q)).0 f in
          (
            q,
            rw (some_bit, if◌then◌else◌) (rw e (rw (f, if◌then◌else◌) refl)),
            λ c. (
              λ le. pow_reflects_le q c (omega arith),
              λ le. let up : 2 ^ q ≤ 2 ^ c = pow-le-pow_right (omega arith) le in omega arith,
            ),
          )
      | inr f ↦
          let more = above n (2 ^ q) h f in
          (
            suc q,
            rw (some_bit, if◌then◌else◌) (rw e (rw (f, if◌then◌else◌) refl)),
            λ c. (
              λ le. let up = pow_reflects_lt q c (omega arith) in omega arith,
              λ le. let up : 2 ^ suc q ≤ 2 ^ c = pow-le-pow_right (omega arith) le in omega arith,
            ),
          )
    ]
