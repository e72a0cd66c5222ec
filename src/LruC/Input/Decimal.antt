-- ===== src/LruC/Input/Decimal.antt =====
-- The loop of `read_integer` of 01-basics/lru-in-c/src/main.c that reads digits.
use cpp_graduate.Base.{
  ℕ, ◌+◌, ◌-◌, ◌*◌, ◌^◌, ◌≤◌, ◌<◌, ◌≡◌, refl, ap, ◌∙◌, List, [], ◌∷◌, ◌++◌, true, false, not,
  Option, none, some, leb, if◌then◌else◌, All, Bool-cases, inl, inr, arith,
}
use cpp_graduate.LruC.Input.{is_digit, getchar, next_magnitude, exceeds, read_digits}

-- The number that digits say, after those read before.
unfoldable pub decimal : ℕ → List ℕ → ℕ
decimal a [] = a
decimal a (ch ∷ chs) = decimal (a * 10 + (ch - 48)) chs

abbrev pub IsDigit : ℕ → Type 0
IsDigit ch = is_digit ch ≡ true

-- The number ends there.
abbrev pub Stops : List ℕ → Type 0
Stops [] = Unit
Stops (ch ∷ rest) = is_digit ch ≡ false

decimal_le : (a : ℕ) (chs : List ℕ) → a ≤ decimal a chs
unfolding decimal
decimal_le a [] = omega arith
decimal_le a (ch ∷ chs) = omega (arith, decimal_le (a * 10 + (ch - 48)) chs)

exceeds_lem :
    (limit magnitude ch : ℕ)
    → IsDigit ch
    → 9 ≤ limit
    → limit < 2 ^ 64
    → exceeds limit magnitude ch ≡ not (leb (magnitude * 10 + (ch - 48)) limit)
unfolding exceeds is_digit
exceeds_lem limit magnitude ch d low high = ground arith

next_magnitude_lem :
    (limit magnitude ch : ℕ)
    → limit < 2 ^ 64
    → leb (magnitude * 10 + (ch - 48)) limit ≡ true
    → next_magnitude magnitude ch ≡ magnitude * 10 + (ch - 48)
unfolding next_magnitude
next_magnitude_lem limit magnitude ch high h = ground arith

-- What the loop gives, by the number that its digits say.
abbrev read_as : ℕ → ℕ → List ℕ → Option (ℕ × Option ℕ × List ℕ)
read_as limit n tail = if leb n limit then some (n, (getchar tail).0, (getchar tail).1) else none

read_digits_over :
    (limit magnitude ch : ℕ) (l : List ℕ)
    → exceeds limit magnitude ch ≡ true
    → read_digits limit magnitude ch l ≡ none
unfolding read_digits
read_digits_over limit magnitude ch [] over = rw (over, if◌then◌else◌) refl
read_digits_over limit magnitude ch (x ∷ l) over = rw (over, if◌then◌else◌) refl

-- A number that is too big at some digit stays so.
refused_from :
    (limit magnitude ch : ℕ) (chs tail : List ℕ)
    → IsDigit ch
    → 9 ≤ limit
    → limit < 2 ^ 64
    → leb (magnitude * 10 + (ch - 48)) limit ≡ false
    → read_digits limit magnitude ch (chs ++ tail)
      ≡ read_as limit (decimal (magnitude * 10 + (ch - 48)) chs) tail
refused_from limit magnitude ch chs tail d low high e =
    let le = decimal_le (magnitude * 10 + (ch - 48)) chs in
    let big : leb (decimal (magnitude * 10 + (ch - 48)) chs) limit ≡ false = ground arith in
    read_digits_over limit magnitude ch (chs ++ tail)
      (exceeds_lem limit magnitude ch d low high ∙ ap not e)
    ∙ rw (big, if◌then◌else◌) refl

pub read_digits_lem :
    (limit magnitude ch : ℕ) (chs tail : List ℕ)
    → IsDigit ch
    → All IsDigit chs
    → Stops tail
    → 9 ≤ limit
    → limit < 2 ^ 64
    → read_digits limit magnitude ch (chs ++ tail) ≡ (
        if leb (decimal magnitude (ch ∷ chs)) limit
        then some (decimal magnitude (ch ∷ chs), (getchar tail).0, (getchar tail).1)
        else none)
unfolding read_digits decimal getchar
read_digits_lem limit magnitude ch [] [] d ds t low high =
    elim (Bool-cases (leb (magnitude * 10 + (ch - 48)) limit)) [
      | inr e ↦ refused_from limit magnitude ch [] [] d low high e
      | inl e ↦
          let n = next_magnitude_lem limit magnitude ch high e in
          rw (exceeds_lem limit magnitude ch d low high, e, not, if◌then◌else◌, n) refl
    ]
read_digits_lem limit magnitude ch [] (x ∷ tail) d ds t low high =
    elim (Bool-cases (leb (magnitude * 10 + (ch - 48)) limit)) [
      | inr e ↦ refused_from limit magnitude ch [] (x ∷ tail) d low high e
      | inl e ↦
          let n = next_magnitude_lem limit magnitude ch high e in
          rw (exceeds_lem limit magnitude ch d low high, e, not, if◌then◌else◌, t, n) refl
    ]
read_digits_lem limit magnitude ch (c ∷ chs) tail d (q, ds) t low high =
    let ih = read_digits_lem limit (magnitude * 10 + (ch - 48)) c chs tail q ds t low high in
    elim (Bool-cases (leb (magnitude * 10 + (ch - 48)) limit)) [
      | inr e ↦ refused_from limit magnitude ch (c ∷ chs) tail d low high e
      | inl e ↦
          let n = next_magnitude_lem limit magnitude ch high e in
          rw (exceeds_lem limit magnitude ch d low high, e, not, if◌then◌else◌, q, n) ih
    ]
