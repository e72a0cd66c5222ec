-- ===== src/LruC/Input/Digits.antt =====
-- What `read_integer` of 01-basics/lru-in-c/src/main.c accepts.
use cpp_graduate.Base.{
  ℕ, zero, suc, sym, ◌-◌, ◌^◌, ◌≤◌, ◌<◌, ◌≡◌, refl, ap, ◌∙◌, List, [], ◌∷◌, ◌++◌, Bool, true, false,
  ◌&&◌, not, Option, none, some, ◌==◌, leb, if◌then◌else◌, All, Bool-cases, inl, inr, arith,
}
use cpp_graduate.LruC.Input.{
  Input, isspace, is_digit, skip_spaces, getchar, limit_of, value_of, after_digits, after_sign,
  after_spaces, read_integer,
}
use cpp_graduate.LruC.Input.Decimal.{decimal, IsDigit, Stops, read_digits_lem}

-- The characters of a sign, and whether a number with it is negative.
abbrev pub sign_chars : Option Bool → List ℕ
sign_chars none = []
sign_chars (some true) = 45 ∷ []
sign_chars (some false) = 43 ∷ []

abbrev pub is_negative : Option Bool → Bool
is_negative none = false
is_negative (some b) = b

-- The number ends at the end of an unbroken input, or at a space.
abbrev pub ends_well : Bool → List ℕ → Bool
ends_well broken [] = not broken
ends_well broken (ch ∷ rest) = isspace ch

swapped :
    {A : Type 0} → (b : Bool) (x : Option A) → (if b then none else x) ≡ (if not b then x else none)
swapped true x = refl
swapped false x = refl

after_sign_lem :
    (broken negative : Bool) (ch : ℕ) (chs tail : List ℕ)
    → IsDigit ch
    → All IsDigit chs
    → Stops tail
    → after_sign broken negative (some ch, chs ++ tail) ≡ (
        if leb (decimal 0 (ch ∷ chs)) (limit_of negative) && ends_well broken tail
        then some (value_of negative (decimal 0 (ch ∷ chs)), (getchar tail).1)
        else none)
unfolding after_sign after_digits limit_of getchar
after_sign_lem broken negative ch chs tail d ds t =
    rw
      (
        after_sign,
        d,
        if◌then◌else◌,
        read_digits_lem (limit_of negative) 0 ch chs tail d ds t (low negative) (high negative),
      )
      (ended (leb (decimal 0 (ch ∷ chs)) (limit_of negative)) tail)
  where
    low : (b : Bool) → 9 ≤ limit_of b
    low true = omega arith
    low false = omega arith

    high : (b : Bool) → limit_of b < 2 ^ 64
    high true = omega arith
    high false = omega arith

    ended :
        (b : Bool) (tail : List ℕ)
        → after_digits broken negative
            (if b then some (decimal 0 (ch ∷ chs), (getchar tail).0, (getchar tail).1) else none)
          ≡ (if b && ends_well broken tail
              then some (value_of negative (decimal 0 (ch ∷ chs)), (getchar tail).1)
              else none)
    ended false tail = refl
    ended true [] = swapped broken (some (value_of negative (decimal 0 (ch ∷ chs)), []))
    ended true (c ∷ rest) = refl

skip_spaces_lem :
    (spaces l : List ℕ)
    → All (λ c. isspace c ≡ true) spaces
    → skip_spaces (spaces ++ l) ≡ skip_spaces l
unfolding skip_spaces
skip_spaces_lem [] l a = refl
skip_spaces_lem (c ∷ spaces) l (e, a) = rw (e, if◌then◌else◌) (skip_spaces_lem spaces l a)

digit_no_space :
    (ch : ℕ) → IsDigit ch → ((isspace ch ≡ false) × ((ch == 45) ≡ false) × ((ch == 43) ≡ false))
unfolding isspace is_digit
digit_no_space ch d = (ground arith, ground arith, ground arith)

-- Without a sign the number begins with what is no space and no sign.
abbrev pub Begins : Option Bool → List ℕ → Type 0
Begins (some b) l = Unit
Begins none [] = Unit
Begins none (ch ∷ rest) = (isspace ch ≡ false) × ((ch == 45) ≡ false) × ((ch == 43) ≡ false)

-- What `read_integer` makes of spaces, a sign or none, and at least one digit.
digits_lem :
    (spaces : List ℕ) (sign : Option Bool) (ch : ℕ) (chs tail : List ℕ) (broken : Bool)
    → All (λ c. isspace c ≡ true) spaces
    → IsDigit ch
    → All IsDigit chs
    → Stops tail
    → read_integer
        (record { bytes = spaces ++ (sign_chars sign ++ ch ∷ (chs ++ tail)); broken = broken })
      ≡ (if leb (decimal 0 (ch ∷ chs)) (limit_of (is_negative sign)) && ends_well broken tail
          then some (
            value_of (is_negative sign) (decimal 0 (ch ∷ chs)),
            record { bytes = (getchar tail).1; broken = broken },
          )
          else none)
unfolding read_integer after_spaces getchar skip_spaces
digits_lem spaces sign ch chs tail broken a d ds t =
    ap finish (
      ap (after_spaces broken) (skip_spaces_lem spaces (sign_chars sign ++ ch ∷ (chs ++ tail)) a)
      ∙ from sign)
    ∙ moved (leb (decimal 0 (ch ∷ chs)) (limit_of (is_negative sign)) && ends_well broken tail)
  where
    finish : Option (ℕ × List ℕ) → Option (ℕ × Input)
    finish none = none
    finish (some (value, rest)) = some (value, record { bytes = rest; broken = broken })

    from :
        (s : Option Bool)
        → after_spaces broken (skip_spaces (sign_chars s ++ ch ∷ (chs ++ tail))) ≡ (
            if leb (decimal 0 (ch ∷ chs)) (limit_of (is_negative s)) && ends_well broken tail
            then some (value_of (is_negative s) (decimal 0 (ch ∷ chs)), (getchar tail).1)
            else none)
    from none =
        let (x, y, z) = digit_no_space ch d in
        rw (x, if◌then◌else◌, y, z) (after_sign_lem broken false ch chs tail d ds t)
    from (some true) = after_sign_lem broken true ch chs tail d ds t
    from (some false) = after_sign_lem broken false ch chs tail d ds t

    moved :
        (b : Bool)
        → finish (
            if b
            then some (value_of (is_negative sign) (decimal 0 (ch ∷ chs)), (getchar tail).1)
            else none)
          ≡ (if b
              then some (
                value_of (is_negative sign) (decimal 0 (ch ∷ chs)),
                record { bytes = (getchar tail).1; broken = broken },
              )
              else none)
    moved true = refl
    moved false = refl

-- Without a digit nothing is read.
no_digits_lem :
    (spaces : List ℕ) (sign : Option Bool) (tail : List ℕ) (broken : Bool)
    → All (λ c. isspace c ≡ true) spaces
    → Stops tail
    → Begins sign tail
    → read_integer (record { bytes = spaces ++ (sign_chars sign ++ tail); broken = broken }) ≡ none
unfolding read_integer after_spaces after_sign getchar skip_spaces
no_digits_lem spaces sign tail broken a t b = ap finish (
    ap (after_spaces broken) (skip_spaces_lem spaces (sign_chars sign ++ tail) a)
    ∙ from sign tail t b)
  where
    finish : Option (ℕ × List ℕ) → Option (ℕ × Input)
    finish none = none
    finish (some (value, rest)) = some (value, record { bytes = rest; broken = broken })

    from :
        (s : Option Bool) (tail : List ℕ)
        → Stops tail
        → Begins s tail
        → after_spaces broken (skip_spaces (sign_chars s ++ tail)) ≡ none
    from none [] t b = refl
    from none (c ∷ rest) t (x, y, z) = rw (x, if◌then◌else◌, y, z, t) refl
    from (some true) [] t b = refl
    from (some true) (c ∷ rest) t b = rw (t, if◌then◌else◌) refl
    from (some false) [] t b = refl
    from (some false) (c ∷ rest) t b = rw (t, if◌then◌else◌) refl

-- The numbers of `int64_t`, by their sign and their distance from zero, and their bit patterns.
abbrev pub fits : Bool → ℕ → Bool
fits true n = leb n 9223372036854775808
fits false n = leb n 9223372036854775807

abbrev pub twos_complement : Bool → ℕ → ℕ
twos_complement true zero = 0
twos_complement true (suc n) = 18446744073709551615 - n
twos_complement false n = n

fits_lem : (negative : Bool) (n : ℕ) → leb n (limit_of negative) ≡ fits negative n
unfolding limit_of
fits_lem true n = refl
fits_lem false n = refl

twos_complement_lem :
    (negative : Bool) (n : ℕ)
    → leb n (limit_of negative) ≡ true
    → value_of negative n ≡ twos_complement negative n
unfolding value_of limit_of
twos_complement_lem true zero h = refl
twos_complement_lem true (suc n) h = ground arith
twos_complement_lem false n h = refl

-- The digits say a number, which is there.
abbrev pub says : Bool → List ℕ → Bool
says negative [] = false
says negative (ch ∷ chs) = fits negative (decimal 0 (ch ∷ chs))

abbrev read_if : Bool → ℕ → Input → Option (ℕ × Input)
read_if b value rest = if b then some (value, rest) else none

as_int64 :
    (negative well : Bool) (n : ℕ) (rest : Input)
    → read_if (leb n (limit_of negative) && well) (value_of negative n) rest
      ≡ read_if (fits negative n && well) (twos_complement negative n) rest
as_int64 negative well n rest = elim (Bool-cases (leb n (limit_of negative))) [
  | inl e ↦
      ap (λ v. read_if (leb n (limit_of negative) && well) v rest)
        (twos_complement_lem negative n e)
      ∙ ap (λ b. read_if (b && well) (twos_complement negative n) rest) (fits_lem negative n)
  | inr e ↦ let f : fits negative n ≡ false = sym (fits_lem negative n) ∙ e in rw (e, f) refl
]

-- What `read_integer` makes of any input: spaces, a sign or none, digits or none, and the rest, which does
-- not begin with a digit, and where there is no sign not with a space or a sign before the digits. It
-- gives a number exactly when there is a digit, the digits and the sign say a number from -2^63 to 2^63 - 1,
-- and the input ends without an error or a space follows; it is then that number in two's complement, and
-- the input goes on after the space.
pub read_integer_lem :
    (spaces : List ℕ) (sign : Option Bool) (digits tail : List ℕ) (broken : Bool)
    → All (λ c. isspace c ≡ true) spaces
    → All IsDigit digits
    → Stops tail
    → Begins sign (digits ++ tail)
    → read_integer
        (record { bytes = spaces ++ (sign_chars sign ++ (digits ++ tail)); broken = broken })
      ≡ (if says (is_negative sign) digits && ends_well broken tail
          then some (
            twos_complement (is_negative sign) (decimal 0 digits),
            record { bytes = (getchar tail).1; broken = broken },
          )
          else none)
read_integer_lem spaces sign [] tail broken a ds t b = no_digits_lem spaces sign tail broken a t b
read_integer_lem spaces sign (ch ∷ chs) tail broken a (d, ds) t b =
    digits_lem spaces sign ch chs tail broken a d ds t
    ∙ as_int64 (is_negative sign) (ends_well broken tail) (decimal 0 (ch ∷ chs))
        (record { bytes = (getchar tail).1; broken = broken })
