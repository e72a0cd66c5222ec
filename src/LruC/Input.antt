-- ===== src/LruC/Input.antt =====
-- `read_integer` of 01-basics/lru-in-c/src/main.c. A character is its code, and an `int64_t` its bit pattern.
pub mod Decimal
pub mod Digits
use cpp_graduate.Base.{
  ℕ, zero, suc, ◌+◌, ◌-◌, ◌*◌, ◌/◌, ◌%◌, ◌^◌, List, [], ◌∷◌, Bool, true, false, ◌||◌, ◌&&◌, not,
  Option, none, some, ◌==◌, leb, ltb, if◌then◌else◌,
}

-- Standard input: what is left of it, and whether it ends in an error.
pub record Input : Type 0 where
  pub bytes : List ℕ
  pub broken : Bool

-- `isspace` of the C locale
unfoldable pub isspace : ℕ → Bool
isspace ch = ch == 32 || (leb 9 ch && leb ch 13)

unfoldable pub is_digit : ℕ → Bool
is_digit ch = leb 48 ch && leb ch 57

-- The first loop: the first character that is not a space, and what follows it.
unfoldable pub skip_spaces : List ℕ → Option ℕ × List ℕ
unfolding isspace
skip_spaces [] = (none, [])
skip_spaces (ch ∷ rest) =
    let after = skip_spaces rest in if isspace ch then after else (some ch, rest)

unfoldable pub getchar : List ℕ → Option ℕ × List ℕ
getchar [] = (none, [])
getchar (ch ∷ rest) = (some ch, rest)

-- One step of the second loop, in `uint64_t`, and the test before it.
unfoldable pub next_magnitude : ℕ → ℕ → ℕ
next_magnitude magnitude ch = (magnitude * 10 + (ch - 48)) % 2 ^ 64

unfoldable pub exceeds : ℕ → ℕ → ℕ → Bool
exceeds limit magnitude ch = ltb ((limit + 2 ^ 64 - (ch - 48)) % 2 ^ 64 / 10) magnitude

-- The second loop, from a digit on: the magnitude, the character that ends the number, and what follows it.
unfoldable pub read_digits : ℕ → ℕ → ℕ → List ℕ → Option (ℕ × Option ℕ × List ℕ)
unfolding next_magnitude exceeds is_digit
read_digits limit magnitude ch [] =
    if exceeds limit magnitude ch then none else some (next_magnitude magnitude ch, none, [])
read_digits limit magnitude ch (d ∷ rest) =
    let more = read_digits limit (next_magnitude magnitude ch) d rest in
    if exceeds limit magnitude ch
    then none
    else (if is_digit d then more else some (next_magnitude magnitude ch, some d, rest))

-- `INT64_MAX`, or one more below zero
unfoldable pub limit_of : Bool → ℕ
limit_of negative = if negative then 2 ^ 63 - 1 + 1 else 2 ^ 63 - 1

unfoldable pub value_of : Bool → ℕ → ℕ
value_of negative magnitude =
    if negative && magnitude == 2 ^ 63
    then 2 ^ 63
    else (if negative then (2 ^ 64 - magnitude) % 2 ^ 64 else magnitude)

-- The end of `read_integer`: EOF with an error on the stream, or a character that is not a space, is
-- refused.
unfoldable pub after_digits : Bool → Bool → Option (ℕ × Option ℕ × List ℕ) → Option (ℕ × List ℕ)
unfolding value_of isspace
after_digits broken negative none = none
after_digits broken negative (some (magnitude, none, rest)) =
    if broken then none else some (value_of negative magnitude, rest)
after_digits broken negative (some (magnitude, some ch, rest)) =
    if isspace ch then some (value_of negative magnitude, rest) else none

unfoldable pub after_sign : Bool → Bool → Option ℕ × List ℕ → Option (ℕ × List ℕ)
unfolding after_digits read_digits limit_of
after_sign broken negative (none, rest) = none
after_sign broken negative (some ch, rest) =
    if is_digit ch
    then after_digits broken negative (read_digits (limit_of negative) 0 ch rest)
    else none

unfoldable pub after_spaces : Bool → Option ℕ × List ℕ → Option (ℕ × List ℕ)
unfolding after_sign getchar
after_spaces broken (none, rest) = none
after_spaces broken (some ch, rest) =
    after_sign broken (ch == 45) (if ch == 45 || ch == 43 then getchar rest else (some ch, rest))

-- The integer that is read, or `none` for a `false`.
unfoldable pub read_integer : Input → Option (ℕ × Input)
unfolding after_spaces skip_spaces
read_integer input = elim (after_spaces input.broken (skip_spaces input.bytes)) [
  | none ↦ none
  | some (value, rest) ↦ some (value, record input { bytes = rest })
]
