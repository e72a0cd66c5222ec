-- ===== src/Constexpr.antt =====
-- 18-constexpr: functions that the compiler evaluates. `none` stands for the exception.
pub mod Log
pub mod Sqrt
pub mod Tests
use cpp_graduate.Base.{
  ℕ, zero, suc, ◌+◌, ◌-◌, ◌*◌, ◌/◌, ◌%◌, ◌^◌, ◌&&◌, Option, none, some, ltb, ◌==◌, if◌then◌else◌,
}

-- The loop of `static_log` (static-log.cc) from a position down. `N & mask`, with a mask of one bit, is
-- the mask where that bit of N is set.
unfoldable pub find_bit : ℕ → ℕ → Option ℕ
find_bit zero n = none
find_bit (suc pos) n = let rest = find_bit pos n in if n / 2 ^ pos % 2 == 1 then some pos else rest

-- `static_log` of a 64-bit `size_t`
unfoldable pub static_log : ℕ → Option ℕ
unfolding find_bit
static_log n = if n == 0 then none else (elim (find_bit 64 n) [
  | none ↦ none
  | some pos ↦ some (if n == 2 ^ pos then pos else suc pos)
])

-- `Sqrt<N, L, H>` (isqrt.cc), with `mid` as by default. The specialization is taken where L, H and `mid`
-- are one number; a square that overflows `int` is no constant. Each instantiation takes a fuel.
unfoldable pub sqrt_from : ℕ → ℕ → ℕ → ℕ → Option ℕ
sqrt_from zero n l h = none
sqrt_from (suc fuel) n l h =
    let mid = (l + h + 1) / 2 in
    let below = ltb n (mid * mid) in
    let rest = sqrt_from fuel n (if below then l else mid) (if below then mid - 1 else h) in
    if l == h && l == mid then some l else (if ltb (mid * mid) 2147483648 then rest else none)

-- `Sqrt<N>`
unfoldable pub sqrt : ℕ → ℕ → Option ℕ
unfolding sqrt_from
sqrt fuel n = sqrt_from fuel n 1 n
