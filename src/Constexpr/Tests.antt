-- ===== src/Constexpr/Tests.antt =====
-- Logarithms and roots at compile time (18-constexpr/static-log.cc, isqrt.cc).
use cpp_graduate.Base.{ℕ, ◌^◌, ◌≤◌, ◌≡◌, ◌↔◌, refl, none, some, arith}
use cpp_graduate.Constexpr.{static_log, sqrt}
use cpp_graduate.Constexpr.Log.{static_log_lem}

static_log_run :
    (static_log 128 ≡ some 7)
    × (static_log 129 ≡ some 8)
    × (static_log 1 ≡ some 0)
    × (static_log 0 ≡ none)
unfolding static_log
static_log_run = (refl, refl, refl, refl)

static_log_example : (r : ℕ) × (static_log 100 ≡ some r) × ((k : ℕ) → (100 ≤ 2 ^ k) ↔ (r ≤ k))
static_log_example = static_log_lem 100 (omega arith) (omega arith)

sqrt_run : (sqrt 16 16 ≡ some 4) × (sqrt 17 17 ≡ some 4) × (sqrt 9 1 ≡ some 1)
unfolding sqrt
sqrt_run = (refl, refl, refl)
