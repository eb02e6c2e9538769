-- ===== src/Middleware/Float64.antt =====
-- Go's float64 and math, which the gateway uses and does not implement: a type with the operations
-- that the code calls.
use ygate_git.Base.{ℕ, ◌≡◌, Bool, true, false}
use ygate_git.Base.Int.{ℤ}

pub record Float64 : Type 1 where
  pub F : Type 0
  -- float64(n), for an integer
  pub of_int : ℤ → F
  -- float64(math.Float32frombits(u))
  pub of_bits32 : ℕ → F
  -- math.NaN() and math.IsNaN
  pub nan : F
  pub is_nan : F → Bool
  -- v == 0
  pub is_zero : F → Bool
  pub is_nan-nan : is_nan nan ≡ true
  pub is_nan-of_int : (z : ℤ) → is_nan (of_int z) ≡ false
