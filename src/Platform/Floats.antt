-- ===== src/Platform/Floats.antt =====
-- Go's float64 and math, as far as the platform's alarms use them: a type with its comparisons and
-- conversions.
use ygate_git.Base.{ℕ, Bool}
use ygate_git.Base.Int.{ℤ}

pub record Floats : Type 1 where
  pub F : Type 0
  -- a < b
  pub lt : F → F → Bool
  -- a >= b
  pub ge : F → F → Bool
  -- math.IsNaN, and math.IsInf(v, 0)
  pub is_nan : F → Bool
  pub is_inf : F → Bool
  -- math.Trunc(v) == v
  pub is_whole : F → Bool
  pub zero_value : F
  -- int64(v) and uint64(v)
  pub to_int64 : F → ℤ
  pub to_uint64 : F → ℕ
