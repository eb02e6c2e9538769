-- ===== src/Platform/Tests.antt =====
-- Inputs on which the theorems on the platform are tried.
mod Alarming
mod Gateways
mod Receiving
mod Pulling
mod Boards
use ygate_git.Base.{Bool, true, false, not}
use ygate_git.Base.Int.{ℤ, pos, ltb_ℤ, pos_part}
use ygate_git.Platform.Floats.{Floats}

-- Whole numbers in the place of float64.
abbrev pub whole : Floats
whole = record {
  F = ℤ;
  lt = ltb_ℤ;
  ge = λ a b. not (ltb_ℤ a b);
  is_nan = λ v. false;
  is_inf = λ v. false;
  is_whole = λ v. true;
  zero_value = pos 0;
  to_int64 = λ v. v;
  to_uint64 = pos_part;
}
