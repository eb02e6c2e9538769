-- ===== src/Platform/Pull/Schedule.antt =====
-- When the next pull is due.
use native.Mathlib.Omega.{div_any}
use native.Mathlib.Nat.{mod-lt}
use ygate_git.Base.{ℕ, zero, suc, ◌+◌, ◌*◌, ◌/◌, ◌≤◌, ◌<◌, arith}
use ygate_git.Base.Int.{ℤ, pos, negsuc}
use ygate_git.Platform.Pull.{next_scheduled_pull, pull_interval}

interval_positive : (interval : ℤ) → 0 < pull_interval interval
unfolding pull_interval
interval_positive (negsuc n) = omega arith
interval_positive (pos zero) = omega arith
interval_positive (pos (suc n)) = omega arith

slot_bounds : (now k : ℕ) → 0 < k → (now < now / k * k + k) × (now / k * k + k ≤ now + k)
slot_bounds now k positive = (
  omega (arith, div_any now k, mod-lt now positive),
  omega (arith, div_any now k, mod-lt now positive),
)

-- The next pull is due after now, and at most one interval later.
pub next_scheduled_pull_bounds :
    (now : ℕ) (interval : ℤ)
    → (now < next_scheduled_pull now interval)
      × (next_scheduled_pull now interval ≤ now + pull_interval interval)
unfolding next_scheduled_pull
next_scheduled_pull_bounds now interval =
    slot_bounds now (pull_interval interval) (interval_positive interval)
