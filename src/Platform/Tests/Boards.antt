-- ===== src/Platform/Tests/Boards.antt =====
-- The layouts of a new dashboard.
use ygate_git.Base.{ℕ, ◌≡◌, refl, true, Bool, All, List, [], ◌∷◌, arith}
use ygate_git.Base.Int.{pos}
use ygate_git.Base.Text.{Text}
use ygate_git.Middleware.Store.File.{map_get}
use ygate_git.Platform.Dashboard.{
  default_dashboard_layouts, validate_dashboard_layouts, breakpoints, items_of,
}
use ygate_git.Platform.Dashboard.Saves.{DashboardUser}
use ygate_git.Platform.Dashboard.Saves.History.{
  Call, saves, publishes, calls, IsRecorded, calls-IsRecorded,
}
use ygate_git.Platform.Dashboard.Grid.{FitsInt, IsGrid, validate_dashboard_layouts-IsGrid}

default_is_accepted : validate_dashboard_layouts default_dashboard_layouts ≡ true
unfolding validate_dashboard_layouts
default_is_accepted = refl

default_fits :
    All
      (λ (b : Text × ℕ). All FitsInt (items_of (map_get b.0 default_dashboard_layouts)))
      breakpoints
unfolding map_get items_of
default_fits = (
  (omega arith, (omega arith, (omega arith, (omega arith, (omega arith, tt))))),
  (
    (omega arith, (omega arith, (omega arith, (omega arith, (omega arith, tt))))),
    ((omega arith, (omega arith, (omega arith, (omega arith, (omega arith, tt))))), tt),
  ),
)

validate_dashboard_layouts-IsGrid_example :
    All
      (λ (b : Text × ℕ). IsGrid b.1 (items_of (map_get b.0 default_dashboard_layouts)))
      breakpoints
validate_dashboard_layouts-IsGrid_example =
    validate_dashboard_layouts-IsGrid default_dashboard_layouts default_fits default_is_accepted

abbrev owner : DashboardUser
owner = record { has_organization = true; may_read = true; may_update = true; may_publish = true }

-- A save, its publication, and a save that is too late; the last call comes first.
abbrev some_calls : List Call
some_calls =
    saves owner (pos 0) default_dashboard_layouts []
    ∷ publishes owner (pos 1) (pos 0)
    ∷ saves owner (pos 0) default_dashboard_layouts []
    ∷ []

abbrev any_uuid : Text → Bool
any_uuid t = true

calls-IsRecorded_example : IsRecorded any_uuid (calls any_uuid some_calls)
calls-IsRecorded_example = calls-IsRecorded any_uuid some_calls
