-- ===== src/Platform/Dashboard.antt =====
-- services/platform-api/internal/core/dashboard_layout.go: which layouts of a dashboard are accepted.
-- A layout is sent as JSON, so its numbers are any that fit Go's int, and sums wrap around.
pub mod Grid
pub mod Configs
pub mod Saves
use ygate_git.Base.{
  ℕ, ◌+◌, ◌-◌, Bool, true, false, not, ◌&&◌, ◌||◌, if◌then◌else◌, Option, none, some, List, [], ◌∷◌,
  map, length, some_item, ltb, leb, ◌==◌,
}
use ygate_git.Base.Int.{ℤ, pos, negsuc, ltb_ℤ, ◌+ℤ◌, to_uint}
use ygate_git.Base.Text.{Text, lit, text_eq}
use Prim.Native.String.{String}
use ygate_git.Middleware.Store.File.{map_get}

pub record DashboardLayoutItem : Type 0 where
  pub i : Text
  pub x : ℤ
  pub y : ℤ
  pub w : ℤ
  pub h : ℤ

abbrev pub Layouts : Type 0
Layouts = List (Text × List DashboardLayoutItem)

abbrev pub dashboard_widgets : List Text
dashboard_widgets =
    lit "plant-count"
    ∷ lit "active-device-count"
    ∷ lit "reporting-device-count"
    ∷ lit "attention-device-count"
    ∷ lit "plant-status"
    ∷ lit "timeseries-line"
    ∷ lit "energy-line"
    ∷ []

abbrev pub required_dashboard_widget_ids : List Text
required_dashboard_widget_ids =
    lit "plant-count"
    ∷ lit "active-device-count"
    ∷ lit "reporting-device-count"
    ∷ lit "attention-device-count"
    ∷ lit "plant-status"
    ∷ []

abbrev pub breakpoints : List (Text × ℕ)
breakpoints = (lit "lg", 12) ∷ (lit "md", 8) ∷ (lit "sm", 4) ∷ []

abbrev pub item_at : String → ℕ → ℕ → ℕ → ℕ → DashboardLayoutItem
item_at i x y w h = record { i = lit i; x = pos x; y = pos y; w = pos w; h = pos h }

-- DefaultDashboardLayouts
abbrev pub default_dashboard_layouts : Layouts
default_dashboard_layouts =
    (
      lit "lg",
      item_at "plant-count" 0 0 3 2
          ∷ item_at "active-device-count" 3 0 3 2
          ∷ item_at "reporting-device-count" 6 0 3 2
          ∷ item_at "attention-device-count" 9 0 3 2
          ∷ item_at "plant-status" 0 2 12 6
          ∷ [],
    )
    ∷ (
      lit "md",
      item_at "plant-count" 0 0 4 2
          ∷ item_at "active-device-count" 4 0 4 2
          ∷ item_at "reporting-device-count" 0 2 4 2
          ∷ item_at "attention-device-count" 4 2 4 2
          ∷ item_at "plant-status" 0 4 8 6
          ∷ [],
    )
    ∷ (
      lit "sm",
      item_at "plant-count" 0 0 4 2
          ∷ item_at "active-device-count" 0 2 4 2
          ∷ item_at "reporting-device-count" 0 4 4 2
          ∷ item_at "attention-device-count" 0 6 4 2
          ∷ item_at "plant-status" 0 8 4 8
          ∷ [],
    )
    ∷ []

-- A sum of Go's ints, of 64 bits.
unfoldable pub int64 : ℤ → ℤ
unfolding to_uint
int64 z =
    let u = to_uint 18446744073709551616 z in
    if ltb u 9223372036854775808 then pos u else negsuc (18446744073709551615 - u)

-- item.X + item.W and item.Y + item.H
unfoldable pub right : DashboardLayoutItem → ℤ
unfolding int64 ◌+ℤ◌
right item = int64 (item.x +ℤ item.w)

unfoldable pub below : DashboardLayoutItem → ℤ
unfolding int64 ◌+ℤ◌
below item = int64 (item.y +ℤ item.h)

-- Whether one of the items has an id: the map `seen` of the items before.
unfoldable pub has_widget : Text → List DashboardLayoutItem → Bool
unfolding some_item text_eq
has_widget id = some_item (λ (o : DashboardLayoutItem). text_eq o.i id)

-- The test of an item on its own, with the columns and the items before it.
unfoldable pub is_misplaced : ℕ → List DashboardLayoutItem → DashboardLayoutItem → Bool
unfolding some_item text_eq has_widget right
is_misplaced cols before item =
    not (some_item (text_eq item.i) dashboard_widgets)
    || (has_widget item.i before
        || (ltb_ℤ item.x (pos 0)
            || (ltb_ℤ item.y (pos 0)
                || (ltb_ℤ item.w (pos 1)
                    || (ltb_ℤ item.h (pos 1)
                        || (ltb_ℤ (pos cols) (right item)
                            || (ltb_ℤ (pos 1000) item.y || ltb_ℤ (pos 100) item.h)))))))

unfoldable pub overlaps : DashboardLayoutItem → DashboardLayoutItem → Bool
unfolding right below
overlaps item other =
    ltb_ℤ item.x (right other)
    && (ltb_ℤ other.x (right item) && (ltb_ℤ item.y (below other) && ltb_ℤ other.y (below item)))

-- The loop over the items of a breakpoint, given the items before, the last one first.
unfoldable pub check_items : ℕ → List DashboardLayoutItem → List DashboardLayoutItem → Bool
unfolding some_item is_misplaced overlaps
check_items cols before [] = true
check_items cols before (item ∷ items) =
    let rest = check_items cols (item ∷ before) items in
    not (is_misplaced cols before item) && (not (some_item (overlaps item) before) && rest)

unfoldable pub has_all : List Text → List DashboardLayoutItem → Bool
unfolding has_widget
has_all [] items = true
has_all (id ∷ ids) items = has_widget id items && has_all ids items

-- The comparison with the ids of the first breakpoint, where there is one.
unfoldable pub has_expected : Option (List Text) → List DashboardLayoutItem → Bool
unfolding has_all
has_expected none items = true
has_expected (some ids) items = length ids == length items && has_all ids items

unfoldable pub next_expected : Option (List Text) → List DashboardLayoutItem → Option (List Text)
next_expected none items = some (map (λ (o : DashboardLayoutItem). o.i) items)
next_expected (some ids) items = some ids

-- The tests of a breakpoint, less the search for it.
unfoldable pub check_layout : ℕ → Option (List Text) → List DashboardLayoutItem → Bool
unfolding check_items has_all has_expected
check_layout cols expected items =
    leb 5 (length items)
    && (leb (length items) 7
        && (check_items cols [] items
            && (has_all required_dashboard_widget_ids items && has_expected expected items)))

unfoldable pub items_of : Option (List DashboardLayoutItem) → List DashboardLayoutItem
items_of none = []
items_of (some items) = items

-- The loop over the breakpoints. An absent breakpoint is refused as an empty one is.
unfoldable pub check_breakpoints : Layouts → Option (List Text) → List (Text × ℕ) → Bool
unfolding map_get items_of check_layout next_expected
check_breakpoints layouts expected [] = true
check_breakpoints layouts expected (b ∷ bs) =
    let items = items_of (map_get b.0 layouts) in
    let rest = check_breakpoints layouts (next_expected expected items) bs in
    check_layout b.1 expected items && rest

-- ValidateDashboardLayouts: whether it returns no error.
unfoldable pub validate_dashboard_layouts : Layouts → Bool
unfolding check_breakpoints
validate_dashboard_layouts layouts =
    length layouts == length breakpoints && check_breakpoints layouts none breakpoints
