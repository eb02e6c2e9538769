-- ===== src/Platform/Dashboard/Saves.antt =====
-- services/platform-api/internal/core/dashboard_layout.go: a user saves and publishes a dashboard. The
-- table has at most one row for a user, and its JSON is kept as what it decodes to. Audit events, the
-- sharing of dashboards and statements that fail are left out.
pub mod History
use ygate_git.Base.{
  ℕ, zero, suc, ◌+◌, Bool, true, false, not, ◌&&◌, ◌||◌, if◌then◌else◌, Option, none, some, List,
  [], ◌∷◌, Result, err, ok,
}
use ygate_git.Base.Int.{ℤ, pos, eqb_ℤ, ltb_ℤ}
use ygate_git.Base.Text.{Text}
use ygate_git.Platform.Dashboard.{Layouts, default_dashboard_layouts, validate_dashboard_layouts}
use ygate_git.Platform.Dashboard.Configs.{Configs, validate_dashboard_widget_configs}

-- The columns that a publication sets; they are null before the first.
pub record PublishedRow : Type 0 where
  pub published_layouts : Layouts
  pub published_configs : Configs
  pub published_version : ℕ
  pub published_from : ℕ

pub record DashboardRow : Type 0 where
  pub layouts : Layouts
  pub configs : Configs
  pub version : ℕ
  pub published : Option PublishedRow

-- The permissions of the user on dashboards, and whether the user has an organization.
pub record DashboardUser : Type 0 where
  pub has_organization : Bool
  pub may_read : Bool
  pub may_update : Bool
  pub may_publish : Bool

pub data DashboardError : Type 0 where
  invalid_input : DashboardError
  forbidden : DashboardError
  version_conflict : DashboardError
  invalid_persisted : DashboardError

pub record DashboardLayout : Type 0 where
  pub shown_version : ℕ
  pub shown_layouts : Layouts
  pub shown_configs : Configs
  pub can_edit : Bool
  pub can_publish : Bool

pub record PublishedDashboardLayout : Type 0 where
  pub live_version : ℕ
  pub source_version : ℕ
  pub live_layouts : Layouts
  pub live_configs : Configs

-- CreateUserDashboard
unfoldable pub create_user_dashboard : Layouts → Configs → DashboardRow
create_user_dashboard layouts configs = record {
  layouts = layouts;
  configs = configs;
  version = 1;
  published = none;
}

-- UpdateUserDashboard
unfoldable pub update_user_dashboard : Layouts → Configs → DashboardRow → DashboardRow
update_user_dashboard layouts configs r = record r {
  layouts = layouts;
  configs = configs;
  version = r.version + 1;
}

unfoldable pub version_of : Option PublishedRow → ℕ
version_of none = 0
version_of (some p) = p.published_version

-- PublishUserDashboard
unfoldable pub publish_user_dashboard : DashboardRow → DashboardRow
unfolding version_of
publish_user_dashboard r = record r {
  published = some (record {
    published_layouts = r.layouts;
    published_configs = r.configs;
    published_version = version_of r.published + 1;
    published_from = r.version;
  });
}

module _ (is_uuid : Text → Bool) where
  unfoldable pub is_accepted : Layouts → Configs → Bool
  unfolding validate_dashboard_layouts validate_dashboard_widget_configs
  is_accepted layouts configs =
      validate_dashboard_layouts layouts
      && validate_dashboard_widget_configs is_uuid layouts configs

  unfoldable pub dashboard_layout_from_row :
      Bool → Bool → DashboardRow → Result DashboardError DashboardLayout
  unfolding is_accepted
  dashboard_layout_from_row can_edit can_publish r =
      if is_accepted r.layouts r.configs
      then ok (record {
        shown_version = r.version;
        shown_layouts = r.layouts;
        shown_configs = r.configs;
        can_edit = can_edit;
        can_publish = can_publish;
      })
      else err invalid_persisted

  unfoldable pub published_from_row :
      Option PublishedRow → Result DashboardError PublishedDashboardLayout
  unfolding is_accepted
  published_from_row none = ok (record {
    live_version = 0;
    source_version = 0;
    live_layouts = default_dashboard_layouts;
    live_configs = [];
  })
  published_from_row (some p) =
      if is_accepted p.published_layouts p.published_configs
      then ok (record {
        live_version = p.published_version;
        source_version = p.published_from;
        live_layouts = p.published_layouts;
        live_configs = p.published_configs;
      })
      else err invalid_persisted

  abbrev pub Outcome : Type 0 → Type 0
  Outcome A = Result DashboardError A × Option DashboardRow

  -- The end of a transaction, which is rolled back if the new row is not accepted.
  unfoldable pub finish_row :
      {A : Type 0} → Result DashboardError A → Option DashboardRow → DashboardRow → Outcome A
  finish_row (err e) before r = (err e, before)
  finish_row (ok a) before r = (ok a, some r)

  -- The row is created or updated.
  unfoldable pub save_row :
      DashboardUser → ℤ → Layouts → Configs → Option DashboardRow → Outcome DashboardLayout
  unfolding finish_row dashboard_layout_from_row create_user_dashboard update_user_dashboard eqb_ℤ
  save_row user version layouts configs none =
      let r = create_user_dashboard layouts configs in
      if eqb_ℤ version (pos 0)
      then finish_row (dashboard_layout_from_row true user.may_publish r) none r
      else (err version_conflict, none)
  save_row user version layouts configs (some current) =
      let r = update_user_dashboard layouts configs current in
      if eqb_ℤ (pos current.version) version
      then finish_row (dashboard_layout_from_row true user.may_publish r) (some current) r
      else (err version_conflict, some current)

  -- SaveDashboardLayout
  unfoldable pub save_dashboard_layout :
      DashboardUser → ℤ → Layouts → Configs → Option DashboardRow → Outcome DashboardLayout
  unfolding is_accepted save_row
  save_dashboard_layout user version layouts configs row =
      if ltb_ℤ version (pos 0) || (not (is_accepted layouts configs) || not user.has_organization)
      then (err invalid_input, row)
      else if not user.may_update
      then (err forbidden, row)
      else save_row user version layouts configs row

  unfoldable pub publish_checked :
      Result DashboardError PublishedDashboardLayout
      → DashboardRow
      → Outcome PublishedDashboardLayout
  unfolding finish_row publish_user_dashboard published_from_row
  publish_checked (err e) current = (err e, some current)
  publish_checked (ok before) current =
      let r = publish_user_dashboard current in
      finish_row (published_from_row r.published) (some current) r

  unfoldable pub publish_row : ℤ → ℤ → Option DashboardRow → Outcome PublishedDashboardLayout
  unfolding publish_checked published_from_row version_of eqb_ℤ
  publish_row version published none = (err version_conflict, none)
  publish_row version published (some current) =
      if eqb_ℤ (pos current.version) version && eqb_ℤ (pos (version_of current.published)) published
      then publish_checked (published_from_row current.published) current
      else (err version_conflict, some current)

  -- PublishDashboardLayout
  unfoldable pub publish_dashboard_layout :
      DashboardUser → ℤ → ℤ → Option DashboardRow → Outcome PublishedDashboardLayout
  unfolding publish_row
  publish_dashboard_layout user version published row =
      if ltb_ℤ version (pos 1) || (ltb_ℤ published (pos 0) || not user.has_organization)
      then (err invalid_input, row)
      else if not user.may_publish
      then (err forbidden, row)
      else publish_row version published row

  -- The row that DashboardLayout reads, or the default.
  unfoldable pub layout_of :
      DashboardUser → Option DashboardRow → Result DashboardError DashboardLayout
  unfolding dashboard_layout_from_row
  layout_of user none = ok (record {
    shown_version = 0;
    shown_layouts = default_dashboard_layouts;
    shown_configs = [];
    can_edit = user.may_update;
    can_publish = user.may_publish;
  })
  layout_of user (some r) = dashboard_layout_from_row user.may_update user.may_publish r

  -- DashboardLayout
  unfoldable pub dashboard_layout :
      DashboardUser → Option DashboardRow → Result DashboardError DashboardLayout
  unfolding layout_of
  dashboard_layout user row = if user.may_read then layout_of user row else err forbidden

  unfoldable pub published_of : Option DashboardRow → Result DashboardError PublishedDashboardLayout
  unfolding published_from_row
  published_of none = published_from_row none
  published_of (some r) = published_from_row r.published

  -- PublishedDashboardLayout
  unfoldable pub published_dashboard_layout :
      DashboardUser → Option DashboardRow → Result DashboardError PublishedDashboardLayout
  unfolding published_of
  published_dashboard_layout user row = if user.may_read then published_of row else err forbidden
