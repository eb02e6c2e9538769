-- ===== src/Platform/Dashboard/Configs.antt =====
-- services/platform-api/internal/core/dashboard_layout.go: which configurations of the charts of a
-- dashboard are accepted. Whether a text is a UUID is an argument.
use ygate_git.Base.{
  Bool, true, not, ◌&&◌, ◌||◌, Option, none, some, List, [], ◌∷◌, length, some_item, leb,
}
use ygate_git.Base.Int.{ℤ, pos, eqb_ℤ, ltb_ℤ}
use ygate_git.Base.Text.{Text, lit, text_eq, is_empty, trim_space}
use ygate_git.Middleware.Store.File.{map_get}
use ygate_git.Platform.Dashboard.{Layouts, has_widget, items_of}

-- Display.Unit and Display.Decimals are `unit` and `decimals`, the rest of the numbers and texts is the
-- version and the data binding.
pub record DashboardWidgetConfig : Type 0 where
  pub config_version : ℤ
  pub plant_ref : Text
  pub device_ref : Text
  pub point_key : Text
  pub time_range_hours : ℤ
  pub unit : Text
  pub decimals : ℤ

abbrev pub Configs : Type 0
Configs = List (Text × DashboardWidgetConfig)

abbrev pub chart_widget_ids : List Text
chart_widget_ids = lit "timeseries-line" ∷ lit "energy-line" ∷ []

unfoldable pub is_time_range : ℤ → Bool
unfolding eqb_ℤ
is_time_range t = eqb_ℤ t (pos 1) || (eqb_ℤ t (pos 6) || (eqb_ℤ t (pos 24) || eqb_ℤ t (pos 168)))

module _ (is_uuid : Text → Bool) where
  -- validateChartWidgetConfig: whether it returns no error.
  unfoldable pub validate_chart_widget_config : DashboardWidgetConfig → Bool
  unfolding text_eq is_empty trim_space eqb_ℤ is_time_range
  validate_chart_widget_config c =
      eqb_ℤ c.config_version (pos 1)
      && (text_eq (trim_space c.plant_ref) c.plant_ref
          && (text_eq (trim_space c.device_ref) c.device_ref
              && (text_eq (trim_space c.point_key) c.point_key
                  && (not (is_empty c.point_key)
                      && (leb (length c.point_key) 200
                          && (leb (length c.unit) 20
                              && (not (ltb_ℤ c.decimals (pos 0))
                                  && (not (ltb_ℤ (pos 6) c.decimals)
                                      && (is_uuid c.plant_ref
                                          && (is_uuid c.device_ref
                                              && is_time_range c.time_range_hours))))))))))

  -- The tests of one chart: it is configured just when the layout has it.
  unfoldable pub check_chart : Bool → Option DashboardWidgetConfig → Bool
  unfolding validate_chart_widget_config
  check_chart present none = not present
  check_chart present (some config) = present && validate_chart_widget_config config

  unfoldable pub check_charts : Layouts → Configs → List Text → Bool
  unfolding map_get has_widget items_of check_chart
  check_charts layouts configs [] = true
  check_charts layouts configs (id ∷ ids) =
      check_chart (has_widget id (items_of (map_get (lit "lg") layouts))) (map_get id configs)
      && check_charts layouts configs ids

  unfoldable pub are_charts : Configs → Bool
  unfolding some_item text_eq
  are_charts [] = true
  are_charts (c ∷ configs) = some_item (text_eq c.0) chart_widget_ids && are_charts configs

  -- ValidateDashboardWidgetConfigs: whether it returns no error.
  unfoldable pub validate_dashboard_widget_configs : Layouts → Configs → Bool
  unfolding are_charts check_charts
  validate_dashboard_widget_configs layouts configs =
      leb (length configs) (length chart_widget_ids)
      && (are_charts configs && check_charts layouts configs chart_widget_ids)
