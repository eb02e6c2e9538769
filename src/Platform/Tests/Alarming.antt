-- ===== src/Platform/Tests/Alarming.antt =====
-- A rule on one point with a delay of a minute, and the alarms of one register.
use ygate_git.Base.{
  ℕ, ◌*◌, map, ◌≡◌, refl, Bool, true, false, none, some, List, [], ◌∷◌, arith, ok, ◌↔◌, Any, All,
  some_item,
}
use ygate_git.Base.Int.{ℤ, pos, ◌+ℤ◌}
use ygate_git.Base.Text.{Text, lit}
use ygate_git.Platform.Tests.{whole}
use ygate_git.Platform.Alarms.{RuleInput, validate_alarm_rule, evaluate_conditions, second}
use ygate_git.Platform.Alarms.Terms.{terms, evaluate_conditions_iff}
use ygate_git.Platform.Alarms.Rules.{IsRule, thresholds, validate_alarm_rule-IsRule}
use ygate_git.Platform.Alarms.Events.{AlarmEvent, AlarmRule, Observation}
use ygate_git.Platform.Alarms.Events.Spaced.{
  IsSpaced, IsOpenOnce, after_readings, after_readings-IsSpaced,
}
use ygate_git.Platform.RegisterAlarms.{
  RegisterAlarmRow, RegisterReading, evaluate_register_alarms, current_signals, is_present,
  is_open_at,
}
use ygate_git.Platform.RegisterAlarms.Transitions.{IsHome, evaluate_register_alarms_lem}

abbrev two_joined : List (Bool × Text)
two_joined = (true, lit "AND") ∷ (false, lit "AND") ∷ (true, lit "OR") ∷ []

evaluate_conditions_iff_example :
    (evaluate_conditions two_joined ≡ true)
    ↔ Any (λ (t : List Bool). All (λ (b : Bool). b ≡ true) t) (terms two_joined)
evaluate_conditions_iff_example = evaluate_conditions_iff two_joined

abbrev hot_input : RuleInput ℤ
hot_input = record {
  label = lit " Too hot ";
  severity = lit "Major";
  delay_seconds = pos 60;
  conditions =
      (record {
        point_key = lit "reg40072";
        min_value = none;
        max_value = some (pos 80);
        logic = lit "or";
      })
      ∷ [];
}

abbrev hot_accepted : RuleInput ℤ
hot_accepted = record {
  label = lit "Too hot";
  severity = lit "major";
  delay_seconds = pos 60;
  conditions =
      (record {
        point_key = lit "reg40072";
        min_value = none;
        max_value = some (pos 80);
        logic = lit "AND";
      })
      ∷ [];
}

hot_is_accepted : validate_alarm_rule whole hot_input ≡ ok hot_accepted
unfolding validate_alarm_rule
hot_is_accepted = refl

validate_alarm_rule-IsRule_example :
    IsRule whole hot_accepted
    × (thresholds whole hot_accepted.conditions ≡ thresholds whole hot_input.conditions)
    × (hot_accepted.delay_seconds ≡ hot_input.delay_seconds)
validate_alarm_rule-IsRule_example =
    validate_alarm_rule-IsRule whole hot_input hot_accepted hot_is_accepted

abbrev hot_rule : AlarmRule whole
hot_rule = record {
  id = 7;
  organization_id = 1;
  device_id = 3;
  label = lit "Too hot";
  severity = lit "major";
  notify_role_id = none;
  alarm_delay_seconds = pos 60;
  is_active = true;
  conditions =
      (record {
        point_key = lit "reg40072";
        min_value = none;
        max_value = some (pos 80);
        logic = lit "AND";
      })
      ∷ [];
}

abbrev reading_of : ℤ → ℕ → Observation whole
reading_of value at = record {
  organization_id = 1;
  plant_id = 2;
  device_id = 3;
  plant_email_enabled = true;
  data_items = (lit "reg40072", value) ∷ [];
  observed_at = pos (at * second);
  now = pos (at * second);
}

-- Hot, cool, hot again too soon, cool, and hot again.
abbrev hot_and_cool : List (Observation whole)
hot_and_cool =
    reading_of (pos 90) 100
    ∷ reading_of (pos 50) 110
    ∷ reading_of (pos 90) 120
    ∷ reading_of (pos 50) 130
    ∷ reading_of (pos 90) 170
    ∷ []

-- The alarms of 100 s and 170 s; the one of 120 s is held back.
alarm_times :
    map (λ (e : AlarmEvent). e.breached_at) (after_readings whole (hot_rule ∷ []) hot_and_cool [])
    ≡ pos (100 * second) ∷ pos (170 * second) ∷ []
unfolding after_readings ◌+ℤ◌
alarm_times = refl

after_readings-IsSpaced_example :
    IsSpaced 7 (60 * second) (after_readings whole (hot_rule ∷ []) hot_and_cool [])
    × IsOpenOnce 7 (after_readings whole (hot_rule ∷ []) hot_and_cool [])
after_readings-IsSpaced_example =
    after_readings-IsSpaced whole (hot_rule ∷ []) 7 60 hot_and_cool [] (tt, tt) (omega arith)
      ((λ same. omega arith), tt) tt tt

abbrev fault_row : RegisterAlarmRow whole
fault_row = record {
  mapping_id = 9;
  address_key = lit "reg40090";
  mode = lit "BITMASK";
  display_value = lit "Grid fault";
  alarm_state = lit "ALARM";
  severity = lit "critical";
  match_value = none;
  bit_index = some (pos 2);
}

abbrev fault_reading : RegisterReading whole
fault_reading = record {
  organization_id = 1;
  plant_id = 2;
  device_id = 3;
  plant_name = lit "North";
  email_enabled = true;
  notify_role_id = none;
  raw_values = (lit "40090", pos 4) ∷ [];
  numeric_values = [];
  observed_at = pos 5;
}

evaluate_register_alarms_lem_example :
    ((id : ℕ)
      → some_item
          (is_open_at 3 id)
          (evaluate_register_alarms whole (fault_row ∷ []) fault_reading []).0
        ≡ is_present whole id (current_signals whole fault_reading (fault_row ∷ [])))
    × IsHome whole fault_reading
        (evaluate_register_alarms whole (fault_row ∷ []) fault_reading []).0
evaluate_register_alarms_lem_example =
    evaluate_register_alarms_lem whole fault_reading (fault_row ∷ []) [] tt
