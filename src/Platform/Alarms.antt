-- ===== src/Platform/Alarms.antt =====
-- services/platform-api/internal/core/alarms.go: the rules of alarms, what a rule must satisfy, the
-- verdict over its conditions, and the delay between its alarms.
pub mod Events
pub mod Terms
pub mod Rules
use ygate_git.Base.{
  ℕ, ◌*◌, Bool, true, false, not, ◌&&◌, ◌||◌, if◌then◌else◌, Option, none, some, List, [], ◌∷◌,
  length, ltb, leb, ◌==◌, Result, err, ok, guard, ◌>>=◌, ◌>>◌,
}
use ygate_git.Base.Int.{ℤ, pos, negsuc, ◌+ℤ◌, ltb_ℤ, leb_ℤ}
use ygate_git.Base.Text.{Text, lit, text_eq, is_empty, trim_space, to_upper, to_lower}
use ygate_git.Platform.Floats.{Floats}

-- `fl.F` is float64; a threshold that is absent is a nil pointer.
pub record ConditionInput (F : Type 0) : Type 0 where
  pub point_key : Text
  pub min_value : Option F
  pub max_value : Option F
  pub logic : Text

pub record RuleInput (F : Type 0) : Type 0 where
  pub label : Text
  pub severity : Text
  pub delay_seconds : ℤ
  pub conditions : List (ConditionInput F)

pub data RuleError : Type 0 where
  alarm_rule_invalid : RuleError

-- The map alarmSeverities.
unfoldable pub alarm_severities : Text → Bool
unfolding text_eq
alarm_severities s =
    text_eq s (lit "warning") || text_eq s (lit "major") || text_eq s (lit "critical")

abbrev pub max_alarm_delay_seconds : ℕ
max_alarm_delay_seconds = 86400

module _ (fl : Floats) where
  -- Neither NaN nor infinite, if there is a threshold at all.
  unfoldable pub is_finite : Option fl.F → Bool
  is_finite none = true
  is_finite (some v) = not (fl.is_nan v || fl.is_inf v)

  unfoldable pub is_absent : Option fl.F → Option fl.F → Bool
  is_absent none none = true
  is_absent none (some v) = false
  is_absent (some v) bound = false

  -- `min >= max`, if both are given.
  unfoldable pub is_inverted : Option fl.F → Option fl.F → Bool
  is_inverted none bound = false
  is_inverted (some v) none = false
  is_inverted (some v) (some w) = fl.ge v w

  unfoldable pub connector : Bool → Text → Text
  unfolding is_empty trim_space to_upper
  connector first logic =
      let joined = to_upper (trim_space logic) in
      if is_empty joined || first then lit "AND" else joined

  -- The body of the loop; `first` is `i == 0`.
  unfoldable pub validate_condition :
      Bool → ConditionInput fl.F → Result RuleError (ConditionInput fl.F)
  unfolding is_finite is_absent is_inverted connector trim_space text_eq
  validate_condition first c =
      let point_key = trim_space c.point_key in
      let logic = connector first c.logic in
      do
        guard (not (length point_key == 0 || ltb 200 (length point_key))) alarm_rule_invalid
        guard (not (is_absent c.min_value c.max_value)) alarm_rule_invalid
        guard (is_finite c.min_value && is_finite c.max_value) alarm_rule_invalid
        guard (not (is_inverted c.min_value c.max_value)) alarm_rule_invalid
        guard (text_eq logic (lit "AND") || text_eq logic (lit "OR")) alarm_rule_invalid
        ok (record {
          point_key = point_key;
          min_value = c.min_value;
          max_value = c.max_value;
          logic = logic;
        })

  unfoldable pub validate_conditions :
      Bool → List (ConditionInput fl.F) → Result RuleError (List (ConditionInput fl.F))
  unfolding validate_condition
  validate_conditions first [] = ok []
  validate_conditions first (c ∷ cs) =
      validate_condition first c >>= λ d. validate_conditions false cs >>= λ ds. ok (d ∷ ds)

  -- The values that the code returns beside an error are not used.
  unfoldable pub validate_alarm_rule : RuleInput fl.F → Result RuleError (RuleInput fl.F)
  unfolding validate_conditions alarm_severities trim_space to_lower
  validate_alarm_rule input =
      let label = trim_space input.label in
      let severity = to_lower (trim_space input.severity) in
      do
        guard (not (length label == 0 || ltb 200 (length label) || not (alarm_severities severity)))
            alarm_rule_invalid
        guard
            (not (
              ltb_ℤ input.delay_seconds (pos 0)
              || ltb_ℤ (pos max_alarm_delay_seconds) input.delay_seconds))
            alarm_rule_invalid
        guard (not (length input.conditions == 0 || ltb 20 (length input.conditions)))
            alarm_rule_invalid
        conditions ← validate_conditions true input.conditions
        ok (record {
          label = label;
          severity = severity;
          delay_seconds = input.delay_seconds;
          conditions = conditions;
        })

-- Times are counted in microseconds, as the database does.
abbrev pub second : ℕ
second = 1000000

-- AlarmSuppressed. The last breach is absent where the code has the zero time, which is what it reads
-- from a null column.
unfoldable pub alarm_suppressed : Option ℤ → ℤ → ℤ → Bool
alarm_suppressed none observed_at delay_seconds = false
alarm_suppressed (some last_breached_at) observed_at (negsuc n) = false
alarm_suppressed (some last_breached_at) observed_at (pos n) =
    if n == 0 then false else ltb_ℤ observed_at (last_breached_at +ℤ pos (n * second))

-- The loop of EvaluateConditions over the results after the first, each with its connector.
unfoldable pub evaluate_rest : Bool → Bool → List (Bool × Text) → Bool
unfolding text_eq
evaluate_rest total term [] = total || term
evaluate_rest total term ((result, logic) ∷ rest) =
    let starts_term = text_eq logic (lit "OR") in
    evaluate_rest (if starts_term then total || term else total)
      (if starts_term then result else term && result) rest

-- EvaluateConditions. Its two slices, which the caller fills in one loop, are a list of pairs.
unfoldable pub evaluate_conditions : List (Bool × Text) → Bool
unfolding evaluate_rest
evaluate_conditions [] = false
evaluate_conditions ((result, logic) ∷ rest) = evaluate_rest false result rest
