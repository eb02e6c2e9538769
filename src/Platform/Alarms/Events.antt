-- ===== src/Platform/Alarms/Events.antt =====
-- services/platform-api/internal/ingestion/alarms.go: evaluateAlarms, which opens and clears the events
-- of a device's rules when a reading arrives. The table alarm.alarm_event is a list of its rows in the
-- order in which they are inserted, and each SQL statement is a function of it. An id is a number.
pub mod Rows
pub mod Spaced
use ygate_git.Base.{
  ℕ, Bool, true, false, not, ◌&&◌, ◌||◌, if◌then◌else◌, Option, none, some, List, [], ◌∷◌, ◌++◌,
  map, keep, some_item, ◌==◌,
}
use ygate_git.Base.Int.{ℤ, ltb_ℤ}
use ygate_git.Base.Text.{Text}
use ygate_git.Middleware.Store.File.{map_get}
use ygate_git.Platform.Floats.{Floats}
use ygate_git.Platform.Alarms.{alarm_suppressed, evaluate_conditions}

pub data SourceType : Type 0 where
  rule : SourceType
  register : SourceType

-- The columns that decide which rows a statement touches.
pub record AlarmEvent : Type 0 where
  pub organization_id : ℕ
  pub plant_id : ℕ
  pub device_id : ℕ
  pub alarm_rule_id : Option ℕ
  pub source_type : SourceType
  pub mapping_id : Option ℕ
  pub severity : Text
  pub breached_at : ℤ
  pub cleared_at : Option ℤ

abbrev pub is_null {ℓ} : {A : Type ℓ} → Option A → Bool
is_null none = true
is_null (some a) = false

abbrev pub is_some_id : Option ℕ → ℕ → Bool
is_some_id none id = false
is_some_id (some i) id = i == id

abbrev pub is_rule_source : SourceType → Bool
is_rule_source rule = true
is_rule_source register = false

-- `e.alarm_rule_id = r.id`
unfoldable pub is_event_of : ℕ → AlarmEvent → Bool
is_event_of rule_id e = is_some_id e.alarm_rule_id rule_id

-- What the unique index alarm_event_open_rule_unique is on, for one rule.
unfoldable pub is_open_of : ℕ → AlarmEvent → Bool
unfolding is_event_of
is_open_of rule_id e =
    is_event_of rule_id e && (is_null e.cleared_at && is_rule_source e.source_type)

abbrev pub latest : Option ℤ → ℤ → ℤ
latest none t = t
latest (some u) t = if ltb_ℤ t u then u else t

-- SELECT max(e.breached_at) FROM alarm.alarm_event e WHERE e.alarm_rule_id = r.id
unfoldable pub last_breached : ℕ → List AlarmEvent → Option ℤ
unfolding is_event_of
last_breached rule_id [] = none
last_breached rule_id (e ∷ es) =
    let rest = last_breached rule_id es in
    if is_event_of rule_id e then some (latest rest e.breached_at) else rest

-- INSERT ... ON CONFLICT (alarm_rule_id) WHERE cleared_at IS NULL AND source_type = 'RULE' DO NOTHING
unfoldable pub insert_event : ℕ → AlarmEvent → List AlarmEvent → List AlarmEvent
unfolding some_item is_open_of
insert_event rule_id e es = if some_item (is_open_of rule_id) es then es else es ++ (e ∷ [])

unfoldable pub clear_event : ℕ → ℤ → AlarmEvent → AlarmEvent
unfolding is_event_of
clear_event rule_id now e =
    if is_event_of rule_id e && is_null e.cleared_at then record e { cleared_at = some now } else e

-- UPDATE alarm.alarm_event SET cleared_at=now() WHERE alarm_rule_id=$1 AND cleared_at IS NULL
unfoldable pub clear_events : ℕ → ℤ → List AlarmEvent → List AlarmEvent
unfolding clear_event
clear_events rule_id now = map (clear_event rule_id now)

module _ (fl : Floats) where
  -- A row of alarm.alarm_rule_condition.
  pub record Condition : Type 0 where
    pub point_key : Text
    pub min_value : Option fl.F
    pub max_value : Option fl.F
    pub logic : Text

  -- A row of alarm.alarm_rule with its conditions in the order of their position.
  pub record AlarmRule : Type 0 where
    pub id : ℕ
    pub organization_id : ℕ
    pub device_id : ℕ
    pub label : Text
    pub severity : Text
    pub notify_role_id : Option ℕ
    pub alarm_delay_seconds : ℤ
    pub is_active : Bool
    pub conditions : List Condition

  -- alarmConditionSnapshot
  pub record ConditionSnapshot : Type 0 where
    pub point_key : Text
    pub value : fl.F
    pub min_value : Option fl.F
    pub max_value : Option fl.F
    pub breached : Bool
    pub logic : Text

  -- alarmBreach, less the names that the mail prints.
  pub record AlarmBreach : Type 0 where
    pub rule_label : Text
    pub severity : Text
    pub conditions : List ConditionSnapshot
    pub notify_role_id : Option ℕ
    pub plant_email_enabled : Bool

  -- What evaluateAlarms is told of a reading; `now` is the database's now().
  pub record Observation : Type 0 where
    pub organization_id : ℕ
    pub plant_id : ℕ
    pub device_id : ℕ
    pub plant_email_enabled : Bool
    pub data_items : List (Text × fl.F)
    pub observed_at : ℤ
    pub now : ℤ

  abbrev pub is_below : fl.F → Option fl.F → Bool
  is_below value none = false
  is_below value (some bound) = fl.lt value bound

  abbrev pub is_above : fl.F → Option fl.F → Bool
  is_above value none = false
  is_above value (some bound) = fl.lt bound value

  unfoldable pub snapshot : Condition → fl.F → ConditionSnapshot
  snapshot c value = record {
    point_key = c.point_key;
    value = value;
    min_value = c.min_value;
    max_value = c.max_value;
    breached = is_below value c.min_value || is_above value c.max_value;
    logic = c.logic;
  }

  -- The loop over the conditions; nothing when a point is not in the reading (`allPresent`).
  unfoldable pub snapshots : List (Text × fl.F) → List Condition → Option (List ConditionSnapshot)
  unfolding snapshot map_get
  snapshots items [] = some []
  snapshots items (c ∷ cs) =
      let rest = snapshots items cs in
      elim (map_get c.point_key items) [
        | none ↦ none
        | some value ↦ elim rest [ none ↦ none | some ss ↦ some (snapshot c value ∷ ss) ]
      ]

  unfoldable pub rule_breach : List ConditionSnapshot → Bool
  unfolding evaluate_conditions
  rule_breach ss = evaluate_conditions (map (λ (s : ConditionSnapshot). (s.breached, s.logic)) ss)

  unfoldable pub new_event : AlarmRule → Observation → AlarmEvent
  new_event r o = record {
    organization_id = o.organization_id;
    plant_id = o.plant_id;
    device_id = o.device_id;
    alarm_rule_id = some r.id;
    source_type = rule;
    mapping_id = none;
    severity = r.severity;
    breached_at = o.observed_at;
    cleared_at = none;
  }

  -- The rows after the conditions of one rule were checked, whose last alarm was at `last`.
  unfoldable pub apply_verdict :
      AlarmRule
      → Observation
      → Option ℤ
      → Option (List ConditionSnapshot)
      → List AlarmEvent
      → List AlarmEvent
  unfolding rule_breach alarm_suppressed insert_event new_event clear_events
  apply_verdict r o last none es = es
  apply_verdict r o last (some ss) es =
      if rule_breach ss && alarm_suppressed last o.observed_at r.alarm_delay_seconds
      then es
      else if rule_breach ss
      then insert_event r.id (new_event r o) es
      else clear_events r.id o.now es

  -- The breach that is reported: an event was inserted, and the rule has a role to notify.
  unfoldable pub reported :
      AlarmRule
      → Observation
      → Option ℤ
      → Option (List ConditionSnapshot)
      → List AlarmEvent
      → List AlarmBreach
  unfolding rule_breach alarm_suppressed some_item is_open_of
  reported r o last none es = []
  reported r o last (some ss) es =
      if rule_breach ss
        && not (alarm_suppressed last o.observed_at r.alarm_delay_seconds)
        && not (some_item (is_open_of r.id) es)
        && not (is_null r.notify_role_id)
      then (record {
        rule_label = r.label;
        severity = r.severity;
        conditions = ss;
        notify_role_id = r.notify_role_id;
        plant_email_enabled = o.plant_email_enabled;
      })
        ∷ []
      else []

  unfoldable pub is_evaluated : Observation → AlarmRule → Bool
  is_evaluated o r =
      r.organization_id == o.organization_id && r.device_id == o.device_id && r.is_active

  -- The loop over the rules, each with the time of its last alarm, which one query read before it.
  unfoldable pub evaluate_rules :
      Observation
      → List (AlarmRule × Option ℤ)
      → List AlarmEvent
      → List AlarmEvent × List AlarmBreach
  unfolding apply_verdict reported snapshots
  evaluate_rules o [] es = (es, [])
  evaluate_rules o ((r, last) ∷ rs) es =
      let found = snapshots o.data_items r.conditions in
      let (rows, breaches) = evaluate_rules o rs (apply_verdict r o last found es) in
      (rows, reported r o last found es ++ breaches)

  -- evaluateAlarms over the rules of the database.
  unfoldable pub evaluate_alarms :
      List AlarmRule → Observation → List AlarmEvent → List AlarmEvent × List AlarmBreach
  unfolding evaluate_rules keep is_evaluated last_breached
  evaluate_alarms rules o es =
      evaluate_rules o
        (map (λ (r : AlarmRule). (r, last_breached r.id es)) (keep (is_evaluated o) rules)) es
