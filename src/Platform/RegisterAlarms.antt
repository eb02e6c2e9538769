-- ===== src/Platform/RegisterAlarms.antt =====
-- services/platform-api/internal/ingestion/register_alarms.go: the alarms that decoded register values
-- raise by themselves, as events of the same table as the rules'.
pub mod Transitions
use ygate_git.Base.{
  ℕ, ◌^◌, ◌/◌, ◌%◌, Bool, true, false, not, ◌&&◌, ◌||◌, if◌then◌else◌, Option, none, some, List, [],
  ◌∷◌, ◌++◌, map, keep, some_item, drop, length, ltb, ◌==◌,
}
use ygate_git.Base.Int.{ℤ, pos, negsuc, eqb_ℤ}
use ygate_git.Base.Text.{Text, lit, has_prefix, equal_fold}
use ygate_git.Middleware.Store.File.{map_get}
use ygate_git.Platform.Floats.{Floats}
use ygate_git.Platform.Alarms.Events.{
  AlarmEvent, SourceType, rule, register, is_null, is_some_id, is_rule_source,
}

-- strings.TrimPrefix
unfoldable pub trim_prefix : Text → Text → Text
unfolding has_prefix
trim_prefix s p = if has_prefix s p then drop (length p) s else s

-- uint64(v) & (1 << b) is not 0; a shift by 64 or more, as by a negative number, gives 0.
unfoldable pub has_bit : ℕ → ℤ → Bool
has_bit v (negsuc b) = false
has_bit v (pos b) = ltb b 64 && (v / 2 ^ b) % 2 == 1

-- An event of a register that is open.
unfoldable pub is_open_register : AlarmEvent → Bool
is_open_register e = not (is_rule_source e.source_type) && is_null e.cleared_at

-- What the unique index alarm_event_open_register_unique is on.
unfoldable pub is_open_at : ℕ → ℕ → AlarmEvent → Bool
unfolding is_open_register
is_open_at device id e = e.device_id == device && (is_some_id e.mapping_id id && is_open_register e)

module _ (fl : Floats) where
  -- An id of a mapping is a number; the code writes the UUID as text and reads it back.
  pub record RegisterAlarmSignal : Type 0 where
    pub mapping_source_id : ℕ
    pub address_key : Text
    pub raw_value : fl.F
    pub numeric_value : fl.F
    pub display_value : Text
    pub severity : Text

  pub record RegisterAlarmRow : Type 0 where
    pub mapping_id : ℕ
    pub address_key : Text
    pub mode : Text
    pub display_value : Text
    pub alarm_state : Text
    pub severity : Text
    pub match_value : Option ℤ
    pub bit_index : Option ℤ

  -- The reading, and where it is from.
  pub record RegisterReading : Type 0 where
    pub organization_id : ℕ
    pub plant_id : ℕ
    pub device_id : ℕ
    pub plant_name : Text
    pub email_enabled : Bool
    pub notify_role_id : Option ℕ
    pub raw_values : List (Text × fl.F)
    pub numeric_values : List (Text × fl.F)
    pub observed_at : ℤ

  -- The breach of a register, less the names that the mail prints.
  pub record RegisterBreach : Type 0 where
    pub signal : RegisterAlarmSignal
    pub notify_role_id : Option ℕ
    pub plant_email_enabled : Bool

  unfoldable pub has_mapping : ℕ → RegisterAlarmSignal → Bool
  has_mapping id s = s.mapping_source_id == id

  unfoldable pub is_present : ℕ → List RegisterAlarmSignal → Bool
  unfolding has_mapping some_item
  is_present id ss = some_item (has_mapping id) ss

  -- `byID[signal.MappingSourceID] = signal`, over a list of the map's values.
  unfoldable pub put_signal :
      RegisterAlarmSignal → List RegisterAlarmSignal → List RegisterAlarmSignal
  unfolding has_mapping
  put_signal s [] = s ∷ []
  put_signal s (t ∷ ts) =
      let rest = put_signal s ts in if has_mapping s.mapping_source_id t then s ∷ ts else t ∷ rest

  unfoldable pub by_id :
      List RegisterAlarmSignal → List RegisterAlarmSignal → List RegisterAlarmSignal
  unfolding put_signal
  by_id known [] = known
  by_id known (s ∷ ss) = by_id (put_signal s known) ss

  -- The signals to close and to open, in the order of the two maps, which Go leaves open.
  unfoldable pub register_alarm_transitions :
      List RegisterAlarmSignal
      → List RegisterAlarmSignal
      → List RegisterAlarmSignal × List RegisterAlarmSignal
  unfolding by_id keep is_present
  register_alarm_transitions was_open current =
      let open_by_id = by_id [] was_open in
      let current_by_id = by_id [] current in
      (
        keep (λ (s : RegisterAlarmSignal). not (is_present s.mapping_source_id current_by_id))
            open_by_id,
        keep (λ (s : RegisterAlarmSignal). not (is_present s.mapping_source_id open_by_id))
            current_by_id,
      )

  -- A value under the key, under the key without its prefix, or under "reg" and that.
  unfoldable pub lookup_register_value : List (Text × fl.F) → Text → Option fl.F
  unfolding map_get trim_prefix
  lookup_register_value values address_key =
      let bare = trim_prefix (trim_prefix address_key (lit "reg")) (lit "REG") in
      elim (map_get address_key values) [
        | some value ↦ some value
        | none ↦ elim (map_get bare values) [
          | some value ↦ some value
          | none ↦ map_get (lit "reg" ++ bare) values
        ]
      ]

  unfoldable pub is_integer_register_value : fl.F → Bool
  is_integer_register_value v = not (fl.is_nan v) && (not (fl.is_inf v) && fl.is_whole v)

  abbrev pub matches : Option ℤ → Option ℤ → fl.F → Bool
  matches none bit v = false
  matches (some m) (some bit) v = false
  matches (some m) none v = eqb_ℤ m (fl.to_int64 v)

  -- Whether a value raises the alarm of a mapping: by its bit, or by being the value that is matched.
  unfoldable pub is_active : RegisterAlarmRow → fl.F → Bool
  unfolding is_integer_register_value equal_fold has_bit
  is_active d v =
      let whole = is_integer_register_value v in
      let by_value = matches d.match_value d.bit_index v && whole in
      if equal_fold d.mode (lit "BITMASK") && fl.ge v fl.zero_value && whole
      then elim d.bit_index [ none ↦ by_value | some b ↦ has_bit (fl.to_uint64 v) b ]
      else by_value

  abbrev pub or_zero : Option fl.F → fl.F
  or_zero none = fl.zero_value
  or_zero (some v) = v

  -- The body of the loop over the mappings of the device's profile.
  unfoldable pub signal_of :
      RegisterReading → RegisterAlarmRow → Option fl.F → List RegisterAlarmSignal
  unfolding is_active equal_fold lookup_register_value
  signal_of o d none = []
  signal_of o d (some v) =
      if equal_fold d.alarm_state (lit "NORMAL") || not (is_active d v)
      then []
      else (record {
        mapping_source_id = d.mapping_id;
        address_key = d.address_key;
        raw_value = v;
        numeric_value = or_zero (lookup_register_value o.numeric_values d.address_key);
        display_value = d.display_value;
        severity = d.severity;
      })
        ∷ []

  unfoldable pub current_signals :
      RegisterReading → List RegisterAlarmRow → List RegisterAlarmSignal
  unfolding signal_of lookup_register_value
  current_signals o [] = []
  current_signals o (d ∷ ds) =
      signal_of o d (lookup_register_value o.raw_values d.address_key) ++ current_signals o ds

  unfoldable pub is_at_plant : RegisterReading → AlarmEvent → Bool
  is_at_plant o e =
      e.organization_id == o.organization_id
      && (e.plant_id == o.plant_id && e.device_id == o.device_id)

  abbrev pub open_signal : Option ℕ → List RegisterAlarmSignal
  open_signal none = []
  open_signal (some id) =
      (record {
        mapping_source_id = id;
        address_key = [];
        raw_value = fl.zero_value;
        numeric_value = fl.zero_value;
        display_value = [];
        severity = [];
      })
      ∷ []

  -- SELECT register_mapping_source_id FROM alarm.alarm_event WHERE ... AND cleared_at IS NULL
  unfoldable pub open_signals : RegisterReading → List AlarmEvent → List RegisterAlarmSignal
  unfolding is_open_register is_at_plant
  open_signals o [] = []
  open_signals o (e ∷ es) =
      let rest = open_signals o es in
      if is_at_plant o e && is_open_register e then open_signal e.mapping_id ++ rest else rest

  unfoldable pub is_cleared_by : RegisterReading → ℕ → AlarmEvent → Bool
  unfolding is_open_register
  is_cleared_by o id e =
      e.organization_id == o.organization_id
      && (e.device_id == o.device_id && (is_some_id e.mapping_id id && is_open_register e))

  -- UPDATE alarm.alarm_event SET cleared_at=$1 WHERE ... AND cleared_at IS NULL
  unfoldable pub close_signal : RegisterReading → ℕ → List AlarmEvent → List AlarmEvent
  unfolding is_cleared_by
  close_signal o id = map (λ (e : AlarmEvent).
      if is_cleared_by o id e then record e { cleared_at = some o.observed_at } else e)

  unfoldable pub close_signals :
      RegisterReading → List RegisterAlarmSignal → List AlarmEvent → List AlarmEvent
  unfolding close_signal
  close_signals o [] es = es
  close_signals o (s ∷ ss) es = close_signals o ss (close_signal o s.mapping_source_id es)

  unfoldable pub register_event : RegisterReading → RegisterAlarmSignal → AlarmEvent
  register_event o s = record {
    organization_id = o.organization_id;
    plant_id = o.plant_id;
    device_id = o.device_id;
    alarm_rule_id = none;
    source_type = register;
    mapping_id = some s.mapping_source_id;
    severity = s.severity;
    breached_at = o.observed_at;
    cleared_at = none;
  }

  -- INSERT ... ON CONFLICT (device_id, register_mapping_source_id) WHERE cleared_at IS NULL AND
  -- source_type = 'REGISTER' DO NOTHING, and the breach of each row that was inserted.
  unfoldable pub open_all :
      RegisterReading
      → List RegisterAlarmSignal
      → List AlarmEvent
      → List AlarmEvent × List RegisterBreach
  unfolding is_open_at some_item register_event
  open_all o [] es = (es, [])
  open_all o (s ∷ ss) es =
      let conflict = some_item (is_open_at o.device_id s.mapping_source_id) es in
      let breach : RegisterBreach = record {
        signal = s;
        notify_role_id = o.notify_role_id;
        plant_email_enabled = o.email_enabled;
      } in
      let (rows, breaches) =
        open_all o ss (if conflict then es else es ++ (register_event o s ∷ [])) in
      (rows, if conflict then breaches else breach ∷ breaches)

  -- evaluateRegisterAlarms, given the mappings of the device's profile.
  unfoldable pub evaluate_register_alarms :
      List RegisterAlarmRow
      → RegisterReading
      → List AlarmEvent
      → List AlarmEvent × List RegisterBreach
  unfolding current_signals open_signals register_alarm_transitions close_signals open_all
  evaluate_register_alarms definitions o es =
      let (to_close, to_open) =
        register_alarm_transitions (open_signals o es) (current_signals o definitions) in
      open_all o to_open (close_signals o to_close es)
