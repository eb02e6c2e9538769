-- ===== src/Platform/Ingestion.antt =====
-- services/platform-api/internal/ingestion: the batches of readings that a gateway sends. This file has
-- the data and the rules on one reading (raw_service.go, service.go).
pub mod Tables
pub mod Batches
pub mod Counted
pub mod Idempotent
use ygate_git.Base.{
  ℕ, suc, ◌*◌, ◌+◌, ◌-◌, Bool, true, false, not, ◌&&◌, ◌||◌, if◌then◌else◌, Option, none, some,
  List, [], ◌∷◌, ◌++◌, length, some_item, ltb, leb, ◌==◌, Result, err, ok, guard, ◌>>=◌, ◌>>◌,
}
use ygate_git.Base.Int.{ℤ, pos, negsuc, ◌+ℤ◌, ltb_ℤ, leb_ℤ}
use ygate_git.Base.Text.{
  Text, lit, text_eq, is_empty, trim_space, to_upper, to_lower, has_prefix, show_int,
}
use ygate_git.Platform.Floats.{Floats}
use ygate_git.Platform.RegisterAlarms.{RegisterAlarmRow}

-- Client; an id is absent where its UUID is not valid.
pub record IngestClient : Type 0 where
  pub id : Option ℕ
  pub organization_id : Option ℕ
  pub name : Text
  pub auto_onboard : Bool

pub data IngestError : Type 0 where
  invalid_batch : IngestError
  idempotency_conflict : IngestError

-- The error codes and messages of one reading.
pub data ReadingError : Type 0 where
  invalid_plant_code : ReadingError
  invalid_identity : ReadingError
  invalid_device_type : ReadingError
  missing_values : ReadingError
  invalid_address : ReadingError
  not_finite : ReadingError
  in_the_future : ReadingError
  unknown_plant : ReadingError
  plant_disabled : ReadingError
  unknown_device : ReadingError
  device_disabled : ReadingError

pub record RecordError : Type 0 where
  pub index : ℕ
  pub reason : ReadingError

pub data BatchStatus : Type 0 where
  processing : BatchStatus
  accepted : BatchStatus
  duplicate : BatchStatus

-- Result
pub record IngestResult : Type 0 where
  pub ingestion_id : ℕ
  pub status : BatchStatus
  pub accepted_count : ℕ
  pub duplicate_count : ℕ
  pub rejected_count : ℕ
  pub onboarded_plant_count : ℕ
  pub onboarded_device_count : ℕ
  pub errors : List RecordError

-- `^[A-Z0-9][A-Z0-9._=-]*$`
unfoldable pub is_code_start : ℕ → Bool
is_code_start c = (leb 65 c && leb c 90) || (leb 48 c && leb c 57)

unfoldable pub is_code_rest : Text → Bool
unfolding is_code_start
is_code_rest [] = true
is_code_rest (c ∷ s) =
    (is_code_start c || c == 46 || c == 95 || c == 61 || c == 45) && is_code_rest s

unfoldable pub plant_code_re : Text → Bool
unfolding is_code_start is_code_rest
plant_code_re [] = false
plant_code_re (c ∷ s) = is_code_start c && is_code_rest s

-- time.UnixMilli, in microseconds.
abbrev pub unix_milli : ℤ → ℤ
unix_milli (pos n) = pos (n * 1000)
unix_milli (negsuc n) = negsuc (suc n * 1000 - 1)

abbrev pub ten_minutes : ℤ
ten_minutes = pos 600000000

unfoldable pub or_else : Text → Text → Text
unfolding is_empty
or_else s other = if is_empty s then other else s

unfoldable pub longer : ℕ → Text → Bool
longer n s = ltb n (length s)

module _ (fl : Floats) where
  pub record RawReading : Type 0 where
    pub gateway_id : Text
    pub dev_dn : Text
    pub dev_name : Text
    pub plant_code : Text
    pub plant_name : Text
    pub dev_type_id : ℤ
    pub model : Text
    pub collect_time : ℤ
    pub register_address_map : List (Text × fl.F)

  pub record RawBatch : Type 0 where
    pub schema_version : Text
    pub readings : List RawReading

  -- What the service uses and does not implement: the parser of integers, the RFC 3339 form of a time,
  -- SHA-256 in hexadecimal digits, and the SQL function telemetry.mapped_data_items and the join that
  -- finds the alarm mappings of a device model.
  pub record Outside : Type 0 where
    pub atoi : Text → Option ℤ
    pub format_time : ℤ → Text
    pub sha256 : Text → Text
    pub mapped_data_items : ℕ → ℕ → List (Text × fl.F) → List (Text × fl.F)
    pub register_mappings : ℕ → List (RegisterAlarmRow fl)

  pub record NormalizedReading : Type 0 where
    pub reading : RawReading
    pub observed_at : ℤ
    pub device_type : Text

  -- The fields as they are after trimming, with their defaults.
  unfoldable pub normalize_fields : Text → RawReading → RawReading
  unfolding to_upper trim_space or_else show_int
  normalize_fields client_name r =
      let plant_code = to_upper (trim_space r.plant_code) in
      let dev_dn = trim_space r.dev_dn in
      record r {
        plant_code = plant_code;
        plant_name = or_else (trim_space r.plant_name) plant_code;
        dev_dn = dev_dn;
        dev_name = or_else (trim_space r.dev_name) dev_dn;
        gateway_id = or_else (trim_space r.gateway_id) client_name;
        model = or_else (trim_space r.model) (lit "DEV_TYPE_" ++ show_int r.dev_type_id);
      }

  module _ (out : Outside) where
    unfoldable pub is_address : Option ℤ → Bool
    is_address none = false
    is_address (some a) = not (ltb_ℤ a (pos 0) || ltb_ℤ (pos 65535) a)

    -- The loop over the registers.
    unfoldable pub check_registers : List (Text × fl.F) → Result ReadingError (Unit {0})
    unfolding is_address
    check_registers [] = ok tt
    check_registers ((key, value) ∷ rest) =
        guard (is_address (out.atoi key)) invalid_address
        >> guard (not (fl.is_nan value || fl.is_inf value)) not_finite
        >> check_registers rest

    -- validateRawReading; the map's registers come in the order of its list, so of several faults the
    -- first is reported.
    unfoldable pub validate_raw_reading :
        Text → ℤ → RawReading → Result ReadingError NormalizedReading
    unfolding normalize_fields plant_code_re longer check_registers show_int
    validate_raw_reading client_name now raw =
        let r = normalize_fields client_name raw in
        let observed_at = unix_milli r.collect_time in
        guard
          (not (length r.plant_code == 0 || longer 100 r.plant_code) && plant_code_re r.plant_code)
          invalid_plant_code
        >> guard
            (not (
              length r.dev_dn == 0
              || longer 200 r.dev_dn
              || longer 200 r.dev_name
              || longer 200 r.plant_name))
            invalid_identity
        >> guard
            (not (
              leb_ℤ r.dev_type_id (pos 0)
              || longer 200 r.model
              || length r.gateway_id == 0
              || longer 200 r.gateway_id))
            invalid_device_type
        >> guard
            (not (
              leb_ℤ r.collect_time (pos 0)
              || length r.register_address_map == 0
              || ltb 5000 (length r.register_address_map)))
            missing_values
        >> check_registers r.register_address_map
        >> guard (not (ltb_ℤ (now +ℤ ten_minutes) observed_at)) in_the_future
        >> ok (record {
          reading = r;
          observed_at = observed_at;
          device_type = lit "DEV_TYPE_" ++ show_int r.dev_type_id;
        })

    -- canonicalRegisterKey
    unfoldable pub canonical_register_key : Text → Text
    unfolding trim_space has_prefix to_lower
    canonical_register_key key =
        let trimmed = trim_space key in
        if has_prefix (to_lower trimmed) (lit "reg")
        then trimmed
        else elim (out.atoi trimmed) [ none ↦ trimmed | some n ↦ lit "reg" ++ trimmed ]
