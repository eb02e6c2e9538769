-- ===== src/Middleware/Store/Normalize.antt =====
-- internal/store/normalize.go: normalization and validation of a configuration.
pub mod Snapshot
pub mod Connections
pub mod Valid
pub mod Accepted
use ygate_git.Base.{
  ℕ, zero, suc, ◌+◌, Bool, true, false, not, ◌&&◌, ◌||◌, Result, ok, err, guard, ◌>>=◌, ◌>>◌, List,
  [], ◌∷◌, ◌++◌, if◌then◌else◌, some_item, map, ◌==◌,
}
use ygate_git.Base.Int.{ℤ, pos, ◌-ℤ◌, ltb_ℤ, leb_ℤ, eqb_ℤ}
use ygate_git.Base.Text.{
  Text, lit, text_eq, is_empty, to_upper, to_lower, trim_space, contains, show_int,
}
use ygate_git.Middleware.Float64.{Float64}
use ygate_git.Middleware.Domain.{RegisterDefinition, Address, DeviceSet, ConnectionConfig}
use ygate_git.Middleware.Profile.Address.{
  ProfileError, one_of, canonical_address_mode, resolve_modbus_address,
}
use ygate_git.Middleware.Decoder.{register_count}

-- The errors of the package's rules; the values that the messages print are left out.
pub data ConfigError : Type 0 where
  brand_name_required unknown_brand_id dev_type_and_model_required : ConfigError
  invalid_orders_or_block_size address_required : ConfigError
  plant_code_and_name_required unknown_device_set_id connection_fields_required : ConfigError
  bad_function_code bad_register description_and_data_type_required : ConfigError
  unsupported_data_type bad_length bad_word_order : ConfigError
  unresolved_address : ProfileError → ConfigError

-- `strings.TrimSpace(v) == ""`
abbrev pub is_blank : Text → Bool
is_blank v = is_empty (trim_space v)

-- `first(values...)`
unfoldable pub first : List Text → Text
first [] = []
first (v ∷ values) = if is_blank v then first values else trim_space v

-- `if v == "" { v = d }`, for a blank text and for an empty one.
abbrev pub or_if_blank : Text → Text → Text
or_if_blank v d = if is_blank v then d else v

abbrev pub or_if_empty : Text → Text → Text
or_if_empty v d = if is_empty v then d else v

abbrev pub dev_type_id : Text → ℤ
dev_type_id value =
    let v = to_lower (trim_space value) in
    if contains v (lit "grid") || contains v (lit "meter") then pos 17 else pos 1

abbrev pub dev_type_name : ℤ → Text
dev_type_name id = if eqb_ℤ id (pos 17) then lit "Grid-Meter" else lit "Inverter"

-- The canonical address mode, or the trimmed upper-case text of an unknown one.
abbrev pub mode_or_upper : Text → Text
mode_or_upper mode = elim (canonical_address_mode mode) [
  | ok m ↦ m
  | err e ↦ to_upper (trim_space mode)
]

unfoldable pub normalize_register : ℤ → ℤ → ℤ × ℤ
unfolding ◌-ℤ◌
normalize_register fc register =
    if leb_ℤ (pos 30000) register && ltb_ℤ register (pos 40000)
    then (pos 3, register -ℤ pos 30000)
    else if leb_ℤ (pos 40000) register && ltb_ℤ register (pos 50000)
    then (pos 4, register -ℤ pos 40000)
    else (fc, register)

-- What stands before the first "-", if there is one: `strings.Cut(s, "-")`.
unfoldable pub cut_head : Text → Text × Bool
cut_head [] = ([], false)
cut_head (c ∷ s) =
    let (head, found) = cut_head s in if c == 45 then ([], true) else (c ∷ head, found)

unfoldable pub plant_from_connection_name : Text → Text
unfolding cut_head
plant_from_connection_name value =
    let (head, found) = cut_head (trim_space value) in
    if not found || is_blank head then lit "DEFAULT" else to_upper (trim_space head)

unfoldable pub normalize_connection : ConnectionConfig → ConnectionConfig
unfolding eqb_ℤ
normalize_connection v =
    let name = trim_space v.connection_name in
    let unit =
      if leb_ℤ v.unit_id (pos 0) && ltb_ℤ (pos 0) v.slave_id then v.slave_id else v.unit_id in
    let unit' = if leb_ℤ unit (pos 0) then pos 1 else unit in
    let plant_code = or_if_blank v.plant_code (plant_from_connection_name name) in
    record v {
      connection_name = name;
      host = trim_space v.host;
      unit_id = unit';
      slave_id = unit';
      dev_dn = or_if_blank v.dev_dn name;
      device_name = or_if_blank v.device_name name;
      plant_code = plant_code;
      plant_name = or_if_blank v.plant_name plant_code;
      enabled = if eqb_ℤ v.connection_id (pos 0) then true else v.enabled;
    }

module _ (fl : Float64) where
  open fl use {F, of_int, is_zero}

  unfoldable pub normalize_device_set : DeviceSet F → DeviceSet F
  unfolding eqb_ℤ
  normalize_device_set v =
      let dev_type = trim_space v.dev_type in
      let dev_type' =
        if is_empty dev_type && ltb_ℤ (pos 0) v.dev_type_id
        then dev_type_name v.dev_type_id
        else dev_type in
      record v {
        dev_type = dev_type';
        dev_model = trim_space v.dev_model;
        dev_type_id = if leb_ℤ v.dev_type_id (pos 0) then dev_type_id dev_type' else v.dev_type_id;
        address_mode = mode_or_upper (or_if_empty v.address_mode (lit "ZERO_BASED"));
        byte_order = to_upper (trim_space (or_if_empty v.byte_order (lit "BIG_ENDIAN")));
        word_order = to_upper (trim_space (or_if_empty v.word_order (lit "HIGH_LOW")));
        max_block_size = if ltb_ℤ v.max_block_size (pos 1) then pos 30 else v.max_block_size;
      }

  -- `normalizeAddress`; its error is always nil.
  unfoldable pub normalize_address : Text → Address F → Address F
  unfolding eqb_ℤ
  normalize_address address_mode a =
      let description = trim_space a.description in
      let data_type = to_upper (trim_space a.data_type) in
      let (fc, register) =
        if text_eq address_mode (lit "ZERO_BASED")
        then normalize_register a.function_code a.register
        else (a.function_code, a.register) in
      record a {
        description = description;
        data_type = data_type;
        source_unit = trim_space a.source_unit;
        canonical_unit = trim_space a.canonical_unit;
        remark = trim_space a.remark;
        function_code = fc;
        register = register;
        factor = if is_zero a.factor then of_int (pos 1) else a.factor;
        canonical_key = or_if_blank a.canonical_key (show_int fc ++ lit ":" ++ show_int register);
        source_tag = or_if_empty a.source_tag description;
        length = if eqb_ℤ a.length (pos 0) then pos (register_count data_type) else a.length;
        word_order = to_upper (trim_space a.word_order);
        enabled = if a.enabled_set then a.enabled else true;
      }

  -- The register definition with which `validateAddress` resolves an address.
  abbrev pub definition_of : Address F → RegisterDefinition F
  definition_of a = record {
    key = a.description;
    source_tag = [];
    data_type = [];
    source_unit = [];
    canonical_unit = [];
    register_address = a.register;
    function_code = a.function_code;
    length = a.length;
    scale = of_int (pos 0);
    offset = of_int (pos 0);
    word_order = [];
    enabled = false;
  }

  abbrev pub lift_profile_error : {A : Type 0} → Result ProfileError A → Result ConfigError A
  lift_profile_error (ok a) = ok a
  lift_profile_error (err e) = err (unresolved_address e)

  unfoldable pub validate_address : Text → Address F → Result ConfigError (Unit {0})
  unfolding one_of
  validate_address address_mode a = do
    guard (eqb_ℤ a.function_code (pos 3) || eqb_ℤ a.function_code (pos 4)) bad_function_code
    guard (not (ltb_ℤ a.register (pos 0) || ltb_ℤ (pos 65535) a.register)) bad_register
    guard (not (is_empty a.description || is_empty a.data_type)) description_and_data_type_required
    guard (not (register_count a.data_type == 0)) unsupported_data_type
    guard (not (ltb_ℤ a.length (pos 1) || ltb_ℤ (pos 4) a.length)) bad_length
    guard (is_empty a.word_order || one_of a.word_order (lit "HIGH_LOW" ∷ lit "LOW_HIGH" ∷ []))
        bad_word_order
    _ ← lift_profile_error (resolve_modbus_address address_mode (definition_of a))
    ok tt
