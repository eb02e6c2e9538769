-- ===== src/Middleware/Service.antt =====
-- internal/app/service.go: the gateway's service, over the file store and the Modbus client.
-- A call of it is one step. The network, whether the file can be written, JSON, SHA-256 and the
-- parser of integers are parameters.
pub mod Poll
pub mod Idle
pub mod Heartbeat
pub mod Device
pub mod Sweep
pub mod Pollable
pub mod SwappedWords
use ygate_git.Base.{
  ℕ, ◌+◌, ◌-◌, ◌%◌, Bool, true, false, not, ◌&&◌, ◌||◌, Option, none, some, Result, ok, err, List,
  [], ◌∷◌, ◌++◌, if◌then◌else◌,
}
use ygate_git.Base.Int.{ℤ, pos, leb_ℤ, ltb_ℤ, eqb_ℤ}
use ygate_git.Base.Text.{Text, lit, text_eq, is_empty, trim_space, contains, show_int}
use ygate_git.Middleware.Domain.{
  Reading, RegisterSample, RegisterDefinition, RegisterProfile, Address, DeviceSet,
  ConnectionConfig, PollLog,
}
use ygate_git.Middleware.Float64.{Float64}
use ygate_git.Middleware.Profile.Address.{ProfileError}
use ygate_git.Middleware.Decoder.{DecodeError, normalize_data_type}
use ygate_git.Middleware.Modbus.{Network, ReadError, modbus_exception}
use ygate_git.Middleware.Store.File.{Store, Saves, StoreError}
use ygate_git.Middleware.Store.File.Sets.{connection, device_set}

-- The errors of a poll; those of an entry carry its source tag.
pub data PollError : Type 0 where
  invalid_connection_id no_address no_data : PollError
  load_failed : StoreError → PollError
  bad_profile : ProfileError → PollError
  read_failed : ReadError → PollError
  bad_bytes : DecodeError → PollError
  incomplete_response not_a_number : Text → PollError
  decode_failed : Text → DecodeError → PollError

pub record Failure : Type 0 where
  pub function_code : ℤ
  pub start_address : ℕ
  pub quantity : ℕ
  pub unit_id : ℤ
  pub error : PollError
  pub hint : Text

-- What the service uses and does not implement.
pub record World (F : Type 0) : Type 0 where
  pub network : Network
  pub saves : Saves F
  pub parse_int : Text → Option ℤ
  pub reading_json : Reading F → Option Text
  pub failures_json : ConnectionConfig → List Failure → Text
  pub values_json : List (Text × F) → Text
  pub sha256_hex : Text → Text

-- `first`
unfoldable pub first : List Text → Text
unfolding is_empty trim_space
first [] = []
first (v ∷ vs) = if not (is_empty (trim_space v)) then trim_space v else first vs

-- `strings.Contains(err.Error(), "modbus exception")`: the message of an exception, or a source tag.
unfoldable pub mentions_exception : PollError → Bool
unfolding contains
mentions_exception (read_failed (modbus_exception code)) = true
mentions_exception (incomplete_response tag) = contains tag (lit "modbus exception")
mentions_exception (not_a_number tag) = contains tag (lit "modbus exception")
mentions_exception (decode_failed tag e) = contains tag (lit "modbus exception")
mentions_exception _ = false

unfoldable pub modbus_address_hint : ℤ → ℕ → PollError → Text
unfolding eqb_ℤ
modbus_address_hint fc start e =
    if not (mentions_exception e)
    then []
    else if eqb_ℤ fc (pos 3) && leb_ℤ (pos 40001) (pos start) && ltb_ℤ (pos start) (pos 50000)
    then lit
        "start address looks like 4xxxx notation; try Address Mode REGISTER_40001 for FC03 holding registers"
    else if eqb_ℤ fc (pos 4) && leb_ℤ (pos 30001) (pos start) && ltb_ℤ (pos start) (pos 40000)
    then lit
        "start address looks like 3xxxx notation; try Address Mode REGISTER_30001 for FC04 input registers"
    else []

-- The error of the file store is not `sql.ErrNoRows`, for which the service has another message.
unfoldable pub local_connection : {F : Type 0} → ℤ → Store F → Result PollError ConnectionConfig
local_connection id s = elim (connection id s) [ ok c ↦ ok c | err e ↦ err (load_failed e) ]

unfoldable pub local_device_set : {F : Type 0} → ℤ → Store F → Result PollError (DeviceSet F)
local_device_set id s = elim (device_set id s) [ ok d ↦ ok d | err e ↦ err (load_failed e) ]

module _ {F : Type 0} where
  -- The loop body that turns an address of the device set into a register of the profile.
  unfoldable pub register_of : Address F → RegisterDefinition F
  register_of a = record {
    key = show_int a.function_code ++ lit ":" ++ show_int a.register;
    source_tag = first (a.source_tag ∷ a.description ∷ []);
    data_type = normalize_data_type a.data_type;
    source_unit = a.source_unit;
    canonical_unit = a.canonical_unit;
    register_address = a.register;
    function_code = a.function_code;
    length = a.length;
    scale = a.factor;
    offset = a.offset;
    word_order = a.word_order;
    enabled = a.enabled;
  }

  unfoldable pub registers_of : List (Address F) → List (RegisterDefinition F)
  registers_of [] = []
  registers_of (a ∷ as') = register_of a ∷ registers_of as'

  -- The profile with which a device set is polled.
  unfoldable pub profile_of : DeviceSet F → RegisterProfile F
  unfolding first
  profile_of set = record {
    profile_id = show_int set.device_set_id;
    profile_name = set.brand_name ++ lit " " ++ set.dev_model;
    address_mode = first (set.address_mode ∷ lit "ZERO_BASED" ∷ []);
    byte_order = first (set.byte_order ∷ lit "BIG_ENDIAN" ∷ []);
    word_order = first (set.word_order ∷ lit "HIGH_LOW" ∷ []);
    max_block_size = set.max_block_size;
    dev_type_id = set.dev_type_id;
    default_function_code = pos 0;
    enabled = true;
    registers = registers_of set.addresses;
  }

-- `len(m) == 0`
abbrev no_values : {F : Type 0} → List (Text × F) → Bool
no_values [] = true
no_values (v ∷ vs) = false

-- `PrepareReadingForAPI`: the reading with its gateway, and its key; `none` if it is incomplete.
unfoldable pub prepare_reading_for_api : {F : Type 0} → Reading F → Text → Option (Reading F × Text)
unfolding trim_space is_empty
prepare_reading_for_api r gateway_id =
    let gw = trim_space gateway_id in
    if is_empty gw
      || is_empty r.dev_dn
      || is_empty r.plant_code
      || leb_ℤ r.dev_type_id (pos 0)
      || leb_ℤ r.collect_time (pos 0)
      || no_values r.register_address_map
    then none
    else some (
      record r { gateway_id = gw },
      gw
          ++ lit "|"
          ++ r.plant_code
          ++ lit "|"
          ++ show_int r.dev_type_id
          ++ lit "|"
          ++ r.dev_dn
          ++ lit "|"
          ++ show_int r.collect_time,
    )
