-- ===== src/Middleware/Tests/Data.antt =====
-- A float64 and a small site: one inverter with two registers.
use ygate_git.Base.{refl, ◌==◌, Bool, true, false, Option, none, some, List, [], ◌∷◌}
use ygate_git.Base.Int.{ℤ, pos, negsuc}
use ygate_git.Base.Text.{Text, lit}
use ygate_git.Middleware.Float64.{Float64}
use ygate_git.Middleware.Domain.{
  Address, DeviceSet, RegisterDefinition, RegisterProfile, Brand, ConnectionConfig, ConfigSnapshot,
  GatewayConfig,
}
use ygate_git.Middleware.Store.File.{FileState, Store}

abbrev is_none : Option ℤ → Bool
is_none none = true
is_none (some z) = false

abbrev is_zero_int : ℤ → Bool
is_zero_int (pos n) = n == 0
is_zero_int (negsuc n) = false

abbrev is_some_zero : Option ℤ → Bool
is_some_zero (some z) = is_zero_int z
is_some_zero none = false

-- Integers and not-a-number.
abbrev pub floats : Float64
floats = record {
  F = Option ℤ;
  of_int = some;
  of_bits32 = λ u. some (pos u);
  nan = none;
  is_nan = is_none;
  is_zero = is_some_zero;
  is_nan-nan = refl;
  is_nan-of_int = λ z. refl;
}

abbrev pub register : ℤ → ℤ → Text → RegisterDefinition (Option ℤ)
register address length data_type = record {
  key = lit "power";
  source_tag = lit "power";
  data_type = data_type;
  source_unit = lit "kW";
  canonical_unit = lit "kW";
  register_address = address;
  function_code = pos 3;
  length = length;
  scale = some (pos 1);
  offset = some (pos 0);
  word_order = [];
  enabled = true;
}

abbrev pub two_registers : RegisterProfile (Option ℤ)
two_registers = record {
  profile_id = lit "1";
  profile_name = lit "inverter";
  address_mode = lit "ONE_BASED";
  byte_order = lit "BIG_ENDIAN";
  word_order = lit "HIGH_LOW";
  max_block_size = pos 30;
  dev_type_id = pos 1;
  default_function_code = pos 0;
  enabled = true;
  registers = register (pos 11) (pos 2) (lit "U32") ∷ register (pos 10) (pos 1) (lit "U16") ∷ [];
}

abbrev pub plant_connection : ConnectionConfig
plant_connection = record {
  connection_id = pos 4;
  connection_name = lit "Plant A - inverter";
  host = lit "10.0.0.7";
  port = pos 502;
  unit_id = pos 0;
  slave_id = pos 9;
  device_set_id = pos 2;
  device_set_name = [];
  dev_type_id = pos 1;
  dev_dn = lit "INV-1";
  device_name = lit "inverter";
  plant_code = lit "PA";
  plant_name = [];
  enabled = true;
}

abbrev pub no_settings : GatewayConfig
no_settings = record {
  gateway_id = [];
  endpoint = [];
  api_key = [];
  api_polling_enabled = false;
  send_interval_seconds = pos 0;
  send_timeout_seconds = pos 0;
  idle_heartbeat_seconds = pos 0;
}

abbrev pub empty_state : FileState (Option ℤ)
empty_state = record {
  format_version = pos 1;
  next_id = pos 1;
  gateway_config = no_settings;
  gateway_config_set = false;
  brands = [];
  device_sets = [];
  plants = [];
  connections = [];
  profiles = [];
  devices = [];
  outbox = [];
  poll_logs = [];
  history = [];
}

abbrev pub empty_store : Store (Option ℤ)
empty_store = record { state = empty_state; file = none }

-- A configuration with no brand, and one whose brand has no name.
abbrev pub pushed_brands : List Brand → ConfigSnapshot (Option ℤ)
pushed_brands brands = record {
  version = pos 0;
  brands = brands;
  device_sets = [];
  connections = [];
  plants = [];
  send_interval_seconds = pos 5;
  api_polling_enabled = true;
  idle_heartbeat_seconds = pos 1800;
}

abbrev pub brand : Text → Brand
brand name = record {
  brand_id = pos 3;
  brand_name = name;
  brand_description = [];
  brand_dev_set_id_list = [];
}

-- One address of the inverter, its device set, and a configuration with both and a connection.
abbrev pub power : Address (Option ℤ)
power = record {
  address_id = pos 1;
  device_set_id = pos 0;
  function_code = pos 3;
  register = pos 10;
  description = lit "active power";
  canonical_key = [];
  source_tag = [];
  factor = some (pos 0);
  offset = some (pos 0);
  data_type = lit "u32";
  length = pos 0;
  word_order = [];
  source_unit = lit "kW";
  canonical_unit = lit "kW";
  remark = [];
  enabled = false;
  enabled_set = false;
}

abbrev pub inverter : DeviceSet (Option ℤ)
inverter = record {
  device_set_id = pos 2;
  brand_id = pos 3;
  brand_name = lit "Acme";
  dev_type_id = pos 1;
  dev_type = lit "Inverter";
  dev_model = lit "M";
  address_id_list = [];
  address_mode = [];
  byte_order = [];
  word_order = [];
  max_block_size = pos 0;
  addresses = power ∷ [];
}

abbrev pub site : ConfigSnapshot (Option ℤ)
site = record (pushed_brands (brand (lit "Acme") ∷ [])) {
  device_sets = inverter ∷ [];
  connections = plant_connection ∷ [];
}
