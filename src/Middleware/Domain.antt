-- ===== src/Middleware/Domain.antt =====
-- internal/domain: the records that the gateway's packages share. `F` stands for float64, ids and
-- other `int` and `int64` fields are integers, strings are lists of bytes.
use ygate_git.Base.{ℕ, Bool, List}
use ygate_git.Base.Int.{ℤ}
use ygate_git.Base.Text.{Text}

pub record RegisterDefinition (F : Type 0) : Type 0 where
  pub key : Text
  pub source_tag : Text
  pub data_type : Text
  pub source_unit : Text
  pub canonical_unit : Text
  pub register_address : ℤ
  pub function_code : ℤ
  pub length : ℤ
  pub scale : F
  pub offset : F
  pub word_order : Text
  pub enabled : Bool

pub record RegisterProfile (F : Type 0) : Type 0 where
  pub profile_id : Text
  pub profile_name : Text
  pub address_mode : Text
  pub byte_order : Text
  pub word_order : Text
  pub max_block_size : ℤ
  pub dev_type_id : ℤ
  pub default_function_code : ℤ
  pub enabled : Bool
  pub registers : List (RegisterDefinition F)

pub record RegisterSample (F : Type 0) : Type 0 where
  pub function_code : ℤ
  pub register_address : ℤ
  pub data_type : Text
  pub raw_value : F
  pub quality : Text

-- `register_address_map` is the Go map as the list of its writes, the last one first.
pub record Reading (F : Type 0) : Type 0 where
  pub gateway_id : Text
  pub dev_dn : Text
  pub dev_name : Text
  pub plant_code : Text
  pub plant_name : Text
  pub dev_type_id : ℤ
  pub model : Text
  pub collect_time : ℤ
  pub register_address_map : List (Text × F)

pub record Brand : Type 0 where
  pub brand_id : ℤ
  pub brand_name : Text
  pub brand_description : Text
  pub brand_dev_set_id_list : List ℤ

pub record Plant : Type 0 where
  pub plant_id : ℤ
  pub plant_code : Text
  pub plant_name : Text

pub record Address (F : Type 0) : Type 0 where
  pub address_id : ℤ
  pub device_set_id : ℤ
  pub function_code : ℤ
  pub register : ℤ
  pub description : Text
  pub canonical_key : Text
  pub source_tag : Text
  pub factor : F
  pub offset : F
  pub data_type : Text
  pub length : ℤ
  pub word_order : Text
  pub source_unit : Text
  pub canonical_unit : Text
  pub remark : Text
  pub enabled : Bool
  pub enabled_set : Bool

pub record DeviceSet (F : Type 0) : Type 0 where
  pub device_set_id : ℤ
  pub brand_id : ℤ
  pub brand_name : Text
  pub dev_type_id : ℤ
  pub dev_type : Text
  pub dev_model : Text
  pub address_id_list : List ℤ
  pub address_mode : Text
  pub byte_order : Text
  pub word_order : Text
  pub max_block_size : ℤ
  pub addresses : List (Address F)

pub record ConnectionConfig : Type 0 where
  pub connection_id : ℤ
  pub connection_name : Text
  pub host : Text
  pub port : ℤ
  pub unit_id : ℤ
  pub slave_id : ℤ
  pub device_set_id : ℤ
  pub device_set_name : Text
  pub dev_type_id : ℤ
  pub dev_dn : Text
  pub device_name : Text
  pub plant_code : Text
  pub plant_name : Text
  pub enabled : Bool

pub record ConfigSnapshot (F : Type 0) : Type 0 where
  pub version : ℤ
  pub brands : List Brand
  pub device_sets : List (DeviceSet F)
  pub connections : List ConnectionConfig
  pub plants : List Plant
  pub send_interval_seconds : ℤ
  pub api_polling_enabled : Bool
  pub idle_heartbeat_seconds : ℤ

pub record GatewayConfig : Type 0 where
  pub gateway_id : Text
  pub endpoint : Text
  pub api_key : Text
  pub api_polling_enabled : Bool
  pub send_interval_seconds : ℤ
  pub send_timeout_seconds : ℤ
  pub idle_heartbeat_seconds : ℤ

pub record PollLog : Type 0 where
  pub id : ℤ
  pub connection_id : ℤ
  pub connection_name : Text
  pub status : Text
  pub message : Text
  pub detail : Text
  pub created_at : ℤ

pub record DeliveryLog : Type 0 where
  pub id : ℤ
  pub idempotency_key : Text
  pub status : Text
  pub attempts : ℕ
  pub last_http_status : ℤ
  pub last_error : Text
  pub last_response : Text
  pub created_at : ℤ
  pub delivered_at : ℤ

pub record Connection : Type 0 where
  pub host : Text
  pub port : ℤ
  pub unit_id : ℤ

pub record Device : Type 0 where
  pub device_id : Text
  pub device_name : Text
  pub plant_code : Text
  pub plant_name : Text
  pub register_profile_id : Text
  pub dev_type_id : ℤ
  pub enabled : Bool
  pub connection : Connection
