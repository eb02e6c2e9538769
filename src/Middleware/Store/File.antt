-- ===== src/Middleware/Store/File.antt =====
-- internal/store/file_arch.go: the JSON file store of the mips build, its state and its file.
-- Every method runs under one mutex, so a call is one step. The file system is a parameter: whether
-- writing a given state to the file succeeds. The clock is an argument, in milliseconds.
pub mod Config
pub mod Sets
pub mod Outbox
pub mod Snapshots
pub mod Queue
pub mod Ids
pub mod Fits
pub mod Taken
pub mod Runs
pub mod Delivery
pub mod Pushed
use ygate_git.Base.{
  ℕ, Bool, true, false, Option, none, some, Result, ok, err, List, [], ◌∷◌, if◌then◌else◌,
}
use ygate_git.Base.Int.{ℤ, pos, succ_int64, ltb_ℤ, eqb_ℤ}
use ygate_git.Base.Text.{Text, text_eq}
use ygate_git.Middleware.Domain.{
  RegisterProfile, Device, GatewayConfig, Brand, DeviceSet, Plant, ConnectionConfig, PollLog,
}
use ygate_git.Middleware.Store.Normalize.{ConfigError}

-- The field `Status` of an outbox row.
pub data Status : Type 0 where
  pending retrying delivered dead_letter : Status

pub record OutboxRow : Type 0 where
  pub id : ℤ
  pub key : Text
  pub hash : Text
  pub payload : Text
  pub status : Status
  pub attempts : ℕ
  pub http_status : ℤ
  pub next_retry : ℤ
  pub created : ℤ
  pub delivered_at : ℤ
  pub last_error : Text
  pub last_response : Text

pub record History : Type 0 where
  pub version : ℤ
  pub applied : Bool
  pub reason : Option ConfigError
  pub snapshot : Text
  pub applied_at : ℤ

pub record FileState (F : Type 0) : Type 0 where
  pub format_version : ℤ
  pub next_id : ℤ
  pub gateway_config : GatewayConfig
  pub gateway_config_set : Bool
  pub brands : List Brand
  pub device_sets : List (DeviceSet F)
  pub plants : List Plant
  pub connections : List ConnectionConfig
  pub profiles : List (Text × RegisterProfile F)
  pub devices : List (Text × Device)
  pub outbox : List OutboxRow
  pub poll_logs : List PollLog
  pub history : List History

-- The store: its state in memory, and what its file holds.
pub record Store (F : Type 0) : Type 0 where
  pub state : FileState F
  pub file : Option (FileState F)

pub data StoreError : Type 0 where
  save_failed not_exist read_store sqlite_not_supported : StoreError
  in_use not_found invalid : StoreError
  config : ConfigError → StoreError
  marshal_failed invalid_endpoint : StoreError

-- Whether a state can be written: the directory, the encoding, the temporary file and the rename.
abbrev pub Saves : Type 0 → Type 0
Saves F = FileState F → Bool

-- What a method returns: its result, and the store.
abbrev pub Outcome : Type 0 → Type 0 → Type 0
Outcome F A = Result StoreError A × Store F

module _ {F : Type 0} where
  -- `saveLocked` at the end of a method that returns `v`. The temporary file is renamed over the old
  -- one, so a write that fails leaves the file as it was.
  abbrev pub save : {A : Type 0} → Saves F → A → Store F → Outcome F A
  save saves v s =
      if saves s.state then (ok v, record s { file = some s.state }) else (err save_failed, s)

  -- A method that changes the state and saves it.
  abbrev pub commit : {A : Type 0} → Saves F → A → Store F → FileState F → Outcome F A
  commit saves v s state = save saves v (record s { state = state })

  -- `nextID`
  abbrev pub with_next_id : FileState F → FileState F
  with_next_id s = record s { next_id = succ_int64 s.next_id }

  -- `openNormalized` behind its test of the name: what reading and decoding the file gives, `none`
  -- for a file that is not there. The two nil maps are empty lists here.
  unfoldable pub opened :
      FileState F → Option (Result StoreError (FileState F)) → Result StoreError (Store F)
  unfolding eqb_ℤ
  opened blank none =
      ok (record { state = record blank { format_version = pos 1; next_id = pos 1 }; file = none })
  opened blank (some (err e)) = err e
  opened blank (some (ok s)) = ok (record {
    state = record s {
      format_version = if eqb_ℤ s.format_version (pos 0) then pos 1 else s.format_version;
      next_id = if ltb_ℤ s.next_id (pos 1) then pos 1 else s.next_id;
    };
    file = some s;
  })

-- A Go map by string keys: the value of a key, and the map with a key set.
unfoldable pub map_get : {V : Type 0} → Text → List (Text × V) → Option V
unfolding text_eq
map_get k [] = none
map_get k ((j, v) ∷ m) = if text_eq j k then some v else map_get k m

unfoldable pub map_put : {V : Type 0} → Text → V → List (Text × V) → List (Text × V)
unfolding text_eq
map_put k v [] = (k, v) ∷ []
map_put k v ((j, w) ∷ m) = if text_eq j k then (j, v) ∷ m else (j, w) ∷ map_put k v m

abbrev pub or_not_exist : {A : Type 0} → Option A → Result StoreError A
or_not_exist none = err not_exist
or_not_exist (some a) = ok a

module _ {F : Type 0} (saves : Saves F) where
  unfoldable pub save_profile : RegisterProfile F → Store F → Outcome F (Unit {0})
  unfolding map_put
  save_profile v s =
      commit saves tt s (record s.state { profiles = map_put v.profile_id v s.state.profiles })

  unfoldable pub save_device : Device → Store F → Outcome F (Unit {0})
  unfolding map_put
  save_device v s =
      commit saves tt s (record s.state { devices = map_put v.device_id v s.state.devices })

unfoldable pub profile : {F : Type 0} → Text → Store F → Result StoreError (RegisterProfile F)
unfolding map_get
profile id s = or_not_exist (map_get id s.state.profiles)

unfoldable pub device : {F : Type 0} → Text → Store F → Result StoreError Device
unfolding map_get
device id s = or_not_exist (map_get id s.state.devices)
