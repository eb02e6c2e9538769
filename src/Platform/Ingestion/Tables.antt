-- ===== src/Platform/Ingestion/Tables.antt =====
-- The tables that the ingestion reads and writes, with the statements of
-- services/platform-api/internal/database/dbgen/ingestion.sql.go and raw_ingestion.sql.go. A UUID is a
-- number, and newUUID gives the next one.
use ygate_git.Base.{
  ℕ, suc, Bool, true, false, ◌&&◌, if◌then◌else◌, Option, none, some, List, [], ◌∷◌, ◌++◌, map,
  find, some_item, ◌==◌,
}
use ygate_git.Base.Int.{ℤ, eqb_ℤ}
use ygate_git.Base.Text.{Text, lit, text_eq}
use ygate_git.Platform.Floats.{Floats}
use ygate_git.Platform.Alarms.Events.{AlarmEvent, AlarmRule}
use ygate_git.Platform.Ingestion.{IngestResult, processing}

pub record PlantRow : Type 0 where
  pub id : ℕ
  pub organization_id : ℕ
  pub code : Text
  pub name : Text
  pub is_active : Bool
  pub alarm_email_enabled : Bool
  pub alarm_notify_role_id : Option ℕ

pub record DeviceModel : Type 0 where
  pub id : ℕ
  pub organization_id : ℕ
  pub model : Text
  pub device_type : Text

pub record DeviceRow : Type 0 where
  pub id : ℕ
  pub organization_id : ℕ
  pub plant_id : ℕ
  pub device_model_id : ℕ
  pub external_id : Text
  pub name : Text
  pub is_active : Bool

pub record IngestBatch : Type 0 where
  pub id : ℕ
  pub client_id : ℕ
  pub idempotency_key : Text
  pub payload_hash : Text
  pub counts : IngestResult

module _ (fl : Floats) where
  pub record RawRow : Type 0 where
    pub id : ℕ
    pub plant_id : ℕ
    pub device_id : ℕ
    pub client_id : ℕ
    pub batch_id : ℕ
    pub gateway_id : Text
    pub external_key : Text
    pub observed_at : ℤ
    pub register_address_map : List (Text × fl.F)

  -- `metadata` has the register keys of the device models, and `audit` the events of the audit log.
  pub record Database : Type 0 where
    pub next_id : ℕ
    pub plants : List PlantRow
    pub models : List DeviceModel
    pub devices : List DeviceRow
    pub metadata : List (ℕ × Text)
    pub rules : List (AlarmRule fl)
    pub events : List AlarmEvent
    pub batches : List IngestBatch
    pub readings : List RawRow
    pub audit : List (Text × ℕ)

  abbrev pub same_plant : ℕ → Text → PlantRow → Bool
  same_plant organization_id code p = p.organization_id == organization_id && text_eq p.code code

  -- GetIngestionPlant
  unfoldable pub get_plant : ℕ → Text → Database → Option PlantRow
  unfolding find text_eq
  get_plant organization_id code db = find (same_plant organization_id code) db.plants

  -- GetIngestionDevice
  unfoldable pub get_device : ℕ → ℕ → Text → Database → Option DeviceRow
  unfolding find text_eq
  get_device organization_id plant_id external_id db =
      find
        (λ (d : DeviceRow).
          d.organization_id == organization_id
          && (d.plant_id == plant_id && text_eq d.external_id external_id))
        db.devices

  -- newUUID
  abbrev pub new_id : Database → Database
  new_id db = record db { next_id = suc db.next_id }

  abbrev pub log_event : Text → ℕ → Database → Database
  log_event action target db = record db { audit = db.audit ++ ((action, target) ∷ []) }

  -- OnboardPlant of a code that the organization does not have, and its audit event.
  unfoldable pub onboard_plant : ℕ → Text → Text → Database → Database × PlantRow
  onboard_plant organization_id code name db =
      let plant : PlantRow = record {
        id = db.next_id;
        organization_id = organization_id;
        code = code;
        name = name;
        is_active = true;
        alarm_email_enabled = false;
        alarm_notify_role_id = none;
      } in
      (
        log_event (lit "plant.auto_onboarded") db.next_id
            (record (new_id db) { plants = db.plants ++ (plant ∷ []) }),
        plant,
      )

  unfoldable pub model_found : ℕ → Text → Text → Database → Option DeviceModel → Database × ℕ
  model_found organization_id model device_type db (some m) = (new_id db, m.id)
  model_found organization_id model device_type db none =
      let made : DeviceModel = record {
        id = db.next_id;
        organization_id = organization_id;
        model = model;
        device_type = device_type;
      } in
      (record (new_id db) { models = db.models ++ (made ∷ []) }, db.next_id)

  -- OnboardDeviceModel: the model of that name, which is made if there is none.
  unfoldable pub onboard_model : ℕ → Text → Text → Database → Database × ℕ
  unfolding find text_eq model_found
  onboard_model organization_id model device_type db =
      model_found organization_id model device_type db (
        find (λ (m : DeviceModel). m.organization_id == organization_id && text_eq m.model model)
          db.models)

  -- OnboardDevice of an external id that the plant does not have, and its audit event.
  unfoldable pub onboard_device : ℕ → ℕ → ℕ → Text → Text → Database → Database × DeviceRow
  onboard_device organization_id plant_id model_id external_id name db =
      let device : DeviceRow = record {
        id = db.next_id;
        organization_id = organization_id;
        plant_id = plant_id;
        device_model_id = model_id;
        external_id = external_id;
        name = name;
        is_active = true;
      } in
      (
        log_event (lit "device.auto_onboarded") db.next_id
            (record (new_id db) { devices = db.devices ++ (device ∷ []) }),
        device,
      )

  -- INSERT ... ON CONFLICT (organization_id, device_model_id, address_key) DO NOTHING
  unfoldable pub insert_metadata : ℕ → Text → List (ℕ × Text) → List (ℕ × Text)
  unfolding some_item text_eq
  insert_metadata model_id key rows =
      if some_item (λ (r : ℕ × Text). r.0 == model_id && text_eq r.1 key) rows
      then rows
      else rows ++ ((model_id, key) ∷ [])

  abbrev pub same_reading : ℕ → Text → ℤ → RawRow → Bool
  same_reading client_id external_key observed_at r =
      r.client_id == client_id
      && (text_eq r.external_key external_key && eqb_ℤ r.observed_at observed_at)

  -- InsertRawRegisterReading: nothing if the row is there already.
  unfoldable pub insert_reading : RawRow → Database → Option Database
  unfolding some_item text_eq eqb_ℤ
  insert_reading r db =
      if some_item (same_reading r.client_id r.external_key r.observed_at) db.readings
      then none
      else some (record db { readings = db.readings ++ (r ∷ []) })

  abbrev pub is_batch : ℕ → Text → IngestBatch → Bool
  is_batch client_id key b = b.client_id == client_id && text_eq b.idempotency_key key

  -- CreateOrGetIngestBatch, as far as it gets: the batch of the client with this key.
  unfoldable pub get_batch : ℕ → Text → Database → Option IngestBatch
  unfolding find text_eq
  get_batch client_id key db = find (is_batch client_id key) db.batches

  abbrev pub no_counts : ℕ → IngestResult
  no_counts id = record {
    ingestion_id = id;
    status = processing;
    accepted_count = 0;
    duplicate_count = 0;
    rejected_count = 0;
    onboarded_plant_count = 0;
    onboarded_device_count = 0;
    errors = [];
  }

  -- CreateOrGetIngestBatch, as far as it creates.
  unfoldable pub create_batch : ℕ → ℕ → Text → Text → Database → Database
  create_batch id client_id key payload_hash db = record db {
    batches =
        db.batches
        ++ ((record {
          id = id;
          client_id = client_id;
          idempotency_key = key;
          payload_hash = payload_hash;
          counts = no_counts id;
        })
            ∷ []);
  }

  -- CompleteIngestBatch
  unfoldable pub complete_batch : ℕ → IngestResult → Database → Database
  complete_batch id result db = record db {
    batches =
        map (λ (b : IngestBatch). if b.id == id then record b { counts = result } else b)
          db.batches;
  }
