-- ===== src/Platform/Ingestion/Batches.antt =====
-- services/platform-api/internal/ingestion/raw_service.go: what a batch of readings does to the
-- database. The statements run in one transaction: a statement that fails leaves the database as it
-- was, and is not modelled, nor are the mails that are sent after the commit.
use ygate_git.Base.{
  ℕ, suc, ◌+◌, Bool, not, ◌&&◌, ◌||◌, if◌then◌else◌, Option, none, some, List, [], ◌∷◌, ◌++◌, map,
  length, ltb, ◌==◌, Result, err, ok, ◌>>=◌, sort_by,
}
use ygate_git.Base.Int.{ℤ}
use ygate_git.Base.Text.{Text, lit, text_eq, text_lt, is_empty, trim_space}
use ygate_git.Platform.Floats.{Floats}
use ygate_git.Platform.Alarms.Events.{Observation, evaluate_alarms}
use ygate_git.Platform.RegisterAlarms.{RegisterReading, evaluate_register_alarms}
use ygate_git.Platform.Ingestion.{
  IngestClient, IngestError, invalid_batch, idempotency_conflict, ReadingError, unknown_plant,
  plant_disabled, unknown_device, device_disabled, accepted, duplicate, IngestResult, RawReading,
  RawBatch, Outside, NormalizedReading, validate_raw_reading, canonical_register_key,
}
use ygate_git.Platform.Ingestion.Tables.{
  PlantRow, DeviceRow, Database, RawRow, get_plant, get_device, new_id, onboard_plant,
  onboard_model, onboard_device, insert_metadata, insert_reading, get_batch, create_batch,
  complete_batch, IngestBatch, no_counts, log_event,
}

-- What one reading counts as; the breaches that are mailed are left out.
pub record IngestOutcome : Type 0 where
  pub accepted : ℕ
  pub duplicate : ℕ
  pub plants : ℕ
  pub devices : ℕ

module _ (fl : Floats) (out : Outside fl) where
  -- The loop of ensureModelRegisterMetadata over the sorted keys.
  unfoldable pub ensure_keys : ℕ → List Text → List (ℕ × Text) → List (ℕ × Text)
  unfolding insert_metadata canonical_register_key
  ensure_keys model_id [] rows = rows
  ensure_keys model_id (key ∷ keys) rows =
      ensure_keys model_id keys
        (insert_metadata fl model_id (canonical_register_key fl out key) rows)

  -- ensureModelRegisterMetadata, whose keys the caller begins with "reg".
  unfoldable pub ensure_metadata : ℕ → List (Text × fl.F) → Database fl → Database fl
  unfolding ensure_keys sort_by text_lt
  ensure_metadata model_id registers db =
      let keys = sort_by text_lt (map (λ (r : Text × fl.F). lit "reg" ++ r.0) registers) in
      let rows = ensure_keys model_id keys db.metadata in
      if length rows == length db.metadata
      then db
      else log_event fl (lit "device_model_register_metadata.auto_created") model_id
          (record db { metadata = rows })

  -- What is done with the plant that the code of a reading names, or does not name.
  unfoldable pub plant_found :
      ℕ
      → Bool
      → RawReading fl
      → Database fl
      → Option PlantRow
      → Result ReadingError (Database fl × ℕ × PlantRow)
  unfolding onboard_plant
  plant_found organization_id auto_onboard r db (some plant) =
      if plant.is_active then ok (db, 0, plant) else err plant_disabled
  plant_found organization_id auto_onboard r db none =
      let (made, plant) = onboard_plant fl organization_id r.plant_code r.plant_name db in
      if auto_onboard then ok (made, 1, plant) else err unknown_plant

  -- The plant of a reading, with how many plants were made for it.
  unfoldable pub find_plant :
      ℕ → Bool → RawReading fl → Database fl → Result ReadingError (Database fl × ℕ × PlantRow)
  unfolding get_plant plant_found
  find_plant organization_id auto_onboard r db =
      plant_found organization_id auto_onboard r db (get_plant fl organization_id r.plant_code db)

  -- What is done with the device that a reading names, or does not name.
  unfoldable pub device_found :
      ℕ
      → Bool
      → NormalizedReading fl
      → PlantRow
      → Database fl
      → Option DeviceRow
      → Result ReadingError (Database fl × ℕ × DeviceRow)
  unfolding onboard_model onboard_device
  device_found organization_id auto_onboard n plant db (some device) =
      if device.is_active then ok (db, 0, device) else err device_disabled
  device_found organization_id auto_onboard n plant db none =
      let r = n.reading in
      let (with_model, model_id) = onboard_model fl organization_id r.model n.device_type db in
      let (made, device) =
        onboard_device fl organization_id plant.id model_id r.dev_dn r.dev_name with_model in
      if auto_onboard then ok (made, 1, device) else err unknown_device

  -- The device of a reading, with how many devices were made for it.
  unfoldable pub find_device :
      ℕ
      → Bool
      → NormalizedReading fl
      → PlantRow
      → Database fl
      → Result ReadingError (Database fl × ℕ × DeviceRow)
  unfolding get_device device_found
  find_device organization_id auto_onboard n plant db =
      device_found organization_id auto_onboard n plant db
        (get_device fl organization_id plant.id n.reading.dev_dn db)

  -- evaluateAlarms and then evaluateRegisterAlarms, on the events of the database.
  unfoldable pub evaluate_both :
      ℕ → ℤ → NormalizedReading fl → PlantRow → DeviceRow → Database fl → Database fl
  unfolding evaluate_alarms evaluate_register_alarms
  evaluate_both organization_id now n plant device db =
      let items =
        out.mapped_data_items device.id device.device_model_id n.reading.register_address_map in
      let observation : Observation fl = record {
        organization_id = organization_id;
        plant_id = plant.id;
        device_id = device.id;
        plant_email_enabled = plant.alarm_email_enabled;
        data_items = items;
        observed_at = n.observed_at;
        now = now;
      } in
      let registers : RegisterReading fl = record {
        organization_id = organization_id;
        plant_id = plant.id;
        device_id = device.id;
        plant_name = plant.name;
        email_enabled = plant.alarm_email_enabled;
        notify_role_id = plant.alarm_notify_role_id;
        raw_values = n.reading.register_address_map;
        numeric_values = items;
        observed_at = n.observed_at;
      } in
      let ruled = (evaluate_alarms fl db.rules observation db.events).0 in
      let settled =
        evaluate_register_alarms fl (out.register_mappings device.device_model_id) registers
          ruled in
      record db { events = settled.0 }

  unfoldable pub external_key : NormalizedReading fl → Text
  external_key n =
      lit "v2:"
      ++ (n.reading.plant_code
          ++ (lit ":" ++ (n.reading.dev_dn ++ (lit ":" ++ out.format_time n.observed_at))))

  abbrev raw_row : ℕ → ℕ → NormalizedReading fl → PlantRow → DeviceRow → ℕ → RawRow fl
  raw_row client_id batch_id n plant device id = record {
    id = id;
    plant_id = plant.id;
    device_id = device.id;
    client_id = client_id;
    batch_id = batch_id;
    gateway_id = n.reading.gateway_id;
    external_key = external_key n;
    observed_at = n.observed_at;
    register_address_map = n.reading.register_address_map;
  }

  -- The end of ingestRawReading: a reading that is stored already is a duplicate, and raises nothing.
  unfoldable pub store_reading :
      ℕ
      → ℤ
      → NormalizedReading fl
      → PlantRow
      → DeviceRow
      → IngestOutcome
      → Database fl
      → Option (Database fl)
      → Database fl × IngestOutcome
  unfolding evaluate_both
  store_reading organization_id now n plant device outcome db none =
      (db, record outcome { duplicate = 1 })
  store_reading organization_id now n plant device outcome db (some stored) =
      (evaluate_both organization_id now n plant device stored, record outcome { accepted = 1 })

  -- ingestRawReading from the device on.
  unfoldable pub on_device :
      ℕ
      → ℕ
      → ℕ
      → ℤ
      → NormalizedReading fl
      → ℕ
      → PlantRow
      → Result ReadingError (Database fl × ℕ × DeviceRow)
      → Result ReadingError (Database fl × IngestOutcome)
  unfolding ensure_metadata insert_reading store_reading
  on_device client_id organization_id batch_id now n plants plant (err e) = err e
  on_device client_id organization_id batch_id now n plants plant (ok (db, devices, device)) =
      let known =
        new_id fl (ensure_metadata device.device_model_id n.reading.register_address_map db) in
      let row = raw_row client_id batch_id n plant device known.next_id in
      ok (
        store_reading organization_id now n plant device
          (record { accepted = 0; duplicate = 0; plants = plants; devices = devices }) known
          (insert_reading fl row known))

  -- ingestRawReading from the plant on.
  unfoldable pub on_plant :
      ℕ
      → ℕ
      → Bool
      → ℕ
      → ℤ
      → NormalizedReading fl
      → Result ReadingError (Database fl × ℕ × PlantRow)
      → Result ReadingError (Database fl × IngestOutcome)
  unfolding find_device on_device
  on_plant client_id organization_id auto_onboard batch_id now n (err e) = err e
  on_plant client_id organization_id auto_onboard batch_id now n (ok (db, plants, plant)) =
      on_device client_id organization_id batch_id now n plants plant
        (find_device organization_id auto_onboard n plant db)

  -- ingestRawReading
  unfoldable pub ingest_raw_reading :
      ℕ
      → ℕ
      → Bool
      → ℕ
      → ℤ
      → NormalizedReading fl
      → Database fl
      → Result ReadingError (Database fl × IngestOutcome)
  unfolding find_plant on_plant
  ingest_raw_reading client_id organization_id auto_onboard batch_id now n db =
      on_plant client_id organization_id auto_onboard batch_id now n
        (find_plant organization_id auto_onboard n.reading db)

  abbrev pub reject : ℕ → ReadingError → IngestResult → IngestResult
  reject index reason result = record result {
    rejected_count = suc result.rejected_count;
    errors = result.errors ++ ((record { index = index; reason = reason }) ∷ []);
  }

  abbrev pub count : IngestOutcome → IngestResult → IngestResult
  count outcome result = record result {
    accepted_count = result.accepted_count + outcome.accepted;
    duplicate_count = result.duplicate_count + outcome.duplicate;
    onboarded_plant_count = result.onboarded_plant_count + outcome.plants;
    onboarded_device_count = result.onboarded_device_count + outcome.devices;
  }

  -- What a reading that was ingested or refused adds to the result.
  unfoldable pub after_reading :
      ℕ
      → Result ReadingError (Database fl × IngestOutcome)
      → IngestResult × Database fl
      → IngestResult × Database fl
  after_reading index (err e) (result, db) = (reject index e result, db)
  after_reading index (ok (stored, outcome)) (result, db) = (count outcome result, stored)

  -- One round of the loop of IngestRaw.
  unfoldable pub ingest_one :
      IngestClient
      → ℕ
      → ℕ
      → ℕ
      → ℤ
      → ℕ
      → RawReading fl
      → IngestResult × Database fl
      → IngestResult × Database fl
  unfolding validate_raw_reading ingest_raw_reading after_reading
  ingest_one client client_id organization_id batch_id now index r (result, db) =
      after_reading index
        (validate_raw_reading fl out client.name now r >>= λ n.
          ingest_raw_reading client_id organization_id client.auto_onboard batch_id now n db)
        (result, db)

  unfoldable pub ingest_all :
      IngestClient
      → ℕ
      → ℕ
      → ℕ
      → ℤ
      → ℕ
      → List (RawReading fl)
      → IngestResult × Database fl
      → IngestResult × Database fl
  unfolding ingest_one
  ingest_all client client_id organization_id batch_id now index [] s = s
  ingest_all client client_id organization_id batch_id now index (r ∷ rs) s =
      ingest_all client client_id organization_id batch_id now (suc index) rs
        (ingest_one client client_id organization_id batch_id now index r s)

  unfoldable pub batch_key : Text → Text → Text
  unfolding trim_space is_empty
  batch_key given payload_hash =
      let key = trim_space given in if is_empty key then lit "sha256:" ++ payload_hash else key

  -- IngestRaw once the batch is looked up: its key is new, or it has the payload or another one.
  unfoldable pub ingest_batch :
      IngestClient
      → ℕ
      → ℕ
      → Text
      → Text
      → RawBatch fl
      → ℤ
      → Database fl
      → Option IngestBatch
      → Result IngestError IngestResult × Database fl
  unfolding text_eq create_batch ingest_all complete_batch
  ingest_batch client client_id organization_id key payload_hash batch now db (some stored) =
      if text_eq stored.payload_hash payload_hash
      then (ok (record stored.counts { status = duplicate }), db)
      else (err idempotency_conflict, db)
  ingest_batch client client_id organization_id key payload_hash batch now db none =
      let id = db.next_id in
      let begun = create_batch fl id client_id key payload_hash (new_id fl db) in
      let (result, stored) =
        ingest_all client client_id organization_id id now 0 batch.readings
          (record (no_counts fl id) { status = accepted }, begun) in
      (ok result, complete_batch fl id result stored)

  unfoldable pub is_batch_size : RawBatch fl → Bool
  unfolding text_eq
  is_batch_size batch =
      text_eq batch.schema_version (lit "2.0")
      && not (length batch.readings == 0 || ltb 500 (length batch.readings))

  -- IngestRaw of a client with these ids, where one that is not valid is absent.
  unfoldable pub ingest_as :
      Option ℕ
      → Option ℕ
      → IngestClient
      → Text
      → Text
      → RawBatch fl
      → ℤ
      → Database fl
      → Result IngestError IngestResult × Database fl
  unfolding is_batch_size get_batch ingest_batch
  ingest_as none organization client key payload_hash batch now db = (err invalid_batch, db)
  ingest_as (some client_id) none client key payload_hash batch now db = (err invalid_batch, db)
  ingest_as (some client_id) (some organization_id) client key payload_hash batch now db =
      if not (is_batch_size batch) || ltb 200 (length key)
      then (err invalid_batch, db)
      else ingest_batch client client_id organization_id key payload_hash batch now db
          (get_batch fl client_id key db)

  -- IngestRaw, with the bytes of the request and the batch in them.
  unfoldable pub ingest_raw :
      IngestClient
      → Text
      → Text
      → RawBatch fl
      → ℤ
      → Database fl
      → Result IngestError IngestResult × Database fl
  unfolding batch_key ingest_as
  ingest_raw client given raw batch now db =
      let payload_hash = out.sha256 raw in
      ingest_as client.id client.organization_id client (batch_key given payload_hash) payload_hash
        batch now db
