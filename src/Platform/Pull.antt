-- ===== src/Platform/Pull.antt =====
-- services/platform-api/internal/telemetrypull/puller.go: the platform pulls the readings that wait in
-- a gateway's outbox, and the gateway's side of it, modbus-api-middleware/internal/realtimeclient:
-- the commands telemetry.drain and telemetry.ack. The gateway has the file store.
pub mod Schedule
pub mod Rows
use ygate_git.Base.{
  ℕ, zero, suc, ◌+◌, ◌*◌, ◌/◌, Bool, true, false, not, ◌&&◌, ◌||◌, if◌then◌else◌, Option, none,
  some, List, [], ◌∷◌, ◌++◌, map, some_item, ltb, leb, ◌==◌, Result, err, ok,
}
use ygate_git.Base.Int.{ℤ, pos, negsuc, ltb_ℤ, leb_ℤ}
use ygate_git.Base.Text.{Text, text_eq, is_empty}
use ygate_git.Middleware.Store.File.{Store, Saves}
use ygate_git.Middleware.Store.File.Outbox.{ready, delivered_with_response}
use ygate_git.Platform.Floats.{Floats}
use ygate_git.Platform.Ingestion.{
  IngestClient, IngestError, IngestResult, RecordError, RawBatch, Outside,
}
use ygate_git.Platform.Ingestion.Tables.{Database}
use ygate_git.Platform.Ingestion.Batches.{ingest_raw}

abbrev pub drain_batch_size : ℤ
drain_batch_size = pos 500

-- The batch size of telemetry.drain, which falls back to 20.
unfoldable pub drain_limit : ℤ → ℕ
drain_limit (pos n) = if n == 0 || ltb 500 n then 20 else n
drain_limit (negsuc n) = 20

-- The ids and the payloads of the rows that telemetry.drain returns.
pub record Drained : Type 0 where
  pub ids : List ℤ
  pub readings : List Text

-- telemetry.drain: the rows stay as they are.
unfoldable pub telemetry_drain : {F : Type 0} → ℤ → ℤ → Store F → Drained
unfolding drain_limit ready
telemetry_drain now batch_size s =
    let rows = ready now (drain_limit batch_size) s in
    record {
      ids = map (λ (r : ℤ × Text × ℕ). r.0) rows;
      readings = map (λ (r : ℤ × Text × ℕ). r.1) rows;
    }

abbrev pub succeeded {ℓ κ} : {E : Type ℓ} {A : Type κ} → Result E A → Bool
succeeded (err e) = false
succeeded (ok a) = true

-- telemetry.ack: whether it succeeded, and the store.
unfoldable pub telemetry_ack : {G : Type 0} → Saves G → ℤ → List ℤ → Store G → Bool × Store G
unfolding delivered_with_response
telemetry_ack saves now ids s =
    let (outcome, after) = delivered_with_response saves now ids (pos 0) [] s in
    (succeeded outcome, after)

-- Where the hub loses a command: on the way to the gateway, or its result on the way back.
pub record Link : Type 0 where
  pub drain_returns : Bool
  pub ack_arrives : Bool
  pub ack_returns : Bool

-- The audit events of a pull, with their stages.
pub data PullEvent : Type 0 where
  drain_failed : PullEvent
  pull_empty : PullEvent
  decode_failed : PullEvent
  ingest_failed : IngestError → PullEvent
  all_rejected : IngestResult → PullEvent
  pull_succeeded : IngestResult → PullEvent
  ack_failed : PullEvent

unfoldable pub no_ids : List ℤ → Bool
no_ids [] = true
no_ids (id ∷ ids) = false

module _ (fl : Floats) (G : Type 0) where
  -- Both sides after a pull, and its audit events.
  pub record Pulled : Type 0 where
    pub gateway : Store G
    pub database : Database fl
    pub events : List PullEvent

  -- What the pull uses and does not implement: whether the gateway's file can be written, and the JSON
  -- of a batch of payloads and its decoding.
  pub record Wire : Type 0 where
    pub saves : Saves G
    pub encode : List Text → Text
    pub decode : Text → Option (RawBatch fl)

  -- The acknowledgement, after the readings were ingested.
  unfoldable pub acknowledge :
      Wire → Link → ℤ → List ℤ → IngestResult → Store G → Database fl → Pulled
  unfolding telemetry_ack
  acknowledge wire link now ids result gateway db =
      let (answered, acked) = telemetry_ack wire.saves now ids gateway in
      record {
        gateway = if link.ack_arrives then acked else gateway;
        database = db;
        events =
            pull_succeeded result
            ∷ (if link.ack_arrives && (link.ack_returns && answered) then [] else ack_failed ∷ []);
      }

  -- What follows the ingestion of the readings.
  unfoldable pub after_ingest :
      Wire → Link → ℤ → List ℤ → Store G → Result IngestError IngestResult × Database fl → Pulled
  unfolding acknowledge
  after_ingest wire link now ids gateway (err e, db) = record {
    gateway = gateway;
    database = db;
    events = ingest_failed e ∷ [];
  }
  after_ingest wire link now ids gateway (ok result, db) =
      if result.accepted_count == 0 && result.duplicate_count == 0
      then record { gateway = gateway; database = db; events = all_rejected result ∷ [] }
      else acknowledge wire link now ids result gateway db

  -- What follows the decoding of the batch.
  unfoldable pub after_decode :
      Outside fl
      → Wire
      → Link
      → IngestClient
      → ℤ
      → List ℤ
      → Text
      → Store G
      → Database fl
      → Option (RawBatch fl)
      → Pulled
  unfolding after_ingest ingest_raw
  after_decode out wire link client now ids body gateway db none = record {
    gateway = gateway;
    database = db;
    events = decode_failed ∷ [];
  }
  after_decode out wire link client now ids body gateway db (some batch) =
      after_ingest wire link now ids gateway (ingest_raw fl out client [] body batch now db)

  -- What follows the drain, given whether its result came back and whether it has no rows.
  unfoldable pub after_drain :
      Outside fl → Wire → Link → IngestClient → ℤ → Store G → Database fl → Bool → Bool → Pulled
  unfolding telemetry_drain after_decode
  after_drain out wire link client now gateway db false empty = record {
    gateway = gateway;
    database = db;
    events = drain_failed ∷ [];
  }
  after_drain out wire link client now gateway db true true = record {
    gateway = gateway;
    database = db;
    events = pull_empty ∷ [];
  }
  after_drain out wire link client now gateway db true false =
      let drained = telemetry_drain now drain_batch_size gateway in
      let body = wire.encode drained.readings in
      after_decode out wire link client now drained.ids body gateway db (wire.decode body)

  -- pullOnce; the decoding of the drained ids, which the gateway wrote itself, succeeds.
  unfoldable pub pull_once :
      Outside fl → Wire → Link → IngestClient → ℤ → Store G → Database fl → Pulled
  unfolding telemetry_drain after_drain no_ids
  pull_once out wire link client now gateway db =
      after_drain out wire link client now gateway db link.drain_returns
        (no_ids (telemetry_drain now drain_batch_size gateway).ids)

-- What the audit events of a pull say of its readings (observedWindow and plantLogs), given the code,
-- the name and the time that each payload is decoded to.
pub record ReadingLog : Type 0 where
  pub plant_code : Text
  pub plant_name : Text
  pub collect_time : ℤ

abbrev pub earlier : Option ℤ → ℤ → Option ℤ
earlier none t = some t
earlier (some u) t = some (if ltb_ℤ t u then t else u)

abbrev pub later : Option ℤ → ℤ → Option ℤ
later none t = some t
later (some u) t = some (if ltb_ℤ u t then t else u)

unfoldable pub observed_from : Option ℤ → Option ℤ → List (Option ReadingLog) → Option ℤ × Option ℤ
observed_from from to [] = (from, to)
observed_from from to (none ∷ rs) = observed_from from to rs
observed_from from to (some r ∷ rs) =
    let counts = not (leb_ℤ r.collect_time (pos 0)) in
    observed_from (if counts then earlier from r.collect_time else from)
      (if counts then later to r.collect_time else to) rs

unfoldable pub observed_window : List (Option ReadingLog) → Option ℤ × Option ℤ
unfolding observed_from
observed_window = observed_from none none

unfoldable pub plant_logs_from : List (Text × Text) → List (Option ReadingLog) → List (Text × Text)
unfolding some_item text_eq is_empty
plant_logs_from plants [] = plants
plant_logs_from plants (none ∷ rs) = plant_logs_from plants rs
plant_logs_from plants (some r ∷ rs) =
    let skipped =
      is_empty r.plant_code || some_item (λ (p : Text × Text). text_eq p.0 r.plant_code) plants in
    plant_logs_from (if skipped then plants else plants ++ ((r.plant_code, r.plant_name) ∷ [])) rs

unfoldable pub plant_logs : List (Option ReadingLog) → List (Text × Text)
unfolding plant_logs_from
plant_logs = plant_logs_from []

-- The interval in nanoseconds, by default 60 seconds.
unfoldable pub pull_interval : ℤ → ℕ
pull_interval (negsuc n) = 60000000000
pull_interval (pos zero) = 60000000000
pull_interval (pos (suc n)) = suc n

-- nextScheduledPull, of a time after 1970.
unfoldable pub next_scheduled_pull : ℕ → ℤ → ℕ
unfolding pull_interval
next_scheduled_pull now interval =
    now / pull_interval interval * pull_interval interval + pull_interval interval
