-- ===== src/Platform/Tests/Receiving.antt =====
-- A batch of two readings of one new device, of which the second repeats the first.
use ygate_git.Base.{ℕ, ◌≡◌, ◌≢◌, refl, ap, true, false, some, [], ◌∷◌, ok, err, length, arith}
use ygate_git.Base.Int.{pos, ◌+ℤ◌}
use ygate_git.Base.Text.{lit, is_empty, trim_space}
use ygate_git.Platform.Tests.{whole}
use ygate_git.Platform.Ingestion.{
  IngestClient, idempotency_conflict, accepted, IngestResult, RawReading, RawBatch, Outside,
}
use ygate_git.Platform.Ingestion.Tables.{Database}
use ygate_git.Platform.Ingestion.Batches.{ingest_raw, external_key, is_batch_size}
use ygate_git.Platform.Ingestion.Counted.{IsCounted}
use ygate_git.Platform.Ingestion.Idempotent.{
  repeated, ingest_raw-again, ingest_raw-conflict, ingest_raw-IsCounted,
}

abbrev pub outside : Outside whole
outside = record {
  atoi = λ key. some (pos 40072);
  format_time = λ at. lit "2024-01-01T00:00:00Z";
  sha256 = λ raw. raw;
  mapped_data_items = λ device model registers. registers;
  register_mappings = λ model. [];
}

abbrev pub gateway : IngestClient
gateway = record { id = some 4; organization_id = some 1; name = lit "gw-1"; auto_onboard = true }

abbrev pub empty_database : Database whole
empty_database = record {
  next_id = 100;
  plants = [];
  models = [];
  devices = [];
  metadata = [];
  rules = [];
  events = [];
  batches = [];
  readings = [];
  audit = [];
}

abbrev pub one_reading : RawReading whole
one_reading = record {
  gateway_id = [];
  dev_dn = lit "dn";
  dev_name = [];
  plant_code = lit "p1";
  plant_name = [];
  dev_type_id = pos 1;
  model = [];
  collect_time = pos 5;
  register_address_map = (lit "40072", pos 3) ∷ [];
}

abbrev pub two_readings : RawBatch whole
two_readings = record { schema_version = lit "2.0"; readings = one_reading ∷ one_reading ∷ [] }

abbrev first_answer : IngestResult
first_answer = record {
  ingestion_id = 100;
  status = accepted;
  accepted_count = 1;
  duplicate_count = 1;
  rejected_count = 0;
  onboarded_plant_count = 1;
  onboarded_device_count = 1;
  errors = [];
}

abbrev after_first : Database whole
after_first =
    (ingest_raw whole outside gateway (lit "k1") (lit "x") two_readings (pos 9000) empty_database).1

first_is_accepted :
    ingest_raw whole outside gateway (lit "k1") (lit "x") two_readings (pos 9000) empty_database
    ≡ (ok first_answer, after_first)
unfolding ingest_raw ◌+ℤ◌ external_key
first_is_accepted = refl

ingest_raw-again_example :
    ingest_raw whole outside gateway (lit "k1") (lit "x") two_readings (pos 9900) after_first
    ≡ (ok (repeated first_answer), after_first)
ingest_raw-again_example =
    ingest_raw-again whole outside gateway (lit "k1") (lit "x") two_readings (pos 9000) (pos 9900)
      empty_database first_answer after_first after_first first_is_accepted refl

key_is_given : is_empty (trim_space (lit "k1")) ≡ false
unfolding is_empty trim_space
key_is_given = refl

size_fits : is_batch_size whole outside two_readings ≡ true
unfolding is_batch_size
size_fits = refl

payloads_differ : lit "x" ≢ lit "yy"
payloads_differ same = omega (arith, ap {B = ℕ} length same)

ingest_raw-conflict_example :
    ingest_raw whole outside gateway (lit "k1") (lit "yy") two_readings (pos 9900) after_first
    ≡ (err idempotency_conflict, after_first)
ingest_raw-conflict_example =
    ingest_raw-conflict whole outside gateway (lit "k1") (lit "x") (lit "yy") two_readings
      two_readings (pos 9000) (pos 9900) empty_database first_answer after_first first_is_accepted
      key_is_given payloads_differ size_fits

ingest_raw-IsCounted_example : IsCounted 2 first_answer
ingest_raw-IsCounted_example =
    ingest_raw-IsCounted whole outside gateway (lit "k1") (lit "x") two_readings (pos 9000)
      empty_database first_answer after_first first_is_accepted refl
