-- ===== src/Platform/Tests/Pulling.antt =====
-- A pull from a gateway with one row, whose plant the platform does not know.
use ygate_git.Base.{◌≡◌, refl, ◌⊎◌, true, false, Option, none, some, [], ◌∷◌, ok}
use ygate_git.Base.Int.{ℤ, pos, ◌+ℤ◌}
use ygate_git.Base.Text.{lit}
use ygate_git.Middleware.Store.File.{Store, pending, OutboxRow}
use ygate_git.Middleware.Tests.Data.{empty_state}
use ygate_git.Platform.Tests.{whole}
use ygate_git.Platform.Tests.Receiving.{outside, gateway, empty_database, one_reading}
use ygate_git.Platform.Ingestion.{IngestClient, IngestResult, RawBatch, accepted, unknown_plant}
use ygate_git.Platform.Ingestion.Tables.{Database}
use ygate_git.Platform.Ingestion.Batches.{ingest_raw, external_key}
use ygate_git.Platform.Pull.{Wire, Link, pull_once}
use ygate_git.Platform.Pull.Rows.{IsIngested, pull_once-IsIngested, pull_once-rejected_again}

abbrev waiting_row : OutboxRow
waiting_row = record {
  id = pos 1;
  key = lit "k";
  hash = lit "h";
  payload = lit "r";
  status = pending;
  attempts = 0;
  http_status = pos 0;
  next_retry = pos 0;
  created = pos 0;
  delivered_at = pos 0;
  last_error = [];
  last_response = [];
}

abbrev one_row : Store (Option ℤ)
one_row = record { state = record empty_state { outbox = waiting_row ∷ [] }; file = none }

abbrev one_batch : RawBatch whole
one_batch = record { schema_version = lit "2.0"; readings = one_reading ∷ [] }

abbrev wire : Wire whole (Option ℤ)
wire = record { saves = λ s. true; encode = λ rs. lit "body"; decode = λ body. some one_batch }

abbrev good_link : Link
good_link = record { drain_returns = true; ack_arrives = true; ack_returns = true }

pull_once-IsIngested_example :
    ((pull_once whole
        (Option ℤ)
        outside
        wire
        good_link
        gateway
        (pos 9000)
        one_row
        empty_database).gateway
      ≡ one_row)
    ⊎ IsIngested whole (Option ℤ) outside wire good_link gateway (pos 9000) one_row empty_database (
        pull_once whole (Option ℤ) outside wire good_link gateway (pos 9000) one_row empty_database)
pull_once-IsIngested_example =
    pull_once-IsIngested whole (Option ℤ) outside wire good_link gateway (pos 9000) one_row
      empty_database

-- A gateway for which no plant is made.
abbrev strict_gateway : IngestClient
strict_gateway = record gateway { auto_onboard = false }

abbrev rejected_result : IngestResult
rejected_result = record {
  ingestion_id = 100;
  status = accepted;
  accepted_count = 0;
  duplicate_count = 0;
  rejected_count = 1;
  onboarded_plant_count = 0;
  onboarded_device_count = 0;
  errors = (record { index = 0; reason = unknown_plant }) ∷ [];
}

abbrev after_rejected : Database whole
after_rejected =
    (ingest_raw whole outside strict_gateway [] (lit "body") one_batch (pos 9000) empty_database).1

all_are_rejected :
    ingest_raw whole outside strict_gateway [] (lit "body") one_batch (pos 9000) empty_database
    ≡ (ok rejected_result, after_rejected)
unfolding ingest_raw ◌+ℤ◌ external_key
all_are_rejected = refl

-- The operator registers the plant, which does not help.
abbrev repaired : Database whole
repaired = record after_rejected {
  plants =
      (record {
        id = 50;
        organization_id = 1;
        code = lit "P1";
        name = lit "P1";
        is_active = true;
        alarm_email_enabled = false;
        alarm_notify_role_id = none;
      })
      ∷ [];
}

pull_once-rejected_again_example :
    ((pull_once whole
        (Option ℤ)
        outside
        wire
        good_link
        strict_gateway
        (pos 9900)
        one_row
        repaired).gateway
      ≡ one_row)
    × ((pull_once whole
          (Option ℤ)
          outside
          wire
          good_link
          strict_gateway
          (pos 9900)
          one_row
          repaired).database
        ≡ repaired)
pull_once-rejected_again_example =
    pull_once-rejected_again whole (Option ℤ) outside wire good_link strict_gateway (pos 9900)
      one_row repaired one_batch empty_database after_rejected (pos 9000) rejected_result refl
      all_are_rejected refl refl
