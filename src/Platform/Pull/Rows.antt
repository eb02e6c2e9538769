-- ===== src/Platform/Pull/Rows.antt =====
-- When rows leave a gateway's outbox, and when they do not.
use ygate_git.Base.{
  ◌≡◌, refl, ◌⊎◌, inl, inr, Bool, true, false, ◌&&◌, Bool-cases, Option, none, some, List, [], ◌==◌,
  Result, err, ok,
}
use ygate_git.Base.Int.{ℤ}
use ygate_git.Base.Text.{Text}
use ygate_git.Middleware.Store.File.{Store}
use ygate_git.Platform.Floats.{Floats}
use ygate_git.Platform.Ingestion.{IngestClient, IngestError, IngestResult, RawBatch, Outside}
use ygate_git.Platform.Ingestion.Tables.{Database}
use ygate_git.Platform.Ingestion.Batches.{ingest_raw}
use ygate_git.Platform.Ingestion.Idempotent.{ingest_raw-again}
use ygate_git.Platform.Pull.{
  drain_batch_size, telemetry_drain, telemetry_ack, Link, Pulled, Wire, acknowledge, after_ingest,
  after_decode, after_drain, no_ids, pull_once,
}

module _ (fl : Floats) (G : Type 0) (out : Outside fl) (wire : Wire fl G) (link : Link)
    (client : IngestClient) where
  abbrev pub body_of : ℤ → Store G → Text
  body_of now gateway = wire.encode (telemetry_drain now drain_batch_size gateway).readings

  -- The drained readings were ingested, and not all of them were rejected; then the drained rows were
  -- acknowledged.
  pub record IsIngested (now : ℤ) (gateway : Store G) (db : Database fl) (p : Pulled fl G)
      : Type 0 where
    pub batch : RawBatch fl
    pub result : IngestResult
    pub drained : wire.decode (body_of now gateway) ≡ some batch
    pub ingested :
        ingest_raw fl out client [] (body_of now gateway) batch now db ≡ (ok result, p.database)
    pub some_stored : (result.accepted_count == 0 && result.duplicate_count == 0) ≡ false
    pub acknowledged :
        p.gateway
        ≡ (telemetry_ack wire.saves now
            (telemetry_drain now drain_batch_size gateway).ids
            gateway).1

  module _ (now : ℤ) (gateway : Store G) (db : Database fl) where
    abbrev ids_of : List ℤ
    ids_of = (telemetry_drain now drain_batch_size gateway).ids

    ingest-IsIngested :
        (batch : RawBatch fl) (answer : Result IngestError IngestResult × Database fl)
        → wire.decode (body_of now gateway) ≡ some batch
        → ingest_raw fl out client [] (body_of now gateway) batch now db ≡ answer
        → ((after_ingest fl G wire link now ids_of gateway answer).gateway ≡ gateway)
          ⊎ IsIngested now gateway db (after_ingest fl G wire link now ids_of gateway answer)
    unfolding after_ingest acknowledge
    ingest-IsIngested batch (err e, after) decoded e1 = inl refl
    ingest-IsIngested batch (ok result, after) decoded e1 =
        elim (Bool-cases (result.accepted_count == 0 && result.duplicate_count == 0)) [
          | inl nothing ↦ inl (rw nothing refl)
          | inr stored ↦ elim (Bool-cases (link.ack_arrives)) [
            | inl arrives ↦ inr (
                rw stored (record {
                  batch = batch;
                  result = result;
                  drained = decoded;
                  ingested = e1;
                  some_stored = stored;
                  acknowledged = rw arrives refl;
                }))
            | inr lost ↦ inl (rw (stored, lost) refl)
          ]
        ]

    decode-IsIngested :
        (found : Option (RawBatch fl))
        → wire.decode (body_of now gateway) ≡ found
        → ((after_decode fl G out wire link client now ids_of
              (body_of now gateway)
              gateway
              db
              found).gateway
            ≡ gateway)
          ⊎ IsIngested now gateway db (
              after_decode fl G out wire link client now ids_of
                (body_of now gateway)
                gateway
                db
                found)
    unfolding after_decode
    decode-IsIngested none e = inl refl
    decode-IsIngested (some batch) e = ingest-IsIngested batch _ e refl

    drain-IsIngested :
        (returned empty : Bool)
        → ((after_drain fl G out wire link client now gateway db returned empty).gateway ≡ gateway)
          ⊎ IsIngested now gateway db
              (after_drain fl G out wire link client now gateway db returned empty)
    unfolding after_drain
    drain-IsIngested false empty = inl refl
    drain-IsIngested true true = inl refl
    drain-IsIngested true false = decode-IsIngested (wire.decode (body_of now gateway)) refl

    -- Whatever the hub loses of its commands, a pull leaves the outbox of the gateway as it was, unless
    -- the drained readings were ingested and not all of them were rejected; then it acknowledges
    -- exactly the rows that it drained.
    pub pull_once-IsIngested :
        ((pull_once fl G out wire link client now gateway db).gateway ≡ gateway)
        ⊎ IsIngested now gateway db (pull_once fl G out wire link client now gateway db)
    unfolding pull_once
    pull_once-IsIngested = drain-IsIngested link.drain_returns (no_ids ids_of)

    drain-rejected_again :
        (returned empty : Bool) (batch : RawBatch fl) (before after : Database fl) (earlier : ℤ)
        (result : IngestResult)
        → wire.decode (body_of now gateway) ≡ some batch
        → ingest_raw fl out client [] (body_of now gateway) batch earlier before
          ≡ (ok result, after)
        → (result.accepted_count == 0 && result.duplicate_count == 0) ≡ true
        → db.batches ≡ after.batches
        → ((after_drain fl G out wire link client now gateway db returned empty).gateway ≡ gateway)
          × ((after_drain fl G out wire link client now gateway db returned empty).database ≡ db)
    unfolding after_drain after_decode after_ingest
    drain-rejected_again false empty batch before after earlier result decoded e rejected same =
        (refl, refl)
    drain-rejected_again true true batch before after earlier result decoded e rejected same =
        (refl, refl)
    drain-rejected_again true false batch before after earlier result decoded e rejected same =
        let again =
          ingest_raw-again fl out client [] (body_of now gateway) batch earlier now before result
            after db e same in
        (rw (decoded, again, rejected) refl, rw (decoded, again, rejected) refl)

    -- If a batch of drained readings was ingested and all of them were rejected, then a later pull that
    -- drains the same readings is answered from that batch: it ingests nothing and acknowledges nothing.
    -- The condition is that the table of batches is as it was right after the rejected batch; the other
    -- tables may have changed to make the readings acceptable.
    pub pull_once-rejected_again :
        (batch : RawBatch fl) (before after : Database fl) (earlier : ℤ) (result : IngestResult)
        → wire.decode (body_of now gateway) ≡ some batch
        → ingest_raw fl out client [] (body_of now gateway) batch earlier before
          ≡ (ok result, after)
        → (result.accepted_count == 0 && result.duplicate_count == 0) ≡ true
        → db.batches ≡ after.batches
        → ((pull_once fl G out wire link client now gateway db).gateway ≡ gateway)
          × ((pull_once fl G out wire link client now gateway db).database ≡ db)
    unfolding pull_once
    pull_once-rejected_again batch before after earlier result decoded e rejected same =
        drain-rejected_again link.drain_returns (no_ids ids_of) batch before after earlier result
          decoded e rejected same
