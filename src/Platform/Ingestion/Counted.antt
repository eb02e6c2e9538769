-- ===== src/Platform/Ingestion/Counted.antt =====
-- What a batch counts.
use ygate_git.Base.{
  ℕ, suc, ◌+◌, ◌≡◌, refl, subst, ◌∙◌, Bool, true, false, if◌then◌else◌, Option, none, some, List,
  [], ◌∷◌, length, length-append, Result, err, ok, ◌>>=◌, arith,
}
use ygate_git.Base.Int.{ℤ}
use ygate_git.Base.Text.{Text}
use ygate_git.Platform.Floats.{Floats}
use ygate_git.Platform.Ingestion.{
  IngestClient, ReadingError, accepted, IngestResult, RawReading, Outside, NormalizedReading,
  validate_raw_reading,
}
use ygate_git.Platform.Ingestion.Tables.{
  PlantRow, DeviceRow, DeviceModel, Database, model_found, onboard_plant, onboard_model,
  onboard_device, insert_reading,
}
use ygate_git.Platform.Ingestion.Batches.{
  IngestOutcome, ensure_metadata, plant_found, device_found, on_plant, on_device, find_plant,
  find_device, evaluate_both, store_reading, ingest_raw_reading, after_reading, ingest_one,
  ingest_all,
}

-- The readings that were counted are those that were ingested and those that were refused, and each
-- that was refused has an entry in the errors.
pub record IsCounted (n : ℕ) (r : IngestResult) : Type 0 where
  pub all_counted : r.accepted_count + r.duplicate_count + r.rejected_count ≡ n
  pub errors_counted : length r.errors ≡ r.rejected_count
  pub is_accepted : r.status ≡ accepted

module _ (fl : Floats) (out : Outside fl) where
  -- What a step that may refuse leaves of the batches.
  abbrev KeepsBatches :
      {R : Type 0} → (R → Database fl) → Database fl → Result ReadingError R → Type 0
  KeepsBatches read db (err e) = Unit
  KeepsBatches read db (ok found) = (read found).batches ≡ db.batches

  abbrev with_plant : Database fl × ℕ × PlantRow → Database fl
  with_plant found = found.0

  abbrev with_device : Database fl × ℕ × DeviceRow → Database fl
  with_device found = found.0

  Keeps-if :
      {R : Type 0} (read : R → Database fl) (db : Database fl) (test : Bool) (reason : ReadingError)
      (new : R)
      → (read new).batches ≡ db.batches
      → KeepsBatches read db (if test then ok new else err reason)
  Keeps-if read db true reason new h = h
  Keeps-if read db false reason new h = tt

  plant_found-KeepsBatches :
      (o : ℕ) (auto : Bool) (r : RawReading fl) (db : Database fl) (found : Option PlantRow)
      → KeepsBatches with_plant db (plant_found fl out o auto r db found)
  unfolding plant_found onboard_plant
  plant_found-KeepsBatches o auto r db (some plant) =
      Keeps-if with_plant db plant.is_active _ _ refl
  plant_found-KeepsBatches o auto r db none = Keeps-if with_plant db auto _ _ refl

  batches-model_found :
      (o : ℕ) (model device_type : Text) (db : Database fl) (found : Option DeviceModel)
      → (model_found fl o model device_type db found).0.batches ≡ db.batches
  unfolding model_found
  batches-model_found o model device_type db none = refl
  batches-model_found o model device_type db (some m) = refl

  device_found-KeepsBatches :
      (o : ℕ) (auto : Bool) (n : NormalizedReading fl) (plant : PlantRow) (db : Database fl)
      (found : Option DeviceRow)
      → KeepsBatches with_device db (device_found fl out o auto n plant db found)
  unfolding device_found onboard_device onboard_model
  device_found-KeepsBatches o auto n plant db (some device) =
      Keeps-if with_device db device.is_active _ _ refl
  device_found-KeepsBatches o auto n plant db none =
      Keeps-if with_device db auto _ _ (batches-model_found o n.reading.model n.device_type db _)

  batches-either :
      (test : Bool) (old new : Database fl)
      → new.batches ≡ old.batches
      → (if test then old else new).batches ≡ old.batches
  batches-either true old new h = refl
  batches-either false old new h = h

  batches-ensure_metadata :
      (m : ℕ) (registers : List (Text × fl.F)) (db : Database fl)
      → (ensure_metadata fl out m registers db).batches ≡ db.batches
  unfolding ensure_metadata
  batches-ensure_metadata m registers db = batches-either _ db _ refl

  -- An ingested reading is accepted or a duplicate, and leaves the batches.
  abbrev Stores : Database fl → Result ReadingError (Database fl × IngestOutcome) → Type 0
  Stores db (err e) = Unit
  Stores db (ok (stored, outcome)) =
      (outcome.accepted + outcome.duplicate ≡ 1) × (stored.batches ≡ db.batches)

  Stores-either :
      (o : ℕ) (now : ℤ) (n : NormalizedReading fl) (plant : PlantRow) (device : DeviceRow)
      (plants devices : ℕ) (old db new : Database fl) (conflict : Bool)
      → db.batches ≡ old.batches
      → new.batches ≡ old.batches
      → Stores old (
          ok (
            store_reading fl out o now n plant device
              (record { accepted = 0; duplicate = 0; plants = plants; devices = devices })
              db
              (if conflict then none else some new)))
  unfolding store_reading evaluate_both
  Stores-either o now n plant device plants devices old db new true same stored = (refl, same)
  Stores-either o now n plant device plants devices old db new false same stored = (refl, stored)

  on_device-Stores :
      (c o b : ℕ) (now : ℤ) (n : NormalizedReading fl) (plants : ℕ) (plant : PlantRow)
      (old : Database fl) (found : Result ReadingError (Database fl × ℕ × DeviceRow))
      → KeepsBatches with_device old found
      → Stores old (on_device fl out c o b now n plants plant found)
  unfolding on_device insert_reading
  on_device-Stores c o b now n plants plant old (err e) h = tt
  on_device-Stores c o b now n plants plant old (ok (db, devices, device)) h =
      let known =
        batches-ensure_metadata device.device_model_id n.reading.register_address_map db ∙ h in
      Stores-either o now n plant device plants devices old _ _ _ known known

  Stores-trans :
      (old db : Database fl) (r : Result ReadingError (Database fl × IngestOutcome))
      → db.batches ≡ old.batches
      → Stores db r
      → Stores old r
  Stores-trans old db (err e) h k = tt
  Stores-trans old db (ok (stored, outcome)) h k = (k.0, k.1 ∙ h)

  on_plant-Stores :
      (c o : ℕ) (auto : Bool) (b : ℕ) (now : ℤ) (n : NormalizedReading fl) (old : Database fl)
      (found : Result ReadingError (Database fl × ℕ × PlantRow))
      → KeepsBatches with_plant old found
      → Stores old (on_plant fl out c o auto b now n found)
  unfolding on_plant find_device
  on_plant-Stores c o auto b now n old (err e) h = tt
  on_plant-Stores c o auto b now n old (ok (db, plants, plant)) h = Stores-trans old db _ h (
      on_device-Stores c o b now n plants plant db _
        (device_found-KeepsBatches o auto n plant db _))

  read-Stores :
      (c o : ℕ) (auto : Bool) (b : ℕ) (now : ℤ) (db : Database fl)
      (checked : Result ReadingError (NormalizedReading fl))
      → Stores db (checked >>= λ n. ingest_raw_reading fl out c o auto b now n db)
  unfolding ingest_raw_reading find_plant
  read-Stores c o auto b now db (err e) = tt
  read-Stores c o auto b now db (ok n) =
      on_plant-Stores c o auto b now n db _ (plant_found-KeepsBatches o auto n.reading db _)

  -- A round of the loop counts one reading more, and leaves the batches.
  after_reading-IsCounted :
      (index n : ℕ) (r : Result ReadingError (Database fl × IngestOutcome)) (result : IngestResult)
      (db : Database fl)
      → Stores db r
      → IsCounted n result
      → IsCounted (suc n) (after_reading fl out index r (result, db)).0
        × ((after_reading fl out index r (result, db)).1.batches ≡ db.batches)
  unfolding after_reading
  after_reading-IsCounted index n (err e) result db h k = (
    record {
      all_counted = omega (arith, k.all_counted);
      errors_counted = omega (
        arith,
        length-append result.errors ((record { index = index; reason = e }) ∷ []),
        k.errors_counted,
      );
      is_accepted = k.is_accepted;
    },
    refl,
  )
  after_reading-IsCounted index n (ok (stored, outcome)) result db h k = (
    record {
      all_counted = omega (arith, k.all_counted, h.0);
      errors_counted = k.errors_counted;
      is_accepted = k.is_accepted;
    },
    h.1,
  )

  pub ingest_all-IsCounted :
      (client : IngestClient) (c o b : ℕ) (now : ℤ) (index n : ℕ) (rs : List (RawReading fl))
      (result : IngestResult) (db : Database fl)
      → IsCounted n result
      → IsCounted (length rs + n) (ingest_all fl out client c o b now index rs (result, db)).0
        × ((ingest_all fl out client c o b now index rs (result, db)).1.batches ≡ db.batches)
  unfolding ingest_all ingest_one
  ingest_all-IsCounted client c o b now index n [] result db h =
      (subst (λ (k : ℕ). IsCounted k result) (omega arith) h, refl)
  ingest_all-IsCounted client c o b now index n (r ∷ rs) result db h =
      let read =
        read-Stores c o client.auto_onboard b now db
          (validate_raw_reading fl out client.name now r) in
      let first = after_reading-IsCounted index n _ result db read h in
      let rest = ingest_all-IsCounted client c o b now (suc index) (suc n) rs _ _ first.0 in
      (
        subst
            (λ (k : ℕ).
              IsCounted k ((ingest_all fl out client c o b now index (r ∷ rs) (result, db)).0))
            (omega arith) rest.0,
        rest.1 ∙ first.1,
      )
