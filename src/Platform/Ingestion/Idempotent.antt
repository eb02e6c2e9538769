-- ===== src/Platform/Ingestion/Idempotent.antt =====
-- What happens when a batch is sent again.
use ygate_git.Base.{
  ℕ, ◌≡◌, ◌≢◌, refl, sym, ap, subst, ◌∙◌, Bool, true, false, not, ◌||◌, Bool-cases, if◌then◌else◌,
  inl, inr, Option, none, some, List, [], ◌∷◌, ◌++◌, map, find, length, ltb, ◌==◌, ==_refl, Result,
  err, ok, ok_inj, then_branch, else_branch, arith,
}
use ygate_git.Base.Int.{ℤ}
use ygate_git.Base.Text.{Text, text_eq, text_eq_iff, text_eq_refl, is_empty, trim_space}
use ygate_git.Platform.Floats.{Floats}
use ygate_git.Platform.Ingestion.{
  IngestClient, IngestError, idempotency_conflict, invalid_batch, accepted, duplicate, IngestResult,
  RawBatch, Outside,
}
use ygate_git.Platform.Ingestion.Tables.{
  Database, get_batch, create_batch, complete_batch, IngestBatch, is_batch, no_counts, new_id,
}
use ygate_git.Platform.Ingestion.Batches.{
  ingest_all, batch_key, ingest_batch, is_batch_size, ingest_as, ingest_raw,
}
use ygate_git.Platform.Ingestion.Counted.{IsCounted, ingest_all-IsCounted}

some-none {ℓ} : {A : Type ℓ} (x : A) → ◌≡◌ {A = Option A} (some x) none → ⊥
some-none x h = cc

find-map_append {ℓ} :
    {A : Type ℓ} (p : A → Bool) (g : A → A) (y : A) (xs : List A)
    → ((x : A) → p (g x) ≡ p x)
    → p y ≡ true
    → find p xs ≡ none
    → find p (map g (xs ++ (y ∷ []))) ≡ some (g y)
unfolding find
find-map_append p g y [] same here h = rw (same y, here) refl
find-map_append p g y (x ∷ xs) same here h = elim (Bool-cases (p x)) [
  | inl early ↦ absurd (some-none x (rw early at h))
  | inr later ↦ rw (same x, later) (find-map_append p g y xs same here (rw later at h))
]

-- A result without its status, which is all that a repeated request changes of it.
abbrev pub repeated : IngestResult → IngestResult
repeated result = record result { status = duplicate }

short_key :
    (size : Bool) (key : Text)
    → (not size || ltb 200 (length key)) ≡ false
    → ltb 200 (length key) ≡ false
short_key true key h = h
short_key false key h = absurd (cc)

err-ok :
    (e : IngestError) (r : IngestResult)
    → ◌≡◌ {A = Result IngestError IngestResult} (err e) (ok r)
    → ⊥
err-ok e r h = cc

not_accepted : (r : IngestResult) → r.status ≡ duplicate → r.status ≡ accepted → ⊥
not_accepted r h k = cc

module _ (fl : Floats) (out : Outside fl) where
  abbrev Answer : Type 0
  Answer = Result IngestError IngestResult × Database fl

  -- The batch of a client with a key has the payload and the result.
  record IsRecorded (c : ℕ) (key payload_hash : Text) (result : IngestResult) (db : Database fl)
      : Type 0 where
    batch : IngestBatch
    is_there : get_batch fl c key db ≡ some batch
    same_payload : batch.payload_hash ≡ payload_hash
    same_result : repeated batch.counts ≡ repeated result

  is_batch-done :
      (c id : ℕ) (key : Text) (result : IngestResult) (b : IngestBatch)
      → is_batch fl c key (if b.id == id then record b { counts = result } else b)
        ≡ is_batch fl c key b
  is_batch-done c id key result b = elim (Bool-cases (b.id == id)) [
    | inl here ↦ rw here refl
    | inr other ↦ rw other refl
  ]

  new_batch-IsRecorded :
      (c id : ℕ) (key payload_hash : Text) (result : IngestResult) (db stored : Database fl)
      → get_batch fl c key db ≡ none
      → stored.batches ≡ (create_batch fl id c key payload_hash (new_id fl db)).batches
      → IsRecorded c key payload_hash result (complete_batch fl id result stored)
  unfolding get_batch create_batch complete_batch
  new_batch-IsRecorded c id key payload_hash result db stored new same =
      let done = λ (b : IngestBatch). if b.id == id then record b { counts = result } else b in
      let made : IngestBatch = record {
        id = id;
        client_id = c;
        idempotency_key = key;
        payload_hash = payload_hash;
        counts = no_counts fl id;
      } in
      record {
        batch = record made { counts = result };
        is_there = rw same (
            find-map_append (is_batch fl c key) done made db.batches
              (λ b. is_batch-done c id key result b) (rw (==_refl c, text_eq_refl key) refl) new
            ∙ rw (==_refl id) refl);
        same_payload = refl;
        same_result = refl;
      }

  ingest_batch-IsRecorded :
      (client : IngestClient) (c o : ℕ) (key payload_hash : Text) (batch : RawBatch fl) (now : ℤ)
      (db : Database fl) (found : Option IngestBatch) (result : IngestResult) (after : Database fl)
      → get_batch fl c key db ≡ found
      → ingest_batch fl out client c o key payload_hash batch now db found ≡ (ok result, after)
      → IsRecorded c key payload_hash result after
        × (result.status ≡ accepted → IsCounted (length batch.readings) result)
  unfolding ingest_batch
  ingest_batch-IsRecorded client c o key payload_hash batch now db (some b) result after looked e =
      elim (Bool-cases (text_eq b.payload_hash payload_hash)) [
        | inl same ↦
            let again = then_branch (text_eq b.payload_hash payload_hash) _ _ same e in
            let counts : repeated b.counts ≡ result =
              ok_inj (repeated b.counts) result (ap (λ (x : Answer). x.0) again) in
            (
              subst (IsRecorded c key payload_hash result) (ap (λ (x : Answer). x.1) again)
                  (record {
                    batch = b;
                    is_there = looked;
                    same_payload = (text_eq_iff b.payload_hash payload_hash).0 same;
                    same_result = ap repeated counts;
                  }),
              λ new.
                  absurd
                    (not_accepted result (ap (λ (x : IngestResult). x.status) (sym counts)) new),
            )
        | inr differs ↦ absurd (
            err-ok idempotency_conflict result (
              ap (λ (x : Answer). x.0)
                (else_branch (text_eq b.payload_hash payload_hash) _ _ differs e)))
      ]
  ingest_batch-IsRecorded client c o key payload_hash batch now db none result after looked e =
      let id = db.next_id in
      let begun = create_batch fl id c key payload_hash (new_id fl db) in
      let zero_counts : IngestResult = record (no_counts fl id) { status = accepted } in
      let ran = ingest_all fl out client c o id now 0 batch.readings (zero_counts, begun) in
      let (counted, kept) =
        ingest_all-IsCounted fl out client c o id now 0 0 batch.readings zero_counts begun
          (record { all_counted = omega arith; errors_counted = refl; is_accepted = refl }) in
      let same = ok_inj ran.0 result (ap (λ (x : Answer). x.0) e) in
      (
        subst (IsRecorded c key payload_hash result) (ap (λ (x : Answer). x.1) e) (
            subst
              (λ (r : IngestResult).
                IsRecorded c key payload_hash r (complete_batch fl id ran.0 ran.1))
              same (new_batch-IsRecorded c id key payload_hash ran.0 db ran.1 looked kept)),
        λ new.
            subst (IsCounted (length batch.readings)) same
              (subst (λ (k : ℕ). IsCounted k ran.0) (omega arith) counted),
      )

  -- The tests of a batch and its key, before it is looked up.
  abbrev is_refused : RawBatch fl → Text → Bool
  is_refused batch key = not (is_batch_size fl out batch) || ltb 200 (length key)

  -- A request that returned a result was not refused, and is recorded.
  ingest_as-IsRecorded :
      (c o : Option ℕ) (client : IngestClient) (key payload_hash : Text) (batch : RawBatch fl)
      (now : ℤ) (db : Database fl) (result : IngestResult) (after : Database fl)
      → ingest_as fl out c o client key payload_hash batch now db ≡ (ok result, after)
      → (c_id : ℕ) × (o_id : ℕ) × (c ≡ some c_id)
        × (o ≡ some o_id)
        × (is_refused batch key ≡ false)
        × IsRecorded c_id key payload_hash result after
        × (result.status ≡ accepted → IsCounted (length batch.readings) result)
  unfolding ingest_as
  ingest_as-IsRecorded none o client key payload_hash batch now db result after e =
      absurd (err-ok invalid_batch result (ap (λ (x : Answer). x.0) e))
  ingest_as-IsRecorded (some c) none client key payload_hash batch now db result after e =
      absurd (err-ok invalid_batch result (ap (λ (x : Answer). x.0) e))
  ingest_as-IsRecorded (some c) (some o) client key payload_hash batch now db result after e =
      elim (Bool-cases (is_refused batch key)) [
        | inl refused ↦ absurd (
            err-ok invalid_batch result
              (ap (λ (x : Answer). x.0) (then_branch (is_refused batch key) _ _ refused e)))
        | inr passed ↦
            let (recorded, counted) =
              ingest_batch-IsRecorded client c o key payload_hash batch now db
                (get_batch fl c key db) result after refl
                (else_branch (is_refused batch key) _ _ passed e) in
            (c, o, refl, refl, passed, recorded, counted)
      ]

  -- A recorded batch answers a later request with its key.
  ingest_batch-again :
      (client : IngestClient) (c o : ℕ) (key payload_hash : Text) (batch : RawBatch fl) (now : ℤ)
      (result : IngestResult) (db : Database fl)
      → IsRecorded c key payload_hash result db
      → ingest_batch fl out client c o key payload_hash batch now db (get_batch fl c key db)
        ≡ (ok (repeated result), db)
  unfolding ingest_batch
  ingest_batch-again client c o key payload_hash batch now result db h =
      rw (h.is_there, h.same_payload, text_eq_refl payload_hash, h.same_result) refl

  ingest_batch-conflict :
      (client : IngestClient) (c o : ℕ) (key first second : Text) (batch : RawBatch fl) (now : ℤ)
      (result : IngestResult) (db : Database fl)
      → first ≢ second
      → IsRecorded c key first result db
      → ingest_batch fl out client c o key second batch now db (get_batch fl c key db)
        ≡ (err idempotency_conflict, db)
  unfolding ingest_batch
  ingest_batch-conflict client c o key first second batch now result db other h =
      elim (Bool-cases (text_eq first second)) [
        | inl same ↦ absurd (other ((text_eq_iff first second).0 same))
        | inr differs ↦ rw (h.is_there, h.same_payload, differs) refl
      ]

  IsRecorded-batches :
      (c : ℕ) (key payload_hash : Text) (result : IngestResult) (after db : Database fl)
      → db.batches ≡ after.batches
      → IsRecorded c key payload_hash result after
      → IsRecorded c key payload_hash result db
  unfolding get_batch
  IsRecorded-batches c key payload_hash result after db same h = record {
    batch = h.batch;
    is_there = rw same h.is_there;
    same_payload = h.same_payload;
    same_result = h.same_result;
  }

  -- If a batch was answered, then the same request gets the same answer as a duplicate and changes
  -- nothing, at any later time and whatever else has changed in the database but its batches, if the
  -- batch in it is decoded in the same way.
  pub ingest_raw-again :
      (client : IngestClient) (given raw : Text) (batch : RawBatch fl) (now later : ℤ)
      (db : Database fl) (result : IngestResult) (after other : Database fl)
      → ingest_raw fl out client given raw batch now db ≡ (ok result, after)
      → other.batches ≡ after.batches
      → ingest_raw fl out client given raw batch later other ≡ (ok (repeated result), other)
  unfolding ingest_raw ingest_as
  ingest_raw-again client given raw batch now later db result after other e same =
      let key = batch_key fl out given (out.sha256 raw) in
      let (c, o, c_is, o_is, passed, recorded, counted) =
        ingest_as-IsRecorded client.id client.organization_id client key (out.sha256 raw) batch now
          db result after e in
      rw (c_is, o_is, passed)
        (ingest_batch-again client c o key (out.sha256 raw) batch later result other
          (IsRecorded-batches c key (out.sha256 raw) result after other same recorded))

  key_given :
      (given first second : Text)
      → is_empty (trim_space given) ≡ false
      → batch_key fl out given first ≡ batch_key fl out given second
  unfolding batch_key
  key_given given first second named = rw named refl

  -- If a batch was answered whose request names a key, then a request of the client with that key and
  -- another payload, of a valid size, is refused as a conflict, and changes nothing.
  pub ingest_raw-conflict :
      (client : IngestClient) (given raw other : Text) (batch other_batch : RawBatch fl)
      (now later : ℤ) (db : Database fl) (result : IngestResult) (after : Database fl)
      → ingest_raw fl out client given raw batch now db ≡ (ok result, after)
      → is_empty (trim_space given) ≡ false
      → out.sha256 raw ≢ out.sha256 other
      → is_batch_size fl out other_batch ≡ true
      → ingest_raw fl out client given other other_batch later after
        ≡ (err idempotency_conflict, after)
  unfolding ingest_raw ingest_as
  ingest_raw-conflict client given raw other batch other_batch now later db result after e named
        differs size =
      let key = batch_key fl out given (out.sha256 raw) in
      let (c, o, c_is, o_is, passed, recorded, counted) =
        ingest_as-IsRecorded client.id client.organization_id client key (out.sha256 raw) batch now
          db result after e in
      rw
        (
          sym (key_given given (out.sha256 raw) (out.sha256 other) named),
          c_is,
          o_is,
          size,
          short_key (is_batch_size fl out batch) key passed,
        )
        (ingest_batch-conflict client c o key (out.sha256 raw) (out.sha256 other) other_batch later
          result after differs recorded)

  -- Of a batch that is accepted, every reading is counted once, as accepted, as a duplicate or as
  -- rejected, and those that are rejected have one error each.
  pub ingest_raw-IsCounted :
      (client : IngestClient) (given raw : Text) (batch : RawBatch fl) (now : ℤ) (db : Database fl)
      (result : IngestResult) (after : Database fl)
      → ingest_raw fl out client given raw batch now db ≡ (ok result, after)
      → result.status ≡ accepted
      → IsCounted (length batch.readings) result
  unfolding ingest_raw
  ingest_raw-IsCounted client given raw batch now db result after e new =
      let (c, o, c_is, o_is, passed, recorded, counted) =
        ingest_as-IsRecorded client.id client.organization_id client
          (batch_key fl out given (out.sha256 raw)) (out.sha256 raw) batch now db result after e in
      counted new
