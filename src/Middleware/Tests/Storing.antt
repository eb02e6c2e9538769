-- ===== src/Middleware/Tests/Storing.antt =====
-- The configuration rules and the file store at concrete inputs.
use mathlib.Core.List.{foldl}
use ygate_git.Base.{◌≡◌, refl, true, false, arith, Option, some, ok, List, [], ◌∷◌, All}
use ygate_git.Base.Int.{ℤ, pos, ◌+ℤ◌}
use ygate_git.Base.Text.{lit, to_upper}
use ygate_git.Middleware.Domain.{Address, ConfigSnapshot}
use ygate_git.Middleware.Profile.Address.{
  canonical_address_mode, shift, check_range, resolve_modbus_address,
}
use ygate_git.Middleware.Decoder.{register_count, count_of, normalize_data_type}
use ygate_git.Middleware.Store.Normalize.{
  normalize_register, normalize_connection, normalize_device_set, normalize_address,
  validate_address,
}
use ygate_git.Middleware.Store.Normalize.Snapshot.{
  has_id, each, normalize_brand, normalize_one, check_device_set, check_address, check_connection,
  normalize_config_snapshot,
}
use ygate_git.Middleware.Store.Normalize.Accepted.{
  IsValidSnapshot, normalize_config_snapshot-IsValid,
}
use ygate_git.Middleware.Store.File.{Store, Saves, OutboxRow}
use ygate_git.Middleware.Store.File.Outbox.{
  is_ready, ready_rows, enqueue, delivered_with_response, failed, clear_delivery_logs, cleanup_old,
}
use ygate_git.Middleware.Store.File.Runs.{
  Call, pushed, brand_saved, enqueued, have_failed, were_delivered, cleared, call, calls-IsQueue,
}
use ygate_git.Middleware.Store.File.Fits.{IsQueue}
use ygate_git.Middleware.Store.File.Ids.{AcceptedBelow}
use ygate_git.Middleware.Store.File.Delivery.{
  waiting_rows, delivered_with_response-not_ready, failed-ready_again, waiting_rows-kept,
}
use ygate_git.Middleware.Tests.Data.{
  floats, plant_connection, empty_store, brand, power, inverter, site,
}

-- What normalizing makes of `site`.
abbrev normal_power : Address (Option ℤ)
normal_power = record (normalize_address floats (lit "ZERO_BASED") power) { device_set_id = pos 2 }

abbrev normal_site : ConfigSnapshot (Option ℤ)
normal_site = record site {
  version = pos 7;
  device_sets =
      record (normalize_device_set floats inverter) {
        addresses = normal_power ∷ [];
        address_id_list = pos 1 ∷ [];
      }
      ∷ [];
  connections = normalize_connection plant_connection ∷ [];
}

site-accepted : normalize_config_snapshot floats (record site { version = pos 7 }) ≡ ok normal_site
unfolding normalize_config_snapshot each normalize_brand normalize_one check_device_set
    check_address validate_address check_connection has_id normalize_device_set normalize_address
    normalize_connection to_upper canonical_address_mode normalize_register register_count count_of
    normalize_data_type resolve_modbus_address shift check_range
site-accepted = refl

normalize_config_snapshot-IsValid_example :
    IsValidSnapshot floats (pos 3 ∷ []) (pos 2 ∷ []) normal_site
normalize_config_snapshot-IsValid_example =
    normalize_config_snapshot-IsValid floats (record site { version = pos 7 }) normal_site
      site-accepted

abbrev writable : Saves (Option ℤ)
writable s = true

abbrev full_disk : Saves (Option ℤ)
full_disk s = false

-- A configuration is pushed, two readings are enqueued, the first is delivered, the delivery of the
-- second fails, and a brand is saved.
abbrev calls : List (Saves (Option ℤ) × Call (Option ℤ))
calls =
    (writable, pushed (pos 5) (lit "{}") (pos 7) site)
    ∷ (writable, enqueued (pos 10) (lit "k1") (lit "h1") (some (lit "{}")))
    ∷ (full_disk, enqueued (pos 20) (lit "k2") (lit "h2") (some (lit "{}")))
    ∷ (writable, were_delivered (pos 30) (pos 1 ∷ []) (pos 200) (lit "ok"))
    ∷ (writable, have_failed (pos 40) (pos 2 ∷ []) (pos 500) (lit "busy") true)
    ∷ (writable, cleared)
    ∷ (writable, brand_saved (brand (lit "ACME")))
    ∷ []

site-AcceptedBelow :
    AcceptedBelow 100 (normalize_config_snapshot floats (record site { version = pos 7 }))
unfolding normalize_device_set normalize_connection
site-AcceptedBelow = rw site-accepted (record {
  of_brands = (omega arith, tt);
  of_sets = (omega arith, tt);
  of_connections = (omega arith, tt);
})

calls-IsQueue_example : IsQueue (foldl (call floats) empty_store calls).state
calls-IsQueue_example =
    calls-IsQueue floats 100 empty_store calls
      (record { ascending = omega arith; distinct_keys = tt }) (omega arith)
      (site-AcceptedBelow, (tt, (tt, (tt, (tt, (tt, (tt, tt))))))) (omega arith)

-- A store with one reading in the outbox, whose id is 1.
abbrev one_reading : Store (Option ℤ)
one_reading = (enqueue writable (pos 10) (lit "k1") (lit "h1") (some (lit "{}")) empty_store).1

delivered_with_response-not_ready_example :
    All
      (λ (v : OutboxRow). has_id (pos 1 ∷ []) v.id ≡ false)
      (ready_rows
        (pos 99)
        10
        (delivered_with_response writable
          (pos 30)
          (pos 1 ∷ [])
          (pos 200)
          []
          one_reading).1.state.outbox)
delivered_with_response-not_ready_example =
    delivered_with_response-not_ready writable (pos 30) (pos 1 ∷ []) (pos 200) [] one_reading
      (pos 99) 10

failed-ready_again_example :
    All
      (λ (v : OutboxRow). has_id (pos 1 ∷ []) v.id ≡ true → is_ready (pos 256030) v ≡ true)
      (failed writable (pos 30) (pos 1 ∷ []) (pos 500) [] true one_reading).1.state.outbox
unfolding ◌+ℤ◌
failed-ready_again_example =
    failed-ready_again writable (pos 30) (pos 1 ∷ []) (pos 500) [] one_reading (pos 256030)
      (omega arith)

waiting_rows-kept_example :
    (waiting_rows (clear_delivery_logs writable one_reading).1.state.outbox
      ≡ waiting_rows one_reading.state.outbox)
    × (waiting_rows (cleanup_old writable (pos 99) one_reading).1.state.outbox
        ≡ waiting_rows one_reading.state.outbox)
waiting_rows-kept_example = waiting_rows-kept writable (pos 99) one_reading
