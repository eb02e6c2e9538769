-- ===== src/Middleware/Service/Idle.antt =====
-- internal/app/service.go: readings that repeat the last one are not stored until a heartbeat is due.
use ygate_git.Base.{
  ◌*◌, Bool, true, false, ◌&&◌, ◌||◌, Option, none, some, Result, ok, err, List, [], ◌∷◌, ◌++◌,
  if◌then◌else◌,
}
use ygate_git.Base.Int.{ℤ, pos, negsuc, ◌-ℤ◌, leb_ℤ, ltb_ℤ}
use ygate_git.Base.Text.{Text, lit, text_eq, show_int}
use ygate_git.Middleware.Domain.{Reading}
use ygate_git.Middleware.Store.File.{Store, StoreError, map_get, map_put}
use ygate_git.Middleware.Store.File.Outbox.{enqueue}
use ygate_git.Middleware.Service.{World, prepare_reading_for_api}

-- The hash of the values of the last reading that was enqueued, and its time in milliseconds.
pub record EnqueuedReading : Type 0 where
  pub values : Text
  pub at : ℤ

-- The fields under `idleMu`; the heartbeat in milliseconds.
pub record Idle : Type 0 where
  pub last_enqueued : List (Text × EnqueuedReading)
  pub idle_heartbeat : ℤ

abbrev pub default_idle_heartbeat : ℤ
default_idle_heartbeat = pos 1800000

abbrev milliseconds : ℤ → ℤ
milliseconds (pos n) = pos (n * 1000)
milliseconds (negsuc n) = pos 0

unfoldable pub set_idle_heartbeat : ℤ → Idle → Idle
set_idle_heartbeat seconds s = record s {
  idle_heartbeat =
      if ltb_ℤ seconds (pos 60) || ltb_ℤ (pos 86400) seconds then pos 0 else milliseconds seconds;
}

unfoldable pub heartbeat : Idle → ℤ
heartbeat s = if leb_ℤ s.idle_heartbeat (pos 0) then default_idle_heartbeat else s.idle_heartbeat

-- `delete(m, key)`
unfoldable pub map_delete : {V : Type 0} → Text → List (Text × V) → List (Text × V)
map_delete k [] = []
map_delete k ((j, v) ∷ m) = if text_eq j k then map_delete k m else (j, v) ∷ map_delete k m

-- The test of `skipUnchanged` against the reading that was enqueued last.
unfoldable pub is_repeat : ℤ → Text → ℤ → Option EnqueuedReading → Bool
is_repeat beat values observed none = false
is_repeat beat values observed (some last) =
    text_eq last.values values && leb_ℤ last.at observed && ltb_ℤ (observed -ℤ last.at) beat

-- `b, _ := json.Marshal(r)`
abbrev pub bytes_or_nil : Option Text → Text
bytes_or_nil none = []
bytes_or_nil (some b) = b

module _ {F : Type 0} where
  -- The key under which a device is remembered. Devices whose fields have bars in them can share one.
  unfoldable pub device_key : Reading F → Text
  device_key r =
      r.gateway_id
      ++ lit "|"
      ++ r.plant_code
      ++ lit "|"
      ++ show_int r.dev_type_id
      ++ lit "|"
      ++ r.dev_dn

  unfoldable pub values_hash : World F → Reading F → Text
  values_hash w r = w.sha256_hex (w.values_json r.register_address_map)

  unfoldable pub skip_unchanged : World F → Reading F → Idle → Bool × Idle
  unfolding map_put
  skip_unchanged w r s =
      let values = values_hash w r in
      let device = device_key r in
      if is_repeat (heartbeat s) values r.collect_time (map_get device s.last_enqueued)
      then (true, s)
      else (
        false,
        record s {
          last_enqueued =
              map_put device (record { values = values; at = r.collect_time }) s.last_enqueued;
        },
      )

  unfoldable pub forget_enqueued : Reading F → Idle → Idle
  unfolding map_delete
  forget_enqueued r s = record s { last_enqueued = map_delete (device_key r) s.last_enqueued }

  -- The end of `Enqueue`: a reading that is not stored is forgotten.
  abbrev pub settle :
      Reading F → Idle → Result StoreError Bool × Store F → Result StoreError Bool × Idle × Store F
  settle r s (ok true, t) = (ok true, s, t)
  settle r s (ok false, t) = (ok false, forget_enqueued r s, t)
  settle r s (err e, t) = (err e, forget_enqueued r s, t)

  -- `Enqueue`; `none` for a reading that is incomplete.
  unfoldable pub enqueue_reading :
      World F
      → ℤ
      → Reading F
      → Text
      → Idle
      → Store F
      → Option (Result StoreError Bool) × Idle × Store F
  enqueue_reading w now r gateway_id s t = elim (prepare_reading_for_api r gateway_id) [
    | none ↦ (none, s, t)
    | some prepared ↦
        let (r', key) = prepared in
        let (skipped, s') = skip_unchanged w r' s in
        let json = w.reading_json r' in
        let (result, s'', t') =
          settle r' s' (enqueue w.saves now key (w.sha256_hex (bytes_or_nil json)) json t) in
        if skipped then (some (ok false), s', t) else (some result, s'', t')
  ]
