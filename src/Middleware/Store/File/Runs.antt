-- ===== src/Middleware/Store/File/Runs.antt =====
-- The outbox over any sequence of the store's calls.
use mathlib.Core.List.{foldl}
use ygate_git.Base.{
  ℕ, ◌+◌, ◌≤◌, length, All, All-weaken, refl, Bool, not, Option, Result, ok, err, List, [], ◌∷◌,
  map, arith,
}
use ygate_git.Base.Int.{ℤ, pos, ◌≤ℤ◌, max_int64}
use ygate_git.Base.Text.{Text}
use ygate_git.Middleware.Float64.{Float64}
use ygate_git.Middleware.Domain.{Brand, DeviceSet, ConnectionConfig, PollLog, ConfigSnapshot}
use ygate_git.Middleware.Store.Normalize.{ConfigError}
use ygate_git.Middleware.Store.Normalize.Snapshot.{normalize_config_snapshot}
use ygate_git.Middleware.Store.File.{Store, FileState, Saves}
use ygate_git.Middleware.Store.File.Outbox.{
  deliver_row, fail_row, for_ids, is_expired, enqueue, delivered_with_response, failed,
  clear_delivery_logs, save_poll_log, cleanup_old,
}
use ygate_git.Middleware.Store.File.Snapshots.{bump, install, recorded, apply_config_snapshot}
use ygate_git.Middleware.Store.File.Queue.{Ascending-raise, for_ids_same}
use ygate_git.Middleware.Domain.{Plant}
use ygate_git.Middleware.Store.Normalize.{normalize_device_set}
use ygate_git.Middleware.Store.File.Config.{save_brand, save_connection, save_plant}
use ygate_git.Middleware.Store.File.Sets.{save_device_set}
use ygate_git.Middleware.Store.File.Ids.{
  AcceptedBelow, IdsBelow-raise, AcceptedBelow-raise, bump-le, bump-below,
}
use ygate_git.Middleware.Store.File.Fits.{
  IsQueue, Fits, Fits-same, Fits-raise, Fits-rows_map, Fits-rows_keep, Leaves-commit, fail_row-id,
  fail_row-key, deliver_row-id, deliver_row-key,
}
use ygate_git.Middleware.Store.File.Taken.{
  enqueue-Leaves, save_poll_log-Leaves, save_brand-Leaves, save_plant-Leaves,
  save_connection-Leaves, save_device_set-Leaves,
}

-- The calls that change the outbox or the counter of ids, each with its clock and its arguments.
pub data Call (F : Type 0) : Type 0 where
  enqueued : (now : ℤ) (key hash : Text) (payload : Option Text) → Call F
  were_delivered : (now : ℤ) (ids : List ℤ) (http : ℤ) (response : Text) → Call F
  have_failed : (now : ℤ) (ids : List ℤ) (http : ℤ) (msg : Text) (retry : Bool) → Call F
  cleared : Call F
  cleaned : (cut : ℤ) → Call F
  polled : (now : ℤ) (log : PollLog) → Call F
  brand_saved : (v : Brand) → Call F
  set_saved : (d : DeviceSet F) → Call F
  connection_saved : (c : ConnectionConfig) → Call F
  plant_saved : (p : Plant) → Call F
  pushed : (now : ℤ) (json : Text) (version : ℤ) (snap : ConfigSnapshot F) → Call F

module _ (fl : Float64) where
  open fl use {F}

  -- One call, and whether the file can be written then.
  unfoldable pub call : Store F → Saves F × Call F → Store F
  call s (saves, enqueued now key hash payload) = (enqueue saves now key hash payload s).1
  call s (saves, were_delivered now ids http response) =
      (delivered_with_response saves now ids http response s).1
  call s (saves, have_failed now ids http msg retry) = (failed saves now ids http msg retry s).1
  call s (saves, cleared) = (clear_delivery_logs saves s).1
  call s (saves, cleaned cut) = (cleanup_old saves cut s).1
  call s (saves, polled now log) = (save_poll_log saves now log s).1
  call s (saves, brand_saved v) = (save_brand saves v s).1
  call s (saves, set_saved d) = (save_device_set fl saves d s).1
  call s (saves, connection_saved c) = (save_connection saves c s).1
  call s (saves, plant_saved p) = (save_plant saves p s).1
  call s (saves, pushed now json version snap) =
      (apply_config_snapshot fl saves now json version snap s).1

  -- At most as many ids does a call take: one, and one for each address of a device set.
  abbrev pub takes : Call F → ℕ
  takes (set_saved d) = 1 + length (normalize_device_set fl d).addresses
  takes c = 1

  abbrev pub taken : List (Saves F × Call F) → ℕ
  taken [] = 0
  taken (c ∷ cs) = takes c.1 + taken cs

  -- A configuration that a call pushes, when it is accepted, has ids below `b`.
  abbrev pub PushesBelow : ℕ → Call F → Type 0
  PushesBelow b (pushed now json version snap) =
      AcceptedBelow b (normalize_config_snapshot fl (record snap { version = version }))
  PushesBelow b c = Unit

  PushesBelow-raise : (b c : ℕ) (k : Call F) → b ≤ c → PushesBelow b k → PushesBelow c k
  PushesBelow-raise b c (pushed now json version snap) h k =
      AcceptedBelow-raise b c (normalize_config_snapshot fl (record snap { version = version })) h k
  PushesBelow-raise b c (enqueued now key hash payload) h k = tt
  PushesBelow-raise b c (were_delivered now ids http response) h k = tt
  PushesBelow-raise b c (have_failed now ids http msg retry) h k = tt
  PushesBelow-raise b c cleared h k = tt
  PushesBelow-raise b c (cleaned cut) h k = tt
  PushesBelow-raise b c (polled now log) h k = tt
  PushesBelow-raise b c (brand_saved v) h k = tt
  PushesBelow-raise b c (set_saved d) h k = tt
  PushesBelow-raise b c (connection_saved v) h k = tt
  PushesBelow-raise b c (plant_saved p) h k = tt

  install-Fits :
      (b : ℕ) (r : Result ConfigError (ConfigSnapshot F)) (s : FileState F)
      → b ≤ max_int64
      → AcceptedBelow b r
      → Fits b s
      → Fits b (install fl r s)
  unfolding install
  install-Fits b (err e) s small ids h = h
  install-Fits b (ok n) s small ids h =
      let brand_ids = map (λ (v : Brand). v.brand_id) n.brands in
      let set_ids = map (λ (d : DeviceSet F). d.device_set_id) n.device_sets in
      let connection_ids = map (λ (c : ConnectionConfig). c.connection_id) n.connections in
      let next₁ = bump s.next_id brand_ids in
      let next₂ = bump next₁ set_ids in
      let below₁ = bump-below b s.next_id brand_ids small h.at_most ids.of_brands in
      let below₂ = bump-below b next₁ set_ids small below₁ ids.of_sets in
      record {
        queue = record {
          ascending =
              Ascending-raise (pos 0) s.next_id _ s.outbox
                (omega (
                  arith,
                  bump-le s.next_id brand_ids (IdsBelow-raise b _ _ small ids.of_brands),
                  bump-le next₁ set_ids (IdsBelow-raise b _ _ small ids.of_sets),
                  bump-le next₂ connection_ids (IdsBelow-raise b _ _ small ids.of_connections),
                ))
                h.queue.ascending;
          distinct_keys = h.queue.distinct_keys;
        };
        at_most = bump-below b next₂ connection_ids small below₂ ids.of_connections;
      }

  call-Leaves :
      (b : ℕ) (s : Store F) (c : Saves F × Call F)
      → b + takes c.1 ≤ max_int64
      → PushesBelow b c.1
      → Fits b s.state
      → Fits (b + takes c.1) (call s c).state
  unfolding call delivered_with_response failed clear_delivery_logs cleanup_old
      apply_config_snapshot
  call-Leaves b s (saves, enqueued now key hash payload) room ids h =
      (enqueue-Leaves b saves s (omega (arith, room)) h now key hash payload).fits
  call-Leaves b s (saves, were_delivered now ids http response) room k h =
      let f = deliver_row now http response in
      (Leaves-commit (b + 1) saves tt s _ (
        Fits-raise b (b + 1) _ (omega arith) (
          Fits-rows_map b s.state (for_ids f ids)
            (for_ids_same (λ v. v.id) f (deliver_row-id now http response) ids)
            (for_ids_same (λ v. v.key) f (deliver_row-key now http response) ids) h))).fits
  call-Leaves b s (saves, have_failed now ids http msg retry) room k h =
      let f = fail_row now http msg retry in
      (Leaves-commit (b + 1) saves tt s _ (
        Fits-raise b (b + 1) _ (omega arith) (
          Fits-rows_map b s.state (for_ids f ids)
            (for_ids_same (λ v. v.id) f (fail_row-id now http msg retry) ids)
            (for_ids_same (λ v. v.key) f (fail_row-key now http msg retry) ids) h))).fits
  call-Leaves b s (saves, cleared) room ids h =
      (Leaves-commit (b + 1) saves _ s _
        (Fits-raise b (b + 1) _ (omega arith) (Fits-rows_keep b s.state _ h))).fits
  call-Leaves b s (saves, cleaned cut) room ids h =
      let k = Fits-rows_keep b s.state (λ v. not (is_expired cut v)) h in
      (Leaves-commit (b + 1) saves _ s _
        (Fits-raise b (b + 1) _ (omega arith) (Fits-same b _ _ refl refl k))).fits
  call-Leaves b s (saves, polled now log) room ids h =
      (save_poll_log-Leaves b saves s (omega (arith, room)) h now log).fits
  call-Leaves b s (saves, brand_saved v) room ids h =
      (save_brand-Leaves b saves s (omega (arith, room)) h v).fits
  call-Leaves b s (saves, set_saved d) room ids h =
      Fits-raise _ _ _ (omega arith) (save_device_set-Leaves fl b saves d s (omega arith) h).fits
  call-Leaves b s (saves, connection_saved c) room ids h =
      (save_connection-Leaves b saves s (omega (arith, room)) h c).fits
  call-Leaves b s (saves, plant_saved p) room ids h =
      (save_plant-Leaves b saves s (omega (arith, room)) h p).fits
  call-Leaves b s (saves, pushed now json version snap) room ids h =
      let r = normalize_config_snapshot fl (record snap { version = version }) in
      (Leaves-commit (b + 1) saves tt s _ (
        Fits-raise b (b + 1) _ (omega arith) (
          install-Fits b r (recorded fl now json version r s.state) (omega arith) ids
            (Fits-same b s.state _ refl refl h)))).fits

  calls-Fits :
      (b : ℕ) (s : Store F) (cs : List (Saves F × Call F))
      → b + taken cs ≤ max_int64
      → All (λ (c : Saves F × Call F). PushesBelow b c.1) cs
      → Fits b s.state
      → IsQueue (foldl call s cs).state
  calls-Fits b s [] room ids h = h.queue
  calls-Fits b s (c ∷ cs) room ids h =
      calls-Fits (b + takes c.1) (call s c) cs (omega arith)
        (All-weaken _ _ (λ k. PushesBelow-raise b (b + takes c.1) k.1 (omega arith)) cs ids.1)
        (call-Leaves b s c (omega arith) ids.0 h)

  -- Over any sequence of these calls, whether or not each one can write the file, the outbox keeps its
  -- rows in the order of ids that are distinct and below the next one, and no key occurs in it twice. The
  -- condition is that the next id does not wrap around on the way: at first it is at most `b`, the ids of
  -- the configurations that are pushed and accepted are below `b`, and the ids that the calls take, one
  -- each and one for each address of a device set, do not lead from `b` beyond the greatest int64.
  pub calls-IsQueue :
      (b : ℕ) (s : Store F) (cs : List (Saves F × Call F))
      → IsQueue s.state
      → s.state.next_id ≤ℤ pos b
      → All (λ (c : Saves F × Call F). PushesBelow b c.1) cs
      → b + taken cs ≤ max_int64
      → IsQueue (foldl call s cs).state
  calls-IsQueue b s cs h at_most ids room =
      calls-Fits b s cs room ids (record { queue = h; at_most = at_most })
