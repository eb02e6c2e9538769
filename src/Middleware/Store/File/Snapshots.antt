-- ===== src/Middleware/Store/File/Snapshots.antt =====
-- internal/store/file_arch.go: configurations pushed by the platform, and the store's theorems on them.
use mathlib.Core.List.{foldl}
use ygate_git.Base.{
  Bool, true, false, ◌&&◌, Option, none, some, Result, ok, err, List, [], ◌∷◌, ◌++◌, if◌then◌else◌,
  map,
}
use ygate_git.Base.Int.{ℤ, pos, succ_int64, ltb_ℤ, leb_ℤ}
use ygate_git.Base.Text.{Text}
use ygate_git.Middleware.Float64.{Float64}
use ygate_git.Middleware.Domain.{Brand, DeviceSet, ConnectionConfig, ConfigSnapshot}
use ygate_git.Middleware.Store.Normalize.{ConfigError}
use ygate_git.Middleware.Store.Normalize.Snapshot.{normalize_config_snapshot}
use ygate_git.Middleware.Store.File.{Store, FileState, History, Saves, Outcome, commit}

unfoldable pub current_config_version : {F : Type 0} → Store F → ℤ
current_config_version s =
    foldl (λ v (h : History). if h.applied && ltb_ℤ v h.version then h.version else v) (pos 0)
      s.state.history

-- The loop `if id >= NextID { NextID = id + 1 }`.
abbrev pub bump : ℤ → List ℤ → ℤ
bump next [] = next
bump next (id ∷ ids) = bump (if leb_ℤ next id then succ_int64 id else next) ids

module _ (fl : Float64) where
  open fl use {F}

  abbrev pub reason_of : Result ConfigError (ConfigSnapshot F) → Option ConfigError
  reason_of (ok a) = none
  reason_of (err e) = some e

  abbrev pub is_applied : Result ConfigError (ConfigSnapshot F) → Bool
  is_applied (ok a) = true
  is_applied (err e) = false

  -- The state after the row of the history: as it was, or with the normalized configuration.
  unfoldable pub install : Result ConfigError (ConfigSnapshot F) → FileState F → FileState F
  install (err e) s = s
  install (ok n) s = record s {
    brands = n.brands;
    device_sets = n.device_sets;
    connections = n.connections;
    plants = n.plants;
    next_id =
        bump
          (bump (bump s.next_id (map (λ (b : Brand). b.brand_id) n.brands))
            (map (λ (d : DeviceSet F). d.device_set_id) n.device_sets))
          (map (λ (c : ConnectionConfig). c.connection_id) n.connections);
  }

  -- The state with the row of the history.
  abbrev pub recorded :
      ℤ → Text → ℤ → Result ConfigError (ConfigSnapshot F) → FileState F → FileState F
  recorded now json version normalized s =
      let row : History = record {
        version = version;
        applied = is_applied normalized;
        reason = reason_of normalized;
        snapshot = json;
        applied_at = now;
      } in
      record s { history = s.history ++ row ∷ [] }

  -- `json` is the snapshot as JSON. A snapshot that is refused gives no error.
  unfoldable pub apply_config_snapshot :
      Saves F → ℤ → Text → ℤ → ConfigSnapshot F → Store F → Outcome F (Unit {0})
  apply_config_snapshot saves now json version snap s =
      let normalized = normalize_config_snapshot fl (record snap { version = version }) in
      commit saves tt s (install normalized (recorded now json version normalized s.state))
