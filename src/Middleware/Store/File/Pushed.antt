-- ===== src/Middleware/Store/File/Pushed.antt =====
-- A configuration that the platform pushes: what the store holds afterwards.
use ygate_git.Base.{All, map}
use ygate_git.Base.Int.{ℤ, ◌<ℤ◌}
use ygate_git.Base.Text.{Text}
use ygate_git.Middleware.Float64.{Float64}
use ygate_git.Middleware.Domain.{Brand, DeviceSet, ConnectionConfig}
use ygate_git.Middleware.Store.Normalize.Valid.{IsValidConnection}
use ygate_git.Middleware.Store.Normalize.Accepted.{IsValidSet}
use ygate_git.Middleware.Store.File.{Store, FileState}

module _ (fl : Float64) where
  open fl use {F}

  -- The store's configuration can be polled.
  pub record IsConfigured (s : FileState F) : Type 0 where
    pub valid_sets : All (IsValidSet fl (map (λ (b : Brand). b.brand_id) s.brands)) s.device_sets
    pub valid_connections :
        All
          (IsValidConnection (map (λ (d : DeviceSet F). d.device_set_id) s.device_sets))
          s.connections

  -- The ids of brands, device sets and connections are below the next one.
  pub record IsBelowNext (s : FileState F) : Type 0 where
    pub brands_below : All (λ (id : ℤ). id <ℤ s.next_id) (map (λ (b : Brand). b.brand_id) s.brands)
    pub sets_below :
        All (λ (id : ℤ). id <ℤ s.next_id) (map (λ (d : DeviceSet F). d.device_set_id) s.device_sets)
    pub connections_below :
        All
          (λ (id : ℤ). id <ℤ s.next_id)
          (map (λ (c : ConnectionConfig). c.connection_id) s.connections)
