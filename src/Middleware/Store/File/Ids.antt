-- ===== src/Middleware/Store/File/Ids.antt =====
-- internal/store/file_arch.go: the ids of a pushed configuration, and the loops that raise `NextID` above
-- them.
use ygate_git.Base.{
  ℕ, ◌≤◌, List, [], ◌∷◌, All, All-weaken, if◌then◌else◌, map, arith, Result, ok, err,
}
use ygate_git.Base.Int.{ℤ, pos, ◌+ℤ◌, ◌≤ℤ◌, ◌<ℤ◌, leb_ℤ, max_int64, succ_int64}
use ygate_git.Middleware.Domain.{Brand, DeviceSet, ConnectionConfig, ConfigSnapshot}
use ygate_git.Middleware.Store.Normalize.{ConfigError}
use ygate_git.Middleware.Store.File.Snapshots.{bump}

abbrev pub IdsBelow : ℕ → List ℤ → Type 0
IdsBelow b ids = All (λ (id : ℤ). id <ℤ pos b) ids

-- The brands, device sets and connections of a configuration have ids below `b`.
pub record HasIdsBelow {F : Type 0} (b : ℕ) (n : ConfigSnapshot F) : Type 0 where
  pub of_brands : IdsBelow b (map (λ (v : Brand). v.brand_id) n.brands)
  pub of_sets : IdsBelow b (map (λ (d : DeviceSet F). d.device_set_id) n.device_sets)
  pub of_connections : IdsBelow b (map (λ (c : ConnectionConfig). c.connection_id) n.connections)

-- A configuration that is accepted has ids below `b`.
abbrev pub AcceptedBelow : {F : Type 0} → ℕ → Result ConfigError (ConfigSnapshot F) → Type 0
AcceptedBelow b (err e) = Unit {0}
AcceptedBelow b (ok n) = HasIdsBelow b n

pub bump-le : (next : ℤ) (ids : List ℤ) → IdsBelow max_int64 ids → next ≤ℤ bump next ids
unfolding ◌+ℤ◌
bump-le next [] h = omega arith
bump-le next (id ∷ ids) h =
    ground (arith, h.0, bump-le (if leb_ℤ next id then succ_int64 id else next) ids h.1)

pub bump-above :
    (next : ℤ) (ids : List ℤ) → IdsBelow max_int64 ids → All (λ (id : ℤ). id <ℤ bump next ids) ids
unfolding ◌+ℤ◌
bump-above next [] h = tt
bump-above next (id ∷ ids) h = (
  ground (arith, h.0, bump-le (if leb_ℤ next id then succ_int64 id else next) ids h.1),
  bump-above (if leb_ℤ next id then succ_int64 id else next) ids h.1,
)

pub bump-below :
    (b : ℕ) (next : ℤ) (ids : List ℤ)
    → b ≤ max_int64
    → next ≤ℤ pos b
    → IdsBelow b ids
    → bump next ids ≤ℤ pos b
unfolding ◌+ℤ◌
bump-below b next [] small h k = h
bump-below b next (id ∷ ids) small h k =
    bump-below b (if leb_ℤ next id then succ_int64 id else next) ids small (ground (arith, k.0)) k.1

pub IdsBelow-raise : (b c : ℕ) (ids : List ℤ) → b ≤ c → IdsBelow b ids → IdsBelow c ids
IdsBelow-raise b c ids h = All-weaken _ _ (λ id k. omega arith) ids

pub AcceptedBelow-raise :
    {F : Type 0} (b c : ℕ) (r : Result ConfigError (ConfigSnapshot F))
    → b ≤ c
    → AcceptedBelow b r
    → AcceptedBelow c r
AcceptedBelow-raise b c (err e) h k = tt
AcceptedBelow-raise b c (ok n) h k = record {
  of_brands = IdsBelow-raise b c _ h k.of_brands;
  of_sets = IdsBelow-raise b c _ h k.of_sets;
  of_connections = IdsBelow-raise b c _ h k.of_connections;
}
