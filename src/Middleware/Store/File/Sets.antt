-- ===== src/Middleware/Store/File/Sets.antt =====
-- internal/store/file_arch.go: device sets, and the views of the configuration. `sort.Slice` is insertion
-- sort here; items of the same name may stand in another order in the code.
use mathlib.Core.List.{foldl}
use ygate_git.Base.{
  Bool, not, ◌&&◌, ◌||◌, none, some, Result, ok, err, List, [], ◌∷◌, ◌++◌, if◌then◌else◌, some_item,
  keep, find, sort_by, replace_all, map,
}
use ygate_git.Base.Int.{ℤ, pos, ltb_ℤ, eqb_ℤ}
use ygate_git.Base.Text.{Text, lit, text_eq, text_lt, is_empty}
use ygate_git.Middleware.Float64.{Float64}
use ygate_git.Middleware.Domain.{GatewayConfig, Brand, DeviceSet, Address, Plant, ConnectionConfig}
use ygate_git.Middleware.Profile.Address.{one_of}
use ygate_git.Middleware.Store.Normalize.{
  normalize_connection, normalize_device_set, normalize_address, validate_address,
}
use ygate_git.Middleware.Store.Normalize.Snapshot.{is_nil}
use ygate_git.Middleware.Store.File.{
  Store, FileState, Saves, Outcome, StoreError, invalid, config, commit, with_next_id, or_not_exist,
  not_exist,
}
use ygate_git.Middleware.Store.File.Config.{brand_sets}

module _ (fl : Float64) where
  open fl use {F}

  -- The loop over the addresses in `SaveDeviceSet`, of a set with the mode and the id: `nextID` is the
  -- only part of the state that it changes, also when it stops with an error.
  unfoldable pub save_addresses :
      Text → ℤ → List (Address F) → FileState F → Result StoreError (List (Address F)) × FileState F
  unfolding eqb_ℤ
  save_addresses mode set_id [] s = (ok [], s)
  save_addresses mode set_id (addr ∷ rest) s =
      let a = record (normalize_address fl mode addr) { device_set_id = set_id } in
      let fresh = eqb_ℤ a.address_id (pos 0) in
      let a' = if fresh then record a { address_id = s.next_id } else a in
      let s' = if fresh then with_next_id s else s in
      let (others, t) = save_addresses mode set_id rest s' in
      elim (validate_address fl mode a) [
        | err e ↦ (err (config e), s)
        | ok u ↦ elim others [ err e ↦ (err e, t) | ok as' ↦ (ok (a' ∷ as'), t) ]
      ]

  -- The guards of `SaveDeviceSet`.
  unfoldable pub is_savable : DeviceSet F → Bool
  unfolding eqb_ℤ one_of
  is_savable v =
      not (eqb_ℤ v.brand_id (pos 0) || is_empty v.dev_type || is_empty v.dev_model)
      && one_of v.byte_order (lit "BIG_ENDIAN" ∷ lit "LITTLE_ENDIAN" ∷ [])
      && one_of v.word_order (lit "HIGH_LOW" ∷ lit "LOW_HIGH" ∷ [])
      && not (ltb_ℤ v.max_block_size (pos 1) || ltb_ℤ (pos 125) v.max_block_size)
      && not (is_nil v.addresses)

  -- The device sets with `v` in place of those of its id, or at the end.
  unfoldable pub put_set : DeviceSet F → List (DeviceSet F) → List (DeviceSet F)
  unfolding some_item
  put_set v sets =
      if some_item (λ (d : DeviceSet F). eqb_ℤ d.device_set_id v.device_set_id) sets
      then replace_all (λ (d : DeviceSet F). eqb_ℤ d.device_set_id v.device_set_id) v sets
      else sets ++ v ∷ []

  unfoldable pub save_device_set : Saves F → DeviceSet F → Store F → Outcome F (DeviceSet F)
  save_device_set saves d s =
      let v = normalize_device_set fl d in
      let fresh = eqb_ℤ v.device_set_id (pos 0) in
      let set_id = if fresh then s.state.next_id else v.device_set_id in
      let s' = if fresh then with_next_id s.state else s.state in
      let (addresses, t) = save_addresses v.address_mode set_id v.addresses s' in
      if is_savable v
      then elim addresses [
        | err e ↦ (err e, record s { state = t })
        | ok as' ↦
            let v' = record v {
              device_set_id = set_id;
              addresses = as';
              address_id_list = map (λ (a : Address F). a.address_id) as';
            } in
            commit saves v' s (record t { device_sets = put_set v' t.device_sets })
      ]
      else (err invalid, s)

unfoldable pub first_brand : List Brand → ℤ → Text
unfolding eqb_ℤ
first_brand [] id = []
first_brand (b ∷ bs) id = if eqb_ℤ b.brand_id id then b.brand_name else first_brand bs id

module _ {F : Type 0} where
  unfoldable pub brands : Store F → List Brand
  unfolding sort_by
  brands s =
      map (λ (b : Brand). record b { brand_dev_set_id_list = brand_sets s.state b.brand_id })
        (sort_by (λ (a b : Brand). text_lt a.brand_name b.brand_name) s.state.brands)

  unfoldable pub device_sets : Store F → List (DeviceSet F)
  device_sets s =
      map
        (λ (d : DeviceSet F). record d {
          address_id_list = map (λ (a : Address F). a.address_id) d.addresses;
        })
        s.state.device_sets

  unfoldable pub device_set : ℤ → Store F → Result StoreError (DeviceSet F)
  unfolding find
  device_set id s =
      or_not_exist (find (λ (d : DeviceSet F). eqb_ℤ d.device_set_id id) s.state.device_sets)

  unfoldable pub addresses_of : ℤ → Store F → Result StoreError (List (Address F))
  addresses_of id s = elim (device_set id s) [ err e ↦ err e | ok d ↦ ok d.addresses ]

  -- The last device set of the connection's id counts.
  unfoldable pub enrich : FileState F → ConnectionConfig → ConnectionConfig
  unfolding eqb_ℤ
  enrich s v = normalize_connection (
      foldl
        (λ (c : ConnectionConfig) (d : DeviceSet F).
          if eqb_ℤ d.device_set_id c.device_set_id
          then record c {
            device_set_name = first_brand s.brands d.brand_id ++ lit " " ++ d.dev_model;
            dev_type_id = d.dev_type_id;
          }
          else c)
        v s.device_sets)

  unfoldable pub connections : Store F → List ConnectionConfig
  unfolding sort_by
  connections s =
      sort_by (λ (a b : ConnectionConfig). text_lt a.connection_name b.connection_name)
        (map (enrich s.state) s.state.connections)

  unfoldable pub connection : ℤ → Store F → Result StoreError ConnectionConfig
  unfolding find
  connection id s =
      elim (find (λ (c : ConnectionConfig). eqb_ℤ c.connection_id id) s.state.connections) [
        | none ↦ err not_exist
        | some c ↦ ok (enrich s.state c)
      ]

  unfoldable pub enabled_connections : Store F → List ConnectionConfig
  unfolding keep
  enabled_connections s = keep (λ (c : ConnectionConfig). c.enabled) (connections s)

  unfoldable pub plant_by_code : Text → Store F → Result StoreError Plant
  unfolding find
  plant_by_code code s =
      or_not_exist (find (λ (p : Plant). text_eq p.plant_code code) s.state.plants)

  -- A file without the gateway's row gives Go's zero value.
  unfoldable pub gateway_config : GatewayConfig → Store F → GatewayConfig
  gateway_config zero_value s =
      if s.state.gateway_config_set then s.state.gateway_config else zero_value
