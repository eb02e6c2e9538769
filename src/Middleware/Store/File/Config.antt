-- ===== src/Middleware/Store/File/Config.antt =====
-- internal/store/file_arch.go: brands, device sets, connections, plants and the gateway's own settings.
use ygate_git.Base.{
  Bool, true, not, ◌&&◌, ◌||◌, Option, none, some, ok, err, List, [], ◌∷◌, ◌++◌, if◌then◌else◌,
  some_item, keep, remove_first, replace_all, map,
}
use ygate_git.Base.Int.{ℤ, pos, ltb_ℤ, eqb_ℤ}
use ygate_git.Base.Text.{Text, text_eq, is_empty, trim_space}
use ygate_git.Middleware.Domain.{GatewayConfig, Brand, DeviceSet, Plant, ConnectionConfig}
use ygate_git.Middleware.Store.Normalize.{is_blank, normalize_connection}
use ygate_git.Middleware.Store.File.{
  Store, FileState, Saves, Outcome, in_use, not_found, invalid, invalid_endpoint, commit,
  with_next_id,
}

module _ {F : Type 0} where
  -- The ids of the device sets of a brand.
  unfoldable pub brand_sets : FileState F → ℤ → List ℤ
  unfolding keep eqb_ℤ
  brand_sets s id =
      map (λ (d : DeviceSet F). d.device_set_id) (keep (λ d. eqb_ℤ d.brand_id id) s.device_sets)

-- The loop of `SaveBrand`: the brand with the id that it takes over from a brand of its name, and the
-- brands with it in place of the one of its id, if there is one.
unfoldable pub put_brand : Brand → List Brand → Brand × Option (List Brand)
unfolding text_eq eqb_ℤ
put_brand v [] = (v, none)
put_brand v (b ∷ bs) =
    let v' =
      if text_eq b.brand_name v.brand_name && eqb_ℤ v.brand_id (pos 0)
      then record v { brand_id = b.brand_id }
      else v in
    let (w, others) = put_brand v' bs in
    if eqb_ℤ b.brand_id v'.brand_id && not (eqb_ℤ v'.brand_id (pos 0))
    then (v', some (v' ∷ bs))
    else (w, elim others [ none ↦ none | some cs ↦ some (b ∷ cs) ])

module _ {F : Type 0} (saves : Saves F) where
  unfoldable pub save_brand : Brand → Store F → Outcome F Brand
  unfolding put_brand trim_space brand_sets
  save_brand v s =
      let v₁ = record v {
        brand_name = trim_space v.brand_name;
        brand_description = trim_space v.brand_description;
      } in
      let (v₂, found) = put_brand v₁ s.state.brands in
      let v₃ = record v₂ { brand_id = s.state.next_id } in
      if is_empty v₁.brand_name then (err invalid, s) else elim found [
        | some brands ↦
            commit saves (record v₂ { brand_dev_set_id_list = brand_sets s.state v₂.brand_id }) s
              (record s.state { brands = brands })
        | none ↦
            commit saves (record v₃ { brand_dev_set_id_list = brand_sets s.state v₃.brand_id }) s
              (record (with_next_id s.state) { brands = s.state.brands ++ v₃ ∷ [] })
      ]

  unfoldable pub delete_brand : ℤ → Store F → Outcome F (Unit {0})
  unfolding some_item remove_first eqb_ℤ
  delete_brand id s =
      if some_item (λ (d : DeviceSet F). eqb_ℤ d.brand_id id) s.state.device_sets
      then (err in_use, s)
      else elim (remove_first (λ (b : Brand). eqb_ℤ b.brand_id id) s.state.brands) [
        | none ↦ (ok tt, s)
        | some brands ↦ commit saves tt s (record s.state { brands = brands })
      ]

  unfoldable pub delete_device_set : ℤ → Store F → Outcome F (Unit {0})
  unfolding some_item remove_first eqb_ℤ
  delete_device_set id s =
      if some_item (λ (c : ConnectionConfig). eqb_ℤ c.device_set_id id) s.state.connections
      then (err in_use, s)
      else elim (remove_first (λ (d : DeviceSet F). eqb_ℤ d.device_set_id id) s.state.device_sets) [
        | none ↦ (ok tt, s)
        | some sets ↦ commit saves tt s (record s.state { device_sets = sets })
      ]

  unfoldable pub delete_connection : ℤ → Store F → Outcome F (Unit {0})
  unfolding remove_first eqb_ℤ
  delete_connection id s =
      elim (remove_first (λ (c : ConnectionConfig). eqb_ℤ c.connection_id id) s.state.connections) [
        | none ↦ (ok tt, s)
        | some connections ↦ commit saves tt s (record s.state { connections = connections })
      ]

  unfoldable pub delete_plant : ℤ → Store F → Outcome F (Unit {0})
  unfolding remove_first eqb_ℤ
  delete_plant id s = elim (remove_first (λ (p : Plant). eqb_ℤ p.plant_id id) s.state.plants) [
    | none ↦ (ok tt, s)
    | some plants ↦ commit saves tt s (record s.state { plants = plants })
  ]

  unfoldable pub save_connection : ConnectionConfig → Store F → Outcome F ConnectionConfig
  unfolding normalize_connection some_item eqb_ℤ
  save_connection c s =
      let v = normalize_connection c in
      let v' = record v { connection_id = s.state.next_id } in
      if is_empty v.connection_name
        || is_empty v.host
        || ltb_ℤ v.port (pos 1)
        || ltb_ℤ (pos 65535) v.port
        || ltb_ℤ v.unit_id (pos 0)
        || ltb_ℤ (pos 255) v.unit_id
        || eqb_ℤ v.device_set_id (pos 0)
      then (err invalid, s)
      else if eqb_ℤ v.connection_id (pos 0)
      then commit saves v' s
          (record (with_next_id s.state) { connections = s.state.connections ++ v' ∷ [] })
      else if some_item (λ (x : ConnectionConfig). eqb_ℤ x.connection_id v.connection_id)
          s.state.connections
      then commit saves v s (record s.state {
        connections =
            replace_all (λ (x : ConnectionConfig). eqb_ℤ x.connection_id v.connection_id) v
              s.state.connections;
      })
      else (err not_found, s)

  -- The first connection of the id is enabled or disabled.
  unfoldable pub enable_first : ℤ → Bool → List ConnectionConfig → Option (List ConnectionConfig)
  unfolding eqb_ℤ
  enable_first id e [] = none
  enable_first id e (c ∷ cs) =
      if eqb_ℤ c.connection_id id
      then some (record c { enabled = e } ∷ cs)
      else elim (enable_first id e cs) [ none ↦ none | some ds ↦ some (c ∷ ds) ]

  unfoldable pub set_connection_enabled : ℤ → Bool → Store F → Outcome F (Unit {0})
  unfolding enable_first
  set_connection_enabled id e s = elim (enable_first id e s.state.connections) [
    | none ↦ (err not_found, s)
    | some connections ↦ commit saves tt s (record s.state { connections = connections })
  ]

  -- A plant with an id is replaced where it stands; one that is not there is not added.
  unfoldable pub save_plant : Plant → Store F → Outcome F Plant
  unfolding trim_space eqb_ℤ
  save_plant p s =
      let v = record p {
        plant_code = trim_space p.plant_code;
        plant_name = trim_space p.plant_name;
      } in
      let v' = record v { plant_id = s.state.next_id } in
      if is_empty v.plant_code || is_empty v.plant_name
      then (err invalid, s)
      else if eqb_ℤ v.plant_id (pos 0)
      then commit saves v' s (record (with_next_id s.state) { plants = s.state.plants ++ v' ∷ [] })
      else commit saves v s (record s.state {
        plants = replace_all (λ (x : Plant). eqb_ℤ x.plant_id v.plant_id) v s.state.plants;
      })

  -- `url_ok` is what `url.Parse` says of the trimmed endpoint: a host, and http or https.
  unfoldable pub save_gateway_config :
      (Text → Bool) → GatewayConfig → Store F → Outcome F GatewayConfig
  save_gateway_config url_ok v s =
      let v' = record v {
        send_interval_seconds =
            if ltb_ℤ v.send_interval_seconds (pos 1) then pos 5 else v.send_interval_seconds;
        send_timeout_seconds =
            if ltb_ℤ v.send_timeout_seconds (pos 1) then pos 10 else v.send_timeout_seconds;
        idle_heartbeat_seconds =
            if ltb_ℤ v.idle_heartbeat_seconds (pos 60) then pos 1800 else v.idle_heartbeat_seconds;
      } in
      if not (is_blank v.endpoint) && not (url_ok (trim_space v.endpoint))
      then (err invalid_endpoint, s)
      else commit saves v' s (record s.state { gateway_config = v'; gateway_config_set = true })
