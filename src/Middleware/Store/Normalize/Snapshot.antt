-- ===== src/Middleware/Store/Normalize/Snapshot.antt =====
-- internal/store/normalize.go, `normalizeConfigSnapshot`: a pushed configuration as a whole.
use ygate_git.Base.{
  Bool, true, false, not, ◌&&◌, ◌||◌, Result, ok, guard, ◌>>=◌, ◌>>◌, List, [], ◌∷◌, map, some_item,
}
use ygate_git.Base.Int.{ℤ, pos, ltb_ℤ, eqb_ℤ}
use ygate_git.Base.Text.{Text, lit, is_empty, to_upper, trim_space}
use ygate_git.Middleware.Float64.{Float64}
use ygate_git.Middleware.Domain.{Brand, Plant, Address, DeviceSet, ConnectionConfig, ConfigSnapshot}
use ygate_git.Middleware.Profile.Address.{one_of}
use ygate_git.Middleware.Store.Normalize.{
  ConfigError, brand_name_required, unknown_brand_id, dev_type_and_model_required,
  invalid_orders_or_block_size, address_required, plant_code_and_name_required,
  unknown_device_set_id, connection_fields_required, is_blank, normalize_connection,
  normalize_device_set, normalize_address, validate_address,
}

-- Membership in the maps `brandIDs` and `deviceSetIDs`, which hold the ids passed so far.
unfoldable pub has_id : List ℤ → ℤ → Bool
unfolding some_item eqb_ℤ
has_id ids id = some_item (eqb_ℤ id) ids

abbrev pub is_nil {ℓ} : {A : Type ℓ} → List A → Bool
is_nil [] = true
is_nil (a ∷ rest) = false

-- A loop that replaces each item or stops with an error.
unfoldable pub each {ℓ κ μ} :
    {E : Type ℓ} {A : Type κ} {B : Type μ} → (A → Result E B) → List A → Result E (List B)
each f [] = ok []
each f (a ∷ as') = do b ← f a; bs ← each f as'; ok (b ∷ bs)

unfoldable pub normalize_brand : Brand → Result ConfigError Brand
unfolding trim_space
normalize_brand b =
    let b' = record b {
      brand_name = trim_space b.brand_name;
      brand_description = trim_space b.brand_description;
    } in
    guard (not (is_empty b'.brand_name)) brand_name_required >> ok b'

unfoldable pub normalize_plant : Plant → Result ConfigError Plant
unfolding to_upper trim_space
normalize_plant p =
    let p' = record p {
      plant_code = to_upper (trim_space p.plant_code);
      plant_name = trim_space p.plant_name;
    } in
    guard (not (is_empty p'.plant_code || is_empty p'.plant_name)) plant_code_and_name_required
    >> ok p'

unfoldable pub check_connection : List ℤ → ConnectionConfig → Result ConfigError ConnectionConfig
check_connection device_set_ids c = do
  let normalized = normalize_connection c
  guard (has_id device_set_ids c.device_set_id) unknown_device_set_id
  guard
      (not (
        is_blank normalized.connection_name
        || is_blank normalized.host
        || ltb_ℤ normalized.port (pos 1)
        || ltb_ℤ (pos 65535) normalized.port))
      connection_fields_required
  ok normalized

module _ (fl : Float64) where
  open fl use {F}

  -- The body of the loop over the addresses of a device set.
  unfoldable pub check_address : DeviceSet F → Text → Address F → Result ConfigError (Address F)
  check_address ds address_mode addr =
      let a = normalize_address fl address_mode addr in
      validate_address fl address_mode a >> ok (record a { device_set_id = ds.device_set_id })

  -- The tests of a normalized device set before its addresses.
  unfoldable pub check_device_set :
      List ℤ → DeviceSet F → DeviceSet F → Result ConfigError (Unit {0})
  unfolding one_of
  check_device_set brand_ids ds normalized = do
    guard (has_id brand_ids ds.brand_id) unknown_brand_id
    guard (not (is_blank normalized.dev_type || is_blank normalized.dev_model))
        dev_type_and_model_required
    guard
        (one_of normalized.byte_order (lit "BIG_ENDIAN" ∷ lit "LITTLE_ENDIAN" ∷ [])
          && one_of normalized.word_order (lit "HIGH_LOW" ∷ lit "LOW_HIGH" ∷ [])
          && not (
              ltb_ℤ normalized.max_block_size (pos 1) || ltb_ℤ (pos 125) normalized.max_block_size))
        invalid_orders_or_block_size
    guard (not (is_nil ds.addresses)) address_required

  -- The body of the loop over the device sets.
  unfoldable pub normalize_one : List ℤ → DeviceSet F → Result ConfigError (DeviceSet F)
  normalize_one brand_ids ds = do
    let normalized = normalize_device_set fl ds
    check_device_set brand_ids ds normalized
    addresses ← each (check_address ds normalized.address_mode) ds.addresses
    ok (record normalized {
      addresses = addresses;
      address_id_list = map (λ (a : Address F). a.address_id) addresses;
    })

  unfoldable pub normalize_config_snapshot :
      ConfigSnapshot F → Result ConfigError (ConfigSnapshot F)
  normalize_config_snapshot snap = do
    brands ← each normalize_brand snap.brands
    device_sets ←
        each (normalize_one (map (λ (b : Brand). b.brand_id) snap.brands)) snap.device_sets
    plants ← each normalize_plant snap.plants
    connections ←
        each (check_connection (map (λ (d : DeviceSet F). d.device_set_id) snap.device_sets))
          snap.connections
    ok (record snap {
      brands = brands;
      device_sets = device_sets;
      connections = connections;
      plants = plants;
    })
