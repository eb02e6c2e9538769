-- ===== src/Middleware/Store/Normalize/Accepted.antt =====
-- An accepted configuration as a whole.
use ygate_git.Base.{
  ◌≡◌, refl, sym, ap, ◌∙◌, subst, Bool, true, not, ◌&&◌, ◌||◌, List, [], ◌∷◌, map, All, Result, ok,
  >>=-eq-ok, guard-eq-ok, ok_inj, arith,
}
use ygate_git.Base.Int.{ℤ, pos, ◌≤ℤ◌, ltb_ℤ}
use ygate_git.Base.Text.{lit}
use ygate_git.Middleware.Float64.{Float64}
use ygate_git.Middleware.Domain.{Brand, DeviceSet, ConfigSnapshot}
use ygate_git.Middleware.Profile.Address.{one_of}
use ygate_git.Middleware.Store.Normalize.{
  unknown_brand_id, dev_type_and_model_required, invalid_orders_or_block_size, is_blank,
  normalize_device_set,
}
use ygate_git.Middleware.Store.Normalize.Valid.{
  each-All, IsValidConnection, check_connection-IsValid, IsValidAddress, check_address-IsValid,
}
use ygate_git.Middleware.Store.Normalize.Snapshot.{
  has_id, each, normalize_brand, normalize_plant, check_connection, check_address, check_device_set,
  normalize_one, normalize_config_snapshot,
}

sizes_test :
    (b c : Bool) (n : ℤ)
    → (b && c && not (ltb_ℤ n (pos 1) || ltb_ℤ (pos 125) n)) ≡ true
    → (b ≡ true) × (c ≡ true) × (pos 1 ≤ℤ n) × (n ≤ℤ pos 125)
sizes_test b c n h = ground arith

-- A loop whose body keeps an id keeps the ids.
each-map :
    {E A B : Type 0} (g : A → B) (f : A → Result E A)
    → ((a b : A) → f a ≡ ok b → g b ≡ g a)
    → (as' bs : List A) → each f as' ≡ ok bs
    → map g bs ≡ map g as'
unfolding each
each-map g f same [] bs h = ap (map g) (sym (ok_inj [] bs h))
each-map g f same (a ∷ as') bs h =
    let (b, first, h1) = >>=-eq-ok (f a) _ h in
    let (rest, others, both) = >>=-eq-ok (each f as') _ h1 in
    rw (sym (ok_inj (b ∷ rest) bs both), same a b first, each-map g f same as' rest others)

normalize_brand-brand_id : (b c : Brand) → normalize_brand b ≡ ok c → c.brand_id ≡ b.brand_id
unfolding normalize_brand
normalize_brand-brand_id b c h =
    let (named, h1) = guard-eq-ok _ _ _ h in ap (λ (d : Brand). d.brand_id) (sym (ok_inj _ c h1))

module _ (fl : Float64) where
  open fl use {F}

  -- A device set from which registers can be polled.
  pub record IsValidSet (brand_ids : List ℤ) (ds : DeviceSet F) : Type 0 where
    pub known_brand : has_id brand_ids ds.brand_id ≡ true
    pub byte_orders : one_of ds.byte_order (lit "BIG_ENDIAN" ∷ lit "LITTLE_ENDIAN" ∷ []) ≡ true
    pub word_orders : one_of ds.word_order (lit "HIGH_LOW" ∷ lit "LOW_HIGH" ∷ []) ≡ true
    pub block_size_positive : pos 1 ≤ℤ ds.max_block_size
    pub block_size_bound : ds.max_block_size ≤ℤ pos 125
    pub valid_addresses : All (IsValidAddress fl ds.address_mode) ds.addresses

  normalize_device_set-brand_id :
      (ds : DeviceSet F) → (normalize_device_set fl ds).brand_id ≡ ds.brand_id
  unfolding normalize_device_set
  normalize_device_set-brand_id ds = refl

  normalize_one-IsValid :
      (brand_ids : List ℤ) (ds ds' : DeviceSet F)
      → normalize_one fl brand_ids ds ≡ ok ds'
      → IsValidSet brand_ids ds'
  unfolding normalize_one check_device_set
  normalize_one-IsValid brand_ids ds ds' h =
      let n = normalize_device_set fl ds in
      let (u, checked, h1) = >>=-eq-ok (check_device_set fl brand_ids ds n) _ h in
      let (known, g1) = guard-eq-ok (has_id brand_ids ds.brand_id) unknown_brand_id _ checked in
      let (named, g2) =
        guard-eq-ok (not (is_blank n.dev_type || is_blank n.dev_model)) dev_type_and_model_required
          _ g1 in
      let (sizes, g3) =
        guard-eq-ok
          (one_of n.byte_order (lit "BIG_ENDIAN" ∷ lit "LITTLE_ENDIAN" ∷ [])
            && one_of n.word_order (lit "HIGH_LOW" ∷ lit "LOW_HIGH" ∷ [])
            && not (ltb_ℤ n.max_block_size (pos 1) || ltb_ℤ (pos 125) n.max_block_size))
          invalid_orders_or_block_size _ g2 in
      let (addresses, each_ok, h2) =
        >>=-eq-ok (each (check_address fl ds n.address_mode) ds.addresses) _ h1 in
      let (b, w, lo, hi) = sizes_test _ _ n.max_block_size sizes in
      subst (IsValidSet brand_ids) (ok_inj _ ds' h2) (record {
        known_brand = rw (normalize_device_set-brand_id ds) known;
        byte_orders = b;
        word_orders = w;
        block_size_positive = lo;
        block_size_bound = hi;
        valid_addresses =
            each-All (IsValidAddress fl n.address_mode) (check_address fl ds n.address_mode)
              (check_address-IsValid fl ds n.address_mode) ds.addresses addresses each_ok;
      })

  normalize_device_set-device_set_id :
      (ds : DeviceSet F) → (normalize_device_set fl ds).device_set_id ≡ ds.device_set_id
  unfolding normalize_device_set
  normalize_device_set-device_set_id ds = refl

  normalize_one-device_set_id :
      (brand_ids : List ℤ) (ds ds' : DeviceSet F)
      → normalize_one fl brand_ids ds ≡ ok ds'
      → ds'.device_set_id ≡ ds.device_set_id
  unfolding normalize_one
  normalize_one-device_set_id brand_ids ds ds' h =
      let n = normalize_device_set fl ds in
      let (u, checked, h1) = >>=-eq-ok (check_device_set fl brand_ids ds n) _ h in
      let (addresses, each_ok, h2) =
        >>=-eq-ok (each (check_address fl ds n.address_mode) ds.addresses) _ h1 in
      ap (λ (d : DeviceSet F). d.device_set_id) (sym (ok_inj _ ds' h2))
      ∙ normalize_device_set-device_set_id ds

  -- What the store persists of an accepted snapshot.
  pub record IsValidSnapshot (brand_ids device_set_ids : List ℤ) (snap : ConfigSnapshot F)
      : Type 0 where
    pub sets : All (IsValidSet brand_ids) snap.device_sets
    pub connections_valid : All (IsValidConnection device_set_ids) snap.connections

  -- A snapshot that is accepted can be polled: every connection names a device set of the snapshot, a
  -- port from 1 to 65535 and a unit from 1; every device set names a brand of the snapshot, has known
  -- byte and word orders and a block size from 1 to 125; and every address of it resolves.
  pub normalize_config_snapshot-IsValid :
      (snap out : ConfigSnapshot F)
      → normalize_config_snapshot fl snap ≡ ok out
      → IsValidSnapshot
          (map (λ (b : Brand). b.brand_id) snap.brands)
          (map (λ (d : DeviceSet F). d.device_set_id) snap.device_sets)
          out
  unfolding normalize_config_snapshot
  normalize_config_snapshot-IsValid snap out h =
      let brand_ids = map (λ (b : Brand). b.brand_id) snap.brands in
      let set_ids = map (λ (d : DeviceSet F). d.device_set_id) snap.device_sets in
      let (brands, h_brands, h1) = >>=-eq-ok (each normalize_brand snap.brands) _ h in
      let (sets, h_sets, h2) =
        >>=-eq-ok (each (normalize_one fl brand_ids) snap.device_sets) _ h1 in
      let (plants, h_plants, h3) = >>=-eq-ok (each normalize_plant snap.plants) _ h2 in
      let (conns, h_conns, h4) =
        >>=-eq-ok (each (check_connection set_ids) snap.connections) _ h3 in
      subst (IsValidSnapshot brand_ids set_ids) (ok_inj _ out h4) (record {
        sets =
            each-All (IsValidSet brand_ids) (normalize_one fl brand_ids)
              (normalize_one-IsValid brand_ids) snap.device_sets sets h_sets;
        connections_valid =
            each-All (IsValidConnection set_ids) (check_connection set_ids)
              (check_connection-IsValid set_ids) snap.connections conns h_conns;
      })

  -- Brands and device sets keep their ids.
  pub normalize_config_snapshot-same_ids :
      (snap out : ConfigSnapshot F)
      → normalize_config_snapshot fl snap ≡ ok out
      → (map (λ (b : Brand). b.brand_id) snap.brands ≡ map (λ (b : Brand). b.brand_id) out.brands)
        × (map (λ (d : DeviceSet F). d.device_set_id) snap.device_sets
            ≡ map (λ (d : DeviceSet F). d.device_set_id) out.device_sets)
  unfolding normalize_config_snapshot
  normalize_config_snapshot-same_ids snap out h =
      let brand_ids = map (λ (b : Brand). b.brand_id) snap.brands in
      let set_ids = map (λ (d : DeviceSet F). d.device_set_id) snap.device_sets in
      let (brands, h_brands, h1) = >>=-eq-ok (each normalize_brand snap.brands) _ h in
      let (sets, h_sets, h2) =
        >>=-eq-ok (each (normalize_one fl brand_ids) snap.device_sets) _ h1 in
      let (plants, h_plants, h3) = >>=-eq-ok (each normalize_plant snap.plants) _ h2 in
      let (conns, h_conns, h4) =
        >>=-eq-ok (each (check_connection set_ids) snap.connections) _ h3 in
      let same = sym (ok_inj _ out h4) in
      (
        sym (
            ap (λ (o : ConfigSnapshot F). map (λ (b : Brand). b.brand_id) o.brands) same
            ∙ each-map _ normalize_brand normalize_brand-brand_id snap.brands brands h_brands),
        sym (
            ap (λ (o : ConfigSnapshot F). map (λ (d : DeviceSet F). d.device_set_id) o.device_sets)
              same
            ∙ each-map _ (normalize_one fl brand_ids) (normalize_one-device_set_id brand_ids)
                snap.device_sets sets h_sets),
      )
