-- ===== src/Middleware/Store/File/Taken.antt =====
-- The outbox and the counter of ids under the methods that take ids.
use ygate_git.Base.{
  ℕ, suc, ◌+◌, ◌≤◌, ◌<◌, refl, Bool, true, false, Bool-cases, inl, inr, Option, none, some, Result,
  ok, err, List, [], ◌∷◌, ◌++◌, length, if◌then◌else◌, some_item, map, arith, ◌||◌,
}
use ygate_git.Base.Int.{ℤ, pos, eqb_ℤ, ltb_ℤ, max_int64}
use ygate_git.Base.Text.{Text, text_eq, trim_space, is_empty}
use ygate_git.Middleware.Float64.{Float64}
use ygate_git.Middleware.Domain.{Brand, DeviceSet, ConnectionConfig, PollLog}
use ygate_git.Middleware.Store.Normalize.{ConfigError}
use ygate_git.Middleware.Store.File.{
  Store, FileState, Saves, StoreError, config, OutboxRow, commit, with_next_id,
}
use ygate_git.Middleware.Store.File.Outbox.{enqueue, save_poll_log}
use ygate_git.Middleware.Domain.{Address, Plant}
use ygate_git.Middleware.Store.File.Config.{
  brand_sets, put_brand, save_brand, save_connection, save_plant,
}
use ygate_git.Middleware.Store.File.Sets.{save_addresses, is_savable, put_set, save_device_set}
use ygate_git.Middleware.Store.Normalize.{
  normalize_connection, normalize_device_set, normalize_address, validate_address,
}
use ygate_git.Middleware.Store.File.Fits.{
  Fits, Leaves, Fits-same, Fits-raise, Fits-next_id, Fits-appended, Leaves-if, Leaves-commit,
  Leaves-taken, Leaves-kept,
}

module _ {F : Type 0} where
  module _ (b : ℕ) (saves : Saves F) (s : Store F) (small : b < max_int64)
      (h : Fits b s.state) where
    unchanged : {A : Type 0} (r : Result StoreError A) → Leaves (b + 1) (r, s)
    unchanged r = record { fits = Fits-raise b (b + 1) s.state (omega arith) h }

    pub enqueue-Leaves :
        (now : ℤ) (key hash : Text) (payload : Option Text)
        → Leaves (b + 1) (enqueue saves now key hash payload s)
    unfolding enqueue
    enqueue-Leaves now key hash none =
        elim (Bool-cases (some_item (λ (v : OutboxRow). text_eq v.key key) s.state.outbox)) [
          | inl present ↦ rw present (unchanged _)
          | inr absent ↦ rw absent (unchanged _)
        ]
    enqueue-Leaves now key hash (some json) =
        elim (Bool-cases (some_item (λ (v : OutboxRow). text_eq v.key key) s.state.outbox)) [
          | inl present ↦ rw present (unchanged _)
          | inr absent ↦
              rw absent (
                Leaves-commit (b + 1) saves true s _
                  (Fits-appended b s.state _ small refl absent h))
        ]

    pub save_poll_log-Leaves :
        (now : ℤ) (log : PollLog) → Leaves (b + 1) (save_poll_log saves now log s)
    unfolding save_poll_log
    save_poll_log-Leaves now log = elim (Bool-cases (eqb_ℤ log.id (pos 0))) [
      | inl fresh ↦ rw fresh (Leaves-taken b saves tt s _ small refl refl h)
      | inr numbered ↦ rw numbered (Leaves-kept b saves tt s _ refl refl h)
    ]

    pub save_plant-Leaves : (p : Plant) → Leaves (b + 1) (save_plant saves p s)
    unfolding save_plant
    save_plant-Leaves p =
        Leaves-if (b + 1) (is_empty (trim_space p.plant_code) || is_empty (trim_space p.plant_name))
          _ _ (unchanged _)
          (Leaves-if (b + 1) (eqb_ℤ p.plant_id (pos 0)) _ _
            (Leaves-taken b saves _ s _ small refl refl h) (Leaves-kept b saves _ s _ refl refl h))

    pub save_connection-Leaves : (c : ConnectionConfig) → Leaves (b + 1) (save_connection saves c s)
    unfolding save_connection
    save_connection-Leaves c =
        let v = normalize_connection c in
        let refused =
          is_empty v.connection_name
          || is_empty v.host
          || ltb_ℤ v.port (pos 1)
          || ltb_ℤ (pos 65535) v.port
          || ltb_ℤ v.unit_id (pos 0)
          || ltb_ℤ (pos 255) v.unit_id
          || eqb_ℤ v.device_set_id (pos 0) in
        let known =
          some_item (λ (x : ConnectionConfig). eqb_ℤ x.connection_id v.connection_id)
            s.state.connections in
        Leaves-if (b + 1) refused _ _ (unchanged _) (
          Leaves-if (b + 1) (eqb_ℤ v.connection_id (pos 0)) _ _
            (Leaves-taken b saves _ s _ small refl refl h)
            (Leaves-if (b + 1) known _ _ (Leaves-kept b saves _ s _ refl refl h) (unchanged _)))

    pub save_brand-Leaves : (v : Brand) → Leaves (b + 1) (save_brand saves v s)
    unfolding save_brand
    save_brand-Leaves v =
        let trimmed = record v {
          brand_name = trim_space v.brand_name;
          brand_description = trim_space v.brand_description;
        } in
        let (v', found) = put_brand trimmed s.state.brands in
        Leaves-if (b + 1) (is_empty trimmed.brand_name) _ _ (unchanged _) (replaced v' found)
      where
        replaced :
            (v' : Brand) (found : Option (List Brand))
            → Leaves (b + 1) (elim found [
              | some brands ↦
                  commit saves
                    (record v' { brand_dev_set_id_list = brand_sets s.state v'.brand_id })
                    s
                    (record s.state { brands = brands })
              | none ↦
                  commit saves
                    (record v' {
                      brand_id = s.state.next_id;
                      brand_dev_set_id_list = brand_sets s.state s.state.next_id;
                    })
                    s
                    (record (with_next_id s.state) {
                      brands = s.state.brands ++ record v' { brand_id = s.state.next_id } ∷ [];
                    })
            ])
        replaced v' none = Leaves-taken b saves _ s _ small refl refl h
        replaced v' (some brands) = Leaves-kept b saves _ s _ refl refl h

-- What the loop over the addresses returns beside an address: the state before it when that address is
-- refused, and else the state after the others.
abbrev beside :
    {F : Type 0}
    → FileState F
    → FileState F
    → Address F
    → Result ConfigError (Unit {0})
    → Result StoreError (List (Address F))
    → Result StoreError (List (Address F)) × FileState F
beside s t a checked others = elim checked [
  | err e ↦ (err (config e), s)
  | ok u ↦ elim others [ err e ↦ (err e, t) | ok rest ↦ (ok (a ∷ rest), t) ]
]

Fits-beside :
    {F : Type 0} (b : ℕ) (s t : FileState F) (a : Address F)
    (checked : Result ConfigError (Unit {0})) (others : Result StoreError (List (Address F)))
    → Fits b s
    → Fits b t
    → Fits b (beside s t a checked others).1
Fits-beside b s t a (err e) others h k = h
Fits-beside b s t a (ok u) (err e) h k = k
Fits-beside b s t a (ok u) (ok rest) h k = k

module _ (fl : Float64) where
  open fl use {F}

  Fits-numbered :
      (b : ℕ) (fresh : Bool) (s : FileState F)
      → b < max_int64
      → Fits b s
      → Fits (b + 1) (if fresh then with_next_id s else s)
  Fits-numbered b true s small h = Fits-next_id b s small h
  Fits-numbered b false s small h = Fits-raise b (b + 1) s (omega arith) h

  save_addresses-Fits :
      (b : ℕ) (mode : Text) (id : ℤ) (addresses : List (Address F)) (s : FileState F)
      → b + length addresses ≤ max_int64
      → Fits b s
      → Fits (b + length addresses) (save_addresses fl mode id addresses s).1
  unfolding save_addresses
  save_addresses-Fits b mode id [] s room h = Fits-raise b (b + 0) s (omega arith) h
  save_addresses-Fits b mode id (a ∷ rest) s room h =
      let a' = record (normalize_address fl mode a) { device_set_id = id } in
      let fresh = eqb_ℤ a'.address_id (pos 0) in
      let later =
        save_addresses-Fits (b + 1) mode id rest (if fresh then with_next_id s else s) (omega arith)
          (Fits-numbered b fresh s (omega arith) h) in
      Fits-beside (b + suc (length rest)) s _
        (if fresh then record a' { address_id = s.next_id } else a') (validate_address fl mode a') _
        (Fits-raise b _ s (omega arith) h) (Fits-raise _ _ _ (omega arith) later)

  pub save_device_set-Leaves :
      (b : ℕ) (saves : Saves F) (d : DeviceSet F) (s : Store F)
      → b + 1 + length (normalize_device_set fl d).addresses ≤ max_int64
      → Fits b s.state
      → Leaves (b + 1 + length (normalize_device_set fl d).addresses) (save_device_set fl saves d s)
  unfolding save_device_set
  save_device_set-Leaves b saves d s room h =
      let v = normalize_device_set fl d in
      let fresh = eqb_ℤ v.device_set_id (pos 0) in
      let id = if fresh then s.state.next_id else v.device_set_id in
      let top = b + 1 + length v.addresses in
      let numbered =
        save_addresses-Fits (b + 1) v.address_mode id v.addresses
          (if fresh then with_next_id s.state else s.state) room
          (Fits-numbered b fresh s.state (omega arith) h) in
      Leaves-if top (is_savable fl v) _ _ (stored id v top _ _ numbered)
        (record { fits = Fits-raise b top s.state (omega arith) h })
    where
      stored :
          (id : ℤ) (v : DeviceSet F) (top : ℕ) (addresses : Result StoreError (List (Address F)))
          (t : FileState F)
          → Fits top t
          → Leaves top (elim addresses [
            | err e ↦ (err e, record s { state = t })
            | ok rows ↦
                let v' = record v {
                  device_set_id = id;
                  addresses = rows;
                  address_id_list = map (λ (a : Address F). a.address_id) rows;
                } in
                commit saves v' s (record t { device_sets = put_set fl v' t.device_sets })
          ])
      stored id v top (err e) t k = record { fits = k }
      stored id v top (ok rows) t k = Leaves-commit top saves _ s _ (Fits-same top t _ refl refl k)
