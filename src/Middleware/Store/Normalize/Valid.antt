-- ===== src/Middleware/Store/Normalize/Valid.antt =====
-- What an accepted configuration satisfies.
use ygate_git.Base.{
  ℕ, ◌≡◌, ◌≢◌, ◌⊎◌, refl, subst, true, false, not, ◌||◌, List, [], ◌∷◌, All, Result, ok, err,
  >>=-eq-ok, guard-eq-ok, ok_inj, arith, ◌==◌,
}
use ygate_git.Base.Int.{ℤ, pos, ◌≤ℤ◌, ltb_ℤ, eqb_ℤ, eqb_ℤ_iff}
use ygate_git.Base.Text.{Text, lit, is_empty}
use ygate_git.Middleware.Float64.{Float64}
use ygate_git.Middleware.Domain.{Address, DeviceSet, ConnectionConfig}
use ygate_git.Middleware.Profile.Address.{
  ProfileError, ResolvedAddress, one_of, resolve_modbus_address,
}
use ygate_git.Middleware.Decoder.{register_count}
use ygate_git.Middleware.Store.Normalize.{
  bad_function_code, bad_register, description_and_data_type_required, unsupported_data_type,
  bad_length, bad_word_order, is_blank, lift_profile_error, definition_of, normalize_connection,
  normalize_address, validate_address,
}
use ygate_git.Middleware.Store.Normalize.Connections.{normalize_connection-unit_id}
use ygate_git.Middleware.Store.Normalize.Snapshot.{has_id, each, check_connection, check_address}

-- What every success of the body gives, every item of the loop's result satisfies.
pub each-All {ℓ κ μ ν} :
    {E : Type ℓ} {A : Type κ} {B : Type μ} (P : B → Type ν) (f : A → Result E B)
    → ((a : A) (b : B) → f a ≡ ok b → P b)
    → (as' : List A) (bs : List B) → each f as' ≡ ok bs
    → All P bs
unfolding each
each-All P f good [] bs h = subst (All P) (ok_inj [] bs h) tt
each-All P f good (a ∷ as') bs h =
    let (b, first, h1) = >>=-eq-ok (f a) _ h in
    let (rest, others, both) = >>=-eq-ok (each f as') _ h1 in
    subst (All P) (ok_inj (b ∷ rest) bs both) (good a b first, each-All P f good as' rest others)

-- A connection that can be polled.
pub record IsValidConnection (device_set_ids : List ℤ) (c : ConnectionConfig) : Type 0 where
  pub known_device_set : has_id device_set_ids c.device_set_id ≡ true
  pub port_positive : pos 1 ≤ℤ c.port
  pub port_bound : c.port ≤ℤ pos 65535
  pub unit_positive : pos 1 ≤ℤ c.unit_id
  pub named : is_blank c.connection_name ≡ false
  pub has_host : is_blank c.host ≡ false

normalize_connection-device_set_id :
    (c : ConnectionConfig) → (normalize_connection c).device_set_id ≡ c.device_set_id
unfolding normalize_connection
normalize_connection-device_set_id c = refl

valid_connection :
    (ids : List ℤ) (c : ConnectionConfig)
    → has_id ids c.device_set_id ≡ true
    → pos 1 ≤ℤ c.unit_id
    → not (
        is_blank c.connection_name
        || is_blank c.host
        || ltb_ℤ c.port (pos 1)
        || ltb_ℤ (pos 65535) c.port)
      ≡ true
    → IsValidConnection ids c
valid_connection ids c known unit h = record {
  known_device_set = known;
  port_positive = ground arith;
  port_bound = ground arith;
  unit_positive = unit;
  named = ground arith;
  has_host = ground arith;
}

pub check_connection-IsValid :
    (ids : List ℤ) (c c' : ConnectionConfig)
    → check_connection ids c ≡ ok c'
    → IsValidConnection ids c'
unfolding check_connection
check_connection-IsValid ids c c' h =
    let k = normalize_connection c in
    let (known, h1) = guard-eq-ok _ _ _ h in
    let (fits, h2) = guard-eq-ok _ _ _ h1 in
    subst (IsValidConnection ids) (ok_inj k c' h2) (
      valid_connection ids k (rw (normalize_connection-device_set_id c) known)
        (normalize_connection-unit_id c).0 fits)

length_test :
    (n : ℤ) → not (ltb_ℤ n (pos 1) || ltb_ℤ (pos 4) n) ≡ true → (pos 1 ≤ℤ n) × (n ≤ℤ pos 4)
length_test n h = ground arith

type_test : (n : ℕ) → not (n == 0) ≡ true → n ≢ 0
type_test n h = ground arith

code_test : (fc : ℤ) → (eqb_ℤ fc (pos 3) || eqb_ℤ fc (pos 4)) ≡ true → (fc ≡ pos 3) ⊎ (fc ≡ pos 4)
code_test fc h = ground (arith, eqb_ℤ_iff fc (pos 3), eqb_ℤ_iff fc (pos 4))

module _ (fl : Float64) where
  open fl use {F}

  -- An address that can be read: it resolves in the address mode, has 1 to 4 registers, and has a
  -- data type that the decoder knows.
  pub record IsValidAddress (mode : Text) (a : Address F) : Type 0 where
    pub resolved : ResolvedAddress
    pub resolves : resolve_modbus_address mode (definition_of fl a) ≡ ok resolved
    pub length_positive : pos 1 ≤ℤ a.length
    pub length_bound : a.length ≤ℤ pos 4
    pub known_type : register_count a.data_type ≢ 0
    pub known_code : (a.function_code ≡ pos 3) ⊎ (a.function_code ≡ pos 4)

  lift_profile_error-eq-ok :
      {A : Type 0} (r : Result ProfileError A) (a : A) → lift_profile_error fl r ≡ ok a → r ≡ ok a
  lift_profile_error-eq-ok (ok b) a h = cc
  lift_profile_error-eq-ok (err e) a h = absurd (cc)

  validate_address-IsValid :
      (mode : Text) (a : Address F) → validate_address fl mode a ≡ ok tt → IsValidAddress mode a
  unfolding validate_address
  validate_address-IsValid mode a h =
      let (code, h1) =
        guard-eq-ok (eqb_ℤ a.function_code (pos 3) || eqb_ℤ a.function_code (pos 4))
          bad_function_code _ h in
      let (register, h2) =
        guard-eq-ok (not (ltb_ℤ a.register (pos 0) || ltb_ℤ (pos 65535) a.register)) bad_register _
          h1 in
      let (texts, h3) =
        guard-eq-ok (not (is_empty a.description || is_empty a.data_type))
          description_and_data_type_required _ h2 in
      let (known, h4) =
        guard-eq-ok (not (register_count a.data_type == 0)) unsupported_data_type _ h3 in
      let (len, h5) =
        guard-eq-ok (not (ltb_ℤ a.length (pos 1) || ltb_ℤ (pos 4) a.length)) bad_length _ h4 in
      let (word, h6) =
        guard-eq-ok
          (is_empty a.word_order || one_of a.word_order (lit "HIGH_LOW" ∷ lit "LOW_HIGH" ∷ []))
          bad_word_order _ h5 in
      let (r, resolves, h7) =
        >>=-eq-ok (lift_profile_error fl (resolve_modbus_address mode (definition_of fl a)))
          (λ _. ok tt) h6 in
      record {
        resolved = r;
        resolves = lift_profile_error-eq-ok _ r resolves;
        length_positive = (length_test a.length len).0;
        length_bound = (length_test a.length len).1;
        known_type = type_test (register_count a.data_type) known;
        known_code = code_test a.function_code code;
      }

  pub check_address-IsValid :
      (ds : DeviceSet F) (mode : Text) (a a' : Address F)
      → check_address fl ds mode a ≡ ok a'
      → IsValidAddress mode a'
  unfolding check_address
  check_address-IsValid ds mode a a' h =
      let n = normalize_address fl mode a in
      let (u, valid, h1) =
        >>=-eq-ok (validate_address fl mode n)
          (λ _. ok (record n { device_set_id = ds.device_set_id })) h in
      let v = validate_address-IsValid mode n valid in
      subst (IsValidAddress mode) (ok_inj (record n { device_set_id = ds.device_set_id }) a' h1)
        (record {
          resolved = v.resolved;
          resolves = v.resolves;
          length_positive = v.length_positive;
          length_bound = v.length_bound;
          known_type = v.known_type;
          known_code = v.known_code;
        })
