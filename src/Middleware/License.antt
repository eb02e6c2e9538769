-- ===== src/Middleware/License.antt =====
-- internal/license/license.go: the licence of a gateway, a signed token that names the machine it is for
-- and the time until which it holds.
pub mod Verified
use ygate_git.Base.{
  ℕ, suc, zero, Bool, true, false, not, ◌&&◌, ◌||◌, if◌then◌else◌, Option, none, some, List, [],
  ◌∷◌, ◌++◌, length, take, ◌==◌, Result, err, ok, guard, ◌>>=◌, ◌>>◌,
}
use ygate_git.Base.Int.{ℤ, ltb_ℤ}
use ygate_git.Base.Text.{Text, lit, text_eq, is_empty, trim_space, to_upper, to_lower, equal_fold}

pub record Payload : Type 0 where
  pub customer : Text
  pub machine_id : Text
  pub expires_at : Text
  pub features : List Text

pub record Activation : Type 0 where
  pub token : Text
  pub activated_at : ℤ
  pub activation_machine : Text

pub record LicenseStatus : Type 0 where
  pub payload : Payload
  pub status_activated_at : ℤ
  pub status_machine : Text
  pub license_file : Text

pub data LicenseError : Type 0 where
  no_public_key : LicenseError
  not_two_parts : LicenseError
  bad_payload : LicenseError
  bad_signature_text : LicenseError
  bad_public_key : LicenseError
  bad_signature : LicenseError
  bad_payload_json : LicenseError
  other_machine : LicenseError
  bad_expiry : LicenseError
  expired : LicenseError
  no_license_file : LicenseError
  bad_license_file : LicenseError
  write_failed : LicenseError

-- What the package uses and does not implement: the four decoders of base64, in the order in which a
-- public key is tried with them, of which the last is the one of the token; Ed25519; JSON; and RFC 3339.
pub record Crypto : Type 0 where
  pub decode_std : Text → Option Text
  pub decode_raw_std : Text → Option Text
  pub decode_url : Text → Option Text
  pub decode_raw_url : Text → Option Text
  pub verify : Text → Text → Text → Bool
  pub parse_payload : Text → Option Payload
  pub parse_activation : Text → Option Activation
  pub print_activation : Activation → Text
  pub parse_time : Text → Option ℤ
  pub sha256 : Text → Text
  pub hex : Text → Text

-- `strings.Split(s, ".")`, with the part that was read so far.
unfoldable pub split_from : Text → Text → List Text
split_from part [] = part ∷ []
split_from part (c ∷ s) =
    let rest = split_from [] s in
    let longer = split_from (part ++ (c ∷ [])) s in if c == 46 then part ∷ rest else longer

unfoldable pub split_dots : Text → List Text
unfolding split_from
split_dots = split_from []

abbrev pub or_error {ℓ} : {A : Type ℓ} → LicenseError → Option A → Result LicenseError A
or_error e none = err e
or_error e (some a) = ok a

module _ (c : Crypto) where
  -- One decoder of decodePublicKey: a key has 32 bytes.
  unfoldable pub as_key : Option Text → Option Text
  as_key none = none
  as_key (some b) = if length b == 32 then some b else none

  abbrev pub or_next : Option Text → Option Text → Option Text
  or_next none next = next
  or_next (some b) next = some b

  -- decodePublicKey
  unfoldable pub decode_public_key : Text → Option Text
  unfolding as_key trim_space
  decode_public_key value =
      let v = trim_space value in
      or_next (as_key (c.decode_std v)) (
        or_next (as_key (c.decode_raw_std v))
          (or_next (as_key (c.decode_url v)) (as_key (c.decode_raw_url v))))

  unfoldable pub two_parts : List Text → Option (Text × Text)
  two_parts (a ∷ b ∷ []) = some (a, b)
  two_parts _ = none

  -- The test of `payload.ExpiresAt`.
  unfoldable pub check_expiry : Text → ℤ → Result LicenseError (Unit {0})
  unfolding is_empty
  check_expiry expires_at now = if is_empty expires_at then ok tt else (do
    expires ← or_error bad_expiry (c.parse_time expires_at)
    guard (ltb_ℤ now expires) expired)

  unfoldable pub is_for_machine : Text → Text → Bool
  unfolding is_empty text_eq equal_fold
  is_for_machine named machine =
      is_empty named || (text_eq named (lit "*") || equal_fold named machine)

  -- VerifyToken up to the test of the machine.
  unfoldable pub verify_signed : Text → Text → Text → Result LicenseError Payload
  unfolding is_empty trim_space split_dots two_parts decode_public_key is_for_machine
  verify_signed token public_key machine = do
    guard (not (is_empty (trim_space public_key))) no_public_key
    parts ← or_error not_two_parts (two_parts (split_dots (trim_space token)))
    bytes ← or_error bad_payload (c.decode_raw_url parts.0)
    signature ← or_error bad_signature_text (c.decode_raw_url parts.1)
    key ← or_error bad_public_key (decode_public_key public_key)
    guard (c.verify key parts.0 signature) bad_signature
    payload ← or_error bad_payload_json (c.parse_payload bytes)
    guard (is_for_machine payload.machine_id machine) other_machine
    ok payload

  -- VerifyToken
  unfoldable pub verify_token : Text → Text → Text → ℤ → Result LicenseError Payload
  unfolding verify_signed check_expiry
  verify_token token public_key machine now = do
    payload ← verify_signed token public_key machine
    check_expiry payload.expires_at now
    ok payload

  -- MachineID, of the environment's value and of the operating system and the name of the host.
  unfoldable pub machine_id_of : Text → Text → Text → Text
  unfolding trim_space is_empty to_upper to_lower
  machine_id_of given system host =
      let v = trim_space given in
      if is_empty v
      then to_upper (c.hex (take 8 (c.sha256 (system ++ (lit ":" ++ to_lower (trim_space host))))))
      else v

  -- What Activate does with the payload.
  unfoldable pub activate_with :
      Bool
      → Text
      → Text
      → Text
      → ℤ
      → Option Text
      → Result LicenseError Payload
      → Result LicenseError LicenseStatus × Option Text
  unfolding trim_space
  activate_with writes path token machine now file (err e) = (err e, file)
  activate_with writes path token machine now file (ok payload) =
      let activation : Activation = record {
        token = trim_space token;
        activated_at = now;
        activation_machine = machine;
      } in
      let status : LicenseStatus = record {
        payload = payload;
        status_activated_at = now;
        status_machine = machine;
        license_file = path;
      } in
      if writes then (ok status, some (c.print_activation activation)) else (err write_failed, file)

  -- Activate, given whether the file can be written: the status and what the file then holds. The two
  -- readings of the clock are one.
  unfoldable pub activate :
      Bool
      → Text
      → Text
      → Text
      → Text
      → ℤ
      → Option Text
      → Result LicenseError LicenseStatus × Option Text
  unfolding verify_token activate_with
  activate writes path token public_key machine now file =
      activate_with writes path token machine now file (verify_token token public_key machine now)

  -- CheckFile, of what the file holds.
  unfoldable pub check_file :
      Text → Text → Text → ℤ → Option Text → Result LicenseError LicenseStatus
  unfolding verify_token
  check_file path public_key machine now file = do
    bytes ← or_error no_license_file file
    activation ← or_error bad_license_file (c.parse_activation bytes)
    payload ← verify_token activation.token public_key machine now
    ok (record {
      payload = payload;
      status_activated_at = activation.activated_at;
      status_machine = machine;
      license_file = path;
    })
