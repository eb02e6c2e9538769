-- ===== src/Auth/Registration.antt =====
-- services/auth-service/internal/auth/registration.go: an account is registered, and its address of email
-- is verified.
use ygate_git.Base.{
  ℕ, Bool, false, not, ◌&&◌, ◌||◌, if◌then◌else◌, Option, none, some, [], ◌∷◌, find, some_item,
  length, ltb, leb, err, ok,
}
use ygate_git.Base.Text.{Text, lit, text_eq, is_empty, to_lower, trim_space, contains}
use ygate_git.Auth.Tables.{
  AppUser, OnceToken, AuthDatabase, same_text, count_recent_password_recovery_attempts,
  record_password_recovery_attempt, update_user, is_null, invalidate_tokens, consume_token,
  is_valid_token,
}
use ygate_git.Auth.Security.{Crypto, validate_new_password, hash_presented_token, new_token}
use ygate_git.Auth.Login.{
  rate_limited, registration_invalid, registration_unavailable, registration_conflict,
  email_verification_token, Answer, AuthConfig, max_recent_failures,
}
use ygate_git.Auth.Recovery.{FreshToken, Mail, once_token}

module _ (c : Crypto) (config : AuthConfig) where
  -- validEmail
  unfoldable pub valid_email : Text → Bool
  unfolding text_eq same_text contains
  valid_email value =
      same_text (c.parse_address value) (some value)
      && (contains value (lit "@") && leb (length value) 320)

  unfoldable pub valid_registration_input : Text → Text → Text → Text → Bool
  unfolding valid_email validate_new_password
  valid_registration_input email username display_name password =
      valid_email email
      && (leb (length username) 100
          && (ltb 0 (length display_name)
              && (leb (length display_name) 200 && validate_new_password password)))

  -- The unique columns of auth.app_user.
  unfoldable pub is_taken : Text → Option Text → AppUser → Bool
  unfolding text_eq same_text
  is_taken email username u = text_eq u.email email || same_text u.username username

  abbrev pub null_if_empty : Text → Option Text
  null_if_empty [] = none
  null_if_empty (b ∷ s) = some (b ∷ s)

  unfoldable pub registered_user : ℕ → Text → Text → Text → Text → AppUser
  registered_user id email username display_name hash = record {
    id = id;
    organization_id = none;
    email = email;
    username = null_if_empty username;
    display_name = display_name;
    password_hash = hash;
    status = lit "PENDING_ACCESS";
    email_verified_at = none;
    failed_login_count = 0;
    locked_until = none;
  }

  -- Register with the names trimmed and in lower case, a new id of the user and a salt.
  unfoldable pub register_as :
      ℕ
      → ℕ
      → Text
      → FreshToken
      → Text
      → Text
      → Text
      → Text
      → Option Text
      → AuthDatabase
      → Answer Mail
  unfolding valid_registration_input is_taken registered_user once_token new_token some_item
  register_as now id salt fresh email username display_name password ip db =
      let u = registered_user id email username display_name (c.bcrypt salt password) in
      if not config.notifies_verification
      then (err registration_unavailable, db)
      else if not (valid_registration_input email username display_name password)
      then (err registration_invalid, db)
      else if some_item (is_taken email (null_if_empty username)) db.users
      then (err registration_conflict, db)
      else (
        ok (some (email, (new_token c fresh.reset_bytes).0)),
        record db {
          users = u ∷ db.users;
          verifications = once_token c config now fresh u ip ∷ db.verifications;
        },
      )

  -- Register
  unfoldable pub register :
      ℕ
      → ℕ
      → Text
      → FreshToken
      → Text
      → Text
      → Text
      → Text
      → Option Text
      → AuthDatabase
      → Answer Mail
  unfolding register_as to_lower trim_space
  register now id salt fresh email username display_name password ip db =
      register_as now id salt fresh (to_lower (trim_space email)) (to_lower (trim_space username))
        (trim_space display_name) password ip db

  unfoldable pub verify_for : ℕ → AuthDatabase → Option OnceToken → Answer (Unit {0})
  unfolding consume_token update_user
  verify_for now db none = (err email_verification_token, db)
  verify_for now db (some t) = (
    ok tt,
    update_user t.user_id (λ u. record u { email_verified_at = some now })
        (record db { verifications = consume_token now t.id db.verifications }),
  )

  unfoldable pub verify_hash : ℕ → AuthDatabase → Option Text → Answer (Unit {0})
  unfolding verify_for find is_valid_token
  verify_hash now db none = (err email_verification_token, db)
  verify_hash now db (some hash) =
      verify_for now db (find (is_valid_token now hash) db.verifications)

  -- VerifyEmail
  unfoldable pub verify_email : ℕ → Text → AuthDatabase → Answer (Unit {0})
  unfolding verify_hash hash_presented_token
  verify_email now token db = verify_hash now db (hash_presented_token c token)

  -- The users whose address ResendVerification still verifies.
  unfoldable pub is_pending : Text → AppUser → Bool
  unfolding text_eq same_text
  is_pending identifier u =
      (text_eq u.email identifier || same_text u.username (some identifier))
      && text_eq u.status (lit "PENDING_ACCESS")

  unfoldable pub resend_to : ℕ → FreshToken → AuthDatabase → Option AppUser → Answer Mail
  unfolding is_null once_token new_token invalidate_tokens
  resend_to now fresh db none = (ok none, db)
  resend_to now fresh db (some u) = if not (is_null u.email_verified_at) then (ok none, db) else (
    ok (some (u.email, (new_token c fresh.reset_bytes).0)),
    record db {
      verifications =
          once_token c config now fresh u none ∷ invalidate_tokens now u.id db.verifications;
    },
  )

  -- ResendVerification of an identifier that is trimmed and in lower case.
  unfoldable pub resend_limited : ℕ → FreshToken → Text → Option Text → AuthDatabase → Answer Mail
  unfolding is_empty count_recent_password_recovery_attempts record_password_recovery_attempt
      resend_to find is_pending
  resend_limited now fresh identifier ip db =
      if not config.notifies_verification
      then (err registration_unavailable, db)
      else if is_empty identifier
      then (ok none, db)
      else if leb max_recent_failures
          (count_recent_password_recovery_attempts now (lit "VERIFY") identifier ip db.recoveries)
      then (err rate_limited, db)
      else resend_to now fresh
          (record_password_recovery_attempt now (lit "VERIFY") identifier ip false db)
          (find (is_pending identifier) db.users)

  -- ResendVerification
  unfoldable pub resend_verification :
      ℕ → FreshToken → Text → Option Text → AuthDatabase → Answer Mail
  unfolding resend_limited to_lower trim_space
  resend_verification now fresh identifier ip db =
      resend_limited now fresh (to_lower (trim_space identifier)) ip db
