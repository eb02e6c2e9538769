-- ===== src/Auth/Recovery.antt =====
-- services/auth-service/internal/auth/recovery.go: a password that was forgotten is set with a token that
-- is sent by email.
use ygate_git.Base.{
  ℕ, ◌+◌, true, false, not, ◌||◌, if◌then◌else◌, Option, none, some, [], ◌∷◌, length, ltb, leb, err,
  ok,
}
use ygate_git.Base.Text.{Text, lit, is_empty, to_lower, trim_space}
use ygate_git.Auth.Tables.{
  AppUser, OnceToken, AuthDatabase, count_recent_password_recovery_attempts,
  record_password_recovery_attempt, get_password_reset_user, update_user_password, is_active,
  revoke_all_user_sessions, invalidate_tokens, mark_token_used, get_active_password_reset_token,
}
use ygate_git.Auth.Security.{Crypto, validate_new_password, hash_presented_token, new_token}
use ygate_git.Auth.Login.{weak_password, rate_limited, invalid_reset_token, Answer, AuthConfig}

abbrev pub max_reset_requests : ℕ
max_reset_requests = 5

abbrev pub max_reset_attempts : ℕ
max_reset_attempts = 10

-- The id and the random bytes of a token.
pub record FreshToken : Type 0 where
  pub token_id : ℕ
  pub reset_bytes : Text

-- An email with a token, and the address.
abbrev pub Mail : Type 0
Mail = Option (Text × Text)

module _ (c : Crypto) (config : AuthConfig) where
  unfoldable pub once_token : ℕ → FreshToken → AppUser → Option Text → OnceToken
  unfolding new_token
  once_token now fresh u ip = record {
    id = fresh.token_id;
    organization_id = u.organization_id;
    user_id = u.id;
    token_hash = (new_token c fresh.reset_bytes).1;
    expires_at = now + config.reset_ttl;
    used_at = none;
    requested_ip = ip;
  }

  unfoldable pub request_for :
      ℕ → FreshToken → Text → Option Text → AuthDatabase → Option AppUser → Mail × AuthDatabase
  unfolding new_token once_token is_active invalidate_tokens record_password_recovery_attempt
  request_for now fresh email ip db none =
      (none, record_password_recovery_attempt now (lit "REQUEST") email ip false db)
  request_for now fresh email ip db (some u) =
      if not (is_active u) || not config.notifies_reset
      then (none, record_password_recovery_attempt now (lit "REQUEST") email ip false db)
      else (
        some (u.email, (new_token c fresh.reset_bytes).0),
        record_password_recovery_attempt now (lit "REQUEST") email ip true (record db {
          resets = once_token now fresh u ip ∷ invalidate_tokens now u.id db.resets;
        }),
      )

  -- RequestPasswordReset with the address in lower case: the email that is sent. It returns no error.
  unfoldable pub request_limited :
      ℕ → FreshToken → Text → Option Text → AuthDatabase → Mail × AuthDatabase
  unfolding is_empty request_for get_password_reset_user count_recent_password_recovery_attempts
  request_limited now fresh email ip db =
      if is_empty email || ltb 320 (length email)
      then (none, db)
      else if leb max_reset_requests
          (count_recent_password_recovery_attempts now (lit "REQUEST") email ip db.recoveries)
      then (none, db)
      else request_for now fresh email ip db (get_password_reset_user email db.users)

  -- RequestPasswordReset
  unfoldable pub request_password_reset :
      ℕ → FreshToken → Text → Option Text → AuthDatabase → Mail × AuthDatabase
  unfolding request_limited to_lower trim_space
  request_password_reset now fresh email ip db =
      request_limited now fresh (to_lower (trim_space email)) ip db

  unfoldable pub reset_for :
      ℕ
      → Text
      → Text
      → Option Text
      → AuthDatabase
      → Option (OnceToken × AppUser)
      → Answer (Unit {0})
  unfolding count_recent_password_recovery_attempts record_password_recovery_attempt
      revoke_all_user_sessions update_user_password mark_token_used
  reset_for now salt new ip db none =
      (err invalid_reset_token, record_password_recovery_attempt now (lit "RESET") [] ip false db)
  reset_for now salt new ip db (some (t, u)) =
      if leb max_reset_attempts
        (count_recent_password_recovery_attempts now (lit "RESET") u.email ip db.recoveries)
      then (err rate_limited, db)
      else (
        ok tt,
        record_password_recovery_attempt now (lit "RESET") u.email ip true (
            revoke_all_user_sessions now t.user_id (
              update_user_password t.user_id (c.bcrypt salt new)
                (record db { resets = mark_token_used now t.id db.resets }))),
      )

  unfoldable pub reset_hash :
      ℕ → Text → Text → Option Text → AuthDatabase → Option Text → Answer (Unit {0})
  unfolding reset_for record_password_recovery_attempt get_active_password_reset_token
  reset_hash now salt new ip db none =
      (err invalid_reset_token, record_password_recovery_attempt now (lit "RESET") [] ip false db)
  reset_hash now salt new ip db (some hash) =
      reset_for now salt new ip db (get_active_password_reset_token now hash db.users db.resets)

  -- ResetPassword
  unfoldable pub reset_password :
      ℕ → Text → Text → Text → Option Text → AuthDatabase → Answer (Unit {0})
  unfolding validate_new_password count_recent_password_recovery_attempts reset_hash
      hash_presented_token
  reset_password now salt token new ip db =
      if not (validate_new_password new)
      then (err weak_password, db)
      else if leb max_reset_attempts
          (count_recent_password_recovery_attempts now (lit "RESET") [] ip db.recoveries)
      then (err rate_limited, db)
      else reset_hash now salt new ip db (hash_presented_token c token)
