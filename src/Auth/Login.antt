-- ===== src/Auth/Login.antt =====
-- services/auth-service/internal/auth/service.go and sessions.go: signing in, the check of a session, and
-- its end. The function `login` has its statements one right after the
-- other, though they are separate ones; Limits has logins that overlap. The audit log and statements that fail are left out.
use ygate_git.Base.{
  ℕ, ◌+◌, ◌/◌, Bool, true, false, not, ◌||◌, if◌then◌else◌, Option, none, some, ◌∷◌, keep,
  some_item, ltb, leb, ◌==◌, min, Result, err, ok,
}
use ygate_git.Base.Text.{Text, lit, text_eq, is_empty, to_lower, trim_space}
use ygate_git.Auth.Tables.{
  AppUser, UserSession, AuthDatabase, second, count_recent_failed_auth_attempts,
  record_auth_attempt, get_login_user, record_login_failure, record_login_success,
  get_active_session, touch_session, revoke_session, revoke_all_user_sessions, is_owned,
  revoke_owned_session, update_password_and_revoke_other_sessions,
}
use ygate_git.Auth.Security.{
  Crypto, validate_new_password, hash_presented_token, hashes_equal, new_token,
}

pub data AuthError : Type 0 where
  invalid_credentials : AuthError
  email_unverified : AuthError
  access_pending : AuthError
  account_disabled : AuthError
  rate_limited : AuthError
  unauthenticated : AuthError
  invalid_current_password : AuthError
  weak_password : AuthError
  session_not_found : AuthError
  session_confirmation : AuthError
  invalid_reset_token : AuthError
  registration_invalid : AuthError
  registration_unavailable : AuthError
  registration_conflict : AuthError
  email_verification_token : AuthError

abbrev pub Answer : Type 0 → Type 0
Answer A = Result AuthError A × AuthDatabase

-- The settings of the service, with times in microseconds, and whether it can send emails.
pub record AuthConfig : Type 0 where
  pub idle_timeout : ℕ
  pub absolute_timeout : ℕ
  pub reset_ttl : ℕ
  pub notifies_reset : Bool
  pub notifies_verification : Bool

pub record LoginInput : Type 0 where
  pub identifier : Text
  pub password : Text
  pub user_agent : Text
  pub source_ip : Option Text

-- The session id and the random bytes of the two tokens of a login.
pub record FreshSession : Type 0 where
  pub session_id : ℕ
  pub token_bytes : Text
  pub csrf_bytes : Text

pub record LoginResult : Type 0 where
  pub token : Text
  pub csrf_token : Text
  pub login_expires_at : ℕ
  pub login_user : ℕ

pub record Principal : Type 0 where
  pub principal_session : ℕ
  pub principal_organization : Option ℕ
  pub principal_user : ℕ
  pub principal_password : Text
  pub csrf_hash : Text

abbrev pub max_recent_failures : ℕ
max_recent_failures = 10

unfoldable pub classify_status : Text → Option AuthError
unfolding text_eq
classify_status status =
    if text_eq status (lit "PENDING_ACCESS")
    then some access_pending
    else if text_eq status (lit "DISABLED")
    then some account_disabled
    else if text_eq status (lit "ACTIVE")
    then none
    else some account_disabled

-- classifyLoginStatus: `none` is no error.
unfoldable pub classify_login_status : Text → Option ℕ → Option AuthError
unfolding classify_status
classify_login_status status none = some email_unverified
classify_login_status status (some t) = classify_status status

unfoldable pub is_locked : ℕ → AppUser → Bool
is_locked now u = elim u.locked_until [ none ↦ false | some t ↦ ltb now t ]

-- recordFailure; the failure of a user that is found is counted if the password was wrong.
unfoldable pub record_failure :
    {A : Type 0} → ℕ → Option AppUser → Text → Option Text → Bool → AuthDatabase → Answer A
unfolding record_auth_attempt record_login_failure
record_failure now (some u) identifier ip true db = (
  err invalid_credentials,
  record_login_failure now u.id (record_auth_attempt now identifier ip false db),
)
record_failure now user identifier ip increment db =
    (err invalid_credentials, record_auth_attempt now identifier ip false db)

module _ (c : Crypto) (config : AuthConfig) where
  -- The row that CreateUserSession inserts.
  unfoldable pub new_session : ℕ → FreshSession → LoginInput → AppUser → UserSession
  unfolding new_token
  new_session now fresh input u = record {
    id = fresh.session_id;
    organization_id = u.organization_id;
    user_id = u.id;
    token_hash = (new_token c fresh.token_bytes).1;
    csrf_hash = (new_token c fresh.csrf_bytes).1;
    created_at = now;
    last_seen_at = now;
    expires_at = now + config.absolute_timeout;
    idle_expires_at = min (now + config.idle_timeout) (now + config.absolute_timeout);
    revoked_at = none;
    client_ip = input.source_ip;
    user_agent = input.user_agent;
  }

  -- recordSuccess; the list of permissions in the result is left out.
  unfoldable pub record_success :
      ℕ → FreshSession → LoginInput → AppUser → AuthDatabase → Answer LoginResult
  unfolding new_token new_session record_auth_attempt record_login_success
  record_success now fresh input u db =
      let after =
        record_auth_attempt now u.email input.source_ip true (record_login_success u.id db) in
      (
        ok (record {
          token = (new_token c fresh.token_bytes).0;
          csrf_token = (new_token c fresh.csrf_bytes).0;
          login_expires_at = now + config.absolute_timeout;
          login_user = u.id;
        }),
        record after { sessions = new_session now fresh input u ∷ after.sessions },
      )

  -- What Login does with the user that it found and the error of its status.
  unfoldable pub login_checked :
      ℕ → FreshSession → LoginInput → AppUser → AuthDatabase → Option AuthError → Answer LoginResult
  unfolding record_success
  login_checked now fresh input u db (some e) = (err e, db)
  login_checked now fresh input u db none = record_success now fresh input u db

  unfoldable pub login_as :
      ℕ → FreshSession → LoginInput → Text → AuthDatabase → Option AppUser → Answer LoginResult
  unfolding record_failure login_checked classify_login_status is_locked
  login_as now fresh input identifier db none =
      record_failure now none identifier input.source_ip false db
  login_as now fresh input identifier db (some u) =
      if is_locked now u
      then record_failure now (some u) identifier input.source_ip false db
      else if not (c.compare_hash u.password_hash input.password)
      then record_failure now (some u) identifier input.source_ip true db
      else login_checked now fresh input u db (classify_login_status u.status u.email_verified_at)

  -- Login with the identifier in lower case.
  unfoldable pub login_limited :
      ℕ → FreshSession → LoginInput → Text → AuthDatabase → Answer LoginResult
  unfolding login_as get_login_user count_recent_failed_auth_attempts is_empty
  login_limited now fresh input identifier db =
      if is_empty identifier || is_empty input.password
      then (err invalid_credentials, db)
      else if leb max_recent_failures
          (count_recent_failed_auth_attempts now identifier input.source_ip db.attempts)
      then (err rate_limited, db)
      else login_as now fresh input identifier db (get_login_user identifier db.users)

  -- Login
  unfoldable pub login : ℕ → FreshSession → LoginInput → AuthDatabase → Answer LoginResult
  unfolding login_limited to_lower trim_space
  login now fresh input db =
      login_limited now fresh input (to_lower (trim_space input.identifier)) db

  unfoldable pub touched : ℕ → AuthDatabase → Option (UserSession × AppUser) → Answer Principal
  unfolding touch_session
  touched now db none = (err unauthenticated, db)
  touched now db (some (s, u)) = (
    ok (record {
      principal_session = s.id;
      principal_organization = s.organization_id;
      principal_user = s.user_id;
      principal_password = u.password_hash;
      csrf_hash = s.csrf_hash;
    }),
    touch_session now (config.idle_timeout / second) s.id db,
  )

  unfoldable pub authenticate_hash : ℕ → AuthDatabase → Option Text → Answer Principal
  unfolding touched get_active_session
  authenticate_hash now db none = (err unauthenticated, db)
  authenticate_hash now db (some hash) =
      touched now db (get_active_session now hash db.users db.sessions)

  -- Authenticate
  unfoldable pub authenticate : ℕ → Text → AuthDatabase → Answer Principal
  unfolding authenticate_hash hash_presented_token
  authenticate now token db = authenticate_hash now db (hash_presented_token c token)

  -- ValidCSRF
  unfoldable pub valid_csrf : Principal → Text → Bool
  unfolding hashes_equal
  valid_csrf p token = hashes_equal c p.csrf_hash token

  -- Logout
  unfoldable pub logout : ℕ → Principal → AuthDatabase → Answer (Unit {0})
  unfolding revoke_session
  logout now p db = (ok tt, revoke_session now p.principal_session db)

  -- LogoutAll
  unfoldable pub logout_all : ℕ → Principal → AuthDatabase → Answer (Unit {0})
  unfolding revoke_all_user_sessions
  logout_all now p db = (ok tt, revoke_all_user_sessions now p.principal_user db)

  -- ChangePassword, with the salt of the hash.
  unfoldable pub change_password :
      ℕ → Text → Principal → Text → Text → AuthDatabase → Answer (Unit {0})
  unfolding validate_new_password update_password_and_revoke_other_sessions
  change_password now salt p current new db =
      if not (c.compare_hash p.principal_password current)
      then (err invalid_current_password, db)
      else if not (validate_new_password new)
      then (err weak_password, db)
      else (
        ok tt,
        update_password_and_revoke_other_sessions now p.principal_user p.principal_session
            (c.bcrypt salt new) db,
      )

  -- RevokeOwnSession, of an id that is a UUID: whether it was the current session.
  unfoldable pub revoke_own_session : ℕ → Principal → ℕ → AuthDatabase → Answer Bool
  unfolding some_item is_owned revoke_owned_session
  revoke_own_session now p id db =
      if some_item (is_owned id p.principal_user) db.sessions
      then (ok (id == p.principal_session), revoke_owned_session now id p.principal_user db)
      else (err session_not_found, db)

  -- ClearOwnSessions
  unfoldable pub clear_own_sessions : Principal → Text → AuthDatabase → Answer (Unit {0})
  unfolding keep text_eq
  clear_own_sessions p confirmation db =
      if text_eq confirmation (lit "DELETE") || text_eq confirmation (lit "DELETE ALL SESSIONS")
      then (
        ok tt,
        record db {
          sessions = keep (λ (s : UserSession). not (s.user_id == p.principal_user)) db.sessions;
        },
      )
      else (err session_confirmation, db)
