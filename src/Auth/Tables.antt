-- ===== src/Auth/Tables.antt =====
-- services/auth-service/internal/database/dbgen/auth.sql.go: the tables of users, sessions, attempts and
-- tokens, and the statements on them. A time is in microseconds, `now()` is an argument, and a null is
-- `none`; the tokens of both kinds have the same columns.
use ygate_git.Base.{
  ℕ, ◌+◌, ◌*◌, Bool, true, false, not, ◌&&◌, ◌||◌, if◌then◌else◌, Option, none, some, List, [], ◌∷◌,
  map, keep, find, length, ltb, leb, ◌==◌, min,
}
use ygate_git.Base.Text.{Text, lit, text_eq, is_empty, to_lower}

pub record AppUser : Type 0 where
  pub id : ℕ
  pub organization_id : Option ℕ
  pub email : Text
  pub username : Option Text
  pub display_name : Text
  pub password_hash : Text
  pub status : Text
  pub email_verified_at : Option ℕ
  pub failed_login_count : ℕ
  pub locked_until : Option ℕ

pub record UserSession : Type 0 where
  pub id : ℕ
  pub organization_id : Option ℕ
  pub user_id : ℕ
  pub token_hash : Text
  pub csrf_hash : Text
  pub created_at : ℕ
  pub last_seen_at : ℕ
  pub expires_at : ℕ
  pub idle_expires_at : ℕ
  pub revoked_at : Option ℕ
  pub client_ip : Option Text
  pub user_agent : Text

pub record AuthAttempt : Type 0 where
  pub identifier : Text
  pub source_ip : Option Text
  pub success : Bool
  pub created_at : ℕ

pub record RecoveryAttempt : Type 0 where
  pub operation : Text
  pub identifier : Text
  pub source_ip : Option Text
  pub success : Bool
  pub created_at : ℕ

-- A row of password_reset_token or of email_verification_token.
pub record OnceToken : Type 0 where
  pub id : ℕ
  pub organization_id : Option ℕ
  pub user_id : ℕ
  pub token_hash : Text
  pub expires_at : ℕ
  pub used_at : Option ℕ
  pub requested_ip : Option Text

pub record AuthDatabase : Type 0 where
  pub users : List AppUser
  pub sessions : List UserSession
  pub attempts : List AuthAttempt
  pub recoveries : List RecoveryAttempt
  pub resets : List OnceToken
  pub verifications : List OnceToken

abbrev pub second : ℕ
second = 1000000

-- interval '15 minutes'
abbrev pub window : ℕ
window = 900000000

unfoldable pub is_null : Option ℕ → Bool
is_null none = true
is_null (some t) = false

-- COALESCE
unfoldable pub or_now : ℕ → Option ℕ → Option ℕ
or_now now none = some now
or_now now (some t) = some t

-- An equality of SQL, which is not true of a null.
unfoldable pub same_text : Option Text → Option Text → Bool
unfolding text_eq
same_text (some a) (some b) = text_eq a b
same_text _ _ = false

unfoldable pub is_recent_failure : ℕ → Text → Option Text → AuthAttempt → Bool
unfolding text_eq same_text to_lower
is_recent_failure now identifier ip a =
    not a.success
    && (leb now (a.created_at + window)
        && (text_eq a.identifier (to_lower identifier) || same_text a.source_ip ip))

unfoldable pub count_recent_failed_auth_attempts : ℕ → Text → Option Text → List AuthAttempt → ℕ
unfolding keep is_recent_failure
count_recent_failed_auth_attempts now identifier ip rows =
    length (keep (is_recent_failure now identifier ip) rows)

unfoldable pub is_recent_recovery : ℕ → Text → Text → Option Text → RecoveryAttempt → Bool
unfolding text_eq same_text to_lower is_empty
is_recent_recovery now operation identifier ip a =
    text_eq a.operation operation
    && (leb now (a.created_at + window)
        && ((not (is_empty identifier) && text_eq a.identifier (to_lower identifier))
            || same_text a.source_ip ip))

unfoldable pub count_recent_password_recovery_attempts :
    ℕ → Text → Text → Option Text → List RecoveryAttempt → ℕ
unfolding keep is_recent_recovery
count_recent_password_recovery_attempts now operation identifier ip rows =
    length (keep (is_recent_recovery now operation identifier ip) rows)

unfoldable pub record_auth_attempt : ℕ → Text → Option Text → Bool → AuthDatabase → AuthDatabase
unfolding to_lower
record_auth_attempt now identifier ip success db = record db {
  attempts =
      (record {
        identifier = to_lower identifier;
        source_ip = ip;
        success = success;
        created_at = now;
      })
      ∷ db.attempts;
}

unfoldable pub record_password_recovery_attempt :
    ℕ → Text → Text → Option Text → Bool → AuthDatabase → AuthDatabase
unfolding to_lower
record_password_recovery_attempt now operation identifier ip success db = record db {
  recoveries =
      (record {
        operation = operation;
        identifier = to_lower identifier;
        source_ip = ip;
        success = success;
        created_at = now;
      })
      ∷ db.recoveries;
}

-- The users with an email address or a user name; `LIMIT 1` gives the first of them.
unfoldable pub is_named : Text → AppUser → Bool
unfolding text_eq to_lower same_text
is_named identifier u =
    text_eq u.email (to_lower identifier) || same_text u.username (some (to_lower identifier))

unfoldable pub get_login_user : Text → List AppUser → Option AppUser
unfolding find is_named
get_login_user identifier = find (is_named identifier)

unfoldable pub get_password_reset_user : Text → List AppUser → Option AppUser
unfolding find text_eq to_lower
get_password_reset_user email = find (λ (u : AppUser). text_eq u.email (to_lower email))

-- UPDATE auth.app_user ... WHERE id = ...
unfoldable pub update_user : ℕ → (AppUser → AppUser) → AuthDatabase → AuthDatabase
update_user id change db = record db {
  users = map (λ (u : AppUser). if u.id == id then change u else u) db.users;
}

unfoldable pub record_login_failure : ℕ → ℕ → AuthDatabase → AuthDatabase
unfolding update_user
record_login_failure now id = update_user id (λ u. record u {
  failed_login_count = u.failed_login_count + 1;
  locked_until = if leb 5 (u.failed_login_count + 1) then some (now + window) else u.locked_until;
})

unfoldable pub record_login_success : ℕ → AuthDatabase → AuthDatabase
unfolding update_user
record_login_success id =
    update_user id (λ u. record u { failed_login_count = 0; locked_until = none })

unfoldable pub update_user_password : ℕ → Text → AuthDatabase → AuthDatabase
unfolding update_user
update_user_password id hash =
    update_user id
      (λ u. record u { password_hash = hash; failed_login_count = 0; locked_until = none })

unfoldable pub is_active : AppUser → Bool
unfolding text_eq
is_active u = text_eq u.status (lit "ACTIVE")

-- The join with the user of a row, who has to be active.
unfoldable pub active_user : ℕ → List AppUser → Option AppUser
unfolding find is_active
active_user id = find (λ (u : AppUser). u.id == id && is_active u)

unfoldable pub is_open_session : ℕ → Text → UserSession → Bool
unfolding text_eq is_null
is_open_session now hash s =
    text_eq s.token_hash hash
    && (is_null s.revoked_at && (ltb now s.expires_at && ltb now s.idle_expires_at))

unfoldable pub or_row :
    {R : Type 0} → R → Option AppUser → Option (R × AppUser) → Option (R × AppUser)
or_row r none rest = rest
or_row r (some u) rest = some (r, u)

unfoldable pub get_active_session :
    ℕ → Text → List AppUser → List UserSession → Option (UserSession × AppUser)
unfolding is_open_session active_user or_row
get_active_session now hash users [] = none
get_active_session now hash users (s ∷ sessions) =
    let rest = get_active_session now hash users sessions in
    if is_open_session now hash s then or_row s (active_user s.user_id users) rest else rest

unfoldable pub update_sessions :
    (UserSession → Bool) → (UserSession → UserSession) → AuthDatabase → AuthDatabase
update_sessions test change db = record db {
  sessions = map (λ (s : UserSession). if test s then change s else s) db.sessions;
}

unfoldable pub touch_session : ℕ → ℕ → ℕ → AuthDatabase → AuthDatabase
unfolding update_sessions
touch_session now idle_seconds id =
    update_sessions (λ s. s.id == id && ltb (s.last_seen_at + 60 * second) now)
      (λ s. record s {
        last_seen_at = now;
        idle_expires_at = min s.expires_at (now + idle_seconds * second);
      })

unfoldable pub revoke : ℕ → UserSession → UserSession
unfolding or_now
revoke now s = record s { revoked_at = or_now now s.revoked_at }

unfoldable pub revoke_session : ℕ → ℕ → AuthDatabase → AuthDatabase
unfolding update_sessions revoke
revoke_session now id = update_sessions (λ s. s.id == id) (revoke now)

unfoldable pub revoke_all_user_sessions : ℕ → ℕ → AuthDatabase → AuthDatabase
unfolding update_sessions revoke is_null
revoke_all_user_sessions now user =
    update_sessions (λ s. s.user_id == user && is_null s.revoked_at) (revoke now)

unfoldable pub is_owned : ℕ → ℕ → UserSession → Bool
is_owned id user s = s.id == id && s.user_id == user

unfoldable pub revoke_owned_session : ℕ → ℕ → ℕ → AuthDatabase → AuthDatabase
unfolding update_sessions revoke is_owned
revoke_owned_session now id user = update_sessions (is_owned id user) (revoke now)

unfoldable pub update_password_and_revoke_other_sessions :
    ℕ → ℕ → ℕ → Text → AuthDatabase → AuthDatabase
unfolding update_user update_sessions revoke is_null
update_password_and_revoke_other_sessions now user current hash db =
    update_sessions (λ s. s.user_id == user && (not (s.id == current) && is_null s.revoked_at))
      (revoke now) (update_user user (λ u. record u { password_hash = hash }) db)

unfoldable pub is_unused : ℕ → OnceToken → Bool
unfolding is_null
is_unused user t = t.user_id == user && is_null t.used_at

-- UPDATE ... SET used_at = COALESCE(used_at, now()) WHERE user_id = ... AND used_at IS NULL
unfoldable pub invalidate_tokens : ℕ → ℕ → List OnceToken → List OnceToken
unfolding is_unused
invalidate_tokens now user =
    map (λ (t : OnceToken). if is_unused user t then record t { used_at = some now } else t)

-- MarkPasswordResetTokenUsed, and the statement of VerifyEmail, which has no test of a null.
unfoldable pub mark_token_used : ℕ → ℕ → List OnceToken → List OnceToken
unfolding is_null
mark_token_used now id = map (λ (t : OnceToken).
    if t.id == id && is_null t.used_at then record t { used_at = some now } else t)

unfoldable pub consume_token : ℕ → ℕ → List OnceToken → List OnceToken
consume_token now id =
    map (λ (t : OnceToken). if t.id == id then record t { used_at = some now } else t)

unfoldable pub is_valid_token : ℕ → Text → OnceToken → Bool
unfolding text_eq is_null
is_valid_token now hash t = text_eq t.token_hash hash && (is_null t.used_at && ltb now t.expires_at)

unfoldable pub get_active_password_reset_token :
    ℕ → Text → List AppUser → List OnceToken → Option (OnceToken × AppUser)
unfolding is_valid_token active_user or_row
get_active_password_reset_token now hash users [] = none
get_active_password_reset_token now hash users (t ∷ tokens) =
    let rest = get_active_password_reset_token now hash users tokens in
    if is_valid_token now hash t then or_row t (active_user t.user_id users) rest else rest
