-- ===== src/Auth/Calls/Kept.antt =====
-- What every call keeps is what every statement keeps that the calls are made of.
use ygate_git.Base.{
  ℕ, ◌/◌, ◌≡◌, refl, Bool, true, false, not, ◌||◌, if◌then◌else◌, Option, none, some, List, [], ◌∷◌,
  keep, find, some_item, leb, ltb, length,
}
use ygate_git.Base.Text.{Text, lit, text_eq, is_empty, to_lower, trim_space}
use ygate_git.Auth.Tables.{
  AppUser, UserSession, RecoveryAttempt, OnceToken, AuthDatabase, second,
  count_recent_failed_auth_attempts, record_auth_attempt, touch_session, update_sessions, revoke,
  invalidate_tokens, mark_token_used, update_user, record_login_failure, record_login_success,
  record_password_recovery_attempt, update_user_password, revoke_session, revoke_all_user_sessions,
  revoke_owned_session, get_login_user, is_owned, update_password_and_revoke_other_sessions,
  count_recent_password_recovery_attempts, get_password_reset_user, is_active, is_null,
  is_valid_token,
}
use ygate_git.Auth.Security.{Crypto, validate_new_password}
use ygate_git.Auth.Login.{
  AuthError, AuthConfig, LoginInput, FreshSession, LoginResult, Principal, new_session,
  record_failure, record_success, login_checked, login_as, login_limited, login, touched,
  authenticate_hash, authenticate, logout, logout_all, change_password, revoke_own_session,
  clear_own_sessions, max_recent_failures, is_locked,
}
use ygate_git.Auth.Recovery.{
  FreshToken, once_token, request_for, request_limited, request_password_reset, reset_for,
  reset_hash, reset_password, max_reset_requests, max_reset_attempts,
}
use ygate_git.Auth.Registration.{
  register_as, register, verify_for, verify_hash, verify_email, resend_to, resend_limited,
  resend_verification, valid_registration_input, is_taken, null_if_empty,
}
use ygate_git.Auth.Calls.{
  Call, logs_in, authenticates, logs_out, logs_out_all, changes_password, revokes, clears,
  requests_reset, resets_password, registers, verifies, resends, Calls, apply, run,
}

module _ (c : Crypto) (config : AuthConfig) (IsFresh : FreshSession → Type 0)
    (IsNew : FreshToken → Type 0) where
  -- A predicate that the statements of a call at a time keep, where the ids and the random bytes of
  -- new sessions and of new tokens satisfy something.
  pub record IsClosed (now : ℕ) (Q : AuthDatabase → Type 0) : Type 0 where
    pub failed :
        (identifier : Text) (ip : Option Text) (db : AuthDatabase)
        → leb max_recent_failures (count_recent_failed_auth_attempts now identifier ip db.attempts)
          ≡ false
        → Q db
        → Q (record_auth_attempt now identifier ip false db)
    pub granted :
        (identifier : Text) (ip : Option Text) (db : AuthDatabase)
        → Q db
        → Q (record_auth_attempt now identifier ip true db)
    pub users_changed :
        (us : List AppUser) (db : AuthDatabase) → Q db → Q (record db { users = us })
    pub recoveries_changed :
        (rs : List RecoveryAttempt) (db : AuthDatabase) → Q db → Q (record db { recoveries = rs })
    pub verifications_changed :
        (ts : List OnceToken) (db : AuthDatabase) → Q db → Q (record db { verifications = ts })
    pub logged_in :
        (fresh : FreshSession) (input : LoginInput) (u : AppUser) (db : AuthDatabase)
        → IsFresh fresh
        → Q db
        → Q (record db { sessions = new_session c config now fresh input u ∷ db.sessions })
    pub was_touched :
        (id : ℕ) (db : AuthDatabase)
        → Q db
        → Q (touch_session now (config.idle_timeout / second) id db)
    pub was_revoked :
        (test : UserSession → Bool) (db : AuthDatabase)
        → Q db
        → Q (update_sessions test (revoke now) db)
    pub cleared :
        (test : UserSession → Bool) (db : AuthDatabase)
        → Q db
        → Q (record db { sessions = keep test db.sessions })
    pub requested :
        (fresh : FreshToken) (u : AppUser) (ip : Option Text) (db : AuthDatabase)
        → IsNew fresh
        → Q db
        → Q (record db {
          resets = once_token c config now fresh u ip ∷ invalidate_tokens now u.id db.resets;
        })
    pub spent :
        (id : ℕ) (db : AuthDatabase)
        → Q db
        → Q (record db { resets = mark_token_used now id db.resets })

  -- What a call names has to be new.
  abbrev pub IsFreshCall : Call → Type 0
  IsFreshCall (logs_in fresh input) = IsFresh fresh
  IsFreshCall (requests_reset fresh email ip) = IsNew fresh
  IsFreshCall call = Unit

  abbrev pub AreFresh : Calls → Type 0
  AreFresh [] = Unit
  AreFresh (call ∷ calls) = IsFreshCall call.1 × AreFresh calls

  module _ (now : ℕ) (Q : AuthDatabase → Type 0) (k : IsClosed now Q) where
    if-Q :
        {A : Type 0} (b : Bool) (x y : A × AuthDatabase)
        → (b ≡ true → Q x.1)
        → (b ≡ false → Q y.1)
        → Q (if b then x else y).1
    if-Q true x y h g = h refl
    if-Q false x y h g = g refl

    record_failure-Q :
        (user : Option AppUser) (identifier : Text) (ip : Option Text) (increment : Bool)
        (db : AuthDatabase)
        → leb max_recent_failures (count_recent_failed_auth_attempts now identifier ip db.attempts)
          ≡ false
        → Q db
        → Q (record_failure {A = LoginResult} now user identifier ip increment db).1
    unfolding record_failure record_login_failure update_user
    record_failure-Q (some u) identifier ip true db few h =
        k.users_changed _ _ (k.failed identifier ip db few h)
    record_failure-Q (some u) identifier ip false db few h = k.failed identifier ip db few h
    record_failure-Q none identifier ip increment db few h = k.failed identifier ip db few h

    login_checked-Q :
        (fresh : FreshSession) (input : LoginInput) (u : AppUser) (db : AuthDatabase)
        (e : Option AuthError)
        → IsFresh fresh
        → Q db
        → Q (login_checked c config now fresh input u db e).1
    unfolding login_checked record_success record_login_success update_user
    login_checked-Q fresh input u db (some e) new h = h
    login_checked-Q fresh input u db none new h =
        k.logged_in fresh input u _ new
          (k.granted u.email input.source_ip _ (k.users_changed _ db h))

    login_as-Q :
        (fresh : FreshSession) (input : LoginInput) (identifier : Text) (db : AuthDatabase)
        (user : Option AppUser)
        → IsFresh fresh
        → leb max_recent_failures
            (count_recent_failed_auth_attempts now identifier input.source_ip db.attempts)
          ≡ false
        → Q db
        → Q (login_as c config now fresh input identifier db user).1
    unfolding login_as
    login_as-Q fresh input identifier db none new few h =
        record_failure-Q none identifier input.source_ip false db few h
    login_as-Q fresh input identifier db (some u) new few h =
        if-Q (is_locked now u) _ _
          (λ locked. record_failure-Q (some u) identifier input.source_ip false db few h)
          (λ unlocked.
            if-Q (not (c.compare_hash u.password_hash input.password)) _ _
              (λ wrong. record_failure-Q (some u) identifier input.source_ip true db few h)
              (λ right. login_checked-Q fresh input u db _ new h))

    login-Q :
        (fresh : FreshSession) (input : LoginInput) (db : AuthDatabase)
        → IsFresh fresh
        → Q db
        → Q (login c config now fresh input db).1
    unfolding login login_limited
    login-Q fresh input db new h =
        let identifier = to_lower (trim_space input.identifier) in
        if-Q (is_empty identifier || is_empty input.password) _ _ (λ missing. h)
          (λ given.
            if-Q
              (leb max_recent_failures
                (count_recent_failed_auth_attempts now identifier input.source_ip db.attempts))
              _ _ (λ many. h)
              (λ few.
                login_as-Q fresh input identifier db (get_login_user identifier db.users) new few
                  h))

    touched-Q :
        (db : AuthDatabase) (found : Option (UserSession × AppUser))
        → Q db
        → Q (touched c config now db found).1
    unfolding touched
    touched-Q db none h = h
    touched-Q db (some (s, u)) h = k.was_touched s.id db h

    authenticate_hash-Q :
        (db : AuthDatabase) (hash : Option Text)
        → Q db
        → Q (authenticate_hash c config now db hash).1
    unfolding authenticate_hash
    authenticate_hash-Q db none h = h
    authenticate_hash-Q db (some hash) h = touched-Q db _ h

    change_password-Q :
        (salt : Text) (p : Principal) (current new : Text) (db : AuthDatabase)
        → Q db
        → Q (change_password c config now salt p current new db).1
    unfolding change_password update_password_and_revoke_other_sessions update_user
    change_password-Q salt p current new db h =
        if-Q (not (c.compare_hash p.principal_password current)) _ _ (λ wrong. h)
          (λ right.
            if-Q (not (validate_new_password new)) _ _ (λ weak. h)
              (λ strong. k.was_revoked _ _ (k.users_changed _ db h)))

    request_for-Q :
        (fresh : FreshToken) (email : Text) (ip : Option Text) (db : AuthDatabase)
        (user : Option AppUser)
        → IsNew fresh
        → Q db
        → Q (request_for c config now fresh email ip db user).1
    unfolding request_for record_password_recovery_attempt
    request_for-Q fresh email ip db none new h = k.recoveries_changed _ db h
    request_for-Q fresh email ip db (some u) new h =
        if-Q (not (is_active u) || not config.notifies_reset) _ _
          (λ off. k.recoveries_changed _ db h)
          (λ on. k.recoveries_changed _ _ (k.requested fresh u ip db new h))

    request_limited-Q :
        (fresh : FreshToken) (email : Text) (ip : Option Text) (db : AuthDatabase)
        → IsNew fresh
        → Q db
        → Q (request_limited c config now fresh email ip db).1
    unfolding request_limited
    request_limited-Q fresh email ip db new h =
        if-Q (is_empty email || ltb 320 (length email)) _ _ (λ bad. h)
          (λ good.
            if-Q
              (leb max_reset_requests (
                count_recent_password_recovery_attempts now (lit "REQUEST") email ip db.recoveries))
              _ _ (λ many. h)
              (λ few.
                request_for-Q fresh email ip db (get_password_reset_user email db.users) new h))

    reset_for-Q :
        (salt new : Text) (ip : Option Text) (db : AuthDatabase)
        (found : Option (OnceToken × AppUser))
        → Q db
        → Q (reset_for c config now salt new ip db found).1
    unfolding reset_for record_password_recovery_attempt revoke_all_user_sessions
        update_user_password update_user
    reset_for-Q salt new ip db none h = k.recoveries_changed _ db h
    reset_for-Q salt new ip db (some (t, u)) h =
        if-Q
          (leb max_reset_attempts
            (count_recent_password_recovery_attempts now (lit "RESET") u.email ip db.recoveries))
          _ _ (λ many. h)
          (λ few.
            k.recoveries_changed _ _ (k.was_revoked _ _ (k.users_changed _ _ (k.spent t.id db h))))

    reset_hash-Q :
        (salt new : Text) (ip : Option Text) (db : AuthDatabase) (hash : Option Text)
        → Q db
        → Q (reset_hash c config now salt new ip db hash).1
    unfolding reset_hash record_password_recovery_attempt
    reset_hash-Q salt new ip db none h = k.recoveries_changed _ db h
    reset_hash-Q salt new ip db (some hash) h = reset_for-Q salt new ip db _ h

    reset_password-Q :
        (salt token new : Text) (ip : Option Text) (db : AuthDatabase)
        → Q db
        → Q (reset_password c config now salt token new ip db).1
    unfolding reset_password
    reset_password-Q salt token new ip db h =
        if-Q (not (validate_new_password new)) _ _ (λ weak. h)
          (λ strong.
            if-Q
              (leb max_reset_attempts
                (count_recent_password_recovery_attempts now (lit "RESET") [] ip db.recoveries))
              _ _ (λ many. h) (λ few. reset_hash-Q salt new ip db _ h))

    register_as-Q :
        (id : ℕ) (salt : Text) (fresh : FreshToken) (email username name password : Text)
        (ip : Option Text) (db : AuthDatabase)
        → Q db
        → Q (register_as c config now id salt fresh email username name password ip db).1
    unfolding register_as
    register_as-Q id salt fresh email username name password ip db h =
        if-Q (not config.notifies_verification) _ _ (λ off. h)
          (λ on.
            if-Q (not (valid_registration_input c config email username name password)) _ _
              (λ bad. h)
              (λ good.
                if-Q
                  (some_item (is_taken c config email (null_if_empty c config username)) db.users) _
                  _ (λ taken. h) (λ free. k.verifications_changed _ _ (k.users_changed _ db h))))

    verify_for-Q :
        (db : AuthDatabase) (found : Option OnceToken)
        → Q db
        → Q (verify_for c config now db found).1
    unfolding verify_for update_user
    verify_for-Q db none h = h
    verify_for-Q db (some t) h = k.users_changed _ _ (k.verifications_changed _ db h)

    verify_hash-Q :
        (db : AuthDatabase) (hash : Option Text) → Q db → Q (verify_hash c config now db hash).1
    unfolding verify_hash
    verify_hash-Q db none h = h
    verify_hash-Q db (some hash) h =
        verify_for-Q db (find (is_valid_token now hash) db.verifications) h

    resend_to-Q :
        (fresh : FreshToken) (db : AuthDatabase) (user : Option AppUser)
        → Q db
        → Q (resend_to c config now fresh db user).1
    unfolding resend_to
    resend_to-Q fresh db none h = h
    resend_to-Q fresh db (some u) h =
        if-Q (not (is_null u.email_verified_at)) _ _ (λ done. h)
          (λ open_. k.verifications_changed _ db h)

    resend_limited-Q :
        (fresh : FreshToken) (identifier : Text) (ip : Option Text) (db : AuthDatabase)
        → Q db
        → Q (resend_limited c config now fresh identifier ip db).1
    unfolding resend_limited record_password_recovery_attempt
    resend_limited-Q fresh identifier ip db h =
        if-Q (not config.notifies_verification) _ _ (λ off. h)
          (λ on.
            if-Q (is_empty identifier) _ _ (λ missing. h)
              (λ given.
                if-Q
                  (leb max_recent_failures (
                    count_recent_password_recovery_attempts now (lit "VERIFY") identifier ip
                      db.recoveries))
                  _ _ (λ many. h) (λ few. resend_to-Q fresh _ _ (k.recoveries_changed _ db h))))

    pub apply-Q :
        (call : Call) (db : AuthDatabase) → IsFreshCall call → Q db → Q (apply c config now call db)
    unfolding apply authenticate logout logout_all revoke_own_session clear_own_sessions
        request_password_reset register verify_email resend_verification revoke_session
        revoke_all_user_sessions revoke_owned_session
    apply-Q (logs_in fresh input) db new h = login-Q fresh input db new h
    apply-Q (authenticates token) db new h = authenticate_hash-Q db _ h
    apply-Q (logs_out p) db new h = k.was_revoked _ db h
    apply-Q (logs_out_all p) db new h = k.was_revoked _ db h
    apply-Q (changes_password salt p current next) db new h =
        change_password-Q salt p current next db h
    apply-Q (revokes p id) db new h =
        if-Q (some_item (is_owned id p.principal_user) db.sessions) _ _
          (λ owned. k.was_revoked _ db h) (λ other. h)
    apply-Q (clears p confirmation) db new h =
        if-Q
          (text_eq confirmation (lit "DELETE") || text_eq confirmation (lit "DELETE ALL SESSIONS"))
          _ _ (λ confirmed. k.cleared _ db h) (λ other. h)
    apply-Q (requests_reset fresh email ip) db new h =
        request_limited-Q fresh (to_lower (trim_space email)) ip db new h
    apply-Q (resets_password salt token next ip) db new h = reset_password-Q salt token next ip db h
    apply-Q (registers id salt fresh email username name password ip) db new h =
        register_as-Q id salt fresh (to_lower (trim_space email)) (to_lower (trim_space username))
          (trim_space name) password ip db h
    apply-Q (verifies token) db new h = verify_hash-Q db _ h
    apply-Q (resends fresh identifier ip) db new h =
        resend_limited-Q fresh (to_lower (trim_space identifier)) ip db h

  pub run-Q :
      (Q : AuthDatabase → Type 0)
      → ((now : ℕ) → IsClosed now Q)
      → (calls : Calls) (db : AuthDatabase) → AreFresh calls
      → Q db
      → Q (run c config calls db)
  unfolding run
  run-Q Q k [] db new h = h
  run-Q Q k (call ∷ calls) db new h =
      apply-Q call.0 Q (k call.0) call.1 (run c config calls db) new.0 (run-Q Q k calls db new.1 h)
