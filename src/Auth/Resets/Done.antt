-- ===== src/Auth/Resets/Done.antt =====
-- What a reset of a password changes.
use ygate_git.Base.{
  ℕ, ◌≡◌, refl, ap, subst, Bool, true, false, not, ◌&&◌, if◌then◌else◌, Option, none, some, [], All,
  leb, ◌==◌, err, ok, arith,
}
use ygate_git.Base.Text.{Text, lit}
use ygate_git.Auth.Tables.{
  AppUser, UserSession, OnceToken, AuthDatabase, is_null, revoke, update_user, update_user_password,
  revoke_all_user_sessions, update_sessions, count_recent_password_recovery_attempts,
  record_password_recovery_attempt, mark_token_used, get_active_password_reset_token,
}
use ygate_git.Auth.Security.{Crypto, validate_new_password, hash_presented_token}
use ygate_git.Auth.Login.{AuthError, AuthConfig, Answer, rate_limited, weak_password}
use ygate_git.Auth.Recovery.{max_reset_attempts, reset_for, reset_hash, reset_password}
use ygate_git.Auth.Rows.{or_now-is_null, err-ok, All-updated}

not_equal : (a b : ℕ) → a ≡ b → (a == b) ≡ false → ⊥
not_equal a b same other = ground arith

revoked_before :
    (s : UserSession) (user : ℕ)
    → s.user_id ≡ user
    → (s.user_id == user && is_null s.revoked_at) ≡ false
    → is_null s.revoked_at ≡ false
revoked_before s user same away = ground arith

module _ (c : Crypto) (config : AuthConfig) where
  not_reset :
      (e : AuthError) (d after : AuthDatabase)
      → ◌≡◌ {A = Answer (Unit {0})} (err e, d) (ok tt, after)
      → ⊥
  not_reset e d after h = err-ok e tt (ap (λ (x : Answer (Unit {0})). x.0) h)

  if-reset :
      (b : Bool) (e : AuthError) (d after : AuthDatabase) (y : Answer (Unit {0}))
      → (if b then (err e, d) else y) ≡ (ok tt, after)
      → (b ≡ false) × (y ≡ (ok tt, after))
  if-reset true e d after y h = absurd (not_reset e d after h)
  if-reset false e d after y h = (refl, h)

  not_weak : (b : Bool) → not b ≡ false → b ≡ true
  not_weak b h = ground arith

  module _ (now : ℕ) (salt new : Text) (ip : Option Text) (db : AuthDatabase) where
    -- The database after a reset with a token.
    abbrev reset_with : OnceToken → AppUser → AuthDatabase
    reset_with t u = record_password_recovery_attempt now (lit "RESET") u.email ip true (
        revoke_all_user_sessions now t.user_id (
          update_user_password t.user_id (c.bcrypt salt new)
            (record db { resets = mark_token_used now t.id db.resets })))

    -- The token of a reset was valid and of an active user; after it the user has the new password and
    -- is not locked, and every session of the user is revoked.
    pub record IsReset (token : Text) (after : AuthDatabase) : Type 0 where
      pub hash : Text
      pub used : OnceToken
      pub user : AppUser
      pub strong : validate_new_password new ≡ true
      pub presented : hash_presented_token c token ≡ some hash
      pub found : get_active_password_reset_token now hash db.users db.resets ≡ some (used, user)
      pub stored :
          All
            (λ (u : AppUser).
              u.id ≡ used.user_id → (u.password_hash ≡ c.bcrypt salt new) × (u.locked_until ≡ none))
            after.users
      pub signed_out :
          All
            (λ (s : UserSession). s.user_id ≡ used.user_id → is_null s.revoked_at ≡ false)
            after.sessions
      pub spent : after.resets ≡ mark_token_used now used.id db.resets

    reset_with-IsReset :
        (token hash : Text) (t : OnceToken) (u : AppUser)
        → validate_new_password new ≡ true
        → hash_presented_token c token ≡ some hash
        → get_active_password_reset_token now hash db.users db.resets ≡ some (t, u)
        → IsReset token (reset_with t u)
    unfolding record_password_recovery_attempt revoke_all_user_sessions update_user_password
        update_user update_sessions revoke
    reset_with-IsReset token hash t u strong presented found = record {
      hash = hash;
      used = t;
      user = u;
      strong = strong;
      presented = presented;
      found = found;
      stored =
          All-updated
            (λ (x : AppUser).
              x.id ≡ t.user_id → (x.password_hash ≡ c.bcrypt salt new) × (x.locked_until ≡ none))
            (λ (x : AppUser). x.id == t.user_id) _ (λ x here same. (refl, refl))
            (λ x away same. absurd (not_equal x.id t.user_id same away)) db.users;
      signed_out =
          All-updated (λ (s : UserSession). s.user_id ≡ t.user_id → is_null s.revoked_at ≡ false)
            (λ (s : UserSession). s.user_id == t.user_id && is_null s.revoked_at) (revoke now)
            (λ s here same. or_now-is_null now s.revoked_at)
            (λ s away same. revoked_before s t.user_id same away) db.sessions;
      spent = refl;
    }

    found-IsReset :
        (token hash : Text) (found : Option (OnceToken × AppUser)) (after : AuthDatabase)
        → validate_new_password new ≡ true
        → hash_presented_token c token ≡ some hash
        → get_active_password_reset_token now hash db.users db.resets ≡ found
        → reset_for c config now salt new ip db found ≡ (ok tt, after)
        → IsReset token after
    unfolding reset_for
    found-IsReset token hash none after strong presented found e = absurd (not_reset _ _ after e)
    found-IsReset token hash (some (t, u)) after strong presented found e =
        let (few, h) =
          if-reset
            (leb max_reset_attempts
              (count_recent_password_recovery_attempts now (lit "RESET") u.email ip db.recoveries))
            rate_limited db after _ e in
        subst (IsReset token) (ap (λ (x : Answer (Unit {0})). x.1) h)
          (reset_with-IsReset token hash t u strong presented found)

    hash-IsReset :
        (token : Text) (hash : Option Text) (after : AuthDatabase)
        → validate_new_password new ≡ true
        → hash_presented_token c token ≡ hash
        → reset_hash c config now salt new ip db hash ≡ (ok tt, after)
        → IsReset token after
    unfolding reset_hash
    hash-IsReset token none after strong presented e = absurd (not_reset _ _ after e)
    hash-IsReset token (some hash) after strong presented e =
        found-IsReset token hash _ after strong presented refl e

    -- After a reset of a password that succeeds, the user of the token, which was valid, has the new
    -- password and is not locked, and every session of that user is revoked.
    pub reset_password-IsReset :
        (token : Text) (after : AuthDatabase)
        → reset_password c config now salt token new ip db ≡ (ok tt, after)
        → IsReset token after
    unfolding reset_password
    reset_password-IsReset token after e =
        let (strong, h) = if-reset (not (validate_new_password new)) weak_password db after _ e in
        let (few, h1) =
          if-reset
            (leb max_reset_attempts
              (count_recent_password_recovery_attempts now (lit "RESET") [] ip db.recoveries))
            rate_limited db after _ h in
        hash-IsReset token (hash_presented_token c token) after (not_weak _ strong) refl h1
