-- ===== src/Auth/Resets.antt =====
-- The reset tokens that are not used.
pub mod Done
pub mod Once
use ygate_git.Base.{
  ℕ, suc, ◌+◌, ◌≤◌, ◌≡◌, refl, ◌≢◌, ◌⊎◌, inl, inr, ◌∙◌, ap, sym, subst, Bool, true, false, not,
  ◌&&◌, ◌||◌, if◌then◌else◌, Option, none, some, List, [], ◌∷◌, map, keep, All, length, leb, ◌==◌,
  ==_refl, ==_iff, Bool-cases, Result, err, ok, arith,
}
use ygate_git.Base.Text.{Text, lit, text_eq, text_eq_refl, text_eq_iff}
use native.Mathlib.Nat.{le_trans}
use ygate_git.Auth.Tables.{
  AppUser, UserSession, OnceToken, AuthDatabase, is_null, or_now, revoke, update_user,
  update_user_password, revoke_all_user_sessions, update_sessions,
  count_recent_password_recovery_attempts, record_auth_attempt, touch_session,
  record_password_recovery_attempt, is_unused, invalidate_tokens, mark_token_used, is_valid_token,
  active_user, or_row, get_active_password_reset_token,
}
use ygate_git.Auth.Security.{Crypto, validate_new_password, hash_presented_token, new_token}
use ygate_git.Auth.Login.{AuthError, AuthConfig, FreshSession, Answer, rate_limited, weak_password}
use ygate_git.Auth.Recovery.{
  FreshToken, once_token, max_reset_attempts, reset_for, reset_hash, reset_password,
}
use ygate_git.Auth.Rows.{
  or_now-is_null, err-ok, none-some, All-update, All-updated, length-keep_update, length-keep_none,
  length-keep_cons, length-keep_skip,
}
use ygate_git.Auth.Calls.{Calls, run}
use ygate_git.Auth.Calls.Kept.{IsClosed, AreFresh, run-Q}
use ygate_git.Auth.Lifetime.{any_fresh}

module _ (c : Crypto) (config : AuthConfig) where
  -- A rule for what is said of the reset tokens alone.
  pub resets-IsClosed :
      (IsNew : FreshToken → Type 0) (now : ℕ) (Q : List OnceToken → Type 0)
      → ((fresh : FreshToken) (u : AppUser) (ip : Option Text) (ts : List OnceToken)
          → IsNew fresh
          → Q ts
          → Q (once_token c config now fresh u ip ∷ invalidate_tokens now u.id ts))
      → ((id : ℕ) (ts : List OnceToken) → Q ts → Q (mark_token_used now id ts))
      → IsClosed c config (λ fresh. Unit {0}) IsNew now (λ db. Q db.resets)
  unfolding touch_session update_sessions record_auth_attempt
  resets-IsClosed IsNew now Q requests spends = record {
    failed = λ identifier ip db few h. h;
    granted = λ identifier ip db h. h;
    users_changed = λ us db h. h;
    recoveries_changed = λ rs db h. h;
    verifications_changed = λ ts db h. h;
    logged_in = λ fresh input u db new h. h;
    was_touched = λ id db h. h;
    was_revoked = λ test db h. h;
    cleared = λ test db h. h;
    requested = λ fresh u ip db new h. requests fresh u ip db.resets new h;
    spent = λ id db h. spends id db.resets h;
  }

  -- Every user has at most one token that is not used.
  abbrev pub IsSingle : List OnceToken → Type 0
  IsSingle ts = (user : ℕ) → length (keep (is_unused user) ts) ≤ 1

  used_now :
      (now : ℕ) (user : ℕ) (t : OnceToken)
      → is_unused user (record t { used_at = some now }) ≡ false
  unfolding is_unused is_null
  used_now now user t = ground arith

  none_left : (n : ℕ) → n ≡ 0 → suc n ≤ 1
  none_left n h = omega arith

  not_of :
      (user now : ℕ) (fresh : FreshToken) (u : AppUser) (ip : Option Text)
      → (u.id == user) ≡ false
      → is_unused user (once_token c config now fresh u ip) ≡ false
  unfolding is_unused once_token
  not_of user now fresh u ip other = rw other refl

  request-IsSingle :
      (now : ℕ) (fresh : FreshToken) (u : AppUser) (ip : Option Text) (ts : List OnceToken)
      → IsSingle ts
      → IsSingle (once_token c config now fresh u ip ∷ invalidate_tokens now u.id ts)
  unfolding invalidate_tokens
  request-IsSingle now fresh u ip ts h user =
      let left = length (keep (is_unused user) (invalidate_tokens now u.id ts)) in
      elim (Bool-cases (u.id == user)) [
        | inl same ↦
            le_trans
              (length-keep_cons (is_unused user) (once_token c config now fresh u ip)
                (invalidate_tokens now u.id ts))
              (none_left left (
                subst (λ (n : ℕ). length (keep (is_unused n) (invalidate_tokens now u.id ts)) ≡ 0)
                  ((==_iff u.id user).0 same)
                  (length-keep_none (is_unused u.id) _ (λ t unused. used_now now u.id t) ts)))
        | inr other ↦
            subst (λ (n : ℕ). n ≤ 1)
              (sym (
                length-keep_skip (is_unused user) (once_token c config now fresh u ip) _
                  (not_of user now fresh u ip other)))
              (le_trans
                (length-keep_update (is_unused user) (is_unused u.id) _
                  (λ t marked. used_now now user t) ts)
                (h user))
      ]

  mark-IsSingle :
      (now id : ℕ) (ts : List OnceToken) → IsSingle ts → IsSingle (mark_token_used now id ts)
  unfolding mark_token_used
  mark-IsSingle now id ts h user =
      le_trans (length-keep_update (is_unused user) _ _ (λ t marked. used_now now user t) ts)
        (h user)

  -- After any calls, every user has at most one reset token that was not used, if this held before.
  pub run-IsSingle :
      (calls : Calls) (start : AuthDatabase)
      → IsSingle start.resets
      → IsSingle (run c config calls start).resets
  run-IsSingle calls start =
      run-Q c config (λ fresh. Unit {0}) (λ fresh. Unit {0}) (λ db. IsSingle db.resets)
        (λ now.
          resets-IsClosed (λ fresh. Unit {0}) now IsSingle
            (λ fresh u ip ts new h. request-IsSingle now fresh u ip ts h) (mark-IsSingle now))
        calls start (any_fresh c config calls)
