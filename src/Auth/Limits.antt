-- ===== src/Auth/Limits.antt =====
-- How many wrong logins are let through when logins overlap: Login counts the failures, loads the user and
-- records the attempt in separate statements, so other logins may come between them.
pub mod Failures
use ygate_git.Base.{
  ◌∙◌, if◌then◌else◌, ◌++◌, ℕ, ◌+◌, ◌≤◌, ◌<◌, ◌≡◌, refl, sym, subst, Bool, true, false, not, ◌&&◌,
  ◌||◌, Option, none, some, List, ◌∷◌, keep, length, leb,
}
use ygate_git.Base.Text.{Text, text_eq, text_eq_iff, to_lower, trim_space, is_empty}
use native.Mathlib.Nat.{le_trans}
use ygate_git.Auth.Tables.{
  AppUser, AuthAttempt, AuthDatabase, window, same_text, count_recent_failed_auth_attempts,
  record_auth_attempt, record_login_failure, record_login_success, update_user, touch_session,
  update_sessions,
}
use ygate_git.Auth.Security.{Crypto}
use ygate_git.Auth.Login.{
  AuthConfig, LoginResult, LoginInput, FreshSession, login_as, max_recent_failures, record_failure,
  record_success, is_locked, AuthError, login_checked,
}
use ygate_git.Auth.Limits.Failures.{
  is_failure, has_identifier, has_address, name_of, Key, failures, waiting,
}

-- The logins that have counted the failures and not yet recorded how they end, at a time.
pub record Logins : Type 0 where
  pub clock : ℕ
  pub db : AuthDatabase
  pub pending : List LoginInput

module _ (c : Crypto) (config : AuthConfig) (most : ℕ) where
  -- The steps of the service while at most `most` logins are pending at once. A pending login ends with
  -- whatever user it has loaded in the meantime; no other call adds attempts.
  pub data Step : Logins → Logins → Type 0 where
    passes : (s : Logins) (later : ℕ) → s.clock ≤ later → Step s (record s { clock = later })
    counts :
        (s : Logins) (input : LoginInput)
        → (is_empty (name_of input) || is_empty input.password) ≡ false
        → leb max_recent_failures (
            count_recent_failed_auth_attempts s.clock (name_of input) input.source_ip s.db.attempts)
          ≡ false
        → length s.pending < most
        → Step s (record s { pending = input ∷ s.pending })
    ends :
        (s : Logins) (before after : List LoginInput) (input : LoginInput) (fresh : FreshSession)
        (user : Option AppUser)
        → s.pending ≡ before ++ input ∷ after
        → Step s (record s {
          db = (login_as c config s.clock fresh input (name_of input) s.db user).1;
          pending = before ++ after;
        })
    changes :
        (s : Logins) (d : AuthDatabase) → d.attempts ≡ s.db.attempts → Step s (record s { db = d })

  pub data Reach (s : Logins) : Logins → Type 0 where
    begin : Reach s s
    next : {t u : Logins} → Reach s t → Step t u → Reach s u

-- The failures of a key and the logins of it that are pending.
abbrev IsBounded : Key → ℕ → Logins → Type 0
IsBounded key most s = failures key s.clock s.db.attempts + waiting key s.pending ≤ 9 + most

-- In the quarter of an hour before a time, at most nine logins and as many more as can be pending failed
-- with each name and from each address.
pub record IsLimited (most now : ℕ) (attempts : List AuthAttempt) : Type 0 where
  pub by_identifier :
      (id : Text) → length (keep (is_failure now (has_identifier id)) attempts) ≤ 9 + most
  pub by_source : (ip : Text) → length (keep (is_failure now (has_address ip)) attempts) ≤ 9 + most
