-- ===== src/Auth/Granted.antt =====
-- When a login succeeds.
pub mod Accepted
use ygate_git.Base.{
  ℕ, suc, ◌+◌, ◌/◌, ◌≤◌, ◌<◌, ◌≡◌, ◌≢◌, refl, ◌⊎◌, inl, inr, ◌↔◌, ◌∙◌, ap, sym, subst, Bool, true,
  false, not, ◌&&◌, ◌||◌, if◌then◌else◌, Option, none, some, List, [], ◌∷◌, map, find, length, leb,
  ltb, ◌==◌, ==_refl, Bool-cases, Option-cases, Result, err, ok, ok_inj, min, arith, else_branch,
  then_branch,
}
use ygate_git.Base.Text.{
  Text, lit, text_eq, text_eq_refl, text_eq_iff, is_empty, to_lower, trim_space,
}
use ygate_git.Auth.Tables.{
  AppUser, UserSession, AuthDatabase, is_named, count_recent_failed_auth_attempts,
  record_auth_attempt, is_active, is_open_session, get_login_user, active_user, get_active_session,
  or_row, is_null, record_login_success, record_login_failure, update_user,
}
use ygate_git.Auth.Security.{Crypto, new_token, hash_decoded, hash_presented_token}
use ygate_git.Auth.Login.{
  AuthError, AuthConfig, FreshSession, LoginInput, LoginResult, Principal, Answer,
  max_recent_failures, is_locked, classify_login_status, classify_status, new_session,
  record_failure, record_success, login_checked, login_as, login_limited, login, touched,
  authenticate, authenticate_hash,
}
use ygate_git.Auth.Rows.{err-ok, none-some}

not-false : (b : Bool) → not b ≡ false → b ≡ true
not-false b h = ground arith

or-false : (a b : Bool) → ((a || b) ≡ false) ↔ ((a ≡ false) × (b ≡ false))
or-false a b = (λ h. ground arith, λ h. ground (arith, h.0, h.1))

leb-false : (m n : ℕ) → (leb m n ≡ false) ↔ (n < m)
leb-false m n = (λ h. ground arith, λ h. ground arith)

is_empty-not : (s : Text) → is_empty s ≡ false → s ≢ []
unfolding is_empty
is_empty-not [] h e = absurd (cc)
is_empty-not (a ∷ s) h e = absurd (cc)

not-is_empty : (s : Text) → s ≢ [] → is_empty s ≡ false
unfolding is_empty
not-is_empty [] h = absurd (h refl)
not-is_empty (a ∷ s) h = refl

some_inj : (s t : ℕ) → ◌≡◌ {A = Option ℕ} (some s) (some t) → s ≡ t
some_inj s t e = cc

is_locked_iff :
    (now : ℕ) (u : AppUser)
    → (is_locked now u ≡ false) ↔ ((t : ℕ) → u.locked_until ≡ some t → t ≤ now)
unfolding is_locked
is_locked_iff now u = by_time u.locked_until
  where
    by_time :
        (until : Option ℕ)
        → ((elim until [ none ↦ false | some t ↦ ltb now t ]) ≡ false)
          ↔ ((t : ℕ) → until ≡ some t → t ≤ now)
    by_time none = (λ h t e. absurd (cc), λ h. refl)
    by_time (some s) = (
      λ h t e. subst (λ (x : ℕ). x ≤ now) (some_inj s t e) (ground arith),
      λ h. ground (arith, h s refl),
    )

-- A status without an error is ACTIVE, with a verified address.
pub standing_lem :
    (status : Text) (verified : Option ℕ)
    → classify_login_status status verified ≡ none
    → (t : ℕ) × (verified ≡ some t) × (status ≡ lit "ACTIVE")
unfolding classify_login_status classify_status
standing_lem status none h = absurd (none-some _ (sym h))
standing_lem status (some t) h = elim (Bool-cases (text_eq status (lit "PENDING_ACCESS"))) [
  | inl pending ↦ absurd (none-some _ (sym (then_branch _ _ _ pending h)))
  | inr other ↦
      let h1 = else_branch _ _ _ other h in
      elim (Bool-cases (text_eq status (lit "DISABLED"))) [
        | inl disabled ↦ absurd (none-some _ (sym (then_branch _ _ _ disabled h1)))
        | inr enabled ↦
            let h2 = else_branch _ _ _ enabled h1 in
            elim (Bool-cases (text_eq status (lit "ACTIVE"))) [
              | inl active ↦ (t, refl, (text_eq_iff status _).0 active)
              | inr unknown ↦ absurd (none-some _ (sym (else_branch _ _ _ unknown h2)))
            ]
      ]
]

active-standing :
    (status : Text) (verified : Option ℕ)
    → status ≡ lit "ACTIVE"
    → (t : ℕ) × (verified ≡ some t)
    → classify_login_status status verified ≡ none
unfolding classify_login_status classify_status text_eq
active-standing status verified active (t, e) = rw (active, e) refl

module _ (c : Crypto) (config : AuthConfig) (now : ℕ) (fresh : FreshSession) (input : LoginInput)
    (db : AuthDatabase) where
  abbrev pub identifier : Text
  identifier = to_lower (trim_space input.identifier)

  -- A user with that name, who is not locked, has that password, has verified the address of email and
  -- is active; and there were fewer than ten recent failures.
  pub record MayLogIn : Type 0 where
    pub user : AppUser
    pub given : (is_empty identifier || is_empty input.password) ≡ false
    pub few :
        leb max_recent_failures
          (count_recent_failed_auth_attempts now identifier input.source_ip db.attempts)
        ≡ false
    pub found : get_login_user identifier db.users ≡ some user
    pub unlocked : is_locked now user ≡ false
    pub right : c.compare_hash user.password_hash input.password ≡ true
    pub standing : classify_login_status user.status user.email_verified_at ≡ none

  abbrev pub SignedIn : Answer LoginResult → Type 0
  SignedIn answer = (r : LoginResult) × (after : AuthDatabase) × (answer ≡ (ok r, after))

  refused : (e : AuthError) (d : AuthDatabase) → SignedIn (err e, d) → ⊥
  refused e d (r, after, h) = err-ok e r (ap (λ (x : Answer LoginResult). x.0) h)

  record_failure-refused :
      (user : Option AppUser) (name : Text) (increment : Bool)
      → SignedIn (record_failure now user name input.source_ip increment db)
      → ⊥
  unfolding record_failure
  record_failure-refused (some u) name true h = refused _ _ h
  record_failure-refused (some u) name false h = refused _ _ h
  record_failure-refused none name increment h = refused _ _ h

  if-signed :
      (b : Bool) (x y : Answer LoginResult)
      → (SignedIn x → ⊥)
      → SignedIn (if b then x else y)
      → (b ≡ false) × SignedIn y
  if-signed true x y no_x h = absurd (no_x h)
  if-signed false x y no_x h = (refl, h)

  checked-signed :
      (u : AppUser) (e : Option AuthError)
      → SignedIn (login_checked c config now fresh input u db e)
      → e ≡ none
  unfolding login_checked
  checked-signed u (some e) h = absurd (refused e db h)
  checked-signed u none h = refl

  as-signed :
      (user : Option AppUser)
      → SignedIn (login_as c config now fresh input identifier db user)
      → (u : AppUser) × (user ≡ some u)
        × (is_locked now u ≡ false)
        × (c.compare_hash u.password_hash input.password ≡ true)
        × (classify_login_status u.status u.email_verified_at ≡ none)
  unfolding login_as
  as-signed none h = absurd (record_failure-refused none identifier false h)
  as-signed (some u) h =
      let (unlocked, h1) =
        if-signed (is_locked now u) _ _ (record_failure-refused (some u) identifier false) h in
      let (right, h2) =
        if-signed (not (c.compare_hash u.password_hash input.password)) _ _
          (record_failure-refused (some u) identifier true) h1 in
      (u, refl, unlocked, not-false _ right, checked-signed u _ h2)

  may_log_in : SignedIn (login c config now fresh input db) → MayLogIn
  unfolding login login_limited
  may_log_in h =
      let (given, h1) =
        if-signed (is_empty identifier || is_empty input.password) _ _ (refused _ db) h in
      let (few, h2) =
        if-signed
          (leb max_recent_failures
            (count_recent_failed_auth_attempts now identifier input.source_ip db.attempts))
          _ _ (refused _ db) h1 in
      let (u, found, unlocked, right, standing) =
        as-signed (get_login_user identifier db.users) h2 in
      record {
        user = u;
        given = given;
        few = few;
        found = found;
        unlocked = unlocked;
        right = right;
        standing = standing;
      }

  pub login_succeeds :
      (m : MayLogIn)
      → login c config now fresh input db ≡ record_success c config now fresh input m.user db
  unfolding login login_limited login_as login_checked
  login_succeeds m = rw (m.given, m.few, m.found, m.unlocked, m.right, m.standing) refl

  -- Who may log in: the name and the password are not empty, fewer than ten recent failures are counted
  -- for the name or the address, and the user that the name finds is not locked at this time, has the
  -- password, is ACTIVE and has a verified address of email.
  pub record IsEntitled : Type 0 where
    pub user : AppUser
    pub some_name : identifier ≢ []
    pub some_password : input.password ≢ []
    pub few : count_recent_failed_auth_attempts now identifier input.source_ip db.attempts < 10
    pub found : get_login_user identifier db.users ≡ some user
    pub not_locked : (t : ℕ) → user.locked_until ≡ some t → t ≤ now
    pub right : c.compare_hash user.password_hash input.password ≡ true
    pub active : user.status ≡ lit "ACTIVE"
    pub verified : (t : ℕ) × (user.email_verified_at ≡ some t)

  MayLogIn-IsEntitled : MayLogIn → IsEntitled
  MayLogIn-IsEntitled m =
      let (t, verified, active) = standing_lem _ _ m.standing in
      let (name, password) = (or-false _ _).0 m.given in
      record {
        user = m.user;
        some_name = is_empty-not _ name;
        some_password = is_empty-not _ password;
        few = (leb-false _ _).0 m.few;
        found = m.found;
        not_locked = (is_locked_iff now m.user).0 m.unlocked;
        right = m.right;
        active = active;
        verified = (t, verified);
      }

  IsEntitled-MayLogIn : IsEntitled → MayLogIn
  IsEntitled-MayLogIn m = record {
    user = m.user;
    given = (or-false _ _).1 (not-is_empty _ m.some_name, not-is_empty _ m.some_password);
    few = (leb-false _ _).1 m.few;
    found = m.found;
    unlocked = (is_locked_iff now m.user).1 m.not_locked;
    right = m.right;
    standing = active-standing _ _ m.active m.verified;
  }

  -- A login succeeds exactly if the name and the password are not empty, fewer than ten recent logins
  -- failed with the name or from the address, and the user that the name finds has that password, a
  -- verified address of email and the status ACTIVE, and is not locked at the time of the login.
  pub login_iff : SignedIn (login c config now fresh input db) ↔ IsEntitled
  unfolding record_success
  login_iff =
      (λ h. MayLogIn-IsEntitled (may_log_in h), λ e. (_, _, login_succeeds (IsEntitled-MayLogIn e)))
