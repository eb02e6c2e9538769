-- ===== src/Auth/Lifetime.antt =====
-- How long a session is accepted: services/auth-service/internal/auth/service.go.
pub mod Logout
use ygate_git.Base.{
  ℕ, ◌+◌, ◌*◌, ◌/◌, ◌≤◌, ◌<◌, ◌≡◌, refl, ◌≢◌, ◌⊎◌, ◌∙◌, ap, sym, subst, Bool, true, false, ◌&&◌,
  if◌then◌else◌, Option, none, some, List, [], ◌∷◌, keep, All, ltb, leb, ◌==◌, ==_iff, min,
  Bool-cases, inl, inr, Result, err, ok, ok_inj, arith, ltb→lt,
}
use ygate_git.Base.Text.{Text, text_eq}
use ygate_git.Auth.Tables.{
  AppUser, UserSession, AuthDatabase, record_auth_attempt, is_null, or_now, is_open_session,
  active_user, or_row, get_active_session, touch_session, update_sessions, revoke, revoke_session,
}
use ygate_git.Auth.Security.{Crypto, hash_presented_token}
use ygate_git.Auth.Login.{
  AuthConfig, FreshSession, LoginInput, Principal, Answer, new_session, touched, authenticate_hash,
  authenticate, logout,
}
use ygate_git.Auth.Recovery.{FreshToken}
use ygate_git.Auth.Rows.{none-some, err-ok, All-update, All-updated, All-keep}
use ygate_git.Auth.Calls.{Call, logs_in, requests_reset, Calls, run}
use ygate_git.Auth.Calls.Kept.{IsClosed, IsFreshCall, AreFresh, run-Q}

module _ (c : Crypto) (config : AuthConfig) where
  -- A session ends at the latest an absolute timeout after the login and an idle timeout after its last
  -- use that was recorded.
  pub record IsLasting (s : UserSession) : Type 0 where
    pub ends : s.expires_at ≡ s.created_at + config.absolute_timeout
    pub ends_idle : s.idle_expires_at ≤ s.last_seen_at + config.idle_timeout

  -- A rule for what is said of every session by itself.
  pub sessions-IsClosed :
      (IsFresh : FreshSession → Type 0) (now : ℕ) (P : UserSession → Type 0)
      → ((fresh : FreshSession) (input : LoginInput) (u : AppUser)
          → IsFresh fresh
          → P (new_session c config now fresh input u))
      → ((s : UserSession)
          → P s
          → P (record s {
            last_seen_at = now;
            idle_expires_at = min s.expires_at (now + config.idle_timeout / 1000000 * 1000000);
          }))
      → ((s : UserSession) → P s → P (revoke now s))
      → IsClosed c config IsFresh (λ fresh. Unit {0}) now (λ db. All P db.sessions)
  unfolding touch_session update_sessions record_auth_attempt
  sessions-IsClosed IsFresh now P starts touches revokes = record {
    failed = λ identifier ip db few h. h;
    granted = λ identifier ip db h. h;
    users_changed = λ us db h. h;
    recoveries_changed = λ rs db h. h;
    verifications_changed = λ ts db h. h;
    logged_in = λ fresh input u db new h. (starts fresh input u new, h);
    was_touched = λ id db h. All-update P _ _ touches db.sessions h;
    was_revoked = λ test db h. All-update P test (revoke now) revokes db.sessions h;
    cleared = λ test db h. All-keep P test db.sessions h;
    requested = λ fresh u ip db new h. h;
    spent = λ id db h. h;
  }

  IsLasting-IsClosed :
      (now : ℕ)
      → IsClosed c config
          (λ fresh. Unit {0})
          (λ fresh. Unit {0})
          now
          (λ db. All IsLasting db.sessions)
  unfolding new_session revoke
  IsLasting-IsClosed now =
      sessions-IsClosed (λ fresh. Unit {0}) now IsLasting
        (λ fresh input u new. record { ends = refl; ends_idle = omega arith })
        (λ s h. record { ends = h.ends; ends_idle = omega arith })
        (λ s h. record { ends = h.ends; ends_idle = h.ends_idle })

  pub any_call : (call : Call) → IsFreshCall c config (λ fresh. Unit {0}) (λ fresh. Unit {0}) call
  any_call (logs_in fresh input) = tt
  any_call (requests_reset fresh email ip) = tt
  any_call call = tt

  pub any_fresh : (calls : Calls) → AreFresh c config (λ fresh. Unit {0}) (λ fresh. Unit {0}) calls
  any_fresh [] = tt
  any_fresh (call ∷ calls) = (any_call call.1, any_fresh calls)

  -- The session that authenticates, and its user.
  pub record IsFound (P : UserSession → Type 0) (now : ℕ) (hash : Text) (users : List AppUser)
      (s : UserSession) (u : AppUser) : Type 0 where
    pub holds : P s
    pub is_open : is_open_session now hash s ≡ true
    pub owner : active_user s.user_id users ≡ some u

  or_row-cases :
      (b : Bool) (x s : UserSession) (owner : Option AppUser) (u : AppUser)
      (rest : Option (UserSession × AppUser))
      → (if b then or_row x owner rest else rest) ≡ some (s, u)
      → ((b ≡ true) × (owner ≡ some u) × (x ≡ s)) ⊎ (rest ≡ some (s, u))
  unfolding or_row
  or_row-cases true x s (some v) u rest e = inl (refl, cc, cc)
  or_row-cases true x s none u rest e = inr e
  or_row-cases false x s owner u rest e = inr e

  IsFound-IsFound :
      (P : UserSession → Type 0) (now : ℕ) (hash : Text) (users : List AppUser)
      (sessions : List UserSession) (s : UserSession) (u : AppUser)
      → All P sessions
      → get_active_session now hash users sessions ≡ some (s, u)
      → IsFound P now hash users s u
  unfolding get_active_session
  IsFound-IsFound P now hash users [] s u h e = absurd (none-some _ e)
  IsFound-IsFound P now hash users (x ∷ sessions) s u h e =
      elim (or_row-cases (is_open_session now hash x) x s (active_user x.user_id users) u _ e) [
        | inl (opens, owner, same) ↦
            subst (λ (y : UserSession). IsFound P now hash users y u) same
              (record { holds = h.0; is_open = opens; owner = owner })
        | inr rest ↦ IsFound-IsFound P now hash users sessions s u h.1 rest
      ]

  -- A token that is accepted, as the principal says, is that of an open session of an active user.
  pub record IsAccepted (P : UserSession → Type 0) (now : ℕ) (token : Text) (p : Principal)
      (db : AuthDatabase) : Type 0 where
    pub hash : Text
    pub session : UserSession
    pub user : AppUser
    pub presented : hash_presented_token c token ≡ some hash
    pub found : IsFound P now hash db.users session user
    pub session_is : p.principal_session ≡ session.id
    pub user_is : p.principal_user ≡ session.user_id

  touched-ok :
      (now : ℕ) (db after : AuthDatabase) (p : Principal) (found : Option (UserSession × AppUser))
      → touched c config now db found ≡ (ok p, after)
      → (s : UserSession) × (u : AppUser) × (found ≡ some (s, u))
        × (p.principal_session ≡ s.id)
        × (p.principal_user ≡ s.user_id)
  unfolding touched
  touched-ok now db after p none e = absurd (err-ok _ _ (ap (λ (x : Answer Principal). x.0) e))
  touched-ok now db after p (some (s, u)) e =
      let same = ok_inj _ p (ap (λ (x : Answer Principal). x.0) e) in
      (
        s,
        u,
        refl,
        ap (λ (x : Principal). x.principal_session) (sym same),
        ap (λ (x : Principal). x.principal_user) (sym same),
      )

  authenticated :
      (P : UserSession → Type 0) (now : ℕ) (token : Text) (db after : AuthDatabase) (p : Principal)
      (presented : Option Text)
      → All P db.sessions
      → hash_presented_token c token ≡ presented
      → authenticate_hash c config now db presented ≡ (ok p, after)
      → IsAccepted P now token p db
  unfolding authenticate_hash
  authenticated P now token db after p none h hashed e =
      absurd (err-ok _ _ (ap (λ (x : Answer Principal). x.0) e))
  authenticated P now token db after p (some hash) h hashed e =
      let (s, u, found, session_is, user_is) = touched-ok now db after p _ e in
      record {
        hash = hash;
        session = s;
        user = u;
        presented = hashed;
        found = IsFound-IsFound P now hash db.users db.sessions s u h found;
        session_is = session_is;
        user_is = user_is;
      }

  pub authenticate-IsAccepted :
      (P : UserSession → Type 0) (now : ℕ) (token : Text) (db after : AuthDatabase) (p : Principal)
      → All P db.sessions
      → authenticate c config now token db ≡ (ok p, after)
      → IsAccepted P now token p db
  unfolding authenticate
  authenticate-IsAccepted P now token db after p h e =
      authenticated P now token db after p (hash_presented_token c token) h refl e

  pub open_times :
      (now : ℕ) (hash : Text) (s : UserSession)
      → is_open_session now hash s ≡ true
      → (is_null s.revoked_at ≡ true) × (now < s.expires_at) × (now < s.idle_expires_at)
  unfolding is_open_session
  open_times now hash s e = (ground arith, ground arith, ground arith)

  -- After any calls, a token is accepted only as that of a session of an active user that is not
  -- revoked, that was made less than an absolute timeout ago, and whose last use that was recorded is
  -- less than an idle timeout ago, if no session ended later than these timeouts before the calls.
  pub authenticate-IsInTime :
      (calls : Calls) (start after : AuthDatabase) (now : ℕ) (token : Text) (p : Principal)
      → All IsLasting start.sessions
      → authenticate c config now token (run c config calls start) ≡ (ok p, after)
      → (a : IsAccepted IsLasting now token p (run c config calls start)) × (now
          < a.session.created_at + config.absolute_timeout)
        × (now < a.session.last_seen_at + config.idle_timeout)
  authenticate-IsInTime calls start after now token p lasting e =
      let a =
        authenticate-IsAccepted IsLasting now token (run c config calls start) after p
          (run-Q c config (λ fresh. Unit {0}) (λ fresh. Unit {0}) (λ db. All IsLasting db.sessions)
            IsLasting-IsClosed calls start (any_fresh calls) lasting)
          e in
      let (unrevoked, before, before_idle) = open_times now a.hash a.session a.found.is_open in
      let held = a.found.holds in
      (a, subst (λ (t : ℕ). now < t) held.ends before, omega (arith, held.ends_idle, before_idle))
