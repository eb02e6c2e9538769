-- ===== src/Auth/Lifetime/Logout.antt =====
-- A session that was signed out is not accepted again.
use ygate_git.Base.{ℕ, ◌≡◌, ◌≢◌, ◌∙◌, sym, false, All, ◌==◌, ok, arith}
use ygate_git.Base.Text.{Text}
use ygate_git.Auth.Tables.{
  UserSession, AuthDatabase, is_null, update_sessions, revoke, revoke_session,
}
use ygate_git.Auth.Security.{Crypto}
use ygate_git.Auth.Login.{AuthConfig, FreshSession, Principal, new_session, authenticate, logout}
use ygate_git.Auth.Rows.{or_now-is_null, All-updated}
use ygate_git.Auth.Calls.{Calls, run}
use ygate_git.Auth.Calls.Kept.{IsClosed, AreFresh, run-Q}
use ygate_git.Auth.Lifetime.{sessions-IsClosed, authenticate-IsAccepted, open_times}

module _ (c : Crypto) (config : AuthConfig) where
  -- A session that is over, if it has an id.
  abbrev pub IsOver : ℕ → UserSession → Type 0
  IsOver id s = s.id ≡ id → is_null s.revoked_at ≡ false

  IsOver-IsClosed :
      (id now : ℕ)
      → IsClosed c config
          (λ (fresh : FreshSession). fresh.session_id ≢ id)
          (λ fresh. Unit {0})
          now
          (λ db. All (IsOver id) db.sessions)
  unfolding new_session revoke
  IsOver-IsClosed id now =
      sessions-IsClosed c config (λ (fresh : FreshSession). fresh.session_id ≢ id) now (IsOver id)
        (λ fresh input u new same. absurd (new same)) (λ s h same. h same)
        (λ s h same. or_now-is_null now s.revoked_at)

  logout-IsOver :
      (now : ℕ) (p : Principal) (db : AuthDatabase)
      → All (IsOver p.principal_session) (logout c config now p db).1.sessions
  unfolding logout revoke_session update_sessions revoke
  logout-IsOver now p db =
      All-updated (IsOver p.principal_session) (λ (s : UserSession). s.id == p.principal_session)
        (revoke now) (λ s here same. or_now-is_null now s.revoked_at) (λ s away same. ground arith)
        db.sessions

  -- After a logout, no token is accepted as the session of its principal, whatever is called in
  -- between, if no login gives out the id of the session again.
  pub logout-forever :
      (calls : Calls) (before after : AuthDatabase) (now later : ℕ) (token : Text) (p q : Principal)
      → AreFresh c config
          (λ (fresh : FreshSession). fresh.session_id ≢ p.principal_session)
          (λ fresh. Unit {0})
          calls
      → authenticate c config later token (run c config calls (logout c config now p before).1)
        ≡ (ok q, after)
      → q.principal_session ≢ p.principal_session
  logout-forever calls before after now later token p q fresh e same =
      let over =
        run-Q c config (λ (f : FreshSession). f.session_id ≢ p.principal_session) (λ f. Unit {0})
          (λ db. All (IsOver p.principal_session) db.sessions) (IsOver-IsClosed p.principal_session)
          calls (logout c config now p before).1 fresh (logout-IsOver now p before) in
      let a =
        authenticate-IsAccepted c config (IsOver p.principal_session) later token _ after q over
          e in
      let (unrevoked, t1, t2) = open_times c config later a.hash a.session a.found.is_open in
      let revoked = a.found.holds (sym a.session_is ∙ same) in cc
