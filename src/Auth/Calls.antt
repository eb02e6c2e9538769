-- ===== src/Auth/Calls.antt =====
-- services/auth-service/internal/auth: calls of the service, one after the other. A principal is any,
-- whether or not it comes from Authenticate.
pub mod Kept
use ygate_git.Base.{ℕ, ◌≤◌, List, [], ◌∷◌, Option}
use ygate_git.Base.Text.{Text}
use ygate_git.Auth.Tables.{AuthDatabase}
use ygate_git.Auth.Security.{Crypto}
use ygate_git.Auth.Login.{
  AuthConfig, LoginInput, FreshSession, Principal, login, authenticate, logout, logout_all,
  change_password, revoke_own_session, clear_own_sessions,
}
use ygate_git.Auth.Recovery.{FreshToken, request_password_reset, reset_password}
use ygate_git.Auth.Registration.{register, verify_email, resend_verification}

pub data Call : Type 0 where
  logs_in : FreshSession → LoginInput → Call
  authenticates : Text → Call
  logs_out : Principal → Call
  logs_out_all : Principal → Call
  changes_password : Text → Principal → Text → Text → Call
  revokes : Principal → ℕ → Call
  clears : Principal → Text → Call
  requests_reset : FreshToken → Text → Option Text → Call
  resets_password : Text → Text → Text → Option Text → Call
  registers : ℕ → Text → FreshToken → Text → Text → Text → Text → Option Text → Call
  verifies : Text → Call
  resends : FreshToken → Text → Option Text → Call

-- Calls with their times, the latest first.
abbrev pub Calls : Type 0
Calls = List (ℕ × Call)

module _ (c : Crypto) (config : AuthConfig) where
  unfoldable pub apply : ℕ → Call → AuthDatabase → AuthDatabase
  unfolding login authenticate logout logout_all change_password revoke_own_session
      clear_own_sessions request_password_reset reset_password register verify_email
      resend_verification
  apply now (logs_in fresh input) db = (login c config now fresh input db).1
  apply now (authenticates token) db = (authenticate c config now token db).1
  apply now (logs_out p) db = (logout c config now p db).1
  apply now (logs_out_all p) db = (logout_all c config now p db).1
  apply now (changes_password salt p current new) db =
      (change_password c config now salt p current new db).1
  apply now (revokes p id) db = (revoke_own_session c config now p id db).1
  apply now (clears p confirmation) db = (clear_own_sessions c config p confirmation db).1
  apply now (requests_reset fresh email ip) db =
      (request_password_reset c config now fresh email ip db).1
  apply now (resets_password salt token new ip) db =
      (reset_password c config now salt token new ip db).1
  apply now (registers id salt fresh email username name password ip) db =
      (register c config now id salt fresh email username name password ip db).1
  apply now (verifies token) db = (verify_email c config now token db).1
  apply now (resends fresh identifier ip) db =
      (resend_verification c config now fresh identifier ip db).1

  unfoldable pub run : Calls → AuthDatabase → AuthDatabase
  unfolding apply
  run [] db = db
  run (call ∷ calls) db = apply call.0 call.1 (run calls db)

-- The time of the last call, after a start.
unfoldable pub last_time : ℕ → Calls → ℕ
last_time start [] = start
last_time start (call ∷ calls) = call.0

abbrev pub AreInOrder : ℕ → Calls → Type 0
AreInOrder start [] = Unit
AreInOrder start (call ∷ calls) = (last_time start calls ≤ call.0) × AreInOrder start calls
