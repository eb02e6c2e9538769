-- ===== src/Auth/Tests.antt =====
-- Inputs on which the theorems on the authentication are tried: one user, passwords that are their own
-- hashes, and tokens that are their own base64 and SHA-256.
use ygate_git.Base.{
  ℕ, ◌+◌, ◌≤◌, ◌<◌, ◌≡◌, refl, ◌≢◌, ◌↔◌, Bool, true, false, Option, none, some, List, [], ◌∷◌, All,
  Result, ok, err, arith,
}
use ygate_git.Base.Text.{Text, lit, text_eq, text_eq_iff, to_lower, trim_space}
use ygate_git.Auth.Tables.{AppUser, UserSession, OnceToken, AuthDatabase, is_null}
use ygate_git.Auth.Security.{Crypto, hash_presented_token}
use ygate_git.Auth.Login.{
  Answer, AuthConfig, LoginInput, FreshSession, LoginResult, Principal, login, login_as,
  authenticate, logout,
}
use ygate_git.Auth.Recovery.{reset_password}
use ygate_git.Auth.Calls.{Calls, logs_in, requests_reset, run}
use ygate_git.Auth.Lifetime.{IsLasting, IsAccepted, authenticate-IsInTime}
use ygate_git.Auth.Lifetime.Logout.{logout-forever}
use ygate_git.Auth.Limits.{Logins}
use ygate_git.Auth.Limits.Failures.{name_of}
use ygate_git.Auth.Granted.{MayLogIn, IsEntitled, SignedIn, login_iff}
use ygate_git.Auth.Granted.Accepted.{authenticate-login}
use ygate_git.Auth.Resets.Done.{IsReset, reset_password-IsReset}
use ygate_git.Auth.Resets.Once.{reset_password-once}

abbrev toy : Crypto
toy = record {
  bcrypt = λ salt password. password;
  compare_hash = text_eq;
  sha256 = λ s. s;
  encode = λ s. s;
  decode = λ s. some s;
  parse_address = λ s. some s;
}

abbrev config : AuthConfig
config = record {
  idle_timeout = 1800000000;
  absolute_timeout = 36000000000;
  reset_ttl = 1800000000;
  notifies_reset = true;
  notifies_verification = true;
}

abbrev alice : AppUser
alice = record {
  id = 1;
  organization_id = some 2;
  email = lit "a@b.c";
  username = some (lit "alice");
  display_name = lit "Alice";
  password_hash = lit "correct horse";
  status = lit "ACTIVE";
  email_verified_at = some 5;
  failed_login_count = 0;
  locked_until = none;
}

abbrev one_user : AuthDatabase
one_user = record {
  users = alice ∷ [];
  sessions = [];
  attempts = [];
  recoveries = [];
  resets = [];
  verifications = [];
}

abbrev first_bytes : Text
first_bytes = lit "0123456789abcdef0123456789abcdef"

abbrev other_bytes : Text
other_bytes = lit "fedcba9876543210fedcba9876543210"

abbrev first_session : FreshSession
first_session = record { session_id = 7; token_bytes = first_bytes; csrf_bytes = other_bytes }

abbrev other_session : FreshSession
other_session = record { session_id = 8; token_bytes = other_bytes; csrf_bytes = first_bytes }

abbrev typed : Text → LoginInput
typed password = record {
  identifier = lit " Alice";
  password = password;
  user_agent = lit "curl";
  source_ip = some (lit "10.0.0.1");
}

abbrev right_input : LoginInput
right_input = typed (lit "correct horse")

abbrev one_login : Calls
one_login = (100, logs_in first_session right_input) ∷ []

abbrev signed_in : AuthDatabase
signed_in = run toy config one_login one_user

abbrev principal : ℕ → Text → Principal
principal session csrf = record {
  principal_session = session;
  principal_organization = some 2;
  principal_user = 1;
  principal_password = lit "correct horse";
  csrf_hash = csrf;
}

is_signed_in :
    authenticate toy config 200 first_bytes signed_in
    ≡ (ok (principal 7 other_bytes), (authenticate toy config 200 first_bytes signed_in).1)
unfolding authenticate run
is_signed_in = refl

authenticate-IsInTime_example :
    (a : IsAccepted toy config
      (IsLasting toy config)
      200
      first_bytes
      (principal 7 other_bytes)
      signed_in)
    × (200 < a.session.created_at + config.absolute_timeout)
    × (200 < a.session.last_seen_at + config.idle_timeout)
authenticate-IsInTime_example =
    authenticate-IsInTime toy config one_login one_user
      (authenticate toy config 200 first_bytes signed_in).1 200 first_bytes
      (principal 7 other_bytes) tt is_signed_in

abbrev login_after : Calls
login_after = (400, logs_in other_session right_input) ∷ []

abbrev signed_out : AuthDatabase
signed_out =
    run toy config login_after (logout toy config 300 (principal 7 other_bytes) signed_in).1

is_other :
    authenticate toy config 500 other_bytes signed_out
    ≡ (ok (principal 8 first_bytes), (authenticate toy config 500 other_bytes signed_out).1)
unfolding authenticate run logout
is_other = refl

logout-forever_example : (principal 8 first_bytes).principal_session ≢ 7
logout-forever_example =
    logout-forever toy config login_after signed_in
      (authenticate toy config 500 other_bytes signed_out).1 300 500 other_bytes
      (principal 7 other_bytes) (principal 8 first_bytes) (λ e. omega arith, tt) is_other

-- Two logins with the wrong password count before the first of them ends.
abbrev wrong_input : LoginInput
wrong_input = typed (lit "wrong")

abbrev two_at_once : Logins
two_at_once = record {
  clock = 100;
  db =
      (login_as toy config 100 first_session wrong_input (name_of wrong_input) one_user
        (some alice)).1;
  pending = wrong_input ∷ [];
}

login_iff_example :
    SignedIn toy config 100 first_session right_input one_user
      (login toy config 100 first_session right_input one_user)
    ↔ IsEntitled toy config 100 first_session right_input one_user
login_iff_example = login_iff toy config 100 first_session right_input one_user

alice_may : MayLogIn toy config 100 first_session right_input one_user
unfolding to_lower trim_space ygate_git.Auth.Tables.count_recent_failed_auth_attempts
    ygate_git.Auth.Tables.get_login_user ygate_git.Auth.Login.is_locked
    ygate_git.Auth.Login.classify_login_status
alice_may = record {
  user = alice;
  given = refl;
  few = refl;
  found = refl;
  unlocked = refl;
  right = refl;
  standing = refl;
}

authenticate-login_example :
    (r : LoginResult) × (after : AuthDatabase) × (q : Principal) × (touched_ : AuthDatabase)
    × (login toy config 100 first_session right_input one_user ≡ (ok r, after))
    × (authenticate toy config 200 r.token after ≡ (ok q, touched_))
    × (q.principal_user ≡ alice_may.user.id)
    × (q.principal_session ≡ 7)
authenticate-login_example =
    authenticate-login toy config 100 first_session right_input one_user alice_may 200 refl refl
      (omega arith) (omega arith)

abbrev first_reset : OnceToken
first_reset = record {
  id = 3;
  organization_id = some 2;
  user_id = 1;
  token_hash = first_bytes;
  expires_at = 1800000000;
  used_at = none;
  requested_ip = none;
}

abbrev one_reset : AuthDatabase
one_reset = record signed_in { resets = first_reset ∷ [] }

abbrev new_password : Text
new_password = lit "battery staple"

abbrev after_reset : AuthDatabase
after_reset = (reset_password toy config 600 [] first_bytes new_password none one_reset).1

is_reset :
    reset_password toy config 600 [] first_bytes new_password none one_reset ≡ (ok tt, after_reset)
unfolding reset_password run
is_reset = refl

reset_password-IsReset_example :
    IsReset toy config 600 [] new_password none one_reset first_bytes after_reset
reset_password-IsReset_example =
    reset_password-IsReset toy config 600 [] new_password none one_reset first_bytes after_reset
      is_reset

abbrev another_request : Calls
another_request =
    (700, requests_reset (record { token_id = 4; reset_bytes = other_bytes }) (lit "a@b.c") none)
    ∷ []

presented_bytes : hash_presented_token toy first_bytes ≡ some first_bytes
unfolding hash_presented_token
presented_bytes = refl

different_bytes : other_bytes ≢ first_bytes
unfolding text_eq
different_bytes e =
    let same : text_eq other_bytes first_bytes ≡ true = (text_eq_iff other_bytes first_bytes).1 e in
    absurd (cc)

reset_password-once_example :
    reset_password toy config 800 [] first_bytes new_password none
      (run toy config another_request after_reset)
    ≢ (ok tt, one_user)
reset_password-once_example =
    reset_password-once toy config another_request one_reset after_reset one_user 600 800 [] []
      new_password new_password first_bytes first_bytes none none 3 presented_bytes
      (λ same. refl, tt) (different_bytes, tt) is_reset
