-- ===== src/Auth/Granted/Accepted.antt =====
-- The token of a login is accepted.
use ygate_git.Base.{
  ℕ, ◌+◌, ◌<◌, ◌≡◌, refl, ◌⊎◌, inl, inr, ◌∙◌, ap, sym, subst, Bool, true, ◌&&◌, if◌then◌else◌,
  Option, none, some, List, [], ◌∷◌, map, find, length, ◌==◌, ==_refl, Bool-cases, ok, arith,
  else_branch, then_branch,
}
use ygate_git.Base.Text.{Text, text_eq_iff, text_eq_refl}
use ygate_git.Auth.Tables.{
  AppUser, UserSession, AuthDatabase, is_named, record_auth_attempt, is_active, is_open_session,
  get_login_user, active_user, get_active_session, or_row, is_null, record_login_success,
  update_user,
}
use ygate_git.Auth.Security.{Crypto, new_token, hash_decoded, hash_presented_token}
use ygate_git.Auth.Login.{
  AuthError, AuthConfig, FreshSession, LoginInput, LoginResult, Principal, classify_login_status,
  classify_status, new_session, record_success, login, touched, authenticate, authenticate_hash,
}
use ygate_git.Auth.Rows.{none-some}
use ygate_git.Auth.Granted.{standing_lem, identifier, MayLogIn, login_succeeds}

some_inj : (x y : AppUser) → ◌≡◌ {A = Option AppUser} (some x) (some y) → x ≡ y
some_inj x y h = cc

some-none : (e : AuthError) → ◌≡◌ {A = Option AuthError} (some e) none → ⊥
some-none e h = cc

standing-is_active :
    (u : AppUser) → classify_login_status u.status u.email_verified_at ≡ none → is_active u ≡ true
unfolding is_active classify_login_status classify_status
standing-is_active u h =
    let (t, verified, active) = standing_lem u.status u.email_verified_at h in
    (text_eq_iff u.status _).1 active

find-here :
    (p : AppUser → Bool) (y : AppUser) (ys : List AppUser)
    → p y ≡ true
    → (v : AppUser) × (find p (y ∷ ys) ≡ some v)
unfolding find
find-here p y ys h = (y, rw h refl)

find-there :
    (p : AppUser → Bool) (y : AppUser) (ys : List AppUser)
    → (v : AppUser) × (find p ys ≡ some v)
    → (v : AppUser) × (find p (y ∷ ys) ≡ some v)
unfolding find
find-there p y ys (v, h) = elim (Bool-cases (p y)) [
  | inl here ↦ (y, rw here refl)
  | inr away ↦ (v, rw (away, h) refl)
]

find-named :
    (p : AppUser → Bool) (x u : AppUser) (rest : Option AppUser)
    → (if p x then some x else rest) ≡ some u
    → (x ≡ u) ⊎ (rest ≡ some u)
find-named p x u rest h = elim (Bool-cases (p x)) [
  | inl here ↦ inl (some_inj x u (then_branch _ _ _ here h))
  | inr away ↦ inr (else_branch _ _ _ away h)
]

active_same :
    (u v : AppUser)
    → v.id ≡ u.id
    → v.status ≡ u.status
    → is_active u ≡ true
    → (v.id == u.id && is_active v) ≡ true
unfolding is_active
active_same u v same status active = rw (same, status, active, ==_refl u.id) refl

find-active :
    (name : Text) (u : AppUser) (change : AppUser → AppUser)
    → ((x : AppUser) → ((change x).id ≡ x.id) × ((change x).status ≡ x.status))
    → is_active u ≡ true
    → (users : List AppUser) → get_login_user name users ≡ some u
    → (v : AppUser) × (active_user u.id
          (map (λ (x : AppUser). if x.id == u.id then change x else x) users)
        ≡ some v)
unfolding get_login_user active_user find is_active
find-active name u change keeps active [] found = absurd (none-some u found)
find-active name u change keeps active (x ∷ users) found =
    elim (find-named (is_named name) x u _ found) [
      | inl here ↦
          find-here (λ (y : AppUser). y.id == u.id && is_active y)
            (if x.id == u.id then change x else x)
            (map (λ (y : AppUser). if y.id == u.id then change y else y) users)
            (subst
              (λ (y : AppUser).
                ((if y.id == u.id then change y else y).id == u.id
                  && is_active (if y.id == u.id then change y else y))
                ≡ true)
              (sym here)
              (rw (==_refl u.id) (active_same u (change u) (keeps u).0 (keeps u).1 active)))
      | inr there ↦
          find-there (λ (y : AppUser). y.id == u.id && is_active y)
            (if x.id == u.id then change x else x)
            (map (λ (y : AppUser). if y.id == u.id then change y else y) users)
            (find-active name u change keeps active users there)
    ]

module _ (c : Crypto) (config : AuthConfig) (now : ℕ) (fresh : FreshSession) (input : LoginInput)
    (db : AuthDatabase) where
  abbrev done : MayLogIn c config now fresh input db → AuthDatabase
  done m = (record_success c config now fresh input m.user db).1

  abbrev made : MayLogIn c config now fresh input db → UserSession
  made m = new_session c config now fresh input m.user

  made_open :
      (m : MayLogIn c config now fresh input db) (later : ℕ)
      → later < now + config.idle_timeout
      → later < now + config.absolute_timeout
      → is_open_session later (c.sha256 fresh.token_bytes) (made m) ≡ true
  unfolding is_open_session new_session new_token is_null
  made_open m later idle absolute = rw (text_eq_refl (c.sha256 fresh.token_bytes)) (ground arith)

  made_user : (m : MayLogIn c config now fresh input db) → (made m).user_id ≡ m.user.id
  unfolding new_session
  made_user m = refl

  head-session :
      (m : MayLogIn c config now fresh input db) (later : ℕ)
      → later < now + config.idle_timeout
      → later < now + config.absolute_timeout
      → (v : AppUser) × (get_active_session later
            (c.sha256 fresh.token_bytes)
            (done m).users
            (done m).sessions
          ≡ some (made m, v))
  unfolding record_success record_login_success update_user record_auth_attempt get_active_session
      or_row
  head-session m later idle absolute =
      let (v, owner) =
        find-active (identifier c config now fresh input db) m.user
          (λ (u : AppUser). record u { failed_login_count = 0; locked_until = none })
          (λ u. (refl, refl)) (standing-is_active m.user m.standing) db.users m.found in
      (v, rw (made_open m later idle absolute, made_user m, owner) refl)

  hash_full : (raw : Text) → length raw ≡ 32 → hash_decoded c (some raw) ≡ some (c.sha256 raw)
  unfolding hash_decoded
  hash_full raw size = rw size refl

  own_token :
      (raw : Text)
      → c.decode (c.encode raw) ≡ some raw
      → length raw ≡ 32
      → hash_presented_token c (new_token c raw).0 ≡ some (c.sha256 raw)
  unfolding hash_presented_token new_token
  own_token raw decoded size = ap (hash_decoded c) decoded ∙ hash_full raw size

  authenticate-found :
      (later : ℕ) (token hash : Text) (d : AuthDatabase) (s : UserSession) (v : AppUser)
      → hash_presented_token c token ≡ some hash
      → get_active_session later hash d.users d.sessions ≡ some (s, v)
      → authenticate c config later token d ≡ touched c config later d (some (s, v))
  unfolding authenticate authenticate_hash
  authenticate-found later token hash d s v hashed found = rw (hashed, found) refl

  -- A login that may succeed gives a token that is accepted, as that of its user and of the new session,
  -- at any time before the two timeouts, if base64 decodes the 32 bytes that it encoded.
  pub authenticate-login :
      (m : MayLogIn c config now fresh input db) (later : ℕ)
      → c.decode (c.encode fresh.token_bytes) ≡ some fresh.token_bytes
      → length fresh.token_bytes ≡ 32
      → later < now + config.idle_timeout
      → later < now + config.absolute_timeout
      → (r : LoginResult) × (after : AuthDatabase) × (q : Principal) × (touched_ : AuthDatabase)
        × (login c config now fresh input db ≡ (ok r, after))
        × (authenticate c config later r.token after ≡ (ok q, touched_))
        × (q.principal_user ≡ m.user.id)
        × (q.principal_session ≡ fresh.session_id)
  unfolding record_success touched new_session
  authenticate-login m later decoded size idle absolute =
      let (v, found) = head-session m later idle absolute in
      (
        _,
        _,
        _,
        _,
        login_succeeds c config now fresh input db m,
        authenticate-found later (new_token c fresh.token_bytes).0 (c.sha256 fresh.token_bytes)
            (done m) (made m) v (own_token fresh.token_bytes decoded size) found,
        refl,
        refl,
      )
