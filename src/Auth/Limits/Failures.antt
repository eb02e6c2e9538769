-- ===== src/Auth/Limits/Failures.antt =====
-- The rows that failed logins leave, and how many of them a limit counts.
use ygate_git.Base.{
  ◌∙◌, if◌then◌else◌, ◌++◌, ℕ, ◌+◌, ◌≤◌, ◌<◌, ◌≡◌, refl, inl, inr, ap, sym, subst, Bool, true,
  false, not, ◌&&◌, ◌||◌, Option, none, some, List, [], ◌∷◌, keep, length, leb, Bool-cases, arith,
}
use ygate_git.Base.Text.{Text, text_eq, text_eq_iff, to_lower, trim_space}
use ygate_git.Auth.Tables.{
  AppUser, AuthAttempt, AuthDatabase, window, same_text, record_auth_attempt, record_login_failure,
  record_login_success, update_user,
}
use ygate_git.Auth.Security.{Crypto}
use ygate_git.Auth.Login.{
  AuthConfig, LoginResult, LoginInput, FreshSession, login_as, record_failure, record_success,
  is_locked, AuthError, login_checked,
}

-- A failure that is recent and passes a test.
unfoldable pub is_failure : ℕ → (AuthAttempt → Bool) → AuthAttempt → Bool
is_failure now test a = not a.success && (leb now (a.created_at + window) && test a)

abbrev pub has_identifier : Text → AuthAttempt → Bool
has_identifier id a = text_eq a.identifier id

abbrev pub has_address : Text → AuthAttempt → Bool
has_address ip a = same_text a.source_ip (some ip)

pub failure_later :
    (now later : ℕ) (test : AuthAttempt → Bool)
    → now ≤ later
    → (a : AuthAttempt) → is_failure later test a ≡ true
    → is_failure now test a ≡ true
unfolding is_failure
failure_later now later test le a h = ground arith

pub or_left : (a b : Bool) → a ≡ true → (a || b) ≡ true
or_left a b h = ground arith

pub or_right : (a b : Bool) → b ≡ true → (a || b) ≡ true
or_right a b h = ground arith

pub below_limit : (m n : ℕ) → leb 10 n ≡ false → m ≤ n → m < 10
below_limit m n few le = ground arith

pub and_weaken :
    (p q r t : Bool) → (r ≡ true → t ≡ true) → (p && (q && r)) ≡ true → (p && (q && t)) ≡ true
and_weaken p q true t h e = rw (h refl) e
and_weaken p q false t h e = absurd (ground arith)

pub same_text-some : (a : Option Text) (b : Text) → same_text a (some b) ≡ true → a ≡ some b
unfolding same_text
same_text-some none b h = absurd (cc)
same_text-some (some a) b h = ap (λ (t : Text). some t) ((text_eq_iff a b).0 h)

pub length-keep_all : {A : Type 0} (p : A → Bool) (xs : List A) → length (keep p xs) ≤ length xs
unfolding keep
length-keep_all p [] = omega arith
length-keep_all p (x ∷ xs) = elim (Bool-cases (p x)) [
  | inl here ↦ rw here (omega (arith, length-keep_all p xs))
  | inr away ↦ rw away (omega (arith, length-keep_all p xs))
]

-- 1 for an item that passes a test.
abbrev pub one_if : Bool → ℕ
one_if b = if b then 1 else 0

pub length-keep_cons :
    {A : Type 0} (p : A → Bool) (x : A) (xs : List A)
    → length (keep p (x ∷ xs)) ≡ one_if (p x) + length (keep p xs)
unfolding keep
length-keep_cons p x xs = elim (Bool-cases (p x)) [
  | inl here ↦ rw here (omega arith)
  | inr away ↦ rw away (omega arith)
]

pub length-keep_middle :
    {A : Type 0} (p : A → Bool) (xs : List A) (y : A) (ys : List A)
    → length (keep p (xs ++ y ∷ ys)) ≡ one_if (p y) + length (keep p (xs ++ ys))
length-keep_middle p [] y ys = length-keep_cons p y ys
length-keep_middle p (x ∷ xs) y ys = omega (
  arith,
  length-keep_cons p x (xs ++ y ∷ ys),
  length-keep_cons p x (xs ++ ys),
  length-keep_middle p xs y ys,
)

-- The name that Login counts and records.
abbrev pub name_of : LoginInput → Text
name_of input = to_lower (trim_space input.identifier)

-- A test of attempts, and of the logins whose failure it will count: a name or an address.
pub record Key : Type 0 where
  pub of_attempt : AuthAttempt → Bool
  pub of_input : LoginInput → Bool
  pub recorded :
      (a : AuthAttempt) (input : LoginInput)
      → a.identifier ≡ to_lower (name_of input)
      → a.source_ip ≡ input.source_ip
      → of_attempt a ≡ of_input input
  pub counted :
      (a : AuthAttempt) (input : LoginInput)
      → of_input input ≡ true
      → of_attempt a ≡ true
      → (text_eq a.identifier (to_lower (name_of input)) || same_text a.source_ip input.source_ip)
        ≡ true

abbrev pub by_name : Text → Key
by_name id = record {
  of_attempt = has_identifier id;
  of_input = λ input. text_eq (to_lower (name_of input)) id;
  recorded = λ a input same ip. ap (λ (t : Text). text_eq t id) same;
  counted = λ a input here there.
      or_left _ _ (
        subst (λ (t : Text). text_eq a.identifier t ≡ true) (sym ((text_eq_iff _ id).0 here))
          there);
}

abbrev pub by_address : Text → Key
by_address ip = record {
  of_attempt = has_address ip;
  of_input = λ input. same_text input.source_ip (some ip);
  recorded = λ a input name same. ap (λ (t : Option Text). same_text t (some ip)) same;
  counted = λ a input here there. or_right _ _ (
      subst (λ (t : Option Text). same_text a.source_ip t ≡ true) (sym (same_text-some _ ip here))
        there);
}

abbrev pub failures : Key → ℕ → List AuthAttempt → ℕ
failures key now attempts = length (keep (is_failure now key.of_attempt) attempts)

abbrev pub waiting : Key → List LoginInput → ℕ
waiting key pending = length (keep key.of_input pending)

module _ (key : Key) (now : ℕ) (input : LoginInput) (db : AuthDatabase) where
  failures-failed :
      (a : AuthAttempt)
      → a.identifier ≡ to_lower (name_of input)
      → a.source_ip ≡ input.source_ip
      → failures key now (a ∷ db.attempts)
        ≤ one_if (key.of_input input) + failures key now db.attempts
  unfolding is_failure
  failures-failed a name ip = elim (Bool-cases (is_failure now key.of_attempt a)) [
    | inl fails ↦
        let here : key.of_attempt a ≡ true = ground arith in
        let covered : key.of_input input ≡ true = sym (key.recorded a input name ip) ∙ here in
        rw covered (
          omega (
            arith,
            length-keep_cons (is_failure now key.of_attempt) a db.attempts,
            ap one_if fails,
          ))
    | inr holds ↦
        omega
          (arith, length-keep_cons (is_failure now key.of_attempt) a db.attempts, ap one_if holds)
  ]

  failures-succeeded :
      (a : AuthAttempt)
      → a.success ≡ true
      → failures key now (a ∷ db.attempts)
        ≤ one_if (key.of_input input) + failures key now db.attempts
  unfolding is_failure
  failures-succeeded a done =
      let holds : is_failure now key.of_attempt a ≡ false = rw done refl in
      omega (arith, length-keep_cons (is_failure now key.of_attempt) a db.attempts, ap one_if holds)

  failures-record_failure :
      (A : Type 0) (user : Option AppUser) (increment : Bool)
      → failures key now
          (record_failure {A = A} now user (name_of input) input.source_ip increment db).1.attempts
        ≤ one_if (key.of_input input) + failures key now db.attempts
  unfolding record_failure record_auth_attempt record_login_failure update_user
  failures-record_failure A (some u) true = failures-failed _ refl refl
  failures-record_failure A (some u) false = failures-failed _ refl refl
  failures-record_failure A none increment = failures-failed _ refl refl

  failures-login_checked :
      (c : Crypto) (config : AuthConfig) (fresh : FreshSession) (u : AppUser) (e : Option AuthError)
      → failures key now (login_checked c config now fresh input u db e).1.attempts
        ≤ one_if (key.of_input input) + failures key now db.attempts
  unfolding login_checked record_success record_auth_attempt record_login_success update_user
  failures-login_checked c config fresh u (some e) = omega arith
  failures-login_checked c config fresh u none = failures-succeeded _ refl

  -- A login that ends adds at most one failure, and that is one of its name and its address.
  pub failures-login_as :
      (c : Crypto) (config : AuthConfig) (fresh : FreshSession) (user : Option AppUser)
      → failures key now (login_as c config now fresh input (name_of input) db user).1.attempts
        ≤ one_if (key.of_input input) + failures key now db.attempts
  unfolding login_as
  failures-login_as c config fresh none = failures-record_failure LoginResult none false
  failures-login_as c config fresh (some u) = elim (Bool-cases (is_locked now u)) [
    | inl locked ↦ rw locked (failures-record_failure LoginResult (some u) false)
    | inr unlocked ↦ elim (Bool-cases (c.compare_hash u.password_hash input.password)) [
      | inl right ↦ rw (unlocked, right) (failures-login_checked c config fresh u _)
      | inr wrong ↦ rw (unlocked, wrong) (failures-record_failure LoginResult (some u) true)
    ]
  ]
