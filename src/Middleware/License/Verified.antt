-- ===== src/Middleware/License/Verified.antt =====
-- What an accepted licence is.
use ygate_git.Base.{
  ◌≡◌, ap, ◌⊎◌, inl, inr, Bool, true, false, Bool-cases, Option, none, some, Result, ok, guard,
  >>=-eq-ok, ok_inj, else_branch, arith,
}
use ygate_git.Base.Int.{ℤ, ◌<ℤ◌, ltb_ℤ}
use ygate_git.Base.Text.{Text, is_empty}
use ygate_git.Middleware.License.{
  Activation, LicenseStatus, LicenseError, bad_expiry, expired, Crypto, or_error, check_expiry,
}

no_guard :
    (b : Bool) {done : Unit {0}}
    → b ≡ false
    → ◌≡◌ {A = Result LicenseError (Unit {0})} (guard b expired) (ok done)
    → ⊥
no_guard true h e = cc
no_guard false h e = cc

module _ (c : Crypto) where
  or_error-eq-ok :
      {A : Type 0} (e : LicenseError) (o : Option A) (a : A) → or_error e o ≡ ok a → o ≡ some a
  or_error-eq-ok e none a h = absurd (cc)
  or_error-eq-ok e (some b) a h = ap some (ok_inj b a h)

  in_time :
      (now t : ℤ) {done : Unit {0}}
      → ◌≡◌ {A = Result LicenseError (Unit {0})} (guard (ltb_ℤ now t) expired) (ok done)
      → now <ℤ t
  in_time now t e = elim (Bool-cases (ltb_ℤ now t)) [
    | inl before ↦ ground arith
    | inr after ↦ absurd (no_guard (ltb_ℤ now t) after e)
  ]

  check_expiry-holds :
      (expires_at : Text) (now : ℤ) (done : Unit {0})
      → check_expiry c expires_at now ≡ ok done
      → (is_empty expires_at ≡ true) ⊎ ((t : ℤ) × (c.parse_time expires_at ≡ some t) × (now <ℤ t))
  unfolding check_expiry
  check_expiry-holds expires_at now done e = elim (Bool-cases (is_empty expires_at)) [
    | inl never ↦ inl never
    | inr sometime ↦
        let (t, parsed, before) =
          >>=-eq-ok (or_error bad_expiry (c.parse_time expires_at)) _
            (else_branch (is_empty expires_at) _ _ sometime e) in
        inr (t, or_error-eq-ok bad_expiry (c.parse_time expires_at) t parsed, in_time now t before)
  ]

  -- Decoding the file's JSON reads back what was encoded.
  abbrev ReadsBack : Activation → Type 0
  ReadsBack a = c.parse_activation (c.print_activation a) ≡ some a

  abbrev Activated : Type 0
  Activated = Result LicenseError LicenseStatus × Option Text
