-- ===== src/Base/Results.antt =====
-- A Go result `(value, error)`: a value, or the error with which the function returned.
use mathlib.Core.Path.{◌≡◌, refl}
use mathlib.Core.Bool.{Bool, true, false}

pub data Result {ℓ κ} (E : Type ℓ) (A : Type κ) : Type (ℓ ⊔ κ) where
  err : E → Result E A
  ok : A → Result E A

-- `if !test { return reason }`
abbrev pub guard {ℓ} : {E : Type ℓ} → Bool → E → Result E (Unit {0})
guard false reason = err reason
guard true reason = ok tt

module _ {ℓ κ μ} {E : Type ℓ} {A : Type κ} {B : Type μ} where
  infixl 5 ◌>>=◌
  abbrev pub ◌>>=◌ : Result E A → (A → Result E B) → Result E B
  err reason >>= next = err reason
  ok value >>= next = next value

  pub >>=-eq-ok :
      (first : Result E A) (next : A → Result E B) {out : B}
      → (first >>= next) ≡ ok out
      → (value : A) × (first ≡ ok value) × (next value ≡ ok out)
  >>=-eq-ok (err reason) next returned = cc
  >>=-eq-ok (ok value) next returned = (value, refl, returned)

module _ {ℓ κ} {E : Type ℓ} {B : Type κ} where
  infixl 5 ◌>>◌
  abbrev pub ◌>>◌ : Result E (Unit {0}) → Result E B → Result E B
  before >> after = before >>= λ done. after

  pub guard-eq-ok :
      (test : Bool) (reason : E) (rest : Result E B) {out : B}
      → (guard test reason >> rest) ≡ ok out
      → (test ≡ true) × (rest ≡ ok out)
  guard-eq-ok false reason rest returned = absurd (cc)
  guard-eq-ok true reason rest returned = (refl, returned)

  pub ok_inj : (a b : B) → ◌≡◌ {A = Result E B} (ok a) (ok b) → a ≡ b
  ok_inj a b same = cc
