-- ===== src/Middleware/Profile/Address/Modes.antt =====
-- The canonical address modes.
use ygate_git.Base.{
  arith, Option, some, All, Bool-cases, inl, inr, ◌≡◌, refl, subst, true, ok, List, [], ◌∷◌,
}
use ygate_git.Base.Text.{Text, lit, to_upper, trim_space}
use ygate_git.Middleware.Profile.Address.{
  one_of, switch_case, mode_cases, or_unsupported, canonical_address_mode,
}

-- The seven names to which the code reduces an address mode.
abbrev pub modes : List Text
modes =
    lit "ZERO_BASED"
    ∷ lit "ONE_BASED"
    ∷ lit "FULL_NOTATION"
    ∷ lit "VENDOR_RAW"
    ∷ lit "SMA"
    ∷ lit "REGISTER_30001"
    ∷ lit "REGISTER_40001"
    ∷ []

-- A canonical name is its own canonical name.
abbrev IsCanonical : Text → Type 0
IsCanonical t = (one_of t modes ≡ true) × (canonical_address_mode t ≡ ok t)

some_inj : {s t : Text} → ◌≡◌ {A = Option Text} (some s) (some t) → s ≡ t
some_inj e = cc

-- What a `switch` returns satisfies what each of its cases returns.
pub switch_case-All :
    (P : Text → Type 0) (value t : Text) (cases : List (List Text × Text))
    → All (λ c. P c.1) cases
    → switch_case value cases ≡ some t
    → P t
unfolding switch_case
switch_case-All P value t [] h e = absurd (cc)
switch_case-All P value t ((names, result) ∷ cases) h e = elim (Bool-cases (one_of value names)) [
  | inl yes_case ↦ subst P (some_inj (rw yes_case at e)) h.0
  | inr no_case ↦ switch_case-All P value t cases h.1 (rw no_case at e)
]

modes-IsCanonical : All (λ c. IsCanonical c.1) mode_cases
unfolding canonical_address_mode
modes-IsCanonical = (
  (refl, refl),
  (
    (refl, refl),
    ((refl, refl), ((refl, refl), ((refl, refl), ((refl, refl), ((refl, refl), tt))))),
  ),
)

or_unsupported-eq-ok : (o : Option Text) (t : Text) → or_unsupported o ≡ ok t → o ≡ some t
unfolding or_unsupported
or_unsupported-eq-ok o t h = ground arith

-- Every accepted address mode is reduced to one of the seven names, and that name is accepted
-- again and stays as it is.
pub canonical_address_mode-canonical :
    (m t : Text)
    → canonical_address_mode m ≡ ok t
    → (one_of t modes ≡ true) × (canonical_address_mode t ≡ ok t)
unfolding canonical_address_mode
canonical_address_mode-canonical m t h =
    switch_case-All IsCanonical (to_upper (trim_space m)) t mode_cases modes-IsCanonical
      (or_unsupported-eq-ok _ t h)
