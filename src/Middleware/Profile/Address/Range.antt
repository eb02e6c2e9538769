-- ===== src/Middleware/Profile/Address/Range.antt =====
-- What a resolved address satisfies.
use ygate_git.Base.{
  ℕ, ◌+◌, ◌≤◌, ◌≡◌, ◌⊎◌, Bool, true, false, not, ◌||◌, ok, arith, if◌then◌else◌, All, Bool-cases,
  inl, inr, subst, sym, List, [], ◌∷◌, >>=-eq-ok, guard-eq-ok,
}
use ygate_git.Base.Int.{ℤ, pos, ltb_ℤ, eqb_ℤ}
use ygate_git.Base.Text.{Text, lit, text_eq, text_eq_iff}
use ygate_git.Middleware.Domain.{RegisterDefinition}
use ygate_git.Middleware.Profile.Address.Modes.{modes, canonical_address_mode-canonical}
use ygate_git.Middleware.Profile.Address.{
  one_of, ResolvedAddress, shift, canonical_address_mode, check_range, resolve_modbus_address,
}

-- A request that a Modbus device can be sent: function code 3 or 4, 1 to 125 registers, all of
-- them below 65536.
pub record IsReadable (fc : ℤ) (start quantity : ℕ) : Type 0 where
  pub function_code_lem : (fc ≡ pos 3) ⊎ (fc ≡ pos 4)
  pub positive : 1 ≤ quantity
  pub at_most_125 : quantity ≤ 125
  pub in_space : start + quantity ≤ 65536

-- What `check_range` passes on is what it was given.
pub record IsExact (fc start quantity : ℤ) (r : ResolvedAddress) : Type 0 where
  pub same_function_code : r.function_code ≡ fc
  pub same_start : pos r.start ≡ start
  pub same_quantity : pos r.quantity ≡ quantity

check_range-IsExact :
    (fc start quantity : ℤ) (r : ResolvedAddress)
    → ltb_ℤ quantity (pos 1) || ltb_ℤ (pos 125) quantity ≡ false
    → check_range fc start quantity ≡ ok r
    → IsExact fc start quantity r
unfolding check_range
check_range-IsExact fc start quantity r h e = ground arith

check_range-IsReadable :
    (fc start quantity : ℤ) (r : ResolvedAddress)
    → ltb_ℤ quantity (pos 1) || ltb_ℤ (pos 125) quantity ≡ false
    → check_range fc start quantity ≡ ok r
    → IsReadable r.function_code r.start r.quantity
unfolding check_range
check_range-IsReadable fc start quantity r h e = ground arith

not-eq-true : (b : Bool) → not b ≡ true → b ≡ false
not-eq-true b h = ground arith

-- A successful resolution has passed every step.
resolve-steps :
    {F : Type 0} (m : Text) (d : RegisterDefinition F) (r : ResolvedAddress)
    → resolve_modbus_address m d ≡ ok r
    → (mode : Text) × (canonical_address_mode m ≡ ok mode)
      × (ltb_ℤ d.length (pos 1) || ltb_ℤ (pos 125) d.length ≡ false)
      × (s : ℤ × ℤ) × (shift mode d.function_code d.register_address ≡ ok s)
      × (check_range s.0 s.1 d.length ≡ ok r)
unfolding resolve_modbus_address
resolve-steps m d r h =
    let (mode, named, h1) = >>=-eq-ok (canonical_address_mode m) _ h in
    let (fits, h2) = guard-eq-ok _ _ _ h1 in
    let (s, shifted, checked) = >>=-eq-ok (shift mode d.function_code d.register_address) _ h2 in
    (mode, named, not-eq-true _ fits, s, shifted, checked)

-- A resolved address can be read: function code 3 or 4, 1 to 125 registers, none of them past the
-- last register; and the quantity is the configured length.
pub resolve-IsReadable :
    {F : Type 0} (m : Text) (d : RegisterDefinition F) (r : ResolvedAddress)
    → resolve_modbus_address m d ≡ ok r
    → IsReadable r.function_code r.start r.quantity × (pos r.quantity ≡ d.length)
resolve-IsReadable m d r h =
    let (mode, named, fits, s, shifted, checked) = resolve-steps m d r h in
    (
      check_range-IsReadable s.0 s.1 d.length r fits checked,
      (check_range-IsExact s.0 s.1 d.length r fits checked).same_quantity,
    )

-- How a wire address is written in an address mode: the number that stands for register `start`.
abbrev pub written : Text → ℤ → ℕ → ℕ
written mode fc start =
    if text_eq mode (lit "ONE_BASED")
    then start + 1
    else if text_eq mode (lit "FULL_NOTATION")
    then (if eqb_ℤ fc (pos 3) then start + 30000 else start + 40000)
    else if text_eq mode (lit "REGISTER_40001")
    then start + 40001
    else if text_eq mode (lit "REGISTER_30001")
    then start + 30001
    else start

-- A text that passes the test of a `case` is one of its constants.
pub one_of-All :
    (P : Text → Type 0) (value : Text) (names : List Text)
    → All P names
    → one_of value names ≡ true
    → P value
unfolding one_of
one_of-All P value [] h e = absurd (cc)
one_of-All P value (name ∷ names) h e = elim (Bool-cases (text_eq value name)) [
  | inl same ↦ subst P (sym ((text_eq_iff value name).0 same)) h.0
  | inr other ↦ one_of-All P value names h.1 (rw other at e)
]

abbrev ShiftIsWritten : ℤ → ℤ → ℤ × ℤ → ℕ → Text → Type 0
ShiftIsWritten fc a s n mode = shift mode fc a ≡ ok s → s.1 ≡ pos n → a ≡ pos (written mode s.0 n)

module _ (fc a : ℤ) (s : ℤ × ℤ) (n : ℕ) where
  shift_plain : (mode : Text) → shift mode fc a ≡ ok (fc, a) → shift mode fc a ≡ ok s → s.1 ≡ a
  shift_plain mode e h = cc

  shift_full_notation : ShiftIsWritten fc a s n (lit "FULL_NOTATION")
  unfolding shift eqb_ℤ
  shift_full_notation h e = ground arith

  shift_one_based : ShiftIsWritten fc a s n (lit "ONE_BASED")
  unfolding shift
  shift_one_based h e = ground arith

  shift_30001 : ShiftIsWritten fc a s n (lit "REGISTER_30001")
  unfolding shift
  shift_30001 h e = ground arith

  shift_40001 : ShiftIsWritten fc a s n (lit "REGISTER_40001")
  unfolding shift
  shift_40001 h e = ground arith

  shift-written : All (ShiftIsWritten fc a s n) modes
  unfolding shift
  shift-written = (
    λ h e. cc,
    (
      shift_one_based,
      (shift_full_notation, (λ h e. cc, (λ h e. cc, (shift_30001, (shift_40001, tt))))),
    ),
  )

-- The configured register address is the resolved one written in the address mode: resolving loses
-- nothing, in every mode and for every function code.
pub resolve-written :
    {F : Type 0} (m : Text) (d : RegisterDefinition F) (r : ResolvedAddress)
    → resolve_modbus_address m d ≡ ok r
    → (mode : Text) × (canonical_address_mode m ≡ ok mode)
      × (d.register_address ≡ pos (written mode r.function_code r.start))
resolve-written m d r h =
    let (mode, named, fits, s, shifted, checked) = resolve-steps m d r h in
    let exact = check_range-IsExact s.0 s.1 d.length r fits checked in
    let known = (canonical_address_mode-canonical m mode named).0 in
    let named_by =
      one_of-All (ShiftIsWritten d.function_code d.register_address s r.start) mode modes
        (shift-written d.function_code d.register_address s r.start) known in
    (
      mode,
      named,
      subst (λ fc. d.register_address ≡ pos (written mode fc r.start))
          (sym exact.same_function_code) (named_by shifted (sym exact.same_start)),
    )
