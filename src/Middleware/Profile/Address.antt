-- ===== src/Middleware/Profile/Address.antt =====
-- internal/profile/address.go: from a configured register address to the one on the wire.
pub mod Modes
pub mod Range
pub mod Complete
use ygate_git.Base.{
  ℕ, ◌≡◌, Bool, true, false, not, ◌&&◌, ◌||◌, Option, none, some, Result, ok, err, guard, ◌>>=◌,
  ◌>>◌, List, [], ◌∷◌, if◌then◌else◌, some_item,
}
use ygate_git.Base.Int.{ℤ, pos, negsuc, ◌+ℤ◌, ◌-ℤ◌, ltb_ℤ, leb_ℤ, eqb_ℤ, to_uint}
use ygate_git.Base.Text.{Text, lit, text_eq, to_upper, trim_space}
use ygate_git.Middleware.Domain.{RegisterDefinition}

-- The errors of the package; the values that the messages print are left out.
pub data ProfileError : Type 0 where
  unsupported_address_mode invalid_length not_full_notation : ProfileError
  unsupported_function_code out_of_range exceeds_register_range : ProfileError

pub record ResolvedAddress : Type 0 where
  pub function_code : ℤ
  pub start : ℕ  -- uint16
  pub quantity : ℕ  -- uint16

-- A `case` of a Go `switch` over a string.
unfoldable pub one_of : Text → List Text → Bool
unfolding text_eq some_item
one_of value allowed = some_item (text_eq value) allowed

-- A Go `switch` over a string with a constant to return in each case.
unfoldable pub switch_case : Text → List (List Text × Text) → Option Text
unfolding one_of
switch_case value [] = none
switch_case value ((names, result) ∷ cases) =
    if one_of value names then some result else switch_case value cases

-- The cases of `CanonicalAddressMode`.
abbrev pub mode_cases : List (List Text × Text)
mode_cases =
    (lit "" ∷ lit "ZERO_BASED" ∷ lit "OFFSET_0" ∷ lit "ZERO_BASED_OFFSET" ∷ [], lit "ZERO_BASED")
    ∷ (lit "ONE_BASED" ∷ lit "OFFSET_1" ∷ lit "ONE_BASED_OFFSET" ∷ [], lit "ONE_BASED")
    ∷ (lit "FULL_NOTATION" ∷ lit "FULL" ∷ lit "MODBUS_NOTATION" ∷ [], lit "FULL_NOTATION")
    ∷ (lit "VENDOR_RAW" ∷ lit "RAW" ∷ lit "DIRECT" ∷ lit "MODBUS_RAW" ∷ [], lit "VENDOR_RAW")
    ∷ (lit "SMA" ∷ [], lit "SMA")
    ∷ (
      lit "REGISTER_30001" ∷ lit "INPUT_30001" ∷ lit "INPUT_REGISTER_30001" ∷ [],
      lit "REGISTER_30001",
    )
    ∷ (
      lit "REGISTER_40001" ∷ lit "HOLDING_40001" ∷ lit "HOLDING_REGISTER_40001" ∷ [],
      lit "REGISTER_40001",
    )
    ∷ []

or_unsupported : Option Text → Result ProfileError Text
or_unsupported none = err unsupported_address_mode
or_unsupported (some mode) = ok mode

unfoldable pub canonical_address_mode : Text → Result ProfileError Text
unfolding switch_case or_unsupported to_upper trim_space
canonical_address_mode address_mode =
    or_unsupported (switch_case (to_upper (trim_space address_mode)) mode_cases)

-- The `switch mode`: the function code and the zero-based start, before the range is tested. A Go
-- `switch` without a default leaves both as they are.
unfoldable pub shift : Text → ℤ → ℤ → Result ProfileError (ℤ × ℤ)
unfolding one_of text_eq ◌-ℤ◌
shift mode fc start =
    if one_of mode (lit "ZERO_BASED" ∷ lit "VENDOR_RAW" ∷ lit "SMA" ∷ [])
    then ok (fc, start)
    else if text_eq mode (lit "ONE_BASED")
    then ok (fc, start -ℤ pos 1)
    else if text_eq mode (lit "FULL_NOTATION")
    then (if leb_ℤ (pos 30000) start && ltb_ℤ start (pos 40000)
        then ok (pos 3, start -ℤ pos 30000)
        else if leb_ℤ (pos 40000) start && ltb_ℤ start (pos 50000)
        then ok (pos 4, start -ℤ pos 40000)
        else err not_full_notation)
    else if text_eq mode (lit "REGISTER_40001")
    then ok (fc, start -ℤ pos 40001)
    else if text_eq mode (lit "REGISTER_30001")
    then ok (fc, start -ℤ pos 30001)
    else ok (fc, start)

-- The two tests below the `switch`, and the result.
unfoldable pub check_range : ℤ → ℤ → ℤ → Result ProfileError ResolvedAddress
unfolding to_uint eqb_ℤ ◌+ℤ◌
check_range fc start quantity = do
  guard (eqb_ℤ fc (pos 3) || eqb_ℤ fc (pos 4)) unsupported_function_code
  guard
      (not
        (ltb_ℤ start (pos 0) || ltb_ℤ (pos 65535) start || ltb_ℤ (pos 65536) (start +ℤ quantity)))
      out_of_range
  ok (record { function_code = fc; start = to_uint 65536 start; quantity = to_uint 65536 quantity })

unfoldable pub resolve_modbus_address :
    {F : Type 0} → Text → RegisterDefinition F → Result ProfileError ResolvedAddress
resolve_modbus_address address_mode d = do
  mode ← canonical_address_mode address_mode
  guard (not (ltb_ℤ d.length (pos 1) || ltb_ℤ (pos 125) d.length)) invalid_length
  shifted ← shift mode d.function_code d.register_address
  check_range shifted.0 shifted.1 d.length
