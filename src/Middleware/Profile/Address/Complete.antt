-- ===== src/Middleware/Profile/Address/Complete.antt =====
-- Every request that a device can be sent has a configured address that resolves to it.
use ygate_git.Base.{ℕ, ◌<◌, ◌≡◌, ◌⊎◌, true, not, ◌||◌, ok, arith, refl, All}
use ygate_git.Base.Int.{ℤ, pos, ltb_ℤ, eqb_ℤ}
use ygate_git.Base.Text.{Text, lit, text_eq}
use ygate_git.Middleware.Domain.{RegisterDefinition}
use ygate_git.Middleware.Profile.Address.Modes.{modes, canonical_address_mode-canonical}
use ygate_git.Middleware.Profile.Address.Range.{IsReadable, written, one_of-All}
use ygate_git.Middleware.Profile.Address.{
  shift, canonical_address_mode, check_range, resolve_modbus_address,
}

-- Full notation has five digits, so it names the first 10000 registers.
abbrev pub IsWritable : Text → ℕ → Type 0
IsWritable mode start = text_eq mode (lit "FULL_NOTATION") ≡ true → start < 10000

abbrev ShiftsBack : ℤ → ℕ → Text → Type 0
ShiftsBack fc n mode = IsWritable mode n → shift mode fc (pos (written mode fc n)) ≡ ok (fc, pos n)

module _ (fc : ℤ) (n : ℕ) (known : (fc ≡ pos 3) ⊎ (fc ≡ pos 4)) where
  full_notation_back : ShiftsBack fc n (lit "FULL_NOTATION")
  unfolding shift eqb_ℤ text_eq
  full_notation_back w = ground (arith, w refl)

  one_based_back : ShiftsBack fc n (lit "ONE_BASED")
  unfolding shift
  one_based_back w = ground arith

  register_30001_back : ShiftsBack fc n (lit "REGISTER_30001")
  unfolding shift
  register_30001_back w = ground arith

  register_40001_back : ShiftsBack fc n (lit "REGISTER_40001")
  unfolding shift
  register_40001_back w = ground arith

  shifts_back : All (ShiftsBack fc n) modes
  unfolding shift
  shifts_back = (
    λ w. refl,
    (
      one_based_back,
      (
        full_notation_back,
        (λ w. refl, (λ w. refl, (register_30001_back, (register_40001_back, tt)))),
      ),
    ),
  )

check_range-of_IsReadable :
    (fc : ℤ) (start quantity : ℕ)
    → IsReadable fc start quantity
    → check_range fc (pos start) (pos quantity)
      ≡ ok (record { function_code = fc; start = start; quantity = quantity })
unfolding check_range
check_range-of_IsReadable fc start quantity h = ground arith

length_fits :
    (fc : ℤ) (start quantity : ℕ)
    → IsReadable fc start quantity
    → not (ltb_ℤ (pos quantity) (pos 1) || ltb_ℤ (pos 125) (pos quantity)) ≡ true
length_fits fc start quantity h = ground arith

-- A register definition that writes a readable request in an accepted address mode resolves to that
-- request, in every mode; in full notation the start is below 10000.
pub resolve_complete :
    {F : Type 0} (m mode : Text) (d : RegisterDefinition F) (fc : ℤ) (start quantity : ℕ)
    → canonical_address_mode m ≡ ok mode
    → IsReadable fc start quantity
    → IsWritable mode start
    → d.function_code ≡ fc
    → d.register_address ≡ pos (written mode fc start)
    → d.length ≡ pos quantity
    → resolve_modbus_address m d
      ≡ ok (record { function_code = fc; start = start; quantity = quantity })
unfolding resolve_modbus_address
resolve_complete m mode d fc start quantity named readable writable same_fc same_address
      same_length =
    rw (
      named,
      same_length,
      same_fc,
      same_address,
      length_fits fc start quantity readable,
      shifted,
      check_range-of_IsReadable fc start quantity readable,
    )
  where
    shifted : shift mode fc (pos (written mode fc start)) ≡ ok (fc, pos start)
    shifted =
        one_of-All (ShiftsBack fc start) mode modes
          (shifts_back fc start readable.function_code_lem)
          (canonical_address_mode-canonical m mode named).0 writable
