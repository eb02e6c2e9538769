-- ===== src/Middleware/Tests/Reading.antt =====
-- Addresses, blocks, values and the Modbus client at concrete inputs.
use mathlib.Core.List.{Perm}
use ygate_git.Base.{
  true, ℕ, ◌≡◌, refl, false, ◌&&◌, inl, arith, Option, some, ok, err, List, [], ◌∷◌, ltb, leb,
  length, All,
}
use ygate_git.Base.Int.{ℤ, pos, negsuc}
use ygate_git.Base.Text.{Text, lit, to_lower}
use ygate_git.Middleware.Domain.{RegisterProfile}
use ygate_git.Middleware.Profile.Address.{
  ResolvedAddress, invalid_length, canonical_address_mode, resolve_modbus_address, shift,
  check_range,
}
use ygate_git.Middleware.Profile.Address.Range.{IsReadable, written, resolve-written}
use ygate_git.Middleware.Profile.Blocks.{
  Entry, Block, block_limit, with_default, resolve_entry, resolve_entries, build_blocks,
}
use ygate_git.Middleware.Profile.Blocks.Merge.{IsBlock}
use ygate_git.Middleware.Profile.Blocks.Laws.{read_order, build_blocks_lem}
use ygate_git.Middleware.Decoder.{decode, normalize_data_type, register_count}
use ygate_git.Middleware.Decoder.Words.{to_bytes}
use ygate_git.Middleware.Decoder.Values.{i32, by_order, sent, decode-encode}
use ygate_git.Middleware.Decoder.Totality.{is_ok, decode-is_ok}
use ygate_git.Middleware.Modbus.{Client, next_transaction, read}
use ygate_git.Middleware.Modbus.Frames.{values, device}
use ygate_git.Middleware.Modbus.Reads.{read-device}
use ygate_git.Middleware.Tests.Data.{floats, register, two_registers}

abbrev pub entry : ℤ → ℤ → Text → ℕ → Entry (Option ℤ)
entry address length data_type offset = record {
  definition = register address length data_type;
  offset = offset;
}

-- The entries of `two_registers`.
abbrev pub two_entries : List (Entry (Option ℤ))
two_entries = entry (pos 11) (pos 2) (lit "U32") 10 ∷ entry (pos 10) (pos 1) (lit "U16") 9 ∷ []

pub two_registers-resolve : resolve_entries two_registers two_registers.registers ≡ ok two_entries
unfolding resolve_entries resolve_entry with_default resolve_modbus_address canonical_address_mode
    shift check_range
two_registers-resolve = refl

build_blocks_lem_example :
    (blocks : List (Block (Option ℤ))) × (build_blocks two_registers ≡ ok blocks)
    × All (IsBlock (block_limit (pos 30))) blocks
    × Perm (read_order blocks) two_entries
build_blocks_lem_example = build_blocks_lem two_registers two_entries two_registers-resolve

abbrev bad_length : RegisterProfile (Option ℤ)
bad_length = record two_registers { registers = register (pos 11) (pos 126) (lit "U32") ∷ [] }

bad_length-fails : resolve_entries bad_length bad_length.registers ≡ err invalid_length
unfolding resolve_entries resolve_entry
bad_length-fails = refl

abbrev fc : ResolvedAddress
fc = record { function_code = pos 3; start = 10; quantity = 2 }

full_resolves :
    resolve_modbus_address (lit "full") (register (pos 30010) (pos 2) (lit "U32")) ≡ ok fc
unfolding resolve_modbus_address canonical_address_mode shift check_range
full_resolves = refl

resolve-written_example :
    (mode : Text) × (canonical_address_mode (lit "full") ≡ ok mode)
    × (pos 30010 ≡ pos (written mode (pos 3) 10))
resolve-written_example =
    resolve-written (lit "full") (register (pos 30010) (pos 2) (lit "U32")) fc full_resolves

full_mode : canonical_address_mode (lit "full") ≡ ok (lit "FULL_NOTATION")
unfolding canonical_address_mode
full_mode = refl

ten_IsReadable : IsReadable (pos 3) 10 2
ten_IsReadable = record {
  function_code_lem = inl refl;
  positive = omega arith;
  at_most_125 = omega arith;
  in_space = omega arith;
}

int32_name : normalize_data_type (lit "int32") ≡ lit "I32"
unfolding normalize_data_type
int32_name = refl

decode-encode_example :
    decode floats (sent true i32 (negsuc 4)) (lit "int32") (lit "LOW_HIGH") ≡ ok (some (negsuc 4))
unfolding to_lower
decode-encode_example =
    decode-encode floats i32 (lit "int32") (lit "LOW_HIGH") (negsuc 4) true int32_name
      (omega arith, omega arith) (λ h. by_order refl, λ h. refl)

decode-is_ok_example :
    is_ok floats (decode floats (7 ∷ []) (lit "U32") (lit "HIGH_LOW"))
    ≡ (ltb 0 (register_count (lit "U32")) && leb (register_count (lit "U32")) 1)
decode-is_ok_example = decode-is_ok floats (7 ∷ []) (lit "U32") (lit "HIGH_LOW")

-- A device whose registers hold their own addresses.
abbrev pub own_addresses : ℕ → ℕ → ℕ
own_addresses code a = a

abbrev pub new_client : Client
new_client = record { transaction = 0 }

read-device_example :
    read
      (λ _ _. device own_addresses (1 ∷ []))
      new_client
      (lit "10.0.0.7")
      (pos 502)
      (pos 1)
      (pos 3)
      10
      2
    ≡ (ok (to_bytes false (values own_addresses 3 10 2)), next_transaction new_client)
read-device_example =
    read-device own_addresses 3 10 2 ten_IsReadable new_client (lit "10.0.0.7") (pos 502) (pos 1)
      (1 ∷ [])
