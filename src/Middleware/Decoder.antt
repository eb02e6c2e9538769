-- ===== src/Middleware/Decoder.antt =====
-- internal/decoder/decoder.go: from register words to values.
pub mod DataType
pub mod Words
pub mod Values
pub mod Totality
use Prim.Native.String.{String}
use mathlib.Core.List.{reverse}
use ygate_git.Base.{
  ℕ, zero, suc, ◌+◌, ◌-◌, ◌*◌, ◌/◌, ◌%◌, ◌^◌, Bool, true, false, ◌&&◌, ◌||◌, Option, none, some,
  Result, ok, err, ◌>>=◌, List, [], ◌∷◌, if◌then◌else◌, ltb, leb, ◌==◌, length, take, map,
}
use ygate_git.Base.Int.{ℤ, pos, negsuc}
use ygate_git.Base.Text.{Text, lit, text_eq, to_upper, trim_space, equal_fold, has_prefix}
use ygate_git.Middleware.Float64.{Float64}
use ygate_git.Middleware.Profile.Address.{one_of, switch_case}

pub data DecodeError : Type 0 where
  no_registers needs_2_registers needs_4_registers : DecodeError
  unsupported_data_type odd_register_byte_count : DecodeError

-- The cases of `NormalizeDataType`.
abbrev pub data_type_cases : List (List Text × Text)
data_type_cases =
    (lit "SHORT" ∷ lit "INT16" ∷ [], lit "I16")
    ∷ (lit "USHORT" ∷ lit "UINT16" ∷ [], lit "U16")
    ∷ (
      lit "LONG" ∷ lit "SLONG" ∷ lit "INT32" ∷ lit "S32" ∷ lit "SW_INT" ∷ lit "SMA_INT32" ∷ [],
      lit "I32",
    )
    ∷ (lit "ULONG" ∷ lit "DWORD" ∷ lit "UINT32" ∷ lit "SW_UINT" ∷ lit "SMA_UINT32" ∷ [], lit "U32")
    ∷ (lit "UINT64" ∷ lit "SMA_UINT64" ∷ [], lit "U64")
    ∷ (lit "FLOAT" ∷ lit "SW_FLOAT" ∷ [], lit "FLOAT32")
    ∷ []

abbrev or_itself : Text → Option Text → Text
or_itself name none = name
or_itself name (some t) = t

unfoldable pub normalize_data_type : Text → Text
unfolding switch_case to_upper trim_space
normalize_data_type data_type =
    let name = to_upper (trim_space data_type) in or_itself name (switch_case name data_type_cases)

-- The `switch` of `RegisterCount` over a normalized name.
unfoldable pub count_of : Text → ℕ
unfolding one_of
count_of name =
    if one_of name (lit "U16" ∷ lit "I16" ∷ [])
    then 1
    else if one_of name (lit "U32" ∷ lit "I32" ∷ lit "FLOAT32" ∷ [])
    then 2
    else if one_of name (lit "U64" ∷ [])
    then 4
    else 0

unfoldable pub register_count : Text → ℕ
register_count data_type = count_of (normalize_data_type data_type)

-- `int16(r)` and `int32(u)`: the upper half of the range stands for the negative numbers.
unfoldable pub to_int : ℕ → ℕ → ℤ
to_int width u = if ltb u (2 ^ (width - 1)) then pos u else negsuc (2 ^ width - u - 1)

-- The first test of `swapWords`.
unfoldable pub low_high : Text → Bool
unfolding equal_fold
low_high word_order = equal_fold word_order (lit "LOW_HIGH")

unfoldable pub swap_words : Text → Text → Bool
unfolding low_high has_prefix to_upper trim_space
swap_words data_type word_order =
    low_high word_order || has_prefix (to_upper (trim_space data_type)) (lit "SW_")

-- `uint32(a)<<16 | uint32(b)` of two 16-bit words, which are swapped first if the order says so.
abbrev pub join_words : Bool → ℕ → ℕ → ℕ
join_words swap a b = if swap then b * 65536 + a else a * 65536 + b

-- The loop `u = u<<16 | uint64(word)`.
unfoldable pub join_all : ℕ → List ℕ → ℕ
join_all u [] = u
join_all u (word ∷ words) = join_all ((u * 65536 + word) % 2 ^ 64) words

module _ (fl : Float64) where
  open fl use {F, of_int, of_bits32, nan}

  -- The 32-bit types, by normalized name.
  unfoldable pub decode_32 : Text → ℕ → F
  unfolding text_eq
  decode_32 name u =
      if text_eq name (lit "I32")
      then (if u == 0x80000000 then nan else of_int (to_int 32 u))
      else if text_eq name (lit "U32")
      then (if u == 0xffffffff then nan else of_int (pos u))
      else of_bits32 u

  -- The `switch` of `Decode` over the normalized name, on a list that is not empty: its first word.
  unfoldable pub decode_as : Text → Text → Text → ℕ → List ℕ → Result DecodeError F
  unfolding one_of text_eq
  decode_as name data_type word_order a rest =
      if text_eq name (lit "I16")
      then ok (of_int (to_int 16 a))
      else if text_eq name (lit "U16")
      then ok (of_int (pos a))
      else if one_of name (lit "I32" ∷ lit "U32" ∷ lit "FLOAT32" ∷ [])
      then elim rest [
        | [] ↦ err needs_2_registers
        | b ∷ _ ↦ ok (decode_32 name (join_words (swap_words data_type word_order) a b))
      ]
      else if text_eq name (lit "U64")
      then (if ltb (length (a ∷ rest)) 4
          then err needs_4_registers
          else (let words = take 4 (a ∷ rest) in
              let u = join_all 0 (if low_high word_order then reverse words else words) in
              ok (if u == 2 ^ 64 - 1 then nan else of_int (pos u))))
      else err unsupported_data_type

  unfoldable pub decode : List ℕ → Text → Text → Result DecodeError F
  unfolding decode_as
  decode [] data_type word_order = err no_registers
  decode (a ∷ rest) data_type word_order =
      decode_as (normalize_data_type data_type) data_type word_order a rest

-- `binary.LittleEndian.Uint16` or `binary.BigEndian.Uint16` of each pair of bytes.
unfoldable pub pair_up : Bool → List ℕ → List ℕ
pair_up little [] = []
pair_up little (a ∷ []) = []
pair_up little (a ∷ b ∷ bytes) =
    (if little then b * 256 + a else a * 256 + b) ∷ pair_up little bytes

unfoldable pub bytes_to_registers : List ℕ → Text → Result DecodeError (List ℕ)
unfolding pair_up equal_fold
bytes_to_registers bytes byte_order =
    if length bytes % 2 == 0
    then ok (pair_up (equal_fold byte_order (lit "LITTLE_ENDIAN")) bytes)
    else err odd_register_byte_count
