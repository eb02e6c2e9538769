-- ===== src/Middleware/Decoder/Totality.antt =====
-- When `Decode` returns a value.
use ygate_git.Base.{
  ℕ, suc, ◌<◌, ◌≡◌, refl, Bool, true, false, Result, ok, err, List, [], ◌∷◌, All, length, arith,
  ltb, leb, ltb→lt, ◌&&◌, Bool-cases, inl, inr,
}
use ygate_git.Base.Text.{Text, lit}
use ygate_git.Middleware.Float64.{Float64}
use ygate_git.Middleware.Profile.Address.{one_of}
use ygate_git.Middleware.Profile.Address.Range.{one_of-All}
use ygate_git.Middleware.Decoder.{
  DecodeError, normalize_data_type, count_of, register_count, decode_as, decode,
}

-- The six canonical data types.
abbrev pub canonical_types : List Text
canonical_types = lit "U16" ∷ lit "I16" ∷ lit "U32" ∷ lit "I32" ∷ lit "FLOAT32" ∷ lit "U64" ∷ []

count_of-canonical : (name : Text) → 0 < count_of name → one_of name canonical_types ≡ true
unfolding count_of
count_of-canonical name h = ground arith

module _ (fl : Float64) where
  open fl use {F}

  -- Whether a result is a value.
  abbrev pub is_ok : Result DecodeError F → Bool
  is_ok (ok v) = true
  is_ok (err e) = false

  -- With a canonical name `Decode` returns a value exactly when it has the words.
  abbrev DecodesFull : Text → Text → ℕ → List ℕ → Text → Type 0
  DecodesFull dt wo a rest name =
      is_ok (decode_as fl name dt wo a rest) ≡ leb (count_of name) (suc (length rest))

  module _ (dt wo : Text) (a : ℕ) (rest : List ℕ) where
    decode_u16 : DecodesFull dt wo a rest (lit "U16")
    unfolding decode_as count_of
    decode_u16 = ground arith

    decode_i16 : DecodesFull dt wo a rest (lit "I16")
    unfolding decode_as count_of
    decode_i16 = ground arith

    decode_u64 : DecodesFull dt wo a rest (lit "U64")
    unfolding decode_as count_of
    decode_u64 = ground arith

  decode_32_bit :
      (dt wo : Text) (a : ℕ) (rest : List ℕ) (name : Text)
      → one_of name (lit "I32" ∷ lit "U32" ∷ lit "FLOAT32" ∷ []) ≡ true
      → DecodesFull dt wo a rest name
  unfolding decode_as count_of
  decode_32_bit dt wo a [] name h =
      one_of-All (DecodesFull dt wo a []) name (lit "I32" ∷ lit "U32" ∷ lit "FLOAT32" ∷ [])
        (refl, (refl, (refl, tt))) h
  decode_32_bit dt wo a (b ∷ rest) name h =
      one_of-All (DecodesFull dt wo a (b ∷ rest)) name (lit "I32" ∷ lit "U32" ∷ lit "FLOAT32" ∷ [])
        (ground arith, (ground arith, (ground arith, tt))) h

  decodes_full :
      (dt wo : Text) (a : ℕ) (rest : List ℕ) → All (DecodesFull dt wo a rest) canonical_types
  unfolding one_of
  decodes_full dt wo a rest =
      let by_name =
        λ (name : Text) (h : one_of name (lit "I32" ∷ lit "U32" ∷ lit "FLOAT32" ∷ []) ≡ true).
          decode_32_bit dt wo a rest name h in
      (
        decode_u16 dt wo a rest,
        (
          decode_i16 dt wo a rest,
          (
            by_name (lit "U32") refl,
            (
              by_name (lit "I32") refl,
              (by_name (lit "FLOAT32") refl, (decode_u64 dt wo a rest, tt)),
            ),
          ),
        ),
      )

  unknown_name :
      (name dt wo : Text) (a : ℕ) (rest : List ℕ)
      → count_of name ≡ 0
      → is_ok (decode_as fl name dt wo a rest) ≡ false
  unfolding decode_as count_of
  unknown_name name dt wo a rest h = ground arith

  -- `Decode` returns a value exactly if the data type, or the name that it stands for, is one that
  -- the package knows and there are at least as many registers as it occupies; else it returns an
  -- error. It never reads past the registers that it is given.
  pub decode-is_ok :
      (rs : List ℕ) (dt wo : Text)
      → is_ok (decode fl rs dt wo)
        ≡ (ltb 0 (register_count dt) && leb (register_count dt) (length rs))
  unfolding decode register_count
  decode-is_ok [] dt wo = ground arith
  decode-is_ok (a ∷ rest) dt wo = elim (Bool-cases (ltb 0 (register_count dt))) [
    | inl known ↦ rw known (
        one_of-All (DecodesFull dt wo a rest) (normalize_data_type dt) canonical_types
          (decodes_full dt wo a rest)
          (count_of-canonical (normalize_data_type dt) (ltb→lt 0 (register_count dt) known)))
    | inr unknown ↦ rw unknown (unknown_name (normalize_data_type dt) dt wo a rest (ground arith))
  ]
