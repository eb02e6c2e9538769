-- ===== src/Middleware/Service/SwappedWords.antt =====
-- The data types whose words `Decode` swaps, and the names under which they are polled.
use ygate_git.Base.{
  ℕ, ◌+◌, ◌*◌, ◌≡◌, refl, ap, ◌∙◌, Bool, true, false, ◌||◌, if◌then◌else◌, ok, List, [], ◌∷◌, arith,
  All,
}
use ygate_git.Base.Text.{Text, lit, equal_fold}
use ygate_git.Middleware.Float64.{Float64}
use ygate_git.Middleware.Domain.{Address}
use ygate_git.Middleware.Profile.Address.{one_of}
use ygate_git.Middleware.Profile.Address.Range.{one_of-All}
use ygate_git.Middleware.Decoder.{
  low_high, swap_words, join_words, normalize_data_type, decode_32, decode,
}
use ygate_git.Middleware.Decoder.Values.{decode_two}
use ygate_git.Middleware.Service.{register_of}

abbrev pub swapped_types : List Text
swapped_types = lit "SW_INT" ∷ lit "SW_UINT" ∷ lit "SW_FLOAT" ∷ []

or_true : (b : Bool) → b || true ≡ true
or_true b = ground arith

or_false : (b : Bool) → b || false ≡ b
or_false b = ground arith

module _ (fl : Float64) where
  -- What `Decode` makes of two words for a type under its own name and under its normalized one: of the
  -- words in the other order, and of the words as the word order says.
  abbrev pub LosesSwap : Text → ℕ → ℕ → Text → Text → Type 0
  LosesSwap wo x y name polled =
      let kind = normalize_data_type name in
      (decode fl (x ∷ y ∷ []) name wo ≡ ok (decode_32 fl kind (y * 65536 + x)))
      × (decode fl (x ∷ y ∷ []) polled wo
          ≡ ok (
              decode_32 fl kind
                (if equal_fold wo (lit "LOW_HIGH") then y * 65536 + x else x * 65536 + y)))

  -- The two facts of one name, whose normalized name is its own.
  loses_swap :
      (wo name : Text) (x y : ℕ)
      → one_of (normalize_data_type name) (lit "I32" ∷ lit "U32" ∷ lit "FLOAT32" ∷ []) ≡ true
      → normalize_data_type (normalize_data_type name) ≡ normalize_data_type name
      → swap_words name wo ≡ true
      → swap_words (normalize_data_type name) wo ≡ low_high wo
      → LosesSwap wo x y name (normalize_data_type name)
  unfolding low_high
  loses_swap wo name x y known idle swaps kept =
      let kind = normalize_data_type name in
      let joined = λ (b : Bool). ok (decode_32 fl kind (join_words b x y)) in
      (
        decode_two fl kind name wo x y known refl ∙ ap joined swaps,
        decode_two fl kind kind wo x y known idle ∙ ap joined kept,
      )

  swapped_types-LosesSwap :
      (wo : Text) (x y : ℕ)
      → All (λ (name : Text). LosesSwap wo x y name (normalize_data_type name)) swapped_types
  unfolding swap_words normalize_data_type one_of
  swapped_types-LosesSwap wo x y =
      let t = or_true (low_high wo) in
      let f = or_false (low_high wo) in
      (
        loses_swap wo (lit "SW_INT") x y refl refl t f,
        (
          loses_swap wo (lit "SW_UINT") x y refl refl t f,
          (loses_swap wo (lit "SW_FLOAT") x y refl refl t f, tt),
        ),
      )

  -- For an address of type SW_INT, SW_UINT or SW_FLOAT, `Decode` reads two words with the second one
  -- first when it is given the configured name; but given the name with which the service polls the
  -- address, it does so only if the word order is LOW_HIGH.
  pub register_of-swap_words :
      (a : Address fl.F) (wo : Text) (x y : ℕ)
      → one_of a.data_type swapped_types ≡ true
      → LosesSwap wo x y a.data_type (register_of a).data_type
  unfolding register_of
  register_of-swap_words a wo x y h =
      one_of-All (λ (name : Text). LosesSwap wo x y name (normalize_data_type name)) a.data_type
        swapped_types (swapped_types-LosesSwap wo x y) h
