-- ===== src/Middleware/Decoder/Values.antt =====
-- Decoding reads back what a device encodes.
use mathlib.Core.List.{reverse}
use mathlib.Core.Path.{ap₂}
use ygate_git.Base.{
  ℕ, ◌+◌, ◌-◌, ◌*◌, ◌/◌, ◌%◌, ◌^◌, ◌<◌, refl, ap, ◌∙◌, Bool, true, false, ok, List, [], ◌∷◌,
  if◌then◌else◌, arith, ◌==◌, Bool-cases, inl, inr, ◌≡◌, sym, ◌⊎◌, ◌↔◌, ◌||◌, ◌++◌, ==_refl,
}
use native.Mathlib.Nat.{mod-eq_of_lt}
use ygate_git.Base.Int.{ℤ, pos, negsuc, to_uint, ◌≤ℤ◌, ◌<ℤ◌}
use ygate_git.Base.Text.{
  Text, lit, text_eq_iff, to_lower, to_upper, trim_space, has_prefix, equal_fold,
}
use ygate_git.Middleware.Float64.{Float64}
use ygate_git.Middleware.Profile.Address.{one_of}
use ygate_git.Middleware.Profile.Address.Range.{one_of-All}
use ygate_git.Middleware.Decoder.{
  normalize_data_type, to_int, low_high, swap_words, join_words, join_all, decode_32, decode_as,
  decode,
}

-- The integer types of the register tables.
pub data IntType : Type 0 where
  u16 i16 u32 i32 u64 : IntType

abbrev pub name_of : IntType → Text
name_of u16 = lit "U16"
name_of i16 = lit "I16"
name_of u32 = lit "U32"
name_of i32 = lit "I32"
name_of u64 = lit "U64"

-- The values of a type, less the one that stands for "no value".
abbrev pub InRange : IntType → ℤ → Type 0
InRange u16 z = (pos 0 ≤ℤ z) × (z <ℤ pos (2 ^ 16))
InRange i16 z = (negsuc (2 ^ 15 - 1) ≤ℤ z) × (z <ℤ pos (2 ^ 15))
InRange u32 z = (pos 0 ≤ℤ z) × (z <ℤ pos (2 ^ 32 - 1))
InRange i32 z = (negsuc (2 ^ 31 - 1) <ℤ z) × (z <ℤ pos (2 ^ 31))
InRange u64 z = (pos 0 ≤ℤ z) × (z <ℤ pos (2 ^ 64 - 1))

abbrev two_words : ℕ → List ℕ
two_words u = (u / 65536) ∷ (u % 65536) ∷ []

-- Two's complement, the most significant word first.
abbrev pub encode : IntType → ℤ → List ℕ
encode u16 z = to_uint (2 ^ 16) z ∷ []
encode i16 z = to_uint (2 ^ 16) z ∷ []
encode u32 z = two_words (to_uint (2 ^ 32) z)
encode i32 z = two_words (to_uint (2 ^ 32) z)
encode u64 z =
    let u = to_uint (2 ^ 64) z in
    (u / 2 ^ 48) ∷ (u / 2 ^ 32 % 65536) ∷ (u / 65536 % 65536) ∷ (u % 65536) ∷ []

abbrev pub HasTwoWords : IntType → Type 0
HasTwoWords u32 = Unit
HasTwoWords i32 = Unit
HasTwoWords t = ⊥

-- A device sends the least significant word first if its word order is LOW_HIGH, in any case of letters,
-- or if its type has two words and a name that begins with SW_, in any case and after spaces.
pub data LowFirst (t : IntType) (data_type word_order : Text) : Type 0 where
  by_order : to_lower word_order ≡ lit "low_high" → LowFirst t data_type word_order
  by_type :
      (rest : Text)
      → HasTwoWords t
      → to_upper (trim_space data_type) ≡ lit "SW_" ++ rest
      → LowFirst t data_type word_order

abbrev pub sent : Bool → IntType → ℤ → List ℕ
sent low_first t z = if low_first then reverse (encode t z) else encode t z

has_prefix-split : (s p : Text) → has_prefix s p ≡ true → (rest : Text) × (s ≡ p ++ rest)
unfolding has_prefix
has_prefix-split s [] h = (s, refl)
has_prefix-split [] (b ∷ p) h = absurd (cc)
has_prefix-split (a ∷ s) (b ∷ p) h =
    let (rest, same) = has_prefix-split s p (ground arith) in
    (rest, ap₂ (λ (x : ℕ) (xs : Text). x ∷ xs) (ground arith) same)

has_prefix-append : (p rest : Text) → has_prefix (p ++ rest) p ≡ true
unfolding has_prefix
has_prefix-append [] rest = refl
has_prefix-append (b ∷ p) rest = rw (==_refl b, has_prefix-append p rest)

low_high_iff : (wo : Text) → (low_high wo ≡ true) ↔ (to_lower wo ≡ lit "low_high")
unfolding low_high equal_fold
low_high_iff wo = text_eq_iff (to_lower wo) (lit "low_high")

or_cases : (a b : Bool) → (a || b) ≡ true → (a ≡ true) ⊎ (b ≡ true)
or_cases true b h = inl refl
or_cases false b h = inr h

or_true : (a b : Bool) → (a ≡ true) ⊎ (b ≡ true) → (a || b) ≡ true
or_true a b h = ground arith

swap_words-LowFirst :
    (t : IntType) (dt wo : Text) → HasTwoWords t → (swap_words dt wo ≡ true) ↔ LowFirst t dt wo
unfolding swap_words
swap_words-LowFirst t dt wo two = (
  λ h. elim (or_cases _ _ h) [
    | inl order ↦ by_order ((low_high_iff wo).0 order)
    | inr name ↦
        let (rest, same) = has_prefix-split (to_upper (trim_space dt)) (lit "SW_") name in
        by_type rest two same
  ],
  λ l. or_true _ _ (either l),
)
  where
    either :
        LowFirst t dt wo
        → (low_high wo ≡ true) ⊎ (has_prefix (to_upper (trim_space dt)) (lit "SW_") ≡ true)
    either (by_order e) = inl ((low_high_iff wo).1 e)
    either (by_type rest w e) = inr (rw e (has_prefix-append (lit "SW_") rest))

low_high-LowFirst : (dt wo : Text) → (low_high wo ≡ true) ↔ LowFirst u64 dt wo
low_high-LowFirst dt wo = (λ h. by_order ((low_high_iff wo).0 h), low)
  where
    low : LowFirst u64 dt wo → low_high wo ≡ true
    low (by_order e) = (low_high_iff wo).1 e
    low (by_type rest w e) = absurd w

same_bool : {P : Type 0} (a b : Bool) → (a ≡ true) ↔ P → (b ≡ true) ↔ P → a ≡ b
same_bool true b h k = sym (k.1 (h.0 refl))
same_bool false true h k = h.1 (k.0 refl)
same_bool false false h k = refl

join_two : (u : ℕ) → u / 65536 * 65536 + u % 65536 ≡ u
join_two u = omega arith

to_int-to_uint_16 : (z : ℤ) → InRange i16 z → to_int 16 (to_uint (2 ^ 16) z) ≡ z
unfolding to_int to_uint
to_int-to_uint_16 z h = ground arith

to_int-to_uint_32 : (z : ℤ) → InRange i32 z → to_int 32 (to_uint (2 ^ 32) z) ≡ z
unfolding to_int to_uint
to_int-to_uint_32 z h = ground arith

not_sentinel : (z : ℤ) → InRange i32 z → (to_uint (2 ^ 32) z == 0x80000000) ≡ false
unfolding to_uint
not_sentinel z h = ground arith

below_sentinel : (z : ℤ) → InRange u64 z → to_uint (2 ^ 64) z < 2 ^ 64 - 1
unfolding to_uint
below_sentinel z h = ground arith

join_all-four :
    (u : ℕ)
    → u < 2 ^ 64
    → join_all 0 ((u / 2 ^ 48) ∷ (u / 2 ^ 32 % 65536) ∷ (u / 65536 % 65536) ∷ (u % 65536) ∷ []) ≡ u
unfolding join_all
join_all-four u h = omega arith

one_word : (low : Bool) (a : ℕ) → (if low then reverse (a ∷ []) else a ∷ []) ≡ a ∷ []
one_word true a = refl
one_word false a = refl

module _ (fl : Float64) where
  open fl use {of_int}

  -- The branch of `Decode` for a 32-bit type.
  pub decode_two :
      (name dt wo : Text) (a b : ℕ)
      → one_of name (lit "I32" ∷ lit "U32" ∷ lit "FLOAT32" ∷ []) ≡ true
      → normalize_data_type dt ≡ name
      → decode fl (a ∷ b ∷ []) dt wo ≡ ok (decode_32 fl name (join_words (swap_words dt wo) a b))
  unfolding decode
  decode_two name dt wo a b known e = rw e (
      one_of-All
        (λ n.
          decode_as fl n dt wo a (b ∷ []) ≡ ok (decode_32 fl n (join_words (swap_words dt wo) a b)))
        name (lit "I32" ∷ lit "U32" ∷ lit "FLOAT32" ∷ []) (refl, (refl, (refl, tt))) known)

  -- The words may arrive in either order.
  decode_arranged :
      (name dt wo : Text) (u : ℕ)
      → one_of name (lit "I32" ∷ lit "U32" ∷ lit "FLOAT32" ∷ []) ≡ true
      → normalize_data_type dt ≡ name
      → decode fl (if swap_words dt wo then reverse (two_words u) else two_words u) dt wo
        ≡ ok (decode_32 fl name u)
  decode_arranged name dt wo u known e = elim (Bool-cases (swap_words dt wo)) [
    | inl swap ↦ rw (swap, decode_two name dt wo (u % 65536) (u / 65536) known e, swap, join_two u)
    | inr plain ↦
        rw (plain, decode_two name dt wo (u / 65536) (u % 65536) known e, plain, join_two u)
  ]

  decode_32-u32 : (z : ℤ) → InRange u32 z → decode_32 fl (lit "U32") (to_uint (2 ^ 32) z) ≡ of_int z
  unfolding decode_32 to_uint
  decode_32-u32 z h = ground arith

  decode_32-i32 : (z : ℤ) → InRange i32 z → decode_32 fl (lit "I32") (to_uint (2 ^ 32) z) ≡ of_int z
  unfolding decode_32
  decode_32-i32 z h = rw (not_sentinel z h, to_int-to_uint_32 z h)

  decode_64 :
      (dt wo : Text) (u : ℕ)
      → normalize_data_type dt ≡ lit "U64"
      → u < 2 ^ 64 - 1
      → (ws : List ℕ)
      → ws ≡ (u / 2 ^ 48) ∷ (u / 2 ^ 32 % 65536) ∷ (u / 65536 % 65536) ∷ (u % 65536) ∷ []
      → decode fl (if low_high wo then reverse ws else ws) dt wo ≡ ok (of_int (pos u))
  unfolding decode
  decode_64 dt wo u e h ws same = elim (Bool-cases (low_high wo)) [
    | inl low ↦ rw (same, low, e, low, join_all-four u (omega arith)) (ground arith)
    | inr high ↦ rw (same, high, e, high, join_all-four u (omega arith)) (ground arith)
  ]

  decode_one_u16 :
      (dt wo : Text) (a : ℕ)
      → normalize_data_type dt ≡ lit "U16"
      → decode fl (a ∷ []) dt wo ≡ ok (of_int (pos a))
  unfolding decode
  decode_one_u16 dt wo a e = rw e

  decode_one_i16 :
      (dt wo : Text) (a : ℕ)
      → normalize_data_type dt ≡ lit "I16"
      → decode fl (a ∷ []) dt wo ≡ ok (of_int (to_int 16 a))
  unfolding decode
  decode_one_i16 dt wo a e = rw e

  unsigned : (m : ℕ) (z : ℤ) → pos 0 ≤ℤ z → z <ℤ pos m → pos (to_uint m z) ≡ z
  unfolding to_uint
  unsigned m (pos n) h k = ap pos (mod-eq_of_lt (omega arith))
  unsigned m (negsuc n) h k = absurd (omega arith)

  -- Decoding reads back every value of an integer type but its sentinel, for every alias of the type
  -- and every word order, from the words in the order in which such a device sends them: the least
  -- significant one first exactly if `LowFirst` says so.
  pub decode-encode :
      (t : IntType) (dt wo : Text) (z : ℤ) (low_first : Bool)
      → normalize_data_type dt ≡ name_of t
      → InRange t z
      → (low_first ≡ true) ↔ LowFirst t dt wo
      → decode fl (sent low_first t z) dt wo ≡ ok (of_int z)
  unfolding one_of
  decode-encode u16 dt wo z low e h order = rw (one_word low (to_uint (2 ^ 16) z)) (
      decode_one_u16 dt wo (to_uint (2 ^ 16) z) e
      ∙ ap (λ (n : ℤ). ok (of_int n)) (unsigned (2 ^ 16) z h.0 h.1))
  decode-encode i16 dt wo z low e h order = rw (one_word low (to_uint (2 ^ 16) z)) (
      decode_one_i16 dt wo (to_uint (2 ^ 16) z) e
      ∙ ap (λ (n : ℤ). ok (of_int n)) (to_int-to_uint_16 z h))
  decode-encode u32 dt wo z low e h order =
      rw (same_bool low (swap_words dt wo) order (swap_words-LowFirst u32 dt wo tt))
        (decode_arranged (lit "U32") dt wo (to_uint (2 ^ 32) z) refl e ∙ ap ok (decode_32-u32 z h))
  decode-encode i32 dt wo z low e h order =
      rw (same_bool low (swap_words dt wo) order (swap_words-LowFirst i32 dt wo tt))
        (decode_arranged (lit "I32") dt wo (to_uint (2 ^ 32) z) refl e ∙ ap ok (decode_32-i32 z h))
  decode-encode u64 dt wo z low e h order =
      let same = unsigned (2 ^ 64) z h.0 (omega arith) in
      rw (same_bool low (low_high wo) order (low_high-LowFirst dt wo)) (
        decode_64 dt wo (to_uint (2 ^ 64) z) e (below_sentinel z h) (encode u64 z) refl
        ∙ ap (λ (n : ℤ). ok (of_int n)) same)
