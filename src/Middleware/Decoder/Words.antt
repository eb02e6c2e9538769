-- ===== src/Middleware/Decoder/Words.antt =====
-- Bytes to registers and back.
use ygate_git.Base.{
  ℕ, ◌*◌, ◌/◌, ◌%◌, ◌≡◌, refl, Bool, true, ok, List, [], ◌∷◌, length, if◌then◌else◌, arith, ◌==◌,
}
use ygate_git.Base.Text.{Text, lit, equal_fold}
use ygate_git.Middleware.Decoder.{pair_up, bytes_to_registers}

-- The bytes in which a device sends its registers.
abbrev pub to_bytes : Bool → List ℕ → List ℕ
to_bytes little [] = []
to_bytes little (r ∷ rs) =
    (if little then r % 256 else r / 256)
    ∷ (if little then r / 256 else r % 256)
    ∷ to_bytes little rs

pub length-to_bytes : (little : Bool) (rs : List ℕ) → length (to_bytes little rs) ≡ 2 * length rs
length-to_bytes little [] = omega arith
length-to_bytes little (r ∷ rs) = omega (arith, length-to_bytes little rs)

pair_up-to_bytes : (little : Bool) (rs : List ℕ) → pair_up little (to_bytes little rs) ≡ rs
unfolding pair_up
pair_up-to_bytes little [] = refl
pair_up-to_bytes little (r ∷ rs) = ground (arith, pair_up-to_bytes little rs)

even_bytes : (little : Bool) (rs : List ℕ) → (length (to_bytes little rs) % 2 == 0) ≡ true
even_bytes little rs = ground (arith, length-to_bytes little rs)

-- The registers that were sent are read, in either byte order.
pub bytes_to_registers-to_bytes :
    (byte_order : Text) (rs : List ℕ)
    → bytes_to_registers (to_bytes (equal_fold byte_order (lit "LITTLE_ENDIAN")) rs) byte_order
      ≡ ok rs
unfolding bytes_to_registers
bytes_to_registers-to_bytes byte_order rs = rw (
  even_bytes (equal_fold byte_order (lit "LITTLE_ENDIAN")) rs,
  pair_up-to_bytes (equal_fold byte_order (lit "LITTLE_ENDIAN")) rs,
)

length-pair_up : (little : Bool) (bytes : List ℕ) → length (pair_up little bytes) ≡ length bytes / 2
unfolding pair_up
length-pair_up little [] = refl
length-pair_up little (a ∷ []) = refl
length-pair_up little (a ∷ b ∷ bytes) = omega (arith, length-pair_up little bytes)

-- An answer of 2n bytes gives n registers.
pub length-bytes_to_registers :
    (byte_order : Text) (bytes : List ℕ) (n : ℕ)
    → length bytes ≡ 2 * n
    → (rs : List ℕ) × (bytes_to_registers bytes byte_order ≡ ok rs) × (length rs ≡ n)
unfolding bytes_to_registers
length-bytes_to_registers byte_order bytes n h = (
  pair_up (equal_fold byte_order (lit "LITTLE_ENDIAN")) bytes,
  ground arith,
  omega (arith, length-pair_up (equal_fold byte_order (lit "LITTLE_ENDIAN")) bytes),
)
