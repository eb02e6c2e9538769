-- ===== src/Auth/Security.antt =====
-- services/auth-service/internal/auth/security.go: passwords and tokens.
use ygate_git.Base.{Bool, false, ◌&&◌, if◌then◌else◌, Option, none, some, length, leb, ◌==◌}
use ygate_git.Base.Text.{Text, text_eq}

-- What the package uses and does not implement: bcrypt, with the salt of a hash as an argument, SHA-256,
-- base64 and the parser of addresses of email.
pub record Crypto : Type 0 where
  pub bcrypt : Text → Text → Text
  pub compare_hash : Text → Text → Bool
  pub sha256 : Text → Text
  pub encode : Text → Text
  pub decode : Text → Option Text
  pub parse_address : Text → Option Text

unfoldable pub validate_new_password : Text → Bool
validate_new_password password = leb 12 (length password) && leb (length password) 72

module _ (c : Crypto) where
  -- The hash of 32 bytes that were decoded.
  unfoldable pub hash_decoded : Option Text → Option Text
  hash_decoded none = none
  hash_decoded (some raw) = if length raw == 32 then some (c.sha256 raw) else none

  -- hashPresentedToken
  unfoldable pub hash_presented_token : Text → Option Text
  unfolding hash_decoded
  hash_presented_token token = hash_decoded (c.decode token)

  -- The token and the hash that newToken makes of 32 random bytes.
  unfoldable pub new_token : Text → Text × Text
  new_token raw = (c.encode raw, c.sha256 raw)

  -- hashesEqual
  unfoldable pub hashes_equal : Text → Text → Bool
  unfolding hash_presented_token text_eq
  hashes_equal expected token = elim (hash_presented_token token) [
    | none ↦ false
    | some hash ↦ text_eq expected hash
  ]
