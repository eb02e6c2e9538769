-- ===== src/Middleware/Tests/Licensing.antt =====
-- A licence for every machine, with texts that stand for their own base64 and a signature that repeats
-- the payload; an activation is written as its numbers.
use ygate_git.Base.{ℕ, suc, zero, Option, none, some, [], ◌∷◌, ◌++◌, length, take, drop}
use ygate_git.Base.Int.{ℤ, pos, negsuc}
use ygate_git.Base.Text.{Text, lit, text_eq}
use ygate_git.Middleware.License.{Payload, Activation, LicenseStatus, Crypto}

abbrev sign_of : ℤ → ℕ
sign_of (pos n) = 0
sign_of (negsuc n) = 1

abbrev size_of : ℤ → ℕ
size_of (pos n) = n
size_of (negsuc n) = n

abbrev int_of : ℕ → ℕ → ℤ
int_of zero n = pos n
int_of (suc s) n = negsuc n

abbrev print_it : Activation → Text
print_it a =
    length a.token
    ∷ sign_of a.activated_at
    ∷ size_of a.activated_at
    ∷ (a.token ++ a.activation_machine)

abbrev parse_it : Text → Option Activation
parse_it (k ∷ s ∷ n ∷ rest) =
    some
      (record { token = take k rest; activated_at = int_of s n; activation_machine = drop k rest })
parse_it _ = none

abbrev any_machine : Payload
any_machine = record {
  customer = lit "plant";
  machine_id = lit "*";
  expires_at = [];
  features = [];
}

abbrev toy : Crypto
toy = record {
  decode_std = λ s. some s;
  decode_raw_std = λ s. some s;
  decode_url = λ s. some s;
  decode_raw_url = λ s. some s;
  verify = λ key text signature. text_eq text signature;
  parse_payload = λ bytes. some any_machine;
  parse_activation = parse_it;
  print_activation = print_it;
  parse_time = λ s. none;
  sha256 = λ s. s;
  hex = λ s. s;
}

abbrev public_key : Text
public_key = lit "0123456789abcdef0123456789abcdef"

abbrev status_at : ℤ → LicenseStatus
status_at now = record {
  payload = any_machine;
  status_activated_at = now;
  status_machine = lit "M1";
  license_file = lit "license.json";
}

abbrev activated_file : Text
activated_file =
    print_it (record { token = lit "p.p"; activated_at = pos 5; activation_machine = lit "M1" })
