-- ===== src/Middleware/Modbus/Frames.antt =====
-- A Modbus TCP device as the protocol describes it, and the frames that it sends.
use ygate_git.Base.{
  ℕ, zero, suc, ◌+◌, ◌-◌, ◌*◌, ◌/◌, ◌%◌, ◌≤◌, ◌<◌, ◌≡◌, refl, ap, false, ok, List, [], ◌∷◌, ◌++◌,
  arith, some, length, take, length-append,
}
use ygate_git.Middleware.Decoder.Words.{to_bytes}
use ygate_git.Middleware.Modbus.{Outcome, arrives, be16, read_full, or_eof, read_pdu}

-- A frame: transaction, protocol 0, length, unit, PDU.
abbrev pub frame : ℕ → ℕ → List ℕ → List ℕ
frame tx unit pdu =
    (tx / 256 % 256)
    ∷ (tx % 256)
    ∷ 0
    ∷ 0
    ∷ ((length pdu + 1) / 256 % 256)
    ∷ ((length pdu + 1) % 256)
    ∷ unit
    ∷ pdu

-- `n` registers from an address on; the memory is given by function code and address.
unfoldable pub values : (ℕ → ℕ → ℕ) → ℕ → ℕ → ℕ → List ℕ
values memory fc address zero = []
values memory fc address (suc n) = memory fc address ∷ values memory fc (suc address) n

pub length-values :
    (memory : ℕ → ℕ → ℕ) (fc address n : ℕ) → length (values memory fc address n) ≡ n
unfolding values
length-values memory fc address zero = refl
length-values memory fc address (suc n) = ap suc (length-values memory fc (suc address) n)

-- The normal answer: function code, byte count, registers.
abbrev pub registers_pdu : (ℕ → ℕ → ℕ) → ℕ → ℕ → ℕ → List ℕ
registers_pdu memory fc address quantity =
    fc ∷ (2 * quantity) ∷ to_bytes false (values memory fc address quantity)

-- A device that answers a request for registers, and sends more bytes after the answer or none.
unfoldable pub device : (ℕ → ℕ → ℕ) → List ℕ → List ℕ → Outcome
device memory more (t₀ ∷ t₁ ∷ p₀ ∷ p₁ ∷ l₀ ∷ l₁ ∷ unit ∷ fc ∷ a₀ ∷ a₁ ∷ q₀ ∷ q₁ ∷ []) =
    arrives (frame (be16 t₀ t₁) unit (registers_pdu memory fc (be16 a₀ a₁) (be16 q₀ q₁)) ++ more)
device memory more _ = arrives []

-- A device that refuses every request with an exception.
unfoldable pub refusing_device : ℕ → List ℕ → Outcome
refusing_device code (t₀ ∷ t₁ ∷ p₀ ∷ p₁ ∷ l₀ ∷ l₁ ∷ unit ∷ fc ∷ rest) =
    arrives (frame (be16 t₀ t₁) unit ((fc + 128) ∷ code ∷ []))
refusing_device code _ = arrives []

take-append {ℓ} : {A : Type ℓ} (xs ys : List A) → take (length xs) (xs ++ ys) ≡ xs
take-append [] ys = refl
take-append (x ∷ xs) ys = ap (λ l. x ∷ l) (take-append xs ys)

pub be16-put_be16 : (v : ℕ) → v < 65536 → be16 (v / 256 % 256) (v % 256) ≡ v
be16-put_be16 v h = omega arith

length_back :
    (pdu : List ℕ)
    → length pdu ≤ 252
    → be16 ((length pdu + 1) / 256 % 256) ((length pdu + 1) % 256) - 1 ≡ length pdu
length_back pdu h = omega arith

read_full-append : (pdu more : List ℕ) → read_full (length pdu) (pdu ++ more) ≡ some pdu
unfolding read_full
read_full-append pdu more = rw (length-append pdu more, take-append pdu more) (ground arith)

-- A whole frame of the right transaction is read as its PDU, whatever follows it.
pub read_pdu-frame :
    (tx unit : ℕ) (pdu more : List ℕ)
    → tx < 65536
    → 2 ≤ length pdu
    → length pdu ≤ 252
    → read_pdu tx (frame tx unit pdu ++ more) ≡ ok pdu
unfolding read_pdu or_eof
read_pdu-frame tx unit pdu more h lo hi =
    rw (be16-put_be16 tx h, length_back pdu hi, read_full-append pdu more) (ground arith)
