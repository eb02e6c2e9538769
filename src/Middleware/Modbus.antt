-- ===== src/Middleware/Modbus.antt =====
-- internal/modbus/client.go: the Modbus TCP client.
-- The network is a parameter: what comes of dialling a host, sending one request and reading what
-- arrives before the deadline. Latencies are left out.
pub mod Frames
pub mod Reads
pub mod Probes
use Prim.Native.String.{String}
use ygate_git.Base.{
  ℕ, ◌+◌, ◌-◌, ◌*◌, ◌/◌, ◌%◌, ◌^◌, Bool, true, false, not, ◌&&◌, ◌||◌, Option, none, some, Result,
  ok, err, guard, ◌>>=◌, ◌>>◌, List, [], ◌∷◌, ◌++◌, if◌then◌else◌, ltb, ◌==◌, length, take, drop,
  some_item,
}
use ygate_git.Base.Int.{ℤ, pos, eqb_ℤ, to_uint}
use ygate_git.Base.Text.{Text, lit, digits, is_empty}

-- What one dial, one write and the reads after it meet with.
pub data Outcome : Type 0 where
  dial_fails write_fails : Outcome
  arrives : List ℕ → Outcome

-- The network by host, port and the bytes that are written.
abbrev pub Network : Type 0
Network = Text → ℤ → List ℕ → Outcome

pub record Client : Type 0 where
  pub transaction : ℕ  -- uint32

pub data ReadError : Type 0 where
  unsupported_function_code bad_quantity dial_error write_error : ReadError
  unexpected_eof transaction_id_mismatch invalid_response_length : ReadError
  function_code_mismatch invalid_byte_count : ReadError
  modbus_exception : ℕ → ReadError

-- `binary.BigEndian.PutUint16` and `Uint16`.
abbrev pub put_be16 : ℕ → List ℕ
put_be16 v = (v / 256 % 256) ∷ (v % 256) ∷ []

abbrev pub be16 : ℕ → ℕ → ℕ
be16 hi lo = hi * 256 + lo

unfoldable pub request : ℕ → ℤ → ℤ → ℕ → ℕ → List ℕ
unfolding to_uint
request tx unit_id function_code address quantity =
    put_be16 tx
    ++ 0 ∷ 0 ∷ put_be16 6
    ++ to_uint 256 unit_id ∷ to_uint 256 function_code ∷ put_be16 address
    ++ put_be16 quantity

-- `io.ReadFull` of `n` bytes.
unfoldable pub read_full : ℕ → List ℕ → Option (List ℕ)
read_full n bytes = if ltb (length bytes) n then none else some (take n bytes)

unfoldable pub or_eof : Option (List ℕ) → Result ReadError (List ℕ)
or_eof none = err unexpected_eof
or_eof (some bytes) = ok bytes

-- The header of seven bytes and the PDU behind it. A header length of 0 is -1 in the code, and is
-- refused like the 0 that it is here.
unfoldable pub read_pdu : ℕ → List ℕ → Result ReadError (List ℕ)
read_pdu tx (h₀ ∷ h₁ ∷ h₂ ∷ h₃ ∷ h₄ ∷ h₅ ∷ h₆ ∷ rest) =
    let len = be16 h₄ h₅ - 1 in
    if not (be16 h₀ h₁ == tx)
    then err transaction_id_mismatch
    else if ltb len 2 || ltb 252 len
    then err invalid_response_length
    else or_eof (read_full len rest)
read_pdu tx bytes = err unexpected_eof

-- `pdu[0]&0x80 != 0`
abbrev pub is_exception : ℕ → Bool
is_exception code = code / 128 % 2 == 1

-- The tests of `Read` on a PDU; `read_pdu` returns two bytes or more, so the last clause is not reached.
unfoldable pub check_pdu : ℤ → List ℕ → Result ReadError (List ℕ)
unfolding to_uint
check_pdu function_code (code ∷ count ∷ bytes) =
    if is_exception code
    then err (modbus_exception count)
    else if not (code == to_uint 256 function_code)
    then err function_code_mismatch
    else if not (count == length bytes)
    then err invalid_byte_count
    else ok bytes
check_pdu function_code pdu = err invalid_byte_count

-- `c.transaction.Add(1)`
unfoldable pub next_transaction : Client → Client
next_transaction c = record { transaction = (c.transaction + 1) % 2 ^ 32 }

-- `uint16(c.transaction.Add(1))`
abbrev pub transaction_id : Client → ℕ
transaction_id c = c.transaction % 2 ^ 16

-- One request over one connection, and the PDU of the answer. The transaction is counted once the
-- dial has succeeded.
unfoldable pub exchange :
    Network → Client → Text → ℤ → ℤ → ℤ → ℕ → ℕ → Result ReadError (List ℕ) × Client
exchange net c host port unit_id function_code address quantity =
    let c' = next_transaction c in
    let tx = transaction_id c' in
    elim (net host port (request tx unit_id function_code address quantity)) [
      | dial_fails ↦ (err dial_error, c)
      | write_fails ↦ (err write_error, c')
      | arrives bytes ↦ (read_pdu tx bytes, c')
    ]

unfoldable pub read :
    Network → Client → Text → ℤ → ℤ → ℤ → ℕ → ℕ → Result ReadError (List ℕ) × Client
read net c host port unit_id function_code address quantity =
    if not (eqb_ℤ function_code (pos 3) || eqb_ℤ function_code (pos 4))
    then (err unsupported_function_code, c)
    else if quantity == 0 || ltb 125 quantity
    then (err bad_quantity, c)
    else (let (pdu, c') = exchange net c host port unit_id function_code address quantity in
        (pdu >>= check_pdu function_code, c'))

-- `probeFunction`: one register at address 0; an exception answer is an answer. The code tests against
-- `functionCode|0x80`, which is the sum for the function codes 3 and 4 that are probed.
unfoldable pub check_probe : ℤ → List ℕ → Result ReadError (List ℕ)
unfolding to_uint
check_probe function_code [] = err function_code_mismatch
check_probe function_code (code ∷ bytes) =
    if code == to_uint 256 function_code || code == to_uint 256 function_code + 128
    then ok (code ∷ bytes)
    else err function_code_mismatch

unfoldable pub probe_function :
    Network → Client → Text → ℤ → ℤ → ℕ → Result ReadError (List ℕ) × Client
probe_function net c host port unit_id function_code =
    let (pdu, c') = exchange net c host port unit_id (pos function_code) 0 1 in
    (pdu >>= check_probe (pos function_code), c')

-- What a probe of one function code adds to the report.
pub data Answer : Type 0 where
  no_response normal : Answer
  exception : ℕ → Answer

unfoldable pub answer : Result ReadError (List ℕ) → Answer
answer (ok (code ∷ count ∷ bytes)) = if is_exception code then exception count else normal
answer (ok (code ∷ [])) = if is_exception code then exception 0 else normal
answer (ok []) = normal
answer (err e) = no_response

-- Whether the function code is listed: not without an answer, nor if the exception is 1, "illegal
-- function".
unfoldable pub is_supported : Answer → Bool
is_supported no_response = false
is_supported normal = true
is_supported (exception code) = not (code == 1)

-- `FC%02d`
abbrev fc_name : ℕ → Text
fc_name fc = lit "FC0" ++ digits fc fc

unfoldable pub detail : ℕ → Answer → Text
unfolding digits
detail fc no_response = fc_name fc ++ lit " no response"
detail fc normal = fc_name fc ++ lit " normal"
detail fc (exception code) = fc_name fc ++ lit " exception " ++ digits code code

unfoldable pub register_family : List ℕ → Text
unfolding some_item
register_family functions =
    let has3 = some_item (λ fc. fc == 3) functions in
    let has4 = some_item (λ fc. fc == 4) functions in
    if has3 && has4
    then lit "Holding/Input registers (4x/3x)"
    else if has3
    then lit "Holding registers (4x / FC03)"
    else if has4
    then lit "Input registers (3x / FC04)"
    else lit "unknown"

unfoldable pub join_onto : Text → List Text → Text
unfolding is_empty
join_onto out [] = out
join_onto out (value ∷ values) =
    join_onto ((if is_empty out then out else out ++ lit "; ") ++ value) values

unfoldable pub join_details : List Text → Text
unfolding join_onto
join_details values = join_onto [] values

pub record ProbeInfo : Type 0 where
  pub protocol : Text
  pub transport : Text
  pub function_codes : List ℕ
  pub family : Text
  pub details : Text

-- The loop over the function codes: the codes listed, the details, the client.
unfoldable pub probe_all : Network → Client → Text → ℤ → ℤ → List ℕ → List ℕ × List Text × Client
probe_all net c host port unit_id [] = ([], [], c)
probe_all net c host port unit_id (fc ∷ fcs) =
    let (pdu, c') = probe_function net c host port unit_id fc in
    let a = answer pdu in
    let (codes, details, c'') = probe_all net c' host port unit_id fcs in
    (if is_supported a then fc ∷ codes else codes, detail fc a ∷ details, c'')

-- The report, and whether an error is returned with it: "no Modbus FC03/FC04 response".
unfoldable pub probe_details : Network → Client → Text → ℤ → ℤ → ProbeInfo × Bool × Client
probe_details net c host port unit_id =
    let (codes, details, c') = probe_all net c host port unit_id (3 ∷ 4 ∷ []) in
    (
      record {
        protocol = lit "Modbus TCP";
        transport = lit "TCP";
        function_codes = codes;
        family = register_family codes;
        details = join_details details;
      },
      length codes == 0,
      c',
    )
