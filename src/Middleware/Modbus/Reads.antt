-- ===== src/Middleware/Modbus/Reads.antt =====
-- `Read` against a device, and what a successful `Read` says.
use ygate_git.Base.{
  ℕ, ◌+◌, ◌*◌, ◌%◌, ◌<◌, ◌≡◌, ◌⊎◌, Bool, true, false, not, ◌||◌, Result, ok, err, List, [], ◌∷◌,
  ◌++◌, arith, length, ltb, ◌==◌,
}
use ygate_git.Base.Int.{ℤ, pos, eqb_ℤ, to_uint}
use ygate_git.Base.Text.{Text}
use ygate_git.Middleware.Profile.Address.Range.{IsReadable}
use ygate_git.Middleware.Decoder.Words.{to_bytes, length-to_bytes}
use ygate_git.Middleware.Modbus.Frames.{
  frame, values, length-values, registers_pdu, device, refusing_device, be16-put_be16,
  read_pdu-frame,
}
use ygate_git.Middleware.Modbus.{
  Network, Client, ReadError, modbus_exception, arrives, request, check_pdu, next_transaction,
  transaction_id, exchange, read,
}

abbrev pub is_error : Result ReadError (List ℕ) → Bool
is_error (ok bytes) = false
is_error (err e) = true

module _ (memory : ℕ → ℕ → ℕ) (fc : ℕ) (address quantity : ℕ) where
  length-registers_pdu : length (registers_pdu memory fc address quantity) ≡ 2 + 2 * quantity
  length-registers_pdu = omega (
    arith,
    length-to_bytes false (values memory fc address quantity),
    length-values memory fc address quantity,
  )

  module _ (readable : IsReadable (pos fc) address quantity) where
    check_pdu-registers :
        check_pdu (pos fc) (registers_pdu memory fc address quantity)
        ≡ ok (to_bytes false (values memory fc address quantity))
    unfolding check_pdu
    check_pdu-registers = ground (
      arith,
      readable,
      length-to_bytes false (values memory fc address quantity),
      length-values memory fc address quantity,
    )

    small_code : fc % 256 ≡ fc
    small_code = ground (arith, readable)

    accepted : not (eqb_ℤ (pos fc) (pos 3) || eqb_ℤ (pos fc) (pos 4)) ≡ false
    unfolding eqb_ℤ
    accepted = ground (arith, readable)

    fits_request : quantity == 0 || ltb 125 quantity ≡ false
    fits_request = ground (arith, readable)

    -- The request that `Read` sends is understood by the device.
    device-request :
        (tx : ℕ) (unit : ℤ) (more : List ℕ)
        → tx < 65536
        → device memory more (request tx unit (pos fc) address quantity)
          ≡ arrives (frame tx (to_uint 256 unit) (registers_pdu memory fc address quantity) ++ more)
    unfolding request device
    device-request tx unit more h = rw (
      be16-put_be16 tx h,
      be16-put_be16 address (omega arith),
      be16-put_be16 quantity (omega arith),
      small_code,
    )

    pub exchange-device :
        (c : Client) (host : Text) (port unit : ℤ) (more : List ℕ)
        → exchange (λ _ _. device memory more) c host port unit (pos fc) address quantity
          ≡ (ok (registers_pdu memory fc address quantity), next_transaction c)
    unfolding exchange
    exchange-device c host port unit more =
        let tx = transaction_id (next_transaction c) in
        rw (
          device-request tx unit more (omega arith),
          exchange,
          read_pdu-frame tx (to_uint 256 unit) (registers_pdu memory fc address quantity) more
              (omega arith) (omega (arith, length-registers_pdu))
              (omega (arith, length-registers_pdu)),
        )

    pub exchange-refusing_device :
        (c : Client) (host : Text) (port unit : ℤ) (code : ℕ)
        → exchange (λ _ _. refusing_device code) c host port unit (pos fc) address quantity
          ≡ (ok ((fc + 128) ∷ code ∷ []), next_transaction c)
    unfolding exchange refusing_device request
    exchange-refusing_device c host port unit code =
        let tx = transaction_id (next_transaction c) in
        rw (
          be16-put_be16 tx (omega arith),
          small_code,
          read_pdu-frame tx (to_uint 256 unit) ((fc + 128) ∷ code ∷ []) [] (omega arith)
              (omega arith) (omega arith),
        )

    -- A request of a readable range, sent to a device that has the registers, returns the bytes of
    -- exactly those registers, whatever the device sends after them; the transaction is counted.
    pub read-device :
        (c : Client) (host : Text) (port unit : ℤ) (more : List ℕ)
        → read (λ _ _. device memory more) c host port unit (pos fc) address quantity
          ≡ (ok (to_bytes false (values memory fc address quantity)), next_transaction c)
    unfolding read
    read-device c host port unit more =
        rw (accepted, fits_request, exchange-device c host port unit more, check_pdu-registers)

    check_pdu-refusal :
        (code : ℕ) → check_pdu (pos fc) ((fc + 128) ∷ code ∷ []) ≡ err (modbus_exception code)
    unfolding check_pdu
    check_pdu-refusal code = ground (arith, readable)

    -- Against a device that refuses the request, `Read` returns the device's exception code.
    pub read-refusing_device :
        (c : Client) (host : Text) (port unit : ℤ) (code : ℕ)
        → read (λ _ _. refusing_device code) c host port unit (pos fc) address quantity
          ≡ (err (modbus_exception code), next_transaction c)
    unfolding read
    read-refusing_device c host port unit code = rw (
      accepted,
      fits_request,
      exchange-refusing_device c host port unit code,
      check_pdu-refusal code,
    )

-- A request for another function code, or for no register or more than 125, is refused before
-- anything is sent, and the transaction counter stays.
pub read-rejects :
    (net : Network) (c : Client) (host : Text) (port unit fc : ℤ) (address quantity : ℕ)
    → ((eqb_ℤ fc (pos 3) || eqb_ℤ fc (pos 4)) ≡ false) ⊎ ((quantity ≡ 0) ⊎ (125 < quantity))
    → (is_error (read net c host port unit fc address quantity).0 ≡ true)
      × ((read net c host port unit fc address quantity).1 ≡ c)
unfolding read
read-rejects net c host port unit fc address quantity h = ground arith
