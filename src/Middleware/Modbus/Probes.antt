-- ===== src/Middleware/Modbus/Probes.antt =====
-- What a probe reports of a device.
use ygate_git.Base.{
  ℕ, ◌+◌, ◌≡◌, ◌⊎◌, inl, inr, refl, false, ok, List, [], ◌∷◌, ◌==◌, if◌then◌else◌, arith,
}
use ygate_git.Base.Int.{ℤ, pos}
use ygate_git.Base.Text.{Text, lit}
use ygate_git.Middleware.Profile.Address.Range.{IsReadable}
use ygate_git.Middleware.Modbus.Frames.{device, refusing_device, registers_pdu}
use ygate_git.Middleware.Modbus.Reads.{exchange-device, exchange-refusing_device}
use ygate_git.Middleware.Modbus.{
  Client, next_transaction, check_probe, probe_function, answer, is_supported, probe_all,
  probe_details, register_family, join_details, detail,
}

probes-IsReadable : (fc : ℕ) → (fc ≡ 3) ⊎ (fc ≡ 4) → IsReadable (pos fc) 0 1
probes-IsReadable fc h = ground arith

module _ (host : Text) (port unit : ℤ) where
  answer-device :
      (memory : ℕ → ℕ → ℕ) (more : List ℕ) (c : Client) (fc : ℕ)
      → (fc ≡ 3) ⊎ (fc ≡ 4)
      → probe_function (λ _ _. device memory more) c host port unit fc
        ≡ (ok (registers_pdu memory fc 0 1), next_transaction c)
  unfolding probe_function check_probe
  answer-device memory more c fc h =
      rw (exchange-device memory fc 0 1 (probes-IsReadable fc h) c host port unit more)
        (ground arith)

  answer-refusing_device :
      (c : Client) (fc code : ℕ)
      → (fc ≡ 3) ⊎ (fc ≡ 4)
      → probe_function (λ _ _. refusing_device code) c host port unit fc
        ≡ (ok ((fc + 128) ∷ code ∷ []), next_transaction c)
  unfolding probe_function check_probe
  answer-refusing_device c fc code h =
      rw (exchange-refusing_device (λ _ _. 0) fc 0 1 (probes-IsReadable fc h) c host port unit code)
        (ground arith)

  -- A probe of a device that answers lists both function codes and reports no error.
  pub probe_details-device :
      (memory : ℕ → ℕ → ℕ) (more : List ℕ) (c : Client)
      → let (info, failed, c') = probe_details (λ _ _. device memory more) c host port unit in
        (info.function_codes ≡ 3 ∷ 4 ∷ [])
        × (info.family ≡ lit "Holding/Input registers (4x/3x)")
        × (info.details ≡ lit "FC03 normal; FC04 normal")
        × (failed ≡ false)
        × (c' ≡ next_transaction (next_transaction c))
  unfolding probe_details probe_all answer is_supported register_family join_details detail
  probe_details-device memory more c =
      rw
        (
          answer-device memory more c 3 (inl refl),
          answer-device memory more (next_transaction c) 4 (inr refl),
        )
        (refl, refl, refl, refl, refl)

  -- A probe of a device that refuses with an exception other than 1, "illegal function", lists both
  -- function codes; with exception 1 it lists none and reports an error.
  pub probe_details-refusing_device :
      (code : ℕ) (c : Client)
      → let (info, failed, c') = probe_details (λ _ _. refusing_device code) c host port unit in
        (info.function_codes ≡ (if code == 1 then [] else 3 ∷ 4 ∷ [])) × (failed ≡ (code == 1))
  unfolding probe_details probe_all answer is_supported register_family
  probe_details-refusing_device code c =
      rw
        (
          answer-refusing_device c 3 code (inl refl),
          answer-refusing_device (next_transaction c) 4 code (inr refl),
        )
        (ground arith)
