-- ===== src/Middleware/Service/Device.antt =====
-- A poll of a device that answers: what is measured, and that nothing is lost between the blocks.
use mathlib.Core.List.{foldl, foldl-append, Perm}
use ygate_git.Base.{
  ℕ, zero, suc, ◌+◌, ◌-◌, ◌%◌, ◌≤◌, ◌≡◌, ◌⊎◌, refl, sym, ap, ◌∙◌, subst, false, Bool-cases, inl,
  inr, Result, ok, err, List, [], ◌∷◌, All, if◌then◌else◌, length, take, drop, arith,
}
use ygate_git.Base.Int.{ℤ, pos, negsuc, pos_part, ◌+ℤ◌, ltb_ℤ}
use ygate_git.Base.Text.{Text, lit, equal_fold}
use ygate_git.Middleware.Float64.{Float64}
use ygate_git.Middleware.Domain.{RegisterSample, RegisterProfile, ConnectionConfig}
use ygate_git.Middleware.Profile.Address.Range.{IsReadable}
use ygate_git.Middleware.Profile.Blocks.{Entry, Block, resolve_entries, build_blocks, block_limit}
use ygate_git.Middleware.Profile.Blocks.Entries.{size}
use ygate_git.Middleware.Profile.Blocks.Merge.{IsInside, IsBlock}
use ygate_git.Middleware.Profile.Blocks.Laws.{read_order, build_blocks_lem}
use ygate_git.Middleware.Decoder.{DecodeError, decode, bytes_to_registers}
use ygate_git.Middleware.Decoder.Words.{to_bytes, bytes_to_registers-to_bytes}
use ygate_git.Middleware.Modbus.{Network, Client, next_transaction}
use ygate_git.Middleware.Modbus.Frames.{values, device, length-values}
use ygate_git.Middleware.Modbus.Reads.{read-device}
use ygate_git.Middleware.Service.{first}
use ygate_git.Middleware.Service.Poll.{
  Progress, fail, add_decoded, add_block, read_registers, decode_entry, poll_block, poll_blocks,
}

same_values :
    (memory : ℕ → ℕ → ℕ) (fc a b m n : ℕ)
    → a ≡ b
    → m ≡ n
    → values memory fc a m ≡ values memory fc b n
same_values memory fc a b m n h k = ap (λ x. values memory fc x m) h ∙ ap (values memory fc b) k

drop-values :
    (memory : ℕ → ℕ → ℕ) (fc a n k : ℕ)
    → drop k (values memory fc a n) ≡ values memory fc (a + k) (n - k)
unfolding values
drop-values memory fc a n zero =
    same_values memory fc a (a + 0) n (n - 0) (omega arith) (omega arith)
drop-values memory fc a zero (suc k) =
    same_values memory fc (a + suc k) (a + suc k) 0 (0 - suc k) refl (omega arith)
drop-values memory fc a (suc n) (suc k) =
    drop-values memory fc (suc a) n k
    ∙ same_values memory fc (suc a + k) (a + suc k) (n - k) (suc n - suc k) (omega arith)
        (omega arith)

take-values :
    (memory : ℕ → ℕ → ℕ) (fc a n k : ℕ)
    → k ≤ n
    → take k (values memory fc a n) ≡ values memory fc a k
unfolding values
take-values memory fc a n zero h = refl
take-values memory fc a zero (suc k) h = absurd (omega arith)
take-values memory fc a (suc n) (suc k) h =
    ap (λ l. memory fc a ∷ l) (take-values memory fc (suc a) n k (omega arith))

slice-values :
    {F : Type 0} (memory : ℕ → ℕ → ℕ) (fc : ℕ) (b : Block F) (e : Entry F)
    → b.quantity ≤ 125
    → IsInside b e
    → take
        (size e)
        (drop ((e.offset + 65536 - b.start) % 65536) (values memory fc b.start b.quantity))
      ≡ values memory fc e.offset (size e)
slice-values memory fc b e small h =
    let at : (e.offset + 65536 - b.start) % 65536 ≡ e.offset - b.start =
      omega (arith, h.from_start, h.to_end) in
    let back : b.start + (e.offset - b.start) ≡ e.offset = omega (arith, h.from_start) in
    rw (at, drop-values memory fc b.start b.quantity (e.offset - b.start), back)
      (take-values memory fc e.offset (b.quantity - (e.offset - b.start)) (size e)
        (omega (arith, h.from_start, h.to_end)))

fits :
    {F : Type 0} (memory : ℕ → ℕ → ℕ) (fc : ℕ) (b : Block F) (e : Entry F)
    → b.quantity ≤ 125
    → IsInside b e
    → ltb_ℤ
        (pos (length (values memory fc b.start b.quantity)))
        (pos ((e.offset + 65536 - b.start) % 65536) +ℤ e.definition.length)
      ≡ false
unfolding ◌+ℤ◌
fits memory fc b e small h =
    ground (arith, h.from_start, h.to_end, length-values memory fc b.start b.quantity)

module _ (fl : Float64) (memory : ℕ → ℕ → ℕ) (word_order : Text) where
  open fl use {F, is_nan}

  -- The samples with one more, if the value was decoded and is a number.
  abbrev pub add_measured :
      Entry F → Result DecodeError F → List (RegisterSample F) → List (RegisterSample F)
  add_measured e (err x) samples = samples
  add_measured e (ok raw) samples =
      if is_nan raw
      then samples
      else record {
        function_code = e.definition.function_code;
        register_address = e.definition.register_address;
        data_type = e.definition.data_type;
        raw_value = raw;
        quality = lit "GOOD";
      }
        ∷ samples

  -- What a register is: the words at its address, decoded.
  unfoldable pub measure : List (RegisterSample F) → Entry F → List (RegisterSample F)
  measure samples e =
      let d = e.definition in
      add_measured e
        (decode fl (values memory (pos_part d.function_code) e.offset (size e)) d.data_type
          (first (d.word_order ∷ word_order ∷ [])))
        samples

  module _ (c : ConnectionConfig) where
    add_decoded-samples :
        (e : Entry F) (r : Result DecodeError F) (p : Progress F)
        → (add_decoded fl c e r p).samples ≡ add_measured e r p.samples
    unfolding add_decoded fail
    add_decoded-samples e (err x) p = refl
    add_decoded-samples e (ok raw) p = elim (Bool-cases (is_nan raw)) [
      | inl no_number ↦ rw no_number refl
      | inr number ↦ rw number refl
    ]

    decode_entry-measure :
        (fc : ℕ) (b : Block F) (p : Progress F) (e : Entry F)
        → b.quantity ≤ 125
        → b.function_code ≡ pos fc
        → IsInside b e
        → (decode_entry fl c word_order (values memory fc b.start b.quantity) b.start p e).samples
          ≡ measure p.samples e
    unfolding decode_entry measure
    decode_entry-measure fc b p e small code h =
        let same_code : pos_part e.definition.function_code ≡ fc =
          ap pos_part (h.same_function_code ∙ code) in
        rw (fits memory fc b e small h, slice-values memory fc b e small h, same_code)
          (add_decoded-samples e _ p)

    decode_entries-measure :
        (fc : ℕ) (b : Block F) (es : List (Entry F)) (p : Progress F)
        → b.quantity ≤ 125
        → b.function_code ≡ pos fc
        → All (IsInside b) es
        → (foldl
            (decode_entry fl c word_order (values memory fc b.start b.quantity) b.start)
            p
            es).samples
          ≡ foldl measure p.samples es
    decode_entries-measure fc b [] p small code h = refl
    decode_entries-measure fc b (e ∷ es) p small code h =
        decode_entries-measure fc b es _ small code h.1
        ∙ ap (λ x. foldl measure x es) (decode_entry-measure fc b p e small code h.0)

-- The function code of a block that can be read is not negative.
code_of : (fc : ℤ) (start quantity : ℕ) → IsReadable fc start quantity → fc ≡ pos (pos_part fc)
code_of fc start quantity h = code_cases fc h.function_code_lem
  where
    code_cases : (x : ℤ) → (x ≡ pos 3) ⊎ (x ≡ pos 4) → x ≡ pos (pos_part x)
    code_cases (pos n) k = refl
    code_cases (negsuc n) (inl k) = absurd (cc)
    code_cases (negsuc n) (inr k) = absurd (cc)

module _ (fl : Float64) (memory : ℕ → ℕ → ℕ) (more : List ℕ) (c : ConnectionConfig) where
  open fl use {F}

  abbrev pub network : Network
  network _ _ = device memory more

  read_registers-device :
      (byte_order : Text) (fc start quantity : ℕ) (client : Client)
      → equal_fold byte_order (lit "LITTLE_ENDIAN") ≡ false
      → IsReadable (pos fc) start quantity
      → read_registers fl network c byte_order (pos fc) start quantity client
        ≡ (ok (values memory fc start quantity), next_transaction client)
  unfolding read_registers
  read_registers-device byte_order fc start quantity client big h =
      let words = values memory fc start quantity in
      let back : bytes_to_registers (to_bytes false words) byte_order ≡ ok words =
        subst (λ b. bytes_to_registers (to_bytes b words) byte_order ≡ ok words) big
          (bytes_to_registers-to_bytes byte_order words) in
      rw (read-device memory fc start quantity h client c.host c.port c.unit_id more, back)

  module _ (prof : RegisterProfile F)
      (big : equal_fold prof.byte_order (lit "LITTLE_ENDIAN") ≡ false) (limit : ℕ) where
    poll_block-measure :
        (p : Progress F) (b : Block F)
        → IsBlock limit b
        → (poll_block fl network c prof p b).samples
          ≡ foldl (measure fl memory prof.word_order) p.samples b.entries
    unfolding poll_block add_block
    poll_block-measure p b h =
        let fc = pos_part b.function_code in
        let code : b.function_code ≡ pos fc =
          code_of b.function_code b.start b.quantity h.readable in
        let readable : IsReadable (pos fc) b.start b.quantity =
          subst (λ x. IsReadable x b.start b.quantity) code h.readable in
        rw (code, read_registers-device prof.byte_order fc b.start b.quantity p.client big readable)
          (decode_entries-measure fl memory prof.word_order c fc b b.entries _ readable.at_most_125
            code h.inside)

    poll_blocks-measure :
        (bs : List (Block F)) (p : Progress F)
        → All (IsBlock limit) bs
        → (foldl (poll_block fl network c prof) p bs).samples
          ≡ foldl (measure fl memory prof.word_order) p.samples (read_order bs)
    poll_blocks-measure [] p h = refl
    poll_blocks-measure (b ∷ bs) p h =
        poll_blocks-measure bs (poll_block fl network c prof p b) h.1
        ∙ ap (λ x. foldl (measure fl memory prof.word_order) x (read_order bs))
            (poll_block-measure p b h.0)
        ∙ sym (foldl-append (measure fl memory prof.word_order) p.samples b.entries (read_order bs))

  -- A poll of a device that sends its registers in big-endian order: if the registers of the profile
  -- resolve, the blocks are built, every resolved register is read in them as often as the profile has
  -- it, and the samples are those of reading each register by itself and decoding it.
  pub poll_blocks-device :
      (prof : RegisterProfile F) (es : List (Entry F)) (client : Client)
      → equal_fold prof.byte_order (lit "LITTLE_ENDIAN") ≡ false
      → resolve_entries prof prof.registers ≡ ok es
      → (blocks : List (Block F)) × (build_blocks prof ≡ ok blocks)
        × Perm (read_order blocks) es
        × ((poll_blocks fl network c prof client blocks).samples
            ≡ foldl (measure fl memory prof.word_order) [] (read_order blocks))
  poll_blocks-device prof es client big resolved =
      let (blocks, built, good, same) = build_blocks_lem prof es resolved in
      (
        blocks,
        built,
        same,
        poll_blocks-measure prof big (block_limit prof.max_block_size) blocks _ good,
      )
