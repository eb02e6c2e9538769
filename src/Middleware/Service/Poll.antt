-- ===== src/Middleware/Service/Poll.antt =====
-- internal/app/service.go, `PollConnection`: the blocks of a device set read and decoded.
use mathlib.Core.List.{foldl, reverse}
use ygate_git.Base.{
  ℕ, ◌+◌, ◌-◌, ◌%◌, Bool, false, Option, none, some, Result, ok, err, List, [], ◌∷◌, ◌++◌,
  if◌then◌else◌, length, take, drop, ◌==◌,
}
use ygate_git.Base.Int.{ℤ, pos, pos_part, ◌+ℤ◌, ltb_ℤ, to_uint}
use ygate_git.Base.Text.{Text, lit, show_int, trim_space}
use ygate_git.Middleware.Float64.{Float64}
use ygate_git.Middleware.Domain.{
  Reading, RegisterSample, RegisterProfile, DeviceSet, ConnectionConfig,
}
use ygate_git.Middleware.Profile.Blocks.{Entry, Block, build_blocks}
use ygate_git.Middleware.Decoder.{DecodeError, decode, bytes_to_registers}
use ygate_git.Middleware.Modbus.{Client, Network, ReadError, read}
use ygate_git.Middleware.Store.File.{Store}
use ygate_git.Middleware.Store.File.Outbox.{save_poll_log}
use ygate_git.Middleware.Service.{
  PollError, invalid_connection_id, no_address, no_data, bad_profile, read_failed, bad_bytes,
  incomplete_response, not_a_number, decode_failed, Failure, World, first, modbus_address_hint,
  profile_of, local_connection, local_device_set,
}

-- What the closures of `PollConnection` change. The samples stand with the last one first.
pub record Progress (F : Type 0) : Type 0 where
  pub values : List (Text × F)
  pub samples : List (RegisterSample F)
  pub failures : List Failure
  pub last_error : Option PollError
  pub client : Client

-- `lastReadErr = e` and `appendFailure`.
unfoldable pub fail :
    {F : Type 0} → ConnectionConfig → ℤ → ℕ → ℕ → PollError → Progress F → Progress F
fail c fc start quantity e p =
    let failure : Failure = record {
      function_code = fc;
      start_address = start;
      quantity = quantity;
      unit_id = c.unit_id;
      error = e;
      hint = modbus_address_hint fc start e;
    } in
    record p { failures = p.failures ++ failure ∷ []; last_error = some e }

-- `readRegisters` behind the read, and behind the conversion of its bytes.
abbrev pub lift_words : Result DecodeError (List ℕ) → Result PollError (List ℕ)
lift_words (ok words) = ok words
lift_words (err e) = err (bad_bytes e)

abbrev pub as_words : Text → Result ReadError (List ℕ) → Result PollError (List ℕ)
as_words byte_order (ok bytes) = lift_words (bytes_to_registers bytes byte_order)
as_words byte_order (err e) = err (read_failed e)

abbrev is_one_of_size : {F : Type 0} → ℕ → List (Entry F) → Bool
is_one_of_size quantity [] = false
is_one_of_size quantity (e ∷ []) = quantity == to_uint 65536 e.definition.length
is_one_of_size quantity (e ∷ f ∷ es) = false

module _ (fl : Float64) where
  open fl use {F, is_nan}

  -- `readRegisters`
  unfoldable pub read_registers :
      Network → ConnectionConfig → Text → ℤ → ℕ → ℕ → Client → Result PollError (List ℕ) × Client
  read_registers net c byte_order fc start quantity client =
      let (answer, client') = read net client c.host c.port c.unit_id fc start quantity in
      (as_words byte_order answer, client')

  -- A decoded value is recorded: the last lines of `decodeEntry`.
  abbrev pub add_sample : Entry F → F → Progress F → Progress F
  add_sample entry raw p = record p {
    values = (show_int entry.definition.register_address, raw) ∷ p.values;
    samples =
        record {
          function_code = entry.definition.function_code;
          register_address = entry.definition.register_address;
          data_type = entry.definition.data_type;
          raw_value = raw;
          quality = lit "GOOD";
        }
        ∷ p.samples;
  }

  -- `int(entry.Offset - base)` of two uint16.
  abbrev pub start_in : Entry F → ℕ → ℕ
  start_in entry base = (entry.offset + 65536 - base) % 65536

  -- The registers of an entry among those read from `base` on. The entries have a length of 1 or more.
  abbrev pub slice : Entry F → List ℕ → ℕ → List ℕ
  slice entry regs base = take (pos_part entry.definition.length) (drop (start_in entry base) regs)

  -- `decodeEntry` behind the call of `Decode`.
  unfoldable pub add_decoded :
      ConnectionConfig → Entry F → Result DecodeError F → Progress F → Progress F
  add_decoded c entry (err e) p =
      let d = entry.definition in
      fail c d.function_code entry.offset (to_uint 65536 d.length) (decode_failed d.source_tag e) p
  add_decoded c entry (ok raw) p =
      let d = entry.definition in
      if is_nan raw
      then fail c d.function_code entry.offset (to_uint 65536 d.length) (not_a_number d.source_tag)
          p
      else add_sample entry raw p

  -- `decodeEntry`
  unfoldable pub decode_entry :
      ConnectionConfig → Text → List ℕ → ℕ → Progress F → Entry F → Progress F
  unfolding ◌+ℤ◌
  decode_entry c word_order regs base p entry =
      let d = entry.definition in
      if ltb_ℤ (pos (length regs)) (pos (start_in entry base) +ℤ d.length)
      then fail c d.function_code entry.offset (to_uint 65536 d.length)
          (incomplete_response d.source_tag) p
      else add_decoded c entry
          (decode fl (slice entry regs base) d.data_type (first (d.word_order ∷ word_order ∷ []))) p

  -- One turn of the loop that reads the entries of a block by themselves.
  unfoldable pub poll_entry :
      Network → ConnectionConfig → RegisterProfile F → Progress F → Entry F → Progress F
  poll_entry net c prof p entry =
      let d = entry.definition in
      let quantity = to_uint 65536 d.length in
      let (regs, client) =
        read_registers net c prof.byte_order d.function_code entry.offset quantity p.client in
      let p' = record p { client = client } in
      elim regs [
        | err e ↦ fail c d.function_code entry.offset quantity e p'
        | ok words ↦ decode_entry c prof.word_order words entry.offset p' entry
      ]

  -- `len(b.Entries) == 1 && b.Quantity == uint16(b.Entries[0].Definition.Length)`
  abbrev pub is_single : Block F → Bool
  is_single b = is_one_of_size b.quantity b.entries

  -- The loop body over the blocks behind the read of the block.
  unfoldable pub add_block :
      Network
      → ConnectionConfig
      → RegisterProfile F
      → Block F
      → Result PollError (List ℕ)
      → Progress F
      → Progress F
  add_block net c prof b (ok words) p =
      foldl (decode_entry c prof.word_order words b.start) p b.entries
  add_block net c prof b (err e) p =
      let p' = fail c b.function_code b.start b.quantity e p in
      if is_single b then p' else foldl (poll_entry net c prof) p' b.entries

  -- One turn of the loop over the blocks.
  unfoldable pub poll_block :
      Network → ConnectionConfig → RegisterProfile F → Progress F → Block F → Progress F
  poll_block net c prof p b =
      let (regs, client) =
        read_registers net c prof.byte_order b.function_code b.start b.quantity p.client in
      add_block net c prof b regs (record p { client = client })

  abbrev pub poll_blocks :
      Network → ConnectionConfig → RegisterProfile F → Client → List (Block F) → Progress F
  poll_blocks net c prof client blocks =
      foldl (poll_block net c prof)
        (record { values = []; samples = []; failures = []; last_error = none; client = client })
        blocks

  -- The warning that a poll with failures leaves in the log; its error is dropped.
  unfoldable pub log_failures : World F → ℤ → ConnectionConfig → List Failure → Store F → Store F
  unfolding save_poll_log
  log_failures w now c [] s = s
  log_failures w now c (f ∷ fs) s =
      (save_poll_log w.saves now
        (record {
          id = pos 0;
          connection_id = c.connection_id;
          connection_name = c.connection_name;
          status = lit "WARN";
          message = show_int (pos (length (f ∷ fs))) ++ lit " Modbus read warning(s)";
          detail = w.failures_json c (f ∷ fs);
          created_at = pos 0;
        })
        s).1

  -- What a poll returns: the reading and its samples in order.
  abbrev pub Polled : Type 0
  Polled = Result PollError (Reading F × List (RegisterSample F))

  unfoldable pub outcome_of : ℤ → ConnectionConfig → DeviceSet F → Progress F → Polled
  outcome_of cycle c set p = elim p.samples [
    | [] ↦ elim p.last_error [ some e ↦ err e | none ↦ err no_data ]
    | x ∷ xs ↦ ok (
      record {
        gateway_id = [];
        dev_dn = c.dev_dn;
        dev_name = c.device_name;
        plant_code = c.plant_code;
        plant_name = c.plant_name;
        dev_type_id = set.dev_type_id;
        model = set.dev_model;
        collect_time = cycle;
        register_address_map = p.values;
      },
      reverse p.samples,
    )
  ]

  -- The part behind `BuildBlocks`; `now` is the clock when the log is written.
  unfoldable pub poll_set :
      World F
      → ℤ
      → ℤ
      → ConnectionConfig
      → DeviceSet F
      → Client
      → Store F
      → Polled × Client × Store F
  poll_set w cycle now c set client s = elim (build_blocks (profile_of set)) [
    | err e ↦ (err (bad_profile e), client, s)
    | ok [] ↦ (err no_address, client, s)
    | ok (b ∷ bs) ↦
        let p = poll_blocks w.network c (profile_of set) client (b ∷ bs) in
        (outcome_of cycle c set p, p.client, log_failures w now c p.failures s)
  ]

  unfoldable pub poll_connection :
      World F → ℤ → ℤ → Text → Client → Store F → Polled × Client × Store F
  unfolding trim_space
  poll_connection w cycle now value client s = elim (w.parse_int (trim_space value)) [
    | none ↦ (err invalid_connection_id, client, s)
    | some id ↦ elim (local_connection id s) [
      | err e ↦ (err e, client, s)
      | ok c ↦ elim (local_device_set c.device_set_id s) [
        | err e ↦ (err e, client, s)
        | ok set ↦ poll_set w cycle now c set client s
      ]
    ]
  ]
