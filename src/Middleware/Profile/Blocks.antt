-- ===== src/Middleware/Profile/Blocks.antt =====
-- internal/profile/blocks.go: the registers of a profile grouped into block reads.
-- `sort.Slice` is insertion sort, which is what it runs on up to twelve entries; on more it may order
-- entries of one function code and offset differently. The theorems below do not depend on that order.
pub mod Order
pub mod Entries
pub mod Merge
pub mod Loop
pub mod Laws
use ygate_git.Base.{
  ℕ, ◌+◌, ◌-◌, ◌%◌, ◌^◌, Bool, true, false, not, ◌&&◌, ◌||◌, Result, ok, err, guard, ◌>>=◌, ◌>>◌,
  List, [], ◌∷◌, ◌++◌, if◌then◌else◌, ltb,
}
use mathlib.Core.List.{reverse}
use ygate_git.Base.Int.{ℤ, pos, ltb_ℤ, leb_ℤ, eqb_ℤ, to_uint}
use ygate_git.Base.Text.{Text}
use ygate_git.Middleware.Domain.{RegisterDefinition, RegisterProfile}
use ygate_git.Middleware.Profile.Address.{
  ProfileError, ResolvedAddress, invalid_length, exceeds_register_range, resolve_modbus_address,
}

pub record Entry (F : Type 0) : Type 0 where
  pub definition : RegisterDefinition F
  pub offset : ℕ  -- uint16

pub record Block (F : Type 0) : Type 0 where
  pub function_code : ℤ
  pub start : ℕ  -- uint16
  pub quantity : ℕ  -- uint16
  pub entries : List (Entry F)

-- The block size that the profile asks for, 30 if it asks for none, and at most 125.
unfoldable pub block_limit : ℤ → ℕ
block_limit max_block_size =
    if ltb_ℤ max_block_size (pos 1)
    then 30
    else if ltb_ℤ (pos 125) max_block_size
    then 125
    else to_uint (2 ^ 32) max_block_size

module _ {F : Type 0} where
  -- `if d.FunctionCode == 0 { d.FunctionCode = p.DefaultFunctionCode }`
  unfoldable pub with_default : ℤ → RegisterDefinition F → RegisterDefinition F
  unfolding eqb_ℤ
  with_default fc d = if eqb_ℤ d.function_code (pos 0) then record d { function_code = fc } else d

  -- `d.FunctionCode = resolved.FunctionCode` and `Entry{d, resolved.Start}`.
  abbrev pub place : RegisterDefinition F → ResolvedAddress → Entry F
  place d resolved = record {
    definition = record d { function_code = resolved.function_code };
    offset = resolved.start;
  }

  -- The body of the first loop for an enabled register.
  unfoldable pub resolve_entry :
      RegisterProfile F → RegisterDefinition F → Result ProfileError (Entry F)
  unfolding with_default
  resolve_entry p d = do
    guard (not (ltb_ℤ d.length (pos 1) || ltb_ℤ (pos 125) d.length)) invalid_length
    let d' = with_default p.default_function_code d
    resolved ← resolve_modbus_address p.address_mode d'
    ok (place d' resolved)

  -- The first loop over `p.Registers`.
  unfoldable pub resolve_entries :
      RegisterProfile F → List (RegisterDefinition F) → Result ProfileError (List (Entry F))
  resolve_entries p [] = ok []
  resolve_entries p (d ∷ ds) =
      let rest = resolve_entries p ds in
      if d.enabled then (do e ← resolve_entry p d; es ← rest; ok (e ∷ es)) else rest

  -- The order of `sort.Slice`: by function code, then by offset.
  unfoldable pub less : Entry F → Entry F → Bool
  unfolding eqb_ℤ
  less a b =
      if not (eqb_ℤ a.definition.function_code b.definition.function_code)
      then ltb_ℤ a.definition.function_code b.definition.function_code
      else ltb a.offset b.offset

  unfoldable pub insert : Entry F → List (Entry F) → List (Entry F)
  unfolding less
  insert e [] = e ∷ []
  insert e (x ∷ xs) = if less x e then x ∷ insert e xs else e ∷ x ∷ xs

  unfoldable pub sort_entries : List (Entry F) → List (Entry F)
  unfolding insert
  sort_entries [] = []
  sort_entries (e ∷ es) = insert e (sort_entries es)

  -- `uint32(e.Offset) + uint32(e.Definition.Length)`
  abbrev pub end_of : Entry F → ℕ
  end_of e = (e.offset + to_uint (2 ^ 32) e.definition.length) % 2 ^ 32

  -- `uint32` subtraction of a block's start.
  abbrev pub span : ℕ → Block F → ℕ
  span end b = (end + 2 ^ 32 - b.start) % 2 ^ 32

  unfoldable pub starts_new_block : ℕ → Block F → Entry F → Bool
  unfolding eqb_ℤ to_uint
  starts_new_block limit b e =
      not (eqb_ℤ b.function_code e.definition.function_code)
      || ltb (b.start + b.quantity) e.offset
      || ltb limit (span (end_of e) b)

  unfoldable pub new_block : Entry F → Block F
  unfolding to_uint
  new_block e = record {
    function_code = e.definition.function_code;
    start = e.offset;
    quantity = to_uint (2 ^ 16) e.definition.length;
    entries = e ∷ [];
  }

  unfoldable pub extend_block : Block F → Entry F → Block F
  unfolding to_uint
  extend_block b e =
      let quantity = span (end_of e) b in
      record b {
        quantity = if ltb b.quantity quantity then quantity % 2 ^ 16 else b.quantity;
        entries = b.entries ++ e ∷ [];
      }

  -- The blocks built so far, the last one first, and the next entry.
  unfoldable pub add_entry : ℕ → List (Block F) → Entry F → List (Block F)
  unfolding starts_new_block new_block extend_block
  add_entry limit [] e = new_block e ∷ []
  add_entry limit (b ∷ bs) e =
      if starts_new_block limit b e then new_block e ∷ b ∷ bs else extend_block b e ∷ bs

  -- The second loop, over the sorted entries.
  unfoldable pub merge : ℕ → List (Block F) → List (Entry F) → Result ProfileError (List (Block F))
  unfolding add_entry to_uint
  merge limit bs [] = ok bs
  merge limit bs (e ∷ es) =
      let rest = merge limit (add_entry limit bs e) es in
      if ltb 65536 (end_of e) then err exceeds_register_range else rest

  unfoldable pub build_blocks : RegisterProfile F → Result ProfileError (List (Block F))
  unfolding block_limit resolve_entries sort_entries merge
  build_blocks p = do
    entries ← resolve_entries p p.registers
    blocks ← merge (block_limit p.max_block_size) [] (sort_entries entries)
    ok (reverse blocks)
