-- ===== src/Middleware/Profile/Blocks/Entries.antt =====
-- What the first loop of `BuildBlocks` returns.
use ygate_git.Base.{
  ℕ, ◌+◌, ◌≤◌, ◌≡◌, refl, Result, ok, List, [], ◌∷◌, All, subst, then_branch, else_branch,
  Bool-cases, inl, inr, arith, >>=-eq-ok, guard-eq-ok,
}
use ygate_git.Base.Int.{ℤ, pos, pos_part, to_uint}
use ygate_git.Middleware.Domain.{RegisterDefinition, RegisterProfile}
use ygate_git.Middleware.Profile.Address.{ProfileError, ResolvedAddress, resolve_modbus_address}
use ygate_git.Middleware.Profile.Address.Range.{IsReadable, resolve-IsReadable}
use ygate_git.Middleware.Profile.Blocks.{
  place, Entry, with_default, resolve_entry, resolve_entries, end_of, block_limit,
}

module _ {F : Type 0} where
  abbrev pub size : Entry F → ℕ
  size e = pos_part e.definition.length

  -- An entry that a device can be asked for by itself.
  pub record IsReadableEntry (e : Entry F) : Type 0 where
    pub readable : IsReadable e.definition.function_code e.offset (size e)
    pub length_lem : e.definition.length ≡ pos (size e)

  place-IsReadable :
      (d : RegisterDefinition F) (r : ResolvedAddress)
      → IsReadable r.function_code r.start r.quantity
      → pos r.quantity ≡ d.length
      → IsReadableEntry (place d r)
  place-IsReadable d r h e = record {
    readable = subst (λ n. IsReadable r.function_code r.start (pos_part n)) e h;
    length_lem = subst (λ n. n ≡ pos (pos_part n)) e refl;
  }

  ok_entry : (x e : Entry F) → ◌≡◌ {A = Result ProfileError (Entry F)} (ok x) (ok e) → x ≡ e
  ok_entry x e h = cc

  ok_entries :
      (xs es : List (Entry F))
      → ◌≡◌ {A = Result ProfileError (List (Entry F))} (ok xs) (ok es)
      → xs ≡ es
  ok_entries xs es h = cc

  resolve_entry-IsReadable :
      (p : RegisterProfile F) (d : RegisterDefinition F) (e : Entry F)
      → resolve_entry p d ≡ ok e
      → IsReadableEntry e
  unfolding resolve_entry
  resolve_entry-IsReadable p d e h =
      let d' = with_default p.default_function_code d in
      let (fits, h1) = guard-eq-ok _ _ _ h in
      let (r, resolved, placed) = >>=-eq-ok (resolve_modbus_address p.address_mode d') _ h1 in
      let (readable, same) = resolve-IsReadable p.address_mode d' r resolved in
      subst IsReadableEntry (ok_entry (place d' r) e placed) (place-IsReadable d' r readable same)

  -- Every entry of the first loop can be read by itself.
  pub resolve_entries-IsReadable :
      (p : RegisterProfile F) (ds : List (RegisterDefinition F)) (es : List (Entry F))
      → resolve_entries p ds ≡ ok es
      → All IsReadableEntry es
  unfolding resolve_entries
  resolve_entries-IsReadable p [] es h = subst (All IsReadableEntry) (ok_entries [] es h) tt
  resolve_entries-IsReadable p (d ∷ ds) es h = elim (Bool-cases d.enabled) [
    | inl on ↦
        let (e, first, h1) = >>=-eq-ok (resolve_entry p d) _ (then_branch d.enabled _ _ on h) in
        let (rest, others, both) = >>=-eq-ok (resolve_entries p ds) _ h1 in
        subst (All IsReadableEntry) (ok_entries (e ∷ rest) es both)
          (resolve_entry-IsReadable p d e first, resolve_entries-IsReadable p ds rest others)
    | inr off ↦ resolve_entries-IsReadable p ds es (else_branch d.enabled _ _ off h)
  ]

  -- In a readable entry the conversions to uint32 and uint16 change nothing.
  pub end_of-eq : (e : Entry F) → IsReadableEntry e → end_of e ≡ e.offset + size e
  unfolding to_uint
  end_of-eq e h = ground (arith, h.length_lem)

pub block_limit_bounds : (n : ℤ) → (1 ≤ block_limit n) × (block_limit n ≤ 125)
unfolding block_limit to_uint
block_limit_bounds n = ground arith
