-- ===== src/Middleware/Profile/Blocks/Laws.antt =====
-- `BuildBlocks` from its profile to its blocks.
use mathlib.Core.List.{reverse, reverse-cons, Perm}
use ygate_git.Base.{
  ◌≡◌, refl, sym, ap, ◌∙◌, ok, err, List, [], ◌∷◌, ◌++◌, All, All-reverse, append-nil, append_assoc,
  subst,
}
use ygate_git.Middleware.Domain.{RegisterProfile}
use ygate_git.Middleware.Profile.Address.{ProfileError}
use ygate_git.Middleware.Profile.Blocks.Order.{
  sort_entries-IsSorted, sort_entries-All, sort_entries-perm,
}
use ygate_git.Middleware.Profile.Blocks.Entries.{
  IsReadableEntry, resolve_entries-IsReadable, block_limit_bounds,
}
use ygate_git.Middleware.Profile.Blocks.Merge.{IsBlock}
use ygate_git.Middleware.Profile.Blocks.Loop.{gathered, merge-IsBlock}
use ygate_git.Middleware.Profile.Blocks.{
  Entry, Block, block_limit, resolve_entries, sort_entries, build_blocks,
}

module _ {F : Type 0} where
  -- The entries in the order in which the blocks are read.
  abbrev pub read_order : List (Block F) → List (Entry F)
  read_order [] = []
  read_order (b ∷ bs) = b.entries ++ read_order bs

  read_order-append :
      (bs cs : List (Block F)) → read_order (bs ++ cs) ≡ read_order bs ++ read_order cs
  read_order-append [] cs = refl
  read_order-append (b ∷ bs) cs =
      ap (λ xs. b.entries ++ xs) (read_order-append bs cs)
      ∙ sym (append_assoc b.entries (read_order bs) (read_order cs))

  read_order-reverse : (bs : List (Block F)) → read_order (reverse bs) ≡ gathered bs
  read_order-reverse [] = refl
  read_order-reverse (b ∷ bs) =
      ap read_order (reverse-cons b bs)
      ∙ read_order-append (reverse bs) (b ∷ [])
      ∙ ap (λ xs. xs ++ (b.entries ++ [])) (read_order-reverse bs)
      ∙ ap (λ xs. gathered bs ++ xs) (append-nil b.entries)

  -- If the registers of a profile resolve, `BuildBlocks` returns blocks. Each of them can be read in
  -- one request of at most 125 registers, holds the registers of its entries, reads no register that
  -- none of them asks for, and keeps to the block limit or to the length of one of its entries.
  -- Together they hold each resolved entry as often as the profile has it.
  pub build_blocks_lem :
      (p : RegisterProfile F) (es : List (Entry F))
      → resolve_entries p p.registers ≡ ok es
      → (blocks : List (Block F)) × (build_blocks p ≡ ok blocks)
        × All (IsBlock (block_limit p.max_block_size)) blocks
        × Perm (read_order blocks) es
  unfolding build_blocks
  build_blocks_lem p es resolved =
      let limit = block_limit p.max_block_size in
      let readable = resolve_entries-IsReadable p p.registers es resolved in
      let (out, returns, blocks, all) =
        merge-IsBlock limit (block_limit_bounds p.max_block_size).1 [] (sort_entries es) (record {
          all_blocks = tt;
          all_readable = sort_entries-All IsReadableEntry es readable;
          sorted = sort_entries-IsSorted es;
          follows = tt;
        }) in
      (
        reverse out,
        rw (resolved, returns),
        All-reverse (IsBlock limit) out blocks,
        subst (λ xs. Perm xs es) (sym (read_order-reverse out ∙ all)) (sort_entries-perm es),
      )

  -- `BuildBlocks` fails exactly with the error of the first register that does not resolve.
  pub build_blocks-eq-err :
      (p : RegisterProfile F) (e : ProfileError)
      → resolve_entries p p.registers ≡ err e
      → build_blocks p ≡ err e
  unfolding build_blocks
  build_blocks-eq-err p e failed = rw failed
