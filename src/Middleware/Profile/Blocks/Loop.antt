-- ===== src/Middleware/Profile/Blocks/Loop.antt =====
-- The second loop of `BuildBlocks`: its invariant, and that it never returns an error.
use ygate_git.Base.{
  ℕ, ◌≤◌, ◌≡◌, refl, sym, ap, ◌∙◌, false, ok, List, [], ◌∷◌, ◌++◌, All, All-weaken, Bool-cases, inl,
  inr, arith, append-nil, append_assoc, ltb,
}
use ygate_git.Middleware.Profile.Blocks.Order.{IsSorted}
use ygate_git.Middleware.Profile.Blocks.Entries.{IsReadableEntry, end_of-eq}
use ygate_git.Middleware.Profile.Blocks.Merge.{
  IsBlock, new_block-IsBlock, starts_new_block-Joins, extend_block-IsBlock,
}
use ygate_git.Middleware.Profile.Blocks.{
  Entry, Block, less, end_of, starts_new_block, new_block, extend_block, add_entry, merge,
}

module _ {F : Type 0} where
  -- Later entries of a sorted list do not start before the block.
  abbrev pub Follows : Block F → Entry F → Type 0
  Follows b e = e.definition.function_code ≡ b.function_code → b.start ≤ e.offset

  abbrev pub FollowsLast : List (Block F) → List (Entry F) → Type 0
  FollowsLast [] es = Unit
  FollowsLast (b ∷ bs) es = All (Follows b) es

  -- The entries of the blocks, the first block's first; the list has the last block first.
  abbrev pub gathered : List (Block F) → List (Entry F)
  gathered [] = []
  gathered (b ∷ bs) = gathered bs ++ b.entries

  Follows-new_block : (e x : Entry F) → less x e ≡ false → Follows (new_block e) x
  unfolding less new_block
  Follows-new_block e x h same = ground arith

  pub record Invariant (limit : ℕ) (bs : List (Block F)) (es : List (Entry F)) : Type 0 where
    pub all_blocks : All (IsBlock limit) bs
    pub all_readable : All IsReadableEntry es
    pub sorted : IsSorted es
    pub follows : FollowsLast bs es

  Follows-new_blocks :
      (e : Entry F) (es : List (Entry F))
      → All (λ x. less x e ≡ false) es
      → All (Follows (new_block e)) es
  Follows-new_blocks e =
      All-weaken (λ x. less x e ≡ false) (Follows (new_block e)) (Follows-new_block e)

  -- Extending a block moves neither its start nor its function code.
  Follows-extend_block :
      (b : Block F) (e : Entry F) (es : List (Entry F))
      → All (Follows b) es
      → All (Follows (extend_block b e)) es
  unfolding extend_block
  Follows-extend_block b e es h = h

  gathered-extend_block :
      (b : Block F) (bs : List (Block F)) (e : Entry F)
      → gathered (extend_block b e ∷ bs) ≡ gathered (b ∷ bs) ++ e ∷ []
  unfolding extend_block
  gathered-extend_block b bs e = sym (append_assoc (gathered bs) b.entries (e ∷ []))

  gathered-new_block :
      (bs : List (Block F)) (e : Entry F) → gathered (new_block e ∷ bs) ≡ gathered bs ++ e ∷ []
  unfolding new_block
  gathered-new_block bs e = refl

  module _ (limit : ℕ) (small : limit ≤ 125) where
    begin_block :
        (bs : List (Block F)) (e : Entry F) (es : List (Entry F))
        → Invariant limit bs (e ∷ es)
        → Invariant limit (new_block e ∷ bs) es
    begin_block bs e es i = record {
      all_blocks = (new_block-IsBlock limit e i.all_readable.0, i.all_blocks);
      all_readable = i.all_readable.1;
      sorted = i.sorted.1;
      follows = Follows-new_blocks e es i.sorted.0;
    }

    continue_block :
        (b : Block F) (bs : List (Block F)) (e : Entry F) (es : List (Entry F))
        → starts_new_block limit b e ≡ false
        → Invariant limit (b ∷ bs) (e ∷ es)
        → Invariant limit (extend_block b e ∷ bs) es
    continue_block b bs e es old i =
        let joins = starts_new_block-Joins limit b e i.all_readable.0 i.follows.0 old in
        record {
          all_blocks = (
            extend_block-IsBlock limit b e small i.all_readable.0 joins i.all_blocks.0,
            i.all_blocks.1,
          );
          all_readable = i.all_readable.1;
          sorted = i.sorted.1;
          follows = Follows-extend_block b e es i.follows.1;
        }

    add_entry-Invariant :
        (bs : List (Block F)) (e : Entry F) (es : List (Entry F))
        → Invariant limit bs (e ∷ es)
        → Invariant limit (add_entry limit bs e) es
          × (gathered (add_entry limit bs e) ≡ gathered bs ++ e ∷ [])
    unfolding add_entry
    add_entry-Invariant [] e es i = (begin_block [] e es i, gathered-new_block [] e)
    add_entry-Invariant (b ∷ bs) e es i = elim (Bool-cases (starts_new_block limit b e)) [
      | inl new ↦ rw new (begin_block (b ∷ bs) e es i, gathered-new_block (b ∷ bs) e)
      | inr old ↦ rw old (continue_block b bs e es old i, gathered-extend_block b bs e)
    ]

    -- A readable entry does not exceed the register range.
    in_range : (e : Entry F) → IsReadableEntry e → ltb 65536 (end_of e) ≡ false
    in_range e h = ground (arith, end_of-eq e h, h.readable)

    -- The loop ends with blocks that hold the entries in their order.
    pub merge-IsBlock :
        (bs : List (Block F)) (es : List (Entry F))
        → Invariant limit bs es
        → (out : List (Block F)) × (merge limit bs es ≡ ok out)
          × All (IsBlock limit) out
          × (gathered out ≡ gathered bs ++ es)
    unfolding merge
    merge-IsBlock bs [] i = (bs, refl, i.all_blocks, sym (append-nil (gathered bs)))
    merge-IsBlock bs (e ∷ es) i =
        let (kept, same) = add_entry-Invariant bs e es i in
        let (out, returns, blocks, all) = merge-IsBlock (add_entry limit bs e) es kept in
        (
          out,
          rw (in_range e i.all_readable.0) returns,
          blocks,
          all ∙ ap (λ xs. xs ++ es) same ∙ append_assoc (gathered bs) (e ∷ []) es,
        )
