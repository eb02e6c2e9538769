-- ===== src/Middleware/Profile/Blocks/Merge.antt =====
-- The second loop of `BuildBlocks`: what every block satisfies.
use ygate_git.Base.{
  ℕ, ◌+◌, ◌≤◌, ◌<◌, ◌≡◌, ◌⊎◌, refl, sym, false, [], ◌∷◌, ◌++◌, All, All-append, All-weaken, Any,
  Any-append_left, Any-append_right, inl, inr, arith, subst,
}
use native.Mathlib.Decide.{dec_lt}
use ygate_git.Middleware.Profile.Address.Range.{IsReadable}
use ygate_git.Middleware.Profile.Blocks.Entries.{size, IsReadableEntry, end_of-eq}
use ygate_git.Middleware.Profile.Blocks.{Entry, Block, starts_new_block, new_block, extend_block}

module _ {F : Type 0} where
  -- The entry's registers lie inside the block, and are read with its function code.
  pub record IsInside (b : Block F) (e : Entry F) : Type 0 where
    pub same_function_code : e.definition.function_code ≡ b.function_code
    pub from_start : b.start ≤ e.offset
    pub to_end : e.offset + size e ≤ b.start + b.quantity

  -- Register `r` is one of the entry's.
  abbrev pub Covers : ℕ → Entry F → Type 0
  Covers r e = (e.offset ≤ r) × (r < e.offset + size e)

  -- The entry alone has the extent `start`, `quantity`.
  abbrev pub Fills : ℕ → ℕ → Entry F → Type 0
  Fills start quantity e = (e.offset ≡ start) × (size e ≡ quantity)

  -- A block that is read in one request: it can be read, it holds its entries, it stays within the
  -- limit or is as long as one of its entries, and it reads no register that no entry asks for.
  pub record IsBlock (limit : ℕ) (b : Block F) : Type 0 where
    pub readable : IsReadable b.function_code b.start b.quantity
    pub inside : All (IsInside b) b.entries
    pub within_limit : (b.quantity ≤ limit) ⊎ Any (Fills b.start b.quantity) b.entries
    pub no_gap : (r : ℕ) → b.start ≤ r → r < b.start + b.quantity → Any (Covers r) b.entries

  new_block-quantity : (e : Entry F) → IsReadableEntry e → (new_block e).quantity ≡ size e
  unfolding new_block
  new_block-quantity e h = ground arith

  pub new_block-IsBlock :
      (limit : ℕ) (e : Entry F) → IsReadableEntry e → IsBlock limit (new_block e)
  unfolding new_block
  new_block-IsBlock limit e h = record {
    readable = rw (new_block-quantity e h) h.readable;
    inside = (ground (arith, new_block-quantity e h), tt);
    within_limit = inr (inl (refl, sym (new_block-quantity e h)));
    no_gap = λ r lo hi. inl (ground (arith, new_block-quantity e h));
  }

  -- The entry can join the block: same function code, no gap before it, and within the limit.
  pub record Joins (limit : ℕ) (b : Block F) (e : Entry F) : Type 0 where
    pub joined_code : e.definition.function_code ≡ b.function_code
    pub joined_start : b.start ≤ e.offset
    pub joined_end : e.offset ≤ b.start + b.quantity
    pub joined_limit : e.offset + size e ≤ b.start + limit

  pub starts_new_block-Joins :
      (limit : ℕ) (b : Block F) (e : Entry F)
      → IsReadableEntry e
      → (e.definition.function_code ≡ b.function_code → b.start ≤ e.offset)
      → starts_new_block limit b e ≡ false
      → Joins limit b e
  unfolding starts_new_block
  starts_new_block-Joins limit b e h later no_new = record {
    joined_code = code_lem;
    joined_start = later code_lem;
    joined_end = ground arith;
    joined_limit = ground (arith, later code_lem, end_of-eq e h);
  }
    where
      code_lem : e.definition.function_code ≡ b.function_code
      code_lem = ground arith

  module _ (limit : ℕ) (b : Block F) (e : Entry F) (small : limit ≤ 125) (h : IsReadableEntry e)
      (j : Joins limit b e) (k : IsBlock limit b) where
    -- The quantity grows to the end of the entry, or stays where it reached past it.
    quantity_grows :
        (b.quantity ≤ (extend_block b e).quantity)
        × (e.offset + size e ≤ b.start + (extend_block b e).quantity)
        × (((extend_block b e).quantity ≡ b.quantity)
            ⊎ (b.start + (extend_block b e).quantity ≡ e.offset + size e))
    unfolding extend_block
    quantity_grows = ground (arith, end_of-eq e h, k.readable, h.readable, j)

    extend_block-IsReadable : IsReadable b.function_code b.start (extend_block b e).quantity
    extend_block-IsReadable = ground (arith, quantity_grows, k.readable, h.readable, j)

    extend_block-IsInside : All (IsInside (extend_block b e)) (b.entries ++ e ∷ [])
    unfolding extend_block
    extend_block-IsInside =
        All-append (IsInside (extend_block b e)) b.entries (e ∷ [])
          (All-weaken (IsInside b) (IsInside (extend_block b e)) still_inside b.entries k.inside)
          (
            record {
              same_function_code = j.joined_code;
              from_start = j.joined_start;
              to_end = quantity_grows.1;
            },
            tt,
          )
      where
        still_inside : (x : Entry F) → IsInside b x → IsInside (extend_block b e) x
        still_inside x i = record {
          same_function_code = i.same_function_code;
          from_start = i.from_start;
          to_end = omega (arith, quantity_grows.0, i.to_end);
        }

    extend_block-no_gap :
        (r : ℕ)
        → b.start ≤ r
        → r < b.start + (extend_block b e).quantity
        → Any (Covers r) (b.entries ++ e ∷ [])
    extend_block-no_gap r lo hi = elim (dec_lt r (b.start + b.quantity)) [
      | yes old ↦ Any-append_left (Covers r) b.entries (e ∷ []) (k.no_gap r lo old)
      | no new ↦
          Any-append_right (Covers r) b.entries (e ∷ []) (inl (ground (arith, quantity_grows, j)))
    ]

    extend_block-within_limit :
        ((extend_block b e).quantity ≤ limit)
        ⊎ Any (Fills b.start (extend_block b e).quantity) (b.entries ++ e ∷ [])
    extend_block-within_limit = go quantity_grows.2 k.within_limit
      where
        go :
            ((extend_block b e).quantity ≡ b.quantity)
              ⊎ (b.start + (extend_block b e).quantity ≡ e.offset + size e)
            → (b.quantity ≤ limit) ⊎ Any (Fills b.start b.quantity) b.entries
            → ((extend_block b e).quantity ≤ limit)
              ⊎ Any (Fills b.start (extend_block b e).quantity) (b.entries ++ e ∷ [])
        go (inr grown) w = inl (omega (arith, j.joined_limit))
        go (inl kept) (inl w) = inl (omega arith)
        go (inl kept) (inr w) = inr (
            subst (λ q. Any (Fills b.start q) (b.entries ++ e ∷ [])) (sym kept)
              (Any-append_left (Fills b.start b.quantity) b.entries (e ∷ []) w))

    pub extend_block-IsBlock : IsBlock limit (extend_block b e)
    unfolding extend_block
    extend_block-IsBlock = record {
      readable = extend_block-IsReadable;
      inside = extend_block-IsInside;
      within_limit = extend_block-within_limit;
      no_gap = extend_block-no_gap;
    }
