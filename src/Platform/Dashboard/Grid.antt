-- ===== src/Platform/Dashboard/Grid.antt =====
-- Where the items of an accepted dashboard lie.
mod Numbers
use ygate_git.Base.{
  ℕ, suc, ◌+◌, ◌≤◌, ◌<◌, ◌≡◌, refl, sym, subst, ◌∙◌, inl, inr, Bool, true, false, not, ◌&&◌, ◌||◌,
  if◌then◌else◌, Option, none, List, [], ◌∷◌, some_item, ltb, leb, All, Bool-cases, arith,
}
use ygate_git.Base.Int.{ℤ, pos, negsuc, ltb_ℤ, ◌+ℤ◌, to_uint, pos_part}
use ygate_git.Base.Text.{Text, text_eq, text_eq_iff}
use ygate_git.Middleware.Store.File.{map_get}
use ygate_git.Platform.Dashboard.{
  DashboardLayoutItem, Layouts, required_dashboard_widget_ids, breakpoints, int64, right, below,
  has_widget, is_misplaced, overlaps, check_items, has_all, next_expected, check_layout, items_of,
  check_breakpoints, validate_dashboard_layouts,
}
use ygate_git.Platform.Dashboard.Grid.Numbers.{
  ||-false, &&-true, not-true, ≤-plus, plus-≤, placed_numbers, ltb_ℤ-pos, and_4, disjoint_cells,
}

-- The horizontal sum does not wrap around; the code tests the range of the vertical one.
abbrev pub FitsInt : DashboardLayoutItem → Type 0
FitsInt o = pos_part o.x + pos_part o.w < 9223372036854775808

-- A cell of the grid that an item covers, as far as its numbers are not negative.
unfoldable pub covers : ℕ → ℕ → DashboardLayoutItem → Bool
covers cx cy o =
    (leb (pos_part o.x) cx && ltb cx (pos_part o.x + pos_part o.w))
    && (leb (pos_part o.y) cy && ltb cy (pos_part o.y + pos_part o.h))

unfoldable pub count_where {ℓ} : {A : Type ℓ} → (A → Bool) → List A → ℕ
count_where p [] = 0
count_where p (x ∷ xs) = if p x then suc (count_where p xs) else count_where p xs

-- An item of the grid: at least a cell, and within the columns.
pub record IsPlaced (cols : ℕ) (o : DashboardLayoutItem) : Type 0 where
  pub x_is : o.x ≡ pos (pos_part o.x)
  pub y_is : o.y ≡ pos (pos_part o.y)
  pub is_wide : 1 ≤ pos_part o.w
  pub is_high : 1 ≤ pos_part o.h
  pub in_columns : pos_part o.x + pos_part o.w ≤ cols
  pub right_is : right o ≡ pos (pos_part o.x + pos_part o.w)
  pub below_is : below o ≡ pos (pos_part o.y + pos_part o.h)

pub record IsGrid (cols : ℕ) (items : List DashboardLayoutItem) : Type 0 where
  pub placed : All (IsPlaced cols) items
  pub apart : (cx cy : ℕ) → count_where (covers cx cy) items ≤ 1
  pub distinct : (id : Text) → count_where (λ (o : DashboardLayoutItem). text_eq o.i id) items ≤ 1
  pub complete : has_all required_dashboard_widget_ids items ≡ true

module _ (cols : ℕ) where
  -- What the tests of an item say, with the items before it.
  item-IsPlaced :
      (before : List DashboardLayoutItem) (o : DashboardLayoutItem)
      → FitsInt o
      → is_misplaced cols before o ≡ false
      → (has_widget o.i before ≡ false) × IsPlaced cols o
  unfolding is_misplaced right below
  item-IsPlaced before o fits e =
      let (known, rest) = ||-false _ _ e in
      let (new, numbers) = ||-false _ _ rest in
      let (a, b, c, d, f, g, h) = placed_numbers cols o.x o.y o.w o.h fits numbers in
      (
        new,
        record {
          x_is = a;
          y_is = b;
          is_wide = c;
          is_high = d;
          in_columns = f;
          right_is = g;
          below_is = h;
        },
      )

  not_covered :
      (cx cy : ℕ) (o other : DashboardLayoutItem)
      → IsPlaced cols o
      → IsPlaced cols other
      → overlaps o other ≡ false
      → covers cx cy o ≡ true
      → covers cx cy other ≡ false
  unfolding overlaps covers
  not_covered cx cy o other p q apart here =
      disjoint_cells cx cy (pos_part o.x) (pos_part o.y) (pos_part o.w) (pos_part o.h)
        (pos_part other.x) (pos_part other.y) (pos_part other.w) (pos_part other.h)
        (sym (
            and_4 (ltb_ℤ-pos o.x (right other) _ _ p.x_is q.right_is)
              (ltb_ℤ-pos other.x (right o) _ _ q.x_is p.right_is)
              (ltb_ℤ-pos o.y (below other) _ _ p.y_is q.below_is)
              (ltb_ℤ-pos other.y (below o) _ _ q.y_is p.below_is))
          ∙ apart)
        here

  uncovered :
      (cx cy : ℕ) (o : DashboardLayoutItem) (before : List DashboardLayoutItem)
      → IsPlaced cols o
      → All (IsPlaced cols) before
      → some_item (overlaps o) before ≡ false
      → covers cx cy o ≡ true
      → count_where (covers cx cy) before ≡ 0
  unfolding some_item count_where
  uncovered cx cy o [] p ps apart here = refl
  uncovered cx cy o (b ∷ before) p ps apart here =
      let (first, rest) = ||-false (overlaps o b) (some_item (overlaps o) before) apart in
      rw (not_covered cx cy o b p ps.0 first here, uncovered cx cy o before p ps.1 rest here) refl

  unnamed :
      (id : Text) (before : List DashboardLayoutItem)
      → has_widget id before ≡ false
      → count_where (λ (o : DashboardLayoutItem). text_eq o.i id) before ≡ 0
  unfolding some_item count_where has_widget
  unnamed id [] new = refl
  unnamed id (b ∷ before) new =
      let (first, rest) = ||-false (text_eq b.i id) (has_widget id before) new in
      rw (first, unnamed id before rest) refl

  -- The items that were checked, the last one first, and what they are then.
  record IsLaid (items : List DashboardLayoutItem) : Type 0 where
    placed : All (IsPlaced cols) items
    apart : (cx cy : ℕ) → count_where (covers cx cy) items ≤ 1
    distinct : (id : Text) → count_where (λ (o : DashboardLayoutItem). text_eq o.i id) items ≤ 1

  count_where-step :
      {A : Type 0} (p : A → Bool) (a : A) (as1 : List A)
      → (p a ≡ true → count_where p as1 ≡ 0)
      → count_where p as1 ≤ 1
      → count_where p (a ∷ as1) ≤ 1
  unfolding count_where
  count_where-step p a as1 none_here le = elim (Bool-cases (p a)) [
    | inl here ↦ rw (here, none_here here) (omega arith)
    | inr away ↦ rw away le
  ]

  IsLaid-next :
      (before : List DashboardLayoutItem) (o : DashboardLayoutItem)
      → IsLaid before
      → FitsInt o
      → is_misplaced cols before o ≡ false
      → some_item (overlaps o) before ≡ false
      → IsLaid (o ∷ before)
  IsLaid-next before o laid fits fine apart =
      let (new, p) = item-IsPlaced before o fits fine in
      record {
        placed = (p, laid.placed);
        apart = λ cx cy.
            count_where-step (covers cx cy) o before (uncovered cx cy o before p laid.placed apart)
              (laid.apart cx cy);
        distinct = λ id.
            count_where-step (λ (q : DashboardLayoutItem). text_eq q.i id) o before
              (λ e.
                unnamed id before (
                  subst (λ (t : Text). has_widget t before ≡ false) ((text_eq_iff o.i id).0 e) new))
              (laid.distinct id);
      }

  count_where-move :
      {A : Type 0} (p : A → Bool) (a : A) (as1 bs : List A)
      → count_where p (a ∷ as1) + count_where p bs ≡ count_where p as1 + count_where p (a ∷ bs)
  unfolding count_where
  count_where-move p a as1 bs = elim (Bool-cases (p a)) [
    | inl here ↦ rw (here) (omega arith)
    | inr away ↦ rw (away) refl
  ]

  -- What is left to check, beside what was checked.
  record Fits (before items : List DashboardLayoutItem) : Type 0 where
    placed : All (IsPlaced cols) items
    apart : (cx cy : ℕ) → count_where (covers cx cy) items + count_where (covers cx cy) before ≤ 1
    distinct :
        (id : Text)
        → count_where (λ (o : DashboardLayoutItem). text_eq o.i id) items
            + count_where (λ (o : DashboardLayoutItem). text_eq o.i id) before
          ≤ 1

  check_items-Fits :
      (before items : List DashboardLayoutItem)
      → IsLaid before
      → All FitsInt items
      → check_items cols before items ≡ true
      → Fits before items
  unfolding check_items count_where
  check_items-Fits before [] laid fits e = record {
    placed = tt;
    apart = λ cx cy. plus-≤ _ (laid.apart cx cy);
    distinct = λ id. plus-≤ _ (laid.distinct id);
  }
  check_items-Fits before (o ∷ items) laid fits e =
      let (fine, e1) = &&-true _ _ e in
      let (apart, e2) = &&-true _ _ e1 in
      let fine1 = not-true (is_misplaced cols before o) fine in
      let apart1 = not-true (some_item (overlaps o) before) apart in
      let rest =
        check_items-Fits (o ∷ before) items (IsLaid-next before o laid fits.0 fine1 apart1) fits.1
          e2 in
      record {
        placed = ((item-IsPlaced before o fits.0 fine1).1, rest.placed);
        apart = λ cx cy.
            subst (λ n. n ≤ 1) (sym (count_where-move (covers cx cy) o items before))
              (rest.apart cx cy);
        distinct = λ id.
            subst (λ n. n ≤ 1)
              (sym (count_where-move (λ (q : DashboardLayoutItem). text_eq q.i id) o items before))
              (rest.distinct id);
      }

  nothing-IsLaid : IsLaid []
  unfolding count_where
  nothing-IsLaid = record {
    placed = tt;
    apart = λ cx cy. omega arith;
    distinct = λ id. omega arith;
  }

  check_layout-IsGrid :
      (expected : Option (List Text)) (items : List DashboardLayoutItem)
      → All FitsInt items
      → check_layout cols expected items ≡ true
      → IsGrid cols items
  unfolding check_layout count_where
  check_layout-IsGrid expected items fits e =
      let (few, e1) = &&-true _ _ e in
      let (many, e2) = &&-true _ _ e1 in
      let (laid, e3) = &&-true _ _ e2 in
      let (complete, same) = &&-true _ _ e3 in
      let all = check_items-Fits [] items nothing-IsLaid fits laid in
      record {
        placed = all.placed;
        apart = λ cx cy. ≤-plus _ (all.apart cx cy);
        distinct = λ id. ≤-plus _ (all.distinct id);
        complete = complete;
      }

check_breakpoints-IsGrid :
    (layouts : Layouts) (expected : Option (List Text)) (bs : List (Text × ℕ))
    → All (λ (b : Text × ℕ). All FitsInt (items_of (map_get b.0 layouts))) bs
    → check_breakpoints layouts expected bs ≡ true
    → All (λ (b : Text × ℕ). IsGrid b.1 (items_of (map_get b.0 layouts))) bs
unfolding check_breakpoints
check_breakpoints-IsGrid layouts expected [] fits e = tt
check_breakpoints-IsGrid layouts expected (b ∷ bs) fits e =
    let items = items_of (map_get b.0 layouts) in
    let (here, rest) = &&-true _ _ e in
    (
      check_layout-IsGrid b.1 expected items fits.0 here,
      check_breakpoints-IsGrid layouts (next_expected expected items) bs fits.1 rest,
    )

-- A dashboard that is accepted, and whose items' sums of column and width fit Go's int, is a grid at
-- every breakpoint: each item has at least a cell and lies within the columns of the breakpoint, no
-- cell is covered by two items, no widget is there twice, and every required widget is there.
pub validate_dashboard_layouts-IsGrid :
    (layouts : Layouts)
    → All (λ (b : Text × ℕ). All FitsInt (items_of (map_get b.0 layouts))) breakpoints
    → validate_dashboard_layouts layouts ≡ true
    → All (λ (b : Text × ℕ). IsGrid b.1 (items_of (map_get b.0 layouts))) breakpoints
unfolding validate_dashboard_layouts
validate_dashboard_layouts-IsGrid layouts fits e =
    check_breakpoints-IsGrid layouts none breakpoints fits (&&-true _ _ e).1
