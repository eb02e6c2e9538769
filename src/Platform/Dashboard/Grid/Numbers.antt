-- ===== src/Platform/Dashboard/Grid/Numbers.antt =====
-- The numbers of an item that passes the test, and the cells of items that do not overlap.
use ygate_git.Base.{
  ℕ, ◌+◌, ◌≤◌, ◌<◌, ◌≡◌, refl, subst, Bool, true, false, not, ◌&&◌, ◌||◌, ltb, leb, arith,
}
use ygate_git.Base.Int.{ℤ, pos, negsuc, ltb_ℤ, ◌+ℤ◌, to_uint, pos_part}
use ygate_git.Platform.Dashboard.{int64}

sum_fits : (a b : ℕ) → a + b < 9223372036854775808 → int64 (pos a +ℤ pos b) ≡ pos (a + b)
unfolding int64 ◌+ℤ◌ to_uint
sum_fits a b h = ground arith

pub ||-false : (a b : Bool) → (a || b) ≡ false → (a ≡ false) × (b ≡ false)
||-false a b h = (ground arith, ground arith)

pub &&-true : (a b : Bool) → (a && b) ≡ true → (a ≡ true) × (b ≡ true)
&&-true a b h = (ground arith, ground arith)

pub not-true : (a : Bool) → not a ≡ true → a ≡ false
not-true a h = ground arith

pub ≤-plus : (n : ℕ) → n + 0 ≤ 1 → n ≤ 1
≤-plus n h = omega arith

pub plus-≤ : (n : ℕ) → n ≤ 1 → 0 + n ≤ 1
plus-≤ n h = omega arith

-- What the test of an item alone leaves of its numbers.
pub placed_numbers :
    (cols : ℕ) (x y w h : ℤ)
    → pos_part x + pos_part w < 9223372036854775808
    → (ltb_ℤ x (pos 0)
        || (ltb_ℤ y (pos 0)
            || (ltb_ℤ w (pos 1)
                || (ltb_ℤ h (pos 1)
                    || (ltb_ℤ (pos cols) (int64 (x +ℤ w))
                        || (ltb_ℤ (pos 1000) y || ltb_ℤ (pos 100) h))))))
      ≡ false
    → (x ≡ pos (pos_part x))
      × (y ≡ pos (pos_part y))
      × (1 ≤ pos_part w)
      × (1 ≤ pos_part h)
      × (pos_part x + pos_part w ≤ cols)
      × (int64 (x +ℤ w) ≡ pos (pos_part x + pos_part w))
      × (int64 (y +ℤ h) ≡ pos (pos_part y + pos_part h))
placed_numbers cols (negsuc x) y w h fits e = ground arith
placed_numbers cols (pos x) (negsuc y) w h fits e = ground arith
placed_numbers cols (pos x) (pos y) (negsuc w) h fits e = ground arith
placed_numbers cols (pos x) (pos y) (pos w) (negsuc h) fits e = ground arith
placed_numbers cols (pos x) (pos y) (pos w) (pos h) fits e =
    let tested =
      subst
        (λ (r : ℤ).
          (ltb_ℤ (pos x) (pos 0)
            || (ltb_ℤ (pos y) (pos 0)
                || (ltb_ℤ (pos w) (pos 1)
                    || (ltb_ℤ (pos h) (pos 1)
                        || (ltb_ℤ (pos cols) r
                            || (ltb_ℤ (pos 1000) (pos y) || ltb_ℤ (pos 100) (pos h)))))))
          ≡ false)
        (sum_fits x w fits) e in
    let small : (y ≤ 1000) × (h ≤ 100) = (ground arith, ground arith) in
    (
      refl,
      refl,
      ground arith,
      ground arith,
      ground arith,
      sum_fits x w fits,
      sum_fits y h (omega arith),
    )

pub ltb_ℤ-pos : (a r : ℤ) (m n : ℕ) → a ≡ pos m → r ≡ pos n → ltb_ℤ a r ≡ ltb m n
ltb_ℤ-pos (pos a) (pos r) m n ea er = ground arith
ltb_ℤ-pos (pos a) (negsuc r) m n ea er = absurd (ground arith)
ltb_ℤ-pos (negsuc a) r m n ea er = absurd (ground arith)

pub and_4 :
    {a b c d p q r s : Bool}
    → a ≡ p
    → b ≡ q
    → c ≡ r
    → d ≡ s
    → (a && (b && (c && d))) ≡ (p && (q && (r && s)))
and_4 ea eb ec ed = cc

module _ (cx cy : ℕ) where
  -- A cell in two boxes is where they overlap.
  pub disjoint_cells :
      (x y w h x1 y1 w1 h1 : ℕ)
      → (ltb x (x1 + w1) && (ltb x1 (x + w) && (ltb y (y1 + h1) && ltb y1 (y + h)))) ≡ false
      → ((leb x cx && ltb cx (x + w)) && (leb y cy && ltb cy (y + h))) ≡ true
      → ((leb x1 cx && ltb cx (x1 + w1)) && (leb y1 cy && ltb cy (y1 + h1))) ≡ false
  disjoint_cells x y w h x1 y1 w1 h1 apart here = ground arith
