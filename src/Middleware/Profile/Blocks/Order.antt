-- ===== src/Middleware/Profile/Blocks/Order.antt =====
-- Sorting the entries: the result is ordered and has the same entries.
use mathlib.Core.List.{Perm}
use mathlib.Core.List.Perm
use ygate_git.Base.{◌≡◌, true, false, List, [], ◌∷◌, All, All-weaken, Bool-cases, inl, inr, arith}
use ygate_git.Middleware.Profile.Blocks.{Entry, less, insert, sort_entries}

module _ {F : Type 0} where
  -- No later entry is less than an earlier one.
  abbrev pub IsSorted : List (Entry F) → Type 0
  IsSorted [] = Unit
  IsSorted (x ∷ xs) = All (λ y. less y x ≡ false) xs × IsSorted xs

  less_asymm : (a b : Entry F) → less a b ≡ true → less b a ≡ false
  unfolding less
  less_asymm a b h = ground arith

  not_less_trans : (a b c : Entry F) → less b c ≡ false → less a b ≡ false → less a c ≡ false
  unfolding less
  not_less_trans a b c h k = ground arith

  All-insert :
      (P : Entry F → Type 0) (e : Entry F) (xs : List (Entry F))
      → P e
      → All P xs
      → All P (insert e xs)
  unfolding insert
  All-insert P e [] h k = (h, tt)
  All-insert P e (x ∷ xs) h k = elim (Bool-cases (less x e)) [
    | inl before ↦ rw before (k.0, All-insert P e xs h k.1)
    | inr after ↦ rw after (h, k)
  ]

  insert-IsSorted : (e : Entry F) (xs : List (Entry F)) → IsSorted xs → IsSorted (insert e xs)
  unfolding insert
  insert-IsSorted e [] h = (tt, tt)
  insert-IsSorted e (x ∷ xs) h = elim (Bool-cases (less x e)) [
    | inl before ↦ rw before (
      All-insert (λ y. less y x ≡ false) e xs (less_asymm x e before) h.0,
      insert-IsSorted e xs h.1,
    )
    | inr after ↦ rw after (
      (
        after,
        All-weaken (λ y. less y x ≡ false) (λ y. less y e ≡ false) (λ y. not_less_trans y x e after)
            xs h.0,
      ),
      h,
    )
  ]

  pub sort_entries-IsSorted : (es : List (Entry F)) → IsSorted (sort_entries es)
  unfolding sort_entries
  sort_entries-IsSorted [] = tt
  sort_entries-IsSorted (e ∷ es) = insert-IsSorted e (sort_entries es) (sort_entries-IsSorted es)

  pub sort_entries-All :
      (P : Entry F → Type 0) (es : List (Entry F)) → All P es → All P (sort_entries es)
  unfolding sort_entries
  sort_entries-All P [] h = tt
  sort_entries-All P (e ∷ es) h = All-insert P e (sort_entries es) h.0 (sort_entries-All P es h.1)

  insert-perm : (e : Entry F) (xs : List (Entry F)) → Perm (insert e xs) (e ∷ xs)
  unfolding insert
  insert-perm e [] = Perm.refl (e ∷ [])
  insert-perm e (x ∷ xs) = elim (Bool-cases (less x e)) [
    | inl before ↦ rw before (Perm.trans (Perm.cons x (insert-perm e xs)) (Perm.swap e x xs))
    | inr after ↦ rw after (Perm.refl (e ∷ x ∷ xs))
  ]

  pub sort_entries-perm : (es : List (Entry F)) → Perm (sort_entries es) es
  unfolding sort_entries
  sort_entries-perm [] = Perm.refl []
  sort_entries-perm (e ∷ es) =
      Perm.trans (insert-perm e (sort_entries es)) (Perm.cons e (sort_entries-perm es))
