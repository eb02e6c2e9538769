-- ===== src/Auth/Rows.antt =====
-- Rows of a table that a statement changes or removes.
use ygate_git.Base.{
  Option, none, some, Result, err, ok, ℕ, suc, ◌≤◌, ◌≡◌, refl, Bool, true, false, if◌then◌else◌,
  List, [], ◌∷◌, map, keep, length, All, Bool-cases, inl, inr, arith,
}
use ygate_git.Auth.Tables.{is_null, or_now}

pub or_now-is_null : (now : ℕ) (t : Option ℕ) → is_null (or_now now t) ≡ false
unfolding or_now is_null
or_now-is_null now none = refl
or_now-is_null now (some t) = refl

pub none-some {ℓ} : {A : Type ℓ} (x : A) → ◌≡◌ {A = Option A} none (some x) → ⊥
none-some x e = cc

pub err-ok {ℓ κ} :
    {E : Type ℓ} {A : Type κ} (e : E) (a : A) → ◌≡◌ {A = Result E A} (err e) (ok a) → ⊥
err-ok e a h = cc

module _ {ℓ} {A : Type ℓ} where
  -- UPDATE
  pub All-update {κ} :
      (P : A → Type κ) (test : A → Bool) (change : A → A)
      → ((a : A) → P a → P (change a))
      → (xs : List A) → All P xs
      → All P (map (λ a. if test a then change a else a) xs)
  All-update P test change keeps [] h = tt
  All-update P test change keeps (x ∷ xs) h = elim (Bool-cases (test x)) [
    | inl hits ↦ rw hits (keeps x h.0, All-update P test change keeps xs h.1)
    | inr misses ↦ rw misses (h.0, All-update P test change keeps xs h.1)
  ]

  -- An update after which the rows that it changes have a property.
  pub All-updated {κ} :
      (P : A → Type κ) (test : A → Bool) (change : A → A)
      → ((a : A) → test a ≡ true → P (change a))
      → ((a : A) → test a ≡ false → P a)
      → (xs : List A) → All P (map (λ a. if test a then change a else a) xs)
  All-updated P test change changed kept [] = tt
  All-updated P test change changed kept (x ∷ xs) = elim (Bool-cases (test x)) [
    | inl hits ↦ rw hits (changed x hits, All-updated P test change changed kept xs)
    | inr misses ↦ rw misses (kept x misses, All-updated P test change changed kept xs)
  ]

  -- DELETE
  pub All-keep {κ} :
      (P : A → Type κ) (test : A → Bool) (xs : List A) → All P xs → All P (keep test xs)
  unfolding keep
  All-keep P test [] h = tt
  All-keep P test (x ∷ xs) h = elim (Bool-cases (test x)) [
    | inl hits ↦ rw hits (h.0, All-keep P test xs h.1)
    | inr misses ↦ rw misses (All-keep P test xs h.1)
  ]

  pub length-keep_step :
      (p q : A → Bool) (x y : A) (xs ys : List A)
      → (p x ≡ true → q y ≡ true)
      → length (keep p xs) ≤ length (keep q ys)
      → length (keep p (x ∷ xs)) ≤ length (keep q (y ∷ ys))
  unfolding keep
  length-keep_step p q x y xs ys implies le = elim (Bool-cases (p x)) [
    | inl hits ↦ rw (hits, implies hits) (omega arith)
    | inr misses ↦ elim (Bool-cases (q y)) [
      | inl also ↦ rw (misses, also) (omega arith)
      | inr neither ↦ rw (misses, neither) le
    ]
  ]

  -- The count of the rows that pass a stronger test.
  pub length-keep_le :
      (p q : A → Bool)
      → ((a : A) → p a ≡ true → q a ≡ true)
      → (xs : List A) → length (keep p xs) ≤ length (keep q xs)
  unfolding keep
  length-keep_le p q implies [] = omega arith
  length-keep_le p q implies (x ∷ xs) =
      length-keep_step p q x x xs xs (implies x) (length-keep_le p q implies xs)

  -- The count after an update that makes no row pass.
  pub length-keep_update :
      (p test : A → Bool) (change : A → A)
      → ((a : A) → test a ≡ true → p (change a) ≡ false)
      → (xs : List A)
      → length (keep p (map (λ a. if test a then change a else a) xs)) ≤ length (keep p xs)
  unfolding keep
  length-keep_update p test change stops [] = omega arith
  length-keep_update p test change stops (x ∷ xs) =
      let rest = length-keep_update p test change stops xs in
      elim (Bool-cases (test x)) [
        | inl hits ↦
            rw (hits, stops x hits)
              (elim (Bool-cases (p x)) [ inl was ↦ rw was (omega arith) | inr not_ ↦ rw not_ rest ])
        | inr misses ↦ rw misses (length-keep_step p p x x _ xs (λ e. e) rest)
      ]

  -- The count after an update of every row that passes, after which it does not.
  pub length-keep_none :
      (p : A → Bool) (change : A → A)
      → ((a : A) → p a ≡ true → p (change a) ≡ false)
      → (xs : List A) → length (keep p (map (λ a. if p a then change a else a) xs)) ≡ 0
  unfolding keep
  length-keep_none p change stops [] = refl
  length-keep_none p change stops (x ∷ xs) = elim (Bool-cases (p x)) [
    | inl hits ↦ rw (hits, stops x hits) (length-keep_none p change stops xs)
    | inr misses ↦ rw (misses, misses) (length-keep_none p change stops xs)
  ]

  pub length-keep_cons :
      (p : A → Bool) (x : A) (xs : List A) → length (keep p (x ∷ xs)) ≤ suc (length (keep p xs))
  unfolding keep
  length-keep_cons p x xs = elim (Bool-cases (p x)) [
    | inl hits ↦ rw hits (omega arith)
    | inr misses ↦ rw misses (omega arith)
  ]

  pub length-keep_skip :
      (p : A → Bool) (x : A) (xs : List A)
      → p x ≡ false
      → length (keep p (x ∷ xs)) ≡ length (keep p xs)
  unfolding keep
  length-keep_skip p x xs misses = rw misses refl
