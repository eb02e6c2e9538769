-- ===== src/Middleware/Store/File/Queue.antt =====
-- The outbox over any sequence of the store's calls: ids, keys, and which readings wait.
use ygate_git.Base.{
  ◌≡◌, ◌≢◌, refl, sym, Bool, false, Bool-cases, inl, inr, List, [], ◌∷◌, ◌++◌, All, All-append,
  some_item, keep, map, arith,
}
use ygate_git.Base.Int.{ℤ, pos, ◌+ℤ◌, ◌≤ℤ◌, ◌<ℤ◌, eqb_ℤ}
use ygate_git.Base.Text.{Text, text_eq, text_eq_iff}
use ygate_git.Middleware.Store.File.{OutboxRow}
use ygate_git.Middleware.Store.File.Outbox.{for_ids}

-- Ids between two bounds, each above the one before it.
abbrev pub Ascending : ℤ → List OutboxRow → ℤ → Type 0
Ascending lo [] hi = lo <ℤ hi
Ascending lo (v ∷ vs) hi = (lo <ℤ v.id) × Ascending v.id vs hi

-- No two rows have the same key.
abbrev pub DistinctKeys : List OutboxRow → Type 0
DistinctKeys [] = Unit
DistinctKeys (v ∷ vs) = All (λ w. v.key ≢ w.key) vs × DistinctKeys vs

pub Ascending-raise :
    (lo hi hi' : ℤ) (vs : List OutboxRow) → hi ≤ℤ hi' → Ascending lo vs hi → Ascending lo vs hi'
Ascending-raise lo hi hi' [] h k = omega arith
Ascending-raise lo hi hi' (v ∷ vs) h k = (k.0, Ascending-raise v.id hi hi' vs h k.1)

Ascending-lower :
    (lo lo' hi : ℤ) (vs : List OutboxRow) → lo <ℤ lo' → Ascending lo' vs hi → Ascending lo vs hi
Ascending-lower lo lo' hi [] h k = omega arith
Ascending-lower lo lo' hi (v ∷ vs) h k = (omega (arith, k.0), k.1)

pub Ascending-append :
    (lo hi : ℤ) (vs : List OutboxRow) (v : OutboxRow)
    → v.id ≡ hi
    → Ascending lo vs hi
    → Ascending lo (vs ++ v ∷ []) (hi +ℤ pos 1)
unfolding ◌+ℤ◌
Ascending-append lo hi [] v e k = (ground arith, ground arith)
Ascending-append lo hi (w ∷ vs) v e k = (k.0, Ascending-append w.id hi vs v e k.1)

pub Ascending-keep :
    (p : OutboxRow → Bool) (lo hi : ℤ) (vs : List OutboxRow)
    → Ascending lo vs hi
    → Ascending lo (keep p vs) hi
unfolding keep
Ascending-keep p lo hi [] k = k
Ascending-keep p lo hi (v ∷ vs) k =
    let rest = Ascending-keep p v.id hi vs k.1 in
    elim (Bool-cases (p v)) [
      | inl kept ↦ rw kept (k.0, rest)
      | inr left ↦ rw left (Ascending-lower lo v.id hi (keep p vs) k.0 rest)
    ]

module _ (f : OutboxRow → OutboxRow) (same_id : (v : OutboxRow) → (f v).id ≡ v.id)
    (same_key : (v : OutboxRow) → (f v).key ≡ v.key) where
  pub Ascending-map :
      (lo hi : ℤ) (vs : List OutboxRow) → Ascending lo vs hi → Ascending lo (map f vs) hi
  Ascending-map lo hi [] k = k
  Ascending-map lo hi (v ∷ vs) k = rw (same_id v) (k.0, Ascending-map v.id hi vs k.1)

  other_keys-map :
      (key : Text) (vs : List OutboxRow)
      → All (λ (w : OutboxRow). key ≢ w.key) vs
      → All (λ (w : OutboxRow). key ≢ w.key) (map f vs)
  other_keys-map key [] h = tt
  other_keys-map key (v ∷ vs) h = (λ e. h.0 (rw (sym (same_key v)) e), other_keys-map key vs h.1)

  pub DistinctKeys-map : (vs : List OutboxRow) → DistinctKeys vs → DistinctKeys (map f vs)
  DistinctKeys-map [] h = tt
  DistinctKeys-map (v ∷ vs) h =
      (rw (same_key v) (other_keys-map v.key vs h.0), DistinctKeys-map vs h.1)

pub All-keep {ℓ κ} :
    {A : Type ℓ} (P : A → Type κ) (p : A → Bool) (xs : List A) → All P xs → All P (keep p xs)
unfolding keep
All-keep P p [] h = tt
All-keep P p (x ∷ xs) h = elim (Bool-cases (p x)) [
  | inl kept ↦ rw kept (h.0, All-keep P p xs h.1)
  | inr left ↦ rw left (All-keep P p xs h.1)
]

pub DistinctKeys-keep :
    (p : OutboxRow → Bool) (vs : List OutboxRow) → DistinctKeys vs → DistinctKeys (keep p vs)
unfolding keep
DistinctKeys-keep p [] h = tt
DistinctKeys-keep p (v ∷ vs) h = elim (Bool-cases (p v)) [
  | inl kept ↦ rw kept (All-keep _ p vs h.0, DistinctKeys-keep p vs h.1)
  | inr left ↦ rw left (DistinctKeys-keep p vs h.1)
]

pub DistinctKeys-append :
    (vs : List OutboxRow) (v : OutboxRow)
    → some_item (λ (w : OutboxRow). text_eq w.key v.key) vs ≡ false
    → DistinctKeys vs
    → DistinctKeys (vs ++ v ∷ [])
unfolding some_item
DistinctKeys-append [] v new h = (tt, tt)
DistinctKeys-append (w ∷ vs) v new h = (
  All-append (λ (u : OutboxRow). w.key ≢ u.key) vs (v ∷ []) h.0
      (λ same. ground (arith, (text_eq_iff w.key v.key).1 same), tt),
  DistinctKeys-append vs v (ground arith) h.1,
)

pub for_ids_same :
    {B : Type 0} (g : OutboxRow → B) (f : OutboxRow → OutboxRow)
    (same : (v : OutboxRow) → g (f v) ≡ g v) (ids : List ℤ) (v : OutboxRow)
    → g (for_ids f ids v) ≡ g v
unfolding for_ids
for_ids_same g f same [] v = refl
for_ids_same g f same (id ∷ ids) v = elim (Bool-cases (eqb_ℤ v.id id)) [
  | inl kept ↦ rw (kept, for_ids_same g f same ids (f v), same v)
  | inr left ↦ rw (left, for_ids_same g f same ids v)
]
