-- ===== src/Middleware/Store/File/Delivery.antt =====
-- Which readings of the outbox are ready, and which are removed.
use Prim.Native.Nat.{min}
use native.Mathlib.Nat.{pow-le-pow_right}
use ygate_git.Base.{
  ℕ, zero, suc, ◌^◌, ◌-◌, ◌≤◌, ◌≡◌, refl, subst, Bool, true, false, not, Bool-cases, inl, inr, List,
  [], ◌∷◌, All, some_item, keep, take, map, arith,
}
use ygate_git.Base.Int.{ℤ, pos, ◌+ℤ◌, ◌≤ℤ◌, ◌<ℤ◌, eqb_ℤ}
use ygate_git.Base.Text.{Text}
use ygate_git.Middleware.Store.Normalize.Snapshot.{has_id}
use ygate_git.Middleware.Store.File.{
  Store, FileState, Saves, OutboxRow, Status, pending, retrying, delivered, dead_letter, commit,
}
use ygate_git.Middleware.Store.File.Outbox.{
  is_waiting, is_ready, ready_rows, backoff, deliver_row, fail_row, for_ids, is_finished,
  is_expired, delivered_with_response, failed, clear_delivery_logs, cleanup_old,
}
use ygate_git.Middleware.Store.File.Queue.{for_ids_same}

-- What a handler makes true of every row stays true of the rows whose id it is given.
module _ (P : OutboxRow → Type 0) (f : OutboxRow → OutboxRow) (makes : (v : OutboxRow) → P (f v))
    (same_id : (v : OutboxRow) → (f v).id ≡ v.id) where
  for_ids_keeps : (ids : List ℤ) (v : OutboxRow) → P v → P (for_ids f ids v)
  unfolding for_ids
  for_ids_keeps [] v h = h
  for_ids_keeps (id ∷ ids) v h = elim (Bool-cases (eqb_ℤ v.id id)) [
    | inl named ↦ rw named (for_ids_keeps ids (f v) (makes v))
    | inr other ↦ rw other (for_ids_keeps ids v h)
  ]

  for_ids_makes : (ids : List ℤ) (v : OutboxRow) → has_id ids v.id ≡ true → P (for_ids f ids v)
  unfolding for_ids has_id some_item
  for_ids_makes [] v h = absurd (cc)
  for_ids_makes (id ∷ ids) v h = elim (Bool-cases (eqb_ℤ v.id id)) [
    | inl named ↦ rw named (for_ids_keeps ids (f v) (makes v))
    | inr other ↦ rw other (for_ids_makes ids v (ground arith))
  ]

  map-for_ids :
      (ids : List ℤ) (vs : List OutboxRow)
      → All (λ (v : OutboxRow). has_id ids v.id ≡ true → P v) (map (for_ids f ids) vs)
  map-for_ids ids [] = tt
  map-for_ids ids (v ∷ vs) = (
    λ h.
        for_ids_makes ids v
          (subst (λ (i : ℤ). has_id ids i ≡ true) (for_ids_same (λ u. u.id) f same_id ids v) h),
    map-for_ids ids vs,
  )

All-take {ℓ κ} : {A : Type ℓ} (P : A → Type κ) (n : ℕ) (xs : List A) → All P xs → All P (take n xs)
All-take P zero xs h = tt
All-take P (suc n) [] h = tt
All-take P (suc n) (x ∷ xs) h = (h.0, All-take P n xs h.1)

no_both : (b : Bool) → b ≡ true → b ≡ false → ⊥
no_both b h k = absurd (cc)

-- Rows of the named ids that are not ready are not returned by `Ready`.
keep-skips :
    (ids : List ℤ) (t : ℤ) (vs : List OutboxRow)
    → All (λ (v : OutboxRow). has_id ids v.id ≡ true → is_ready t v ≡ false) vs
    → All (λ (v : OutboxRow). has_id ids v.id ≡ false) (keep (is_ready t) vs)
unfolding keep
keep-skips ids t [] g = tt
keep-skips ids t (u ∷ us) g =
    let rest = keep-skips ids t us g.1 in
    elim (Bool-cases (is_ready t u)) [
      | inl ready ↦ elim (Bool-cases (has_id ids u.id)) [
        | inl named ↦ absurd (no_both (is_ready t u) ready (g.0 named))
        | inr other ↦ rw ready (other, rest)
      ]
      | inr waits ↦ rw waits rest
    ]

ready_rows-skips :
    (ids : List ℤ) (t : ℤ) (limit : ℕ) (vs : List OutboxRow)
    → All (λ (v : OutboxRow). has_id ids v.id ≡ true → is_ready t v ≡ false) vs
    → All (λ (v : OutboxRow). has_id ids v.id ≡ false) (ready_rows t limit vs)
unfolding ready_rows
ready_rows-skips ids t limit vs h = All-take _ _ (keep (is_ready t) vs) (keep-skips ids t vs h)

two_pow_bounds : (k : ℕ) → k ≤ 8 → (1 ≤ 2 ^ k) × (2 ^ k ≤ 256)
two_pow_bounds k h =
    let low : 2 ^ 0 ≤ 2 ^ k = pow-le-pow_right (omega arith) {i = 0} {j = k} (omega arith) in
    let high : 2 ^ k ≤ 2 ^ 8 = pow-le-pow_right (omega arith) h in
    (omega (arith, low), omega (arith, high))

-- The delay grows by doubling from one second and never passes 256 seconds.
backoff_bounds : (n : ℕ) → (1000 ≤ backoff (suc n)) × (backoff (suc n) ≤ 256000)
unfolding backoff
backoff_bounds n =
    let h = two_pow_bounds (min (suc n - 1) 8) (omega arith) in
    (omega (arith, h.0), omega (arith, h.1))

delivered_row-not_ready :
    (now http : ℤ) (response : Text) (t : ℤ) (v : OutboxRow)
    → is_ready t (deliver_row now http response v) ≡ false
unfolding deliver_row is_ready
delivered_row-not_ready now http response t v = refl

fail_row-same_id :
    (now http : ℤ) (msg : Text) (retry : Bool) (v : OutboxRow)
    → (fail_row now http msg retry v).id ≡ v.id
unfolding fail_row
fail_row-same_id now http msg true v = refl
fail_row-same_id now http msg false v = refl

failed_row-not_ready :
    (now http : ℤ) (msg : Text) (retry : Bool) (t : ℤ)
    → (retry ≡ true → t <ℤ now +ℤ pos 1000)
    → (v : OutboxRow) → is_ready t (fail_row now http msg retry v) ≡ false
unfolding fail_row is_ready ◌+ℤ◌
failed_row-not_ready now http msg true t early v =
    ground (arith, early refl, (backoff_bounds v.attempts).0)
failed_row-not_ready now http msg false t early v = refl

failed_row-ready :
    (now http : ℤ) (msg : Text) (t : ℤ)
    → now +ℤ pos 256000 ≤ℤ t
    → (v : OutboxRow) → is_ready t (fail_row now http msg true v) ≡ true
unfolding fail_row is_ready ◌+ℤ◌
failed_row-ready now http msg t late v = ground (arith, (backoff_bounds v.attempts).1)

-- What one filter leaves out, another that passes none of it does not see.
keep-keep :
    {A : Type 0} (p q : A → Bool)
    → ((x : A) → p x ≡ true → q x ≡ true)
    → (xs : List A) → keep p (keep q xs) ≡ keep p xs
unfolding keep
keep-keep p q h [] = refl
keep-keep p q h (x ∷ xs) = elim (Bool-cases (q x)) [
  | inl kept ↦ rw (kept, keep-keep p q h xs)
  | inr left ↦ elim (Bool-cases (p x)) [
    | inl passes ↦ absurd (no_both (q x) (h x passes) left)
    | inr fails ↦ rw (left, keep-keep p q h xs, fails)
  ]
]

waiting-not_finished : (v : OutboxRow) → is_waiting v.status ≡ true → not (is_finished v) ≡ true
unfolding is_finished
waiting-not_finished v h = ground arith

waiting_status-not_expired :
    (cut : ℤ) (status : Status) (v : OutboxRow)
    → is_waiting status ≡ true
    → v.status ≡ status
    → not (is_expired cut v) ≡ true
unfolding is_expired
waiting_status-not_expired cut pending v h e = rw e refl
waiting_status-not_expired cut retrying v h e = rw e refl
waiting_status-not_expired cut delivered v h e = absurd (cc)
waiting_status-not_expired cut dead_letter v h e = absurd (cc)

waiting-not_expired :
    (cut : ℤ) (v : OutboxRow) → is_waiting v.status ≡ true → not (is_expired cut v) ≡ true
unfolding is_expired
waiting-not_expired cut v h = waiting_status-not_expired cut v.status v h refl

-- The rows of readings that still have to be delivered.
abbrev pub waiting_rows : List OutboxRow → List OutboxRow
waiting_rows vs = keep (λ (v : OutboxRow). is_waiting v.status) vs

module _ {F : Type 0} where
  pub state-commit :
      {A : Type 0} (saves : Saves F) (v : A) (s : Store F) (state : FileState F)
      → (commit saves v s state).1.state ≡ state
  state-commit saves v s state = elim (Bool-cases (saves state)) [
    | inl done ↦ rw done refl
    | inr not_done ↦ rw not_done refl
  ]

  -- After readings are reported as delivered, `Ready` returns none of them, at any time and with any
  -- limit, even if the file could not be written.
  pub delivered_with_response-not_ready :
      (saves : Saves F) (now : ℤ) (ids : List ℤ) (http : ℤ) (response : Text) (s : Store F) (t : ℤ)
      (limit : ℕ)
      → All
          (λ (v : OutboxRow). has_id ids v.id ≡ false)
          (ready_rows t limit
            (delivered_with_response saves now ids http response s).1.state.outbox)
  unfolding delivered_with_response deliver_row
  delivered_with_response-not_ready saves now ids http response s t limit =
      rw (state-commit saves tt s _) (
        ready_rows-skips ids t limit _ (
          map-for_ids (λ v. is_ready t v ≡ false) (deliver_row now http response)
            (delivered_row-not_ready now http response t) (λ v. refl) ids s.state.outbox))

  -- After the delivery of readings is reported as failed, `Ready` returns none of them with any limit:
  -- at any time if they are not to be retried, and else before a second has passed.
  pub failed-not_ready :
      (saves : Saves F) (now : ℤ) (ids : List ℤ) (http : ℤ) (msg : Text) (retry : Bool)
      (s : Store F) (t : ℤ) (limit : ℕ)
      → (retry ≡ true → t <ℤ now +ℤ pos 1000)
      → All
          (λ (v : OutboxRow). has_id ids v.id ≡ false)
          (ready_rows t limit (failed saves now ids http msg retry s).1.state.outbox)
  unfolding failed
  failed-not_ready saves now ids http msg retry s t limit early = rw (state-commit saves tt s _) (
      ready_rows-skips ids t limit _ (
        map-for_ids (λ v. is_ready t v ≡ false) (fail_row now http msg retry)
          (failed_row-not_ready now http msg retry t early) (fail_row-same_id now http msg retry)
          ids s.state.outbox))

  -- After the delivery of readings is reported as failed and to be retried, each of them is ready 256
  -- seconds later at the latest, however often it has failed.
  pub failed-ready_again :
      (saves : Saves F) (now : ℤ) (ids : List ℤ) (http : ℤ) (msg : Text) (s : Store F) (t : ℤ)
      → now +ℤ pos 256000 ≤ℤ t
      → All
          (λ (v : OutboxRow). has_id ids v.id ≡ true → is_ready t v ≡ true)
          (failed saves now ids http msg true s).1.state.outbox
  unfolding failed
  failed-ready_again saves now ids http msg s t late = rw (state-commit saves tt s _) (
      map-for_ids (λ v. is_ready t v ≡ true) (fail_row now http msg true)
        (failed_row-ready now http msg t late) (fail_row-same_id now http msg true) ids
        s.state.outbox)

  -- Neither clearing the delivery logs nor cleaning up, with any time before which logs are old,
  -- removes or changes a reading that still has to be delivered.
  pub waiting_rows-kept :
      (saves : Saves F) (cut : ℤ) (s : Store F)
      → (waiting_rows (clear_delivery_logs saves s).1.state.outbox ≡ waiting_rows s.state.outbox)
        × (waiting_rows (cleanup_old saves cut s).1.state.outbox ≡ waiting_rows s.state.outbox)
  unfolding clear_delivery_logs cleanup_old
  waiting_rows-kept saves cut s = (
    rw (state-commit saves _ s _) (keep-keep _ _ waiting-not_finished s.state.outbox),
    rw (state-commit saves _ s _) (keep-keep _ _ (waiting-not_expired cut) s.state.outbox),
  )
