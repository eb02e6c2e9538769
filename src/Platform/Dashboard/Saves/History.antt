-- ===== src/Platform/Dashboard/Saves/History.antt =====
-- What a dashboard's row holds after any calls.
use ygate_git.Base.{
  ℕ, suc, ◌+◌, ◌≤◌, ◌≡◌, refl, ◌⊎◌, inl, inr, Bool, true, false, not, ◌&&◌, ◌||◌, if◌then◌else◌,
  Option, none, some, List, [], ◌∷◌, Result, err, ok, length, ◌==◌, ==_iff, All, Bool-cases,
  else_branch, arith,
}
use ygate_git.Base.Int.{ℤ, pos, eqb_ℤ, ltb_ℤ}
use ygate_git.Base.Text.{Text}
use ygate_git.Platform.Dashboard.{Layouts}
use ygate_git.Platform.Dashboard.Configs.{Configs}
use ygate_git.Platform.Dashboard.Saves.{
  PublishedRow, DashboardRow, DashboardUser, DashboardError, invalid_input, forbidden,
  version_conflict, PublishedDashboardLayout, create_user_dashboard, update_user_dashboard,
  publish_user_dashboard, version_of, is_accepted, Outcome, finish_row, save_row,
  save_dashboard_layout, publish_checked, publish_row, publish_dashboard_layout,
}

-- What was saved, the latest first.
abbrev pub Saves : Type 0
Saves = List (Layouts × Configs)

pub data Call : Type 0 where
  saves : DashboardUser → ℤ → Layouts → Configs → Call
  publishes : DashboardUser → ℤ → ℤ → Call

-- What was saved as a version.
unfoldable pub saved_as : ℕ → Saves → Option (Layouts × Configs)
saved_as version [] = none
saved_as version (s ∷ older) =
    if version == length (s ∷ older) then some s else saved_as version older

abbrev succeeds {ℓ} : {A : Type ℓ} → Result DashboardError A → Bool
succeeds (err e) = false
succeeds (ok a) = true

module _ (is_uuid : Text → Bool) where
  -- A call on the row, and on the list of what was saved so far.
  unfoldable pub call : Call → Option DashboardRow × Saves → Option DashboardRow × Saves
  unfolding save_dashboard_layout publish_dashboard_layout
  call (saves user version layouts configs) (row, history) =
      let (result, after) = save_dashboard_layout is_uuid user version layouts configs row in
      (after, if succeeds result then (layouts, configs) ∷ history else history)
  call (publishes user version published) (row, history) =
      ((publish_dashboard_layout is_uuid user version published row).1, history)

  unfoldable pub calls : List Call → Option DashboardRow × Saves
  unfolding call
  calls [] = (none, [])
  calls (c ∷ cs) = call c (calls cs)

  abbrev pub IsLive : Saves → Option PublishedRow → Type 0
  IsLive history none = Unit {0}
  IsLive history (some p) =
      saved_as p.published_from history ≡ some (p.published_layouts, p.published_configs)

  -- The row has the latest of what was saved, its version counts the saves, and what is published is
  -- what was saved as the version that it is published from.
  pub record IsRow (history : Saves) (r : DashboardRow) : Type 0 where
    pub version_is : r.version ≡ length history
    pub latest : saved_as r.version history ≡ some (r.layouts, r.configs)
    pub accepted : All (λ (s : Layouts × Configs). is_accepted is_uuid s.0 s.1 ≡ true) history
    pub live : IsLive history r.published

  abbrev pub IsRecorded : Option DashboardRow × Saves → Type 0
  IsRecorded (none, history) = history ≡ []
  IsRecorded (some r, history) = IsRow history r

  abbrev next_row : Layouts → Configs → Option DashboardRow → DashboardRow
  next_row layouts configs none = create_user_dashboard layouts configs
  next_row layouts configs (some r) = update_user_dashboard layouts configs r

  -- A call was refused, and the row is as before; or it went through.
  abbrev IsRefused : {A : Type 0} → Outcome is_uuid A → Option DashboardRow → Type 0
  IsRefused outcome row = (e : DashboardError) × (outcome ≡ (err e, row))

  abbrev IsDone : {A : Type 0} → Outcome is_uuid A → DashboardRow → Type 0
  IsDone {A} outcome r = (view : A) × (outcome ≡ (ok view, some r))

  finish_row-cases :
      {A : Type 0} (result : Result DashboardError A) (row : Option DashboardRow) (r : DashboardRow)
      → IsRefused (finish_row is_uuid result row r) row ⊎ IsDone (finish_row is_uuid result row r) r
  unfolding finish_row
  finish_row-cases (err e) row r = inl (e, refl)
  finish_row-cases (ok a) row r = inr (a, refl)

  if-cases :
      {A : Type 0} (b : Bool) (x : Outcome is_uuid A) (e : DashboardError)
      (row : Option DashboardRow) (r : DashboardRow)
      → IsRefused x row ⊎ IsDone x r
      → IsRefused (if b then x else (err e, row)) row ⊎ IsDone (if b then x else (err e, row)) r
  if-cases true x e row r h = h
  if-cases false x e row r h = inl (e, refl)

  save_row-cases :
      (user : DashboardUser) (version : ℤ) (layouts : Layouts) (configs : Configs)
      (row : Option DashboardRow)
      → IsRefused (save_row is_uuid user version layouts configs row) row
        ⊎ IsDone (save_row is_uuid user version layouts configs row) (next_row layouts configs row)
  unfolding save_row
  save_row-cases user version layouts configs none =
      if-cases (eqb_ℤ version (pos 0)) _ version_conflict none _ (finish_row-cases _ none _)
  save_row-cases user version layouts configs (some r) =
      if-cases (eqb_ℤ (pos r.version) version) _ version_conflict (some r) _
        (finish_row-cases _ (some r) _)

  test-cases :
      {A : Type 0} (negative accepted organized permitted : Bool) (x : Outcome is_uuid A)
      (row : Option DashboardRow) (r : DashboardRow)
      → IsRefused x row ⊎ IsDone x r
      → IsRefused
          (if negative || (not accepted || not organized)
            then (err invalid_input, row)
            else if not permitted
            then (err forbidden, row)
            else x)
          row
        ⊎ (IsDone
              (if negative || (not accepted || not organized)
                then (err invalid_input, row)
                else if not permitted
                then (err forbidden, row)
                else x)
              r
            × (accepted ≡ true))
  test-cases true a o p x row r h = inl (invalid_input, refl)
  test-cases false false o p x row r h = inl (invalid_input, refl)
  test-cases false true false p x row r h = inl (invalid_input, refl)
  test-cases false true true false x row r h = inl (forbidden, refl)
  test-cases false true true true x row r (inl h) = inl h
  test-cases false true true true x row r (inr h) = inr (h, refl)

  save-cases :
      (user : DashboardUser) (version : ℤ) (layouts : Layouts) (configs : Configs)
      (row : Option DashboardRow)
      → IsRefused (save_dashboard_layout is_uuid user version layouts configs row) row
        ⊎ (IsDone
              (save_dashboard_layout is_uuid user version layouts configs row)
              (next_row layouts configs row)
            × (is_accepted is_uuid layouts configs ≡ true))
  unfolding save_dashboard_layout
  save-cases user version layouts configs row =
      test-cases (ltb_ℤ version (pos 0)) (is_accepted is_uuid layouts configs) user.has_organization
        user.may_update (save_row is_uuid user version layouts configs row) row
        (next_row layouts configs row) (save_row-cases user version layouts configs row)

  publish_checked-cases :
      (result : Result DashboardError PublishedDashboardLayout) (r : DashboardRow)
      → IsRefused (publish_checked is_uuid result r) (some r)
        ⊎ IsDone (publish_checked is_uuid result r) (publish_user_dashboard r)
  unfolding publish_checked
  publish_checked-cases (err e) r = inl (e, refl)
  publish_checked-cases (ok before) r = finish_row-cases _ (some r) _

  gate-cases :
      {A : Type 0} (bad permitted : Bool) (x : Outcome is_uuid A) (row : Option DashboardRow)
      (r : DashboardRow)
      → IsRefused x row ⊎ IsDone x r
      → IsRefused
          (if bad
            then (err invalid_input, row)
            else if not permitted
            then (err forbidden, row)
            else x)
          row
        ⊎ IsDone
            (if bad
              then (err invalid_input, row)
              else if not permitted
              then (err forbidden, row)
              else x)
            r
  gate-cases true p x row r h = inl (invalid_input, refl)
  gate-cases false false x row r h = inl (forbidden, refl)
  gate-cases false true x row r h = h

  publish_some-cases :
      (user : DashboardUser) (version published : ℤ) (r : DashboardRow)
      → IsRefused (publish_dashboard_layout is_uuid user version published (some r)) (some r)
        ⊎ IsDone
            (publish_dashboard_layout is_uuid user version published (some r))
            (publish_user_dashboard r)
  unfolding publish_dashboard_layout publish_row
  publish_some-cases user version published r =
      gate-cases (ltb_ℤ version (pos 1) || (ltb_ℤ published (pos 0) || not user.has_organization))
        user.may_publish (publish_row is_uuid version published (some r)) (some r)
        (publish_user_dashboard r)
        (if-cases (eqb_ℤ (pos r.version) version && eqb_ℤ (pos (version_of r.published)) published)
          _ version_conflict (some r) _ (publish_checked-cases _ r))

  publish_none :
      (user : DashboardUser) (version published : ℤ)
      → (publish_dashboard_layout is_uuid user version published none).1 ≡ none
  unfolding publish_dashboard_layout publish_row
  publish_none user version published =
      elim (Bool-cases
        (ltb_ℤ version (pos 1) || (ltb_ℤ published (pos 0) || not user.has_organization))) [
          | inl bad ↦ rw bad refl
          | inr fine ↦ elim (Bool-cases (not user.may_publish)) [
            | inl forbids ↦ rw (fine, forbids) refl
            | inr permits ↦ rw (fine, permits) refl
          ]
        ]

  saved_as-le :
      (version : ℕ) (t : Layouts × Configs) (history : Saves)
      → saved_as version history ≡ some t
      → version ≤ length history
  unfolding saved_as
  saved_as-le version t [] e = absurd (cc)
  saved_as-le version t (s ∷ history) e = elim (Bool-cases (version == suc (length history))) [
    | inl same ↦ ground (arith, (==_iff version (suc (length history))).0 same)
    | inr other ↦ let le = saved_as-le version t history (else_branch _ _ _ other e) in omega arith
  ]

  test-false : (a n : ℕ) → a ≤ n → (a == suc n) ≡ false
  test-false a n h = ground arith

  -- What was saved as an earlier version stays.
  saved_as-next :
      (version : ℕ) (s t : Layouts × Configs) (history : Saves)
      → saved_as version history ≡ some t
      → saved_as version (s ∷ history) ≡ some t
  unfolding saved_as
  saved_as-next version s t history e =
      rw (test-false version (length history) (saved_as-le version t history e)) e

  same_version :
      (version : ℕ) (history : Saves)
      → version ≡ length history
      → (version + 1 == suc (length history)) ≡ true
  same_version version history e = ground arith

  IsLive-next :
      (s : Layouts × Configs) (published : Option PublishedRow) (history : Saves)
      → IsLive history published
      → IsLive (s ∷ history) published
  IsLive-next s none history live = tt
  IsLive-next s (some p) history live = saved_as-next p.published_from s _ history live

  next_row-IsRow :
      (layouts : Layouts) (configs : Configs) (row : Option DashboardRow) (history : Saves)
      → IsRecorded (row, history)
      → is_accepted is_uuid layouts configs ≡ true
      → IsRow ((layouts, configs) ∷ history) (next_row layouts configs row)
  unfolding create_user_dashboard update_user_dashboard saved_as
  next_row-IsRow layouts configs none history empty fine =
      rw empty (record { version_is = refl; latest = refl; accepted = (fine, tt); live = tt })
  next_row-IsRow layouts configs (some r) history h fine = record {
    version_is = rw h.version_is (omega arith);
    latest = rw (same_version r.version history h.version_is) refl;
    accepted = (fine, h.accepted);
    live = IsLive-next (layouts, configs) r.published history h.live;
  }

  publish-IsRow :
      (r : DashboardRow) (history : Saves)
      → IsRow history r
      → IsRow history (publish_user_dashboard r)
  unfolding publish_user_dashboard
  publish-IsRow r history h = record {
    version_is = h.version_is;
    latest = h.latest;
    accepted = h.accepted;
    live = h.latest;
  }

  call-IsRecorded :
      (c : Call) (row : Option DashboardRow) (history : Saves)
      → IsRecorded (row, history)
      → IsRecorded (call c (row, history))
  unfolding call
  call-IsRecorded (saves user version layouts configs) row history h =
      elim (save-cases user version layouts configs row) [
        | inl (e, refused) ↦ rw refused h
        | inr ((view, done), fine) ↦ rw done (next_row-IsRow layouts configs row history h fine)
      ]
  call-IsRecorded (publishes user version published) none history h =
      rw (publish_none user version published) h
  call-IsRecorded (publishes user version published) (some r) history h =
      elim (publish_some-cases user version published r) [
        | inl (e, refused) ↦ rw refused h
        | inr (view, done) ↦ rw done (publish-IsRow r history h)
      ]

  -- After any calls that save and publish a user's dashboard, granted or not, its version is the number of the
  -- saves that succeeded, its content is that of the last of them, everything that was saved is
  -- accepted, and what is published is what was saved as the version that it is published from.
  pub calls-IsRecorded : (cs : List Call) → IsRecorded (calls cs)
  unfolding calls
  calls-IsRecorded [] = refl
  calls-IsRecorded (c ∷ cs) = call-IsRecorded c (calls cs).0 (calls cs).1 (calls-IsRecorded cs)
