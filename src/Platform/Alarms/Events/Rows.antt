-- ===== src/Platform/Alarms/Events/Rows.antt =====
-- What the statements of evaluateAlarms do to the rows, and an induction over its loop.
use ygate_git.Base.{
  ℕ, ◌≡◌, ◌≢◌, refl, sym, Bool, false, ◌&&◌, Bool-cases, inl, inr, Option, none, some, List, [],
  ◌∷◌, ◌++◌, map, keep, All, some_item, ◌==◌, ==_iff, All-weaken,
}
use ygate_git.Base.Int.{ℤ}
use ygate_git.Middleware.Store.File.Queue.{All-keep}
use ygate_git.Platform.Floats.{Floats}
use ygate_git.Platform.Alarms.{alarm_suppressed}
use ygate_git.Platform.Alarms.Events.{
  AlarmEvent, AlarmRule, Observation, ConditionSnapshot, is_event_of, is_open_of, is_null,
  last_breached, insert_event, clear_event, clear_events, apply_verdict, evaluate_rules,
  evaluate_alarms, new_event, rule_breach, snapshots, is_evaluated,
}

pub is_event_of-clear_event :
    (q u : ℕ) (now : ℤ) (e : AlarmEvent) → is_event_of q (clear_event u now e) ≡ is_event_of q e
unfolding is_event_of clear_event
is_event_of-clear_event q u now e = elim (Bool-cases (is_event_of u e && is_null e.cleared_at)) [
  | inl clears ↦ rw clears refl
  | inr keeps ↦ rw keeps refl
]

pub breached_at-clear_event :
    (u : ℕ) (now : ℤ) (e : AlarmEvent) → (clear_event u now e).breached_at ≡ e.breached_at
unfolding is_event_of clear_event
breached_at-clear_event u now e = elim (Bool-cases (is_event_of u e && is_null e.cleared_at)) [
  | inl clears ↦ rw clears refl
  | inr keeps ↦ rw keeps refl
]

last_breached-clear_events :
    (q u : ℕ) (now : ℤ) (es : List AlarmEvent)
    → last_breached q (clear_events u now es) ≡ last_breached q es
unfolding last_breached clear_events
last_breached-clear_events q u now [] = refl
last_breached-clear_events q u now (e ∷ es) =
    rw
      (
        is_event_of-clear_event q u now e,
        breached_at-clear_event u now e,
        last_breached-clear_events q u now es,
      )
      refl

last_breached-append_other :
    (q : ℕ) (e : AlarmEvent) (es : List AlarmEvent)
    → is_event_of q e ≡ false
    → last_breached q (es ++ (e ∷ [])) ≡ last_breached q es
unfolding last_breached
last_breached-append_other q e [] other = rw other refl
last_breached-append_other q e (f ∷ es) other = rw (last_breached-append_other q e es other) refl

last_breached-insert_other :
    (q u : ℕ) (e : AlarmEvent) (es : List AlarmEvent)
    → is_event_of q e ≡ false
    → last_breached q (insert_event u e es) ≡ last_breached q es
unfolding insert_event
last_breached-insert_other q u e es other = elim (Bool-cases (some_item (is_open_of u) es)) [
  | inl conflict ↦ rw conflict refl
  | inr free ↦ rw free (last_breached-append_other q e es other)
]

module _ (fl : Floats) where
  -- What one round of the loop does: nothing, or an insert that no alarm delay holds back, or clearing.
  pub apply_verdict_cases :
      (P : List AlarmEvent → Type 0) (r : AlarmRule fl) (o : Observation fl) (last : Option ℤ)
      (found : Option (List (ConditionSnapshot fl))) (es : List AlarmEvent)
      → P es
      → (alarm_suppressed last o.observed_at r.alarm_delay_seconds ≡ false
          → P (insert_event r.id (new_event fl r o) es))
      → P (clear_events r.id o.now es)
      → P (apply_verdict fl r o last found es)
  unfolding apply_verdict
  apply_verdict_cases P r o last none es same opens clears = same
  apply_verdict_cases P r o last (some ss) es same opens clears =
      elim (Bool-cases (rule_breach fl ss)) [
        | inl breach ↦
            elim (Bool-cases (alarm_suppressed last o.observed_at r.alarm_delay_seconds)) [
              | inl held ↦ rw (breach, held) same
              | inr free ↦ rw (breach, free) (opens free)
            ]
        | inr no_breach ↦ rw no_breach clears
      ]

  is_event_of-new_event :
      (q : ℕ) (r : AlarmRule fl) (o : Observation fl)
      → q ≢ r.id
      → is_event_of q (new_event fl r o) ≡ false
  unfolding is_event_of new_event
  is_event_of-new_event q r o other = elim (Bool-cases (r.id == q)) [
    | inl same ↦ absurd (other (sym ((==_iff r.id q).0 same)))
    | inr differs ↦ differs
  ]

  -- A round for one rule leaves the last alarm of every other rule.
  pub last_breached-apply_verdict :
      (q : ℕ) (r : AlarmRule fl) (o : Observation fl) (last : Option ℤ)
      (found : Option (List (ConditionSnapshot fl))) (es : List AlarmEvent)
      → q ≢ r.id
      → last_breached q (apply_verdict fl r o last found es) ≡ last_breached q es
  last_breached-apply_verdict q r o last found es other =
      apply_verdict_cases (λ rows. last_breached q rows ≡ last_breached q es) r o last found es refl
        (λ free.
          last_breached-insert_other q r.id (new_event fl r o) es
            (is_event_of-new_event q r o other))
        (last_breached-clear_events q r.id o.now es)

  -- The rules have different ids.
  abbrev pub IsDistinct : List (AlarmRule fl) → Type 0
  IsDistinct [] = Unit
  IsDistinct (r ∷ rs) = All (λ (q : AlarmRule fl). q.id ≢ r.id) rs × IsDistinct rs

  pub keep-IsDistinct :
      (p : AlarmRule fl → Bool) (rs : List (AlarmRule fl)) → IsDistinct rs → IsDistinct (keep p rs)
  unfolding keep
  keep-IsDistinct p [] h = tt
  keep-IsDistinct p (r ∷ rs) h = elim (Bool-cases (p r)) [
    | inl kept ↦ rw kept (All-keep _ p rs h.0, keep-IsDistinct p rs h.1)
    | inr left_out ↦ rw left_out (keep-IsDistinct p rs h.1)
  ]

  -- Each rule with the time of its last alarm.
  abbrev pub load : List AlarmEvent → List (AlarmRule fl) → List (AlarmRule fl × Option ℤ)
  load es = map (λ (r : AlarmRule fl). (r, last_breached r.id es))

  load_same :
      (es fs : List AlarmEvent) (rs : List (AlarmRule fl))
      → All (λ (q : AlarmRule fl). last_breached q.id fs ≡ last_breached q.id es) rs
      → load es rs ≡ load fs rs
  load_same es fs [] h = refl
  load_same es fs (r ∷ rs) h = rw (h.0, load_same es fs rs h.1) refl

  -- A property of the rows that every round keeps, whose last alarm is then that of the rows it begins
  -- with, is kept by the loop.
  module _ (Q : AlarmRule fl → Type 0) (P : List AlarmEvent → Type 0) (o : Observation fl)
      (keeps : (r : AlarmRule fl) (found : Option (List (ConditionSnapshot fl)))
          (es : List AlarmEvent)
        → Q r
        → P es
        → P (apply_verdict fl r o (last_breached r.id es) found es)) where
    evaluate_rules-keeps :
        (rs : List (AlarmRule fl)) (es : List AlarmEvent)
        → IsDistinct rs
        → All Q rs
        → P es
        → P (evaluate_rules fl o (load es rs) es).0
    unfolding evaluate_rules
    evaluate_rules-keeps [] es d q h = h
    evaluate_rules-keeps (r ∷ rs) es d q h =
        let found = snapshots fl o.data_items r.conditions in
        let next = apply_verdict fl r o (last_breached r.id es) found es in
        rw
          (load_same es next rs (
            All-weaken _ _
              (λ u other.
                last_breached-apply_verdict u.id r o (last_breached r.id es) found es other)
              rs d.0))
          (evaluate_rules-keeps rs next d.1 q.1 (keeps r found es q.0 h))

    pub evaluate_alarms-keeps :
        (rules : List (AlarmRule fl)) (es : List AlarmEvent)
        → IsDistinct rules
        → All Q rules
        → P es
        → P (evaluate_alarms fl rules o es).0
    unfolding evaluate_alarms
    evaluate_alarms-keeps rules es d q h =
        evaluate_rules-keeps (keep (is_evaluated fl o) rules) es
          (keep-IsDistinct (is_evaluated fl o) rules d) (All-keep Q (is_evaluated fl o) rules q) h
