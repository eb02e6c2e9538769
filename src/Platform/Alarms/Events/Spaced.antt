-- ===== src/Platform/Alarms/Events/Spaced.antt =====
-- How often a rule alarms: one open event at a time, and its delay between two of them.
use ygate_git.Base.{
  ℕ, ◌<◌, ◌*◌, ◌≡◌, refl, Bool, true, false, ◌&&◌, Bool-cases, inl, inr, Option, none, some, List,
  [], ◌∷◌, ◌++◌, map, ◌⊎◌, subst, ==_iff, All, All-append, All-weaken, some_item, ◌==◌, arith,
}
use ygate_git.Base.Int.{ℤ, pos, negsuc, ◌+ℤ◌, ◌≤ℤ◌}
use ygate_git.Platform.Floats.{Floats}
use ygate_git.Platform.Alarms.{alarm_suppressed, second}
use ygate_git.Platform.Alarms.Events.{
  AlarmEvent, AlarmRule, Observation, ConditionSnapshot, is_event_of, is_open_of, is_null, latest,
  last_breached, insert_event, clear_event, clear_events, apply_verdict, evaluate_alarms, new_event,
}
use ygate_git.Platform.Alarms.Events.Rows.{
  is_event_of-clear_event, breached_at-clear_event, apply_verdict_cases, IsDistinct,
  evaluate_alarms-keeps,
}

absurd_from : {b : Bool} → b ≡ true → b ≡ false → ⊥
absurd_from h k = cc

-- Every later event of the rule is at least `gap` after every earlier one.
abbrev pub IsSpaced : ℕ → ℕ → List AlarmEvent → Type 0
IsSpaced q gap [] = Unit
IsSpaced q gap (e ∷ es) =
    (is_event_of q e ≡ true
      → All (λ (f : AlarmEvent). is_event_of q f ≡ true → e.breached_at +ℤ pos gap ≤ℤ f.breached_at)
          es)
    × IsSpaced q gap es

-- Each event of the rule is followed by no other while it is open.
abbrev pub IsOpenOnce : ℕ → List AlarmEvent → Type 0
IsOpenOnce q [] = Unit
IsOpenOnce q (e ∷ es) =
    (is_open_of q e ≡ true → All (λ (f : AlarmEvent). is_open_of q f ≡ false) es) × IsOpenOnce q es

module _ (q u : ℕ) (now : ℤ) where
  spaced_after-clear :
      (gap : ℕ) (t : ℤ) (es : List AlarmEvent)
      → All (λ (f : AlarmEvent). is_event_of q f ≡ true → t +ℤ pos gap ≤ℤ f.breached_at) es
      → All
          (λ (f : AlarmEvent). is_event_of q f ≡ true → t +ℤ pos gap ≤ℤ f.breached_at)
          (map (clear_event u now) es)
  spaced_after-clear gap t [] h = tt
  spaced_after-clear gap t (e ∷ es) h = (
    rw (is_event_of-clear_event q u now e, breached_at-clear_event u now e) h.0,
    spaced_after-clear gap t es h.1,
  )

  clear_events-IsSpaced :
      (gap : ℕ) (es : List AlarmEvent) → IsSpaced q gap es → IsSpaced q gap (clear_events u now es)
  unfolding clear_events
  clear_events-IsSpaced gap [] h = tt
  clear_events-IsSpaced gap (e ∷ es) h = (
    rw (is_event_of-clear_event q u now e, breached_at-clear_event u now e)
        (λ k. spaced_after-clear gap e.breached_at es (h.0 k)),
    clear_events-IsSpaced gap es h.1,
  )

  closed-clear_event :
      (e : AlarmEvent) → is_open_of q e ≡ false → is_open_of q (clear_event u now e) ≡ false
  unfolding is_open_of clear_event
  closed-clear_event e h = elim (Bool-cases (is_event_of u e && is_null e.cleared_at)) [
    | inl clears ↦ rw clears (ground arith)
    | inr keeps ↦ rw keeps h
  ]

  closed-clear_events :
      (es : List AlarmEvent)
      → All (λ (f : AlarmEvent). is_open_of q f ≡ false) es
      → All (λ (f : AlarmEvent). is_open_of q f ≡ false) (map (clear_event u now) es)
  closed-clear_events [] h = tt
  closed-clear_events (e ∷ es) h = (closed-clear_event e h.0, closed-clear_events es h.1)

  clear_events-IsOpenOnce :
      (es : List AlarmEvent) → IsOpenOnce q es → IsOpenOnce q (clear_events u now es)
  unfolding clear_events
  clear_events-IsOpenOnce [] h = tt
  clear_events-IsOpenOnce (e ∷ es) h = (
    elim (Bool-cases (is_open_of q e)) [
      | inl opened ↦ λ k. closed-clear_events es (h.0 opened)
      | inr closed ↦ λ k. absurd (absurd_from k (closed-clear_event e closed))
    ],
    clear_events-IsOpenOnce es h.1,
  )

append-IsSpaced :
    (q gap : ℕ) (new : AlarmEvent) (es : List AlarmEvent)
    → All
        (λ (e : AlarmEvent). is_event_of q e ≡ true → e.breached_at +ℤ pos gap ≤ℤ new.breached_at)
        es
    → IsSpaced q gap es
    → IsSpaced q gap (es ++ (new ∷ []))
append-IsSpaced q gap new [] before h = (λ k. tt, tt)
append-IsSpaced q gap new (e ∷ es) before h = (
  λ k. All-append _ es (new ∷ []) (h.0 k) (λ of_q. before.0 k, tt),
  append-IsSpaced q gap new es before.1 h.1,
)

-- An event of another rule may be at any time.
append_other-IsSpaced :
    (q gap : ℕ) (new : AlarmEvent) (es : List AlarmEvent)
    → is_event_of q new ≡ false
    → IsSpaced q gap es
    → IsSpaced q gap (es ++ (new ∷ []))
append_other-IsSpaced q gap new [] other h = (λ k. tt, tt)
append_other-IsSpaced q gap new (e ∷ es) other h = (
  λ k. All-append _ es (new ∷ []) (h.0 k) (λ of_q. absurd (absurd_from of_q other), tt),
  append_other-IsSpaced q gap new es other h.1,
)

append-IsOpenOnce :
    (q : ℕ) (new : AlarmEvent) (es : List AlarmEvent)
    → ((is_open_of q new ≡ true) → All (λ (e : AlarmEvent). is_open_of q e ≡ false) es)
    → IsOpenOnce q es
    → IsOpenOnce q (es ++ (new ∷ []))
append-IsOpenOnce q new [] before h = (λ k. tt, tt)
append-IsOpenOnce q new (e ∷ es) before h = (
  λ k. elim (Bool-cases (is_open_of q new)) [
    | inl opens ↦ absurd (absurd_from k (before opens).0)
    | inr shut ↦ All-append _ es (new ∷ []) (h.0 k) (shut, tt)
  ],
  append-IsOpenOnce q new es (λ opens. (before opens).1) h.1,
)

none_open :
    (q : ℕ) (es : List AlarmEvent)
    → some_item (is_open_of q) es ≡ false
    → All (λ (e : AlarmEvent). is_open_of q e ≡ false) es
unfolding some_item
none_open q [] h = tt
none_open q (e ∷ es) h = (ground arith, none_open q es (ground arith))

-- No event of the rule is later than its last alarm.
abbrev IsBound : ℕ → Option ℤ → List AlarmEvent → Type 0
IsBound q none es = All (λ (e : AlarmEvent). is_event_of q e ≡ false) es
IsBound q (some t) es = All (λ (e : AlarmEvent). is_event_of q e ≡ true → e.breached_at ≤ℤ t) es

le_latest : (o : Option ℤ) (t : ℤ) → t ≤ℤ latest o t
le_latest none t = ground arith
le_latest (some u) t = ground arith

bound_latest : (u t s : ℤ) → s ≤ℤ u → s ≤ℤ latest (some u) t
bound_latest u t s h = ground arith

IsBound-later :
    (q : ℕ) (o : Option ℤ) (t : ℤ) (es : List AlarmEvent)
    → IsBound q o es
    → IsBound q (some (latest o t)) es
IsBound-later q none t es h =
    All-weaken _ (λ (e : AlarmEvent). is_event_of q e ≡ true → e.breached_at ≤ℤ t)
      (λ e other of_q. absurd (absurd_from of_q other)) es h
IsBound-later q (some u) t es h =
    All-weaken (λ (e : AlarmEvent). is_event_of q e ≡ true → e.breached_at ≤ℤ u)
      (λ (e : AlarmEvent). is_event_of q e ≡ true → e.breached_at ≤ℤ latest (some u) t)
      (λ e le of_q. bound_latest u t e.breached_at (le of_q)) es h

add_other :
    (q : ℕ) (e : AlarmEvent) (es : List AlarmEvent) (o : Option ℤ)
    → is_event_of q e ≡ false
    → IsBound q o es
    → IsBound q o (e ∷ es)
add_other q e es none other h = (other, h)
add_other q e es (some t) other h = (λ of_q. absurd (absurd_from of_q other), h)

last_breached-IsBound : (q : ℕ) (es : List AlarmEvent) → IsBound q (last_breached q es) es
unfolding last_breached
last_breached-IsBound q [] = tt
last_breached-IsBound q (e ∷ es) = elim (Bool-cases (is_event_of q e)) [
  | inl of_q ↦ rw of_q (
    λ k. le_latest (last_breached q es) e.breached_at,
    IsBound-later q (last_breached q es) e.breached_at es (last_breached-IsBound q es),
  )
  | inr other ↦ rw other (add_other q e es (last_breached q es) other (last_breached-IsBound q es))
]

-- An alarm that is not held back is the delay after every earlier one, if the rule has a delay.
not_suppressed :
    (t at delay : ℤ) (d : ℕ)
    → 0 < d
    → pos d ≤ℤ delay
    → alarm_suppressed (some t) at delay ≡ false
    → t +ℤ pos (d * second) ≤ℤ at
unfolding alarm_suppressed ◌+ℤ◌
not_suppressed t at (negsuc n) d positive le free = absurd (omega arith)
not_suppressed t at (pos n) d positive le free = ground arith

add_gap : (s t at : ℤ) (gap : ℕ) → s ≤ℤ t → t +ℤ pos gap ≤ℤ at → s +ℤ pos gap ≤ℤ at
unfolding ◌+ℤ◌
add_gap s t at gap h k = ground arith

after_bound :
    (q d : ℕ) (last : Option ℤ) (at delay : ℤ) (es : List AlarmEvent)
    → 0 < d
    → pos d ≤ℤ delay
    → alarm_suppressed last at delay ≡ false
    → IsBound q last es
    → All (λ (e : AlarmEvent). is_event_of q e ≡ true → e.breached_at +ℤ pos (d * second) ≤ℤ at) es
after_bound q d none at delay es positive le free h =
    All-weaken _ _ (λ e other of_q. absurd (absurd_from of_q other)) es h
after_bound q d (some t) at delay es positive le free h =
    let reached = not_suppressed t at delay d positive le free in
    All-weaken (λ (e : AlarmEvent). is_event_of q e ≡ true → e.breached_at ≤ℤ t)
      (λ (e : AlarmEvent). is_event_of q e ≡ true → e.breached_at +ℤ pos (d * second) ≤ℤ at)
      (λ e earlier of_q. add_gap e.breached_at t at (d * second) (earlier of_q) reached) es h

-- A rule with the id `q` has at least the delay `d`.
abbrev pub HasDelay : (fl : Floats) → ℕ → ℕ → AlarmRule fl → Type 0
HasDelay fl q d r = r.id ≡ q → pos d ≤ℤ r.alarm_delay_seconds

module _ (fl : Floats) where
  new_event_of :
      (q : ℕ) (r : AlarmRule fl) (o : Observation fl)
      → (is_event_of q (new_event fl r o) ≡ false) ⊎ (r.id ≡ q)
  unfolding is_event_of new_event
  new_event_of q r o = elim (Bool-cases (r.id == q)) [
    | inl same ↦ inr ((==_iff r.id q).0 same)
    | inr differs ↦ inl differs
  ]

  -- An event that is inserted is late enough, or of another rule; then nothing is asked of it.
  insert_event-IsSpaced :
      (q d : ℕ) (r : AlarmRule fl) (o : Observation fl) (es : List AlarmEvent)
      → 0 < d
      → HasDelay fl q d r
      → alarm_suppressed (last_breached r.id es) o.observed_at r.alarm_delay_seconds ≡ false
      → IsSpaced q (d * second) es
      → IsSpaced q (d * second) (insert_event r.id (new_event fl r o) es)
  unfolding insert_event new_event
  insert_event-IsSpaced q d r o es positive has free h =
      elim (Bool-cases (some_item (is_open_of r.id) es)) [
        | inl conflict ↦ rw conflict h
        | inr new ↦ elim (new_event_of q r o) [
          | inl other ↦ rw new (append_other-IsSpaced q (d * second) (new_event fl r o) es other h)
          | inr same ↦ rw new (
              append-IsSpaced q (d * second) (new_event fl r o) es
                (after_bound q d (last_breached r.id es) o.observed_at r.alarm_delay_seconds es
                  positive (has same) free
                  (subst (λ (i : ℕ). IsBound i (last_breached r.id es) es) same
                    (last_breached-IsBound r.id es)))
                h)
        ]
      ]

  insert_event-IsOpenOnce :
      (q : ℕ) (r : AlarmRule fl) (o : Observation fl) (es : List AlarmEvent)
      → IsOpenOnce q es
      → IsOpenOnce q (insert_event r.id (new_event fl r o) es)
  unfolding insert_event is_open_of
  insert_event-IsOpenOnce q r o es h = elim (Bool-cases (some_item (is_open_of r.id) es)) [
    | inl conflict ↦ rw conflict h
    | inr new ↦ elim (new_event_of q r o) [
      | inl other ↦ rw new (
          append-IsOpenOnce q (new_event fl r o) es
            (λ opens. absurd (absurd_from opens (rw other refl))) h)
      | inr same ↦ rw new (
          append-IsOpenOnce q (new_event fl r o) es
            (λ opens.
              subst (λ (i : ℕ). All (λ (e : AlarmEvent). is_open_of i e ≡ false) es) same
                (none_open r.id es new))
            h)
    ]
  ]

  apply_verdict-IsSpaced :
      (q d : ℕ) (o : Observation fl) (r : AlarmRule fl)
      (found : Option (List (ConditionSnapshot fl))) (es : List AlarmEvent)
      → 0 < d
      → HasDelay fl q d r
      → IsSpaced q (d * second) es
      → IsSpaced q (d * second) (apply_verdict fl r o (last_breached r.id es) found es)
  apply_verdict-IsSpaced q d o r found es positive has h =
      apply_verdict_cases fl (IsSpaced q (d * second)) r o (last_breached r.id es) found es h
        (λ free. insert_event-IsSpaced q d r o es positive has free h)
        (clear_events-IsSpaced q r.id o.now (d * second) es h)

  apply_verdict-IsOpenOnce :
      (q : ℕ) (o : Observation fl) (r : AlarmRule fl) (found : Option (List (ConditionSnapshot fl)))
      (es : List AlarmEvent)
      → IsOpenOnce q es
      → IsOpenOnce q (apply_verdict fl r o (last_breached r.id es) found es)
  apply_verdict-IsOpenOnce q o r found es h =
      apply_verdict_cases fl (IsOpenOnce q) r o (last_breached r.id es) found es h
        (λ free. insert_event-IsOpenOnce q r o es h) (clear_events-IsOpenOnce q r.id o.now es h)

  -- The rows after readings that arrive one after the other, in any order of their times.
  unfoldable pub after_readings :
      List (AlarmRule fl) → List (Observation fl) → List AlarmEvent → List AlarmEvent
  unfolding evaluate_alarms
  after_readings rules [] es = es
  after_readings rules (o ∷ os) es = after_readings rules os (evaluate_alarms fl rules o es).0

  -- Over any readings, in any order of their times: if every rule with an id has at least some
  -- positive delay, and rules have different ids, then any two alarms of that rule are at least that
  -- delay apart, and the rule has at most one open alarm, provided both held of the rows before.
  pub after_readings-IsSpaced :
      (rules : List (AlarmRule fl)) (q d : ℕ) (os : List (Observation fl)) (es : List AlarmEvent)
      → IsDistinct fl rules
      → 0 < d
      → All (HasDelay fl q d) rules
      → IsSpaced q (d * second) es
      → IsOpenOnce q es
      → IsSpaced q (d * second) (after_readings rules os es)
        × IsOpenOnce q (after_readings rules os es)
  unfolding after_readings
  after_readings-IsSpaced rules q d [] es distinct positive has spaced once = (spaced, once)
  after_readings-IsSpaced rules q d (o ∷ os) es distinct positive has spaced once =
      after_readings-IsSpaced rules q d os (evaluate_alarms fl rules o es).0 distinct positive has
        (evaluate_alarms-keeps fl (HasDelay fl q d) (IsSpaced q (d * second)) o
          (λ r found rows h k. apply_verdict-IsSpaced q d o r found rows positive h k) rules es
          distinct has spaced)
        (evaluate_alarms-keeps fl (HasDelay fl q d) (IsOpenOnce q) o
          (λ r found rows h k. apply_verdict-IsOpenOnce q o r found rows k) rules es distinct has
          once)
