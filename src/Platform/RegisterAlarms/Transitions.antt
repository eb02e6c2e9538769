-- ===== src/Platform/RegisterAlarms/Transitions.antt =====
-- Which register alarms are open after a reading.
use ygate_git.Base.{
  ℕ, ◌≡◌, refl, sym, subst, ◌∙◌, Bool, true, not, ◌&&◌, ◌||◌, Bool-cases, inl, inr, Option, none,
  some, List, [], ◌∷◌, ◌++◌, keep, some_item, All, All-append, ◌==◌, ==_iff, ==_refl, if◌then◌else◌,
  arith,
}
use ygate_git.Platform.Floats.{Floats}
use ygate_git.Platform.Alarms.Events.{AlarmEvent, is_some_id}
use ygate_git.Platform.RegisterAlarms.{
  RegisterAlarmSignal, RegisterAlarmRow, RegisterReading, has_mapping, is_present, put_signal,
  by_id, register_alarm_transitions, current_signals, is_open_register, is_at_plant, open_signal,
  open_signals, is_cleared_by, close_signal, close_signals, is_open_at, register_event, open_all,
  evaluate_register_alarms,
}

settled : (was now : Bool) → ((was && not (was && not now)) || (now && not was)) ≡ now
settled was now = ground arith

module _ (fl : Floats) where
  is_present-put_signal :
      (id : ℕ) (s : RegisterAlarmSignal fl) (ts : List (RegisterAlarmSignal fl))
      → is_present fl id (put_signal fl s ts) ≡ (has_mapping fl id s || is_present fl id ts)
  unfolding is_present put_signal has_mapping some_item
  is_present-put_signal id s [] = refl
  is_present-put_signal id s (t ∷ ts) =
      elim (Bool-cases (t.mapping_source_id == s.mapping_source_id)) [
        | inl same ↦ rw same (ground arith)
        | inr differs ↦ rw differs (ground (arith, is_present-put_signal id s ts))
      ]

  is_present-by_id :
      (id : ℕ) (known ss : List (RegisterAlarmSignal fl))
      → is_present fl id (by_id fl known ss) ≡ (is_present fl id known || is_present fl id ss)
  unfolding by_id is_present some_item
  is_present-by_id id known [] = ground arith
  is_present-by_id id known (s ∷ ss) =
      is_present-by_id id (put_signal fl s known) ss
      ∙ ground (arith, is_present-put_signal id s known)

  module _ (f : ℕ → Bool) where
    is_present-keep :
        (id : ℕ) (ss : List (RegisterAlarmSignal fl))
        → is_present fl id (keep (λ (s : RegisterAlarmSignal fl). not (f s.mapping_source_id)) ss)
          ≡ (is_present fl id ss && not (f id))
    unfolding is_present some_item keep has_mapping
    is_present-keep id [] = refl
    is_present-keep id (s ∷ ss) = elim (Bool-cases (s.mapping_source_id == id)) [
      | inl same ↦
          let here = (==_iff s.mapping_source_id id).0 same in
          elim (Bool-cases (f id)) [
            | inl out ↦ rw (here, out, is_present-keep id ss, out) (ground arith)
            | inr kept ↦ rw (here, kept, ==_refl id) refl
          ]
      | inr other ↦ elim (Bool-cases (f s.mapping_source_id)) [
        | inl out ↦ rw (out, other, is_present-keep id ss) refl
        | inr kept ↦ rw (kept, other, is_present-keep id ss) refl
      ]
    ]

    keep-empty :
        (ss : List (RegisterAlarmSignal fl))
        → ((id : ℕ) → is_present fl id ss ≡ true → f id ≡ true)
        → keep (λ (s : RegisterAlarmSignal fl). not (f s.mapping_source_id)) ss ≡ []
    unfolding is_present some_item keep has_mapping
    keep-empty [] h = refl
    keep-empty (s ∷ ss) h =
        rw (h s.mapping_source_id (rw (==_refl s.mapping_source_id) refl))
          (keep-empty ss (λ id k. h id (ground arith)))

  -- The open register alarms of the device belong to its plant.
  abbrev pub IsHome : RegisterReading fl → List AlarmEvent → Type 0
  IsHome o = All (λ (e : AlarmEvent).
      (e.device_id == o.device_id && is_open_register e) ≡ true → is_at_plant fl o e ≡ true)

  module _ (o : RegisterReading fl) where
    -- Whether the device has an open alarm of a mapping.
    abbrev has_open : ℕ → List AlarmEvent → Bool
    has_open id = some_item (is_open_at o.device_id id)

    is_present-append_open :
        (id : ℕ) (m : Option ℕ) (rest : List (RegisterAlarmSignal fl))
        → is_present fl id (open_signal fl m ++ rest) ≡ (is_some_id m id || is_present fl id rest)
    unfolding is_present some_item has_mapping
    is_present-append_open id none rest = refl
    is_present-append_open id (some k) rest = refl

    is_present-open_signal :
        (id : ℕ) (e : AlarmEvent) (es : List AlarmEvent)
        → ((e.device_id == o.device_id && is_open_register e) ≡ true → is_at_plant fl o e ≡ true)
        → is_present fl id (open_signals fl o es) ≡ has_open id es
        → is_present fl id (open_signals fl o (e ∷ es)) ≡ has_open id (e ∷ es)
    unfolding open_signals some_item is_open_at is_at_plant
    is_present-open_signal id e es h rest =
        elim (Bool-cases (is_at_plant fl o e && is_open_register e)) [
          | inl counts ↦
              rw (counts, is_present-append_open id e.mapping_id (open_signals fl o es), rest)
                (ground arith)
          | inr skips ↦ rw (skips, rest) (ground arith)
        ]

    is_present-open_signals :
        (id : ℕ) (es : List AlarmEvent)
        → IsHome o es
        → is_present fl id (open_signals fl o es) ≡ has_open id es
    unfolding is_present open_signals some_item
    is_present-open_signals id [] h = refl
    is_present-open_signals id (e ∷ es) h =
        is_present-open_signal id e es h.0 (is_present-open_signals id es h.1)

    is_open_at-close :
        (id k : ℕ) (e : AlarmEvent)
        → ((e.device_id == o.device_id && is_open_register e) ≡ true → is_at_plant fl o e ≡ true)
        → is_open_at o.device_id id
            (if is_cleared_by fl o k e then record e { cleared_at = some o.observed_at } else e)
          ≡ (is_open_at o.device_id id e && not (k == id))
    unfolding is_cleared_by is_open_at is_open_register is_at_plant
    is_open_at-close id k e h = elim (Bool-cases (is_cleared_by fl o k e)) [
      | inl clears ↦ rw clears (ground arith)
      | inr keeps ↦ rw keeps (ground arith)
    ]

    close-home :
        (k : ℕ) (e : AlarmEvent)
        → ((e.device_id == o.device_id && is_open_register e) ≡ true → is_at_plant fl o e ≡ true)
        → (((if is_cleared_by fl o k e
                then record e { cleared_at = some o.observed_at }
                else e).device_id
              == o.device_id)
            && is_open_register (
                if is_cleared_by fl o k e then record e { cleared_at = some o.observed_at } else e))
          ≡ true
        → is_at_plant fl o
            (if is_cleared_by fl o k e then record e { cleared_at = some o.observed_at } else e)
          ≡ true
    unfolding is_cleared_by is_open_register is_at_plant
    close-home k e h = elim (Bool-cases (is_cleared_by fl o k e)) [
      | inl clears ↦ rw clears (ground arith)
      | inr keeps ↦ rw keeps h
    ]

    has_open-close_signal :
        (id k : ℕ) (es : List AlarmEvent)
        → IsHome o es
        → has_open id (close_signal fl o k es) ≡ (has_open id es && not (k == id))
    unfolding close_signal some_item
    has_open-close_signal id k [] h = refl
    has_open-close_signal id k (e ∷ es) h =
        rw (is_open_at-close id k e h.0, has_open-close_signal id k es h.1) (ground arith)

    close_signal-IsHome :
        (k : ℕ) (es : List AlarmEvent) → IsHome o es → IsHome o (close_signal fl o k es)
    unfolding close_signal
    close_signal-IsHome k [] h = tt
    close_signal-IsHome k (e ∷ es) h = (close-home k e h.0, close_signal-IsHome k es h.1)

    has_open-close_signals :
        (id : ℕ) (ss : List (RegisterAlarmSignal fl)) (es : List AlarmEvent)
        → IsHome o es
        → (has_open id (close_signals fl o ss es) ≡ (has_open id es && not (is_present fl id ss)))
          × IsHome o (close_signals fl o ss es)
    unfolding close_signals is_present some_item has_mapping
    has_open-close_signals id [] es h = (ground arith, h)
    has_open-close_signals id (s ∷ ss) es h =
        let rest =
          has_open-close_signals id ss (close_signal fl o s.mapping_source_id es)
            (close_signal-IsHome s.mapping_source_id es h) in
        (rest.0 ∙ rw (has_open-close_signal id s.mapping_source_id es h) (ground arith), rest.1)

    new_home :
        (s : RegisterAlarmSignal fl)
        → (((register_event fl o s).device_id == o.device_id)
            && is_open_register (register_event fl o s))
          ≡ true
        → is_at_plant fl o (register_event fl o s) ≡ true
    unfolding register_event is_at_plant
    new_home s h = rw (==_refl o.organization_id, ==_refl o.plant_id, ==_refl o.device_id) refl

    has_open-append :
        (id : ℕ) (s : RegisterAlarmSignal fl) (es : List AlarmEvent)
        → has_open id (es ++ (register_event fl o s ∷ []))
          ≡ (has_open id es || s.mapping_source_id == id)
    unfolding some_item is_open_at register_event is_open_register
    has_open-append id s [] = rw (==_refl o.device_id) (ground arith)
    has_open-append id s (e ∷ es) = rw (has_open-append id s es) (ground arith)

    -- An alarm that is open already need not be opened.
    absorb :
        (id k : ℕ) (es : List AlarmEvent) (rest : Bool)
        → has_open k es ≡ true
        → (has_open id es || rest) ≡ (has_open id es || ((k == id) || rest))
    absorb id k es rest h = elim (Bool-cases (k == id)) [
      | inl same ↦
          rw same (rw (subst (λ (i : ℕ). has_open i es ≡ true) ((==_iff k id).0 same) h) refl)
      | inr differs ↦ rw differs refl
    ]

    open_all-IsHome :
        (ss : List (RegisterAlarmSignal fl)) (es : List AlarmEvent)
        → IsHome o es
        → IsHome o (open_all fl o ss es).0
    unfolding open_all
    open_all-IsHome [] es h = h
    open_all-IsHome (s ∷ ss) es h =
        elim (Bool-cases (some_item (is_open_at o.device_id s.mapping_source_id) es)) [
          | inl conflict ↦ rw conflict (open_all-IsHome ss es h)
          | inr new ↦ rw new (
              open_all-IsHome ss (es ++ (register_event fl o s ∷ []))
                (All-append _ es (register_event fl o s ∷ []) h (new_home s, tt)))
        ]

    has_open-open_all :
        (id : ℕ) (ss : List (RegisterAlarmSignal fl)) (es : List AlarmEvent)
        → has_open id (open_all fl o ss es).0 ≡ (has_open id es || is_present fl id ss)
    unfolding open_all is_present some_item has_mapping
    has_open-open_all id [] es = ground arith
    has_open-open_all id (s ∷ ss) es =
        elim (Bool-cases (some_item (is_open_at o.device_id s.mapping_source_id) es)) [
          | inl conflict ↦
              rw conflict (has_open-open_all id ss es ∙ absorb id s.mapping_source_id es _ conflict)
          | inr new ↦ rw new (
              has_open-open_all id ss (es ++ (register_event fl o s ∷ []))
              ∙ rw (has_open-append id s es) (ground arith))
        ]

    open_ids :
        (id : ℕ) (es : List AlarmEvent)
        → IsHome o es
        → is_present fl id (by_id fl [] (open_signals fl o es)) ≡ has_open id es
    unfolding is_present some_item
    open_ids id es h =
        is_present-by_id id [] (open_signals fl o es) ∙ is_present-open_signals id es h

    -- After a reading was evaluated, the open register alarms of its device are those of the mappings
    -- that the reading activates, if before it they were of the device's plant; they still are.
    pub evaluate_register_alarms_lem :
        (ds : List (RegisterAlarmRow fl)) (es : List AlarmEvent)
        → IsHome o es
        → ((id : ℕ)
            → some_item (is_open_at o.device_id id) (evaluate_register_alarms fl ds o es).0
              ≡ is_present fl id (current_signals fl o ds))
          × IsHome o (evaluate_register_alarms fl ds o es).0
    unfolding evaluate_register_alarms register_alarm_transitions
    evaluate_register_alarms_lem ds es h =
        let was_open = by_id fl [] (open_signals fl o es) in
        let now_open = by_id fl [] (current_signals fl o ds) in
        let to_close =
          keep (λ (s : RegisterAlarmSignal fl). not (is_present fl s.mapping_source_id now_open))
            was_open in
        let to_open =
          keep (λ (s : RegisterAlarmSignal fl). not (is_present fl s.mapping_source_id was_open))
            now_open in
        (
          λ id.
              let closed = (has_open-close_signals id to_close es h).0 in
              has_open-open_all id to_open (close_signals fl o to_close es)
              ∙ rw
                  (
                    closed,
                    is_present-keep (λ i. is_present fl i now_open) id was_open,
                    is_present-keep (λ i. is_present fl i was_open) id now_open,
                    open_ids id es h,
                    is_present-by_id id [] (current_signals fl o ds),
                  )
                  (settled (has_open id es) (is_present fl id (current_signals fl o ds))),
          open_all-IsHome to_open (close_signals fl o to_close es)
              ((has_open-close_signals 0 to_close es h).1),
        )

    no_transitions :
        (ds : List (RegisterAlarmRow fl)) (es : List AlarmEvent)
        → IsHome o es
        → ((id : ℕ) → has_open id es ≡ is_present fl id (current_signals fl o ds))
        → evaluate_register_alarms fl ds o es ≡ (es, [])
    unfolding evaluate_register_alarms register_alarm_transitions close_signals open_all
    no_transitions ds es h same =
        let was_open = by_id fl [] (open_signals fl o es) in
        let now_open = by_id fl [] (current_signals fl o ds) in
        let now : (id : ℕ)
            → is_present fl id now_open ≡ is_present fl id (current_signals fl o ds) =
          λ id. is_present-by_id id [] (current_signals fl o ds) in
        rw
          (
            keep-empty (λ i. is_present fl i now_open) was_open
                (λ id k. now id ∙ sym (same id) ∙ sym (open_ids id es h) ∙ k),
            keep-empty (λ i. is_present fl i was_open) now_open
                (λ id k. open_ids id es h ∙ same id ∙ sym (now id) ∙ k),
          )
          refl

    -- A reading that is evaluated a second time opens and clears nothing and reports no breach.
    pub evaluate_register_alarms_again :
        (ds : List (RegisterAlarmRow fl)) (es : List AlarmEvent)
        → IsHome o es
        → evaluate_register_alarms fl ds o (evaluate_register_alarms fl ds o es).0
          ≡ ((evaluate_register_alarms fl ds o es).0, [])
    evaluate_register_alarms_again ds es h =
        let (settles, home) = evaluate_register_alarms_lem ds es h in
        no_transitions ds (evaluate_register_alarms fl ds o es).0 home settles
