-- ===== src/Platform/Alarms/Rules.antt =====
-- What a rule satisfies that validateAlarmRule accepts.
use ygate_git.Base.{
  ℕ, ◌≤◌, ◌<◌, ◌≡◌, refl, sym, subst, ap, ◌∙◌, Bool, true, false, not, ◌&&◌, ◌||◌, Bool-cases, inl,
  inr, ◌⊎◌, Option, none, some, List, [], ◌∷◌, length, ltb, ◌==◌, All, ok, >>=-eq-ok, guard-eq-ok,
  ok_inj, arith, map, length-map,
}
use ygate_git.Base.Int.{ℤ, pos, ◌≤ℤ◌, ltb_ℤ}
use ygate_git.Base.Text.{Text, lit, text_eq, text_eq_iff, trim_space, to_lower}
use ygate_git.Platform.Floats.{Floats}
use ygate_git.Platform.Alarms.{
  ConditionInput, RuleInput, alarm_rule_invalid, alarm_severities, max_alarm_delay_seconds,
  is_finite, is_absent, is_inverted, connector, validate_condition, validate_conditions,
  validate_alarm_rule,
}

module _ (fl : Floats) where
  abbrev pub IsPresent : Option fl.F → Type 0
  IsPresent v = (x : fl.F) × (v ≡ some x)

  -- A condition that can be evaluated: it names a point, has a threshold, and its thresholds are
  -- finite numbers of which the lower one is not at or above the upper one.
  pub record IsCondition (c : ConditionInput fl.F) : Type 0 where
    pub named : 0 < length c.point_key
    pub short : length c.point_key ≤ 200
    pub has_threshold : IsPresent c.min_value ⊎ IsPresent c.max_value
    pub finite_min :
        (x : fl.F) → c.min_value ≡ some x → (fl.is_nan x ≡ false) × (fl.is_inf x ≡ false)
    pub finite_max :
        (x : fl.F) → c.max_value ≡ some x → (fl.is_nan x ≡ false) × (fl.is_inf x ≡ false)
    pub in_order :
        (low high : fl.F)
        → c.min_value ≡ some low
        → c.max_value ≡ some high
        → fl.ge low high ≡ false
    pub joined : (c.logic ≡ lit "AND") ⊎ (c.logic ≡ lit "OR")

  key_bounds : (n : ℕ) → not (n == 0 || ltb 200 n) ≡ true → (0 < n) × (n ≤ 200)
  key_bounds n h = ground arith

  threshold-IsPresent :
      (low high : Option fl.F) → is_absent fl low high ≡ false → IsPresent low ⊎ IsPresent high
  unfolding is_absent
  threshold-IsPresent none none h = absurd (cc)
  threshold-IsPresent none (some x) h = inr (x, refl)
  threshold-IsPresent (some x) high h = inl (x, refl)

  is_finite-some :
      (x : fl.F) → is_finite fl (some x) ≡ true → (fl.is_nan x ≡ false) × (fl.is_inf x ≡ false)
  unfolding is_finite
  is_finite-some x h = ground arith

  finite_threshold :
      (v : Option fl.F)
      → is_finite fl v ≡ true
      → (x : fl.F) → v ≡ some x
      → (fl.is_nan x ≡ false) × (fl.is_inf x ≡ false)
  finite_threshold v h x e =
      is_finite-some x (subst (λ (o : Option fl.F). is_finite fl o ≡ true) e h)

  thresholds_in_order :
      (v w : Option fl.F)
      → is_inverted fl v w ≡ false
      → (low high : fl.F) → v ≡ some low
      → w ≡ some high
      → fl.ge low high ≡ false
  unfolding is_inverted
  thresholds_in_order v w h low high e f = (rw (e, f) at h)

  severity_named :
      (s : Text)
      → alarm_severities s ≡ true
      → (s ≡ lit "warning") ⊎ ((s ≡ lit "major") ⊎ (s ≡ lit "critical"))
  unfolding alarm_severities
  severity_named s h = elim (Bool-cases (text_eq s (lit "warning"))) [
    | inl same ↦ inl ((text_eq_iff s _).0 same)
    | inr other ↦ inr (elim (Bool-cases (text_eq s (lit "major"))) [
      | inl same ↦ inl ((text_eq_iff s _).0 same)
      | inr neither ↦ inr ((text_eq_iff s _).0 (rw (other, neither) at h))
    ])
  ]

  both : (a b : Bool) → (a && b) ≡ true → (a ≡ true) × (b ≡ true)
  both a b h = ground arith

  negated : (a : Bool) → not a ≡ true → a ≡ false
  negated a h = ground arith

  either :
      (s : Text)
      → (text_eq s (lit "AND") || text_eq s (lit "OR")) ≡ true
      → (s ≡ lit "AND") ⊎ (s ≡ lit "OR")
  either s h = elim (Bool-cases (text_eq s (lit "AND"))) [
    | inl same ↦ inl ((text_eq_iff s (lit "AND")).0 same)
    | inr other ↦ inr ((text_eq_iff s (lit "OR")).0 (rw other at h))
  ]

  validate_condition-IsCondition :
      (first : Bool) (c d : ConditionInput fl.F)
      → validate_condition fl first c ≡ ok d
      → IsCondition d
        × (d.logic ≡ connector fl first c.logic)
        × (d.min_value ≡ c.min_value)
        × (d.max_value ≡ c.max_value)
  unfolding validate_condition
  validate_condition-IsCondition first c d e =
      let n = length (trim_space c.point_key) in
      let joined = connector fl first c.logic in
      let (key, e1) = guard-eq-ok (not (n == 0 || ltb 200 n)) alarm_rule_invalid _ e in
      let (present, e2) =
        guard-eq-ok (not (is_absent fl c.min_value c.max_value)) alarm_rule_invalid _ e1 in
      let (finite, e3) =
        guard-eq-ok (is_finite fl c.min_value && is_finite fl c.max_value) alarm_rule_invalid _
          e2 in
      let (order, e4) =
        guard-eq-ok (not (is_inverted fl c.min_value c.max_value)) alarm_rule_invalid _ e3 in
      let (logic, e5) =
        guard-eq-ok (text_eq joined (lit "AND") || text_eq joined (lit "OR")) alarm_rule_invalid _
          e4 in
      let same = ok_inj _ d e5 in
      let bounds = key_bounds (length (trim_space c.point_key)) key in
      let (low, high) = both _ _ finite in
      (
        subst IsCondition same (record {
          named = bounds.0;
          short = bounds.1;
          has_threshold = threshold-IsPresent c.min_value c.max_value (negated _ present);
          finite_min = finite_threshold c.min_value low;
          finite_max = finite_threshold c.max_value high;
          in_order = thresholds_in_order c.min_value c.max_value (negated _ order);
          joined = either (connector fl first c.logic) logic;
        }),
        sym (ap (λ (x : ConditionInput fl.F). x.logic) same),
        sym (ap (λ (x : ConditionInput fl.F). x.min_value) same),
        sym (ap (λ (x : ConditionInput fl.F). x.max_value) same),
      )

  -- The thresholds of the conditions, in their order.
  abbrev pub thresholds : List (ConditionInput fl.F) → List (Option fl.F × Option fl.F)
  thresholds = map (λ (c : ConditionInput fl.F). (c.min_value, c.max_value))

  validate_conditions-IsCondition :
      (first : Bool) (cs ds : List (ConditionInput fl.F))
      → validate_conditions fl first cs ≡ ok ds
      → All IsCondition ds × (thresholds ds ≡ thresholds cs)
  unfolding validate_conditions
  validate_conditions-IsCondition first [] ds e =
      subst (λ (xs : List (ConditionInput fl.F)). All IsCondition xs × (thresholds xs ≡ []))
        (ok_inj [] ds e) (tt, refl)
  validate_conditions-IsCondition first (c ∷ cs) ds e =
      let (d, is_d, e1) = >>=-eq-ok (validate_condition fl first c) _ e in
      let (rest, is_rest, e2) = >>=-eq-ok (validate_conditions fl false cs) _ e1 in
      let (here, logic, low, high) = validate_condition-IsCondition first c d is_d in
      let (later, same) = validate_conditions-IsCondition false cs rest is_rest in
      subst
        (λ (xs : List (ConditionInput fl.F)).
          All IsCondition xs × (thresholds xs ≡ thresholds (c ∷ cs)))
        (ok_inj (d ∷ rest) ds e2) ((here, later), rw (low, high, same) refl)

  -- A rule that can be evaluated.
  pub record IsRule (r : RuleInput fl.F) : Type 0 where
    pub label_named : 0 < length r.label
    pub label_short : length r.label ≤ 200
    pub known_severity :
        (r.severity ≡ lit "warning") ⊎ ((r.severity ≡ lit "major") ⊎ (r.severity ≡ lit "critical"))
    pub delay_from : pos 0 ≤ℤ r.delay_seconds
    pub delay_to : r.delay_seconds ≤ℤ pos 86400
    pub some_condition : 0 < length r.conditions
    pub few_conditions : length r.conditions ≤ 20
    pub each_condition : All IsCondition r.conditions

  length-thresholds :
      (cs ds : List (ConditionInput fl.F)) → thresholds ds ≡ thresholds cs → length ds ≡ length cs
  length-thresholds cs ds same =
      sym (length-map (λ (c : ConditionInput fl.F). (c.min_value, c.max_value)) ds)
      ∙ ap length same
      ∙ length-map (λ (c : ConditionInput fl.F). (c.min_value, c.max_value)) cs

  label_test :
      (n : ℕ) (known : Bool)
      → not (n == 0 || ltb 200 n || not known) ≡ true
      → (0 < n) × (n ≤ 200) × (known ≡ true)
  label_test n known h = ground arith

  delay_test :
      (d : ℤ)
      → not (ltb_ℤ d (pos 0) || ltb_ℤ (pos max_alarm_delay_seconds) d) ≡ true
      → (pos 0 ≤ℤ d) × (d ≤ℤ pos max_alarm_delay_seconds)
  delay_test d h = ground arith

  count_test : (n : ℕ) → not (n == 0 || ltb 20 n) ≡ true → (0 < n) × (n ≤ 20)
  count_test n h = ground arith

  -- A rule that is accepted can be evaluated, and it has the thresholds and the delay that were given:
  -- its label and point keys have 1 to 200 bytes, its severity is warning, major or critical, its delay
  -- is at most a day, it has 1 to 20 conditions, and each of them has a threshold and is joined by AND or
  -- OR. A threshold is neither NaN nor infinite, and a lower one is not at or above the upper one.
  pub validate_alarm_rule-IsRule :
      (input r : RuleInput fl.F)
      → validate_alarm_rule fl input ≡ ok r
      → IsRule r
        × (thresholds r.conditions ≡ thresholds input.conditions)
        × (r.delay_seconds ≡ input.delay_seconds)
  unfolding validate_alarm_rule
  validate_alarm_rule-IsRule input r e =
      let n = length (trim_space input.label) in
      let severity = to_lower (trim_space input.severity) in
      let d = input.delay_seconds in
      let count = length input.conditions in
      let (label, e1) =
        guard-eq-ok (not (n == 0 || ltb 200 n || not (alarm_severities severity)))
          alarm_rule_invalid _ e in
      let (delay, e2) =
        guard-eq-ok (not (ltb_ℤ d (pos 0) || ltb_ℤ (pos max_alarm_delay_seconds) d))
          alarm_rule_invalid _ e1 in
      let (size, e3) = guard-eq-ok (not (count == 0 || ltb 20 count)) alarm_rule_invalid _ e2 in
      let (ds, accepted, e4) = >>=-eq-ok (validate_conditions fl true input.conditions) _ e3 in
      let (each, same) = validate_conditions-IsCondition true input.conditions ds accepted in
      let (some_label, short_label, severe) = label_test n (alarm_severities severity) label in
      let (from, to) = delay_test d delay in
      let (one, few) = count_test count size in
      let counts = length-thresholds input.conditions ds same in
      subst
        (λ (x : RuleInput fl.F).
          IsRule x
          × (thresholds x.conditions ≡ thresholds input.conditions)
          × (x.delay_seconds ≡ input.delay_seconds))
        (ok_inj _ r e4)
        (
          record {
            label_named = some_label;
            label_short = short_label;
            known_severity = severity_named severity severe;
            delay_from = from;
            delay_to = to;
            some_condition = omega (arith, counts, one);
            few_conditions = omega (arith, counts, few);
            each_condition = each;
          },
          same,
          refl,
        )
