-- ===== src/Network/TrafficAlert/Statuses.antt =====
-- The status lines, the episodes that end and the states that are kept in a whole
-- `NetworkTrafficAlertMonitor::evaluate` (src/network_traffic_alert.cpp).
use arch_task_manager.Base.{
  ℕ, ◌+◌, ◌≡◌, refl, sym, ap, ap₂, ◌∙◌, Bool, true, false, not, ◌&&◌, is_some, Option, none, some,
  Text, List, [], ◌∷◌, ◌++◌, if◌then◌else◌, arith, Bool-cases, Option-cases, inl, inr, map, find,
  text_equality,
}
use mathlib.Core.List.{append-nil, append_assoc}
use arch_task_manager.Base.Double.{Double}
use arch_task_manager.Network.TrafficAlert.{
  NetworkTrafficAlertRule, NetworkTrafficAlertRuleStatus, disabled, interface_unavailable,
}
use arch_task_manager.Network.TrafficAlert.Monitor.{
  NetworkTrafficTick, NetworkTrafficRuleStatus, NetworkTrafficRates, RuleRuntime,
  TrafficAlertMonitor, Clocks, state_key, runtime, set_runtime, push_status, initial_status, forget,
  metric_value, forget_found,
}
use arch_task_manager.Network.TrafficAlert.Episodes.{
  is_unavailable, watch_cases, continue_episode_cases,
}
use arch_task_manager.Network.TrafficAlert.Evaluate.{
  Measured, measured_status, measure, continue_episode, watch, recover, confirm, finish,
  emit_notification, emit_to_central,
}
use arch_task_manager.Network.TrafficAlert.Rounds.{
  target, freeze, read_metric, at_target, evaluate_rule, evaluate_rules, evaluate,
}

module _ {F : Type 0} ⦃d : Double F⦄ where
  -- One line was added, for the rule at the position `i`; it tells whether the interface is gone.
  pub record Adds (m : TrafficAlertMonitor F) (i : ℕ) (rule : NetworkTrafficAlertRule F)
      (gone : Bool) (m' : TrafficAlertMonitor F) : Type 0 where
    pub line : NetworkTrafficRuleStatus F
    pub added : m'.statuses ≡ m.statuses ++ (line ∷ [])
    pub position : line.index ≡ i
    pub about : line.rule ≡ rule
    pub shown : is_unavailable line.status ≡ gone

  push-Adds :
      (m m₁ : TrafficAlertMonitor F) (st : NetworkTrafficRuleStatus F)
      → m₁.statuses ≡ m.statuses
      → Adds m st.index st.rule (is_unavailable st.status) (push_status m₁ st)
  unfolding push_status
  push-Adds m m₁ st e = record {
    line = st;
    added = ap (λ l. l ++ (st ∷ [])) e;
    position = refl;
    about = refl;
    shown = refl;
  }

  finish-Adds :
      (m : TrafficAlertMonitor F) (s : Measured F) (m₁ : TrafficAlertMonitor F) (x : RuleRuntime)
      (st : NetworkTrafficRuleStatus F)
      → m₁.statuses ≡ m.statuses
      → st.index ≡ s.position
      → st.rule ≡ s.rule
      → is_unavailable st.status ≡ false
      → Adds m s.position s.rule false (finish m₁ s x st)
  unfolding finish push_status set_runtime
  finish-Adds m s m₁ x st e p q u = record {
    line = st;
    added = ap (λ l. l ++ (st ∷ [])) e;
    position = p;
    about = q;
    shown = u;
  }

  emit-statuses :
      (m : TrafficAlertMonitor F) (s : Measured F) (e : _)
      → (emit_notification m s e).statuses ≡ m.statuses
  unfolding emit_notification
  emit-statuses m s e = ground arith

  by_confirmed-Adds :
      (m : TrafficAlertMonitor F) (s : Measured F) (rt : RuleRuntime) (b : Bool)
      → rt.confirmed ≡ b
      → Adds m s.position s.rule false (if b then continue_episode m s rt else watch m s rt)
  unfolding recover confirm emit_to_central measured_status initial_status
  by_confirmed-Adds m s rt true c =
      continue_episode_cases m s (Adds m s.position s.rule false) rt c
        (λ e. finish-Adds m s _ _ _ (emit-statuses _ s _) refl refl refl)
        (λ e st l. finish-Adds m s _ _ st (emit-statuses m s _) l.0 l.1 l.2)
        (λ e f st l. finish-Adds m s m rt st refl l.0 l.1 l.2)
  by_confirmed-Adds m s rt false c =
      watch_cases m s (Adds m s.position s.rule false) rt c (λ b e x q n z g st l.
        elim (Bool-cases b) [
          | inl t ↦ rw t (finish-Adds m s _ _ _ (emit-statuses _ s _) l.0 l.1 refl)
          | inr t ↦ rw t (finish-Adds m s m x st refl l.0 l.1 l.2)
        ])

  measure-Adds :
      (m : TrafficAlertMonitor F) (s : Measured F) → Adds m s.position s.rule false (measure m s)
  unfolding measure
  measure-Adds m s = by_confirmed-Adds m s (runtime m (state_key s.rule)) _ refl

  statuses-forget :
      (m : TrafficAlertMonitor F) (rule : NetworkTrafficAlertRule F)
      → (forget m rule).statuses ≡ m.statuses
  unfolding forget forget_found
  statuses-forget m rule = elim (Option-cases (find (state_key rule) m.states)) [
    | inl e ↦ simp e refl
    | inr (rt, e) ↦ simp e refl
  ]

  forget-Adds :
      (m : TrafficAlertMonitor F) (i : ℕ) (rule : NetworkTrafficAlertRule F)
      (x : NetworkTrafficAlertRuleStatus)
      → Adds m i rule
          (is_unavailable x)
          (push_status (forget m rule) (record (initial_status i rule) { status = x }))
  unfolding initial_status
  forget-Adds m i rule x =
      push-Adds m (forget m rule) (record (initial_status i rule) { status = x })
        (statuses-forget m rule)

  freeze-Adds :
      (m : TrafficAlertMonitor F) (i : ℕ) (rule : NetworkTrafficAlertRule F)
      → Adds m i rule false (freeze m i rule)
  unfolding freeze set_runtime initial_status
  freeze-Adds m i rule = elim (Bool-cases (runtime m (state_key rule)).confirmed) [
    | inl e ↦ simp e (push-Adds m _ _ refl)
    | inr e ↦ simp e (push-Adds m _ _ refl)
  ]

  at_target-Adds :
      (m : TrafficAlertMonitor F) (now : Clocks) (i : ℕ) (rule : NetworkTrafficAlertRule F)
      (o : Option (NetworkTrafficRates F × Text))
      → Adds m i rule (not (is_some o)) (at_target m now i rule o)
  unfolding at_target read_metric
  at_target-Adds m now i rule none = forget-Adds m i rule interface_unavailable
  at_target-Adds m now i rule (some (rates, source)) =
      elim (Option-cases (metric_value rates rule.type)) [
        | inl e ↦ rw e (freeze-Adds m i rule)
        | inr (v, e) ↦ rw e (measure-Adds m _)
      ]

  pub evaluate_rule-Adds :
      (m : TrafficAlertMonitor F) (now : Clocks) (tick : Option (NetworkTrafficTick F)) (i : ℕ)
      (rule : NetworkTrafficAlertRule F)
      → Adds m i rule
          (rule.enabled && not (is_some (target tick rule.target_identity)))
          (evaluate_rule m now tick i rule)
  unfolding evaluate_rule
  evaluate_rule-Adds m now tick i rule = elim (Bool-cases rule.enabled) [
    | inl e ↦ simp e (at_target-Adds m now i rule _)
    | inr e ↦ simp e (forget-Adds m i rule disabled)
  ]

  -- The rules with their positions, from `i` on.
  abbrev pub numbered : ℕ → List (NetworkTrafficAlertRule F) → List (ℕ × NetworkTrafficAlertRule F)
  numbered i [] = []
  numbered i (rule ∷ rules) = (i, rule) ∷ numbered (i + 1) rules

  abbrev pub line_of : NetworkTrafficRuleStatus F → ℕ × NetworkTrafficAlertRule F
  line_of st = (st.index, st.rule)

  map-line_of-snoc :
      (l : List (NetworkTrafficRuleStatus F)) (st : NetworkTrafficRuleStatus F)
      → map line_of (l ++ (st ∷ [])) ≡ map line_of l ++ (line_of st ∷ [])
  map-line_of-snoc [] st = refl
  map-line_of-snoc (x ∷ l) st = ap (λ r. line_of x ∷ r) (map-line_of-snoc l st)

  lines-Adds :
      (m m' : TrafficAlertMonitor F) (i : ℕ) (rule : NetworkTrafficAlertRule F) (gone : Bool)
      → Adds m i rule gone m'
      → map line_of m'.statuses ≡ map line_of m.statuses ++ ((i, rule) ∷ [])
  lines-Adds m m' i rule gone a =
      ap (map line_of) a.added
      ∙ map-line_of-snoc m.statuses a.line
      ∙ ap (λ p. map line_of m.statuses ++ (p ∷ [])) (ap₂ (λ x y. (x, y)) a.position a.about)

  lines-evaluate_rules :
      (m : TrafficAlertMonitor F) (now : Clocks) (tick : Option (NetworkTrafficTick F)) (i : ℕ)
      (rules : List (NetworkTrafficAlertRule F))
      → map line_of (evaluate_rules m now tick i rules).statuses
        ≡ map line_of m.statuses ++ numbered i rules
  unfolding evaluate_rules
  lines-evaluate_rules m now tick i [] = sym (append-nil _)
  lines-evaluate_rules m now tick i (rule ∷ rules) =
      lines-evaluate_rules (evaluate_rule m now tick i rule) now tick (i + 1) rules
      ∙ ap (λ l. l ++ numbered (i + 1) rules)
          (lines-Adds m _ i rule _ (evaluate_rule-Adds m now tick i rule))
      ∙ append_assoc (map line_of m.statuses) _ _

  -- After an evaluation there is exactly one status line for each configured rule, in the order
  -- of the rules, with the rule's position and a copy of the rule, whatever the outcomes were.
  pub statuses-evaluate :
      (m : TrafficAlertMonitor F) (now : Clocks) (tick : Option (NetworkTrafficTick F))
      → map line_of (evaluate m now tick).statuses ≡ numbered 0 m.rules
  unfolding evaluate
  statuses-evaluate m now tick =
      lines-evaluate_rules (record m { statuses = [] }) now tick 0 m.rules
