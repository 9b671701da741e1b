-- ===== src/Network/TrafficAlert/Episodes.antt =====
-- When an episode of a traffic rule starts, repeats and ends (the state machine in
-- `NetworkTrafficAlertMonitor::evaluate`, src/network_traffic_alert.cpp).
use arch_task_manager.Base.{
  ℕ, ◌≡◌, refl, Bool, true, false, not, ◌&&◌, Option, none, some, if◌then◌else◌, text_equality,
  find-insert_self, leb, add_u64, arith, Bool-cases, inl, inr,
}
use arch_task_manager.Base.Double.{Double}
use arch_task_manager.Network.TrafficAlert.{
  NetworkTrafficAlertConfirmation, samples, duration, NetworkTrafficAlertRuleStatus,
  interface_unavailable,
}
use arch_task_manager.Network.TrafficAlert.Monitor.{
  RuleRuntime, TrafficAlertMonitor, state_key, runtime, set_runtime, push_status,
  NetworkTrafficRuleStatus, initial_status,
}
use arch_task_manager.Base.Elapsed.{seconds_since}
use arch_task_manager.Network.TrafficAlert.Evaluate.{
  Measured, measured_status, violating, under_floor, in_cooldown, make_event, exceeded_message,
  continue_episode, watch, hold, recover, confirm, count_samples, measure_duration, finish,
  emit_notification, or_now, count_violation,
}

abbrev pub is_unavailable : NetworkTrafficAlertRuleStatus → Bool
is_unavailable interface_unavailable = true
is_unavailable _ = false

pub is_samples : NetworkTrafficAlertConfirmation → Bool
is_samples samples = true
is_samples duration = false

module _ {F : Type 0} ⦃d : Double F⦄ where
  -- The violation has lasted as the rule demands.
  unfoldable pub reached_by : NetworkTrafficAlertConfirmation → Measured F → RuleRuntime → Bool
  unfolding or_now
  reached_by samples s rt = leb s.rule.confirmation_samples (add_u64 rt.consecutive_violations 1)
  reached_by duration s rt =
      d.le s.rule.confirmation_duration_seconds
        (seconds_since (or_now s.now.steady rt.streak_start) s.now.steady)

  unfoldable pub reached : Measured F → RuleRuntime → Bool
  unfolding reached_by
  reached s rt = reached_by s.rule.confirmation s rt

  abbrev pub starts : Measured F → RuleRuntime → Bool
  starts s rt = not rt.confirmed && (violating s && reached s rt)

  abbrev pub ends : Measured F → RuleRuntime → Bool
  ends s rt = rt.confirmed && under_floor s

  abbrev pub repeats : Measured F → RuleRuntime → Bool
  repeats s rt =
      rt.confirmed
      && (not (under_floor s) && (violating s && (s.rule.repeat && not (in_cooldown s rt))))

  -- The streak of violating rounds after a round outside an episode: their number where the rule
  -- confirms by samples, the time of the first one where it confirms by duration.
  abbrev pub streak_count : Measured F → RuleRuntime → ℕ
  streak_count s rt =
      if violating s && is_samples s.rule.confirmation
      then add_u64 rt.consecutive_violations 1
      else 0

  abbrev pub streak_since : Measured F → RuleRuntime → Option ℕ
  streak_since s rt =
      if violating s && not (is_samples s.rule.confirmation)
      then some (or_now s.now.steady rt.streak_start)
      else none

  pub runtime-finish :
      (m : TrafficAlertMonitor F) (s : Measured F) (rt : RuleRuntime)
      (st : NetworkTrafficRuleStatus F)
      → runtime (finish m s rt st) (state_key s.rule) ≡ rt
  unfolding finish runtime set_runtime push_status
  runtime-finish m s rt st = rw (find-insert_self (state_key s.rule) rt m.states) refl

  -- A status line of the rule, whose interface was available.
  abbrev pub IsLineOf : Measured F → NetworkTrafficRuleStatus F → Type 0
  IsLineOf s st = (st.index ≡ s.position) × (st.rule ≡ s.rule) × (is_unavailable st.status ≡ false)

  -- The outcomes of a round, for a property of the monitor after it.
  module _ (m : TrafficAlertMonitor F) (s : Measured F) (P : TrafficAlertMonitor F → Type 0) where
    abbrev pub Decides : RuleRuntime → Bool → Type 0
    Decides rt b =
        (x : RuleRuntime)
        → x.confirmed ≡ rt.confirmed
        → x.consecutive_violations ≡ streak_count s rt
        → x.streak_start ≡ streak_since s rt
        → x.last_emission ≡ rt.last_emission
        → (st : NetworkTrafficRuleStatus F) → IsLineOf s st
        → P (if b then confirm m s x st else finish m s x st)

    count_violation_cases :
        (mode : NetworkTrafficAlertConfirmation) (rt : RuleRuntime)
        → s.rule.confirmation ≡ mode
        → violating s ≡ true
        → ((b : Bool) → reached_by mode s rt ≡ b → Decides rt b)
        → P (count_violation mode m s rt)
    unfolding count_violation count_samples measure_duration reached_by measured_status
        initial_status is_samples
    count_violation_cases samples rt k v f =
        elim (Bool-cases (leb s.rule.confirmation_samples (add_u64 rt.consecutive_violations 1))) [
          | inl e ↦ simp e (
              f true e _ refl (ground (arith, k, v)) (ground (arith, k, v)) refl _
                (refl, refl, refl))
          | inr e ↦ simp e (
              f false e _ refl (ground (arith, k, v)) (ground (arith, k, v)) refl _
                (refl, refl, refl))
        ]
    count_violation_cases duration rt k v f =
        elim (Bool-cases (
          d.le s.rule.confirmation_duration_seconds
            (seconds_since (or_now s.now.steady rt.streak_start) s.now.steady))) [
              | inl e ↦ simp e (
                  f true e _ refl (ground (arith, k, v)) (ground (arith, k, v)) refl _
                    (refl, refl, refl))
              | inr e ↦ simp e (
                  f false e _ refl (ground (arith, k, v)) (ground (arith, k, v)) refl _
                    (refl, refl, refl))
            ]

    pub watch_cases :
        (rt : RuleRuntime)
        → rt.confirmed ≡ false
        → ((b : Bool) → starts s rt ≡ b → Decides rt b)
        → P (watch m s rt)
    unfolding watch reached measured_status initial_status
    watch_cases rt c f = elim (Bool-cases (violating s)) [
      | inl e ↦
          rw e
            (count_violation_cases s.rule.confirmation rt refl e (λ b q. f b (ground (arith, q))))
      | inr e ↦ rw e (
          f false (ground arith) _ refl (ground (arith, e)) (ground (arith, e)) refl _
            (refl, refl, refl))
    ]

    -- What holds after each outcome of a round in an episode holds after the round.
    pub continue_episode_cases :
        (rt : RuleRuntime)
        → rt.confirmed ≡ true
        → (ends s rt ≡ true → P (recover m s rt))
        → ((repeats s rt && s.rule.notify_enabled) ≡ true
            → (st : NetworkTrafficRuleStatus F) → IsLineOf s st
            → P (
                finish
                  (emit_notification m s (make_event s s.rule.severity false (exceeded_message s)))
                  s
                  (record rt { last_emission = some s.now.steady })
                  st))
        → (ends s rt ≡ false
            → (repeats s rt && s.rule.notify_enabled) ≡ false
            → (st : NetworkTrafficRuleStatus F) → IsLineOf s st
            → P (finish m s rt st))
        → P (continue_episode m s rt)
    unfolding continue_episode hold measured_status initial_status
    continue_episode_cases rt c f g h = elim (Bool-cases (under_floor s)) [
      | inl e ↦ rw e (f (ground arith))
      | inr e ↦ rw e (elim (Bool-cases (violating s)) [
        | inr v ↦ rw v (h (ground arith) (ground arith) _ (refl, refl, refl))
        | inl v ↦ rw v (elim (Bool-cases (s.rule.repeat && s.rule.notify_enabled)) [
          | inr n ↦ simp n (h (ground arith) (ground arith) _ (refl, refl, refl))
          | inl n ↦ simp n (elim (Bool-cases (in_cooldown s rt)) [
            | inl q ↦ simp q (h (ground arith) (ground arith) _ (refl, refl, refl))
            | inr q ↦ simp q (g (ground arith) _ (refl, refl, refl))
          ])
        ])
      ])
    ]
