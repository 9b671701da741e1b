-- ===== src/Network/TrafficAlert/Evaluate.antt =====
-- The state machine of a traffic rule in `NetworkTrafficAlertMonitor::evaluate`
-- (src/network_traffic_alert.cpp).
use arch_task_manager.Base.{
  ℕ, Bool, true, false, ◌&&◌, Option, none, some, Text, codes, [], ◌∷◌, ◌++◌, if◌then◌else◌,
  text_equality, ltb, leb, add_u64,
}
use arch_task_manager.Base.Double.{Double}
use arch_task_manager.Base.Decimal.{to_string}
use arch_task_manager.Alert.Types.{AlertSeverity, AlertEvent, normal}
use arch_task_manager.Alert.Manager.{record_rule_event}
use arch_task_manager.Network.TrafficAlert.{
  NetworkTrafficAlertRule, NetworkTrafficAlertConfirmation, samples, duration, below, pending,
  exceeded, cooldown, recovered, type_name, to_alert_type, format_value,
}
use arch_task_manager.Network.TrafficAlert.Monitor.{
  NetworkTrafficRuleStatus, RuleRuntime, TrafficAlertMonitor, Clocks, state_key, recovery_floor,
  push_status, initial_status, runtime, set_runtime,
}
use arch_task_manager.Base.Elapsed.{seconds_since}

-- The locals of the loop once a rate could be read.
pub record Measured (F : Type 0) : Type 0 where
  pub now : Clocks
  pub position : ℕ
  pub rule : NetworkTrafficAlertRule F
  pub source : Text
  pub value : F

unfoldable pub or_now : ℕ → Option ℕ → ℕ
or_now now none = now
or_now now (some start) = start

module _ {F : Type 0} ⦃d : Double F⦄ where
  unfoldable pub violating : Measured F → Bool
  violating s = d.le s.rule.threshold s.value

  unfoldable pub under_floor : Measured F → Bool
  under_floor s = d.lt s.value (recovery_floor s.rule.threshold)

  pub make_event : Measured F → AlertSeverity → Bool → Text → AlertEvent F
  make_event s severity is_recovery msg = record {
    type = to_alert_type s.rule.type;
    severity = severity;
    source = s.source;
    message = msg;
    value = s.value;
    threshold = s.rule.threshold;
    is_recovery = is_recovery;
    timestamp = s.now.system;
  }

  unfoldable pub emit_to_central :
      TrafficAlertMonitor F → Measured F → AlertSeverity → Text → TrafficAlertMonitor F
  emit_to_central m s severity msg = record m {
    alerts =
        record_rule_event m.alerts s.now.system (to_alert_type s.rule.type) s.source severity
          s.value s.rule.threshold msg;
  }

  unfoldable pub emit_notification :
      TrafficAlertMonitor F → Measured F → AlertEvent F → TrafficAlertMonitor F
  emit_notification m s event =
      if s.rule.notify_enabled && m.has_sink then record m { sent = m.sent ++ (event ∷ []) } else m

  pub exceeded_message : Measured F → Text
  exceeded_message s =
      type_name s.rule.type
      ++ (codes " threshold exceeded: "
          ++ (format_value s.rule.type s.value
              ++ (codes " (limit " ++ (format_value s.rule.type s.rule.threshold ++ codes ")"))))

  pub recovery_message : Measured F → Text
  recovery_message s =
      type_name s.rule.type ++ (codes " back to normal: " ++ format_value s.rule.type s.value)

  -- The status line of a rule whose rate could be read.
  unfoldable pub measured_status : Measured F → NetworkTrafficRuleStatus F
  measured_status s = record (initial_status s.position s.rule) {
    available = true;
    value = s.value;
  }

  -- The end of a round: the runtime state is stored and the status line pushed.
  unfoldable pub finish :
      TrafficAlertMonitor F
      → Measured F
      → RuleRuntime
      → NetworkTrafficRuleStatus F
      → TrafficAlertMonitor F
  finish m s rt st = push_status (set_runtime m (state_key s.rule) rt) st

  -- A breach is confirmed.
  unfoldable pub confirm :
      TrafficAlertMonitor F
      → Measured F
      → RuleRuntime
      → NetworkTrafficRuleStatus F
      → TrafficAlertMonitor F
  confirm m s rt st =
      let msg = exceeded_message s in
      finish
        (emit_notification (emit_to_central m s s.rule.severity msg) s
          (make_event s s.rule.severity false msg))
        s
        (record rt {
          confirmed = true;
          last_source = s.source;
          last_emission = if s.rule.notify_enabled then some s.now.steady else rt.last_emission;
        })
        (record st { status = exceeded })

  unfoldable pub count_samples :
      TrafficAlertMonitor F → Measured F → RuleRuntime → TrafficAlertMonitor F
  count_samples m s rt =
      let count = add_u64 rt.consecutive_violations 1 in
      let rt' = record rt { streak_start = none; consecutive_violations = count } in
      let st = record (measured_status s) { pending_samples = count } in
      if leb s.rule.confirmation_samples count
      then confirm m s rt' (record st {
        detail = codes "confirmed after " ++ (to_string count ++ codes " consecutive samples");
      })
      else finish m s rt' (record st {
        status = pending;
        detail =
            codes "violating for "
            ++ (to_string count
                ++ (b'/' ∷ (to_string s.rule.confirmation_samples ++ codes " samples")));
      })

  unfoldable pub measure_duration :
      TrafficAlertMonitor F → Measured F → RuleRuntime → TrafficAlertMonitor F
  unfolding or_now
  measure_duration m s rt =
      let start = or_now s.now.steady rt.streak_start in
      let rt' = record rt { consecutive_violations = 0; streak_start = some start } in
      let elapsed = seconds_since start s.now.steady in
      if d.le s.rule.confirmation_duration_seconds elapsed
      then confirm m s rt'
          (record (measured_status s) { detail = codes "confirmed after continuous violation" })
      else finish m s rt' (record (measured_status s) {
        status = pending;
        detail =
            d.fixed 1 elapsed
            ++ (b'/' ∷ (d.fixed 1 s.rule.confirmation_duration_seconds ++ codes " s"));
      })

  unfoldable pub count_violation :
      NetworkTrafficAlertConfirmation
      → TrafficAlertMonitor F
      → Measured F
      → RuleRuntime
      → TrafficAlertMonitor F
  count_violation samples m s rt = count_samples m s rt
  count_violation duration m s rt = measure_duration m s rt

  -- A rule outside an episode.
  unfoldable pub watch : TrafficAlertMonitor F → Measured F → RuleRuntime → TrafficAlertMonitor F
  unfolding count_violation
  watch m s rt =
      if violating s
      then count_violation s.rule.confirmation m s rt
      else finish m s (record rt { consecutive_violations = 0; streak_start = none })
          (record (measured_status s) { status = below })

  unfoldable pub recover : TrafficAlertMonitor F → Measured F → RuleRuntime → TrafficAlertMonitor F
  recover m s rt =
      let msg = recovery_message s in
      finish (emit_notification (emit_to_central m s normal msg) s (make_event s normal true msg)) s
        (record rt {
          confirmed = false;
          consecutive_violations = 0;
          streak_start = none;
          last_emission = none;
        })
        (record (measured_status s) { status = recovered; detail = codes "below recovery floor" })

  -- Less than the rule's cooldown passed since the last notification.
  cooling : Measured F → Option ℕ → Bool
  cooling s none = false
  cooling s (some last) = d.lt (seconds_since last s.now.steady) (d.of_nat s.rule.cooldown_seconds)

  unfoldable pub in_cooldown : Measured F → RuleRuntime → Bool
  unfolding cooling
  in_cooldown s rt =
      s.rule.notify_enabled && (ltb 0 s.rule.cooldown_seconds && cooling s rt.last_emission)

  remaining_text : Measured F → Option ℕ → Text
  remaining_text s none = []
  remaining_text s (some last) =
      codes "next repeat in "
      ++ (d.fixed 1
            (d.add (d.of_nat s.rule.cooldown_seconds) (d.neg (seconds_since last s.now.steady)))
          ++ codes " s")

  -- A rule that is still violating in its episode.
  unfoldable pub hold : TrafficAlertMonitor F → Measured F → RuleRuntime → TrafficAlertMonitor F
  unfolding remaining_text
  hold m s rt =
      if s.rule.repeat && s.rule.notify_enabled
      then if in_cooldown s rt
        then finish m s rt (record (measured_status s) {
          status = cooldown;
          detail = remaining_text s rt.last_emission;
        })
        else finish
            (emit_notification m s (make_event s s.rule.severity false (exceeded_message s))) s
            (record rt { last_emission = some s.now.steady })
            (record (measured_status s) {
              status = exceeded;
              detail = codes "repeat notification sent";
            })
      else finish m s rt (record (measured_status s) { status = exceeded })

  unfoldable pub continue_episode :
      TrafficAlertMonitor F → Measured F → RuleRuntime → TrafficAlertMonitor F
  continue_episode m s rt =
      if under_floor s
      then recover m s rt
      else if violating s
      then hold m s rt
      else finish m s rt (record (measured_status s) {
        status = exceeded;
        detail = codes "below threshold; awaiting recovery";
      })

  -- The state machine.
  unfoldable pub measure : TrafficAlertMonitor F → Measured F → TrafficAlertMonitor F
  measure m s =
      let rt = runtime m (state_key s.rule) in
      if rt.confirmed then continue_episode m s rt else watch m s rt
