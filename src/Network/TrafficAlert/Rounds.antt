-- ===== src/Network/TrafficAlert/Rounds.antt =====
-- The loop over the rules in `NetworkTrafficAlertMonitor::evaluate` (src/network_traffic_alert.cpp).
use arch_task_manager.Base.{
  ℕ, ◌+◌, Option, none, some, Text, codes, List, [], ◌∷◌, if◌then◌else◌, text_equality, find,
}
use arch_task_manager.Base.Double.{Double}
use arch_task_manager.Network.TrafficAlert.{
  NetworkTrafficAlertRule, disabled, waiting_for_baseline, exceeded, interface_unavailable,
}
use arch_task_manager.Network.TrafficAlert.Monitor.{
  NetworkTrafficRates, NetworkTrafficTick, TrafficAlertMonitor, Clocks, metric_value, state_key,
  push_status, initial_status, runtime, set_runtime, forget,
}
use arch_task_manager.Network.TrafficAlert.Evaluate.{measure}

pub both : {A B : Type 0} → Option A → Option B → Option (A × B)
both (some a) (some b) = some (a, b)
both _ _ = none

module _ {F : Type 0} ⦃d : Double F⦄ where
  -- The metric is unavailable: the runtime state is kept as it is.
  unfoldable pub freeze :
      TrafficAlertMonitor F → ℕ → NetworkTrafficAlertRule F → TrafficAlertMonitor F
  freeze m i rule =
      let rt = runtime m (state_key rule) in
      push_status (set_runtime m (state_key rule) rt) (
        if rt.confirmed
        then record (initial_status i rule) {
          status = exceeded;
          detail = codes "metric unavailable; holding state";
        }
        else record (initial_status i rule) {
          status = waiting_for_baseline;
          detail = codes "no measurable rate yet";
        })

  unfoldable pub read_metric :
      TrafficAlertMonitor F
      → Clocks
      → ℕ
      → NetworkTrafficAlertRule F
      → Text
      → Option F
      → TrafficAlertMonitor F
  read_metric m now i rule source none = freeze m i rule
  read_metric m now i rule source (some v) =
      measure m (record { now = now; position = i; rule = rule; source = source; value = v })

  -- The rates and the display name of an identity, if the tick has both.
  unfoldable pub target :
      Option (NetworkTrafficTick F) → Text → Option (NetworkTrafficRates F × Text)
  unfolding both
  target none identity = none
  target (some tick) identity = both (find identity tick.rates) (find identity tick.names)

  unfoldable pub at_target :
      TrafficAlertMonitor F
      → Clocks
      → ℕ
      → NetworkTrafficAlertRule F
      → Option (NetworkTrafficRates F × Text)
      → TrafficAlertMonitor F
  unfolding read_metric
  at_target m now i rule none =
      push_status (forget m rule)
        (record (initial_status i rule) { status = interface_unavailable })
  at_target m now i rule (some (rates, source)) =
      read_metric m now i rule source (metric_value rates rule.type)

  -- One round of the loop.
  unfoldable pub evaluate_rule :
      TrafficAlertMonitor F
      → Clocks
      → Option (NetworkTrafficTick F)
      → ℕ
      → NetworkTrafficAlertRule F
      → TrafficAlertMonitor F
  unfolding at_target
  evaluate_rule m now tick i rule =
      if rule.enabled
      then at_target m now i rule (target tick rule.target_identity)
      else push_status (forget m rule) (record (initial_status i rule) { status = disabled })

  unfoldable pub evaluate_rules :
      TrafficAlertMonitor F
      → Clocks
      → Option (NetworkTrafficTick F)
      → ℕ
      → List (NetworkTrafficAlertRule F)
      → TrafficAlertMonitor F
  evaluate_rules m now tick i [] = m
  evaluate_rules m now tick i (rule ∷ rest) =
      evaluate_rules (evaluate_rule m now tick i rule) now tick (i + 1) rest

  -- `evaluate`.
  unfoldable pub evaluate :
      TrafficAlertMonitor F → Clocks → Option (NetworkTrafficTick F) → TrafficAlertMonitor F
  evaluate m now tick = evaluate_rules (record m { statuses = [] }) now tick 0 m.rules
