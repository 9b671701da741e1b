-- ===== src/Network/TrafficAlert/Monitor.antt =====
-- `NetworkTrafficAlertMonitor` (src/network_traffic_alert.cpp). The clocks are arguments, the
-- alert manager that the monitor refers to is part of its state, and `sent` keeps what the event
-- sink was called with. The tick is what `NetworkTrafficHistory::lastTick` returns.
use arch_task_manager.Base.{
  ℕ, Bool, true, false, ◌&&◌, Option, none, some, Text, List, [], ◌∷◌, ◌++◌, ◌==◌, if◌then◌else◌,
  text_equality, Map, find, insert, erase, ltb,
}
use arch_task_manager.Base.Double.{Double}
use arch_task_manager.Base.Decimal.{to_string}
use arch_task_manager.Alert.Types.{AlertSeverity, AlertEvent, normal, rank, severity_equality}
use arch_task_manager.Alert.Manager.{AlertManager, clear_subject}
use arch_task_manager.Network.TrafficAlert.{
  NetworkTrafficAlertRule, NetworkTrafficAlertRuleStatus, NetworkTrafficAlertType, receive,
  transmit, combined, rx_packets, tx_packets, rx_errors, tx_errors, rx_dropped, tx_dropped, below,
  exceeded, cooldown, type_index, to_alert_type,
}

-- `NetworkTrafficRates` and `NetworkTrafficTick` (include/network_traffic_history.hpp).
pub record NetworkTrafficRates (F : Type 0) : Type 0 where
  pub rx_bytes_per_second : Option F
  pub tx_bytes_per_second : Option F
  pub rx_packets_per_second : Option F
  pub tx_packets_per_second : Option F
  pub rx_errors_per_second : Option F
  pub tx_errors_per_second : Option F
  pub rx_dropped_per_second : Option F
  pub tx_dropped_per_second : Option F

pub record NetworkTrafficTick (F : Type 0) : Type 0 where
  pub timestamp : ℕ
  pub wall_clock : ℕ
  pub rates : Map Text (NetworkTrafficRates F)
  pub names : Map Text Text

pub record NetworkTrafficRuleStatus (F : Type 0) : Type 0 where
  pub index : ℕ
  pub rule : NetworkTrafficAlertRule F
  pub status : NetworkTrafficAlertRuleStatus
  pub value : F
  pub available : Bool
  pub pending_samples : ℕ
  pub detail : Text

pub record RuleRuntime : Type 0 where
  pub confirmed : Bool
  pub consecutive_violations : ℕ
  pub streak_start : Option ℕ
  pub last_emission : Option ℕ
  pub last_source : Text

abbrev pub fresh_runtime : RuleRuntime
fresh_runtime = record {
  confirmed = false;
  consecutive_violations = 0;
  streak_start = none;
  last_emission = none;
  last_source = [];
}

pub record TrafficAlertMonitor (F : Type 0) : Type 0 where
  pub alerts : AlertManager F
  pub rules : List (NetworkTrafficAlertRule F)
  pub states : Map Text RuleRuntime
  pub statuses : List (NetworkTrafficRuleStatus F)
  pub has_sink : Bool
  pub sent : List (AlertEvent F)

-- The two clocks, in nanoseconds.
pub record Clocks : Type 0 where
  pub steady : ℕ
  pub system : ℕ

-- The state of the rule as the loop reads it: `states_[key]`, or what a missing key becomes.
runtime_or : Option RuleRuntime → RuleRuntime
runtime_or none = fresh_runtime
runtime_or (some rt) = rt

is_active : NetworkTrafficAlertRuleStatus → Bool
is_active exceeded = true
is_active cooldown = true
is_active _ = false

module _ {F : Type 0} ⦃d : Double F⦄ where
  sum : Option F → Option F → Option F
  sum (some a) (some b) = some (d.add a b)
  sum _ _ = none

  -- `metricValue`.
  pub metric_value : NetworkTrafficRates F → NetworkTrafficAlertType → Option F
  unfolding sum
  metric_value rates receive = rates.rx_bytes_per_second
  metric_value rates transmit = rates.tx_bytes_per_second
  metric_value rates combined = sum rates.rx_bytes_per_second rates.tx_bytes_per_second
  metric_value rates rx_packets = rates.rx_packets_per_second
  metric_value rates tx_packets = rates.tx_packets_per_second
  metric_value rates rx_errors = rates.rx_errors_per_second
  metric_value rates tx_errors = rates.tx_errors_per_second
  metric_value rates rx_dropped = rates.rx_dropped_per_second
  metric_value rates tx_dropped = rates.tx_dropped_per_second

  -- `stateKey`.
  pub state_key : NetworkTrafficAlertRule F → Text
  state_key rule = rule.target_identity ++ (b'|' ∷ to_string (type_index rule.type))

  -- `recoveryFloor`, with the constant 0.9.
  unfoldable pub recovery_floor : F → F
  recovery_floor threshold = d.mul threshold (d.div (d.of_nat 9) (d.of_nat 10))

  -- The constructor.
  unfoldable pub create : AlertManager F → TrafficAlertMonitor F
  create alerts = record {
    alerts = alerts;
    rules = [];
    states = [];
    statuses = [];
    has_sink = false;
    sent = [];
  }

  pub set_event_sink : TrafficAlertMonitor F → Bool → TrafficAlertMonitor F
  set_event_sink m present = record m { has_sink = present }

  -- The inner loop of `setRules`: the first old rule with this key names the subject to clear.
  pub clear_stale :
      AlertManager F → List (NetworkTrafficAlertRule F) → Text → RuleRuntime → AlertManager F
  clear_stale alerts [] key rt = alerts
  clear_stale alerts (old_rule ∷ rest) key rt =
      if state_key old_rule == key
      then clear_subject alerts (to_alert_type old_rule.type) rt.last_source
      else clear_stale alerts rest key rt

  pub clear_all_stale :
      AlertManager F → List (NetworkTrafficAlertRule F) → Map Text RuleRuntime → AlertManager F
  clear_all_stale alerts rules [] = alerts
  clear_all_stale alerts rules ((key, rt) ∷ rest) =
      clear_all_stale (if rt.confirmed then clear_stale alerts rules key rt else alerts) rules rest

  -- `setRules`.
  pub set_rules : TrafficAlertMonitor F → List (NetworkTrafficAlertRule F) → TrafficAlertMonitor F
  set_rules m rules = record m {
    alerts = clear_all_stale m.alerts m.rules m.states;
    rules = rules;
    states = [];
    statuses = [];
  }

  worst_from : AlertSeverity → List (NetworkTrafficRuleStatus F) → AlertSeverity
  unfolding is_active
  worst_from worst [] = worst
  worst_from worst (s ∷ rest) =
      worst_from
        (if is_active s.status && ltb (rank worst) (rank s.rule.severity)
          then s.rule.severity
          else worst)
        rest

  -- `worstSeverity`.
  pub worst_severity : TrafficAlertMonitor F → AlertSeverity
  worst_severity m = worst_from normal m.statuses

  -- One status line, as the loop pushes it.
  unfoldable pub push_status :
      TrafficAlertMonitor F → NetworkTrafficRuleStatus F → TrafficAlertMonitor F
  push_status m st = record m { statuses = m.statuses ++ (st ∷ []) }

  -- The status as the loop starts it.
  unfoldable pub initial_status : ℕ → NetworkTrafficAlertRule F → NetworkTrafficRuleStatus F
  initial_status i rule = record {
    index = i;
    rule = rule;
    status = below;
    value = d.of_nat 0;
    available = false;
    pending_samples = 0;
    detail = [];
  }

  unfoldable pub runtime : TrafficAlertMonitor F → Text → RuleRuntime
  unfolding runtime_or
  runtime m key = runtime_or (find key m.states)

  unfoldable pub set_runtime : TrafficAlertMonitor F → Text → RuleRuntime → TrafficAlertMonitor F
  set_runtime m key rt = record m { states = insert key rt m.states }

  -- A stale episode is cleared and the rule's runtime state forgotten.
  unfoldable pub forget_found :
      TrafficAlertMonitor F → NetworkTrafficAlertRule F → Option RuleRuntime → TrafficAlertMonitor F
  forget_found m rule none = m
  forget_found m rule (some rt) = record m {
    alerts =
        if rt.confirmed
        then clear_subject m.alerts (to_alert_type rule.type) rt.last_source
        else m.alerts;
    states = erase (state_key rule) m.states;
  }

  unfoldable pub forget : TrafficAlertMonitor F → NetworkTrafficAlertRule F → TrafficAlertMonitor F
  unfolding forget_found
  forget m rule = forget_found m rule (find (state_key rule) m.states)
