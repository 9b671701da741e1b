-- ===== src/Network/TrafficAlert.antt =====
-- The rules of include/network_traffic_alert.hpp and the helpers of
-- src/network_traffic_alert.cpp: names, units, and the text of a value.
use arch_task_manager.Base.{
  ℕ, zero, suc, ◌+◌, ◌^◌, ◌≡◌, refl, Bool, true, false, not, ◌&&◌, ◌||◌, Option, none, some, Text,
  codes, eqb, List, [], ◌∷◌, ◌++◌, if◌then◌else◌,
}
use arch_task_manager.Base.Double.{Double}
use arch_task_manager.Alert.Types.{AlertType, AlertSeverity}
use arch_task_manager.Alert.Types
pub mod Monitor
pub mod Validation
pub mod Repair
pub mod Evaluate
pub mod Rounds
pub mod Episodes
pub mod Transitions
pub mod Confirmation
pub mod Statuses
pub mod Fields
pub mod Applying
pub mod Accepted
pub mod Written
pub mod Restored

pub data NetworkTrafficAlertType : Type 0 where
  receive transmit combined rx_packets tx_packets : NetworkTrafficAlertType
  rx_errors tx_errors rx_dropped tx_dropped : NetworkTrafficAlertType

-- `static_cast<int>(type)`.
pub type_index : NetworkTrafficAlertType → ℕ
type_index receive = 0
type_index transmit = 1
type_index combined = 2
type_index rx_packets = 3
type_index tx_packets = 4
type_index rx_errors = 5
type_index tx_errors = 6
type_index rx_dropped = 7
type_index tx_dropped = 8

pub type_name : NetworkTrafficAlertType → Text
type_name receive = codes "receive"
type_name transmit = codes "transmit"
type_name combined = codes "combined"
type_name rx_packets = codes "rx_packets"
type_name tx_packets = codes "tx_packets"
type_name rx_errors = codes "rx_errors"
type_name tx_errors = codes "tx_errors"
type_name rx_dropped = codes "rx_dropped"
type_name tx_dropped = codes "tx_dropped"

pub data NetworkTrafficAlertUnit : Type 0 where
  bytes_per_second bits_per_second packets_per_second events_per_second : NetworkTrafficAlertUnit

pub unit_name : NetworkTrafficAlertUnit → Text
unit_name bytes_per_second = codes "bytes_per_second"
unit_name bits_per_second = codes "bits_per_second"
unit_name packets_per_second = codes "packets_per_second"
unit_name events_per_second = codes "events_per_second"

pub data NetworkTrafficAlertConfirmation : Type 0 where
  samples duration : NetworkTrafficAlertConfirmation

pub data NetworkTrafficAlertRuleStatus : Type 0 where
  disabled waiting_for_baseline below pending exceeded : NetworkTrafficAlertRuleStatus
  cooldown interface_unavailable recovered : NetworkTrafficAlertRuleStatus

pub rule_status_name : NetworkTrafficAlertRuleStatus → Text
rule_status_name disabled = codes "Disabled"
rule_status_name waiting_for_baseline = codes "Waiting"
rule_status_name below = codes "Below"
rule_status_name pending = codes "Pending"
rule_status_name exceeded = codes "Exceeded"
rule_status_name cooldown = codes "Cooldown"
rule_status_name interface_unavailable = codes "Unavailable"
rule_status_name recovered = codes "Recovered"

-- `networkTrafficAlertUnitSupported`.
pub unit_supported : NetworkTrafficAlertType → NetworkTrafficAlertUnit → Bool
unit_supported receive bytes_per_second = true
unit_supported receive bits_per_second = true
unit_supported transmit bytes_per_second = true
unit_supported transmit bits_per_second = true
unit_supported combined bytes_per_second = true
unit_supported combined bits_per_second = true
unit_supported rx_packets packets_per_second = true
unit_supported tx_packets packets_per_second = true
unit_supported rx_errors events_per_second = true
unit_supported tx_errors events_per_second = true
unit_supported rx_dropped events_per_second = true
unit_supported tx_dropped events_per_second = true
unit_supported _ _ = false

-- `networkTrafficAlertToAlertType`.
pub to_alert_type : NetworkTrafficAlertType → AlertType
to_alert_type receive = Types.network_receive
to_alert_type transmit = Types.network_transmit
to_alert_type combined = Types.network_combined
to_alert_type rx_packets = Types.network_rx_packets
to_alert_type tx_packets = Types.network_tx_packets
to_alert_type rx_errors = Types.network_rx_errors
to_alert_type tx_errors = Types.network_tx_errors
to_alert_type rx_dropped = Types.network_rx_dropped
to_alert_type tx_dropped = Types.network_tx_dropped

pub record NetworkTrafficAlertRule (F : Type 0) : Type 0 where
  pub enabled : Bool
  pub target_identity : Text
  pub type : NetworkTrafficAlertType
  pub threshold : F
  pub unit : NetworkTrafficAlertUnit
  pub confirmation : NetworkTrafficAlertConfirmation
  pub confirmation_samples : ℕ
  pub confirmation_duration_seconds : F
  pub notify_enabled : Bool
  pub cooldown_seconds : ℕ
  pub repeat : Bool
  pub severity : AlertSeverity
  pub name : Text

module _ {F : Type 0} ⦃d : Double F⦄ where
  -- `networkTrafficAlertToCanonical` and its inverse.
  pub to_canonical : F → NetworkTrafficAlertUnit → F
  to_canonical value bits_per_second = d.div value (d.of_nat 8)
  to_canonical value _ = value

  pub from_canonical : F → NetworkTrafficAlertUnit → F
  from_canonical value bits_per_second = d.mul value (d.of_nat 8)
  from_canonical value _ = value

  -- The loop that scales a value by `base`, as far as there are suffixes.
  scale_up : F → F → Text → List Text → F × Text
  scale_up base scaled suffix [] = (scaled, suffix)
  scale_up base scaled suffix (larger ∷ rest) =
      let more = scale_up base (d.div scaled base) larger rest in
      if d.le base scaled then more else (scaled, suffix)

  scaled_text : F × Text → Text
  scaled_text (scaled, suffix) =
      d.fixed (if d.le (d.of_nat 100) scaled then 0 else 1) scaled ++ (b' ' ∷ suffix)

  pub format_bytes_per_second : F → Text
  unfolding scale_up scaled_text
  format_bytes_per_second value = scaled_text (
      scale_up (d.of_nat 1024) (d.abs value) (codes "B/s")
        (codes "kB/s" ∷ codes "MB/s" ∷ codes "GB/s" ∷ codes "TB/s" ∷ []))

  pub format_count_per_second : F → Text → Text
  unfolding scale_up scaled_text
  format_count_per_second value unit = scaled_text (
      scale_up (d.of_nat 1000) (d.abs value) unit
        ((b'k' ∷ unit) ∷ (b'M' ∷ unit) ∷ (b'G' ∷ unit) ∷ (b'T' ∷ unit) ∷ []))

  -- `networkTrafficAlertFormatValue`.
  pub format_value : NetworkTrafficAlertType → F → Text
  format_value receive value = format_bytes_per_second value
  format_value transmit value = format_bytes_per_second value
  format_value combined value = format_bytes_per_second value
  format_value rx_packets value = format_count_per_second value (codes "pkt/s")
  format_value tx_packets value = format_count_per_second value (codes "pkt/s")
  format_value rx_errors value = format_count_per_second value (codes "err/s")
  format_value tx_errors value = format_count_per_second value (codes "err/s")
  format_value rx_dropped value = format_count_per_second value (codes "drop/s")
  format_value tx_dropped value = format_count_per_second value (codes "drop/s")
