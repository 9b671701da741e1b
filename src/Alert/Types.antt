-- ===== src/Alert/Types.antt =====
-- The data of include/alert_manager.hpp and the default thresholds of src/alert_manager.cpp.
use arch_task_manager.Base.{
  ℕ, zero, suc, ◌≡◌, refl, ap, ◌↔◌, Bool, true, false, Option, none, some, Text, codes, eqb,
  eqb_iff, Equality, arith, List, [], ◌∷◌,
}
use arch_task_manager.Base.Double.{Double}

pub data AlertType : Type 0 where
  cpu_usage memory_usage swap_usage disk_usage disk_read_activity disk_write_activity : AlertType
  network_receive network_transmit network_combined network_rx_packets : AlertType
  network_tx_packets network_rx_errors network_tx_errors network_rx_dropped : AlertType
  network_tx_dropped gpu_usage gpu_memory_usage temperature link_state_changed : AlertType
  wireless_connection_changed : AlertType

-- `static_cast<int>(type)`.
unfoldable pub index : AlertType → ℕ
index cpu_usage = 0
index memory_usage = 1
index swap_usage = 2
index disk_usage = 3
index disk_read_activity = 4
index disk_write_activity = 5
index network_receive = 6
index network_transmit = 7
index network_combined = 8
index network_rx_packets = 9
index network_tx_packets = 10
index network_rx_errors = 11
index network_tx_errors = 12
index network_rx_dropped = 13
index network_tx_dropped = 14
index gpu_usage = 15
index gpu_memory_usage = 16
index temperature = 17
index link_state_changed = 18
index wireless_connection_changed = 19

abbrev pub all_types : List AlertType
all_types =
    cpu_usage ∷ memory_usage ∷ swap_usage ∷ disk_usage ∷ disk_read_activity ∷ disk_write_activity
    ∷ network_receive ∷ network_transmit ∷ network_combined ∷ network_rx_packets
    ∷ network_tx_packets ∷ network_rx_errors ∷ network_tx_errors ∷ network_rx_dropped
    ∷ network_tx_dropped ∷ gpu_usage ∷ gpu_memory_usage ∷ temperature ∷ link_state_changed
    ∷ wireless_connection_changed ∷ []

nth : List AlertType → ℕ → Option AlertType
nth [] n = none
nth (t ∷ ts) zero = some t
nth (t ∷ ts) (suc n) = nth ts n

-- `static_cast<AlertType>(n)`; a number that names no enumerator is not a value of the model.
pub of_index : ℕ → Option AlertType
unfolding nth
of_index n = nth all_types n

pub of_index-index : (t : AlertType) → of_index (index t) ≡ some t
unfolding of_index index
of_index-index cpu_usage = refl
of_index-index _ = refl

index-injective : (s t : AlertType) → index s ≡ index t → s ≡ t
index-injective s t e = cc (of_index-index s, of_index-index t)

unfoldable pub type_beq : AlertType → AlertType → Bool
unfolding index
type_beq s t = eqb (index s) (index t)

pub type_beq_iff : (s t : AlertType) → (type_beq s t ≡ true) ↔ (s ≡ t)
unfolding type_beq
type_beq_iff s t = (λ h. index-injective s t ((eqb_iff _ _).0 h), λ e. (eqb_iff _ _).1 (ap index e))

instance abbrev pub type_equality : Equality AlertType
type_equality = record { beq = type_beq; beq_iff = type_beq_iff }

pub data AlertSeverity : Type 0 where
  normal warning critical : AlertSeverity

pub rank : AlertSeverity → ℕ
rank normal = 0
rank warning = 1
rank critical = 2

pub rank-injective : (s t : AlertSeverity) → rank s ≡ rank t → s ≡ t
unfolding rank
rank-injective s t e = ground arith

unfoldable pub severity_beq : AlertSeverity → AlertSeverity → Bool
unfolding rank
severity_beq s t = eqb (rank s) (rank t)

pub severity_beq_iff : (s t : AlertSeverity) → (severity_beq s t ≡ true) ↔ (s ≡ t)
unfolding severity_beq
severity_beq_iff s t =
    (λ h. rank-injective s t ((eqb_iff _ _).0 h), λ e. (eqb_iff _ _).1 (ap rank e))

instance abbrev pub severity_equality : Equality AlertSeverity
severity_equality = record { beq = severity_beq; beq_iff = severity_beq_iff }

pub alert_type_name : AlertType → Text
alert_type_name cpu_usage = codes "CPU"
alert_type_name memory_usage = codes "Memory"
alert_type_name swap_usage = codes "Swap"
alert_type_name disk_usage = codes "Disk capacity"
alert_type_name disk_read_activity = codes "Disk read"
alert_type_name disk_write_activity = codes "Disk write"
alert_type_name network_receive = codes "Network receive"
alert_type_name network_transmit = codes "Network transmit"
alert_type_name network_combined = codes "Network combined"
alert_type_name network_rx_packets = codes "Network RX packets"
alert_type_name network_tx_packets = codes "Network TX packets"
alert_type_name network_rx_errors = codes "Network RX errors"
alert_type_name network_tx_errors = codes "Network TX errors"
alert_type_name network_rx_dropped = codes "Network RX dropped"
alert_type_name network_tx_dropped = codes "Network TX dropped"
alert_type_name gpu_usage = codes "GPU usage"
alert_type_name gpu_memory_usage = codes "GPU memory"
alert_type_name temperature = codes "Temperature"
alert_type_name link_state_changed = codes "Link state"
alert_type_name wireless_connection_changed = codes "Wireless connection"

pub alert_severity_name : AlertSeverity → Text
alert_severity_name normal = codes "Normal"
alert_severity_name warning = codes "Warning"
alert_severity_name critical = codes "Critical"

pub record AlertEvent (F : Type 0) : Type 0 where
  pub type : AlertType
  pub severity : AlertSeverity
  pub source : Text
  pub message : Text
  pub value : F
  pub threshold : F
  pub is_recovery : Bool
  pub timestamp : ℕ

pub record AlertThreshold (F : Type 0) : Type 0 where
  pub warning : F
  pub critical : F
  pub recovery : F
  pub enabled : Bool

module _ {F : Type 0} ⦃d : Double F⦄ where
  limits : ℕ → ℕ → ℕ → Bool → AlertThreshold F
  limits w c r e = record {
    warning = d.of_nat w;
    critical = d.of_nat c;
    recovery = d.of_nat r;
    enabled = e;
  }

  -- The member initialisers of `AlertThreshold`, with `enabled` cleared.
  disabled : AlertThreshold F
  disabled = record {
    warning = d.of_nat 0;
    critical = d.of_nat 0;
    recovery = d.neg (d.of_nat 1);
    enabled = false;
  }

  -- `AlertDefaults::forType`.
  unfoldable pub for_type : AlertType → AlertThreshold F
  unfolding limits disabled
  for_type cpu_usage = limits 80 95 75 true
  for_type memory_usage = limits 80 95 75 true
  for_type swap_usage = limits 70 90 65 true
  for_type disk_usage = limits 85 95 80 true
  for_type disk_read_activity = limits 500 1000 400 false
  for_type disk_write_activity = limits 500 1000 400 false
  for_type network_receive = limits 125 250 100 false
  for_type network_transmit = limits 125 250 100 false
  for_type network_combined = disabled
  for_type network_rx_packets = disabled
  for_type network_tx_packets = disabled
  for_type network_rx_errors = disabled
  for_type network_tx_errors = disabled
  for_type network_rx_dropped = disabled
  for_type network_tx_dropped = disabled
  for_type link_state_changed = disabled
  for_type wireless_connection_changed = disabled
  for_type gpu_usage = limits 85 95 80 true
  for_type gpu_memory_usage = limits 85 95 80 true
  for_type temperature = limits 75 90 70 true
