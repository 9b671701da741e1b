-- ===== src/Network/TrafficHistory/Totals.antt =====
-- The running totals of `NetworkTrafficHistory::record` (src/network_traffic_history.cpp).
use arch_task_manager.Base.{
  ℕ, ◌+◌, ◌-◌, Bool, true, false, not, ◌&&◌, Option, none, some, Text, List, [], ◌∷◌, ◌++◌,
  if◌then◌else◌, leb,
}
use arch_task_manager.Base.Double.{Double}
use arch_task_manager.Network.TrafficAlert.Monitor.{NetworkTrafficRates}
use arch_task_manager.Network.TrafficHistory.{NetworkTrafficCounters, u64_max}

-- `agg_rx_bytes`, `agg_rx_all_present` and `agg_rx_overflow`, and the same of `tx`.
pub record ByteTotal : Type 0 where
  pub bytes : ℕ
  pub all_present : Bool
  pub overflow : Bool

-- `agg_rx_rate` and `any_rx_rate`, and the same of the other rates.
pub record RateTotal (F : Type 0) : Type 0 where
  pub rate : F
  pub any_rate : Bool

pub record Totals (F : Type 0) : Type 0 where
  pub members : List Text
  pub any_member : Bool
  pub rx : ByteTotal
  pub tx : ByteTotal
  pub rx_rate : RateTotal F
  pub tx_rate : RateTotal F
  pub rx_packets_rate : RateTotal F
  pub tx_packets_rate : RateTotal F
  pub rx_errors_rate : RateTotal F
  pub tx_errors_rate : RateTotal F
  pub rx_drops_rate : RateTotal F
  pub tx_drops_rate : RateTotal F

abbrev pub no_bytes : ByteTotal
no_bytes = record { bytes = 0; all_present = true; overflow = false }

unfoldable pub add_bytes : ByteTotal → Option ℕ → ByteTotal
add_bytes t none = record t { all_present = false }
add_bytes t (some v) =
    if leb v (u64_max - t.bytes)
    then record t { bytes = t.bytes + v }
    else record t { overflow = true }

-- The total that is recorded.
unfoldable pub byte_total : ByteTotal → Option ℕ
byte_total t = if t.all_present && not t.overflow then some t.bytes else none

pub rate_total : {F : Type 0} → RateTotal F → Option F
rate_total t = if t.any_rate then some t.rate else none

module _ {F : Type 0} ⦃d : Double F⦄ where
  pub no_rate_total : RateTotal F
  no_rate_total = record { rate = d.of_nat 0; any_rate = false }

  unfoldable pub no_totals : Totals F
  no_totals = record {
    members = [];
    any_member = false;
    rx = no_bytes;
    tx = no_bytes;
    rx_rate = no_rate_total;
    tx_rate = no_rate_total;
    rx_packets_rate = no_rate_total;
    tx_packets_rate = no_rate_total;
    rx_errors_rate = no_rate_total;
    tx_errors_rate = no_rate_total;
    rx_drops_rate = no_rate_total;
    tx_drops_rate = no_rate_total;
  }

  pub add_rate : RateTotal F → Option F → RateTotal F
  add_rate t none = t
  add_rate t (some v) = record { rate = d.add t.rate v; any_rate = true }

  -- The end of a round for an interface that is not a loopback.
  unfoldable pub add_interface :
      Totals F → NetworkTrafficCounters → NetworkTrafficRates F → Totals F
  add_interface t counters rates = record {
    members = t.members ++ (counters.identity ∷ []);
    any_member = true;
    rx = add_bytes t.rx counters.rx_bytes;
    tx = add_bytes t.tx counters.tx_bytes;
    rx_rate = add_rate t.rx_rate rates.rx_bytes_per_second;
    tx_rate = add_rate t.tx_rate rates.tx_bytes_per_second;
    rx_packets_rate = add_rate t.rx_packets_rate rates.rx_packets_per_second;
    tx_packets_rate = add_rate t.tx_packets_rate rates.tx_packets_per_second;
    rx_errors_rate = add_rate t.rx_errors_rate rates.rx_errors_per_second;
    tx_errors_rate = add_rate t.tx_errors_rate rates.tx_errors_per_second;
    rx_drops_rate = add_rate t.rx_drops_rate rates.rx_dropped_per_second;
    tx_drops_rate = add_rate t.tx_drops_rate rates.tx_dropped_per_second;
  }

  -- `aggregate_rates`.
  pub aggregate_rates : Totals F → NetworkTrafficRates F
  aggregate_rates t = record {
    rx_bytes_per_second = rate_total t.rx_rate;
    tx_bytes_per_second = rate_total t.tx_rate;
    rx_packets_per_second = rate_total t.rx_packets_rate;
    tx_packets_per_second = rate_total t.tx_packets_rate;
    rx_errors_per_second = rate_total t.rx_errors_rate;
    tx_errors_per_second = rate_total t.tx_errors_rate;
    rx_dropped_per_second = rate_total t.rx_drops_rate;
    tx_dropped_per_second = rate_total t.tx_drops_rate;
  }
