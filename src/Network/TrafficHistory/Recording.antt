-- ===== src/Network/TrafficHistory/Recording.antt =====
-- `NetworkTrafficHistory::record` (src/network_traffic_history.cpp). The clocks are arguments.
use arch_task_manager.Base.{
  ℕ, Bool, true, false, not, ◌&&◌, Option, none, some, Text, codes, List, [], ◌∷◌, ◌++◌, ◌==◌,
  text_equality, if◌then◌else◌, find, insert, modify,
}
use arch_task_manager.Base.Double.{Double}
use arch_task_manager.Network.Interface.{
  NetworkInterfaceStats, NetworkInterfaceInfo, NetworkInterfaceType, NetworkInterfaceSnapshot,
  loopback, identity,
}
use arch_task_manager.Network.TrafficAlert.Monitor.{NetworkTrafficRates, NetworkTrafficTick, Clocks}
use arch_task_manager.Base.Elapsed.{seconds_since}
use arch_task_manager.Network.TrafficHistory.{
  NetworkTrafficCounters, no_rates, derive_traffic_rates, all_identity,
}
use arch_task_manager.Network.TrafficHistory.Series.{
  NetworkTrafficSeries, NetworkTrafficHistory, series_or_create, append_all,
}
use arch_task_manager.Network.TrafficHistory.Pruning.{prune_history}
use arch_task_manager.Network.TrafficHistory.Totals.{
  Totals, no_totals, add_interface, aggregate_rates, byte_total,
}

-- The readout of an interface that reports its traffic.
unfoldable pub counters_of : NetworkInterfaceInfo → NetworkInterfaceStats → NetworkTrafficCounters
counters_of info traffic = record {
  identity = identity info;
  name = info.name;
  rx_bytes = some traffic.rx_bytes;
  tx_bytes = some traffic.tx_bytes;
  rx_packets = some traffic.rx_packets;
  tx_packets = some traffic.tx_packets;
  rx_errors = some traffic.rx_errors;
  tx_errors = some traffic.tx_errors;
  rx_dropped = some traffic.rx_dropped;
  tx_dropped = some traffic.tx_dropped;
}

pub is_loopback : NetworkInterfaceType → Bool
is_loopback loopback = true
is_loopback _ = false

-- `!=` of the member lists, negated.
pub members_beq : List Text → List Text → Bool
members_beq [] [] = true
members_beq [] (j ∷ rest) = false
members_beq (k ∷ more) [] = false
members_beq (k ∷ more) (j ∷ rest) = k == j && members_beq more rest

-- The locals of the loop: the history itself, `present`, and the running totals.
pub record Batch (F : Type 0) : Type 0 where
  pub history : NetworkTrafficHistory F
  pub present : List Text
  pub totals : Totals F

module _ {F : Type 0} ⦃d : Double F⦄ where
  -- The rates of an interface, given its baseline.
  pub rates_since :
      Option NetworkTrafficCounters → NetworkTrafficCounters → F → NetworkTrafficRates F
  rates_since none counters seconds = no_rates
  rates_since (some baseline) counters seconds =
      if baseline.identity == counters.identity
      then derive_traffic_rates baseline counters seconds
      else no_rates

  unfoldable pub set_tick :
      NetworkTrafficTick F → Text → NetworkTrafficRates F → Text → NetworkTrafficTick F
  set_tick t key rates name = record t {
    rates = insert key rates t.rates;
    names = insert key name t.names;
  }

  unfoldable pub append_samples :
      ℕ
      → ℕ
      → NetworkTrafficRates F
      → Option ℕ
      → Option ℕ
      → NetworkTrafficSeries F
      → NetworkTrafficSeries F
  append_samples now wall rates rx_bytes tx_bytes s = record s {
    rings = append_all s.rings now rates rx_bytes tx_bytes;
    last_update = wall;
  }

  -- The series of an interface gets its samples, unless there is no room for a series.
  unfoldable pub record_series :
      NetworkTrafficHistory F × Bool
      → Clocks
      → NetworkTrafficCounters
      → NetworkTrafficRates F
      → NetworkTrafficHistory F
  record_series (h, found) now counters rates =
      if found
      then record h {
        series =
            modify counters.identity
              (append_samples now.steady now.system rates counters.rx_bytes counters.tx_bytes)
              h.series;
      }
      else h

  -- The history after one round of the loop.
  unfoldable pub record_interface :
      NetworkTrafficHistory F
      → Clocks
      → NetworkTrafficCounters
      → NetworkTrafficRates F
      → NetworkTrafficHistory F
  record_interface h now counters rates =
      record_series
        (series_or_create
          (record h {
            baselines = insert counters.identity counters h.baselines;
            last_tick = set_tick h.last_tick counters.identity rates counters.name;
          })
          counters.identity counters.name false)
        now counters rates

  -- One round of the loop, from the readout on.
  unfoldable pub sample_interface : Batch F → Clocks → F → Bool → NetworkTrafficCounters → Batch F
  sample_interface b now seconds excluded counters =
      let rates = rates_since (find counters.identity b.history.baselines) counters seconds in
      record {
        history = record_interface b.history now counters rates;
        present = b.present ++ (counters.identity ∷ []);
        totals = if excluded then b.totals else add_interface b.totals counters rates;
      }

  unfoldable pub sample_traffic :
      Batch F → Clocks → F → NetworkInterfaceInfo → Option NetworkInterfaceStats → Batch F
  sample_traffic b now seconds info none = b
  sample_traffic b now seconds info (some traffic) =
      if identity info == []
      then b
      else sample_interface b now seconds (is_loopback info.type) (counters_of info traffic)

  unfoldable pub sample_all : Batch F → Clocks → F → List NetworkInterfaceInfo → Batch F
  sample_all b now seconds [] = b
  sample_all b now seconds (info ∷ rest) =
      sample_all (sample_traffic b now seconds info info.traffic) now seconds rest

  unfoldable pub append_aggregate :
      Clocks → Totals F → Bool → NetworkTrafficSeries F → NetworkTrafficSeries F
  append_aggregate now t changed s =
      if t.any_member
      then append_samples now.steady now.system (aggregate_rates t) (byte_total t.rx)
          (byte_total t.tx) (record s { membership_changed = changed })
      else record s { membership_changed = changed }

  -- The aggregate series and the last tick, after the loop.
  unfoldable pub record_aggregate :
      NetworkTrafficHistory F → Clocks → Totals F → NetworkTrafficHistory F
  record_aggregate h now t = record h {
    aggregate_members = t.members;
    series =
        modify all_identity
          (append_aggregate now t (not (members_beq t.members h.aggregate_members))) h.series;
    last_tick = set_tick h.last_tick all_identity (aggregate_rates t) (codes "All interfaces");
  }

  pub window : Option ℕ → ℕ → F
  window none now = d.of_nat 0
  window (some earlier) now = seconds_since earlier now

  -- The state in which the loop starts.
  unfoldable pub start_batch : NetworkTrafficHistory F → Clocks → Batch F
  start_batch h now = record {
    history =
        (series_or_create
          (record h {
            last_tick = record h.last_tick { timestamp = now.steady; wall_clock = now.system };
            previous_refresh = some now.steady;
          })
          all_identity (codes "All interfaces") true).0;
    present = [];
    totals = no_totals;
  }

  unfoldable pub finish_batch : Clocks → Batch F → NetworkTrafficHistory F
  finish_batch now b = prune_history (record_aggregate b.history now b.totals) b.present

  -- `record`.
  unfoldable pub record_snapshot :
      NetworkTrafficHistory F → Clocks → NetworkInterfaceSnapshot → NetworkTrafficHistory F
  record_snapshot h now snapshot =
      if h.history_paused
      then h
      else finish_batch now (
          sample_all (start_batch h now) now (window h.previous_refresh now.steady)
            snapshot.interfaces)
