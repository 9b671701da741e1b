-- ===== src/Network/TrafficHistory/Series.antt =====
-- The state of `NetworkTrafficHistory` and its series (include/network_traffic_history.hpp,
-- src/network_traffic_history.cpp). The pointer that `seriesOrCreate` returns is the key of the
-- series, with a flag that tells whether there is one.
use arch_task_manager.Base.{
  ℕ, ◌+◌, Bool, true, false, not, ◌&&◌, Option, none, some, Text, List, [], ◌∷◌, ◌++◌,
  text_equality, if◌then◌else◌, leb, Map, insert, has, modify, ◌≡◌, Bool-cases, inl, inr,
}
use arch_task_manager.Base.Double.{Double}
use arch_task_manager.History
use arch_task_manager.History.{History, add_sample}
use arch_task_manager.Network.TrafficAlert.Monitor.{NetworkTrafficRates, NetworkTrafficTick}
use arch_task_manager.Network.TrafficHistory.{NetworkTrafficCounters}

-- `TimedSample` (include/resource_history.hpp).
pub record TimedSample (F : Type 0) : Type 0 where
  pub timestamp : ℕ
  pub value : F

-- The ten buffers of a `NetworkTrafficSeries`.
pub record Rings (F : Type 0) : Type 0 where
  pub rx_bytes_per_second : History (TimedSample F)
  pub tx_bytes_per_second : History (TimedSample F)
  pub rx_packets_per_second : History (TimedSample F)
  pub tx_packets_per_second : History (TimedSample F)
  pub rx_errors_per_second : History (TimedSample F)
  pub tx_errors_per_second : History (TimedSample F)
  pub rx_dropped_per_second : History (TimedSample F)
  pub tx_dropped_per_second : History (TimedSample F)
  pub rx_bytes_total : History (TimedSample F)
  pub tx_bytes_total : History (TimedSample F)

pub record NetworkTrafficSeries (F : Type 0) : Type 0 where
  pub identity : Text
  pub display_name : Text
  pub aggregate : Bool
  pub rings : Rings F
  pub last_update : ℕ
  pub membership_changed : Bool

pub record NetworkTrafficHistory (F : Type 0) : Type 0 where
  pub series : Map Text (NetworkTrafficSeries F)
  pub selection_order : List Text
  pub baselines : Map Text NetworkTrafficCounters
  pub previous_refresh : Option ℕ
  pub aggregate_members : List Text
  pub last_tick : NetworkTrafficTick F
  pub max_samples : ℕ
  pub history_paused : Bool

-- `kMaxTrackedInterfaceSeries`.
abbrev pub max_tracked_interface_series : ℕ
max_tracked_interface_series = 8

unfoldable pub empty_rings : {F : Type 0} → ℕ → Rings F
empty_rings n = record {
  rx_bytes_per_second = History.create n;
  tx_bytes_per_second = History.create n;
  rx_packets_per_second = History.create n;
  tx_packets_per_second = History.create n;
  rx_errors_per_second = History.create n;
  tx_errors_per_second = History.create n;
  rx_dropped_per_second = History.create n;
  tx_dropped_per_second = History.create n;
  rx_bytes_total = History.create n;
  tx_bytes_total = History.create n;
}

-- `NetworkTrafficTick{}`.
abbrev pub empty_tick : {F : Type 0} → NetworkTrafficTick F
empty_tick = record { timestamp = 0; wall_clock = 0; rates = []; names = [] }

-- A history as it is constructed, with `kDefaultNetworkTrafficHistorySamples`.
unfoldable pub new_history : {F : Type 0} → NetworkTrafficHistory F
new_history = record {
  series = [];
  selection_order = [];
  baselines = [];
  previous_refresh = none;
  aggregate_members = [];
  last_tick = empty_tick;
  max_samples = 120;
  history_paused = false;
}

module _ {F : Type 0} where
  -- The number of series that are not the aggregate.
  unfoldable pub count_interfaces : Map Text (NetworkTrafficSeries F) → ℕ
  count_interfaces [] = 0
  count_interfaces ((k, s) ∷ rest) = (if s.aggregate then 0 else 1) + count_interfaces rest

  unfoldable pub new_series : Text → Text → Bool → ℕ → NetworkTrafficSeries F
  new_series identity display_name aggregate n = record {
    identity = identity;
    display_name = display_name;
    aggregate = aggregate;
    rings = empty_rings n;
    last_update = 0;
    membership_changed = false;
  }

  unfoldable pub create_series :
      NetworkTrafficHistory F → Text → Text → Bool → NetworkTrafficHistory F
  create_series h identity display_name aggregate = record h {
    series = insert identity (new_series identity display_name aggregate h.max_samples) h.series;
    selection_order = if aggregate then h.selection_order else h.selection_order ++ (identity ∷ []);
  }

  -- `seriesOrCreate`; false stands for `nullptr`.
  unfoldable pub series_or_create :
      NetworkTrafficHistory F → Text → Text → Bool → NetworkTrafficHistory F × Bool
  series_or_create h identity display_name aggregate =
      if has identity h.series
      then (
        record h {
          series = modify identity (λ s. record s { display_name = display_name }) h.series;
        },
        true,
      )
      else if not aggregate && leb max_tracked_interface_series (count_interfaces h.series)
      then (h, false)
      else (create_series h identity display_name aggregate, true)

  -- `appendRate`.
  unfoldable pub append_rate : History (TimedSample F) → ℕ → Option F → History (TimedSample F)
  append_rate ring now none = ring
  append_rate ring now (some v) = add_sample ring (record { timestamp = now; value = v })

module _ {F : Type 0} ⦃d : Double F⦄ where
  -- `appendLevel`.
  unfoldable pub append_level : History (TimedSample F) → ℕ → Option ℕ → History (TimedSample F)
  append_level ring now none = ring
  append_level ring now (some v) = add_sample ring (record { timestamp = now; value = d.of_nat v })

  -- The samples that one round of the loop of `record` appends.
  unfoldable pub append_all : Rings F → ℕ → NetworkTrafficRates F → Option ℕ → Option ℕ → Rings F
  append_all r now rates rx_bytes tx_bytes = record {
    rx_bytes_per_second = append_rate r.rx_bytes_per_second now rates.rx_bytes_per_second;
    tx_bytes_per_second = append_rate r.tx_bytes_per_second now rates.tx_bytes_per_second;
    rx_packets_per_second = append_rate r.rx_packets_per_second now rates.rx_packets_per_second;
    tx_packets_per_second = append_rate r.tx_packets_per_second now rates.tx_packets_per_second;
    rx_errors_per_second = append_rate r.rx_errors_per_second now rates.rx_errors_per_second;
    tx_errors_per_second = append_rate r.tx_errors_per_second now rates.tx_errors_per_second;
    rx_dropped_per_second = append_rate r.rx_dropped_per_second now rates.rx_dropped_per_second;
    tx_dropped_per_second = append_rate r.tx_dropped_per_second now rates.tx_dropped_per_second;
    rx_bytes_total = append_level r.rx_bytes_total now rx_bytes;
    tx_bytes_total = append_level r.tx_bytes_total now tx_bytes;
  }

module _ {F : Type 0} where
  -- The three outcomes of `seriesOrCreate`.
  pub series_or_create_cases {ℓ} :
      (P : NetworkTrafficHistory F × Bool → Type ℓ) (h : NetworkTrafficHistory F)
      (identity name : Text) (aggregate : Bool)
      → (has identity h.series ≡ true
          → P (
            record h { series = modify identity (λ s. record s { display_name = name }) h.series },
            true,
          ))
      → P (h, false)
      → (has identity h.series ≡ false
          → (not aggregate && leb max_tracked_interface_series (count_interfaces h.series)) ≡ false
          → P (create_series h identity name aggregate, true))
      → P (series_or_create h identity name aggregate)
  unfolding series_or_create
  series_or_create_cases P h identity name aggregate known full new =
      elim (Bool-cases (has identity h.series)) [
        | inl e ↦ rw e (known e)
        | inr e ↦
            elim (Bool-cases
              (not aggregate && leb max_tracked_interface_series (count_interfaces h.series))) [
                | inl q ↦ rw (e, q) full
                | inr q ↦ rw (e, q) (new e q)
              ]
      ]
