-- ===== src/Network/TrafficHistory/Selection.antt =====
-- The queries of `NetworkTrafficHistory` (src/network_traffic_history.cpp).
use arch_task_manager.Base.{
  Bool, Map, Option, none, some, Text, codes, List, [], ◌∷◌, text_equality, find, has, filter,
  is_some,
}
use arch_task_manager.Network.TrafficAlert.Monitor.{NetworkTrafficRates, NetworkTrafficTick}
use arch_task_manager.Network.TrafficHistory.{all_identity}
use arch_task_manager.Network.TrafficHistory.Series.{NetworkTrafficSeries, NetworkTrafficHistory}

module _ {F : Type 0} where
  pub series_for : NetworkTrafficHistory F → Text → Option (NetworkTrafficSeries F)
  series_for h identity = find identity h.series

  unfoldable pub selectable_identities : NetworkTrafficHistory F → List Text
  selectable_identities h = all_identity ∷ filter (λ i. has i h.series) h.selection_order

  pub name_or_all : Option (NetworkTrafficSeries F) → Text
  name_or_all none = codes "All interfaces"
  name_or_all (some s) = s.display_name

  pub display_name_for : NetworkTrafficHistory F → Text → Text
  display_name_for h identity = name_or_all (series_for h identity)

  pub aggregate_available : NetworkTrafficHistory F → Bool
  aggregate_available h = is_some (series_for h all_identity)

  -- `lastTick`; a tick without rates is empty.
  unfoldable pub tick_if_recorded :
      NetworkTrafficTick F → Map Text (NetworkTrafficRates F) → Option (NetworkTrafficTick F)
  tick_if_recorded t [] = none
  tick_if_recorded t (r ∷ rest) = some t

  unfoldable pub last_tick_of : NetworkTrafficHistory F → Option (NetworkTrafficTick F)
  unfolding tick_if_recorded
  last_tick_of h = tick_if_recorded h.last_tick h.last_tick.rates
