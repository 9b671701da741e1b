-- ===== src/Network/TrafficHistory/Pruning.antt =====
-- `pruneHistory` and the operations of `NetworkTrafficHistory` that configure or clear it
-- (src/network_traffic_history.cpp).
use arch_task_manager.Base.{
  ℕ, Bool, not, ◌&&◌, none, Text, List, [], ◌∷◌, ◌==◌, text_equality, if◌then◌else◌, eqb, any, Map,
  erase,
}
use arch_task_manager.Network.TrafficHistory.Series.{
  NetworkTrafficSeries, NetworkTrafficHistory, empty_rings, empty_tick,
}

-- `erase(find(...))`, which erases the first one.
unfoldable pub erase_first : Text → List Text → List Text
erase_first k [] = []
erase_first k (j ∷ rest) = let more = erase_first k rest in if j == k then rest else j ∷ more

module _ {F : Type 0} where
  -- The identities of the series to prune.
  unfoldable pub vanished : Map Text (NetworkTrafficSeries F) → List Text → List Text
  vanished [] present = []
  vanished ((k, s) ∷ rest) present =
      let more = vanished rest present in
      if not s.aggregate && not (any (λ i. i == k) present) then k ∷ more else more

  unfoldable pub prune_one : NetworkTrafficHistory F → Text → NetworkTrafficHistory F
  prune_one h k = record h {
    series = erase k h.series;
    selection_order = erase_first k h.selection_order;
    baselines = erase k h.baselines;
  }

  unfoldable pub prune_all : NetworkTrafficHistory F → List Text → NetworkTrafficHistory F
  prune_all h [] = h
  prune_all h (k ∷ rest) = prune_all (prune_one h k) rest

  -- `pruneHistory`.
  unfoldable pub prune_history : NetworkTrafficHistory F → List Text → NetworkTrafficHistory F
  prune_history h present = prune_all h (vanished h.series present)

  unfoldable pub reset_rings :
      ℕ → Map Text (NetworkTrafficSeries F) → Map Text (NetworkTrafficSeries F)
  reset_rings n [] = []
  reset_rings n ((k, s) ∷ rest) = (k, record s { rings = empty_rings n }) ∷ reset_rings n rest

  -- `setHistoryMaxSamples`.
  unfoldable pub set_history_max_samples : NetworkTrafficHistory F → ℕ → NetworkTrafficHistory F
  set_history_max_samples h n =
      let limit = if eqb n 0 then 1 else n in
      record h { max_samples = limit; series = reset_rings limit h.series }

  -- `setHistoryPaused`.
  unfoldable pub set_history_paused : NetworkTrafficHistory F → Bool → NetworkTrafficHistory F
  set_history_paused h paused = record h { history_paused = paused }

  -- `clearHistory`.
  unfoldable pub clear_history : NetworkTrafficHistory F → NetworkTrafficHistory F
  clear_history h = record h {
    series = [];
    selection_order = [];
    baselines = [];
    aggregate_members = [];
    previous_refresh = none;
    last_tick = empty_tick;
  }
