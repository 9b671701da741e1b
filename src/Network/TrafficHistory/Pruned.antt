-- ===== src/Network/TrafficHistory/Pruned.antt =====
-- Which series `NetworkTrafficHistory::record` leaves (src/network_traffic_history.cpp).
use arch_task_manager.Base.{
  ◌≡◌, refl, ap, subst, beq_refl, none_of_is_some, ◌∙◌, Bool, false, not, ◌&&◌, Option, none, some,
  Text, List, [], ◌∷◌, arith, Bool-cases, inl, inr, if◌then◌else◌, ◌==◌, text_equality, any, Map,
  find, find-erase, Distinct,
}
use arch_task_manager.Network.TrafficHistory.Series.{NetworkTrafficSeries, NetworkTrafficHistory}
use arch_task_manager.Network.TrafficHistory.Pruning.{vanished, prune_one, prune_all, prune_history}

module _ {F : Type 0} where
  -- An identity whose series is to go: it has one that is not the aggregate, and is not present.
  pub is_vanished : List Text → Text → Option (NetworkTrafficSeries F) → Bool
  is_vanished present k none = false
  is_vanished present k (some s) = not s.aggregate && not (any (λ i. i == k) present)

  any-vanished :
      (m : Map Text (NetworkTrafficSeries F)) (present : List Text) (k : Text)
      → Distinct m
      → any (λ i. i == k) (vanished m present) ≡ is_vanished present k (find k m)
  unfolding vanished is_vanished find
  any-vanished [] present k h = refl
  any-vanished ((j, s) ∷ m) present k h = elim (Bool-cases (j == k)) [
    | inl q ↦
        subst
          (λ i.
            any (λ l. l == i) (vanished ((j, s) ∷ m) present)
            ≡ is_vanished present i (find i ((j, s) ∷ m)))
          ((text_equality.beq_iff j k).0 q)
          (ground (arith, beq_refl j, any-vanished m present j h.1, none_of_is_some (find j m) h.0))
    | inr q ↦ ground (arith, any-vanished m present k h.1)
  ]

  series-prune_all :
      (h : NetworkTrafficHistory F) (keys : List Text) (k : Text)
      → find k (prune_all h keys).series
        ≡ (if any (λ i. i == k) keys then none else find k h.series)
  unfolding prune_all prune_one
  series-prune_all h [] k = refl
  series-prune_all h (i ∷ keys) k =
      ground (arith, series-prune_all (prune_one h i) keys k, find-erase i k h.series)

  baselines-prune_all :
      (h : NetworkTrafficHistory F) (keys : List Text) (k : Text)
      → find k (prune_all h keys).baselines
        ≡ (if any (λ i. i == k) keys then none else find k h.baselines)
  unfolding prune_all prune_one
  baselines-prune_all h [] k = refl
  baselines-prune_all h (i ∷ keys) k =
      ground (arith, baselines-prune_all (prune_one h i) keys k, find-erase i k h.baselines)

  -- If no identity has two series, `pruneHistory` removes the series and the baseline of exactly those identities that have a series other than the aggregate and are not present; it changes no other series or baseline.
  pub prune_history_lem :
      (h : NetworkTrafficHistory F) (present : List Text) (k : Text)
      → Distinct h.series
      → let after = prune_history h present in
        let gone = is_vanished present k (find k h.series) in
        (find k after.series ≡ (if gone then none else find k h.series))
        × (find k after.baselines ≡ (if gone then none else find k h.baselines))
  unfolding prune_history
  prune_history_lem h present k e =
      let keys = vanished h.series present in
      (
        series-prune_all h keys k
            ∙ ap (λ b. if b then none else find k h.series) (any-vanished h.series present k e),
        baselines-prune_all h keys k
            ∙ ap (λ b. if b then none else find k h.baselines) (any-vanished h.series present k e),
      )
