-- ===== src/Network/TrafficHistory/Stale.antt =====
-- What `NetworkTrafficHistory::record` (src/network_traffic_history.cpp) leaves of an interface
-- that it did not sample.
use arch_task_manager.Base.{
  ◌≡◌, ◌≢◌, ◌⊎◌, refl, ap, ◌∙◌, sym, Bool, true, false, Option, none, some, Text, List, [], ◌∷◌,
  arith, Bool-cases, if_cases, inl, inr, ◌==◌, text_equality, beq_false, Map, find, insert,
  find-insert_other, find-erase_other, find-modify_other, All,
}
use mathlib.Core.Option.{none-ne-some}
use arch_task_manager.Base.Double.{Double}
use arch_task_manager.Network.Interface.{
  NetworkInterfaceStats, NetworkInterfaceInfo, NetworkInterfaceSnapshot, identity,
}
use arch_task_manager.Network.TrafficAlert.Monitor.{NetworkTrafficRates, Clocks}
use arch_task_manager.Network.TrafficHistory.{NetworkTrafficCounters, all_identity}
use arch_task_manager.Network.TrafficHistory.Series.{
  NetworkTrafficSeries, NetworkTrafficHistory, series_or_create, create_series,
  series_or_create_cases,
}
use arch_task_manager.Network.TrafficHistory.Pruning.{prune_one, prune_all, prune_history, vanished}
use arch_task_manager.Network.TrafficHistory.Totals.{Totals, aggregate_rates}
use arch_task_manager.Network.TrafficHistory.Recording.{
  Batch, counters_of, record_series, record_interface, sample_interface, sample_traffic, sample_all,
  record_aggregate, start_batch, finish_batch, record_snapshot, set_tick, window,
}

-- The interface is not sampled as `k`: it has another identity, or reports no traffic.
abbrev pub NotSampledAs : Text → NetworkInterfaceInfo → Type 0
NotSampledAs k info = (info.traffic ≡ none) ⊎ (identity info ≢ k)

module _ {F : Type 0} where
  -- What is kept for the identity `k` from one state to the next.
  pub record Keeps (k : Text) (h h' : NetworkTrafficHistory F) : Type 0 where
    pub rates : find k h'.last_tick.rates ≡ find k h.last_tick.rates
    pub names : find k h'.last_tick.names ≡ find k h.last_tick.names
    pub baseline : find k h'.baselines ≡ find k h.baselines
    pub series : find k h'.series ≡ find k h.series

  Keeps-refl : (k : Text) (h : NetworkTrafficHistory F) → Keeps k h h
  Keeps-refl k h = record { rates = refl; names = refl; baseline = refl; series = refl }

  Keeps-trans :
      (k : Text) (a b c : NetworkTrafficHistory F) → Keeps k a b → Keeps k b c → Keeps k a c
  Keeps-trans k a b c p q = record {
    rates = q.rates ∙ p.rates;
    names = q.names ∙ p.names;
    baseline = q.baseline ∙ p.baseline;
    series = q.series ∙ p.series;
  }

  Keeps-series_or_create :
      (k : Text) (h : NetworkTrafficHistory F) (i name : Text) (aggregate : Bool)
      → (i == k) ≡ false
      → Keeps k h (series_or_create h i name aggregate).0
  unfolding series_or_create create_series
  Keeps-series_or_create k h i name aggregate e =
      series_or_create_cases (λ p. Keeps k h p.0) h i name aggregate
        (λ q. record {
          rates = refl;
          names = refl;
          baseline = refl;
          series = find-modify_other i k _ h.series e;
        })
        (Keeps-refl k h)
        (λ q r. record {
          rates = refl;
          names = refl;
          baseline = refl;
          series = find-insert_other i k _ h.series e;
        })

module _ {F : Type 0} ⦃d : Double F⦄ where
  Keeps-record_series :
      (k : Text) (p : NetworkTrafficHistory F × Bool) (now : Clocks) (c : NetworkTrafficCounters)
      (r : NetworkTrafficRates F)
      → (c.identity == k) ≡ false
      → Keeps k p.0 (record_series p now c r)
  unfolding record_series
  Keeps-record_series k (h, true) now c r e = record {
    rates = refl;
    names = refl;
    baseline = refl;
    series = find-modify_other c.identity k _ h.series e;
  }
  Keeps-record_series k (h, false) now c r e = Keeps-refl k h

  Keeps-record_interface :
      (k : Text) (h : NetworkTrafficHistory F) (now : Clocks) (c : NetworkTrafficCounters)
      (r : NetworkTrafficRates F)
      → (c.identity == k) ≡ false
      → Keeps k h (record_interface h now c r)
  unfolding record_interface set_tick
  Keeps-record_interface k h now c r e =
      let seen = record h {
        baselines = insert c.identity c h.baselines;
        last_tick = set_tick h.last_tick c.identity r c.name;
      } in
      let found = series_or_create seen c.identity c.name false in
      Keeps-trans k h found.0 (record_series found now c r)
        (Keeps-trans k h seen found.0
          (record {
            rates = find-insert_other c.identity k r h.last_tick.rates e;
            names = find-insert_other c.identity k c.name h.last_tick.names e;
            baseline = find-insert_other c.identity k c h.baselines e;
            series = refl;
          })
          (Keeps-series_or_create k seen c.identity c.name false e))
        (Keeps-record_series k found now c r e)

  Keeps-sample_traffic :
      (k : Text) (b : Batch F) (now : Clocks) (seconds : F) (info : NetworkInterfaceInfo)
      (traffic : Option NetworkInterfaceStats)
      → (traffic ≡ none) ⊎ (identity info ≢ k)
      → Keeps k b.history (sample_traffic b now seconds info traffic).history
  unfolding sample_traffic sample_interface counters_of
  Keeps-sample_traffic k b now seconds info none h = Keeps-refl k b.history
  Keeps-sample_traffic k b now seconds info (some traffic) (inl e) = absurd (none-ne-some _ (sym e))
  Keeps-sample_traffic k b now seconds info (some traffic) (inr other) =
      elim (Bool-cases (identity info == [])) [
        | inl e ↦ rw e (Keeps-refl k b.history)
        | inr e ↦ rw e (
            Keeps-record_interface k b.history now (counters_of info traffic) _
              (beq_false (identity info) k other))
      ]

  Keeps-sample_all :
      (k : Text) (b : Batch F) (now : Clocks) (seconds : F) (infos : List NetworkInterfaceInfo)
      → All (NotSampledAs k) infos
      → Keeps k b.history (sample_all b now seconds infos).history
  unfolding sample_all
  Keeps-sample_all k b now seconds [] h = Keeps-refl k b.history
  Keeps-sample_all k b now seconds (info ∷ rest) h =
      let b' = sample_traffic b now seconds info info.traffic in
      Keeps-trans k b.history b'.history (sample_all b' now seconds rest).history
        (Keeps-sample_traffic k b now seconds info info.traffic h.0)
        (Keeps-sample_all k b' now seconds rest h.1)

  -- The prune of series that are not `k`.
  Keeps-prune_all :
      (k : Text) (h : NetworkTrafficHistory F) (keys : List Text)
      → All (λ i. (i == k) ≡ false) keys
      → Keeps k h (prune_all h keys)
  unfolding prune_all prune_one
  Keeps-prune_all k h [] e = Keeps-refl k h
  Keeps-prune_all k h (i ∷ keys) e =
      Keeps-trans k h (prune_one h i) (prune_all (prune_one h i) keys)
        (record {
          rates = refl;
          names = refl;
          baseline = find-erase_other i k h.baselines e.0;
          series = find-erase_other i k h.series e.0;
        })
        (Keeps-prune_all k (prune_one h i) keys e.1)

  vanished-find :
      (k : Text) (m : Map Text (NetworkTrafficSeries F)) (present : List Text)
      → find k m ≡ none
      → All (λ i. (i == k) ≡ false) (vanished m present)
  unfolding vanished find
  vanished-find k [] present e = tt
  vanished-find k ((j, s) ∷ m) present e = elim (Bool-cases (j == k)) [
    | inl q ↦ absurd (ground arith)
    | inr q ↦ ground (arith, vanished-find k m present)
  ]

  Keeps-record_aggregate :
      (k : Text) (h : NetworkTrafficHistory F) (now : Clocks) (t : Totals F)
      → (all_identity == k) ≡ false
      → Keeps k h (record_aggregate h now t)
  unfolding record_aggregate set_tick
  Keeps-record_aggregate k h now t e = record {
    rates = find-insert_other all_identity k (aggregate_rates t) h.last_tick.rates e;
    names = find-insert_other all_identity k _ h.last_tick.names e;
    baseline = refl;
    series = find-modify_other all_identity k _ h.series e;
  }

  last_tick-prune_all :
      (h : NetworkTrafficHistory F) (keys : List Text) → (prune_all h keys).last_tick ≡ h.last_tick
  unfolding prune_all prune_one
  last_tick-prune_all h [] = refl
  last_tick-prune_all h (i ∷ keys) = last_tick-prune_all (prune_one h i) keys

  Keeps-loop :
      (k : Text) (h : NetworkTrafficHistory F) (now : Clocks) (seconds : F)
      (infos : List NetworkInterfaceInfo)
      → k ≢ all_identity
      → All (NotSampledAs k) infos
      → let b = sample_all (start_batch h now) now seconds infos in
        Keeps k h (record_aggregate b.history now b.totals)
  unfolding start_batch
  Keeps-loop k h now seconds infos other e =
      let apart = beq_false all_identity k (λ q. other (sym q)) in
      let started = record h {
        last_tick = record h.last_tick { timestamp = now.steady; wall_clock = now.system };
        previous_refresh = some now.steady;
      } in
      let b = sample_all (start_batch h now) now seconds infos in
      Keeps-trans k h b.history (record_aggregate b.history now b.totals)
        (Keeps-trans k h (start_batch h now).history b.history
          (Keeps-trans k h started (start_batch h now).history
            (record { rates = refl; names = refl; baseline = refl; series = refl })
            (Keeps-series_or_create k started all_identity _ true apart))
          (Keeps-sample_all k (start_batch h now) now seconds infos e))
        (Keeps-record_aggregate k b.history now b.totals apart)

  Keeps-finish :
      (k : Text) (h g : NetworkTrafficHistory F) (present : List Text)
      → Keeps k h g
      → (find k (prune_history g present).last_tick.rates ≡ find k h.last_tick.rates)
        × (find k (prune_history g present).last_tick.names ≡ find k h.last_tick.names)
        × (find k h.series ≡ none → find k (prune_history g present).baselines ≡ find k h.baselines)
  unfolding prune_history
  Keeps-finish k h g present p =
      let keys = vanished g.series present in
      (
        ap (λ t. find k t.rates) (last_tick-prune_all g keys) ∙ p.rates,
        ap (λ t. find k t.names) (last_tick-prune_all g keys) ∙ p.names,
        λ e.
            (Keeps-prune_all k g keys (vanished-find k g.series present (p.series ∙ e))).baseline
            ∙ p.baseline,
      )

  -- An identity other than "all" that `record` does not sample, because no interface has it or its interface reports no traffic, keeps in the last tick the rates and the name that it had; and if it has no series, it keeps its baseline.
  pub record_snapshot_absent :
      (k : Text) (h : NetworkTrafficHistory F) (now : Clocks) (snapshot : NetworkInterfaceSnapshot)
      → k ≢ all_identity
      → All (NotSampledAs k) snapshot.interfaces
      → let after = record_snapshot h now snapshot in
        (find k after.last_tick.rates ≡ find k h.last_tick.rates)
        × (find k after.last_tick.names ≡ find k h.last_tick.names)
        × (find k h.series ≡ none → find k after.baselines ≡ find k h.baselines)
  unfolding record_snapshot finish_batch
  record_snapshot_absent k h now snapshot other e =
      let b =
        sample_all (start_batch h now) now (window h.previous_refresh now.steady)
          snapshot.interfaces in
      if_cases
        (λ after.
          (find k after.last_tick.rates ≡ find k h.last_tick.rates)
          × (find k after.last_tick.names ≡ find k h.last_tick.names)
          × (find k h.series ≡ none → find k after.baselines ≡ find k h.baselines))
        h.history_paused h (prune_history (record_aggregate b.history now b.totals) b.present)
        (λ q. (refl, refl, λ n. refl))
        (λ q.
          Keeps-finish k h _ b.present
            (Keeps-loop k h now (window h.previous_refresh now.steady) snapshot.interfaces other e))
