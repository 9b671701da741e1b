-- ===== src/Network/TrafficHistory/Bounded.antt =====
-- What holds of every `NetworkTrafficHistory` that calls can produce
-- (src/network_traffic_history.cpp).
use arch_task_manager.Base.{
  ℕ, ◌≤◌, ◌<◌, ◌≡◌, refl, ap, Bool, true, false, Option, none, some, Text, List, [], ◌∷◌, arith,
  if_cases, if◌then◌else◌, ◌==◌, text_equality, beq_refl, find, All, has, is_some, eqb, filter,
}
use arch_task_manager.Base.Double.{Double}
use arch_task_manager.History.{History, add_sample, max_samples-add_sample, add_sample-bounded}
use arch_task_manager.Network.Interface.{
  NetworkInterfaceStats, NetworkInterfaceInfo, NetworkInterfaceSnapshot, identity,
}
use arch_task_manager.Network.TrafficAlert.Monitor.{NetworkTrafficRates, Clocks}
use arch_task_manager.Network.TrafficHistory.{NetworkTrafficCounters, all_identity}
use arch_task_manager.Network.TrafficHistory.Series.{
  TimedSample, Rings, NetworkTrafficSeries, NetworkTrafficHistory, series_or_create_cases,
  series_or_create, new_history, append_rate, append_level, append_all, count_interfaces,
}
use arch_task_manager.Network.TrafficHistory.Totals.{Totals}
use arch_task_manager.Network.TrafficHistory.Pruning.{
  prune_history, set_history_max_samples, set_history_paused, clear_history,
}
use arch_task_manager.Network.TrafficHistory.Recording.{
  Batch, append_samples, record_series, record_interface, sample_interface, sample_traffic,
  sample_all, append_aggregate, record_aggregate, start_batch, finish_batch, record_snapshot,
}
use arch_task_manager.Network.TrafficHistory.Selection.{selectable_identities}
use arch_task_manager.Network.TrafficHistory.Valid.{
  count, tracked, Fits, RingsFit, IsValid, IsValid-modify, IsValid-create, IsValid-prune_all,
  IsValid-reset_rings,
}

-- The calls of the public interface that change the history.
pub data Call : Type 0 where
  sample : Clocks → NetworkInterfaceSnapshot → Call
  limit : ℕ → Call
  pause : Bool → Call
  clear : Call

Fits-add_sample :
    {A : Type 0} (n : ℕ) (ring : History A) (x : A)
    → 0 < n
    → Fits n ring
    → Fits n (add_sample ring x)
Fits-add_sample n ring x p f =
    ground (arith, max_samples-add_sample ring x, add_sample-bounded ring x)

-- What holds of all that is counted holds of all elements.
All-counted :
    (P : Text → Type 0) (order : List Text) → ((k : Text) → 1 ≤ count k order → P k) → All P order
unfolding count
All-counted P [] h = tt
All-counted P (j ∷ order) h =
    (h j (ground (arith, beq_refl j)), All-counted P order (λ k c. h k (omega arith)))

filter_id :
    (p : Text → Bool) (order : List Text) → All (λ i. p i ≡ true) order → filter p order ≡ order
filter_id p [] h = refl
filter_id p (j ∷ order) h = simp (h.0, filter_id p order h.1)

module _ {F : Type 0} where
  has-tracked : (o : Option (NetworkTrafficSeries F)) → 1 ≤ tracked o → is_some o ≡ true
  unfolding tracked
  has-tracked none h = absurd (omega arith)
  has-tracked (some s) h = refl

  IsValid-empty : (n : ℕ) → 0 < n → IsValid {F = F} n [] []
  unfolding count tracked find count_interfaces
  IsValid-empty n p = record {
    positive = p;
    fit = tt;
    distinct = tt;
    bounded = omega arith;
    listed = λ k. refl;
  }

  abbrev pub IsWell : NetworkTrafficHistory F → Type 0
  IsWell h = IsValid h.max_samples h.selection_order h.series

  IsWell-series_or_create :
      (h : NetworkTrafficHistory F) (identity name : Text) (aggregate : Bool)
      → IsWell h
      → IsWell (series_or_create h identity name aggregate).0
  IsWell-series_or_create h identity name aggregate v =
      series_or_create_cases (λ p. IsWell p.0) h identity name aggregate
        (λ e.
          IsValid-modify h.max_samples h.selection_order h.series identity _ (λ s. refl) (λ s f. f)
            v)
        v (λ e r. IsValid-create h identity name aggregate e r v)

  Fits-append_rate :
      (n : ℕ) (ring : History (TimedSample F)) (now : ℕ) (v : Option F)
      → 0 < n
      → Fits n ring
      → Fits n (append_rate ring now v)
  unfolding append_rate
  Fits-append_rate n ring now none p f = f
  Fits-append_rate n ring now (some v) p f = Fits-add_sample n ring _ p f

module _ {F : Type 0} ⦃d : Double F⦄ where
  Fits-append_level :
      (n : ℕ) (ring : History (TimedSample F)) (now : ℕ) (v : Option ℕ)
      → 0 < n
      → Fits n ring
      → Fits n (append_level ring now v)
  unfolding append_level
  Fits-append_level n ring now none p f = f
  Fits-append_level n ring now (some v) p f = Fits-add_sample n ring _ p f

  RingsFit-append_all :
      (n : ℕ) (r : Rings F) (now : ℕ) (rates : NetworkTrafficRates F) (rx tx : Option ℕ)
      → 0 < n
      → RingsFit n r
      → RingsFit n (append_all r now rates rx tx)
  unfolding append_all
  RingsFit-append_all n r now rates rx tx p f = record {
    rx_bytes_per_second = Fits-append_rate n _ now _ p f.rx_bytes_per_second;
    tx_bytes_per_second = Fits-append_rate n _ now _ p f.tx_bytes_per_second;
    rx_packets_per_second = Fits-append_rate n _ now _ p f.rx_packets_per_second;
    tx_packets_per_second = Fits-append_rate n _ now _ p f.tx_packets_per_second;
    rx_errors_per_second = Fits-append_rate n _ now _ p f.rx_errors_per_second;
    tx_errors_per_second = Fits-append_rate n _ now _ p f.tx_errors_per_second;
    rx_dropped_per_second = Fits-append_rate n _ now _ p f.rx_dropped_per_second;
    tx_dropped_per_second = Fits-append_rate n _ now _ p f.tx_dropped_per_second;
    rx_bytes_total = Fits-append_level n _ now rx p f.rx_bytes_total;
    tx_bytes_total = Fits-append_level n _ now tx p f.tx_bytes_total;
  }

  IsWell-record_series :
      (p : NetworkTrafficHistory F × Bool) (now : Clocks) (c : NetworkTrafficCounters)
      (r : NetworkTrafficRates F)
      → IsWell p.0
      → IsWell (record_series p now c r)
  unfolding record_series append_samples
  IsWell-record_series (h, true) now c r v =
      IsValid-modify h.max_samples h.selection_order h.series c.identity _ (λ s. refl)
        (λ s f.
          RingsFit-append_all h.max_samples s.rings now.steady r c.rx_bytes c.tx_bytes v.positive f)
        v
  IsWell-record_series (h, false) now c r v = v

  IsWell-sample_traffic :
      (b : Batch F) (now : Clocks) (seconds : F) (info : NetworkInterfaceInfo)
      (traffic : Option NetworkInterfaceStats)
      → IsWell b.history
      → IsWell (sample_traffic b now seconds info traffic).history
  unfolding sample_traffic sample_interface record_interface
  IsWell-sample_traffic b now seconds info none v = v
  IsWell-sample_traffic b now seconds info (some t) v =
      if_cases (λ b'. IsWell b'.history) (identity info == []) b _ (λ e. v)
        (λ e.
          IsWell-record_series (series_or_create _ _ _ false) now _ _
            (IsWell-series_or_create _ _ _ false v))

  IsWell-sample_all :
      (b : Batch F) (now : Clocks) (seconds : F) (infos : List NetworkInterfaceInfo)
      → IsWell b.history
      → IsWell (sample_all b now seconds infos).history
  unfolding sample_all
  IsWell-sample_all b now seconds [] v = v
  IsWell-sample_all b now seconds (info ∷ rest) v =
      IsWell-sample_all (sample_traffic b now seconds info info.traffic) now seconds rest
        (IsWell-sample_traffic b now seconds info info.traffic v)

  IsWell-record_aggregate :
      (h : NetworkTrafficHistory F) (now : Clocks) (t : Totals F)
      → IsWell h
      → IsWell (record_aggregate h now t)
  unfolding record_aggregate append_aggregate append_samples
  IsWell-record_aggregate h now t v =
      IsValid-modify h.max_samples h.selection_order h.series all_identity _
        (λ s.
          if_cases {A = NetworkTrafficSeries F} (λ s'. s'.aggregate ≡ s.aggregate) t.any_member _ _
            (λ e. refl) (λ e. refl))
        (λ s f.
          if_cases {A = NetworkTrafficSeries F} (λ s'. RingsFit h.max_samples s'.rings) t.any_member
            _ _ (λ e. RingsFit-append_all h.max_samples s.rings now.steady _ _ _ v.positive f)
            (λ e. f))
        v

  pub call : NetworkTrafficHistory F → Call → NetworkTrafficHistory F
  call h (sample now snapshot) = record_snapshot h now snapshot
  call h (limit n) = set_history_max_samples h n
  call h (pause paused) = set_history_paused h paused
  call h clear = clear_history h

  unfoldable pub run : NetworkTrafficHistory F → List Call → NetworkTrafficHistory F
  run h [] = h
  run h (c ∷ calls) = run (call h c) calls

  IsWell-call : (h : NetworkTrafficHistory F) (c : Call) → IsWell h → IsWell (call h c)
  unfolding call record_snapshot finish_batch start_batch prune_history set_history_max_samples
      set_history_paused clear_history
  IsWell-call h (sample now snapshot) v =
      if_cases IsWell h.history_paused h _ (λ e. v)
        (λ e. IsValid-prune_all _ _ (
          IsWell-record_aggregate _ now _
            (IsWell-sample_all _ now _ snapshot.interfaces (IsWell-series_or_create _ _ _ true v))))
  IsWell-call h (limit n) v =
      IsValid-reset_rings h.max_samples (if eqb n 0 then 1 else n) h.selection_order h.series
        (ground arith) v
  IsWell-call h (pause paused) v = v
  IsWell-call h clear v = IsValid-empty h.max_samples v.positive

  IsWell-run : (h : NetworkTrafficHistory F) (calls : List Call) → IsWell h → IsWell (run h calls)
  unfolding run
  IsWell-run h [] v = v
  IsWell-run h (c ∷ calls) v = IsWell-run (call h c) calls (IsWell-call h c v)

  -- After any sequence of calls the traffic history has a positive bound for its buffers, every buffer of every series has that bound and is within it, no identity has two series, at most 8 series are of interfaces, and the selection order has the identities of just these series, each once.
  pub run-new_history-IsWell : (calls : List Call) → IsWell (run (new_history {F = F}) calls)
  unfolding new_history
  run-new_history-IsWell calls = IsWell-run new_history calls (IsValid-empty 120 (omega arith))

-- After any sequence of calls `selectableIdentities` is the aggregate followed by the selection order.
pub selectable_identities-run :
    (F : Type 0) ⦃d : Double F⦄ (calls : List Call)
    → let h = run (new_history {F = F}) calls in
      selectable_identities h ≡ all_identity ∷ h.selection_order
unfolding selectable_identities
selectable_identities-run F calls =
    let h = run (new_history {F = F}) calls in
    ap (λ l. all_identity ∷ l)
      (filter_id (λ i. has i h.series) h.selection_order
        (All-counted (λ i. has i h.series ≡ true) h.selection_order
          (λ k c.
            has-tracked (find k h.series)
              (omega (arith, c, (run-new_history-IsWell calls).listed k)))))
