-- ===== src/Checks/Histories.antt =====
-- The traffic history on concrete counters.
use arch_task_manager.Base.{
  ℕ, ◌≡◌, refl, true, false, none, some, codes, List, [], ◌∷◌, find, text_equality, text_beq,
  if◌then◌else◌, inl, ◌↔◌, ◌≢◌,
}
use arch_task_manager.Base.Int.{ℤ}
use arch_task_manager.Network.Interface.{NetworkInterfaceInfo, NetworkInterfaceSnapshot, ethernet}
use arch_task_manager.Network.TrafficAlert.Monitor.{NetworkTrafficRates, Clocks}
use arch_task_manager.Network.TrafficAlert.Rounds.{evaluate_rule}
use arch_task_manager.Network.TrafficHistory.{
  NetworkTrafficCounters, no_rates, derive_traffic_rates, synthesize_aggregate_counters,
  all_identity,
}
use arch_task_manager.Network.TrafficHistory.Series.{NetworkTrafficHistory, new_history, new_series}
use arch_task_manager.Network.TrafficHistory.Recording.{record_snapshot}
use arch_task_manager.Network.TrafficHistory.Pruning.{prune_history}
use arch_task_manager.Network.TrafficHistory.Totals.{no_totals, byte_total}
use arch_task_manager.Network.TrafficHistory.Selection.{last_tick_of}
use arch_task_manager.Network.TrafficHistory.Rates.{
  IsWindow, IsQuotient, received_bytes, rate, counter, rate-derive_traffic_rates,
}
use arch_task_manager.Network.TrafficHistory.Sums.{SumsTo, counter-synthesize_aggregate_counters}
use arch_task_manager.Network.TrafficHistory.Stale.{record_snapshot_absent}
use arch_task_manager.Network.TrafficAlert.Statuses.{Adds}
use arch_task_manager.Network.TrafficHistory.Repeated.{evaluate_rule-record_snapshot}
use arch_task_manager.Network.TrafficHistory.Bounded.{
  Call, sample, limit, pause, run, IsWell, run-new_history-IsWell,
}
use arch_task_manager.Network.TrafficHistory.Aggregate.{add_interfaces, byte_total-add_interfaces}
use arch_task_manager.Network.TrafficHistory.Pruned.{is_vanished, prune_history_lem}
use arch_task_manager.Checks.Reading.{Reading, num, reading_double}
use arch_task_manager.Checks.Traffic.{download, monitor}

abbrev counters : ℕ → NetworkTrafficCounters
counters bytes = record {
  identity = codes "idx:2";
  name = codes "eth0";
  rx_bytes = some bytes;
  tx_bytes = some 7;
  rx_packets = none;
  tx_packets = none;
  rx_errors = none;
  tx_errors = none;
  rx_dropped = none;
  tx_dropped = none;
}

rate-derive_traffic_rates_example :
    (rate (derive_traffic_rates (counters 100) (counters 300) (num 2)) received_bytes
      ≡ some (num 100))
    ↔ (IsWindow (counters 100) (counters 300) (num 2)
        × IsQuotient
            (counter (counters 100) received_bytes)
            (counter (counters 300) received_bytes)
            (num 2)
            (num 100))
rate-derive_traffic_rates_example =
    rate-derive_traffic_rates (counters 100) (counters 300) (num 2) received_bytes (num 100)

counter-synthesize_aggregate_counters_example :
    (counter
        (synthesize_aggregate_counters (counters 100 ∷ counters 300 ∷ []) (codes "All interfaces"))
        received_bytes
      ≡ some 400)
    ↔ (((counters 100 ∷ counters 300 ∷ []) ≢ [])
        × SumsTo (λ c. counter c received_bytes) 0 (counters 100 ∷ counters 300 ∷ []) 400)
counter-synthesize_aggregate_counters_example =
    counter-synthesize_aggregate_counters (counters 100 ∷ counters 300 ∷ [])
      (codes "All interfaces") received_bytes 400

byte_total-add_interfaces_example :
    let t = add_interfaces (no_totals {F = Reading}) ((counters 100, no_rates) ∷ []) in
    let aggregate = synthesize_aggregate_counters (counters 100 ∷ []) (codes "All interfaces") in
    (byte_total t.rx ≡ aggregate.rx_bytes) × (byte_total t.tx ≡ aggregate.tx_bytes)
byte_total-add_interfaces_example =
    byte_total-add_interfaces (counters 100, no_rates) [] (codes "All interfaces")

-- An interface whose counters are not readable any more.
abbrev silent : NetworkInterfaceInfo
silent = record {
  name = codes "eth0";
  type = ethernet;
  traffic = none;
  link = record {
    ifindex = some (ℤ.pos 2);
    operstate = none;
    carrier = none;
    speed_mbps = none;
    duplex = none;
    flags = none;
    admin_up = true;
  };
}

abbrev counting : NetworkInterfaceInfo
counting = record silent {
  traffic = some (record {
    name = codes "eth0";
    rx_bytes = 100;
    tx_bytes = 7;
    rx_packets = 0;
    tx_packets = 0;
    rx_errors = 0;
    tx_errors = 0;
    rx_dropped = 0;
    tx_dropped = 0;
    rx_bytes_per_second = 0;
    tx_bytes_per_second = 0;
    state = codes "up";
    loopback = false;
  });
}

abbrev at : ℕ → Clocks
at time = record { steady = time; system = time }

abbrev fast : NetworkTrafficRates Reading
fast = record no_rates { rx_bytes_per_second = some (num 120) }

abbrev recorded : NetworkTrafficHistory Reading
recorded = record new_history {
  last_tick = record {
    timestamp = 1;
    wall_clock = 1;
    rates = (codes "idx:2", fast) ∷ [];
    names = (codes "idx:2", codes "eth0") ∷ [];
  };
}

not_all : codes "idx:2" ≢ all_identity
not_all e = cc

abbrev gone : NetworkInterfaceSnapshot
gone = record { interfaces = silent ∷ []; refreshed_at = 2 }

record_snapshot_absent_example :
    let after = record_snapshot recorded (at 2) gone in
    (find (codes "idx:2") after.last_tick.rates ≡ find (codes "idx:2") recorded.last_tick.rates)
    × (find (codes "idx:2") after.last_tick.names ≡ find (codes "idx:2") recorded.last_tick.names)
    × (find (codes "idx:2") recorded.series ≡ none
        → find (codes "idx:2") after.baselines ≡ find (codes "idx:2") recorded.baselines)
record_snapshot_absent_example =
    record_snapshot_absent (codes "idx:2") recorded (at 2) gone not_all ((inl refl), tt)

evaluate_rule-record_snapshot_example :
    let m =
      evaluate_rule monitor
        (at 3)
        (last_tick_of (record_snapshot recorded (at 2) gone))
        0
        download in
    (m ≡ evaluate_rule monitor (at 3) (last_tick_of recorded) 0 download)
    × Adds monitor 0 download false m
unfolding find new_history text_beq
evaluate_rule-record_snapshot_example =
    evaluate_rule-record_snapshot recorded (at 2) gone monitor (at 3) 0 download fast (codes "eth0")
      not_all (inl refl, tt) refl refl

abbrev calls : List Call
calls =
    sample (at 1) (record { interfaces = counting ∷ []; refreshed_at = 1 })
    ∷ pause true
    ∷ limit 0
    ∷ []

run-new_history-IsWell_example : IsWell (run (new_history {F = Reading}) calls)
run-new_history-IsWell_example = run-new_history-IsWell calls

abbrev one_series : NetworkTrafficHistory Reading
one_series = record new_history {
  series = (codes "idx:2", new_series (codes "idx:2") (codes "eth0") false 120) ∷ [];
  selection_order = codes "idx:2" ∷ [];
  baselines = (codes "idx:2", counters 100) ∷ [];
}

prune_history_lem_example :
    let after = prune_history one_series (codes "idx:3" ∷ []) in
    let gone =
      is_vanished (codes "idx:3" ∷ []) (codes "idx:2") (find (codes "idx:2") one_series.series) in
    (find (codes "idx:2") after.series
      ≡ (if gone then none else find (codes "idx:2") one_series.series))
    × (find (codes "idx:2") after.baselines
        ≡ (if gone then none else find (codes "idx:2") one_series.baselines))
unfolding find
prune_history_lem_example =
    prune_history_lem one_series (codes "idx:3" ∷ []) (codes "idx:2") (refl, tt)
