-- ===== src/Checks/Traffic.antt =====
-- The traffic alert monitor on concrete rates.
use arch_task_manager.Base.{ℕ, ◌≡◌, refl, true, false, none, codes, [], ◌∷◌, arith, map, find}
use arch_task_manager.Alert.Types.{warning}
use arch_task_manager.Alert.Manager
use arch_task_manager.Network.TrafficAlert.{
  NetworkTrafficAlertRule, receive, bytes_per_second, samples,
}
use arch_task_manager.Network.TrafficAlert.Monitor.{
  TrafficAlertMonitor, create, runtime, state_key, recovery_floor,
}
use arch_task_manager.Network.TrafficAlert.Evaluate.{Measured, measure}
use arch_task_manager.Network.TrafficAlert.Rounds.{evaluate}
use arch_task_manager.Network.TrafficAlert.Transitions.{IsRound, measure_lem}
use arch_task_manager.Network.TrafficAlert.Confirmation.{measure_all, confirmed-measure_all}
use arch_task_manager.Network.TrafficAlert.Statuses.{line_of, statuses-evaluate}
use arch_task_manager.Checks.Reading.{Reading, num, reading_double, reading-IsOrdered}

abbrev pub download : NetworkTrafficAlertRule Reading
download = record {
  enabled = true;
  target_identity = codes "idx:2";
  type = receive;
  threshold = num 100;
  unit = bytes_per_second;
  confirmation = samples;
  confirmation_samples = 2;
  confirmation_duration_seconds = num 5;
  notify_enabled = true;
  cooldown_seconds = 0;
  repeat = false;
  severity = warning;
  name = [];
}

abbrev pub monitor : TrafficAlertMonitor Reading
monitor = record (create (Manager.create 10)) { rules = download ∷ [] }

abbrev rate : ℕ → ℕ → Measured Reading
rate time value = record {
  now = record { steady = time; system = time };
  position = 0;
  rule = download;
  source = codes "eth0";
  value = num value;
}

measure_lem_example :
    IsRound monitor
      (rate 1 120)
      (runtime monitor (state_key download))
      (measure monitor (rate 1 120))
measure_lem_example = measure_lem monitor (rate 1 120)

confirmed-measure_all_example :
    (runtime (measure_all monitor (rate 1 120 ∷ rate 2 100 ∷ [])) (state_key download)).confirmed
    ≡ true
unfolding create runtime recovery_floor find
confirmed-measure_all_example =
    confirmed-measure_all reading-IsOrdered download monitor (rate 1 120 ∷ rate 2 100 ∷ []) refl
      refl (omega arith) ((refl, refl), ((refl, refl), tt)) (omega arith) refl refl

statuses-evaluate_example :
    map line_of (evaluate monitor (record { steady = 1; system = 1 }) none).statuses
    ≡ ((0, download) ∷ [])
unfolding create
statuses-evaluate_example = statuses-evaluate monitor (record { steady = 1; system = 1 }) none
