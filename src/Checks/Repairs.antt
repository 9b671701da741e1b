-- ===== src/Checks/Repairs.antt =====
-- Repaired traffic rules and link metrics on concrete inputs.
use arch_task_manager.Base.{◌≡◌, refl, true, some, none, codes, [], ◌∷◌}
use arch_task_manager.Base.Int.{ℤ}
use arch_task_manager.Alert.Types.{normal}
use arch_task_manager.Network.Interface.{NetworkInterfaceInfo, ethernet}
use arch_task_manager.Network.TrafficAlert.{
  NetworkTrafficAlertRule, receive, events_per_second, samples,
}
use arch_task_manager.Network.TrafficAlert.Validation.{
  validate, clamp, has_bad_char, is_bad, clamp_threshold, trim, trim_start, trim_end, is_blank,
}
use arch_task_manager.Network.TrafficAlert.Repair.{IsExact, validate-clamp}
use arch_task_manager.Network.LinkMetrics.{first_record, update_metrics, update}
use arch_task_manager.Network.LinkMetrics.Retention.{IsSound, update_metrics_lem}
use arch_task_manager.Network.LinkMetrics.Sound.{AllSound, AllSound-update}
use arch_task_manager.Checks.Reading.{Reading, num, reading_double}

pub reading-IsExact : IsExact reading_double
reading-IsExact = record {
  finite = λ n h. refl;
  lt_of_nat = λ a b h k. refl;
  le_of_nat = λ a b h k. refl;
}

abbrev broken : NetworkTrafficAlertRule Reading
broken = record {
  enabled = true;
  target_identity = codes " idx:2 ";
  type = receive;
  threshold = num 100;
  unit = events_per_second;
  confirmation = samples;
  confirmation_samples = 0;
  confirmation_duration_seconds = num 0;
  notify_enabled = true;
  cooldown_seconds = 9999;
  repeat = true;
  severity = normal;
  name = codes "a|b";
}

validate-clamp_example : (validate (clamp broken).0).valid ≡ true
unfolding clamp has_bad_char is_bad clamp_threshold trim trim_start trim_end is_blank
validate-clamp_example = validate-clamp reading-IsExact broken refl refl

abbrev gigabit : NetworkInterfaceInfo
gigabit = record {
  name = codes "eth0";
  type = ethernet;
  traffic = none;
  link = record {
    ifindex = some (ℤ.pos 2);
    operstate = some (codes "up");
    carrier = some (ℤ.pos 1);
    speed_mbps = some (ℤ.pos 1000);
    duplex = some (codes "full");
    flags = none;
    admin_up = true;
  };
}

update_metrics_lem_example :
    IsSound (update_metrics (first_record (codes "idx:2") 1) gigabit true 2)
update_metrics_lem_example = (update_metrics_lem (first_record (codes "idx:2") 1) gigabit true 2).1

AllSound-update_example :
    AllSound (update [] 5 (record { interfaces = gigabit ∷ []; refreshed_at = 6 }))
AllSound-update_example =
    AllSound-update [] 5 (record { interfaces = gigabit ∷ []; refreshed_at = 6 }) tt
