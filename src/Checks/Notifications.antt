-- ===== src/Checks/Notifications.antt =====
-- The notification manager on concrete events.
use arch_task_manager.Base.{◌≡◌, refl, false, true, codes, [], ◌∷◌, arith, find}
use arch_task_manager.Alert.Types.{AlertEvent, cpu_usage, critical}
use arch_task_manager.Notification.{
  NotificationManager, delivered, unbuilt, notify, notify_all, should_notify, in_cooldown,
}
use arch_task_manager.Notification.Delivery.{notify_all_without_bus, notify-notify}
use arch_task_manager.Checks.Reading.{Reading, num}

abbrev manager : NotificationManager
manager = record {
  settings = record {
    enabled = true;
    notify_on_warning = false;
    notify_on_critical = true;
    notify_on_recovery = false;
    timeout_ms = 10000;
    cooldown = 60;
  };
  connected = true;
  has_bus = true;
  last_sent = [];
  ids = [];
  calls = [];
}

abbrev overload : AlertEvent Reading
overload = record {
  type = cpu_usage;
  severity = critical;
  source = codes "system";
  message = codes "CPU 96%";
  value = num 96;
  threshold = num 95;
  is_recovery = false;
  timestamp = 1;
}

abbrev dropped : NotificationManager
dropped = record manager { connected = false; has_bus = false }

notify_all_without_bus_example :
    notify_all dropped ((1, 1, overload, delivered 5) ∷ (99, 100, overload, delivered 6) ∷ [])
    ≡ dropped
notify_all_without_bus_example =
    notify_all_without_bus dropped
      ((1, 1, overload, delivered 5) ∷ (99, 100, overload, delivered 6) ∷ []) refl

notify-notify_example :
    notify (notify manager 99 100 overload (delivered 5)) 130 131 overload unbuilt
    ≡ notify manager 99 100 overload (delivered 5)
unfolding should_notify in_cooldown find
notify-notify_example =
    notify-notify manager 99 100 130 131 overload overload 5 unbuilt refl refl refl refl
      (omega arith)
