-- ===== src/Settings.antt =====
-- The settings model (include/settings.hpp) and its defaults (src/settings.cpp).
use arch_task_manager.Base.{ℕ, Bool, true, false, Text, codes, List, []}
use arch_task_manager.Base.Int.{ℤ, pos}
use arch_task_manager.Base.Double.{Double}
use arch_task_manager.Network.TrafficAlert.{NetworkTrafficAlertRule}
pub mod Checking
pub mod Fixing
pub mod Fixed
pub mod Rules

pub record GeneralSettings : Type 0 where
  pub refresh_interval_ms : ℤ
  pub default_page : Text
  pub autostart_enabled : Bool

pub record HistorySettings : Type 0 where
  pub sample_interval_ms : ℤ
  pub history_duration_seconds : ℤ
  pub max_samples : ℤ

pub record AlertCategorySettings (F : Type 0) : Type 0 where
  pub enabled : Bool
  pub warning : F
  pub critical : F

pub record AlertSettings (F : Type 0) : Type 0 where
  pub cpu : AlertCategorySettings F
  pub memory : AlertCategorySettings F
  pub swap : AlertCategorySettings F
  pub disk : AlertCategorySettings F
  pub temperature : AlertCategorySettings F
  pub recovery_hysteresis : ℤ
  pub network_rules : List (NetworkTrafficAlertRule F)

pub record NotificationSettings : Type 0 where
  pub enabled : Bool
  pub warning_notifications : Bool
  pub critical_notifications : Bool
  pub recovery_notifications : Bool
  pub cooldown_seconds : ℤ
  pub timeout_ms : ℤ

pub record PackageSettings : Type 0 where
  pub check_for_updates : Bool

pub record AppSettings (F : Type 0) : Type 0 where
  pub config_version : ℤ
  pub general : GeneralSettings
  pub history : HistorySettings
  pub alerts : AlertSettings F
  pub notifications : NotificationSettings
  pub packages : PackageSettings

-- The limits of the settings.
abbrev pub current_config_version : ℕ
current_config_version = 1

abbrev pub min_refresh_interval_ms : ℕ
min_refresh_interval_ms = 100

abbrev pub max_refresh_interval_ms : ℕ
max_refresh_interval_ms = 10000

abbrev pub min_sample_interval_ms : ℕ
min_sample_interval_ms = 100

abbrev pub max_sample_interval_ms : ℕ
max_sample_interval_ms = 10000

abbrev pub min_history_duration_seconds : ℕ
min_history_duration_seconds = 10

abbrev pub max_history_duration_seconds : ℕ
max_history_duration_seconds = 3600

abbrev pub min_history_samples : ℕ
min_history_samples = 10

abbrev pub max_history_samples : ℕ
max_history_samples = 3600

abbrev pub min_cooldown_seconds : ℕ
min_cooldown_seconds = 0

abbrev pub max_cooldown_seconds : ℕ
max_cooldown_seconds = 3600

abbrev pub min_notification_timeout_ms : ℕ
min_notification_timeout_ms = 1000

abbrev pub max_notification_timeout_ms : ℕ
max_notification_timeout_ms = 60000

abbrev pub min_recovery_hysteresis : ℕ
min_recovery_hysteresis = 0

abbrev pub max_recovery_hysteresis : ℕ
max_recovery_hysteresis = 50

abbrev pub max_percent_threshold : ℕ
max_percent_threshold = 100

abbrev pub max_temperature_warning : ℕ
max_temperature_warning = 120

abbrev pub max_temperature_critical : ℕ
max_temperature_critical = 150

module _ {F : Type 0} ⦃d : Double F⦄ where
  -- A category with whole thresholds.
  pub category : ℕ → ℕ → AlertCategorySettings F
  category warning critical = record {
    enabled = true;
    warning = d.of_nat warning;
    critical = d.of_nat critical;
  }

  -- `AppSettings::defaults`.
  unfoldable pub defaults : AppSettings F
  defaults = record {
    config_version = pos current_config_version;
    general = record {
      refresh_interval_ms = pos 1000;
      default_page = codes "list";
      autostart_enabled = false;
    };
    history = record {
      sample_interval_ms = pos 1000;
      history_duration_seconds = pos 120;
      max_samples = pos 120;
    };
    alerts = record {
      cpu = category 80 95;
      memory = category 80 95;
      swap = category 70 90;
      disk = category 85 95;
      temperature = category 75 90;
      recovery_hysteresis = pos 5;
      network_rules = [];
    };
    notifications = record {
      enabled = false;
      warning_notifications = false;
      critical_notifications = true;
      recovery_notifications = false;
      cooldown_seconds = pos 60;
      timeout_ms = pos 10000;
    };
    packages = record { check_for_updates = true };
  }
