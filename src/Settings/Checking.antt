-- ===== src/Settings/Checking.antt =====
-- `AppSettings::validate` (src/settings.cpp).
use arch_task_manager.Base.{
  ℕ, ◌+◌, Bool, not, ◌||◌, Text, codes, List, [], ◌∷◌, ◌++◌, if◌then◌else◌, ◌==◌, text_equality,
  map,
}
use arch_task_manager.Base.Int.{ℤ, pos, int_ltb, int_equality, int_text}
use arch_task_manager.Base.Decimal.{to_string}
use arch_task_manager.Base.Double.{Double}
use arch_task_manager.Network.TrafficAlert.{NetworkTrafficAlertRule}
use arch_task_manager.Network.TrafficAlert.Validation.{NetworkTrafficAlertValidation, validate}
use arch_task_manager.Settings.{
  AlertCategorySettings, AppSettings, current_config_version, min_refresh_interval_ms,
  max_refresh_interval_ms, min_sample_interval_ms, max_sample_interval_ms,
  min_history_duration_seconds, max_history_duration_seconds, min_history_samples,
  max_history_samples, min_cooldown_seconds, max_cooldown_seconds, min_notification_timeout_ms,
  max_notification_timeout_ms, min_recovery_hysteresis, max_recovery_hysteresis,
  max_percent_threshold, max_temperature_warning, max_temperature_critical,
}

-- One problem, where there is one.
abbrev pub note_if : Bool → Text → List Text
note_if bad problem = if bad then problem ∷ [] else []

-- `value < lo || value > hi`.
abbrev pub out_of_range : ℤ → ℕ → ℕ → Bool
out_of_range value lo hi = int_ltb value (pos lo) || int_ltb (pos hi) value

-- The local `range`.
unfoldable pub range : Text → ℤ → ℕ → ℕ → List Text
range name value lo hi = note_if (out_of_range value lo hi) (
    name
    ++ (codes " out of range [" ++ (to_string lo ++ (codes "-" ++ (to_string hi ++ codes "]")))))

unfoldable pub is_page : Text → Bool
is_page page = page == codes "list" || page == codes "tree"

-- The problems of one rule, as they are reported.
unfoldable pub report : ℕ → NetworkTrafficAlertValidation → List Text
report i result =
    if not result.valid
    then map (λ p. codes "alerts.network_rule." ++ (to_string i ++ (codes ": " ++ p)))
        result.problems
    else []

module _ {F : Type 0} ⦃d : Double F⦄ where
  -- `value < 0.0 || value > max`.
  abbrev pub beyond : F → ℕ → Bool
  beyond value max = d.lt value (d.of_nat 0) || d.lt (d.of_nat max) value

  -- The local `category`.
  unfoldable pub check_category : Text → AlertCategorySettings F → ℕ → ℕ → List Text
  check_category name cat warn_max crit_max =
      note_if (beyond cat.warning warn_max) (name ++ codes ".warning out of range")
      ++ (note_if (beyond cat.critical crit_max) (name ++ codes ".critical out of range")
          ++ note_if (d.le cat.critical cat.warning)
              (name ++ codes ": warning must be lower than critical"))

  unfoldable pub check_rules : ℕ → List (NetworkTrafficAlertRule F) → List Text
  check_rules i [] = []
  check_rules i (rule ∷ rest) = report i (validate rule) ++ check_rules (i + 1) rest

  -- The checks from the categories on.
  unfoldable pub check_alerts : AppSettings F → List Text
  check_alerts s =
      check_category (codes "alerts.cpu") s.alerts.cpu max_percent_threshold max_percent_threshold
      ++ (check_category (codes "alerts.memory") s.alerts.memory max_percent_threshold
            max_percent_threshold
          ++ (check_category (codes "alerts.swap") s.alerts.swap max_percent_threshold
                max_percent_threshold
              ++ (check_category (codes "alerts.disk") s.alerts.disk max_percent_threshold
                    max_percent_threshold
                  ++ (check_category (codes "alerts.temperature") s.alerts.temperature
                        max_temperature_warning max_temperature_critical
                      ++ check_rules 0 s.alerts.network_rules))))

  unfoldable pub check_notifications : AppSettings F → List Text
  check_notifications s =
      range (codes "notifications.cooldown_seconds") s.notifications.cooldown_seconds
        min_cooldown_seconds max_cooldown_seconds
      ++ range (codes "notifications.timeout_ms") s.notifications.timeout_ms
          min_notification_timeout_ms max_notification_timeout_ms

  unfoldable pub check_history : AppSettings F → List Text
  check_history s =
      range (codes "history.sample_interval_ms") s.history.sample_interval_ms min_sample_interval_ms
        max_sample_interval_ms
      ++ (range (codes "history.history_duration_seconds") s.history.history_duration_seconds
            min_history_duration_seconds max_history_duration_seconds
          ++ (range (codes "history.max_samples") s.history.max_samples min_history_samples
                max_history_samples
              ++ range (codes "alerts.recovery_hysteresis") s.alerts.recovery_hysteresis
                  min_recovery_hysteresis max_recovery_hysteresis))

  unfoldable pub check_general : AppSettings F → List Text
  check_general s =
      note_if (not (s.config_version == pos current_config_version)) (
        codes "config_version is "
        ++ (int_text s.config_version ++ (codes ", expected " ++ to_string current_config_version)))
      ++ (range (codes "general.refresh_interval_ms") s.general.refresh_interval_ms
            min_refresh_interval_ms max_refresh_interval_ms
          ++ note_if (not (is_page s.general.default_page))
              (codes "general.default_page must be 'list' or 'tree'"))

  -- `AppSettings::validate`: the problems.
  unfoldable pub validate_settings : AppSettings F → List Text
  validate_settings s =
      check_general s ++ (check_history s ++ (check_alerts s ++ check_notifications s))
