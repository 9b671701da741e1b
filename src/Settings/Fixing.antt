-- ===== src/Settings/Fixing.antt =====
-- `AppSettings::clampAndFix` (src/settings.cpp): the repaired settings and the corrections.
use arch_task_manager.Base.{
  ℕ, ◌+◌, true, false, not, ◌||◌, Text, codes, List, [], ◌∷◌, ◌++◌, if◌then◌else◌, ◌==◌,
  text_equality, map, any, ◌≡◌, Bool-cases, inl, inr,
}
use arch_task_manager.Base.Int.{ℤ, pos, int_ltb}
use arch_task_manager.Base.Decimal.{to_string}
use arch_task_manager.Base.Double.{Double}
use arch_task_manager.Network.TrafficAlert.{NetworkTrafficAlertRule}
use arch_task_manager.Network.TrafficAlert.Monitor.{state_key}
use arch_task_manager.Network.TrafficAlert.Validation.{clamp}
use arch_task_manager.Settings.{
  AlertCategorySettings, AppSettings, category, min_refresh_interval_ms, max_refresh_interval_ms,
  min_sample_interval_ms, max_sample_interval_ms, min_history_duration_seconds,
  max_history_duration_seconds, min_history_samples, max_history_samples, min_cooldown_seconds,
  max_cooldown_seconds, min_notification_timeout_ms, max_notification_timeout_ms,
  min_recovery_hysteresis, max_recovery_hysteresis, max_percent_threshold, max_temperature_warning,
  max_temperature_critical,
}
use arch_task_manager.Settings.Checking.{note_if, out_of_range, beyond, is_page}

-- `clampInt`.
unfoldable pub clamp_int : ℤ → ℕ → ℕ → ℤ
clamp_int value lo hi =
    if int_ltb value (pos lo) then pos lo else if int_ltb (pos hi) value then pos hi else value

-- `clampIntField`; the value and the note.
abbrev pub adjusted : ℤ → ℕ → ℕ → Text → List Text
adjusted value lo hi name =
    note_if (out_of_range value lo hi) (codes "adjusted out-of-range setting: " ++ name)

unfoldable pub fix_page : Text → Text
fix_page page = if is_page page then page else codes "list"

-- The notes of the repair of a rule.
pub rule_notes : ℕ → List Text → List Text
rule_notes i problems =
    map (λ p. codes "alerts.network_rule." ++ (to_string i ++ (codes ": " ++ p))) problems

module _ {F : Type 0} ⦃d : Double F⦄ where
  -- `clampDouble`.
  unfoldable pub clamp_double : F → ℕ → ℕ → F
  clamp_double value lo hi =
      if d.lt value (d.of_nat lo)
      then d.of_nat lo
      else if d.lt (d.of_nat hi) value
      then d.of_nat hi
      else value

  -- The category within its limits.
  unfoldable pub clamp_category : AlertCategorySettings F → ℕ → ℕ → AlertCategorySettings F
  clamp_category cat warn_max crit_max = record cat {
    warning = clamp_double cat.warning 0 warn_max;
    critical = clamp_double cat.critical 0 crit_max;
  }

  -- `fixCategory`.
  unfoldable pub fix_category :
      AlertCategorySettings F
      → Text
      → ℕ
      → ℕ
      → AlertCategorySettings F
      → AlertCategorySettings F × List Text
  fix_category cat name warn_max crit_max fallback =
      let clamped = clamp_category cat warn_max crit_max in
      if d.le clamped.critical clamped.warning
      then (fallback, (codes "invalid threshold relationship reset to defaults: " ++ name) ∷ [])
      else (
        clamped,
        note_if (beyond cat.warning warn_max || beyond cat.critical crit_max)
            (codes "adjusted out-of-range setting: " ++ name),
      )

  -- The loop over the rules: `i` is the index, `seen` the keys of the rules that were kept.
  unfoldable pub fix_rules :
      ℕ
      → List Text
      → List (NetworkTrafficAlertRule F)
      → List (NetworkTrafficAlertRule F) × List Text
  fix_rules i seen [] = ([], [])
  fix_rules i seen (rule ∷ rest) =
      let fixed = clamp rule in
      let notes = rule_notes i fixed.1.problems in
      let key = state_key fixed.0 in
      let others = fix_rules (i + 1) seen rest in
      let more = fix_rules (i + 1) (key ∷ seen) rest in
      if not fixed.1.valid
      then (others.0, notes ++ ((codes "dropping invalid network rule " ++ to_string i) ∷ others.1))
      else if any (λ k. k == key) seen
      then (
        others.0,
        notes ++ ((codes "dropping duplicate network rule " ++ to_string i) ∷ others.1),
      )
      else (fixed.0 ∷ more.0, notes ++ more.1)

  -- What becomes of one rule: it is dropped, or it is valid, has a new key, and is kept.
  pub fix_rules_cases {ℓ} :
      (P : List (NetworkTrafficAlertRule F) → Type ℓ) (i : ℕ) (seen : List Text)
      (rule : NetworkTrafficAlertRule F) (rest : List (NetworkTrafficAlertRule F))
      → P (fix_rules (i + 1) seen rest).0
      → ((clamp rule).1.valid ≡ true
          → any (λ k. k == state_key (clamp rule).0) seen ≡ false
          → P ((clamp rule).0 ∷ (fix_rules (i + 1) (state_key (clamp rule).0 ∷ seen) rest).0))
      → P (fix_rules i seen (rule ∷ rest)).0
  unfolding fix_rules
  fix_rules_cases P i seen rule rest dropped kept = elim (Bool-cases (clamp rule).1.valid) [
    | inr e ↦ rw e dropped
    | inl e ↦ elim (Bool-cases (any (λ k. k == state_key (clamp rule).0) seen)) [
      | inl q ↦ rw (e, q) dropped
      | inr q ↦ rw (e, q) (kept e q)
    ]
  ]

  -- The categories and the rules.
  unfoldable pub fix_cpu : AppSettings F → AlertCategorySettings F × List Text
  fix_cpu s =
      fix_category s.alerts.cpu (codes "alerts.cpu") max_percent_threshold max_percent_threshold
        (category 80 95)

  unfoldable pub fix_memory : AppSettings F → AlertCategorySettings F × List Text
  fix_memory s =
      fix_category s.alerts.memory (codes "alerts.memory") max_percent_threshold
        max_percent_threshold (category 80 95)

  unfoldable pub fix_swap : AppSettings F → AlertCategorySettings F × List Text
  fix_swap s =
      fix_category s.alerts.swap (codes "alerts.swap") max_percent_threshold max_percent_threshold
        (category 70 90)

  unfoldable pub fix_disk : AppSettings F → AlertCategorySettings F × List Text
  fix_disk s =
      fix_category s.alerts.disk (codes "alerts.disk") max_percent_threshold max_percent_threshold
        (category 85 95)

  unfoldable pub fix_temperature : AppSettings F → AlertCategorySettings F × List Text
  fix_temperature s =
      fix_category s.alerts.temperature (codes "alerts.temperature") max_temperature_warning
        max_temperature_critical (category 75 90)

  -- The repaired settings.
  unfoldable pub fixed_settings : AppSettings F → AppSettings F
  fixed_settings s = record s {
    general = record s.general {
      refresh_interval_ms =
          clamp_int s.general.refresh_interval_ms min_refresh_interval_ms max_refresh_interval_ms;
      default_page = fix_page s.general.default_page;
    };
    history = record {
      sample_interval_ms =
          clamp_int s.history.sample_interval_ms min_sample_interval_ms max_sample_interval_ms;
      history_duration_seconds =
          clamp_int s.history.history_duration_seconds min_history_duration_seconds
            max_history_duration_seconds;
      max_samples = clamp_int s.history.max_samples min_history_samples max_history_samples;
    };
    alerts = record {
      cpu = (fix_cpu s).0;
      memory = (fix_memory s).0;
      swap = (fix_swap s).0;
      disk = (fix_disk s).0;
      temperature = (fix_temperature s).0;
      recovery_hysteresis =
          clamp_int s.alerts.recovery_hysteresis min_recovery_hysteresis max_recovery_hysteresis;
      network_rules = (fix_rules 0 [] s.alerts.network_rules).0;
    };
    notifications = record s.notifications {
      cooldown_seconds =
          clamp_int s.notifications.cooldown_seconds min_cooldown_seconds max_cooldown_seconds;
      timeout_ms =
          clamp_int s.notifications.timeout_ms min_notification_timeout_ms
            max_notification_timeout_ms;
    };
  }

  -- The corrections from the categories on.
  pub alert_corrections : AppSettings F → List Text
  alert_corrections s =
      (fix_cpu s).1
      ++ ((fix_memory s).1
          ++ ((fix_swap s).1
              ++ ((fix_disk s).1
                  ++ ((fix_temperature s).1
                      ++ ((fix_rules 0 [] s.alerts.network_rules).1
                          ++ (adjusted s.notifications.cooldown_seconds min_cooldown_seconds
                                max_cooldown_seconds (codes "notifications.cooldown_seconds")
                              ++ adjusted s.notifications.timeout_ms min_notification_timeout_ms
                                  max_notification_timeout_ms
                                  (codes "notifications.timeout_ms")))))))

  -- The corrections, in their order.
  pub corrections : AppSettings F → List Text
  corrections s =
      adjusted s.general.refresh_interval_ms min_refresh_interval_ms max_refresh_interval_ms
        (codes "general.refresh_interval_ms")
      ++ (note_if (not (is_page s.general.default_page))
            (codes "adjusted setting: general.default_page")
          ++ (adjusted s.history.sample_interval_ms min_sample_interval_ms max_sample_interval_ms
                (codes "history.sample_interval_ms")
              ++ (adjusted s.history.history_duration_seconds min_history_duration_seconds
                    max_history_duration_seconds (codes "history.history_duration_seconds")
                  ++ (adjusted s.history.max_samples min_history_samples max_history_samples
                        (codes "history.max_samples")
                      ++ (adjusted s.alerts.recovery_hysteresis min_recovery_hysteresis
                            max_recovery_hysteresis (codes "alerts.recovery_hysteresis")
                          ++ alert_corrections s)))))

  -- `AppSettings::clampAndFix`.
  unfoldable pub clamp_and_fix : AppSettings F → AppSettings F × List Text
  clamp_and_fix s = (fixed_settings s, corrections s)
