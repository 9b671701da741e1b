-- ===== src/Settings/Fixed.antt =====
-- Settings that `clampAndFix` repaired pass `validate` (src/settings.cpp).
use arch_task_manager.Base.{
  ℕ, ◌+◌, ◌≤◌, ◌<◌, ◌≡◌, refl, ap, ap₂, Bool, true, false, not, ◌||◌, Text, codes, List, [], ◌∷◌,
  ◌++◌, ◌==◌, text_equality, beq_refl, arith, Bool-cases, if_cases, inl, inr, All,
}
use arch_task_manager.Base.Int.{ℤ, pos, int_ltb, int_equality}
use arch_task_manager.Base.Double.{Double}
use arch_task_manager.Network.TrafficAlert.{NetworkTrafficAlertRule}
use arch_task_manager.Network.TrafficAlert.Validation.{
  NetworkTrafficAlertValidation, validate, clamp, has_bad_char, max_threshold,
}
use arch_task_manager.Network.TrafficAlert.Monitor.{state_key}
use arch_task_manager.Network.TrafficAlert.Repair.{IsExact, validate-clamp}
use arch_task_manager.Settings.{
  AlertCategorySettings, AppSettings, category, current_config_version,
}
use arch_task_manager.Settings.Checking.{
  note_if, out_of_range, range, is_page, report, beyond, check_category, check_rules, check_alerts,
  check_notifications, check_history, check_general, validate_settings,
}
use arch_task_manager.Settings.Fixing.{
  clamp_int, fix_page, clamp_double, clamp_category, fix_category, fix_rules, fix_rules_cases,
  fix_cpu, fix_memory, fix_swap, fix_disk, fix_temperature, fixed_settings, clamp_and_fix,
}

no_problems : (a b : List Text) → a ≡ [] → b ≡ [] → a ++ b ≡ []
no_problems a b e f = ap₂ (λ x y. x ++ y) e f

no_note : (good : Bool) (problem : Text) → good ≡ true → note_if (not good) problem ≡ []
no_note good problem e = rw e refl

in_range : (value : ℤ) (lo hi : ℕ) → lo ≤ hi → out_of_range (clamp_int value lo hi) lo hi ≡ false
unfolding clamp_int
in_range value lo hi h = elim (Bool-cases (int_ltb value (pos lo))) [
  | inl p ↦ rw p (ground arith)
  | inr p ↦ elim (Bool-cases (int_ltb (pos hi) value)) [
    | inl q ↦ rw (p, q) (ground arith)
    | inr q ↦ rw (p, q) (rw (p, q) refl)
  ]
]

range-clamp_int :
    (name : Text) (value : ℤ) (lo hi : ℕ) → lo ≤ hi → range name (clamp_int value lo hi) lo hi ≡ []
unfolding range
range-clamp_int name value lo hi h = rw (in_range value lo hi h) refl

is_page-fix_page : (page : Text) → is_page (fix_page page) ≡ true
unfolding fix_page is_page
is_page-fix_page page =
    if_cases (λ p. is_page p ≡ true) (is_page page) page (codes "list") (λ e. e)
      (λ e. ap (λ b. b || codes "list" == codes "tree") (beq_refl (codes "list")))

module _ {F : Type 0} ⦃d : Double F⦄ (x : IsExact d) where
  beyond_whole : (n max : ℕ) → n ≤ max → max ≤ max_threshold → beyond (d.of_nat n) max ≡ false
  beyond_whole n max h k = ground (
    arith,
    x.lt_of_nat n 0 (omega arith) (omega arith),
    x.lt_of_nat max n (omega arith) (omega arith),
  )

  beyond-clamp_double :
      (value : F) (max : ℕ) → max ≤ max_threshold → beyond (clamp_double value 0 max) max ≡ false
  unfolding clamp_double
  beyond-clamp_double value max h = elim (Bool-cases (d.lt value (d.of_nat 0))) [
    | inl p ↦ rw p (beyond_whole 0 max (omega arith) h)
    | inr p ↦ elim (Bool-cases (d.lt (d.of_nat max) value)) [
      | inl q ↦ rw (p, q) (beyond_whole max max (omega arith) h)
      | inr q ↦ rw (p, q) (rw (p, q) refl)
    ]
  ]

  clean_category :
      (cat : AlertCategorySettings F) (name : Text) (warn_max crit_max : ℕ)
      → beyond cat.warning warn_max ≡ false
      → beyond cat.critical crit_max ≡ false
      → d.le cat.critical cat.warning ≡ false
      → check_category name cat warn_max crit_max ≡ []
  unfolding check_category
  clean_category cat name warn_max crit_max p q r = rw (p, q, r) refl

  check-fix_category :
      (cat : AlertCategorySettings F) (name : Text) (warn_max crit_max w c : ℕ)
      → warn_max ≤ max_threshold
      → crit_max ≤ max_threshold
      → w ≤ warn_max
      → c ≤ crit_max
      → w < c
      → check_category name
          (fix_category cat name warn_max crit_max (category w c)).0
          warn_max
          crit_max
        ≡ []
  unfolding fix_category category clamp_category
  check-fix_category cat name warn_max crit_max w c hw hc w≤ c≤ w<c =
      if_cases {A = AlertCategorySettings F × List Text}
        (λ r. check_category name r.0 warn_max crit_max ≡ [])
        (d.le (clamp_double cat.critical 0 crit_max) (clamp_double cat.warning 0 warn_max)) _ _
        (λ e.
          clean_category (category w c) name warn_max crit_max (beyond_whole w warn_max w≤ hw)
            (beyond_whole c crit_max c≤ hc)
            (ground (arith, x.le_of_nat c w (omega arith) (omega arith))))
        (λ e.
          clean_category (clamp_category cat warn_max crit_max) name warn_max crit_max
            (beyond-clamp_double cat.warning warn_max hw)
            (beyond-clamp_double cat.critical crit_max hc) e)

  valid_report : (i : ℕ) (r : NetworkTrafficAlertValidation) → r.valid ≡ true → report i r ≡ []
  unfolding report
  valid_report i r e = rw e refl

  check_rules_valid :
      (i : ℕ) (rules : List (NetworkTrafficAlertRule F))
      → All (λ r. (validate r).valid ≡ true) rules
      → check_rules i rules ≡ []
  unfolding check_rules
  check_rules_valid i [] h = refl
  check_rules_valid i (r ∷ rules) h =
      no_problems (report i (validate r)) (check_rules (i + 1) rules)
        (valid_report i (validate r) h.0) (check_rules_valid (i + 1) rules h.1)

  fix_rules_valid :
      (i : ℕ) (seen : List Text) (rules : List (NetworkTrafficAlertRule F))
      → All (λ r. has_bad_char r.target_identity ≡ false) rules
      → All (λ r. (validate r).valid ≡ true) (fix_rules i seen rules).0
  unfolding fix_rules
  fix_rules_valid i seen [] h = tt
  fix_rules_valid i seen (rule ∷ rules) h =
      fix_rules_cases (All (λ r. (validate r).valid ≡ true)) i seen rule rules
        (fix_rules_valid (i + 1) seen rules h.1)
        (λ e q. (
          validate-clamp x rule h.0 e,
          fix_rules_valid (i + 1) (state_key (clamp rule).0 ∷ seen) rules h.1,
        ))

  check_alerts_fixed :
      (s : AppSettings F)
      → All (λ r. has_bad_char r.target_identity ≡ false) s.alerts.network_rules
      → check_alerts (fixed_settings s) ≡ []
  unfolding check_alerts fixed_settings fix_cpu fix_memory fix_swap fix_disk fix_temperature
  check_alerts_fixed s h =
      no_problems _ _
        (check-fix_category s.alerts.cpu _ 100 100 80 95 (omega arith) (omega arith) (omega arith)
          (omega arith) (omega arith))
        (no_problems _ _
          (check-fix_category s.alerts.memory _ 100 100 80 95 (omega arith) (omega arith)
            (omega arith) (omega arith) (omega arith))
          (no_problems _ _
            (check-fix_category s.alerts.swap _ 100 100 70 90 (omega arith) (omega arith)
              (omega arith) (omega arith) (omega arith))
            (no_problems _ _
              (check-fix_category s.alerts.disk _ 100 100 85 95 (omega arith) (omega arith)
                (omega arith) (omega arith) (omega arith))
              (no_problems _ _
                (check-fix_category s.alerts.temperature _ 120 150 75 90 (omega arith) (omega arith)
                  (omega arith) (omega arith) (omega arith))
                (check_rules_valid 0 (fix_rules 0 [] s.alerts.network_rules).0
                  (fix_rules_valid 0 [] s.alerts.network_rules h))))))

  check_general_fixed :
      (s : AppSettings F)
      → s.config_version ≡ pos current_config_version
      → check_general (fixed_settings s) ≡ []
  unfolding check_general fixed_settings
  check_general_fixed s v =
      no_problems _ _
        (no_note (s.config_version == pos current_config_version) _
          ((int_equality.beq_iff s.config_version (pos current_config_version)).1 v))
        (no_problems _ _
          (range-clamp_int (codes "general.refresh_interval_ms") s.general.refresh_interval_ms 100
            10000 (omega arith))
          (no_note (is_page (fix_page s.general.default_page)) _
            (is_page-fix_page s.general.default_page)))

  check_history_fixed : (s : AppSettings F) → check_history (fixed_settings s) ≡ []
  unfolding check_history fixed_settings
  check_history_fixed s =
      no_problems _ _ (range-clamp_int _ s.history.sample_interval_ms 100 10000 (omega arith)) (
        no_problems _ _ (range-clamp_int _ s.history.history_duration_seconds 10 3600 (omega arith))
          (no_problems _ _ (range-clamp_int _ s.history.max_samples 10 3600 (omega arith))
            (range-clamp_int _ s.alerts.recovery_hysteresis 0 50 (omega arith))))

  check_notifications_fixed : (s : AppSettings F) → check_notifications (fixed_settings s) ≡ []
  unfolding check_notifications fixed_settings
  check_notifications_fixed s =
      no_problems _ _ (range-clamp_int _ s.notifications.cooldown_seconds 0 3600 (omega arith))
        (range-clamp_int _ s.notifications.timeout_ms 1000 60000 (omega arith))

  -- Settings of the current version, in which no rule's target identity has an illegal character, have no problem left for `validate` after `clampAndFix`. Whole numbers up to 10 ^ 15 are exact.
  pub validate_settings-clamp_and_fix :
      (s : AppSettings F)
      → s.config_version ≡ pos current_config_version
      → All (λ r. has_bad_char r.target_identity ≡ false) s.alerts.network_rules
      → validate_settings (clamp_and_fix s).0 ≡ []
  unfolding validate_settings clamp_and_fix
  validate_settings-clamp_and_fix s v h = no_problems _ _ (check_general_fixed s v) (
      no_problems _ _ (check_history_fixed s)
        (no_problems _ _ (check_alerts_fixed s h) (check_notifications_fixed s)))
