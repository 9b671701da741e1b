-- ===== src/Settings/Rules.antt =====
-- The traffic rules that `clampAndFix` keeps (src/settings.cpp), and the keys under which
-- `NetworkTrafficAlertMonitor` stores their state (src/network_traffic_alert.cpp).
use arch_task_manager.Base.{
  ℕ, ◌+◌, ◌≡◌, ◌≢◌, false, Text, List, [], ◌∷◌, ◌==◌, text_equality, any, arith, All, All-map,
}
use arch_task_manager.Base.Double.{Double}
use arch_task_manager.Network.TrafficAlert.{NetworkTrafficAlertRule}
use arch_task_manager.Network.TrafficAlert.Monitor.{state_key}
use arch_task_manager.Network.TrafficAlert.Validation.{clamp}
use arch_task_manager.Settings.{AppSettings}
use arch_task_manager.Settings.Fixing.{fix_rules, fix_rules_cases, clamp_and_fix, fixed_settings}

module _ {F : Type 0} ⦃d : Double F⦄ where
  -- No two rules have the same key.
  pub AreApart : List (NetworkTrafficAlertRule F) → Type 0
  AreApart [] = Unit
  AreApart (r ∷ rules) = All (λ q. state_key r ≢ state_key q) rules × AreApart rules

  new_keys :
      (i : ℕ) (seen : List Text) (rules : List (NetworkTrafficAlertRule F))
      → All (λ r. any (λ k. k == state_key r) seen ≡ false) (fix_rules i seen rules).0
  unfolding fix_rules
  new_keys i seen [] = tt
  new_keys i seen (rule ∷ rules) =
      let key = state_key (clamp rule).0 in
      fix_rules_cases (All (λ r. any (λ k. k == state_key r) seen ≡ false)) i seen rule rules
        (new_keys (i + 1) seen rules)
        (λ e q. (
          q,
          All-map (λ r. any (λ k. k == state_key r) (key ∷ seen) ≡ false)
              (λ r. any (λ k. k == state_key r) seen ≡ false)
              (fix_rules (i + 1) (key ∷ seen) rules).0 (λ r h. ground arith)
              (new_keys (i + 1) (key ∷ seen) rules),
        ))

  fix_rules-AreApart :
      (i : ℕ) (seen : List Text) (rules : List (NetworkTrafficAlertRule F))
      → AreApart (fix_rules i seen rules).0
  unfolding fix_rules AreApart
  fix_rules-AreApart i seen [] = tt
  fix_rules-AreApart i seen (rule ∷ rules) =
      let key = state_key (clamp rule).0 in
      fix_rules_cases AreApart i seen rule rules (fix_rules-AreApart (i + 1) seen rules) (λ e q. (
        All-map (λ r. any (λ k. k == state_key r) (key ∷ seen) ≡ false) (λ r. key ≢ state_key r)
            (fix_rules (i + 1) (key ∷ seen) rules).0
            (λ r h same. ground (arith, (text_equality.beq_iff key (state_key r)).1 same))
            (new_keys (i + 1) (key ∷ seen) rules),
        fix_rules-AreApart (i + 1) (key ∷ seen) rules,
      ))

  -- After `clampAndFix` no two rules have the same state key, so each rule that `NetworkTrafficAlertMonitor` takes from repaired settings has a runtime state of its own.
  pub clamp_and_fix-AreApart :
      (s : AppSettings F) → AreApart (clamp_and_fix s).0.alerts.network_rules
  unfolding clamp_and_fix fixed_settings
  clamp_and_fix-AreApart s = fix_rules-AreApart 0 [] s.alerts.network_rules
