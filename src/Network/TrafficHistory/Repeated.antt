-- ===== src/Network/TrafficHistory/Repeated.antt =====
-- What the traffic alert monitor makes of an interface that `NetworkTrafficHistory::record` no
-- longer samples (src/network_traffic_history.cpp, src/network_traffic_alert.cpp).
use arch_task_manager.Base.{
  ℕ, ◌≡◌, ◌≢◌, refl, ap, ap₂, ◌∙◌, sym, subst, false, not, ◌&&◌, is_some, arith, some, Text, [],
  ◌∷◌, if◌then◌else◌, text_equality, Map, find, All,
}
use mathlib.Core.Option.{none-ne-some}
use arch_task_manager.Base.Double.{Double}
use arch_task_manager.Network.Interface.{NetworkInterfaceSnapshot}
use arch_task_manager.Network.TrafficAlert.Monitor.{
  NetworkTrafficRates, Clocks, TrafficAlertMonitor, NetworkTrafficTick, push_status, forget,
  initial_status,
}
use arch_task_manager.Network.TrafficAlert.{NetworkTrafficAlertRule, disabled}
use arch_task_manager.Network.TrafficAlert.Rounds.{both, target, at_target, evaluate_rule}
use arch_task_manager.Network.TrafficAlert.Statuses.{Adds, evaluate_rule-Adds}
use arch_task_manager.Network.TrafficHistory.Selection.{last_tick_of, tick_if_recorded}
use arch_task_manager.Network.TrafficHistory.{all_identity}
use arch_task_manager.Network.TrafficHistory.Series.{NetworkTrafficHistory}
use arch_task_manager.Network.TrafficHistory.Recording.{record_snapshot}
use arch_task_manager.Network.TrafficHistory.Stale.{NotSampledAs, record_snapshot_absent}

module _ {F : Type 0} ⦃d : Double F⦄ where
  tick_found :
      (k : Text) (t : NetworkTrafficTick F) (m : Map Text (NetworkTrafficRates F))
      (r : NetworkTrafficRates F)
      → find k m ≡ some r
      → tick_if_recorded t m ≡ some t
  unfolding tick_if_recorded find
  tick_found k t [] r e = absurd (none-ne-some r e)
  tick_found k t (p ∷ m) r e = refl

  target_ext :
      (k : Text) (t u : NetworkTrafficTick F)
      → find k t.rates ≡ find k u.rates
      → find k t.names ≡ find k u.names
      → target (some t) k ≡ target (some u) k
  unfolding target
  target_ext k t u p q = ap₂ both p q

  -- The rule is evaluated after `record` as before it.
  evaluate_rule_same :
      (h : NetworkTrafficHistory F) (now : Clocks) (snapshot : NetworkInterfaceSnapshot)
      (m : TrafficAlertMonitor F) (later : Clocks) (i : ℕ) (rule : NetworkTrafficAlertRule F)
      (r : NetworkTrafficRates F)
      → rule.target_identity ≢ all_identity
      → All (NotSampledAs rule.target_identity) snapshot.interfaces
      → find rule.target_identity h.last_tick.rates ≡ some r
      → evaluate_rule m later (last_tick_of (record_snapshot h now snapshot)) i rule
        ≡ evaluate_rule m later (last_tick_of h) i rule
  unfolding evaluate_rule last_tick_of
  evaluate_rule_same h now snapshot m later i rule r other e q =
      let k = rule.target_identity in
      let after = record_snapshot h now snapshot in
      let same = record_snapshot_absent k h now snapshot other e in
      ap
        (λ t.
          if rule.enabled
          then at_target m later i rule t
          else push_status (forget m rule) (record (initial_status i rule) { status = disabled }))
        (ap (λ t. target t k) (tick_found k after.last_tick after.last_tick.rates r (same.0 ∙ q))
          ∙ target_ext k after.last_tick h.last_tick same.0 same.1
          ∙ sym (ap (λ t. target t k) (tick_found k h.last_tick h.last_tick.rates r q)))

  target_of_found :
      (k : Text) (t : NetworkTrafficTick F) (r : NetworkTrafficRates F) (n : Text)
      → find k t.rates ≡ some r
      → find k t.names ≡ some n
      → target (tick_if_recorded t t.rates) k ≡ some (r, n)
  unfolding target
  target_of_found k t r n p q = ap (λ t. target t k) (tick_found k t t.rates r p) ∙ ap₂ both p q

  -- A traffic rule whose interface has rates and a name in the last tick, and that `record` no longer samples, is evaluated after it exactly as before it, and its status line is never that of an unavailable interface.
  pub evaluate_rule-record_snapshot :
      (h : NetworkTrafficHistory F) (now : Clocks) (snapshot : NetworkInterfaceSnapshot)
      (m : TrafficAlertMonitor F) (later : Clocks) (i : ℕ) (rule : NetworkTrafficAlertRule F)
      (r : NetworkTrafficRates F) (n : Text)
      → rule.target_identity ≢ all_identity
      → All (NotSampledAs rule.target_identity) snapshot.interfaces
      → find rule.target_identity h.last_tick.rates ≡ some r
      → find rule.target_identity h.last_tick.names ≡ some n
      → let m' = evaluate_rule m later (last_tick_of (record_snapshot h now snapshot)) i rule in
        (m' ≡ evaluate_rule m later (last_tick_of h) i rule) × Adds m i rule false m'
  unfolding last_tick_of
  evaluate_rule-record_snapshot h now snapshot m later i rule r n other e p q =
      let k = rule.target_identity in
      let same = evaluate_rule_same h now snapshot m later i rule r other e p in
      (
        same,
        subst (Adds m i rule false) (sym same) (
            subst (λ b. Adds m i rule b (evaluate_rule m later (last_tick_of h) i rule))
              (ap (λ o. rule.enabled && not (is_some o)) (target_of_found k h.last_tick r n p q)
                ∙ ground arith)
              (evaluate_rule-Adds m later (last_tick_of h) i rule)),
      )
