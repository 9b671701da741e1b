-- ===== src/Network/TrafficAlert/Confirmation.antt =====
-- Confirmation of a breach by consecutive samples (`NetworkTrafficAlertMonitor::evaluate`,
-- src/network_traffic_alert.cpp).
use arch_task_manager.Base.{
  ℕ, ◌+◌, ◌^◌, ◌≤◌, ◌<◌, ◌≡◌, refl, ap, subst, ◌∙◌, Bool, true, false, List, [], ◌∷◌, leb, add_u64,
  arith, Bool-cases, inl, inr, length, All,
}
use arch_task_manager.Base.Double.{Double, IsOrdered}
use arch_task_manager.Network.TrafficAlert.{NetworkTrafficAlertRule, samples}
use arch_task_manager.Network.TrafficAlert.Monitor.{
  RuleRuntime, TrafficAlertMonitor, state_key, runtime, recovery_floor,
}
use arch_task_manager.Network.TrafficAlert.Evaluate.{
  Measured, violating, under_floor, measure, watch, count_samples, count_violation,
}
use arch_task_manager.Network.TrafficAlert.Episodes.{runtime-finish, reached, reached_by}
use arch_task_manager.Network.TrafficAlert.Transitions.{measure_lem}

module _ {F : Type 0} ⦃d : Double F⦄ where
  -- Rounds of one rule, each with a rate that could be read.
  pub measure_all : TrafficAlertMonitor F → List (Measured F) → TrafficAlertMonitor F
  measure_all m [] = m
  measure_all m (s ∷ rest) = measure_all (measure m s) rest

  abbrev pub IsBreach : NetworkTrafficAlertRule F → Measured F → Type 0
  IsBreach r s = (s.rule ≡ r) × (d.le r.threshold s.value ≡ true)

  -- A rate at the threshold is not below the recovery floor, if that is at most the threshold.
  over_floor :
      (s : Measured F)
      → IsOrdered d
      → d.le (recovery_floor s.rule.threshold) s.rule.threshold ≡ true
      → d.le s.rule.threshold s.value ≡ true
      → under_floor s ≡ false
  unfolding under_floor
  over_floor s o f v = elim (Bool-cases (d.lt s.value (recovery_floor s.rule.threshold))) [
    | inr e ↦ e
    | inl e ↦ cc (o.lt_not_le s.value s.rule.threshold (o.lt_le_trans _ _ _ e f), v)
  ]

  reached_samples :
      (s : Measured F) (rt : RuleRuntime)
      → s.rule.confirmation ≡ samples
      → reached s rt ≡ leb s.rule.confirmation_samples (add_u64 rt.consecutive_violations 1)
  unfolding reached reached_by
  reached_samples s rt k = simp k refl

  counted :
      (m : TrafficAlertMonitor F) (s : Measured F)
      → (runtime m (state_key s.rule)).confirmed ≡ false
      → d.le s.rule.threshold s.value ≡ true
      → s.rule.confirmation ≡ samples
      → leb s.rule.confirmation_samples
          (add_u64 (runtime m (state_key s.rule)).consecutive_violations 1)
        ≡ false
      → (runtime (measure m s) (state_key s.rule)).consecutive_violations
        ≡ add_u64 (runtime m (state_key s.rule)).consecutive_violations 1
  unfolding measure watch violating count_violation count_samples
  counted m s c v k l =
      simp (c, v, k, l) (ap (λ r. r.consecutive_violations) (runtime-finish m s _ _))

  module _ (o : IsOrdered d) (r : NetworkTrafficAlertRule F) where
    abbrev confirmed_in : TrafficAlertMonitor F → Bool
    confirmed_in m = (runtime m (state_key r)).confirmed

    abbrev count_in : TrafficAlertMonitor F → ℕ
    count_in m = (runtime m (state_key r)).consecutive_violations

    stays_one :
        (m : TrafficAlertMonitor F) (s : Measured F)
        → s.rule ≡ r
        → d.le (recovery_floor r.threshold) r.threshold ≡ true
        → d.le r.threshold s.value ≡ true
        → confirmed_in m ≡ true
        → confirmed_in (measure m s) ≡ true
    stays_one m s e =
        subst
          (λ r.
            d.le (recovery_floor r.threshold) r.threshold ≡ true
            → d.le r.threshold s.value ≡ true
            → (runtime m (state_key r)).confirmed ≡ true
            → (runtime (measure m s) (state_key r)).confirmed ≡ true)
          e (λ f v c. (measure_lem m s).0 ∙ ground (arith, c, over_floor s o f v))

    starts_one :
        (m : TrafficAlertMonitor F) (s : Measured F)
        → s.rule ≡ r
        → d.le r.threshold s.value ≡ true
        → r.confirmation ≡ samples
        → confirmed_in m ≡ false
        → confirmed_in (measure m s) ≡ leb r.confirmation_samples (add_u64 (count_in m) 1)
    unfolding violating
    starts_one m s e =
        subst
          (λ r.
            d.le r.threshold s.value ≡ true
            → r.confirmation ≡ samples
            → (runtime m (state_key r)).confirmed ≡ false
            → (runtime (measure m s) (state_key r)).confirmed
              ≡ leb r.confirmation_samples
                  (add_u64 (runtime m (state_key r)).consecutive_violations 1))
          e
          (λ v k c.
            (measure_lem m s).0
            ∙ ground (arith, c, v, reached_samples s (runtime m (state_key s.rule)) k))

    count_one :
        (m : TrafficAlertMonitor F) (s : Measured F)
        → s.rule ≡ r
        → d.le r.threshold s.value ≡ true
        → r.confirmation ≡ samples
        → confirmed_in m ≡ false
        → leb r.confirmation_samples (add_u64 (count_in m) 1) ≡ false
        → count_in (measure m s) ≡ add_u64 (count_in m) 1
    count_one m s e =
        subst
          (λ r.
            d.le r.threshold s.value ≡ true
            → r.confirmation ≡ samples
            → (runtime m (state_key r)).confirmed ≡ false
            → leb r.confirmation_samples
                (add_u64 (runtime m (state_key r)).consecutive_violations 1)
              ≡ false
            → (runtime (measure m s) (state_key r)).consecutive_violations
              ≡ add_u64 (runtime m (state_key r)).consecutive_violations 1)
          e (λ v k c. counted m s c v k)

    stays :
        (m : TrafficAlertMonitor F) (ss : List (Measured F))
        → d.le (recovery_floor r.threshold) r.threshold ≡ true
        → All (IsBreach r) ss
        → confirmed_in m ≡ true
        → confirmed_in (measure_all m ss) ≡ true
    unfolding measure_all
    stays m [] f a c = c
    stays m (s ∷ ss) f a c = stays (measure m s) ss f a.1 (stays_one m s a.0.0 f a.0.1 c)

    runs :
        (m : TrafficAlertMonitor F) (ss : List (Measured F))
        → d.le (recovery_floor r.threshold) r.threshold ≡ true
        → r.confirmation ≡ samples
        → All (IsBreach r) ss
        → count_in m + length ss < 2 ^ 64
        → confirmed_in m ≡ false
        → leb r.confirmation_samples (count_in m) ≡ false
        → confirmed_in (measure_all m ss) ≡ leb r.confirmation_samples (count_in m + length ss)
    unfolding measure_all
    runs m [] f k a b c l = ground (arith, c, l)
    runs m (s ∷ ss) f k a b c l =
        elim (Bool-cases (leb r.confirmation_samples (add_u64 (count_in m) 1))) [
          | inl e ↦
              stays (measure m s) ss f a.1 (starts_one m s a.0.0 a.0.1 k c ∙ e)
              ∙ ground (arith, e, b)
          | inr e ↦
              let n = count_one m s a.0.0 a.0.1 k c e in
              runs (measure m s) ss f k a.1 (omega (arith, n, b))
                (starts_one m s a.0.0 a.0.1 k c ∙ e) (ap (leb r.confirmation_samples) n ∙ e)
              ∙ ap (leb r.confirmation_samples) (omega (arith, n, b))
        ]

    -- A rule that confirms by samples, whose state is that of a rule not seen before, is in an
    -- episode after some rounds at or above its threshold exactly when these are at least as many
    -- as it demands. It demands at least one; the recovery floor is at most the threshold.
    pub confirmed-measure_all :
        (m : TrafficAlertMonitor F) (ss : List (Measured F))
        → d.le (recovery_floor r.threshold) r.threshold ≡ true
        → r.confirmation ≡ samples
        → 1 ≤ r.confirmation_samples
        → All (IsBreach r) ss
        → length ss < 2 ^ 64
        → (runtime m (state_key r)).confirmed ≡ false
        → (runtime m (state_key r)).consecutive_violations ≡ 0
        → (runtime (measure_all m ss) (state_key r)).confirmed
          ≡ leb r.confirmation_samples (length ss)
    confirmed-measure_all m ss f k n a b c z =
        runs m ss f k a (omega (arith, b, z)) c (ground (arith, z, n))
        ∙ ap (leb r.confirmation_samples) (omega (arith, z))
