-- ===== src/Network/TrafficAlert/Repair.antt =====
-- A repaired traffic rule that is kept is valid (`clampNetworkTrafficAlertRule` and
-- `validateNetworkTrafficAlertRule` in src/network_traffic_alert.cpp).
use arch_task_manager.Base.{
  ℕ, ◌≤◌, ◌≡◌, refl, ◌∙◌, true, false, not, ◌||◌, Text, [], ◌∷◌, zero, suc, ltb, leb, filter, take,
  length, arith, Bool-cases, inl, inr,
}
use arch_task_manager.Base.Double.{Double}
use arch_task_manager.Alert.Types.{AlertSeverity}
use arch_task_manager.Alert.Types
use arch_task_manager.Network.TrafficAlert.{
  NetworkTrafficAlertRule, NetworkTrafficAlertType, NetworkTrafficAlertUnit,
  NetworkTrafficAlertConfirmation, samples, duration, unit_supported,
}
use arch_task_manager.Network.TrafficAlert.Validation.{
  NetworkTrafficAlertValidation, max_threshold, is_bad, is_empty, has_bad_char, trim_start,
  trim_end, trim, is_alert, validate, validate_rest, validate_confirmation, validate_threshold,
  validate_target, clamp_threshold, clamp_duration, clamp_samples, clamp_cooldown, repair_unit,
  default_unit, repair_severity, clamp_target, clamp_name, clamp,
}

-- Whole numbers up to 10 ^ 15 are exact: they are finite and in the order of the numbers.
pub record IsExact {F : Type 0} (d : Double F) : Type 0 where
  pub finite : (n : ℕ) → n ≤ max_threshold → d.is_finite (d.of_nat n) ≡ true
  pub lt_of_nat :
      (a b : ℕ) → a ≤ max_threshold → b ≤ max_threshold → d.lt (d.of_nat a) (d.of_nat b) ≡ ltb a b
  pub le_of_nat :
      (a b : ℕ) → a ≤ max_threshold → b ≤ max_threshold → d.le (d.of_nat a) (d.of_nat b) ≡ leb a b

ltb_of_le : (a b : ℕ) → a ≤ b → ltb b a ≡ false
ltb_of_le a b h = ground arith

is_empty-take : (n : ℕ) (s : Text) → is_empty s ≡ false → is_empty (take (suc n) s) ≡ false
is_empty-take n [] e = e
is_empty-take n (c ∷ s) e = refl

length-take_le : (n : ℕ) (s : Text) → length (take n s) ≤ n
length-take_le zero s = omega arith
length-take_le (suc n) [] = omega arith
length-take_le (suc n) (c ∷ s) = omega (arith, length-take_le n s)

within : (n : ℕ) (s : Text) → ltb n (length (take n s)) ≡ false
within n s = ltb_of_le (length (take n s)) n (length-take_le n s)

has_bad_char-take : (n : ℕ) (s : Text) → has_bad_char s ≡ false → has_bad_char (take n s) ≡ false
unfolding has_bad_char
has_bad_char-take zero s e = refl
has_bad_char-take (suc n) [] e = refl
has_bad_char-take (suc n) (c ∷ s) e = ground (arith, has_bad_char-take n s)

has_bad_char-trim_start : (s : Text) → has_bad_char s ≡ false → has_bad_char (trim_start s) ≡ false
unfolding has_bad_char trim_start
has_bad_char-trim_start [] e = refl
has_bad_char-trim_start (c ∷ s) e = ground (arith, has_bad_char-trim_start s)

has_bad_char-trim_end : (s : Text) → has_bad_char s ≡ false → has_bad_char (trim_end s) ≡ false
unfolding has_bad_char trim_end
has_bad_char-trim_end [] e = refl
has_bad_char-trim_end (c ∷ s) e = ground (arith, has_bad_char-trim_end s)

has_bad_char-filter : (s : Text) → has_bad_char (filter (λ c. not (is_bad c)) s) ≡ false
unfolding has_bad_char
has_bad_char-filter [] = refl
has_bad_char-filter (c ∷ s) = ground (arith, has_bad_char-filter s)

-- The target of a rule that is kept.
target_ok :
    (target : Text)
    → has_bad_char target ≡ false
    → is_empty (trim target) ≡ false
    → let t = (clamp_target target).0 in
      (is_empty t ≡ false) × (ltb 128 (length t) ≡ false) × (has_bad_char t ≡ false)
unfolding clamp_target trim
target_ok target b e = elim (Bool-cases (ltb 128 (length (trim target)))) [
  | inl long ↦
      simp (e, long)
        (
          is_empty-take 127 (trim target) e,
          within 128 (trim target),
          has_bad_char-take 128 (trim target) clean,
        )
  | inr short ↦ simp (e, short) (refl, refl, clean)
]
  where
    clean : has_bad_char (trim target) ≡ false
    clean = has_bad_char-trim_end (trim_start target) (has_bad_char-trim_start target b)

name_ok :
    (name : Text)
    → let t = (clamp_name name).0 in (ltb 128 (length t) ≡ false) × (has_bad_char t ≡ false)
unfolding clamp_name
name_ok name = elim (Bool-cases (ltb 128 (length (filter (λ c. not (is_bad c)) name)))) [
  | inl long ↦ simp long (
    within 128 (filter (λ c. not (is_bad c)) name),
    has_bad_char-take 128 _ (has_bad_char-filter name),
  )
  | inr short ↦ simp short (refl, has_bad_char-filter name)
]

samples_ok : (n : ℕ) → let v = (clamp_samples n).0 in (ltb v 1 || ltb 1000 v) ≡ false
unfolding clamp_samples
samples_ok n = ground arith

cooldown_ok : (n : ℕ) → ltb 3600 (clamp_cooldown n).0 ≡ false
unfolding clamp_cooldown
cooldown_ok n = ground arith

severity_ok : (x : AlertSeverity) → is_alert (repair_severity x).0 ≡ true
unfolding repair_severity is_alert
severity_ok Types.normal = refl
severity_ok Types.warning = refl
severity_ok Types.critical = refl

default_ok : (t : NetworkTrafficAlertType) → unit_supported t (default_unit t) ≡ true
unfolding default_unit unit_supported
default_ok t = ground arith

unit_ok :
    (t : NetworkTrafficAlertType) (u : NetworkTrafficAlertUnit)
    → unit_supported t (repair_unit t u).0 ≡ true
unfolding repair_unit
unit_ok t u = ground (arith, default_ok t)

module _ {F : Type 0} ⦃d : Double F⦄ (x : IsExact d) where
  threshold_ok :
      (t : F)
      → let v = (clamp_threshold t).0 in
        (d.is_finite v ≡ true) × (d.lt (d.of_nat max_threshold) v ≡ false)
  unfolding clamp_threshold
  threshold_ok t = ground (
    arith,
    x.finite 0 (omega arith),
    x.finite max_threshold (omega arith),
    x.lt_of_nat max_threshold 0 (omega arith) (omega arith),
    x.lt_of_nat max_threshold max_threshold (omega arith) (omega arith),
  )

  duration_ok :
      (t : F)
      → let v = (clamp_duration t).0 in
        (not (d.is_finite v) || (d.le v (d.of_nat 0) || d.lt (d.of_nat 3600) v)) ≡ false
  unfolding clamp_duration
  duration_ok t = ground (
    arith,
    x.finite 1 (omega arith),
    x.finite 3600 (omega arith),
    x.le_of_nat 1 0 (omega arith) (omega arith),
    x.le_of_nat 3600 0 (omega arith) (omega arith),
    x.lt_of_nat 3600 1 (omega arith) (omega arith),
    x.lt_of_nat 3600 3600 (omega arith) (omega arith),
  )

  confirmation_ok :
      (mode : NetworkTrafficAlertConfirmation) (rule : NetworkTrafficAlertRule F)
      (result : NetworkTrafficAlertValidation)
      → (ltb rule.confirmation_samples 1 || ltb 1000 rule.confirmation_samples) ≡ false
      → (not (d.is_finite rule.confirmation_duration_seconds)
          || (d.le rule.confirmation_duration_seconds (d.of_nat 0)
              || d.lt (d.of_nat 3600) rule.confirmation_duration_seconds))
        ≡ false
      → (validate_confirmation mode rule result).valid ≡ result.valid
  unfolding validate_confirmation
  confirmation_ok samples rule result e f = rw e refl
  confirmation_ok duration rule result e f = rw f refl

  -- A rule with no fault is valid.
  faultless :
      (r : NetworkTrafficAlertRule F)
      → (is_empty r.target_identity ≡ false)
        × (ltb 128 (length r.target_identity) ≡ false)
        × (has_bad_char r.target_identity ≡ false)
      → (d.is_finite r.threshold ≡ true) × (d.lt (d.of_nat max_threshold) r.threshold ≡ false)
      → d.le r.threshold (d.of_nat 0) ≡ false
      → unit_supported r.type r.unit ≡ true
      → (ltb r.confirmation_samples 1 || ltb 1000 r.confirmation_samples) ≡ false
      → (not (d.is_finite r.confirmation_duration_seconds)
          || (d.le r.confirmation_duration_seconds (d.of_nat 0)
              || d.lt (d.of_nat 3600) r.confirmation_duration_seconds))
        ≡ false
      → ltb 3600 r.cooldown_seconds ≡ false
      → is_alert r.severity ≡ true
      → (ltb 128 (length r.name) ≡ false) × (has_bad_char r.name ≡ false)
      → (validate r).valid ≡ true
  unfolding validate validate_rest validate_threshold validate_target
  faultless r (t, t', t'') (f, f') p u c s w v (n, n') =
      simp (w, v, n, n') (confirmation_ok r.confirmation r _ c s ∙ simp (u, f, f', p, t, t', t''))

  -- A rule that the repair keeps passes the validation, if its target identity has no illegal
  -- character: the repair leaves such characters in the identity. Whole numbers up to 10 ^ 15
  -- are exact.
  pub validate-clamp :
      (rule : NetworkTrafficAlertRule F)
      → has_bad_char rule.target_identity ≡ false
      → (clamp rule).1.valid ≡ true
      → (validate (clamp rule).0).valid ≡ true
  unfolding clamp
  validate-clamp rule b k =
      faultless (clamp rule).0 (target_ok rule.target_identity b (ground (arith, k)))
        (threshold_ok rule.threshold) (ground (arith, k)) (unit_ok rule.type rule.unit)
        (samples_ok rule.confirmation_samples) (duration_ok rule.confirmation_duration_seconds)
        (cooldown_ok rule.cooldown_seconds) (severity_ok rule.severity) (name_ok rule.name)
