-- ===== src/Network/TrafficAlert/Validation.antt =====
-- Validation and repair of a traffic rule (`validateNetworkTrafficAlertRule` and
-- `clampNetworkTrafficAlertRule` in src/network_traffic_alert.cpp).
use arch_task_manager.Base.{
  ℕ, Bool, true, false, not, ◌&&◌, ◌||◌, Text, codes, List, [], ◌∷◌, ◌++◌, if◌then◌else◌, ltb, eqb,
  any, filter, take, length,
}
use arch_task_manager.Base.Double.{Double}
use arch_task_manager.Alert.Types.{AlertSeverity}
use arch_task_manager.Alert.Types
use arch_task_manager.Network.TrafficAlert.{
  NetworkTrafficAlertRule, NetworkTrafficAlertType, NetworkTrafficAlertUnit,
  NetworkTrafficAlertConfirmation, samples, duration, receive, transmit, combined, rx_packets,
  tx_packets, bytes_per_second, packets_per_second, events_per_second, unit_supported,
}

pub record NetworkTrafficAlertValidation : Type 0 where
  pub valid : Bool
  pub problems : List Text

-- The limits of include/network_traffic_alert.hpp.
abbrev pub max_threshold : ℕ
max_threshold = 1000000000000000

abbrev pub max_confirmation_samples : ℕ
max_confirmation_samples = 1000

abbrev pub max_confirmation_duration_seconds : ℕ
max_confirmation_duration_seconds = 3600

abbrev pub max_cooldown_seconds : ℕ
max_cooldown_seconds = 3600

abbrev pub max_rule_name_length : ℕ
max_rule_name_length = 128

abbrev pub max_target_identity_length : ℕ
max_target_identity_length = 128

unfoldable pub is_bad : ℕ → Bool
is_bad c = eqb c b'|' || (eqb c b'\n' || eqb c b'\r')

-- `hasBadChar` with both tests on.
unfoldable pub has_bad_char : Text → Bool
has_bad_char s = any is_bad s

unfoldable pub is_blank : ℕ → Bool
is_blank c = eqb c b' ' || (eqb c b'\t' || (eqb c b'\r' || eqb c b'\n'))

abbrev pub is_empty : Text → Bool
is_empty [] = true
is_empty (c ∷ s) = false

unfoldable pub trim_start : Text → Text
trim_start [] = []
trim_start (c ∷ s) = let rest = trim_start s in if is_blank c then rest else c ∷ s

unfoldable pub trim_end : Text → Text
trim_end [] = []
trim_end (c ∷ s) = let rest = trim_end s in if is_blank c && is_empty rest then [] else c ∷ rest

-- From `find_first_not_of` to `find_last_not_of`; empty if there is no such character.
unfoldable pub trim : Text → Text
trim s = trim_end (trim_start s)

unfoldable pub is_alert : AlertSeverity → Bool
is_alert Types.warning = true
is_alert Types.critical = true
is_alert Types.normal = false

abbrev pub fail_if : Bool → Text → NetworkTrafficAlertValidation → NetworkTrafficAlertValidation
fail_if bad problem result =
    if bad then record { valid = false; problems = result.problems ++ (problem ∷ []) } else result

module _ {F : Type 0} ⦃d : Double F⦄ where
  -- The confirmation parameter of the mode that the rule uses.
  unfoldable pub validate_confirmation :
      NetworkTrafficAlertConfirmation
      → NetworkTrafficAlertRule F
      → NetworkTrafficAlertValidation
      → NetworkTrafficAlertValidation
  validate_confirmation samples rule result =
      fail_if
        (ltb rule.confirmation_samples 1 || ltb max_confirmation_samples rule.confirmation_samples)
        (codes "network rule: confirmation_samples out of range") result
  validate_confirmation duration rule result =
      fail_if
        (not (d.is_finite rule.confirmation_duration_seconds)
          || (d.le rule.confirmation_duration_seconds (d.of_nat 0)
              || d.lt (d.of_nat max_confirmation_duration_seconds)
                  rule.confirmation_duration_seconds))
        (codes "network rule: confirmation_duration_seconds out of range") result

  unfoldable pub validate_target :
      NetworkTrafficAlertRule F → NetworkTrafficAlertValidation → NetworkTrafficAlertValidation
  validate_target rule result =
      fail_if (has_bad_char rule.target_identity)
        (codes "network rule: target_identity contains illegal characters")
        (fail_if (ltb max_target_identity_length (length rule.target_identity))
          (codes "network rule: target_identity too long")
          (fail_if (is_empty rule.target_identity) (codes "network rule: target_identity is empty")
            result))

  unfoldable pub validate_threshold :
      NetworkTrafficAlertRule F → NetworkTrafficAlertValidation → NetworkTrafficAlertValidation
  validate_threshold rule result =
      fail_if (d.lt (d.of_nat max_threshold) rule.threshold)
        (codes "network rule: threshold exceeds maximum")
        (fail_if (not (d.is_finite rule.threshold) || d.le rule.threshold (d.of_nat 0))
          (codes "network rule: threshold must be a positive number") result)

  unfoldable pub validate_rest :
      NetworkTrafficAlertRule F → NetworkTrafficAlertValidation → NetworkTrafficAlertValidation
  validate_rest rule result =
      fail_if (has_bad_char rule.name) (codes "network rule: name contains illegal characters") (
        fail_if (ltb max_rule_name_length (length rule.name)) (codes "network rule: name too long")
          (fail_if (not (is_alert rule.severity))
            (codes "network rule: severity must be 'warning' or 'critical'")
            (fail_if (ltb max_cooldown_seconds rule.cooldown_seconds)
              (codes "network rule: cooldown_seconds exceeds maximum") result)))

  -- `validateNetworkTrafficAlertRule`.
  unfoldable pub validate : NetworkTrafficAlertRule F → NetworkTrafficAlertValidation
  validate rule = validate_rest rule (
      validate_confirmation rule.confirmation rule (
        fail_if (not (unit_supported rule.type rule.unit))
          (codes "network rule: unit not supported for this alert type")
          (validate_threshold rule
            (validate_target rule (record { valid = true; problems = [] })))))

-- A field with the notes on it: where the test holds, the field is replaced and a note added.
abbrev pub adjust {ℓ} : {A : Type ℓ} → (A → Bool) → A → Text → A × List Text → A × List Text
adjust bad value message (v, notes) = if bad v then (value, notes ++ (message ∷ [])) else (v, notes)

module _ {F : Type 0} ⦃d : Double F⦄ where
  unfoldable pub clamp_threshold : F → F × List Text
  clamp_threshold threshold =
      adjust (λ v. d.lt (d.of_nat max_threshold) v) (d.of_nat max_threshold)
        (codes "clamped network rule threshold to maximum")
        (adjust (λ v. d.lt v (d.of_nat 0)) (d.of_nat 0)
          (codes "adjusted out-of-range network rule threshold to zero")
          (if d.is_finite threshold then threshold else d.of_nat 0, []))

  unfoldable pub clamp_duration : F → F × List Text
  clamp_duration seconds =
      adjust (λ v. d.lt (d.of_nat max_confirmation_duration_seconds) v)
        (d.of_nat max_confirmation_duration_seconds)
        (codes "clamped network rule confirmation_duration_seconds to maximum")
        (adjust (λ v. not (d.is_finite v) || d.le v (d.of_nat 0)) (d.of_nat 1)
          (codes "adjusted network rule confirmation_duration_seconds to 1 s") (seconds, []))

unfoldable pub clamp_samples : ℕ → ℕ × List Text
clamp_samples count =
    adjust (λ v. ltb max_confirmation_samples v) max_confirmation_samples
      (codes "clamped network rule confirmation_samples to maximum")
      (adjust (λ v. ltb v 1) 1 (codes "adjusted network rule confirmation_samples to minimum")
        (count, []))

unfoldable pub clamp_cooldown : ℕ → ℕ × List Text
clamp_cooldown seconds =
    adjust (λ v. ltb max_cooldown_seconds v) max_cooldown_seconds
      (codes "clamped network rule cooldown_seconds to maximum") (seconds, [])

unfoldable pub default_unit : NetworkTrafficAlertType → NetworkTrafficAlertUnit
default_unit receive = bytes_per_second
default_unit transmit = bytes_per_second
default_unit combined = bytes_per_second
default_unit rx_packets = packets_per_second
default_unit tx_packets = packets_per_second
default_unit _ = events_per_second

unfoldable pub repair_unit :
    NetworkTrafficAlertType → NetworkTrafficAlertUnit → NetworkTrafficAlertUnit × List Text
unfolding default_unit
repair_unit type unit =
    adjust (λ v. not (unit_supported type v)) (default_unit type)
      (codes "repaired unsupported unit for network rule alert type") (unit, [])

unfoldable pub repair_severity : AlertSeverity → AlertSeverity × List Text
repair_severity severity =
    adjust (λ v. not (is_alert v)) Types.critical
      (codes "repaired unsupported severity to Critical") (severity, [])

-- The identity is trimmed only if something is left of it.
unfoldable pub clamp_target : Text → Text × List Text
clamp_target target =
    adjust (λ v. ltb max_target_identity_length (length v))
      (take max_target_identity_length (if is_empty (trim target) then target else trim target))
      (codes "truncated network rule target_identity")
      (if is_empty (trim target)
        then (target, codes "network rule target_identity is empty after trimming" ∷ [])
        else (trim target, []))

unfoldable pub clamp_name : Text → Text × List Text
clamp_name name =
    let kept = filter (λ c. not (is_bad c)) name in
    adjust (λ v. ltb max_rule_name_length (length v)) (take max_rule_name_length kept)
      (codes "truncated network rule name") (kept, [])

module _ {F : Type 0} ⦃d : Double F⦄ where
  -- `clampNetworkTrafficAlertRule`: the rule after the call, and what it returns.
  unfoldable pub clamp :
      NetworkTrafficAlertRule F → NetworkTrafficAlertRule F × NetworkTrafficAlertValidation
  clamp rule =
      let (threshold, notes₁) = clamp_threshold rule.threshold in
      let positive = not (d.le threshold (d.of_nat 0)) in
      let (count, notes₂) = clamp_samples rule.confirmation_samples in
      let (seconds, notes₃) = clamp_duration rule.confirmation_duration_seconds in
      let (cooldown, notes₄) = clamp_cooldown rule.cooldown_seconds in
      let (unit, notes₅) = repair_unit rule.type rule.unit in
      let (severity, notes₆) = repair_severity rule.severity in
      let (target, notes₇) = clamp_target rule.target_identity in
      let (name, notes₈) = clamp_name rule.name in
      (
        record rule {
          threshold = threshold;
          confirmation_samples = count;
          confirmation_duration_seconds = seconds;
          cooldown_seconds = cooldown;
          unit = unit;
          severity = severity;
          target_identity = target;
          name = name;
        },
        record {
          valid = positive && not (is_empty (trim rule.target_identity));
          problems =
              notes₁
              ++ ((if positive
                    then []
                    else codes "network rule threshold must be greater than zero" ∷ [])
                  ++ (notes₂
                      ++ (notes₃ ++ (notes₄ ++ (notes₅ ++ (notes₆ ++ (notes₇ ++ notes₈)))))));
        },
      )
