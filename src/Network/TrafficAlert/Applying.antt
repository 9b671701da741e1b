-- ===== src/Network/TrafficAlert/Applying.antt =====
-- `applyNetworkTrafficAlertRuleField` and `writeNetworkTrafficAlertRule`
-- (src/network_traffic_alert.cpp).
use arch_task_manager.Base.{
  ℕ, Bool, true, false, ◌&&◌, Option, none, some, Text, codes, List, [], ◌∷◌, ◌++◌, if◌then◌else◌,
}
use arch_task_manager.Base.Decimal.{to_string}
use arch_task_manager.Base.Double.{Double}
use arch_task_manager.Alert.Types.{AlertSeverity}
use arch_task_manager.Alert.Types
use arch_task_manager.Network.TrafficAlert.{
  NetworkTrafficAlertRule, NetworkTrafficAlertConfirmation, samples, duration, type_name, unit_name,
}
use arch_task_manager.Network.TrafficAlert.Fields.{
  NetworkTrafficAlertRuleField, enabled, target_identity, type, threshold, unit, confirmation,
  confirmation_samples, confirmation_duration_seconds, notify_enabled, cooldown_seconds, repeat,
  severity, name, field_name, Numbers, parse_bool_field, parse_type_field, parse_unit_field,
  parse_confirmation_field, parse_severity_field, parse_target_identity, parse_rule_name,
  strtol_strict, positive_of, not_negative_of,
}

-- The rule with a value that could be parsed.
unfoldable pub with_value {ℓ κ} : {A : Type ℓ} {B : Type κ} → (A → B) → Option A → Option B
with_value f none = none
with_value f (some v) = some (f v)

unfoldable pub bool_text : Bool → Text
bool_text true = codes "true"
bool_text false = codes "false"

unfoldable pub confirmation_text : NetworkTrafficAlertConfirmation → Text
confirmation_text samples = codes "samples"
confirmation_text duration = codes "duration"

-- Every severity but warning is written as critical.
unfoldable pub severity_text : AlertSeverity → Text
severity_text Types.warning = codes "warning"
severity_text Types.critical = codes "critical"
severity_text Types.normal = codes "critical"

unfoldable pub quoted : Text → Text
quoted t = b'"' ∷ (t ++ (b'"' ∷ []))

module _ {F : Type 0} ⦃d : Double F⦄ where
  -- `strtodStrict` gives NaN for what it cannot read, and NaN is not finite.
  unfoldable pub finite_of : Option F → Option F
  finite_of none = none
  finite_of (some v) = if d.is_finite v then some v else none

  unfoldable pub positive_double_of : Option F → Option F
  positive_double_of none = none
  positive_double_of (some v) = if d.is_finite v && d.lt (d.of_nat 0) v then some v else none

module _ {F : Type 0} ⦃d : Double F⦄ (numbers : Numbers F) where
  -- `applyNetworkTrafficAlertRuleField`; `none` where it returns false, with the rule unchanged.
  unfoldable pub apply_field :
      NetworkTrafficAlertRule F
      → NetworkTrafficAlertRuleField
      → Text
      → Option (NetworkTrafficAlertRule F)
  apply_field rule enabled raw =
      with_value (λ v. record rule { enabled = v }) (parse_bool_field raw)
  apply_field rule target_identity raw =
      with_value (λ v. record rule { target_identity = v }) (parse_target_identity raw)
  apply_field rule type raw = with_value (λ v. record rule { type = v }) (parse_type_field raw)
  apply_field rule threshold raw =
      with_value (λ v. record rule { threshold = v }) (finite_of (numbers.strtod raw))
  apply_field rule unit raw = with_value (λ v. record rule { unit = v }) (parse_unit_field raw)
  apply_field rule confirmation raw =
      with_value (λ v. record rule { confirmation = v }) (parse_confirmation_field raw)
  apply_field rule confirmation_samples raw =
      with_value (λ v. record rule { confirmation_samples = v })
        (positive_of (strtol_strict (numbers.strtol raw)))
  apply_field rule confirmation_duration_seconds raw =
      with_value (λ v. record rule { confirmation_duration_seconds = v })
        (positive_double_of (numbers.strtod raw))
  apply_field rule notify_enabled raw =
      with_value (λ v. record rule { notify_enabled = v }) (parse_bool_field raw)
  apply_field rule cooldown_seconds raw =
      with_value (λ v. record rule { cooldown_seconds = v })
        (not_negative_of (strtol_strict (numbers.strtol raw)))
  apply_field rule repeat raw = with_value (λ v. record rule { repeat = v }) (parse_bool_field raw)
  apply_field rule severity raw =
      with_value (λ v. record rule { severity = v }) (parse_severity_field raw)
  apply_field rule name raw = with_value (λ v. record rule { name = v }) (parse_rule_name raw)

  -- The value of a field as it is written.
  unfoldable pub field_text : NetworkTrafficAlertRule F → NetworkTrafficAlertRuleField → Text
  field_text rule enabled = bool_text rule.enabled
  field_text rule target_identity = quoted rule.target_identity
  field_text rule type = quoted (type_name rule.type)
  field_text rule threshold = numbers.print rule.threshold
  field_text rule unit = quoted (unit_name rule.unit)
  field_text rule confirmation = quoted (confirmation_text rule.confirmation)
  field_text rule confirmation_samples = to_string rule.confirmation_samples
  field_text rule confirmation_duration_seconds = numbers.print rule.confirmation_duration_seconds
  field_text rule notify_enabled = bool_text rule.notify_enabled
  field_text rule cooldown_seconds = to_string rule.cooldown_seconds
  field_text rule repeat = bool_text rule.repeat
  field_text rule severity = quoted (severity_text rule.severity)
  field_text rule name = quoted rule.name

  pub write_fields : NetworkTrafficAlertRule F → List NetworkTrafficAlertRuleField → Text
  write_fields rule [] = []
  write_fields rule (f ∷ fields) =
      field_name f ++ (codes " = " ++ (field_text rule f ++ (b'\n' ∷ write_fields rule fields)))

-- The fields in the order in which they are written.
abbrev pub all_fields : List NetworkTrafficAlertRuleField
all_fields =
    enabled ∷ target_identity ∷ type ∷ threshold ∷ unit ∷ confirmation ∷ confirmation_samples
    ∷ confirmation_duration_seconds ∷ notify_enabled ∷ cooldown_seconds ∷ repeat ∷ severity ∷ name
    ∷ []

-- `writeNetworkTrafficAlertRule`.
pub write_rule : {F : Type 0} ⦃d : Double F⦄ → Numbers F → ℕ → NetworkTrafficAlertRule F → Text
write_rule numbers index rule =
    codes "[alerts.network_rule."
    ++ (to_string index ++ (codes "]\n" ++ write_fields numbers rule all_fields))
