-- ===== src/Network/TrafficAlert/Restored.antt =====
-- What `applyNetworkTrafficAlertRuleField` makes of the fields that `writeNetworkTrafficAlertRule`
-- writes (src/network_traffic_alert.cpp).
use arch_task_manager.Base.{
  ℕ, ◌<◌, ◌^◌, ◌≡◌, refl, ap, ◌∙◌, true, Option, none, some, List, [], ◌∷◌, text_equality,
}
use arch_task_manager.Base.Int.{pos}
use arch_task_manager.Base.Decimal.{to_string}
use arch_task_manager.Base.Double.{Double}
use arch_task_manager.Network.TrafficAlert.{NetworkTrafficAlertRule}
use arch_task_manager.Network.TrafficAlert.Fields.{
  NetworkTrafficAlertRuleField, enabled, target_identity, type, threshold, unit, confirmation,
  confirmation_samples, confirmation_duration_seconds, notify_enabled, cooldown_seconds, repeat,
  severity, name, Numbers, strtol_strict, positive_of, not_negative_of,
}
use arch_task_manager.Network.TrafficAlert.Written.{
  parse_bool_field-bool_text, parse_type_field-type_name, parse_unit_field-unit_name,
  parse_confirmation_field-confirmation_text, parse_severity_field-severity_text,
  parse_target_identity-quoted, parse_rule_name-quoted, finite_of-some, positive_double_of-some,
  positive_of-pos, not_negative_of-pos,
}
use arch_task_manager.Network.TrafficAlert.Accepted.{IsAccepted}
use arch_task_manager.Network.TrafficAlert.Applying.{
  with_value, finite_of, positive_double_of, apply_field, field_text, all_fields,
}

-- The numbers of a rule can be read from their printed texts: the two whole numbers are in the
-- range of `long`, and `strtod` reads the text of the threshold as `t` and that of the duration as
-- `u`, which are finite, and `u` is positive.
pub record IsPrintable {F : Type 0} ⦃d : Double F⦄ (numbers : Numbers F) (t u : F)
    (r : NetworkTrafficAlertRule F) : Type 0 where
  pub samples_small : r.confirmation_samples < 2 ^ 63
  pub cooldown_small : r.cooldown_seconds < 2 ^ 63
  pub threshold_read : numbers.strtod (numbers.print r.threshold) ≡ some t
  pub threshold_finite : d.is_finite t ≡ true
  pub duration_read : numbers.strtod (numbers.print r.confirmation_duration_seconds) ≡ some u
  pub duration_finite : d.is_finite u ≡ true
  pub duration_positive : d.lt (d.of_nat 0) u ≡ true

-- The rule with another threshold and duration.
abbrev pub with_numbers :
    {F : Type 0} → F → F → NetworkTrafficAlertRule F → NetworkTrafficAlertRule F
with_numbers t u r = record r { threshold = t; confirmation_duration_seconds = u }

module _ {F : Type 0} ⦃d : Double F⦄ where
  -- The rule with one field of another rule.
  copy_field :
      NetworkTrafficAlertRule F
      → NetworkTrafficAlertRule F
      → NetworkTrafficAlertRuleField
      → NetworkTrafficAlertRule F
  copy_field r x enabled = record x { enabled = r.enabled }
  copy_field r x target_identity = record x { target_identity = r.target_identity }
  copy_field r x type = record x { type = r.type }
  copy_field r x threshold = record x { threshold = r.threshold }
  copy_field r x unit = record x { unit = r.unit }
  copy_field r x confirmation = record x { confirmation = r.confirmation }
  copy_field r x confirmation_samples = record x { confirmation_samples = r.confirmation_samples }
  copy_field r x confirmation_duration_seconds = record x {
    confirmation_duration_seconds = r.confirmation_duration_seconds;
  }
  copy_field r x notify_enabled = record x { notify_enabled = r.notify_enabled }
  copy_field r x cooldown_seconds = record x { cooldown_seconds = r.cooldown_seconds }
  copy_field r x repeat = record x { repeat = r.repeat }
  copy_field r x severity = record x { severity = r.severity }
  copy_field r x name = record x { name = r.name }

  -- The written fields are applied one after the other.
  pub apply_written :
      Numbers F
      → NetworkTrafficAlertRule F
      → List NetworkTrafficAlertRuleField
      → Option (NetworkTrafficAlertRule F)
      → Option (NetworkTrafficAlertRule F)
  apply_written numbers r [] x = x
  apply_written numbers r (f ∷ fields) none = none
  apply_written numbers r (f ∷ fields) (some x) =
      apply_written numbers r fields (apply_field numbers x f (field_text numbers r f))

  copy_fields :
      NetworkTrafficAlertRule F
      → NetworkTrafficAlertRule F
      → List NetworkTrafficAlertRuleField
      → NetworkTrafficAlertRule F
  copy_fields r x [] = x
  copy_fields r x (f ∷ fields) = copy_fields r (copy_field r x f) fields

  module _ (numbers : Numbers F) (t u : F) (r : NetworkTrafficAlertRule F)
      (whole : (n : ℕ) → n < 2 ^ 63 → numbers.strtol (to_string n) ≡ some (pos n))
      (a : IsAccepted r) (w : IsPrintable numbers t u r) where
    strtol_strict-to_string :
        (n : ℕ) → n < 2 ^ 63 → strtol_strict (numbers.strtol (to_string n)) ≡ pos n
    unfolding strtol_strict
    strtol_strict-to_string n h = ap strtol_strict (whole n h)

    apply_field-field_text :
        (x : NetworkTrafficAlertRule F) (f : NetworkTrafficAlertRuleField)
        → apply_field numbers x f (field_text numbers r f)
          ≡ some (copy_field (with_numbers t u r) x f)
    unfolding apply_field field_text copy_field with_value
    apply_field-field_text x enabled = ap (with_value _) (parse_bool_field-bool_text r.enabled)
    apply_field-field_text x target_identity =
        ap (with_value _) (parse_target_identity-quoted r.target_identity a.0 a.1 a.2)
    apply_field-field_text x type = ap (with_value _) (parse_type_field-type_name r.type)
    apply_field-field_text x threshold =
        ap (with_value _) (ap finite_of w.threshold_read ∙ finite_of-some t w.threshold_finite)
    apply_field-field_text x unit = ap (with_value _) (parse_unit_field-unit_name r.unit)
    apply_field-field_text x confirmation =
        ap (with_value _) (parse_confirmation_field-confirmation_text r.confirmation)
    apply_field-field_text x confirmation_samples = ap (with_value _) (
        ap positive_of (strtol_strict-to_string r.confirmation_samples w.samples_small)
        ∙ positive_of-pos r.confirmation_samples a.4)
    apply_field-field_text x confirmation_duration_seconds = ap (with_value _) (
        ap positive_double_of w.duration_read
        ∙ positive_double_of-some u w.duration_finite w.duration_positive)
    apply_field-field_text x notify_enabled =
        ap (with_value _) (parse_bool_field-bool_text r.notify_enabled)
    apply_field-field_text x cooldown_seconds = ap (with_value _) (
        ap not_negative_of (strtol_strict-to_string r.cooldown_seconds w.cooldown_small)
        ∙ not_negative_of-pos r.cooldown_seconds)
    apply_field-field_text x repeat = ap (with_value _) (parse_bool_field-bool_text r.repeat)
    apply_field-field_text x severity =
        ap (with_value _) (parse_severity_field-severity_text r.severity a.7)
    apply_field-field_text x name = ap (with_value _) (parse_rule_name-quoted r.name a.8 a.9)

    apply_written-copy_fields :
        (x : NetworkTrafficAlertRule F) (fields : List NetworkTrafficAlertRuleField)
        → apply_written numbers r fields (some x) ≡ some (copy_fields (with_numbers t u r) x fields)
    unfolding apply_written copy_fields
    apply_written-copy_fields x [] = refl
    apply_written-copy_fields x (f ∷ fields) =
        ap (apply_written numbers r fields) (apply_field-field_text x f)
        ∙ apply_written-copy_fields (copy_field (with_numbers t u r) x f) fields

  -- The fields that `writeNetworkTrafficAlertRule` writes of a rule that `applyNetworkTrafficAlertRuleField` accepts, applied one after the other by it to any rule, give back the rule, but with the threshold and the duration that `strtod` reads in their printed texts, which must be finite, and the duration positive. The number of samples and the cooldown are below 2^63, where `strtol` reads decimal digits as the number that they spell.
  pub apply_written-all_fields :
      (numbers : Numbers F) (t u : F) (r x : NetworkTrafficAlertRule F)
      → ((n : ℕ) → n < 2 ^ 63 → numbers.strtol (to_string n) ≡ some (pos n))
      → IsAccepted r
      → IsPrintable numbers t u r
      → apply_written numbers r all_fields (some x) ≡ some (with_numbers t u r)
  unfolding copy_fields copy_field
  apply_written-all_fields numbers t u r x whole a w =
      apply_written-copy_fields numbers t u r whole a w x all_fields
