-- ===== src/Network/TrafficAlert/Accepted.antt =====
-- The rules that `applyNetworkTrafficAlertRuleField` lets through (src/network_traffic_alert.cpp).
use arch_task_manager.Base.{
  ℕ, ◌<◌, ◌≤◌, ◌≡◌, refl, subst, true, false, Option, none, some, Text, length, arith,
  text_equality,
}
use mathlib.Core.Option.{none-ne-some, some-injective}
use arch_task_manager.Base.Int.{ℤ}
use arch_task_manager.Base.Double.{Double}
use arch_task_manager.Alert.Types.{AlertSeverity}
use arch_task_manager.Network.TrafficAlert.{NetworkTrafficAlertRule}
use arch_task_manager.Network.TrafficAlert.Validation.{
  max_target_identity_length, max_rule_name_length, has_bad_char, is_empty, is_alert,
}
use arch_task_manager.Network.TrafficAlert.Fields.{
  NetworkTrafficAlertRuleField, enabled, target_identity, type, threshold, unit, confirmation,
  confirmation_samples, confirmation_duration_seconds, notify_enabled, cooldown_seconds, repeat,
  severity, name, Numbers, parse_target_identity, parse_rule_name, parse_severity_field,
  positive_of,
}
use arch_task_manager.Network.TrafficAlert.Applying.{
  with_value, finite_of, positive_double_of, apply_field,
}

with_value_lem {ℓ κ} :
    {A : Type ℓ} {B : Type κ} (f : A → B) (o : Option A) (y : B)
    → with_value f o ≡ some y
    → (v : A) × (o ≡ some v) × (f v ≡ y)
unfolding with_value
with_value_lem f none y e = absurd (none-ne-some y e)
with_value_lem f (some v) y e = (v, refl, some-injective (f v) y e)

parse_target_identity_lem :
    (raw v : Text)
    → parse_target_identity raw ≡ some v
    → (is_empty v ≡ false) × (has_bad_char v ≡ false) × (length v ≤ max_target_identity_length)
unfolding parse_target_identity
parse_target_identity_lem raw v e = ground (arith, e)

parse_rule_name_lem :
    (raw v : Text)
    → parse_rule_name raw ≡ some v
    → (has_bad_char v ≡ false) × (length v ≤ max_rule_name_length)
unfolding parse_rule_name
parse_rule_name_lem raw v e = ground (arith, e)

parse_severity_field_lem :
    (raw : Text) (v : AlertSeverity) → parse_severity_field raw ≡ some v → is_alert v ≡ true
unfolding parse_severity_field is_alert
parse_severity_field_lem raw v e = ground (arith, e)

positive_of_lem : (z : ℤ) (v : ℕ) → positive_of z ≡ some v → 0 < v
unfolding positive_of
positive_of_lem z v e = ground (arith, e)

module _ {F : Type 0} ⦃d : Double F⦄ where
  -- An identity that is not empty, and a name, without illegal characters and within their limits;
  -- a finite threshold; at least one sample; a finite and positive duration; warning or critical.
  abbrev pub IsAccepted : NetworkTrafficAlertRule F → Type 0
  IsAccepted r =
      (is_empty r.target_identity ≡ false)
      × (has_bad_char r.target_identity ≡ false)
      × (length r.target_identity ≤ max_target_identity_length)
      × (d.is_finite r.threshold ≡ true)
      × (0 < r.confirmation_samples)
      × (d.is_finite r.confirmation_duration_seconds ≡ true)
      × (d.lt (d.of_nat 0) r.confirmation_duration_seconds ≡ true)
      × (is_alert r.severity ≡ true)
      × (has_bad_char r.name ≡ false)
      × (length r.name ≤ max_rule_name_length)

  finite_of_lem : (o : Option F) (v : F) → finite_of o ≡ some v → d.is_finite v ≡ true
  unfolding finite_of
  finite_of_lem o v e = ground (arith, e)

  positive_double_of_lem :
      (o : Option F) (v : F)
      → positive_double_of o ≡ some v
      → (d.is_finite v ≡ true) × (d.lt (d.of_nat 0) v ≡ true)
  unfolding positive_double_of
  positive_double_of_lem o v e = ground (arith, e)

  -- What `applyNetworkTrafficAlertRuleField` makes of an acceptable rule, whatever the field and its text are, is an acceptable rule, if it does not return false: no text sets an empty or an oversized identity, an illegal character, a threshold or duration that is not finite, a duration that is not positive, no samples, or a severity that does not alert.
  pub apply_field-IsAccepted :
      (numbers : Numbers F) (x y : NetworkTrafficAlertRule F) (f : NetworkTrafficAlertRuleField)
      (raw : Text)
      → IsAccepted x
      → apply_field numbers x f raw ≡ some y
      → IsAccepted y
  unfolding apply_field
  apply_field-IsAccepted numbers x y enabled raw a e =
      let (v, q, r) = with_value_lem _ _ y e in subst IsAccepted r a
  apply_field-IsAccepted numbers x y target_identity raw a e =
      let (v, q, r) = with_value_lem _ _ y e in
      let (n, g, l) = parse_target_identity_lem raw v q in
      subst IsAccepted r (n, g, l, a.3, a.4, a.5, a.6, a.7, a.8, a.9)
  apply_field-IsAccepted numbers x y type raw a e =
      let (v, q, r) = with_value_lem _ _ y e in subst IsAccepted r a
  apply_field-IsAccepted numbers x y threshold raw a e =
      let (v, q, r) = with_value_lem _ _ y e in
      subst IsAccepted r (a.0, a.1, a.2, finite_of_lem _ v q, a.4, a.5, a.6, a.7, a.8, a.9)
  apply_field-IsAccepted numbers x y unit raw a e =
      let (v, q, r) = with_value_lem _ _ y e in subst IsAccepted r a
  apply_field-IsAccepted numbers x y confirmation raw a e =
      let (v, q, r) = with_value_lem _ _ y e in subst IsAccepted r a
  apply_field-IsAccepted numbers x y confirmation_samples raw a e =
      let (v, q, r) = with_value_lem _ _ y e in
      subst IsAccepted r (a.0, a.1, a.2, a.3, positive_of_lem _ v q, a.5, a.6, a.7, a.8, a.9)
  apply_field-IsAccepted numbers x y confirmation_duration_seconds raw a e =
      let (v, q, r) = with_value_lem _ _ y e in
      let (n, p) = positive_double_of_lem _ v q in
      subst IsAccepted r (a.0, a.1, a.2, a.3, a.4, n, p, a.7, a.8, a.9)
  apply_field-IsAccepted numbers x y notify_enabled raw a e =
      let (v, q, r) = with_value_lem _ _ y e in subst IsAccepted r a
  apply_field-IsAccepted numbers x y cooldown_seconds raw a e =
      let (v, q, r) = with_value_lem _ _ y e in subst IsAccepted r a
  apply_field-IsAccepted numbers x y repeat raw a e =
      let (v, q, r) = with_value_lem _ _ y e in subst IsAccepted r a
  apply_field-IsAccepted numbers x y severity raw a e =
      let (v, q, r) = with_value_lem _ _ y e in
      subst IsAccepted r
        (a.0, a.1, a.2, a.3, a.4, a.5, a.6, parse_severity_field_lem raw v q, a.8, a.9)
  apply_field-IsAccepted numbers x y name raw a e =
      let (v, q, r) = with_value_lem _ _ y e in
      let (g, l) = parse_rule_name_lem raw v q in
      subst IsAccepted r (a.0, a.1, a.2, a.3, a.4, a.5, a.6, a.7, g, l)
