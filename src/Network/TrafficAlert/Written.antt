-- ===== src/Network/TrafficAlert/Written.antt =====
-- The round trip of a traffic rule through the settings file
-- (src/network_traffic_alert.cpp).
use arch_task_manager.Base.{
  ℕ, ◌<◌, ◌≤◌, ◌≡◌, refl, ap, Bool, true, false, ◌&&◌, some, Text, [], ◌∷◌, ◌++◌, if◌then◌else◌,
  ltb, length, arith, text_beq, text_equality, Bool-cases,
}
use arch_task_manager.Base.Int.{pos}
use arch_task_manager.Base.Double.{Double}
use arch_task_manager.Alert.Types.{AlertSeverity}
use arch_task_manager.Alert.Types
use arch_task_manager.Network.TrafficAlert.{
  NetworkTrafficAlertType, NetworkTrafficAlertUnit, NetworkTrafficAlertConfirmation, receive,
  bytes_per_second, samples, duration, type_name, unit_name,
}
use arch_task_manager.Network.TrafficAlert.Validation.{
  max_target_identity_length, max_rule_name_length, has_bad_char, is_blank, is_empty, is_alert,
  trim, trim_start, trim_end,
}
use arch_task_manager.Network.TrafficAlert.Fields.{
  parse_bool_field, parse_type_field, parse_unit_field, parse_confirmation_field,
  parse_severity_field, parse_target_identity, parse_rule_name, positive_of, not_negative_of,
  strip_quotes, strip_start, strip_end, unquote, ends_quoted, without_last, trim_and_unquote,
}
use arch_task_manager.Network.TrafficAlert.Applying.{
  bool_text, confirmation_text, severity_text, quoted, finite_of, positive_double_of,
}

pub parse_bool_field-bool_text : (b : Bool) → parse_bool_field (bool_text b) ≡ some b
unfolding parse_bool_field bool_text trim trim_start trim_end is_blank text_beq
parse_bool_field-bool_text true = refl
parse_bool_field-bool_text false = refl

pub parse_type_field-type_name :
    (t : NetworkTrafficAlertType) → parse_type_field (quoted (type_name t)) ≡ some t
unfolding parse_type_field quoted type_name strip_quotes strip_start strip_end text_beq
parse_type_field-type_name receive = refl
parse_type_field-type_name t = refl

pub parse_unit_field-unit_name :
    (u : NetworkTrafficAlertUnit) → parse_unit_field (quoted (unit_name u)) ≡ some u
unfolding parse_unit_field quoted unit_name strip_quotes strip_start strip_end text_beq
parse_unit_field-unit_name bytes_per_second = refl
parse_unit_field-unit_name u = refl

pub parse_confirmation_field-confirmation_text :
    (c : NetworkTrafficAlertConfirmation)
    → parse_confirmation_field (quoted (confirmation_text c)) ≡ some c
unfolding parse_confirmation_field quoted confirmation_text strip_quotes strip_start strip_end
    text_beq
parse_confirmation_field-confirmation_text samples = refl
parse_confirmation_field-confirmation_text duration = refl

pub parse_severity_field-severity_text :
    (s : AlertSeverity)
    → is_alert s ≡ true
    → parse_severity_field (quoted (severity_text s)) ≡ some s
unfolding parse_severity_field quoted severity_text strip_quotes strip_start strip_end text_beq
    is_alert
parse_severity_field-severity_text Types.warning h = refl
parse_severity_field-severity_text Types.critical h = refl
parse_severity_field-severity_text Types.normal h = absurd (ground arith)

not_empty : (t : Text) → is_empty (t ++ (b'"' ∷ [])) ≡ false
not_empty [] = refl
not_empty (c ∷ t) = refl

keep_first :
    (c : ℕ) (s : Text) (b : Bool) → b ≡ false → (if is_blank c && b then [] else c ∷ s) ≡ c ∷ s
keep_first c s b e = ground (arith, Bool-cases (is_blank c))

trim_end-quote : (t : Text) → trim_end (t ++ (b'"' ∷ [])) ≡ t ++ (b'"' ∷ [])
unfolding trim_end is_blank
trim_end-quote [] = refl
trim_end-quote (c ∷ t) =
    rw (trim_end-quote t)
      (keep_first c (t ++ (b'"' ∷ [])) (is_empty (t ++ (b'"' ∷ []))) (not_empty t))

ends_quoted-quote : (t : Text) → ends_quoted (t ++ (b'"' ∷ [])) ≡ true
unfolding ends_quoted
ends_quoted-quote [] = refl
ends_quoted-quote (c ∷ []) = refl
ends_quoted-quote (c ∷ (e ∷ t)) = ends_quoted-quote (e ∷ t)

without_last-quote : (t : Text) → without_last (t ++ (b'"' ∷ [])) ≡ t
unfolding without_last
without_last-quote [] = refl
without_last-quote (c ∷ []) = refl
without_last-quote (c ∷ (e ∷ t)) = ap (λ s. c ∷ s) (without_last-quote (e ∷ t))

trim_and_unquote-quoted : (t : Text) → trim_and_unquote (quoted t) ≡ t
unfolding trim_and_unquote unquote quoted trim trim_start trim_end is_blank
trim_and_unquote-quoted t = rw (trim_end-quote t) (rw (ends_quoted-quote t) (without_last-quote t))

fits_limit : (n m : ℕ) → n ≤ m → ltb m n ≡ false
fits_limit n m h = ground arith

pub parse_target_identity-quoted :
    (t : Text)
    → is_empty t ≡ false
    → has_bad_char t ≡ false
    → length t ≤ max_target_identity_length
    → parse_target_identity (quoted t) ≡ some t
unfolding parse_target_identity
parse_target_identity-quoted t e b l =
    rw (trim_and_unquote-quoted t)
      (rw (e, b, fits_limit (length t) max_target_identity_length l) refl)

pub parse_rule_name-quoted :
    (t : Text)
    → has_bad_char t ≡ false
    → length t ≤ max_rule_name_length
    → parse_rule_name (quoted t) ≡ some t
unfolding parse_rule_name
parse_rule_name-quoted t b l =
    rw (trim_and_unquote-quoted t) (rw (b, fits_limit (length t) max_rule_name_length l) refl)

pub positive_of-pos : (n : ℕ) → 0 < n → positive_of (pos n) ≡ some n
unfolding positive_of
positive_of-pos n h = ground arith

pub not_negative_of-pos : (n : ℕ) → not_negative_of (pos n) ≡ some n
unfolding not_negative_of
not_negative_of-pos n = refl

module _ {F : Type 0} ⦃d : Double F⦄ where
  pub finite_of-some : (v : F) → d.is_finite v ≡ true → finite_of (some v) ≡ some v
  unfolding finite_of
  finite_of-some v e = rw e refl

  pub positive_double_of-some :
      (v : F)
      → d.is_finite v ≡ true
      → d.lt (d.of_nat 0) v ≡ true
      → positive_double_of (some v) ≡ some v
  unfolding positive_double_of
  positive_double_of-some v e p = rw (e, p) refl
