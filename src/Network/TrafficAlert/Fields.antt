-- ===== src/Network/TrafficAlert/Fields.antt =====
-- The fields of a traffic rule in the settings file: `applyNetworkTrafficAlertRuleField` and
-- `writeNetworkTrafficAlertRule` (src/network_traffic_alert.cpp).
use arch_task_manager.Base.{
  ℕ, Bool, true, false, ◌&&◌, ◌||◌, Option, none, some, Text, codes, [], ◌∷◌, if◌then◌else◌, ◌==◌,
  text_equality, eqb, ltb, length,
}
use arch_task_manager.Base.Int.{ℤ, pos, negsuc}
use arch_task_manager.Alert.Types.{AlertSeverity}
use arch_task_manager.Alert.Types
use arch_task_manager.Network.TrafficAlert.{
  NetworkTrafficAlertType, NetworkTrafficAlertUnit, NetworkTrafficAlertConfirmation, receive,
  transmit, combined, rx_packets, tx_packets, rx_errors, tx_errors, rx_dropped, tx_dropped,
  bytes_per_second, bits_per_second, packets_per_second, events_per_second, samples, duration,
}
use arch_task_manager.Network.TrafficAlert.Validation.{
  max_target_identity_length, max_rule_name_length, has_bad_char, is_empty, trim,
}

pub data NetworkTrafficAlertRuleField : Type 0 where
  enabled target_identity type threshold unit confirmation confirmation_samples :
      NetworkTrafficAlertRuleField
  confirmation_duration_seconds notify_enabled cooldown_seconds : NetworkTrafficAlertRuleField
  repeat severity name : NetworkTrafficAlertRuleField

-- `networkTrafficAlertRuleFieldName`.
pub field_name : NetworkTrafficAlertRuleField → Text
field_name enabled = codes "enabled"
field_name target_identity = codes "target_identity"
field_name type = codes "type"
field_name threshold = codes "threshold"
field_name unit = codes "unit"
field_name confirmation = codes "confirmation"
field_name confirmation_samples = codes "confirmation_samples"
field_name confirmation_duration_seconds = codes "confirmation_duration_seconds"
field_name notify_enabled = codes "notify_enabled"
field_name cooldown_seconds = codes "cooldown_seconds"
field_name repeat = codes "repeat"
field_name severity = codes "severity"
field_name name = codes "name"

-- What the program uses of the C library and of streams to read and print numbers: `strtol` and
-- `strtod` where they read the whole text without an error, and `<<` of a `double`.
pub record Numbers (F : Type 0) : Type 0 where
  pub strtol : Text → Option ℤ
  pub strtod : Text → Option F
  pub print : F → Text

-- `parseBoolField`.
unfoldable pub parse_bool_field : Text → Option Bool
parse_bool_field raw =
    let v = trim raw in
    if v == codes "true" || (v == codes "1" || v == codes "yes")
    then some true
    else if v == codes "false" || (v == codes "0" || v == codes "no")
    then some false
    else none

abbrev is_quote : ℕ → Bool
is_quote c = eqb c b'"' || eqb c b'\''

unfoldable pub strip_start : Text → Text
strip_start [] = []
strip_start (c ∷ s) = let rest = strip_start s in if is_quote c then rest else c ∷ s

unfoldable pub strip_end : Text → Text
strip_end [] = []
strip_end (c ∷ s) = let rest = strip_end s in if is_quote c && is_empty rest then [] else c ∷ rest

-- The local `trim` of the parsers of names: without the quotes at both ends.
unfoldable pub strip_quotes : Text → Text
unfolding strip_start strip_end
strip_quotes raw = strip_end (strip_start raw)

-- `parseTypeField`.
unfoldable pub parse_type_field : Text → Option NetworkTrafficAlertType
parse_type_field raw =
    let v = strip_quotes raw in
    if v == codes "receive"
    then some receive
    else if v == codes "transmit"
    then some transmit
    else if v == codes "combined"
    then some combined
    else if v == codes "rx_packets"
    then some rx_packets
    else if v == codes "tx_packets"
    then some tx_packets
    else if v == codes "rx_errors"
    then some rx_errors
    else if v == codes "tx_errors"
    then some tx_errors
    else if v == codes "rx_dropped"
    then some rx_dropped
    else if v == codes "tx_dropped"
    then some tx_dropped
    else none

-- `parseUnitField`.
unfoldable pub parse_unit_field : Text → Option NetworkTrafficAlertUnit
parse_unit_field raw =
    let v = strip_quotes raw in
    if v == codes "bytes_per_second"
    then some bytes_per_second
    else if v == codes "bits_per_second"
    then some bits_per_second
    else if v == codes "packets_per_second"
    then some packets_per_second
    else if v == codes "events_per_second"
    then some events_per_second
    else none

-- `parseConfirmationField`.
unfoldable pub parse_confirmation_field : Text → Option NetworkTrafficAlertConfirmation
parse_confirmation_field raw =
    let v = strip_quotes raw in
    if v == codes "samples"
    then some samples
    else if v == codes "duration"
    then some duration
    else none

-- `parseSeverityField`.
unfoldable pub parse_severity_field : Text → Option AlertSeverity
parse_severity_field raw =
    let v = strip_quotes raw in
    if v == codes "warning"
    then some Types.warning
    else if v == codes "critical"
    then some Types.critical
    else none

-- The text after the front quote ends with a quote, and the text without that.
unfoldable pub ends_quoted : Text → Bool
ends_quoted [] = false
ends_quoted (c ∷ []) = eqb c b'"'
ends_quoted (c ∷ (e ∷ s)) = ends_quoted (e ∷ s)

unfoldable pub without_last : Text → Text
without_last [] = []
without_last (c ∷ []) = []
without_last (c ∷ (e ∷ s)) = c ∷ without_last (e ∷ s)

unfoldable pub unquote : Text → Text
unquote [] = []
unquote (c ∷ rest) = if eqb c b'"' && ends_quoted rest then without_last rest else c ∷ rest

-- `trimAndUnquote`.
unfoldable pub trim_and_unquote : Text → Text
trim_and_unquote raw = unquote (trim raw)

unfoldable pub parse_target_identity : Text → Option Text
parse_target_identity raw =
    let v = trim_and_unquote raw in
    if is_empty v || (has_bad_char v || ltb max_target_identity_length (length v))
    then none
    else some v

unfoldable pub parse_rule_name : Text → Option Text
parse_rule_name raw =
    let v = trim_and_unquote raw in
    if has_bad_char v || ltb max_rule_name_length (length v) then none else some v

-- `strtolStrict`: 0 for what cannot be read.
unfoldable pub strtol_strict : Option ℤ → ℤ
strtol_strict none = pos 0
strtol_strict (some n) = n

-- The value where it is above 0, or at least 0.
unfoldable pub positive_of : ℤ → Option ℕ
positive_of (pos n) = if ltb 0 n then some n else none
positive_of (negsuc n) = none

unfoldable pub not_negative_of : ℤ → Option ℕ
not_negative_of (pos n) = some n
not_negative_of (negsuc n) = none
