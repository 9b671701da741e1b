-- ===== src/Alert/Queries.antt =====
-- The dashboard's view of `AlertManager` (src/alert_manager.cpp): `hasActiveAlerts`,
-- `worstActiveSeverity` and `activeAlerts`, which take the subjects in the map's order.
use arch_task_manager.Base.{
  ℕ, Bool, false, not, ◌||◌, Option, none, some, Text, ltb, List, [], ◌∷◌, ◌==◌, if◌then◌else◌, Map,
  nat_equality,
}
use arch_task_manager.Base.Decimal.{stoi}
use arch_task_manager.Alert.Types.{
  AlertType, AlertSeverity, normal, rank, of_index, severity_equality,
}
use arch_task_manager.Alert.Manager.{SubjectState, AlertManager, separator}

pub record ActiveAlert (F : Type 0) : Type 0 where
  pub type : AlertType
  pub severity : AlertSeverity
  pub source : Text
  pub value : F
  pub threshold : F

-- `kv.first.substr(0, sep)` and `kv.first.substr(sep + 1)` at the first separator. In a key with
-- none, `sep` is `npos`: the first part is the whole key, and so is the second, as `npos + 1` is 0.
unfoldable pub split_key : Text → Option (Text × Text)
split_key [] = none
split_key (c ∷ s) =
    let rest = split_key s in
    if c == separator
    then some ([], s)
    else elim rest [ none ↦ none | some (before, after) ↦ some (c ∷ before, after) ]

key_parts : Text → Text × Text
key_parts key = elim (split_key key) [ none ↦ (key, key) | some parts ↦ parts ]

decode_type : Option ℕ → Option AlertType
decode_type none = none
decode_type (some n) = of_index n

-- `none` where `std::stoi` throws or its number names no alert type.
unfoldable pub decode_key : Text → Option (AlertType × Text)
unfolding key_parts decode_type
decode_key key =
    let (before, after) = key_parts key in
    elim (decode_type (stoi before)) [ none ↦ none | some type ↦ some (type, after) ]

module _ {F : Type 0} where
  unfoldable pub any_active : Map Text (SubjectState F) → Bool
  any_active [] = false
  any_active ((key, state) ∷ rest) = not (state.severity == normal) || any_active rest

  unfoldable pub has_active_alerts : AlertManager F → Bool
  unfolding any_active
  has_active_alerts m = any_active m.subjects

  unfoldable pub worst_from : AlertSeverity → Map Text (SubjectState F) → AlertSeverity
  worst_from worst [] = worst
  worst_from worst ((key, state) ∷ rest) =
      worst_from (if ltb (rank worst) (rank state.severity) then state.severity else worst) rest

  unfoldable pub worst_active_severity : AlertManager F → AlertSeverity
  unfolding worst_from
  worst_active_severity m = worst_from normal m.subjects

  active_alert : SubjectState F → AlertType × Text → ActiveAlert F
  active_alert state (type, source) = record {
    type = type;
    severity = state.severity;
    source = source;
    value = state.value;
    threshold = state.threshold;
  }

  cons_decoded :
      SubjectState F
      → Option (AlertType × Text)
      → Option (List (ActiveAlert F))
      → Option (List (ActiveAlert F))
  unfolding active_alert
  cons_decoded state none rest = none
  cons_decoded state (some key) none = none
  cons_decoded state (some key) (some alerts) = some (active_alert state key ∷ alerts)

  unfoldable pub active_from : Map Text (SubjectState F) → Option (List (ActiveAlert F))
  unfolding cons_decoded
  active_from [] = some []
  active_from ((key, state) ∷ rest) =
      let others = active_from rest in
      if state.severity == normal then others else cons_decoded state (decode_key key) others

  -- `none` where decoding a key throws.
  unfoldable pub active_alerts : AlertManager F → Option (List (ActiveAlert F))
  unfolding active_from
  active_alerts m = active_from m.subjects
