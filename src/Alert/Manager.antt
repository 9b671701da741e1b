-- ===== src/Alert/Manager.antt =====
-- The state and the core operations of `AlertManager` (src/alert_manager.cpp): the severity state
-- machine, events recorded by other monitors, and the queries. `system_clock::now()` is an
-- argument. What the notification sink was called with is kept, oldest first, in `delivered`.
use arch_task_manager.Base.{
  ℕ, Bool, false, not, Option, none, some, Text, codes, ltb, List, [], ◌∷◌, ◌++◌, ◌==◌,
  if◌then◌else◌, length, tail, Map, find, insert, text_equality,
}
use arch_task_manager.Base.Double.{Double}
use arch_task_manager.Base.Decimal.{to_string}
use arch_task_manager.Alert.Types.{
  AlertType, temperature, disk_read_activity, disk_write_activity, network_receive,
  network_transmit, AlertSeverity, normal, warning, critical, AlertEvent, AlertThreshold, for_type,
  index, severity_equality, type_equality,
}

pub record SubjectState (F : Type 0) : Type 0 where
  pub severity : AlertSeverity
  pub threshold : F
  pub value : F

pub record AlertManager (F : Type 0) : Type 0 where
  pub max_history : ℕ
  pub history : List (AlertEvent F)
  pub thresholds : AlertType → AlertThreshold F
  pub subjects : Map Text (SubjectState F)
  pub has_sink : Bool
  pub delivered : List (AlertEvent F)

abbrev pub separator : ℕ
separator = b'|'

-- `subjectKey`.
unfoldable pub subject_key : AlertType → Text → Text
subject_key type source = to_string (index type) ++ (separator ∷ source)

module _ {F : Type 0} ⦃d : Double F⦄ where
  -- A default-constructed `SubjectState`, which `subjects_[key]` makes of a missing key.
  abbrev pub fresh_subject : SubjectState F
  fresh_subject = record { severity = normal; threshold = d.of_nat 0; value = d.of_nat 0 }

  or_fresh : Option (SubjectState F) → SubjectState F
  or_fresh none = fresh_subject
  or_fresh (some state) = state

  unfoldable pub subject : AlertManager F → Text → SubjectState F
  unfolding or_fresh
  subject m key = or_fresh (find key m.subjects)

  unfoldable pub set_subject : AlertManager F → Text → SubjectState F → AlertManager F
  set_subject m key state = record m { subjects = insert key state m.subjects }

  -- The constructor: its loop sets the default threshold of every type.
  unfoldable pub create : ℕ → AlertManager F
  create max_history = record {
    max_history = max_history;
    history = [];
    thresholds = for_type;
    subjects = [];
    has_sink = false;
    delivered = [];
  }

  unfoldable pub push_event : AlertManager F → AlertEvent F → AlertManager F
  push_event m event =
      let pushed = m.history ++ (event ∷ []) in
      record m { history = if ltb m.max_history (length pushed) then tail pushed else pushed }

  unfoldable pub notify_sink : AlertManager F → AlertEvent F → AlertManager F
  notify_sink m event =
      if m.has_sink then record m { delivered = m.delivered ++ (event ∷ []) } else m

  -- The severity that a value calls for, with the hysteresis band below `warn` keeping the
  -- previous one.
  unfoldable pub next_severity : F → F → F → F → AlertSeverity → AlertSeverity
  next_severity value warn crit recovery previous =
      if d.le crit value
      then critical
      else if d.le warn value
      then warning
      else if d.lt value recovery
      then normal
      else previous

  pub crossed_threshold : AlertSeverity → F → F → F → F
  crossed_threshold critical warn crit recovery = crit
  crossed_threshold warning warn crit recovery = warn
  crossed_threshold normal warn crit recovery = recovery

  -- The `while` loop of `formatRate`, a round for each suffix that is left.
  rate_text : F → List Text → Text → Text
  rate_text v [] suffix = d.fixed (if d.le (d.of_nat 100) v then 0 else 1) v ++ (b' ' ∷ suffix)
  rate_text v (larger ∷ rest) suffix =
      let next = rate_text (d.div v (d.of_nat 1024)) rest larger in
      if d.le (d.of_nat 1024) v
      then next
      else d.fixed (if d.le (d.of_nat 100) v then 0 else 1) v ++ (b' ' ∷ suffix)

  pub format_rate : F → Text
  unfolding rate_text
  format_rate bytes_per_second =
      rate_text (d.abs bytes_per_second)
        (codes "kB/s" ∷ codes "MB/s" ∷ codes "GB/s" ∷ codes "TB/s" ∷ []) (codes "B/s")

  pub format_percent : F → Text
  format_percent value = d.fixed 0 value ++ codes "%"

  -- The degree sign takes two bytes.
  pub format_celsius : F → Text
  format_celsius value = d.fixed 0 value ++ (0xc2 ∷ 0xb0 ∷ b'C' ∷ [])

  pub value_text : AlertType → F → Text
  value_text temperature value = format_celsius value
  value_text disk_read_activity value = format_rate value
  value_text disk_write_activity value = format_rate value
  value_text network_receive value = format_rate value
  value_text network_transmit value = format_rate value
  value_text _ value = format_percent value

  unfoldable pub transition_event :
      ℕ → AlertType → Text → F → F → F → F → Text → AlertSeverity → AlertEvent F
  transition_event now type source value warn crit recovery prefix next = record {
    type = type;
    severity = next;
    source = source;
    message = prefix ++ value_text type value;
    value = value;
    threshold = crossed_threshold next warn crit recovery;
    is_recovery = next == normal;
    timestamp = now;
  }

  -- `evaluate`: the manager after the call, and the event it returns.
  unfoldable pub evaluate :
      AlertManager F
      → ℕ
      → AlertType
      → Text
      → F
      → Bool
      → F
      → F
      → F
      → Text
      → AlertManager F × Option (AlertEvent F)
  evaluate m now type source value available warn crit recovery prefix =
      let key = subject_key type source in
      let state = subject m key in
      let next = next_severity value warn crit recovery state.severity in
      let event = transition_event now type source value warn crit recovery prefix next in
      let changed : SubjectState F = record {
        severity = next;
        threshold = event.threshold;
        value = value;
      } in
      if not available
      then (set_subject m key state, none)
      else if next == state.severity
      then (set_subject m key (record state { value = value }), none)
      else (notify_sink (push_event (set_subject m key changed) event) event, some event)

  pub rule_event : ℕ → AlertType → Text → AlertSeverity → F → F → Text → AlertEvent F
  rule_event now type source severity value limit message = record {
    type = type;
    severity = severity;
    source = source;
    message = message;
    value = value;
    threshold = limit;
    is_recovery = severity == normal;
    timestamp = now;
  }

  -- `recordRuleEvent`.
  unfoldable pub record_rule_event :
      AlertManager F → ℕ → AlertType → Text → AlertSeverity → F → F → Text → AlertManager F
  record_rule_event m now type source severity value limit message =
      let key = subject_key type source in
      let state = subject m key in
      let changed : SubjectState F = record {
        severity = severity;
        threshold = limit;
        value = value;
      } in
      if not (d.is_finite value)
      then set_subject m key (record state { value = d.of_nat 0 })
      else if state.severity == severity
      then set_subject m key (record state { value = value; threshold = limit })
      else push_event (set_subject m key changed)
          (rule_event now type source severity value limit message)

  clear_found : AlertManager F → Text → Option (SubjectState F) → AlertManager F
  clear_found m key none = m
  clear_found m key (some state) =
      if state.severity == normal then m else set_subject m key (record state { severity = normal })

  -- `clearSubject`.
  unfoldable pub clear_subject : AlertManager F → AlertType → Text → AlertManager F
  unfolding clear_found
  clear_subject m type source =
      let key = subject_key type source in clear_found m key (find key m.subjects)

  unfoldable pub reset : AlertManager F → AlertManager F
  reset m = record m { history = []; subjects = [] }

  unfoldable pub set_notification_sink : AlertManager F → Bool → AlertManager F
  set_notification_sink m present = record m { has_sink = present }

  -- An assignment through the reference that `threshold(type)` returns.
  unfoldable pub set_threshold : AlertManager F → AlertType → AlertThreshold F → AlertManager F
  set_threshold m type limits = record m {
    thresholds = λ t. if t == type then limits else m.thresholds t;
  }

  severity_of : Option (SubjectState F) → AlertSeverity
  severity_of none = normal
  severity_of (some state) = state.severity

  -- `currentSeverity`.
  unfoldable pub current_severity : AlertManager F → AlertType → Text → AlertSeverity
  unfolding severity_of
  current_severity m type source = severity_of (find (subject_key type source) m.subjects)
