-- ===== src/Notification.antt =====
-- `NotificationManager` (src/notification_manager.cpp). The D-Bus library is not part of the
-- program: what one call of it does is an argument, and `calls` keeps the calls that were made.
use arch_task_manager.Base.{
  ℕ, ◌+◌, ◌-◌, ◌≡◌, Bool, true, false, not, ◌&&◌, ◌||◌, Option, none, some, Text, codes, List, [],
  ◌∷◌, ◌++◌, if◌then◌else◌, text_equality, Map, find, insert, ltb,
}
use arch_task_manager.Alert.Types.{
  AlertEvent, AlertSeverity, normal, warning, critical, alert_type_name, alert_severity_name,
}
pub mod Delivery

-- `urgencyFor`.
pub urgency_for : AlertSeverity → ℕ
urgency_for normal = 0
urgency_for warning = 1
urgency_for critical = 2

-- The durations are in the clock's nanoseconds.
pub record NotificationSettings : Type 0 where
  pub enabled : Bool
  pub notify_on_warning : Bool
  pub notify_on_critical : Bool
  pub notify_on_recovery : Bool
  pub timeout_ms : ℕ
  pub cooldown : ℕ

-- The arguments of the method `Notify` that vary.
pub record NotifyCall : Type 0 where
  pub replaces_id : ℕ
  pub title : Text
  pub body : Text
  pub urgency : ℕ
  pub timeout_ms : ℕ

pub record NotificationManager : Type 0 where
  pub settings : NotificationSettings
  pub connected : Bool
  pub has_bus : Bool
  pub last_sent : Map Text ℕ
  pub ids : Map Text ℕ
  pub calls : List NotifyCall

-- What becomes of one call: its message cannot be built, the call fails, or it returns an id.
pub data Reply : Type 0 where
  unbuilt failed : Reply
  delivered : ℕ → Reply

-- `connect`, with the result of opening the user's bus.
pub connect : NotificationManager → Bool → NotificationManager
connect m opened = record m { has_bus = opened; connected = opened }

allows : NotificationSettings → AlertSeverity → Bool
allows settings critical = settings.notify_on_critical
allows settings warning = settings.notify_on_warning
allows settings normal = false

id_or_zero : Option ℕ → ℕ
id_or_zero none = 0
id_or_zero (some id) = id

pub within : ℕ → ℕ → Option ℕ → Bool
within now cooldown none = false
within now cooldown (some sent) = ltb now (sent + cooldown)

module _ {F : Type 0} where
  -- The key of an event's source.
  pub source_key : AlertEvent F → Text
  source_key event = alert_type_name event.type ++ (b'|' ∷ event.source)

  -- `shouldNotify`.
  unfoldable pub should_notify : NotificationSettings → AlertEvent F → Bool
  unfolding allows
  should_notify settings event =
      if not settings.enabled
      then false
      else if event.is_recovery
      then settings.notify_on_recovery
      else allows settings event.severity

  -- `inCooldown`: less than the cooldown has passed since the last delivery for this source.
  unfoldable pub in_cooldown : NotificationManager → ℕ → AlertEvent F → Bool
  unfolding within
  in_cooldown m now event = within now m.settings.cooldown (find (source_key event) m.last_sent)

  pub title_of : AlertEvent F → Text
  title_of event =
      if event.is_recovery
      then codes "Recovered: " ++ alert_type_name event.type
      else alert_severity_name event.severity
        ++ (b' ' ∷ 0xe2 ∷ 0x80 ∷ 0x94 ∷ b' ' ∷ alert_type_name event.type)

  pub call_for : NotificationManager → AlertEvent F → NotifyCall
  unfolding id_or_zero
  call_for m event = record {
    replaces_id = id_or_zero (find (source_key event) m.ids);
    title = title_of event;
    body = event.source ++ (codes ": " ++ event.message);
    urgency = urgency_for event.severity;
    timeout_ms = m.settings.timeout_ms;
  }

  -- The call, and what `deliver` returns.
  pub call_bus : NotificationManager → AlertEvent F → Reply → NotificationManager × Bool
  call_bus m event unbuilt = (m, false)
  call_bus m event failed = (
    record m { calls = m.calls ++ (call_for m event ∷ []); has_bus = false; connected = false },
    false,
  )
  call_bus m event (delivered id) = (
    record m {
      calls = m.calls ++ (call_for m event ∷ []);
      ids = insert (source_key event) id m.ids;
    },
    true,
  )

  -- `deliver`.
  pub deliver : NotificationManager → AlertEvent F → Reply → NotificationManager × Bool
  unfolding call_bus
  deliver m event reply = if m.has_bus then call_bus m event reply else (m, false)

  -- `notify`. The clock is read for the cooldown and again after the delivery.
  pub notify : NotificationManager → ℕ → ℕ → AlertEvent F → Reply → NotificationManager
  notify m now after event reply =
      let (m', ok) = deliver m event reply in
      if not (should_notify m.settings event)
      then m
      else if in_cooldown m now event
      then m
      else if ok
      then record m' { last_sent = insert (source_key event) after m'.last_sent }
      else m'

  pub notify_all : NotificationManager → List (ℕ × ℕ × AlertEvent F × Reply) → NotificationManager
  notify_all m [] = m
  notify_all m ((now, after, event, reply) ∷ rest) =
      notify_all (notify m now after event reply) rest
