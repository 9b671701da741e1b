-- ===== src/Network/LinkState/Tracking.antt =====
-- `NetworkLinkStateMonitor` (src/network_link_state.cpp): the tracked interfaces, the history of
-- link events, and the alerts that are recorded. The two clocks are arguments, the alert manager that the monitor refers to is part of its state, and `sent` keeps what the event
-- sink was called with.
use arch_task_manager.Base.{
  ℕ, Bool, true, false, not, ◌&&◌, ◌||◌, Text, List, [], ◌∷◌, ◌++◌, if◌then◌else◌, text_equality,
  Map, insert, is_some, max,
}
use arch_task_manager.Base.Double.{Double}
use arch_task_manager.History
use arch_task_manager.History.{History}
use arch_task_manager.Alert.Types.{AlertSeverity, AlertEvent, AlertType}
use arch_task_manager.Alert.Types
use arch_task_manager.Alert.Manager.{AlertManager, record_rule_event}
use arch_task_manager.Network.Interface.{NetworkInterfaceInfo}
use arch_task_manager.Network.LinkState.{
  NetworkOperState, NetworkCarrierState, NetworkAdminState, NetworkLinkAvailability, oper_beq,
  carrier_beq, admin_beq, is_connected, parse_oper_state, parse_carrier_state, parse_admin_state,
  link_availability,
}

pub data NetworkLinkEventType : Type 0 where
  state_changed appeared disappeared reappeared : NetworkLinkEventType

-- The three sub-states of a link.
pub record LinkSample : Type 0 where
  pub oper : NetworkOperState
  pub carrier : NetworkCarrierState
  pub admin : NetworkAdminState

-- The member initialisers of the event's previous states.
abbrev pub no_sample : LinkSample
no_sample = record {
  oper = NetworkOperState.unknown;
  carrier = NetworkCarrierState.unknown;
  admin = NetworkAdminState.unknown;
}

pub record NetworkLinkStateEvent : Type 0 where
  pub type : NetworkLinkEventType
  pub identity : Text
  pub interface_name : Text
  pub previous : LinkSample
  pub new : LinkSample
  pub is_recovery : Bool
  pub reason : Text
  pub transition_count : ℕ
  pub timestamp : ℕ

pub record TrackedInterface : Type 0 where
  pub identity : Text
  pub name : Text
  pub state : LinkSample
  pub has_valid_state : Bool
  pub link_known : Bool
  pub present : Bool
  pub first_seen : ℕ
  pub last_change_steady : ℕ
  pub last_change_system : ℕ
  pub transition_count : ℕ

-- `TrackedInterface::availability`.
pub availability : TrackedInterface → NetworkLinkAvailability
availability t = link_availability t.link_known t.state.oper t.state.carrier t.state.admin

pub record NetworkLinkStateCounts : Type 0 where
  pub physical_total : ℕ
  pub connected : ℕ
  pub with_carrier : ℕ
  pub down : ℕ
  pub unavailable : ℕ

abbrev pub max_tracked : ℕ
max_tracked = 64

pub record LinkStateMonitor (F : Type 0) : Type 0 where
  pub alerts : AlertManager F
  pub has_sink : Bool
  pub sent : List (AlertEvent F)
  pub tracked : Map Text TrackedInterface
  pub history : History NetworkLinkStateEvent
  pub counts : NetworkLinkStateCounts

pub record Clocks : Type 0 where
  pub steady : ℕ
  pub system : ℕ

unfoldable pub sample_of : NetworkInterfaceInfo → LinkSample
sample_of info = record {
  oper = parse_oper_state info.link.operstate;
  carrier = parse_carrier_state info.link.carrier;
  admin = parse_admin_state info.link.flags info.link.admin_up;
}

-- `link_known`: some part of the link's metadata could be read.
unfoldable pub link_readable : NetworkInterfaceInfo → Bool
link_readable info =
    is_some info.link.operstate || (is_some info.link.carrier || is_some info.link.flags)

unfoldable pub sample_beq : LinkSample → LinkSample → Bool
sample_beq a b =
    oper_beq a.oper b.oper && (carrier_beq a.carrier b.carrier && admin_beq a.admin b.admin)

pub sample_connected : LinkSample → Bool
sample_connected s = is_connected (link_availability true s.oper s.carrier s.admin)

-- `lost` and `gained` of a change from `a` to `b`.
pub link_lost : LinkSample → LinkSample → Bool
link_lost a b =
    (sample_connected a && not (sample_connected b))
    || ((carrier_beq a.carrier NetworkCarrierState.carrier
          && not (carrier_beq b.carrier NetworkCarrierState.carrier))
        || (admin_beq a.admin NetworkAdminState.admin_up
            && not (admin_beq b.admin NetworkAdminState.admin_up)))

pub link_gained : LinkSample → LinkSample → Bool
link_gained a b =
    (not (sample_connected a) && sample_connected b)
    || (not (carrier_beq a.carrier NetworkCarrierState.carrier)
        && carrier_beq b.carrier NetworkCarrierState.carrier)

module _ {F : Type 0} ⦃d : Double F⦄ where
  -- The constructor: a history of at least one event.
  unfoldable pub create : AlertManager F → ℕ → LinkStateMonitor F
  create alerts max_history = record {
    alerts = alerts;
    has_sink = false;
    sent = [];
    tracked = [];
    history = History.create (max max_history 1);
    counts = record {
      physical_total = 0;
      connected = 0;
      with_carrier = 0;
      down = 0;
      unavailable = 0;
    };
  }

  pub set_event_sink : LinkStateMonitor F → Bool → LinkStateMonitor F
  set_event_sink m present = record m { has_sink = present }

  unfoldable pub push_event : LinkStateMonitor F → NetworkLinkStateEvent → LinkStateMonitor F
  push_event m event = record m { history = History.add_sample m.history event }

  unfoldable pub alert_event : ℕ → Text → AlertSeverity → Bool → Text → AlertEvent F
  alert_event now key severity is_recovery message = record {
    type = Types.link_state_changed;
    severity = severity;
    source = key;
    message = message;
    value = d.of_nat 0;
    threshold = d.of_nat 0;
    is_recovery = is_recovery;
    timestamp = now;
  }

  -- `recordAlert`. The sink gets the event whatever the manager does with it.
  unfoldable pub record_alert :
      LinkStateMonitor F → ℕ → Text → AlertSeverity → Bool → Text → LinkStateMonitor F
  record_alert m now key severity is_recovery message =
      let event = alert_event now key severity is_recovery message in
      record m {
        alerts =
            record_rule_event m.alerts event.timestamp event.type event.source event.severity
              event.value event.threshold event.message;
        sent = if m.has_sink then m.sent ++ (event ∷ []) else m.sent;
      }

  unfoldable pub set_tracked : LinkStateMonitor F → Text → TrackedInterface → LinkStateMonitor F
  set_tracked m key t = record m { tracked = insert key t m.tracked }
