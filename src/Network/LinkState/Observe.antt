-- ===== src/Network/LinkState/Observe.antt =====
-- The loop over a snapshot in `NetworkLinkStateMonitor::update` (src/network_link_state.cpp).
use arch_task_manager.Base.{
  ℕ, Bool, true, false, not, ◌&&◌, Option, none, some, Text, codes, List, [], ◌∷◌, ◌++◌,
  if◌then◌else◌, text_equality, find, add_u64,
}
use arch_task_manager.Base.Double.{Double}
use arch_task_manager.Alert.Types.{AlertSeverity, AlertEvent, AlertType}
use arch_task_manager.Alert.Types
use arch_task_manager.Network.Interface.{NetworkInterfaceInfo, identity}
use arch_task_manager.Network.LinkState.{describe_transition}
use arch_task_manager.Network.LinkState.Tracking.{
  appeared, reappeared, state_changed, Clocks, LinkSample, LinkStateMonitor, NetworkLinkStateEvent,
  TrackedInterface, link_gained, link_lost, link_readable, no_sample, push_event, record_alert,
  sample_beq, sample_of, set_tracked,
}

module _ {F : Type 0} ⦃d : Double F⦄ where
  -- A new identity: the discovery is recorded, and its state becomes the baseline.
  unfoldable pub discover : LinkStateMonitor F → Clocks → NetworkInterfaceInfo → LinkStateMonitor F
  discover m now info =
      let event : NetworkLinkStateEvent = record {
        type = appeared;
        identity = identity info;
        interface_name = info.name;
        previous = no_sample;
        new = sample_of info;
        is_recovery = false;
        reason =
            if link_readable info
            then codes "interface discovered"
            else codes "interface discovered (link state not yet readable)";
        transition_count = 0;
        timestamp = now.system;
      } in
      set_tracked (push_event m event) (identity info) (record {
        identity = identity info;
        name = info.name;
        state = sample_of info;
        has_valid_state = link_readable info;
        link_known = link_readable info;
        present = true;
        first_seen = now.steady;
        last_change_steady = now.steady;
        last_change_system = now.system;
        transition_count = 0;
      })

  -- An identity that had gone is back: a new baseline, and a recovery alert.
  unfoldable pub reappear :
      LinkStateMonitor F → Clocks → NetworkInterfaceInfo → TrackedInterface → LinkStateMonitor F
  reappear m now info t =
      let event : NetworkLinkStateEvent = record {
        type = reappeared;
        identity = identity info;
        interface_name = info.name;
        previous = t.state;
        new = sample_of info;
        is_recovery = true;
        reason = codes "interface available again";
        transition_count = 0;
        timestamp = now.system;
      } in
      record_alert
        (push_event
          (set_tracked m (identity info) (record t {
            state = sample_of info;
            has_valid_state = link_readable info;
            last_change_steady = now.steady;
            last_change_system = now.system;
            transition_count = add_u64 t.transition_count 1;
          }))
          event)
        now.system (identity info) Types.normal true
        (codes "Interface " ++ (info.name ++ codes " is available again"))

  -- The first readable sample of a known identity.
  unfoldable pub adopt_baseline :
      LinkStateMonitor F → Clocks → NetworkInterfaceInfo → TrackedInterface → LinkStateMonitor F
  adopt_baseline m now info t = set_tracked m (identity info) (record t {
    state = sample_of info;
    has_valid_state = true;
    last_change_steady = now.steady;
    last_change_system = now.system;
  })

  unfoldable pub alert_transition :
      LinkStateMonitor F
      → ℕ
      → NetworkInterfaceInfo
      → LinkSample
      → LinkSample
      → Text
      → LinkStateMonitor F
  alert_transition m now info a b reason =
      if link_lost a b && not (link_gained a b)
      then record_alert m now (identity info) Types.warning false
          (codes "Interface " ++ (info.name ++ (codes " link lost: " ++ reason)))
      else if link_gained a b && not (link_lost a b)
      then record_alert m now (identity info) Types.normal true
          (codes "Interface " ++ (info.name ++ (codes " is connected again: " ++ reason)))
      else m

  -- A sub-state changed.
  unfoldable pub change_state :
      LinkStateMonitor F → Clocks → NetworkInterfaceInfo → TrackedInterface → LinkStateMonitor F
  change_state m now info t =
      let a = t.state in
      let b = sample_of info in
      let count = add_u64 t.transition_count 1 in
      let reason = describe_transition a.oper b.oper a.carrier b.carrier a.admin b.admin in
      let event : NetworkLinkStateEvent = record {
        type = state_changed;
        identity = identity info;
        interface_name = info.name;
        previous = a;
        new = b;
        is_recovery = link_gained a b && not (link_lost a b);
        reason = reason;
        transition_count = count;
        timestamp = now.system;
      } in
      alert_transition
        (push_event
          (set_tracked m (identity info) (record t {
            state = b;
            has_valid_state = true;
            last_change_steady = now.steady;
            last_change_system = now.system;
            transition_count = count;
          }))
          event)
        now.system info a b reason

  -- The rest of the loop's body for an identity that is tracked; `t` has its flags and name set.
  unfoldable pub refresh :
      LinkStateMonitor F
      → Clocks
      → NetworkInterfaceInfo
      → Bool
      → TrackedInterface
      → LinkStateMonitor F
  refresh m now info was_gone t =
      if was_gone
      then reappear m now info t
      else if not (link_readable info)
      then set_tracked m (identity info) t
      else if not t.has_valid_state
      then adopt_baseline m now info t
      else if sample_beq t.state (sample_of info)
      then set_tracked m (identity info) t
      else change_state m now info t

  unfoldable pub observe_found :
      LinkStateMonitor F
      → Clocks
      → NetworkInterfaceInfo
      → Option TrackedInterface
      → LinkStateMonitor F
  observe_found m now info none = discover m now info
  observe_found m now info (some t) =
      refresh m now info (not t.present)
        (record t { present = true; link_known = link_readable info; name = info.name })

  -- One round of the loop over the snapshot's interfaces.
  unfoldable pub observe : LinkStateMonitor F → Clocks → NetworkInterfaceInfo → LinkStateMonitor F
  unfolding observe_found
  observe m now info = observe_found m now info (find (identity info) m.tracked)

  unfoldable pub observe_all :
      LinkStateMonitor F → Clocks → List NetworkInterfaceInfo → LinkStateMonitor F
  observe_all m now [] = m
  observe_all m now (info ∷ rest) = observe_all (observe m now info) now rest
