-- ===== src/Network/LinkState/Update.antt =====
-- The second half of `NetworkLinkStateMonitor::update` (src/network_link_state.cpp): interfaces
-- that disappeared, the bound on what is tracked, and the counts.
use arch_task_manager.Base.{
  ℕ, ◌+◌, ◌-◌, false, not, ◌||◌, Option, none, some, Text, codes, List, [], ◌∷◌, ◌==◌,
  if◌then◌else◌, text_equality, Map, find, erase, length, ltb, add_u64, any, map, zero, suc,
}
use arch_task_manager.History
use arch_task_manager.Base.Double.{Double}
use arch_task_manager.Alert.Types
use arch_task_manager.Alert.Manager.{clear_subject}
use arch_task_manager.Network.Interface.{
  NetworkInterfaceInfo, NetworkInterfaceSnapshot, identity, is_physical_network_link,
}
use arch_task_manager.Network.LinkState.{NetworkLinkAvailability, NetworkCarrierState, carrier_beq}
use arch_task_manager.Network.LinkState.Tracking.{
  LinkStateMonitor, TrackedInterface, NetworkLinkStateCounts, NetworkLinkStateEvent, disappeared,
  Clocks, max_tracked, availability, push_event,
}
use arch_task_manager.Network.LinkState.Observe.{observe_all}

module _ {F : Type 0} ⦃d : Double F⦄ where
  -- The body of the loop for a tracked interface that is present and not in the snapshot.
  pub depart :
      LinkStateMonitor F → Clocks → Text → TrackedInterface → LinkStateMonitor F × TrackedInterface
  depart m now key t =
      let count = add_u64 t.transition_count 1 in
      let event : NetworkLinkStateEvent = record {
        type = disappeared;
        identity = key;
        interface_name = t.name;
        previous = t.state;
        new = t.state;
        is_recovery = false;
        reason = codes "interface removed";
        transition_count = count;
        timestamp = now.system;
      } in
      (
        push_event (record m { alerts = clear_subject m.alerts Types.link_state_changed key })
            event,
        record t {
          present = false;
          last_change_steady = now.steady;
          last_change_system = now.system;
          transition_count = count;
        },
      )

  -- The loop over the tracked interfaces, with the entries it leaves.
  unfoldable pub depart_all :
      LinkStateMonitor F
      → Clocks
      → List Text
      → Map Text TrackedInterface
      → LinkStateMonitor F × Map Text TrackedInterface
  depart_all m now present [] = (m, [])
  depart_all m now present ((key, t) ∷ rest) =
      let stays = any (λ k. k == key) present || not t.present in
      let (m', t') = if stays then (m, t) else depart m now key t in
      let (m'', rest') = depart_all m' now present rest in (m'', (key, t') ∷ rest')

  unfoldable pub detect_departures : LinkStateMonitor F → Clocks → List Text → LinkStateMonitor F
  detect_departures m now present =
      let (m', tracked') = depart_all m now present m.tracked in
      if ltb (length present) (length m.tracked) then record m' { tracked = tracked' } else m

-- `std::sort` by the time of the last change. It leaves the order of equal times open; here they
-- keep the map's order.
unfoldable pub insert_by_change :
    Text × TrackedInterface → Map Text TrackedInterface → Map Text TrackedInterface
insert_by_change p [] = p ∷ []
insert_by_change (k, t) ((j, u) ∷ rest) =
    if ltb u.last_change_steady t.last_change_steady
    then (j, u) ∷ insert_by_change (k, t) rest
    else (k, t) ∷ ((j, u) ∷ rest)

unfoldable pub gone_by_change : Map Text TrackedInterface → Map Text TrackedInterface
unfolding insert_by_change
gone_by_change [] = []
gone_by_change ((k, t) ∷ rest) =
    let gone = gone_by_change rest in if t.present then gone else insert_by_change (k, t) gone

-- The loop that erases at most `excess` of the identities.
unfoldable pub erase_first : ℕ → List Text → Map Text TrackedInterface → Map Text TrackedInterface
erase_first zero keys tracked = tracked
erase_first (suc excess) [] tracked = tracked
erase_first (suc excess) (k ∷ keys) tracked = erase_first excess keys (erase k tracked)

unfoldable pub evict : Map Text TrackedInterface → Map Text TrackedInterface
evict tracked =
    if ltb max_tracked (length tracked)
    then erase_first (length tracked - max_tracked) (map (λ p. p.0) (gone_by_change tracked))
        tracked
    else tracked

unfoldable pub count_availability :
    NetworkLinkAvailability → NetworkLinkStateCounts → NetworkLinkStateCounts
count_availability NetworkLinkAvailability.connected c = record c { connected = c.connected + 1 }
count_availability NetworkLinkAvailability.down c = record c { down = c.down + 1 }
count_availability NetworkLinkAvailability.unavailable c = record c {
  unavailable = c.unavailable + 1;
}
count_availability NetworkLinkAvailability.unknown c = c

unfoldable pub count_carrier : NetworkCarrierState → NetworkLinkStateCounts → NetworkLinkStateCounts
count_carrier state c =
    if carrier_beq state NetworkCarrierState.carrier
    then record c { with_carrier = c.with_carrier + 1 }
    else c

unfoldable pub count_tracked :
    Option TrackedInterface → NetworkLinkStateCounts → NetworkLinkStateCounts
unfolding count_availability count_carrier
count_tracked none c = c
count_tracked (some t) c =
    if t.present then count_carrier t.state.carrier (count_availability (availability t) c) else c

unfoldable pub count_interface :
    Map Text TrackedInterface
    → NetworkInterfaceInfo
    → NetworkLinkStateCounts
    → NetworkLinkStateCounts
unfolding count_tracked
count_interface tracked info c =
    if is_physical_network_link info.type
    then count_tracked (find (identity info) tracked)
        (record c { physical_total = c.physical_total + 1 })
    else c

unfoldable pub count_all :
    Map Text TrackedInterface
    → List NetworkInterfaceInfo
    → NetworkLinkStateCounts
    → NetworkLinkStateCounts
count_all tracked [] c = c
count_all tracked (info ∷ rest) c = count_all tracked rest (count_interface tracked info c)

abbrev pub no_counts : NetworkLinkStateCounts
no_counts = record {
  physical_total = 0;
  connected = 0;
  with_carrier = 0;
  down = 0;
  unavailable = 0;
}

module _ {F : Type 0} ⦃d : Double F⦄ where
  unfoldable pub recount : LinkStateMonitor F → NetworkInterfaceSnapshot → LinkStateMonitor F
  recount m snapshot = record m { counts = count_all m.tracked snapshot.interfaces no_counts }

  -- `update`.
  unfoldable pub update :
      LinkStateMonitor F → Clocks → NetworkInterfaceSnapshot → LinkStateMonitor F
  update m now snapshot =
      let present = map identity snapshot.interfaces in
      let m₁ = detect_departures (observe_all m now snapshot.interfaces) now present in
      recount (record m₁ { tracked = evict m₁.tracked }) snapshot

  unfoldable pub reset : LinkStateMonitor F → LinkStateMonitor F
  reset m = record m { tracked = []; history = History.clear m.history; counts = no_counts }
