-- ===== src/Network/LinkMetrics.antt =====
-- `NetworkLinkMetricsMonitor` and `updateNetworkLinkMetrics` (src/network_link_metrics.cpp): the
-- speed and duplex mode that are kept for each interface. The steady clock is an argument.
use arch_task_manager.Base.{
  ℕ, zero, suc, ◌+◌, ◌-◌, Bool, true, false, not, ◌&&◌, ◌||◌, Option, none, some, Text, codes, List,
  [], ◌∷◌, if◌then◌else◌, ◌==◌, text_equality, Map, find, insert, erase, length, ltb, any, map,
}
use arch_task_manager.Base.Int.{ℤ, is_positive}
use arch_task_manager.Network.Interface.{
  NetworkInterfaceInfo, NetworkInterfaceSnapshot, identity, is_physical_network_link,
}
use arch_task_manager.Network.LinkState.{is_connected, link_availability}
use arch_task_manager.Network.LinkState.Tracking.{link_readable, sample_of}
pub mod Retention
pub mod Sound

pub data NetworkDuplexMode : Type 0 where
  unknown_mode half full : NetworkDuplexMode

-- `NetworkSpeedState` and `NetworkDuplexState` have the same enumerators.
pub data ReadingState : Type 0 where
  unknown valid stale unavailable : ReadingState

-- `networkDuplexModeName`.
pub duplex_mode_name : NetworkDuplexMode → Text
duplex_mode_name unknown_mode = codes "unknown"
duplex_mode_name half = codes "half"
duplex_mode_name full = codes "full"

-- `networkSpeedStateName`, and `networkDuplexStateName` with the same strings.
pub reading_state_name : ReadingState → Text
reading_state_name unknown = codes "unknown"
reading_state_name valid = codes "valid"
reading_state_name stale = codes "stale"
reading_state_name unavailable = codes "unavailable"

pub record NetworkLinkMetrics : Type 0 where
  pub identity : Text
  pub name : Text
  pub present : Bool
  pub physical : Bool
  pub link_active : Bool
  pub speed_state : ReadingState
  pub speed_mbps : Option ℤ
  pub duplex_state : ReadingState
  pub duplex : NetworkDuplexMode
  pub last_update : ℕ
  pub first_seen : ℕ

parse_duplex : Text → NetworkDuplexMode
parse_duplex s =
    if s == codes "full" then full else if s == codes "half" then half else unknown_mode

-- `parseNetworkDuplex`.
pub parse_network_duplex : Option Text → NetworkDuplexMode
unfolding parse_duplex
parse_network_duplex none = unknown_mode
parse_network_duplex (some s) = parse_duplex s

-- `isFreshSpeed`.
pub is_fresh_speed : Option ℤ → Bool
is_fresh_speed none = false
is_fresh_speed (some mbps) = is_positive mbps

-- The state of a value that was kept, not read.
kept_speed : Option ℤ → ReadingState
kept_speed none = unavailable
kept_speed (some mbps) = stale

pub update_speed : NetworkLinkMetrics → Option ℤ → Bool → ℕ → NetworkLinkMetrics
unfolding kept_speed
update_speed m speed active refreshed_at =
    if is_fresh_speed speed
    then record m {
      speed_mbps = speed;
      speed_state = if active then valid else stale;
      last_update = refreshed_at;
    }
    else record m { speed_state = kept_speed m.speed_mbps }

kept_duplex : NetworkDuplexMode → ReadingState
kept_duplex unknown_mode = unavailable
kept_duplex half = stale
kept_duplex full = stale

pub is_known : NetworkDuplexMode → Bool
is_known unknown_mode = false
is_known half = true
is_known full = true

pub update_duplex : NetworkLinkMetrics → NetworkDuplexMode → Bool → ℕ → NetworkLinkMetrics
unfolding kept_duplex
update_duplex m mode active refreshed_at =
    if is_known mode
    then record m {
      duplex = mode;
      duplex_state = if active then valid else stale;
      last_update = refreshed_at;
    }
    else record m { duplex_state = kept_duplex m.duplex }

-- `updateNetworkLinkMetrics`.
pub update_metrics : NetworkLinkMetrics → NetworkInterfaceInfo → Bool → ℕ → NetworkLinkMetrics
update_metrics previous info active refreshed_at =
    let m = record previous {
      name = info.name;
      present = true;
      physical = is_physical_network_link info.type;
      link_active = active;
    } in
    if is_physical_network_link info.type
    then update_duplex (update_speed m info.link.speed_mbps active refreshed_at)
        (parse_network_duplex info.link.duplex) active refreshed_at
    else record m {
      speed_state = unavailable;
      speed_mbps = none;
      duplex_state = unavailable;
      duplex = unknown_mode;
    }

-- The record of an interface that was not seen before.
pub first_record : Text → ℕ → NetworkLinkMetrics
first_record key now = record {
  identity = key;
  name = [];
  present = true;
  physical = false;
  link_active = false;
  speed_state = unknown;
  speed_mbps = none;
  duplex_state = unknown;
  duplex = unknown_mode;
  last_update = 0;
  first_seen = now;
}

pub base_record : Text → ℕ → Option NetworkLinkMetrics → NetworkLinkMetrics
base_record key now none = first_record key now
base_record key now (some m) = m

pub link_active_now : NetworkInterfaceInfo → Bool
link_active_now info =
    let s = sample_of info in
    is_connected (link_availability (link_readable info) s.oper s.carrier s.admin)

-- One round of the loop of `update`.
unfoldable pub observe :
    Map Text NetworkLinkMetrics → ℕ → ℕ → NetworkInterfaceInfo → Map Text NetworkLinkMetrics
observe tracked now refreshed_at info =
    insert (identity info)
      (update_metrics (base_record (identity info) now (find (identity info) tracked)) info
        (link_active_now info) refreshed_at)
      tracked

unfoldable pub observe_all :
    Map Text NetworkLinkMetrics → ℕ → ℕ → List NetworkInterfaceInfo → Map Text NetworkLinkMetrics
observe_all tracked now refreshed_at [] = tracked
observe_all tracked now refreshed_at (info ∷ rest) =
    observe_all (observe tracked now refreshed_at info) now refreshed_at rest

-- Identities that are no longer discovered are marked absent.
pub mark_absent : List Text → Map Text NetworkLinkMetrics → Map Text NetworkLinkMetrics
mark_absent present [] = []
mark_absent present ((key, m) ∷ rest) =
    (key, if any (λ k. k == key) present then m else record m { present = false })
    ∷ mark_absent present rest

-- `std::sort` by the time of the first sighting; equal times keep the map's order.
insert_by_age :
    Text × NetworkLinkMetrics → Map Text NetworkLinkMetrics → Map Text NetworkLinkMetrics
insert_by_age p [] = p ∷ []
insert_by_age (k, t) ((j, u) ∷ rest) =
    if ltb u.first_seen t.first_seen
    then (j, u) ∷ insert_by_age (k, t) rest
    else (k, t) ∷ ((j, u) ∷ rest)

gone_by_age : Map Text NetworkLinkMetrics → Map Text NetworkLinkMetrics
unfolding insert_by_age
gone_by_age [] = []
gone_by_age ((k, t) ∷ rest) =
    let gone = gone_by_age rest in if t.present then gone else insert_by_age (k, t) gone

unfoldable pub erase_first :
    ℕ → List Text → Map Text NetworkLinkMetrics → Map Text NetworkLinkMetrics
erase_first zero keys tracked = tracked
erase_first (suc excess) [] tracked = tracked
erase_first (suc excess) (k ∷ keys) tracked = erase_first excess keys (erase k tracked)

abbrev pub max_tracked : ℕ
max_tracked = 64

-- `evictOverflow`.
pub evict_overflow : Map Text NetworkLinkMetrics → Map Text NetworkLinkMetrics
unfolding gone_by_age
evict_overflow tracked =
    if ltb max_tracked (length tracked)
    then erase_first (length tracked - max_tracked) (map (λ p. p.0) (gone_by_age tracked)) tracked
    else tracked

-- `NetworkLinkMetricsMonitor::update`.
unfoldable pub update :
    Map Text NetworkLinkMetrics → ℕ → NetworkInterfaceSnapshot → Map Text NetworkLinkMetrics
update tracked now snapshot = evict_overflow (
    mark_absent (map identity snapshot.interfaces)
      (observe_all tracked now snapshot.refreshed_at snapshot.interfaces))

-- `NetworkLinkMetricsMonitor::tracked`, the lookup.
pub tracked_of : Map Text NetworkLinkMetrics → Text → Option NetworkLinkMetrics
tracked_of tracked key = find key tracked

-- `NetworkLinkMetricsMonitor::reset`.
unfoldable pub reset : Map Text NetworkLinkMetrics → Map Text NetworkLinkMetrics
reset tracked = []
