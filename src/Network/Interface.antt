-- ===== src/Network/Interface.antt =====
-- A discovered network interface, as include/network_interface_details.hpp declares it and as far
-- as the link monitors read it.
use arch_task_manager.Base.{ℕ, Bool, true, false, Option, none, some, Text, codes, List, ◌++◌}
use arch_task_manager.Base.Int.{ℤ, int_text}

pub data NetworkInterfaceType : Type 0 where
  ethernet wifi loopback tunnel p2p bridge bond infiniband virtual unknown : NetworkInterfaceType

pub record NetworkInterfaceLink : Type 0 where
  pub ifindex : Option ℤ
  pub operstate : Option Text
  pub carrier : Option ℤ
  pub speed_mbps : Option ℤ
  pub duplex : Option Text
  pub flags : Option ℕ
  pub admin_up : Bool

-- `NetworkInterfaceStats` (include/network_monitor.hpp).
pub record NetworkInterfaceStats : Type 0 where
  pub name : Text
  pub rx_bytes : ℕ
  pub tx_bytes : ℕ
  pub rx_packets : ℕ
  pub tx_packets : ℕ
  pub rx_errors : ℕ
  pub tx_errors : ℕ
  pub rx_dropped : ℕ
  pub tx_dropped : ℕ
  pub rx_bytes_per_second : ℕ
  pub tx_bytes_per_second : ℕ
  pub state : Text
  pub loopback : Bool

pub record NetworkInterfaceInfo : Type 0 where
  pub name : Text
  pub type : NetworkInterfaceType
  pub link : NetworkInterfaceLink
  pub traffic : Option NetworkInterfaceStats

pub record NetworkInterfaceSnapshot : Type 0 where
  pub interfaces : List NetworkInterfaceInfo
  pub refreshed_at : ℕ

unfoldable pub interface_key : Option ℤ → Text → Text
interface_key none name = codes "name:" ++ name
interface_key (some n) name = codes "idx:" ++ int_text n

-- `NetworkInterfaceInfo::identity`.
unfoldable pub identity : NetworkInterfaceInfo → Text
unfolding interface_key
identity info = interface_key info.link.ifindex info.name

-- `isPhysicalNetworkLink`.
pub is_physical_network_link : NetworkInterfaceType → Bool
is_physical_network_link ethernet = true
is_physical_network_link wifi = true
is_physical_network_link infiniband = true
is_physical_network_link loopback = false
is_physical_network_link tunnel = false
is_physical_network_link p2p = false
is_physical_network_link bridge = false
is_physical_network_link bond = false
is_physical_network_link virtual = false
is_physical_network_link unknown = false
