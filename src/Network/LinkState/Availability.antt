-- ===== src/Network/LinkState/Availability.antt =====
-- The derived availability and the parsers of src/network_link_state.cpp.
use arch_task_manager.Base.{◌≡◌, refl, ◌≢◌, ◌↔◌, ◌⊎◌, Bool, true, false, some, arith, text_beq}
use arch_task_manager.Network.LinkState.{
  NetworkOperState, NetworkCarrierState, NetworkAdminState, up, dormant, lower_layer_down, testing,
  not_present, carrier, admin_down, connected, link_availability, parse_oper_state, oper_state_name,
}

-- A link is connected exactly when its metadata is readable and the kernel reports it up, or
-- reports no state while there is a carrier and the interface is not administratively down.
pub link_availability_connected :
    (known : Bool) (o : NetworkOperState) (c : NetworkCarrierState) (a : NetworkAdminState)
    → (link_availability known o c a ≡ connected) ↔ (
        (known ≡ true)
        × ((o ≡ up) ⊎ ((o ≡ NetworkOperState.unknown) × (c ≡ carrier) × (a ≢ admin_down))))
unfolding link_availability
link_availability_connected false o c a = (λ h. cc, λ h. cc)
link_availability_connected true o c a = (λ h. ground arith, λ h. ground arith)

-- An operational state that is printed and parsed again is the same state, except that the
-- synthetic `unavailable`, which the kernel never reports, is read as `unknown`.
pub parse_oper_state-oper_state_name :
    (s : NetworkOperState)
    → (s ≢ NetworkOperState.unavailable → parse_oper_state (some (oper_state_name s)) ≡ s)
      × (s ≡ NetworkOperState.unavailable
          → parse_oper_state (some (oper_state_name s)) ≡ NetworkOperState.unknown)
unfolding parse_oper_state oper_state_name text_beq
parse_oper_state-oper_state_name NetworkOperState.unknown = (λ h. refl, λ h. refl)
parse_oper_state-oper_state_name up = (λ h. refl, λ h. cc)
parse_oper_state-oper_state_name NetworkOperState.down = (λ h. refl, λ h. cc)
parse_oper_state-oper_state_name dormant = (λ h. refl, λ h. cc)
parse_oper_state-oper_state_name lower_layer_down = (λ h. refl, λ h. cc)
parse_oper_state-oper_state_name testing = (λ h. refl, λ h. cc)
parse_oper_state-oper_state_name not_present = (λ h. refl, λ h. cc)
parse_oper_state-oper_state_name NetworkOperState.unavailable = (λ h. absurd (h refl), λ h. refl)
