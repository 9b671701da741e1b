-- ===== src/Network/LinkState.antt =====
-- The link states of src/network_link_state.cpp and include/network_link_state.hpp: the
-- enumerations, their names, the parsers and the derived availability.
pub mod Tracking
pub mod Observe
pub mod Update
pub mod Availability
pub mod Observed
pub mod Silence
pub mod Eviction
pub mod Kept
pub mod Counts
use arch_task_manager.Base.{
  ℕ, Bool, true, false, not, ◌&&◌, Option, none, some, Text, codes, List, [], ◌∷◌, ◌++◌, ◌==◌, eqb,
  if◌then◌else◌, text_equality,
}
use arch_task_manager.Base.Int.{ℤ, is_positive}

pub data NetworkOperState : Type 0 where
  unknown up down dormant lower_layer_down testing not_present unavailable : NetworkOperState

pub data NetworkCarrierState : Type 0 where
  unknown no_carrier carrier : NetworkCarrierState

pub data NetworkAdminState : Type 0 where
  unknown admin_down admin_up : NetworkAdminState

pub data NetworkLinkAvailability : Type 0 where
  unknown connected down unavailable : NetworkLinkAvailability

pub oper_state_name : NetworkOperState → Text
oper_state_name NetworkOperState.unknown = codes "unknown"
oper_state_name up = codes "up"
oper_state_name NetworkOperState.down = codes "down"
oper_state_name dormant = codes "dormant"
oper_state_name lower_layer_down = codes "lowerlayerdown"
oper_state_name testing = codes "testing"
oper_state_name not_present = codes "notpresent"
oper_state_name NetworkOperState.unavailable = codes "unavailable"

-- `==` on the enumerations compares their numbers.
oper_number : NetworkOperState → ℕ
oper_number NetworkOperState.unknown = 0
oper_number up = 1
oper_number NetworkOperState.down = 2
oper_number dormant = 3
oper_number lower_layer_down = 4
oper_number testing = 5
oper_number not_present = 6
oper_number NetworkOperState.unavailable = 7

unfoldable pub oper_beq : NetworkOperState → NetworkOperState → Bool
unfolding oper_number
oper_beq a b = eqb (oper_number a) (oper_number b)

carrier_number : NetworkCarrierState → ℕ
carrier_number NetworkCarrierState.unknown = 0
carrier_number no_carrier = 1
carrier_number carrier = 2

pub carrier_beq : NetworkCarrierState → NetworkCarrierState → Bool
unfolding carrier_number
carrier_beq a b = eqb (carrier_number a) (carrier_number b)

admin_number : NetworkAdminState → ℕ
admin_number NetworkAdminState.unknown = 0
admin_number admin_down = 1
admin_number admin_up = 2

pub admin_beq : NetworkAdminState → NetworkAdminState → Bool
unfolding admin_number
admin_beq a b = eqb (admin_number a) (admin_number b)

pub is_connected : NetworkLinkAvailability → Bool
is_connected connected = true
is_connected _ = false

parse_oper_text : Text → NetworkOperState
parse_oper_text value =
    if value == codes "up"
    then up
    else if value == codes "down"
    then NetworkOperState.down
    else if value == codes "dormant"
    then dormant
    else if value == codes "lowerlayerdown"
    then lower_layer_down
    else if value == codes "testing"
    then testing
    else if value == codes "notpresent"
    then not_present
    else NetworkOperState.unknown

unfoldable pub parse_oper_state : Option Text → NetworkOperState
unfolding parse_oper_text
parse_oper_state none = NetworkOperState.unknown
parse_oper_state (some value) = parse_oper_text value

pub parse_carrier_state : Option ℤ → NetworkCarrierState
parse_carrier_state none = NetworkCarrierState.unknown
parse_carrier_state (some n) = if is_positive n then carrier else no_carrier

pub parse_admin_state : Option ℕ → Bool → NetworkAdminState
parse_admin_state none flag = NetworkAdminState.unknown
parse_admin_state (some flags) flag = if flag then admin_up else admin_down

pub link_availability :
    Bool → NetworkOperState → NetworkCarrierState → NetworkAdminState → NetworkLinkAvailability
unfolding oper_beq carrier_beq admin_beq
link_availability known oper car admin =
    if not known
    then NetworkLinkAvailability.unavailable
    else if oper_beq oper up
    then connected
    else if oper_beq oper not_present
    then NetworkLinkAvailability.unavailable
    else if oper_beq oper NetworkOperState.unknown
        && (carrier_beq car carrier && not (admin_beq admin admin_down))
    then connected
    else if oper_beq oper NetworkOperState.unknown
        && (carrier_beq car NetworkCarrierState.unknown
            && admin_beq admin NetworkAdminState.unknown)
    then NetworkLinkAvailability.unknown
    else NetworkLinkAvailability.down

join_parts : List Text → Text
join_parts [] = []
join_parts (p ∷ []) = p
join_parts (p ∷ q ∷ rest) = p ++ (codes ", " ++ join_parts (q ∷ rest))

-- `describeTransition`: what changed, in the order operational state, carrier, administration.
pub describe_transition :
    NetworkOperState
    → NetworkOperState
    → NetworkCarrierState
    → NetworkCarrierState
    → NetworkAdminState
    → NetworkAdminState
    → Text
unfolding join_parts oper_beq carrier_beq admin_beq
describe_transition oper oper' car car' admin admin' = join_parts (opers ++ (carriers ++ admins))
  where
    opers : List Text
    opers =
        if oper_beq oper oper'
        then []
        else (oper_state_name oper ++ (codes " -> " ++ oper_state_name oper')) ∷ []

    carriers : List Text
    carriers =
        if carrier_beq car carrier && not (carrier_beq car' carrier)
        then codes "carrier lost" ∷ []
        else if not (carrier_beq car carrier) && carrier_beq car' carrier
        then codes "carrier present" ∷ []
        else []

    admins : List Text
    admins =
        if admin_beq admin admin_up && admin_beq admin' admin_down
        then codes "administratively disabled" ∷ []
        else if admin_beq admin admin_down && admin_beq admin' admin_up
        then codes "administratively enabled" ∷ []
        else []
