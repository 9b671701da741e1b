-- ===== src/Network/LinkState/Counts.antt =====
-- The counts of `NetworkLinkStateMonitor::recount` (src/network_link_state.cpp).
use arch_task_manager.Base.{
  ℕ, ◌+◌, ◌≤◌, ◌≡◌, refl, Bool, true, false, ◌&&◌, Option, none, some, Text, List, [], ◌∷◌, Map,
  find, text_equality, arith, if◌then◌else◌, Bool-cases, inl, inr,
}
use arch_task_manager.Base.Double.{Double}
use arch_task_manager.Network.Interface.{
  NetworkInterfaceInfo, NetworkInterfaceSnapshot, identity, is_physical_network_link,
}
use arch_task_manager.Network.LinkState.{
  NetworkLinkAvailability, NetworkCarrierState, connected, carrier_beq,
}
use arch_task_manager.Network.LinkState.Tracking.{
  TrackedInterface, NetworkLinkStateCounts, LinkStateMonitor, Clocks, availability,
}
use arch_task_manager.Network.LinkState.Update.{
  count_availability, count_carrier, count_tracked, count_interface, count_all, no_counts, recount,
  update,
}

-- The counts of states are of the physical interfaces that were counted, each at most once.
pub record IsBounded (c : NetworkLinkStateCounts) : Type 0 where
  pub states : c.connected + c.down + c.unavailable ≤ c.physical_total
  pub carriers : c.with_carrier ≤ c.physical_total

-- Room for one interface more.
abbrev HasRoom : NetworkLinkStateCounts → Type 0
HasRoom c =
    (c.connected + c.down + c.unavailable + 1 ≤ c.physical_total)
    × (c.with_carrier + 1 ≤ c.physical_total)

abbrev Counts : NetworkLinkStateCounts → NetworkLinkStateCounts → Type 0
Counts c c' = IsBounded c' × (c'.physical_total ≡ c.physical_total)

counted :
    (a : NetworkLinkAvailability) (k : NetworkCarrierState) (c : NetworkLinkStateCounts)
    → HasRoom c
    → Counts c (count_carrier k (count_availability a c))
unfolding count_availability count_carrier
counted connected k c h =
    (record { states = ground (arith, h); carriers = ground (arith, h) }, ground arith)
counted NetworkLinkAvailability.down k c h =
    (record { states = ground (arith, h); carriers = ground (arith, h) }, ground arith)
counted NetworkLinkAvailability.unavailable k c h =
    (record { states = ground (arith, h); carriers = ground (arith, h) }, ground arith)
counted NetworkLinkAvailability.unknown k c h =
    (record { states = ground (arith, h); carriers = ground (arith, h) }, ground arith)

count_tracked_lem :
    (o : Option TrackedInterface) (c : NetworkLinkStateCounts)
    → HasRoom c
    → Counts c (count_tracked o c)
unfolding count_tracked
count_tracked_lem none c h =
    (record { states = omega (arith, h.0); carriers = omega (arith, h.1) }, refl)
count_tracked_lem (some t) c h = elim (Bool-cases t.present) [
  | inl e ↦ simp e (counted (availability t) t.state.carrier c h)
  | inr e ↦ simp e (record { states = omega (arith, h.0); carriers = omega (arith, h.1) }, refl)
]

-- How many of the interfaces are physical.
abbrev pub physical : List NetworkInterfaceInfo → ℕ
physical [] = 0
physical (info ∷ rest) =
    if is_physical_network_link info.type then 1 + physical rest else physical rest

count_all_lem :
    (tracked : Map Text TrackedInterface) (infos : List NetworkInterfaceInfo)
    (c : NetworkLinkStateCounts)
    → IsBounded c
    → IsBounded (count_all tracked infos c)
      × ((count_all tracked infos c).physical_total ≡ c.physical_total + physical infos)
unfolding count_all count_interface
count_all_lem tracked [] c b = (b, omega arith)
count_all_lem tracked (info ∷ rest) c b = elim (Bool-cases (is_physical_network_link info.type)) [
  | inr e ↦ simp e (count_all_lem tracked rest c b)
  | inl e ↦
      let (b', q) =
        count_tracked_lem (find (identity info) tracked)
          (record c { physical_total = c.physical_total + 1 })
          (omega (arith, b.states), omega (arith, b.carriers)) in
      let (b'', r) = count_all_lem tracked rest _ b' in simp e (b'', omega (arith, q, r))
]

-- A property of the entry of an interface that is present.
abbrev tested : (TrackedInterface → Bool) → Option TrackedInterface → Bool
tested test none = false
tested test (some t) = t.present && test t

-- How many physical interfaces have a present entry with the property.
abbrev pub number :
    (TrackedInterface → Bool) → Map Text TrackedInterface → List NetworkInterfaceInfo → ℕ
number test tracked [] = 0
number test tracked (info ∷ rest) =
    if is_physical_network_link info.type
    then (if tested test (find (identity info) tracked) then 1 else 0) + number test tracked rest
    else number test tracked rest

abbrev pub is_at : NetworkLinkAvailability → NetworkLinkAvailability → Bool
is_at connected connected = true
is_at NetworkLinkAvailability.down NetworkLinkAvailability.down = true
is_at NetworkLinkAvailability.unavailable NetworkLinkAvailability.unavailable = true
is_at NetworkLinkAvailability.unknown NetworkLinkAvailability.unknown = true
is_at _ _ = false

abbrev pub has_carrier : NetworkCarrierState → Bool
has_carrier NetworkCarrierState.carrier = true
has_carrier _ = false

abbrev pub is_link_at : NetworkLinkAvailability → TrackedInterface → Bool
is_link_at a t = is_at a (availability t)

abbrev pub is_carrying : TrackedInterface → Bool
is_carrying t = has_carrier t.state.carrier

-- The counts are those before and one more for each test that holds.
abbrev Steps :
    NetworkLinkStateCounts
    → (NetworkLinkAvailability → Bool)
    → Bool
    → NetworkLinkStateCounts
    → Type 0
Steps c at carrying c' =
    (c'.connected ≡ c.connected + (if at connected then 1 else 0))
    × (c'.down ≡ c.down + (if at NetworkLinkAvailability.down then 1 else 0))
    × (c'.unavailable ≡ c.unavailable + (if at NetworkLinkAvailability.unavailable then 1 else 0))
    × (c'.with_carrier ≡ c.with_carrier + (if carrying then 1 else 0))

count_states-Steps :
    (a : NetworkLinkAvailability) (k : NetworkCarrierState) (c : NetworkLinkStateCounts)
    → Steps c (λ b. is_at b a) (has_carrier k) (count_carrier k (count_availability a c))
unfolding count_availability count_carrier carrier_beq
count_states-Steps a k c = (ground arith, ground arith, ground arith, ground arith)

count_tracked-Steps :
    (o : Option TrackedInterface) (c : NetworkLinkStateCounts)
    → Steps c (λ b. tested (is_link_at b) o) (tested is_carrying o) (count_tracked o c)
unfolding count_tracked
count_tracked-Steps none c = (omega arith, omega arith, omega arith, omega arith)
count_tracked-Steps (some t) c = elim (Bool-cases t.present) [
  | inl e ↦ simp e (count_states-Steps (availability t) t.state.carrier c)
  | inr e ↦ simp e (omega arith, omega arith, omega arith, omega arith)
]

-- The counts after the loop, from those before it.
abbrev pub Adds :
    Map Text TrackedInterface
    → List NetworkInterfaceInfo
    → NetworkLinkStateCounts
    → NetworkLinkStateCounts
    → Type 0
Adds tracked infos c c' =
    (c'.connected ≡ c.connected + number (is_link_at connected) tracked infos)
    × (c'.down ≡ c.down + number (is_link_at NetworkLinkAvailability.down) tracked infos)
    × (c'.unavailable
        ≡ c.unavailable + number (is_link_at NetworkLinkAvailability.unavailable) tracked infos)
    × (c'.with_carrier ≡ c.with_carrier + number is_carrying tracked infos)

count_all-Adds :
    (tracked : Map Text TrackedInterface) (infos : List NetworkInterfaceInfo)
    (c : NetworkLinkStateCounts)
    → Adds tracked infos c (count_all tracked infos c)
unfolding count_all count_interface
count_all-Adds tracked [] c = (omega arith, omega arith, omega arith, omega arith)
count_all-Adds tracked (info ∷ rest) c = elim (Bool-cases (is_physical_network_link info.type)) [
  | inr e ↦ simp e (count_all-Adds tracked rest c)
  | inl e ↦
      let c' = record c { physical_total = c.physical_total + 1 } in
      let s = count_tracked-Steps (find (identity info) tracked) c' in
      let r = count_all-Adds tracked rest (count_tracked (find (identity info) tracked) c') in
      simp e (
        omega (arith, s.0, r.0),
        omega (arith, s.1, r.1),
        omega (arith, s.2, r.2),
        omega (arith, s.3, r.3),
      )
]

module _ {F : Type 0} ⦃d : Double F⦄ where
  -- After an update the total is the number of physical interfaces of the snapshot. The connected, down and unavailable counts are the numbers of those whose tracked entry is present with that availability, and the carrier count of those whose entry is present with a carrier. The first three together are at most the total, and so is the last.
  pub update-IsBounded :
      (m : LinkStateMonitor F) (now : Clocks) (snapshot : NetworkInterfaceSnapshot)
      → let m' = update m now snapshot in
        IsBounded m'.counts
        × (m'.counts.physical_total ≡ physical snapshot.interfaces)
        × Adds m'.tracked snapshot.interfaces no_counts m'.counts
  unfolding update recount
  update-IsBounded m now snapshot =
      let (b, e) =
        count_all_lem _ snapshot.interfaces no_counts
          (record { states = omega arith; carriers = omega arith }) in
      (b, omega (arith, e), count_all-Adds _ snapshot.interfaces no_counts)
