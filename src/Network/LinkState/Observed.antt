-- ===== src/Network/LinkState/Observed.antt =====
-- What one interface of a snapshot does to the monitor (the loop body of
-- `NetworkLinkStateMonitor::update` in src/network_link_state.cpp).
use arch_task_manager.Base.{
  ℕ, ◌≡◌, refl, sym, ◌∙◌, ◌≢◌, inl, inr, Bool, true, false, not, ◌||◌, Option, none, some, Text,
  if◌then◌else◌, text_equality, find, insert, find-insert, arith, Bool-cases, find-insert_self,
  beq_false,
}
use arch_task_manager.Base.Double.{Double}
use arch_task_manager.Network.Interface.{NetworkInterfaceInfo, identity}
use arch_task_manager.Network.LinkState.{
  NetworkOperState, NetworkCarrierState, NetworkAdminState, oper_beq, carrier_beq, admin_beq,
}
use arch_task_manager.Network.LinkState.Tracking.{
  LinkStateMonitor, TrackedInterface, LinkSample, Clocks, sample_of, link_readable, sample_beq,
  record_alert, push_event, set_tracked,
}
use arch_task_manager.Network.LinkState.Observe.{
  observe, observe_found, refresh, discover, reappear, adopt_baseline, change_state,
  alert_transition,
}

oper_beq_eq : (a b : NetworkOperState) → oper_beq a b ≡ true → a ≡ b
unfolding oper_beq
oper_beq_eq a b h = ground arith

carrier_beq_eq : (a b : NetworkCarrierState) → carrier_beq a b ≡ true → a ≡ b
unfolding carrier_beq
carrier_beq_eq a b h = ground arith

admin_beq_eq : (a b : NetworkAdminState) → admin_beq a b ≡ true → a ≡ b
unfolding admin_beq
admin_beq_eq a b h = ground arith

sample_beq_eq : (a b : LinkSample) → sample_beq a b ≡ true → a ≡ b
unfolding sample_beq
sample_beq_eq a b h = ground (
  arith,
  oper_beq_eq a.oper b.oper,
  carrier_beq_eq a.carrier b.carrier,
  admin_beq_eq a.admin b.admin,
)

-- The entry of an interface that has just been observed, with the state `s`.
pub record IsCurrent (info : NetworkInterfaceInfo) (s : LinkSample) (t : TrackedInterface)
    : Type 0 where
  pub present : t.present ≡ true
  pub name : t.name ≡ info.name
  pub known : t.link_known ≡ link_readable info
  pub state : t.state ≡ s

-- The state that is kept for an interface: what was read, or the last state while the interface
-- stays present and nothing can be read.
kept_from : NetworkInterfaceInfo → Option TrackedInterface → LinkSample
kept_from info none = sample_of info
kept_from info (some t) = if not t.present || link_readable info then sample_of info else t.state

module _ {F : Type 0} ⦃d : Double F⦄ where
  pub kept_state : LinkStateMonitor F → NetworkInterfaceInfo → LinkSample
  unfolding kept_from
  kept_state m info = kept_from info (find (identity info) m.tracked)

  tracked-record_alert :
      (m : LinkStateMonitor F) (now : ℕ) (key : Text) (x : _) (b : Bool) (msg : Text)
      → (record_alert m now key x b msg).tracked ≡ m.tracked
  unfolding record_alert
  tracked-record_alert m now key x b msg = refl

  tracked-alert_transition :
      (m : LinkStateMonitor F) (now : ℕ) (info : NetworkInterfaceInfo) (a b : LinkSample) (r : Text)
      → (alert_transition m now info a b r).tracked ≡ m.tracked
  unfolding alert_transition record_alert
  tracked-alert_transition m now info a b r = ground arith

  abbrev pub Stored :
      LinkStateMonitor F → NetworkInterfaceInfo → LinkSample → LinkStateMonitor F → Type 0
  Stored m info s m' =
      (t : TrackedInterface) × IsCurrent info s t
      × (m'.tracked ≡ insert (identity info) t m.tracked)

  -- The branches of a readable sample of an interface that did not go away.
  readable :
      (m : LinkStateMonitor F) (now : Clocks) (info : NetworkInterfaceInfo) (t : TrackedInterface)
      → t.present ≡ true
      → t.name ≡ info.name
      → t.link_known ≡ link_readable info
      → Stored m info (sample_of info) (
          if not t.has_valid_state
          then adopt_baseline m now info t
          else if sample_beq t.state (sample_of info)
          then set_tracked m (identity info) t
          else change_state m now info t)
  unfolding adopt_baseline change_state push_event set_tracked
  readable m now info t p n k = elim (Bool-cases t.has_valid_state) [
    | inr e ↦ simp e (_, record { present = p; name = n; known = k; state = refl }, refl)
    | inl e ↦ simp e (elim (Bool-cases (sample_beq t.state (sample_of info))) [
      | inl q ↦ rw q (
        t,
        record {
          present = p;
          name = n;
          known = k;
          state = sample_beq_eq t.state (sample_of info) q;
        },
        refl,
      )
      | inr q ↦ rw q (
        _,
        record { present = p; name = n; known = k; state = refl },
        tracked-alert_transition _ now.system info t.state (sample_of info) _,
      )
    ])
  ]

  refresh-Stored :
      (m : LinkStateMonitor F) (now : Clocks) (info : NetworkInterfaceInfo) (gone : Bool)
      (t : TrackedInterface)
      → t.present ≡ true
      → t.name ≡ info.name
      → t.link_known ≡ link_readable info
      → Stored m info
          (if gone || link_readable info then sample_of info else t.state)
          (refresh m now info gone t)
  unfolding refresh reappear adopt_baseline change_state push_event set_tracked record_alert
  refresh-Stored m now info true t p n k =
      (_, record { present = p; name = n; known = k; state = refl }, refl)
  refresh-Stored m now info false t p n k = elim (Bool-cases (link_readable info)) [
    | inr e ↦ rw e (t, record { present = p; name = n; known = k; state = refl }, refl)
    | inl e ↦ rw e (readable m now info t p n k)
  ]

  Stored-unchanged :
      (m : LinkStateMonitor F) (info : NetworkInterfaceInfo) (s : LinkSample)
      (m' : LinkStateMonitor F)
      → Stored m info s m'
      → ((t : TrackedInterface) × (find (identity info) m'.tracked ≡ some t) × IsCurrent info s t)
        × ((key : Text) → key ≢ identity info → find key m'.tracked ≡ find key m.tracked)
  Stored-unchanged m info s m' (t, c, e) = (
    (t, rw (e) (find-insert_self (identity info) t m.tracked), c),
    λ key ne. rw e (
        find-insert (identity info) key t m.tracked
        ∙ rw (beq_false (identity info) key (λ x. ne (sym x)))),
  )

  observe_found-Stored :
      (m : LinkStateMonitor F) (now : Clocks) (info : NetworkInterfaceInfo)
      (o : Option TrackedInterface)
      → Stored m info (kept_from info o) (observe_found m now info o)
  unfolding observe_found kept_from discover set_tracked push_event
  observe_found-Stored m now info none =
      (_, record { present = refl; name = refl; known = refl; state = refl }, refl)
  observe_found-Stored m now info (some t) =
      refresh-Stored m now info (not t.present) _ refl refl refl

  pub observe-Stored :
      (m : LinkStateMonitor F) (now : Clocks) (info : NetworkInterfaceInfo)
      → Stored m info (kept_state m info) (observe m now info)
  unfolding observe kept_state
  observe-Stored m now info = observe_found-Stored m now info (find (identity info) m.tracked)

  -- After a round of the loop the interface is tracked as present, under its current name, with
  -- the state that was read; while it stays present and nothing can be read, with its last state.
  -- The entries of other identities stay as they were.
  pub observe_lem :
      (m : LinkStateMonitor F) (now : Clocks) (info : NetworkInterfaceInfo)
      → let m' = observe m now info in
        ((t : TrackedInterface) × (find (identity info) m'.tracked ≡ some t)
          × IsCurrent info (kept_state m info) t)
        × ((key : Text) → key ≢ identity info → find key m'.tracked ≡ find key m.tracked)
  observe_lem m now info =
      Stored-unchanged m info (kept_state m info) (observe m now info) (observe-Stored m now info)
