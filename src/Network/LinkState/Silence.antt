-- ===== src/Network/LinkState/Silence.antt =====
-- When the link-state monitor (src/network_link_state.cpp) raises alerts, and when it does not.
use arch_task_manager.Base.{
  ℕ, ◌≡◌, refl, sym, ◌∙◌, Bool, true, false, not, ◌&&◌, ◌||◌, Option, none, some, [], ◌∷◌, ◌++◌,
  text_equality, find, ◌⊎◌, arith, Bool-cases, inl, inr, Text, subst,
}
use mathlib.Core.Bool.{true≢false}
use arch_task_manager.Base.Double.{Double}
use arch_task_manager.History
use arch_task_manager.Alert.Types.{AlertEvent, AlertSeverity, warning, normal}
use arch_task_manager.Network.Interface.{NetworkInterfaceInfo, identity}
use arch_task_manager.Network.LinkState.Tracking.{
  LinkStateMonitor, NetworkLinkStateEvent, state_changed, TrackedInterface, LinkSample, Clocks,
  sample_of, link_readable, sample_beq, link_lost, link_gained, record_alert, alert_event,
  push_event, set_tracked,
}
use arch_task_manager.Network.LinkState.Observe.{
  observe, observe_found, refresh, discover, adopt_baseline, change_state, alert_transition,
}

-- A first sighting, or an interface that stayed and whose link cannot be read, has no baseline yet, or has not changed.
unfoldable pub is_uneventful : NetworkInterfaceInfo → Option TrackedInterface → Bool
is_uneventful info none = true
is_uneventful info (some t) =
    t.present
    && (not (link_readable info) || (not t.has_valid_state || sample_beq t.state (sample_of info)))

-- Whether a change is for the sink: it loses the link or gains it, and not both.
abbrev pub is_alerting : LinkSample → LinkSample → Bool
is_alerting a b =
    (link_lost a b && not (link_gained a b)) || (link_gained a b && not (link_lost a b))

module _ {F : Type 0} ⦃d : Double F⦄ where
  abbrev pub IsSilent : LinkStateMonitor F → LinkStateMonitor F → Type 0
  IsSilent m m' = (m'.alerts ≡ m.alerts) × (m'.sent ≡ m.sent)

  IsSilent-found :
      (m : LinkStateMonitor F) (now : Clocks) (info : NetworkInterfaceInfo)
      (o : Option TrackedInterface)
      → is_uneventful info o ≡ true
      → IsSilent m (observe_found m now info o)
        × ((o ≡ none) ⊎ ((observe_found m now info o).history ≡ m.history))
  unfolding observe_found is_uneventful discover refresh adopt_baseline set_tracked push_event
  IsSilent-found m now info none h = ((refl, refl), inl refl)
  IsSilent-found m now info (some t) h = ((ground arith, ground arith), inr (ground arith))

  -- A first sighting raises no alert. Neither does an interface that stayed and whose link cannot be
  -- read, was never read before, or reads as before; that one adds nothing to the history either.
  pub observe-IsSilent :
      (m : LinkStateMonitor F) (now : Clocks) (info : NetworkInterfaceInfo)
      → is_uneventful info (find (identity info) m.tracked) ≡ true
      → IsSilent m (observe m now info)
        × ((find (identity info) m.tracked ≡ none) ⊎ ((observe m now info).history ≡ m.history))
  unfolding observe
  observe-IsSilent m now info h = IsSilent-found m now info (find (identity info) m.tracked) h

  sent-record_alert :
      (m : LinkStateMonitor F) (now : ℕ) (key : Text) (x : AlertSeverity) (recovery : Bool)
      (message : Text)
      → m.has_sink ≡ true
      → (e : AlertEvent F) × ((record_alert m now key x recovery message).sent ≡ m.sent ++ (e ∷ []))
        × (e.source ≡ key)
        × (e.is_recovery ≡ recovery)
  unfolding record_alert alert_event
  sent-record_alert m now key x recovery message h =
      (alert_event now key x recovery message, rw h, refl, refl)

  sent-alert_transition :
      (m : LinkStateMonitor F) (now : ℕ) (info : NetworkInterfaceInfo) (a b : LinkSample) (r : Text)
      → let m' = alert_transition m now info a b r in
        ((is_alerting a b && m.has_sink) ≡ false → m'.sent ≡ m.sent)
        × ((is_alerting a b && m.has_sink) ≡ true
            → (e : AlertEvent F) × (m'.sent ≡ m.sent ++ (e ∷ []))
              × (e.source ≡ identity info)
              × (e.is_recovery ≡ link_gained a b))
        × (m'.history ≡ m.history)
  unfolding alert_transition record_alert
  sent-alert_transition m now info a b r = (
    λ h. ground arith,
    λ h. elim (Bool-cases (link_lost a b)) [
      | inl lost ↦ elim (Bool-cases (link_gained a b)) [
        | inl gained ↦ absurd (true≢false (sym h ∙ rw (lost, gained)))
        | inr same ↦
            rw (lost, same)
              (sent-record_alert m now (identity info) warning false _ (rw (lost, same) at h))
      ]
      | inr same ↦ elim (Bool-cases (link_gained a b)) [
        | inl gained ↦
            rw (same, gained)
              (sent-record_alert m now (identity info) normal true _ (rw (same, gained) at h))
        | inr stays ↦ absurd (true≢false (sym h ∙ rw (same, stays)))
      ]
    ],
    ground arith,
  )

  -- What a change of state from `t.state` does to the history and the sink.
  abbrev pub Changes :
      LinkStateMonitor F → NetworkInterfaceInfo → TrackedInterface → LinkStateMonitor F → Type 0
  Changes m info t m' =
      ((e : NetworkLinkStateEvent) × (m'.history ≡ History.add_sample m.history e)
        × (e.type ≡ state_changed)
        × (e.identity ≡ identity info)
        × (e.previous ≡ t.state)
        × (e.new ≡ sample_of info))
      × ((is_alerting t.state (sample_of info) && m.has_sink) ≡ false → m'.sent ≡ m.sent)
      × ((is_alerting t.state (sample_of info) && m.has_sink) ≡ true
          → (e : AlertEvent F) × (m'.sent ≡ m.sent ++ (e ∷ []))
            × (e.source ≡ identity info)
            × (e.is_recovery ≡ link_gained t.state (sample_of info)))

  change_state-Changes :
      (m : LinkStateMonitor F) (now : Clocks) (info : NetworkInterfaceInfo) (t : TrackedInterface)
      → Changes m info t (change_state m now info t)
  unfolding change_state set_tracked push_event
  change_state-Changes m now info t = (
    (
      _,
      (sent-alert_transition _ now.system info t.state (sample_of info) _).2,
      refl,
      refl,
      refl,
      refl,
    ),
    (sent-alert_transition _ now.system info t.state (sample_of info) _).0,
    (sent-alert_transition _ now.system info t.state (sample_of info) _).1,
  )

  refresh_changed :
      (m : LinkStateMonitor F) (now : Clocks) (info : NetworkInterfaceInfo) (t : TrackedInterface)
      → link_readable info ≡ true
      → t.has_valid_state ≡ true
      → sample_beq t.state (sample_of info) ≡ false
      → refresh m now info false t ≡ change_state m now info t
  unfolding refresh
  refresh_changed m now info t r v c = rw r (simp (v, c))

  -- A readable change of an interface that stayed adds one event to the history, with the old
  -- and the new state. The sink, if there is one, is called exactly when the change loses the
  -- link or gains it and not both, with a recovery exactly when it gains it.
  pub observe_changed :
      (m : LinkStateMonitor F) (now : Clocks) (info : NetworkInterfaceInfo) (t : TrackedInterface)
      → find (identity info) m.tracked ≡ some t
      → t.present ≡ true
      → link_readable info ≡ true
      → t.has_valid_state ≡ true
      → sample_beq t.state (sample_of info) ≡ false
      → Changes m info t (observe m now info)
  unfolding observe observe_found
  observe_changed m now info t found p r v c = rw found (
      subst (λ x. Changes m info t (refresh m now info (not x) seen)) (sym p)
        (rw (refresh_changed m now info seen r v c) (change_state-Changes m now info seen)))
    where
      seen : TrackedInterface
      seen = record t { present = true; link_known = link_readable info; name = info.name }
