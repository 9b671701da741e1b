-- ===== src/Network/LinkMetrics/Retention.antt =====
-- What is kept of an interface's speed and duplex mode (src/network_link_metrics.cpp).
use arch_task_manager.Base.{
  ℕ, ◌≡◌, refl, sym, ◌∙◌, ◌↔◌, inl, inr, Bool, true, not, ◌&&◌, Option, none, some, if◌then◌else◌,
  arith, text_equality, text_beq, Bool-cases,
}
use arch_task_manager.Base.Int.{ℤ}
use arch_task_manager.Network.Interface.{NetworkInterfaceInfo, is_physical_network_link}
use arch_task_manager.Network.LinkMetrics.{
  NetworkDuplexMode, unknown_mode, half, full, valid, duplex_mode_name, parse_duplex, unavailable,
  NetworkLinkMetrics, parse_network_duplex, is_fresh_speed, update_speed, update_duplex, is_known,
  update_metrics, kept_speed, kept_duplex,
}

-- What is kept when a read gives a value, or does not.
abbrev pub speed_expected : NetworkLinkMetrics → NetworkInterfaceInfo → Option ℤ
speed_expected previous info =
    if not (is_physical_network_link info.type)
    then none
    else if is_fresh_speed info.link.speed_mbps
    then info.link.speed_mbps
    else previous.speed_mbps

-- The speed's state tells whether there is a speed, and is valid only on an active physical link.
pub record IsSound (m : NetworkLinkMetrics) : Type 0 where
  pub speed : (m.speed_state ≡ unavailable) ↔ (m.speed_mbps ≡ none)
  pub duplex : (m.duplex_state ≡ unavailable) ↔ (m.duplex ≡ unknown_mode)
  pub speed_valid : m.speed_state ≡ valid → (m.physical && m.link_active) ≡ true
  pub duplex_valid : m.duplex_state ≡ valid → (m.physical && m.link_active) ≡ true

update_speed_lem :
    (m : NetworkLinkMetrics) (speed : Option ℤ) (active : Bool) (refreshed_at : ℕ)
    → let m' = update_speed m speed active refreshed_at in
      ((m'.speed_state ≡ unavailable) ↔ (m'.speed_mbps ≡ none))
      × (m'.speed_state ≡ valid → active ≡ true)
unfolding update_speed kept_speed is_fresh_speed
update_speed_lem m none active refreshed_at =
    ((λ h. ground arith, λ h. ground arith), λ h. ground arith)
update_speed_lem m (some n) active refreshed_at =
    ((λ h. ground arith, λ h. ground arith), λ h. ground arith)

update_duplex_lem :
    (m : NetworkLinkMetrics) (mode : NetworkDuplexMode) (active : Bool) (refreshed_at : ℕ)
    → let m' = update_duplex m mode active refreshed_at in
      ((m'.duplex_state ≡ unavailable) ↔ (m'.duplex ≡ unknown_mode))
      × (m'.duplex_state ≡ valid → active ≡ true)
unfolding update_duplex kept_duplex is_known
update_duplex_lem m mode active refreshed_at =
    ((λ h. ground arith, λ h. ground arith), λ h. ground arith)

-- The fields of one half do not depend on the other half.
other_fields-update_duplex :
    (m : NetworkLinkMetrics) (mode : NetworkDuplexMode) (active : Bool) (refreshed_at : ℕ)
    → let m' = update_duplex m mode active refreshed_at in
      (m'.speed_mbps ≡ m.speed_mbps)
      × (m'.speed_state ≡ m.speed_state)
      × (m'.physical ≡ m.physical)
      × (m'.link_active ≡ m.link_active)
unfolding update_duplex
other_fields-update_duplex m mode active refreshed_at = elim (Bool-cases (is_known mode)) [
  | inl e ↦ rw e (refl, refl, refl, refl)
  | inr e ↦ rw e (refl, refl, refl, refl)
]

other_fields-update_speed :
    (m : NetworkLinkMetrics) (speed : Option ℤ) (active : Bool) (refreshed_at : ℕ)
    → let m' = update_speed m speed active refreshed_at in
      (m'.speed_mbps ≡ (if is_fresh_speed speed then speed else m.speed_mbps))
      × (m'.physical ≡ m.physical)
      × (m'.link_active ≡ m.link_active)
unfolding update_speed
other_fields-update_speed m speed active refreshed_at = elim (Bool-cases (is_fresh_speed speed)) [
  | inl e ↦ rw e (refl, refl, refl)
  | inr e ↦ rw e (refl, refl, refl)
]

-- The two halves of a read of a physical link.
both_halves :
    (m : NetworkLinkMetrics) (speed : Option ℤ) (mode : NetworkDuplexMode) (refreshed_at : ℕ)
    → m.physical ≡ true
    → let m' =
        update_duplex
          (update_speed m speed m.link_active refreshed_at)
          mode
          m.link_active
          refreshed_at in
      (m'.speed_mbps ≡ (if is_fresh_speed speed then speed else m.speed_mbps)) × IsSound m'
both_halves m speed mode r p =
    let m₁ = update_speed m speed m.link_active r in
    let (a, b, c, e) = other_fields-update_duplex m₁ mode m.link_active r in
    let (f, g, h) = other_fields-update_speed m speed m.link_active r in
    let (s, t) = update_speed_lem m speed m.link_active r in
    let (u, v) = update_duplex_lem m₁ mode m.link_active r in
    (
      a ∙ f,
      record {
        speed = (λ q. a ∙ s.0 (sym b ∙ q), λ q. b ∙ s.1 (sym a ∙ q));
        duplex = u;
        speed_valid = λ q. simp (c, e, g, h, p) (t (sym b ∙ q));
        duplex_valid = λ q. simp (c, e, g, h, p) (v q);
      },
    )

-- A read keeps the speed that it gave, or else the last one; a link that is not physical keeps
-- none. The speed and the duplex mode are marked unavailable exactly if there is none, and valid
-- only while the link is physical and active.
pub update_metrics_lem :
    (previous : NetworkLinkMetrics) (info : NetworkInterfaceInfo) (active : Bool) (refreshed_at : ℕ)
    → let m = update_metrics previous info active refreshed_at in
      (m.speed_mbps ≡ speed_expected previous info) × IsSound m
unfolding update_metrics
update_metrics_lem previous info active refreshed_at =
    elim (Bool-cases (is_physical_network_link info.type)) [
      | inl e ↦ rw e (
          both_halves _ info.link.speed_mbps (parse_network_duplex info.link.duplex) refreshed_at
            refl)
      | inr e ↦ rw e (
        refl,
        record {
          speed = ground arith;
          duplex = ground arith;
          speed_valid = λ h. cc;
          duplex_valid = λ h. cc;
        },
      )
    ]

-- The name of a duplex mode is read back as the mode.
parse_network_duplex-duplex_mode_name :
    (mode : NetworkDuplexMode) → parse_network_duplex (some (duplex_mode_name mode)) ≡ mode
unfolding parse_network_duplex duplex_mode_name parse_duplex text_beq
parse_network_duplex-duplex_mode_name unknown_mode = refl
parse_network_duplex-duplex_mode_name half = refl
parse_network_duplex-duplex_mode_name full = refl
