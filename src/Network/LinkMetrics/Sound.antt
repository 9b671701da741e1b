-- ===== src/Network/LinkMetrics/Sound.antt =====
-- What holds of every record that `NetworkLinkMetricsMonitor` keeps (src/network_link_metrics.cpp).
use arch_task_manager.Base.{
  ℕ, zero, suc, false, ◌-◌, inl, inr, Text, List, [], ◌∷◌, ◌==◌, text_equality, Map, find, erase,
  All, All-insert, Bool-cases, any, ltb, length, map,
}
use arch_task_manager.Network.Interface.{NetworkInterfaceInfo, NetworkInterfaceSnapshot, identity}
use arch_task_manager.Network.LinkMetrics.{
  NetworkLinkMetrics, base_record, link_active_now, observe, observe_all, mark_absent, erase_first,
  max_tracked, evict_overflow, update,
}
use arch_task_manager.Network.LinkMetrics.Retention.{IsSound, update_metrics_lem}

abbrev Records : Type 0
Records = Map Text NetworkLinkMetrics

abbrev pub AllSound : Map Text NetworkLinkMetrics → Type 0
AllSound = All (λ p. IsSound p.1)

absent-IsSound : (m : NetworkLinkMetrics) → IsSound m → IsSound (record m { present = false })
absent-IsSound m s = record {
  speed = s.speed;
  duplex = s.duplex;
  speed_valid = s.speed_valid;
  duplex_valid = s.duplex_valid;
}

AllSound-observe_all :
    (tracked : Records) (now refreshed_at : ℕ) (infos : List NetworkInterfaceInfo)
    → AllSound tracked
    → AllSound (observe_all tracked now refreshed_at infos)
unfolding observe_all observe
AllSound-observe_all tracked now r [] a = a
AllSound-observe_all tracked now r (info ∷ rest) a =
    AllSound-observe_all (observe tracked now r info) now r rest (
      All-insert (λ p. IsSound p.1) (identity info) _ tracked
        (update_metrics_lem (base_record (identity info) now (find (identity info) tracked)) info
          (link_active_now info) r).1
        a)

AllSound-mark_absent :
    (present : List Text) (tracked : Records)
    → AllSound tracked
    → AllSound (mark_absent present tracked)
unfolding mark_absent
AllSound-mark_absent present [] a = tt
AllSound-mark_absent present ((key, m) ∷ rest) a = elim (Bool-cases (any (λ k. k == key) present)) [
  | inl e ↦ rw e (a.0, AllSound-mark_absent present rest a.1)
  | inr e ↦ rw e (absent-IsSound m a.0, AllSound-mark_absent present rest a.1)
]

AllSound-erase : (key : Text) (tracked : Records) → AllSound tracked → AllSound (erase key tracked)
unfolding erase
AllSound-erase key [] a = tt
AllSound-erase key ((j, m) ∷ rest) a = elim (Bool-cases (j == key)) [
  | inl e ↦ rw e (AllSound-erase key rest a.1)
  | inr e ↦ rw e (a.0, AllSound-erase key rest a.1)
]

AllSound-erase_first :
    (n : ℕ) (keys : List Text) (tracked : Records)
    → AllSound tracked
    → AllSound (erase_first n keys tracked)
unfolding erase_first
AllSound-erase_first zero keys tracked a = a
AllSound-erase_first (suc n) [] tracked a = a
AllSound-erase_first (suc n) (k ∷ keys) tracked a =
    AllSound-erase_first n keys (erase k tracked) (AllSound-erase k tracked a)

AllSound-evict_overflow : (tracked : Records) → AllSound tracked → AllSound (evict_overflow tracked)
unfolding evict_overflow
AllSound-evict_overflow tracked a = elim (Bool-cases (ltb max_tracked (length tracked))) [
  | inl e ↦ rw e (AllSound-erase_first (length tracked - max_tracked) _ tracked a)
  | inr e ↦ rw e a
]

-- If the speed and duplex states of all records agree with the values that are kept, they do so
-- after an update with any snapshot.
pub AllSound-update :
    (tracked : Map Text NetworkLinkMetrics) (now : ℕ) (snapshot : NetworkInterfaceSnapshot)
    → AllSound tracked
    → AllSound (update tracked now snapshot)
unfolding update
AllSound-update tracked now snapshot a = AllSound-evict_overflow _ (
    AllSound-mark_absent (map identity snapshot.interfaces) _
      (AllSound-observe_all tracked now snapshot.refreshed_at snapshot.interfaces a))
