-- ===== src/Alert/Worst.antt =====
-- `hasActiveAlerts` and `worstActiveSeverity` (src/alert_manager.cpp) as a maximum.
use arch_task_manager.Base.{
  ℕ, ◌≡◌, refl, ◌∙◌, not, Text, [], ◌∷◌, ◌==◌, if◌then◌else◌, arith, Map, ltb, max,
}
use arch_task_manager.Alert.Types.{AlertSeverity, normal, rank, severity_equality, severity_beq}
use arch_task_manager.Alert.Manager.{SubjectState, AlertManager}
use arch_task_manager.Alert.Queries.{
  has_active_alerts, worst_active_severity, worst_from, any_active,
}

module _ {F : Type 0} where
  -- The highest rank among some subjects, 0 where there are none.
  pub top_rank : Map Text (SubjectState F) → ℕ
  top_rank [] = 0
  top_rank ((key, state) ∷ rest) = max (rank state.severity) (top_rank rest)

  rank-worst_from :
      (x : AlertSeverity) (subjects : Map Text (SubjectState F))
      → rank (worst_from x subjects) ≡ max (rank x) (top_rank subjects)
  unfolding worst_from top_rank
  rank-worst_from x [] = omega arith
  rank-worst_from x ((key, state) ∷ rest) =
      rank-worst_from (if ltb (rank x) (rank state.severity) then state.severity else x) rest
      ∙ ground arith

  any_active-top_rank :
      (subjects : Map Text (SubjectState F)) → any_active subjects ≡ ltb 0 (top_rank subjects)
  unfolding any_active top_rank severity_beq
  any_active-top_rank [] = refl
  any_active-top_rank ((key, state) ∷ rest) = ground (arith, any_active-top_rank rest)

  -- The worst severity has the highest rank of all subjects' severities, and there are active
  -- alerts exactly where it is not normal.
  pub worst_active_severity-top :
      (m : AlertManager F)
      → (rank (worst_active_severity m) ≡ top_rank m.subjects)
        × (has_active_alerts m ≡ not (worst_active_severity m == normal))
  unfolding worst_active_severity has_active_alerts severity_beq
  worst_active_severity-top m = (
    rank-worst_from normal m.subjects ∙ omega arith,
    any_active-top_rank m.subjects ∙ ground (arith, rank-worst_from normal m.subjects),
  )
