-- ===== src/Alert/Steady.antt =====
-- No alert spam: repeated values, values in the hysteresis band and values that are not numbers
-- give no events (`evaluate` and its callers in src/alert_manager.cpp).
use arch_task_manager.Base.{
  ℕ, ◌≡◌, refl, sym, ap, ◌∙◌, Bool, true, false, not, none, Text, List, [], ◌∷◌, arith, beq_refl,
  none_of_is_some, Bool-cases, inl, inr, text_equality, ◌==◌,
}
use mathlib.Core.Bool.{true≢false}
use arch_task_manager.Base.Double.{Double}
use arch_task_manager.Alert.Types.{
  AlertType, temperature, memory_usage, swap_usage, disk_read_activity, disk_write_activity,
  network_receive, network_transmit, gpu_usage, gpu_memory_usage, AlertSeverity, type_beq,
  type_equality, severity_equality,
}
use arch_task_manager.Alert.Manager.{
  AlertManager, next_severity, evaluate, current_severity, set_subject,
}
use arch_task_manager.Alert.Updates.{
  feed, update_cpu, update_memory, update_disk_usage, update_disk_activity, update_network,
  update_gpu, update_temperature, system,
}
use arch_task_manager.Alert.Transitions.{
  severity-subject, evaluate_cases, current_severity-evaluate_next,
}
use arch_task_manager.Alert.Events.{evaluate_reported}

module _ {F : Type 0} ⦃d : Double F⦄ where
  next_severity_again :
      (v w c r : F) (x : AlertSeverity)
      → next_severity v w c r (next_severity v w c r x) ≡ next_severity v w c r x
  unfolding next_severity
  next_severity_again v w c r x = ground arith

  current_severity-evaluate_self :
      (m : AlertManager F) (now : ℕ) (t : AlertType) (s : Text) (v w c r : F) (prefix : Text)
      → current_severity (evaluate m now t s v true w c r prefix).0 t s
        ≡ next_severity v w c r (current_severity m t s)
  current_severity-evaluate_self m now t s v w c r prefix =
      current_severity-evaluate_next m now t s v true w c r prefix t s ∙ rw (beq_refl t, beq_refl s)

  -- A value that was evaluated once gives no event when it is evaluated again with the same
  -- thresholds, whether or not it gave one the first time.
  pub evaluate_again :
      (m : AlertManager F) (now later : ℕ) (t : AlertType) (s : Text) (v w c r : F) (prefix : Text)
      → let m' = (evaluate m now t s v true w c r prefix).0 in
        (evaluate m' later t s v true w c r prefix).1 ≡ none
  evaluate_again m now later t s v w c r prefix =
      let m' = (evaluate m now t s v true w c r prefix).0 in
      none_of_is_some _ (
        evaluate_reported m' later t s v true w c r prefix
        ∙ rw
            (
              current_severity-evaluate_self m' later t s v w c r prefix,
              current_severity-evaluate_self m now t s v w c r prefix,
              next_severity_again v w c r (current_severity m t s),
            )
            (ap not (beq_refl (next_severity v w c r (current_severity m t s)))))

  -- No severity, no entry of the history and no delivery to the sink has changed.
  pub record IsQuiet (m m' : AlertManager F) : Type 0 where
    pub history : m'.history ≡ m.history
    pub delivered : m'.delivered ≡ m.delivered
    pub severities : (t : AlertType) (s : Text) → current_severity m' t s ≡ current_severity m t s

  IsQuiet-refl : (m : AlertManager F) → IsQuiet m m
  IsQuiet-refl m = record { history = refl; delivered = refl; severities = λ t s. refl }

  IsQuiet-trans : {l m n : AlertManager F} → IsQuiet l m → IsQuiet m n → IsQuiet l n
  IsQuiet-trans p q = record {
    history = q.history ∙ p.history;
    delivered = q.delivered ∙ p.delivered;
    severities = λ t s. q.severities t s ∙ p.severities t s;
  }

  -- A call whose value is not available, or calls for the severity at hand, is quiet.
  evaluate-IsQuiet :
      (m : AlertManager F) (now : ℕ) (t : AlertType) (s : Text) (v : F) (available : Bool)
      (w c r : F) (prefix : Text)
      → (available ≡ true → next_severity v w c r (current_severity m t s) ≡ current_severity m t s)
      → IsQuiet m (evaluate m now t s v available w c r prefix).0
  unfolding set_subject
  evaluate-IsQuiet m now t s v available w c r prefix same = record {
    history = lists.0;
    delivered = lists.1;
    severities = λ t' s'.
        current_severity-evaluate_next m now t s v available w c r prefix t' s'
        ∙ elim (Bool-cases available) [
          | inl e ↦ ground (arith, same e, type_equality.beq_iff t t', text_equality.beq_iff s s')
          | inr e ↦ rw e
        ];
  }
    where
      lists :
          let m' = (evaluate m now t s v available w c r prefix).0 in
          (m'.history ≡ m.history) × (m'.delivered ≡ m.delivered)
      lists =
          evaluate_cases m now t s v available w c r prefix
            (λ o. (o.0.history ≡ m.history) × (o.0.delivered ≡ m.delivered)) (λ e. (refl, refl))
            (λ e q. (refl, refl)) (λ e q. absurd (q (rw (severity-subject m t s) (same e))))

  -- Readings of one subject, each with its time, evaluated one after the other.
  pub evaluate_all :
      AlertManager F → AlertType → Text → F → F → F → Text → List (ℕ × F) → AlertManager F
  evaluate_all m t s w c r prefix [] = m
  evaluate_all m t s w c r prefix ((now, v) ∷ readings) =
      evaluate_all (evaluate m now t s v true w c r prefix).0 t s w c r prefix readings

  -- A reading that is neither at the warning or critical threshold nor below the recovery one.
  abbrev pub InBand : F → F → F → ℕ × F → Type 0
  InBand w c r (now, v) = (d.le c v ≡ false) × (d.le w v ≡ false) × (d.lt v r ≡ false)

  feed_not_finite :
      (m : AlertManager F) (now : ℕ) (t : AlertType) (s : Text) (v : F) (prefix : Text)
      → d.is_finite v ≡ false
      → IsQuiet m (feed m now t s v prefix)
  unfolding feed
  feed_not_finite m now t s v prefix h = elim (Bool-cases (m.thresholds t).enabled) [
    | inl e ↦ rw e (
        evaluate-IsQuiet m now t s v (d.is_finite v) _ _ _ prefix
          (λ x. absurd (true≢false (sym x ∙ h))))
    | inr e ↦ rw e (IsQuiet-refl m)
  ]

  -- A metric leaves the severity of a subject of another type as it was.
  feed_other :
      (m : AlertManager F) (now : ℕ) (t t' : AlertType) (s s' : Text) (v : F) (prefix : Text)
      → (t == t') ≡ false
      → current_severity (feed m now t s v prefix) t' s' ≡ current_severity m t' s'
  unfolding feed
  feed_other m now t t' s s' v prefix h = elim (Bool-cases (m.thresholds t).enabled) [
    | inl e ↦ rw e (
        current_severity-evaluate_next m now t s v (d.is_finite v) _ _ _ prefix t' s'
        ∙ ground (arith, h))
    | inr e ↦ rw e refl
  ]

  -- A call with `v` as one of two metrics, and `x` as the other, leaves the severity of the subject of `v`.
  abbrev pub Keeps :
      AlertManager F
      → AlertType
      → Text
      → AlertType
      → Text
      → (F → F → AlertManager F)
      → F
      → F
      → Type 0
  Keeps m t s t' s' update v x =
      (current_severity (update v x) t s ≡ current_severity m t s)
      × (current_severity (update x v) t' s' ≡ current_severity m t' s')

  feed-Keeps :
      (m : AlertManager F) (now : ℕ) (t t' : AlertType) (s s' p p' : Text) (v x : F)
      → (t == t') ≡ false
      → d.is_finite v ≡ false
      → Keeps m t s t' s' (λ v x. feed (feed m now t s v p) now t' s' x p') v x
  feed-Keeps m now t t' s s' p p' v x h e = (
    feed_other (feed m now t s v p) now t' t s' s x p'
          (ground (arith, h, type_equality.beq_iff t t', type_equality.beq_iff t' t))
        ∙ (feed_not_finite m now t s v p e).severities t s,
    (feed_not_finite (feed m now t s x p) now t' s' v p' e).severities t' s'
        ∙ feed_other m now t t' s s' x p h,
  )

  -- A metric that is not available (passed as NaN) or infinite leaves the severity of its subject as it was, whatever the other metric of the call is. A call with no finite metric changes no severity, adds nothing to the history and sends nothing to the sink.
  pub update_not_finite :
      (m : AlertManager F) (now : ℕ) (s : Text) (v u x h : F)
      → d.is_finite v ≡ false
      → d.is_finite u ≡ false
      → IsQuiet m (update_cpu m now v)
        × IsQuiet m (update_memory m now v u)
        × IsQuiet m (update_disk_usage m now s v)
        × IsQuiet m (update_disk_activity m now v u)
        × IsQuiet m (update_network m now v u)
        × IsQuiet m (update_gpu m now s v u)
        × IsQuiet m (update_temperature m now s v h)
        × Keeps m memory_usage system swap_usage system (update_memory m now) v x
        × Keeps m disk_read_activity system disk_write_activity system
            (update_disk_activity m now)
            v
            x
        × Keeps m network_receive system network_transmit system (update_network m now) v x
        × Keeps m gpu_usage s gpu_memory_usage s (update_gpu m now s) v x
  unfolding update_cpu update_memory update_disk_usage update_disk_activity update_network
      update_gpu update_temperature type_beq
  update_not_finite m now s v u x h e f = (
    feed_not_finite m now _ _ v _ e,
    two _ _ _ _ _ _,
    feed_not_finite m now _ _ v _ e,
    two _ _ _ _ _ _,
    two _ _ _ _ _ _,
    two _ _ _ _ _ _,
    elim (Bool-cases (m.thresholds temperature).enabled) [
      | inl q ↦ rw q (
          evaluate-IsQuiet m now temperature s v (d.is_finite v) _ _ _ _
            (λ x. absurd (true≢false (sym x ∙ e))))
      | inr q ↦ rw q (IsQuiet-refl m)
    ],
    feed-Keeps m now memory_usage swap_usage _ _ _ _ v x refl e,
    feed-Keeps m now disk_read_activity disk_write_activity _ _ _ _ v x refl e,
    feed-Keeps m now network_receive network_transmit _ _ _ _ v x refl e,
    feed-Keeps m now gpu_usage gpu_memory_usage _ _ _ _ v x refl e,
  )
    where
      two :
          (t t' : AlertType) (s s' p p' : Text)
          → IsQuiet m (feed (feed m now t s v p) now t' s' u p')
      two t t' s s' p p' =
          IsQuiet-trans (feed_not_finite m now t s v p e)
            (feed_not_finite (feed m now t s v p) now t' s' u p' f)
