-- ===== src/Alert/Reach.antt =====
-- What holds of every manager that a history of calls can produce (src/alert_manager.cpp).
use arch_task_manager.Base.{
  ℕ, ◌≤◌, ◌≡◌, refl, Bool, Text, List, [], ◌∷◌, ◌++◌, arith, Bool-cases, Option-cases, inl, inr,
  All, length, Distinct, insert-Distinct, All-insert, find, length-append, length-tail,
  text_equality, ◌==◌,
}
use arch_task_manager.Base.Double.{Double}
use arch_task_manager.Alert.Types.{
  AlertType, AlertSeverity, AlertEvent, AlertThreshold, temperature, normal, severity_equality,
}
use arch_task_manager.Alert.Manager.{
  SubjectState, AlertManager, subject_key, set_subject, push_event, notify_sink, evaluate,
  record_rule_event, clear_subject, reset, set_threshold, set_notification_sink, create,
}
use arch_task_manager.Alert.Updates.{
  feed, update_cpu, update_memory, update_disk_usage, update_disk_activity, update_network,
  update_gpu, update_temperature,
}
use arch_task_manager.Alert.Transitions.{evaluate_cases}
use arch_task_manager.Alert.Recorded.{record_cases}
use arch_task_manager.Alert.Active.{IsSubject}

-- The calls of the public interface that change the manager; each event has its time.
pub data Call (F : Type 0) : Type 0 where
  cpu : ℕ → F → Call F
  memory : ℕ → F → F → Call F
  disk_capacity : ℕ → Text → F → Call F
  disk_activity : ℕ → F → F → Call F
  network : ℕ → F → F → Call F
  gpu : ℕ → Text → F → F → Call F
  sensor : ℕ → Text → F → F → Call F
  rule : ℕ → AlertType → Text → AlertSeverity → F → F → Text → Call F
  clear : AlertType → Text → Call F
  configure : AlertType → AlertThreshold F → Call F
  sink : Bool → Call F
  restart : Call F

module _ {F : Type 0} ⦃d : Double F⦄ where
  unfoldable pub step : AlertManager F → Call F → AlertManager F
  step m (cpu now v) = update_cpu m now v
  step m (memory now v w) = update_memory m now v w
  step m (disk_capacity now s v) = update_disk_usage m now s v
  step m (disk_activity now v w) = update_disk_activity m now v w
  step m (network now v w) = update_network m now v w
  step m (gpu now s v w) = update_gpu m now s v w
  step m (sensor now s v h) = update_temperature m now s v h
  step m (rule now t s x v w message) = record_rule_event m now t s x v w message
  step m (clear t s) = clear_subject m t s
  step m (configure t limits) = set_threshold m t limits
  step m (sink present) = set_notification_sink m present
  step m restart = reset m

  unfoldable pub run : AlertManager F → List (Call F) → AlertManager F
  run m [] = m
  run m (c ∷ calls) = run (step m c) calls

  pub record IsValid (n : ℕ) (m : AlertManager F) : Type 0 where
    pub limit : m.max_history ≡ n
    pub bounded : length m.history ≤ n
    pub keyed : All IsSubject m.subjects
    pub distinct : Distinct m.subjects

  create-IsValid : (n : ℕ) → IsValid n (create n)
  unfolding create
  create-IsValid n = record { limit = refl; bounded = omega arith; keyed = tt; distinct = tt }

  set_subject-IsValid :
      {n : ℕ} {m : AlertManager F} (t : AlertType) (s : Text) (state : SubjectState F)
      → IsValid n m
      → IsValid n (set_subject m (subject_key t s) state)
  unfolding set_subject
  set_subject-IsValid {m = m} t s state v = record {
    limit = v.limit;
    bounded = v.bounded;
    keyed = All-insert IsSubject (subject_key t s) state m.subjects (t, s, refl) v.keyed;
    distinct = insert-Distinct (subject_key t s) state m.subjects v.distinct;
  }

  push_event-IsValid :
      {n : ℕ} {m : AlertManager F} (e : AlertEvent F) → IsValid n m → IsValid n (push_event m e)
  unfolding push_event
  push_event-IsValid {m = m} e v = record {
    limit = v.limit;
    bounded = ground (
      arith,
      v.bounded,
      v.limit,
      length-append m.history (e ∷ []),
      length-tail (m.history ++ (e ∷ [])),
    );
    keyed = v.keyed;
    distinct = v.distinct;
  }

  notify_sink-IsValid :
      {n : ℕ} {m : AlertManager F} (e : AlertEvent F) → IsValid n m → IsValid n (notify_sink m e)
  unfolding notify_sink
  notify_sink-IsValid {m = m} e v = elim (Bool-cases m.has_sink) [
    | inl q ↦
        rw q
          (record { limit = v.limit; bounded = v.bounded; keyed = v.keyed; distinct = v.distinct })
    | inr q ↦ simp q v
  ]

  evaluate-IsValid :
      {n : ℕ} (m : AlertManager F) (now : ℕ) (t : AlertType) (s : Text) (x : F) (a : Bool)
      (w c r : F) (p : Text)
      → IsValid n m
      → IsValid n (evaluate m now t s x a w c r p).0
  evaluate-IsValid {n} m now t s x a w c r p v =
      evaluate_cases m now t s x a w c r p (λ o. IsValid n o.0) (λ _. set_subject-IsValid t s _ v)
        (λ _ _. set_subject-IsValid t s _ v)
        (λ _ _. notify_sink-IsValid _ (push_event-IsValid _ (set_subject-IsValid t s _ v)))

  feed-IsValid :
      {n : ℕ} (m : AlertManager F) (now : ℕ) (t : AlertType) (s : Text) (x : F) (p : Text)
      → IsValid n m
      → IsValid n (feed m now t s x p)
  unfolding feed
  feed-IsValid m now t s x p v = elim (Bool-cases (m.thresholds t).enabled) [
    | inl e ↦ rw e (evaluate-IsValid m now t s x _ _ _ _ p v)
    | inr e ↦ rw e v
  ]

  clear_subject-IsValid :
      {n : ℕ} (m : AlertManager F) (t : AlertType) (s : Text)
      → IsValid n m
      → IsValid n (clear_subject m t s)
  unfolding clear_subject
  clear_subject-IsValid m t s v = elim (Option-cases (find (subject_key t s) m.subjects)) [
    | inl e ↦ rw e v
    | inr (state, e) ↦ elim (Bool-cases (state.severity == normal)) [
      | inl q ↦ rw (e, q) v
      | inr q ↦ rw (e, q) (set_subject-IsValid t s _ v)
    ]
  ]

  step-IsValid : {n : ℕ} (m : AlertManager F) (c : Call F) → IsValid n m → IsValid n (step m c)
  unfolding step update_cpu update_memory update_disk_usage update_disk_activity update_network
      update_gpu update_temperature reset set_threshold set_notification_sink
  step-IsValid m (cpu now x) v = feed-IsValid m now _ _ x _ v
  step-IsValid m (memory now x y) v = feed-IsValid _ now _ _ y _ (feed-IsValid m now _ _ x _ v)
  step-IsValid m (disk_capacity now s x) v = feed-IsValid m now _ s x _ v
  step-IsValid m (disk_activity now x y) v =
      feed-IsValid _ now _ _ y _ (feed-IsValid m now _ _ x _ v)
  step-IsValid m (network now x y) v = feed-IsValid _ now _ _ y _ (feed-IsValid m now _ _ x _ v)
  step-IsValid m (gpu now s x y) v = feed-IsValid _ now _ s y _ (feed-IsValid m now _ s x _ v)
  step-IsValid m (sensor now s x h) v = elim (Bool-cases (m.thresholds temperature).enabled) [
    | inl e ↦ rw e (evaluate-IsValid m now temperature s x _ _ _ _ _ v)
    | inr e ↦ rw e v
  ]
  step-IsValid {n} m (rule now t s x y w message) v =
      record_cases m now t s x y w message (IsValid n) (λ _. set_subject-IsValid t s _ v)
        (λ _ _. set_subject-IsValid t s _ v)
        (λ _ _. push_event-IsValid _ (set_subject-IsValid t s _ v))
  step-IsValid m (clear t s) v = clear_subject-IsValid m t s v
  step-IsValid m (configure t limits) v = record {
    limit = v.limit;
    bounded = v.bounded;
    keyed = v.keyed;
    distinct = v.distinct;
  }
  step-IsValid m (sink present) v = record {
    limit = v.limit;
    bounded = v.bounded;
    keyed = v.keyed;
    distinct = v.distinct;
  }
  step-IsValid m restart v = record {
    limit = v.limit;
    bounded = omega arith;
    keyed = tt;
    distinct = tt;
  }

  run-IsValid :
      {n : ℕ} (m : AlertManager F) (calls : List (Call F)) → IsValid n m → IsValid n (run m calls)
  unfolding run
  run-IsValid m [] v = v
  run-IsValid m (c ∷ calls) v = run-IsValid (step m c) calls (step-IsValid m c v)

  -- After any calls on a new manager its history has at most `n` entries, and the keys of its subjects are distinct keys of a type and a source.
  pub run-create-IsValid : (n : ℕ) (calls : List (Call F)) → IsValid n (run (create n) calls)
  run-create-IsValid n calls = run-IsValid (create n) calls (create-IsValid n)
