-- ===== src/Alert/Transitions.antt =====
-- What one call of `evaluate`, `recordRuleEvent` or `clearSubject` (src/alert_manager.cpp) does to
-- the severities, the history and the sink.
use arch_task_manager.Base.{
  ℕ, ◌≤◌, ◌≡◌, refl, sym, ◌∙◌, ◌≢◌, inl, inr, Bool, true, false, ◌&&◌, Option, none, some, Text,
  List, [], ◌∷◌, ◌++◌, ◌==◌, if◌then◌else◌, length, last, find, find-insert, arith, Bool-cases,
  Option-cases, text_equality, last-of_le, ltb→lt, ltb→le, drop_at, length-append, tail-drop, ltb,
}
use mathlib.Core.Bool.{true≢false}
use arch_task_manager.Base.Double.{Double}
use arch_task_manager.Alert.Types.{
  AlertType, AlertSeverity, normal, AlertEvent, type_equality, severity_equality, severity_beq_iff,
}
use arch_task_manager.Alert.Manager.{
  SubjectState, AlertManager, subject_key, subject, set_subject, push_event, notify_sink,
  next_severity, transition_event, evaluate, current_severity,
}
use arch_task_manager.Alert.Keys.{subject_key-beq}

module _ {F : Type 0} ⦃d : Double F⦄ where
  pub severity-subject :
      (m : AlertManager F) (t : AlertType) (s : Text)
      → (subject m (subject_key t s)).severity ≡ current_severity m t s
  unfolding subject current_severity
  severity-subject m t s = ground (arith, Option-cases (find (subject_key t s) m.subjects))

  pub severity_of_missing :
      (m : AlertManager F) (t : AlertType) (s : Text)
      → find (subject_key t s) m.subjects ≡ none
      → current_severity m t s ≡ normal
  unfolding current_severity
  severity_of_missing m t s e = rw e

  pub severity_of_found :
      (m : AlertManager F) (t : AlertType) (s : Text) {state : SubjectState F}
      → find (subject_key t s) m.subjects ≡ some state
      → current_severity m t s ≡ state.severity
  unfolding current_severity
  severity_of_found m t s e = rw e

  pub current_severity-set_subject :
      (m : AlertManager F) (t t' : AlertType) (s s' : Text) (state : SubjectState F)
      → current_severity (set_subject m (subject_key t s) state) t' s'
        ≡ (if (t == t') && (s == s') then state.severity else current_severity m t' s')
  unfolding set_subject current_severity
  current_severity-set_subject m t t' s s' state = ground (
    arith,
    find-insert (subject_key t s) (subject_key t' s') state m.subjects,
    subject_key-beq t t' s s',
  )

  pub current_severity-push_event :
      (m : AlertManager F) (e : AlertEvent F) (t : AlertType) (s : Text)
      → current_severity (push_event m e) t s ≡ current_severity m t s
  unfolding push_event current_severity
  current_severity-push_event m e t s = refl

  pub current_severity-notify_sink :
      (m : AlertManager F) (e : AlertEvent F) (t : AlertType) (s : Text)
      → current_severity (notify_sink m e) t s ≡ current_severity m t s
  unfolding notify_sink current_severity
  current_severity-notify_sink m e t s = ground arith

  -- The history after a push is what the bound leaves of the longer history.
  pub history-push_event :
      (m : AlertManager F) (e : AlertEvent F)
      → length m.history ≤ m.max_history
      → (push_event m e).history ≡ last m.max_history (m.history ++ (e ∷ []))
  unfolding push_event
  history-push_event m e h = elim (Bool-cases (ltb m.max_history (length pushed))) [
    | inl over ↦ rw over (
        tail-drop 0 pushed
        ∙ drop_at {m = 1} pushed (omega (arith, ltb→lt _ _ over, length-append m.history (e ∷ []))))
    | inr fits ↦ rw fits (sym (last-of_le m.max_history pushed (ltb→le _ _ fits)))
  ]
    where
      pushed : List (AlertEvent F)
      pushed = m.history ++ (e ∷ [])

  module _ (m : AlertManager F) (now : ℕ) (t : AlertType) (s : Text) (v : F) (available : Bool)
      (w c r : F) (prefix : Text) where
    abbrev pub outcome : AlertManager F × Option (AlertEvent F)
    outcome = evaluate m now t s v available w c r prefix

    abbrev pub held : SubjectState F
    held = subject m (subject_key t s)

    abbrev pub next : AlertSeverity
    next = next_severity v w c r held.severity

    abbrev pub event : AlertEvent F
    event = transition_event now t s v w c r prefix next

    abbrev pub changed : SubjectState F
    changed = record { severity = next; threshold = event.threshold; value = v }

    abbrev pub moved : AlertManager F
    moved = set_subject m (subject_key t s) changed

    -- A call has three outcomes: no value, no change, and a transition.
    pub evaluate_cases {ℓ} :
        (P : AlertManager F × Option (AlertEvent F) → Type ℓ)
        → (available ≡ false → P (set_subject m (subject_key t s) held, none))
        → (available ≡ true
            → next ≡ held.severity
            → P (set_subject m (subject_key t s) (record held { value = v }), none))
        → (available ≡ true
            → next ≢ held.severity
            → P (notify_sink (push_event moved event) event, some event))
        → P outcome
    unfolding evaluate
    evaluate_cases P missing same transition = elim (Bool-cases available) [
      | inr e ↦ rw e (missing e)
      | inl e ↦ elim (Bool-cases (next == held.severity)) [
        | inl q ↦ rw (e, q) (same e ((severity_beq_iff next held.severity).0 q))
        | inr q ↦
            rw (e, q)
              (transition e (λ x. true≢false (sym ((severity_beq_iff next held.severity).1 x) ∙ q)))
      ]
    ]

    -- The severity of each subject after `evaluate`.
    abbrev expected : AlertType → Text → AlertSeverity
    expected t' s' =
        if available && ((t == t') && (s == s'))
        then next_severity v w c r (current_severity m t s)
        else current_severity m t' s'

    pub current_severity-evaluate_next :
        (t' : AlertType) (s' : Text) → current_severity outcome.0 t' s' ≡ expected t' s'
    current_severity-evaluate_next t' s' =
        evaluate_cases (λ o. current_severity o.0 t' s' ≡ expected t' s')
          (λ e. ground (arith, facts held))
          (λ e q. ground (arith, facts (record held { value = v })))
          (λ e q.
            current_severity-notify_sink (push_event moved event) event t' s'
            ∙ current_severity-push_event moved event t' s'
            ∙ ground (arith, facts changed))
      where
        facts :
            (state : SubjectState F)
            → (current_severity (set_subject m (subject_key t s) state) t' s'
                ≡ (if (t == t') && (s == s') then state.severity else current_severity m t' s'))
              × (held.severity ≡ current_severity m t s)
              × ((t == t') ≡ true → t ≡ t')
              × ((s == s') ≡ true → s ≡ s')
        facts state = (
          current_severity-set_subject m t t' s s' state,
          severity-subject m t s,
          (type_equality.beq_iff t t').0,
          (text_equality.beq_iff s s').0,
        )
