-- ===== src/Alert/Recorded.antt =====
-- Events that other monitors record, and subjects that they clear (`recordRuleEvent` and
-- `clearSubject` in src/alert_manager.cpp).
use arch_task_manager.Base.{
  ℕ, ◌≤◌, ◌≡◌, refl, sym, ap, ◌∙◌, true, false, not, ◌&&◌, Text, List, [], ◌∷◌, ◌++◌, ◌==◌,
  if◌then◌else◌, arith, Bool-cases, inl, inr, length, last, last-of_le, find, find-insert_self,
  text_equality, Option-cases,
}
use mathlib.Core.List.{append-nil}
use mathlib.Core.Bool.{true≢false}
use arch_task_manager.Base.Double.{Double}
use arch_task_manager.Alert.Types.{
  AlertType, AlertSeverity, normal, AlertEvent, type_equality, severity_equality, severity_beq_iff,
}
use arch_task_manager.Alert.Manager.{
  AlertManager, SubjectState, subject_key, current_severity, set_subject, subject, push_event,
  rule_event, record_rule_event, clear_subject,
}
use arch_task_manager.Alert.Transitions.{
  severity_of_missing, severity_of_found, severity-subject, current_severity-set_subject,
  current_severity-push_event, history-push_event,
}

module _ {F : Type 0} ⦃d : Double F⦄ where
  module _ (m : AlertManager F) (now : ℕ) (t : AlertType) (s : Text) (x : AlertSeverity) (v w : F)
      (message : Text) where
    abbrev pub recorded : AlertManager F
    recorded = record_rule_event m now t s x v w message

    abbrev pub newest : List (AlertEvent F)
    newest =
        if d.is_finite v && not (current_severity m t s == x)
        then rule_event now t s x v w message ∷ []
        else []

    abbrev pub severity_expected : AlertType → Text → AlertSeverity
    severity_expected t' s' =
        if d.is_finite v && ((t == t') && (s == s')) then x else current_severity m t' s'

    abbrev pub IsRecorded : AlertManager F → Type 0
    IsRecorded m' =
        ((t' : AlertType) (s' : Text) → current_severity m' t' s' ≡ severity_expected t' s')
        × (m'.delivered ≡ m.delivered)
        × (m'.history ≡ last m.max_history (m.history ++ newest))

    abbrev pub held : SubjectState F
    held = subject m (subject_key t s)

    abbrev pub changed : SubjectState F
    changed = record { severity = x; threshold = w; value = v }

    abbrev pub entry : AlertEvent F
    entry = rule_event now t s x v w message

    -- The severities after a state is stored for the subject.
    severities :
        (state : SubjectState F)
        → (d.is_finite v ≡ false → state.severity ≡ current_severity m t s)
        → (d.is_finite v ≡ true → state.severity ≡ x)
        → (t' : AlertType) (s' : Text)
        → current_severity (set_subject m (subject_key t s) state) t' s' ≡ severity_expected t' s'
    severities state f g t' s' = ground (
      arith,
      f,
      g,
      current_severity-set_subject m t t' s s' state,
      type_equality.beq_iff t t',
      text_equality.beq_iff s s',
    )

    unchanged :
        length m.history ≤ m.max_history
        → (d.is_finite v && not (current_severity m t s == x)) ≡ false
        → m.history ≡ last m.max_history (m.history ++ newest)
    unchanged h e = rw e (sym (rw (append-nil m.history) (last-of_le m.max_history m.history h)))

    pub record_cases :
        (P : AlertManager F → Type 0)
        → (d.is_finite v ≡ false
            → P (set_subject m (subject_key t s) (record held { value = d.of_nat 0 })))
        → (d.is_finite v ≡ true
            → (held.severity == x) ≡ true
            → P (set_subject m (subject_key t s) (record held { value = v; threshold = w })))
        → (d.is_finite v ≡ true
            → (held.severity == x) ≡ false
            → P (push_event (set_subject m (subject_key t s) changed) entry))
        → P (record_rule_event m now t s x v w message)
    unfolding record_rule_event
    record_cases P missing same moved = elim (Bool-cases (d.is_finite v)) [
      | inr e ↦ rw e (missing e)
      | inl e ↦ elim (Bool-cases (held.severity == x)) [
        | inl q ↦ rw (e, q) (same e q)
        | inr q ↦ rw (e, q) (moved e q)
      ]
    ]

    -- In a manager whose history is within its bound, recording an event with a finite value
    -- gives the subject the event's severity. A value that is not finite changes no severity, and
    -- other subjects keep theirs. The event is added to the history, which keeps its last
    -- `max_history` entries, exactly when it is finite and the severity changes; the sink is
    -- never called.
    pub record_rule_event_lem :
        length m.history ≤ m.max_history → IsRecorded (record_rule_event m now t s x v w message)
    unfolding set_subject push_event
    record_rule_event_lem h =
        record_cases IsRecorded
          (λ e. (
            severities (record held { value = d.of_nat 0 }) (λ _. severity-subject m t s)
                (λ f. absurd (true≢false (sym f ∙ e))),
            refl,
            unchanged h (rw e),
          ))
          (λ e q. (
            severities (record held { value = v; threshold = w }) (λ _. severity-subject m t s)
                (λ _. (severity_beq_iff held.severity x).0 q),
            refl,
            unchanged h (rw (e, ← severity-subject m t s, q)),
          ))
          (λ e q. (
            λ t' s'.
                current_severity-push_event (set_subject m (subject_key t s) changed) entry t' s'
                ∙ severities changed (λ f. absurd (true≢false (sym e ∙ f))) (λ _. refl) t' s',
            refl,
            history-push_event (set_subject m (subject_key t s) changed) entry h
                ∙ ap (λ l. last m.max_history (m.history ++ l))
                    (sym (rw (e, ← severity-subject m t s, q))),
          ))

    -- A value that is not finite is not kept either: the subject's stored value becomes zero.
    pub record_rule_event_not_finite :
        d.is_finite v ≡ false
        → (subject (record_rule_event m now t s x v w message) (subject_key t s)).value ≡ d.of_nat 0
    unfolding record_rule_event subject set_subject
    record_rule_event_not_finite e = rw (e, find-insert_self)

  -- Clearing a subject makes it normal. It changes no other severity and no history, and the sink
  -- is not called.
  pub clear_subject_lem :
      (m : AlertManager F) (t : AlertType) (s : Text)
      → let m' = clear_subject m t s in
        ((t' : AlertType) (s' : Text)
          → current_severity m' t' s'
            ≡ (if (t == t') && (s == s') then normal else current_severity m t' s'))
        × (m'.history ≡ m.history)
        × (m'.delivered ≡ m.delivered)
  unfolding clear_subject set_subject
  clear_subject_lem m t s = elim (Option-cases (find (subject_key t s) m.subjects)) [
    | inl e ↦ rw e (λ t' s'. already t' s' (severity_of_missing m t s e), refl, refl)
    | inr (state, e) ↦ elim (Bool-cases (state.severity == normal)) [
      | inl q ↦
          rw (e, q)
            (
              λ t' s'.
                  already t' s'
                    (severity_of_found m t s e ∙ (severity_beq_iff state.severity normal).0 q),
              refl,
              refl,
            )
      | inr q ↦
          rw (e, q)
            (
              λ t' s'.
                  current_severity-set_subject m t t' s s' (record state { severity = normal }),
              refl,
              refl,
            )
    ]
  ]
    where
      already :
          (t' : AlertType) (s' : Text)
          → current_severity m t s ≡ normal
          → current_severity m t' s'
            ≡ (if (t == t') && (s == s') then normal else current_severity m t' s')
      already t' s' e = ground (arith, type_equality.beq_iff t t', text_equality.beq_iff s s')
