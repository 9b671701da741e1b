-- ===== src/Alert/Events.antt =====
-- The events that `evaluate` (src/alert_manager.cpp) returns, keeps and hands to the sink.
use arch_task_manager.Base.{
  ℕ, ◌≤◌, ◌≡◌, refl, sym, ap, ◌∙◌, ◌≢◌, Bool, false, not, Option, none, some, Text, List, [], ◌∷◌,
  ◌++◌, ◌==◌, if◌then◌else◌, length, last, arith, text_equality, last-of_le, is_some, beq_refl,
  beq_false,
}
use mathlib.Core.List.{append-nil}
use arch_task_manager.Base.Double.{Double}
use arch_task_manager.Alert.Types.{AlertType, normal, AlertEvent, type_equality, severity_equality}
use arch_task_manager.Alert.Manager.{
  SubjectState, AlertManager, subject_key, set_subject, push_event, notify_sink, transition_event,
  evaluate, current_severity,
}
use arch_task_manager.Alert.Transitions.{
  severity-subject, current_severity-set_subject, current_severity-push_event,
  current_severity-notify_sink, history-push_event, held, next, event, changed, evaluate_cases,
}

abbrev pub option_list {ℓ} : {A : Type ℓ} → Option A → List A
option_list none = []
option_list (some a) = a ∷ []

module _ {F : Type 0} ⦃d : Double F⦄ where
  history-notify_sink :
      (m : AlertManager F) (e : AlertEvent F) → (notify_sink m e).history ≡ m.history
  unfolding notify_sink
  history-notify_sink m e = ground arith

  delivered-notify_sink :
      (m : AlertManager F) (e : AlertEvent F)
      → (notify_sink m e).delivered ≡ m.delivered ++ (if m.has_sink then e ∷ [] else [])
  unfolding notify_sink
  delivered-notify_sink m e = ground (arith, append-nil m.delivered)

  -- What is said of the manager `o.0` and the event `o.1` that a call on `m` returns for a subject.
  pub record Reports (m : AlertManager F) (t : AlertType) (s : Text)
      (o : AlertManager F × Option (AlertEvent F)) : Type 0 where
    pub reported : is_some o.1 ≡ not (current_severity o.0 t s == current_severity m t s)
    pub described :
        (e : AlertEvent F)
        → o.1 ≡ some e
        → (e.type ≡ t)
          × (e.source ≡ s)
          × (e.severity ≡ current_severity o.0 t s)
          × (e.is_recovery ≡ (e.severity == normal))
    pub kept : o.0.history ≡ last m.max_history (m.history ++ option_list o.1)
    pub sent : o.0.delivered ≡ m.delivered ++ (if m.has_sink then option_list o.1 else [])

  -- A subject that is stored has the severity that it was stored with.
  severity_stored :
      (m : AlertManager F) (t : AlertType) (s : Text) (state : SubjectState F)
      → current_severity (set_subject m (subject_key t s) state) t s ≡ state.severity
  severity_stored m t s state =
      current_severity-set_subject m t t s s state ∙ rw (beq_refl t, beq_refl s)

  -- A subject whose severity stays gives no event, and changes nothing but the subject.
  quiet_Reports :
      (m : AlertManager F) (t : AlertType) (s : Text) (state : SubjectState F)
      → length m.history ≤ m.max_history
      → state.severity ≡ current_severity m t s
      → Reports m t s (set_subject m (subject_key t s) state, none)
  unfolding set_subject
  quiet_Reports m t s state h e = record {
    reported = rw (severity_stored m t s state, e, beq_refl (current_severity m t s));
    described = λ x q. cc;
    kept = sym (rw (append-nil m.history) (last-of_le m.max_history m.history h));
    sent = ground (arith, append-nil m.delivered);
  }

  pushed : AlertManager F → AlertType → Text → SubjectState F → AlertEvent F → AlertManager F
  pushed m t s state e = push_event (set_subject m (subject_key t s) state) e

  severity-pushed :
      (m : AlertManager F) (t : AlertType) (s : Text) (state : SubjectState F) (e : AlertEvent F)
      → current_severity (notify_sink (pushed m t s state e) e) t s ≡ state.severity
  unfolding pushed
  severity-pushed m t s state e =
      current_severity-notify_sink (push_event (set_subject m (subject_key t s) state) e) e t s
      ∙ current_severity-push_event (set_subject m (subject_key t s) state) e t s
      ∙ severity_stored m t s state

  history-pushed :
      (m : AlertManager F) (t : AlertType) (s : Text) (state : SubjectState F) (e : AlertEvent F)
      → length m.history ≤ m.max_history
      → (notify_sink (pushed m t s state e) e).history ≡ last m.max_history (m.history ++ (e ∷ []))
  unfolding pushed set_subject
  history-pushed m t s state e h =
      history-notify_sink (push_event (set_subject m (subject_key t s) state) e) e
      ∙ history-push_event (set_subject m (subject_key t s) state) e h

  delivered-pushed :
      (m : AlertManager F) (t : AlertType) (s : Text) (state : SubjectState F) (e : AlertEvent F)
      → (notify_sink (pushed m t s state e) e).delivered
        ≡ m.delivered ++ (if m.has_sink then e ∷ [] else [])
  unfolding pushed set_subject push_event
  delivered-pushed m t s state e =
      delivered-notify_sink (push_event (set_subject m (subject_key t s) state) e) e

  -- A subject whose severity moves gives an event.
  loud_Reports :
      (m : AlertManager F) (t : AlertType) (s : Text) (state : SubjectState F) (e : AlertEvent F)
      → length m.history ≤ m.max_history
      → e.type ≡ t
      → e.source ≡ s
      → e.severity ≡ state.severity
      → e.is_recovery ≡ (e.severity == normal)
      → state.severity ≢ current_severity m t s
      → Reports m t s (notify_sink (pushed m t s state e) e, some e)
  loud_Reports m t s state e h et es ev er ne = record {
    reported =
        rw (severity-pushed m t s state e, beq_false state.severity (current_severity m t s) ne);
    described = λ x q. rw (severity-pushed m t s state e) (ground arith);
    kept = history-pushed m t s state e h;
    sent = delivered-pushed m t s state e;
  }

  module _ (m : AlertManager F) (now : ℕ) (t : AlertType) (s : Text) (v : F) (available : Bool)
      (w c r : F) (prefix : Text) where
    -- `evaluate` returns an event exactly when the subject's severity changes.
    pub evaluate_reported :
        let o = evaluate m now t s v available w c r prefix in
        is_some o.1 ≡ not (current_severity o.0 t s == current_severity m t s)
    unfolding pushed
    evaluate_reported =
        evaluate_cases m now t s v available w c r prefix
          (λ o. is_some o.1 ≡ not (current_severity o.0 t s == current_severity m t s))
          (λ e. quiet (held m now t s v available w c r prefix) (severity-subject m t s))
          (λ e q.
            quiet (record (held m now t s v available w c r prefix) { value = v })
              (severity-subject m t s))
          (λ e q.
            rw
              (severity-pushed m t s (changed m now t s v available w c r prefix)
                (event m now t s v available w c r prefix))
              (sym (
                ap not (
                  beq_false (next m now t s v available w c r prefix) (current_severity m t s)
                    (λ x. q (x ∙ sym (severity-subject m t s)))))))
      where
        quiet :
            (state : SubjectState F)
            → state.severity ≡ current_severity m t s
            → false
              ≡ not (
                  current_severity (set_subject m (subject_key t s) state) t s
                  == current_severity m t s)
        quiet state e = rw (severity_stored m t s state, e, beq_refl (current_severity m t s))

    -- In a manager whose history is within its bound, `evaluate` returns an event exactly when
    -- the subject's severity changes. The event names the subject and its new severity, and is a
    -- recovery exactly when that is normal. It is the newest entry of the history, which keeps
    -- its last `max_history` entries, and it goes to the sink if there is one.
    pub evaluate-Reports :
        length m.history ≤ m.max_history
        → Reports m t s (evaluate m now t s v available w c r prefix)
    unfolding pushed transition_event
    evaluate-Reports h =
        evaluate_cases m now t s v available w c r prefix (Reports m t s)
          (λ e. quiet_Reports m t s _ h (severity-subject m t s))
          (λ e q. quiet_Reports m t s _ h (severity-subject m t s))
          (λ e q.
            loud_Reports m t s (changed m now t s v available w c r prefix)
              (event m now t s v available w c r prefix) h refl refl refl refl
              (λ x. q (x ∙ sym (severity-subject m t s))))
