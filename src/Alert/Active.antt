-- ===== src/Alert/Active.antt =====
-- The dashboard queries agree with the severities of the subjects (`hasActiveAlerts`,
-- `worstActiveSeverity` and `activeAlerts` in src/alert_manager.cpp).
use arch_task_manager.Base.{
  ◌≡◌, refl, sym, ap, ◌∙◌, ◌≢◌, true, false, ◌&&◌, Option, none, some, Text, List, [], ◌∷◌, ◌==◌,
  if◌then◌else◌, Bool-cases, inl, inr, All, Map, find, Distinct, has, text_equality, nat_equality,
  none_of_is_some, subst,
}
use mathlib.Core.Bool.{true≢false}
use arch_task_manager.Base.Double.{Double}
use arch_task_manager.Alert.Types.{
  AlertType, AlertSeverity, normal, type_equality, severity_equality, severity_beq_iff,
}
use arch_task_manager.Alert.Manager.{SubjectState, AlertManager, subject_key, current_severity}
use arch_task_manager.Alert.Queries.{ActiveAlert, active_alerts, active_from}
use arch_task_manager.Alert.Keys.{decode_key-subject_key, subject_key-beq}

-- Every key is the key of a type and a source.
abbrev pub IsSubject : {F : Type 0} → Text × SubjectState F → Type 0
IsSubject (key, state) = (t : AlertType) × (s : Text) × (key ≡ subject_key t s)

module _ {F : Type 0} ⦃d : Double F⦄ where
  -- The severity of the first alert of a list that has the given type and source.
  pub listed_severity : List (ActiveAlert F) → AlertType → Text → AlertSeverity
  listed_severity [] t s = normal
  listed_severity (a ∷ alerts) t s =
      if (a.type == t) && (a.source == s) then a.severity else listed_severity alerts t s

  -- What is said of the list of active alerts of some subjects.
  abbrev pub Lists : (AlertType → Text → AlertSeverity) → Option (List (ActiveAlert F)) → Type 0
  Lists severity listing =
      (alerts : List (ActiveAlert F)) × (listing ≡ some alerts)
      × ((t : AlertType) (s : Text) → listed_severity alerts t s ≡ severity t s)
      × All (λ a. a.severity ≢ normal) alerts

  severity_in : Map Text (SubjectState F) → AlertType → Text → AlertSeverity
  severity_in subjects t s = elim (find (subject_key t s) subjects) [
    | none ↦ normal
    | some state ↦ state.severity
  ]

  severity_in-cons :
      (key : Text) (state : SubjectState F) (rest : Map Text (SubjectState F)) (t : AlertType)
      (s : Text)
      → severity_in ((key, state) ∷ rest) t s
        ≡ (if key == subject_key t s then state.severity else severity_in rest t s)
  unfolding severity_in find
  severity_in-cons key state rest t s = elim (Bool-cases (key == subject_key t s)) [
    | inl e ↦ rw (e, severity_in)
    | inr e ↦ rw (e, severity_in)
  ]

  severity_in-missing :
      (rest : Map Text (SubjectState F)) (t : AlertType) (s : Text)
      → has (subject_key t s) rest ≡ false
      → severity_in rest t s ≡ normal
  unfolding severity_in
  severity_in-missing rest t s e = rw (none_of_is_some (find (subject_key t s) rest) e, severity_in)

  severity_in-normal :
      (key : Text) (state : SubjectState F) (rest : Map Text (SubjectState F)) (t : AlertType)
      (s : Text)
      → has key rest ≡ false
      → (state.severity == normal) ≡ true
      → severity_in rest t s ≡ severity_in ((key, state) ∷ rest) t s
  severity_in-normal key state rest t s new q = sym (
      severity_in-cons key state rest t s ∙ elim (Bool-cases (key == subject_key t s)) [
        | inl e ↦ rw e (
            (severity_beq_iff _ _).0 q
            ∙ sym (
                severity_in-missing rest t s
                  (subst (λ k. has k rest ≡ false) ((text_equality.beq_iff _ _).0 e) new)))
        | inr e ↦ rw e
      ])

  active_from-Lists :
      (subjects : Map Text (SubjectState F))
      → All IsSubject subjects
      → Distinct subjects
      → Lists (severity_in subjects) (active_from subjects)
  unfolding active_from listed_severity severity_in find
  active_from-Lists [] k h = ([], refl, λ t s. refl, tt)
  active_from-Lists ((key, state) ∷ rest) ((t, s, e), ks) (new, h) =
      let (alerts, listed, agree, active) = active_from-Lists rest ks h in
      elim (Bool-cases (state.severity == normal)) [
        | inl q ↦ (
          alerts,
          rw q listed,
          λ t' s'. agree t' s' ∙ severity_in-normal key state rest t' s' new q,
          active,
        )
        | inr q ↦ (
          record {
            type = t;
            severity = state.severity;
            source = s;
            value = state.value;
            threshold = state.threshold;
          }
              ∷ alerts,
          rw (q, e, decode_key-subject_key, listed),
          λ t' s'.
              ap (λ b. if b then state.severity else listed_severity alerts t' s')
                (sym (subject_key-beq t t' s s'))
              ∙ ap (λ y. if subject_key t s == subject_key t' s' then state.severity else y)
                  (agree t' s')
              ∙ ap (λ k. if k == subject_key t' s' then state.severity else severity_in rest t' s')
                  (sym e)
              ∙ sym (severity_in-cons key state rest t' s'),
          (λ x. true≢false (sym ((severity_beq_iff state.severity normal).1 x) ∙ q), active),
        )
      ]

  -- With keys that are distinct keys of subjects, `activeAlerts` decodes every key. It lists no
  -- normal alert, and for each subject the severity that it lists (normal, if it lists none) is
  -- the subject's severity.
  pub active_alerts-Lists :
      (m : AlertManager F)
      → All IsSubject m.subjects
      → Distinct m.subjects
      → Lists (current_severity m) (active_alerts m)
  unfolding active_alerts current_severity severity_in
  active_alerts-Lists m keys distinct = active_from-Lists m.subjects keys distinct
