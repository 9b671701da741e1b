-- ===== src/Alert/Keys.antt =====
-- Subject keys (`subjectKey` in src/alert_manager.cpp) and their decoding in `activeAlerts`.
use arch_task_manager.Base.{
  ◌≡◌, refl, sym, ap, ◌∙◌, Option, some, Text, [], ◌∷◌, ◌++◌, arith, nat_equality, ◌==◌, bool_ext,
  true, text_equality, ◌&&◌,
}
use arch_task_manager.Base.Decimal.{to_string, Digits, to_string-Digits, stoi-to_string}
use arch_task_manager.Alert.Types.{AlertType, index, of_index-index, type_equality}
use arch_task_manager.Alert.Manager.{subject_key, separator}
use arch_task_manager.Alert.Queries.{split_key, decode_key}

split_key-append : (s t : Text) → Digits s → split_key (s ++ (separator ∷ t)) ≡ some (s, t)
unfolding split_key
split_key-append [] t h = refl
split_key-append (c ∷ s) t h = ground (arith, split_key-append s t h.1)

-- A key decodes to the type and the source that it was made of, whatever the source holds.
pub decode_key-subject_key :
    (type : AlertType) (source : Text) → decode_key (subject_key type source) ≡ some (type, source)
unfolding decode_key subject_key
decode_key-subject_key type source = ground (
  arith,
  split_key-append (to_string (index type)) source (to_string-Digits (index type)),
  stoi-to_string (index type),
  of_index-index type,
)

-- Two subjects have the same key only if their types and their sources are the same.
pub subject_key-injective :
    (t t' : AlertType) (s s' : Text) → subject_key t s ≡ subject_key t' s' → (t ≡ t') × (s ≡ s')
subject_key-injective t t' s s' e = ground (arith, decoded)
  where
    decoded : ◌≡◌ {A = Option (AlertType × Text)} (some (t, s)) (some (t', s'))
    decoded = sym (decode_key-subject_key t s) ∙ ap decode_key e ∙ decode_key-subject_key t' s'

-- Keys compare as the subjects that they stand for.
pub subject_key-beq :
    (t t' : AlertType) (s s' : Text)
    → (subject_key t s == subject_key t' s') ≡ ((t == t') && (s == s'))
subject_key-beq t t' s s' =
    bool_ext _ _ (λ h. same ((text_equality.beq_iff _ _).0 h))
      λ h.
        (text_equality.beq_iff _ _).1
          (ground (arith, type_equality.beq_iff t t', text_equality.beq_iff s s'))
  where
    same : subject_key t s ≡ subject_key t' s' → ((t == t') && (s == s')) ≡ true
    same e =
        let (p, q) = subject_key-injective t t' s s' e in
        ground (arith, type_equality.beq_iff t t', text_equality.beq_iff s s')
