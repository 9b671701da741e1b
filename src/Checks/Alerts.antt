-- ===== src/Checks/Alerts.antt =====
-- The alert manager on concrete readings.
use arch_task_manager.Base.{
  ◌≤◌, ◌≡◌, refl, true, some, Text, codes, List, [], ◌∷◌, arith, length, text_beq, find, insert,
}
use arch_task_manager.Alert.Types.{
  cpu_usage, link_state_changed, temperature, network_receive, network_transmit, normal, warning,
  critical, severity_beq, for_type, rank, index,
}
use arch_task_manager.Alert.Manager.{
  AlertManager, create, evaluate, current_severity, record_rule_event, subject, subject_key,
  next_severity, push_event, notify_sink, set_subject, transition_event,
}
use arch_task_manager.Alert.Updates.{update_cpu, update_network, feed, recovery_limit}
use arch_task_manager.Base.Decimal.{to_string}
use arch_task_manager.Alert.Queries.{active_alerts, worst_active_severity, decode_key}
use arch_task_manager.Alert.Keys.{decode_key-subject_key}
use arch_task_manager.Alert.Events.{Reports, evaluate-Reports}
use arch_task_manager.Alert.Steady.{Keeps, update_not_finite}
use arch_task_manager.Alert.Recorded.{IsRecorded, record_rule_event_lem}
use arch_task_manager.Alert.Active.{Lists, active_alerts-Lists}
use arch_task_manager.Alert.Worst.{top_rank, worst_active_severity-top}
use arch_task_manager.Alert.Reach.{Call, cpu, rule, step, run, IsValid, run-create-IsValid}
use arch_task_manager.Checks.Reading.{Reading, num, not_a_number, reading_double}

abbrev fresh : AlertManager Reading
fresh = create 2

abbrev system : Text
system = codes "system"

-- CPU usage rises, stays in the hysteresis band, and falls.
severity_course :
    let after =
      λ (calls : List (Call Reading)). current_severity (run fresh calls) cpu_usage system in
    (after (cpu 1 (num 96) ∷ []) ≡ critical)
    × (after (cpu 1 (num 96) ∷ cpu 2 (num 78) ∷ []) ≡ critical)
    × (after (cpu 1 (num 96) ∷ cpu 2 (num 74) ∷ []) ≡ normal)
unfolding current_severity run step update_cpu feed evaluate create for_type subject set_subject
    next_severity notify_sink push_event recovery_limit subject_key index to_string text_beq find
    insert severity_beq transition_event
severity_course = (refl, refl, refl)

fresh_bounded : length fresh.history ≤ fresh.max_history
unfolding create
fresh_bounded = omega arith

evaluate-Reports_example :
    Reports fresh cpu_usage system
      (evaluate fresh 5 cpu_usage system (num 96) true (num 80) (num 95) (num 75) (codes "CPU "))
evaluate-Reports_example =
    evaluate-Reports fresh 5 cpu_usage system (num 96) true (num 80) (num 95) (num 75)
      (codes "CPU ") fresh_bounded

update_not_finite_example :
    Keeps fresh network_receive system network_transmit system
      (update_network fresh 3)
      not_a_number
      (num 7)
update_not_finite_example =
    (update_not_finite fresh 3 system not_a_number not_a_number (num 7) (num 100) refl refl).9

record_rule_event_lem_example :
    IsRecorded fresh 4 network_receive system warning
      (num 9)
      (num 8)
      []
      (record_rule_event fresh 4 network_receive system warning (num 9) (num 8) [])
record_rule_event_lem_example =
    record_rule_event_lem fresh 4 network_receive system warning (num 9) (num 8) [] fresh_bounded

abbrev alarms : List (Call Reading)
alarms = rule 1 link_state_changed (codes "eth0") warning (num 1) (num 1) [] ∷ cpu 2 (num 96) ∷ []

abbrev alarmed : AlertManager Reading
alarmed = run fresh alarms

run-create-IsValid_example : IsValid 2 alarmed
run-create-IsValid_example = run-create-IsValid 2 alarms

active_alerts-Lists_example : Lists (current_severity alarmed) (active_alerts alarmed)
active_alerts-Lists_example =
    active_alerts-Lists alarmed (run-create-IsValid 2 alarms).keyed
      (run-create-IsValid 2 alarms).distinct

worst_active_severity-top_example : rank (worst_active_severity alarmed) ≡ top_rank alarmed.subjects
worst_active_severity-top_example = (worst_active_severity-top alarmed).0

decode_key-subject_key_example :
    decode_key (subject_key temperature (codes "a|b")) ≡ some (temperature, codes "a|b")
decode_key-subject_key_example = decode_key-subject_key temperature (codes "a|b")
