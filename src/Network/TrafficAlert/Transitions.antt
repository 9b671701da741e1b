-- ===== src/Network/TrafficAlert/Transitions.antt =====
-- What a round of a traffic rule does, on every branch (src/network_traffic_alert.cpp).
use arch_task_manager.Base.{
  ℕ, ◌≡◌, refl, sym, ap, ◌∙◌, ◌≢◌, Bool, true, false, not, ◌&&◌, ◌||◌, Option, none, some, Text,
  List, [], ◌∷◌, ◌++◌, if◌then◌else◌, text_equality, find, insert, find-insert, beq_false, arith,
  Bool-cases, inl, inr,
}
use mathlib.Core.List.{append-nil}
use arch_task_manager.Base.Double.{Double}
use arch_task_manager.Alert.Types.{AlertEvent, normal}
use arch_task_manager.Alert.Manager.{AlertManager}
use arch_task_manager.Network.TrafficAlert.Monitor.{
  RuleRuntime, TrafficAlertMonitor, state_key, runtime, set_runtime, push_status,
  NetworkTrafficRuleStatus,
}
use arch_task_manager.Network.TrafficAlert.Evaluate.{
  Measured, under_floor, make_event, exceeded_message, recovery_message, measure, continue_episode,
  watch, recover, confirm, finish, emit_to_central, emit_notification,
}
use arch_task_manager.Network.TrafficAlert.Episodes.{
  continue_episode_cases, ends, repeats, runtime-finish, starts, watch_cases, streak_count,
  streak_since,
}

module _ {F : Type 0} ⦃d : Double F⦄ where
  -- The events that the sink is called with in a round.
  abbrev pub notified : TrafficAlertMonitor F → Measured F → RuleRuntime → List (AlertEvent F)
  notified m s rt =
      if s.rule.notify_enabled && m.has_sink
      then if starts s rt || repeats s rt
        then make_event s s.rule.severity false (exceeded_message s) ∷ []
        else if ends s rt
        then make_event s normal true (recovery_message s) ∷ []
        else []
      else []

  -- What the alert manager records in a round.
  abbrev pub recorded : TrafficAlertMonitor F → Measured F → RuleRuntime → AlertManager F
  recorded m s rt =
      if starts s rt
      then (emit_to_central m s s.rule.severity (exceeded_message s)).alerts
      else if ends s rt
      then (emit_to_central m s normal (recovery_message s)).alerts
      else m.alerts

  -- The number of violating rounds that is stored after a round, and the time of the first one. Both
  -- start again with every round below the threshold outside an episode, and with a recovery.
  abbrev pub count_after : Measured F → RuleRuntime → ℕ
  count_after s rt =
      if rt.confirmed
      then (if under_floor s then 0 else rt.consecutive_violations)
      else streak_count s rt

  abbrev pub since_after : Measured F → RuleRuntime → Option ℕ
  since_after s rt =
      if rt.confirmed then (if under_floor s then none else rt.streak_start) else streak_since s rt

  -- The time of the last notification of the episode that is stored after a round.
  abbrev pub emission_after : Measured F → RuleRuntime → Option ℕ
  emission_after s rt =
      if s.rule.notify_enabled && (starts s rt || repeats s rt)
      then some s.now.steady
      else if ends s rt
      then none
      else rt.last_emission

  -- What a round leaves of the streak and of the last notification.
  abbrev pub IsStreak : Measured F → RuleRuntime → RuleRuntime → Type 0
  IsStreak s rt x =
      (x.consecutive_violations ≡ count_after s rt)
      × (x.streak_start ≡ since_after s rt)
      × (x.last_emission ≡ emission_after s rt)

  abbrev pub IsRound :
      TrafficAlertMonitor F → Measured F → RuleRuntime → TrafficAlertMonitor F → Type 0
  IsRound m s rt m' =
      ((runtime m' (state_key s.rule)).confirmed
        ≡ (starts s rt || (rt.confirmed && not (under_floor s))))
      × IsStreak s rt (runtime m' (state_key s.rule))
      × (m'.alerts ≡ recorded m s rt)
      × (m'.sent ≡ m.sent ++ notified m s rt)
      × ((key : Text) → key ≢ state_key s.rule → find key m'.states ≡ find key m.states)

  others :
      (m : TrafficAlertMonitor F) (s : Measured F) (x : RuleRuntime) (key : Text)
      → key ≢ state_key s.rule
      → find key (insert (state_key s.rule) x m.states) ≡ find key m.states
  others m s x key ne =
      find-insert (state_key s.rule) key x m.states
      ∙ rw (beq_false (state_key s.rule) key (λ e. ne (sym e))) refl

  sent-emit :
      (m : TrafficAlertMonitor F) (s : Measured F) (e : AlertEvent F)
      → (emit_notification m s e).sent
        ≡ m.sent ++ (if s.rule.notify_enabled && m.has_sink then e ∷ [] else [])
  unfolding emit_notification
  sent-emit m s e = ground (arith, append-nil m.sent)

  alerts-emit :
      (m : TrafficAlertMonitor F) (s : Measured F) (e : AlertEvent F)
      → (emit_notification m s e).alerts ≡ m.alerts
  unfolding emit_notification
  alerts-emit m s e = ground arith

  states-emit :
      (m : TrafficAlertMonitor F) (s : Measured F) (e : AlertEvent F)
      → (emit_notification m s e).states ≡ m.states
  unfolding emit_notification
  states-emit m s e = ground arith

  finish-IsRound :
      (m m₁ : TrafficAlertMonitor F) (s : Measured F) (rt x : RuleRuntime)
      (st : NetworkTrafficRuleStatus F)
      → x.confirmed ≡ (starts s rt || (rt.confirmed && not (under_floor s)))
      → IsStreak s rt x
      → m₁.alerts ≡ recorded m s rt
      → m₁.sent ≡ m.sent ++ notified m s rt
      → m₁.states ≡ m.states
      → IsRound m s rt (finish m₁ s x st)
  unfolding finish set_runtime push_status
  finish-IsRound m m₁ s rt x st c k a n e = (
    ap (λ r. r.confirmed) (runtime-finish m₁ s x st) ∙ c,
    (
      ap (λ r. r.consecutive_violations) (runtime-finish m₁ s x st) ∙ k.0,
      ap (λ r. r.streak_start) (runtime-finish m₁ s x st) ∙ k.1,
      ap (λ r. r.last_emission) (runtime-finish m₁ s x st) ∙ k.2,
    ),
    a,
    n,
    λ key ne. others m₁ s x key ne ∙ ap (find key) e,
  )

  confirm-IsRound :
      (m : TrafficAlertMonitor F) (s : Measured F) (rt x : RuleRuntime)
      (st : NetworkTrafficRuleStatus F)
      → starts s rt ≡ true
      → x.consecutive_violations ≡ count_after s rt
      → x.streak_start ≡ since_after s rt
      → x.last_emission ≡ rt.last_emission
      → IsRound m s rt (confirm m s x st)
  unfolding confirm emit_to_central
  confirm-IsRound m s rt x st e n z g =
      finish-IsRound m _ s rt _ _ (ground arith) (n, z, ground (arith, e, g))
        (rw e (alerts-emit _ s _)) (simp e (sent-emit _ s _)) (states-emit _ s _)

  recover-IsRound :
      (m : TrafficAlertMonitor F) (s : Measured F) (rt : RuleRuntime)
      → ends s rt ≡ true
      → IsRound m s rt (recover m s rt)
  unfolding recover emit_to_central
  recover-IsRound m s rt e =
      let c : rt.confirmed ≡ true = ground (arith, e) in
      let u : under_floor s ≡ true = ground (arith, e) in
      finish-IsRound m _ s rt _ _ (ground arith)
        (ground (arith, c, u), ground (arith, c, u), ground (arith, c, u))
        (simp (c, u) (alerts-emit _ s _)) (simp (c, u) (sent-emit _ s _)) (states-emit _ s _)

  repeat-IsRound :
      (m : TrafficAlertMonitor F) (s : Measured F) (rt : RuleRuntime)
      (st : NetworkTrafficRuleStatus F)
      → (repeats s rt && s.rule.notify_enabled) ≡ true
      → IsRound m s rt (
          finish
            (emit_notification m s (make_event s s.rule.severity false (exceeded_message s)))
            s
            (record rt { last_emission = some s.now.steady })
            st)
  repeat-IsRound m s rt st e =
      let c : rt.confirmed ≡ true = ground (arith, e) in
      let u : under_floor s ≡ false = ground (arith, e) in
      finish-IsRound m _ s rt _ _ (ground arith)
        (ground (arith, c, u), ground (arith, c, u), ground (arith, c, u, e))
        (simp (c, u) (alerts-emit m s _))
        (sent-emit m s _ ∙ ap (λ b. m.sent ++ b) (ground (arith, e))) (states-emit m s _)

  -- A round without an event.
  quiet-IsRound :
      (m : TrafficAlertMonitor F) (s : Measured F) (rt x : RuleRuntime)
      (st : NetworkTrafficRuleStatus F)
      → x.confirmed ≡ rt.confirmed
      → IsStreak s rt x
      → starts s rt ≡ false
      → ends s rt ≡ false
      → (repeats s rt && s.rule.notify_enabled) ≡ false
      → IsRound m s rt (finish m s x st)
  quiet-IsRound m s rt x st e k f g h =
      finish-IsRound m m s rt x st (ground (arith, e, f, g)) k (rw f (rw g refl))
        (sym (append-nil m.sent) ∙ ap (λ b. m.sent ++ b) (ground (arith, f, g, h))) refl

  by_confirmed :
      (m : TrafficAlertMonitor F) (s : Measured F) (rt : RuleRuntime) (b : Bool)
      → rt.confirmed ≡ b
      → IsRound m s rt (if b then continue_episode m s rt else watch m s rt)
  by_confirmed m s rt true c =
      continue_episode_cases m s (IsRound m s rt) rt c (recover-IsRound m s rt)
        (λ e st l. repeat-IsRound m s rt st e)
        (λ e f st l.
          quiet-IsRound m s rt rt st refl
            (ground (arith, c, e), ground (arith, c, e), ground (arith, c, e, f))
            (ground (arith, c)) e f)
  by_confirmed m s rt false c = watch_cases m s (IsRound m s rt) rt c (λ b e x q n z g st l.
      elim (Bool-cases b) [
        | inl t ↦
            rw t
              (confirm-IsRound m s rt x st (e ∙ t) (ground (arith, c, n)) (ground (arith, c, z)) g)
        | inr t ↦ rw t (
            quiet-IsRound m s rt x st q
              (ground (arith, c, n), ground (arith, c, z), ground (arith, c, g, e, t)) (e ∙ t)
              (ground (arith, c)) (ground (arith, c)))
      ])

  -- A round with a readable rate. An episode starts when the rate is at the threshold or above it and, with this round, the stored streak has the configured number of samples or time; it lasts until the rate is below the recovery floor. The streak that is stored for the next round is one longer after such a rate (with samples) or keeps the time of its first round (with a duration), is unchanged within an episode, and starts again after any other rate and after a recovery. The time of the last notification is stored with a start or a repetition that notifies, and forgotten with a recovery. The alert manager records the start with the rule's severity and the end as normal, and nothing else. The sink is called for the start, the end and each repetition, if there is one and the rule notifies. Other rules' states stay as they were.
  pub measure_lem :
      (m : TrafficAlertMonitor F) (s : Measured F)
      → IsRound m s (runtime m (state_key s.rule)) (measure m s)
  unfolding measure
  measure_lem m s = by_confirmed m s (runtime m (state_key s.rule)) _ refl
