-- ===== src/Notification/Delivery.antt =====
-- When the notification manager calls the desktop (src/notification_manager.cpp).
use arch_task_manager.Base.{
  ℕ, ◌+◌, ◌<◌, ◌≡◌, refl, ap, ◌∙◌, true, false, some, List, [], ◌∷◌, find, find-insert_self,
  text_equality, Bool-cases, inl, inr, lt→ltb,
}
use arch_task_manager.Alert.Types.{AlertEvent}
use arch_task_manager.Notification.{
  NotificationManager, Reply, delivered, source_key, should_notify, in_cooldown, deliver, call_bus,
  notify, notify_all, within,
}

module _ {F : Type 0} where
  no_bus :
      (m : NotificationManager) (now after : ℕ) (event : AlertEvent F) (reply : Reply)
      → m.has_bus ≡ false
      → notify m now after event reply ≡ m
  unfolding notify deliver
  no_bus m now after event reply e = simp e (elim (Bool-cases (should_notify m.settings event)) [
    | inr s ↦ simp s refl
    | inl s ↦
        simp s (elim (Bool-cases (in_cooldown m now event)) [
          | inl c ↦ simp c refl
          | inr c ↦ simp c refl
        ])
  ])

  -- Without a bus nothing is ever delivered: a manager whose bus handle was dropped ignores every
  -- later notification, for as long as `connect` is not called.
  pub notify_all_without_bus :
      (m : NotificationManager) (events : List (ℕ × ℕ × AlertEvent F × Reply))
      → m.has_bus ≡ false
      → notify_all m events ≡ m
  unfolding notify_all
  notify_all_without_bus m [] e = refl
  notify_all_without_bus m ((now, after, event, reply) ∷ rest) e =
      ap (λ m'. notify_all m' rest) (no_bus m now after event reply e)
      ∙ notify_all_without_bus m rest e

  unchanged_in_cooldown :
      (m : NotificationManager) (now after : ℕ) (event : AlertEvent F) (reply : Reply)
      → in_cooldown m now event ≡ true
      → notify m now after event reply ≡ m
  unfolding notify
  unchanged_in_cooldown m now after event reply c =
      elim (Bool-cases (should_notify m.settings event)) [
        | inr s ↦ simp s refl
        | inl s ↦ simp (s, c) refl
      ]

  in_cooldown_stored :
      (m : NotificationManager) (sent now : ℕ) (event : AlertEvent F)
      → find (source_key event) m.last_sent ≡ some sent
      → now < sent + m.settings.cooldown
      → in_cooldown m now event ≡ true
  unfolding in_cooldown within
  in_cooldown_stored m sent now event e l = rw e (lt→ltb now (sent + m.settings.cooldown) l)

  in_cooldown_after :
      (m : NotificationManager) (now after later : ℕ) (event other : AlertEvent F) (id : ℕ)
      → m.has_bus ≡ true
      → should_notify m.settings event ≡ true
      → in_cooldown m now event ≡ false
      → source_key other ≡ source_key event
      → later < after + m.settings.cooldown
      → in_cooldown (notify m now after event (delivered id)) later other ≡ true
  unfolding notify deliver call_bus
  in_cooldown_after m now after later event other id b s c k l =
      simp (b, s, c)
        (in_cooldown_stored _ after later other
          (rw k (find-insert_self (source_key event) after m.last_sent)) l)

  -- Cooldown: after a notification was delivered, a further one for the same type and source
  -- changes nothing and calls nobody until the cooldown is over, counted from the clock after the delivery.
  pub notify-notify :
      (m : NotificationManager) (now after later last : ℕ) (event other : AlertEvent F) (id : ℕ)
      (reply : Reply)
      → m.has_bus ≡ true
      → should_notify m.settings event ≡ true
      → in_cooldown m now event ≡ false
      → source_key other ≡ source_key event
      → later < after + m.settings.cooldown
      → notify (notify m now after event (delivered id)) later last other reply
        ≡ notify m now after event (delivered id)
  notify-notify m now after later last event other id reply b s c k l =
      unchanged_in_cooldown (notify m now after event (delivered id)) later last other reply
        (in_cooldown_after m now after later event other id b s c k l)
