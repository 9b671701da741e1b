-- ===== src/Checks/Links.antt =====
-- The histories and the link-state monitor on concrete inputs.
use arch_task_manager.Base.{
  ℕ, zero, suc, ◌≤◌, ◌≡◌, refl, true, false, none, some, Text, codes, List, [], ◌∷◌, arith, length,
  find, has, All, Distinct, text_equality, text_beq, insert, max,
}
use arch_task_manager.Base.Decimal.{to_string}
use arch_task_manager.Base.Int.{ℤ, int_text}
use arch_task_manager.History
use arch_task_manager.History.{History, buffer-add_all}
use arch_task_manager.Alert.Manager
use arch_task_manager.Network.Interface.{NetworkInterfaceInfo, ethernet, identity, interface_key}
use arch_task_manager.Network.LinkState.{parse_oper_state, oper_beq}
use arch_task_manager.Network.LinkState.Tracking.{
  LinkStateMonitor, sample_beq, link_readable, TrackedInterface, Clocks, sample_of, create,
  max_tracked, set_tracked,
}
use arch_task_manager.Network.LinkState.Observe.{observe}
use arch_task_manager.Network.LinkState.Counts.{Adds, update-IsBounded}
use arch_task_manager.Network.LinkState.Update.{update, no_counts}
use arch_task_manager.Network.LinkState.Observed.{IsCurrent, kept_state, observe_lem}
use arch_task_manager.Network.LinkState.Silence.{
  is_uneventful, IsSilent, observe-IsSilent, Changes, observe_changed,
}
use arch_task_manager.Network.LinkState.Eviction.{present_count}
use arch_task_manager.Network.LinkState.Kept.{IsPresent, tracked-update}
use arch_task_manager.Checks.Reading.{Reading, reading_double}

buffer-add_all_example :
    (History.add_all {A = ℕ} (History.create 2) (7 ∷ 8 ∷ 9 ∷ [])).buffer ≡ (8 ∷ 9 ∷ [])
unfolding History.create
buffer-add_all_example =
    buffer-add_all (History.create 2) (7 ∷ 8 ∷ 9 ∷ []) (omega arith) (omega arith)

abbrev cable_in : NetworkInterfaceInfo
cable_in = record {
  name = codes "eth0";
  type = ethernet;
  traffic = none;
  link = record {
    ifindex = some (ℤ.pos 2);
    operstate = some (codes "up");
    carrier = some (ℤ.pos 1);
    speed_mbps = none;
    duplex = none;
    flags = none;
    admin_up = true;
  };
}

abbrev cable_out : NetworkInterfaceInfo
cable_out = record cable_in {
  link = record cable_in.link { operstate = some (codes "down"); carrier = some (ℤ.pos 0) };
}

abbrev new_monitor : LinkStateMonitor Reading
new_monitor = record (create (Manager.create 10) 10) { has_sink = true }

abbrev at_once : Clocks
at_once = record { steady = 5; system = 6 }

abbrev plugged : TrackedInterface
plugged = record {
  identity = identity cable_in;
  name = codes "eth0";
  state = sample_of cable_in;
  has_valid_state = true;
  link_known = true;
  present = true;
  first_seen = 1;
  last_change_steady = 1;
  last_change_system = 1;
  transition_count = 0;
}

abbrev monitor : LinkStateMonitor Reading
monitor = set_tracked new_monitor (identity cable_in) plugged

observe_lem_example :
    (t : TrackedInterface) × (find (identity cable_out) (observe monitor at_once cable_out).tracked
      ≡ some t)
    × IsCurrent cable_out (kept_state monitor cable_out) t
observe_lem_example = (observe_lem monitor at_once cable_out).0

observe-IsSilent_example : IsSilent new_monitor (observe new_monitor at_once cable_in)
unfolding is_uneventful find create
observe-IsSilent_example = (observe-IsSilent new_monitor at_once cable_in refl).0

observe_changed_example : Changes monitor cable_out plugged (observe monitor at_once cable_out)
unfolding identity interface_key find create set_tracked insert text_beq link_readable sample_beq
    sample_of parse_oper_state oper_beq int_text to_string
observe_changed_example = observe_changed monitor at_once cable_out plugged refl refl refl refl refl

-- As many interfaces that have gone, one of each name.
abbrev gone : ℕ → List (Text × TrackedInterface)
gone zero = []
gone (suc n) = (n ∷ [], record plugged { present = false; last_change_steady = n }) ∷ gone n

has-gone : (n j : ℕ) → n ≤ j → has (j ∷ []) (gone n) ≡ false
unfolding find text_beq
has-gone zero j h = refl
has-gone (suc n) j h = ground (arith, has-gone n j)

gone-Distinct : (n : ℕ) → Distinct (gone n)
gone-Distinct zero = tt
gone-Distinct (suc n) = (has-gone n n (omega arith), gone-Distinct n)

-- A monitor that tracks 70 interfaces that have gone.
abbrev crowded : LinkStateMonitor Reading
crowded = record monitor { tracked = gone 70 }

tracked-update_example :
    let m = update crowded at_once (record { interfaces = cable_out ∷ []; refreshed_at = 6 }) in
    Distinct m.tracked
    × (length m.tracked ≤ max max_tracked (present_count m.tracked))
    × All (λ info. IsPresent (identity info) m.tracked) (cable_out ∷ [])
tracked-update_example =
    tracked-update crowded at_once (record { interfaces = cable_out ∷ []; refreshed_at = 6 })
      (gone-Distinct 70)

abbrev after_unplug : LinkStateMonitor Reading
after_unplug = update monitor at_once (record { interfaces = cable_out ∷ []; refreshed_at = 6 })

update-IsBounded_example : Adds after_unplug.tracked (cable_out ∷ []) no_counts after_unplug.counts
update-IsBounded_example =
    (update-IsBounded monitor at_once (record { interfaces = cable_out ∷ []; refreshed_at = 6 })).2
