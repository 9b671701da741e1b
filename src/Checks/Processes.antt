-- ===== src/Checks/Processes.antt =====
-- Process statistics and the process tree on concrete processes.
use arch_task_manager.Base.{ℕ, ◌≡◌, ◌≤◌, refl, true, false, codes, List, [], ◌∷◌}
use arch_task_manager.Base.Int.{ℤ}
use arch_task_manager.Process.{Process, running}
use arch_task_manager.Process.Statistics.{
  aggregate_system_process_statistics, ProcessStatisticsAggregator, update,
}
use arch_task_manager.Process.Counted.{Describes, aggregate_system_process_statistics-Describes}
use arch_task_manager.Process.Activity.{IsIdentitySet, IsBalanced, update-IsBalanced}
use arch_task_manager.Process.Tree.{enumerate}
use arch_task_manager.Process.Tree.Building.{build_process_tree, count_nodes}
use arch_task_manager.Process.Tree.Rendering.{render_process_tree}
use arch_task_manager.Process.Tree.Height.{nodes_height, max_depth-build_process_tree}
use arch_task_manager.Process.Tree.Linked.{AllRootsLinked, build_process_tree-AllRootsLinked}
use arch_task_manager.Process.Tree.Roots.{
  orphans_of, orphans, first_with_pid, has_link, is_other, root_count-build_process_tree,
  render_process_tree_cycle,
}
use arch_task_manager.Checks.Reading.{Reading, num, reading_double}

abbrev process : ℕ → ℕ → Process Reading
process pid parent = record {
  pid = ℤ.pos pid;
  parent_pid = ℤ.pos parent;
  name = codes "shell";
  state_char = b'R';
  state = running;
  uid = 0;
  thread_count = 1;
  memory_kib = 2;
  memory_percent = num 0;
  cpu_ticks = 7;
  user_cpu_ticks = 4;
  system_cpu_ticks = 3;
  cpu_percent = num 0;
  command_line = [];
  starttime_ticks = 9;
  shared_memory_kib = 0;
  io_available = false;
  read_bytes = 0;
  write_bytes = 0;
  read_syscalls = 0;
  write_syscalls = 0;
  read_rate = num 0;
  write_rate = num 0;
}

abbrev session : List (Process Reading)
session = process 1 0 ∷ process 5 1 ∷ process 3 1 ∷ []

aggregate_system_process_statistics-Describes_example :
    Describes session (aggregate_system_process_statistics session)
aggregate_system_process_statistics-Describes_example =
    aggregate_system_process_statistics-Describes session

-- The aggregator after the first snapshot.
abbrev baseline : ProcessStatisticsAggregator
baseline = record {
  previous_identities =
      record { pid = ℤ.pos 5; starttime_ticks = 9 }
      ∷ record { pid = ℤ.pos 6; starttime_ticks = 9 }
      ∷ [];
  previous_time = 4;
  has_previous = true;
}

update-IsBalanced_example :
    IsBalanced baseline (update baseline 8 session).0 (update baseline 8 session).1
unfolding IsIdentitySet
update-IsBalanced_example = update-IsBalanced baseline 8 session (refl, (refl, tt))

max_depth-build_process_tree_example :
    let tree = build_process_tree session in
    (tree.stats.max_depth ≡ nodes_height tree.roots) × (tree.stats.max_depth ≤ 257)
max_depth-build_process_tree_example = max_depth-build_process_tree session

build_process_tree-AllRootsLinked_example : AllRootsLinked (build_process_tree session).roots
build_process_tree-AllRootsLinked_example = build_process_tree-AllRootsLinked session

root_count-build_process_tree_example :
    let tree = build_process_tree session in
    (tree.stats.root_count ≡ orphans_of session) × (count_nodes tree.roots ≡ orphans_of session)
root_count-build_process_tree_example = root_count-build_process_tree session

-- Two processes that name each other.
abbrev cycle : List (Process Reading)
cycle = process 1 2 ∷ process 2 1 ∷ []

render_process_tree_cycle_example :
    render_process_tree (build_process_tree cycle) ≡ codes "No processes found."
unfolding orphans_of orphans first_with_pid has_link is_other enumerate
render_process_tree_cycle_example = render_process_tree_cycle cycle refl
