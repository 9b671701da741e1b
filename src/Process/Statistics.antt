-- ===== src/Process/Statistics.antt =====
-- The process statistics (src/process_statistics.cpp). The steady clock is an argument. A set of
-- identities is a list without duplicates, in no particular order. Counts of the elements of a
-- vector stand for `size_t`, which holds the length of every vector; sums of 64-bit values wrap.
use arch_task_manager.Base.{
  ℕ, ◌+◌, Bool, true, false, not, ◌&&◌, ◌≡◌, ◌↔◌, ap₂, ap, List, [], ◌∷◌, if◌then◌else◌, ltb, any,
  filter, length, add_u64, Equality, ◌==◌, nat_equality, arith,
}
use arch_task_manager.Base.Int.{ℤ, int_equality}
use arch_task_manager.Base.Double.{Double}
use arch_task_manager.Base.Elapsed.{seconds_since}
use arch_task_manager.Process.{
  ProcessState, unknown, running, sleeping, disk_sleep, stopped, zombie, idle, Process,
}

-- The counts by state of `SystemProcessStatistics`.
pub record StateCounts : Type 0 where
  pub running : ℕ
  pub sleeping : ℕ
  pub disk_sleep : ℕ
  pub stopped : ℕ
  pub zombie : ℕ
  pub idle : ℕ
  pub unknown : ℕ

abbrev pub no_states : StateCounts
no_states = record {
  running = 0;
  sleeping = 0;
  disk_sleep = 0;
  stopped = 0;
  zombie = 0;
  idle = 0;
  unknown = 0;
}

pub record SystemProcessStatistics (F : Type 0) : Type 0 where
  pub total : ℕ
  pub states : StateCounts
  pub total_threads : ℕ
  pub processes_with_thread_data : ℕ
  pub aggregate_cpu_percent : F
  pub processes_with_cpu_data : ℕ
  pub total_user_cpu_ticks : ℕ
  pub total_system_cpu_ticks : ℕ
  pub total_cpu_ticks : ℕ
  pub total_rss_kib : ℕ
  pub total_shared_kib : ℕ
  pub aggregate_memory_percent : F
  pub processes_with_memory_data : ℕ
  pub total_read_rate : F
  pub total_write_rate : F
  pub processes_with_io_data : ℕ
  pub process_creations : ℕ
  pub process_exits : ℕ
  pub creation_rate_per_second : F
  pub exit_rate_per_second : F

-- The `switch` on the state.
unfoldable pub count_state : StateCounts → ProcessState → StateCounts
count_state c running = record c { running = c.running + 1 }
count_state c sleeping = record c { sleeping = c.sleeping + 1 }
count_state c disk_sleep = record c { disk_sleep = c.disk_sleep + 1 }
count_state c stopped = record c { stopped = c.stopped + 1 }
count_state c zombie = record c { zombie = c.zombie + 1 }
count_state c idle = record c { idle = c.idle + 1 }
count_state c unknown = record c { unknown = c.unknown + 1 }

pub record Identity : Type 0 where
  pub pid : ℤ
  pub starttime_ticks : ℕ

abbrev pub identity_beq : Identity → Identity → Bool
identity_beq a b = a.pid == b.pid && a.starttime_ticks == b.starttime_ticks

pub identity_beq_iff : (a b : Identity) → (identity_beq a b ≡ true) ↔ (a ≡ b)
identity_beq_iff a b = (
  λ e.
      ap₂ (λ p t. record { pid = p; starttime_ticks = t })
        ((int_equality.beq_iff a.pid b.pid).0 (ground arith))
        ((nat_equality.beq_iff a.starttime_ticks b.starttime_ticks).0 (ground arith)),
  λ e. ground (
    arith,
    (int_equality.beq_iff a.pid b.pid).1 (ap (λ i. i.pid) e),
    (nat_equality.beq_iff a.starttime_ticks b.starttime_ticks).1 (ap (λ i. i.starttime_ticks) e),
  ),
)

instance abbrev pub identity_equality : Equality Identity
identity_equality = record { beq = identity_beq; beq_iff = identity_beq_iff }

-- `emplace` on a set.
unfoldable pub emplace : Identity → List Identity → List Identity
emplace i set = if any (λ j. j == i) set then set else i ∷ set

-- The members of `these` that `others` does not have.
unfoldable pub missing_from : List Identity → List Identity → List Identity
missing_from others these = filter (λ i. not (any (λ j. j == i) others)) these

module _ {F : Type 0} where
  pub identity_of : Process F → Identity
  identity_of p = record { pid = p.pid; starttime_ticks = p.starttime_ticks }

  unfoldable pub add_identities : List Identity → List (Process F) → List Identity
  add_identities set [] = set
  add_identities set (p ∷ rest) = add_identities (emplace (identity_of p) set) rest

-- The state of `ProcessStatisticsAggregator`.
pub record ProcessStatisticsAggregator : Type 0 where
  pub previous_identities : List Identity
  pub previous_time : ℕ
  pub has_previous : Bool

pub new_aggregator : ProcessStatisticsAggregator
new_aggregator = record { previous_identities = []; previous_time = 0; has_previous = false }

-- `reset`.
unfoldable pub reset : ProcessStatisticsAggregator → ProcessStatisticsAggregator
reset a = record a { previous_identities = []; has_previous = false }

module _ {F : Type 0} ⦃d : Double F⦄ where
  unfoldable pub no_statistics : ℕ → SystemProcessStatistics F
  no_statistics n = record {
    total = n;
    states = no_states;
    total_threads = 0;
    processes_with_thread_data = 0;
    aggregate_cpu_percent = d.of_nat 0;
    processes_with_cpu_data = 0;
    total_user_cpu_ticks = 0;
    total_system_cpu_ticks = 0;
    total_cpu_ticks = 0;
    total_rss_kib = 0;
    total_shared_kib = 0;
    aggregate_memory_percent = d.of_nat 0;
    processes_with_memory_data = 0;
    total_read_rate = d.of_nat 0;
    total_write_rate = d.of_nat 0;
    processes_with_io_data = 0;
    process_creations = 0;
    process_exits = 0;
    creation_rate_per_second = d.of_nat 0;
    exit_rate_per_second = d.of_nat 0;
  }

  -- One round of the loop of `aggregateSystemProcessStatistics`.
  unfoldable pub add_process : SystemProcessStatistics F → Process F → SystemProcessStatistics F
  add_process s p =
      let user = add_u64 s.total_user_cpu_ticks p.user_cpu_ticks in
      let system = add_u64 s.total_system_cpu_ticks p.system_cpu_ticks in
      record s {
        states = count_state s.states p.state;
        total_threads =
            if ltb 0 p.thread_count
            then add_u64 s.total_threads p.thread_count
            else s.total_threads;
        processes_with_thread_data =
            if ltb 0 p.thread_count
            then s.processes_with_thread_data + 1
            else s.processes_with_thread_data;
        aggregate_cpu_percent = d.add s.aggregate_cpu_percent p.cpu_percent;
        processes_with_cpu_data = s.processes_with_cpu_data + 1;
        total_user_cpu_ticks = user;
        total_system_cpu_ticks = system;
        total_cpu_ticks = add_u64 user system;
        total_rss_kib =
            if ltb 0 p.memory_kib then add_u64 s.total_rss_kib p.memory_kib else s.total_rss_kib;
        processes_with_memory_data =
            if ltb 0 p.memory_kib
            then s.processes_with_memory_data + 1
            else s.processes_with_memory_data;
        total_shared_kib =
            if ltb 0 p.shared_memory_kib
            then add_u64 s.total_shared_kib p.shared_memory_kib
            else s.total_shared_kib;
        aggregate_memory_percent = d.add s.aggregate_memory_percent p.memory_percent;
        total_read_rate =
            if p.io_available then d.add s.total_read_rate p.read_rate else s.total_read_rate;
        total_write_rate =
            if p.io_available then d.add s.total_write_rate p.write_rate else s.total_write_rate;
        processes_with_io_data =
            if p.io_available then s.processes_with_io_data + 1 else s.processes_with_io_data;
      }

  unfoldable pub add_processes :
      SystemProcessStatistics F → List (Process F) → SystemProcessStatistics F
  add_processes s [] = s
  add_processes s (p ∷ rest) = add_processes (add_process s p) rest

  -- `aggregateSystemProcessStatistics`.
  unfoldable pub aggregate_system_process_statistics : List (Process F) → SystemProcessStatistics F
  aggregate_system_process_statistics processes =
      add_processes (no_statistics (length processes)) processes

  -- The activity since the previous snapshot.
  unfoldable pub with_activity : SystemProcessStatistics F → ℕ → ℕ → F → SystemProcessStatistics F
  with_activity s creations exits elapsed = record s {
    process_creations = creations;
    process_exits = exits;
    creation_rate_per_second =
        if d.lt (d.of_nat 0) elapsed
        then d.div (d.of_nat creations) elapsed
        else s.creation_rate_per_second;
    exit_rate_per_second =
        if d.lt (d.of_nat 0) elapsed
        then d.div (d.of_nat exits) elapsed
        else s.exit_rate_per_second;
  }

  -- `update`.
  unfoldable pub update :
      ProcessStatisticsAggregator
      → ℕ
      → List (Process F)
      → ProcessStatisticsAggregator × SystemProcessStatistics F
  update a now processes =
      let stats = aggregate_system_process_statistics processes in
      let current = add_identities [] processes in
      let next : ProcessStatisticsAggregator = record {
        previous_identities = current;
        previous_time = now;
        has_previous = true;
      } in
      if a.has_previous
      then (
        next,
        with_activity stats (length (missing_from a.previous_identities current))
            (length (missing_from current a.previous_identities))
            (seconds_since a.previous_time now),
      )
      else (next, stats)
