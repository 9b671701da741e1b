-- ===== src/Process/Counted.antt =====
-- The counts and sums of `aggregateSystemProcessStatistics` (src/process_statistics.cpp).
use arch_task_manager.Base.{
  ℕ, ◌+◌, ◌%◌, ◌^◌, ◌≡◌, ◌<◌, refl, List, [], ◌∷◌, if◌then◌else◌, eqb, length, add_u64, arith,
}
use arch_task_manager.Base.Double.{Double}
use arch_task_manager.Process.{
  ProcessState, unknown, running, sleeping, disk_sleep, stopped, zombie, idle, Process,
}
use arch_task_manager.Process.Statistics.{
  StateCounts, SystemProcessStatistics, count_state, no_states, no_statistics, add_process,
  add_processes, aggregate_system_process_statistics,
}

-- The count that belongs to a state.
pub count_of : StateCounts → ProcessState → ℕ
count_of c running = c.running
count_of c sleeping = c.sleeping
count_of c disk_sleep = c.disk_sleep
count_of c stopped = c.stopped
count_of c zombie = c.zombie
count_of c idle = c.idle
count_of c unknown = c.unknown

index : ProcessState → ℕ
index unknown = 0
index running = 1
index sleeping = 2
index disk_sleep = 3
index stopped = 4
index zombie = 5
index idle = 6

-- The sum of one number of every process.
pub total_of : {F : Type 0} → (Process F → ℕ) → List (Process F) → ℕ
total_of f [] = 0
total_of f (p ∷ rest) = f p + total_of f rest

count_of-count_state :
    (c : StateCounts) (x st : ProcessState)
    → count_of (count_state c x) st ≡ count_of c st + (if eqb (index x) (index st) then 1 else 0)
unfolding count_of count_state index
count_of-count_state c unknown unknown = omega arith
count_of-count_state c running running = omega arith
count_of-count_state c sleeping sleeping = omega arith
count_of-count_state c disk_sleep disk_sleep = omega arith
count_of-count_state c stopped stopped = omega arith
count_of-count_state c zombie zombie = omega arith
count_of-count_state c idle idle = omega arith
count_of-count_state c x st = omega arith

-- The number of processes in a state.
pub occurrences : {F : Type 0} → ProcessState → List (Process F) → ℕ
unfolding index
occurrences st ps = total_of (λ p. if eqb (index p.state) (index st) then 1 else 0) ps

pub all_states : StateCounts → ℕ
all_states c = c.running + c.sleeping + c.disk_sleep + c.stopped + c.zombie + c.idle + c.unknown

all_states-count_state :
    (c : StateCounts) (st : ProcessState) → all_states (count_state c st) ≡ all_states c + 1
unfolding all_states count_state
all_states-count_state c running = omega arith
all_states-count_state c st = omega arith

count_of_nothing : (st : ProcessState) → count_of no_states st ≡ 0
unfolding count_of
count_of_nothing running = refl
count_of_nothing st = refl

module _ {F : Type 0} ⦃d : Double F⦄ where
  states-add_process :
      (s : SystemProcessStatistics F) (p : Process F) (st : ProcessState)
      → count_of (add_process s p).states st
        ≡ count_of s.states st + (if eqb (index p.state) (index st) then 1 else 0)
  unfolding add_process
  states-add_process s p st = count_of-count_state s.states p.state st

  states-add_processes :
      (s : SystemProcessStatistics F) (ps : List (Process F)) (st : ProcessState)
      → count_of (add_processes s ps).states st ≡ count_of s.states st + occurrences st ps
  unfolding add_processes occurrences total_of
  states-add_processes s [] st = omega arith
  states-add_processes s (p ∷ rest) st =
      omega (arith, states-add_processes (add_process s p) rest st, states-add_process s p st)

  user-add_processes :
      (s : SystemProcessStatistics F) (ps : List (Process F))
      → s.total_user_cpu_ticks < 2 ^ 64
      → (add_processes s ps).total_user_cpu_ticks
        ≡ (s.total_user_cpu_ticks + total_of (λ p. p.user_cpu_ticks) ps) % 2 ^ 64
  unfolding add_processes total_of add_process
  user-add_processes s [] h = omega arith
  user-add_processes s (p ∷ rest) h =
      omega (arith, user-add_processes (add_process s p) rest (omega arith))

  system-add_processes :
      (s : SystemProcessStatistics F) (ps : List (Process F))
      → s.total_system_cpu_ticks < 2 ^ 64
      → (add_processes s ps).total_system_cpu_ticks
        ≡ (s.total_system_cpu_ticks + total_of (λ p. p.system_cpu_ticks) ps) % 2 ^ 64
  unfolding add_processes total_of add_process
  system-add_processes s [] h = omega arith
  system-add_processes s (p ∷ rest) h =
      omega (arith, system-add_processes (add_process s p) rest (omega arith))

  ticks-add_processes :
      (s : SystemProcessStatistics F) (ps : List (Process F))
      → s.total_cpu_ticks ≡ add_u64 s.total_user_cpu_ticks s.total_system_cpu_ticks
      → let t = add_processes s ps in
        t.total_cpu_ticks ≡ add_u64 t.total_user_cpu_ticks t.total_system_cpu_ticks
  unfolding add_processes add_process
  ticks-add_processes s [] h = h
  ticks-add_processes s (p ∷ rest) h = ticks-add_processes (add_process s p) rest refl

  rss-add_processes :
      (s : SystemProcessStatistics F) (ps : List (Process F))
      → s.total_rss_kib < 2 ^ 64
      → (add_processes s ps).total_rss_kib
        ≡ (s.total_rss_kib + total_of (λ p. p.memory_kib) ps) % 2 ^ 64
  unfolding add_processes total_of add_process
  rss-add_processes s [] h = omega arith
  rss-add_processes s (p ∷ rest) h = ground (arith, rss-add_processes (add_process s p) rest)

  total-add_processes :
      (s : SystemProcessStatistics F) (ps : List (Process F)) → (add_processes s ps).total ≡ s.total
  unfolding add_processes add_process
  total-add_processes s [] = refl
  total-add_processes s (p ∷ rest) = total-add_processes (add_process s p) rest

  all_states-add_processes :
      (s : SystemProcessStatistics F) (ps : List (Process F))
      → all_states (add_processes s ps).states ≡ all_states s.states + length ps
  unfolding add_processes add_process
  all_states-add_processes s [] = omega arith
  all_states-add_processes s (p ∷ rest) = omega (
    arith,
    all_states-add_processes (add_process s p) rest,
    all_states-count_state s.states p.state,
  )

  -- What `stats` says of the processes that it was computed from.
  pub record Describes (ps : List (Process F)) (stats : SystemProcessStatistics F) : Type 0 where
    pub total : stats.total ≡ length ps
    pub by_state : (st : ProcessState) → count_of stats.states st ≡ occurrences st ps
    pub partition : all_states stats.states ≡ stats.total
    pub user_ticks : stats.total_user_cpu_ticks ≡ total_of (λ p. p.user_cpu_ticks) ps % 2 ^ 64
    pub system_ticks : stats.total_system_cpu_ticks ≡ total_of (λ p. p.system_cpu_ticks) ps % 2 ^ 64
    pub ticks :
        stats.total_cpu_ticks
        ≡ (total_of (λ p. p.user_cpu_ticks) ps + total_of (λ p. p.system_cpu_ticks) ps) % 2 ^ 64
    pub rss : stats.total_rss_kib ≡ total_of (λ p. p.memory_kib) ps % 2 ^ 64

  -- Every process is counted once by `aggregateSystemProcessStatistics`: the total is the number of processes, each count by state is the number of processes in that state, and these counts sum to the total. The CPU ticks, user, system and both together, and the resident memory are the sums over all processes, modulo 2 ^ 64.
  pub aggregate_system_process_statistics-Describes :
      (ps : List (Process F)) → Describes ps (aggregate_system_process_statistics ps)
  unfolding aggregate_system_process_statistics no_statistics count_of all_states
  aggregate_system_process_statistics-Describes ps =
      let s = no_statistics (length ps) in
      record {
        total = total-add_processes s ps;
        by_state = λ st. omega (arith, states-add_processes s ps st, count_of_nothing st);
        partition = omega (arith, all_states-add_processes s ps, total-add_processes s ps);
        user_ticks = omega (arith, user-add_processes s ps (omega arith));
        system_ticks = omega (arith, system-add_processes s ps (omega arith));
        ticks = omega (
          arith,
          ticks-add_processes s ps refl,
          user-add_processes s ps (omega arith),
          system-add_processes s ps (omega arith),
        );
        rss = omega (arith, rss-add_processes s ps (omega arith));
      }
