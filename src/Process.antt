-- ===== src/Process.antt =====
-- A process and its state (include/process_monitor.hpp, src/process_monitor.cpp).
use arch_task_manager.Base.{eqb, if◌then◌else◌, ◌||◌, ℕ, Bool, Text, codes, List}
use arch_task_manager.Base.Int.{ℤ}
pub mod Statistics
pub mod Counted
pub mod Activity
pub mod Tree

pub data ProcessState : Type 0 where
  unknown running sleeping disk_sleep stopped zombie idle : ProcessState

-- `processStateFromChar`.
pub process_state_from_char : ℕ → ProcessState
process_state_from_char c =
    if eqb c b'R'
    then running
    else if eqb c b'S'
    then sleeping
    else if eqb c b'D'
    then disk_sleep
    else if eqb c b'T' || eqb c b't'
    then stopped
    else if eqb c b'Z' || (eqb c b'X' || eqb c b'x')
    then zombie
    else if eqb c b'I'
    then idle
    else unknown

-- `processStateName`.
pub process_state_name : ProcessState → Text
process_state_name running = codes "Running"
process_state_name sleeping = codes "Sleeping"
process_state_name disk_sleep = codes "Disk Sleep"
process_state_name stopped = codes "Stopped"
process_state_name zombie = codes "Zombie"
process_state_name idle = codes "Idle"
process_state_name unknown = codes "Unknown"

pub record Process (F : Type 0) : Type 0 where
  pub pid : ℤ
  pub parent_pid : ℤ
  pub name : Text
  pub state_char : ℕ
  pub state : ProcessState
  pub uid : ℕ
  pub thread_count : ℕ
  pub memory_kib : ℕ
  pub memory_percent : F
  pub cpu_ticks : ℕ
  pub user_cpu_ticks : ℕ
  pub system_cpu_ticks : ℕ
  pub cpu_percent : F
  pub command_line : Text
  pub starttime_ticks : ℕ
  pub shared_memory_kib : ℕ
  pub io_available : Bool
  pub read_bytes : ℕ
  pub write_bytes : ℕ
  pub read_syscalls : ℕ
  pub write_syscalls : ℕ
  pub read_rate : F
  pub write_rate : F
