-- ===== src/Base/Elapsed.antt =====
-- The time between two readings of a clock, as `std::chrono::duration<double>` counts it.
use Prim.Native.Nat.{ℕ, ◌-◌, ◌^◌}
use arch_task_manager.Base.Tests.{if◌then◌else◌, leb}
use arch_task_manager.Base.Double.{Double}

module _ {F : Type 0} ⦃d : Double F⦄ where
  -- `duration<double>(later - earlier).count()`: seconds, of a difference in nanoseconds.
  pub seconds_since : ℕ → ℕ → F
  seconds_since earlier later =
      if leb earlier later
      then d.div (d.of_nat (later - earlier)) (d.of_nat (10 ^ 9))
      else d.neg (d.div (d.of_nat (earlier - later)) (d.of_nat (10 ^ 9)))
