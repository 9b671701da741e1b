-- ===== src/Alert/Updates.antt =====
-- The entry points that feed metrics to `AlertManager` (src/alert_manager.cpp, `updateCpu` to
-- `updateTemperature`). Each looks up its threshold and calls `evaluate` where that is enabled.
use arch_task_manager.Base.{ℕ, ◌&&◌, Text, codes, if◌then◌else◌}
use arch_task_manager.Base.Double.{Double}
use arch_task_manager.Alert.Types.{
  AlertType, cpu_usage, memory_usage, swap_usage, disk_usage, disk_read_activity,
  disk_write_activity, network_receive, network_transmit, gpu_usage, gpu_memory_usage, temperature,
  AlertThreshold,
}
use arch_task_manager.Alert.Manager.{AlertManager, evaluate}

abbrev pub system : Text
system = codes "system"

module _ {F : Type 0} ⦃d : Double F⦄ where
  -- `t.recovery < 0 ? t.warning : t.recovery`.
  unfoldable pub recovery_limit : AlertThreshold F → F
  recovery_limit t = if d.lt t.recovery (d.of_nat 0) then t.warning else t.recovery

  -- The block that each entry point repeats for a metric.
  unfoldable pub feed : AlertManager F → ℕ → AlertType → Text → F → Text → AlertManager F
  feed m now type source value prefix =
      let t = m.thresholds type in
      if t.enabled
      then (evaluate m now type source value (d.is_finite value) t.warning t.critical
          (recovery_limit t) prefix).0
      else m

  unfoldable pub update_cpu : AlertManager F → ℕ → F → AlertManager F
  update_cpu m now usage = feed m now cpu_usage system usage (codes "CPU usage is high: ")

  unfoldable pub update_memory : AlertManager F → ℕ → F → F → AlertManager F
  update_memory m now ram swap =
      let m' = feed m now memory_usage system ram (codes "Memory usage is high: ") in
      feed m' now swap_usage system swap (codes "Swap usage is high: ")

  unfoldable pub update_disk_usage : AlertManager F → ℕ → Text → F → AlertManager F
  update_disk_usage m now mount_point usage =
      feed m now disk_usage mount_point usage (codes "Disk usage is high: ")

  unfoldable pub update_disk_activity : AlertManager F → ℕ → F → F → AlertManager F
  update_disk_activity m now read write =
      let m' = feed m now disk_read_activity system read (codes "High disk read activity: ") in
      feed m' now disk_write_activity system write (codes "High disk write activity: ")

  unfoldable pub update_network : AlertManager F → ℕ → F → F → AlertManager F
  update_network m now rx tx =
      let m' = feed m now network_receive system rx (codes "High network receive rate: ") in
      feed m' now network_transmit system tx (codes "High network transmit rate: ")

  unfoldable pub update_gpu : AlertManager F → ℕ → Text → F → F → AlertManager F
  update_gpu m now id usage vram =
      let m' = feed m now gpu_usage id usage (codes "GPU usage is high: ") in
      feed m' now gpu_memory_usage id vram (codes "GPU memory usage is high: ")

  -- The hardware's limit replaces the configured one where it is positive and lower.
  pub critical_limit : AlertThreshold F → F → F
  critical_limit t hardware =
      if d.lt (d.of_nat 0) hardware && d.lt hardware t.critical then hardware else t.critical

  unfoldable pub update_temperature : AlertManager F → ℕ → Text → F → F → AlertManager F
  update_temperature m now label celsius hardware =
      let t = m.thresholds temperature in
      if t.enabled
      then (evaluate m now temperature label celsius (d.is_finite celsius) t.warning
          (critical_limit t hardware) (recovery_limit t) (codes "Temperature is high: ")).0
      else m
