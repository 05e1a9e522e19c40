-- ===== src/Config/Environment.antt =====
-- The settings that the environment can give.
use Prim.Native.String.{String}
use robot_ethercat_master_ig.Prelude.{◌≤◌, ◌<◌, ◌^◌}
use robot_ethercat_master_ig.Prelude.Word.{u32_max}
use robot_ethercat_master_ig.Anomaly.{AnomalyPolicy}
use robot_ethercat_master_ig.Config.{IghMasterConfig}

pub record IsPositive (p : AnomalyPolicy) : Type 0 where
  pub consecutive : 1 ≤ p.consecutive_stop
  pub size : 1 ≤ p.window_size
  pub stop : 1 ≤ p.window_stop
  pub fits : p.consecutive_stop ≤ u32_max

-- The settings that the runtime relies on.
pub record IsUsable (c : IghMasterConfig) : Type 0 where
  pub cycle : 1 ≤ c.bus_cycle_us
  pub wkc : IsPositive c.wkc_anomaly_policy
  pub deadline : IsPositive c.deadline_anomaly_policy
  pub dc : IsPositive c.dc_anomaly_policy
  pub dwell : 1 ≤ c.healthy_dwell_cycles
  pub dwell_fits : c.healthy_dwell_cycles ≤ u32_max
  pub warmup : 1 ≤ c.dc_monitor_warmup_cycles
  pub warmup_fits : c.dc_monitor_warmup_cycles ≤ u32_max
  pub sync_threshold : 1 ≤ c.dc_sync_threshold_ns
  pub sync_threshold_fits : c.dc_sync_threshold_ns < 2 ^ 31
  pub watchdog_fits : c.cmd_watchdog_ms < 2 ^ 31
