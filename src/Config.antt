-- ===== src/Config.antt =====
-- src/ethercat_master_igh/include/ethercat_joint/master/igh/igh_master_config.hpp: the runtime's
-- settings and how they are read from the environment. `getenv` and `atoi` are the C library's.
pub mod Environment
mod Tests
use Prim.Native.String.{String}
use robot_ethercat_master_ig.Prelude.{
  ℕ, Bool, true, false, not, Option, none, some, List, [], ◌∷◌, ◌==◌, if◌then◌else◌,
}
use robot_ethercat_master_ig.Prelude.Int.{ℤ, pos, pos_part, ltb_ℤ}
use robot_ethercat_master_ig.Anomaly.{AnomalyPolicy}

pub record IghMasterConfig : Type 0 where
  pub bus_cycle_us : ℕ  -- uint32_t
  pub cpu_affinity : ℤ  -- int
  pub debug_log : Bool
  pub lock_memory : Bool
  pub require_realtime : Bool
  pub wkc_anomaly_policy : AnomalyPolicy
  pub deadline_anomaly_policy : AnomalyPolicy
  pub dc_anomaly_policy : AnomalyPolicy
  pub dc_monitor_warmup_cycles : ℕ  -- uint32_t
  pub dc_sync_threshold_ns : ℕ  -- uint32_t
  pub healthy_dwell_cycles : ℕ  -- uint32_t
  pub cmd_watchdog_ms : ℕ  -- uint32_t
  pub csv_cmd_watchdog : Bool

abbrev policy_of : ℕ → ℕ → ℕ → AnomalyPolicy
policy_of c w s = record { consecutive_stop = c; window_size = w; window_stop = s }

-- The members' initial values.
abbrev pub default_config : IghMasterConfig
default_config = record {
  bus_cycle_us = 2000;
  cpu_affinity = pos 5;
  debug_log = false;
  lock_memory = true;
  require_realtime = true;
  wkc_anomaly_policy = policy_of 5 16 8;
  deadline_anomaly_policy = policy_of 10 32 16;
  dc_anomaly_policy = policy_of 5 16 8;
  dc_monitor_warmup_cycles = 3000;
  dc_sync_threshold_ns = 500000;
  healthy_dwell_cycles = 50;
  cmd_watchdog_ms = 250;
  csv_cmd_watchdog = false;
}

-- The environment's texts are lists of character codes.
module _ (getenv : String → Option (List ℕ)) (atoi : List ℕ → ℤ) where
  unfoldable pub env_flag_or : String → Bool → Bool
  env_flag_or name default_value = elim (getenv name) [
    | none ↦ default_value
    | some [] ↦ default_value
    | some (c ∷ rest) ↦ not (c == b'0')
  ]

  unfoldable pub env_u32_or : String → ℕ → ℕ
  env_u32_or name default_value = elim (getenv name) [
    | none ↦ default_value
    | some [] ↦ default_value
    | some (c ∷ rest) ↦
        let parsed = atoi (c ∷ rest) in
        if ltb_ℤ (pos 0) parsed then pos_part parsed else default_value
  ]

  unfoldable pub env_u32_allow_zero_or : String → ℕ → ℕ
  env_u32_allow_zero_or name default_value = elim (getenv name) [
    | none ↦ default_value
    | some [] ↦ default_value
    | some (c ∷ rest) ↦
        let parsed = atoi (c ∷ rest) in
        if ltb_ℤ parsed (pos 0) then default_value else pos_part parsed
  ]

  abbrev env_affinity : ℤ → ℤ
  env_affinity default_value = elim (getenv "IGH_CPU_AFFINITY") [
    | none ↦ default_value
    | some [] ↦ default_value
    | some (c ∷ rest) ↦ atoi (c ∷ rest)
  ]

  abbrev env_policy : String → String → String → AnomalyPolicy → AnomalyPolicy
  env_policy consec window stop p = record {
    consecutive_stop = env_u32_or consec p.consecutive_stop;
    window_size = env_u32_or window p.window_size;
    window_stop = env_u32_or stop p.window_stop;
  }

  unfoldable pub from_environment : IghMasterConfig
  unfolding env_flag_or env_u32_or env_u32_allow_zero_or
  from_environment = record {
    bus_cycle_us = env_u32_or "IGH_BUS_CYCLE_US" default_config.bus_cycle_us;
    cpu_affinity = env_affinity default_config.cpu_affinity;
    debug_log = env_flag_or "IGH_DEBUG_LOG" false;
    lock_memory = env_flag_or "IGH_LOCK_MEMORY" true;
    require_realtime = env_flag_or "IGH_REQUIRE_REALTIME" true;
    wkc_anomaly_policy =
        env_policy "IGH_ANOMALY_WKC_CONSEC" "IGH_ANOMALY_WKC_WINDOW" "IGH_ANOMALY_WKC_WINDOW_STOP"
          default_config.wkc_anomaly_policy;
    deadline_anomaly_policy =
        env_policy "IGH_ANOMALY_DEADLINE_CONSEC" "IGH_ANOMALY_DEADLINE_WINDOW"
          "IGH_ANOMALY_DEADLINE_WINDOW_STOP" default_config.deadline_anomaly_policy;
    dc_anomaly_policy =
        env_policy "IGH_ANOMALY_DC_CONSEC" "IGH_ANOMALY_DC_WINDOW" "IGH_ANOMALY_DC_WINDOW_STOP"
          default_config.dc_anomaly_policy;
    dc_monitor_warmup_cycles =
        env_u32_or "IGH_DC_MONITOR_WARMUP" default_config.dc_monitor_warmup_cycles;
    dc_sync_threshold_ns =
        env_u32_or "IGH_DC_SYNC_THRESHOLD_NS" default_config.dc_sync_threshold_ns;
    healthy_dwell_cycles =
        env_u32_or "IGH_HEALTHY_DWELL_CYCLES" default_config.healthy_dwell_cycles;
    cmd_watchdog_ms = env_u32_allow_zero_or "IGH_CMD_WATCHDOG_MS" default_config.cmd_watchdog_ms;
    csv_cmd_watchdog = env_flag_or "IGH_CSV_CMD_WATCHDOG" false;
  }
