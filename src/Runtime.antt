-- ===== src/Runtime.antt =====
-- src/ethercat_master_igh/src/master/igh/igh_master_runtime.cpp and its header: the state of one
-- master's runtime, and the operations that other threads call on it. Each call is one step.
pub mod Dwelled
pub mod Job
pub mod Latched
pub mod Lifecycle
pub mod Pacing
pub mod Reachable
pub mod Safety
pub mod Tracking
pub mod Trips
pub mod Watchdogs
mod Tests
use robot_ethercat_master_ig.Prelude.{
  ℕ, ◌+◌, ◌-◌, ◌*◌, ◌%◌, Bool, true, false, not, ◌&&◌, ◌||◌, if◌then◌else◌,
}
use robot_ethercat_master_ig.Prelude.Int.{ℤ, pos}
use robot_ethercat_master_ig.Prelude.Word.{max_of}
use robot_ethercat_master_ig.Anomaly
use robot_ethercat_master_ig.Anomaly.{AnomalyTracker}
use robot_ethercat_master_ig.Dwell
use robot_ethercat_master_ig.Dwell.{HealthyDwell}
use robot_ethercat_master_ig.Timing.{CycleTimingStats}
use robot_ethercat_master_ig.Config.{IghMasterConfig}

-- The members of IghMasterRuntime. The threads are the flags `timing_running` and `job_running`, and
-- `attached` says that `servo_` is not null.
pub record IghMasterRuntime : Type 0 where
  pub config : IghMasterConfig
  pub attached : Bool
  pub timing_running : Bool
  pub job_running : Bool
  pub timing_rt_ok : Bool
  pub job_rt_ok : Bool
  pub operational : Bool
  pub comm_fault : Bool
  pub safe_output_required : Bool
  pub motion_reenable_allowed : Bool
  pub pending_dwell_fault : Bool
  pub published_scheduled_wakeup_ns : ℕ
  pub skipped_slots : ℕ
  pub last_rx_ok : Bool
  pub diag_lateness_ns : ℕ
  pub diag_execution_ns : ℕ
  pub diag_max_lateness_ns : ℕ
  pub diag_max_execution_ns : ℕ
  pub diag_deadline_miss : ℕ
  pub diag_deadline_met : Bool
  pub timing_tick : ℕ
  pub job_seen_tick : ℕ
  pub wkc_tracker : AnomalyTracker
  pub deadline_tracker : AnomalyTracker
  pub dc_tracker : AnomalyTracker
  pub dc_warmup_remaining : ℕ
  pub dc_status_valid : Bool
  pub dc_in_sync : Bool
  pub dc_deviation_ns : ℤ
  pub max_dc_deviation_ns : ℕ
  pub dc_out_of_sync_count : ℕ
  pub dc_out_of_sync_consecutive : ℕ
  pub dc_out_of_sync_window : ℕ
  pub healthy_dwell : HealthyDwell
  pub timing_stats : CycleTimingStats

unfoldable pub latch_comm_fault : IghMasterRuntime → IghMasterRuntime
unfolding Dwell.on_fault
latch_comm_fault r = record r {
  comm_fault = true;
  safe_output_required = true;
  motion_reenable_allowed = false;
  pending_dwell_fault = true;
  healthy_dwell = Dwell.on_fault r.healthy_dwell;
}

unfoldable pub raise_comm_fault : IghMasterRuntime → IghMasterRuntime
unfolding latch_comm_fault
raise_comm_fault r = latch_comm_fault r

-- Clears the latch only: safe output stays required.
unfoldable pub clear_comm_fault : IghMasterRuntime → IghMasterRuntime
unfolding Anomaly.reset Dwell.request_reset
clear_comm_fault r = record r {
  comm_fault = false;
  safe_output_required = true;
  pending_dwell_fault = false;
  wkc_tracker = Anomaly.reset r.wkc_tracker;
  deadline_tracker = Anomaly.reset r.deadline_tracker;
  dc_tracker = Anomaly.reset r.dc_tracker;
  dc_warmup_remaining = r.config.dc_monitor_warmup_cycles;
  healthy_dwell = Dwell.request_reset r.healthy_dwell;
  motion_reenable_allowed = false;
}

unfoldable pub request_safe_output : IghMasterRuntime → IghMasterRuntime
unfolding Dwell.on_fault
request_safe_output r =
    if r.safe_output_required then record r { safe_output_required = true } else record r {
      safe_output_required = true;
      motion_reenable_allowed = false;
      healthy_dwell = Dwell.on_fault r.healthy_dwell;
    }

-- `releaseSafeOutput` looks first, and stores then.
unfoldable pub release_refused : IghMasterRuntime → Bool
release_refused r = r.comm_fault || not r.motion_reenable_allowed

unfoldable pub release_store : IghMasterRuntime → IghMasterRuntime
release_store r = record r { safe_output_required = false }

unfoldable pub release_safe_output : IghMasterRuntime → IghMasterRuntime × Bool
unfolding release_refused release_store
release_safe_output r = if release_refused r then (r, false) else (release_store r, true)

unfoldable pub sync_motion_reenable_flag : IghMasterRuntime → IghMasterRuntime
sync_motion_reenable_flag r = record r { motion_reenable_allowed = r.healthy_dwell.allow_enable }

unfoldable pub set_operational : IghMasterRuntime → Bool → IghMasterRuntime
set_operational r operational = record r { operational = operational }

-- `max(1, bus_cycle_us) * 1000`
abbrev pub cycle_ns : IghMasterRuntime → ℕ
cycle_ns r = max_of 1 r.config.bus_cycle_us * 1000

pub record IghJobCycleDiag : Type 0 where
  pub period_ns : ℕ
  pub lateness_ns : ℕ
  pub execution_ns : ℕ
  pub max_lateness_ns : ℕ
  pub max_execution_ns : ℕ
  pub deadline_miss_count : ℕ
  pub skipped_slots : ℕ
  pub deadline_met : Bool
  pub last_rx_ok : Bool
  pub comm_fault : Bool
  pub safe_output_required : Bool
  pub dc_status_valid : Bool
  pub dc_in_sync : Bool
  pub dc_deviation_ns : ℤ
  pub max_dc_deviation_ns : ℕ
  pub dc_out_of_sync_count : ℕ
  pub dc_out_of_sync_consecutive : ℕ
  pub dc_out_of_sync_window : ℕ

unfoldable pub job_cycle_diag : IghMasterRuntime → IghJobCycleDiag
job_cycle_diag r = record {
  period_ns = cycle_ns r;
  lateness_ns = r.diag_lateness_ns;
  execution_ns = r.diag_execution_ns;
  max_lateness_ns = r.diag_max_lateness_ns;
  max_execution_ns = r.diag_max_execution_ns;
  deadline_miss_count = r.diag_deadline_miss;
  skipped_slots = r.skipped_slots;
  deadline_met = r.diag_deadline_met;
  last_rx_ok = r.last_rx_ok;
  comm_fault = r.comm_fault;
  safe_output_required = r.safe_output_required;
  dc_status_valid = r.dc_status_valid;
  dc_in_sync = r.dc_in_sync;
  dc_deviation_ns = r.dc_deviation_ns;
  max_dc_deviation_ns = r.max_dc_deviation_ns;
  dc_out_of_sync_count = r.dc_out_of_sync_count;
  dc_out_of_sync_consecutive = r.dc_out_of_sync_consecutive;
  dc_out_of_sync_window = r.dc_out_of_sync_window;
}
