-- ===== src/Runtime/Lifecycle.antt =====
-- configure, applyMemoryLock, start and stop of igh_master_runtime.cpp. What the operating system
-- answers to the real-time requests is an argument.
use robot_ethercat_master_ig.Prelude.{◌≡◌, Bool, true, false, not, ◌&&◌, ◌||◌, arith, if◌then◌else◌}
use robot_ethercat_master_ig.Prelude.Int.{pos}
use robot_ethercat_master_ig.Anomaly
use robot_ethercat_master_ig.Dwell
use robot_ethercat_master_ig.Timing.{no_stats}
use robot_ethercat_master_ig.Config.{IghMasterConfig}
use robot_ethercat_master_ig.Runtime.{IghMasterRuntime}

-- The answers of the operating system: the process's memory is locked already, `mlockall` succeeds,
-- and the Job thread has its real-time setup when `start` looks.
pub record Platform : Type 0 where
  pub memory_locked : Bool
  pub mlockall_ok : Bool
  pub job_rt_ok : Bool

unfoldable pub apply_memory_lock : Platform → IghMasterConfig → Bool
apply_memory_lock os c =
    if not c.lock_memory
    then true
    else if os.memory_locked
    then true
    else if os.mlockall_ok
    then true
    else not c.require_realtime

unfoldable pub configure : Platform → IghMasterConfig → IghMasterRuntime → IghMasterRuntime × Bool
unfolding Anomaly.make_tracker Dwell.reset Dwell.allow_initial_enable
configure os c r = if r.job_running then (r, false) else (
  record r {
    config = c;
    wkc_tracker = Anomaly.make_tracker c.wkc_anomaly_policy;
    deadline_tracker = Anomaly.make_tracker c.deadline_anomaly_policy;
    dc_tracker = Anomaly.make_tracker c.dc_anomaly_policy;
    dc_warmup_remaining = c.dc_monitor_warmup_cycles;
    dc_status_valid = false;
    dc_in_sync = false;
    dc_deviation_ns = pos 0;
    max_dc_deviation_ns = 0;
    dc_out_of_sync_count = 0;
    dc_out_of_sync_consecutive = 0;
    dc_out_of_sync_window = 0;
    healthy_dwell = Dwell.allow_initial_enable (Dwell.reset r.healthy_dwell c.healthy_dwell_cycles);
    motion_reenable_allowed = true;
  },
  apply_memory_lock os c,
)

unfoldable pub stop : IghMasterRuntime → IghMasterRuntime
stop r = record r {
  timing_running = false;
  job_running = false;
  attached = false;
  operational = false;
}

-- `start` from the return of a successful `configure` to the start of the Job thread.
unfoldable pub prepare_start : IghMasterRuntime → IghMasterRuntime
unfolding Dwell.reset Dwell.allow_initial_enable
prepare_start r =
    let dwell = Dwell.reset r.healthy_dwell r.config.healthy_dwell_cycles in
    record r {
      attached = true;
      operational = false;
      comm_fault = false;
      healthy_dwell = if r.safe_output_required then dwell else Dwell.allow_initial_enable dwell;
      motion_reenable_allowed = not r.safe_output_required;
      timing_tick = 0;
      job_seen_tick = 0;
      skipped_slots = 0;
      timing_stats = no_stats;
      timing_rt_ok = true;
      job_rt_ok = false;
      timing_running = false;
      job_running = true;
    }

-- `servo` says whether the argument is not null; the settings are read from the environment. The
-- cycles that the Job thread runs during the settling time are steps of their own.
unfoldable pub start :
    Platform → IghMasterConfig → Bool → IghMasterRuntime → IghMasterRuntime × Bool
unfolding configure prepare_start stop
start os environment servo r =
    if not servo
    then (r, false)
    else if r.job_running
    then (r, true)
    else let (configured, locked) = configure os environment r in
      if not locked
      then (configured, false)
      else let started = record (prepare_start configured) { job_rt_ok = os.job_rt_ok } in
        if started.config.require_realtime && not os.job_rt_ok
        then (stop started, false)
        else (started, true)

-- A start that is refused leaves no Job thread running; one that succeeds leaves it running, and with
-- real time required the memory is locked or need not be, and the thread has its real-time setup,
-- unless the thread was running before.
pub start_fail_closed :
    (os : Platform) (c : IghMasterConfig) (servo : Bool) (r : IghMasterRuntime)
    → r.job_running ≡ false
    → ((start os c servo r).0.job_running ≡ (start os c servo r).1)
      × ((start os c servo r).1
          ≡ (servo && (apply_memory_lock os c && (not c.require_realtime || os.job_rt_ok))))
unfolding start
start_fail_closed os c servo r idle = ground arith

-- A start that fails at the memory lock has already overwritten the dwell: it reports failure and
-- leaves motion to be enabled again, even with a communication fault still latched.
pub start_without_lock :
    (os : Platform) (c : IghMasterConfig) (r : IghMasterRuntime)
    → r.job_running ≡ false
    → apply_memory_lock os c ≡ false
    → ((start os c true r).1 ≡ false)
      × ((start os c true r).0.motion_reenable_allowed ≡ true)
      × ((start os c true r).0.comm_fault ≡ r.comm_fault)
unfolding start
start_without_lock os c r idle unlocked = ground arith
