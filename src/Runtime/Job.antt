-- ===== src/Runtime/Job.antt =====
-- The body of the Job thread's loop in igh_master_runtime.cpp, the sampling of the distributed clock,
-- and one round of the timing thread. What the clock, the bus and the servo answer are arguments.
use robot_ethercat_master_ig.Prelude.{ℕ, ◌+◌, ◌-◌, Bool, false, not, ◌&&◌, ◌||◌, ltb, if◌then◌else◌}
use robot_ethercat_master_ig.Prelude.Int.{ℤ, to_i32}
use robot_ethercat_master_ig.Prelude.Word.{u64, max_of}
use robot_ethercat_master_ig.Anomaly
use robot_ethercat_master_ig.Dwell
use robot_ethercat_master_ig.Timing.{
  next_cycle_deadline, skipped_slots_between, observe_cycle_timing,
}
use robot_ethercat_master_ig.DcMonitor.{
  DcStatusSample, abs_deviation_ns, make_dc_status_sample, dc_out_of_sync_anomaly,
}
use robot_ethercat_master_ig.Runtime.{
  IghMasterRuntime, latch_comm_fault, sync_motion_reenable_flag, cycle_ns,
}

abbrev latch_if : Bool → IghMasterRuntime → IghMasterRuntime
latch_if stop r = if stop then latch_comm_fault r else r

-- The part of `sampleDcMonitor` that runs once the monitor is armed.
unfoldable pub judge_dc : Bool → IghMasterRuntime → IghMasterRuntime
unfolding latch_comm_fault
judge_dc anomaly r =
    let (tracker, st) = Anomaly.observe r.dc_tracker anomaly in
    latch_if st.stop_required (record r {
      dc_tracker = tracker;
      dc_out_of_sync_count = st.total;
      dc_out_of_sync_consecutive = st.consecutive;
      dc_out_of_sync_window = st.window_count;
    })

-- The diagnostics of the sample.
unfoldable pub note_dc : DcStatusSample → IghMasterRuntime → IghMasterRuntime
note_dc sample r = record r {
  dc_status_valid = sample.status_valid;
  dc_in_sync = sample.in_sync;
  dc_deviation_ns = sample.deviation_ns;
  max_dc_deviation_ns = max_of r.max_dc_deviation_ns (abs_deviation_ns sample.deviation_ns);
}

-- The early returns: the monitor is not armed, warms up, or has nothing to add to a fault.
unfoldable pub arm_dc : Bool → IghMasterRuntime → IghMasterRuntime
arm_dc anomaly r =
    if not r.operational
    then r
    else if ltb 0 r.dc_warmup_remaining
    then record r { dc_warmup_remaining = r.dc_warmup_remaining - 1 }
    else if r.comm_fault
    then r
    else judge_dc anomaly r

unfoldable pub sample_dc_monitor : Bool → ℤ → IghMasterRuntime → IghMasterRuntime
sample_dc_monitor valid diff r =
    let sample = make_dc_status_sample valid diff (to_i32 r.config.dc_sync_threshold_ns) in
    arm_dc (dc_out_of_sync_anomaly sample) (note_dc sample r)

-- The exchange of the pending fault, at the start of the body.
unfoldable pub job_begin : IghMasterRuntime → IghMasterRuntime
unfolding Dwell.on_fault
job_begin r =
    if r.pending_dwell_fault
    then record r { pending_dwell_fault = false; healthy_dwell = Dwell.on_fault r.healthy_dwell }
    else record r { pending_dwell_fault = false }

-- What one cycle observes: the bus exchange, the times, and the servo's clock status.
pub record JobInput : Type 0 where
  pub rx_ok : Bool
  pub scheduled : ℕ
  pub actual_wakeup : ℕ
  pub cycle_end : ℕ
  pub dc_valid : Bool
  pub dc_diff : ℤ

unfoldable pub watch_wkc : Bool → Bool → IghMasterRuntime → IghMasterRuntime
unfolding latch_comm_fault
watch_wkc armed rx_ok r =
    let (tracker, st) = Anomaly.observe r.wkc_tracker (not rx_ok) in
    if armed && not r.comm_fault
    then latch_if st.stop_required (record r { wkc_tracker = tracker })
    else r

unfoldable pub record_timing : JobInput → IghMasterRuntime → IghMasterRuntime
record_timing c r =
    let st = observe_cycle_timing r.timing_stats (record {
      scheduled = c.scheduled;
      actual_wakeup = c.actual_wakeup;
      cycle_end = c.cycle_end;
      period = cycle_ns r;
    }) in
    record r {
      timing_stats = st;
      diag_lateness_ns = st.current_lateness_ns;
      diag_execution_ns = st.current_execution_ns;
      diag_max_lateness_ns = st.max_lateness_ns;
      diag_max_execution_ns = st.max_execution_ns;
      diag_deadline_miss = st.deadline_miss_count;
      diag_deadline_met = st.deadline_met;
    }

unfoldable pub watch_deadline : Bool → IghMasterRuntime → IghMasterRuntime
unfolding latch_comm_fault
watch_deadline armed r =
    let (tracker, st) = Anomaly.observe r.deadline_tracker (not r.timing_stats.deadline_met) in
    if armed && (not r.comm_fault && r.config.require_realtime)
    then latch_if st.stop_required (record r { deadline_tracker = tracker })
    else r

unfoldable pub is_healthy : Bool → IghMasterRuntime → Bool
is_healthy rx_ok r =
    rx_ok
    && (r.timing_stats.deadline_met
        && ((not r.dc_status_valid || r.dc_in_sync) && not r.comm_fault))

unfoldable pub feed_dwell : Bool → IghMasterRuntime → IghMasterRuntime
unfolding sync_motion_reenable_flag
feed_dwell healthy r =
    sync_motion_reenable_flag (record r { healthy_dwell = Dwell.observe r.healthy_dwell healthy })

-- The body from the return of `runJobCycle` up to the judgement of the cycle.
unfoldable pub job_watch : Bool → JobInput → IghMasterRuntime → IghMasterRuntime
job_watch armed c r = sample_dc_monitor c.dc_valid c.dc_diff (
    watch_deadline armed
      (record_timing c (watch_wkc armed c.rx_ok (record r { last_rx_ok = c.rx_ok }))))

-- The body from the return of `runJobCycle` to its end; `armed` was read before that call.
unfoldable pub job_end : Bool → JobInput → IghMasterRuntime → IghMasterRuntime
unfolding job_watch
job_end armed c r = let r' = job_watch armed c r in feed_dwell (is_healthy c.rx_ok r') r'

-- One round of the timing thread's loop: the scheduled wakeup goes in and the next comes out.
unfoldable pub timing_round : ℕ → ℕ → IghMasterRuntime → IghMasterRuntime × ℕ
timing_round scheduled now_ns r =
    let next = next_cycle_deadline scheduled now_ns (cycle_ns r) in
    (
      record r {
        published_scheduled_wakeup_ns = scheduled;
        timing_tick = u64 (r.timing_tick + 1);
        skipped_slots = u64 (r.skipped_slots + skipped_slots_between scheduled next (cycle_ns r));
      },
      next,
    )
