-- ===== src/Runtime/Safety.antt =====
-- Whatever sequence of calls and cycles the runtime goes through: the fault latch keeps the outputs
-- safe, and motion can be enabled again only when the dwell allows it.
use robot_ethercat_master_ig.Prelude.{◌≡◌, Bool, true, false, arith}
use robot_ethercat_master_ig.Prelude.Int.{ℤ}
use robot_ethercat_master_ig.Dwell
use robot_ethercat_master_ig.DcMonitor.{DcStatusSample}
use robot_ethercat_master_ig.Runtime.{
  IghMasterRuntime, latch_comm_fault, clear_comm_fault, request_safe_output, release_safe_output,
  set_operational,
}
use robot_ethercat_master_ig.Runtime.Job.{
  JobInput, job_begin, watch_wkc, record_timing, watch_deadline, sample_dc_monitor, job_watch,
  feed_dwell, job_end, judge_dc, note_dc, arm_dc,
}
use robot_ethercat_master_ig.Runtime.Lifecycle.{stop}

-- What holds of the runtime between any two steps.
pub record IsSafe (r : IghMasterRuntime) : Type 0 where
  pub faulted_safe : r.comm_fault ≡ true → r.safe_output_required ≡ true
  pub faulted_shut : r.comm_fault ≡ true → r.healthy_dwell.allow_enable ≡ false
  pub faulted_disarmed : r.comm_fault ≡ true → r.healthy_dwell.armed ≡ false
  pub dwelled : r.motion_reenable_allowed ≡ true → r.healthy_dwell.allow_enable ≡ true
  pub pending_safe : r.pending_dwell_fault ≡ true → r.safe_output_required ≡ true
  pub pending_shut : r.pending_dwell_fault ≡ true → r.motion_reenable_allowed ≡ false

-- What holds besides while a cycle runs, when the pending fault has been taken.
pub record IsSafeInCycle (r : IghMasterRuntime) : Type 0 where
  pub safe : IsSafe r
  pub taken : r.pending_dwell_fault ≡ true → r.healthy_dwell.allow_enable ≡ false
  pub taken_disarmed : r.pending_dwell_fault ≡ true → r.healthy_dwell.armed ≡ false

pub latch_comm_fault-IsSafe : (r : IghMasterRuntime) → IsSafeInCycle (latch_comm_fault r)
unfolding latch_comm_fault
latch_comm_fault-IsSafe r = ground arith

pub clear_comm_fault-IsSafe : (r : IghMasterRuntime) → IsSafeInCycle (clear_comm_fault r)
unfolding clear_comm_fault
clear_comm_fault-IsSafe r = ground arith

pub request_safe_output-IsSafe : {r : IghMasterRuntime} → IsSafe r → IsSafe (request_safe_output r)
unfolding request_safe_output
request_safe_output-IsSafe v = ground arith

pub request_safe_output-IsSafeInCycle :
    {r : IghMasterRuntime} → IsSafeInCycle r → IsSafeInCycle (request_safe_output r)
unfolding request_safe_output
request_safe_output-IsSafeInCycle v = ground arith

pub release_safe_output-IsSafe :
    {r : IghMasterRuntime} → IsSafe r → IsSafe (release_safe_output r).0
unfolding release_safe_output
release_safe_output-IsSafe v = ground arith

pub release_safe_output-IsSafeInCycle :
    {r : IghMasterRuntime} → IsSafeInCycle r → IsSafeInCycle (release_safe_output r).0
unfolding release_safe_output
release_safe_output-IsSafeInCycle v = ground arith

pub job_begin-IsSafe : {r : IghMasterRuntime} → IsSafe r → IsSafeInCycle (job_begin r)
unfolding job_begin
job_begin-IsSafe v = ground arith

pub set_operational-IsSafe :
    (b : Bool) {r : IghMasterRuntime} → IsSafe r → IsSafe (set_operational r b)
unfolding set_operational
set_operational-IsSafe b v = ground arith

pub set_operational-IsSafeInCycle :
    (b : Bool) {r : IghMasterRuntime} → IsSafeInCycle r → IsSafeInCycle (set_operational r b)
unfolding set_operational
set_operational-IsSafeInCycle b v = ground arith

watch_wkc-IsSafe :
    (armed rx : Bool) {r : IghMasterRuntime}
    → IsSafeInCycle r
    → IsSafeInCycle (watch_wkc armed rx r)
unfolding watch_wkc
watch_wkc-IsSafe armed rx v = ground arith

record_timing-IsSafe :
    (c : JobInput) {r : IghMasterRuntime} → IsSafeInCycle r → IsSafeInCycle (record_timing c r)
unfolding record_timing
record_timing-IsSafe c v = ground arith

watch_deadline-IsSafe :
    (armed : Bool) {r : IghMasterRuntime} → IsSafeInCycle r → IsSafeInCycle (watch_deadline armed r)
unfolding watch_deadline
watch_deadline-IsSafe armed v = ground arith

judge_dc-IsSafe :
    (anomaly : Bool) {r : IghMasterRuntime} → IsSafeInCycle r → IsSafeInCycle (judge_dc anomaly r)
unfolding judge_dc
judge_dc-IsSafe anomaly v = ground arith

note_dc-IsSafe :
    (sample : DcStatusSample) {r : IghMasterRuntime}
    → IsSafeInCycle r
    → IsSafeInCycle (note_dc sample r)
unfolding note_dc
note_dc-IsSafe sample v = ground arith

arm_dc-IsSafe :
    (anomaly : Bool) {r : IghMasterRuntime} → IsSafeInCycle r → IsSafeInCycle (arm_dc anomaly r)
unfolding arm_dc
arm_dc-IsSafe anomaly v = ground (arith, judge_dc-IsSafe anomaly v)

sample_dc_monitor-IsSafe :
    (valid : Bool) (diff : ℤ) {r : IghMasterRuntime}
    → IsSafeInCycle r
    → IsSafeInCycle (sample_dc_monitor valid diff r)
unfolding sample_dc_monitor
sample_dc_monitor-IsSafe valid diff v = arm_dc-IsSafe _ (note_dc-IsSafe _ v)

pub job_watch-IsSafe :
    (armed : Bool) (c : JobInput) {r : IghMasterRuntime}
    → IsSafeInCycle r
    → IsSafeInCycle (job_watch armed c r)
unfolding job_watch
job_watch-IsSafe armed c {r} v =
    sample_dc_monitor-IsSafe c.dc_valid c.dc_diff (
      watch_deadline-IsSafe armed
        (record_timing-IsSafe c (watch_wkc-IsSafe armed c.rx_ok received)))
  where
    received : IsSafeInCycle (record r { last_rx_ok = c.rx_ok })
    received = ground arith

-- A fault that stands when the cycle is judged leaves the dwell shut.
feed_dwell-IsSafe :
    (healthy : Bool) {r : IghMasterRuntime} → IsSafeInCycle r → IsSafe (feed_dwell healthy r)
unfolding feed_dwell Dwell.observe
feed_dwell-IsSafe healthy v = ground arith

pub job_end-IsSafe :
    (armed : Bool) (c : JobInput) {r : IghMasterRuntime}
    → IsSafeInCycle r
    → IsSafe (job_end armed c r)
unfolding job_end
job_end-IsSafe armed c v = feed_dwell-IsSafe _ (job_watch-IsSafe armed c v)

pub stop-IsSafe : {r : IghMasterRuntime} → IsSafe r → IsSafe (stop r)
unfolding stop
stop-IsSafe v = ground arith
