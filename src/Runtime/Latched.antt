-- ===== src/Runtime/Latched.antt =====
-- src/ethercat_master_igh/src/master/igh/igh_master_runtime.cpp: what a latched communication fault
-- keeps in place, through every call and through every part of a Job cycle.
use robot_ethercat_master_ig.Prelude.{◌≡◌, Bool, true, false, arith}
use robot_ethercat_master_ig.Prelude.Int.{ℤ}
use robot_ethercat_master_ig.Dwell
use robot_ethercat_master_ig.DcMonitor.{DcStatusSample}
use robot_ethercat_master_ig.Config.{IghMasterConfig}
use robot_ethercat_master_ig.Runtime.{
  IghMasterRuntime, latch_comm_fault, clear_comm_fault, request_safe_output, release_safe_output,
  set_operational,
}
use robot_ethercat_master_ig.Runtime.Job.{
  JobInput, job_begin, watch_wkc, record_timing, watch_deadline, sample_dc_monitor, job_watch,
  feed_dwell, job_end, judge_dc, note_dc, arm_dc,
}
use robot_ethercat_master_ig.Runtime.Lifecycle.{Platform, start, stop}

-- While the Job thread runs.
pub record IsLatched (r : IghMasterRuntime) : Type 0 where
  pub safe : r.comm_fault ≡ true → r.safe_output_required ≡ true
  pub still : r.comm_fault ≡ true → r.motion_reenable_allowed ≡ false
  pub shut : r.comm_fault ≡ true → r.healthy_dwell.allow_enable ≡ false
  pub disarmed : r.comm_fault ≡ true → r.healthy_dwell.armed ≡ false

-- Between two cycles, where the thread need not run.
pub record IsLatchedIdle (r : IghMasterRuntime) : Type 0 where
  pub safe : r.comm_fault ≡ true → r.safe_output_required ≡ true
  pub still : r.job_running ≡ true → r.comm_fault ≡ true → r.motion_reenable_allowed ≡ false
  pub shut : r.job_running ≡ true → r.comm_fault ≡ true → r.healthy_dwell.allow_enable ≡ false
  pub disarmed : r.job_running ≡ true → r.comm_fault ≡ true → r.healthy_dwell.armed ≡ false

pub IsLatched-idle : {r : IghMasterRuntime} → IsLatched r → IsLatchedIdle r
IsLatched-idle v = ground arith

pub IsLatchedIdle-running :
    {r : IghMasterRuntime} → IsLatchedIdle r → r.job_running ≡ true → IsLatched r
IsLatchedIdle-running v running = ground arith

pub latch_comm_fault-IsLatched : (r : IghMasterRuntime) → IsLatched (latch_comm_fault r)
unfolding latch_comm_fault
latch_comm_fault-IsLatched r = ground arith

pub clear_comm_fault-IsLatched : (r : IghMasterRuntime) → IsLatched (clear_comm_fault r)
unfolding clear_comm_fault
clear_comm_fault-IsLatched r = ground arith

pub request_safe_output-IsLatched :
    {r : IghMasterRuntime} → IsLatched r → IsLatched (request_safe_output r)
unfolding request_safe_output
request_safe_output-IsLatched v = ground arith

pub release_safe_output-IsLatched :
    {r : IghMasterRuntime} → IsLatched r → IsLatched (release_safe_output r).0
unfolding release_safe_output
release_safe_output-IsLatched v = ground arith

pub set_operational-IsLatched :
    (b : Bool) {r : IghMasterRuntime} → IsLatched r → IsLatched (set_operational r b)
unfolding set_operational
set_operational-IsLatched b v = ground arith

pub request_safe_output-IsLatchedIdle :
    {r : IghMasterRuntime} → IsLatchedIdle r → IsLatchedIdle (request_safe_output r)
unfolding request_safe_output
request_safe_output-IsLatchedIdle v = ground arith

pub release_safe_output-IsLatchedIdle :
    {r : IghMasterRuntime} → IsLatchedIdle r → IsLatchedIdle (release_safe_output r).0
unfolding release_safe_output
release_safe_output-IsLatchedIdle v = ground arith

pub set_operational-IsLatchedIdle :
    (b : Bool) {r : IghMasterRuntime} → IsLatchedIdle r → IsLatchedIdle (set_operational r b)
unfolding set_operational
set_operational-IsLatchedIdle b v = ground arith

pub job_begin-IsLatched : {r : IghMasterRuntime} → IsLatched r → IsLatched (job_begin r)
unfolding job_begin
job_begin-IsLatched v = ground arith

watch_wkc-IsLatched :
    (armed rx : Bool) {r : IghMasterRuntime} → IsLatched r → IsLatched (watch_wkc armed rx r)
unfolding watch_wkc
watch_wkc-IsLatched armed rx v = ground arith

record_timing-IsLatched :
    (c : JobInput) {r : IghMasterRuntime} → IsLatched r → IsLatched (record_timing c r)
unfolding record_timing
record_timing-IsLatched c v = ground arith

watch_deadline-IsLatched :
    (armed : Bool) {r : IghMasterRuntime} → IsLatched r → IsLatched (watch_deadline armed r)
unfolding watch_deadline
watch_deadline-IsLatched armed v = ground arith

judge_dc-IsLatched :
    (anomaly : Bool) {r : IghMasterRuntime} → IsLatched r → IsLatched (judge_dc anomaly r)
unfolding judge_dc
judge_dc-IsLatched anomaly v = ground arith

note_dc-IsLatched :
    (sample : DcStatusSample) {r : IghMasterRuntime} → IsLatched r → IsLatched (note_dc sample r)
unfolding note_dc
note_dc-IsLatched sample v = ground arith

arm_dc-IsLatched :
    (anomaly : Bool) {r : IghMasterRuntime} → IsLatched r → IsLatched (arm_dc anomaly r)
unfolding arm_dc
arm_dc-IsLatched anomaly v = ground (arith, judge_dc-IsLatched anomaly v)

sample_dc_monitor-IsLatched :
    (valid : Bool) (diff : ℤ) {r : IghMasterRuntime}
    → IsLatched r
    → IsLatched (sample_dc_monitor valid diff r)
unfolding sample_dc_monitor
sample_dc_monitor-IsLatched valid diff v = arm_dc-IsLatched _ (note_dc-IsLatched _ v)

job_watch-IsLatched :
    (armed : Bool) (c : JobInput) {r : IghMasterRuntime}
    → IsLatched r
    → IsLatched (job_watch armed c r)
unfolding job_watch
job_watch-IsLatched armed c {r} v = sample_dc_monitor-IsLatched c.dc_valid c.dc_diff (
    watch_deadline-IsLatched armed
      (record_timing-IsLatched c (watch_wkc-IsLatched armed c.rx_ok received)))
  where
    received : IsLatched (record r { last_rx_ok = c.rx_ok })
    received = ground arith

feed_dwell-IsLatched :
    (healthy : Bool) {r : IghMasterRuntime} → IsLatched r → IsLatched (feed_dwell healthy r)
unfolding feed_dwell Dwell.observe
feed_dwell-IsLatched healthy v = ground arith

pub job_end-IsLatched :
    (armed : Bool) (c : JobInput) {r : IghMasterRuntime}
    → IsLatched r
    → IsLatched (job_end armed c r)
unfolding job_end
job_end-IsLatched armed c v = feed_dwell-IsLatched _ (job_watch-IsLatched armed c v)

pub stop-IsLatchedIdle : {r : IghMasterRuntime} → IsLatchedIdle r → IsLatchedIdle (stop r)
unfolding stop
stop-IsLatchedIdle v = ground arith

-- However a start ends.
pub start-IsLatchedIdle :
    (os : Platform) (c : IghMasterConfig) (servo : Bool) {r : IghMasterRuntime}
    → IsLatchedIdle r
    → IsLatchedIdle (start os c servo r).0
unfolding start
start-IsLatchedIdle os c servo v = ground arith
