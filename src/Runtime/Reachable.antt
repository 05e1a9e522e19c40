-- ===== src/Runtime/Reachable.antt =====
-- The runtime under any interleaving of the other threads' calls with the Job thread's cycles. A call
-- falls before a cycle, after it, or between its start and its judgement, while the bus is served. Each
-- call is one step: no other step falls inside its body.
use robot_ethercat_master_ig.Prelude.{◌≡◌, ◌⊎◌, Bool, true, false, arith}
use robot_ethercat_master_ig.Dwell.{make_dwell}
use robot_ethercat_master_ig.Prelude.Int.{pos}
use robot_ethercat_master_ig.Anomaly.{AnomalyPolicy, make_tracker}
use robot_ethercat_master_ig.Timing.{no_stats}
use robot_ethercat_master_ig.Config.{IghMasterConfig, default_config}
use robot_ethercat_master_ig.Runtime.{
  IghMasterRuntime, raise_comm_fault, clear_comm_fault, request_safe_output, release_safe_output,
  set_operational,
}
use robot_ethercat_master_ig.Runtime.Job.{JobInput, job_begin, job_end}
use robot_ethercat_master_ig.Runtime.Lifecycle.{Platform, start, stop}
use robot_ethercat_master_ig.Runtime.Latched.{
  IsLatched, IsLatchedIdle, IsLatched-idle, IsLatchedIdle-running, latch_comm_fault-IsLatched,
  clear_comm_fault-IsLatched, request_safe_output-IsLatched, release_safe_output-IsLatched,
  set_operational-IsLatched, request_safe_output-IsLatchedIdle, release_safe_output-IsLatchedIdle,
  set_operational-IsLatchedIdle, job_begin-IsLatched, job_end-IsLatched, stop-IsLatchedIdle,
  start-IsLatchedIdle,
}

-- A call from another thread, or from the servo inside a cycle.
pub data Call : Type 0 where
  raise clear request release : Call
  operational : Bool → Call

abbrev pub call : Call → IghMasterRuntime → IghMasterRuntime
call raise r = raise_comm_fault r
call clear r = clear_comm_fault r
call request r = request_safe_output r
call release r = (release_safe_output r).0
call (operational b) r = set_operational r b

-- Where the Job thread stands; in a cycle it holds the value of `armed`.
pub data Phase : Type 0 where
  between : Phase
  within : Bool → Phase

pub data Step : IghMasterRuntime → Phase → IghMasterRuntime → Phase → Type 0 where
  called : (k : Call) {r : IghMasterRuntime} {p : Phase} → Step r p (call k r) p
  begun :
      {r : IghMasterRuntime}
      → r.job_running ≡ true
      → Step r between (job_begin r) (within (job_begin r).operational)
  ended :
      (c : JobInput) {r : IghMasterRuntime} {armed : Bool}
      → Step r (within armed) (job_end armed c r) between
  stopped : {r : IghMasterRuntime} → Step r between (stop r) between
  started :
      (os : Platform) (c : IghMasterConfig) (servo : Bool) {r : IghMasterRuntime}
      → Step r between (start os c servo r).0 between

abbrev empty_policy : AnomalyPolicy
empty_policy = record { consecutive_stop = 1; window_size = 1; window_stop = 1 }

-- The members' initial values.
abbrev pub fresh_runtime : IghMasterRuntime
fresh_runtime = record {
  config = default_config;
  attached = false;
  timing_running = false;
  job_running = false;
  timing_rt_ok = false;
  job_rt_ok = false;
  operational = false;
  comm_fault = false;
  safe_output_required = false;
  motion_reenable_allowed = true;
  pending_dwell_fault = false;
  published_scheduled_wakeup_ns = 0;
  skipped_slots = 0;
  last_rx_ok = true;
  diag_lateness_ns = 0;
  diag_execution_ns = 0;
  diag_max_lateness_ns = 0;
  diag_max_execution_ns = 0;
  diag_deadline_miss = 0;
  diag_deadline_met = true;
  timing_tick = 0;
  job_seen_tick = 0;
  wkc_tracker = make_tracker empty_policy;
  deadline_tracker = make_tracker empty_policy;
  dc_tracker = make_tracker empty_policy;
  dc_warmup_remaining = 0;
  dc_status_valid = false;
  dc_in_sync = false;
  dc_deviation_ns = pos 0;
  max_dc_deviation_ns = 0;
  dc_out_of_sync_count = 0;
  dc_out_of_sync_consecutive = 0;
  dc_out_of_sync_window = 0;
  healthy_dwell = make_dwell 1;
  timing_stats = no_stats;
}

pub data Reach : IghMasterRuntime → Phase → Type 0 where
  fresh : Reach fresh_runtime between
  next : {r r' : IghMasterRuntime} {p p' : Phase} → Reach r p → Step r p r' p' → Reach r' p'

-- The invariant; a cycle runs only while the Job thread does.
abbrev Holds : Phase → IghMasterRuntime → Type 0
Holds between r = IsLatchedIdle r
Holds (within armed) r = IsLatched r

call-IsLatchedIdle : (k : Call) {r : IghMasterRuntime} → IsLatchedIdle r → IsLatchedIdle (call k r)
unfolding raise_comm_fault
call-IsLatchedIdle raise {r} v = IsLatched-idle (latch_comm_fault-IsLatched r)
call-IsLatchedIdle clear {r} v = IsLatched-idle (clear_comm_fault-IsLatched r)
call-IsLatchedIdle request v = request_safe_output-IsLatchedIdle v
call-IsLatchedIdle release v = release_safe_output-IsLatchedIdle v
call-IsLatchedIdle (operational b) v = set_operational-IsLatchedIdle b v

call-IsLatched : (k : Call) {r : IghMasterRuntime} → IsLatched r → IsLatched (call k r)
unfolding raise_comm_fault
call-IsLatched raise {r} v = latch_comm_fault-IsLatched r
call-IsLatched clear {r} v = clear_comm_fault-IsLatched r
call-IsLatched request v = request_safe_output-IsLatched v
call-IsLatched release v = release_safe_output-IsLatched v
call-IsLatched (operational b) v = set_operational-IsLatched b v

Step-Holds : {r r' : IghMasterRuntime} {p p' : Phase} → Step r p r' p' → Holds p r → Holds p' r'
Step-Holds (called k {p = between}) v = call-IsLatchedIdle k v
Step-Holds (called k {p = within armed}) v = call-IsLatched k v
Step-Holds (begun running) v = job_begin-IsLatched (IsLatchedIdle-running v running)
Step-Holds (ended c {armed = armed}) v = IsLatched-idle (job_end-IsLatched armed c v)
Step-Holds stopped v = stop-IsLatchedIdle v
Step-Holds (started os c servo) v = start-IsLatchedIdle os c servo v

Reach-Holds : {r : IghMasterRuntime} {p : Phase} → Reach r p → Holds p r
unfolding make_dwell
Reach-Holds fresh = ground arith
Reach-Holds (next reach step) = Step-Holds step (Reach-Holds reach)

Reach-IsLatchedIdle : {r : IghMasterRuntime} {p : Phase} → Reach r p → IsLatchedIdle r
Reach-IsLatchedIdle {p = between} reach = Reach-Holds reach
Reach-IsLatchedIdle {p = within armed} reach = IsLatched-idle (Reach-Holds reach)

-- In every state that the runtime reaches by cycles, stops, starts however they end, and calls that
-- fall neither inside one another's bodies nor inside a cycle's judgement: a latched communication
-- fault keeps safe output required, and a release is refused; and while the Job thread runs the
-- fault keeps motion from being enabled again and keeps the dwell shut and disarmed.
pub comm_fault_keeps_safe :
    {r : IghMasterRuntime} {p : Phase}
    → Reach r p
    → r.comm_fault ≡ true
    → (r.safe_output_required ≡ true)
      × ((release_safe_output r).1 ≡ false)
      × ((r.job_running ≡ false)
          ⊎ ((r.motion_reenable_allowed ≡ false)
              × (r.healthy_dwell.allow_enable ≡ false)
              × (r.healthy_dwell.armed ≡ false)))
unfolding release_safe_output
comm_fault_keeps_safe reach fault = ground (arith, Reach-IsLatchedIdle reach)
