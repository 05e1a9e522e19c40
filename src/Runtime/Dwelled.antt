-- ===== src/Runtime/Dwelled.antt =====
-- src/ethercat_master_igh/src/master/igh/igh_master_runtime.cpp: what stands between a fault or a
-- safety reset and the release of safe output, under any interleaving of calls and Job cycles.
use robot_ethercat_master_ig.Prelude.{◌≡◌, Bool, true, List, [], ◌∷◌, if◌then◌else◌}
use robot_ethercat_master_ig.Runtime.{
  IghMasterRuntime, raise_comm_fault, clear_comm_fault, request_safe_output, release_safe_output,
  set_operational,
}
use robot_ethercat_master_ig.Runtime.Job.{JobInput, job_begin, job_watch, is_healthy, job_end}
use robot_ethercat_master_ig.Runtime.Lifecycle.{stop}
use robot_ethercat_master_ig.Runtime.Reachable.{Phase}
use robot_ethercat_master_ig.Runtime.Safety.{IsSafe, IsSafeInCycle}

-- How the cycles were judged since the last fault or reset, newest first, with one cycle more: a cycle
-- at whose end a fault is latched begins anew.
abbrev pub judged : Bool → JobInput → IghMasterRuntime → List Bool → List Bool
judged armed c r hs =
    if (job_watch armed c r).comm_fault then [] else is_healthy c.rx_ok (job_watch armed c r) ∷ hs

-- What a runtime can come to from a raised fault or a safety reset on, until it is started anew, with
-- how its cycles were judged since the last of these.
pub data Since : List Bool → IghMasterRuntime → Phase → Type 0 where
  raised : (r : IghMasterRuntime) {p : Phase} → Since [] (raise_comm_fault r) p
  cleared : (r : IghMasterRuntime) {p : Phase} → Since [] (clear_comm_fault r) p
  requested :
      {hs : List Bool} {r : IghMasterRuntime} {p : Phase}
      → Since hs r p
      → Since hs (request_safe_output r) p
  released :
      {hs : List Bool} {r : IghMasterRuntime} {p : Phase}
      → Since hs r p
      → Since hs (release_safe_output r).0 p
  told :
      (b : Bool) {hs : List Bool} {r : IghMasterRuntime} {p : Phase}
      → Since hs r p
      → Since hs (set_operational r b) p
  begun :
      {hs : List Bool} {r : IghMasterRuntime}
      → r.job_running ≡ true
      → Since hs r Phase.between
      → Since hs (job_begin r) (Phase.within (job_begin r).operational)
  ended :
      (c : JobInput) {hs : List Bool} {r : IghMasterRuntime} {armed : Bool}
      → Since hs r (Phase.within armed)
      → Since (judged armed c r hs) (job_end armed c r) Phase.between
  stopped :
      {hs : List Bool} {r : IghMasterRuntime}
      → Since hs r Phase.between
      → Since hs (stop r) Phase.between

-- The runtime is safe, and its dwell follows the judgements.
abbrev Holds : Phase → IghMasterRuntime → Type 0
Holds Phase.between r = IsSafe r
Holds (Phase.within armed) r = IsSafeInCycle r
