-- ===== src/Runtime/Tests.antt =====
-- The runtime in concrete situations.
use robot_ethercat_master_ig.Prelude.{
  ◌≡◌, ◌⊎◌, ◌↔◌, refl, subst, Bool, true, false, not, ◌&&◌, ◌||◌, arith, List, [], ◌∷◌, replicate,
}
use robot_ethercat_master_ig.Prelude.Int.{pos}
use robot_ethercat_master_ig.Anomaly
use robot_ethercat_master_ig.Anomaly.{make_tracker}
use robot_ethercat_master_ig.Anomaly.Window.{make_tracker-IsTracking}
use robot_ethercat_master_ig.Dwell.Runs.{HasRun}
use robot_ethercat_master_ig.Config.{default_config}
use robot_ethercat_master_ig.Runtime.{
  IghMasterRuntime, raise_comm_fault, latch_comm_fault, clear_comm_fault, release_safe_output,
  release_refused, release_store,
}
use robot_ethercat_master_ig.Runtime.Job.{JobInput, job_begin, job_end}
use robot_ethercat_master_ig.Dwell
use robot_ethercat_master_ig.Runtime.Dwelled.{Since, judged}
use robot_ethercat_master_ig.Runtime.Lifecycle.{
  Platform, apply_memory_lock, start, start_fail_closed, start_without_lock,
}
use robot_ethercat_master_ig.Runtime.Reachable.{
  Call, Phase, Step, Reach, fresh_runtime, call, comm_fault_keeps_safe,
}
use robot_ethercat_master_ig.Runtime.Trips.{run_cycles, healths, reenabled_iff_dwelled}
use robot_ethercat_master_ig.Runtime.Watchdogs.{wkc_trips}
use robot_ethercat_master_ig.Sync.{new_sync}
use robot_ethercat_master_ig.Runtime.Pacing.{
  Beat, AllInTime, AreReadings, plan_wakeups, plan_wakeups-AllInTime,
}

abbrev raised : IghMasterRuntime
raised = call Call.raise fresh_runtime

raised-Reach : Reach raised Phase.between
raised-Reach = Reach.next Reach.fresh (Step.called Call.raise)

comm_fault_keeps_safe_example :
    (raised.safe_output_required ≡ true)
    × ((release_safe_output raised).1 ≡ false)
    × ((raised.job_running ≡ false)
        ⊎ ((raised.motion_reenable_allowed ≡ false)
            × (raised.healthy_dwell.allow_enable ≡ false)
            × (raised.healthy_dwell.armed ≡ false)))
unfolding raise_comm_fault latch_comm_fault
comm_fault_keeps_safe_example = comm_fault_keeps_safe raised-Reach refl

-- A release that has looked before a fault is raised and stores after it: the fault is latched, and
-- safe output is not required.
release_overtaken :
    (release_refused fresh_runtime ≡ false)
    × ((release_store (raise_comm_fault fresh_runtime)).comm_fault ≡ true)
    × ((release_store (raise_comm_fault fresh_runtime)).safe_output_required ≡ false)
unfolding release_refused release_store raise_comm_fault latch_comm_fault
release_overtaken = (refl, refl, refl)

-- A cycle in time, with or without a complete exchange.
abbrev cycle : Bool → JobInput
cycle ok = record {
  rx_ok = ok;
  scheduled = 2000000;
  actual_wakeup = 2010000;
  cycle_end = 2500000;
  dc_valid = false;
  dc_diff = pos 0;
}

abbrev two_good : List JobInput
two_good = cycle true ∷ cycle true ∷ []

abbrev dwelling : IghMasterRuntime
dwelling = record fresh_runtime {
  healthy_dwell = record { required = 2; consecutive_ok = 0; armed = false; allow_enable = false };
}

-- The dwell of two cycles after a reset, with the Job thread running.
abbrev served : IghMasterRuntime → IghMasterRuntime
served r = job_end false (cycle true) (job_begin r)

abbrev reset_state : IghMasterRuntime
reset_state = clear_comm_fault (record dwelling { job_running = true })

abbrev cycle_after :
    {hs : List Bool} (r : IghMasterRuntime)
    → r.job_running ≡ true
    → (job_begin r).operational ≡ false
    → Since hs r Phase.between
    → Since (judged false (cycle true) (job_begin r) hs) (served r) Phase.between
cycle_after {hs} r running idle s =
    Since.ended (cycle true)
      (subst (λ b. Since hs (job_begin r) (Phase.within b)) idle (Since.begun running s))

reenabled_iff_dwelled_example :
    ((run_cycles two_good (clear_comm_fault dwelling)).motion_reenable_allowed ≡ true) ↔ (
      ((run_cycles two_good (clear_comm_fault dwelling)).comm_fault ≡ false)
      × HasRun 2 (healths two_good (clear_comm_fault dwelling)))
reenabled_iff_dwelled_example = reenabled_iff_dwelled dwelling two_good (omega arith) (omega arith)

abbrev watched : IghMasterRuntime
watched = record fresh_runtime {
  operational = true;
  wkc_tracker = make_tracker default_config.wkc_anomaly_policy;
}

wkc_trips_example : (run_cycles (replicate 5 (cycle false)) watched).comm_fault ≡ true
unfolding Anomaly.make_tracker Anomaly.reset Anomaly.sanitize
wkc_trips_example =
    wkc_trips watched [] (replicate 5 (cycle false)) refl
      (make_tracker-IsTracking default_config.wkc_anomaly_policy) (omega arith) refl
      (refl, (refl, (refl, (refl, (refl, _)))))

abbrev locked_out : Platform
locked_out = record { memory_locked = false; mlockall_ok = false; job_rt_ok = true }

refused_start_is_safe :
    ((start locked_out default_config true fresh_runtime).0.job_running
      ≡ (start locked_out default_config true fresh_runtime).1)
    × ((start locked_out default_config true fresh_runtime).1
        ≡ (true && (apply_memory_lock locked_out default_config && (not true || true))))
refused_start_is_safe = start_fail_closed locked_out default_config true fresh_runtime refl

start_without_lock_example :
    ((start locked_out default_config true raised).1 ≡ false)
    × ((start locked_out default_config true raised).0.motion_reenable_allowed ≡ true)
    × ((start locked_out default_config true raised).0.comm_fault ≡ raised.comm_fault)
unfolding apply_memory_lock raise_comm_fault latch_comm_fault
start_without_lock_example = start_without_lock locked_out default_config raised refl refl

-- In time, then ten cycles late.
abbrev beats : List Beat
beats =
    record { sync = new_sync; now = 500; later = 600 }
    ∷ record { sync = new_sync; now = 12000000; later = 12000100 }
    ∷ []

plan_wakeups-AllInTime_example : AllInTime 1000000 beats (plan_wakeups 1000000 0 beats)
unfolding AreReadings
plan_wakeups-AllInTime_example =
    plan_wakeups-AllInTime 1000000 0 beats
      ((omega arith, omega arith), ((omega arith, omega arith), tt))
