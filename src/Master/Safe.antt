-- ===== src/Master/Safe.antt =====
-- What `Master::start` of src/master_api.cpp leaves behind when it refuses and when it succeeds.
use robot_ethercat_master_ig.Prelude.{
  ℕ, zero, suc, ◌+◌, ◌%◌, ◌≡◌, refl, ◌∙◌, Bool, true, false, not, ◌&&◌, Option, none, some, arith,
  ltb, ◌==◌, length, if◌then◌else◌, if_both, ap,
}
use robot_ethercat_master_ig.Cia402.{OperationMode}
use robot_ethercat_master_ig.Runtime
use robot_ethercat_master_ig.Runtime.{IghMasterRuntime, set_operational}
use robot_ethercat_master_ig.Runtime.Lifecycle
use robot_ethercat_master_ig.Runtime.Lifecycle.{stop}
use robot_ethercat_master_ig.Servo.{
  Servo, broadcast, some_motor, same_mode, request_fault_reset, set_operation_mode,
}
use robot_ethercat_master_ig.Servo.Cycle.{clear_comm_fault}
use robot_ethercat_master_ig.Servo.Startup.{activate, deactivate}
use robot_ethercat_master_ig.Servo.Positions.{initialize_positions_from_sdo}
use robot_ethercat_master_ig.Master.{
  Master, is_supervised_motion, motion_policy_authorizes_commands,
}
use robot_ethercat_master_ig.Master.Startup.{
  StartAnswers, start, start_servo, authorize, start_job, clear_faults, finish_start, fail_startup,
  count_error_codes, set_all_modes,
}

-- Safe outputs are required, motion may not be enabled again yet, and no fault is latched.
abbrev pub IsSafe : Option Servo → Type 0
IsSafe none = ⊥
IsSafe (some s) =
    (s.runtime.safe_output_required ≡ true)
    × (s.runtime.motion_reenable_allowed ≡ false)
    × (s.runtime.comm_fault ≡ false)

-- No thread runs the servo's cycles.
abbrev pub IsStopped : Option Servo → Type 0
IsStopped none = Unit
IsStopped (some s) = s.runtime.job_running ≡ false

-- The master runs exactly where the call reports success, and is then safe; else no Job thread runs.
pub record Ended (t : Master × Bool) : Type 0 where
  pub running : t.0.running ≡ t.1
  pub safe : t.1 ≡ true → IsSafe t.0.servo
  pub stopped : t.1 ≡ false → IsStopped t.0.servo

branch : (b : Bool) (x y : Master × Bool) → Ended x → Ended y → Ended (if b then x else y)
branch b x y p q = if_both Ended b {x = x} {y = y} p q

refused : (m : Master) → m.running ≡ false → IsStopped m.servo → Ended (m, false)
refused m idle none_runs = record {
  running = idle;
  safe = λ h. absurd (ground (arith, h));
  stopped = λ _. none_runs;
}

set_operation_mode-runtime :
    (i : ℕ) (mode : OperationMode) (s : Servo) → (set_operation_mode i mode s).1.runtime ≡ s.runtime
unfolding set_operation_mode
set_operation_mode-runtime i mode s =
    if_both (λ (t : Bool × Servo). t.1.runtime ≡ s.runtime) (i == broadcast)
      (if_both (λ (t : Bool × Servo). t.1.runtime ≡ s.runtime)
        (some_motor (λ a. not (same_mode a.current_mode mode)) s.axes) refl refl)
      (if_both (λ (t : Bool × Servo). t.1.runtime ≡ s.runtime) (ltb i (length s.axes)) refl refl)

set_all_modes-runtime : (n i : ℕ) (s : Servo) → (set_all_modes n i s).runtime ≡ s.runtime
unfolding set_all_modes
set_all_modes-runtime zero i s = refl
set_all_modes-runtime (suc n) i s =
    set_all_modes-runtime n (i + 1)
      (set_operation_mode (i % 256) OperationMode.cyclic_sync_position s).1
    ∙ set_operation_mode-runtime (i % 256) OperationMode.cyclic_sync_position s

IsSafe_of :
    (s : Servo) (r : IghMasterRuntime) → s.runtime ≡ Runtime.clear_comm_fault r → IsSafe (some s)
unfolding Runtime.clear_comm_fault
IsSafe_of s r h = rw h (refl, refl, refl)

finish_start-Ended : (s : Servo) (m : Master) → Ended (finish_start s m)
unfolding finish_start clear_comm_fault
finish_start-Ended s m =
    let ready = clear_comm_fault (record s { runtime = set_operational s.runtime true }) in
    record {
      running = refl;
      safe = λ h.
          if_both (λ (t : Servo). IsSafe (some t)) m.motion_commands_authorized
            (IsSafe_of (set_all_modes (length m.axes) 0 ready) (set_operational s.runtime true)
              (set_all_modes-runtime (length m.axes) 0 ready))
            (IsSafe_of ready (set_operational s.runtime true) refl);
      stopped = λ h. absurd (ground (arith, h));
    }

fail_startup-Ended : (s : Servo) (m : Master) → Ended (fail_startup s m)
unfolding fail_startup deactivate stop
fail_startup-Ended s m = refused (fail_startup s m).0 refl refl

clear_faults-Ended :
    (answers : StartAnswers) (s : Servo) (m : Master) → Ended (clear_faults answers s m)
unfolding clear_faults
clear_faults-Ended answers s m =
    let reset = clear_comm_fault s in
    let armed = request_fault_reset answers.all_op_at_reset broadcast true reset in
    let failed = fail_startup armed.1 m in
    let finished = finish_start armed.1 m in
    let remaining =
      not (count_error_codes answers.error_code_later armed.1 (length m.axes) 0 == 0) in
    let judged = if remaining then failed else finished in
    branch (count_error_codes answers.error_code reset (length m.axes) 0 == 0)
      (finish_start reset m) (if not armed.0 then failed else judged) (finish_start-Ended reset m)
      (branch (not armed.0) failed judged (fail_startup-Ended armed.1 m) (
        branch remaining failed finished (fail_startup-Ended armed.1 m)
          (finish_start-Ended armed.1 m)))

start_job-Ended :
    (answers : StartAnswers) (s : Servo) (m : Master)
    → m.running ≡ false
    → Ended (start_job answers s m)
unfolding start_job deactivate stop
start_job-Ended answers s m idle =
    let started = Lifecycle.start answers.os answers.environment true s.runtime in
    let s' = record s { runtime = started.0 } in
    let m' : Master = record m { servo = some (deactivate s') } in
    let failed = fail_startup s' m in
    let cleared = clear_faults answers s' m in
    branch (not started.1) (m', false) (if not answers.all_op then failed else cleared)
      (refused m' idle refl)
      (branch (not answers.all_op) failed cleared (fail_startup-Ended s' m)
        (clear_faults-Ended answers s' m))

authorize-Ended :
    (answers : StartAnswers) (s : Servo) (m : Master)
    → m.running ≡ false
    → Ended (authorize answers s m)
unfolding authorize deactivate stop
authorize-Ended answers s m idle =
    let passed = s.startup_evidence_passed in
    let safe = record s { runtime = Runtime.request_safe_output s.runtime } in
    let judged : Master = record m {
      startup_evidence_passed = passed;
      motion_commands_authorized = motion_policy_authorizes_commands m.motion_policy passed;
    } in
    let stopped : Master = record judged { servo = some (deactivate safe); running = false } in
    branch (is_supervised_motion m.motion_policy && not passed) (stopped, false)
      (start_job answers safe judged) (refused stopped refl refl)
      (start_job-Ended answers safe judged idle)

-- The initial positions and the activation leave the runtime alone.
activate-runtime :
    (answers : StartAnswers) (s : Servo)
    → (activate answers.bringup (initialize_positions_from_sdo answers.positions s).1).1.runtime
      ≡ s.runtime
unfolding activate initialize_positions_from_sdo
activate-runtime answers s = ground arith

start_servo-Ended :
    (answers : StartAnswers) (s : Servo) (m : Master)
    → m.running ≡ false
    → IsStopped (some s)
    → Ended (start_servo answers s m)
unfolding start_servo
start_servo-Ended answers s m idle none_runs =
    let placed = (initialize_positions_from_sdo answers.positions s).1 in
    let active = activate answers.bringup placed in
    let inert : Master = record m { servo = some active.1; running = false } in
    branch (not active.0) (inert, false) (authorize answers active.1 m)
      (refused inert refl
        (ap (λ (r : IghMasterRuntime). r.job_running) (activate-runtime answers s) ∙ none_runs))
      (authorize-Ended answers active.1 m idle)

started-Ended :
    (answers : StartAnswers) (m : Master) (o : Option Servo)
    → m.running ≡ false
    → IsStopped o
    → IsStopped m.servo
    → Ended (elim o as (λ _. Master × Bool) [
      | none ↦ (m, false)
      | some s ↦ if not m.mapped then (m, false) else start_servo answers s m
    ])
started-Ended answers m none idle _ none_runs = refused m idle none_runs
started-Ended answers m (some s) idle none_runs same =
    branch (not m.mapped) (m, false) (start_servo answers s m) (refused m idle same)
      (start_servo-Ended answers s m idle none_runs)

-- Of a master that is not running and without a Job thread, whatever the bus, the platform and the
-- slaves answer: `start` leaves it running exactly where it reports success; it is then left with safe
-- outputs required, motion not yet to be enabled again and no communication fault latched, and else
-- without a Job thread.
pub start-Ended :
    (answers : StartAnswers) (m : Master)
    → m.running ≡ false
    → IsStopped m.servo
    → Ended (start answers m)
unfolding start
start-Ended answers m idle none_runs = started-Ended answers m m.servo idle none_runs none_runs
