-- ===== src/Master/Policy.antt =====
-- A `Master` of src/master_api.cpp whose policy does not authorise motion.
mod Quiet
pub mod Steps
pub mod Runs
use robot_ethercat_master_ig.Prelude.{
  ℕ, zero, suc, ◌+◌, ◌≡◌, refl, arith, not, ◌&&◌, ◌||◌, ◌==◌, if_both, if_cases, if◌then◌else◌,
  length, map, ltb, Bool, true, false, Option, none, some, List, [], ◌∷◌,
}
use robot_ethercat_master_ig.Config.{IghMasterConfig}
use robot_ethercat_master_ig.Kinematics.{Doubles, MotorKinematicsParams}
use robot_ethercat_master_ig.Servo.Initialize
use robot_ethercat_master_ig.Servo.Initialize.{MasterAnswers}
use robot_ethercat_master_ig.Axis.{Axis}
use robot_ethercat_master_ig.Runtime.{set_operational}
use robot_ethercat_master_ig.Runtime
use robot_ethercat_master_ig.Runtime.Lifecycle
use robot_ethercat_master_ig.Servo
use robot_ethercat_master_ig.Servo.{Servo, broadcast}
use robot_ethercat_master_ig.Servo.Cycle.{clear_comm_fault}
use robot_ethercat_master_ig.Servo.Startup.{Bringup, activate, deactivate}
use robot_ethercat_master_ig.Servo.Positions.{initialize_positions_from_sdo}
use robot_ethercat_master_ig.Master
use robot_ethercat_master_ig.Master.{
  Master, AxisConfig, is_supervised_motion, motion_policy_authorizes_commands, init, map_joints,
  shutdown,
}
use robot_ethercat_master_ig.Master.Startup.{
  StartAnswers, start, start_servo, authorize, start_job, clear_faults, finish_start, fail_startup,
  count_error_codes,
}
use robot_ethercat_master_ig.Master.Policy.Quiet.{
  AllOff, set_enable-AllOff, request_fault_reset-AllOff, clear_comm_fault-AllOff,
  apply_command_contention_fallback-AllOff, initialize_positions-AllOff, activate-AllOff,
  initialize-AllOff,
}
use robot_ethercat_master_ig.Master.Cycle.{
  AxisCommand, Feedback, cycle, request_safety_reset, request_fault_reset, request_safe_output,
  release_safe_output, apply_contention_fallback,
}

abbrev pub ServoOff : Option Servo → Type 0
ServoOff none = Unit
ServoOff (some s) = AllOff s.axes

-- The policy is not that of supervised motion, no command is authorised, and no motor is wished to be
-- enabled.
pub record IsObserver (m : Master) : Type 0 where
  pub unsupervised : is_supervised_motion m.motion_policy ≡ false
  pub unauthorized : m.motion_commands_authorized ≡ false
  pub off : ServoOff m.servo

-- The parts of it that do not look at the servo.
abbrev pub Bound : Master → Type 0
Bound m = (is_supervised_motion m.motion_policy ≡ false) × (m.motion_commands_authorized ≡ false)

abbrev pub After : Master × Bool → Type 0
After t = IsObserver t.0

pub branch : (b : Bool) (x y : Master × Bool) → After x → After y → After (if b then x else y)
branch b x y p q = if_both After b {x = x} {y = y} p q

fail_startup-IsObserver :
    (s : Servo) (m : Master) → Bound m → AllOff s.axes → After (fail_startup s m)
unfolding fail_startup deactivate
fail_startup-IsObserver s m b off = record { unsupervised = b.0; unauthorized = b.1; off = off }

finish_start-IsObserver :
    (s : Servo) (m : Master) → Bound m → AllOff s.axes → After (finish_start s m)
unfolding finish_start
finish_start-IsObserver s m b off =
    let ready = record s { runtime = set_operational s.runtime true } in
    record {
      unsupervised = b.0;
      unauthorized = b.1;
      off =
          if_cases (λ (t : Servo). AllOff t.axes) m.motion_commands_authorized
            (λ h. absurd (ground (arith, h, b.1))) (λ h. clear_comm_fault-AllOff ready off);
    }

clear_faults-IsObserver :
    (answers : StartAnswers) (s : Servo) (m : Master)
    → Bound m
    → AllOff s.axes
    → After (clear_faults answers s m)
unfolding clear_faults
clear_faults-IsObserver answers s m b off =
    let reset = clear_comm_fault s in
    let off' = clear_comm_fault-AllOff s off in
    let armed = Servo.request_fault_reset answers.all_op_at_reset broadcast true reset in
    let still = request_fault_reset-AllOff answers.all_op_at_reset broadcast true reset off' in
    let failed = fail_startup armed.1 m in
    let finished = finish_start armed.1 m in
    let remaining =
      not (count_error_codes answers.error_code_later armed.1 (length m.axes) 0 == 0) in
    let judged = if remaining then failed else finished in
    let failed-IsObserver = fail_startup-IsObserver armed.1 m b still in
    let judged-IsObserver =
      branch remaining failed finished failed-IsObserver
        (finish_start-IsObserver armed.1 m b still) in
    branch (count_error_codes answers.error_code reset (length m.axes) 0 == 0)
      (finish_start reset m) (if not armed.0 then failed else judged)
      (finish_start-IsObserver reset m b off')
      (branch (not armed.0) failed judged failed-IsObserver judged-IsObserver)

start_job-IsObserver :
    (answers : StartAnswers) (s : Servo) (m : Master)
    → Bound m
    → AllOff s.axes
    → After (start_job answers s m)
unfolding start_job deactivate
start_job-IsObserver answers s m b off =
    let started = Lifecycle.start answers.os answers.environment true s.runtime in
    let s' = record s { runtime = started.0 } in
    let refused : (Master × Bool) = (record m { servo = some (deactivate s') }, false) in
    let failed = fail_startup s' m in
    let cleared = clear_faults answers s' m in
    branch (not started.1) refused (if not answers.all_op then failed else cleared)
      record { unsupervised = b.0; unauthorized = b.1; off = off }
      (branch (not answers.all_op) failed cleared (fail_startup-IsObserver s' m b off)
        (clear_faults-IsObserver answers s' m b off))

authorize-IsObserver :
    (answers : StartAnswers) (s : Servo) (m : Master)
    → is_supervised_motion m.motion_policy ≡ false
    → AllOff s.axes
    → After (authorize answers s m)
unfolding authorize motion_policy_authorizes_commands deactivate
authorize-IsObserver answers s m h off =
    let passed = s.startup_evidence_passed in
    let safe = record s { runtime = Runtime.request_safe_output s.runtime } in
    let judged = record m {
      startup_evidence_passed = passed;
      motion_commands_authorized = motion_policy_authorizes_commands m.motion_policy passed;
    } in
    let unauthorized : ((is_supervised_motion m.motion_policy && passed) ≡ false) =
      ground (arith, h) in
    branch (is_supervised_motion m.motion_policy && not passed)
      (record judged { servo = some (deactivate safe); running = false }, false)
      (start_job answers safe judged)
      record { unsupervised = h; unauthorized = unauthorized; off = off }
      (start_job-IsObserver answers safe judged (h, unauthorized) off)

pub start_servo-IsObserver :
    (answers : StartAnswers) (s : Servo) (m : Master)
    → Bound m
    → AllOff s.axes
    → After (start_servo answers s m)
unfolding start_servo
start_servo-IsObserver answers s m b off =
    let placed = (initialize_positions_from_sdo answers.positions s).1 in
    let active = activate answers.bringup placed in
    let active-AllOff =
      activate-AllOff answers.bringup placed
        (initialize_positions-AllOff answers.positions s off) in
    branch (not active.0) (record m { servo = some active.1; running = false }, false)
      (authorize answers active.1 m)
      record { unsupervised = b.0; unauthorized = b.1; off = active-AllOff }
      (authorize-IsObserver answers active.1 m b.0 active-AllOff)
