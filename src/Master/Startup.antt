-- ===== src/Master/Startup.antt =====
-- src/ethercat_master_igh/src/master_api.cpp: `Master::start`. What the bus, the platform and the
-- slaves answer is an argument. The waits and the load of the kinematics from the slaves are left out.
use robot_ethercat_master_ig.Prelude.{
  ℕ, zero, suc, ◌+◌, ◌%◌, Bool, true, false, not, ◌&&◌, Option, none, some, List, ◌==◌,
  if◌then◌else◌, length, get_elem?,
}
use robot_ethercat_master_ig.Prelude.Int.{ℤ}
use robot_ethercat_master_ig.Cia402.{OperationMode}
use robot_ethercat_master_ig.Config.{IghMasterConfig}
use robot_ethercat_master_ig.Runtime.{request_safe_output, set_operational}
use robot_ethercat_master_ig.Runtime.Lifecycle
use robot_ethercat_master_ig.Runtime.Lifecycle.{Platform, stop}
use robot_ethercat_master_ig.Servo.{
  Servo, broadcast, is_motion, request_fault_reset, set_operation_mode,
}
use robot_ethercat_master_ig.Servo.Cycle.{clear_comm_fault}
use robot_ethercat_master_ig.Servo.Startup.{Bringup, activate, deactivate}
use robot_ethercat_master_ig.Servo.Positions.{initialize_positions_from_sdo}
use robot_ethercat_master_ig.Master.{
  Master, is_supervised_motion, motion_policy_authorizes_commands,
}

-- `all_op`: whether all slaves reach OP in the wait, and whether they are in OP when the fault reset
-- is asked for; `error_code` and `error_code_later`: the answers to the reads of 0x603F by axis before
-- and after it, `none` for a failure.
pub record StartAnswers : Type 0 where
  pub positions : ℕ → List (Option ℤ)
  pub bringup : Bringup
  pub os : Platform
  pub environment : IghMasterConfig
  pub all_op : Bool
  pub all_op_at_reset : Bool
  pub error_code : ℕ → Option ℕ
  pub error_code_later : ℕ → Option ℕ

-- `readErrorCode`
unfoldable pub read_error_code : (ℕ → Option ℕ) → ℕ → Servo → ℕ
read_error_code answer motor_id s = elim (get_elem? s.axes motor_id) [
  | none ↦ 0
  | some a ↦ if not (is_motion a) then 0 else elim (answer motor_id) [ none ↦ 0 | some ec ↦ ec ]
]

-- The loops that count the axes with an error code, from axis `i` on.
unfoldable pub count_error_codes : (ℕ → Option ℕ) → Servo → ℕ → ℕ → ℕ
unfolding read_error_code
count_error_codes answer s zero i = 0
count_error_codes answer s (suc n) i =
    (if read_error_code answer i s == 0 then 0 else 1) + count_error_codes answer s n (i + 1)

-- The start's end on a failure, with the Job stopped.
unfoldable pub fail_startup : Servo → Master → Master × Bool
unfolding stop deactivate
fail_startup s m = (
  record m { servo = some (deactivate (record s { runtime = stop s.runtime })); running = false },
  false,
)

unfoldable pub set_all_modes : ℕ → ℕ → Servo → Servo
unfolding set_operation_mode
set_all_modes zero i s = s
set_all_modes (suc n) i s =
    set_all_modes n (i + 1) (set_operation_mode (i % 256) OperationMode.cyclic_sync_position s).1

-- From the cleared faults to the return.
unfoldable pub finish_start : Servo → Master → Master × Bool
unfolding set_operational clear_comm_fault set_all_modes
finish_start s m =
    let ready = clear_comm_fault (record s { runtime = set_operational s.runtime true }) in
    let n = length m.axes in
    (
      record m {
        servo = some (if m.motion_commands_authorized then set_all_modes n 0 ready else ready);
        running = true;
      },
      true,
    )

-- From the first reset in OP.
unfoldable pub clear_faults : StartAnswers → Servo → Master → Master × Bool
unfolding clear_comm_fault count_error_codes request_fault_reset fail_startup finish_start
clear_faults answers s m =
    let reset = clear_comm_fault s in
    let n = length m.axes in
    let (armed, s') = request_fault_reset answers.all_op_at_reset broadcast true reset in
    if count_error_codes answers.error_code reset n 0 == 0
    then finish_start reset m
    else if not armed
    then fail_startup s' m
    else if not (count_error_codes answers.error_code_later s' n 0 == 0)
    then fail_startup s' m
    else finish_start s' m

-- From the start of the Job.
unfoldable pub start_job : StartAnswers → Servo → Master → Master × Bool
unfolding Lifecycle.start deactivate fail_startup clear_faults
start_job answers s m =
    let (runtime, started) = Lifecycle.start answers.os answers.environment true s.runtime in
    let s' = record s { runtime = runtime } in
    if not started
    then (record m { servo = some (deactivate s') }, false)
    else if not answers.all_op
    then fail_startup s' m
    else clear_faults answers s' m

-- From the activation.
unfoldable pub authorize : StartAnswers → Servo → Master → Master × Bool
unfolding request_safe_output deactivate start_job
authorize answers s m =
    let passed = s.startup_evidence_passed in
    let safe = record s { runtime = request_safe_output s.runtime } in
    let judged = record m {
      startup_evidence_passed = passed;
      motion_commands_authorized = motion_policy_authorizes_commands m.motion_policy passed;
    } in
    if is_supervised_motion m.motion_policy && not passed
    then (record judged { servo = some (deactivate safe); running = false }, false)
    else start_job answers safe judged

unfoldable pub start_servo : StartAnswers → Servo → Master → Master × Bool
unfolding initialize_positions_from_sdo activate authorize
start_servo answers s m =
    let placed = (initialize_positions_from_sdo answers.positions s).1 in
    let (ok, active) = activate answers.bringup placed in
    if not ok
    then (record m { servo = some active; running = false }, false)
    else authorize answers active m

unfoldable pub start : StartAnswers → Master → Master × Bool
unfolding start_servo
start answers m = elim m.servo [
  | none ↦ (m, false)
  | some s ↦ if not m.mapped then (m, false) else start_servo answers s m
]
