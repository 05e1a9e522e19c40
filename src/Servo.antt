-- ===== src/Servo.antt =====
-- src/ethercat_master_igh/src/master/igh/ethercat_servo.cpp: the commands of EtherCATServo that other
-- threads call, on the state of all its slaves. Log events and messages are left out.
pub mod Cycle
pub mod Lookup
pub mod Gates
pub mod Stale
pub mod Words
pub mod Enabling
pub mod Commands
pub mod Held
pub mod Bus
pub mod LoadKinematics
pub mod Mapped
pub mod States
pub mod SafeOutputs
pub mod Startup
pub mod Positions
pub mod Initialize
pub mod EventLog
pub mod Evidence
mod Tests
use robot_ethercat_master_ig.Prelude.{
  ℕ, zero, suc, ◌%◌, Bool, true, false, not, ◌&&◌, ◌||◌, Option, none, some, List, [], ◌∷◌, length,
  get_elem?, ltb, leb, ◌==◌, if◌then◌else◌,
}
use robot_ethercat_master_ig.Prelude.Int.{ℤ, pos}
use robot_ethercat_master_ig.Cia402.{
  OperationMode, control_word_switch_on, is_operation_enabled, is_fault,
}
use robot_ethercat_master_ig.Freshness.{
  SetpointSource, arm_external_command, disarm_command_freshness, mark_job_internal_command,
}
use robot_ethercat_master_ig.Runtime
use robot_ethercat_master_ig.Runtime.{IghMasterRuntime}
use robot_ethercat_master_ig.Axis.{Axis, PendingCommand, is_non_motion_slave}
use robot_ethercat_master_ig.Axis.Transmit.{differ}

-- The members of EtherCATServo that these operations read or write.
pub record Servo : Type 0 where
  pub initialized : Bool
  pub activated : Bool
  pub startup_evidence_passed : Bool
  pub runtime : IghMasterRuntime
  pub axes : List Axis
  pub safe_output_active : Bool
  pub explicit_fault_reset_cycles : ℕ  -- uint16_t
  pub explicit_fault_reset_axis : ℕ  -- uint16_t
  pub external_cmd_watchdog_ns : ℕ
  pub csv_cmd_watchdog : Bool

abbrev pub broadcast : ℕ
broadcast = 0xFF

abbrev pub is_motion : Axis → Bool
is_motion a = not (is_non_motion_slave a.config)

-- A loop that runs over the motors and leaves out the slaves that are none.
abbrev pub each_motor : (Axis → Axis) → List Axis → List Axis
each_motor f [] = []
each_motor f (a ∷ rest) = (if is_motion a then f a else a) ∷ each_motor f rest

-- A change of one element; none out of bounds.
abbrev pub modify : (Axis → Axis) → ℕ → List Axis → List Axis
modify f i [] = []
modify f zero (a ∷ rest) = f a ∷ rest
modify f (suc i) (a ∷ rest) = a ∷ modify f i rest

-- Whether a motor answers the test.
abbrev pub some_motor : (Axis → Bool) → List Axis → Bool
some_motor t [] = false
some_motor t (a ∷ rest) = is_motion a && t a || some_motor t rest

-- The writes of `setEnable` to one motor.
unfoldable pub restart : Bool → Axis → Axis
restart enable a = record a {
  desired_enable = enable;
  enable_fsm_active = true;
  enable_fsm_step = 0;
  enable_fsm_wait = 0;
}

-- The early returns of `setEnable`.
unfoldable pub enable_blocked : Bool → Servo → Bool
enable_blocked enable s =
    not s.activated
    || (enable
          && (s.runtime.comm_fault
              || (s.runtime.safe_output_required || not s.runtime.motion_reenable_allowed))
        || enable && not s.startup_evidence_passed)

unfoldable pub enable_one : Bool → ℕ → Axis → Servo → Servo
unfolding restart
enable_one enable motor_id a s =
    if not (is_motion a) || not (differ a.desired_enable enable)
    then s
    else record s { axes = modify (restart enable) motor_id s.axes }

unfoldable pub enable_all : Bool → Servo → Servo
unfolding restart
enable_all enable s =
    if some_motor (λ a. differ a.desired_enable enable) s.axes
    then record s { axes = each_motor (restart enable) s.axes }
    else s

unfoldable pub set_enable : ℕ → Bool → Servo → Bool × Servo
unfolding enable_blocked enable_one enable_all
set_enable motor_id enable s =
    if enable_blocked enable s
    then (false, s)
    else if motor_id == broadcast
    then (true, enable_all enable s)
    else elim (get_elem? s.axes motor_id) [
      | none ↦ (false, s)
      | some a ↦ (true, enable_one enable motor_id a s)
    ]

-- The loop of `requestFaultReset`: `none` where an enabled motor is selected, or else whether one of
-- the selected motors has a fault.
unfoldable pub selected_fault : ℕ → ℕ → Bool → List Axis → Option Bool
selected_fault motor_id i found [] = some found
selected_fault motor_id i found (a ∷ rest) =
    let chosen = is_motion a && (motor_id == broadcast || motor_id == i % 256) in
    let seen = found || chosen && (is_fault a.last_status_word || not (a.last_error_code == 0)) in
    let result = selected_fault motor_id (suc i) seen rest in
    if chosen && is_operation_enabled a.last_status_word then none else result

-- The early return at the start; whether all slaves are in OP is an answer of the bus.
unfoldable pub reset_blocked : Bool → ℕ → Servo → Bool
reset_blocked all_slaves_in_op motor_id s =
    not s.initialized
    || (not s.activated
        || (not s.runtime.job_running
            || (not s.runtime.safe_output_required
                || (s.runtime.comm_fault
                    || (not all_slaves_in_op
                        || not (motor_id == broadcast) && leb (length s.axes) motor_id)))))

abbrev pub fault_reset_window : ℕ
fault_reset_window = 20

abbrev pub no_reset_axis : ℕ
no_reset_axis = 0xFFFF

unfoldable pub request_fault_reset : Bool → ℕ → Bool → Servo → Bool × Servo
unfolding reset_blocked selected_fault
request_fault_reset all_slaves_in_op motor_id allow_without_fault s =
    let opened = record s {
      explicit_fault_reset_axis = if motor_id == broadcast then 0x00FF else motor_id;
      explicit_fault_reset_cycles = fault_reset_window;
    } in
    if reset_blocked all_slaves_in_op motor_id s
    then (false, s)
    else elim (selected_fault motor_id 0 false s.axes) [
      | none ↦ (false, s)
      | some found ↦ if found || allow_without_fault then (true, opened) else (false, s)
    ]

abbrev pub same_mode : OperationMode → OperationMode → Bool
same_mode OperationMode.no_mode OperationMode.no_mode = true
same_mode OperationMode.profile_position OperationMode.profile_position = true
same_mode OperationMode.profile_velocity OperationMode.profile_velocity = true
same_mode OperationMode.profile_torque OperationMode.profile_torque = true
same_mode OperationMode.homing OperationMode.homing = true
same_mode OperationMode.interpolated_position OperationMode.interpolated_position = true
same_mode OperationMode.cyclic_sync_position OperationMode.cyclic_sync_position = true
same_mode OperationMode.cyclic_sync_velocity OperationMode.cyclic_sync_velocity = true
same_mode OperationMode.cyclic_sync_torque OperationMode.cyclic_sync_torque = true
same_mode _ _ = false

-- `disarmLeavingMode`
unfoldable pub disarm_leaving_mode : OperationMode → Axis → Axis
unfolding disarm_command_freshness
disarm_leaving_mode mode a =
    let previous = a.current_mode in
    record a {
      torque_cmd_freshness =
          if same_mode previous OperationMode.cyclic_sync_torque
            && not (same_mode mode OperationMode.cyclic_sync_torque)
          then disarm_command_freshness a.torque_cmd_freshness
          else a.torque_cmd_freshness;
      velocity_cmd_freshness =
          if same_mode previous OperationMode.cyclic_sync_velocity
            && not (same_mode mode OperationMode.cyclic_sync_velocity)
          then disarm_command_freshness a.velocity_cmd_freshness
          else a.velocity_cmd_freshness;
    }

-- The setpoints of the mode that is entered.
unfoldable pub align_setpoints : OperationMode → Axis → Axis
align_setpoints OperationMode.cyclic_sync_position a = record a {
  idle_input_position = a.last_actual_position;
  target_position = a.last_actual_position;
  position_override_active = true;
}
align_setpoints OperationMode.cyclic_sync_velocity a = record a {
  idle_input_velocity = pos 0;
  target_velocity = pos 0;
  velocity_override_active = false;
}
align_setpoints _ a = a

-- `apply_axis`, for a motor.
unfoldable pub apply_mode : OperationMode → Axis → Axis
unfolding disarm_leaving_mode align_setpoints
apply_mode mode a =
    let left = disarm_leaving_mode mode (align_setpoints mode a) in
    if same_mode a.current_mode mode
    then a
    else if a.enable_requested
    then record left { current_mode = mode }
    else record left {
      current_mode = mode;
      control_word_state = control_word_switch_on;
      pending_control_word = control_word_switch_on;
    }

abbrev apply_mode_if : OperationMode → Axis → Axis
apply_mode_if mode a = if is_motion a then apply_mode mode a else a

unfoldable pub set_operation_mode : ℕ → OperationMode → Servo → Bool × Servo
unfolding apply_mode
set_operation_mode motor_id mode s =
    if motor_id == broadcast
    then (if some_motor (λ a. not (same_mode a.current_mode mode)) s.axes
        then (true, record s { axes = each_motor (apply_mode mode) s.axes })
        else (true, s))
    else if ltb motor_id (length s.axes)
    then (true, record s { axes = modify (apply_mode_if mode) motor_id s.axes })
    else (false, s)

unfoldable pub get_operation_mode : ℕ → Servo → OperationMode
get_operation_mode motor_id s = elim (get_elem? s.axes motor_id) [
  | none ↦ OperationMode.no_mode
  | some a ↦ if is_motion a then a.current_mode else OperationMode.no_mode
]
