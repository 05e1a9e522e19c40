-- ===== src/Master/Cycle.antt =====
-- src/ethercat_master_igh/src/master_api.cpp: `Master::cycle` and the requests of the upper layer.
use robot_ethercat_master_ig.Prelude.{
  ℕ, zero, suc, ◌+◌, ◌%◌, Bool, true, false, not, ◌&&◌, ◌||◌, none, some, List, [], ◌∷◌, ltb,
  if◌then◌else◌, length,
}
use robot_ethercat_master_ig.Prelude.Int.{ℤ}
use robot_ethercat_master_ig.Cia402.{OperationMode}
use robot_ethercat_master_ig.Freshness.{SetpointSource}
use robot_ethercat_master_ig.Kinematics.{
  Doubles, MotorKinematicsParams, whole, get, pulse_to_degree, degree_to_pulse,
  pulse_per_sec_to_degree_per_sec, degree_per_sec_to_pulse_per_sec, raw_torque_to_output_torque,
  output_torque_to_raw,
}
use robot_ethercat_master_ig.Runtime
use robot_ethercat_master_ig.Servo
use robot_ethercat_master_ig.Servo.{
  Servo, same_mode, set_enable, set_operation_mode, get_operation_mode,
}
use robot_ethercat_master_ig.Servo.Commands.{
  set_target_position, set_target_velocity, set_target_torque,
}
use robot_ethercat_master_ig.Servo.Cycle.{clear_comm_fault, apply_command_contention_fallback}
use robot_ethercat_master_ig.Servo.Cycle
use robot_ethercat_master_ig.Master.{Master, on_servo}

-- `operation_mode` has the values of the enumeration, `no_mode` for 0; the code casts any other number.
pub record AxisCommand {ℓ} (R : Type ℓ) : Type ℓ where
  pub position : R
  pub velocity : R
  pub effort : R
  pub enable : Bool
  pub operation_mode : OperationMode

pub record AxisState {ℓ} (R : Type ℓ) : Type ℓ where
  pub position : R
  pub velocity : R
  pub effort : R
  pub enabled : Bool
  pub fault : Bool
  pub status_word : ℕ  -- uint16_t
  pub error_code : ℕ  -- uint16_t

-- What `getMotorStates` says of a slave, and what `getPosition`, `getVelocity` and `getTorque` give.
pub record MotorState : Type 0 where
  pub enabled : Bool
  pub fault : Bool
  pub status_word : ℕ  -- uint16_t
  pub error_code : ℕ  -- uint16_t

pub record Feedback : Type 0 where
  pub motor_states : List MotorState
  pub position : ℕ → ℤ
  pub velocity : ℕ → ℤ
  pub torque : ℕ → ℤ

abbrev pub no_motor_state : MotorState
no_motor_state = record { enabled = false; fault = false; status_word = 0; error_code = 0 }

abbrev motor_state : List MotorState → ℕ → MotorState
motor_state [] i = no_motor_state
motor_state (st ∷ rest) zero = st
motor_state (st ∷ rest) (suc i) = motor_state rest i

-- `is_finite` is `std::isfinite`; `params` the motors' kinematics.
module _ {ℓ} {R : Type ℓ} (d : Doubles R) (is_finite : R → Bool)
    (params : List (MotorKinematicsParams R)) where
  abbrev pub pi : R
  pi = d.decimal 314159265358979323846 20

  abbrev pub rad_to_deg : R
  rad_to_deg = d.div (whole d 180) pi

  abbrev pub deg_to_rad : R
  deg_to_rad = d.div pi (whole d 180)

  -- The body of the loop over the commands.
  unfoldable pub push_command : ℕ → ℕ → AxisCommand R → Servo → Servo
  unfolding set_operation_mode set_enable set_target_position set_target_velocity set_target_torque
      get_operation_mode
  push_command now_ns i cmd s =
      let id = i % 256 in
      let p = get d params i in
      let moded =
        if same_mode cmd.operation_mode OperationMode.no_mode
        then s
        else (set_operation_mode id cmd.operation_mode s).1 in
      let enabled = (set_enable id cmd.enable moded).1 in
      let positioned =
        if is_finite cmd.position
        then set_target_position id (degree_to_pulse d p (d.mul cmd.position rad_to_deg)) true
            enabled
        else enabled in
      let moving =
        if is_finite cmd.velocity
        then set_target_velocity id
            (degree_per_sec_to_pulse_per_sec d p (d.mul cmd.velocity rad_to_deg)) true
            SetpointSource.external now_ns positioned
        else positioned in
      if is_finite cmd.effort
        && same_mode (get_operation_mode id moving) OperationMode.cyclic_sync_torque
      then set_target_torque id (output_torque_to_raw d p cmd.effort) SetpointSource.external now_ns
          moving
      else moving

  unfoldable pub push_commands : ℕ → ℕ → ℕ → List (AxisCommand R) → Servo → Servo
  unfolding push_command
  push_commands now_ns zero i commands s = s
  push_commands now_ns (suc n) i [] s = s
  push_commands now_ns (suc n) i (cmd ∷ rest) s =
      push_commands now_ns n (i + 1) rest (push_command now_ns i cmd s)

  unfoldable pub faulted_state : Feedback → ℕ → AxisState R
  faulted_state feedback i =
      let p = get d params i in
      let id = i % 256 in
      let st = motor_state feedback.motor_states i in
      record {
        position = d.mul (pulse_to_degree d p (feedback.position id)) deg_to_rad;
        velocity = d.mul (pulse_per_sec_to_degree_per_sec d p (feedback.velocity id)) deg_to_rad;
        effort = whole d 0;
        enabled = false;
        fault = true;
        status_word = st.status_word;
        error_code = st.error_code;
      }

  unfoldable pub sampled_state : Feedback → ℕ → AxisState R
  sampled_state feedback i =
      let p = get d params i in
      let id = i % 256 in
      let st = motor_state feedback.motor_states i in
      record {
        position = d.mul (pulse_to_degree d p (feedback.position id)) deg_to_rad;
        velocity = d.mul (pulse_per_sec_to_degree_per_sec d p (feedback.velocity id)) deg_to_rad;
        effort = raw_torque_to_output_torque d p (feedback.torque id);
        enabled = st.enabled;
        fault = st.fault;
        status_word = st.status_word;
        error_code = st.error_code;
      }

  abbrev for_axes : (ℕ → AxisState R) → ℕ → ℕ → List (AxisState R)
  for_axes f zero i = []
  for_axes f (suc n) i = f i ∷ for_axes f n (i + 1)

  -- With the servo there: its new state, the states handed out, and the result.
  unfoldable pub cycle_servo :
      ℕ → List (AxisCommand R) → Feedback → ℕ → Bool → Servo → Servo × List (AxisState R) × Bool
  unfolding push_commands faulted_state sampled_state
  cycle_servo now_ns commands feedback n authorized s =
      if s.runtime.comm_fault
      then (s, for_axes (faulted_state feedback) n 0, false)
      else if authorized && not s.runtime.safe_output_required
      then (push_commands now_ns n 0 commands s, for_axes (sampled_state feedback) n 0, true)
      else (s, for_axes (sampled_state feedback) n 0, true)

  -- `state_count`: how many states the caller has room for; a null pointer is the empty list or 0.
  unfoldable pub run_cycle :
      ℕ → List (AxisCommand R) → ℕ → Feedback → Master → Servo → Master × List (AxisState R) × Bool
  unfolding cycle_servo
  run_cycle now_ns commands state_count feedback m s =
      let n = length m.axes in
      let (s', states, ok) =
        cycle_servo now_ns commands feedback n m.motion_commands_authorized s in
      if not m.running || (ltb (length commands) n || ltb state_count n)
      then (m, [], false)
      else (record m { servo = some s' }, states, ok)

  unfoldable pub cycle :
      ℕ → List (AxisCommand R) → ℕ → Feedback → Master → Master × List (AxisState R) × Bool
  unfolding run_cycle
  cycle now_ns commands state_count feedback m = elim m.servo [
    | none ↦ (m, [], false)
    | some s ↦ run_cycle now_ns commands state_count feedback m s
  ]

unfoldable pub disable_all : ℕ → ℕ → Servo → Servo
unfolding set_enable
disable_all zero i s = s
disable_all (suc n) i s = disable_all n (i + 1) (set_enable (i % 256) false s).1

unfoldable pub request_safety_reset : Master → Master × Bool
unfolding disable_all clear_comm_fault
request_safety_reset m = elim m.servo [
  | none ↦ (m, false)
  | some s ↦ (record m { servo = some (clear_comm_fault (disable_all (length m.axes) 0 s)) }, true)
]

-- `all_op`: whether all slaves are in OP.
unfoldable pub request_fault_reset : Bool → ℕ → Master → Master × Bool
request_fault_reset all_op axis_id m = elim m.servo [
  | none ↦ (m, false)
  | some s ↦
      let (ok, s') = Servo.request_fault_reset all_op axis_id false s in
      if m.running then (record m { servo = some s' }, ok) else (m, false)
]

unfoldable pub request_safe_output : Master → Master
request_safe_output m = record m {
  servo = on_servo (λ s. record s { runtime = Runtime.request_safe_output s.runtime }) m.servo;
}

unfoldable pub release_safe_output : Master → Master × Bool
release_safe_output m = elim m.servo [
  | none ↦ (m, false)
  | some s ↦
      let (ok, s') = Cycle.release_safe_output s in
      if not m.motion_commands_authorized then (m, false) else (record m { servo = some s' }, ok)
]

unfoldable pub motion_reenable_allowed : Master → Bool
motion_reenable_allowed m = elim m.servo [
  | none ↦ false
  | some s ↦ m.motion_commands_authorized && s.runtime.motion_reenable_allowed
]

unfoldable pub apply_contention_fallback : Master → Master
unfolding apply_command_contention_fallback
apply_contention_fallback m = record m {
  servo = on_servo apply_command_contention_fallback m.servo;
}
