-- ===== src/Master.antt =====
-- src/ethercat_master_igh/src/master_api.cpp, include/ethercat_master_igh/master_api.hpp and
-- motion_policy.hpp: the interface that applications use, over the servo and its runtime. A refused
-- call's message is left out.
pub mod Validation
pub mod Startup
pub mod Cycle
pub mod Policy
pub mod Safe
pub mod Health
mod Tests
use Prim.Native.String.{String}
use text.Mathlib.Text.{◌==◌ as str_eq}
use robot_ethercat_master_ig.Prelude.{
  ℕ, suc, ◌+◌, Bool, true, false, not, ◌&&◌, ◌||◌, Option, none, some, List, [], ◌∷◌, ◌++◌, map,
  ltb, ◌==◌, if◌then◌else◌, length,
}
use robot_ethercat_master_ig.Profiles
use robot_ethercat_master_ig.Profiles.{MotorConfig}
use robot_ethercat_master_ig.Profiles.Resolve.{is_sri_m8126}
use robot_ethercat_master_ig.Servo.{Servo}
use robot_ethercat_master_ig.Servo.Startup.{deactivate}

pub data MotionPolicy : Type 0 where
  observation_only supervised_motion commissioning : MotionPolicy

abbrev pub is_supervised_motion : MotionPolicy → Bool
is_supervised_motion MotionPolicy.supervised_motion = true
is_supervised_motion _ = false

unfoldable pub motion_policy_allows_drive_configuration : MotionPolicy → Bool
motion_policy_allows_drive_configuration MotionPolicy.commissioning = true
motion_policy_allows_drive_configuration policy = is_supervised_motion policy

unfoldable pub motion_policy_authorizes_commands : MotionPolicy → Bool → Bool
motion_policy_authorizes_commands policy startup_evidence_passed =
    is_supervised_motion policy && startup_evidence_passed

-- The interface's own layouts.
pub data PdoLayout : Type 0 where
  unknown joint_module gateway cool_drive_jmdt sri_m8126 : PdoLayout

pub record AxisConfig : Type 0 where
  pub joint_name : String
  pub alias : ℕ  -- uint16_t
  pub position : ℕ  -- uint16_t
  pub vendor_id : ℕ  -- uint32_t
  pub product_code : ℕ  -- uint32_t
  pub model_id : String
  pub pdo_layout : PdoLayout

pub data AxisConfigError : Type 0 where
  no_error axis_count_out_of_range empty_joint_name missing_identity duplicate_joint_name
        duplicate_bus_address :
      AxisConfigError

-- The inner loop over the axes before the candidate.
unfoldable pub check_previous : AxisConfig → List AxisConfig → AxisConfigError
check_previous candidate [] = AxisConfigError.no_error
check_previous candidate (previous ∷ rest) =
    let later = check_previous candidate rest in
    if str_eq previous.joint_name candidate.joint_name
    then AxisConfigError.duplicate_joint_name
    else if previous.alias == candidate.alias && previous.position == candidate.position
    then AxisConfigError.duplicate_bus_address
    else later

abbrev pub first_error : AxisConfigError → AxisConfigError → AxisConfigError
first_error AxisConfigError.no_error later = later
first_error e later = e

-- The outer loop: `done` are the axes before.
unfoldable pub check_axes : List AxisConfig → List AxisConfig → AxisConfigError
unfolding check_previous
check_axes done [] = AxisConfigError.no_error
check_axes done (candidate ∷ rest) =
    let later = check_axes (done ++ candidate ∷ []) rest in
    if str_eq candidate.joint_name ""
    then AxisConfigError.empty_joint_name
    else if candidate.vendor_id == 0 || candidate.product_code == 0
    then AxisConfigError.missing_identity
    else first_error (check_previous candidate done) later

unfoldable pub validate_axis_configs : List AxisConfig → AxisConfigError
unfolding check_axes
validate_axis_configs axes =
    if ltb 7 (length axes) then AxisConfigError.axis_count_out_of_range else check_axes [] axes

abbrev pub is_sri_layout : PdoLayout → Bool
is_sri_layout PdoLayout.sri_m8126 = true
is_sri_layout _ = false

unfoldable pub validate_bus_slaves : List AxisConfig → Bool
validate_bus_slaves [] = true
validate_bus_slaves (slave ∷ rest) =
    not (slave.vendor_id == 0 || slave.product_code == 0)
    && (is_sri_layout slave.pdo_layout && validate_bus_slaves rest)

abbrev to_motor_layout : PdoLayout → Profiles.PdoLayout
to_motor_layout PdoLayout.joint_module = Profiles.PdoLayout.joint_module
to_motor_layout PdoLayout.gateway = Profiles.PdoLayout.gateway
to_motor_layout PdoLayout.cool_drive_jmdt = Profiles.PdoLayout.cooldrive_jmdt
to_motor_layout PdoLayout.sri_m8126 = Profiles.PdoLayout.sri_m8126
to_motor_layout PdoLayout.unknown = Profiles.PdoLayout.unknown

unfoldable pub to_motor_config : AxisConfig → MotorConfig
to_motor_config axis = record {
  alias = axis.alias;
  position = axis.position;
  vendor_id = axis.vendor_id;
  product_code = axis.product_code;
  name = axis.joint_name;
  model_id = axis.model_id;
  pdo_layout = to_motor_layout axis.pdo_layout;
}

pub record Master : Type 0 where
  pub servo : Option Servo
  pub axes : List AxisConfig
  pub joint_names : List String
  pub initialized : Bool
  pub mapped : Bool
  pub running : Bool
  pub motion_policy : MotionPolicy
  pub startup_evidence_passed : Bool
  pub motion_commands_authorized : Bool
  pub force_sensor_slave_index : Option ℕ  -- `none` for -1

-- `Master::Master`, with the servo that it makes.
abbrev pub new_master : Servo → MotionPolicy → Master
new_master servo policy = record {
  servo = some servo;
  axes = [];
  joint_names = [];
  initialized = false;
  mapped = false;
  running = false;
  motion_policy = policy;
  startup_evidence_passed = false;
  motion_commands_authorized = false;
  force_sensor_slave_index = none;
}

abbrev pub found {ℓ} : {A : Type ℓ} → Option A → Bool
found none = false
found (some a) = true

unfoldable pub init : Master → Master × Bool
init m =
    if m.initialized
    then (m, true)
    else if not (found m.servo)
    then (m, false)
    else (record m { initialized = true }, true)

-- The index of the force sensor, and whether there is no second one.
unfoldable pub find_force_sensor : ℕ → Option ℕ → List MotorConfig → Option ℕ × Bool
find_force_sensor i at_index [] = (at_index, true)
find_force_sensor i at_index (cfg ∷ rest) =
    let with_this = find_force_sensor (suc i) (some i) rest in
    let without = find_force_sensor (suc i) at_index rest in
    if is_sri_m8126 cfg then (if found at_index then (at_index, false) else with_this) else without

abbrev pub empty_configs : List AxisConfig → Bool
empty_configs [] = true
empty_configs _ = false

-- `initialize_servo` is `EtherCATServo::initialize` with the answers that it meets.
unfoldable pub map_servo :
    (List MotorConfig → Servo → Bool × Servo)
    → List AxisConfig
    → List AxisConfig
    → Servo
    → Master
    → Master × Bool
unfolding to_motor_config find_force_sensor
map_servo initialize_servo axes bus_slaves s m =
    let motors = map to_motor_config axes ++ map to_motor_config bus_slaves in
    let (sensor, single) = find_force_sensor 0 none motors in
    let named = record m {
      joint_names = map (λ axis. axis.joint_name) axes;
      force_sensor_slave_index = sensor;
    } in
    let (ok, s') = initialize_servo motors s in
    if not single
    then (record named { mapped = false }, false)
    else if not ok
    then (record named { servo = some s'; mapped = false }, false)
    else (record named { servo = some s'; axes = axes; mapped = true }, true)

abbrev pub is_no_error : AxisConfigError → Bool
is_no_error AxisConfigError.no_error = true
is_no_error _ = false

unfoldable pub map_joints :
    (List MotorConfig → Servo → Bool × Servo)
    → List AxisConfig
    → List AxisConfig
    → Master
    → Master × Bool
unfolding validate_axis_configs validate_bus_slaves map_servo
map_joints initialize_servo axes bus_slaves m = elim m.servo [
  | none ↦ (m, false)
  | some s ↦
      if not (is_no_error (validate_axis_configs axes))
        || (not (validate_bus_slaves bus_slaves) || empty_configs axes && empty_configs bus_slaves)
      then (m, false)
      else map_servo initialize_servo axes bus_slaves s m
]

-- `if (servo_)`
abbrev pub on_servo : (Servo → Servo) → Option Servo → Option Servo
on_servo f none = none
on_servo f (some s) = some (f s)

unfoldable pub shutdown : Master → Master
unfolding deactivate
shutdown m = record m {
  running = false;
  servo = on_servo deactivate m.servo;
  mapped = false;
  initialized = false;
}
