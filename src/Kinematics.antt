-- ===== src/Kinematics.antt =====
-- src/ethercat_master_igh/src/motor/motor_kinematics.cpp and its header: the conversions between what
-- the process image carries and degrees, torques and currents. Doubles are a parameter: a type with the
-- operations that the code applies, about which the definitions assume nothing.
pub mod RoundTrip
pub mod Samples
mod Tests
use robot_ethercat_master_ig.Prelude.{
  ℕ, ◌+◌, Bool, true, false, not, ◌&&◌, ◌||◌, List, [], ◌∷◌, if◌then◌else◌, ◌==◌, length, get_or,
}
use robot_ethercat_master_ig.Prelude.Int.{ℤ, pos, negsuc}

-- `decimal a b` is the literal a / 10^b. `to_int32` cuts towards zero; `lround` rounds.
pub record Doubles {ℓ} (R : Type ℓ) : Type ℓ where
  pub add : R → R → R
  pub sub : R → R → R
  pub mul : R → R → R
  pub div : R → R → R
  pub lt : R → R → Bool
  pub le : R → R → Bool
  pub equal : R → R → Bool
  pub of_int : ℤ → R
  pub decimal : ℕ → ℕ → R
  pub to_int32 : R → ℤ
  pub lround : R → ℤ

pub record MotorKinematicsParams {ℓ} (R : Type ℓ) : Type ℓ where
  pub gear_ratio : R
  pub torque_gear_ratio : R
  pub encoder_resolution : R
  pub motor_encoder_resolution : R
  pub output_side_encoder : Bool
  pub velocity_on_motor_encoder : Bool
  pub rated_torque_motor : R
  pub max_current_ma : R
  pub torque_constant_kt : R
  pub gear_efficiency : R
  pub position_offset_deg : R
  pub joint_direction : R

module _ {ℓ} {R : Type ℓ} (d : Doubles R) where
  abbrev pub whole : ℕ → R
  whole n = d.decimal n 0

  abbrev pub default_params : MotorKinematicsParams R
  default_params = record {
    gear_ratio = whole 101;
    torque_gear_ratio = whole 101;
    encoder_resolution = whole 65536;
    motor_encoder_resolution = whole 65536;
    output_side_encoder = false;
    velocity_on_motor_encoder = false;
    rated_torque_motor = d.decimal 297 3;
    max_current_ma = whole 4602;
    torque_constant_kt = d.decimal 30 3;
    gear_efficiency = d.decimal 6 1;
    position_offset_deg = whole 0;
    joint_direction = whole 1;
  }

  unfoldable pub infer_output_side_encoder : R → Bool
  infer_output_side_encoder resolution = d.le (whole 200000) resolution

  unfoldable pub encoder_factor : MotorKinematicsParams R → R
  encoder_factor p =
      if p.output_side_encoder
      then p.encoder_resolution
      else d.mul p.gear_ratio p.encoder_resolution

  unfoldable pub velocity_encoder_factor : MotorKinematicsParams R → R
  unfolding encoder_factor
  velocity_encoder_factor p =
      if p.velocity_on_motor_encoder
      then d.mul p.gear_ratio (
          if d.lt (whole 0) p.motor_encoder_resolution
          then p.motor_encoder_resolution
          else whole 65536)
      else encoder_factor p

  unfoldable pub use_current_based_torque_formula : MotorKinematicsParams R → Bool
  use_current_based_torque_formula p =
      d.lt (whole 0) p.max_current_ma && d.lt (whole 0) p.torque_constant_kt

  unfoldable pub output_torque_scale : MotorKinematicsParams R → R
  unfolding use_current_based_torque_formula
  output_torque_scale p =
      if use_current_based_torque_formula p
      then d.mul
          (d.mul (d.mul (d.div p.max_current_ma (whole 1000)) p.torque_constant_kt)
            p.torque_gear_ratio)
          p.gear_efficiency
      else d.mul p.rated_torque_motor p.torque_gear_ratio

  abbrev pub degrees_per_revolution : R
  degrees_per_revolution = whole 360

  abbrev pub radians_per_revolution : R
  radians_per_revolution = d.decimal 6283185307179586 15

  unfoldable pub pulse_to_degree : MotorKinematicsParams R → ℤ → R
  unfolding encoder_factor
  pulse_to_degree p pulse =
      d.add
        (d.mul (d.mul (d.div (d.of_int pulse) (encoder_factor p)) degrees_per_revolution)
          p.joint_direction)
        p.position_offset_deg

  unfoldable pub degree_to_pulse : MotorKinematicsParams R → R → ℤ
  unfolding encoder_factor
  degree_to_pulse p degree =
      let motor_degree = d.div (d.sub degree p.position_offset_deg) p.joint_direction in
      d.to_int32 (d.mul (d.div motor_degree degrees_per_revolution) (encoder_factor p))

  unfoldable pub pulse_to_radian : MotorKinematicsParams R → ℤ → R
  unfolding pulse_to_degree
  pulse_to_radian p pulse =
      d.div (d.mul (pulse_to_degree p pulse) radians_per_revolution) degrees_per_revolution

  unfoldable pub radian_to_pulse : MotorKinematicsParams R → R → ℤ
  unfolding encoder_factor
  radian_to_pulse p radian =
      let offset =
        d.div (d.mul p.position_offset_deg radians_per_revolution) degrees_per_revolution in
      let motor_rad = d.div (d.sub radian offset) p.joint_direction in
      d.to_int32 (d.mul (d.div motor_rad radians_per_revolution) (encoder_factor p))

  unfoldable pub pulse_per_sec_to_degree_per_sec : MotorKinematicsParams R → ℤ → R
  unfolding velocity_encoder_factor
  pulse_per_sec_to_degree_per_sec p pulse_per_sec =
      d.mul
        (d.mul (d.div (d.of_int pulse_per_sec) (velocity_encoder_factor p)) degrees_per_revolution)
        p.joint_direction

  unfoldable pub degree_per_sec_to_pulse_per_sec : MotorKinematicsParams R → R → ℤ
  unfolding velocity_encoder_factor
  degree_per_sec_to_pulse_per_sec p degree_per_sec = d.to_int32 (
      d.mul (d.div (d.div degree_per_sec p.joint_direction) degrees_per_revolution)
        (velocity_encoder_factor p))

  unfoldable pub output_rpm_to_degree_per_sec : R → R
  output_rpm_to_degree_per_sec output_rpm =
      d.div (d.mul output_rpm degrees_per_revolution) (whole 60)

  unfoldable pub degree_per_sec_to_output_rpm : R → R
  degree_per_sec_to_output_rpm degree_per_sec =
      d.div (d.mul degree_per_sec (whole 60)) degrees_per_revolution

  abbrev pub motor_encoder : MotorKinematicsParams R → R
  motor_encoder p =
      if d.lt (whole 0) p.motor_encoder_resolution
      then p.motor_encoder_resolution
      else p.encoder_resolution

  unfoldable pub motor_rpm_to_pulse_per_sec : MotorKinematicsParams R → R → ℤ
  motor_rpm_to_pulse_per_sec p motor_rpm =
      d.to_int32 (d.mul (d.mul (d.div motor_rpm (whole 60)) (motor_encoder p)) p.joint_direction)

  unfoldable pub pulse_per_sec_to_motor_rpm : MotorKinematicsParams R → ℤ → R
  pulse_per_sec_to_motor_rpm p pulse_per_sec =
      if d.le (motor_encoder p) (whole 0)
      then whole 0
      else d.div (d.mul (d.div (d.of_int pulse_per_sec) (motor_encoder p)) (whole 60))
          p.joint_direction

  unfoldable pub output_rpm_to_pulse_per_sec : MotorKinematicsParams R → R → ℤ
  unfolding degree_per_sec_to_pulse_per_sec output_rpm_to_degree_per_sec
  output_rpm_to_pulse_per_sec p output_rpm =
      degree_per_sec_to_pulse_per_sec p (output_rpm_to_degree_per_sec output_rpm)

  unfoldable pub pulse_per_sec_to_output_rpm : MotorKinematicsParams R → ℤ → R
  unfolding degree_per_sec_to_output_rpm pulse_per_sec_to_degree_per_sec
  pulse_per_sec_to_output_rpm p pulse_per_sec =
      degree_per_sec_to_output_rpm (pulse_per_sec_to_degree_per_sec p pulse_per_sec)

  unfoldable pub raw_torque_to_motor_torque : MotorKinematicsParams R → ℤ → R
  unfolding use_current_based_torque_formula
  raw_torque_to_motor_torque p torque_raw =
      if use_current_based_torque_formula p
      then d.mul
          (d.div (d.mul (d.div (d.of_int torque_raw) (whole 1000)) p.max_current_ma) (whole 1000))
          p.torque_constant_kt
      else d.mul (d.div (d.of_int torque_raw) (whole 1000)) p.rated_torque_motor

  unfoldable pub raw_torque_to_output_torque : MotorKinematicsParams R → ℤ → R
  unfolding output_torque_scale
  raw_torque_to_output_torque p torque_raw =
      d.mul (d.mul (d.div (d.of_int torque_raw) (whole 1000)) (output_torque_scale p))
        p.joint_direction

  -- `std::clamp(permille, -32768.0, 32767.0)`
  abbrev pub clamp_permille : R → R
  clamp_permille permille =
      if d.lt permille (d.of_int (negsuc 32767))
      then d.of_int (negsuc 32767)
      else if d.lt (d.of_int (pos 32767)) permille
      then d.of_int (pos 32767)
      else permille

  unfoldable pub output_torque_to_raw : MotorKinematicsParams R → R → ℤ
  unfolding output_torque_scale
  output_torque_to_raw p output_torque_nm =
      let scale = output_torque_scale p in
      if d.le scale (whole 0) || d.equal p.joint_direction (whole 0)
      then pos 0
      else d.lround (
          clamp_permille
            (d.mul (d.div (d.div output_torque_nm p.joint_direction) scale) (whole 1000)))

  unfoldable pub current_ampere_to_raw : MotorKinematicsParams R → R → ℤ
  unfolding use_current_based_torque_formula output_torque_scale
  current_ampere_to_raw p current_a =
      let imax_a = d.div p.max_current_ma (whole 1000) in
      let motor_nm =
        d.mul (d.mul (d.mul current_a p.torque_constant_kt) p.torque_gear_ratio)
          p.gear_efficiency in
      let scale = output_torque_scale p in
      if use_current_based_torque_formula p
      then if d.le imax_a (whole 0)
        then pos 0
        else d.lround (clamp_permille (d.mul (d.div current_a imax_a) (whole 1000)))
      else if d.le scale (whole 0)
      then pos 0
      else d.lround (clamp_permille (d.mul (d.div motor_nm scale) (whole 1000)))

  unfoldable pub raw_to_current_ampere : MotorKinematicsParams R → ℤ → R
  unfolding use_current_based_torque_formula raw_torque_to_motor_torque
  raw_to_current_ampere p torque_raw =
      if use_current_based_torque_formula p
      then d.div (d.mul (d.div (d.of_int torque_raw) (whole 1000)) p.max_current_ma) (whole 1000)
      else if d.le p.torque_constant_kt (whole 0)
      then whole 0
      else d.div (raw_torque_to_motor_torque p torque_raw) p.torque_constant_kt

  unfoldable pub current_to_output_torque_per_amp : MotorKinematicsParams R → R
  current_to_output_torque_per_amp p =
      if d.le p.torque_constant_kt (whole 0)
      then whole 0
      else d.mul (d.mul p.torque_constant_kt p.torque_gear_ratio) p.gear_efficiency

-- The parameters of all motors, `g_params`, which an empty list leaves as they are.
unfoldable pub set_params {ℓ} : {A : Type ℓ} → List A → List A → List A
set_params g_params [] = g_params
set_params g_params (p ∷ ps) = p ∷ ps

abbrev pub get {ℓ} :
    {R : Type ℓ} (d : Doubles R) → List (MotorKinematicsParams R) → ℕ → MotorKinematicsParams R
get d g_params motor_id = get_or g_params motor_id (default_params d)
