-- ===== src/Profiles/Table.antt =====
-- src/ethercat_master_igh/src/motor/motor_profile.cpp: the table of the known motors and the
-- functions of the registry on it.
use Prim.Native.String.{String}
use robot_ethercat_master_ig.Prelude.{ℕ, Bool, true, false, not, Option, none, some, List, [], ◌∷◌}
use robot_ethercat_master_ig.Kinematics.{Doubles, MotorKinematicsParams, default_params, whole}
use robot_ethercat_master_ig.Profiles.{
  PdoLayout, SlaveIdentity, MotorProfile, find_model, find_identity, collect_all,
}

module _ {ℓ} {R : Type ℓ} (d : Doubles R) where
  abbrev pub nh17_kinematics : MotorKinematicsParams R
  nh17_kinematics = record (default_params d) {
    gear_ratio = whole d 101;
    encoder_resolution = whole d 65536;
    motor_encoder_resolution = whole d 65536;
    output_side_encoder = false;
    velocity_on_motor_encoder = true;
    rated_torque_motor = d.decimal 297 3;
    max_current_ma = whole d 4602;
    torque_constant_kt = d.decimal 30 3;
    gear_efficiency = d.decimal 6 1;
  }

  abbrev pub sjd17_kinematics : MotorKinematicsParams R
  sjd17_kinematics = record (default_params d) {
    gear_ratio = whole d 1;
    torque_gear_ratio = whole d 120;
    encoder_resolution = whole d 524288;
    output_side_encoder = true;
    rated_torque_motor = d.div (whole d 112) (whole d 120);
    max_current_ma = whole d 0;
    torque_constant_kt = d.decimal 1075 4;
    gear_efficiency = whole d 1;
  }

  abbrev pub pmslm_linear_kinematics : MotorKinematicsParams R
  pmslm_linear_kinematics = record (default_params d) {
    gear_ratio = whole d 1;
    torque_gear_ratio = whole d 1;
    encoder_resolution = whole d 360000;
    motor_encoder_resolution = whole d 360000;
    output_side_encoder = true;
    velocity_on_motor_encoder = false;
    rated_torque_motor = d.decimal 156 1;
    max_current_ma = whole d 0;
    torque_constant_kt = whole d 0;
    gear_efficiency = whole d 1;
  }

  abbrev pub jmdt_kinematics : MotorKinematicsParams R
  jmdt_kinematics = record (default_params d) {
    gear_ratio = whole d 120;
    torque_gear_ratio = whole d 120;
    encoder_resolution = whole d 1048576;
    motor_encoder_resolution = whole d 1048576;
    output_side_encoder = false;
    velocity_on_motor_encoder = true;
    rated_torque_motor = d.decimal 75 2;
    max_current_ma = whole d 0;
    torque_constant_kt = whole d 0;
    gear_efficiency = whole d 1;
  }

  -- The members' defaults, where a profile gives no other.
  abbrev pub plain : String → String → ℕ → ℕ → PdoLayout → MotorProfile R
  plain model_id display_name vendor_id product_code layout = record {
    model_id = model_id;
    display_name = display_name;
    identities = record { vendor_id = vendor_id; product_code = product_code } ∷ [];
    pdo_layout = layout;
    kinematics = default_params d;
    velocity_limit_deg_s = whole d 246;
    dc_shift_ns = 0;
    dc_sync0_ns = 0;
    dc_assign_activate = 0x0300;
    require_interpolation_period_gate = true;
    fault_reset_control_word = 0x86;
  }

  abbrev pub force_sensor : String → String → ℕ → MotorProfile R
  force_sensor model_id display_name product_code =
      record (plain model_id display_name 0x00000E53 product_code PdoLayout.sri_m8126) {
        velocity_limit_deg_s = whole d 0;
        dc_assign_activate = 0x0000;
        require_interpolation_period_gate = false;
      }

  abbrev pub k_profiles : List (MotorProfile R)
  k_profiles =
      record (plain "NH17-100-BT-48E" "新奇 NH17-100-BT-48E 关节模组" 0x00522227 0x00009253
        PdoLayout.joint_module) { kinematics = nh17_kinematics; dc_sync0_ns = 2000000 }
      ∷ record (plain "SJD-17-120-NN-S00" "三木禾 SJD-17-120-NN-S00 关节模组" 0x000009CF 0x00010001
          PdoLayout.joint_module) {
            kinematics = sjd17_kinematics;
            velocity_limit_deg_s = whole d 225;
            dc_sync0_ns = 2000000;
            require_interpolation_period_gate = false;
          }
      ∷ record (plain "PMSLM-LINEAR" "并联直线电机 PMSLM（1°:=1mm，脉冲/mm=1000）" 0x00418108 0x00009252
          PdoLayout.joint_module) {
            kinematics = pmslm_linear_kinematics;
            velocity_limit_deg_s = whole d 500;
            dc_assign_activate = 0x0000;
          }
      ∷ record (plain "COOLDRIVE-JMDT" "CoolDrive JMDT 关节模组（天机 Marvin）" 0x00000748 0x00000019
          PdoLayout.cooldrive_jmdt) {
            kinematics = jmdt_kinematics;
            velocity_limit_deg_s = whole d 180;
            dc_shift_ns = 720000;
            dc_sync0_ns = 2000000;
            fault_reset_control_word = 0x80;
          }
      ∷ force_sensor "SRI-M8126f32" "宇立 SRI M8126f32 六维力信号处理器（PDO REAL）" 0x00081261
      ∷ force_sensor "SRI-M8126i32" "宇立 SRI M8126i32 六维力信号处理器（PDO DINT）" 0x00081260
      ∷ force_sensor "SRI-M8229f32" "宇立 SRI M8229f32 六维力信号处理器（PDO REAL）" 0x00082291
      ∷ []

  unfoldable pub find_by_model_id : String → Option (MotorProfile R)
  unfolding find_model
  find_by_model_id model_id = find_model k_profiles model_id

  unfoldable pub find_by_identity : ℕ → ℕ → Option (MotorProfile R)
  unfolding find_identity
  find_by_identity vendor_id product_code =
      find_identity k_profiles record { vendor_id = vendor_id; product_code = product_code }

  unfoldable pub all_motor_identities : List SlaveIdentity
  unfolding collect_all
  all_motor_identities = collect_all [] k_profiles

  abbrev pub is_force_sensor : PdoLayout → Bool
  is_force_sensor PdoLayout.sri_m8126 = true
  is_force_sensor _ = false

  unfoldable pub is_known_motor : ℕ → ℕ → Bool
  unfolding find_by_identity
  is_known_motor vendor_id product_code = elim (find_by_identity vendor_id product_code) [
    | none ↦ false
    | some p ↦ not (is_force_sensor p.pdo_layout)
  ]
