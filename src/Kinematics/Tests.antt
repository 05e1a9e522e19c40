-- ===== src/Kinematics/Tests.antt =====
-- The conversions over the integers, for an encoder with one count per turn.
use robot_ethercat_master_ig.Prelude.{◌≡◌, refl, true, arith}
use robot_ethercat_master_ig.Prelude.Int.{ℤ, pos, negsuc, ◌*ℤ◌, quot_ℤ, +ℤ_cancel}
use robot_ethercat_master_ig.Kinematics.{
  MotorKinematicsParams, default_params, pulse_to_degree, degree_to_pulse, encoder_factor,
}
use robot_ethercat_master_ig.Kinematics.Samples.{integers}
use robot_ethercat_master_ig.Kinematics.RoundTrip.{IsExact, degree_to_pulse-pulse_to_degree}

abbrev rail : MotorKinematicsParams ℤ
rail = record (default_params integers) {
  encoder_resolution = pos 1;
  output_side_encoder = true;
  position_offset_deg = pos 90;
}

turns_cancel : (x : ℤ) → quot_ℤ (x *ℤ pos 360) 360 ≡ x
unfolding quot_ℤ ◌*ℤ◌
turns_cancel x = ground arith

same_cancel : (x : ℤ) → quot_ℤ (x *ℤ pos 1) 1 ≡ x
unfolding quot_ℤ ◌*ℤ◌
same_cancel x = ground arith

one_cancel : (x : ℤ) → quot_ℤ x 1 *ℤ pos 1 ≡ x
unfolding quot_ℤ ◌*ℤ◌
one_cancel x = ground arith

rail-IsExact :
    IsExact integers (encoder_factor integers rail) rail.joint_direction rail.position_offset_deg
unfolding encoder_factor
rail-IsExact = record {
  offset_cancels = λ x. +ℤ_cancel x (pos 90);
  direction_cancels = λ x. same_cancel x;
  revolution_cancels = λ x. turns_cancel x;
  factor_cancels = λ x. one_cancel x;
  int_cancels = λ n. refl;
}

rail_angle_returns :
    degree_to_pulse integers rail (pulse_to_degree integers rail (negsuc 6)) ≡ negsuc 6
rail_angle_returns = degree_to_pulse-pulse_to_degree integers rail (negsuc 6) rail-IsExact
