-- ===== src/Servo/LoadKinematics.antt =====
-- src/ethercat_master_igh/src/master/igh/ethercat_servo.cpp: `tryLoadKinematicsFromSdo`, which takes the
-- conversions' numbers from the profiles or from the drives. What the drives answer is an argument, by
-- bus position, index and subindex.
pub mod Kept
use robot_ethercat_master_ig.Prelude.{
  ℕ, zero, suc, ◌+◌, ◌<◌, ◌≡◌, ◌⊎◌, inl, inr, refl, sym, subst, ◌∙◌, Bool, true, false, not, ◌||◌,
  ◌==◌, Option, none, some, List, [], ◌∷◌, ltb, length, if_both, if◌then◌else◌, arith,
}
use robot_ethercat_master_ig.Prelude.Int.{pos}
use robot_ethercat_master_ig.Kinematics.{Doubles, MotorKinematicsParams, whole, get, set_params}
use robot_ethercat_master_ig.Profiles.{MotorConfig, MotorProfile}
use robot_ethercat_master_ig.Profiles.Table.{find_by_identity}
use robot_ethercat_master_ig.Profiles.Resolve.{is_cool_drive_jmdt_motor}
use robot_ethercat_master_ig.Axis.{is_non_motion_slave}
use robot_ethercat_master_ig.Pdo.{is_sjd17}

module _ {ℓ} {R : Type ℓ} (d : Doubles R) where
  -- What a profile gives; the loop notes that something is new.
  unfoldable pub from_profile :
      Option (MotorProfile R) → MotorKinematicsParams R → MotorKinematicsParams R × Bool
  from_profile none p = (p, false)
  from_profile (some profile) p = (
    record p {
      gear_ratio = profile.kinematics.gear_ratio;
      torque_gear_ratio = profile.kinematics.torque_gear_ratio;
      encoder_resolution = profile.kinematics.encoder_resolution;
      output_side_encoder = profile.kinematics.output_side_encoder;
    },
    true,
  )

  -- Object 0x200E:2; 0 counts as no answer.
  unfoldable pub take_gear :
      Option ℕ → MotorKinematicsParams R × Bool → MotorKinematicsParams R × Bool
  take_gear none t = t
  take_gear (some raw) t =
      if ltb 0 raw then (record t.0 { gear_ratio = d.of_int (pos raw) }, true) else t

  -- Object 0x2016: the outer or the inner encoder.
  unfoldable pub take_position_mode :
      Option ℕ → MotorKinematicsParams R × Bool → MotorKinematicsParams R × Bool
  take_position_mode none t = t
  take_position_mode (some mode) t =
      if mode == 0
      then (record t.0 { encoder_resolution = whole d 262144; output_side_encoder = true }, true)
      else if mode == 2
      then (record t.0 { encoder_resolution = whole d 65536; output_side_encoder = false }, true)
      else t

  -- Object 0x6075; 0 counts as no answer.
  unfoldable pub take_max_current :
      Option ℕ → MotorKinematicsParams R × Bool → MotorKinematicsParams R × Bool
  take_max_current none t = t
  take_max_current (some raw) t =
      if ltb 0 raw then (record t.0 { max_current_ma = d.of_int (pos raw) }, true) else t

  -- One slave, by its configuration and its answers.
  unfoldable pub load_slave :
      (ℕ → ℕ → Option ℕ) → MotorConfig → MotorKinematicsParams R → MotorKinematicsParams R × Bool
  unfolding from_profile take_gear take_position_mode take_max_current
  load_slave upload cfg p =
      if is_non_motion_slave cfg
      then (p, false)
      else if is_sjd17 cfg || is_cool_drive_jmdt_motor cfg
      then from_profile (find_by_identity d cfg.vendor_id cfg.product_code) p
      else take_max_current (upload 0x6075 0)
          (take_position_mode (upload 0x2016 0) (take_gear (upload 0x200E 2) (p, false)))

  -- From index `i` on: the numbers, and whether something is new.
  unfoldable pub load_slaves :
      (ℕ → ℕ → ℕ → Option ℕ)
      → List (MotorKinematicsParams R)
      → ℕ
      → List MotorConfig
      → List (MotorKinematicsParams R) × Bool
  unfolding load_slave
  load_slaves upload g_params i [] = ([], false)
  load_slaves upload g_params i (cfg ∷ rest) =
      let one = load_slave (upload cfg.position) cfg (get d g_params i) in
      let later = load_slaves upload g_params (i + 1) rest in (one.0 ∷ later.0, one.1 || later.1)

  -- `ready`: initialised, with a master.
  unfoldable pub try_load_kinematics_from_sdo :
      (ℕ → ℕ → ℕ → Option ℕ)
      → Bool
      → List MotorConfig
      → List (MotorKinematicsParams R)
      → List (MotorKinematicsParams R) × Bool
  unfolding load_slaves
  try_load_kinematics_from_sdo upload ready cfgs g_params =
      let loaded = load_slaves upload g_params 0 cfgs in
      if not ready
      then (g_params, false)
      else if loaded.1
      then (set_params g_params loaded.0, true)
      else (g_params, false)
