-- ===== src/Profiles.antt =====
-- src/ethercat_master_igh/src/motor/motor_profile.cpp and its header: the motors that the program
-- knows, found by model or by identity; and what ethercat_servo.cpp takes from them for the clock of a
-- slave. The numbers that the code gives as doubles are over the type of Kinematics.
pub mod Registry
pub mod Table
pub mod Resolve
mod Tests
use Prim.Native.String.{String}
use text.Mathlib.Text.{◌==◌ as str_eq}
use robot_ethercat_master_ig.Prelude.{
  ℕ, Bool, true, false, not, ◌&&◌, ◌||◌, Option, none, some, List, [], ◌∷◌, ◌++◌, ltb, ◌==◌,
  if◌then◌else◌,
}
use robot_ethercat_master_ig.Prelude.Int.{ℤ, pos}
use robot_ethercat_master_ig.Kinematics.{MotorKinematicsParams}

pub data PdoLayout : Type 0 where
  unknown joint_module gateway cooldrive_jmdt sri_m8126 : PdoLayout

pub record SlaveIdentity : Type 0 where
  pub vendor_id : ℕ  -- uint32_t
  pub product_code : ℕ  -- uint32_t

pub record MotorProfile {ℓ} (R : Type ℓ) : Type ℓ where
  pub model_id : String
  pub display_name : String
  pub identities : List SlaveIdentity
  pub pdo_layout : PdoLayout
  pub kinematics : MotorKinematicsParams R
  pub velocity_limit_deg_s : R
  pub dc_shift_ns : ℕ  -- uint32_t
  pub dc_sync0_ns : ℕ  -- uint32_t
  pub dc_assign_activate : ℕ  -- uint16_t
  pub require_interpolation_period_gate : Bool
  pub fault_reset_control_word : ℕ  -- uint16_t

abbrev pub pdo_layout_name : PdoLayout → String
pdo_layout_name PdoLayout.joint_module = "joint_module"
pdo_layout_name PdoLayout.gateway = "gateway"
pdo_layout_name PdoLayout.cooldrive_jmdt = "cooldrive_jmdt"
pdo_layout_name PdoLayout.sri_m8126 = "sri_m8126"
pdo_layout_name PdoLayout.unknown = "unknown"

unfoldable pub identity_equal : SlaveIdentity → SlaveIdentity → Bool
identity_equal a b = a.vendor_id == b.vendor_id && a.product_code == b.product_code

-- Whether one of the identities is the given one.
unfoldable pub lists : List SlaveIdentity → SlaveIdentity → Bool
unfolding identity_equal
lists [] needle = false
lists (id ∷ ids) needle = identity_equal id needle || lists ids needle

-- The identities of a profile behind those collected so far, without those that are there already.
unfoldable pub collect : List SlaveIdentity → List SlaveIdentity → List SlaveIdentity
unfolding lists
collect out [] = out
collect out (id ∷ ids) = collect (if lists out id then out else out ++ id ∷ []) ids

module _ {ℓ} {R : Type ℓ} where
  unfoldable pub find_model : List (MotorProfile R) → String → Option (MotorProfile R)
  find_model [] model_id = none
  find_model (p ∷ ps) model_id =
      let rest = find_model ps model_id in if str_eq p.model_id model_id then some p else rest

  unfoldable pub find_identity : List (MotorProfile R) → SlaveIdentity → Option (MotorProfile R)
  unfolding lists
  find_identity [] needle = none
  find_identity (p ∷ ps) needle =
      let rest = find_identity ps needle in if lists p.identities needle then some p else rest

  unfoldable pub collect_all : List SlaveIdentity → List (MotorProfile R) → List SlaveIdentity
  unfolding collect
  collect_all out [] = out
  collect_all out (p ∷ ps) = collect_all (collect out p.identities) ps

-- `MotorConfig`: what a bus position is configured as.
pub record MotorConfig : Type 0 where
  pub alias : ℕ  -- uint16_t
  pub position : ℕ  -- uint16_t
  pub vendor_id : ℕ  -- uint32_t
  pub product_code : ℕ  -- uint32_t
  pub name : String
  pub model_id : String
  pub pdo_layout : PdoLayout
