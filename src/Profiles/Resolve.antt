-- ===== src/Profiles/Resolve.antt =====
-- src/ethercat_master_igh/src/master/igh/ethercat_servo.cpp, the functions before the class: what the
-- profile of a slave says of its clock.
use Prim.Native.String.{String}
use text.Mathlib.Text.{◌==◌ as str_eq}
use robot_ethercat_master_ig.Prelude.{
  ℕ, ◌≡◌, ◌↔◌, Bool, true, false, not, ◌&&◌, ◌||◌, Option, none, some, refl, inl, inr, Option-cases,
  arith, ltb, ◌==◌, if◌then◌else◌,
}
use robot_ethercat_master_ig.Kinematics.{Doubles}
use robot_ethercat_master_ig.Profiles.{PdoLayout, MotorProfile, MotorConfig}
use robot_ethercat_master_ig.Profiles.Table.{find_by_model_id, find_by_identity}

abbrev pub gateway_vendor_id : ℕ
gateway_vendor_id = 0x00000130

abbrev pub gateway_product_code : ℕ
gateway_product_code = 0x01300060

abbrev pub sjd17_vendor_id : ℕ
sjd17_vendor_id = 0x000009CF

abbrev pub sjd17_product_code : ℕ
sjd17_product_code = 0x00010001

abbrev pub is_joint_module_motor : MotorConfig → Bool
is_joint_module_motor cfg = elim cfg.pdo_layout [ PdoLayout.joint_module ↦ true | _ ↦ false ]

abbrev pub is_cool_drive_jmdt_motor : MotorConfig → Bool
is_cool_drive_jmdt_motor cfg = elim cfg.pdo_layout [ PdoLayout.cooldrive_jmdt ↦ true | _ ↦ false ]

abbrev pub is_sri_m8126 : MotorConfig → Bool
is_sri_m8126 cfg = elim cfg.pdo_layout [ PdoLayout.sri_m8126 ↦ true | _ ↦ false ]

abbrev pub is_gateway : MotorConfig → Bool
is_gateway cfg = cfg.vendor_id == gateway_vendor_id && cfg.product_code == gateway_product_code

unfoldable pub device_type_name : MotorConfig → String
device_type_name cfg =
    if is_gateway cfg
    then "网关"
    else if is_sri_m8126 cfg
    then "宇立 SRI M8126"
    else if is_cool_drive_jmdt_motor cfg
    then "天机 JMDT 关节模组"
    else if cfg.vendor_id == sjd17_vendor_id && cfg.product_code == sjd17_product_code
    then "三木禾 SJD17 关节模组"
    else if is_joint_module_motor cfg
    then "新奇 NH17 关节模组"
    else "电机"

-- A profile's period, 0 standing for the bus's, and whether it agrees with the bus.
abbrev own_period : ℕ → ℕ → ℕ
own_period dc_sync0_ns bus_cycle_ns = if ltb 0 dc_sync0_ns then dc_sync0_ns else bus_cycle_ns

abbrev agrees : ℕ → ℕ → Bool
agrees dc_sync0_ns bus_cycle_ns =
    if ltb 0 dc_sync0_ns && not (dc_sync0_ns == bus_cycle_ns) then false else true

agrees_iff : (n bus : ℕ) → (agrees n bus ≡ true) ↔ (own_period n bus ≡ bus)
agrees_iff n bus = ground arith

module _ {ℓ} {R : Type ℓ} (d : Doubles R) where
  unfoldable pub resolve_motor_profile : MotorConfig → Option (MotorProfile R)
  unfolding find_by_model_id find_by_identity
  resolve_motor_profile cfg =
      let by_identity = find_by_identity d cfg.vendor_id cfg.product_code in
      if not (str_eq cfg.model_id "")
      then elim (find_by_model_id d cfg.model_id) [ none ↦ by_identity | some p ↦ some p ]
      else by_identity

  unfoldable pub resolve_dc_shift_ns : MotorConfig → ℕ
  unfolding resolve_motor_profile
  resolve_dc_shift_ns cfg = elim (resolve_motor_profile cfg) [
    | some profile ↦ profile.dc_shift_ns
    | none ↦ if is_joint_module_motor cfg || is_cool_drive_jmdt_motor cfg then 0 else 100000
  ]

  unfoldable pub resolve_dc_assign_activate : MotorConfig → ℕ
  unfolding resolve_motor_profile
  resolve_dc_assign_activate cfg = elim (resolve_motor_profile cfg) [
    | some profile ↦ profile.dc_assign_activate
    | none ↦ 0x0300
  ]

  unfoldable pub resolve_dc_sync0_ns : MotorConfig → ℕ → ℕ
  unfolding resolve_motor_profile
  resolve_dc_sync0_ns cfg bus_cycle_ns = elim (resolve_motor_profile cfg) [
    | some profile ↦ own_period profile.dc_sync0_ns bus_cycle_ns
    | none ↦ bus_cycle_ns
  ]

  unfoldable pub dc_sync0_matches_bus : MotorConfig → ℕ → Bool
  unfolding resolve_motor_profile
  dc_sync0_matches_bus cfg bus_cycle_ns = elim (resolve_motor_profile cfg) [
    | some profile ↦ agrees profile.dc_sync0_ns bus_cycle_ns
    | none ↦ true
  ]

  -- The check passes exactly for the bus cycles that the slave's own clock is then given.
  pub dc_sync0_matches_bus_iff :
      (cfg : MotorConfig) (bus_cycle_ns : ℕ)
      → (dc_sync0_matches_bus cfg bus_cycle_ns ≡ true)
        ↔ (resolve_dc_sync0_ns cfg bus_cycle_ns ≡ bus_cycle_ns)
  unfolding dc_sync0_matches_bus resolve_dc_sync0_ns
  dc_sync0_matches_bus_iff cfg bus_cycle_ns = elim (Option-cases (resolve_motor_profile cfg)) [
    | inl unknown ↦ rw (unknown, dc_sync0_matches_bus, resolve_dc_sync0_ns) (λ _. refl, λ _. refl)
    | inr (profile, known) ↦
        rw (known, dc_sync0_matches_bus, resolve_dc_sync0_ns)
          (agrees_iff profile.dc_sync0_ns bus_cycle_ns)
  ]
