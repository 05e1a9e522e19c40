-- ===== src/Pdo/Answers.antt =====
-- What `registerPDOEntries` of src/master/igh/ethercat_servo.cpp leaves in a drive's offsets.
use robot_ethercat_master_ig.Prelude.{
  ℕ, ◌≡◌, refl, Bool, true, false, Option, none, some, [], ◌∷◌, if◌then◌else◌, arith, Option-cases,
  inl, inr,
}
use robot_ethercat_master_ig.Profiles.{MotorConfig, PdoLayout}
use robot_ethercat_master_ig.Profiles.Resolve.{is_cool_drive_jmdt_motor}
use robot_ethercat_master_ig.Axis.{is_non_motion_slave}
use robot_ethercat_master_ig.Pdo.{Direction, is_sjd17}
use robot_ethercat_master_ig.Pdo.Offsets.{PdoOffsets, drive_start}
use robot_ethercat_master_ig.Pdo.Register.{
  Request, Plan, register_list, joint_plan, jmdt_plan, with_evidence, register_slave,
}

-- Each step of a plan was answered, and its answer put away.
abbrev pub Ran : (Request → Option ℕ) → Plan → PdoOffsets → PdoOffsets → Type 0
Ran f [] off end = end ≡ off
Ran f ((r, put) ∷ rest) off end = (o : ℕ) × (f r ≡ some o) × Ran f rest (put o off) end

pub register_list-Ran :
    (f : Request → Option ℕ) (plan : Plan) (off end : PdoOffsets)
    → register_list f plan off ≡ some end
    → Ran f plan off end
unfolding register_list
register_list-Ran f [] off end h = cc
register_list-Ran f ((r, put) ∷ rest) off end h = elim (Option-cases (f r)) [
  | inl refused ↦ absurd (ground (arith, h, refused))
  | inr (o, given) ↦ (o, given, register_list-Ran f rest (put o off) end (ground (arith, h, given)))
]

pub with_evidence-some :
    (cfg : MotorConfig) (o : Option PdoOffsets) (off : PdoOffsets)
    → with_evidence cfg o ≡ some off
    → o ≡ some off
unfolding with_evidence
with_evidence-some cfg none off h = cc
with_evidence-some cfg (some x) off h = ground (arith, h)

-- An object of a drive, as the library answered for it.
abbrev pub Answered : (Request → Option ℕ) → ℕ → Direction → ℕ → Type 0
Answered f index dir offset = f (Request.entry_at index 0 dir) ≡ some offset

-- The objects of CiA 402 that the cycle reads and writes.
pub record DriveRegistered (f : Request → Option ℕ) (off : PdoOffsets) : Type 0 where
  pub control_word : Answered f 0x6040 Direction.output off.control_word
  pub target_position : Answered f 0x607A Direction.output off.target_position
  pub target_velocity : Answered f 0x60FF Direction.output off.target_velocity
  pub target_torque : Answered f 0x6071 Direction.output off.target_torque
  pub operation_mode : Answered f 0x6060 Direction.output off.operation_mode
  pub status_word : Answered f 0x6041 Direction.input off.status_word
  pub actual_position : Answered f 0x6064 Direction.input off.actual_position
  pub actual_velocity : Answered f 0x606C Direction.input off.actual_velocity
  pub actual_torque : Answered f 0x6077 Direction.input off.actual_torque
  pub operation_mode_display : Answered f 0x6061 Direction.input off.operation_mode_display

pub jmdt-Registered :
    (f : Request → Option ℕ) (off : PdoOffsets)
    → Ran f jmdt_plan drive_start off
    → DriveRegistered f off
jmdt-Registered f off h = ground (arith, h)

-- The sensors of the load's torque and the motor's angle, and the error code, by the kind of drive: 0
-- stands for an object that the drive does not exchange.
abbrev pub SensorsRegistered : Bool → Bool → (Request → Option ℕ) → PdoOffsets → Type 0
SensorsRegistered true _ f off =
    Answered f 0x310B Direction.input off.sensor_force_2020
    × Answered f 0x3108 Direction.input off.motor_encoder_2021
    × (off.error_code ≡ 0)
SensorsRegistered false true f off =
    Answered f 0x2020 Direction.input off.sensor_force_2020
    × Answered f 0x2021 Direction.input off.motor_encoder_2021
    × (off.error_code ≡ 0)
SensorsRegistered false false f off =
    (off.sensor_force_2020 ≡ 0)
    × (off.motor_encoder_2021 ≡ 0)
    × Answered f 0x603F Direction.input off.error_code

jmdt-Sensors :
    (sjd17 : Bool) (f : Request → Option ℕ) (off : PdoOffsets)
    → Ran f jmdt_plan drive_start off
    → SensorsRegistered true sjd17 f off
jmdt-Sensors sjd17 f off h = ground (arith, h)

pub joint-Registered :
    (sjd17 : Bool) (f : Request → Option ℕ) (off : PdoOffsets)
    → Ran f (joint_plan sjd17) drive_start off
    → DriveRegistered f off
joint-Registered true f off h = ground (arith, h)
joint-Registered false f off h = ground (arith, h)

joint-Sensors :
    (sjd17 : Bool) (f : Request → Option ℕ) (off : PdoOffsets)
    → Ran f (joint_plan sjd17) drive_start off
    → SensorsRegistered false sjd17 f off
joint-Sensors true f off h = ground (arith, h)
joint-Sensors false f off h = ground (arith, h)

module _ (f : Request → Option ℕ) (configured use_float : Bool) (cfg : MotorConfig)
    (off : PdoOffsets) where
  -- Which plan a drive's registration has run.
  drive-Ran :
      (layout : PdoLayout)
      → cfg.pdo_layout ≡ layout
      → is_non_motion_slave cfg ≡ false
      → register_slave f configured use_float cfg ≡ some off
      → Ran f
          (if is_cool_drive_jmdt_motor cfg then jmdt_plan else joint_plan (is_sjd17 cfg))
          drive_start
          off
  unfolding register_slave is_non_motion_slave
  drive-Ran PdoLayout.joint_module l motion h =
      let plan = joint_plan (is_sjd17 cfg) in
      let e =
        with_evidence-some cfg (register_list f plan drive_start) off
          (ground (arith, l, motion, h)) in
      rw l (register_list-Ran f plan drive_start off e)
  drive-Ran PdoLayout.cooldrive_jmdt l motion h =
      let e =
        with_evidence-some cfg (register_list f jmdt_plan drive_start) off
          (ground (arith, l, motion, h)) in
      rw l (register_list-Ran f jmdt_plan drive_start off e)
  drive-Ran PdoLayout.sri_m8126 l motion h = absurd (ground (arith, l, motion))
  drive-Ran PdoLayout.gateway l motion h = absurd (ground (arith, l, motion, h))
  drive-Ran PdoLayout.unknown l motion h = absurd (ground (arith, l, motion, h))

  by_kind :
      (jmdt : Bool)
      → Ran f (if jmdt then jmdt_plan else joint_plan (is_sjd17 cfg)) drive_start off
      → DriveRegistered f off × SensorsRegistered jmdt (is_sjd17 cfg) f off
  by_kind true h = (jmdt-Registered f off h, jmdt-Sensors (is_sjd17 cfg) f off h)
  by_kind false h = (joint-Registered (is_sjd17 cfg) f off h, joint-Sensors (is_sjd17 cfg) f off h)

  -- A motor that is registered has been answered for every object of the cycle, whatever its layout,
  -- and each offset is the answer for its own object: control word, targets, mode, status word, actual
  -- values and mode display; likewise for its sensors and its error code, which are at 0 where its kind
  -- of drive does not exchange them.
  pub register_slave-Registered :
      is_non_motion_slave cfg ≡ false
      → register_slave f configured use_float cfg ≡ some off
      → DriveRegistered f off
        × SensorsRegistered (is_cool_drive_jmdt_motor cfg) (is_sjd17 cfg) f off
  register_slave-Registered motion h =
      by_kind (is_cool_drive_jmdt_motor cfg) (drive-Ran cfg.pdo_layout refl motion h)
