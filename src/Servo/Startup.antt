-- ===== src/Servo/Startup.antt =====
-- src/ethercat_master_igh/src/master/igh/ethercat_servo.cpp: `activate` with the evidence that it
-- gathers, and `deactivate`. What the slaves answer to mailbox requests, and whether the master and
-- its domain come up, are arguments.
use robot_ethercat_master_ig.Prelude.{
  ℕ, ◌-◌, ◌%◌, Bool, true, false, not, ◌&&◌, ◌||◌, Option, none, some, List, [], ◌∷◌, ltb, ◌==◌,
  if◌then◌else◌,
}
use robot_ethercat_master_ig.Prelude.Int.{ℤ, pos, negsuc, equal_ℤ}
use robot_ethercat_master_ig.Cia402.{control_word_switch_on}
use robot_ethercat_master_ig.CspPeriod.{
  CspInterpolationPeriod, encode_csp_interpolation_period, interpolation_period_matches_bus,
}
use robot_ethercat_master_ig.Kinematics.{Doubles}
use robot_ethercat_master_ig.Profiles.{MotorConfig, PdoLayout}
use robot_ethercat_master_ig.Profiles.Resolve.{
  resolve_motor_profile, is_joint_module_motor, is_cool_drive_jmdt_motor,
}
use robot_ethercat_master_ig.Axis.{Axis, is_non_motion_slave}
use robot_ethercat_master_ig.Runtime.Lifecycle.{stop}
use robot_ethercat_master_ig.Servo.{Servo}
use robot_ethercat_master_ig.Servo.Cycle.{every}

-- The tests `!= kPdoOffsetUnset` of one slave's registered objects.
pub record Registered : Type 0 where
  pub status_word : Bool
  pub actual_position : Bool
  pub target_position : Bool

abbrev is_unknown : PdoLayout → Bool
is_unknown PdoLayout.unknown = true
is_unknown _ = false

unfoldable pub verify_pdo_evidence : MotorConfig → Registered → Bool
verify_pdo_evidence config off =
    let joint =
      is_unknown config.pdo_layout
      || is_joint_module_motor config
      || is_cool_drive_jmdt_motor config in
    if is_non_motion_slave config
    then true
    else if not off.status_word
    then false
    else not (joint && (not off.actual_position || not off.target_position))

-- What a drive answers on object 0x60C2, by subindex: to the reads as U32 and as U8, to the writes,
-- and to the reads after them.
pub record SdoAnswers : Type 0 where
  pub upload_u32 : ℕ → Option ℕ
  pub upload_u8 : ℕ → Option ℕ
  pub download_u8 : ℕ → ℕ → Bool
  pub reread_u8 : ℕ → Option ℕ

-- The conversion of a byte to `int8_t`, and back.
unfoldable pub to_i8 : ℕ → ℤ
to_i8 b = if ltb b 128 then pos b else negsuc (255 - b)

abbrev from_i8 : ℤ → ℕ
from_i8 (pos n) = n % 256
from_i8 (negsuc n) = 255 - n % 256

unfoldable pub pair_period : Option ℕ → Option ℕ → Option CspInterpolationPeriod
unfolding to_i8
pair_period (some v) (some e) = some record { value = v % 256; exponent = to_i8 (e % 256) }
pair_period _ _ = none

-- The drive's period as first read, and as read back after the writes.
unfoldable pub read_period : SdoAnswers → Option CspInterpolationPeriod
unfolding pair_period
read_period a = elim (pair_period (a.upload_u32 1) (a.upload_u32 2)) [
  | some p ↦ some p
  | none ↦ pair_period (a.upload_u8 1) (a.upload_u8 2)
]

unfoldable pub same_period : Option CspInterpolationPeriod → CspInterpolationPeriod → Bool
same_period none expected = false
same_period (some p) expected = p.value == expected.value && equal_ℤ p.exponent expected.exponent

-- The writes of the expected period where another one was read.
unfoldable pub rewrite_period : SdoAnswers → CspInterpolationPeriod → Bool
unfolding pair_period same_period
rewrite_period a expected =
    a.download_u8 1 expected.value
    && a.download_u8 2 (from_i8 expected.exponent)
    && same_period (pair_period (a.reread_u8 1) (a.reread_u8 2)) expected

-- By the expected period and the one first read.
unfoldable pub judge_period :
    SdoAnswers → ℕ → Option CspInterpolationPeriod → Option CspInterpolationPeriod → Bool
unfolding rewrite_period
judge_period a bus_cycle_ns none seen = false
judge_period a bus_cycle_ns (some expected) none = false
judge_period a bus_cycle_ns (some expected) (some p) =
    if interpolation_period_matches_bus p.value p.exponent bus_cycle_ns
    then true
    else rewrite_period a expected

-- The loop's body for a drive that has the gate.
unfoldable pub verify_axis_period : SdoAnswers → ℕ → Bool
unfolding read_period judge_period
verify_axis_period a bus_cycle_ns =
    judge_period a bus_cycle_ns (encode_csp_interpolation_period bus_cycle_ns) (read_period a)

module _ {ℓ} {R : Type ℓ} (d : Doubles R) where
  abbrev pub requires_gate : MotorConfig → Bool
  requires_gate config = elim (resolve_motor_profile d config) [
    | some profile ↦ profile.require_interpolation_period_gate
    | none ↦ true
  ]

  unfoldable pub verify_interpolation_period_gate : List (MotorConfig × SdoAnswers) → ℕ → Bool
  unfolding verify_axis_period
  verify_interpolation_period_gate [] bus_cycle_ns = true
  verify_interpolation_period_gate ((config, answers) ∷ rest) bus_cycle_ns =
      (is_non_motion_slave config
        || not (requires_gate config)
        || verify_axis_period answers bus_cycle_ns)
      && verify_interpolation_period_gate rest bus_cycle_ns

unfoldable pub all_pdo_evidence : List (MotorConfig × Registered) → Bool
unfolding verify_pdo_evidence
all_pdo_evidence [] = true
all_pdo_evidence ((config, off) ∷ rest) = verify_pdo_evidence config off && all_pdo_evidence rest

-- What `activate` meets: the results of the two gates, and whether the master is activated and its
-- domain has memory.
pub record Bringup : Type 0 where
  pub sdo_gate_ok : Bool
  pub pdo_ok : Bool
  pub master_activated : Bool
  pub domain_present : Bool

abbrev at_start : Axis → Axis
at_start a = record a { enable_requested = false; control_word_state = control_word_switch_on }

unfoldable pub activate : Bringup → Servo → Bool × Servo
activate b s =
    if not s.initialized
    then (false, s)
    else if s.activated
    then (true, s)
    else if not b.master_activated || not b.domain_present
    then (false, s)
    else (
      true,
      record s {
        axes = every at_start s.axes;
        activated = true;
        startup_evidence_passed = b.sdo_gate_ok && b.pdo_ok;
      },
    )

unfoldable pub deactivate : Servo → Servo
unfolding stop
deactivate s = record s { runtime = stop s.runtime; activated = false; safe_output_active = false }
