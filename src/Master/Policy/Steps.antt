-- ===== src/Master/Policy/Steps.antt =====
-- The calls of the interface one by one, under a policy that does not authorise motion.
use robot_ethercat_master_ig.Prelude.{
  ℕ, zero, suc, ◌+◌, ◌%◌, ◌≡◌, refl, sym, subst, arith, not, ◌&&◌, ◌||◌, if_both, if_cases,
  if◌then◌else◌, length, map, ltb, Bool, true, false, Option, none, some, List, [], ◌++◌,
}
use robot_ethercat_master_ig.Config.{IghMasterConfig}
use robot_ethercat_master_ig.Kinematics.{Doubles, MotorKinematicsParams}
use robot_ethercat_master_ig.Servo
use robot_ethercat_master_ig.Servo.{Servo, set_enable}
use robot_ethercat_master_ig.Servo.Cycle.{clear_comm_fault, apply_command_contention_fallback}
use robot_ethercat_master_ig.Servo.Initialize
use robot_ethercat_master_ig.Servo.Initialize.{MasterAnswers}
use robot_ethercat_master_ig.Servo.Cycle
use robot_ethercat_master_ig.Profiles.{MotorConfig}
use robot_ethercat_master_ig.Master.{
  Master, AxisConfig, on_servo, init, found, map_servo, to_motor_config, find_force_sensor,
}
use robot_ethercat_master_ig.Master.Startup.{StartAnswers, start_servo}
use robot_ethercat_master_ig.Master.Cycle.{
  AxisCommand, AxisState, Feedback, run_cycle, cycle_servo, disable_all,
}
use robot_ethercat_master_ig.Master.Policy.{
  IsObserver, ServoOff, After, branch, start_servo-IsObserver,
}
use robot_ethercat_master_ig.Master.Policy.Quiet.{
  AllOff, set_enable-AllOff, request_fault_reset-AllOff, clear_comm_fault-AllOff, initialize-AllOff,
}

-- A master with another servo whose motors are off.
with_servo :
    (m : Master) (s : Servo)
    → IsObserver m
    → AllOff s.axes
    → IsObserver (record m { servo = some s })
with_servo m s v off = record {
  unsupervised = v.unsupervised;
  unauthorized = v.unauthorized;
  off = off;
}

pub init-IsObserver : (m : Master) → IsObserver m → After (init m)
unfolding init
init-IsObserver m v =
    branch m.initialized (m, true)
      (if not (found m.servo) then (m, false) else (record m { initialized = true }, true)) v
      (branch (not (found m.servo)) (m, false) (record m { initialized = true }, true) v
        record { unsupervised = v.unsupervised; unauthorized = v.unauthorized; off = v.off })

pub start-IsObserver :
    (answers : StartAnswers) (m : Master) (o : Option Servo)
    → ServoOff o
    → IsObserver m
    → After (elim o as (λ _. Master × Bool) [
      | none ↦ (m, false)
      | some s ↦ if not m.mapped then (m, false) else start_servo answers s m
    ])
start-IsObserver answers m none off v = v
start-IsObserver answers m (some s) off v =
    branch (not m.mapped) (m, false) (start_servo answers s m) v
      (start_servo-IsObserver answers s m (v.unsupervised, v.unauthorized) off)

disable_all-AllOff : (n i : ℕ) (s : Servo) → AllOff s.axes → AllOff (disable_all n i s).axes
unfolding disable_all
disable_all-AllOff zero i s off = off
disable_all-AllOff (suc n) i s off =
    disable_all-AllOff n (i + 1) (set_enable (i % 256) false s).1
      (set_enable-AllOff (i % 256) s off)

pub on_servo-IsObserver :
    (f : Servo → Servo) (m : Master) (o : Option Servo)
    → ((s : Servo) → AllOff s.axes → AllOff (f s).axes)
    → ServoOff o
    → ServoOff (on_servo f o)
on_servo-IsObserver f m none keeps off = tt
on_servo-IsObserver f m (some s) keeps off = keeps s off

map_servo-IsObserver :
    (initialize_servo : List MotorConfig → Servo → Bool × Servo) (axes slaves : List AxisConfig)
    (s : Servo) (m : Master)
    → ((motors : List MotorConfig) → AllOff (initialize_servo motors s).1.axes)
    → IsObserver m
    → After (map_servo initialize_servo axes slaves s m)
unfolding map_servo
map_servo-IsObserver initialize_servo axes slaves s m keeps v =
    let motors = map to_motor_config axes ++ map to_motor_config slaves in
    let sensor = find_force_sensor 0 none motors in
    let named = record m {
      joint_names = map (λ (axis : AxisConfig). axis.joint_name) axes;
      force_sensor_slave_index = sensor.0;
    } in
    let tried = initialize_servo motors s in
    let twice : (Master × Bool) = (record named { mapped = false }, false) in
    let refused : (Master × Bool) =
      (record named { servo = some tried.1; mapped = false }, false) in
    let mapped : (Master × Bool) =
      (record named { servo = some tried.1; axes = axes; mapped = true }, true) in
    branch (not sensor.1) twice (if not tried.0 then refused else mapped)
      record { unsupervised = v.unsupervised; unauthorized = v.unauthorized; off = v.off }
      (branch (not tried.0) refused mapped
        record { unsupervised = v.unsupervised; unauthorized = v.unauthorized; off = keeps motors }
        record { unsupervised = v.unsupervised; unauthorized = v.unauthorized; off = keeps motors })

module _ {ℓ} {R : Type ℓ} (d : Doubles R) where
  pub map_joints-IsObserver :
      (rt_cfg : IghMasterConfig) (answers : MasterAnswers) (axes slaves : List AxisConfig)
      (m : Master) (o : Option Servo) (bad : Bool)
      → ServoOff o
      → IsObserver m
      → After (elim o as (λ _. Master × Bool) [
        | none ↦ (m, false)
        | some s ↦
            if bad
            then (m, false)
            else map_servo (Initialize.initialize d rt_cfg answers) axes slaves s m
      ])
  map_joints-IsObserver rt_cfg answers axes slaves m none bad off v = v
  map_joints-IsObserver rt_cfg answers axes slaves m (some s) bad off v =
      let init_servo = Initialize.initialize d rt_cfg answers in
      branch bad (m, false) (map_servo init_servo axes slaves s m) v
        (map_servo-IsObserver init_servo axes slaves s m
          (λ motors. initialize-AllOff d rt_cfg answers motors s off) v)

module _ {ℓ} {R : Type ℓ} (d : Doubles R) (is_finite : R → Bool)
    (params : List (MotorKinematicsParams R)) where
  -- Without the authorisation a cycle leaves the servo as it is.
  cycle_servo_idle :
      (now : ℕ) (commands : List (AxisCommand R)) (feedback : Feedback) (n : ℕ) (authorized : Bool)
      (s : Servo)
      → authorized ≡ false
      → (cycle_servo d is_finite params now commands feedback n authorized s).0 ≡ s
  unfolding cycle_servo
  cycle_servo_idle now commands feedback n authorized s h =
      if_both (λ (t : Servo × List (AxisState R) × Bool). t.0 ≡ s) s.runtime.comm_fault refl
        (if_cases (λ (t : Servo × List (AxisState R) × Bool). t.0 ≡ s)
          (authorized && not s.runtime.safe_output_required) (λ k. absurd (ground (arith, h, k)))
          (λ k. refl))

  run_cycle-IsObserver :
      (now : ℕ) (commands : List (AxisCommand R)) (room : ℕ) (feedback : Feedback) (m : Master)
      (s : Servo)
      → AllOff s.axes
      → IsObserver m
      → IsObserver (run_cycle d is_finite params now commands room feedback m s).0
  unfolding run_cycle
  run_cycle-IsObserver now commands room feedback m s off v =
      let n = length m.axes in
      let next =
        (cycle_servo d is_finite params now commands feedback n m.motion_commands_authorized s).0 in
      let same : (next ≡ s) =
        cycle_servo_idle now commands feedback n m.motion_commands_authorized s v.unauthorized in
      if_both (λ (t : Master × List (AxisState R) × Bool). IsObserver t.0)
        (not m.running || (ltb (length commands) n || ltb room n)) v
        (with_servo m next v (subst (λ (t : Servo). AllOff t.axes) (sym same) off))

  pub cycle-IsObserver :
      (now : ℕ) (commands : List (AxisCommand R)) (room : ℕ) (feedback : Feedback) (m : Master)
      (o : Option Servo)
      → ServoOff o
      → IsObserver m
      → IsObserver
          (elim o as (λ _. Master × List (AxisState R) × Bool) [
            | none ↦ (m, [], false)
            | some s ↦ run_cycle d is_finite params now commands room feedback m s
          ]).0
  cycle-IsObserver now commands room feedback m none off v = v
  cycle-IsObserver now commands room feedback m (some s) off v =
      run_cycle-IsObserver now commands room feedback m s off v

pub safety_reset-IsObserver :
    (m : Master) (o : Option Servo)
    → ServoOff o
    → IsObserver m
    → After (elim o as (λ _. Master × Bool) [
      | none ↦ (m, false)
      | some s ↦
          (record m { servo = some (clear_comm_fault (disable_all (length m.axes) 0 s)) }, true)
    ])
safety_reset-IsObserver m none off v = v
safety_reset-IsObserver m (some s) off v =
    with_servo m (clear_comm_fault (disable_all (length m.axes) 0 s)) v (
      clear_comm_fault-AllOff (disable_all (length m.axes) 0 s)
        (disable_all-AllOff (length m.axes) 0 s off))

pub fault_reset-IsObserver :
    (all_op : Bool) (axis_id : ℕ) (m : Master) (o : Option Servo)
    → ServoOff o
    → IsObserver m
    → After (elim o as (λ _. Master × Bool) [
      | none ↦ (m, false)
      | some s ↦
          if m.running
          then (
            record m { servo = some (Servo.request_fault_reset all_op axis_id false s).1 },
            (Servo.request_fault_reset all_op axis_id false s).0,
          )
          else (m, false)
    ])
fault_reset-IsObserver all_op axis_id m none off v = v
fault_reset-IsObserver all_op axis_id m (some s) off v =
    let tried = Servo.request_fault_reset all_op axis_id false s in
    branch m.running (record m { servo = some tried.1 }, tried.0) (m, false)
      (with_servo m tried.1 v (request_fault_reset-AllOff all_op axis_id false s off)) v

pub release-IsObserver :
    (m : Master) (o : Option Servo)
    → IsObserver m
    → After (elim o as (λ _. Master × Bool) [
      | none ↦ (m, false)
      | some s ↦ if not m.motion_commands_authorized then (m, false) else (
        record m { servo = some (Cycle.release_safe_output s).1 },
        (Cycle.release_safe_output s).0,
      )
    ])
release-IsObserver m none v = v
release-IsObserver m (some s) v =
    if_cases After (not m.motion_commands_authorized) (λ h. v)
      (λ h. absurd (ground (arith, h, v.unauthorized)))
