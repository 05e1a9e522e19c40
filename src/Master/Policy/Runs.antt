-- ===== src/Master/Policy/Runs.antt =====
-- Runs of calls of the interface, under a policy that does not authorise motion.
use robot_ethercat_master_ig.Prelude.{ℕ, not, ◌&&◌, ◌||◌, Bool, List, [], ◌∷◌}
use robot_ethercat_master_ig.Config.{IghMasterConfig}
use robot_ethercat_master_ig.Kinematics.{Doubles, MotorKinematicsParams}
use robot_ethercat_master_ig.Servo.Cycle.{apply_command_contention_fallback}
use robot_ethercat_master_ig.Servo.Initialize
use robot_ethercat_master_ig.Servo.Initialize.{MasterAnswers}
use robot_ethercat_master_ig.Servo.Startup.{deactivate}
use robot_ethercat_master_ig.Master.{
  Master, AxisConfig, init, map_joints, shutdown, validate_axis_configs, validate_bus_slaves,
  is_no_error, empty_configs,
}
use robot_ethercat_master_ig.Master.Startup.{StartAnswers, start}
use robot_ethercat_master_ig.Master.Cycle.{
  AxisCommand, Feedback, cycle, request_safety_reset, request_fault_reset, request_safe_output,
  release_safe_output, apply_contention_fallback,
}
use robot_ethercat_master_ig.Master.Policy.{IsObserver}
use robot_ethercat_master_ig.Master.Policy.Quiet.{apply_command_contention_fallback-AllOff}
use robot_ethercat_master_ig.Master.Policy.Steps.{
  init-IsObserver, start-IsObserver, map_joints-IsObserver, cycle-IsObserver,
  safety_reset-IsObserver, fault_reset-IsObserver, release-IsObserver, on_servo-IsObserver,
}

-- A call of the interface with what it meets.
pub data Call {ℓ} (R : Type ℓ) : Type ℓ where
  init_call : Call R
  map_call : IghMasterConfig → MasterAnswers → List AxisConfig → List AxisConfig → Call R
  start_call : StartAnswers → Call R
  cycle_call : ℕ → List (AxisCommand R) → ℕ → Feedback → Call R
  safety_reset_call : Call R
  fault_reset_call : Bool → ℕ → Call R
  safe_output_call : Call R
  release_call : Call R
  contention_call : Call R
  shutdown_call : Call R

module _ {ℓ} {R : Type ℓ} (d : Doubles R) (is_finite : R → Bool)
    (params : List (MotorKinematicsParams R)) where
  unfoldable pub perform : Call R → Master → Master
  perform init_call m = (init m).0
  perform (map_call rt_cfg answers axes slaves) m =
      (map_joints (Initialize.initialize d rt_cfg answers) axes slaves m).0
  perform (start_call answers) m = (start answers m).0
  perform (cycle_call now commands room feedback) m =
      (cycle d is_finite params now commands room feedback m).0
  perform safety_reset_call m = (request_safety_reset m).0
  perform (fault_reset_call all_op axis_id) m = (request_fault_reset all_op axis_id m).0
  perform safe_output_call m = request_safe_output m
  perform release_call m = (release_safe_output m).0
  perform contention_call m = apply_contention_fallback m
  perform shutdown_call m = shutdown m

  unfoldable pub perform_all : List (Call R) → Master → Master
  unfolding perform
  perform_all [] m = m
  perform_all (c ∷ cs) m = perform_all cs (perform c m)

module _ {ℓ} {R : Type ℓ} (d : Doubles R) (is_finite : R → Bool)
    (params : List (MotorKinematicsParams R)) where
  perform-IsObserver :
      (c : Call R) (m : Master) → IsObserver m → IsObserver (perform d is_finite params c m)
  unfolding perform start cycle map_joints request_safety_reset request_fault_reset
      release_safe_output request_safe_output apply_contention_fallback shutdown deactivate
  perform-IsObserver init_call m v = init-IsObserver m v
  perform-IsObserver (map_call rt_cfg answers axes slaves) m v =
      map_joints-IsObserver d rt_cfg answers axes slaves m m.servo
        (not (is_no_error (validate_axis_configs axes))
          || (not (validate_bus_slaves slaves) || empty_configs axes && empty_configs slaves))
        v.off v
  perform-IsObserver (start_call answers) m v = start-IsObserver answers m m.servo v.off v
  perform-IsObserver (cycle_call now commands room feedback) m v =
      cycle-IsObserver d is_finite params now commands room feedback m m.servo v.off v
  perform-IsObserver safety_reset_call m v = safety_reset-IsObserver m m.servo v.off v
  perform-IsObserver (fault_reset_call all_op axis_id) m v =
      fault_reset-IsObserver all_op axis_id m m.servo v.off v
  perform-IsObserver safe_output_call m v = record {
    unsupervised = v.unsupervised;
    unauthorized = v.unauthorized;
    off = on_servo-IsObserver _ m m.servo (λ s off. off) v.off;
  }
  perform-IsObserver release_call m v = release-IsObserver m m.servo v
  perform-IsObserver contention_call m v = record {
    unsupervised = v.unsupervised;
    unauthorized = v.unauthorized;
    off =
        on_servo-IsObserver apply_command_contention_fallback m m.servo
          apply_command_contention_fallback-AllOff v.off;
  }
  perform-IsObserver shutdown_call m v = record {
    unsupervised = v.unsupervised;
    unauthorized = v.unauthorized;
    off = on_servo-IsObserver deactivate m m.servo (λ s off. off) v.off;
  }

  -- Let the policy not be that of supervised motion, no command be authorised, and no motor be wished
  -- to be enabled, as after construction. Then no run of calls of the interface changes that, whatever
  -- their arguments and whatever the bus, the platform and the slaves answer: a master that only
  -- observes or commissions asks no drive to be enabled.
  pub perform_all-IsObserver :
      (calls : List (Call R)) (m : Master)
      → IsObserver m
      → IsObserver (perform_all d is_finite params calls m)
  unfolding perform_all
  perform_all-IsObserver [] m v = v
  perform_all-IsObserver (c ∷ cs) m v =
      perform_all-IsObserver cs (perform d is_finite params c m) (perform-IsObserver c m v)
