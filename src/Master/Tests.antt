-- ===== src/Master/Tests.antt =====
-- A master with one axis, from its construction on.
use robot_ethercat_master_ig.Prelude.{
  Option, ℕ, ◌≡◌, refl, Bool, true, false, not, ◌||◌, ◌&&◌, none, some, List, [], ◌∷◌, leb, length,
}
use robot_ethercat_master_ig.Prelude.Int.{ℤ, pos}
use robot_ethercat_master_ig.Cia402.{OperationMode}
use robot_ethercat_master_ig.Config.{default_config}
use robot_ethercat_master_ig.Kinematics.Samples.{integers}
use robot_ethercat_master_ig.Runtime.Reachable.{fresh_runtime}
use robot_ethercat_master_ig.Axis.Samples.{motor}
use robot_ethercat_master_ig.Servo.{Servo}
use robot_ethercat_master_ig.Servo.Startup.{deactivate}
use robot_ethercat_master_ig.Servo.Initialize.{MasterAnswers}
use robot_ethercat_master_ig.Master.{
  Master, MotionPolicy, PdoLayout, AxisConfig, new_master, init, shutdown, is_no_error,
  validate_axis_configs,
}
use robot_ethercat_master_ig.Master.Startup.{StartAnswers, start}
use robot_ethercat_master_ig.Master.Cycle.{
  AxisCommand, Feedback, no_motor_state, motion_reenable_allowed,
}
use robot_ethercat_master_ig.Pdo.Register.{Request}
use robot_ethercat_master_ig.Master.Validation.{are_valid, validate_axis_configs_lem}
use robot_ethercat_master_ig.Master.Policy.{IsObserver}
use robot_ethercat_master_ig.Master.Policy.Runs.{Call, perform_all, perform_all-IsObserver}
use robot_ethercat_master_ig.Master.Safe.{Ended, start-Ended}
use robot_ethercat_master_ig.Runtime.Reachable.{call, Reach, Step, Phase}
use robot_ethercat_master_ig.Runtime.Reachable
use robot_ethercat_master_ig.Master.Health.{health, health-consistent}

abbrev axis : AxisConfig
axis = record {
  joint_name = "J1";
  alias = 0;
  position = 0;
  vendor_id = 0x00522227;
  product_code = 0x00009253;
  model_id = "";
  pdo_layout = PdoLayout.joint_module;
}

validate_axis_configs_lem_example :
    is_no_error (validate_axis_configs (axis ∷ axis ∷ []))
    ≡ (leb (length (axis ∷ axis ∷ [])) 7 && are_valid (axis ∷ axis ∷ []))
validate_axis_configs_lem_example = validate_axis_configs_lem (axis ∷ axis ∷ [])

-- `EtherCATServo::EtherCATServo`
abbrev new_servo : Servo
new_servo = record {
  initialized = false;
  activated = false;
  startup_evidence_passed = false;
  runtime = fresh_runtime;
  axes = [];
  safe_output_active = false;
  explicit_fault_reset_cycles = 0;
  explicit_fault_reset_axis = 0xFFFF;
  external_cmd_watchdog_ns = 0;
  csv_cmd_watchdog = false;
}

-- A place for each object.
abbrev place_of : Request → Option ℕ
place_of (Request.entry_at index subindex dir) = some index
place_of (Request.entry_pos sync pdo n dir) = some n

-- Everything comes up, and no drive reports an error.
abbrev good_bus : MasterAnswers
good_bus = record {
  master_granted = true;
  domain_created = true;
  slave_info = λ position. none;
  slave_config = λ i. true;
  takes = λ i table. true;
  place = λ i r. place_of r;
}

abbrev good_start : StartAnswers
good_start = record {
  positions = λ i. some (pos 1000) ∷ none ∷ [];
  bringup = record {
    sdo_gate_ok = true;
    pdo_ok = true;
    master_activated = true;
    domain_present = true;
  };
  os = record { memory_locked = true; mlockall_ok = true; job_rt_ok = true };
  environment = default_config;
  all_op = true;
  all_op_at_reset = true;
  error_code = λ i. some 0;
  error_code_later = λ i. some 0;
}

abbrev enabling : AxisCommand ℤ
enabling = record {
  position = pos 3;
  velocity = pos 0;
  effort = pos 0;
  enable = true;
  operation_mode = OperationMode.cyclic_sync_position;
}

abbrev feedback : Feedback
feedback = record {
  motor_states = no_motor_state ∷ [];
  position = λ i. pos 1000;
  velocity = λ i. pos 0;
  torque = λ i. pos 0;
}

abbrev session : List (Call ℤ)
session =
    Call.init_call
    ∷ Call.map_call default_config good_bus (axis ∷ []) []
    ∷ Call.start_call good_start
    ∷ Call.cycle_call 5000 (enabling ∷ []) 1 feedback
    ∷ Call.release_call
    ∷ []

abbrev finite : ℤ → Bool
finite x = true

abbrev observer : Master
observer = new_master new_servo MotionPolicy.observation_only

observer-IsObserver : IsObserver observer
observer-IsObserver = record { unsupervised = refl; unauthorized = refl; off = tt }

perform_all-IsObserver_example : IsObserver (perform_all integers finite [] session observer)
perform_all-IsObserver_example =
    perform_all-IsObserver integers finite [] session observer observer-IsObserver

-- Mapped, with its servo initialised.
abbrev mapped : Master
mapped =
    record (new_master (record new_servo { initialized = true; axes = motor ∷ [] })
      MotionPolicy.supervised_motion) { axes = axis ∷ []; initialized = true; mapped = true }

start-Ended_example : Ended (start good_start mapped)
start-Ended_example = start-Ended good_start mapped refl refl

-- A master that was shut down can be initialised again: its servo is still there.
init_after_shutdown : (init (shutdown mapped)).1 ≡ true
unfolding init shutdown deactivate
init_after_shutdown = refl

-- Its runtime has met a communication fault.
abbrev faulted_servo : Servo
faulted_servo = record new_servo { runtime = call Reachable.Call.raise fresh_runtime }

abbrev faulted : Master
faulted = record mapped { servo = some faulted_servo }

health-consistent_example :
    let h = health (record { working_counter = 3; complete = true }) [] faulted in
    ((not h.communication_fault || h.safe_output_active) ≡ true)
    × ((h.communication_fault && (h.job_thread_running && h.motion_reenable_allowed)) ≡ false)
    × ((h.observation_only && h.motion_reenable_allowed) ≡ false)
    × (h.motion_reenable_allowed ≡ motion_reenable_allowed faulted)
health-consistent_example =
    health-consistent (record { working_counter = 3; complete = true }) [] faulted faulted_servo
      refl (Reach.next Reach.fresh (Step.called Reachable.Call.raise))
