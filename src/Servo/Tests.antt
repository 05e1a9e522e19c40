-- ===== src/Servo/Tests.antt =====
-- A servo with one motor in concrete situations.
use robot_ethercat_master_ig.Prelude.{
  ℕ, ◌≡◌, ◌⊎◌, inl, refl, true, false, not, ◌&&◌, ◌||◌, arith, none, some, List, [], ◌∷◌, ltb, ◌==◌,
  if◌then◌else◌,
}
use robot_ethercat_master_ig.Prelude.Int.{ℤ, pos, equal_ℤ}
use robot_ethercat_master_ig.Cia402.{OperationMode, is_fault, is_operation_enabled}
use robot_ethercat_master_ig.Freshness.{is_external_command_stale, SetpointSource}
use robot_ethercat_master_ig.Runtime.Reachable.{fresh_runtime}
use robot_ethercat_master_ig.Axis.{Axis, is_non_motion_slave}
use robot_ethercat_master_ig.Axis.Samples.{motor, quiet}
use robot_ethercat_master_ig.Axis.ControlWord.{IsSent}
use robot_ethercat_master_ig.Servo.{
  Servo, set_enable, request_fault_reset, reset_blocked, selected_fault,
}
use robot_ethercat_master_ig.Servo.Cycle.{
  DriveInput, DomainState, torque_is_stale, velocity_is_stale, run_job_cycle,
}
use robot_ethercat_master_ig.Servo.Held.{IsShown, word_for, safe_cycles}
use robot_ethercat_master_ig.Servo.SafeOutputs.{safe_outputs_hold, request_fault_reset_window}
use robot_ethercat_master_ig.Servo.Gates.{set_enable_gated, request_fault_reset_gated}
use robot_ethercat_master_ig.Servo.Stale.{stale_command_stops}
use robot_ethercat_master_ig.Servo.Words.{Event, steps, steps-IsSent}
use robot_ethercat_master_ig.Servo.Enabling.{set_enable_idempotent}
use robot_ethercat_master_ig.Kinematics.Samples.{integers}
use robot_ethercat_master_ig.CspPeriod.{
  encode_csp_interpolation_period, encode_loop, interpolation_period_matches_bus,
  decode_csp_interpolation_period_ns,
}
use robot_ethercat_master_ig.Profiles.{MotorConfig, find_identity, lists, identity_equal}
use robot_ethercat_master_ig.Profiles.Table.{find_by_identity}
use robot_ethercat_master_ig.Profiles.Resolve.{resolve_motor_profile}
use robot_ethercat_master_ig.Servo.Startup.{
  SdoAnswers, verify_interpolation_period_gate, verify_axis_period, judge_period, read_period,
  pair_period, rewrite_period, same_period, to_i8,
}
use robot_ethercat_master_ig.Servo.Evidence.{AllReport, verify_interpolation_period_gate-AllReport}
use mathlib.Core.Option.{some-injective}
use robot_ethercat_master_ig.Pdo.Offsets.{no_offsets}
use robot_ethercat_master_ig.Prelude.{Option, get_elem?}
use robot_ethercat_master_ig.Kinematics.{get}
use robot_ethercat_master_ig.Servo.Cycle.{apply_safe_process_image_outputs, receive_data}
use robot_ethercat_master_ig.Config.{default_config}
use robot_ethercat_master_ig.Servo.Initialize.{MasterAnswers, correct_identities, initialize}
use robot_ethercat_master_ig.Servo.Mapped.{IsBounded, AllDriven, initialize-Driven}
use robot_ethercat_master_ig.Servo.States.{
  MotorStateData, SlaveInputs, get_motor_states, safe_cycles-not_enabled,
}
use robot_ethercat_master_ig.Servo.LoadKinematics.Kept.{SameJoint, try_load_kinematics-Keeps}
use robot_ethercat_master_ig.Servo.LoadKinematics.{try_load_kinematics_from_sdo}

abbrev one : Servo
one = record {
  initialized = true;
  activated = true;
  startup_evidence_passed = true;
  runtime = fresh_runtime;
  axes = motor ∷ [];
  safe_output_active = false;
  explicit_fault_reset_cycles = 0;
  explicit_fault_reset_axis = 0xFFFF;
  external_cmd_watchdog_ns = 100;
  csv_cmd_watchdog = true;
}

-- The drive drifts while its power is off.
abbrev drifting : ℤ → ℕ → DriveInput
drifting p i = record { status_word = 0x0250; error_code = 0; actual_position = p }

abbrev rest : List (ℕ → DriveInput)
rest = drifting (pos 1010) ∷ drifting (pos 1020) ∷ []

safe_outputs_hold_example :
    IsShown
      (if not false then pos 1005 else pos 1000)
      (word_for (ltb 2 0 && (0xFFFF == 0x00FF || 0xFFFF == 0)) 0x80)
      0
      (safe_cycles (drifting (pos 1005) ∷ rest) one)
unfolding is_non_motion_slave
safe_outputs_hold_example =
    safe_outputs_hold (drifting (pos 1005)) rest one 0 motor refl refl refl refl

-- In safe output, with the Job thread running.
abbrev safe : Servo
safe = record one {
  safe_output_active = true;
  runtime = record fresh_runtime { job_running = true; safe_output_required = true };
}

reset_opens_window :
    IsShown
      (pos 1000)
      (word_for (ltb 2 20 && (0 == 0xFF || 0 == 0)) 0x80)
      0
      (safe_cycles (drifting (pos 1005) ∷ rest) ((request_fault_reset true 0 true safe).1))
unfolding request_fault_reset reset_blocked selected_fault is_non_motion_slave is_operation_enabled
    is_fault
reset_opens_window =
    request_fault_reset_window true 0 true (drifting (pos 1005)) rest safe 0 motor refl refl refl
      refl

reset_is_gated :
    (safe.initialized ≡ true)
    × (safe.activated ≡ true)
    × (safe.runtime.job_running ≡ true)
    × (safe.runtime.safe_output_required ≡ true)
    × (safe.runtime.comm_fault ≡ false)
    × (true ≡ true)
    × (is_operation_enabled 0x0250 ≡ false)
unfolding request_fault_reset reset_blocked selected_fault is_non_motion_slave is_operation_enabled
    is_fault
reset_is_gated = request_fault_reset_gated true 0 true safe 0 motor refl refl refl

enable_is_gated :
    (((set_enable 0 true one).0 ≡ false) × ((set_enable 0 true one).1 ≡ one))
    ⊎ ((true ≡ false)
        ⊎ ((one.activated ≡ true)
            × (one.startup_evidence_passed ≡ true)
            × (one.runtime.comm_fault ≡ false)
            × (one.runtime.safe_output_required ≡ false)
            × (one.runtime.motion_reenable_allowed ≡ true)))
enable_is_gated = set_enable_gated 0 true one

enabled_twice_is_once : set_enable 0 true ((set_enable 0 true one).1) ≡ set_enable 0 true one
enabled_twice_is_once = set_enable_idempotent 0 true one

-- A torque command that was good until 500.
abbrev torque_motor : Axis
torque_motor = record motor {
  current_mode = OperationMode.cyclic_sync_torque;
  target_torque = pos 300;
  torque_cmd_freshness = record { armed = true; deadline_ns = 500 };
}

abbrev commanded : Servo
commanded = record one { axes = torque_motor ∷ [] }

abbrev exchanged : DomainState
exchanged = record { working_counter = 3; complete = true }

stale_command_stops_example :
    ((run_job_cycle false 501
        (drifting (pos 1005))
        exchanged
        exchanged
        commanded).1.runtime.comm_fault
      ≡ true)
    × IsShown
        (if not false then pos 1005 else pos 1000)
        (word_for (ltb 0 0 && (0xFFFF == 0x00FF || 0xFFFF == 0)) 0x80)
        0
        ((run_job_cycle false 501 (drifting (pos 1005)) exchanged exchanged commanded).1)
unfolding torque_is_stale velocity_is_stale is_external_command_stale is_non_motion_slave
stale_command_stops_example =
    stale_command_stops false 501 (drifting (pos 1005)) exchanged exchanged commanded 0 torque_motor
      refl refl (omega arith) refl refl refl refl

abbrev session : List Event
session =
    Event.enabling true
    ∷ Event.transmit true quiet
    ∷ Event.mode OperationMode.cyclic_sync_torque
    ∷ Event.command_torque (pos 20) SetpointSource.external 1000 500
    ∷ Event.transmit true quiet
    ∷ Event.safe true true true
    ∷ []

steps-IsSent_example : IsSent 0x80 (steps session motor)
steps-IsSent_example = steps-IsSent session motor (record {
  worded = record {
    reset_word = refl;
    no_recovery = refl;
    no_pending = refl;
    commands = refl;
    phase_wished = inl refl;
  };
  sent = refl;
})

-- A drive that holds 4 ms, takes 2 ms and reports it back.
abbrev taught : SdoAnswers
taught = record {
  upload_u32 = λ sub. none;
  upload_u8 = λ sub. if sub == 1 then some 4 else some 253;
  download_u8 = λ sub value. true;
  reread_u8 = λ sub. if sub == 1 then some 2 else some 253;
}

abbrev one_drive : List (MotorConfig × SdoAnswers)
one_drive = (motor.config, taught) ∷ []

verify_interpolation_period_gate-AllReport_example : AllReport integers one_drive 2000000
unfolding verify_interpolation_period_gate verify_axis_period judge_period read_period pair_period
    rewrite_period same_period to_i8 encode_csp_interpolation_period encode_loop
    interpolation_period_matches_bus decode_csp_interpolation_period_ns equal_ℤ
    resolve_motor_profile find_by_identity find_identity lists identity_equal is_non_motion_slave
verify_interpolation_period_gate-AllReport_example =
    verify_interpolation_period_gate-AllReport integers one_drive 2000000 refl

abbrev no_inputs : ℕ → SlaveInputs
no_inputs i = record {
  cache = record {
    status_word = 0;
    operation_mode_display = pos 0;
    error_code = 0;
    actual_position = pos 0;
    actual_velocity = pos 0;
    actual_torque = pos 0;
    sensor_force_2020 = pos 0;
    motor_encoder_2021 = pos 0;
  };
  offsets = no_offsets;
  u32 = λ o. 0;
}

safe_cycles-not_enabled_example :
    (st : MotorStateData) × (get_elem?
        (get_motor_states no_inputs (safe_cycles (drifting (pos 1005) ∷ rest) one))
        0
      ≡ some st)
    × (st.enabled ≡ false)
unfolding is_non_motion_slave apply_safe_process_image_outputs receive_data
safe_cycles-not_enabled_example =
    safe_cycles-not_enabled no_inputs (drifting (pos 1005)) rest one 0 motor refl refl refl refl
      (omega arith)

-- A gear of 50, an inner encoder, and no answer on the current.
abbrev answering : ℕ → ℕ → ℕ → Option ℕ
answering position index subindex =
    if index == 0x200E then some 50 else if index == 0x2016 then some 2 else none

try_load_kinematics-Keeps_example :
    let loaded = try_load_kinematics_from_sdo integers answering true (motor.config ∷ []) [] in
    SameJoint integers (get integers [] 0) (get integers loaded.0 0)
    × ((loaded.1 ≡ true) ⊎ (loaded.0 ≡ []))
try_load_kinematics-Keeps_example =
    try_load_kinematics-Keeps integers answering true (motor.config ∷ []) [] 0 (omega arith)

-- Everything comes up, and every object has the place 5.
abbrev five : MasterAnswers
five = record {
  master_granted = true;
  domain_created = true;
  slave_info = λ position. none;
  slave_config = λ i. true;
  takes = λ i table. true;
  place = λ i r. some 5;
}

five-IsBounded : IsBounded five.place
five-IsBounded i r o h = omega (arith, some-injective 5 o h)

abbrev unready : Servo
unready = record one { initialized = false; activated = false; axes = [] }

initialize-Driven_example :
    AllDriven
      (correct_identities five (motor.config ∷ []))
      (initialize integers default_config five (motor.config ∷ []) unready).1.axes
unfolding initialize is_non_motion_slave
initialize-Driven_example =
    initialize-Driven integers five five-IsBounded default_config (motor.config ∷ []) unready refl
