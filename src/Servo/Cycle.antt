-- ===== src/Servo/Cycle.antt =====
-- src/ethercat_master_igh/src/master/igh/ethercat_servo.cpp: what the Job thread runs each cycle.
-- The master and its domain are there from initialisation on, so `initialized` stands for the tests of
-- these pointers.
use robot_ethercat_master_ig.Prelude.{
  ℕ, suc, ◌-◌, Bool, true, false, not, ◌&&◌, ◌||◌, List, [], ◌∷◌, ltb, ◌==◌, if◌then◌else◌,
}
use robot_ethercat_master_ig.Prelude.Int.{ℤ, pos}
use robot_ethercat_master_ig.Cia402.{OperationMode, mode_value, is_fault}
use robot_ethercat_master_ig.Freshness.{
  disarm_command_freshness, is_external_command_stale, contention_fallback_active,
}
use robot_ethercat_master_ig.SafeOutput.{
  make_safe_process_image_outputs, select_safe_control_word, latch_safe_position,
}
use robot_ethercat_master_ig.Runtime
use robot_ethercat_master_ig.Runtime.{IghMasterRuntime}
use robot_ethercat_master_ig.Axis.{Axis}
use robot_ethercat_master_ig.Axis.Transmit.{send_axis}
use robot_ethercat_master_ig.Servo.{
  Servo, is_motion, each_motor, same_mode, some_motor, no_reset_axis,
}

unfoldable pub disarm_axis : Axis → Axis
unfolding disarm_command_freshness
disarm_axis a = record a {
  torque_cmd_freshness = disarm_command_freshness a.torque_cmd_freshness;
  velocity_cmd_freshness = disarm_command_freshness a.velocity_cmd_freshness;
}

abbrev pub every : (Axis → Axis) → List Axis → List Axis
every f [] = []
every f (a ∷ rest) = f a ∷ every f rest

unfoldable pub disarm_all_command_freshness : List Axis → List Axis
unfolding disarm_axis
disarm_all_command_freshness axes = every disarm_axis axes

unfoldable pub clear_comm_fault : Servo → Servo
unfolding disarm_all_command_freshness
clear_comm_fault s = record s {
  runtime = Runtime.clear_comm_fault s.runtime;
  safe_output_active = false;
  explicit_fault_reset_cycles = 0;
  explicit_fault_reset_axis = no_reset_axis;
  axes = disarm_all_command_freshness s.axes;
}

-- `&&` calls the runtime only where the evidence was found.
unfoldable pub release_safe_output : Servo → Bool × Servo
release_safe_output s =
    let (runtime, ok) = Runtime.release_safe_output s.runtime in
    if s.startup_evidence_passed then (ok, record s { runtime = runtime }) else (false, s)

-- The body of the loop in `checkExternalCommandFreshness`, and its writes to `stale`.
unfoldable pub torque_is_stale : ℕ → Axis → Bool
unfolding is_external_command_stale
torque_is_stale now_ns a =
    same_mode a.current_mode OperationMode.cyclic_sync_torque
    && is_external_command_stale a.torque_cmd_freshness now_ns

unfoldable pub velocity_is_stale : Bool → ℕ → Axis → Bool
unfolding is_external_command_stale
velocity_is_stale watched now_ns a =
    watched
    && (same_mode a.current_mode OperationMode.cyclic_sync_velocity
        && is_external_command_stale a.velocity_cmd_freshness now_ns)

unfoldable pub zero_torque : Axis → Axis
zero_torque a = record a {
  pending = record (a.pending) { torque = pos 0; torque_valid = true };
  target_torque = pos 0;
}

unfoldable pub zero_velocity : Axis → Axis
zero_velocity a = record a {
  pending = record (a.pending) { velocity = pos 0; velocity_valid = true };
  target_velocity = pos 0;
}

unfoldable pub drop_stale : Bool → ℕ → Axis → Axis
unfolding disarm_command_freshness torque_is_stale velocity_is_stale zero_torque zero_velocity
drop_stale watched now_ns a =
    let b =
      if torque_is_stale now_ns a
      then record (zero_torque a) {
        torque_cmd_freshness = disarm_command_freshness a.torque_cmd_freshness;
      }
      else a in
    if velocity_is_stale watched now_ns b
    then record (zero_velocity b) {
      velocity_cmd_freshness = disarm_command_freshness b.velocity_cmd_freshness;
    }
    else b

abbrev pub is_stale : Bool → ℕ → Axis → Bool
is_stale watched now_ns a = torque_is_stale now_ns a || velocity_is_stale watched now_ns a

unfoldable pub check_external_command_freshness : ℕ → Servo → Servo
unfolding torque_is_stale velocity_is_stale drop_stale
check_external_command_freshness now_ns s =
    if not s.initialized || s.external_cmd_watchdog_ns == 0
    then s
    else if s.runtime.safe_output_required
    then s
    else record s {
      axes = each_motor (drop_stale s.csv_cmd_watchdog now_ns) s.axes;
      runtime =
          if some_motor (is_stale s.csv_cmd_watchdog now_ns) s.axes
          then Runtime.raise_comm_fault s.runtime
          else s.runtime;
    }

unfoldable pub fall_back : Bool → Axis → Axis
unfolding contention_fallback_active zero_torque zero_velocity
fall_back watched a =
    let b =
      if same_mode a.current_mode OperationMode.cyclic_sync_torque
        && contention_fallback_active a.torque_cmd_freshness
      then zero_torque a
      else a in
    if watched
      && (same_mode b.current_mode OperationMode.cyclic_sync_velocity
          && contention_fallback_active b.velocity_cmd_freshness)
    then zero_velocity b
    else b

unfoldable pub apply_command_contention_fallback : Servo → Servo
unfolding fall_back
apply_command_contention_fallback s =
    if not s.initialized
    then s
    else record s { axes = each_motor (fall_back s.csv_cmd_watchdog) s.axes }

-- `domain_out_pd_ && domain_in_pd_`: `activate` sets the two pointers where it succeeds, and with them
-- `activated_`; `deactivate` takes them away with it.
abbrev pub has_process_data : Servo → Bool
has_process_data s = s.activated

-- What a motor's entries in the input process image hold.
pub record DriveInput : Type 0 where
  pub status_word : ℕ
  pub error_code : ℕ
  pub actual_position : ℤ

unfoldable pub receive_axis : DriveInput → Axis → Axis
receive_axis inp a = record a {
  last_status_word = inp.status_word;
  last_error_code = inp.error_code;
  last_actual_position = inp.actual_position;
}

-- The writes to the process image in `applySafeProcessImageOutputs`.
unfoldable pub write_safe_image : ℕ → ℤ → ℤ → ℤ → Axis → Axis
write_safe_image word position velocity torque a = record a {
  image = record (a.image) {
    control_word = if a.mapping.control_word_set then word else a.image.control_word;
    target_position = if a.mapping.target_position_set then position else a.image.target_position;
    target_velocity = if a.mapping.target_velocity then velocity else a.image.target_velocity;
    target_torque = if a.mapping.target_torque then torque else a.image.target_torque;
    operation_mode =
        if a.mapping.operation_mode then mode_value a.current_mode else a.image.operation_mode;
  };
}

-- Entering safe output takes the state machine back to its start.
unfoldable pub enter_safe : Bool → Axis → Axis
enter_safe entering a =
    if entering
    then record a {
      fault_reset_phase = 0;
      fault_reset_counter = 0;
      enable_fsm_step = 0;
      enable_fsm_wait = 0;
    }
    else a

-- The body of the loop in `applySafeProcessImageOutputs`, for a motor. `reset` says that the window
-- is open and this axis is selected.
unfoldable pub safe_axis : Bool → Bool → Bool → Axis → Axis
unfolding write_safe_image enter_safe
safe_axis entering window selected a =
    let latched = latch_safe_position entering a.safe_latched_position a.last_actual_position in
    let safe = make_safe_process_image_outputs latched in
    let word =
      select_safe_control_word window selected (is_fault a.last_status_word) a.fault_reset_cw in
    write_safe_image word safe.target_position safe.target_velocity safe.target_torque
      (record (enter_safe entering a) {
        safe_latched_position = latched;
        desired_enable = false;
        enable_fsm_active = false;
        enable_requested = false;
        control_word_state = word;
        target_position = safe.target_position;
        target_velocity = safe.target_velocity;
        target_torque = safe.target_torque;
        position_override_active = false;
        velocity_override_active = false;
        idle_input_position = safe.target_position;
      })

-- The loop, `i` being the index of the next axis.
unfoldable pub safe_axes : Bool → Bool → ℕ → ℕ → List Axis → List Axis
unfolding safe_axis
safe_axes entering window reset_axis i [] = []
safe_axes entering window reset_axis i (a ∷ rest) =
    (if is_motion a
      then safe_axis entering window (reset_axis == 0x00FF || reset_axis == i) a
      else a)
    ∷ safe_axes entering window reset_axis (suc i) rest

-- `applySafeProcessImageOutputs` after its early return.
unfoldable pub put_safe_outputs : Servo → Servo
unfolding safe_axes
put_safe_outputs s =
    let window = ltb 0 s.explicit_fault_reset_cycles in
    record s {
      safe_output_active = true;
      axes = safe_axes (not s.safe_output_active) window s.explicit_fault_reset_axis 0 s.axes;
      explicit_fault_reset_cycles = s.explicit_fault_reset_cycles - 1;
      explicit_fault_reset_axis =
          if s.explicit_fault_reset_cycles == 1 then no_reset_axis else s.explicit_fault_reset_axis;
    }

unfoldable pub apply_safe_process_image_outputs : Servo → Servo
unfolding put_safe_outputs
apply_safe_process_image_outputs s =
    if not s.initialized || not (has_process_data s) then s else put_safe_outputs s

-- What the master answers on a domain: `complete` says that the state is EC_WC_COMPLETE.
pub record DomainState : Type 0 where
  pub working_counter : ℕ
  pub complete : Bool

abbrev is_ok : DomainState → DomainState → Bool
is_ok out inp =
    ltb 0 out.working_counter && (ltb 0 inp.working_counter && (out.complete && inp.complete))

-- Whether `g_send_data_wc_state` is EC_WC_COMPLETE in the end.
abbrev pub send_data_wc_complete : Bool → DomainState → DomainState → Bool
send_data_wc_complete activated out inp =
    activated && (if is_ok out inp then true else out.complete)

-- The motors' part of `sendData`. The status words are those that `receiveData` has just read from
-- the same process data.
unfoldable pub send_data : DomainState → DomainState → Servo → Servo
send_data out inp s =
    let wc_ok = send_data_wc_complete s.activated out inp in
    if not s.initialized || not (has_process_data s) then s else record s {
      axes =
          each_motor
            (λ a.
              send_axis s.activated (record { wc_ok = wc_ok; status_word = a.last_status_word }) a)
            s.axes;
    }

-- The motors' part of `receiveData`: each motor's input.
abbrev pub receive_axes : (ℕ → DriveInput) → ℕ → List Axis → List Axis
receive_axes inputs i [] = []
receive_axes inputs i (a ∷ rest) =
    (if is_motion a then receive_axis (inputs i) a else a) ∷ receive_axes inputs (suc i) rest

unfoldable pub receive_data : (ℕ → DriveInput) → Servo → Servo
unfolding receive_axis
receive_data inputs s =
    if s.activated && has_process_data s
    then record s { axes = receive_axes inputs 0 s.axes }
    else s

-- `runJobCycle`; the clock synchronisation keeps a state of its own.
unfoldable pub run_job_cycle :
    Bool → ℕ → (ℕ → DriveInput) → DomainState → DomainState → Servo → Bool × Servo
unfolding check_external_command_freshness apply_safe_process_image_outputs send_data receive_data
run_job_cycle force_safe_output now_ns inputs out inp s =
    let received = receive_data inputs (check_external_command_freshness now_ns s) in
    if not s.initialized
    then (false, s)
    else if force_safe_output || received.runtime.safe_output_required
    then (is_ok out inp, apply_safe_process_image_outputs received)
    else (is_ok out inp, send_data out inp (record received { safe_output_active = false }))
