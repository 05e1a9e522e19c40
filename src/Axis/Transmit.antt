-- ===== src/Axis/Transmit.antt =====
-- ethercat_servo.cpp, sendDataCommon, sendDataCSP, sendDataCSV and sendDataCST: one motor's part of
-- the transmission, which also advances its enable state machine. The log calls are left out: they
-- change nothing that the rest reads.
use robot_ethercat_master_ig.Prelude.{
  ℕ, ◌+◌, ◌-◌, ◌%◌, Bool, true, false, not, ◌&&◌, ◌||◌, ltb, leb, ◌==◌, if◌then◌else◌, get_or,
}
use robot_ethercat_master_ig.Prelude.Int.{pos}
use robot_ethercat_master_ig.Cia402.{
  mode_value, control_word_switch_on, enable_sequence, disable_sequence, is_operation_enabled,
  is_fault,
}
use robot_ethercat_master_ig.Axis.{Axis}

abbrev pub step_delay_cycles : ℕ
step_delay_cycles = 10

abbrev pub fault_debounce_cycles : ℕ
fault_debounce_cycles = 5

abbrev pub enable_loss_debounce_cycles : ℕ
enable_loss_debounce_cycles = 50

-- `a != b` on Booleans.
abbrev pub differ : Bool → Bool → Bool
differ true b = not b
differ false b = b

-- What a cycle reads: the working counters are complete, and the drive's status word.
pub record CycleView : Type 0 where
  pub wc_ok : Bool
  pub status_word : ℕ  -- uint16_t

-- Set while the monitors may act: the drive is meant to be enabled and no sequence runs.
abbrev pub is_monitored : CycleView → Axis → Bool
is_monitored v a =
    v.wc_ok
    && (a.desired_enable
        && (a.enable_requested && (not a.enable_fsm_active && a.fault_reset_counter == 0)))

-- A fault that lasts starts the state machine.
unfoldable pub detect_fault : CycleView → Axis → Axis
detect_fault v a =
    if is_monitored v a && (is_fault v.status_word && a.fault_reset_phase == 0)
    then (if leb fault_debounce_cycles (a.fault_persist_counter + 1)
        then record a {
          fault_persist_counter = 0;
          enable_fsm_active = true;
          enable_requested = false;
        }
        else record a { fault_persist_counter = a.fault_persist_counter + 1 })
    else if not (is_fault v.status_word)
    then record a { fault_persist_counter = 0 }
    else a

-- A drive that has left the enabled state without a fault is enabled again.
unfoldable pub monitor_enable : CycleView → Axis → Axis
monitor_enable v a =
    let losses =
      if is_operation_enabled v.status_word then 0 else a.enable_monitor_loss_counter + 1 in
    if is_monitored v a && not (is_fault v.status_word)
    then (if leb enable_loss_debounce_cycles losses
        then record a {
          enable_monitor_loss_counter = 0;
          enable_fsm_active = true;
          enable_fsm_step = 0;
          enable_fsm_wait = 0;
          control_word_state = control_word_switch_on;
          enable_requested = false;
        }
        else record a { enable_monitor_loss_counter = losses })
    else if is_operation_enabled v.status_word || is_fault v.status_word
    then record a { enable_monitor_loss_counter = 0 }
    else a

-- The counter that follows a fault reset.
unfoldable pub recover : Axis → Axis
recover a =
    if ltb 0 a.fault_reset_counter
    then (if a.fault_reset_counter - 1 == 0 && a.desired_enable
        then record a {
          fault_reset_counter = a.fault_reset_counter - 1;
          enable_fsm_active = true;
          enable_fsm_step = 0;
          enable_fsm_wait = 0;
          control_word_state = control_word_switch_on;
        }
        else record a { fault_reset_counter = a.fault_reset_counter - 1 })
    else a

unfoldable pub clear_phase : CycleView → Axis → Axis
clear_phase v a =
    if not (a.fault_reset_phase == 0) && (not (is_fault v.status_word) || not a.desired_enable)
    then record a { fault_reset_phase = 0 }
    else a

-- The fault reset phases. The tests of the wait counter in phases 1 and 2, and the status word read
-- once more in phase 2, are written as they stand.
unfoldable pub reset_step : CycleView → Axis → Axis
reset_step v a =
    if a.fault_reset_phase == 0
    then record a {
      control_word_state = a.fault_reset_cw;
      fault_reset_phase = 1;
      enable_fsm_wait = step_delay_cycles;
      enable_fsm_step = 0;
      enable_requested = false;
    }
    else if a.fault_reset_phase == 1
    then (if ltb 0 a.enable_fsm_wait
        then record a {
          control_word_state = a.fault_reset_cw;
          enable_fsm_wait = a.enable_fsm_wait - 1;
        }
        else record a {
          control_word_state = a.fault_reset_cw;
          fault_reset_phase = 2;
          enable_fsm_wait = step_delay_cycles;
        })
    else if a.fault_reset_phase == 2
    then (if ltb 0 a.enable_fsm_wait
        then record a {
          control_word_state = control_word_switch_on;
          enable_fsm_wait = a.enable_fsm_wait - 1;
        }
        else if not (is_fault v.status_word)
        then record a {
          control_word_state = control_word_switch_on;
          fault_reset_counter = 1;
          fault_reset_phase = 0;
        }
        else record a {
          control_word_state = control_word_switch_on;
          fault_reset_phase = 0;
          enable_fsm_wait = 0;
        })
    else a

-- One step of the enable or the disable sequence, and its end.
unfoldable pub sequence_step : Axis → Axis
sequence_step a =
    if ltb a.enable_fsm_step 4
    then record a {
      control_word_state =
          if a.desired_enable
          then get_or enable_sequence a.enable_fsm_step 0
          else get_or disable_sequence a.enable_fsm_step 0;
      enable_fsm_step = (a.enable_fsm_step + 1) % 256;
      enable_fsm_wait = step_delay_cycles;
    }
    else record a {
      enable_requested = a.desired_enable;
      enable_fsm_active = false;
      enable_fsm_step = 0;
      enable_fsm_wait = 0;
      fault_reset_counter = 0;
    }

unfoldable pub advance : CycleView → Axis → Axis
advance v a =
    if differ a.desired_enable a.enable_requested || a.enable_fsm_active
    then (let b = record a { enable_fsm_active = true } in
        if ltb 0 b.enable_fsm_wait
        then record b { enable_fsm_wait = b.enable_fsm_wait - 1 }
        else if is_fault v.status_word && b.desired_enable
        then reset_step v b
        else sequence_step b)
    else a

-- The state machine's part of `sendDataCommon`.
unfoldable pub run_fsm : CycleView → Axis → Axis
run_fsm v a = advance v (clear_phase v (recover (monitor_enable v (detect_fault v a))))

-- The control word goes out: the one that waits to be written before the state machine's.
unfoldable pub write_control_word : Bool → Axis → Axis
write_control_word activated a =
    let wanted = if activated then a.control_word_state else control_word_switch_on in
    let replaced =
      a.control_word_write_pending && not (a.pending_control_word == a.control_word_state) in
    let word = if replaced then a.pending_control_word else wanted in
    let done = a.control_word_write_pending && word == a.pending_control_word in
    record a {
      control_word_state = if replaced then a.pending_control_word else a.control_word_state;
      image = record (a.image) { control_word = word };
      last_written_control_word = word;
      control_word_write_pending = if done then false else a.control_word_write_pending;
      control_word_write_attempts = if done then 0 else a.control_word_write_attempts;
    }

unfoldable pub write_mode : Axis → Axis
write_mode a = record a {
  image = record (a.image) {
    operation_mode =
        if a.mapping.operation_mode then mode_value a.current_mode else a.image.operation_mode;
    padding_rx = if a.mapping.padding_rx then 0 else a.image.padding_rx;
  };
}

unfoldable pub send_data_common : Bool → CycleView → Axis → Axis
send_data_common activated v a = write_mode (write_control_word activated (run_fsm v a))

unfoldable pub send_data_csp : Bool → Axis → Axis
send_data_csp activated a =
    let target =
      if activated && not a.position_override_active
      then a.idle_input_position
      else a.target_position in
    record a { target_position = target; image = record (a.image) { target_position = target } }

unfoldable pub send_data_csv : Bool → Axis → Axis
send_data_csv activated a =
    let target =
      if activated && not a.velocity_override_active
      then a.idle_input_velocity
      else a.target_velocity in
    record a {
      target_velocity = target;
      image = record (a.image) {
        target_velocity = if a.mapping.target_velocity then target else a.image.target_velocity;
      };
    }

unfoldable pub send_data_cst : Axis → Axis
send_data_cst a = record a {
  image = record (a.image) {
    target_torque = if a.mapping.target_torque then a.target_torque else a.image.target_torque;
    torque_offset = if a.mapping.digital_outputs then pos 0 else a.image.torque_offset;
  };
}

-- A command that waits is taken over once.
unfoldable pub take_pending : Axis → Axis
take_pending a =
    let p = a.pending in
    record a {
      target_position = if p.position_valid then p.position else a.target_position;
      target_velocity = if p.velocity_valid then p.velocity else a.target_velocity;
      target_torque = if p.torque_valid then p.torque else a.target_torque;
      pending = record p { position_valid = false; velocity_valid = false; torque_valid = false };
    }

-- The motor's branch of the loop in `sendData`.
unfoldable pub send_axis : Bool → CycleView → Axis → Axis
send_axis activated v a = send_data_cst (
    send_data_csv activated
      (send_data_csp activated (send_data_common activated v (take_pending a))))
