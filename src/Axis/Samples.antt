-- ===== src/Axis/Samples.antt =====
-- A motor for the tests: cyclic synchronous position, its outputs mapped, at rest at position 1000.
use robot_ethercat_master_ig.Prelude.{true, false}
use robot_ethercat_master_ig.Prelude.Int.{pos}
use robot_ethercat_master_ig.Cia402.{OperationMode}
use robot_ethercat_master_ig.Freshness.{unarmed}
use robot_ethercat_master_ig.Axis.{Axis}
use robot_ethercat_master_ig.Profiles.{PdoLayout}
use robot_ethercat_master_ig.Axis.Transmit.{CycleView}

abbrev pub motor : Axis
motor = record {
  config = record {
    alias = 0;
    position = 0;
    vendor_id = 0x00009999;
    product_code = 0x00000001;
    name = "J1";
    model_id = "";
    pdo_layout = PdoLayout.joint_module;
  };
  mapping = record {
    control_word_set = true;
    target_position_set = true;
    operation_mode = true;
    padding_rx = false;
    target_velocity = true;
    target_torque = true;
    digital_outputs = false;
  };
  image = record {
    control_word = 0x06;
    operation_mode = pos 8;
    padding_rx = 0;
    target_position = pos 1000;
    target_velocity = pos 0;
    target_torque = pos 0;
    torque_offset = pos 0;
  };
  enable_requested = false;
  desired_enable = false;
  enable_fsm_active = false;
  enable_fsm_step = 0;
  enable_fsm_wait = 0;
  control_word_state = 0x06;
  fault_reset_counter = 0;
  fault_reset_phase = 0;
  enable_monitor_loss_counter = 0;
  fault_persist_counter = 0;
  current_mode = OperationMode.cyclic_sync_position;
  target_position = pos 1000;
  target_velocity = pos 0;
  target_torque = pos 0;
  pending = record {
    position = pos 0;
    velocity = pos 0;
    torque = pos 0;
    position_valid = false;
    velocity_valid = false;
    torque_valid = false;
  };
  position_override_active = false;
  idle_input_position = pos 1000;
  velocity_override_active = false;
  idle_input_velocity = pos 0;
  last_status_word = 0x0250;
  last_error_code = 0;
  last_actual_position = pos 1000;
  fault_reset_cw = 0x80;
  safe_latched_position = pos 1000;
  pending_control_word = 0x06;
  last_written_control_word = 0x06;
  control_word_write_pending = false;
  control_word_write_attempts = 0;
  torque_cmd_freshness = unarmed;
  velocity_cmd_freshness = unarmed;
}

-- A cycle in which the drive shows no fault, and one in which it does.
abbrev pub quiet : CycleView
quiet = record { wc_ok = true; status_word = 0x0250 }

abbrev pub in_fault : CycleView
in_fault = record { wc_ok = true; status_word = 0x0218 }
