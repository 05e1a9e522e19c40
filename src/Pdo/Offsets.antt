-- ===== src/Pdo/Offsets.antt =====
-- `PDOOffsets` of include/ethercat_joint/servo/ethercat_servo_igh.hpp: where a slave's objects lie in
-- the process image, and what the servo reads off it. The offsets are `unsigned int`.
use robot_ethercat_master_ig.Prelude.{ℕ, ◌-◌, ◌^◌, not, ◌==◌}
use robot_ethercat_master_ig.Axis.{Mapping}
use robot_ethercat_master_ig.Servo.Startup.{Registered}

pub record PdoOffsets : Type 0 where
  pub control_word : ℕ
  pub operation_mode : ℕ
  pub padding_rx : ℕ
  pub target_position : ℕ
  pub target_velocity : ℕ
  pub target_torque : ℕ
  pub digital_outputs : ℕ
  pub status_word : ℕ
  pub operation_mode_display : ℕ
  pub padding_tx : ℕ
  pub actual_position : ℕ
  pub actual_velocity : ℕ
  pub actual_torque : ℕ
  pub sensor_force_2020 : ℕ
  pub motor_encoder_2021 : ℕ
  pub error_code : ℕ
  pub digital_inputs : ℕ
  pub can_tx_id : ℕ
  pub can_tx_length : ℕ
  pub can_tx_data : ℕ
  pub can_rx_id : ℕ
  pub can_rx_length : ℕ
  pub can_rx_data : ℕ
  pub canfd_tx_id : ℕ
  pub canfd_tx_length : ℕ
  pub canfd_tx_data : ℕ
  pub canfd_rx_id : ℕ
  pub canfd_rx_length : ℕ
  pub canfd_rx_data : ℕ
  pub rs485_1_rx_length : ℕ
  pub rs485_1_rx_data : ℕ
  pub rs485_1_tx_length : ℕ
  pub rs485_1_tx_data : ℕ
  pub rs485_2_rx_length : ℕ
  pub rs485_2_rx_data : ℕ
  pub rs485_2_tx_length : ℕ
  pub rs485_2_tx_data : ℕ
  pub sri_data_no : ℕ
  pub sri_fx : ℕ
  pub sri_fy : ℕ
  pub sri_fz : ℕ
  pub sri_mx : ℕ
  pub sri_my : ℕ
  pub sri_mz : ℕ
  pub sri_para1 : ℕ
  pub sri_para2 : ℕ
  pub sri_para3 : ℕ

abbrev pub pdo_offset_unset : ℕ
pdo_offset_unset = 2 ^ 32 - 1

-- `memset(&offsets, 0, sizeof(PDOOffsets))`
abbrev pub no_offsets : PdoOffsets
no_offsets = record {
  control_word = 0;
  operation_mode = 0;
  padding_rx = 0;
  target_position = 0;
  target_velocity = 0;
  target_torque = 0;
  digital_outputs = 0;
  status_word = 0;
  operation_mode_display = 0;
  padding_tx = 0;
  actual_position = 0;
  actual_velocity = 0;
  actual_torque = 0;
  sensor_force_2020 = 0;
  motor_encoder_2021 = 0;
  error_code = 0;
  digital_inputs = 0;
  can_tx_id = 0;
  can_tx_length = 0;
  can_tx_data = 0;
  can_rx_id = 0;
  can_rx_length = 0;
  can_rx_data = 0;
  canfd_tx_id = 0;
  canfd_tx_length = 0;
  canfd_tx_data = 0;
  canfd_rx_id = 0;
  canfd_rx_length = 0;
  canfd_rx_data = 0;
  rs485_1_rx_length = 0;
  rs485_1_rx_data = 0;
  rs485_1_tx_length = 0;
  rs485_1_tx_data = 0;
  rs485_2_rx_length = 0;
  rs485_2_rx_data = 0;
  rs485_2_tx_length = 0;
  rs485_2_tx_data = 0;
  sri_data_no = 0;
  sri_fx = 0;
  sri_fy = 0;
  sri_fz = 0;
  sri_mx = 0;
  sri_my = 0;
  sri_mz = 0;
  sri_para1 = 0;
  sri_para2 = 0;
  sri_para3 = 0;
}

-- What a drive's registration begins with.
abbrev pub drive_start : PdoOffsets
drive_start = record no_offsets {
  control_word = pdo_offset_unset;
  status_word = pdo_offset_unset;
  actual_position = pdo_offset_unset;
  target_position = pdo_offset_unset;
}

-- What a force sensor's registration begins with.
abbrev pub sri_start : PdoOffsets
sri_start = record no_offsets {
  sri_data_no = pdo_offset_unset;
  sri_fx = pdo_offset_unset;
  sri_fy = pdo_offset_unset;
  sri_fz = pdo_offset_unset;
  sri_mx = pdo_offset_unset;
  sri_my = pdo_offset_unset;
  sri_mz = pdo_offset_unset;
  sri_para1 = pdo_offset_unset;
  sri_para2 = pdo_offset_unset;
  sri_para3 = pdo_offset_unset;
}

-- The tests of the outputs' offsets in the cycle. The control word is written without a test by
-- `sendData`, and under this one in safe output.
unfoldable pub mapping_of : PdoOffsets → Mapping
mapping_of off = record {
  control_word_set = not (off.control_word == pdo_offset_unset);
  target_position_set = not (off.target_position == pdo_offset_unset);
  operation_mode = not (off.operation_mode == 0);
  padding_rx = not (off.padding_rx == 0);
  target_velocity = not (off.target_velocity == 0);
  target_torque = not (off.target_torque == 0);
  digital_outputs = not (off.digital_outputs == 0);
}

unfoldable pub registered_of : PdoOffsets → Registered
registered_of off = record {
  status_word = not (off.status_word == pdo_offset_unset);
  actual_position = not (off.actual_position == pdo_offset_unset);
  target_position = not (off.target_position == pdo_offset_unset);
}
