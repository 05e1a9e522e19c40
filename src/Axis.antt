-- ===== src/Axis.antt =====
-- src/ethercat_master_igh/include/ethercat_joint/servo/ethercat_servo_igh.hpp: what the servo keeps
-- for each slave. The source's vectors, all of length `motor_count_`, are one list of records here.
pub mod Transmit
pub mod Enabling
pub mod FaultReset
pub mod ControlWord
pub mod Samples
mod Tests
use robot_ethercat_master_ig.Prelude.{ℕ, Bool, true, false, ◌&&◌, ◌||◌, ◌==◌, if◌then◌else◌}
use robot_ethercat_master_ig.Prelude.Int.{ℤ, pos}
use robot_ethercat_master_ig.Cia402.{OperationMode}
use robot_ethercat_master_ig.Freshness.{CommandFreshnessState}
use robot_ethercat_master_ig.Profiles.{MotorConfig}
use robot_ethercat_master_ig.Profiles.Resolve.{is_gateway, is_sri_m8126}

unfoldable pub is_non_motion_slave : MotorConfig → Bool
is_non_motion_slave cfg = is_gateway cfg || is_sri_m8126 cfg

pub record PendingCommand : Type 0 where
  pub position : ℤ
  pub velocity : ℤ
  pub torque : ℤ
  pub position_valid : Bool
  pub velocity_valid : Bool
  pub torque_valid : Bool

-- Which outputs the slave maps: the tests `offset != 0` and `offset != kPdoOffsetUnset`.
pub record Mapping : Type 0 where
  pub control_word_set : Bool
  pub target_position_set : Bool
  pub operation_mode : Bool
  pub padding_rx : Bool
  pub target_velocity : Bool
  pub target_torque : Bool
  pub digital_outputs : Bool

-- The slave's entries in the output process image. Entries do not overlap, so each is a field.
pub record OutputImage : Type 0 where
  pub control_word : ℕ
  pub operation_mode : ℤ
  pub padding_rx : ℕ
  pub target_position : ℤ
  pub target_velocity : ℤ
  pub target_torque : ℤ
  pub torque_offset : ℤ

pub record Axis : Type 0 where
  pub config : MotorConfig
  pub mapping : Mapping
  pub image : OutputImage
  pub enable_requested : Bool
  pub desired_enable : Bool
  pub enable_fsm_active : Bool
  pub enable_fsm_step : ℕ  -- uint8_t
  pub enable_fsm_wait : ℕ  -- uint16_t
  pub control_word_state : ℕ  -- uint16_t
  pub fault_reset_counter : ℕ  -- int, never negative
  pub fault_reset_phase : ℕ  -- uint8_t
  pub enable_monitor_loss_counter : ℕ  -- int, never negative
  pub fault_persist_counter : ℕ  -- int, never negative
  pub current_mode : OperationMode
  pub target_position : ℤ
  pub target_velocity : ℤ
  pub target_torque : ℤ
  pub pending : PendingCommand
  pub position_override_active : Bool
  pub idle_input_position : ℤ
  pub velocity_override_active : Bool
  pub idle_input_velocity : ℤ
  pub last_status_word : ℕ  -- uint16_t
  pub last_error_code : ℕ  -- uint16_t
  pub last_actual_position : ℤ
  pub fault_reset_cw : ℕ  -- uint16_t
  pub safe_latched_position : ℤ
  pub pending_control_word : ℕ  -- uint16_t
  pub last_written_control_word : ℕ  -- uint16_t
  pub control_word_write_pending : Bool
  pub control_word_write_attempts : ℕ
  pub torque_cmd_freshness : CommandFreshnessState
  pub velocity_cmd_freshness : CommandFreshnessState
