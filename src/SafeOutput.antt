-- ===== src/SafeOutput.antt =====
-- src/ethercat_master_igh/include/ethercat_joint/master/igh/safe_output.hpp: the setpoints of the
-- process image while safe output is required.
mod Tests
use robot_ethercat_master_ig.Prelude.{ℕ, ◌≡◌, Bool, true, false, ◌&&◌, if◌then◌else◌, refl}
use robot_ethercat_master_ig.Prelude.Int.{ℤ, pos}
use robot_ethercat_master_ig.Cia402.{control_word_switch_on}

pub record SafeProcessImageOutputs : Type 0 where
  pub target_position : ℤ  -- int32_t
  pub target_velocity : ℤ  -- int32_t
  pub target_torque : ℤ  -- int16_t
  pub control_word : ℕ  -- uint16_t

unfoldable pub make_safe_process_image_outputs : ℤ → SafeProcessImageOutputs
make_safe_process_image_outputs actual_position = record {
  target_position = actual_position;
  target_velocity = pos 0;
  target_torque = pos 0;
  control_word = control_word_switch_on;
}

-- The third argument is not used.
unfoldable pub select_safe_control_word : Bool → Bool → Bool → ℕ → ℕ
select_safe_control_word reset_window_active axis_selected axis_faulted fault_reset_cw =
    if reset_window_active && axis_selected then fault_reset_cw else control_word_switch_on

unfoldable pub latch_safe_position : Bool → ℤ → ℤ → ℤ
latch_safe_position entering_safe latched_position actual_position =
    if entering_safe then actual_position else latched_position
