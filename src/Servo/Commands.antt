-- ===== src/Servo/Commands.antt =====
-- src/ethercat_master_igh/src/master/igh/ethercat_servo.cpp: the setpoints that other threads
-- command. They wait in `pending` for the next transmission.
use robot_ethercat_master_ig.Prelude.{ℕ, Bool, true, false, ◌&&◌, ◌||◌, if◌then◌else◌}
use robot_ethercat_master_ig.Prelude.Int.{ℤ}
use robot_ethercat_master_ig.Cia402.{OperationMode}
use robot_ethercat_master_ig.Freshness.{
  CommandFreshnessState, SetpointSource, arm_external_command, mark_job_internal_command,
}
use robot_ethercat_master_ig.Axis.{Axis}
use robot_ethercat_master_ig.Servo.{Servo, modify, same_mode}

unfoldable pub position_command : ℤ → Bool → Axis → Axis
position_command position override_filter a = record a {
  pending = record (a.pending) { position = position; position_valid = true };
  position_override_active = override_filter || a.position_override_active;
}

unfoldable pub set_target_position : ℕ → ℤ → Bool → Servo → Servo
unfolding position_command
set_target_position motor_id position override_filter s = record s {
  axes = modify (position_command position override_filter) motor_id s.axes;
}

-- The freshness of a command that arrives at `now_ns`, where the watchdog covers it.
unfoldable pub stamp : SetpointSource → Bool → ℕ → ℕ → CommandFreshnessState → CommandFreshnessState
unfolding arm_external_command mark_job_internal_command
stamp SetpointSource.job_internal watched now_ns timeout_ns f = mark_job_internal_command f
stamp SetpointSource.external watched now_ns timeout_ns f =
    if watched then arm_external_command f now_ns timeout_ns else f

unfoldable pub velocity_command : ℤ → Bool → SetpointSource → Bool → ℕ → ℕ → Axis → Axis
unfolding stamp
velocity_command velocity override_idle source watched now_ns timeout_ns a = record a {
  pending = record (a.pending) { velocity = velocity; velocity_valid = true };
  velocity_override_active = override_idle || a.velocity_override_active;
  velocity_cmd_freshness =
      stamp source (watched && same_mode a.current_mode OperationMode.cyclic_sync_velocity) now_ns
        timeout_ns a.velocity_cmd_freshness;
}

unfoldable pub set_target_velocity : ℕ → ℤ → Bool → SetpointSource → ℕ → Servo → Servo
unfolding velocity_command
set_target_velocity motor_id velocity override_idle source now_ns s = record s {
  axes =
      modify
        (velocity_command velocity override_idle source s.csv_cmd_watchdog now_ns
          s.external_cmd_watchdog_ns)
        motor_id s.axes;
}

unfoldable pub torque_command : ℤ → SetpointSource → ℕ → ℕ → Axis → Axis
unfolding stamp
torque_command torque source now_ns timeout_ns a = record a {
  pending = record (a.pending) { torque = torque; torque_valid = true };
  torque_cmd_freshness = stamp source true now_ns timeout_ns a.torque_cmd_freshness;
}

unfoldable pub set_target_torque : ℕ → ℤ → SetpointSource → ℕ → Servo → Servo
unfolding torque_command
set_target_torque motor_id torque source now_ns s = record s {
  axes = modify (torque_command torque source now_ns s.external_cmd_watchdog_ns) motor_id s.axes;
}

unfoldable pub idle_velocity : ℤ → Axis → Axis
idle_velocity velocity a = record a {
  idle_input_velocity = velocity;
  pending = record (a.pending) { velocity = velocity; velocity_valid = true };
  velocity_override_active = false;
}

unfoldable pub set_idle_input_velocity : ℕ → ℤ → Servo → Servo
unfolding idle_velocity
set_idle_input_velocity motor_id velocity s = record s {
  axes = modify (idle_velocity velocity) motor_id s.axes;
}

unfoldable pub idle_position : ℤ → Axis → Axis
idle_position position a = record a {
  idle_input_position = position;
  pending = record (a.pending) { position = position; position_valid = true };
  position_override_active = false;
}

unfoldable pub set_idle_input_position : ℕ → ℤ → Servo → Servo
unfolding idle_position
set_idle_input_position motor_id position s = record s {
  axes = modify (idle_position position) motor_id s.axes;
}
