-- ===== src/Servo/Words.antt =====
-- ethercat_servo.cpp: every way in which the servo's operations change one axis, and the control words
-- that this can send.
use robot_ethercat_master_ig.Prelude.{ℕ, Bool, arith, List, [], ◌∷◌}
use robot_ethercat_master_ig.Prelude.Int.{ℤ}
use robot_ethercat_master_ig.Cia402.{OperationMode}
use robot_ethercat_master_ig.Freshness.{SetpointSource}
use robot_ethercat_master_ig.SafeOutput.{
  make_safe_process_image_outputs, select_safe_control_word, latch_safe_position,
}
use robot_ethercat_master_ig.Axis.{Axis}
use robot_ethercat_master_ig.Axis.Transmit.{CycleView, send_axis}
use robot_ethercat_master_ig.Axis.ControlWord.{IsSent, send_axis-IsSent}
use robot_ethercat_master_ig.Servo.{restart, apply_mode, disarm_leaving_mode, align_setpoints}
use robot_ethercat_master_ig.Servo.Commands.{
  position_command, velocity_command, torque_command, idle_velocity, idle_position,
}
use robot_ethercat_master_ig.Servo.Cycle.{
  DriveInput, disarm_axis, drop_stale, fall_back, zero_torque, zero_velocity, receive_axis,
  safe_axis, enter_safe, write_safe_image,
}

-- What an operation does to one axis.
pub data Event : Type 0 where
  enabling : Bool → Event
  mode : OperationMode → Event
  command_position : ℤ → Bool → Event
  command_velocity : ℤ → Bool → SetpointSource → Bool → ℕ → ℕ → Event
  command_torque : ℤ → SetpointSource → ℕ → ℕ → Event
  idle_at_velocity : ℤ → Event
  idle_at_position : ℤ → Event
  disarm : Event
  check : Bool → ℕ → Event
  fallback : Bool → Event
  receive : DriveInput → Event
  transmit : Bool → CycleView → Event
  safe : Bool → Bool → Bool → Event

unfoldable pub step : Event → Axis → Axis
step (Event.enabling e) a = restart e a
step (Event.mode m) a = apply_mode m a
step (Event.command_position p o) a = position_command p o a
step (Event.command_velocity v o src w now t) a = velocity_command v o src w now t a
step (Event.command_torque t src now timeout) a = torque_command t src now timeout a
step (Event.idle_at_velocity v) a = idle_velocity v a
step (Event.idle_at_position p) a = idle_position p a
step Event.disarm a = disarm_axis a
step (Event.check w now) a = drop_stale w now a
step (Event.fallback w) a = fall_back w a
step (Event.receive inp) a = receive_axis inp a
step (Event.transmit activated v) a = send_axis activated v a
step (Event.safe entering window selected) a = safe_axis entering window selected a

abbrev pub steps : List Event → Axis → Axis
steps [] a = a
steps (e ∷ es) a = steps es (step e a)

align_setpoints-IsSent :
    {r : ℕ} (m : OperationMode) (a : Axis) → IsSent r a → IsSent r (align_setpoints m a)
unfolding align_setpoints
align_setpoints-IsSent OperationMode.no_mode a p = p
align_setpoints-IsSent OperationMode.profile_position a p = p
align_setpoints-IsSent OperationMode.profile_velocity a p = p
align_setpoints-IsSent OperationMode.profile_torque a p = p
align_setpoints-IsSent OperationMode.homing a p = p
align_setpoints-IsSent OperationMode.interpolated_position a p = p
align_setpoints-IsSent OperationMode.cyclic_sync_position a p = ground arith
align_setpoints-IsSent OperationMode.cyclic_sync_velocity a p = ground arith
align_setpoints-IsSent OperationMode.cyclic_sync_torque a p = p

apply_mode-IsSent : {r : ℕ} (m : OperationMode) (a : Axis) → IsSent r a → IsSent r (apply_mode m a)
unfolding apply_mode disarm_leaving_mode
apply_mode-IsSent m a p = ground (arith, align_setpoints-IsSent m a p)

step-IsSent : {r : ℕ} (e : Event) (a : Axis) → IsSent r a → IsSent r (step e a)
unfolding step restart position_command velocity_command torque_command idle_velocity idle_position
    disarm_axis drop_stale zero_torque zero_velocity fall_back receive_axis safe_axis enter_safe
    write_safe_image make_safe_process_image_outputs select_safe_control_word latch_safe_position
step-IsSent (Event.enabling e) a p = ground arith
step-IsSent (Event.mode m) a p = apply_mode-IsSent m a p
step-IsSent (Event.command_position q o) a p = ground arith
step-IsSent (Event.command_velocity v o src w now t) a p = ground arith
step-IsSent (Event.command_torque t src now timeout) a p = ground arith
step-IsSent (Event.idle_at_velocity v) a p = ground arith
step-IsSent (Event.idle_at_position q) a p = ground arith
step-IsSent Event.disarm a p = ground arith
step-IsSent (Event.check w now) a p = ground arith
step-IsSent (Event.fallback w) a p = ground arith
step-IsSent (Event.receive inp) a p = ground arith
step-IsSent (Event.transmit activated v) a p = send_axis-IsSent activated v a p.worded
step-IsSent (Event.safe entering window selected) a p = ground arith

-- Whatever sequence of commands, checks, receptions, transmissions and safe outputs an axis goes
-- through, every control word in its output image is one of the enable and disable sequences or the
-- axis's fault reset word, provided this and the following hold at first: no recovery is counted and
-- no word waits to be written. The recovery counter then stays at zero, and nothing is ever waiting.
pub steps-IsSent : {r : ℕ} (es : List Event) (a : Axis) → IsSent r a → IsSent r (steps es a)
steps-IsSent [] a p = p
steps-IsSent (e ∷ es) a p = steps-IsSent es (step e a) (step-IsSent e a p)
