-- ===== src/Axis/Tests.antt =====
-- The state machine on a motor.
use robot_ethercat_master_ig.Prelude.{◌/◌, ◌%◌, ◌≡◌, refl, true, false, arith, inl, replicate}
use robot_ethercat_master_ig.Cia402.{is_fault}
use robot_ethercat_master_ig.Axis.{Axis}
use robot_ethercat_master_ig.Axis.Transmit.{run_fsm}
use robot_ethercat_master_ig.Axis.Samples.{motor, quiet, in_fault}
use robot_ethercat_master_ig.Axis.Enabling.{
  run_cycles, word_of, restart_holds_words, restart_completes,
}
use robot_ethercat_master_ig.Axis.FaultReset.{word_at, reset_word_period}
use robot_ethercat_master_ig.Servo.{restart}

restart_holds_words_example :
    ((run_cycles (replicate 24 quiet) (restart true motor)).control_word_state
      ≡ word_of true (23 / 11))
    × ((run_cycles (replicate 24 quiet) (restart true motor)).enable_fsm_active ≡ true)
unfolding is_fault
restart_holds_words_example =
    restart_holds_words true 23 (replicate 24 quiet) motor refl (inl refl) refl (omega arith)

restart_completes_example :
    ((run_fsm quiet (run_cycles (replicate 44 quiet) (restart true motor))).enable_requested ≡ true)
    × ((run_fsm quiet (run_cycles (replicate 44 quiet) (restart true motor))).enable_fsm_active
        ≡ false)
    × ((run_fsm quiet (run_cycles (replicate 44 quiet) (restart true motor))).control_word_state
        ≡ word_of true 3)
unfolding is_fault
restart_completes_example =
    restart_completes true (replicate 44 quiet) quiet motor refl (inl refl) refl

abbrev resetting : Axis
resetting = record motor { desired_enable = true; enable_fsm_active = true }

-- The reset word for 22 cycles, and the switch on word in the next one.
reset_word_period_example :
    (run_cycles (replicate 23 in_fault) resetting).control_word_state ≡ word_at 0x80 (22 % 23)
unfolding is_fault
reset_word_period_example =
    reset_word_period 22 (replicate 23 in_fault) resetting refl refl refl refl refl refl refl
