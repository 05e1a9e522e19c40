-- ===== src/Axis/ControlWord.antt =====
-- ethercat_servo.cpp, sendDataCommon: what the transmission leaves in the axis, whatever comes in.
use robot_ethercat_master_ig.Prelude.{ℕ, ◌≡◌, ◌⊎◌, Bool, true, false, ◌||◌, arith, ◌==◌}
use robot_ethercat_master_ig.Cia402.{is_fault}
use robot_ethercat_master_ig.Axis.{Axis}
use robot_ethercat_master_ig.Axis.Transmit.{
  CycleView, detect_fault, monitor_enable, recover, clear_phase, reset_step, sequence_step, advance,
  run_fsm, write_control_word, write_mode, send_data_common, send_data_csp, send_data_csv,
  send_data_cst, take_pending, send_axis,
}

-- The words that a motor may be sent.
abbrev pub is_command : ℕ → ℕ → Bool
is_command r w = w == 0x06 || w == 0x07 || w == 0x0F || w == 0x1F || w == r

-- No recovery is counted, nothing waits to be written, and the word is one of those.
pub record IsWorded (r : ℕ) (a : Axis) : Type 0 where
  pub reset_word : a.fault_reset_cw ≡ r
  pub no_recovery : a.fault_reset_counter ≡ 0
  pub no_pending : a.control_word_write_pending ≡ false
  pub commands : is_command r a.control_word_state ≡ true
  pub phase_wished :
      (a.fault_reset_phase ≡ 0) ⊎ (a.fault_reset_phase ≡ 1) ⊎ (a.fault_reset_phase ≡ 2)

module _ {r : ℕ} (v : CycleView) where
  detect_fault-IsWorded : (a : Axis) → IsWorded r a → IsWorded r (detect_fault v a)
  unfolding detect_fault
  detect_fault-IsWorded a p = ground arith

  monitor_enable-IsWorded : (a : Axis) → IsWorded r a → IsWorded r (monitor_enable v a)
  unfolding monitor_enable
  monitor_enable-IsWorded a p = ground arith

  recover-IsWorded : (a : Axis) → IsWorded r a → IsWorded r (recover a)
  unfolding recover
  recover-IsWorded a p = ground arith

  clear_phase-IsWorded :
      (a : Axis)
      → IsWorded r a
      → IsWorded r (clear_phase v a)
        × ((is_fault v.status_word ≡ true) ⊎ ((clear_phase v a).fault_reset_phase ≡ 0))
  unfolding clear_phase
  clear_phase-IsWorded a p = ground arith

  reset_step-IsWorded :
      (a : Axis) → is_fault v.status_word ≡ true → IsWorded r a → IsWorded r (reset_step v a)
  unfolding reset_step
  reset_step-IsWorded a h p = ground arith

  sequence_step-IsWorded : (a : Axis) → IsWorded r a → IsWorded r (sequence_step a)
  unfolding sequence_step
  sequence_step-IsWorded a p = ground arith

  advance-IsWorded : (a : Axis) → IsWorded r a → IsWorded r (advance v a)
  unfolding advance
  advance-IsWorded a p =
      let b = record a { enable_fsm_active = true } in
      let q : IsWorded r b = record {
        reset_word = p.reset_word;
        no_recovery = p.no_recovery;
        no_pending = p.no_pending;
        commands = p.commands;
        phase_wished = p.phase_wished;
      } in
      ground (arith, sequence_step-IsWorded b q, reset_step-IsWorded b, q)

  run_fsm-IsWorded : (a : Axis) → IsWorded r a → IsWorded r (run_fsm v a)
  unfolding run_fsm
  run_fsm-IsWorded a p = advance-IsWorded _ (
      (clear_phase-IsWorded _
        (recover-IsWorded _ (monitor_enable-IsWorded _ (detect_fault-IsWorded a p)))).0)

-- The word in the process image is one of the words, too.
pub record IsSent (r : ℕ) (a : Axis) : Type 0 where
  pub worded : IsWorded r a
  pub sent : is_command r a.image.control_word ≡ true

write_control_word-IsSent :
    {r : ℕ} (activated : Bool) (a : Axis) → IsWorded r a → IsSent r (write_control_word activated a)
unfolding write_control_word
write_control_word-IsSent activated a p = ground arith

module _ {r : ℕ} (activated : Bool) where
  write_mode-IsSent : (a : Axis) → IsSent r a → IsSent r (write_mode a)
  unfolding write_mode
  write_mode-IsSent a p = ground arith

  send_data_csp-IsSent : (a : Axis) → IsSent r a → IsSent r (send_data_csp activated a)
  unfolding send_data_csp
  send_data_csp-IsSent a p = ground arith

  send_data_csv-IsSent : (a : Axis) → IsSent r a → IsSent r (send_data_csv activated a)
  unfolding send_data_csv
  send_data_csv-IsSent a p = ground arith

  send_data_cst-IsSent : (a : Axis) → IsSent r a → IsSent r (send_data_cst a)
  unfolding send_data_cst
  send_data_cst-IsSent a p = ground arith

  take_pending-IsWorded : (a : Axis) → IsWorded r a → IsWorded r (take_pending a)
  unfolding take_pending
  take_pending-IsWorded a p = ground arith

  pub send_axis-IsSent :
      (v : CycleView) (a : Axis) → IsWorded r a → IsSent r (send_axis activated v a)
  unfolding send_axis send_data_common
  send_axis-IsSent v a p = send_data_cst-IsSent _ (
      send_data_csv-IsSent _ (
        send_data_csp-IsSent _ (
          write_mode-IsSent _ (
            write_control_word-IsSent activated _
              (run_fsm-IsWorded v _ (take_pending-IsWorded a p))))))
