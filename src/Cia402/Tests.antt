-- ===== src/Cia402/Tests.antt =====
-- Status words of a drive.
use robot_ethercat_master_ig.Prelude.{◌≡◌, refl, true, arith, inr}
use robot_ethercat_master_ig.Cia402.{
  Cia402State, decode_cia402_state, is_fault, is_operation_enabled,
}
use robot_ethercat_master_ig.Cia402.Decoding.{
  is_faulty, is_fault-decode, decode-pattern, is_operation_enabled-running,
}

fault_word_is_decoded : is_fault 0x0218 ≡ is_faulty (decode_cia402_state 0x0218)
fault_word_is_decoded = is_fault-decode 0x0218 (omega arith)

word_is_decoded : decode_cia402_state 0x0237 ≡ Cia402State.operation_enabled
word_is_decoded = decode-pattern Cia402State.operation_enabled 0x0237 (omega arith) refl

enabled_word_is_running : is_operation_enabled 0x0217 ≡ true
unfolding decode_cia402_state
enabled_word_is_running = is_operation_enabled-running 0x0217 (omega arith) (inr refl)
