-- ===== src/Cia402.antt =====
-- src/ethercat_master_igh/include/ethercat_joint/servo/cia402.hpp: modes, control words and the
-- decoding of the status word.
pub mod Decoding
mod Tests
use Prim.Native.String.{String}
use robot_ethercat_master_ig.Prelude.{
  ℕ, Bool, not, ◌&&◌, List, [], ◌∷◌, bit_and, ◌==◌, if◌then◌else◌,
}
use robot_ethercat_master_ig.Prelude.Int.{ℤ, pos}

pub data OperationMode : Type 0 where
  no_mode profile_position profile_velocity profile_torque homing interpolated_position
        cyclic_sync_position cyclic_sync_velocity cyclic_sync_torque :
      OperationMode

-- The enumerator's value, which is what the process image carries.
abbrev pub mode_value : OperationMode → ℤ
mode_value no_mode = pos 0
mode_value profile_position = pos 1
mode_value profile_velocity = pos 3
mode_value profile_torque = pos 4
mode_value homing = pos 6
mode_value interpolated_position = pos 7
mode_value cyclic_sync_position = pos 8
mode_value cyclic_sync_velocity = pos 9
mode_value cyclic_sync_torque = pos 10

pub data Cia402State : Type 0 where
  not_ready_to_switch_on switch_on_disabled ready_to_switch_on switched_on operation_enabled
        quick_stop_active fault_reaction_active fault :
      Cia402State

abbrev pub state_value : Cia402State → ℕ
state_value not_ready_to_switch_on = 0x00
state_value switch_on_disabled = 0x40
state_value ready_to_switch_on = 0x21
state_value switched_on = 0x23
state_value operation_enabled = 0x27
state_value quick_stop_active = 0x07
state_value fault_reaction_active = 0x0F
state_value fault = 0x08

abbrev pub control_word_switch_on : ℕ
control_word_switch_on = 0x06

abbrev pub control_word_enable_voltage : ℕ
control_word_enable_voltage = 0x07

abbrev pub control_word_enable_operation : ℕ
control_word_enable_operation = 0x0F

abbrev pub control_word_keep_operation : ℕ
control_word_keep_operation = 0x1F

abbrev pub control_word_fault_reset : ℕ
control_word_fault_reset = 0x86

abbrev pub enable_sequence : List ℕ
enable_sequence =
    control_word_switch_on ∷ control_word_enable_voltage ∷ control_word_enable_operation
    ∷ control_word_keep_operation ∷ []

abbrev pub disable_sequence : List ℕ
disable_sequence =
    control_word_keep_operation ∷ control_word_enable_operation ∷ control_word_enable_voltage
    ∷ control_word_switch_on ∷ []

unfoldable pub is_operation_enabled : ℕ → Bool
is_operation_enabled status_word =
    bit_and status_word 0x08 == 0 && not (bit_and status_word 0x04 == 0)

unfoldable pub is_fault : ℕ → Bool
is_fault status_word = not (bit_and status_word 0x08 == 0)

unfoldable pub decode_cia402_state : ℕ → Cia402State
decode_cia402_state status_word =
    let key_bits = bit_and status_word 0x4F in
    let ready_bits = bit_and status_word 0x6F in
    if key_bits == 0x00
    then not_ready_to_switch_on
    else if key_bits == 0x40
    then switch_on_disabled
    else if ready_bits == 0x21
    then ready_to_switch_on
    else if ready_bits == 0x23
    then switched_on
    else if ready_bits == 0x27
    then operation_enabled
    else if ready_bits == 0x07
    then quick_stop_active
    else if key_bits == 0x0F
    then fault_reaction_active
    else if bit_and key_bits 0x08 == 0x08
    then fault
    else not_ready_to_switch_on

-- `switch` on the number: any other value has no name.
unfoldable pub cia402_state_name : ℕ → String
cia402_state_name state =
    if state == 0x00
    then "NOT_READY_TO_SWITCH_ON"
    else if state == 0x40
    then "SWITCH_ON_DISABLED"
    else if state == 0x21
    then "READY_TO_SWITCH_ON"
    else if state == 0x23
    then "SWITCHED_ON"
    else if state == 0x27
    then "OPERATION_ENABLED"
    else if state == 0x07
    then "QUICK_STOP_ACTIVE"
    else if state == 0x0F
    then "FAULT_REACTION_ACTIVE"
    else if state == 0x08
    then "FAULT"
    else "UNKNOWN"
