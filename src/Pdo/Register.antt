-- ===== src/Pdo/Register.antt =====
-- `registerPDOEntries` of src/master/igh/ethercat_servo.cpp: the requests to the library in their order,
-- each with the offset that its answer is put in. The library's answers are an argument, `none` for an
-- error. A slave that fails ends the registration; the code has then overwritten some offsets, which
-- count only where it ends well.
use robot_ethercat_master_ig.Prelude.{
  ℕ, zero, suc, ◌+◌, Bool, true, false, not, Option, none, some, List, [], ◌∷◌, ◌++◌, if◌then◌else◌,
}
use robot_ethercat_master_ig.Profiles.{MotorConfig}
use robot_ethercat_master_ig.Profiles.Resolve.{
  is_gateway, is_sri_m8126, is_joint_module_motor, is_cool_drive_jmdt_motor,
}
use robot_ethercat_master_ig.Servo.Startup.{verify_pdo_evidence}
use robot_ethercat_master_ig.Pdo.{Direction, is_sjd17}
use robot_ethercat_master_ig.Pdo.Offsets.{
  PdoOffsets, no_offsets, drive_start, sri_start, registered_of,
}

-- By object, with the domain that it is asked for in, and by place in a sync manager's PDO.
pub data Request : Type 0 where
  entry_at : ℕ → ℕ → Direction → Request
  entry_pos : ℕ → ℕ → ℕ → Direction → Request

abbrev pub Plan : Type 0
Plan = List (Request × (ℕ → PdoOffsets → PdoOffsets))

unfoldable pub register_list : (Request → Option ℕ) → Plan → PdoOffsets → Option PdoOffsets
register_list answer [] off = some off
register_list answer ((r, put) ∷ rest) off = elim (answer r) [
  | none ↦ none
  | some o ↦ register_list answer rest (put o off)
]

-- A gap, by its place.
abbrev gap : ℕ → ℕ → Direction → (ℕ → PdoOffsets → PdoOffsets) → Plan
gap sync pos dir put = (Request.entry_pos sync 0 pos dir, put) ∷ []

abbrev pub joint_common : Plan
joint_common =
    (Request.entry_at 0x6040 0 Direction.output, λ o off. record off { control_word = o })
    ∷ (Request.entry_at 0x607A 0 Direction.output, λ o off. record off { target_position = o })
    ∷ (Request.entry_at 0x60FF 0 Direction.output, λ o off. record off { target_velocity = o })
    ∷ (Request.entry_at 0x6071 0 Direction.output, λ o off. record off { target_torque = o })
    ∷ (Request.entry_at 0x6060 0 Direction.output, λ o off. record off { operation_mode = o })
    ∷ (Request.entry_pos 2 0 5 Direction.output, λ o off. record off { padding_rx = o })
    ∷ (Request.entry_at 0x6041 0 Direction.input, λ o off. record off { status_word = o })
    ∷ (Request.entry_at 0x6064 0 Direction.input, λ o off. record off { actual_position = o })
    ∷ (Request.entry_at 0x606C 0 Direction.input, λ o off. record off { actual_velocity = o })
    ∷ (Request.entry_at 0x6077 0 Direction.input, λ o off. record off { actual_torque = o })
    ∷ (
      Request.entry_at 0x6061 0 Direction.input,
      λ o off. record off { operation_mode_display = o },
    )
    ∷ []

abbrev pub joint_rest : Bool → Plan
joint_rest true =
    (Request.entry_at 0x2020 0 Direction.input, λ o off. record off { sensor_force_2020 = o })
    ∷ (Request.entry_at 0x2021 0 Direction.input, λ o off. record off { motor_encoder_2021 = o })
    ∷ (Request.entry_pos 3 0 7 Direction.input, λ o off. record off { padding_tx = o })
    ∷ []
joint_rest false =
    (
      Request.entry_at 0x603F 0 Direction.input,
      λ o off. record off { sensor_force_2020 = 0; motor_encoder_2021 = 0; error_code = o },
    )
    ∷ (Request.entry_pos 3 0 6 Direction.input, λ o off. record off { padding_tx = o })
    ∷ []

abbrev pub jmdt_plan : Plan
jmdt_plan =
    (Request.entry_at 0x6040 0 Direction.output, λ o off. record off { control_word = o })
    ∷ (Request.entry_at 0x6060 0 Direction.output, λ o off. record off { operation_mode = o })
    ∷ (Request.entry_at 0x5FFE 0 Direction.output, λ o off. record off { padding_rx = o })
    ∷ (Request.entry_at 0x607A 0 Direction.output, λ o off. record off { target_position = o })
    ∷ (Request.entry_at 0x60FF 0 Direction.output, λ o off. record off { target_velocity = o })
    ∷ (Request.entry_at 0x6071 0 Direction.output, λ o off. record off { target_torque = o })
    ∷ (Request.entry_at 0x6041 0 Direction.input, λ o off. record off { status_word = o })
    ∷ (
      Request.entry_at 0x6061 0 Direction.input,
      λ o off. record off { operation_mode_display = o },
    )
    ∷ (Request.entry_at 0x5FFE 0 Direction.input, λ o off. record off { padding_tx = o })
    ∷ (Request.entry_at 0x6064 0 Direction.input, λ o off. record off { actual_position = o })
    ∷ (Request.entry_at 0x606C 0 Direction.input, λ o off. record off { actual_velocity = o })
    ∷ (Request.entry_at 0x6077 0 Direction.input, λ o off. record off { actual_torque = o })
    ∷ (Request.entry_at 0x310B 0 Direction.input, λ o off. record off { sensor_force_2020 = o })
    ∷ (Request.entry_at 0x3108 0 Direction.input, λ o off. record off { motor_encoder_2021 = o })
    ∷ []

abbrev pub sri_plan : Bool → Plan
sri_plan use_f32 =
    let tx_index = if use_f32 then 0x6030 else 0x6020 in
    (Request.entry_at 0x7010 1 Direction.output, λ o off. record off { sri_para1 = o })
    ∷ (Request.entry_at 0x7010 2 Direction.output, λ o off. record off { sri_para2 = o })
    ∷ (Request.entry_at 0x7010 3 Direction.output, λ o off. record off { sri_para3 = o })
    ∷ (Request.entry_at tx_index 1 Direction.input, λ o off. record off { sri_data_no = o })
    ∷ (Request.entry_at tx_index 2 Direction.input, λ o off. record off { sri_fx = o })
    ∷ (Request.entry_at tx_index 3 Direction.input, λ o off. record off { sri_fy = o })
    ∷ (Request.entry_at tx_index 4 Direction.input, λ o off. record off { sri_fz = o })
    ∷ (Request.entry_at tx_index 5 Direction.input, λ o off. record off { sri_mx = o })
    ∷ (Request.entry_at tx_index 6 Direction.input, λ o off. record off { sri_my = o })
    ∷ (Request.entry_at tx_index 7 Direction.input, λ o off. record off { sri_mz = o })
    ∷ []

-- The loops over the other bytes of an object, which all ask for the output domain.
unfoldable pub byte_plan : ℕ → ℕ → ℕ → Plan
byte_plan index subindex zero = []
byte_plan index subindex (suc n) =
    (Request.entry_at index subindex Direction.output, λ _ off. off)
    ∷ byte_plan index (subindex + 1) n

unfoldable pub can_tx_plan : Plan
unfolding byte_plan
can_tx_plan =
    (
      Request.entry_at 0x2000 0x01 Direction.output,
      λ o off. record off { can_tx_id = o; canfd_tx_id = o },
    )
    ∷ (
      Request.entry_at 0x2000 0x02 Direction.output,
      λ o off. record off { can_tx_length = o; canfd_tx_length = o },
    )
    ∷ (
      Request.entry_at 0x2000 0x03 Direction.output,
      λ o off. record off { can_tx_data = o; canfd_tx_data = o },
    )
    ∷ byte_plan 0x2000 0x04 0x3E

unfoldable pub rs485_1_rx_plan : Plan
unfolding byte_plan
rs485_1_rx_plan =
    (Request.entry_at 0x2002 0x01 Direction.output, λ o off. record off { rs485_1_rx_length = o })
    ∷ (Request.entry_at 0x2002 0x02 Direction.output, λ o off. record off { rs485_1_rx_data = o })
    ∷ byte_plan 0x2002 0x03 0x3F

unfoldable pub rs485_2_rx_plan : Plan
unfolding byte_plan
rs485_2_rx_plan =
    (Request.entry_at 0x2004 0x01 Direction.output, λ o off. record off { rs485_2_rx_length = o })
    ∷ (Request.entry_at 0x2004 0x02 Direction.output, λ o off. record off { rs485_2_rx_data = o })
    ∷ byte_plan 0x2004 0x03 0x3F

unfoldable pub can_rx_plan : Plan
unfolding byte_plan
can_rx_plan =
    (
      Request.entry_at 0x2001 0x01 Direction.input,
      λ o off. record off { can_rx_id = o; canfd_rx_id = o },
    )
    ∷ (
      Request.entry_at 0x2001 0x02 Direction.input,
      λ o off. record off { can_rx_length = o; canfd_rx_length = o },
    )
    ∷ (
      Request.entry_at 0x2001 0x03 Direction.input,
      λ o off. record off { can_rx_data = o; canfd_rx_data = o },
    )
    ∷ byte_plan 0x2001 0x04 0x3F

unfoldable pub rs485_1_tx_plan : Plan
unfolding byte_plan
rs485_1_tx_plan =
    (Request.entry_at 0x2003 0x01 Direction.input, λ o off. record off { rs485_1_tx_length = o })
    ∷ (Request.entry_at 0x2003 0x02 Direction.input, λ o off. record off { rs485_1_tx_data = o })
    ∷ byte_plan 0x2003 0x03 0x3F

unfoldable pub gateway_plan : Plan
unfolding can_tx_plan rs485_1_rx_plan rs485_2_rx_plan can_rx_plan rs485_1_tx_plan
gateway_plan = can_tx_plan ++ rs485_1_rx_plan ++ rs485_2_rx_plan ++ can_rx_plan ++ rs485_1_tx_plan

-- The second RS485 line's transmission, which a gateway may lack: an object that is not there is
-- skipped. The other bytes' answers are only counted for the log.
unfoldable pub register_optional : (Request → Option ℕ) → PdoOffsets → PdoOffsets
register_optional answer off = elim (answer (Request.entry_at 0x2005 0x01 Direction.input)) [
  | none ↦ record off { rs485_2_tx_length = 0; rs485_2_tx_data = 0 }
  | some o ↦ record off {
    rs485_2_tx_length = o;
    rs485_2_tx_data = elim (answer (Request.entry_at 0x2005 0x02 Direction.input)) [
      | none ↦ 0
      | some o' ↦ o'
    ];
  }
]

unfoldable pub register_gateway : (Request → Option ℕ) → Option PdoOffsets
unfolding register_list gateway_plan register_optional
register_gateway answer = elim (register_list answer gateway_plan no_offsets) [
  | none ↦ none
  | some off ↦ some (register_optional answer off)
]

-- `verifyPdoEvidence` on the offsets.
unfoldable pub with_evidence : MotorConfig → Option PdoOffsets → Option PdoOffsets
unfolding registered_of verify_pdo_evidence
with_evidence cfg none = none
with_evidence cfg (some off) =
    if verify_pdo_evidence cfg (registered_of off) then some off else none

abbrev pub joint_plan : Bool → Plan
joint_plan sjd17 = joint_common ++ joint_rest sjd17

-- `configured`: whether the library has the slave; `use_float`: `sri_use_float_`.
unfoldable pub register_slave : (Request → Option ℕ) → Bool → Bool → MotorConfig → Option PdoOffsets
unfolding register_gateway register_list with_evidence
register_slave answer configured use_float cfg =
    if is_gateway cfg
    then if not configured then none else register_gateway answer
    else if is_sri_m8126 cfg
    then if not configured
      then none
      else with_evidence cfg (register_list answer (sri_plan use_float) sri_start)
    else if is_joint_module_motor cfg
    then with_evidence cfg (register_list answer (joint_plan (is_sjd17 cfg)) drive_start)
    else if is_cool_drive_jmdt_motor cfg
    then with_evidence cfg (register_list answer jmdt_plan drive_start)
    else none

-- From index `i` on; each slave comes with its `sri_use_float_`.
unfoldable pub register_pdo_entries :
    (ℕ → Request → Option ℕ) → (ℕ → Bool) → ℕ → List (MotorConfig × Bool) → Option (List PdoOffsets)
unfolding register_slave
register_pdo_entries answer configured i [] = some []
register_pdo_entries answer configured i ((cfg, use_float) ∷ rest) =
    elim (register_slave (answer i) (configured i) use_float cfg) [
      | none ↦ none
      | some off ↦ elim (register_pdo_entries answer configured (suc i) rest) [
        | none ↦ none
        | some offs ↦ some (off ∷ offs)
      ]
    ]
