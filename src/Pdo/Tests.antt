-- ===== src/Pdo/Tests.antt =====
-- The tables and the registration of src/master/igh/ethercat_servo.cpp on single slaves.
use robot_ethercat_master_ig.Prelude.{
  ℕ, ◌*◌, ◌<◌, ◌≡◌, refl, true, false, Option, none, some, [], arith, ◌==◌, length, if◌then◌else◌,
}
use robot_ethercat_master_ig.Profiles.{MotorConfig, PdoLayout}
use robot_ethercat_master_ig.Profiles.Resolve.{is_cool_drive_jmdt_motor}
use robot_ethercat_master_ig.Pdo.{
  Direction, total_bits, is_sjd17, joint_rx_entries, joint_tx_entries_xinqi, joint_tx_entries_sjd17,
}
use robot_ethercat_master_ig.Pdo.Gateway.{gateway_pdo_entries, byte_entries}
use robot_ethercat_master_ig.Pdo.Configure.{slave_syncs, joint_syncs, sri_syncs, is_sri_m8126_f32}
use robot_ethercat_master_ig.Pdo.Offsets.{PdoOffsets, drive_start, registered_of, pdo_offset_unset}
use robot_ethercat_master_ig.Pdo.Register.{Request, register_slave, register_list, with_evidence}
use robot_ethercat_master_ig.Pdo.Offers.{offers}
use robot_ethercat_master_ig.Pdo.Mapped.{register_slave-Alike}
use robot_ethercat_master_ig.Pdo.Answers.{
  DriveRegistered, SensorsRegistered, register_slave-Registered,
}
use robot_ethercat_master_ig.Pdo.Total.{register_slave-total}
use robot_ethercat_master_ig.Servo.Startup.{verify_pdo_evidence}
use robot_ethercat_master_ig.Axis.{is_non_motion_slave}
use robot_ethercat_master_ig.Prelude.Int.{pos}
use robot_ethercat_master_ig.Pdo.Configure.{sri_vendor_id, sri_product_f32}
use robot_ethercat_master_ig.Pdo.Mapped.{register_slave-mismatch}
use robot_ethercat_master_ig.Pdo.Receive.{Image, PdoCache, Slave, no_gateway_data, receive_slave}
use robot_ethercat_master_ig.Pdo.Reading.{IsCopy, SensorsCopied, receive_slave-copies}

-- A NH17, whose inputs are 16 bytes.
abbrev xinqi : MotorConfig
xinqi = record {
  alias = 0;
  position = 0;
  vendor_id = 1;
  product_code = 2;
  name = "J1";
  model_id = "nh17";
  pdo_layout = PdoLayout.joint_module;
}

-- The sizes that the code's log names: 14 bytes out, 16 or 22 in; and the gateway's 395 entries.
sizes :
    (total_bits joint_rx_entries ≡ 14 * 8)
    × (total_bits joint_tx_entries_xinqi ≡ 16 * 8)
    × (total_bits joint_tx_entries_sjd17 ≡ 22 * 8)
    × (length gateway_pdo_entries ≡ 395)
unfolding total_bits gateway_pdo_entries byte_entries
sizes = (refl, refl, refl, refl)

-- A library with a place for each object, by its index, and one that has no place for another slave's.
abbrev by_index : Request → Option ℕ
by_index (Request.entry_at index subindex dir) = some index
by_index (Request.entry_pos sync pdo n dir) = some n

abbrev without_5ffe : Request → Option ℕ
without_5ffe (Request.entry_at index subindex dir) = if index == 0x5FFE then none else some index
without_5ffe (Request.entry_pos sync pdo n dir) = some n

same_offered : (r : Request) → offers (joint_syncs false) r ≡ true → by_index r ≡ without_5ffe r
unfolding offers
same_offered (Request.entry_at index subindex dir) h = ground (arith, h)
same_offered (Request.entry_pos sync pdo n dir) h = refl

register_slave-Alike_example :
    register_slave by_index true false xinqi ≡ register_slave without_5ffe true false xinqi
unfolding slave_syncs is_sri_m8126_f32
register_slave-Alike_example =
    register_slave-Alike by_index without_5ffe xinqi true (joint_syncs false) false (λ h. cc) refl
      refl same_offered

abbrev xinqi_offsets : PdoOffsets
xinqi_offsets = record drive_start {
  control_word = 0x6040;
  target_position = 0x607A;
  target_velocity = 0x60FF;
  target_torque = 0x6071;
  operation_mode = 0x6060;
  padding_rx = 5;
  status_word = 0x6041;
  actual_position = 0x6064;
  actual_velocity = 0x606C;
  actual_torque = 0x6077;
  operation_mode_display = 0x6061;
  error_code = 0x603F;
  padding_tx = 6;
}

register_slave-Registered_example :
    DriveRegistered by_index xinqi_offsets
    × SensorsRegistered (is_cool_drive_jmdt_motor xinqi) (is_sjd17 xinqi) by_index xinqi_offsets
unfolding register_slave register_list with_evidence registered_of verify_pdo_evidence
    is_non_motion_slave
register_slave-Registered_example =
    register_slave-Registered by_index true false xinqi xinqi_offsets refl refl

-- A library that answers alike whatever it is asked.
abbrev at_five : Request → Option ℕ
at_five r = some 5

granted :
    (r : Request)
    → offers (joint_syncs false) r ≡ true
    → (o : ℕ) × (at_five r ≡ some o) × (o < pdo_offset_unset)
granted r h = (5, refl, omega arith)

register_slave-total_example :
    (off : PdoOffsets) × (register_slave at_five true false xinqi ≡ some off)
unfolding slave_syncs is_sri_m8126_f32
register_slave-total_example =
    register_slave-total at_five xinqi (joint_syncs false) false granted refl (λ h. cc) refl

-- A force sensor whose identity the bus corrects: its table was chosen by the corrected identity, the
-- objects that it is asked for by the configured one, and the table does not offer them.
corrected_sensor_not_offered :
    offers (sri_syncs true) (Request.entry_at 0x6020 1 Direction.input) ≡ false
unfolding offers
corrected_sensor_not_offered = refl

-- A sensor of floats, told of by the bus; its configuration has told of none.
abbrev float_sensor : MotorConfig
float_sensor = record xinqi {
  vendor_id = sri_vendor_id;
  product_code = sri_product_f32;
  model_id = "";
  pdo_layout = PdoLayout.sri_m8126;
}

-- A library that answers only what the table offers.
abbrev by_table : Request → Option ℕ
by_table r = if offers (sri_syncs true) r then by_index r else none

none_else : (r : Request) → offers (sri_syncs true) r ≡ false → by_table r ≡ none
none_else r h = rw (h) refl

register_slave-mismatch_example : register_slave by_table true false float_sensor ≡ none
unfolding slave_syncs is_sri_m8126_f32
register_slave-mismatch_example =
    register_slave-mismatch by_table float_sensor (sri_syncs true) true false refl refl refl refl
      none_else

-- An image whose numbers are their places.
abbrev image : Image ℕ
image = record {
  u8 = λ o. o;
  u16 = λ o. o;
  u32 = λ o. o;
  s8 = λ o. pos o;
  s16 = λ o. pos o;
  s32 = λ o. pos o;
  bytes = λ o n. [];
  float_of = λ bits. bits;
}

abbrev nothing_read : PdoCache ℕ
nothing_read = record {
  gateway = no_gateway_data;
  force_sensor = record {
    data_no = 0;
    fx = 0;
    fy = 0;
    fz = 0;
    mx = 0;
    my = 0;
    mz = 0;
    fx_i = pos 0;
    fy_i = pos 0;
    fz_i = pos 0;
    mx_i = pos 0;
    my_i = pos 0;
    mz_i = pos 0;
    use_float = false;
    valid = false;
  };
  motor = record {
    status_word = 0;
    operation_mode_display = pos 0;
    error_code = 0;
    actual_position = pos 0;
    actual_velocity = pos 0;
    actual_torque = pos 0;
    sensor_force_2020 = pos 0;
    motor_encoder_2021 = pos 0;
  };
}

abbrev registered_xinqi : Slave
registered_xinqi = record { config = xinqi; use_float = false; offsets = xinqi_offsets }

receive_slave-copies_example :
    IsCopy by_index image (receive_slave image registered_xinqi nothing_read).motor
    × SensorsCopied
        (is_cool_drive_jmdt_motor xinqi)
        (is_sjd17 xinqi)
        by_index
        image
        (receive_slave image registered_xinqi nothing_read).motor
unfolding register_slave register_list with_evidence registered_of verify_pdo_evidence
    is_non_motion_slave
receive_slave-copies_example =
    receive_slave-copies by_index image true registered_xinqi nothing_read refl refl
