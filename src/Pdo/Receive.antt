-- ===== src/Pdo/Receive.antt =====
-- `receiveData` and `getForceSensorSample` of src/master/igh/ethercat_servo.cpp: the copies of the
-- inputs. The library's macros that read the process image at an offset are the fields of Image.
use robot_ethercat_master_ig.Prelude.{
  ℕ, Bool, not, ◌&&◌, ◌||◌, ◌==◌, Option, none, some, List, [], ◌∷◌, replicate, get_elem?,
  if◌then◌else◌,
}
use robot_ethercat_master_ig.Prelude.Int.{ℤ, pos}
use robot_ethercat_master_ig.Kinematics.{Doubles}
use robot_ethercat_master_ig.Profiles.{MotorConfig}
use robot_ethercat_master_ig.Profiles.Resolve.{is_gateway, is_sri_m8126}
use robot_ethercat_master_ig.Pdo.Offsets.{PdoOffsets, pdo_offset_unset}

-- `float_of`: the number of the type float with the bits.
pub record Image {ℓ} (F : Type ℓ) : Type ℓ where
  pub u8 : ℕ → ℕ
  pub u16 : ℕ → ℕ
  pub u32 : ℕ → ℕ
  pub s8 : ℕ → ℤ
  pub s16 : ℕ → ℤ
  pub s32 : ℕ → ℤ
  pub bytes : ℕ → ℕ → List ℕ
  pub float_of : ℕ → F

pub record GatewayData : Type 0 where
  pub can_rx_id : ℕ  -- uint32_t
  pub can_rx_length : ℕ  -- uint8_t
  pub can_rx_data : List ℕ
  pub rs485_1_tx_length : ℕ  -- uint8_t
  pub rs485_1_tx_data : List ℕ
  pub rs485_2_tx_length : ℕ  -- uint8_t
  pub rs485_2_tx_data : List ℕ

abbrev pub no_gateway_data : GatewayData
no_gateway_data = record {
  can_rx_id = 0;
  can_rx_length = 0;
  can_rx_data = replicate 64 0;
  rs485_1_tx_length = 0;
  rs485_1_tx_data = replicate 64 0;
  rs485_2_tx_length = 0;
  rs485_2_tx_data = replicate 64 0;
}

pub record ForceSensorCache {ℓ} (F : Type ℓ) : Type ℓ where
  pub data_no : ℕ  -- uint16_t
  pub fx : F
  pub fy : F
  pub fz : F
  pub mx : F
  pub my : F
  pub mz : F
  pub fx_i : ℤ
  pub fy_i : ℤ
  pub fz_i : ℤ
  pub mx_i : ℤ
  pub my_i : ℤ
  pub mz_i : ℤ
  pub use_float : Bool
  pub valid : Bool

-- The copies of a motor's inputs.
pub record MotorCache : Type 0 where
  pub status_word : ℕ  -- uint16_t
  pub operation_mode_display : ℤ
  pub error_code : ℕ  -- uint16_t
  pub actual_position : ℤ
  pub actual_velocity : ℤ
  pub actual_torque : ℤ
  pub sensor_force_2020 : ℤ
  pub motor_encoder_2021 : ℤ

module _ {ℓ} {F : Type ℓ} (img : Image F) where
  -- A read that an offset of 0 leaves out.
  abbrev keep {κ} : {A : Type κ} → ℕ → A → (ℕ → A) → A
  keep offset old read = if offset == 0 then old else read offset

  unfoldable pub receive_gateway : PdoOffsets → GatewayData → GatewayData
  receive_gateway off gw = record gw {
    can_rx_id = keep off.can_rx_id gw.can_rx_id img.u32;
    can_rx_length = keep off.can_rx_length gw.can_rx_length img.u8;
    can_rx_data = keep off.can_rx_data gw.can_rx_data (λ o. img.bytes o 64);
    rs485_1_tx_length = keep off.rs485_1_tx_length gw.rs485_1_tx_length img.u8;
    rs485_1_tx_data = keep off.rs485_1_tx_data gw.rs485_1_tx_data (λ o. img.bytes o 64);
    rs485_2_tx_length = keep off.rs485_2_tx_length gw.rs485_2_tx_length img.u8;
    rs485_2_tx_data = keep off.rs485_2_tx_data gw.rs485_2_tx_data (λ o. img.bytes o 64);
  }

  abbrev read_float_le : ℕ → F
  read_float_le o = img.float_of (img.u32 o)

  unfoldable pub receive_force_sensor : PdoOffsets → Bool → ForceSensorCache F → ForceSensorCache F
  receive_force_sensor off use_float fc =
      let numbered = not (off.sri_data_no == pdo_offset_unset) in
      let measured = not (off.sri_fx == pdo_offset_unset) in
      let floats = use_float && measured in
      let ints = not use_float && measured in
      record {
        data_no = if numbered then img.u16 off.sri_data_no else fc.data_no;
        fx = if floats then read_float_le off.sri_fx else fc.fx;
        fy = if floats then read_float_le off.sri_fy else fc.fy;
        fz = if floats then read_float_le off.sri_fz else fc.fz;
        mx = if floats then read_float_le off.sri_mx else fc.mx;
        my = if floats then read_float_le off.sri_my else fc.my;
        mz = if floats then read_float_le off.sri_mz else fc.mz;
        fx_i = if ints then img.s32 off.sri_fx else fc.fx_i;
        fy_i = if ints then img.s32 off.sri_fy else fc.fy_i;
        fz_i = if ints then img.s32 off.sri_fz else fc.fz_i;
        mx_i = if ints then img.s32 off.sri_mx else fc.mx_i;
        my_i = if ints then img.s32 off.sri_my else fc.my_i;
        mz_i = if ints then img.s32 off.sri_mz else fc.mz_i;
        use_float = use_float;
        valid = numbered;
      }

  unfoldable pub receive_motor : PdoOffsets → MotorCache
  receive_motor off = record {
    status_word = img.u16 off.status_word;
    operation_mode_display = img.s8 off.operation_mode_display;
    error_code = keep off.error_code 0 img.u16;
    actual_position = img.s32 off.actual_position;
    actual_velocity = img.s32 off.actual_velocity;
    actual_torque = img.s16 off.actual_torque;
    sensor_force_2020 = keep off.sensor_force_2020 (pos 0) img.s32;
    motor_encoder_2021 = keep off.motor_encoder_2021 (pos 0) img.s32;
  }

-- What is kept of a slave's inputs; each kind of slave has its own part.
pub record PdoCache {ℓ} (F : Type ℓ) : Type ℓ where
  pub gateway : GatewayData
  pub force_sensor : ForceSensorCache F
  pub motor : MotorCache

-- A slave as registered: its configuration, `sri_use_float_` and its offsets.
pub record Slave : Type 0 where
  pub config : MotorConfig
  pub use_float : Bool
  pub offsets : PdoOffsets

module _ {ℓ} {F : Type ℓ} where
  unfoldable pub receive_slave : Image F → Slave → PdoCache F → PdoCache F
  unfolding receive_gateway receive_force_sensor receive_motor
  receive_slave img s c =
      if is_gateway s.config
      then record c { gateway = receive_gateway img s.offsets c.gateway }
      else if is_sri_m8126 s.config
      then record c { force_sensor = receive_force_sensor img s.offsets s.use_float c.force_sensor }
      else record c { motor = receive_motor img s.offsets }

  -- The loop over the slaves, of an active servo.
  unfoldable pub receive_slaves : Image F → List (Slave × PdoCache F) → List (Slave × PdoCache F)
  unfolding receive_slave
  receive_slaves img [] = []
  receive_slaves img ((s, c) ∷ rest) = (s, receive_slave img s c) ∷ receive_slaves img rest

-- A force sensor's sample, in the units of the SI.
pub record ForceSensorSample {ℓ} (R : Type ℓ) : Type ℓ where
  pub data_no : ℕ  -- uint16_t
  pub fx : R
  pub fy : R
  pub fz : R
  pub mx : R
  pub my : R
  pub mz : R

module _ {ℓ κ} {F : Type ℓ} {R : Type κ} (d : Doubles R) (to_double : F → R) where
  abbrev pub sri_m8126_int32_to_si : ℤ → R
  sri_m8126_int32_to_si raw = d.div (d.of_int raw) (d.decimal 10000 0)

  -- From a valid copy.
  unfoldable pub sample_of : ForceSensorCache F → ForceSensorSample R
  sample_of fc = record {
    data_no = fc.data_no;
    fx = if fc.use_float then to_double fc.fx else sri_m8126_int32_to_si fc.fx_i;
    fy = if fc.use_float then to_double fc.fy else sri_m8126_int32_to_si fc.fy_i;
    fz = if fc.use_float then to_double fc.fz else sri_m8126_int32_to_si fc.fz_i;
    mx = if fc.use_float then to_double fc.mx else sri_m8126_int32_to_si fc.mx_i;
    my = if fc.use_float then to_double fc.my else sri_m8126_int32_to_si fc.my_i;
    mz = if fc.use_float then to_double fc.mz else sri_m8126_int32_to_si fc.mz_i;
  }

  -- `none` where the call returns false; the caller's sample is then the one with `valid` not set.
  unfoldable pub get_force_sensor_sample :
      List (Slave × PdoCache F) → ℕ → Option (ForceSensorSample R)
  unfolding sample_of
  get_force_sensor_sample slaves slave_id = elim (get_elem? slaves slave_id) [
    | none ↦ none
    | some (s, c) ↦
        if not (is_sri_m8126 s.config) || not c.force_sensor.valid
        then none
        else some (sample_of c.force_sensor)
  ]
