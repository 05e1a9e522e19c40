-- ===== src/Pdo/Reading.antt =====
-- What the copies of the inputs in src/master/igh/ethercat_servo.cpp hold, by where the library has
-- placed the slaves' objects.
use mathlib.Core.Option.{some-injective}
use robot_ethercat_master_ig.Prelude.{
  zero, suc, ℕ, ◌<◌, ◌≡◌, refl, ap, Bool, true, false, ◌==◌, Option, some, List, [], ◌∷◌, get_elem?,
  if◌then◌else◌, arith,
}
use robot_ethercat_master_ig.Prelude.Int.{ℤ, pos}
use robot_ethercat_master_ig.Kinematics.{Doubles}
use robot_ethercat_master_ig.Profiles.{PdoLayout}
use robot_ethercat_master_ig.Profiles.Resolve.{is_gateway, is_sri_m8126, is_cool_drive_jmdt_motor}
use robot_ethercat_master_ig.Axis.{is_non_motion_slave}
use robot_ethercat_master_ig.Pdo.{Direction, is_sjd17}
use robot_ethercat_master_ig.Pdo.Offsets.{PdoOffsets, sri_start, pdo_offset_unset}
use robot_ethercat_master_ig.Pdo.Register.{Request, register_list, register_slave, sri_plan}
use robot_ethercat_master_ig.Pdo.Answers.{
  Ran, register_list-Ran, with_evidence-some, DriveRegistered, SensorsRegistered,
  register_slave-Registered,
}
use robot_ethercat_master_ig.Pdo.Receive.{
  Image, MotorCache, ForceSensorCache, receive_slaves, PdoCache, Slave, ForceSensorSample,
  receive_motor, receive_force_sensor, receive_slave, get_force_sensor_sample, sample_of,
  sri_m8126_int32_to_si,
}

-- An object has a place, and a field of the copies holds the image's value at it.
abbrev pub Holds {κ} : {A : Type κ} → (Request → Option ℕ) → ℕ → (ℕ → A) → A → Type κ
Holds f index read value =
    (o : ℕ) × (f (Request.entry_at index 0 Direction.input) ≡ some o) × (value ≡ read o)

-- The copy of an object that counts as missing at offset 0.
abbrev pub unless_first : (ℕ → ℤ) → ℕ → ℤ
unless_first read o = if o == 0 then pos 0 else read o

pub record IsCopy {ℓ} {F : Type ℓ} (f : Request → Option ℕ) (img : Image F) (c : MotorCache)
    : Type 0 where
  pub status_word : Holds f 0x6041 img.u16 c.status_word
  pub operation_mode_display : Holds f 0x6061 img.s8 c.operation_mode_display
  pub actual_position : Holds f 0x6064 img.s32 c.actual_position
  pub actual_velocity : Holds f 0x606C img.s32 c.actual_velocity
  pub actual_torque : Holds f 0x6077 img.s16 c.actual_torque

-- Likewise for what depends on the kind of drive.
abbrev pub SensorsCopied {ℓ} :
    {F : Type ℓ} → Bool → Bool → (Request → Option ℕ) → Image F → MotorCache → Type 0
SensorsCopied true _ f img c =
    Holds f 0x310B (unless_first img.s32) c.sensor_force_2020
    × Holds f 0x3108 (unless_first img.s32) c.motor_encoder_2021
    × (c.error_code ≡ 0)
SensorsCopied false true f img c =
    Holds f 0x2020 (unless_first img.s32) c.sensor_force_2020
    × Holds f 0x2021 (unless_first img.s32) c.motor_encoder_2021
    × (c.error_code ≡ 0)
SensorsCopied false false f img c =
    (c.sensor_force_2020 ≡ pos 0)
    × (c.motor_encoder_2021 ≡ pos 0)
    × Holds f 0x603F (λ o. if o == 0 then 0 else img.u16 o) c.error_code

module _ {ℓ} {F : Type ℓ} (f : Request → Option ℕ) (img : Image F) (off : PdoOffsets) where
  -- Of a place and what is read at it.
  at_place {κ} :
      {A : Type κ} (index n : ℕ) (read : ℕ → A)
      → f (Request.entry_at index 0 Direction.input) ≡ some n
      → Holds f index read (read n)
  at_place index n read given = (n, given, refl)

  sensors-Copied :
      (jmdt sjd17 : Bool)
      → SensorsRegistered jmdt sjd17 f off
      → SensorsCopied jmdt sjd17 f img (receive_motor img off)
  unfolding receive_motor
  sensors-Copied true sjd17 h = (
    at_place 0x310B off.sensor_force_2020 (unless_first img.s32) h.0,
    at_place 0x3108 off.motor_encoder_2021 (unless_first img.s32) h.1,
    ground (arith, h),
  )
  sensors-Copied false true h = (
    at_place 0x2020 off.sensor_force_2020 (unless_first img.s32) h.0,
    at_place 0x2021 off.motor_encoder_2021 (unless_first img.s32) h.1,
    ground (arith, h),
  )
  sensors-Copied false false h = (
    ground (arith, h),
    ground (arith, h),
    at_place 0x603F off.error_code (λ o. if o == 0 then 0 else img.u16 o) h.2,
  )

  drive-Copy : DriveRegistered f off → IsCopy f img (receive_motor img off)
  unfolding receive_motor
  drive-Copy d = record {
    status_word = at_place 0x6041 off.status_word img.u16 d.status_word;
    operation_mode_display =
        at_place 0x6061 off.operation_mode_display img.s8 d.operation_mode_display;
    actual_position = at_place 0x6064 off.actual_position img.s32 d.actual_position;
    actual_velocity = at_place 0x606C off.actual_velocity img.s32 d.actual_velocity;
    actual_torque = at_place 0x6077 off.actual_torque img.s16 d.actual_torque;
  }

-- What a cycle copies of a registered motor is what the process image holds where the library has
-- placed the motor's objects, each read in its own width: the status word, the mode display and the
-- actual values; its sensors and its error code likewise, save that a place at the image's very start
-- counts as none. What the kind of drive does not exchange is 0.
pub receive_slave-copies {ℓ} :
    {F : Type ℓ} (f : Request → Option ℕ) (img : Image F) (configured : Bool) (s : Slave)
    (c : PdoCache F)
    → is_non_motion_slave s.config ≡ false
    → register_slave f configured s.use_float s.config ≡ some s.offsets
    → IsCopy f img (receive_slave img s c).motor
      × SensorsCopied
          (is_cool_drive_jmdt_motor s.config)
          (is_sjd17 s.config)
          f
          img
          (receive_slave img s c).motor
unfolding receive_slave is_non_motion_slave
receive_slave-copies f img configured s c motion h =
    let r = register_slave-Registered f configured s.use_float s.config s.offsets motion h in
    let gw : is_gateway s.config ≡ false = ground (arith, motion) in
    let sri : is_sri_m8126 s.config ≡ false = ground (arith, motion) in
    rw (gw, sri)
      (
        drive-Copy f img s.offsets r.0,
        sensors-Copied f img s.offsets (is_cool_drive_jmdt_motor s.config) (is_sjd17 s.config) r.1,
      )

-- A force sensor's object, as the library has placed it.
abbrev pub Placed : (Request → Option ℕ) → Bool → ℕ → ℕ → Type 0
Placed f use_float subindex o =
    (f (Request.entry_at (if use_float then 0x6030 else 0x6020) subindex Direction.input) ≡ some o)
    × (o < pdo_offset_unset)

-- Where the number and the six components lie.
pub record SensorPlaces (f : Request → Option ℕ) (use_float : Bool) : Type 0 where
  pub number : ℕ
  pub fx : ℕ
  pub fy : ℕ
  pub fz : ℕ
  pub mx : ℕ
  pub my : ℕ
  pub mz : ℕ
  pub number_placed : Placed f use_float 1 number
  pub fx_placed : Placed f use_float 2 fx
  pub fy_placed : Placed f use_float 3 fy
  pub fz_placed : Placed f use_float 4 fz
  pub mx_placed : Placed f use_float 5 mx
  pub my_placed : Placed f use_float 6 my
  pub mz_placed : Placed f use_float 7 mz

-- The offsets of a registered sensor are its places.
sensor_offsets :
    (use_float : Bool) (f : Request → Option ℕ) (off : PdoOffsets)
    → Ran f (sri_plan use_float) sri_start off
    → (p : SensorPlaces f use_float)
    → (off.sri_data_no ≡ p.number)
      × (off.sri_fx ≡ p.fx)
      × (off.sri_fy ≡ p.fy)
      × (off.sri_fz ≡ p.fz)
      × (off.sri_mx ≡ p.mx)
      × (off.sri_my ≡ p.my)
      × (off.sri_mz ≡ p.mz)
sensor_offsets true f off h p = ground (arith, h, p.number_placed)
sensor_offsets false f off h p = ground (arith, h, p.number_placed)

module _ {ℓ κ} {F : Type ℓ} {R : Type κ} (d : Doubles R) (to_double : F → R) (img : Image F) where
  -- A component at a place, by the kind of number.
  abbrev pub component : Bool → ℕ → R
  component true o = to_double (img.float_of (img.u32 o))
  component false o = sri_m8126_int32_to_si d to_double (img.s32 o)

  abbrev pub sample_at :
      (f : Request → Option ℕ) (use_float : Bool) → SensorPlaces f use_float → ForceSensorSample R
  sample_at f use_float p = record {
    data_no = img.u16 p.number;
    fx = component use_float p.fx;
    fy = component use_float p.fy;
    fz = component use_float p.fz;
    mx = component use_float p.mx;
    my = component use_float p.my;
    mz = component use_float p.mz;
  }

  get_elem?-receive_slaves :
      (slaves : List (Slave × PdoCache F)) (i : ℕ) (s : Slave) (c : PdoCache F)
      → get_elem? slaves i ≡ some (s, c)
      → get_elem? (receive_slaves img slaves) i ≡ some (s, receive_slave img s c)
  unfolding receive_slaves
  get_elem?-receive_slaves [] i s c h = cc
  get_elem?-receive_slaves ((t, b) ∷ rest) zero s c h =
      ap (λ (x : Slave × PdoCache F). some (x.0, receive_slave img x.0 x.1))
        (some-injective {A = Slave × PdoCache F} (t, b) (s, c) h)
  get_elem?-receive_slaves ((t, b) ∷ rest) (suc i) s c h = get_elem?-receive_slaves rest i s c h

  received-sample :
      (use_float : Bool) (f : Request → Option ℕ) (off : PdoOffsets) (fc : ForceSensorCache F)
      → Ran f (sri_plan use_float) sri_start off
      → (p : SensorPlaces f use_float)
      → (sample_of d to_double (receive_force_sensor img off use_float fc)
          ≡ sample_at f use_float p)
        × ((receive_force_sensor img off use_float fc).valid ≡ true)
  unfolding sample_of receive_force_sensor
  received-sample true f off fc h p =
      let e = sensor_offsets true f off h p in ground (arith, e, p.number_placed, p.fx_placed)
  received-sample false f off fc h p =
      let e = sensor_offsets false f off h p in ground (arith, e, p.number_placed, p.fx_placed)

  -- A force sensor that is registered, and whose objects the library has placed below the mark for
  -- none, gives a sample after every cycle: the number and the six components that the process image
  -- holds at those places, each as a float or scaled from an integer by the kind of the sensor.
  pub registered_sensor_sampled :
      (f : Request → Option ℕ) (slaves : List (Slave × PdoCache F)) (i : ℕ) (s : Slave)
      (c : PdoCache F)
      → get_elem? slaves i ≡ some (s, c)
      → is_gateway s.config ≡ false
      → s.config.pdo_layout ≡ PdoLayout.sri_m8126
      → register_slave f true s.use_float s.config ≡ some s.offsets
      → (p : SensorPlaces f s.use_float)
      → get_force_sensor_sample d to_double (receive_slaves img slaves) i
        ≡ some (sample_at f s.use_float p)
  unfolding get_force_sensor_sample receive_slave register_slave
  registered_sensor_sampled f slaves i s c here drive layout h p =
      let plan = sri_plan s.use_float in
      let e =
        with_evidence-some s.config (register_list f plan sri_start) s.offsets
          (ground (arith, drive, layout, h)) in
      let r =
        received-sample s.use_float f s.offsets c.force_sensor
          (register_list-Ran f plan sri_start s.offsets e) p in
      let there = get_elem?-receive_slaves slaves i s c here in
      ground (arith, there, drive, layout, r)
