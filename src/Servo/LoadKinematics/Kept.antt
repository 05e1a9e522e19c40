-- ===== src/Servo/LoadKinematics/Kept.antt =====
-- What a load of the conversions' numbers in src/master/igh/ethercat_servo.cpp keeps.
use robot_ethercat_master_ig.Prelude.{
  ℕ, zero, suc, ◌+◌, ◌<◌, ◌≡◌, ◌⊎◌, inl, inr, refl, sym, subst, ◌∙◌, Bool, true, false, not, ◌||◌,
  ◌==◌, Option, none, some, List, [], ◌∷◌, ltb, length, if_both, arith,
}
use robot_ethercat_master_ig.Prelude.Int.{pos}
use robot_ethercat_master_ig.Kinematics.{Doubles, MotorKinematicsParams, whole, get, set_params}
use robot_ethercat_master_ig.Profiles.{MotorConfig, MotorProfile}
use robot_ethercat_master_ig.Profiles.Table.{find_by_identity}
use robot_ethercat_master_ig.Profiles.Resolve.{is_cool_drive_jmdt_motor}
use robot_ethercat_master_ig.Axis.{is_non_motion_slave}
use robot_ethercat_master_ig.Pdo.{is_sjd17}
use robot_ethercat_master_ig.Servo.LoadKinematics.{
  from_profile, take_gear, take_position_mode, take_max_current, load_slave, load_slaves,
  try_load_kinematics_from_sdo,
}

module _ {ℓ} {R : Type ℓ} (d : Doubles R) where
  -- The numbers that belong to the joint and not to its drive.
  pub record SameJoint (p q : MotorKinematicsParams R) : Type ℓ where
    pub joint_direction : q.joint_direction ≡ p.joint_direction
    pub position_offset_deg : q.position_offset_deg ≡ p.position_offset_deg
    pub motor_encoder_resolution : q.motor_encoder_resolution ≡ p.motor_encoder_resolution
    pub velocity_on_motor_encoder : q.velocity_on_motor_encoder ≡ p.velocity_on_motor_encoder
    pub rated_torque_motor : q.rated_torque_motor ≡ p.rated_torque_motor
    pub torque_constant_kt : q.torque_constant_kt ≡ p.torque_constant_kt
    pub gear_efficiency : q.gear_efficiency ≡ p.gear_efficiency

  same : (p : MotorKinematicsParams R) → SameJoint p p
  same p = record {
    joint_direction = refl;
    position_offset_deg = refl;
    motor_encoder_resolution = refl;
    velocity_on_motor_encoder = refl;
    rated_torque_motor = refl;
    torque_constant_kt = refl;
    gear_efficiency = refl;
  }

  abbrev Keeps : MotorKinematicsParams R → MotorKinematicsParams R × Bool → Type ℓ
  Keeps p t = SameJoint p t.0

  -- Numbers that agree with `q` in what belongs to the joint.
  carry : (p q r : MotorKinematicsParams R) → SameJoint p q → SameJoint q r → SameJoint p r
  carry p q r h k = record {
    joint_direction = k.joint_direction ∙ h.joint_direction;
    position_offset_deg = k.position_offset_deg ∙ h.position_offset_deg;
    motor_encoder_resolution = k.motor_encoder_resolution ∙ h.motor_encoder_resolution;
    velocity_on_motor_encoder = k.velocity_on_motor_encoder ∙ h.velocity_on_motor_encoder;
    rated_torque_motor = k.rated_torque_motor ∙ h.rated_torque_motor;
    torque_constant_kt = k.torque_constant_kt ∙ h.torque_constant_kt;
    gear_efficiency = k.gear_efficiency ∙ h.gear_efficiency;
  }

  -- The numbers that a drive or a profile gives replace none of the joint's.
  drive_numbers :
      (q : MotorKinematicsParams R) (gear torque_gear encoder current : R) (outer : Bool)
      → SameJoint q (record q {
        gear_ratio = gear;
        torque_gear_ratio = torque_gear;
        encoder_resolution = encoder;
        output_side_encoder = outer;
        max_current_ma = current;
      })
  drive_numbers q gear torque_gear encoder current outer = record {
    joint_direction = refl;
    position_offset_deg = refl;
    motor_encoder_resolution = refl;
    velocity_on_motor_encoder = refl;
    rated_torque_motor = refl;
    torque_constant_kt = refl;
    gear_efficiency = refl;
  }

  from_profile-Keeps :
      (o : Option (MotorProfile R)) (p : MotorKinematicsParams R) → Keeps p (from_profile d o p)
  unfolding from_profile
  from_profile-Keeps none p = same p
  from_profile-Keeps (some profile) p =
      let k = profile.kinematics in
      drive_numbers p k.gear_ratio k.torque_gear_ratio k.encoder_resolution p.max_current_ma
        k.output_side_encoder

  module _ (p : MotorKinematicsParams R) where
    take_gear-Keeps :
        (o : Option ℕ) (t : MotorKinematicsParams R × Bool) → Keeps p t → Keeps p (take_gear d o t)
    unfolding take_gear
    take_gear-Keeps none t h = h
    take_gear-Keeps (some raw) t h =
        let q = t.0 in
        if_both (Keeps p) (ltb 0 raw)
          (carry p q (record q { gear_ratio = d.of_int (pos raw) }) h
            (drive_numbers q (d.of_int (pos raw)) q.torque_gear_ratio q.encoder_resolution
              q.max_current_ma q.output_side_encoder))
          h

    take_position_mode-Keeps :
        (o : Option ℕ) (t : MotorKinematicsParams R × Bool)
        → Keeps p t
        → Keeps p (take_position_mode d o t)
    unfolding take_position_mode
    take_position_mode-Keeps none t h = h
    take_position_mode-Keeps (some mode) t h =
        let q = t.0 in
        let at = λ (n : ℕ) (outer : Bool).
          carry p q (record q { encoder_resolution = whole d n; output_side_encoder = outer }) h
            (drive_numbers q q.gear_ratio q.torque_gear_ratio (whole d n) q.max_current_ma outer) in
        if_both (Keeps p) (mode == 0) (at 262144 true)
          (if_both (Keeps p) (mode == 2) (at 65536 false) h)

    take_max_current-Keeps :
        (o : Option ℕ) (t : MotorKinematicsParams R × Bool)
        → Keeps p t
        → Keeps p (take_max_current d o t)
    unfolding take_max_current
    take_max_current-Keeps none t h = h
    take_max_current-Keeps (some raw) t h =
        let q = t.0 in
        if_both (Keeps p) (ltb 0 raw)
          (carry p q (record q { max_current_ma = d.of_int (pos raw) }) h
            (drive_numbers q q.gear_ratio q.torque_gear_ratio q.encoder_resolution
              (d.of_int (pos raw)) q.output_side_encoder))
          h

  load_slave-Keeps :
      (upload : ℕ → ℕ → Option ℕ) (cfg : MotorConfig) (p : MotorKinematicsParams R)
      → Keeps p (load_slave d upload cfg p)
  unfolding load_slave
  load_slave-Keeps upload cfg p = if_both (Keeps p) (is_non_motion_slave cfg) (same p) (
      if_both (Keeps p) (is_sjd17 cfg || is_cool_drive_jmdt_motor cfg)
        (from_profile-Keeps (find_by_identity d cfg.vendor_id cfg.product_code) p)
        (take_max_current-Keeps p (upload 0x6075 0) _ (
          take_position_mode-Keeps p (upload 0x2016 0) _
            (take_gear-Keeps p (upload 0x200E 2) (p, false) (same p)))))

  get-load_slaves :
      (upload : ℕ → ℕ → ℕ → Option ℕ) (g_params : List (MotorKinematicsParams R)) (i k : ℕ)
      (cfgs : List MotorConfig)
      → k < length cfgs
      → SameJoint (get d g_params (i + k)) (get d (load_slaves d upload g_params i cfgs).0 k)
  unfolding load_slaves
  get-load_slaves upload g_params i k [] h = absurd (omega arith)
  get-load_slaves upload g_params i zero (cfg ∷ rest) h =
      let e : i ≡ i + 0 = omega arith in
      subst
        (λ j.
          SameJoint (get d g_params j)
            (load_slave d (upload cfg.position) cfg (get d g_params i)).0)
        e (load_slave-Keeps (upload cfg.position) cfg (get d g_params i))
  get-load_slaves upload g_params i (suc k) (cfg ∷ rest) h =
      let e : i + 1 + k ≡ i + suc k = omega arith in
      subst
        (λ j. SameJoint (get d g_params j) (get d (load_slaves d upload g_params (i + 1) rest).0 k))
        e (get-load_slaves upload g_params (i + 1) k rest (omega arith))

  set_params-some :
      (k : ℕ) (g_params : List (MotorKinematicsParams R)) (upload : ℕ → ℕ → ℕ → Option ℕ)
      (cfgs : List MotorConfig)
      → k < length cfgs
      → set_params g_params (load_slaves d upload g_params 0 cfgs).0
        ≡ (load_slaves d upload g_params 0 cfgs).0
  unfolding set_params load_slaves
  set_params-some k g_params upload [] h = absurd (omega arith)
  set_params-some k g_params upload (cfg ∷ rest) h = refl

  -- What a load may do to the numbers of the slaves.
  abbrev Loaded :
      List (MotorKinematicsParams R) → ℕ → List (MotorKinematicsParams R) × Bool → Type ℓ
  Loaded g_params k t =
      SameJoint (get d g_params k) (get d t.0 k) × ((t.1 ≡ true) ⊎ (t.0 ≡ g_params))

  -- Whatever the drives answer: of every slave that the servo has, the load keeps the numbers that
  -- belong to the joint (direction, offset, the motor's encoder and its use for the velocity, rated
  -- torque, torque constant, efficiency); and a load that reports nothing new changes nothing.
  pub try_load_kinematics-Keeps :
      (upload : ℕ → ℕ → ℕ → Option ℕ) (ready : Bool) (cfgs : List MotorConfig)
      (g_params : List (MotorKinematicsParams R)) (k : ℕ)
      → k < length cfgs
      → let loaded = try_load_kinematics_from_sdo d upload ready cfgs g_params in
        SameJoint (get d g_params k) (get d loaded.0 k)
        × ((loaded.1 ≡ true) ⊎ (loaded.0 ≡ g_params))
  unfolding try_load_kinematics_from_sdo
  try_load_kinematics-Keeps upload ready cfgs g_params k h =
      let kept : Loaded g_params k (g_params, false) = (same (get d g_params k), inr refl) in
      let loaded = load_slaves d upload g_params 0 cfgs in
      let e : 0 + k ≡ k = omega arith in
      let stored : Loaded g_params k (set_params g_params loaded.0, true) = (
        subst (λ ps. SameJoint (get d g_params k) (get d ps k))
            (sym (set_params-some k g_params upload cfgs h))
            (subst (λ j. SameJoint (get d g_params j) (get d loaded.0 k)) e
              (get-load_slaves upload g_params 0 k cfgs h)),
        inl refl,
      ) in
      if_both (Loaded g_params k) (not ready) kept
        (if_both (Loaded g_params k) loaded.1 stored kept)
