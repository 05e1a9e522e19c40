-- ===== src/Servo/Mapped.antt =====
-- src/ethercat_master_igh/src/master/igh/ethercat_servo.cpp: the slaves and the places of their outputs
-- once `initialize` has succeeded.
use robot_ethercat_master_ig.Prelude.{
  sym, refl, subst, if_both, ℕ, suc, ◌<◌, ◌≡◌, Bool, true, false, not, ◌&&◌, ◌||◌, Option, none,
  some, List, [], ◌∷◌, arith, Option-cases, Bool-cases, inl, inr,
}
use robot_ethercat_master_ig.Config.{IghMasterConfig}
use robot_ethercat_master_ig.Kinematics.{Doubles}
use robot_ethercat_master_ig.Profiles.{MotorConfig}
use robot_ethercat_master_ig.Axis.{Axis, Mapping, is_non_motion_slave}
use robot_ethercat_master_ig.Servo.{Servo}
use robot_ethercat_master_ig.Servo.Initialize.{
  MasterAnswers, DcConfig, correct_identity, correct_identities, registered_slaves, fresh_axis,
  fresh_axes, set_up, bring_up, initialize,
}
use robot_ethercat_master_ig.Pdo.{Direction}
use robot_ethercat_master_ig.Pdo.Configure.{configure_pdo_mapping, is_sri_m8126_f32}
use robot_ethercat_master_ig.Pdo.Offsets.{PdoOffsets, mapping_of, pdo_offset_unset}
use robot_ethercat_master_ig.Pdo.Register.{Request, register_slave, register_pdo_entries}
use robot_ethercat_master_ig.Pdo.Answers.{register_slave-Registered}

-- A motor's control word and target position have a place in the process image. `sendDataCommon` and
-- `sendDataCSP` write them there with no test of their offsets.
abbrev pub IsDriven : Axis → Type 0
IsDriven a =
    (is_non_motion_slave a.config || a.mapping.control_word_set && a.mapping.target_position_set)
    ≡ true

-- The axes are those of the slaves, one for each and in their order.
abbrev pub AllDriven : List MotorConfig → List Axis → Type 0
AllDriven [] [] = Unit
AllDriven (cfg ∷ cfgs) (a ∷ rest) = (a.config ≡ cfg) × IsDriven a × AllDriven cfgs rest
AllDriven _ _ = ⊥

-- No place is the mark for none: the library's answer is an `int`.
abbrev pub IsBounded : (ℕ → Request → Option ℕ) → Type 0
IsBounded place = (i : ℕ) (r : Request) (o : ℕ) → place i r ≡ some o → o < pdo_offset_unset

-- A registration that succeeds has registered its first slave, and then the others.
register_pdo_entries-cons :
    (place : ℕ → Request → Option ℕ) (configured : ℕ → Bool) (i : ℕ) (cfg : MotorConfig)
    (use_float : Bool) (rest : List (MotorConfig × Bool)) (offs : List PdoOffsets)
    → register_pdo_entries place configured i ((cfg, use_float) ∷ rest) ≡ some offs
    → (off : PdoOffsets) × (later : List PdoOffsets) × (register_slave
          (place i)
          (configured i)
          use_float
          cfg
        ≡ some off)
      × (register_pdo_entries place configured (suc i) rest ≡ some later)
      × (offs ≡ off ∷ later)
unfolding register_pdo_entries
register_pdo_entries-cons place configured i cfg use_float rest offs h =
    elim (Option-cases (register_slave (place i) (configured i) use_float cfg)) [
      | inl refused ↦ absurd (ground (arith, h, refused))
      | inr (off, first) ↦
          elim (Option-cases (register_pdo_entries place configured (suc i) rest)) [
            | inl refused ↦ absurd (ground (arith, h, first, refused))
            | inr (later, others) ↦ (off, later, first, others, ground (arith, h, first, others))
          ]
    ]

module _ {ℓ} {R : Type ℓ} (d : Doubles R) (answers : MasterAnswers)
    (bounded : IsBounded answers.place) where
  motor-Driven :
      (i : ℕ) (configured use_float : Bool) (cfg : MotorConfig) (off : PdoOffsets)
      → register_slave (answers.place i) configured use_float cfg ≡ some off
      → is_non_motion_slave cfg ≡ false
      → IsDriven (fresh_axis d (mapping_of off) cfg)
  unfolding fresh_axis mapping_of
  motor-Driven i configured use_float cfg off h motion =
      let (drive, _) =
        register_slave-Registered (answers.place i) configured use_float cfg off motion h in
      let word =
        bounded i (Request.entry_at 0x6040 0 Direction.output) off.control_word
          drive.control_word in
      let target =
        bounded i (Request.entry_at 0x607A 0 Direction.output) off.target_position
          drive.target_position in
      ground (arith, word, target)

  slave-Driven :
      (i : ℕ) (configured use_float : Bool) (cfg : MotorConfig) (off : PdoOffsets)
      → register_slave (answers.place i) configured use_float cfg ≡ some off
      → IsDriven (fresh_axis d (mapping_of off) cfg)
  unfolding fresh_axis mapping_of
  slave-Driven i configured use_float cfg off h = elim (Bool-cases (is_non_motion_slave cfg)) [
    | inl idle ↦ ground (arith, idle)
    | inr motion ↦ motor-Driven i configured use_float cfg off h motion
  ]

  fresh_axis-config : (m : Mapping) (cfg : MotorConfig) → (fresh_axis d m cfg).config ≡ cfg
  unfolding fresh_axis
  fresh_axis-config m cfg = refl

  slaves-Driven :
      (motors : List MotorConfig) (i : ℕ) (offs : List PdoOffsets)
      → register_pdo_entries answers.place answers.slave_config i (registered_slaves answers motors)
        ≡ some offs
      → AllDriven
          (correct_identities answers motors)
          (fresh_axes d offs (correct_identities answers motors))
  unfolding register_pdo_entries registered_slaves correct_identities fresh_axes
  slaves-Driven [] i [] h = tt
  slaves-Driven [] i (off ∷ offs) h = tt
  slaves-Driven (cfg ∷ rest) i offs h =
      let (off, later, first, others, split) =
        register_pdo_entries-cons answers.place answers.slave_config i
          (correct_identity answers cfg) (is_sri_m8126_f32 cfg) (registered_slaves answers rest)
          offs h in
      subst
        (λ l.
          AllDriven (correct_identity answers cfg ∷ correct_identities answers rest)
            (fresh_axes d l (correct_identity answers cfg ∷ correct_identities answers rest)))
        (sym split)
        (
          fresh_axis-config (mapping_of off) (correct_identity answers cfg),
          slave-Driven i (answers.slave_config i) (is_sri_m8126_f32 cfg)
              (correct_identity answers cfg) off first,
          slaves-Driven rest (suc i) later others,
        )

  abbrev DrivenAfter : List MotorConfig → Bool × Servo → Type 0
  DrivenAfter motors t = t.0 ≡ true → AllDriven (correct_identities answers motors) t.1.axes

  bring_up-Driven :
      (rt_cfg : IghMasterConfig) (motors : List MotorConfig) (s : Servo)
      (o : Option (List DcConfig))
      → DrivenAfter motors (
          bring_up d rt_cfg answers
            (correct_identities answers motors)
            (registered_slaves answers motors)
            s
            o)
  unfolding bring_up set_up
  bring_up-Driven rt_cfg motors s none = λ h. absurd (ground (arith, h))
  bring_up-Driven rt_cfg motors s (some dc) =
      if_both (DrivenAfter motors)
        (not (configure_pdo_mapping answers.takes 0 (correct_identities answers motors)))
        (λ h. absurd (ground (arith, h)))
        (registered
          (register_pdo_entries answers.place answers.slave_config 0
            (registered_slaves answers motors))
          refl)
    where
      registered :
          (o : Option (List PdoOffsets))
          → register_pdo_entries answers.place answers.slave_config 0
              (registered_slaves answers motors)
            ≡ o
          → DrivenAfter motors (set_up d rt_cfg (correct_identities answers motors) s o)
      registered none e h = absurd (ground (arith, h))
      registered (some offs) e h = slaves-Driven motors 0 offs e

  -- Where every answer of the library is a place below the mark for none: a servo that `initialize`
  -- leaves initialised has one axis for each slave that it was given, in their order and with their
  -- identities corrected by the bus, and every one of them that is a motor has a place in the process
  -- image for its control word and for its target position, whatever else the master answers.
  pub initialize-Driven :
      (rt_cfg : IghMasterConfig) (motors : List MotorConfig) (s : Servo)
      → (initialize d rt_cfg answers motors s).0 ≡ true
      → AllDriven (correct_identities answers motors) (initialize d rt_cfg answers motors s).1.axes
  unfolding initialize
  initialize-Driven rt_cfg motors s =
      let stays : DrivenAfter motors (false, s) = λ h. absurd (ground (arith, h)) in
      if_both (DrivenAfter motors) s.initialized stays (
        if_both (DrivenAfter motors) _ stays (
          if_both (DrivenAfter motors) (not answers.master_granted || not answers.domain_created)
            stays (bring_up-Driven rt_cfg motors s _)))
