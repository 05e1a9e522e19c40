-- ===== src/Servo/Initialize.antt =====
-- src/ethercat_master_igh/src/master/igh/ethercat_servo.cpp: `initialize`. What the master answers, to the
-- tables of process data and to the registration of its objects too, is an argument. A call that fails
-- is taken to leave the servo as it was; the code has then overwritten its list of slaves, which counts
-- only once it is initialised.
use robot_ethercat_master_ig.Prelude.{
  ℕ, suc, ◌*◌, Bool, true, false, not, ◌&&◌, ◌||◌, Option, none, some, List, [], ◌∷◌, ltb,
  if◌then◌else◌,
}
use robot_ethercat_master_ig.Prelude.Int.{pos}
use robot_ethercat_master_ig.Prelude.Word.{u32}
use robot_ethercat_master_ig.Config.{IghMasterConfig}
use robot_ethercat_master_ig.Cia402.{
  OperationMode, control_word_switch_on, control_word_fault_reset,
}
use robot_ethercat_master_ig.Freshness.{unarmed}
use robot_ethercat_master_ig.Kinematics.{Doubles}
use robot_ethercat_master_ig.Profiles.{MotorConfig, SlaveIdentity}
use robot_ethercat_master_ig.Profiles.Resolve.{
  resolve_motor_profile, resolve_dc_shift_ns, resolve_dc_assign_activate, resolve_dc_sync0_ns,
  dc_sync0_matches_bus,
}
use robot_ethercat_master_ig.Axis.{Axis, Mapping, is_non_motion_slave}
use robot_ethercat_master_ig.Servo.{Servo}
use robot_ethercat_master_ig.Pdo.{SyncInfo}
use robot_ethercat_master_ig.Pdo.Configure.{configure_pdo_mapping, is_sri_m8126_f32}
use robot_ethercat_master_ig.Pdo.Offsets.{PdoOffsets, mapping_of}
use robot_ethercat_master_ig.Pdo.Register.{Request, register_pdo_entries}

-- `slave_info` is by bus position; the others by index. `takes`: whether a slave's table is taken;
-- `place`: where an object of a slave lies in the process image, `none` for an error.
pub record MasterAnswers : Type 0 where
  pub master_granted : Bool
  pub domain_created : Bool
  pub slave_info : ℕ → Option SlaveIdentity
  pub slave_config : ℕ → Bool
  pub takes : ℕ → List SyncInfo → Bool
  pub place : ℕ → Request → Option ℕ

-- The identity that the bus reports replaces the configured one.
unfoldable pub correct_identity : MasterAnswers → MotorConfig → MotorConfig
correct_identity answers cfg = elim (answers.slave_info cfg.position) [
  | none ↦ cfg
  | some info ↦ record cfg { vendor_id = info.vendor_id; product_code = info.product_code }
]

unfoldable pub correct_identities : MasterAnswers → List MotorConfig → List MotorConfig
unfolding correct_identity
correct_identities answers [] = []
correct_identities answers (cfg ∷ rest) =
    correct_identity answers cfg ∷ correct_identities answers rest

-- The slaves with their corrected identities; the kind of number of a force sensor is taken before.
unfoldable pub registered_slaves : MasterAnswers → List MotorConfig → List (MotorConfig × Bool)
unfolding correct_identity is_sri_m8126_f32
registered_slaves answers [] = []
registered_slaves answers (cfg ∷ rest) =
    (correct_identity answers cfg, is_sri_m8126_f32 cfg) ∷ registered_slaves answers rest

-- The first motor's index, or 0.
unfoldable pub reference_slave : ℕ → List MotorConfig → ℕ
reference_slave i [] = 0
reference_slave i (cfg ∷ rest) =
    let later = reference_slave (suc i) rest in if not (is_non_motion_slave cfg) then i else later

-- What a slave's clock is configured with.
pub record DcConfig : Type 0 where
  pub assign_activate : ℕ  -- uint16_t
  pub sync0_ns : ℕ  -- uint32_t
  pub shift_ns : ℕ  -- uint32_t

module _ {ℓ} {R : Type ℓ} (d : Doubles R) where
  unfoldable pub dc_config : MotorConfig → ℕ → DcConfig
  unfolding resolve_dc_assign_activate resolve_dc_sync0_ns resolve_dc_shift_ns
  dc_config cfg bus_cycle_ns = record {
    assign_activate = resolve_dc_assign_activate d cfg;
    sync0_ns = resolve_dc_sync0_ns d cfg bus_cycle_ns;
    shift_ns = resolve_dc_shift_ns d cfg;
  }

  -- `none` where a slave is refused.
  unfoldable pub configure_slaves :
      MasterAnswers → ℕ → ℕ → List MotorConfig → Option (List DcConfig)
  unfolding dc_config dc_sync0_matches_bus
  configure_slaves answers bus_cycle_ns i [] = some []
  configure_slaves answers bus_cycle_ns i (cfg ∷ rest) =
      let later = configure_slaves answers bus_cycle_ns (suc i) rest in
      if answers.slave_config i && dc_sync0_matches_bus d cfg bus_cycle_ns
      then elim later [ none ↦ none | some cs ↦ some (dc_config cfg bus_cycle_ns ∷ cs) ]
      else none

  unfoldable pub fault_reset_word : MotorConfig → ℕ
  fault_reset_word cfg = elim (resolve_motor_profile d cfg) [
    | none ↦ control_word_fault_reset
    | some profile ↦ profile.fault_reset_control_word
  ]

  -- The initial values of all that is kept for a slave.
  unfoldable pub fresh_axis : Mapping → MotorConfig → Axis
  unfolding fault_reset_word
  fresh_axis mapping cfg = record {
    config = cfg;
    mapping = mapping;
    image = record {
      control_word = 0;
      operation_mode = pos 0;
      padding_rx = 0;
      target_position = pos 0;
      target_velocity = pos 0;
      target_torque = pos 0;
      torque_offset = pos 0;
    };
    enable_requested = false;
    desired_enable = false;
    enable_fsm_active = false;
    enable_fsm_step = 0;
    enable_fsm_wait = 0;
    control_word_state = control_word_switch_on;
    fault_reset_counter = 0;
    fault_reset_phase = 0;
    enable_monitor_loss_counter = 0;
    fault_persist_counter = 0;
    current_mode = OperationMode.cyclic_sync_position;
    target_position = pos 0;
    target_velocity = pos 0;
    target_torque = pos 0;
    pending = record {
      position = pos 0;
      velocity = pos 0;
      torque = pos 0;
      position_valid = false;
      velocity_valid = false;
      torque_valid = false;
    };
    position_override_active = false;
    idle_input_position = pos 0;
    velocity_override_active = false;
    idle_input_velocity = pos 0;
    last_status_word = 0;
    last_error_code = 0;
    last_actual_position = pos 0;
    fault_reset_cw = fault_reset_word cfg;
    safe_latched_position = pos 0;
    pending_control_word = control_word_switch_on;
    last_written_control_word = control_word_switch_on;
    control_word_write_pending = false;
    control_word_write_attempts = 0;
    torque_cmd_freshness = unarmed;
    velocity_cmd_freshness = unarmed;
  }

  unfoldable pub fresh_axes : List PdoOffsets → List MotorConfig → List Axis
  unfolding fresh_axis mapping_of
  fresh_axes (off ∷ offs) (cfg ∷ rest) = fresh_axis (mapping_of off) cfg ∷ fresh_axes offs rest
  fresh_axes _ _ = []

  abbrev empty_list : List MotorConfig → Bool
  empty_list [] = true
  empty_list _ = false

  -- From the registered objects.
  unfoldable pub set_up :
      IghMasterConfig → List MotorConfig → Servo → Option (List PdoOffsets) → Bool × Servo
  unfolding fresh_axes
  set_up rt_cfg cfgs s none = (false, s)
  set_up rt_cfg cfgs s (some offs) = (
    true,
    record s {
      initialized = true;
      axes = fresh_axes offs cfgs;
      external_cmd_watchdog_ns = rt_cfg.cmd_watchdog_ms * 1000000;
      csv_cmd_watchdog = rt_cfg.csv_cmd_watchdog;
    },
  )

  -- From the configured slaves.
  unfoldable pub bring_up :
      IghMasterConfig
      → MasterAnswers
      → List MotorConfig
      → List (MotorConfig × Bool)
      → Servo
      → Option (List DcConfig)
      → Bool × Servo
  unfolding set_up configure_pdo_mapping register_pdo_entries
  bring_up rt_cfg answers cfgs slaves s none = (false, s)
  bring_up rt_cfg answers cfgs slaves s (some dc) =
      if not (configure_pdo_mapping answers.takes 0 cfgs)
      then (false, s)
      else set_up rt_cfg cfgs s (register_pdo_entries answers.place answers.slave_config 0 slaves)

  unfoldable pub initialize :
      IghMasterConfig → MasterAnswers → List MotorConfig → Servo → Bool × Servo
  unfolding correct_identities registered_slaves configure_slaves bring_up
  initialize rt_cfg answers motor_configs s =
      let cfgs = correct_identities answers motor_configs in
      let bus_cycle_ns =
        u32 ((if ltb 0 rt_cfg.bus_cycle_us then rt_cfg.bus_cycle_us else 1000) * 1000) in
      if s.initialized
      then (false, s)
      else if empty_list motor_configs
      then (false, s)
      else if not answers.master_granted || not answers.domain_created
      then (false, s)
      else bring_up rt_cfg answers cfgs (registered_slaves answers motor_configs) s
          (configure_slaves answers bus_cycle_ns 0 cfgs)
