-- ===== src/Master/Policy/Quiet.antt =====
-- What the servo's operations leave of the wishes to enable its motors.
use robot_ethercat_master_ig.Prelude.{
  ℕ, zero, suc, ◌≡◌, refl, ◌∙◌, Bool, true, false, not, ◌&&◌, ◌||◌, Option, none, some, List, [],
  ◌∷◌, ◌==◌, if_both, if◌then◌else◌, get_elem?,
}
use robot_ethercat_master_ig.Prelude.Int.{ℤ}
use robot_ethercat_master_ig.Config.{IghMasterConfig}
use robot_ethercat_master_ig.Kinematics.{Doubles}
use robot_ethercat_master_ig.Profiles.{MotorConfig}
use robot_ethercat_master_ig.Axis.{Axis}
use robot_ethercat_master_ig.Cia402.{OperationMode}
use robot_ethercat_master_ig.Freshness.{contention_fallback_active}
use robot_ethercat_master_ig.Servo.{
  Servo, broadcast, is_motion, each_motor, modify, restart, enable_one, enable_all, enable_blocked,
  same_mode, set_enable, selected_fault, reset_blocked, request_fault_reset,
}
use robot_ethercat_master_ig.Servo.Cycle.{
  every, fall_back, zero_torque, zero_velocity, disarm_axis, disarm_all_command_freshness,
  clear_comm_fault, apply_command_contention_fallback,
}
use robot_ethercat_master_ig.Servo.Initialize.{
  MasterAnswers, DcConfig, fresh_axis, fresh_axes, set_up, registered_slaves, bring_up, initialize,
  correct_identities,
}
use robot_ethercat_master_ig.Pdo.Configure.{configure_pdo_mapping}
use robot_ethercat_master_ig.Pdo.Offsets.{PdoOffsets}
use robot_ethercat_master_ig.Pdo.Register.{register_pdo_entries}
use robot_ethercat_master_ig.Servo.Positions.{
  place, place_axes, initialize_positions_from_sdo, final_position, read_values,
}
use robot_ethercat_master_ig.Servo.Startup.{Bringup, activate}

-- No motor is wished to be enabled.
abbrev pub AllOff : List Axis → Type 0
AllOff [] = Unit
AllOff (a ∷ rest) = (a.desired_enable ≡ false) × AllOff rest

every-AllOff :
    (f : Axis → Axis) (axes : List Axis)
    → ((a : Axis) → (f a).desired_enable ≡ a.desired_enable)
    → AllOff axes
    → AllOff (every f axes)
every-AllOff f [] keeps off = tt
every-AllOff f (a ∷ rest) keeps off = (keeps a ∙ off.0, every-AllOff f rest keeps off.1)

-- For an `f` that sends a motor that is off to one that is off.
each_motor-AllOff :
    (f : Axis → Axis) (axes : List Axis)
    → ((a : Axis) → a.desired_enable ≡ false → (f a).desired_enable ≡ false)
    → AllOff axes
    → AllOff (each_motor f axes)
each_motor-AllOff f [] keeps off = tt
each_motor-AllOff f (a ∷ rest) keeps off = (
  if_both (λ (b : Axis). b.desired_enable ≡ false) (is_motion a) (keeps a off.0) off.0,
  each_motor-AllOff f rest keeps off.1,
)

modify-AllOff :
    (f : Axis → Axis) (i : ℕ) (axes : List Axis)
    → ((a : Axis) → a.desired_enable ≡ false → (f a).desired_enable ≡ false)
    → AllOff axes
    → AllOff (modify f i axes)
modify-AllOff f i [] keeps off = tt
modify-AllOff f zero (a ∷ rest) keeps off = (keeps a off.0, off.1)
modify-AllOff f (suc i) (a ∷ rest) keeps off = (off.0, modify-AllOff f i rest keeps off.1)

restart_off : (a : Axis) → a.desired_enable ≡ false → (restart false a).desired_enable ≡ false
unfolding restart
restart_off a off = refl

enable_one-AllOff :
    (i : ℕ) (a : Axis) (s : Servo) → AllOff s.axes → AllOff (enable_one false i a s).axes
unfolding enable_one
enable_one-AllOff i a s off =
    if_both (λ (t : Servo). AllOff t.axes) _ off
      (modify-AllOff (restart false) i s.axes restart_off off)

enable_all-AllOff : (s : Servo) → AllOff s.axes → AllOff (enable_all false s).axes
unfolding enable_all
enable_all-AllOff s off =
    if_both (λ (t : Servo). AllOff t.axes) _
      (each_motor-AllOff (restart false) s.axes restart_off off) off

-- What an operation's new servo satisfies.
abbrev OffAfter : Bool × Servo → Type 0
OffAfter t = AllOff t.1.axes

picked-AllOff :
    (i : ℕ) (s : Servo) (o : Option Axis)
    → AllOff s.axes
    → OffAfter (elim o as (λ _. Bool × Servo) [
      | none ↦ (false, s)
      | some a ↦ (true, enable_one false i a s)
    ])
picked-AllOff i s none off = off
picked-AllOff i s (some a) off = enable_one-AllOff i a s off

pub set_enable-AllOff : (i : ℕ) (s : Servo) → AllOff s.axes → AllOff (set_enable i false s).1.axes
unfolding set_enable
set_enable-AllOff i s off = if_both OffAfter (enable_blocked false s) off (
    if_both OffAfter (i == broadcast) (enable_all-AllOff s off)
      (picked-AllOff i s (get_elem? s.axes i) off))

reset_judged-AllOff :
    (s opened : Servo) (allow : Bool) (o : Option Bool)
    → AllOff s.axes
    → AllOff opened.axes
    → OffAfter (elim o as (λ _. Bool × Servo) [
      | none ↦ (false, s)
      | some found ↦ if found || allow then (true, opened) else (false, s)
    ])
reset_judged-AllOff s opened allow none off off' = off
reset_judged-AllOff s opened allow (some found) off off' =
    if_both OffAfter (found || allow) off' off

pub request_fault_reset-AllOff :
    (all_op : Bool) (i : ℕ) (allow : Bool) (s : Servo)
    → AllOff s.axes
    → AllOff (request_fault_reset all_op i allow s).1.axes
unfolding request_fault_reset
request_fault_reset-AllOff all_op i allow s off =
    if_both OffAfter (reset_blocked all_op i s) off
      (reset_judged-AllOff s _ allow (selected_fault i 0 false s.axes) off off)

pub clear_comm_fault-AllOff : (s : Servo) → AllOff s.axes → AllOff (clear_comm_fault s).axes
unfolding clear_comm_fault disarm_all_command_freshness disarm_axis
clear_comm_fault-AllOff s off = every-AllOff _ s.axes (λ a. refl) off

fall_back-keeps :
    (watched : Bool) (a : Axis) → (fall_back watched a).desired_enable ≡ a.desired_enable
unfolding fall_back zero_torque zero_velocity
fall_back-keeps watched a =
    let in_torque =
      same_mode a.current_mode OperationMode.cyclic_sync_torque
      && contention_fallback_active a.torque_cmd_freshness in
    let b = if in_torque then zero_torque a else a in
    let in_velocity =
      watched
      && (same_mode b.current_mode OperationMode.cyclic_sync_velocity
          && contention_fallback_active b.velocity_cmd_freshness) in
    let same : (b.desired_enable ≡ a.desired_enable) =
      if_both (λ (c : Axis). c.desired_enable ≡ a.desired_enable) in_torque {x = zero_torque a}
        {y = a} refl refl in
    if_both (λ (c : Axis). c.desired_enable ≡ a.desired_enable) in_velocity {x = zero_velocity b}
      {y = b} same same

pub apply_command_contention_fallback-AllOff :
    (s : Servo) → AllOff s.axes → AllOff (apply_command_contention_fallback s).axes
unfolding apply_command_contention_fallback
apply_command_contention_fallback-AllOff s off =
    if_both (λ (t : Servo). AllOff t.axes) (not s.initialized) off
      (each_motor-AllOff (fall_back s.csv_cmd_watchdog) s.axes
        (λ a h. fall_back-keeps s.csv_cmd_watchdog a ∙ h) off)

place_off :
    (o : Option ℤ) (a : Axis) → a.desired_enable ≡ false → (place o a).desired_enable ≡ false
place_off none a off = off
place_off (some v) a off = off

place_axes-AllOff :
    (answers : ℕ → List (Option ℤ)) (i : ℕ) (axes : List Axis)
    → AllOff axes
    → AllOff (place_axes answers i axes)
unfolding place_axes
place_axes-AllOff answers i [] off = tt
place_axes-AllOff answers i (a ∷ rest) off = (
  if_both (λ (b : Axis). b.desired_enable ≡ false) (is_motion a)
      (place_off (final_position (read_values (answers i))) a off.0) off.0,
  place_axes-AllOff answers (suc i) rest off.1,
)

pub initialize_positions-AllOff :
    (answers : ℕ → List (Option ℤ)) (s : Servo)
    → AllOff s.axes
    → AllOff (initialize_positions_from_sdo answers s).1.axes
unfolding initialize_positions_from_sdo
initialize_positions-AllOff answers s off =
    if_both OffAfter (not s.initialized || s.activated) off (place_axes-AllOff answers 0 s.axes off)

pub activate-AllOff : (b : Bringup) (s : Servo) → AllOff s.axes → AllOff (activate b s).1.axes
unfolding activate
activate-AllOff b s off = if_both OffAfter (not s.initialized) off (
    if_both OffAfter s.activated off (
      if_both OffAfter (not b.master_activated || not b.domain_present) off
        (every-AllOff _ s.axes (λ a. refl) off)))

module _ {ℓ} {R : Type ℓ} (d : Doubles R) where
  fresh_axes-AllOff :
      (offs : List PdoOffsets) (cfgs : List MotorConfig) → AllOff (fresh_axes d offs cfgs)
  unfolding fresh_axes fresh_axis
  fresh_axes-AllOff (off ∷ offs) (cfg ∷ rest) = (refl, fresh_axes-AllOff offs rest)
  fresh_axes-AllOff [] cfgs = tt
  fresh_axes-AllOff (off ∷ offs) [] = tt

  set_up-AllOff :
      (rt_cfg : IghMasterConfig) (cfgs : List MotorConfig) (s : Servo)
      (o : Option (List PdoOffsets))
      → AllOff s.axes
      → AllOff (set_up d rt_cfg cfgs s o).1.axes
  unfolding set_up
  set_up-AllOff rt_cfg cfgs s none off = off
  set_up-AllOff rt_cfg cfgs s (some offs) off = fresh_axes-AllOff offs cfgs

  bring_up-AllOff :
      (rt_cfg : IghMasterConfig) (answers : MasterAnswers) (cfgs : List MotorConfig)
      (slaves : List (MotorConfig × Bool)) (s : Servo) (o : Option (List DcConfig))
      → AllOff s.axes
      → AllOff (bring_up d rt_cfg answers cfgs slaves s o).1.axes
  unfolding bring_up
  bring_up-AllOff rt_cfg answers cfgs slaves s none off = off
  bring_up-AllOff rt_cfg answers cfgs slaves s (some dc) off =
      if_both OffAfter (not (configure_pdo_mapping answers.takes 0 cfgs)) off (
        set_up-AllOff rt_cfg cfgs s
          (register_pdo_entries answers.place answers.slave_config 0 slaves) off)

  pub initialize-AllOff :
      (rt_cfg : IghMasterConfig) (answers : MasterAnswers) (motors : List MotorConfig) (s : Servo)
      → AllOff s.axes
      → AllOff (initialize d rt_cfg answers motors s).1.axes
  unfolding initialize
  initialize-AllOff rt_cfg answers motors s off = if_both OffAfter s.initialized off (
      if_both OffAfter _ off (
        if_both OffAfter (not answers.master_granted || not answers.domain_created) off (
          bring_up-AllOff rt_cfg answers (correct_identities answers motors)
            (registered_slaves answers motors) s _ off)))
