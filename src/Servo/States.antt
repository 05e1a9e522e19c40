-- ===== src/Servo/States.antt =====
-- src/ethercat_master_igh/src/master/igh/ethercat_servo.cpp: what the servo tells of its slaves, from the
-- getters to `getMotorStates`. The copies of the inputs that the record of a slave does not hold come
-- with it, and so does the process image for the digital inputs.
use mathlib.Core.Option.{some-injective}
use robot_ethercat_master_ig.Prelude.{
  subst, ℕ, zero, suc, ◌+◌, ◌<◌, ◌≡◌, refl, sym, ◌∙◌, ap, min, Bool, true, false, not, ◌&&◌, ◌==◌,
  none, some, List, [], ◌∷◌, length, get_elem?, if◌then◌else◌, arith,
}
use robot_ethercat_master_ig.Prelude.Int.{ℤ, pos}
use robot_ethercat_master_ig.Cia402.{OperationMode, is_operation_enabled, is_fault}
use robot_ethercat_master_ig.Axis.{Axis}
use robot_ethercat_master_ig.Servo.{Servo, is_motion}
use robot_ethercat_master_ig.Servo.Cycle.{DriveInput}
use robot_ethercat_master_ig.Servo.Held.{safe_cycles, safe_cycles_activated}
use robot_ethercat_master_ig.Servo.SafeOutputs.{safe_outputs_hold}
use robot_ethercat_master_ig.Pdo.Offsets.{PdoOffsets}
use robot_ethercat_master_ig.Pdo.Receive.{MotorCache}

pub record MotorStateData : Type 0 where
  pub motor_id : ℕ  -- uint8_t
  pub operation_mode : OperationMode
  pub enabled : Bool
  pub fault : Bool
  pub status_word : ℕ  -- uint16_t
  pub actual_position : ℤ
  pub target_position : ℤ
  pub actual_velocity : ℤ
  pub target_velocity : ℤ
  pub actual_torque : ℤ
  pub sensor_force_2020 : ℤ
  pub motor_encoder_2021 : ℤ
  pub error_code : ℕ  -- uint16_t
  pub target_torque : ℤ
  pub operation_mode_display : ℤ
  pub digital_inputs : ℕ  -- uint32_t
  pub digital_outputs : ℕ  -- uint32_t

-- A slave's inputs beside its record: its copies, its offsets, and the reads of 32 bits.
pub record SlaveInputs : Type 0 where
  pub cache : MotorCache
  pub offsets : PdoOffsets
  pub u32 : ℕ → ℕ

unfoldable pub motor_state_data : ℕ → Axis → SlaveInputs → MotorStateData
motor_state_data i a inp = record {
  motor_id = i;
  operation_mode = a.current_mode;
  enabled = a.enable_requested && is_operation_enabled a.last_status_word;
  fault = is_fault a.last_status_word;
  status_word = a.last_status_word;
  actual_position = a.last_actual_position;
  target_position = a.target_position;
  actual_velocity = inp.cache.actual_velocity;
  target_velocity = a.target_velocity;
  actual_torque = inp.cache.actual_torque;
  sensor_force_2020 = inp.cache.sensor_force_2020;
  motor_encoder_2021 = inp.cache.motor_encoder_2021;
  error_code = a.last_error_code;
  target_torque = a.target_torque;
  operation_mode_display = inp.cache.operation_mode_display;
  digital_inputs =
      if inp.offsets.digital_inputs == 0 then 0 else inp.u32 inp.offsets.digital_inputs;
  digital_outputs = 0;
}

-- The states of at most `n` slaves from index `i` on.
unfoldable pub states_from : ℕ → ℕ → (ℕ → SlaveInputs) → List Axis → List MotorStateData
unfolding motor_state_data
states_from zero i inputs axes = []
states_from (suc n) i inputs [] = []
states_from (suc n) i inputs (a ∷ rest) =
    motor_state_data i a (inputs i) ∷ states_from n (i + 1) inputs rest

-- The first seven slaves are told of.
abbrev pub state_limit : ℕ
state_limit = 7

unfoldable pub get_motor_states : (ℕ → SlaveInputs) → Servo → List MotorStateData
unfolding states_from
get_motor_states inputs s = if not s.activated then [] else states_from state_limit 0 inputs s.axes

-- The getters of one slave's values, 0 for an index that there is none of.
unfoldable pub axis_value : (Axis → ℤ) → ℕ → Servo → ℤ
axis_value field motor_id s = elim (get_elem? s.axes motor_id) [ none ↦ pos 0 | some a ↦ field a ]

unfoldable pub get_position : ℕ → Servo → ℤ
unfolding axis_value
get_position = axis_value (λ a. a.last_actual_position)

unfoldable pub get_target_position : ℕ → Servo → ℤ
unfolding axis_value
get_target_position = axis_value (λ a. a.target_position)

unfoldable pub get_target_velocity : ℕ → Servo → ℤ
unfolding axis_value
get_target_velocity = axis_value (λ a. a.target_velocity)

-- From the command that waits.
unfoldable pub get_target_torque : ℕ → Servo → ℤ
unfolding axis_value
get_target_torque = axis_value (λ a. a.pending.torque)

get_elem?-states_from :
    (n i k : ℕ) (inputs : ℕ → SlaveInputs) (axes : List Axis) (a : Axis)
    → k < n
    → get_elem? axes k ≡ some a
    → get_elem? (states_from n i inputs axes) k ≡ some (motor_state_data (i + k) a (inputs (i + k)))
unfolding states_from
get_elem?-states_from zero i k inputs axes a h here = absurd (omega arith)
get_elem?-states_from (suc n) i k inputs [] a h here = cc
get_elem?-states_from (suc n) i zero inputs (b ∷ rest) a h here =
    let same : i ≡ i + 0 = omega arith in
    let first =
      ap (λ (x : Axis). some (motor_state_data i x (inputs i))) (some-injective b a here) in
    subst (λ j. some (motor_state_data i b (inputs i)) ≡ some (motor_state_data j a (inputs j)))
      same first
get_elem?-states_from (suc n) i (suc k) inputs (b ∷ rest) a h here =
    let same : i + 1 + k ≡ i + suc k = omega arith in
    subst
      (λ j.
        get_elem? (states_from n (i + 1) inputs rest) k ≡ some (motor_state_data j a (inputs j)))
      same (get_elem?-states_from n (i + 1) k inputs rest a (omega arith) here)

length-states_from :
    (n i : ℕ) (inputs : ℕ → SlaveInputs) (axes : List Axis)
    → length (states_from n i inputs axes) ≡ min n (length axes)
unfolding states_from
length-states_from zero i inputs axes = omega arith
length-states_from (suc n) i inputs [] = omega arith
length-states_from (suc n) i inputs (a ∷ rest) =
    omega (arith, length-states_from n (i + 1) inputs rest)

not_both :
    (asked : Bool) (word : ℕ) → asked && is_operation_enabled word ≡ true → is_fault word ≡ false
unfolding is_operation_enabled is_fault
not_both asked word h = ground (arith, h)

-- An active servo tells of its first seven slaves, in their order, and of no more: the state at place
-- `k` is that of slave `k`. It counts as enabled only where it was asked for and its status word says
-- so, and never where its status word says that it is in fault.
pub get_motor_states_lem :
    (inputs : ℕ → SlaveInputs) (s : Servo)
    → s.activated ≡ true
    → (length (get_motor_states inputs s) ≡ min 7 (length s.axes))
      × ((k : ℕ) (a : Axis)
          → k < 7
          → get_elem? s.axes k ≡ some a
          → (st : MotorStateData) × (get_elem? (get_motor_states inputs s) k ≡ some st)
            × (st.motor_id ≡ k)
            × (st.status_word ≡ a.last_status_word)
            × (st.actual_position ≡ a.last_actual_position)
            × (st.enabled ≡ (a.enable_requested && is_operation_enabled a.last_status_word))
            × (st.enabled ≡ true → st.fault ≡ false))
unfolding get_motor_states
get_motor_states_lem inputs s active = rw active (
  length-states_from 7 0 inputs s.axes,
  λ k a h here. (
    motor_state_data k a (inputs k),
    state_at k a h here,
    refl,
    refl,
    refl,
    refl,
    not_both a.enable_requested a.last_status_word,
  ),
)
  where
    state_at :
        (k : ℕ) (a : Axis)
        → k < 7
        → get_elem? s.axes k ≡ some a
        → get_elem? (states_from 7 0 inputs s.axes) k ≡ some (motor_state_data k a (inputs k))
    state_at k a h here =
        let same : 0 + k ≡ k = omega arith in
        subst
          (λ j.
            get_elem? (states_from 7 0 inputs s.axes) k ≡ some (motor_state_data j a (inputs j)))
          same (get_elem?-states_from 7 0 k inputs s.axes a h here)

-- While safe outputs go out, no motor among the first seven is told of as enabled, whatever it reports
-- itself and however many cycles it lasts: its outputs being held, `getMotorStates` gives a state for
-- it in which `enabled` is not set.
pub safe_cycles-not_enabled :
    (inputs : ℕ → SlaveInputs) (first : ℕ → DriveInput) (rest : List (ℕ → DriveInput)) (s : Servo)
    (i : ℕ) (a : Axis)
    → s.initialized ≡ true
    → get_elem? s.axes i ≡ some a
    → is_motion a ≡ true
    → (safe_cycles (first ∷ rest) s).activated ≡ true
    → i < 7
    → (st : MotorStateData) × (get_elem? (get_motor_states inputs (safe_cycles (first ∷ rest) s)) i
        ≡ some st)
      × (st.enabled ≡ false)
safe_cycles-not_enabled inputs first rest s i a started here motor active low =
    let t = safe_cycles (first ∷ rest) s in
    let begun = sym (safe_cycles_activated (first ∷ rest) s) ∙ active in
    let shown = safe_outputs_hold first rest s i a started begun here motor in
    let told = (get_motor_states_lem inputs t active).1 i shown.axis low shown.here in
    (
      told.0,
      told.1,
      told.5 ∙ ap (λ b. b && is_operation_enabled shown.axis.last_status_word) shown.out.disabled,
    )
