-- ===== src/Servo/Held.antt =====
-- ethercat_servo.cpp, applySafeProcessImageOutputs: one cycle of safe output on the axes.
use robot_ethercat_master_ig.Prelude.{
  ℕ, ◌+◌, ◌-◌, ◌≡◌, ◌≢◌, ◌∙◌, ap, refl, subst, Bool, true, false, not, ◌&&◌, ◌||◌, arith, some, ltb,
  ◌==◌, if◌then◌else◌, List, [], ◌∷◌, get_elem?,
}
use robot_ethercat_master_ig.Prelude.Int.{ℤ, pos}
use robot_ethercat_master_ig.Cia402.{control_word_switch_on}
use robot_ethercat_master_ig.SafeOutput.{
  make_safe_process_image_outputs, select_safe_control_word, latch_safe_position,
}
use robot_ethercat_master_ig.Axis.{Axis, is_non_motion_slave}
use robot_ethercat_master_ig.Servo.{Servo, is_motion}
use robot_ethercat_master_ig.Servo.Lookup.{get_elem?-receive_axes, get_elem?-safe_axes}
use robot_ethercat_master_ig.Servo.Cycle.{
  DriveInput, receive_axis, receive_axes, receive_data, safe_axis, enter_safe, write_safe_image,
  put_safe_outputs, apply_safe_process_image_outputs,
}

-- What a motor's outputs are while safe output is required: the entries that are mapped hold the
-- position `held`, no velocity and no torque, and the motor is disabled.
pub record IsHeld (held : ℤ) (word : ℕ) (a : Axis) : Type 0 where
  pub latched : a.safe_latched_position ≡ held
  pub unwished : a.desired_enable ≡ false
  pub inactive : a.enable_fsm_active ≡ false
  pub disabled : a.enable_requested ≡ false
  pub position_out : a.mapping.target_position_set ≡ true → a.image.target_position ≡ held
  pub velocity_out : a.mapping.target_velocity ≡ true → a.image.target_velocity ≡ pos 0
  pub torque_out : a.mapping.target_torque ≡ true → a.image.target_torque ≡ pos 0
  pub word_out : a.mapping.control_word_set ≡ true → a.image.control_word ≡ word

abbrev pub word_for : Bool → ℕ → ℕ
word_for reset r = if reset then r else control_word_switch_on

safe_axis-IsHeld :
    (entering window selected : Bool) (a : Axis)
    → IsHeld
        (if entering then a.last_actual_position else a.safe_latched_position)
        (word_for (window && selected) a.fault_reset_cw)
        (safe_axis entering window selected a)
unfolding safe_axis enter_safe write_safe_image make_safe_process_image_outputs
    select_safe_control_word latch_safe_position
safe_axis-IsHeld entering window selected a = ground arith

safe_axis-kept :
    (entering window selected : Bool) (inp : DriveInput) (a : Axis)
    → ((safe_axis entering window selected (receive_axis inp a)).config ≡ a.config)
      × ((safe_axis entering window selected (receive_axis inp a)).fault_reset_cw
          ≡ a.fault_reset_cw)
unfolding safe_axis enter_safe write_safe_image receive_axis
safe_axis-kept entering window selected inp a = ground arith

-- A Job cycle's input and its safe outputs.
abbrev pub safe_cycle : (ℕ → DriveInput) → Servo → Servo
safe_cycle inputs s = apply_safe_process_image_outputs (receive_data inputs s)

-- A cycle once the servo is initialised and activated.
abbrev pub cycle_of : (ℕ → DriveInput) → Servo → Servo
cycle_of inputs s = put_safe_outputs (record s { axes = receive_axes inputs 0 s.axes })

pub safe_cycle-cycle_of :
    (inputs : ℕ → DriveInput) (s : Servo)
    → s.initialized ≡ true
    → s.activated ≡ true
    → safe_cycle inputs s ≡ cycle_of inputs s
unfolding apply_safe_process_image_outputs receive_data
safe_cycle-cycle_of inputs s started active = ground arith

abbrev pub safe_cycles : List (ℕ → DriveInput) → Servo → Servo
safe_cycles [] s = s
safe_cycles (inputs ∷ rest) s = safe_cycles rest (safe_cycle inputs s)

safe_cycle_activated :
    (inputs : ℕ → DriveInput) (s : Servo) → (safe_cycle inputs s).activated ≡ s.activated
unfolding apply_safe_process_image_outputs put_safe_outputs receive_data
safe_cycle_activated inputs s = ground arith

-- Safe cycles neither activate a servo nor deactivate it.
pub safe_cycles_activated :
    (rest : List (ℕ → DriveInput)) (s : Servo) → (safe_cycles rest s).activated ≡ s.activated
safe_cycles_activated [] s = refl
safe_cycles_activated (inputs ∷ rest) s =
    safe_cycles_activated rest (safe_cycle inputs s) ∙ safe_cycle_activated inputs s

-- What is kept of axis `i` between safe cycles: the latched position, its reset word, and the part of
-- the reset window that is left, `chosen` saying whether the window is the axis's.
pub record Latched (held : ℤ) (r left : ℕ) (chosen : Bool) (i : ℕ) (s : Servo) : Type 0 where
  pub started : s.initialized ≡ true
  pub active : s.activated ≡ true
  pub inside : s.safe_output_active ≡ true
  pub window : s.explicit_fault_reset_cycles ≡ left
  pub selects :
      left ≢ 0
      → (s.explicit_fault_reset_axis == 0x00FF || s.explicit_fault_reset_axis == i) ≡ chosen
  pub axis : Axis
  pub here : get_elem? s.axes i ≡ some axis
  pub motor : is_motion axis ≡ true
  pub position : axis.safe_latched_position ≡ held
  pub reset_word : axis.fault_reset_cw ≡ r

-- What axis `i` shows.
pub record IsShown (held : ℤ) (word i : ℕ) (s : Servo) : Type 0 where
  pub axis : Axis
  pub here : get_elem? s.axes i ≡ some axis
  pub out : IsHeld held word axis

module _ (inputs : ℕ → DriveInput) (s : Servo) (i : ℕ) where
  get_elem?-cycle_of :
      (a : Axis)
      → get_elem? s.axes i ≡ some a
      → is_motion a ≡ true
      → get_elem? (cycle_of inputs s).axes i
        ≡ some (
            safe_axis
              (not s.safe_output_active)
              (ltb 0 s.explicit_fault_reset_cycles)
              (s.explicit_fault_reset_axis == 0x00FF || s.explicit_fault_reset_axis == i)
              (receive_axis (inputs i) a))
  unfolding put_safe_outputs receive_axis
  get_elem?-cycle_of a h m =
      let zero_add : 0 + i ≡ i = omega arith in
      let entering = not s.safe_output_active in
      let opened = ltb 0 s.explicit_fault_reset_cycles in
      let chosen : ℕ → Bool =
        λ k. s.explicit_fault_reset_axis == 0x00FF || s.explicit_fault_reset_axis == k in
      get_elem?-safe_axes entering opened s.explicit_fault_reset_axis 0
        (receive_axes inputs 0 s.axes) i (receive_axis (inputs (0 + i)) a)
        (get_elem?-receive_axes inputs 0 s.axes i a h m) m
      ∙ ap (λ k. some (safe_axis entering opened (chosen k) (receive_axis (inputs k) a))) zero_add

module _ {held : ℤ} {r left : ℕ} {chosen : Bool} (inputs : ℕ → DriveInput) (s : Servo) (i : ℕ) where
  -- One cycle, from any state of the servo.
  pub cycle_of-Latched :
      (a : Axis)
      → s.initialized ≡ true
      → s.activated ≡ true
      → get_elem? s.axes i ≡ some a
      → is_motion a ≡ true
      → a.fault_reset_cw ≡ r
      → (if not s.safe_output_active then (inputs i).actual_position else a.safe_latched_position)
        ≡ held
      → s.explicit_fault_reset_cycles ≡ left
      → (left ≢ 0
          → (s.explicit_fault_reset_axis == 0x00FF || s.explicit_fault_reset_axis == i) ≡ chosen)
      → Latched held r (left - 1) chosen i (cycle_of inputs s)
        × IsShown held (word_for (ltb 0 left && chosen) r) i (cycle_of inputs s)
  unfolding put_safe_outputs receive_axis
  cycle_of-Latched a started active here motor reset_word latches window selects =
      let b = receive_axis (inputs i) a in
      let entering = not s.safe_output_active in
      let opened = ltb 0 s.explicit_fault_reset_cycles in
      let selected = s.explicit_fault_reset_axis == 0x00FF || s.explicit_fault_reset_axis == i in
      let c = safe_axis entering opened selected b in
      let there = get_elem?-cycle_of inputs s i a here motor in
      let out : IsHeld held (word_for (opened && selected) r) c =
        subst (λ p. IsHeld p (word_for (opened && selected) r) c) latches
          (subst
            (λ w.
              IsHeld (if entering then (inputs i).actual_position else a.safe_latched_position)
                (word_for (opened && selected) w) c)
            reset_word (safe_axis-IsHeld entering opened selected b)) in
      let same : word_for (opened && selected) r ≡ word_for (ltb 0 left && chosen) r =
        ground arith in
      let kept = safe_axis-kept entering opened selected (inputs i) a in
      (
        record {
          started = started;
          active = active;
          inside = refl;
          window = ap (λ n. n - 1) window;
          selects = ground arith;
          axis = c;
          here = there;
          motor = ap (λ cfg. not (is_non_motion_slave cfg)) kept.0 ∙ motor;
          position = out.latched;
          reset_word = kept.1 ∙ reset_word;
        },
        record { axis = c; here = there; out = subst (λ w. IsHeld held w c) same out },
      )
