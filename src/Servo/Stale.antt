-- ===== src/Servo/Stale.antt =====
-- ethercat_servo.cpp, runJobCycle: an external command that is too old takes the bus to safe output
-- within the same cycle.
use robot_ethercat_master_ig.Prelude.{
  ℕ, zero, suc, ◌≡◌, ◌≢◌, ◌∙◌, sym, ap, subst, Bool, true, false, not, ◌&&◌, ◌||◌, arith, some, ltb,
  ◌==◌, if◌then◌else◌, List, [], ◌∷◌, get_elem?,
}
use robot_ethercat_master_ig.Prelude.Int.{ℤ}
use mathlib.Core.Option.{some-injective, none-ne-some}
use robot_ethercat_master_ig.Runtime.{raise_comm_fault, latch_comm_fault}
use robot_ethercat_master_ig.Axis.{Axis, is_non_motion_slave}
use robot_ethercat_master_ig.Servo.{Servo, is_motion, some_motor, each_motor}
use robot_ethercat_master_ig.Servo.Cycle.{
  DriveInput, DomainState, zero_torque, zero_velocity, drop_stale, is_stale,
  check_external_command_freshness, receive_data, run_job_cycle, apply_safe_process_image_outputs,
  put_safe_outputs,
}
use robot_ethercat_master_ig.Servo.Lookup.{get_elem?-each_motor}
use robot_ethercat_master_ig.Servo.Held.{IsShown, word_for, safe_cycle}
use robot_ethercat_master_ig.Servo.SafeOutputs.{safe_outputs_hold}

some_motor-found :
    (t : Axis → Bool) (axes : List Axis) (i : ℕ) (a : Axis)
    → get_elem? axes i ≡ some a
    → is_motion a ≡ true
    → t a ≡ true
    → some_motor t axes ≡ true
some_motor-found t [] i a h m e = absurd (none-ne-some a h)
some_motor-found t (x ∷ xs) zero a h m e =
    let same : x ≡ a = some-injective x a h in
    let both : is_motion x && t x ≡ true =
      ap (λ y. is_motion y && t y) same ∙ (ap (λ b. b && t a) m ∙ e) in
    ap (λ b. b || some_motor t xs) both
some_motor-found t (x ∷ xs) (suc i) a h m e =
    let found = some_motor-found t xs i a h m e in ground arith

drop_stale-kept :
    (watched : Bool) (now : ℕ) (a : Axis)
    → ((drop_stale watched now a).config ≡ a.config)
      × ((drop_stale watched now a).safe_latched_position ≡ a.safe_latched_position)
      × ((drop_stale watched now a).fault_reset_cw ≡ a.fault_reset_cw)
unfolding drop_stale zero_torque zero_velocity
drop_stale-kept watched now a = ground arith

-- The check raises the fault, and takes the axis to `drop_stale`.
module _ (now i : ℕ) (s : Servo) (a : Axis) (started : s.initialized ≡ true)
    (active : s.activated ≡ true) (watching : s.external_cmd_watchdog_ns ≢ 0)
    (unsafe : s.runtime.safe_output_required ≡ false) (here : get_elem? s.axes i ≡ some a)
    (motor : is_motion a ≡ true) (stale : is_stale s.csv_cmd_watchdog now a ≡ true) where
  abbrev checked : Servo
  checked = record s {
    axes = each_motor (drop_stale s.csv_cmd_watchdog now) s.axes;
    runtime = raise_comm_fault s.runtime;
  }

  check-checked : check_external_command_freshness now s ≡ checked
  unfolding check_external_command_freshness
  check-checked =
      let found = some_motor-found (is_stale s.csv_cmd_watchdog now) s.axes i a here motor stale in
      ground arith

  run_job_cycle-checked :
      (force : Bool) (inputs : ℕ → DriveInput) (out inp : DomainState)
      → (run_job_cycle force now inputs out inp s).1 ≡ safe_cycle inputs checked
  unfolding run_job_cycle receive_data raise_comm_fault latch_comm_fault
  run_job_cycle-checked force inputs out inp =
      let t = check_external_command_freshness now s in
      let required : t.runtime.safe_output_required ≡ true =
        ap (λ u. u.runtime.safe_output_required) check-checked in
      let safe : (run_job_cycle force now inputs out inp s).1 ≡ safe_cycle inputs t =
        ground arith in
      safe ∙ ap (safe_cycle inputs) check-checked

  safe_cycle-faulted :
      (inputs : ℕ → DriveInput) → (safe_cycle inputs checked).runtime.comm_fault ≡ true
  unfolding apply_safe_process_image_outputs put_safe_outputs receive_data raise_comm_fault
      latch_comm_fault
  safe_cycle-faulted inputs = ground arith

IsShown-cast :
    (entering reset : Bool) (fresh : ℤ) {p q : ℤ} {r r' i : ℕ} {s : Servo}
    → p ≡ q
    → r ≡ r'
    → IsShown (if entering then fresh else p) (word_for reset r) i s
    → IsShown (if entering then fresh else q) (word_for reset r') i s
IsShown-cast entering reset fresh {p} {q} {r} {r'} {i} {s} hp hr h =
    subst (λ x. IsShown (if entering then fresh else x) (word_for reset r') i s) hp
      (subst (λ w. IsShown (if entering then fresh else p) (word_for reset w) i s) hr h)

-- Of a servo that is initialised and activated, with the watchdog set and safe output not yet required:
-- a torque command (or a watched velocity
-- command) of a motor that is too old when a cycle begins latches the communication fault, and that
-- same cycle already writes held outputs to the motor: no velocity, no torque, its position at that
-- time (or the one latched before, where safe output was still active), and the switch on word (or
-- the reset word, while a reset window for it is open).
pub stale_command_stops :
    (force : Bool) (now : ℕ) (inputs : ℕ → DriveInput) (out inp : DomainState) (s : Servo) (i : ℕ)
    (a : Axis)
    → s.initialized ≡ true
    → s.activated ≡ true
    → s.external_cmd_watchdog_ns ≢ 0
    → s.runtime.safe_output_required ≡ false
    → get_elem? s.axes i ≡ some a
    → is_motion a ≡ true
    → is_stale s.csv_cmd_watchdog now a ≡ true
    → let t = (run_job_cycle force now inputs out inp s).1 in
      let held =
        if not s.safe_output_active then (inputs i).actual_position else a.safe_latched_position in
      let chosen = s.explicit_fault_reset_axis == 0x00FF || s.explicit_fault_reset_axis == i in
      (t.runtime.comm_fault ≡ true)
      × IsShown held (word_for (ltb 0 s.explicit_fault_reset_cycles && chosen) a.fault_reset_cw) i t
stale_command_stops force now inputs out inp s i a started active watching unsafe here motor stale =
    let t = checked now i s a started active watching unsafe here motor stale in
    let b = drop_stale s.csv_cmd_watchdog now a in
    let (config, latched, reset_word) = drop_stale-kept s.csv_cmd_watchdog now a in
    let shown =
      safe_outputs_hold inputs [] t i b started active
        (get_elem?-each_motor (drop_stale s.csv_cmd_watchdog now) s.axes i a here motor)
        (ap (λ c. not (is_non_motion_slave c)) config ∙ motor) in
    let same =
      run_job_cycle-checked now i s a started active watching unsafe here motor stale force inputs
        out inp in
    (
      ap (λ u. u.runtime.comm_fault) same
          ∙ safe_cycle-faulted now i s a started active watching unsafe here motor stale inputs,
      subst
          (IsShown
            (if not s.safe_output_active
              then (inputs i).actual_position
              else a.safe_latched_position)
            (word_for
              (ltb 0 s.explicit_fault_reset_cycles
                && (s.explicit_fault_reset_axis == 0x00FF || s.explicit_fault_reset_axis == i))
              a.fault_reset_cw)
            i)
          (sym same)
          (IsShown-cast (not s.safe_output_active)
            (ltb 0 s.explicit_fault_reset_cycles
              && (s.explicit_fault_reset_axis == 0x00FF || s.explicit_fault_reset_axis == i))
            ((inputs i).actual_position) latched reset_word shown),
    )
