-- ===== src/Servo/Gates.antt =====
-- ethercat_servo.cpp: when setEnable and requestFaultReset are refused, and what they leave then.
use robot_ethercat_master_ig.Prelude.{
  ℕ, zero, suc, ◌+◌, ◌%◌, ◌≡◌, ◌⊎◌, inl, inr, subst, Bool, true, false, ◌&&◌, ◌||◌, arith, Option,
  none, some, Option-cases, ◌==◌, if◌then◌else◌, List, [], ◌∷◌, get_elem?,
}
use mathlib.Core.Option.{some-injective, none-ne-some}
use robot_ethercat_master_ig.Cia402.{is_operation_enabled}
use robot_ethercat_master_ig.Axis.{Axis}
use robot_ethercat_master_ig.Servo.{
  Servo, broadcast, is_motion, enable_blocked, set_enable, selected_fault, reset_blocked,
  request_fault_reset,
}

-- A call of `setEnable` that is refused changes nothing; one that wishes to enable a motor and is not
-- refused finds the servo activated, the startup evidence passed, no communication fault, safe output
-- not required, and motion allowed.
pub set_enable_gated :
    (motor_id : ℕ) (enable : Bool) (s : Servo)
    → (((set_enable motor_id enable s).0 ≡ false) × ((set_enable motor_id enable s).1 ≡ s))
      ⊎ ((enable ≡ false)
          ⊎ ((s.activated ≡ true)
              × (s.startup_evidence_passed ≡ true)
              × (s.runtime.comm_fault ≡ false)
              × (s.runtime.safe_output_required ≡ false)
              × (s.runtime.motion_reenable_allowed ≡ true)))
unfolding set_enable enable_blocked
set_enable_gated motor_id enable s = ground arith

abbrev is_selected : ℕ → ℕ → Axis → Bool
is_selected motor_id i a = is_motion a && (motor_id == broadcast || motor_id == i % 256)

otherwise_some :
    (b : Bool) {r : Option Bool} (seen : Bool) → (if b then none else r) ≡ some seen → r ≡ some seen
otherwise_some true seen e = absurd (none-ne-some seen e)
otherwise_some false seen e = e

selected_fault_uncons :
    (motor_id j : ℕ) (found seen : Bool) (x : Axis) (xs : List Axis)
    → selected_fault motor_id j found (x ∷ xs) ≡ some seen
    → (is_selected motor_id j x ≡ true → is_operation_enabled x.last_status_word ≡ false)
      × ((next : Bool) × (selected_fault motor_id (suc j) next xs ≡ some seen))
unfolding selected_fault
selected_fault_uncons motor_id j found seen x xs h = (
  ground arith,
  (_, otherwise_some (is_selected motor_id j x && is_operation_enabled x.last_status_word) seen h),
)

selected_fault-disabled :
    (motor_id j : ℕ) (found seen : Bool) (axes : List Axis) (i : ℕ) (a : Axis)
    → selected_fault motor_id j found axes ≡ some seen
    → get_elem? axes i ≡ some a
    → is_selected motor_id (j + i) a ≡ true
    → is_operation_enabled a.last_status_word ≡ false
selected_fault-disabled motor_id j found seen [] i a h here chosen = absurd (none-ne-some a here)
selected_fault-disabled motor_id j found seen (x ∷ xs) zero a h here chosen =
    let same : x ≡ a = some-injective x a here in
    let at : j + 0 ≡ j = omega arith in
    subst (λ y. is_selected motor_id j y ≡ true → is_operation_enabled y.last_status_word ≡ false)
      same ((selected_fault_uncons motor_id j found seen x xs h).0)
      (subst (λ k. is_selected motor_id k a ≡ true) at chosen)
selected_fault-disabled motor_id j found seen (x ∷ xs) (suc i) a h here chosen =
    let (next, rest) = (selected_fault_uncons motor_id j found seen x xs h).1 in
    let at : j + suc i ≡ suc j + i = omega arith in
    selected_fault-disabled motor_id (suc j) next seen xs i a rest here
      (subst (λ k. is_selected motor_id k a ≡ true) at chosen)

request_fault_reset-answer :
    (in_op : Bool) (motor_id : ℕ) (allow : Bool) (s : Servo)
    → (request_fault_reset in_op motor_id allow s).0 ≡ true
    → (reset_blocked in_op motor_id s ≡ false)
      × ((seen : Bool) × (selected_fault motor_id 0 false s.axes ≡ some seen))
unfolding request_fault_reset
request_fault_reset-answer in_op motor_id allow s h =
    elim (Option-cases (selected_fault motor_id 0 false s.axes)) [
      | inl e ↦ ground arith
      | inr (seen, e) ↦ (ground arith, (seen, e))
    ]

-- A request for a fault reset succeeds only while the servo is initialised and activated, the Job
-- thread runs, safe output is required, no communication fault is latched and all slaves are in OP;
-- and then no motor that it selects was last seen enabled.
pub request_fault_reset_gated :
    (in_op : Bool) (motor_id : ℕ) (allow : Bool) (s : Servo) (i : ℕ) (a : Axis)
    → (request_fault_reset in_op motor_id allow s).0 ≡ true
    → get_elem? s.axes i ≡ some a
    → is_selected motor_id i a ≡ true
    → (s.initialized ≡ true)
      × (s.activated ≡ true)
      × (s.runtime.job_running ≡ true)
      × (s.runtime.safe_output_required ≡ true)
      × (s.runtime.comm_fault ≡ false)
      × (in_op ≡ true)
      × (is_operation_enabled a.last_status_word ≡ false)
unfolding reset_blocked
request_fault_reset_gated in_op motor_id allow s i a h here chosen =
    let (unblocked, (seen, found)) = request_fault_reset-answer in_op motor_id allow s h in
    let at : i ≡ 0 + i = omega arith in
    let disabled =
      selected_fault-disabled motor_id 0 false seen s.axes i a found here
        (subst (λ k. is_selected motor_id k a ≡ true) at chosen) in
    ground arith
