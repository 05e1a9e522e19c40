-- ===== src/Servo/SafeOutputs.antt =====
-- ethercat_servo.cpp, applySafeProcessImageOutputs: what goes out while safe output is required.
use robot_ethercat_master_ig.Prelude.{
  ℕ, suc, ◌+◌, ◌-◌, ◌≡◌, ◌∙◌, ap, refl, sym, subst, Bool, true, not, ◌&&◌, ◌||◌, arith, some, ltb,
  ◌==◌, if◌then◌else◌, List, [], ◌∷◌, length, get_elem?,
}
use robot_ethercat_master_ig.Prelude.Int.{ℤ}
use robot_ethercat_master_ig.Axis.{Axis}
use robot_ethercat_master_ig.Servo.{
  Servo, is_motion, fault_reset_window, request_fault_reset, reset_blocked,
}
use robot_ethercat_master_ig.Servo.Cycle.{DriveInput}
use robot_ethercat_master_ig.Servo.Held.{
  word_for, safe_cycle, cycle_of, safe_cycle-cycle_of, safe_cycles, Latched, IsShown,
  cycle_of-Latched,
}

-- After `k + 1` cycles, of a window of `c`.
abbrev After : ℤ → ℕ → ℕ → Bool → ℕ → ℕ → Servo → Type 0
After held r c chosen i k s =
    Latched held r (c - suc k) chosen i s × IsShown held (word_for (ltb k c && chosen) r) i s

module _ {held : ℤ} {r : ℕ} {chosen : Bool} (c i : ℕ) where
  safe_cycle-After :
      (k : ℕ) (inputs : ℕ → DriveInput) (s : Servo)
      → After held r c chosen i k s
      → After held r c chosen i (suc k) (safe_cycle inputs s)
  safe_cycle-After k inputs s p =
      let q = p.0 in
      let latches : (if not s.safe_output_active
            then (inputs i).actual_position
            else q.axis.safe_latched_position)
          ≡ held =
        ap (λ b. if not b then (inputs i).actual_position else q.axis.safe_latched_position)
          q.inside
        ∙ q.position in
      let (kept, shown) =
        cycle_of-Latched inputs s i q.axis q.started q.active q.here q.motor q.reset_word latches
          q.window q.selects in
      let left : c - suc k - 1 ≡ c - suc (suc k) = omega arith in
      let more : ltb 0 (c - suc k) ≡ ltb (suc k) c = ground arith in
      subst (After held r c chosen i (suc k))
        (sym (safe_cycle-cycle_of inputs s q.started q.active))
        (
          subst (λ n. Latched held r n chosen i (cycle_of inputs s)) left kept,
          subst (λ b. IsShown held (word_for (b && chosen) r) i (cycle_of inputs s)) more shown,
        )

  safe_cycles-After :
      (k : ℕ) (rest : List (ℕ → DriveInput)) (s : Servo)
      → After held r c chosen i k s
      → After held r c chosen i (k + length rest) (safe_cycles rest s)
  safe_cycles-After k [] s p =
      let same : k ≡ k + 0 = omega arith in subst (λ n. After held r c chosen i n s) same p
  safe_cycles-After k (inputs ∷ rest) s p =
      let same : suc k + length rest ≡ k + suc (length rest) = omega arith in
      subst (λ n. After held r c chosen i n (safe_cycles rest (safe_cycle inputs s))) same
        (safe_cycles-After (suc k) rest (safe_cycle inputs s) (safe_cycle-After k inputs s p))

-- Of a servo that is initialised and activated: however many cycles safe output lasts and whatever is
-- read in them, the outputs of a motor are held:
-- each mapped entry has no velocity, no torque, and the position that was read in the first of these
-- cycles (or had been latched, where safe output was already active); the motor is disabled; and its
-- control word is the switch on word, but the motor's reset word as long as the reset window lasts and
-- is this motor's.
pub safe_outputs_hold :
    (first : ℕ → DriveInput) (rest : List (ℕ → DriveInput)) (s : Servo) (i : ℕ) (a : Axis)
    → s.initialized ≡ true
    → s.activated ≡ true
    → get_elem? s.axes i ≡ some a
    → is_motion a ≡ true
    → let held =
        if not s.safe_output_active then (first i).actual_position else a.safe_latched_position in
      let chosen = s.explicit_fault_reset_axis == 0x00FF || s.explicit_fault_reset_axis == i in
      IsShown held
        (word_for (ltb (length rest) s.explicit_fault_reset_cycles && chosen) a.fault_reset_cw)
        i
        (safe_cycles (first ∷ rest) s)
safe_outputs_hold first rest s i a started active here motor =
    let c = s.explicit_fault_reset_cycles in
    let held =
      if not s.safe_output_active then (first i).actual_position else a.safe_latched_position in
    let chosen = s.explicit_fault_reset_axis == 0x00FF || s.explicit_fault_reset_axis == i in
    let begun : After held a.fault_reset_cw c chosen i 0 (safe_cycle first s) =
      subst (After held a.fault_reset_cw c chosen i 0)
        (sym (safe_cycle-cycle_of first s started active))
        (cycle_of-Latched first s i a started active here motor refl refl refl (λ _. refl)) in
    let same : 0 + length rest ≡ length rest = omega arith in
    subst
      (λ k.
        IsShown held (word_for (ltb k c && chosen) a.fault_reset_cw) i
          (safe_cycles (first ∷ rest) s))
      same ((safe_cycles-After c i 0 rest (safe_cycle first s) begun).1)

-- What a successful request leaves.
request_fault_reset-opened :
    (in_op : Bool) (motor_id : ℕ) (allow : Bool) (s : Servo)
    → (request_fault_reset in_op motor_id allow s).0 ≡ true
    → let t = (request_fault_reset in_op motor_id allow s).1 in
      (t.explicit_fault_reset_cycles ≡ fault_reset_window)
      × (t.explicit_fault_reset_axis ≡ motor_id)
      × (t.initialized ≡ true)
      × (t.activated ≡ true)
      × (t.safe_output_active ≡ s.safe_output_active)
      × (t.axes ≡ s.axes)
unfolding request_fault_reset reset_blocked
request_fault_reset-opened in_op motor_id allow s h = ground arith

-- In safe output, a request for a fault reset that succeeds has the reset word sent for exactly twenty
-- cycles: whatever is read, in the cycle that `n` others precede after the request, a motor's control
-- word is its reset word exactly where `n < 20` and the request was for that motor or for all, and the
-- switch on word otherwise; its position stays the latched one, its velocity and torque zero.
pub request_fault_reset_window :
    (in_op : Bool) (motor_id : ℕ) (allow : Bool) (first : ℕ → DriveInput)
    (rest : List (ℕ → DriveInput)) (s : Servo) (i : ℕ) (a : Axis)
    → (request_fault_reset in_op motor_id allow s).0 ≡ true
    → s.safe_output_active ≡ true
    → get_elem? s.axes i ≡ some a
    → is_motion a ≡ true
    → IsShown a.safe_latched_position
        (word_for (ltb (length rest) 20 && (motor_id == 0xFF || motor_id == i)) a.fault_reset_cw)
        i
        (safe_cycles (first ∷ rest) ((request_fault_reset in_op motor_id allow s).1))
request_fault_reset_window in_op motor_id allow first rest s i a done active here motor =
    let t = (request_fault_reset in_op motor_id allow s).1 in
    let p = request_fault_reset-opened in_op motor_id allow s done in
    let (cycles, axis, started, activated, active', axes) = p in
    let shown =
      safe_outputs_hold first rest t i a started activated (ap (λ l. get_elem? l i) axes ∙ here)
        motor in
    let t_active : t.safe_output_active ≡ true = active' ∙ active in
    let out = safe_cycles (first ∷ rest) t in
    subst
      (λ b.
        IsShown (if not b then (first i).actual_position else a.safe_latched_position)
          (word_for (ltb (length rest) 20 && (motor_id == 0xFF || motor_id == i)) a.fault_reset_cw)
          i out)
      t_active
      (subst
        (λ x.
          IsShown
            (if not t.safe_output_active
              then (first i).actual_position
              else a.safe_latched_position)
            (word_for (ltb (length rest) 20 && (x == 0xFF || x == i)) a.fault_reset_cw) i out)
        axis
        (subst
          (λ n.
            IsShown
              (if not t.safe_output_active
                then (first i).actual_position
                else a.safe_latched_position)
              (word_for
                (ltb (length rest) n
                  && (t.explicit_fault_reset_axis == 0xFF || t.explicit_fault_reset_axis == i))
                a.fault_reset_cw)
              i out)
          cycles shown))
