-- ===== src/Axis/FaultReset.antt =====
-- ethercat_servo.cpp, sendDataCommon: the fault reset phases while a drive keeps its fault.
use robot_ethercat_master_ig.Prelude.{
  ℕ, suc, ◌+◌, ◌-◌, ◌%◌, ◌<◌, ◌≡◌, refl, subst, Bool, true, ◌&&◌, arith, ltb, ◌==◌, if◌then◌else◌,
  List, [], ◌∷◌, length, dec_lt,
}
use robot_ethercat_master_ig.Cia402.{is_fault, control_word_switch_on}
use robot_ethercat_master_ig.Axis.{Axis}
use robot_ethercat_master_ig.Axis.Transmit.{
  CycleView, detect_fault, monitor_enable, recover, clear_phase, reset_step, advance, run_fsm,
}
use robot_ethercat_master_ig.Axis.Enabling.{run_cycles}

record Resetting (phase wait word : ℕ) (a : Axis) : Type 0 where
  wished : a.desired_enable ≡ true
  running : a.enable_fsm_active ≡ true
  no_recovery : a.fault_reset_counter ≡ 0
  in_phase : a.fault_reset_phase ≡ phase
  waits : a.enable_fsm_wait ≡ wait
  commands : a.control_word_state ≡ word

module _ {phase wait word : ℕ} (v : CycleView) (fault : is_fault v.status_word ≡ true) (r : ℕ) where
  detect_fault-Resetting :
      (a : Axis)
      → Resetting phase wait word a × (a.fault_reset_cw ≡ r)
      → Resetting phase wait word (detect_fault v a) × ((detect_fault v a).fault_reset_cw ≡ r)
  unfolding detect_fault
  detect_fault-Resetting a p = ground arith

  monitor_enable-Resetting :
      (a : Axis)
      → Resetting phase wait word a × (a.fault_reset_cw ≡ r)
      → Resetting phase wait word (monitor_enable v a) × ((monitor_enable v a).fault_reset_cw ≡ r)
  unfolding monitor_enable
  monitor_enable-Resetting a p = ground arith

  recover-Resetting :
      (a : Axis)
      → Resetting phase wait word a × (a.fault_reset_cw ≡ r)
      → Resetting phase wait word (recover a) × ((recover a).fault_reset_cw ≡ r)
  unfolding recover
  recover-Resetting a p = ground arith

  clear_phase-Resetting :
      (a : Axis)
      → Resetting phase wait word a × (a.fault_reset_cw ≡ r)
      → Resetting phase wait word (clear_phase v a) × ((clear_phase v a).fault_reset_cw ≡ r)
  unfolding clear_phase
  clear_phase-Resetting a p = ground arith

  before_advance :
      (a : Axis)
      → Resetting phase wait word a × (a.fault_reset_cw ≡ r)
      → let b = clear_phase v (recover (monitor_enable v (detect_fault v a))) in
        Resetting phase wait word b × (b.fault_reset_cw ≡ r)
  before_advance a p =
      clear_phase-Resetting _
        (recover-Resetting _ (monitor_enable-Resetting _ (detect_fault-Resetting a p)))

-- Phase, wait and control word `m` cycles after the phases began, in a round of 23 cycles.
abbrev phase_at : ℕ → ℕ
phase_at m = if ltb m 11 then 1 else if ltb m 22 then 2 else 0

abbrev wait_at : ℕ → ℕ
wait_at m = if ltb m 11 then 10 - m else 21 - m

abbrev pub word_at : ℕ → ℕ → ℕ
word_at r m = if m == 22 then control_word_switch_on else r

abbrev At : ℕ → ℕ → Axis → Type 0
At r m a = Resetting (phase_at m) (wait_at m) (word_at r m) a × (a.fault_reset_cw ≡ r)

module _ (v : CycleView) (fault : is_fault v.status_word ≡ true) (r : ℕ) (a : Axis) where
  advance-At : (m : ℕ) → m < 22 → At r m a → At r (suc m) (advance v a)
  unfolding advance reset_step
  advance-At m lt p = ground arith

  advance-At_first :
      {word : ℕ} → Resetting 0 0 word a × (a.fault_reset_cw ≡ r) → At r 0 (advance v a)
  unfolding advance reset_step
  advance-At_first p = ground arith

module _ (v : CycleView) (fault : is_fault v.status_word ≡ true) (r : ℕ) (a : Axis) where
  -- A whole round later the first step comes again.
  run_fsm-At : (m : ℕ) → m < 23 → At r m a → At r (suc m % 23) (run_fsm v a)
  unfolding run_fsm
  run_fsm-At m lt p =
      let b = clear_phase v (recover (monitor_enable v (detect_fault v a))) in
      let ready : At r m b = before_advance v fault r a p in
      elim (dec_lt m 22) [
        | yes inside ↦
            let same : suc m ≡ suc m % 23 = omega arith in
            subst (λ k. At r k (advance v b)) same (advance-At v fault r b m inside ready)
        | no over ↦
            let same : 0 ≡ suc m % 23 = omega arith in
            let last : m ≡ 22 = omega arith in
            subst (λ k. At r k (advance v b)) same
              (advance-At_first v fault r b (subst (λ k. At r k b) last ready))
      ]

  run_fsm-At_first :
      {word : ℕ} → Resetting 0 0 word a × (a.fault_reset_cw ≡ r) → At r 0 (run_fsm v a)
  unfolding run_fsm
  run_fsm-At_first p =
      let b = clear_phase v (recover (monitor_enable v (detect_fault v a))) in
      advance-At_first v fault r b (before_advance v fault r a p)

abbrev pub faulty : List CycleView → Bool
faulty [] = true
faulty (v ∷ vs) = is_fault v.status_word && faulty vs

split_faulty :
    (v : CycleView) (vs : List CycleView)
    → faulty (v ∷ vs) ≡ true
    → (is_fault v.status_word ≡ true) × (faulty vs ≡ true)
split_faulty v vs h = ground arith

run_cycles-At :
    (r m n : ℕ) (vs : List CycleView) (a : Axis)
    → faulty vs ≡ true
    → m ≡ n % 23
    → At r m a
    → At r ((n + length vs) % 23) (run_cycles vs a)
run_cycles-At r m n [] a h same p =
    let here : m ≡ (n + 0) % 23 = omega arith in subst (λ k. At r k a) here p
run_cycles-At r m n (v ∷ vs) a h same p =
    let next : suc m % 23 ≡ suc n % 23 = omega arith in
    let there : (suc n + length vs) % 23 ≡ (n + suc (length vs)) % 23 = omega arith in
    let (bad, bads) = split_faulty v vs h in
    subst (λ k. At r k (run_cycles vs (run_fsm v a))) there
      (run_cycles-At r (suc m % 23) (suc n) vs (run_fsm v a) bads next
        (run_fsm-At v bad r a m (omega arith) p))

-- A motor that is meant to be enabled, whose state machine is active at the start of the fault reset
-- phases and whose drive stays in fault, is sent its fault reset word for 22 cycles, then the switch
-- on word for a single one, and so on without end: after `n + 1` cycles the word is the switch on
-- word exactly where `n` leaves 22 when divided by 23 (unless the two words are the same).
pub reset_word_period :
    (n : ℕ) (vs : List CycleView) (a : Axis)
    → a.desired_enable ≡ true
    → a.enable_fsm_active ≡ true
    → a.fault_reset_counter ≡ 0
    → a.fault_reset_phase ≡ 0
    → a.enable_fsm_wait ≡ 0
    → faulty vs ≡ true
    → length vs ≡ suc n
    → (run_cycles vs a).control_word_state ≡ word_at a.fault_reset_cw (n % 23)
reset_word_period n [] a wished running no_recovery start waits h len =
    absurd (let none : ⊥ = omega arith in none)
reset_word_period n (v ∷ vs) a wished running no_recovery start waits h len =
    let (bad, bads) = split_faulty v vs h in
    let first : At a.fault_reset_cw 0 (run_fsm v a) = run_fsm-At_first v bad a.fault_reset_cw a (
      record {
        wished = wished;
        running = running;
        no_recovery = no_recovery;
        in_phase = start;
        waits = waits;
        commands = refl;
      },
      refl,
    ) in
    let there : (0 + length vs) % 23 ≡ n % 23 = omega arith in
    subst (λ k. (run_cycles (v ∷ vs) a).control_word_state ≡ word_at a.fault_reset_cw k) there
      ((run_cycles-At a.fault_reset_cw 0 0 vs (run_fsm v a) bads refl first).0.commands)
