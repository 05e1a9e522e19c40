-- ===== src/Axis/Enabling.antt =====
-- ethercat_servo.cpp, sendDataCommon: the enable and the disable sequence run to their end.
use robot_ethercat_master_ig.Prelude.{
  ℕ, suc, ◌+◌, ◌-◌, ◌/◌, ◌%◌, ◌<◌, ◌≡◌, refl, subst, Bool, true, false, not, arith, get_or,
  if◌then◌else◌, List, [], ◌∷◌, length, ◌⊎◌, ◌&&◌, ℕ_discrete, ◌≢◌,
}
use robot_ethercat_master_ig.Cia402.{enable_sequence, disable_sequence, is_fault}
use robot_ethercat_master_ig.Axis.{Axis}
use robot_ethercat_master_ig.Servo.{restart}
use robot_ethercat_master_ig.Axis.Transmit.{
  CycleView, detect_fault, monitor_enable, recover, clear_phase, sequence_step, advance, run_fsm,
}

-- The state machine over a run of cycles, one view for each.
abbrev pub run_cycles : List CycleView → Axis → Axis
run_cycles [] a = a
run_cycles (v ∷ vs) a = run_cycles vs (run_fsm v a)

-- Where a sequence is that `restart` began, and the control word that it has set.
record Progress (enable : Bool) (step wait word : ℕ) (a : Axis) : Type 0 where
  goal : a.desired_enable ≡ enable
  running : a.enable_fsm_active ≡ true
  at_step : a.enable_fsm_step ≡ step
  waits : a.enable_fsm_wait ≡ wait
  idle_reset : a.fault_reset_counter ≡ 0
  commands : a.control_word_state ≡ word

module _ {enable : Bool} {step wait word : ℕ} (v : CycleView) where
  detect_fault-Progress :
      (a : Axis)
      → Progress enable step wait word a
      → Progress enable step wait word (detect_fault v a)
  unfolding detect_fault
  detect_fault-Progress a p = ground arith

  monitor_enable-Progress :
      (a : Axis)
      → Progress enable step wait word a
      → Progress enable step wait word (monitor_enable v a)
  unfolding monitor_enable
  monitor_enable-Progress a p = ground arith

  recover-Progress :
      (a : Axis) → Progress enable step wait word a → Progress enable step wait word (recover a)
  unfolding recover
  recover-Progress a p = ground arith

  clear_phase-Progress :
      (a : Axis)
      → Progress enable step wait word a
      → Progress enable step wait word (clear_phase v a)
  unfolding clear_phase
  clear_phase-Progress a p = ground arith

  before_advance :
      (a : Axis)
      → Progress enable step wait word a
      → Progress enable step wait word
          (clear_phase v (recover (monitor_enable v (detect_fault v a))))
  before_advance a p =
      clear_phase-Progress _
        (recover-Progress _ (monitor_enable-Progress _ (detect_fault-Progress a p)))

advance-Progress_wait :
    {enable : Bool} {step wait word : ℕ} (v : CycleView) (a : Axis)
    → Progress enable step (suc wait) word a
    → Progress enable step wait word (advance v a)
unfolding advance
advance-Progress_wait v a p = ground arith

abbrev pub word_of : Bool → ℕ → ℕ
word_of enable step = get_or (if enable then enable_sequence else disable_sequence) step 0

advance-Progress_step :
    {enable : Bool} {step word : ℕ} (v : CycleView) (a : Axis)
    → (is_fault v.status_word ≡ false) ⊎ (enable ≡ false)
    → step < 4
    → Progress enable step 0 word a
    → Progress enable (suc step) 10 (word_of enable step) (advance v a)
unfolding advance sequence_step
advance-Progress_step v a h lt p = ground arith

advance-Progress_end :
    {enable : Bool} {word : ℕ} (v : CycleView) (a : Axis)
    → (is_fault v.status_word ≡ false) ⊎ (enable ≡ false)
    → Progress enable 4 0 word a
    → ((advance v a).enable_requested ≡ enable)
      × ((advance v a).enable_fsm_active ≡ false)
      × ((advance v a).control_word_state ≡ word)
unfolding advance sequence_step
advance-Progress_end v a h p = ground arith

Progress-cast :
    {enable : Bool} {step step' wait wait' : ℕ} {a : Axis}
    → step ≡ step'
    → wait ≡ wait'
    → Progress enable (suc step) wait (word_of enable step) a
    → Progress enable (suc step') wait' (word_of enable step') a
Progress-cast {enable} {step} {step'} {wait} {wait'} {a} same waits p =
    subst (λ m. Progress enable (suc m) wait' (word_of enable m) a) same
      (subst (λ w. Progress enable (suc step) w (word_of enable step) a) waits p)

-- After `n + 1` cycles.
abbrev At : Bool → ℕ → Axis → Type 0
At enable n a = Progress enable (suc (n / 11)) (10 - n % 11) (word_of enable (n / 11)) a

abbrev pub calm : List CycleView → Bool
calm [] = true
calm (v ∷ vs) = not (is_fault v.status_word) && calm vs

module _ {enable : Bool} (v : CycleView) (a : Axis)
    (h : (is_fault v.status_word ≡ false) ⊎ (enable ≡ false)) where
  run_fsm-At_zero : {word : ℕ} → Progress enable 0 0 word a → At enable 0 (run_fsm v a)
  unfolding run_fsm
  run_fsm-At_zero p = advance-Progress_step v _ h (omega arith) (before_advance v a p)

  run_fsm-At_step : (n : ℕ) → n < 43 → n % 11 ≡ 10 → At enable n a → At enable (suc n) (run_fsm v a)
  unfolding run_fsm
  run_fsm-At_step n lt last p =
      let zeroed : 10 - n % 11 ≡ 0 = omega arith in
      let b = clear_phase v (recover (monitor_enable v (detect_fault v a))) in
      let ready : Progress enable (suc (n / 11)) 0 (word_of enable (n / 11)) b =
        subst (λ w. Progress enable (suc (n / 11)) w (word_of enable (n / 11)) b) zeroed
          (before_advance v a p) in
      let here : suc (n / 11) ≡ suc n / 11 = omega arith in
      let full : 10 ≡ 10 - suc n % 11 = omega arith in
      Progress-cast here full (advance-Progress_step v b h (omega arith) ready)

  run_fsm-At_wait : (n : ℕ) → n % 11 ≢ 10 → At enable n a → At enable (suc n) (run_fsm v a)
  unfolding run_fsm
  run_fsm-At_wait n more p =
      let left : 10 - n % 11 ≡ suc (10 - suc n % 11) = omega arith in
      let b = clear_phase v (recover (monitor_enable v (detect_fault v a))) in
      let ready : Progress enable (suc (n / 11)) (suc (10 - suc n % 11)) (word_of enable (n / 11))
          b =
        subst (λ w. Progress enable (suc (n / 11)) w (word_of enable (n / 11)) b) left
          (before_advance v a p) in
      let here : n / 11 ≡ suc n / 11 = omega arith in
      Progress-cast here refl (advance-Progress_wait v b ready)

  run_fsm-At : (n : ℕ) → n < 43 → At enable n a → At enable (suc n) (run_fsm v a)
  run_fsm-At n lt p = elim (ℕ_discrete (n % 11) 10) [
    | yes last ↦ run_fsm-At_step n lt last p
    | no more ↦ run_fsm-At_wait n more p
  ]

  -- The end of the sequence.
  run_fsm-At_last :
      At enable 43 a
      → ((run_fsm v a).enable_requested ≡ enable)
        × ((run_fsm v a).enable_fsm_active ≡ false)
        × ((run_fsm v a).control_word_state ≡ word_of enable 3)
  unfolding run_fsm
  run_fsm-At_last p = advance-Progress_end v _ h (before_advance v a p)

split_calm :
    {enable : Bool} (v : CycleView) (vs : List CycleView)
    → (calm (v ∷ vs) ≡ true) ⊎ (enable ≡ false)
    → ((is_fault v.status_word ≡ false) ⊎ (enable ≡ false)) × ((calm vs ≡ true) ⊎ (enable ≡ false))
split_calm v vs h = ground arith

run_cycles-At :
    {enable : Bool} (n : ℕ) (vs : List CycleView) (a : Axis)
    → (calm vs ≡ true) ⊎ (enable ≡ false)
    → n + length vs < 44
    → At enable n a
    → At enable (n + length vs) (run_cycles vs a)
run_cycles-At {enable} n [] a h fits p =
    subst (λ m. At enable m a) (let same : n ≡ n + 0 = omega arith in same) p
run_cycles-At {enable} n (v ∷ vs) a h fits p =
    let rest : At enable (suc n + length vs) (run_cycles vs (run_fsm v a)) =
      run_cycles-At (suc n) vs (run_fsm v a) ((split_calm v vs h).1) (omega arith)
        (run_fsm-At v a ((split_calm v vs h).0) n (omega arith) p) in
    subst (λ m. At enable m (run_cycles vs (run_fsm v a)))
      (let same : suc n + length vs ≡ n + suc (length vs) = omega arith in same) rest

restart-Progress :
    (enable : Bool) (a : Axis)
    → a.fault_reset_counter ≡ 0
    → Progress enable 0 0 a.control_word_state (restart enable a)
unfolding restart
restart-Progress enable a h = ground arith

-- Where no drive fault is read, or the motor is being disabled, the sequence that a change of the
-- wish to enable begins writes its words in order, each for eleven cycles: whatever the other
-- inputs, after `n + 1` cycles with `n < 44` the control word is the sequence's word number
-- `n / 11`, and the state machine is still active.
pub restart_holds_words :
    (enable : Bool) (n : ℕ) (vs : List CycleView) (a : Axis)
    → a.fault_reset_counter ≡ 0
    → (calm vs ≡ true) ⊎ (enable ≡ false)
    → length vs ≡ suc n
    → n < 44
    → ((run_cycles vs (restart enable a)).control_word_state ≡ word_of enable (n / 11))
      × ((run_cycles vs (restart enable a)).enable_fsm_active ≡ true)
restart_holds_words enable n [] a zeroed h len fits = absurd (let none : ⊥ = omega arith in none)
restart_holds_words enable n (v ∷ vs) a zeroed h len fits =
    let started =
      run_fsm-At_zero v (restart enable a) ((split_calm v vs h).0)
        (restart-Progress enable a zeroed) in
    let there : At enable n (run_cycles (v ∷ vs) (restart enable a)) =
      subst (λ m. At enable m (run_cycles (v ∷ vs) (restart enable a)))
        (let same : 0 + length vs ≡ n = omega arith in same)
        (run_cycles-At 0 vs (run_fsm v (restart enable a)) ((split_calm v vs h).1) (omega arith)
          started) in
    (there.commands, there.running)

-- After 44 cycles.
restart-At_last :
    (enable : Bool) (vs : List CycleView) (a : Axis)
    → a.fault_reset_counter ≡ 0
    → (calm vs ≡ true) ⊎ (enable ≡ false)
    → length vs ≡ 44
    → At enable 43 (run_cycles vs (restart enable a))
restart-At_last enable [] a zeroed h len = absurd (let none : ⊥ = omega arith in none)
restart-At_last enable (v ∷ vs) a zeroed h len =
    subst (λ m. At enable m (run_cycles (v ∷ vs) (restart enable a)))
      (let same : 0 + length vs ≡ 43 = omega arith in same)
      (run_cycles-At 0 vs (run_fsm v (restart enable a)) ((split_calm v vs h).1) (omega arith) (
        run_fsm-At_zero v (restart enable a) ((split_calm v vs h).0)
          (restart-Progress enable a zeroed)))

-- The sequence ends with its forty-fifth cycle: where no drive fault is read, or the motor is being
-- disabled, the state machine then is inactive, the axis counts as enabled exactly where that was
-- wished, and the sequence's last word stands.
pub restart_completes :
    (enable : Bool) (vs : List CycleView) (last : CycleView) (a : Axis)
    → a.fault_reset_counter ≡ 0
    → (calm (last ∷ vs) ≡ true) ⊎ (enable ≡ false)
    → length vs ≡ 44
    → let b = run_fsm last (run_cycles vs (restart enable a)) in
      (b.enable_requested ≡ enable)
      × (b.enable_fsm_active ≡ false)
      × (b.control_word_state ≡ word_of enable 3)
restart_completes enable vs last a zeroed h len =
    run_fsm-At_last last (run_cycles vs (restart enable a)) ((split_calm last vs h).0)
      (restart-At_last enable vs a zeroed ((split_calm last vs h).1) len)
