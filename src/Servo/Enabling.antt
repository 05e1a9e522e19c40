-- ===== src/Servo/Enabling.antt =====
-- ethercat_servo.cpp: what setEnable does to the motors, and that asking again changes nothing.
use robot_ethercat_master_ig.Prelude.{
  ℕ, zero, suc, ◌≡◌, inl, inr, ◌∙◌, sym, ap, refl, Bool, true, false, not, ◌||◌, arith, none, some,
  Option-cases, Bool-cases, ◌==◌, List, [], ◌∷◌, get_elem?,
}
use mathlib.Core.Option.{some-injective, none-ne-some}
use robot_ethercat_master_ig.Axis.{Axis}
use robot_ethercat_master_ig.Axis.Transmit.{differ}
use robot_ethercat_master_ig.Servo.{
  Servo, broadcast, is_motion, each_motor, some_motor, modify, restart, enable_blocked, enable_one,
  enable_all, set_enable,
}

-- Whether a motor is meant otherwise than asked.
abbrev wants : Bool → Axis → Bool
wants enable a = differ a.desired_enable enable

wants-restart : (enable : Bool) (a : Axis) → wants enable (restart enable a) ≡ false
unfolding restart
wants-restart true a = refl
wants-restart false a = refl

is_motion-restart : (enable : Bool) (a : Axis) → is_motion (restart enable a) ≡ is_motion a
unfolding restart
is_motion-restart enable a = refl

some_motor-each_motor :
    (enable : Bool) (axes : List Axis)
    → some_motor (wants enable) (each_motor (restart enable) axes) ≡ false
some_motor-each_motor enable [] = refl
some_motor-each_motor enable (a ∷ rest) =
    ground
      (arith, some_motor-each_motor enable rest, wants-restart enable a, is_motion-restart enable a)

enable_all_idempotent :
    (enable : Bool) (s : Servo) → enable_all enable (enable_all enable s) ≡ enable_all enable s
unfolding enable_all
enable_all_idempotent enable s =
    let h = some_motor-each_motor enable s.axes in
    elim (Bool-cases (some_motor (wants enable) s.axes)) [
      | inl changes ↦ ground arith
      | inr same ↦ ground arith
    ]

enable_all_blocked :
    (e enable : Bool) (s : Servo) → enable_blocked e (enable_all enable s) ≡ enable_blocked e s
unfolding enable_all enable_blocked
enable_all_blocked e enable s = elim (Bool-cases (some_motor (wants enable) s.axes)) [
  | inl changes ↦ ground arith
  | inr same ↦ ground arith
]

get_elem?-modify :
    (f : Axis → Axis) (i : ℕ) (axes : List Axis) (a : Axis)
    → get_elem? axes i ≡ some a
    → get_elem? (modify f i axes) i ≡ some (f a)
get_elem?-modify f i [] a h = absurd (none-ne-some a h)
get_elem?-modify f zero (x ∷ xs) a h = ap (λ y. some (f y)) (some-injective x a h)
get_elem?-modify f (suc i) (x ∷ xs) a h = get_elem?-modify f i xs a h

-- The three ways in which `setEnable` goes on.
module _ (motor_id : ℕ) (enable : Bool) (s : Servo) where
  set_enable-blocked : enable_blocked enable s ≡ true → set_enable motor_id enable s ≡ (false, s)
  unfolding set_enable
  set_enable-blocked h = ground arith

  set_enable-all :
      enable_blocked enable s ≡ false
      → (motor_id == broadcast) ≡ true
      → set_enable motor_id enable s ≡ (true, enable_all enable s)
  unfolding set_enable
  set_enable-all h b = ground arith

  set_enable-missing :
      enable_blocked enable s ≡ false
      → (motor_id == broadcast) ≡ false
      → get_elem? s.axes motor_id ≡ none
      → set_enable motor_id enable s ≡ (false, s)
  unfolding set_enable
  set_enable-missing h b e = ground arith

  set_enable-one :
      (a : Axis)
      → enable_blocked enable s ≡ false
      → (motor_id == broadcast) ≡ false
      → get_elem? s.axes motor_id ≡ some a
      → set_enable motor_id enable s ≡ (true, enable_one enable motor_id a s)
  unfolding set_enable
  set_enable-one a h b e = ground arith

  -- A motor that is no motor, or is meant so already, is left alone.
  abbrev is_idle : Axis → Bool
  is_idle a = not (is_motion a) || not (wants enable a)

  enable_one-idle : (a : Axis) → is_idle a ≡ true → enable_one enable motor_id a s ≡ s
  unfolding enable_one
  enable_one-idle a h = ground arith

  enable_one-changes :
      (a : Axis)
      → is_idle a ≡ false
      → enable_one enable motor_id a s ≡ record s { axes = modify (restart enable) motor_id s.axes }
  unfolding enable_one
  enable_one-changes a h = ground arith

is_idle-restart :
    (motor_id : ℕ) (enable : Bool) (s : Servo) (a : Axis)
    → is_idle motor_id enable s (restart enable a) ≡ true
is_idle-restart motor_id enable s a = ground (arith, wants-restart enable a)

set_enable-enable_one :
    (motor_id : ℕ) (enable : Bool) (s : Servo) (a : Axis)
    → enable_blocked enable s ≡ false
    → (motor_id == broadcast) ≡ false
    → get_elem? s.axes motor_id ≡ some a
    → set_enable motor_id enable (enable_one enable motor_id a s)
      ≡ (true, enable_one enable motor_id a s)
unfolding enable_blocked
set_enable-enable_one motor_id enable s a free one here =
    elim (Bool-cases (is_idle motor_id enable s a)) [
      | inl idle ↦
          let same = enable_one-idle motor_id enable s a idle in
          ap (set_enable motor_id enable) same ∙ (set_enable-one motor_id enable s a free one here)
      | inr changes ↦
          let same = enable_one-changes motor_id enable s a changes in
          let t : Servo = record s { axes = modify (restart enable) motor_id s.axes } in
          ap (set_enable motor_id enable) same
          ∙ (set_enable-one motor_id enable t (restart enable a) free one
                (get_elem?-modify (restart enable) motor_id s.axes a here)
              ∙ (ap (λ u. (true, u))
                    (enable_one-idle motor_id enable t (restart enable a)
                      (is_idle-restart motor_id enable t a))
                  ∙ ap (λ u. (true, u)) (sym same)))
    ]

-- `setEnable` is idempotent: a second call with the same arguments answers like the first and changes
-- nothing, so that calling it in every cycle does not restart a sequence that runs.
pub set_enable_idempotent :
    (motor_id : ℕ) (enable : Bool) (s : Servo)
    → set_enable motor_id enable ((set_enable motor_id enable s).1) ≡ set_enable motor_id enable s
set_enable_idempotent motor_id enable s =
    let again : Bool × Servo → Bool × Servo = λ p. set_enable motor_id enable (p.1) in
    elim (Bool-cases (enable_blocked enable s)) [
      | inl blocked ↦ ap again (set_enable-blocked motor_id enable s blocked)
      | inr free ↦ elim (Bool-cases (motor_id == broadcast)) [
        | inl all ↦
            let first = set_enable-all motor_id enable s free all in
            ap again first
            ∙ (set_enable-all motor_id enable (enable_all enable s)
                  (enable_all_blocked enable enable s ∙ free) all
                ∙ (ap (λ u. (true, u)) (enable_all_idempotent enable s) ∙ sym first))
        | inr one ↦ elim (Option-cases (get_elem? s.axes motor_id)) [
          | inl missing ↦ ap again (set_enable-missing motor_id enable s free one missing)
          | inr (a, here) ↦
              let first = set_enable-one motor_id enable s a free one here in
              ap again first ∙ (set_enable-enable_one motor_id enable s a free one here ∙ sym first)
        ]
      ]
    ]
