-- ===== src/Servo/Lookup.antt =====
-- What the loops over the motors leave at one index.
use robot_ethercat_master_ig.Prelude.{
  ℕ, zero, suc, ◌+◌, ◌≡◌, ◌∙◌, sym, ap, subst, Bool, true, arith, some, ◌||◌, ◌==◌, if◌then◌else◌,
  List, [], ◌∷◌, get_elem?,
}
use mathlib.Core.Option.{some-injective, none-ne-some}
use robot_ethercat_master_ig.Axis.{Axis}
use robot_ethercat_master_ig.Servo.{is_motion, each_motor}
use robot_ethercat_master_ig.Servo.Cycle.{
  DriveInput, receive_axis, receive_axes, safe_axis, safe_axes,
}

motor_branch :
    (f : Axis → Axis) (x a : Axis)
    → some x ≡ some a
    → is_motion a ≡ true
    → some (if is_motion x then f x else x) ≡ some (f a)
motor_branch f x a h m =
    let same : x ≡ a = some-injective x a h in
    subst (λ y. some (if is_motion y then f y else y) ≡ some (f a)) (sym same)
      (ap (λ b. some (if b then f a else a)) m)

pub get_elem?-each_motor :
    (f : Axis → Axis) (axes : List Axis) (i : ℕ) (a : Axis)
    → get_elem? axes i ≡ some a
    → is_motion a ≡ true
    → get_elem? (each_motor f axes) i ≡ some (f a)
get_elem?-each_motor f [] i a h m = absurd (none-ne-some a h)
get_elem?-each_motor f (x ∷ xs) zero a h m = motor_branch f x a h m
get_elem?-each_motor f (x ∷ xs) (suc i) a h m = get_elem?-each_motor f xs i a h m

pub get_elem?-receive_axes :
    (inputs : ℕ → DriveInput) (j : ℕ) (axes : List Axis) (i : ℕ) (a : Axis)
    → get_elem? axes i ≡ some a
    → is_motion a ≡ true
    → get_elem? (receive_axes inputs j axes) i ≡ some (receive_axis (inputs (j + i)) a)
get_elem?-receive_axes inputs j [] i a h m = absurd (none-ne-some a h)
get_elem?-receive_axes inputs j (x ∷ xs) zero a h m =
    let here : j ≡ j + 0 = omega arith in
    motor_branch (receive_axis (inputs j)) x a h m ∙ ap (λ k. some (receive_axis (inputs k) a)) here
get_elem?-receive_axes inputs j (x ∷ xs) (suc i) a h m =
    let here : suc j + i ≡ j + suc i = omega arith in
    get_elem?-receive_axes inputs (suc j) xs i a h m
    ∙ ap (λ k. some (receive_axis (inputs k) a)) here

pub get_elem?-safe_axes :
    (entering window : Bool) (reset_axis j : ℕ) (axes : List Axis) (i : ℕ) (a : Axis)
    → get_elem? axes i ≡ some a
    → is_motion a ≡ true
    → get_elem? (safe_axes entering window reset_axis j axes) i
      ≡ some (safe_axis entering window (reset_axis == 0x00FF || reset_axis == j + i) a)
unfolding safe_axes
get_elem?-safe_axes entering window reset_axis j [] i a h m = absurd (none-ne-some a h)
get_elem?-safe_axes entering window reset_axis j (x ∷ xs) zero a h m =
    let here : j ≡ j + 0 = omega arith in
    motor_branch (safe_axis entering window (reset_axis == 0x00FF || reset_axis == j)) x a h m
    ∙ ap (λ k. some (safe_axis entering window (reset_axis == 0x00FF || reset_axis == k) a)) here
get_elem?-safe_axes entering window reset_axis j (x ∷ xs) (suc i) a h m =
    let here : suc j + i ≡ j + suc i = omega arith in
    get_elem?-safe_axes entering window reset_axis (suc j) xs i a h m
    ∙ ap (λ k. some (safe_axis entering window (reset_axis == 0x00FF || reset_axis == k) a)) here
