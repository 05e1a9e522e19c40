-- ===== src/Servo/Positions.antt =====
-- src/ethercat_master_igh/src/master/igh/ethercat_servo.cpp: `initializePositionsFromSDO`. The
-- answers to the five reads of each slave are an argument.
use robot_ethercat_master_ig.Prelude.{
  ℕ, suc, ◌/◌, Bool, true, false, not, ◌||◌, Option, none, some, List, [], ◌∷◌, leb, if◌then◌else◌,
  length, get_or,
}
use robot_ethercat_master_ig.Prelude.Int.{ℤ, pos, ltb_ℤ, equal_ℤ}
use robot_ethercat_master_ig.Axis.{Axis}
use robot_ethercat_master_ig.Servo.{Servo, is_motion}

unfoldable pub read_values : List (Option ℤ) → List ℤ
read_values [] = []
read_values (none ∷ rest) = read_values rest
read_values (some v ∷ rest) = v ∷ read_values rest

-- `std::sort`
unfoldable pub insert_sorted : ℤ → List ℤ → List ℤ
insert_sorted v [] = v ∷ []
insert_sorted v (x ∷ xs) =
    let rest = insert_sorted v xs in if ltb_ℤ x v then x ∷ rest else v ∷ x ∷ xs

unfoldable pub sorted : List ℤ → List ℤ
unfolding insert_sorted
sorted [] = []
sorted (x ∷ xs) = insert_sorted x (sorted xs)

-- The first value that is not 0, or the last one.
unfoldable pub first_nonzero : List ℤ → ℤ → ℤ
first_nonzero [] last = last
first_nonzero (v ∷ rest) last =
    let later = first_nonzero rest v in if not (equal_ℤ v (pos 0)) then v else later

-- `final_pos`; `none` where nothing was read.
unfoldable pub final_position : List ℤ → Option ℤ
unfolding sorted first_nonzero
final_position [] = none
final_position (v ∷ rest) =
    let values = v ∷ rest in
    if leb 3 (length values)
    then some (get_or (sorted values) (length values / 2) (pos 0))
    else some (first_nonzero values (pos 0))

abbrev pub place : Option ℤ → Axis → Axis
place none a = a
place (some v) a = record a {
  idle_input_position = v;
  target_position = v;
  last_actual_position = v;
}

unfoldable pub place_axes : (ℕ → List (Option ℤ)) → ℕ → List Axis → List Axis
unfolding final_position read_values
place_axes answers i [] = []
place_axes answers i (a ∷ rest) =
    (if is_motion a then place (final_position (read_values (answers i))) a else a)
    ∷ place_axes answers (suc i) rest

abbrev placed : Option ℤ → Bool
placed none = false
placed (some v) = true

-- Whether a motor's position was read.
unfoldable pub some_placed : (ℕ → List (Option ℤ)) → ℕ → List Axis → Bool
unfolding final_position read_values
some_placed answers i [] = false
some_placed answers i (a ∷ rest) =
    (if is_motion a then placed (final_position (read_values (answers i))) else false)
    || some_placed answers (suc i) rest

unfoldable pub initialize_positions_from_sdo : (ℕ → List (Option ℤ)) → Servo → Bool × Servo
unfolding place_axes some_placed
initialize_positions_from_sdo answers s =
    if not s.initialized || s.activated
    then (false, s)
    else (some_placed answers 0 s.axes, record s { axes = place_axes answers 0 s.axes })
