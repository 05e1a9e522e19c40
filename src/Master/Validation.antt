-- ===== src/Master/Validation.antt =====
-- The check of the axes' configuration against what it asks of them.
use text.Mathlib.Text.{◌==◌ as str_eq}
use robot_ethercat_master_ig.Prelude.{
  ◌≡◌, refl, Bool, true, not, ◌&&◌, List, [], ◌∷◌, ◌++◌, arith, leb, ◌==◌, length,
}
use robot_ethercat_master_ig.Master.{
  AxisConfig, AxisConfigError, is_no_error, check_previous, check_axes, validate_axis_configs,
  first_error,
}

-- Named and with an identity.
abbrev pub is_complete : AxisConfig → Bool
is_complete a =
    not (str_eq a.joint_name "") && (not (a.vendor_id == 0) && not (a.product_code == 0))

-- Neither the name nor the address on the bus in common.
abbrev pub apart : AxisConfig → AxisConfig → Bool
apart a b =
    not (str_eq a.joint_name b.joint_name) && not (a.alias == b.alias && a.position == b.position)

-- Apart from all that follow, and from all that come before.
abbrev pub apart_after : AxisConfig → List AxisConfig → Bool
apart_after a [] = true
apart_after a (b ∷ rest) = apart a b && apart_after a rest

abbrev apart_before : List AxisConfig → AxisConfig → Bool
apart_before [] b = true
apart_before (a ∷ rest) b = apart a b && apart_before rest b

-- Every axis complete, any two apart.
abbrev pub are_valid : List AxisConfig → Bool
are_valid [] = true
are_valid (a ∷ rest) = is_complete a && (apart_after a rest && are_valid rest)

abbrev all_apart : List AxisConfig → List AxisConfig → Bool
all_apart [] axes = true
all_apart (a ∷ rest) axes = apart_after a axes && all_apart rest axes

all_apart-append :
    (done axes : List AxisConfig) (c : AxisConfig)
    → all_apart (done ++ c ∷ []) axes ≡ (all_apart done axes && apart_after c axes)
all_apart-append [] axes c = ground arith
all_apart-append (a ∷ rest) axes c = ground (arith, all_apart-append rest axes c)

all_apart_uncons :
    (done : List AxisConfig) (c : AxisConfig) (axes : List AxisConfig)
    → all_apart done (c ∷ axes) ≡ (apart_before done c && all_apart done axes)
all_apart_uncons [] c axes = refl
all_apart_uncons (a ∷ rest) c axes = ground (arith, all_apart_uncons rest c axes)

all_apart_nil : (done : List AxisConfig) → all_apart done [] ≡ true
all_apart_nil [] = refl
all_apart_nil (a ∷ rest) = all_apart_nil rest

check_previous_lem :
    (c : AxisConfig) (done : List AxisConfig)
    → is_no_error (check_previous c done) ≡ apart_before done c
unfolding check_previous
check_previous_lem c [] = refl
check_previous_lem c (a ∷ rest) = ground (arith, check_previous_lem c rest)

is_no_error-first_error :
    (e later : AxisConfigError)
    → is_no_error (first_error e later) ≡ (is_no_error e && is_no_error later)
is_no_error-first_error AxisConfigError.no_error later = refl
is_no_error-first_error AxisConfigError.axis_count_out_of_range later = refl
is_no_error-first_error AxisConfigError.empty_joint_name later = refl
is_no_error-first_error AxisConfigError.missing_identity later = refl
is_no_error-first_error AxisConfigError.duplicate_joint_name later = refl
is_no_error-first_error AxisConfigError.duplicate_bus_address later = refl

check_axes_lem :
    (done axes : List AxisConfig)
    → is_no_error (check_axes done axes) ≡ (all_apart done axes && are_valid axes)
unfolding check_axes
check_axes_lem done [] = ground (arith, all_apart_nil done)
check_axes_lem done (c ∷ rest) = ground (
  arith,
  check_axes_lem (done ++ c ∷ []) rest,
  all_apart-append done rest c,
  all_apart_uncons done c rest,
  check_previous_lem c done,
  is_no_error-first_error (check_previous c done) (check_axes (done ++ c ∷ []) rest),
)

-- The check finds no error exactly where there are at most seven axes, each has a name and an
-- identity, and no two share a name or an address on the bus.
pub validate_axis_configs_lem :
    (axes : List AxisConfig)
    → is_no_error (validate_axis_configs axes) ≡ (leb (length axes) 7 && are_valid axes)
unfolding validate_axis_configs
validate_axis_configs_lem axes = ground (arith, check_axes_lem [] axes)
