-- ===== src/Dwell/Tests.antt =====
-- The dwell on concrete cycles.
use robot_ethercat_master_ig.Prelude.{◌≡◌, ◌↔◌, refl, Bool, true, false, arith, List, [], ◌∷◌}
use robot_ethercat_master_ig.Dwell.{HealthyDwell, request_reset, on_fault, observe, observe_all}
use robot_ethercat_master_ig.Dwell.Runs.{HasRun, allow_enable_iff_run, observe_all-on_fault}

abbrev of_two : HealthyDwell
of_two = record { required = 2; consecutive_ok = 0; armed = false; allow_enable = false }

abbrev broken : List Bool
broken = true ∷ false ∷ true ∷ true ∷ []

broken_run_enables : (observe_all (request_reset of_two) broken).allow_enable ≡ true
unfolding observe_all request_reset observe
broken_run_enables = refl

short_run_does_not :
    (observe_all (request_reset of_two) (true ∷ false ∷ true ∷ [])).allow_enable ≡ false
unfolding observe_all request_reset observe
short_run_does_not = refl

allow_enable_iff_run_example :
    ((observe_all (request_reset of_two) broken).allow_enable ≡ true) ↔ HasRun 2 broken
allow_enable_iff_run_example = allow_enable_iff_run of_two broken (omega arith) (omega arith)

fault_ends_dwell : (observe_all (on_fault of_two) broken).allow_enable ≡ false
fault_ends_dwell = observe_all-on_fault of_two broken
