-- ===== src/Anomaly/Tests.antt =====
-- The tracker on concrete observations.
use robot_ethercat_master_ig.Prelude.{
  ◌≡◌, refl, Bool, true, false, ◌||◌, arith, List, [], ◌∷◌, leb, take,
}
use robot_ethercat_master_ig.Prelude.Bits.{test_bit, set_bit, clear_bit}
use robot_ethercat_master_ig.Anomaly.{
  AnomalyPolicy, sanitize, make_tracker, stats, observe_all, observe, reset,
}
use robot_ethercat_master_ig.Anomaly.Slots.{count_true, leading_true}
use robot_ethercat_master_ig.Anomaly.Window.{
  IsTracking, IsSane, sanitize-IsSane, observe_all-IsTracking, stop_required_lem,
}

-- Three anomalies in a row, or four among the last five.
abbrev narrow : AnomalyPolicy
narrow = record { consecutive_stop = 3; window_size = 5; window_stop = 4 }

abbrev scattered : List Bool
scattered = true ∷ false ∷ true ∷ true ∷ false ∷ true ∷ true ∷ []

scattered_goes_on : (stats (observe_all (make_tracker narrow) scattered)).stop_required ≡ false
unfolding stats observe_all make_tracker observe reset sanitize test_bit set_bit clear_bit
scattered_goes_on = refl

run_stops :
    (stats (observe_all (make_tracker narrow) (true ∷ true ∷ scattered))).stop_required ≡ true
unfolding stats observe_all make_tracker observe reset sanitize test_bit set_bit clear_bit
run_stops = refl

wide_policy_is_narrowed :
    IsSane (sanitize (record { consecutive_stop = 0; window_size = 100; window_stop = 80 }))
wide_policy_is_narrowed =
    sanitize-IsSane (record { consecutive_stop = 0; window_size = 100; window_stop = 80 })

observe_all-IsTracking_example : IsTracking (observe_all (make_tracker narrow) scattered) scattered
observe_all-IsTracking_example = observe_all-IsTracking narrow scattered

stop_required_lem_example : (stats (observe_all (make_tracker narrow) scattered)).stop_required ≡ (
    leb (sanitize narrow).consecutive_stop (leading_true scattered)
    || leb
        (sanitize narrow).window_stop
        (count_true (take (sanitize narrow).window_size scattered)))
stop_required_lem_example = stop_required_lem narrow scattered (omega arith)
