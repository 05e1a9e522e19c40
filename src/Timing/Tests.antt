-- ===== src/Timing/Tests.antt =====
-- Deadlines of a cycle of two milliseconds.
use robot_ethercat_master_ig.Prelude.{◌+◌, ◌-◌, ◌*◌, ◌≤◌, ◌<◌, ◌≡◌, refl, arith, max, List, [], ◌∷◌}
use robot_ethercat_master_ig.Timing.{
  CycleSample, next_cycle_deadline, catch_up, skipped_slots_between, observe_cycles,
}
use robot_ethercat_master_ig.Timing.Deadline.{
  slots_ahead, next_cycle_deadline_bounds, next_cycle_deadline_grid, next_cycle_deadline_rebase,
}
use robot_ethercat_master_ig.Timing.Statistics.{IsSummary, observe_cycles-IsSummary}

two_late : next_cycle_deadline 10000000 15000000 2000000 ≡ 16000000
unfolding next_cycle_deadline catch_up
two_late = refl

deadline_within_bounds :
    (15000000 < next_cycle_deadline 10000000 15000000 2000000)
    × (10000000 + 2000000 ≤ next_cycle_deadline 10000000 15000000 2000000)
    × (next_cycle_deadline 10000000 15000000 2000000 ≤ max 10000000 15000000 + 2000000)
deadline_within_bounds =
    next_cycle_deadline_bounds 10000000 15000000 2000000 (omega arith) (omega arith) (omega arith)

next_cycle_deadline_grid_example :
    (next_cycle_deadline 10000000 15000000 2000000
      ≡ 10000000 + slots_ahead 10000000 15000000 2000000 * 2000000)
    × (next_cycle_deadline 10000000 15000000 2000000
        ≤ max (10000000 + 2000000) (15000000 + 2000000))
    × (skipped_slots_between 10000000 (next_cycle_deadline 10000000 15000000 2000000) 2000000
        ≡ slots_ahead 10000000 15000000 2000000 - 1)
next_cycle_deadline_grid_example =
    next_cycle_deadline_grid 10000000 15000000 2000000 (omega arith) (omega arith) (omega arith)
      (omega arith)

long_delay_rebases : next_cycle_deadline 10000000 90000000 2000000 ≡ 90000000 + 2000000
long_delay_rebases =
    next_cycle_deadline_rebase 10000000 90000000 2000000 (omega arith) (omega arith) (omega arith)
      (omega arith)

abbrev late_then_good : List CycleSample
late_then_good =
    record { scheduled = 4000; actual_wakeup = 4010; cycle_end = 4500; period = 2000 }
    ∷ record { scheduled = 2000; actual_wakeup = 2900; cycle_end = 4100; period = 2000 }
    ∷ []

cycles_are_summarised : IsSummary (observe_cycles late_then_good) late_then_good
cycles_are_summarised = observe_cycles-IsSummary late_then_good
