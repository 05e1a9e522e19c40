-- ===== src/Timing.antt =====
-- src/ethercat_master_igh/include/ethercat_joint/master/igh/cycle_timing.hpp: the next deadline of
-- the cycle, the slots that were skipped, and the timing statistics.
pub mod Deadline
pub mod Statistics
mod Tests
use robot_ethercat_master_ig.Prelude.{
  ℕ, ◌+◌, ◌-◌, ◌*◌, ◌/◌, Bool, true, false, not, ◌&&◌, ◌||◌, List, [], ◌∷◌, ltb, leb, ◌==◌,
  if◌then◌else◌,
}
use robot_ethercat_master_ig.Prelude.Word.{u64, u64_max, saturating_inc}

abbrev pub max_catch_up_slots : ℕ
max_catch_up_slots = 16

-- The part behind `now_ns < next`: how many slots were missed, and where to go on. The rebased
-- deadline is computed in uint64_t with no test for overflow.
unfoldable pub catch_up : ℕ → ℕ → ℕ → ℕ
catch_up next now_ns period =
    let skipped = (now_ns - next) / period + 1 in
    if ltb max_catch_up_slots skipped
    then u64 (now_ns + period)
    else if ltb ((u64_max - next) / period) skipped
    then u64_max
    else next + skipped * period

unfoldable pub next_cycle_deadline : ℕ → ℕ → ℕ → ℕ
unfolding catch_up
next_cycle_deadline scheduled now_ns period =
    if period == 0 || ltb (u64_max - period) scheduled
    then u64_max
    else if ltb now_ns (scheduled + period)
    then scheduled + period
    else catch_up (scheduled + period) now_ns period

unfoldable pub skipped_slots_between : ℕ → ℕ → ℕ → ℕ
skipped_slots_between previous next period =
    if period == 0 || leb next previous
    then 0
    else let delta = next - previous in if leb delta period then 0 else delta / period - 1

pub record CycleTimingStats : Type 0 where
  pub current_lateness_ns : ℕ
  pub current_execution_ns : ℕ
  pub max_lateness_ns : ℕ
  pub max_execution_ns : ℕ
  pub deadline_miss_count : ℕ
  pub deadline_met : Bool

abbrev pub no_stats : CycleTimingStats
no_stats = record {
  current_lateness_ns = 0;
  current_execution_ns = 0;
  max_lateness_ns = 0;
  max_execution_ns = 0;
  deadline_miss_count = 0;
  deadline_met = true;
}

-- What one cycle is judged by.
pub record CycleSample : Type 0 where
  pub scheduled : ℕ
  pub actual_wakeup : ℕ
  pub cycle_end : ℕ
  pub period : ℕ

-- `x > y ? x - y : 0`
abbrev pub excess : ℕ → ℕ → ℕ
excess x y = if ltb y x then x - y else 0

-- `if (x > m) m = x`
abbrev pub raise : ℕ → ℕ → ℕ
raise m x = if ltb m x then x else m

abbrev pub sample_deadline : CycleSample → ℕ
sample_deadline c = if ltb (u64_max - c.period) c.scheduled then u64_max else c.scheduled + c.period

abbrev pub sample_met : CycleSample → Bool
sample_met c = not (c.period == 0) && leb c.cycle_end (sample_deadline c)

unfoldable pub observe_cycle_timing : CycleTimingStats → CycleSample → CycleTimingStats
observe_cycle_timing stats c =
    let lateness = excess c.actual_wakeup c.scheduled in
    let execution = excess c.cycle_end c.actual_wakeup in
    record {
      current_lateness_ns = lateness;
      current_execution_ns = execution;
      max_lateness_ns = raise stats.max_lateness_ns lateness;
      max_execution_ns = raise stats.max_execution_ns execution;
      deadline_miss_count =
          if sample_met c
          then stats.deadline_miss_count
          else saturating_inc u64_max stats.deadline_miss_count;
      deadline_met = sample_met c;
    }

-- A run of cycles, newest first.
unfoldable pub observe_cycles : List CycleSample → CycleTimingStats
observe_cycles [] = no_stats
observe_cycles (c ∷ earlier) = observe_cycle_timing (observe_cycles earlier) c
