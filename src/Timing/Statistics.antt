-- ===== src/Timing/Statistics.antt =====
-- The statistics of a run of cycles, against the list of its samples.
use robot_ethercat_master_ig.Prelude.{
  ℕ, ◌+◌, ◌≡◌, refl, List, [], ◌∷◌, arith, min, max, map, if◌then◌else◌,
}
use robot_ethercat_master_ig.Prelude.Word.{u64_max, saturating_inc-min}
use robot_ethercat_master_ig.Timing.{
  CycleTimingStats, CycleSample, excess, sample_met, observe_cycle_timing, observe_cycles,
}

abbrev pub largest : List ℕ → ℕ
largest [] = 0
largest (x ∷ l) = max (largest l) x

abbrev pub misses : List CycleSample → ℕ
misses [] = 0
misses (c ∷ l) = misses l + (if sample_met c then 0 else 1)

abbrev pub latenesses : List CycleSample → List ℕ
latenesses = map (λ c. excess c.actual_wakeup c.scheduled)

abbrev pub executions : List CycleSample → List ℕ
executions = map (λ c. excess c.cycle_end c.actual_wakeup)

pub record IsSummary (st : CycleTimingStats) (l : List CycleSample) : Type 0 where
  pub lateness : st.max_lateness_ns ≡ largest (latenesses l)
  pub execution : st.max_execution_ns ≡ largest (executions l)
  pub missed : st.deadline_miss_count ≡ min (misses l) u64_max

observe-IsSummary :
    {st : CycleTimingStats} {l : List CycleSample} (c : CycleSample)
    → IsSummary st l
    → IsSummary (observe_cycle_timing st c) (c ∷ l)
unfolding observe_cycle_timing
observe-IsSummary {l = l} c v = ground (arith, saturating_inc-min u64_max (misses l))

-- After the cycles of `l` the statistics hold the largest lateness and the largest execution time of
-- those cycles, and the number of those that missed their deadline, up to the largest value of the
-- counter.
pub observe_cycles-IsSummary : (l : List CycleSample) → IsSummary (observe_cycles l) l
unfolding observe_cycles
observe_cycles-IsSummary [] = record { lateness = refl; execution = refl; missed = refl }
observe_cycles-IsSummary (c ∷ l) = observe-IsSummary c (observe_cycles-IsSummary l)
