-- ===== src/Sync/Tests.antt =====
-- A master with a cycle of 2 ms.
use robot_ethercat_master_ig.Prelude.{
  ℕ, ◌+◌, ◌≡◌, ◌⊎◌, refl, true, false, Option, none, some, List, [], ◌∷◌, arith, length, replicate,
  length-replicate,
}
use robot_ethercat_master_ig.Prelude.Int.{pos, ◌+ℤ◌, ◌-ℤ◌, rem_ℤ, quot_ℤ}
use robot_ethercat_master_ig.Sync.{
  Pll, EthercatSync, new_sync, initialize, process, process_all, last_dc_diff_ns, is_dc_pll_active,
  normalize, follow, update, filter, read_reference, read_due, read_good, read_failed,
  smooth_adjust,
}
use robot_ethercat_master_ig.Sync.Adjust.{IsPaced, process_all-IsPaced}
use robot_ethercat_master_ig.Sync.Normal.{IsNormal, Congruent, process-IsNormal}
use robot_ethercat_master_ig.Sync.Retry.{answered, process_all_recovers}

abbrev fresh : EthercatSync
unfolding initialize
fresh = initialize new_sync true 2000000 7000

-- Warm, with two good readings behind it.
abbrev ready : EthercatSync
ready = record fresh {
  reader = record fresh.reader { warmup_cycles_remaining = 0; consecutive_ref_successes = 2 };
}

-- Warm, and long without an answer.
abbrev deaf : EthercatSync
deaf = record fresh {
  reader = record fresh.reader {
    warmup_cycles_remaining = 0;
    ref_clock_fail_streak = 48;
    ref_clock_backoff = true;
  };
}

abbrev readings : List (ℕ × Option ℕ)
readings = (5000000, some 1000) ∷ (7000000, none) ∷ (9000000, some 1000) ∷ []

fresh-IsPaced : IsPaced 0 ready.pll
unfolding fresh
fresh-IsPaced = record { adjust = (omega arith, omega arith); base = (omega arith, omega arith) }

process_all-IsPaced_example : IsPaced (0 + length readings) (process_all ready readings).pll
process_all-IsPaced_example = process_all-IsPaced 0 ready readings fresh-IsPaced

difference-IsNormal :
    IsNormal 2000000 (process ready 5000000 (some 1000)).1
    × (((process ready 5000000 (some 1000)).1 ≡ pos 0)
        ⊎ Congruent 2000000
            (read_reference ready.reader 5000000 (some 1000)).0.dc_diff_ns
            (process ready 5000000 (some 1000)).1)
unfolding fresh
difference-IsNormal = process-IsNormal ready 5000000 (some 1000) (omega arith)

abbrev sample : ℕ × ℕ
sample = (5000000, 1000)

abbrev long_wait : List (ℕ × ℕ)
long_wait = replicate 25000 sample

process_all_recovers_example :
    (process_all deaf (answered long_wait)).reader.ref_clock_backoff ≡ false
unfolding fresh
process_all_recovers_example =
    process_all_recovers deaf long_wait refl record { warm = refl; allowed = refl }
      (omega (arith, length-replicate 25000 sample)) (omega (arith, length-replicate 25000 sample))

-- After a good reading the reported difference is normalised; after a failed one it is the measured
-- one, many cycles long, while the loop still counts as active.
failed_read_reports_raw :
    (last_dc_diff_ns (process ready 5000000 (some 1000)).0 ≡ pos 999000)
    × (last_dc_diff_ns (process_all ready ((5000000, some 1000) ∷ (7000000, none) ∷ []))
        ≡ pos 4999000)
    × (is_dc_pll_active (process_all ready ((5000000, some 1000) ∷ (7000000, none) ∷ [])) ≡ true)
unfolding process process_all follow read_reference read_due read_good read_failed normalize update
    filter rem_ℤ ◌+ℤ◌ ◌-ℤ◌ smooth_adjust quot_ℤ fresh
failed_read_reports_raw = (refl, refl, refl)

abbrev adjusted : Pll
adjusted = record fresh.pll { dc_adjust_ns = pos 900 }

-- A new start keeps the last adjustment.
initialize_keeps_adjust :
    (initialize (record fresh { pll = adjusted }) true 2000000 0).pll.dc_adjust_ns ≡ pos 900
unfolding initialize fresh
initialize_keeps_adjust = refl
