-- ===== src/RefClock/Tests.antt =====
-- The reference time of src/master/igh/ethercat_servo.cpp on a few calls.
use robot_ethercat_master_ig.Prelude.{
  ℕ, ◌+◌, ◌-◌, ◌*◌, ◌^◌, ◌≡◌, refl, true, Option, none, some, List, [], ◌∷◌, arith, replicate,
  length-replicate,
}
use robot_ethercat_master_ig.RefClock.{
  RefClock, new_clock, get_reference_clock_time, align_first, extend, judge_stable, read_failed,
  ask,
}
use robot_ethercat_master_ig.RefClock.Tracking.{StandsFor, AllTell, run_clock, run_clock-AllTell}
use robot_ethercat_master_ig.RefClock.Recovery.{run_answered, run_answered_recovers, recovery_calls}

-- Available, and close to the end of a round of the lower half.
abbrev running : RefClock
running = record {
  dc_high_bits = 7;
  last_time_low = 2 ^ 32 - 10;
  dc_high_bits_aligned = true;
  dc_available = true;
  retry_counter = 0;
  consecutive_failures = 0;
  consecutive_successes = 20;
}

abbrev three_calls : List (ℕ × Option ℕ)
three_calls = (0, some (2 ^ 32 + 5)) ∷ (1, none) ∷ (2, some (2 ^ 32 + 9)) ∷ []

-- Over the end of a round; after a failure the next call does not ask.
three_times : (run_clock running three_calls).1 ≡ (8 * 2 ^ 32 + 5) ∷ 0 ∷ 0 ∷ []
unfolding run_clock get_reference_clock_time ask align_first extend judge_stable read_failed
three_times = refl

running-StandsFor : StandsFor (8 * 2 ^ 32 - 10) (2 ^ 32 - 10) (2 ^ 32 - 10) running
running-StandsFor = record {
  fits = record { high = omega arith; low = omega arith };
  aligned = refl;
  same_low = refl;
  since = omega arith;
  given = refl;
}

run_clock-AllTell_example :
    AllTell (8 * 2 ^ 32 - 10) (2 ^ 32 - 10) running three_calls (run_clock running three_calls).1
unfolding get_reference_clock_time ask align_first extend judge_stable read_failed
run_clock-AllTell_example =
    run_clock-AllTell (8 * 2 ^ 32 - 10) (2 ^ 32 - 10) (2 ^ 32 - 10) running three_calls
      running-StandsFor ((omega arith, omega arith), (tt, (tt, tt)))

abbrev sample : ℕ × ℕ
sample = (5000000, 1000)

abbrev long_wait : List (ℕ × ℕ)
long_wait = replicate recovery_calls sample

run_answered_recovers_example : (run_answered new_clock long_wait).dc_available ≡ true
run_answered_recovers_example =
    run_answered_recovers new_clock long_wait (λ h. cc)
      (omega (arith, length-replicate recovery_calls sample))
