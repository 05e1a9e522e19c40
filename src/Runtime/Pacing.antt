-- ===== src/Runtime/Pacing.antt =====
-- src/ethercat_master_igh/src/master/igh/igh_master_runtime.cpp, jobThreadMain: when the Job thread
-- wakes, over the time base of the clock synchronisation (src/master/igh/ethercat_sync.cpp).
use robot_ethercat_master_ig.Prelude.{
  ℕ, ◌+◌, ◌-◌, ◌*◌, ◌/◌, ◌%◌, ◌^◌, ◌≤◌, ◌<◌, ◌≡◌, refl, ◌∙◌, List, [], ◌∷◌, ltb, if_cases,
  if◌then◌else◌, arith,
}
use robot_ethercat_master_ig.Prelude.Int.{ℤ, pos, negsuc}
use robot_ethercat_master_ig.Prelude.Word.{u64}
use robot_ethercat_master_ig.Sync.{
  EthercatSync, get_sleep_spec, target_system_time, get_application_time,
}

-- `timespecToNs`
abbrev pub timespec_to_ns : ℕ × ℕ → ℕ
timespec_to_ns ts = u64 (ts.0 * 1000000000 + ts.1)

-- The wake-up for an application time. The constructor of the servo makes the synchronisation, so that
-- `getDcSleepSpec` always asks it.
abbrev pub wake_at : EthercatSync → ℕ → ℕ
wake_at s app_time = timespec_to_ns (get_sleep_spec s app_time)

-- What a cycle sleeps until.
pub record Wakeup : Type 0 where
  pub app_time : ℕ  -- uint64_t
  pub scheduled : ℕ  -- uint64_t

-- `now`: the clock when lateness is judged; `later`: when the application time is read again.
unfoldable pub plan_wakeup : ℕ → EthercatSync → ℕ → ℕ → ℕ → Wakeup
unfolding get_sleep_spec get_application_time
plan_wakeup cycle_ns s now later app_time =
    let next = u64 (app_time + cycle_ns) in
    let realigned = get_application_time s later in
    if ltb (u64 (wake_at s next + cycle_ns)) now
    then record { app_time = realigned; scheduled = wake_at s realigned }
    else record { app_time = next; scheduled = wake_at s next }

-- What a cycle meets: the synchronisation as it then is, and the clock at its two readings.
pub record Beat : Type 0 where
  pub sync : EthercatSync
  pub now : ℕ
  pub later : ℕ

-- The wake-ups of a run of cycles, from an application time on.
unfoldable pub plan_wakeups : ℕ → ℕ → List Beat → List Wakeup
unfolding plan_wakeup
plan_wakeups cycle_ns app_time [] = []
plan_wakeups cycle_ns app_time (b ∷ rest) =
    let w = plan_wakeup cycle_ns b.sync b.now b.later app_time in
    w ∷ plan_wakeups cycle_ns w.app_time rest

target_system_time_fits : (s : EthercatSync) (t : ℕ) → target_system_time s t < 2 ^ 64
unfolding target_system_time
target_system_time_fits s t = go s.pll.sys_time_base
  where
    go :
        (base : ℤ)
        → (elim base [ pos a ↦ u64 (t + a) | negsuc a ↦ u64 (t + 2 ^ 64 - u64 (a + 1)) ]) < 2 ^ 64
    go (pos a) = omega arith
    go (negsuc a) = omega arith

timespec_lem : (n : ℕ) → n < 2 ^ 64 → timespec_to_ns (n / 1000000000, n % 1000000000) ≡ n
timespec_lem n h = omega arith

wake_at_lem : (s : EthercatSync) (t : ℕ) → wake_at s t ≡ target_system_time s t
unfolding get_sleep_spec
wake_at_lem s t = timespec_lem (target_system_time s t) (target_system_time_fits s t)

-- The application time that is read is the one whose wake-up is the clock's reading.
target-application :
    (s : EthercatSync) (m : ℕ) → m < 2 ^ 64 → target_system_time s (get_application_time s m) ≡ m
unfolding target_system_time get_application_time
target-application s m h = go s.pll.sys_time_base
  where
    go :
        (base : ℤ)
        → (elim base as (λ _. ℕ) [
          | pos a ↦
              u64 (
                (elim base [ pos b ↦ u64 (m + 2 ^ 64 - u64 b) | negsuc b ↦ u64 (m + (b + 1)) ]) + a)
          | negsuc a ↦ u64 (
              (elim base [ pos b ↦ u64 (m + 2 ^ 64 - u64 b) | negsuc b ↦ u64 (m + (b + 1)) ])
              + 2 ^ 64
              - u64 (a + 1))
        ])
          ≡ m
    go (pos a) = omega arith
    go (negsuc a) = omega arith

-- A wake-up is the one of its application time, and less than a cycle has gone by since.
abbrev pub InTime : ℕ → Beat → Wakeup → Type 0
InTime cycle_ns b w = (w.scheduled ≡ wake_at b.sync w.app_time) × (b.now ≤ w.scheduled + cycle_ns)

unfoldable pub AllInTime : ℕ → List Beat → List Wakeup → Type 0
AllInTime cycle_ns (b ∷ beats) (w ∷ wakeups) =
    InTime cycle_ns b w × AllInTime cycle_ns beats wakeups
AllInTime cycle_ns [] [] = Unit
AllInTime cycle_ns [] (w ∷ wakeups) = ⊥
AllInTime cycle_ns (b ∷ beats) [] = ⊥

-- The clock goes on between the two readings, and both fit the machine's integers.
unfoldable pub AreReadings : List Beat → Type 0
AreReadings [] = Unit
AreReadings (b ∷ beats) = ((b.now ≤ b.later) × (b.later < 2 ^ 64)) × AreReadings beats

plan_wakeup-InTime :
    (cycle_ns : ℕ) (b : Beat) (app_time : ℕ)
    → b.now ≤ b.later
    → b.later < 2 ^ 64
    → InTime cycle_ns b (plan_wakeup cycle_ns b.sync b.now b.later app_time)
unfolding plan_wakeup
plan_wakeup-InTime cycle_ns b app_time ordered fits =
    if_cases (InTime cycle_ns b) (ltb (u64 (wake_at b.sync next + cycle_ns)) b.now)
      (λ late. (refl, omega (arith, realigned))) (λ on_time. (refl, ground arith))
  where
    next : ℕ
    next = u64 (app_time + cycle_ns)

    realigned : wake_at b.sync (get_application_time b.sync b.later) ≡ b.later
    realigned =
        wake_at_lem b.sync (get_application_time b.sync b.later)
        ∙ target-application b.sync b.later fits

-- Whatever the clock and the corrections of the time base do, each wake-up that a run of cycles
-- plans is that of its application time, and it lies at most one cycle before the time at which it
-- was judged, where the two readings of the clock in a cycle come in order and fit 64 bits.
pub plan_wakeups-AllInTime :
    (cycle_ns app_time : ℕ) (beats : List Beat)
    → AreReadings beats
    → AllInTime cycle_ns beats (plan_wakeups cycle_ns app_time beats)
unfolding plan_wakeups AllInTime AreReadings
plan_wakeups-AllInTime cycle_ns app_time [] readings = tt
plan_wakeups-AllInTime cycle_ns app_time (b ∷ beats) ((ordered, fits), readings) = (
  plan_wakeup-InTime cycle_ns b app_time ordered fits,
  plan_wakeups-AllInTime cycle_ns (plan_wakeup cycle_ns b.sync b.now b.later app_time).app_time
      beats readings,
)
