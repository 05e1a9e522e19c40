-- ===== src/RefClock/Recovery.antt =====
-- When the reference clock counts as available again, in src/master/igh/ethercat_servo.cpp.
use robot_ethercat_master_ig.Prelude.{
  ℕ, suc, ◌+◌, ◌-◌, ◌*◌, ◌≤◌, ◌≡◌, ◌⊎◌, inl, inr, true, false, not, some, List, [], ◌∷◌, arith,
  if◌then◌else◌, length, leb, Bool-cases, if_cases,
}
use robot_ethercat_master_ig.RefClock.{
  RefClock, align_first, extend, judge_stable, ask, asks, actual_retry_interval,
  get_reference_clock_time, retry_interval, required_successes, initial_retry_interval,
}

-- The calls still to be made while the clock is not available: up to the next one that asks, and then
-- as long again for each answer that is wanting.
abbrev left_over : RefClock → ℕ
left_over c =
    1
    + (actual_retry_interval c - (c.retry_counter + 1))
    + initial_retry_interval * (required_successes - (c.consecutive_successes + 1))

-- Available, or soon so.
abbrev Soon : ℕ → RefClock → Type 0
Soon n c = (c.dc_available ≡ true) ⊎ (left_over c ≤ n)

-- An available clock has had its successes.
abbrev pub IsStable : RefClock → Type 0
IsStable c = c.dc_available ≡ true → required_successes ≤ c.consecutive_successes

judged :
    (n : ℕ) (c d : RefClock)
    → d.consecutive_successes ≡ c.consecutive_successes
    → asks c ≡ true
    → IsStable c
    → Soon (suc n) c
    → Soon n (judge_stable d) × IsStable (judge_stable d)
unfolding judge_stable actual_retry_interval
judged n c d same asked stable (inl on) =
    (inl (ground (arith, same, stable on)), λ h. ground (arith, h))
judged n c d same asked stable (inr soon) =
    elim (Bool-cases (leb required_successes (d.consecutive_successes + 1))) [
      | inl enough ↦ (inl enough, λ h. ground (arith, enough))
      | inr more ↦ (inr (ground (arith, more, same, asked, soon)), λ h. ground (arith, h))
    ]

waited :
    (n : ℕ) (c : RefClock)
    → asks c ≡ false
    → Soon (suc n) c
    → Soon n (record c { retry_counter = c.retry_counter + 1 })
unfolding actual_retry_interval
waited n c not_asked (inl on) = inl on
waited n c not_asked (inr soon) = inr (ground (arith, not_asked, soon))

successes-extend :
    (sys_now time_low : ℕ) (c : RefClock)
    → (extend time_low (align_first sys_now time_low c)).consecutive_successes
      ≡ c.consecutive_successes
unfolding extend align_first
successes-extend sys_now time_low c = ground arith

sooner :
    (n sys_now time_low : ℕ) (c : RefClock)
    → IsStable c
    → Soon (suc n) c
    → Soon n (get_reference_clock_time true sys_now (some time_low) c).0
      × IsStable (get_reference_clock_time true sys_now (some time_low) c).0
unfolding get_reference_clock_time ask
sooner n sys_now time_low c stable soon =
    let asking = record c { retry_counter = if c.dc_available then c.retry_counter else 0 } in
    if_cases (λ (u : RefClock × ℕ). Soon n u.0 × IsStable u.0) (not (asks c))
      (λ h. (waited n c (ground (arith, h)) soon, stable))
      (λ h.
        judged n c (extend time_low (align_first sys_now time_low asking))
          (successes-extend sys_now time_low asking) (ground (arith, h)) stable soon)

-- A run of calls that the clock answers each time it is asked.
unfoldable pub run_answered : RefClock → List (ℕ × ℕ) → RefClock
run_answered c [] = c
run_answered c ((sys_now, time_low) ∷ rest) =
    run_answered (get_reference_clock_time true sys_now (some time_low) c).0 rest

recovers :
    (c : RefClock) (calls : List (ℕ × ℕ))
    → IsStable c
    → Soon (length calls) c
    → (run_answered c calls).dc_available ≡ true
unfolding run_answered
recovers c [] stable (inl on) = on
recovers c [] stable (inr soon) = absurd (omega arith)
recovers c ((sys_now, time_low) ∷ rest) stable soon =
    let s = sooner (length rest) sys_now time_low c stable soon in
    recovers (get_reference_clock_time true sys_now (some time_low) c).0 rest s.1 s.0

-- The longest wait, with that of the nine answers that follow the first.
abbrev pub recovery_calls : ℕ
recovery_calls = retry_interval * 10 + initial_retry_interval * (required_successes - 1)

-- Where the clock answers whenever it is asked, 50900 calls in a row make it available, however long
-- it has failed before, provided a clock that counts as available has had its ten successes.
pub run_answered_recovers :
    (c : RefClock) (calls : List (ℕ × ℕ))
    → IsStable c
    → recovery_calls ≤ length calls
    → (run_answered c calls).dc_available ≡ true
unfolding actual_retry_interval
run_answered_recovers c calls stable long = recovers c calls stable (inr (ground arith))
