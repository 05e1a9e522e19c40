-- ===== src/Sync/Retry.antt =====
-- The retries of a failing reference clock.
use robot_ethercat_master_ig.Prelude.{
  ℕ, suc, ◌+◌, ◌-◌, ◌%◌, ◌^◌, ◌≤◌, ◌<◌, ◌≡◌, ◌≢◌, ◌⊎◌, inl, inr, refl, sym, ◌∙◌, Bool, true, false,
  not, Option, some, List, [], ◌∷◌, arith, ◌==◌, length, if_both, if_cases, ◌&&◌,
}
use robot_ethercat_master_ig.Prelude.Int.{ℤ}
use robot_ethercat_master_ig.Sync.Adjust.{skips}
use robot_ethercat_master_ig.Prelude.Word.{u64}
use robot_ethercat_master_ig.Sync.{
  Reader, EthercatSync, backoff_interval, attempts, read_good, read_due, read_reference, follow,
  process, process_all, ref_clock_backoff_max_cycles,
}

-- The warm-up is over.
pub record IsWarm (r : Reader) : Type 0 where
  pub warm : r.warmup_cycles_remaining ≡ 0
  pub allowed : r.ref_clock_read_disabled ≡ false

-- At a multiple of the longest interval there is an attempt whatever the streak.
attempts_due :
    (r : Reader) → r.ref_clock_process_cycle % ref_clock_backoff_max_cycles ≡ 0 → attempts r ≡ true
unfolding backoff_interval
attempts_due r h = ground arith

skipped_lem :
    (r : Reader) → attempts r ≡ false → r.ref_clock_process_cycle % ref_clock_backoff_max_cycles ≢ 0
skipped_lem r skip h = ground (arith, attempts_due r h)

backed_off : (r : Reader) → attempts r ≡ false → r.ref_clock_backoff ≡ true
backed_off r skip = ground arith

-- What a cycle does to the reader, where the clock answers.
abbrev Answered : Reader → Reader → Type 0
Answered before after =
    IsWarm after
    × (after.ref_clock_process_cycle ≡ before.ref_clock_process_cycle + 1)
    × ((after.ref_clock_backoff ≡ false)
        ⊎ ((before.ref_clock_backoff ≡ true)
            × (after.ref_clock_process_cycle % ref_clock_backoff_max_cycles ≢ 0)))

read_due-Answered :
    (before r : Reader) (app t : ℕ)
    → IsWarm r
    → r.ref_clock_process_cycle ≡ before.ref_clock_process_cycle + 1
    → r.ref_clock_backoff ≡ before.ref_clock_backoff
    → Answered before (read_due r app (some t)).0
unfolding read_due read_good
read_due-Answered before r app t w n same =
    if_cases (λ (u : Reader × Bool). Answered before u.0) (attempts r)
      (λ due. (record { warm = w.warm; allowed = w.allowed }, n, inl refl))
      (λ skip. (
        record { warm = w.warm; allowed = w.allowed },
        n,
        inr (sym same ∙ backed_off r skip, skipped_lem r skip),
      ))

read_reference-Answered :
    (r : Reader) (app t : ℕ)
    → IsWarm r
    → r.ref_clock_process_cycle + 1 < 2 ^ 64
    → Answered r (read_reference r app (some t)).0
unfolding read_reference
read_reference-Answered r app t w fits =
    let warm = record r { warmup_cycles_remaining = r.warmup_cycles_remaining - 1 } in
    if_cases (λ (u : Reader × Bool). Answered r u.0)
      (not r.ref_clock_read_disabled && (warm.warmup_cycles_remaining == 0))
      (λ may.
        read_due-Answered r
          (record warm { ref_clock_process_cycle = u64 (r.ref_clock_process_cycle + 1) }) app t
          record { warm = ground (arith, w.warm); allowed = w.allowed } (omega arith) refl)
      (λ may_not. absurd (ground (arith, w.warm, w.allowed)))

follow-Answered :
    (before : Reader) (s : EthercatSync) (app : ℕ) (r : Reader) (have : Bool)
    → Answered before r
    → Answered before (follow s app r have).0.reader
unfolding follow
follow-Answered before s app r have a =
    if_both (λ (u : EthercatSync × ℤ). Answered before u.0.reader) (skips r have) a
      (record { warm = a.0.warm; allowed = a.0.allowed }, a.1, a.2)

has_master-process :
    (s : EthercatSync) (app : ℕ) (answer : Option ℕ)
    → (process s app answer).0.has_master ≡ s.has_master
unfolding process follow
has_master-process s app answer = ground arith

process-Answered :
    (s : EthercatSync) (app t : ℕ)
    → s.has_master ≡ true
    → IsWarm s.reader
    → s.reader.ref_clock_process_cycle + 1 < 2 ^ 64
    → Answered s.reader (process s app (some t)).0.reader
unfolding process
process-Answered s app t there w fits =
    let read = read_reference s.reader app (some t) in
    if_cases (λ (u : EthercatSync × ℤ). Answered s.reader u.0.reader) s.has_master
      (λ h.
        follow-Answered s.reader s app read.0 read.1
          (read_reference-Answered s.reader app t w fits))
      (λ h. absurd (ground (arith, there, h)))

-- The calls with an answer for each read.
abbrev pub answered : List (ℕ × ℕ) → List (ℕ × Option ℕ)
answered [] = []
answered ((app, t) ∷ rest) = (app, some t) ∷ answered rest

-- How many cycles are left until the longest interval comes round.
abbrev left_over : ℕ → ℕ
left_over cycle = ref_clock_backoff_max_cycles - cycle % ref_clock_backoff_max_cycles

sooner :
    (before after : Reader) (rest : List (ℕ × ℕ))
    → after.ref_clock_process_cycle ≡ before.ref_clock_process_cycle + 1
    → before.ref_clock_backoff ≡ true
    → after.ref_clock_process_cycle % ref_clock_backoff_max_cycles ≢ 0
    → (before.ref_clock_backoff ≡ false)
      ⊎ (left_over before.ref_clock_process_cycle ≤ suc (length rest))
    → left_over after.ref_clock_process_cycle ≤ length rest
sooner before after rest n on skip (inl off) = absurd (ground (arith, on, off))
sooner before after rest n on skip (inr soon) = omega (arith, n, skip, soon)

recovers :
    (s : EthercatSync) (calls : List (ℕ × ℕ))
    → s.has_master ≡ true
    → IsWarm s.reader
    → s.reader.ref_clock_process_cycle + length calls < 2 ^ 64
    → (s.reader.ref_clock_backoff ≡ false)
      ⊎ (left_over s.reader.ref_clock_process_cycle ≤ length calls)
    → (process_all s (answered calls)).reader.ref_clock_backoff ≡ false
unfolding process_all
recovers s [] there w fits (inl off) = off
recovers s [] there w fits (inr soon) = absurd (omega arith)
recovers s ((app, t) ∷ rest) there w fits due =
    let a = process-Answered s app t there w (omega arith) in
    recovers (process s app (some t)).0 rest (has_master-process s app (some t) ∙ there) a.0
      (omega (arith, a.1))
      (elim a.2 [
        | inl off ↦ inl off
        | inr skip ↦
            inr (sooner s.reader (process s app (some t)).0.reader rest a.1 skip.0 skip.1 due)
      ])

-- Once the warm-up is over, 25000 cycles in a row in which the reference clock would answer bring
-- reading back: however long it has failed before, at their end no read is put off any more.
pub process_all_recovers :
    (s : EthercatSync) (calls : List (ℕ × ℕ))
    → s.has_master ≡ true
    → IsWarm s.reader
    → s.reader.ref_clock_process_cycle + length calls < 2 ^ 64
    → ref_clock_backoff_max_cycles ≤ length calls
    → (process_all s (answered calls)).reader.ref_clock_backoff ≡ false
process_all_recovers s calls there w fits long = recovers s calls there w fits (inr (omega arith))
