-- ===== src/Sync.antt =====
-- src/ethercat_master_igh/src/master/igh/ethercat_sync.cpp and its header: the loop that follows the
-- slaves' reference clock. Its sums are kept in unbounded integers: where the code's would pass the
-- ends of their types, what it does is undefined.
pub mod Adjust
pub mod Normal
pub mod Retry
mod Tests
use robot_ethercat_master_ig.Prelude.{
  ℕ, ◌+◌, ◌-◌, ◌*◌, ◌%◌, ◌/◌, ◌^◌, Bool, true, false, not, ◌&&◌, ◌||◌, Option, none, some, List, [],
  ◌∷◌, ltb, leb, ◌==◌, if◌then◌else◌,
}
use robot_ethercat_master_ig.Prelude.Int.{
  ℤ, pos, negsuc, ◌+ℤ◌, ◌-ℤ◌, ltb_ℤ, quot_ℤ, rem_ℤ, to_i32, sign, neg,
}
use robot_ethercat_master_ig.Prelude.Word.{u32, u64}

abbrev pub ref_clock_warmup_cycles : ℕ
ref_clock_warmup_cycles = 100

abbrev pub ref_clock_required_successes : ℕ
ref_clock_required_successes = 3

abbrev pub ref_clock_fail_enter_backoff : ℕ
ref_clock_fail_enter_backoff = 12

abbrev pub ref_clock_backoff_every_cycles : ℕ
ref_clock_backoff_every_cycles = 2500

abbrev pub ref_clock_backoff_max_cycles : ℕ
ref_clock_backoff_max_cycles = 25000

abbrev pub dc_filter_cnt : ℕ
dc_filter_cnt = 1024

abbrev pub adjust_limit_ns : ℕ
adjust_limit_ns = 1000

-- The part that reads the reference clock.
pub record Reader : Type 0 where
  pub warmup_cycles_remaining : ℕ
  pub consecutive_ref_successes : ℕ
  pub consecutive_ref_failures : ℕ
  pub ref_clock_process_cycle : ℕ  -- uint64_t
  pub ref_clock_fail_streak : ℕ
  pub ref_clock_backoff : Bool
  pub last_good_dc_diff_ns : ℤ  -- int32_t
  pub have_good_dc_diff : Bool
  pub ref_clock_read_disabled : Bool
  pub dc_diff_ns : ℤ  -- int32_t

-- The part that moves the time base.
pub record Pll : Type 0 where
  pub dc_started : Bool
  pub prev_dc_diff_ns : ℤ  -- int32_t
  pub dc_diff_total_ns : ℤ  -- int64_t
  pub dc_delta_total_ns : ℤ  -- int64_t
  pub dc_filter_idx : ℕ
  pub dc_adjust_ns : ℤ  -- int64_t
  pub sys_time_base : ℤ  -- int64_t

pub record EthercatSync : Type 0 where
  pub has_master : Bool
  pub cycle_time_ns : ℕ  -- uint32_t
  pub dc_time_ns : ℕ  -- uint64_t
  pub reader : Reader
  pub pll : Pll

-- What is constructed.
abbrev pub new_sync : EthercatSync
new_sync = record {
  has_master = false;
  cycle_time_ns = 0;
  dc_time_ns = 0;
  reader = record {
    warmup_cycles_remaining = ref_clock_warmup_cycles;
    consecutive_ref_successes = 0;
    consecutive_ref_failures = 0;
    ref_clock_process_cycle = 0;
    ref_clock_fail_streak = 0;
    ref_clock_backoff = false;
    last_good_dc_diff_ns = pos 0;
    have_good_dc_diff = false;
    ref_clock_read_disabled = false;
    dc_diff_ns = pos 0;
  };
  pll = record {
    dc_started = false;
    prev_dc_diff_ns = pos 0;
    dc_diff_total_ns = pos 0;
    dc_delta_total_ns = pos 0;
    dc_filter_idx = 0;
    dc_adjust_ns = pos 0;
    sys_time_base = pos 0;
  };
}

-- It leaves the filter's sums and the last adjustment as they are.
unfoldable pub initialize : EthercatSync → Bool → ℕ → ℕ → EthercatSync
initialize s has_master cycle_time_ns now = record {
  has_master = has_master;
  cycle_time_ns = cycle_time_ns;
  dc_time_ns = now;
  reader = new_sync.reader;
  pll = record s.pll { dc_started = false; prev_dc_diff_ns = pos 0; sys_time_base = pos 0 };
}

-- After how many cycles a read is tried again.
unfoldable pub backoff_interval : ℕ → ℕ
backoff_interval fail_streak =
    if leb (ref_clock_fail_enter_backoff * 4) fail_streak
    then ref_clock_backoff_max_cycles
    else if leb (ref_clock_fail_enter_backoff * 2) fail_streak
    then ref_clock_backoff_every_cycles * 5
    else ref_clock_backoff_every_cycles

abbrev pub attempts : Reader → Bool
attempts r =
    if r.ref_clock_backoff
    then r.ref_clock_process_cycle % backoff_interval r.ref_clock_fail_streak == 0
    else true

-- The difference that stands in where this cycle has none.
abbrev kept_diff : Reader → ℤ
kept_diff r = if r.have_good_dc_diff then r.last_good_dc_diff_ns else pos 0

unfoldable pub read_good : Reader → ℕ → ℕ → Reader
read_good r app_time_low reference_time_low =
    let diff = to_i32 (u32 (app_time_low + 2 ^ 32 - reference_time_low)) in
    record r {
      dc_diff_ns = diff;
      consecutive_ref_failures = 0;
      ref_clock_fail_streak = 0;
      ref_clock_backoff = false;
      last_good_dc_diff_ns = diff;
      have_good_dc_diff = true;
      consecutive_ref_successes = r.consecutive_ref_successes + 1;
    }

unfoldable pub read_failed : Reader → Reader
read_failed r = record r {
  dc_diff_ns = kept_diff r;
  consecutive_ref_successes = 0;
  consecutive_ref_failures = r.consecutive_ref_failures + 1;
  ref_clock_fail_streak = r.ref_clock_fail_streak + 1;
  ref_clock_backoff =
      r.ref_clock_backoff || (r.ref_clock_fail_streak + 1 == ref_clock_fail_enter_backoff);
}

-- `answer`: what `ecrt_master_reference_clock_time` gives where it is called, `none` for an error.
-- With the new state, whether this cycle has a reference time.
unfoldable pub read_due : Reader → ℕ → Option ℕ → Reader × Bool
unfolding read_good read_failed
read_due r app_time_ns answer =
    if attempts r
    then elim answer [
      | some reference_time_low ↦ (read_good r (u32 app_time_ns) reference_time_low, true)
      | none ↦ (read_failed r, false)
    ]
    else (record r { dc_diff_ns = kept_diff r }, false)

unfoldable pub read_reference : Reader → ℕ → Option ℕ → Reader × Bool
unfolding read_due
read_reference r app_time_ns answer =
    let warm = record r { warmup_cycles_remaining = r.warmup_cycles_remaining - 1 } in
    if not r.ref_clock_read_disabled && (warm.warmup_cycles_remaining == 0)
    then read_due (record warm { ref_clock_process_cycle = u64 (r.ref_clock_process_cycle + 1) })
        app_time_ns answer
    else if not r.ref_clock_read_disabled
    then (record warm { dc_diff_ns = pos 0 }, false)
    else (warm, false)

-- Into [-cycle/2, cycle/2).
unfoldable pub normalize : ℤ → ℕ → ℤ
normalize diff cycle =
    rem_ℤ (rem_ℤ (diff +ℤ pos (cycle / 2)) cycle +ℤ pos cycle) cycle -ℤ pos (cycle / 2)

abbrev pub clamp_adjust : ℤ → ℤ
clamp_adjust a =
    if ltb_ℤ a (neg adjust_limit_ns)
    then neg adjust_limit_ns
    else if ltb_ℤ (pos adjust_limit_ns) a
    then pos adjust_limit_ns
    else a

-- The sums of a full filter become the adjustment. The halves are added as doubles, which hold them
-- exactly, and the sum is cut towards zero.
unfoldable pub smooth_adjust : ℤ → ℤ → ℤ → ℤ
smooth_adjust adjust delta_total diff_total =
    let delta_avg = quot_ℤ (delta_total +ℤ pos (dc_filter_cnt / 2)) dc_filter_cnt in
    let error_compensation = sign (quot_ℤ diff_total dc_filter_cnt) in
    quot_ℤ (adjust +ℤ clamp_adjust (delta_avg +ℤ error_compensation)) 2

unfoldable pub filter : Pll → ℤ → ℤ → Pll
filter p delta diff =
    let diff_total = p.dc_diff_total_ns +ℤ diff in
    let delta_total = p.dc_delta_total_ns +ℤ delta in
    let adjust = smooth_adjust p.dc_adjust_ns delta_total diff_total in
    if leb dc_filter_cnt (p.dc_filter_idx + 1)
    then record p {
      dc_adjust_ns = adjust;
      dc_diff_total_ns = pos 0;
      dc_delta_total_ns = pos 0;
      dc_filter_idx = 0;
    }
    else record p {
      dc_diff_total_ns = diff_total;
      dc_delta_total_ns = delta_total;
      dc_filter_idx = p.dc_filter_idx + 1;
    }

-- `raw` is the measured difference, `diff` the normalised one.
unfoldable pub update : Pll → ℤ → ℤ → Pll
unfolding filter
update p raw diff =
    let tracked = record p { prev_dc_diff_ns = raw } in
    let filtered = filter tracked (raw -ℤ p.prev_dc_diff_ns) diff in
    if p.dc_started
    then record filtered { sys_time_base = filtered.sys_time_base +ℤ filtered.dc_adjust_ns }
    else record tracked { dc_started = true; sys_time_base = pos 0 }

-- What `process` does once the clock is read, with its new state and result.
unfoldable pub follow : EthercatSync → ℕ → Reader → Bool → EthercatSync × ℤ
unfolding update normalize
follow s app_time_ns r have_reference_time =
    let diff = normalize r.dc_diff_ns s.cycle_time_ns in
    if not have_reference_time || ltb r.consecutive_ref_successes ref_clock_required_successes
    then (record s { dc_time_ns = app_time_ns; reader = r }, pos 0)
    else (
      record s {
        dc_time_ns = app_time_ns;
        reader = record r { dc_diff_ns = diff };
        pll = update s.pll r.dc_diff_ns diff;
      },
      diff,
    )

unfoldable pub process : EthercatSync → ℕ → Option ℕ → EthercatSync × ℤ
unfolding read_reference follow
process s app_time_ns answer =
    let read = read_reference s.reader app_time_ns answer in
    if s.has_master then follow s app_time_ns read.0 read.1 else (s, pos 0)

-- `lastDcDiffNs` and `isDcPllActive`, which the monitor of the clock reads.
abbrev pub last_dc_diff_ns : EthercatSync → ℤ
last_dc_diff_ns s = s.reader.dc_diff_ns

abbrev pub is_dc_pll_active : EthercatSync → Bool
is_dc_pll_active s = s.pll.dc_started && not s.reader.ref_clock_read_disabled

-- Calls in a row, each with the application time and the answer of its read.
unfoldable pub process_all : EthercatSync → List (ℕ × Option ℕ) → EthercatSync
process_all s [] = s
process_all s (c ∷ cs) = process_all (process s c.0 c.1).0 cs

-- `wakeup_time_ns + sys_time_base_`, in 64-bit words.
unfoldable pub target_system_time : EthercatSync → ℕ → ℕ
target_system_time s wakeup_time_ns = elim s.pll.sys_time_base [
  | pos a ↦ u64 (wakeup_time_ns + a)
  | negsuc a ↦ u64 (wakeup_time_ns + 2 ^ 64 - u64 (a + 1))
]

-- Seconds and nanoseconds.
unfoldable pub get_sleep_spec : EthercatSync → ℕ → ℕ × ℕ
unfolding target_system_time
get_sleep_spec s wakeup_time_ns =
    let time = target_system_time s wakeup_time_ns in (time / 1000000000, time % 1000000000)

-- `monotonic` is the clock's time.
unfoldable pub get_application_time : EthercatSync → ℕ → ℕ
get_application_time s monotonic = elim s.pll.sys_time_base [
  | pos a ↦ u64 (monotonic + 2 ^ 64 - u64 a)
  | negsuc a ↦ u64 (monotonic + (a + 1))
]
