-- ===== src/RefClock.antt =====
-- src/ethercat_master_igh/src/master/igh/ethercat_servo.cpp: `getReferenceClockTime` and
-- `alignDcTimeBase`, which make a time of 64 bits from the 32 bits that the reference clock gives. The
-- variables of file and function scope are one record; the counters, `int` in the code, are unbounded.
pub mod Tracking
pub mod Recovery
mod Tests
use robot_ethercat_master_ig.Prelude.{
  ℕ, ◌+◌, ◌*◌, ◌%◌, ◌/◌, ◌^◌, Bool, true, false, not, ◌&&◌, ◌||◌, Option, none, some, List, [], ◌∷◌,
  ltb, leb, ◌==◌, if◌then◌else◌,
}

abbrev pub retry_interval : ℕ
retry_interval = 5000

abbrev pub max_consecutive_failures : ℕ
max_consecutive_failures = 10

abbrev pub initial_retry_interval : ℕ
initial_retry_interval = 100

abbrev pub required_successes : ℕ
required_successes = 10

pub record RefClock : Type 0 where
  pub dc_high_bits : ℕ  -- uint32_t
  pub last_time_low : ℕ  -- uint32_t
  pub dc_high_bits_aligned : Bool
  pub dc_available : Bool
  pub retry_counter : ℕ
  pub consecutive_failures : ℕ
  pub consecutive_successes : ℕ

-- What the program starts with.
abbrev pub new_clock : RefClock
new_clock = record {
  dc_high_bits = 0;
  last_time_low = 0;
  dc_high_bits_aligned = false;
  dc_available = false;
  retry_counter = 0;
  consecutive_failures = 0;
  consecutive_successes = 0;
}

unfoldable pub align_dc_time_base : ℕ → RefClock → RefClock
align_dc_time_base system_time_ns c = record c {
  dc_high_bits = system_time_ns / 2 ^ 32 % 2 ^ 32;
  last_time_low = system_time_ns % 2 ^ 32;
  dc_high_bits_aligned = true;
}

unfoldable pub actual_retry_interval : RefClock → ℕ
actual_retry_interval c =
    if c.consecutive_failures == 0
    then initial_retry_interval
    else if leb max_consecutive_failures c.consecutive_failures
    then retry_interval * 10
    else retry_interval

-- Whether this call asks the clock.
abbrev pub asks : RefClock → Bool
asks c = c.dc_available || not (ltb (c.retry_counter + 1) (actual_retry_interval c))

-- The time of 64 bits that was given last.
abbrev pub full_time : RefClock → ℕ
full_time c = c.dc_high_bits * 2 ^ 32 + c.last_time_low

-- The first answer after the start takes its high half from the system's clock.
unfoldable pub align_first : ℕ → ℕ → RefClock → RefClock
align_first sys_now time_low c = if c.dc_high_bits_aligned then c else record c {
  dc_high_bits = sys_now / 2 ^ 32 % 2 ^ 32;
  last_time_low = time_low;
  dc_high_bits_aligned = true;
}

unfoldable pub extend : ℕ → RefClock → RefClock
extend time_low c = record c {
  dc_high_bits =
      if ltb time_low c.last_time_low && not (c.last_time_low == 0)
      then (c.dc_high_bits + 1) % 2 ^ 32
      else c.dc_high_bits;
  last_time_low = time_low;
}

unfoldable pub judge_stable : RefClock → RefClock
judge_stable c =
    let stable = leb required_successes (c.consecutive_successes + 1) in
    record c {
      consecutive_successes = c.consecutive_successes + 1;
      consecutive_failures = 0;
      dc_available = stable;
      retry_counter = if stable then c.retry_counter else 0;
    }

unfoldable pub read_failed : RefClock → RefClock
read_failed c = record c {
  dc_available = false;
  consecutive_failures = c.consecutive_failures + 1;
  consecutive_successes = 0;
}

-- A call that asks, by the answer of `ecrt_master_reference_clock_time`.
unfoldable pub ask : ℕ → Option ℕ → RefClock → RefClock × ℕ
ask sys_now none c = (read_failed c, 0)
ask sys_now (some time_low) c =
    let extended = extend time_low (align_first sys_now time_low c) in
    (judge_stable extended, full_time extended)

-- `sys_now`: the monotonic clock. The result 0 stands for no time.
unfoldable pub get_reference_clock_time : Bool → ℕ → Option ℕ → RefClock → RefClock × ℕ
unfolding actual_retry_interval
get_reference_clock_time activated sys_now answer c =
    if not activated
    then (c, 0)
    else if not (asks c)
    then (record c { retry_counter = c.retry_counter + 1 }, 0)
    else ask sys_now answer
        (record c { retry_counter = if c.dc_available then c.retry_counter else 0 })
