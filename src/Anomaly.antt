-- ===== src/Anomaly.antt =====
-- src/ethercat_master_igh/include/ethercat_joint/util/anomaly_tracker.hpp: the class
-- AnomalyTracker, which watches a stream of good and bad cycles.
pub mod Slots
pub mod Window
mod Tests
use robot_ethercat_master_ig.Prelude.{
  ℕ, ◌+◌, ◌-◌, ◌%◌, Bool, true, false, ◌&&◌, ◌||◌, List, [], ◌∷◌, ltb, leb, if◌then◌else◌,
}
use robot_ethercat_master_ig.Prelude.Bits.{test_bit, set_bit, clear_bit}
use robot_ethercat_master_ig.Prelude.Word.{u32, u32_max, u64_max, saturating_inc, max_of, clamp}

pub record AnomalyPolicy : Type 0 where
  pub consecutive_stop : ℕ  -- uint32_t
  pub window_size : ℕ  -- uint32_t
  pub window_stop : ℕ  -- uint32_t

pub record AnomalyStats : Type 0 where
  pub total : ℕ
  pub consecutive : ℕ
  pub window_count : ℕ
  pub stop_required : Bool

pub record AnomalyTracker : Type 0 where
  pub policy : AnomalyPolicy
  pub total : ℕ  -- uint64_t
  pub window_bits : ℕ  -- uint64_t
  pub consecutive : ℕ  -- uint32_t
  pub window_count : ℕ  -- uint32_t
  pub cursor : ℕ  -- uint32_t

-- The window size is clamped first, and bounds the window threshold.
unfoldable pub sanitize : AnomalyPolicy → AnomalyPolicy
sanitize p =
    let size = clamp p.window_size 1 64 in
    record {
      consecutive_stop = max_of 1 p.consecutive_stop;
      window_size = size;
      window_stop = clamp p.window_stop 1 size;
    }

-- The constructor.
unfoldable pub make_tracker : AnomalyPolicy → AnomalyTracker
make_tracker p = record {
  policy = sanitize p;
  total = 0;
  window_bits = 0;
  consecutive = 0;
  window_count = 0;
  cursor = 0;
}

unfoldable pub stats : AnomalyTracker → AnomalyStats
stats t = record {
  total = t.total;
  consecutive = t.consecutive;
  window_count = t.window_count;
  stop_required =
      leb t.policy.consecutive_stop t.consecutive || leb t.policy.window_stop t.window_count;
}

-- The bit under the cursor leaves the window: `--window_count_` if it was set.
abbrev pub evict : AnomalyTracker → ℕ
evict t =
    if test_bit t.window_bits t.cursor && ltb 0 t.window_count
    then t.window_count - 1
    else t.window_count

unfoldable pub observe : AnomalyTracker → Bool → AnomalyTracker × AnomalyStats
unfolding stats
observe t anomaly =
    let t' = record t {
      total = if anomaly then saturating_inc u64_max t.total else t.total;
      consecutive = if anomaly then saturating_inc u32_max t.consecutive else 0;
      window_bits =
          if anomaly then set_bit t.window_bits t.cursor else clear_bit t.window_bits t.cursor;
      window_count = if anomaly then u32 (evict t + 1) else evict t;
      cursor = u32 (t.cursor + 1) % t.policy.window_size;
    } in
    (t', stats t')

-- The policy is kept.
unfoldable pub reset : AnomalyTracker → AnomalyTracker
reset t = record t { total = 0; consecutive = 0; window_bits = 0; window_count = 0; cursor = 0 }

-- A run of calls of `observe`, the list newest first.
unfoldable pub observe_all : AnomalyTracker → List Bool → AnomalyTracker
observe_all t [] = t
observe_all t (a ∷ earlier) = (observe (observe_all t earlier) a).0
