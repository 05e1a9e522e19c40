-- ===== src/DcMonitor.antt =====
-- src/ethercat_master_igh/include/ethercat_joint/master/igh/dc_monitor.hpp: how a sample of the
-- distributed clock's deviation is judged.
mod Tests
use robot_ethercat_master_ig.Prelude.{
  ℕ, ◌+◌, ◌≤◌, ◌<◌, ◌≡◌, ◌↔◌, Bool, true, false, not, ◌&&◌, arith, leb, if◌then◌else◌,
}
use robot_ethercat_master_ig.Prelude.Int.{ℤ, pos, negsuc, pos_part, neg_part, ltb_ℤ, ◌≤ℤ◌}

pub record DcStatusSample : Type 0 where
  pub status_valid : Bool
  pub in_sync : Bool
  pub deviation_ns : ℤ  -- int32_t

-- `static_cast<uint64_t>(std::llabs(d))`: an int32_t has its absolute value in long long.
unfoldable pub abs_deviation_ns : ℤ → ℕ
abs_deviation_ns d = pos_part d + neg_part d

unfoldable pub make_dc_status_sample : Bool → ℤ → ℤ → DcStatusSample
unfolding abs_deviation_ns
make_dc_status_sample valid deviation threshold =
    let thr = if ltb_ℤ (pos 0) threshold then pos_part threshold else 0 in
    record {
      status_valid = valid;
      in_sync = valid && leb (abs_deviation_ns deviation) thr;
      deviation_ns = deviation;
    }

unfoldable pub dc_out_of_sync_anomaly : DcStatusSample → Bool
dc_out_of_sync_anomaly s = s.status_valid && not s.in_sync

-- A sample counts as an anomaly exactly when its status is valid and its deviation leaves the range
-- from minus the threshold to the threshold, a threshold below 0 being taken as 0.
pub dc_out_of_sync_anomaly_iff :
    (valid : Bool) (d : ℤ) (t : ℕ)
    → (dc_out_of_sync_anomaly (make_dc_status_sample valid d (pos t)) ≡ true)
      ↔ ((valid ≡ true) × (t < pos_part d + neg_part d))
unfolding dc_out_of_sync_anomaly make_dc_status_sample
dc_out_of_sync_anomaly_iff valid d t = ground arith
