-- ===== src/DcMonitor/Tests.antt =====
-- A clock that is 1500 ns off.
use robot_ethercat_master_ig.Prelude.{◌+◌, ◌<◌, ◌≡◌, ◌↔◌, true}
use robot_ethercat_master_ig.Prelude.Int.{pos, negsuc, pos_part, neg_part}
use robot_ethercat_master_ig.DcMonitor.{
  make_dc_status_sample, dc_out_of_sync_anomaly, dc_out_of_sync_anomaly_iff,
}

deviation_is_judged :
    (dc_out_of_sync_anomaly (make_dc_status_sample true (negsuc 1499) (pos 1000)) ≡ true)
    ↔ ((true ≡ true) × (1000 < pos_part (negsuc 1499) + neg_part (negsuc 1499)))
deviation_is_judged = dc_out_of_sync_anomaly_iff true (negsuc 1499) 1000
