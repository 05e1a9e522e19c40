-- ===== src/Freshness/Tests.antt =====
-- A command against a timeout.
use robot_ethercat_master_ig.Prelude.{ℕ, ◌+◌, ◌<◌, ◌≡◌, ◌≢◌, ◌↔◌, true, arith}
use robot_ethercat_master_ig.Freshness.{
  unarmed, arm_external_command, is_external_command_stale, stale_iff_late,
}

abbrev half : ℕ
half = 500

late_command_is_stale :
    (is_external_command_stale (arm_external_command unarmed 1000 half) 1600 ≡ true)
    ↔ ((half ≢ 0) × (1000 + half < 1600))
late_command_is_stale = stale_iff_late unarmed 1000 half 1600 (omega arith)
