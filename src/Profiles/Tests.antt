-- ===== src/Profiles/Tests.antt =====
-- Known and unknown motors.
use robot_ethercat_master_ig.Prelude.{◌≡◌, ◌↔◌, refl, true, false}
use robot_ethercat_master_ig.Kinematics.Samples.{integers}
use robot_ethercat_master_ig.Profiles.{
  PdoLayout, MotorConfig, lists, identity_equal, collect, collect_all, find_identity,
}
use robot_ethercat_master_ig.Profiles.Table.{all_motor_identities, find_by_identity, is_known_motor}
use robot_ethercat_master_ig.Profiles.Registry.{Distinct, found, all_motor_identities_lem}
use robot_ethercat_master_ig.Profiles.Resolve.{
  dc_sync0_matches_bus, resolve_dc_sync0_ns, dc_sync0_matches_bus_iff,
}

identities_are_listed :
    (lists
        (all_motor_identities integers)
        record { vendor_id = 0x00000748; product_code = 0x00000019 }
      ≡ found (find_by_identity integers 0x00000748 0x00000019))
    × Distinct (all_motor_identities integers)
identities_are_listed = all_motor_identities_lem integers 0x00000748 0x00000019

abbrev jmdt : MotorConfig
jmdt = record {
  alias = 0;
  position = 1;
  vendor_id = 0x00000748;
  product_code = 0x00000019;
  name = "J1";
  model_id = "";
  pdo_layout = PdoLayout.cooldrive_jmdt;
}

sync0_is_bus_period :
    (dc_sync0_matches_bus integers jmdt 4000000 ≡ true)
    ↔ (resolve_dc_sync0_ns integers jmdt 4000000 ≡ 4000000)
sync0_is_bus_period = dc_sync0_matches_bus_iff integers jmdt 4000000

-- The list of all motors has the force sensors, which `isKnownMotor` does not count as motors.
force_sensors_are_listed :
    (lists
        (all_motor_identities integers)
        record { vendor_id = 0x00000E53; product_code = 0x00081261 }
      ≡ true)
    × (is_known_motor integers 0x00000E53 0x00081261 ≡ false)
unfolding lists identity_equal all_motor_identities collect_all collect is_known_motor
    find_by_identity find_identity
force_sensors_are_listed = (refl, refl)
