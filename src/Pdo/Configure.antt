-- ===== src/Pdo/Configure.antt =====
-- `configurePDOMapping` of src/master/igh/ethercat_servo.cpp.
use Prim.Native.Char.{code}
use Prim.Native.String.{String}
use robot_ethercat_master_ig.Prelude.{
  ℕ, suc, Bool, true, false, ◌&&◌, ◌||◌, ◌==◌, Option, none, some, List, [], ◌∷◌, if◌then◌else◌,
}
use robot_ethercat_master_ig.Profiles.{MotorConfig}
use robot_ethercat_master_ig.Profiles.Resolve.{
  is_gateway, is_sri_m8126, is_joint_module_motor, is_cool_drive_jmdt_motor,
}
use robot_ethercat_master_ig.Pdo.{
  SyncInfo, pdo, syncs, is_sjd17, joint_rx_entries, joint_tx_entries_xinqi, joint_tx_entries_sjd17,
  jmdt_rx_entries, jmdt_tx_entries, sri_rx_entries, sri_tx_entries,
}
use robot_ethercat_master_ig.Pdo.Gateway.{gateway_syncs}

-- The code points of a text: its bytes, if it is ASCII.
abbrev codes : String → List ℕ
codes String.[] = []
codes (String.◌∷◌ c s) = code c ∷ codes s

abbrev starts_with : List ℕ → List ℕ → Bool
starts_with [] s = true
starts_with (c ∷ cs) [] = false
starts_with (c ∷ cs) (d ∷ s) = c == d && starts_with cs s

-- `s.find(part) != npos`
abbrev contains : List ℕ → List ℕ → Bool
contains part [] = starts_with part []
contains part (d ∷ s) = starts_with part (d ∷ s) || contains part s

abbrev pub sri_vendor_id : ℕ
sri_vendor_id = 0x00000E53

abbrev pub sri_product_f32 : ℕ
sri_product_f32 = 0x00081261

abbrev sri_m8229_product_f32 : ℕ
sri_m8229_product_f32 = 0x00082291

-- Whether a force sensor sends floating-point numbers.
unfoldable pub is_sri_m8126_f32 : MotorConfig → Bool
is_sri_m8126_f32 cfg =
    cfg.vendor_id == sri_vendor_id
      && (cfg.product_code == sri_product_f32 || cfg.product_code == sri_m8229_product_f32)
    || contains (codes "f32") (codes cfg.model_id)

abbrev pub joint_syncs : Bool → List SyncInfo
joint_syncs sjd17 = syncs (pdo 0x1600 6 joint_rx_entries ∷ []) (
    (if sjd17 then pdo 0x1A00 8 joint_tx_entries_sjd17 else pdo 0x1A00 7 joint_tx_entries_xinqi)
    ∷ [])

abbrev pub jmdt_syncs : List SyncInfo
jmdt_syncs = syncs (pdo 0x1600 6 jmdt_rx_entries ∷ []) (pdo 0x1A00 8 jmdt_tx_entries ∷ [])

abbrev pub sri_syncs : Bool → List SyncInfo
sri_syncs use_f32 = syncs (pdo 0x1601 3 sri_rx_entries ∷ []) (
    (if use_f32 then pdo 0x1A03 7 (sri_tx_entries 0x6030) else pdo 0x1A02 7 (sri_tx_entries 0x6020))
    ∷ [])

-- A slave's table, `none` for a layout that is not supported.
unfoldable pub slave_syncs : MotorConfig → Option (List SyncInfo)
slave_syncs cfg =
    if is_joint_module_motor cfg
    then some (joint_syncs (is_sjd17 cfg))
    else if is_cool_drive_jmdt_motor cfg
    then some jmdt_syncs
    else if is_gateway cfg
    then some gateway_syncs
    else if is_sri_m8126 cfg
    then some (sri_syncs (is_sri_m8126_f32 cfg))
    else none

-- `takes`: whether the library takes a table for the slave of an index.
unfoldable pub configure_pdo_mapping : (ℕ → List SyncInfo → Bool) → ℕ → List MotorConfig → Bool
unfolding slave_syncs
configure_pdo_mapping takes i [] = true
configure_pdo_mapping takes i (cfg ∷ rest) =
    elim (slave_syncs cfg) [ none ↦ false | some table ↦ takes i table ]
    && configure_pdo_mapping takes (suc i) rest
