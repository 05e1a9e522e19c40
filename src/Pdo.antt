-- ===== src/Pdo.antt =====
-- src/ethercat_master_igh/src/master/igh/ethercat_servo.cpp: the tables of `configurePDOMapping`, what
-- each kind of slave exchanges in a cycle. A table's end mark is left out; whether the library takes a
-- slave's table is an argument.
pub mod Gateway
pub mod Configure
pub mod Offsets
pub mod Register
pub mod Offers
pub mod Mapped
pub mod Answers
pub mod Total
pub mod Receive
pub mod Reading
mod Tests
use robot_ethercat_master_ig.Prelude.{ℕ, ◌+◌, List, [], ◌∷◌, take, length, ◌&&◌, Bool, ◌==◌}
use robot_ethercat_master_ig.Profiles.{MotorConfig}
use robot_ethercat_master_ig.Profiles.Resolve.{sjd17_vendor_id, sjd17_product_code}

-- `ec_pdo_entry_info_t`; an object of index 0 is a gap.
pub record Entry : Type 0 where
  pub index : ℕ  -- uint16_t
  pub subindex : ℕ  -- uint8_t
  pub bit_length : ℕ  -- uint8_t

-- `ec_pdo_info_t`
pub record PdoInfo : Type 0 where
  pub index : ℕ  -- uint16_t
  pub entries : List Entry

pub data Direction : Type 0 where
  output input : Direction

pub data WatchdogMode : Type 0 where
  enable disable : WatchdogMode

-- `ec_sync_info_t`
pub record SyncInfo : Type 0 where
  pub index : ℕ  -- uint8_t
  pub dir : Direction
  pub pdos : List PdoInfo
  pub watchdog_mode : WatchdogMode

abbrev pub entry : ℕ → ℕ → ℕ → Entry
entry index subindex bit_length = record {
  index = index;
  subindex = subindex;
  bit_length = bit_length;
}

-- The first `n_entries` of an array.
abbrev pub pdo : ℕ → ℕ → List Entry → PdoInfo
pdo index n_entries entries = record { index = index; entries = take n_entries entries }

-- Sync managers 2 and 3, for the outputs and the inputs.
abbrev pub syncs : List PdoInfo → List PdoInfo → List SyncInfo
syncs rx_pdos tx_pdos =
    record {
      index = 2;
      dir = Direction.output;
      pdos = rx_pdos;
      watchdog_mode = WatchdogMode.enable;
    }
    ∷ record {
      index = 3;
      dir = Direction.input;
      pdos = tx_pdos;
      watchdog_mode = WatchdogMode.disable;
    }
    ∷ []

abbrev pub is_sjd17 : MotorConfig → Bool
is_sjd17 cfg = cfg.vendor_id == sjd17_vendor_id && cfg.product_code == sjd17_product_code

abbrev pub joint_rx_entries : List Entry
joint_rx_entries =
    entry 0x6040 0 16
    ∷ entry 0x607A 0 32
    ∷ entry 0x60FF 0 32
    ∷ entry 0x6071 0 16
    ∷ entry 0x6060 0 8
    ∷ entry 0x0000 0 8
    ∷ []

abbrev pub joint_tx_entries_xinqi : List Entry
joint_tx_entries_xinqi =
    entry 0x6041 0 16
    ∷ entry 0x6064 0 32
    ∷ entry 0x606C 0 32
    ∷ entry 0x6077 0 16
    ∷ entry 0x6061 0 8
    ∷ entry 0x603F 0 16
    ∷ entry 0x0000 0 8
    ∷ []

abbrev pub joint_tx_entries_sjd17 : List Entry
joint_tx_entries_sjd17 =
    entry 0x6041 0 16
    ∷ entry 0x6064 0 32
    ∷ entry 0x606C 0 32
    ∷ entry 0x6077 0 16
    ∷ entry 0x6061 0 8
    ∷ entry 0x2020 0 32
    ∷ entry 0x2021 0 32
    ∷ entry 0x0000 0 8
    ∷ []

abbrev pub jmdt_rx_entries : List Entry
jmdt_rx_entries =
    entry 0x6040 0 16
    ∷ entry 0x6060 0 8
    ∷ entry 0x5FFE 0 8
    ∷ entry 0x607A 0 32
    ∷ entry 0x60FF 0 32
    ∷ entry 0x6071 0 16
    ∷ []

abbrev pub jmdt_tx_entries : List Entry
jmdt_tx_entries =
    entry 0x6041 0 16
    ∷ entry 0x6061 0 8
    ∷ entry 0x5FFE 0 8
    ∷ entry 0x6064 0 32
    ∷ entry 0x606C 0 32
    ∷ entry 0x6077 0 16
    ∷ entry 0x310B 0 32
    ∷ entry 0x3108 0 32
    ∷ []

abbrev pub sri_rx_entries : List Entry
sri_rx_entries = entry 0x7010 1 16 ∷ entry 0x7010 2 16 ∷ entry 0x7010 3 16 ∷ []

-- The two kinds of the force sensor differ in their object's index.
abbrev pub sri_tx_entries : ℕ → List Entry
sri_tx_entries index =
    entry index 1 16
    ∷ entry index 2 32
    ∷ entry index 3 32
    ∷ entry index 4 32
    ∷ entry index 5 32
    ∷ entry index 6 32
    ∷ entry index 7 32
    ∷ []

-- The bits of a direction's process data.
unfoldable pub total_bits : List Entry → ℕ
total_bits [] = 0
total_bits (e ∷ es) = e.bit_length + total_bits es
