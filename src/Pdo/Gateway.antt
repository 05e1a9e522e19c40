-- ===== src/Pdo/Gateway.antt =====
-- The gateway's table in `configurePDOMapping` of src/master/igh/ethercat_servo.cpp: one array of 395
-- entries, of which the PDOs are slices. Runs of bytes are written as ranges.
use robot_ethercat_master_ig.Prelude.{ℕ, zero, suc, ◌+◌, List, [], ◌∷◌, ◌++◌, drop}
use robot_ethercat_master_ig.Pdo.{
  Entry, PdoInfo, SyncInfo, Direction, WatchdogMode, entry, pdo, syncs,
}

-- `n` bytes of an object from a subindex on.
unfoldable pub byte_entries : ℕ → ℕ → ℕ → List Entry
byte_entries index subindex zero = []
byte_entries index subindex (suc n) = entry index subindex 8 ∷ byte_entries index (subindex + 1) n

-- CAN and the two lines of RS485 from the master on, then to it.
unfoldable pub can_tx_entries : List Entry
unfolding byte_entries
can_tx_entries = entry 0x2000 0x01 32 ∷ byte_entries 0x2000 0x02 0x41

unfoldable pub rs485_1_rx_entries : List Entry
unfolding byte_entries
rs485_1_rx_entries = byte_entries 0x2002 0x01 0x41

unfoldable pub rs485_2_rx_entries : List Entry
unfolding byte_entries
rs485_2_rx_entries = byte_entries 0x2004 0x01 0x41

unfoldable pub can_rx_entries : List Entry
unfolding byte_entries
can_rx_entries =
    (entry 0x2001 0x01 32 ∷ byte_entries 0x2001 0x02 0x41) ++ (entry 0x2007 0x01 8 ∷ [])

unfoldable pub rs485_1_tx_entries : List Entry
unfolding byte_entries
rs485_1_tx_entries = byte_entries 0x2003 0x01 0x41 ++ (entry 0x2007 0x01 8 ∷ [])

unfoldable pub rs485_2_tx_entries : List Entry
unfolding byte_entries
rs485_2_tx_entries = byte_entries 0x2005 0x01 0x41 ++ (entry 0x2007 0x01 8 ∷ [])

unfoldable pub gateway_pdo_entries : List Entry
unfolding can_tx_entries rs485_1_rx_entries rs485_2_rx_entries can_rx_entries rs485_1_tx_entries
    rs485_2_tx_entries
gateway_pdo_entries =
    can_tx_entries ++ rs485_1_rx_entries ++ rs485_2_rx_entries ++ can_rx_entries
    ++ rs485_1_tx_entries ++ rs485_2_tx_entries

-- A PDO's entries from an offset into the array on.
abbrev slice : ℕ → ℕ → ℕ → PdoInfo
slice index n_entries offset = pdo index n_entries (drop offset gateway_pdo_entries)

-- Its sync managers 0 and 1 have no PDO.
unfoldable pub gateway_syncs : List SyncInfo
unfolding gateway_pdo_entries
gateway_syncs =
    record { index = 0; dir = Direction.output; pdos = []; watchdog_mode = WatchdogMode.disable }
    ∷ record { index = 1; dir = Direction.input; pdos = []; watchdog_mode = WatchdogMode.disable }
    ∷ syncs (slice 0x1600 66 0 ∷ slice 0x1601 65 66 ∷ slice 0x1602 65 131 ∷ [])
        (slice 0x1A00 67 196 ∷ slice 0x1A01 66 263 ∷ slice 0x1A02 66 329 ∷ [])
