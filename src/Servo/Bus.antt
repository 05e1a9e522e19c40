-- ===== src/Servo/Bus.antt =====
-- src/ethercat_master_igh/src/master/igh/ethercat_servo.cpp: what the servo makes of the states that the
-- EtherCAT master reports of the domain and of the slaves; the reports are arguments.
use robot_ethercat_master_ig.Prelude.{
  ℕ, zero, suc, bit_and, Bool, true, false, not, ◌&&◌, ◌==◌, Option, none, some, List, [], ◌∷◌,
  if◌then◌else◌,
}
use robot_ethercat_master_ig.Servo.{Servo}
use robot_ethercat_master_ig.Servo.Cycle.{DomainState}

-- `ec_slave_config_state_t`
pub record SlaveState : Type 0 where
  pub al_state : ℕ
  pub online : Bool
  pub operational : Bool

abbrev al_state_op : ℕ
al_state_op = 8

abbrev al_state_safeop_or_op : ℕ
al_state_safeop_or_op = 0x0C

-- The loop over the slaves; `none` for one without a configuration.
abbrev all_operational : List (Option SlaveState) → Bool
all_operational [] = true
all_operational (none ∷ rest) = false
all_operational (some sc ∷ rest) = sc.online && sc.operational && all_operational rest

-- The two domains of the code are one.
unfoldable pub are_all_slaves_in_op : DomainState → List (Option SlaveState) → Servo → Bool
are_all_slaves_in_op domain slaves s =
    s.activated && (not (domain.working_counter == 0) && domain.complete) && all_operational slaves

-- Of the first seven slaves, those with a configuration.
abbrev first_in_op : ℕ → List (Option SlaveState) → Bool
first_in_op zero slaves = true
first_in_op (suc n) [] = true
first_in_op (suc n) (none ∷ rest) = first_in_op n rest
first_in_op (suc n) (some sc ∷ rest) = sc.al_state == al_state_op && first_in_op n rest

unfoldable pub check_slave_states : List (Option SlaveState) → Servo → Bool
check_slave_states slaves s = if not s.activated then true else first_in_op 7 slaves

-- Whether the reference slave's clock may be read, by the first slave's state: `receiveData` tells the
-- clock synchronisation so.
unfoldable pub ref_clock_readable : SlaveState → Bool
ref_clock_readable sc = not (bit_and sc.al_state al_state_safeop_or_op == 0)
