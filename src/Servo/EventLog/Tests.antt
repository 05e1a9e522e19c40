-- ===== src/Servo/EventLog/Tests.antt =====
-- The log of src/master/igh/ethercat_servo.cpp on a few cycles of a motor.
use robot_ethercat_master_ig.Prelude.{
  ℕ, zero, suc, ◌+◌, ◌*◌, ◌≤◌, ◌≡◌, refl, Bool, true, false, some, List, [], ◌∷◌, length, replicate,
}
use robot_ethercat_master_ig.Prelude.Int.{pos}
use robot_ethercat_master_ig.Cia402.{OperationMode, decode_cia402_state}
use robot_ethercat_master_ig.Servo.EventLog.{
  Sample, fresh_memory, memory_after, log_state, log_word, maybe_log_target_setpoint, log_cycle,
  log_cycles,
}
use robot_ethercat_master_ig.Servo.EventLog.Told.{changes}
use robot_ethercat_master_ig.Servo.EventLog.Complete.{sent_words}
use robot_ethercat_master_ig.Logger.{RuntimeLogger, Ring, blank, ring_capacity}
use Prim.Native.String.{String}
use robot_ethercat_master_ig.Servo.EventLog.Rate.{setpoints, log_cycles_rate}

-- A motor that comes to a fault and stays there.
abbrev shown : ℕ → ℕ → Bool × Sample
shown status word = (
  true,
  record {
    timestamp_ns = 7;
    motor_id = 0;
    status_word = status;
    before = word;
    sent = word;
    mode = OperationMode.cyclic_sync_position;
    target_position = pos 5;
    target_velocity = pos 0;
    target_torque = pos 0;
    in_motion = false;
  },
)

abbrev faulting : List (Bool × Sample)
faulting = shown 0x0237 0x0F ∷ shown 0x0237 0x0F ∷ shown 0x0218 0x0F ∷ shown 0x0218 0x86 ∷ []

abbrev empty_ring : Ring
empty_ring = record { buffer = replicate ring_capacity blank; head = 0; tail = 0 }

abbrev opened : RuntimeLogger
opened = record {
  enabled = true;
  ring = empty_ring;
  pending_commands = [];
  mono_base_ns = 5;
  is_open = true;
  rows = [];
}

abbrev noon : ℕ → String
noon t = "2025-01-01 12:00:00.000"

-- Two stretches, with the ring drained after each.
abbrev stretches : List (List (Bool × Sample))
stretches = faulting ∷ (shown 0x0218 0x86 ∷ shown 0x0250 0x06 ∷ []) ∷ []

told_words : changes (some 0xFFFF) (sent_words faulting) ≡ 0x0F ∷ 0x86 ∷ []
unfolding changes
told_words = refl

-- A motor that is moved all the time, after 99 cycles and for three more: the first of these tells.
abbrev moving : ℕ → List (Bool × Sample)
moving zero = []
moving (suc n) = (true, record ((shown 0x0237 0x0F).1) { in_motion = true }) ∷ moving n

log_cycles_rate_example :
    100 * setpoints (log_cycles (memory_after fresh_memory (moving 99)) (moving 3))
    ≤ length (moving 3) + 99
log_cycles_rate_example = log_cycles_rate (moving 99) (moving 3)

moving_tells_once : setpoints (log_cycles (memory_after fresh_memory (moving 99)) (moving 3)) ≡ 1
unfolding setpoints log_cycles log_cycle log_state log_word maybe_log_target_setpoint
    decode_cia402_state
moving_tells_once = refl
