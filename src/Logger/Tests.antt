-- ===== src/Logger/Tests.antt =====
-- The log on three events.
use Prim.Native.String.{String}
use robot_ethercat_master_ig.Prelude.{
  ℕ, ◌≡◌, refl, true, false, Option, some, List, [], ◌∷◌, map, arith, replicate, length-replicate,
}
use robot_ethercat_master_ig.Logger.{
  RuntimeLogEvent, RuntimeLogEventType, RuntimeLogger, Ring, blank, ring_capacity, row_of, drain,
  try_push_to_ring, try_pop_from_ring, drain_loop, shutdown, queue_command,
}
use robot_ethercat_master_ig.Logger.Queue.{Represents, push-Represents, enqueue}
use robot_ethercat_master_ig.Logger.Drain.{drain-Represents}
use robot_ethercat_master_ig.Logger.Interleaving.{
  Shared, Producer, Consumer, Access, Agrees, access, accesses, accesses-Agrees, step_producer,
  step_consumer,
}

abbrev fault_event : RuntimeLogEvent
fault_event = record blank {
  motor_id = 3;
  type = RuntimeLogEventType.error_code;
  timestamp_ns = 70;
}

abbrev state_event : RuntimeLogEvent
state_event = record blank { motor_id = 1; timestamp_ns = 20 }

-- Two indices before the end of the buffer, so that the third event goes to its first slot.
abbrev empty_ring : Ring
empty_ring = record { buffer = replicate ring_capacity blank; head = 2046; tail = 2046 }

abbrev fresh : RuntimeLogger
fresh = record {
  enabled = true;
  ring = empty_ring;
  pending_commands = [];
  mono_base_ns = 50;
  is_open = true;
  rows = [];
}

empty_ring-Represents : Represents empty_ring []
empty_ring-Represents = record {
  sized = length-replicate ring_capacity blank;
  head_in = omega arith;
  tail_in = omega arith;
  held = refl;
}

abbrev filled : Ring
filled =
    (try_push_to_ring (try_push_to_ring (try_push_to_ring empty_ring state_event).0 state_event).0
      fault_event).0

filled-Represents : Represents filled (state_event ∷ state_event ∷ fault_event ∷ [])
unfolding enqueue
filled-Represents =
    push-Represents (try_push_to_ring (try_push_to_ring empty_ring state_event).0 state_event).0
      (state_event ∷ state_event ∷ []) fault_event
      (push-Represents (try_push_to_ring empty_ring state_event).0 (state_event ∷ []) state_event
        (push-Represents empty_ring [] state_event empty_ring-Represents))

abbrev loaded : RuntimeLogger
loaded = record fresh { ring = filled }

-- The text of every moment.
abbrev noon : ℕ → String
noon t = "2025-01-01 12:00:00.000"

-- The code that the drive reports.
abbrev over_current : Option (ℕ → ℕ)
over_current = some (λ motor. 0x2310)

drain-Represents_example :
    (r : Ring) × (drain loaded over_current noon
      ≡ some (
        record loaded {
          ring = r;
          rows = map (row_of over_current noon 50) (state_event ∷ state_event ∷ fault_event ∷ []);
        },
        3,
      ))
    × Represents r []
drain-Represents_example =
    drain-Represents loaded (state_event ∷ state_event ∷ fault_event ∷ []) over_current noon
      filled-Represents refl refl

abbrev at_rest : Shared
at_rest = record {
  ring = empty_ring;
  producer = Producer.idle;
  consumer = Consumer.waiting;
  accepted = [];
  popped = [];
}

-- The drain looks before and after the slot is written, and takes the event once it is published.
abbrev schedule : List Access
schedule =
    Access.produce fault_event
    ∷ Access.consume
    ∷ Access.produce state_event
    ∷ Access.consume
    ∷ Access.produce state_event
    ∷ Access.consume
    ∷ Access.consume
    ∷ Access.consume
    ∷ []

at_rest-Agrees : Agrees at_rest []
at_rest-Agrees = record { shape = empty_ring-Represents; room = tt; front = tt; ordered = refl }

accesses-Agrees_example : (rest : List RuntimeLogEvent) × Agrees (accesses at_rest schedule) rest
accesses-Agrees_example = accesses-Agrees schedule at_rest [] at_rest-Agrees

schedule_pops : (accesses at_rest schedule).popped ≡ fault_event ∷ []
unfolding accesses access step_producer step_consumer
schedule_pops = refl

-- A command that waits in the queue when the log is shut down is not in the file, and the next file
-- opens with it still waiting.
shutdown_leaves_commands :
    shutdown (queue_command fresh state_event) noon
    ≡ some (record fresh { enabled = false; is_open = false; pending_commands = state_event ∷ [] })
unfolding shutdown drain drain_loop try_pop_from_ring queue_command
shutdown_leaves_commands = refl
