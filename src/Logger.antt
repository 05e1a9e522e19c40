-- ===== src/Logger.antt =====
-- src/ethercat_master_igh/src/diagnostics/runtime_logger.cpp and its header: the diagnostic log. The
-- real-time thread puts events in a ring, commands of other threads wait in a queue that the
-- real-time thread moves over, and a thread of its own drains the ring into the file. The file's
-- lines are kept as rows; the wall clock's text for a moment is an argument.
pub mod Queue
pub mod Interleaving
pub mod Drain
mod Tests
use Prim.Native.String.{String}
use robot_ethercat_master_ig.Prelude.{
  ℕ, zero, suc, ◌+◌, ◌-◌, ◌%◌, Bool, true, false, not, ◌&&◌, Option, none, some, List, [], ◌∷◌,
  ◌++◌, leb, ◌==◌, if◌then◌else◌, get_or, set, length,
}
use robot_ethercat_master_ig.Prelude.Int.{ℤ, pos}
use robot_ethercat_master_ig.Cia402.{cia402_state_name}

pub data RuntimeLogEventType : Type 0 where
  cia402_state control_word servo_command error_code target_setpoint : RuntimeLogEventType

pub record RuntimeLogEvent : Type 0 where
  pub timestamp_ns : ℕ  -- uint64_t
  pub motor_id : ℕ  -- uint8_t
  pub type : RuntimeLogEventType
  pub status_word : ℕ  -- uint16_t
  pub control_word : ℕ  -- uint16_t
  pub cia402_state : ℕ  -- uint16_t
  pub operation_mode : ℤ  -- int8_t
  pub target_position : ℤ  -- int32_t
  pub target_velocity : ℤ  -- int32_t
  pub target_torque : ℤ  -- int16_t
  pub error_code : ℕ  -- uint16_t
  pub detail : String

abbrev pub blank : RuntimeLogEvent
blank = record {
  timestamp_ns = 0;
  motor_id = 0;
  type = RuntimeLogEventType.cia402_state;
  status_word = 0;
  control_word = 0;
  cia402_state = 0;
  operation_mode = pos 0;
  target_position = pos 0;
  target_velocity = pos 0;
  target_torque = pos 0;
  error_code = 0;
  detail = "";
}

abbrev pub event_type_name : RuntimeLogEventType → String
event_type_name RuntimeLogEventType.cia402_state = "cia402_state"
event_type_name RuntimeLogEventType.control_word = "control_word"
event_type_name RuntimeLogEventType.servo_command = "servo_command"
event_type_name RuntimeLogEventType.error_code = "error_code"
event_type_name RuntimeLogEventType.target_setpoint = "target_setpoint"

abbrev pub ring_capacity : ℕ
ring_capacity = 2048

-- `ring_buffer_`, `ring_head_` and `ring_tail_`.
pub record Ring : Type 0 where
  pub buffer : List RuntimeLogEvent
  pub head : ℕ  -- size_t
  pub tail : ℕ  -- size_t

abbrev pub next_index : ℕ → ℕ
next_index i = (i + 1) % ring_capacity

-- The ring, and whether the event went in.
unfoldable pub try_push_to_ring : Ring → RuntimeLogEvent → Ring × Bool
try_push_to_ring r event =
    if next_index r.head == r.tail
    then (r, false)
    else (record r { buffer = set r.buffer r.head event; head = next_index r.head }, true)

unfoldable pub try_pop_from_ring : Ring → Option (Ring × RuntimeLogEvent)
try_pop_from_ring r =
    if r.tail == r.head
    then none
    else some (record r { tail = next_index r.tail }, get_or r.buffer r.tail blank)

-- A line of the file: `iso_time` is the text of `formatIsoTimestamp`.
pub record Row : Type 0 where
  pub iso_time : String
  pub elapsed_ns : ℕ  -- uint64_t
  pub type_name : String
  pub state_name : String
  pub event : RuntimeLogEvent

-- `enabled_`, `ring_*`, `pending_commands_`, `mono_base_ns_`, and the file: whether it is open, and
-- the lines in it.
pub record RuntimeLogger : Type 0 where
  pub enabled : Bool
  pub ring : Ring
  pub pending_commands : List RuntimeLogEvent
  pub mono_base_ns : ℕ  -- uint64_t
  pub is_open : Bool
  pub rows : List Row

unfoldable pub push_rt_event : RuntimeLogger → RuntimeLogEvent → RuntimeLogger
push_rt_event l event =
    if l.enabled then record l { ring = (try_push_to_ring l.ring event).0 } else l

unfoldable pub queue_command : RuntimeLogger → RuntimeLogEvent → RuntimeLogger
queue_command l event =
    if l.enabled then record l { pending_commands = l.pending_commands ++ event ∷ [] } else l

unfoldable pub push_all : Ring → List RuntimeLogEvent → Ring
push_all r [] = r
push_all r (e ∷ es) = push_all (try_push_to_ring r e).0 es

-- `locked`: whether `try_to_lock` got the mutex of the queue.
unfoldable pub flush_pending_to_buffer : RuntimeLogger → Bool → RuntimeLogger
flush_pending_to_buffer l locked =
    if l.enabled && locked
    then record l { ring = push_all l.ring l.pending_commands; pending_commands = [] }
    else l

unfoldable pub write_event : (ℕ → String) → ℕ → RuntimeLogEvent → Row
write_event iso base event = record {
  iso_time = iso event.timestamp_ns;
  elapsed_ns = if leb base event.timestamp_ns then event.timestamp_ns - base else 0;
  type_name = event_type_name event.type;
  state_name = cia402_state_name event.cia402_state;
  event = event;
}

abbrev is_error_code : RuntimeLogEventType → Bool
is_error_code RuntimeLogEventType.error_code = true
is_error_code _ = false

-- An error event without a code gets the one that `error_code_fetcher` reads, if there is one.
unfoldable pub with_error_code : Option (ℕ → ℕ) → RuntimeLogEvent → RuntimeLogEvent
with_error_code none event = event
with_error_code (some fetch) event =
    if is_error_code event.type && (event.error_code == 0)
    then record event { error_code = fetch event.motor_id }
    else event

-- The loop of `drain`, on fuel: `none` where that runs out.
unfoldable pub drain_loop :
    ℕ → (RuntimeLogEvent → Row) → Ring → List Row → ℕ → Option (Ring × List Row × ℕ)
drain_loop zero write r rows count = none
drain_loop (suc fuel) write r rows count = elim (try_pop_from_ring r) [
  | none ↦ some (r, rows, count)
  | some (r', event) ↦ drain_loop fuel write r' (rows ++ write event ∷ []) (count + 1)
]

-- What `drain` writes for an event.
abbrev pub row_of : Option (ℕ → ℕ) → (ℕ → String) → ℕ → RuntimeLogEvent → Row
row_of fetcher iso base event = write_event iso base (with_error_code fetcher event)

unfoldable pub drain : RuntimeLogger → Option (ℕ → ℕ) → (ℕ → String) → Option (RuntimeLogger × ℕ)
unfolding drain_loop
drain l fetcher iso =
    if l.enabled && l.is_open
    then elim (drain_loop ring_capacity (row_of fetcher iso l.mono_base_ns) l.ring l.rows 0) [
      | none ↦ none
      | some (r, rows, count) ↦ some (record l { ring = r; rows = rows }, count)
    ]
    else some (l, 0)

unfoldable pub shutdown : RuntimeLogger → (ℕ → String) → Option RuntimeLogger
unfolding drain
shutdown l iso =
    if l.enabled
    then elim (drain l none iso) [
      | none ↦ none
      | some (l', count) ↦ some (record l' { is_open = false; enabled = false })
    ]
    else some l

-- `created` and `opened`: whether the folder could be made and the new, empty file opened; `now`: the
-- monotonic clock.
unfoldable pub initialize :
    RuntimeLogger → Bool → Bool → ℕ → (ℕ → String) → Option (RuntimeLogger × Bool)
unfolding shutdown
initialize l created opened now iso = elim (shutdown l iso) [
  | none ↦ none
  | some l' ↦
      if not created
      then some (l', false)
      else if not opened
      then some (l', false)
      else some (
        record l' {
          enabled = true;
          ring = record l'.ring { head = 0; tail = 0 };
          mono_base_ns = now;
          is_open = true;
          rows = [];
        },
        true,
      )
]
