-- ===== src/Servo/EventLog.antt =====
-- src/ethercat_master_igh/src/master/igh/ethercat_servo.cpp: the events that `sendDataCommon` and
-- `maybeLogTargetSetpoint` push to the runtime log for a motor, with what the servo keeps for them.
pub mod Told
pub mod Complete
pub mod Rate
pub mod Served
pub mod Written
mod Tests
use robot_ethercat_master_ig.Prelude.{
  ℕ, zero, suc, ◌+◌, ◌*◌, ◌^◌, ◌-◌, ◌≤◌, ◌<◌, ◌≡◌, refl, sym, ◌∙◌, ap, Bool, true, false, not, ◌&&◌,
  ◌||◌, ◌==◌, Option, none, some, List, [], ◌∷◌, ◌++◌, map, ltb, length, if◌then◌else◌, arith,
  if_cases, if_both,
}
use robot_ethercat_master_ig.Prelude.Int.{ℤ, pos, negsuc, equal_ℤ}
use Prim.Native.String.{String}
use robot_ethercat_master_ig.Cia402.{
  OperationMode, mode_value, Cia402State, state_value, decode_cia402_state, is_fault,
}
use robot_ethercat_master_ig.Logger.{
  RuntimeLogEvent, RuntimeLogEventType, RuntimeLogger, push_rt_event, drain,
}

-- What the servo keeps of a motor's events.
pub record LogMemory : Type 0 where
  pub last_logged_status_word : ℕ  -- uint16_t
  pub last_logged_control_word : ℕ  -- uint16_t
  pub last_logged_cia402_state : ℕ  -- uint16_t
  pub last_logged_target_position : ℤ
  pub last_logged_target_velocity : ℤ
  pub last_logged_target_torque : ℤ
  pub target_setpoint_log_counter : ℕ  -- uint16_t

abbrev pub fresh_memory : LogMemory
fresh_memory = record {
  last_logged_status_word = 0xFFFF;
  last_logged_control_word = 0xFFFF;
  last_logged_cia402_state = 0xFFFF;
  last_logged_target_position = negsuc (2 ^ 31 - 1);
  last_logged_target_velocity = negsuc (2 ^ 31 - 1);
  last_logged_target_torque = negsuc (2 ^ 15 - 1);
  target_setpoint_log_counter = 0;
}

-- What one transmission shows the log: `before` is the control word kept so far, `sent` the one that
-- goes out, `in_motion` whether a position or a velocity command holds.
pub record Sample : Type 0 where
  pub timestamp_ns : ℕ  -- uint64_t
  pub motor_id : ℕ  -- uint8_t
  pub status_word : ℕ  -- uint16_t
  pub before : ℕ  -- uint16_t
  pub sent : ℕ  -- uint16_t
  pub mode : OperationMode
  pub target_position : ℤ
  pub target_velocity : ℤ
  pub target_torque : ℤ
  pub in_motion : Bool

-- An event with the targets of `fillRuntimeEventTargets`.
abbrev event_of : RuntimeLogEventType → ℕ → String → Sample → RuntimeLogEvent
event_of type control_word detail s = record {
  timestamp_ns = s.timestamp_ns;
  motor_id = s.motor_id;
  type = type;
  status_word = s.status_word;
  control_word = control_word;
  cia402_state = state_value (decode_cia402_state s.status_word);
  operation_mode = mode_value s.mode;
  target_position = s.target_position;
  target_velocity = s.target_velocity;
  target_torque = s.target_torque;
  error_code = 0;
  detail = detail;
}

abbrev pub is_news : Sample → LogMemory → Bool
is_news s m =
    not (s.status_word == m.last_logged_status_word)
    || not (state_value (decode_cia402_state s.status_word) == m.last_logged_cia402_state)

unfoldable pub log_state : Sample → LogMemory → LogMemory × List RuntimeLogEvent
log_state s m =
    if is_news s m
    then (
      record m {
        last_logged_status_word = s.status_word;
        last_logged_cia402_state = state_value (decode_cia402_state s.status_word);
      },
      event_of RuntimeLogEventType.cia402_state s.before "" s
          ∷ (if is_fault s.status_word
              then event_of RuntimeLogEventType.error_code s.before "fault_detected" s ∷ []
              else []),
    )
    else (m, [])

unfoldable pub log_word : Sample → LogMemory → LogMemory × List RuntimeLogEvent
log_word s m = if s.sent == m.last_logged_control_word then (m, []) else (
  record m { last_logged_control_word = s.sent },
  event_of RuntimeLogEventType.control_word s.sent "control_word_write" s ∷ [],
)

abbrev pub target_log_interval_cycles : ℕ
target_log_interval_cycles = 100

abbrev pub is_changed : Sample → LogMemory → Bool
is_changed s m =
    not (equal_ℤ s.target_position m.last_logged_target_position)
    || not (equal_ℤ s.target_velocity m.last_logged_target_velocity)
    || not (equal_ℤ s.target_torque m.last_logged_target_torque)

unfoldable pub maybe_log_target_setpoint :
    Bool → Sample → LogMemory → LogMemory × List RuntimeLogEvent
maybe_log_target_setpoint activated s m =
    if not activated
    then (m, [])
    else if ltb (m.target_setpoint_log_counter + 1) target_log_interval_cycles
    then (record m { target_setpoint_log_counter = m.target_setpoint_log_counter + 1 }, [])
    else if not s.in_motion && not (is_changed s m)
    then (record m { target_setpoint_log_counter = 0 }, [])
    else (
      record m {
        target_setpoint_log_counter = 0;
        last_logged_target_position = s.target_position;
        last_logged_target_velocity = s.target_velocity;
        last_logged_target_torque = s.target_torque;
      },
      event_of RuntimeLogEventType.target_setpoint s.sent "" s ∷ [],
    )

-- One transmission, in the order of the code.
unfoldable pub log_cycle : Bool → Sample → LogMemory → LogMemory × List RuntimeLogEvent
unfolding log_state log_word maybe_log_target_setpoint
log_cycle activated s m =
    let state = log_state s m in
    let word = log_word s state.0 in
    let setpoint = maybe_log_target_setpoint activated s word.0 in
    (setpoint.0, state.1 ++ (word.1 ++ setpoint.1))

-- The events of a run.
unfoldable pub log_cycles : LogMemory → List (Bool × Sample) → List RuntimeLogEvent
unfolding log_cycle
log_cycles m [] = []
log_cycles m ((activated, s) ∷ rest) =
    let one = log_cycle activated s m in one.1 ++ log_cycles one.0 rest

-- What the servo keeps after a run.
abbrev pub memory_after : LogMemory → List (Bool × Sample) → LogMemory
memory_after m [] = m
memory_after m ((activated, s) ∷ rest) = memory_after (log_cycle activated s m).0 rest

-- The events go to the log one by one, as they are made.
unfoldable pub push_events : RuntimeLogger → List RuntimeLogEvent → RuntimeLogger
unfolding push_rt_event
push_events l [] = l
push_events l (e ∷ es) = push_events (push_rt_event l e) es

-- The transmissions of a stretch of cycles, on the log.
unfoldable pub serve : List (Bool × Sample) → RuntimeLogger → LogMemory → RuntimeLogger × LogMemory
unfolding log_cycle push_events
serve [] l m = (l, m)
serve ((activated, s) ∷ rest) l m =
    let one = log_cycle activated s m in serve rest (push_events l one.1) one.0

-- Stretches of cycles, after each of which the log's thread drains the ring; `none` where a drain does
-- not come to its end.
unfoldable pub serve_drained :
    Option (ℕ → ℕ)
    → (ℕ → String)
    → List (List (Bool × Sample))
    → RuntimeLogger
    → LogMemory
    → Option RuntimeLogger
unfolding serve drain
serve_drained fetcher iso [] l m = some l
serve_drained fetcher iso (run ∷ runs) l m =
    let served = serve run l m in
    elim (drain served.0 fetcher iso) [
      | none ↦ none
      | some (l', count) ↦ serve_drained fetcher iso runs l' served.1
    ]
