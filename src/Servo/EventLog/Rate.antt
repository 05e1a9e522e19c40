-- ===== src/Servo/EventLog/Rate.antt =====
-- How often the log of a motor tells its setpoint (`maybeLogTargetSetpoint` of
-- src/master/igh/ethercat_servo.cpp).
use robot_ethercat_master_ig.Prelude.{
  ℕ, ◌==◌, ◌+◌, ◌*◌, ◌≤◌, ◌≡◌, refl, Bool, not, ◌&&◌, List, [], ◌∷◌, ◌++◌, ltb, length, arith,
  if_cases, if_both,
}
use robot_ethercat_master_ig.Cia402.{is_fault}
use robot_ethercat_master_ig.Logger.{RuntimeLogEvent, RuntimeLogEventType}
use robot_ethercat_master_ig.Servo.EventLog.{
  LogMemory, fresh_memory, Sample, is_news, is_changed, target_log_interval_cycles, log_state,
  log_word, maybe_log_target_setpoint, log_cycle, log_cycles, memory_after,
}

abbrev is_setpoint : RuntimeLogEventType → ℕ
is_setpoint RuntimeLogEventType.target_setpoint = 1
is_setpoint _ = 0

-- How many events tell a setpoint.
unfoldable pub setpoints : List RuntimeLogEvent → ℕ
setpoints [] = 0
setpoints (e ∷ es) = is_setpoint e.type + setpoints es

setpoints-append :
    (xs ys : List RuntimeLogEvent) → setpoints (xs ++ ys) ≡ setpoints xs + setpoints ys
unfolding setpoints
setpoints-append [] ys = omega arith
setpoints-append (e ∷ es) ys = omega (arith, setpoints-append es ys)

-- A part that tells no setpoint and does not count.
abbrev IsIdle : LogMemory → LogMemory × List RuntimeLogEvent → Type 0
IsIdle m t = (setpoints t.1 ≡ 0) × (t.0.target_setpoint_log_counter ≡ m.target_setpoint_log_counter)

log_state-IsIdle : (s : Sample) (m : LogMemory) → IsIdle m (log_state s m)
unfolding log_state setpoints
log_state-IsIdle s m =
    if_both (IsIdle m) (is_news s m)
      (if_both (λ es. 0 + setpoints es ≡ 0) (is_fault s.status_word) refl refl, refl) (refl, refl)

log_word-IsIdle : (s : Sample) (m : LogMemory) → IsIdle m (log_word s m)
unfolding log_word setpoints
log_word-IsIdle s m =
    if_both (IsIdle m) (s.sent == m.last_logged_control_word) (refl, refl) (refl, refl)

-- A hundred cycles are counted for an event.
abbrev IsPaid : LogMemory → LogMemory × List RuntimeLogEvent → Type 0
IsPaid m t =
    100 * setpoints t.1 + t.0.target_setpoint_log_counter ≤ m.target_setpoint_log_counter + 1

setpoint-IsPaid :
    (activated : Bool) (s : Sample) (m : LogMemory)
    → IsPaid m (maybe_log_target_setpoint activated s m)
unfolding maybe_log_target_setpoint setpoints
setpoint-IsPaid activated s m = if_both (IsPaid m) (not activated) (omega arith) (
    if_cases (IsPaid m) (ltb (m.target_setpoint_log_counter + 1) target_log_interval_cycles)
      (λ early. omega arith)
      (λ due.
        if_both (IsPaid m) (not s.in_motion && not (is_changed s m)) (omega arith)
          (ground (arith, due))))

setpoint-counter :
    (activated : Bool) (s : Sample) (m : LogMemory)
    → m.target_setpoint_log_counter ≤ 99
    → (maybe_log_target_setpoint activated s m).0.target_setpoint_log_counter ≤ 99
unfolding maybe_log_target_setpoint
setpoint-counter activated s m low = ground arith

log_cycle-IsPaid :
    (activated : Bool) (s : Sample) (m : LogMemory) → IsPaid m (log_cycle activated s m)
unfolding log_cycle
log_cycle-IsPaid activated s m =
    let st = log_state s m in
    let wd = log_word s st.0 in
    let sp = maybe_log_target_setpoint activated s wd.0 in
    let p = log_state-IsIdle s m in
    let q = log_word-IsIdle s st.0 in
    omega (
      arith,
      setpoints-append st.1 (wd.1 ++ sp.1),
      setpoints-append wd.1 sp.1,
      p.0,
      p.1,
      q.0,
      q.1,
      setpoint-IsPaid activated s wd.0,
    )

log_cycles-paid :
    (run : List (Bool × Sample)) (m : LogMemory)
    → 100 * setpoints (log_cycles m run) ≤ m.target_setpoint_log_counter + length run
unfolding log_cycles setpoints
log_cycles-paid [] m = omega arith
log_cycles-paid ((activated, s) ∷ rest) m =
    let one = log_cycle activated s m in
    omega (
      arith,
      setpoints-append one.1 (log_cycles one.0 rest),
      log_cycle-IsPaid activated s m,
      log_cycles-paid rest one.0,
    )

log_cycle-counter :
    (activated : Bool) (s : Sample) (m : LogMemory)
    → m.target_setpoint_log_counter ≤ 99
    → (log_cycle activated s m).0.target_setpoint_log_counter ≤ 99
unfolding log_cycle
log_cycle-counter activated s m low =
    let st = log_state s m in
    let wd = log_word s st.0 in
    omega (
      arith,
      (log_state-IsIdle s m).1,
      (log_word-IsIdle s st.0).1,
      setpoint-counter activated s wd.0,
      low,
    )

memory_after-counter :
    (run : List (Bool × Sample)) (m : LogMemory)
    → m.target_setpoint_log_counter ≤ 99
    → (memory_after m run).target_setpoint_log_counter ≤ 99
memory_after-counter [] m low = low
memory_after-counter ((activated, s) ∷ rest) m low =
    memory_after-counter rest (log_cycle activated s m).0 (log_cycle-counter activated s m low)

-- Whatever a motor has gone through and however its targets move, any stretch of cycles gives at most
-- one setpoint event for each hundred cycles begun: of a hundred cycles in a row, wherever they begin,
-- at most one.
pub log_cycles_rate :
    (before window : List (Bool × Sample))
    → 100 * setpoints (log_cycles (memory_after fresh_memory before) window) ≤ length window + 99
log_cycles_rate before window = omega (
  arith,
  log_cycles-paid window (memory_after fresh_memory before),
  memory_after-counter before fresh_memory (omega arith),
)
