-- ===== src/Servo/EventLog/Served.antt =====
-- A motor's events on the ring of the log: sendDataCommon of src/master/igh/ethercat_servo.cpp over
-- pushRtEvent of src/diagnostics/runtime_logger.cpp.
use mathlib.Core.List.{append_assoc, append-nil}
use robot_ethercat_master_ig.Prelude.{
  suc, ◌+◌, ◌*◌, ◌≤◌, ◌<◌, ◌≡◌, refl, sym, ap, ◌∙◌, subst, Bool, true, not, ◌&&◌, ◌==◌, List, [],
  ◌∷◌, ◌++◌, ltb, length, length-append, arith, if_both,
}
use robot_ethercat_master_ig.Cia402.{is_fault}
use robot_ethercat_master_ig.Logger.{RuntimeLogEvent, RuntimeLogger, Ring, push_all, push_rt_event}
use robot_ethercat_master_ig.Logger.Queue.{Represents, enqueue, push-Represents}
use robot_ethercat_master_ig.Servo.EventLog.{
  LogMemory, Sample, is_news, is_changed, target_log_interval_cycles, log_state, log_word,
  maybe_log_target_setpoint, log_cycle, log_cycles, memory_after, push_events, serve,
}

-- A cycle makes four events at most.
length-log_state : (s : Sample) (m : LogMemory) → length (log_state s m).1 ≤ 2
unfolding log_state
length-log_state s m =
    if_both (λ (t : LogMemory × List RuntimeLogEvent). length t.1 ≤ 2) (is_news s m)
      (if_both (λ (es : List RuntimeLogEvent). suc (length es) ≤ 2) (is_fault s.status_word)
        (omega arith) (omega arith))
      (omega arith)

length-log_word : (s : Sample) (m : LogMemory) → length (log_word s m).1 ≤ 1
unfolding log_word
length-log_word s m =
    if_both (λ (t : LogMemory × List RuntimeLogEvent). length t.1 ≤ 1)
      (s.sent == m.last_logged_control_word) (omega arith) (omega arith)

length-setpoint :
    (activated : Bool) (s : Sample) (m : LogMemory)
    → length (maybe_log_target_setpoint activated s m).1 ≤ 1
unfolding maybe_log_target_setpoint
length-setpoint activated s m =
    let short : LogMemory × List RuntimeLogEvent → Type 0 = λ t. length t.1 ≤ 1 in
    if_both short (not activated) (omega arith) (
      if_both short (ltb (m.target_setpoint_log_counter + 1) target_log_interval_cycles)
        (omega arith)
        (if_both short (not s.in_motion && not (is_changed s m)) (omega arith) (omega arith)))

length-log_cycle :
    (activated : Bool) (s : Sample) (m : LogMemory) → length (log_cycle activated s m).1 ≤ 4
unfolding log_cycle
length-log_cycle activated s m =
    let st = log_state s m in
    let wd = log_word s st.0 in
    let sp = maybe_log_target_setpoint activated s wd.0 in
    omega (
      arith,
      length-append st.1 (wd.1 ++ sp.1),
      length-append wd.1 sp.1,
      length-log_state s m,
      length-log_word s st.0,
      length-setpoint activated s wd.0,
    )

-- The ring takes in all that there is room for.
enqueue_room :
    (e : RuntimeLogEvent) (q : List RuntimeLogEvent) → length q < 2047 → enqueue e q ≡ q ++ e ∷ []
unfolding enqueue
enqueue_room e q room = ground arith

push_all-Represents :
    (es : List RuntimeLogEvent) (r : Ring) (q : List RuntimeLogEvent)
    → Represents r q
    → length q + length es ≤ 2047
    → Represents (push_all r es) (q ++ es)
unfolding push_all
push_all-Represents [] r q v room = subst (Represents r) (sym (append-nil q)) v
push_all-Represents (e ∷ es) r q v room =
    let taken = subst (Represents _) (enqueue_room e q (omega arith)) (push-Represents r q e v) in
    subst (Represents _) (append_assoc q (e ∷ []) es)
      (push_all-Represents es _ (q ++ e ∷ []) taken (omega (arith, length-append q (e ∷ []))))

push_events-push_all :
    (es : List RuntimeLogEvent) (l : RuntimeLogger)
    → l.enabled ≡ true
    → push_events l es ≡ record l { ring = push_all l.ring es }
unfolding push_events push_all
push_events-push_all [] l on = refl
push_events-push_all (e ∷ es) l on =
    ap (λ k. push_events k es) (taken l e on) ∙ push_events-push_all es _ on
  where
    taken :
        (l : RuntimeLogger) (e : RuntimeLogEvent)
        → l.enabled ≡ true
        → push_rt_event l e ≡ record l { ring = push_all l.ring (e ∷ []) }
    taken l e on = unfold push_rt_event in ground (arith, on)

pub serve_lem :
    (run : List (Bool × Sample)) (l : RuntimeLogger) (m : LogMemory) (q : List RuntimeLogEvent)
    → l.enabled ≡ true
    → Represents l.ring q
    → length q + 4 * length run ≤ 2047
    → (r : Ring) × (serve run l m ≡ (record l { ring = r }, memory_after m run))
      × Represents r (q ++ log_cycles m run)
unfolding serve log_cycles
serve_lem [] l m q on v room = (l.ring, refl, subst (Represents l.ring) (sym (append-nil q)) v)
serve_lem ((activated, s) ∷ rest) l m q on v room =
    let one = log_cycle activated s m in
    let few = length-log_cycle activated s m in
    let taken = push_all-Represents one.1 l.ring q v (omega arith) in
    let (r, done, holds) =
      serve_lem rest (record l { ring = push_all l.ring one.1 }) one.0 (q ++ one.1) on taken
        (omega (arith, length-append q one.1)) in
    (
      r,
      ap (λ k. serve rest k one.0) (push_events-push_all one.1 l on) ∙ done,
      subst (Represents r) (append_assoc q one.1 (log_cycles one.0 rest)) holds,
    )

pub log_cycles-append :
    (a b : List (Bool × Sample)) (m : LogMemory)
    → log_cycles m (a ++ b) ≡ log_cycles m a ++ log_cycles (memory_after m a) b
unfolding log_cycles
log_cycles-append [] b m = refl
log_cycles-append ((activated, s) ∷ a) b m =
    let one = log_cycle activated s m in
    ap (λ es. one.1 ++ es) (log_cycles-append a b one.0)
    ∙ sym (append_assoc one.1 (log_cycles one.0 a) (log_cycles (memory_after one.0 a) b))
