-- ===== src/Servo/EventLog/Written.antt =====
-- What of a motor's events comes to the file of the log: sendDataCommon of
-- src/master/igh/ethercat_servo.cpp over pushRtEvent and drain of src/diagnostics/runtime_logger.cpp.
use Prim.Native.String.{String}
use robot_ethercat_master_ig.Prelude.{◌≤◌, Bool, List, [], ◌∷◌, ◌++◌, map, length}
use robot_ethercat_master_ig.Logger.{RuntimeLogEvent, Row}
use robot_ethercat_master_ig.Servo.EventLog.{Sample}

abbrev pub joined : List (List (Bool × Sample)) → List (Bool × Sample)
joined [] = []
joined (run ∷ runs) = run ++ joined runs

-- Each stretch makes fewer events than the ring has room for.
abbrev pub AreShort : List (List (Bool × Sample)) → Type 0
AreShort [] = Unit
AreShort (run ∷ runs) = (length run ≤ 511) × AreShort runs

abbrev pub events_of : List Row → List RuntimeLogEvent
events_of = map (λ (w : Row). w.event)
