-- ===== src/Lib.antt =====
-- The safety core of a hard real-time EtherCAT master for a robot (ethercat_master_igh): the servo that
-- keeps the drives' state machines and process images, the runtime whose Job thread runs one bus cycle
-- after another, and the monitors that stop the motion.
--
-- Paths are relative to src/ethercat_master_igh; I stands for include/ethercat_joint.
--
-- Anomaly: AnomalyTracker of I/util/anomaly_tracker.hpp. Its ring of 64 bits is a number, read and
--   written through Prelude.Bits; `observe` returns the tracker and the statistics. Anomaly.Slots and
--   Anomaly.Window relate it to the list of all observations.
-- Dwell: HealthyDwell of the same header. Dwell.Runs is about runs of healthy cycles.
-- Freshness: I/util/command_freshness.hpp, the age of external commands.
-- Cia402: I/servo/cia402.hpp, states and control words; Cia402.Decoding goes through the status
--   words of 16 bits.
-- Timing: I/master/igh/cycle_timing.hpp, with Timing.Deadline and Timing.Statistics.
-- CspPeriod: I/motor/csp_interpolation_period.hpp, with its round trip.
-- DcMonitor, SafeOutput, Config: the headers dc_monitor.hpp, safe_output.hpp and
--   igh_master_config.hpp of I/master/igh. In Config the C library's getenv and atoi are parameters.
-- Runtime: src/master/igh/igh_master_runtime.cpp. The record IghMasterRuntime has the class's members,
--   its atomics being plain fields; the calls (latchCommFault, clearCommFault, releaseSafeOutput and so
--   on) are functions on it. Runtime.Job is the body of jobThreadMain and sampleDcMonitor,
--   Runtime.Lifecycle configure, start and stop. Runtime.Reachable lets calls fall between and inside
--   cycles, as steps of a relation; a call is one step. Runtime.Latched has its invariant. Runtime.Dwelled
--   is about the steps from a fault or a reset to a release, over Runtime.Safety and Runtime.Tracking;
--   Runtime.Trips and Runtime.Watchdogs about runs of cycles with no call between them. Runtime.Pacing
--   has the wake-ups that the Job thread plans.
-- Axis: what src/master/igh/ethercat_servo.cpp keeps for each slave, its vectors as one list of
--   records. Axis.Transmit is a motor's part of sendData: sendDataCommon with the enable state machine,
--   sendDataCSP, sendDataCSV and sendDataCST. Axis.Enabling, Axis.FaultReset and Axis.ControlWord are
--   about runs of that state machine.
-- Servo: the commands of EtherCATServo (setEnable, requestFaultReset, setOperationMode), with the
--   setpoints in Servo.Commands; Servo.Cycle has runJobCycle and what it calls: the freshness check,
--   receiveData, applySafeProcessImageOutputs and sendData. Servo.Gates, Servo.Enabling,
--   Servo.SafeOutputs, Servo.Stale and Servo.Words have their properties, Servo.Held one cycle of safe
--   output on an axis, Servo.Lookup the lemmas on the loops over the slaves.
-- Seqlock: the sequence lock of I/util/seqlock.hpp and the read by index of I/util/pdo_cache_helpers.hpp,
--   as steps of one writer and of a reader; Seqlock.Snapshot is about what a reader accepts.
-- Servo.Initialize, Servo.Startup and Servo.Positions are about the startup in ethercat_servo.cpp:
--   initialize, the gates on registered objects and on object 0x60C2, activate, deactivate and
--   initializePositionsFromSDO; Servo.Evidence is about the gates, Servo.Mapped about the slaves of an
--   initialised servo and the places of their outputs. Servo.LoadKinematics has tryLoadKinematicsFromSdo, with Servo.LoadKinematics.Kept. Servo.Bus has the
--   tests on the states of the slaves (areAllSlavesInOP, checkSlaveStates), Servo.States the readers
--   from getPosition to getMotorStates.
-- Servo.EventLog: the events that sendDataCommon and maybeLogTargetSetpoint make for a motor, and put
--   into the log. Servo.EventLog.Told and Servo.EventLog.Complete are about the words that the events
--   tell, Servo.EventLog.Rate about how many setpoints there are, Servo.EventLog.Served and
--   Servo.EventLog.Written about what of them comes through the ring to the file.
-- Pdo: the process data of the slaves in ethercat_servo.cpp. Pdo and Pdo.Gateway have the tables of
--   configurePDOMapping, Pdo.Configure chooses among them, Pdo.Offsets is PDOOffsets and Pdo.Register
--   is registerPDOEntries: for each kind of slave a list of requests to the library, each with the
--   offset that takes its answer. Pdo.Receive is the copying of the inputs in receiveData, with
--   getForceSensorSample. Pdo.Offers and Pdo.Mapped relate what is asked for to the tables,
--   Pdo.Answers the offsets to the answers; Pdo.Total is about registrations that succeed,
--   Pdo.Reading about the copies.
-- RefClock: getReferenceClockTime and alignDcTimeBase, which make a time of 64 bits from the 32 of the
--   reference clock; RefClock.Tracking is about the time given, RefClock.Recovery about the retries.
-- Profiles: src/motor/motor_profile.cpp, the table of motors and its lookups, and what the servo takes
--   from a profile for a slave's clock. Profiles.Registry and Profiles.Resolve have their properties.
-- Kinematics: src/motor/motor_kinematics.cpp over a record of operations, Doubles, which stands for the
--   type double; Kinematics.Samples has an instance for evaluation.
-- Sync: src/master/igh/ethercat_sync.cpp, the loop that follows the reference clock.
-- Logger: src/diagnostics/runtime_logger.cpp, with its ring, its queue of commands and its file as a
--   list of rows. Logger.Queue is the abstract queue that the ring stands for; Logger.Interleaving has
--   the two threads' accesses as steps.
-- Master: src/master_api.cpp with include/ethercat_master_igh/master_api.hpp and motion_policy.hpp.
--   Master holds the checks of a configuration, init, mapJoints and shutdown; Master.Startup has start,
--   Master.Cycle the cycle and the requests, Master.Health the health snapshot. Master.Validation is
--   about the checks, Master.Safe about what start leaves, and Master.Policy about runs of calls under
--   a policy that does not authorise motion.
--
-- The master holds a servo, fills its configuration and starts its runtime. The servo holds the
-- runtime and calls it, and the runtime's Job thread calls the servo's cycle; the runtime sees of that
-- call only its answer, and the servo of the runtime only its flags. The servo asks the profiles.
--
-- Machine integers are native numbers with their width in a comment; wrap-around and saturation are
-- written out where the source has them, but for the sums of Sync and the counters of RefClock, which
-- are unbounded.
-- Entries of the process image are fields of a record, for they do not overlap. The loops run over
-- lists, over the window's bits or over ten powers of ten; drain_loop, which empties the log's ring,
-- runs on fuel of the ring's capacity, and every pass but the last takes one of the fewer events in it.
--
-- Not modelled: the EtherCAT master library, whose answers are arguments; SDO transfers, of which the
-- model has the answers; the warm-up of the clocks (dcSyncWarmup); the waits for states and the texts
-- on slaves that do not reach them; the events by which the setters tell the log of a command; log
-- messages outside the diagnostic log, and the printing of numbers into its lines; the outputs of
-- gateways and force sensors, which are constant; the text of describe and the names of modes; the
-- load of kinematics where start calls it; scheduling and weak memory orders. Two calls do not overlap
-- inside their bodies in the model, those on the log's ring and on the sequence lock excepted. To attach
-- a log to the servo, and to drain it before its shutdown, is left to the program that uses the library.
pub mod Prelude
pub mod Anomaly
pub mod Dwell
pub mod Freshness
pub mod Cia402
pub mod Timing
pub mod CspPeriod
pub mod DcMonitor
pub mod SafeOutput
pub mod Config
pub mod Runtime
pub mod Axis
pub mod Servo
pub mod Seqlock
pub mod Logger
pub mod Sync
pub mod Kinematics
pub mod Profiles
pub mod Master
pub mod RefClock
pub mod Pdo
