-- ===== src/Master/Health.antt =====
-- src/ethercat_master_igh/src/master_api.cpp and master_api.hpp: the health snapshot for a supervisor.
use robot_ethercat_master_ig.Prelude.{
  ℕ, ◌≡◌, Bool, true, false, not, ◌&&◌, ◌||◌, inl, inr, Bool-cases, Option, none, some, List, arith,
}
use robot_ethercat_master_ig.Prelude.Int.{ℤ, pos}
use robot_ethercat_master_ig.Runtime.{job_cycle_diag}
use robot_ethercat_master_ig.Runtime.Reachable.{Reach, Phase, comm_fault_keeps_safe}
use robot_ethercat_master_ig.Servo.{Servo}
use robot_ethercat_master_ig.Servo.Cycle.{DomainState}
use robot_ethercat_master_ig.Servo.Bus.{SlaveState, are_all_slaves_in_op}
use robot_ethercat_master_ig.Master.{Master}
use robot_ethercat_master_ig.Master.Cycle.{motion_reenable_allowed}

pub record MasterHealth : Type 0 where
  pub initialized : Bool
  pub operational : Bool
  pub job_thread_running : Bool
  pub working_counter_complete : Bool
  pub communication_fault : Bool
  pub link_connected : Bool
  pub safe_output_active : Bool
  pub observation_only : Bool
  pub startup_evidence_passed : Bool
  pub motion_commands_authorized : Bool
  pub motion_reenable_allowed : Bool
  pub last_fault_notify_code : ℕ  -- uint32_t
  pub last_job_error_code : ℕ  -- uint32_t
  pub job_error_count : ℕ  -- uint64_t
  pub unexpected_operation_enabled_axis : Option ℕ  -- int32_t, `none` for -1
  pub cycles : ℕ  -- uint64_t
  pub rx_fail_cycles : ℕ  -- uint64_t
  pub consecutive_rx_failures : ℕ  -- int32_t
  pub current_lateness_ns : ℕ  -- uint64_t
  pub current_execution_ns : ℕ  -- uint64_t
  pub max_lateness_ns : ℕ  -- uint64_t
  pub max_execution_ns : ℕ  -- uint64_t
  pub deadline_miss_count : ℕ  -- uint64_t
  pub skipped_slots : ℕ  -- uint64_t
  pub deadline_met : Bool
  pub dc_status_valid : Bool
  pub dc_in_sync : Bool
  pub dc_deviation_ns : ℤ
  pub max_dc_deviation_ns : ℕ  -- uint64_t
  pub dc_out_of_sync_count : ℕ  -- uint64_t
  pub dc_out_of_sync_consecutive : ℕ  -- uint32_t
  pub dc_out_of_sync_window : ℕ  -- uint32_t

abbrev pub default_health : MasterHealth
default_health = record {
  initialized = false;
  operational = false;
  job_thread_running = false;
  working_counter_complete = false;
  communication_fault = false;
  link_connected = false;
  safe_output_active = true;
  observation_only = true;
  startup_evidence_passed = false;
  motion_commands_authorized = false;
  motion_reenable_allowed = false;
  last_fault_notify_code = 0;
  last_job_error_code = 0;
  job_error_count = 0;
  unexpected_operation_enabled_axis = none;
  cycles = 0;
  rx_fail_cycles = 0;
  consecutive_rx_failures = 0;
  current_lateness_ns = 0;
  current_execution_ns = 0;
  max_lateness_ns = 0;
  max_execution_ns = 0;
  deadline_miss_count = 0;
  skipped_slots = 0;
  deadline_met = false;
  dc_status_valid = false;
  dc_in_sync = false;
  dc_deviation_ns = pos 0;
  max_dc_deviation_ns = 0;
  dc_out_of_sync_count = 0;
  dc_out_of_sync_consecutive = 0;
  dc_out_of_sync_window = 0;
}

-- With the servo there.
unfoldable pub health_of : DomainState → List (Option SlaveState) → Master → Servo → MasterHealth
unfolding are_all_slaves_in_op job_cycle_diag
health_of domain slaves m s =
    let diag = job_cycle_diag s.runtime in
    let in_op = are_all_slaves_in_op domain slaves s in
    record default_health {
      initialized = m.initialized;
      operational = in_op;
      job_thread_running = s.runtime.job_running;
      working_counter_complete = diag.last_rx_ok;
      communication_fault = s.runtime.comm_fault;
      link_connected = in_op;
      safe_output_active = s.runtime.safe_output_required;
      observation_only = not m.motion_commands_authorized;
      startup_evidence_passed = m.startup_evidence_passed;
      motion_commands_authorized = m.motion_commands_authorized;
      motion_reenable_allowed = m.motion_commands_authorized && s.runtime.motion_reenable_allowed;
      current_lateness_ns = diag.lateness_ns;
      current_execution_ns = diag.execution_ns;
      max_lateness_ns = diag.max_lateness_ns;
      max_execution_ns = diag.max_execution_ns;
      deadline_miss_count = diag.deadline_miss_count;
      skipped_slots = diag.skipped_slots;
      deadline_met = diag.deadline_met;
      dc_status_valid = diag.dc_status_valid;
      dc_in_sync = diag.dc_in_sync;
      dc_deviation_ns = diag.dc_deviation_ns;
      max_dc_deviation_ns = diag.max_dc_deviation_ns;
      dc_out_of_sync_count = diag.dc_out_of_sync_count;
      dc_out_of_sync_consecutive = diag.dc_out_of_sync_consecutive;
      dc_out_of_sync_window = diag.dc_out_of_sync_window;
    }

unfoldable pub health : DomainState → List (Option SlaveState) → Master → MasterHealth
unfolding health_of
health domain slaves m = elim m.servo [
  | none ↦ default_health
  | some s ↦ health_of domain slaves m s
]

-- With a runtime in a state that it reaches, a snapshot that shows a communication fault shows safe
-- output active, and, where it shows the Job thread running, motion not to be enabled again; of an
-- observing master it shows motion as not to be enabled; and what it shows of motion is what
-- `motion_reenable_allowed` answers.
pub health-consistent :
    (domain : DomainState) (slaves : List (Option SlaveState)) (m : Master) (s : Servo) {p : Phase}
    → m.servo ≡ some s
    → Reach s.runtime p
    → let h = health domain slaves m in
      ((not h.communication_fault || h.safe_output_active) ≡ true)
      × ((h.communication_fault && (h.job_thread_running && h.motion_reenable_allowed)) ≡ false)
      × ((h.observation_only && h.motion_reenable_allowed) ≡ false)
      × (h.motion_reenable_allowed ≡ motion_reenable_allowed m)
unfolding health health_of motion_reenable_allowed
health-consistent domain slaves m s there reach = elim (Bool-cases s.runtime.comm_fault) [
  | inl fault ↦
      let kept = comm_fault_keeps_safe reach fault in
      (
        ground (arith, there, kept, fault),
        ground (arith, there, kept, fault),
        ground (arith, there),
        ground (arith, there),
      )
  | inr clear ↦ (
    ground (arith, there, clear),
    ground (arith, there, clear),
    ground (arith, there),
    ground (arith, there),
  )
]
