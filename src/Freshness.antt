-- ===== src/Freshness.antt =====
-- src/ethercat_master_igh/include/ethercat_joint/util/command_freshness.hpp: the watchdog on
-- external torque and velocity commands.
mod Tests
use robot_ethercat_master_ig.Prelude.{
  ℕ, ◌+◌, ◌≤◌, ◌<◌, ◌^◌, ◌≡◌, ◌≢◌, ◌↔◌, Bool, true, false, ◌&&◌, arith, ltb, ◌==◌, if◌then◌else◌,
}
use robot_ethercat_master_ig.Prelude.Word.{u64}

-- Where a setpoint comes from.
pub data SetpointSource : Type 0 where
  external job_internal : SetpointSource

pub record CommandFreshnessState : Type 0 where
  pub armed : Bool
  pub deadline_ns : ℕ  -- uint64_t

abbrev pub unarmed : CommandFreshnessState
unarmed = record { armed = false; deadline_ns = 0 }

unfoldable pub arm_external_command : CommandFreshnessState → ℕ → ℕ → CommandFreshnessState
arm_external_command state now_ns timeout_ns =
    if timeout_ns == 0
    then record state { armed = false; deadline_ns = 0 }
    else record state { armed = true; deadline_ns = u64 (now_ns + timeout_ns) }

unfoldable pub disarm_command_freshness : CommandFreshnessState → CommandFreshnessState
disarm_command_freshness state = record state { armed = false; deadline_ns = 0 }

unfoldable pub mark_job_internal_command : CommandFreshnessState → CommandFreshnessState
unfolding disarm_command_freshness
mark_job_internal_command state = disarm_command_freshness state

unfoldable pub is_external_command_stale : CommandFreshnessState → ℕ → Bool
is_external_command_stale state now_ns = state.armed && ltb state.deadline_ns now_ns

unfoldable pub contention_fallback_active : CommandFreshnessState → Bool
contention_fallback_active state = state.armed

-- For a positive timeout and a clock that does not pass the end of its range, a command received at
-- `t` is found stale at a later `now` exactly when more than the timeout has gone by; with timeout 0
-- it is never found stale.
pub stale_iff_late :
    (s : CommandFreshnessState) (t timeout now : ℕ)
    → t + timeout < 2 ^ 64
    → (is_external_command_stale (arm_external_command s t timeout) now ≡ true)
      ↔ ((timeout ≢ 0) × (t + timeout < now))
unfolding is_external_command_stale arm_external_command
stale_iff_late s t timeout now fits = ground arith
