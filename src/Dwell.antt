-- ===== src/Dwell.antt =====
-- src/ethercat_master_igh/include/ethercat_joint/util/anomaly_tracker.hpp: the class HealthyDwell,
-- which counts healthy cycles after a safety reset before motion may be enabled again.
pub mod Runs
mod Tests
use robot_ethercat_master_ig.Prelude.{ℕ, ◌+◌, Bool, true, false, List, [], ◌∷◌, leb, if◌then◌else◌}
use robot_ethercat_master_ig.Prelude.Word.{u32_max, saturating_inc, max_of}

pub record HealthyDwell : Type 0 where
  pub required : ℕ  -- uint32_t
  pub consecutive_ok : ℕ  -- uint32_t
  pub armed : Bool
  pub allow_enable : Bool

-- The constructor, with the members' initial values.
unfoldable pub make_dwell : ℕ → HealthyDwell
make_dwell cycles = record {
  required = max_of 1 cycles;
  consecutive_ok = 0;
  armed = false;
  allow_enable = true;
}

unfoldable pub on_fault : HealthyDwell → HealthyDwell
on_fault d = record d { armed = false; consecutive_ok = 0; allow_enable = false }

unfoldable pub request_reset : HealthyDwell → HealthyDwell
request_reset d = record d { armed = true; consecutive_ok = 0; allow_enable = false }

unfoldable pub allow_initial_enable : HealthyDwell → HealthyDwell
allow_initial_enable d = record d { armed = false; consecutive_ok = 0; allow_enable = true }

unfoldable pub reset : HealthyDwell → ℕ → HealthyDwell
unfolding allow_initial_enable
reset d cycles = allow_initial_enable (record d { required = max_of 1 cycles })

abbrev count_healthy : HealthyDwell → HealthyDwell
count_healthy d =
    let ok = saturating_inc u32_max d.consecutive_ok in
    if leb d.required ok
    then record d { consecutive_ok = 0; armed = false; allow_enable = true }
    else record d { consecutive_ok = ok }

unfoldable pub observe : HealthyDwell → Bool → HealthyDwell
observe d healthy =
    if d.armed
    then (if healthy
        then count_healthy d
        else record d { consecutive_ok = 0; allow_enable = false })
    else d

-- A run of calls of `observe`, the list oldest first.
unfoldable pub observe_all : HealthyDwell → List Bool → HealthyDwell
observe_all d [] = d
observe_all d (h ∷ later) = observe_all (observe d h) later
