-- ===== src/SafeOutput/Tests.antt =====
-- The latched position.
use robot_ethercat_master_ig.Prelude.{◌≡◌, refl, true, false}
use robot_ethercat_master_ig.Prelude.Int.{pos}
use robot_ethercat_master_ig.SafeOutput.{latch_safe_position, select_safe_control_word}

stays_latched : latch_safe_position false (pos 7) (pos 9) ≡ pos 7
unfolding latch_safe_position
stays_latched = refl

-- The reset word goes out even if the axis has no fault.
resets_without_fault : select_safe_control_word true true false 0x80 ≡ 0x80
unfolding select_safe_control_word
resets_without_fault = refl
