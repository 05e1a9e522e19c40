-- ===== src/Kinematics/Samples.antt =====
-- The integers in place of doubles, which the tests of several modules use.
use robot_ethercat_master_ig.Prelude.{◌/◌, ◌^◌, not}
use robot_ethercat_master_ig.Prelude.Int.{ℤ, pos, pos_part, ◌+ℤ◌, ◌-ℤ◌, ◌*ℤ◌, ltb_ℤ, quot_ℤ}
use robot_ethercat_master_ig.Kinematics.{Doubles}

-- Division by the numbers above 0.
abbrev pub integers : Doubles ℤ
integers = record {
  add = λ a b. a +ℤ b;
  sub = λ a b. a -ℤ b;
  mul = λ a b. a *ℤ b;
  div = λ a b. quot_ℤ a (pos_part b);
  lt = λ a b. ltb_ℤ a b;
  le = λ a b. not (ltb_ℤ b a);
  equal = λ a b. not (ltb_ℤ b a);
  of_int = λ a. a;
  decimal = λ a b. pos (a / 10 ^ b);
  to_int32 = λ a. a;
  lround = λ a. a;
}
