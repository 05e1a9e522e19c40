-- ===== src/Prelude/Word.antt =====
-- The ranges of the machine integers, and the operations on them that several parts share.
use robot_ethercat_master_ig.Prelude.{
  ℕ, ◌+◌, ◌-◌, ◌^◌, ◌≡◌, ◌%◌, min, arith, ltb, ◌==◌, if◌then◌else◌,
}

abbrev pub u8_max : ℕ
u8_max = 2 ^ 8 - 1

abbrev pub u16_max : ℕ
u16_max = 2 ^ 16 - 1

abbrev pub u32_max : ℕ
u32_max = 2 ^ 32 - 1

abbrev pub u64_max : ℕ
u64_max = 2 ^ 64 - 1

abbrev pub u32 : ℕ → ℕ
u32 n = n % 2 ^ 32

abbrev pub u64 : ℕ → ℕ
u64 n = n % 2 ^ 64

-- `if (n != max) ++n`
abbrev pub saturating_inc : ℕ → ℕ → ℕ
saturating_inc limit n = if n == limit then n else n + 1

-- `std::max` and `std::clamp`
abbrev pub max_of : ℕ → ℕ → ℕ
max_of a b = if ltb a b then b else a

abbrev pub clamp : ℕ → ℕ → ℕ → ℕ
clamp v lo hi = if ltb v lo then lo else if ltb hi v then hi else v

pub saturating_inc-min : (limit n : ℕ) → saturating_inc limit (min n limit) ≡ min (n + 1) limit
saturating_inc-min limit n = ground arith
