-- ===== src/CspPeriod.antt =====
-- src/ethercat_master_igh/include/ethercat_joint/motor/csp_interpolation_period.hpp: the drive's
-- interpolation period (object 0x60C2) as a value and a power of ten.
pub mod RoundTrip
mod Tests
use robot_ethercat_master_ig.Prelude.{
  ℕ, zero, suc, ◌+◌, ◌-◌, ◌*◌, ◌/◌, ◌%◌, Bool, not, ◌&&◌, ◌||◌, Option, none, some, ltb, leb, ◌==◌,
  if◌then◌else◌,
}
use robot_ethercat_master_ig.Prelude.Int.{ℤ, pos, negsuc, neg_part, ltb_ℤ}

pub record CspInterpolationPeriod : Type 0 where
  pub value : ℕ  -- uint8_t
  pub exponent : ℤ  -- int8_t

abbrev pub second_ns : ℕ
second_ns = 1000000000

-- The loop counter runs from 0 down to -9: `down` is its negation.
abbrev pub minus : ℕ → ℤ
minus zero = pos 0
minus (suc k) = negsuc k

-- The body's test at one exponent.
abbrev pub fits_unit : ℕ → ℕ → Bool
fits_unit period_ns unit_ns =
    (period_ns % unit_ns == 0) && (leb 1 (period_ns / unit_ns) && leb (period_ns / unit_ns) 255)

-- `rounds` iterations are left of the ten.
unfoldable pub encode_loop : ℕ → ℕ → ℕ → ℕ → Option CspInterpolationPeriod
encode_loop zero down unit_ns period_ns = none
encode_loop (suc rounds) down unit_ns period_ns =
    let rest =
      encode_loop rounds (down + 1) (if ltb down 9 then unit_ns / 10 else unit_ns) period_ns in
    if fits_unit period_ns unit_ns
    then some (record { value = period_ns / unit_ns; exponent = minus down })
    else rest

unfoldable pub encode_csp_interpolation_period : ℕ → Option CspInterpolationPeriod
unfolding encode_loop
encode_csp_interpolation_period period_ns =
    if period_ns == 0 then none else encode_loop 10 0 second_ns period_ns

-- `unit_ns /= 10`, once for each step of the exponent below zero.
abbrev pub unit_loop : ℕ → ℕ → ℕ
unit_loop zero unit_ns = unit_ns
unit_loop (suc k) unit_ns = unit_loop k (unit_ns / 10)

unfoldable pub decode_csp_interpolation_period_ns : CspInterpolationPeriod → ℕ
decode_csp_interpolation_period_ns p =
    if p.value == 0 || (ltb_ℤ p.exponent (negsuc 8) || ltb_ℤ (pos 0) p.exponent)
    then 0
    else p.value * unit_loop (neg_part p.exponent) second_ns

-- The answer read back from the drive is the bus cycle.
unfoldable pub interpolation_period_matches_bus : ℕ → ℤ → ℕ → Bool
unfolding decode_csp_interpolation_period_ns
interpolation_period_matches_bus value exponent bus_cycle_ns =
    let decoded =
      decode_csp_interpolation_period_ns (record { value = value; exponent = exponent }) in
    not (decoded == 0) && decoded == bus_cycle_ns
