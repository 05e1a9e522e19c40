-- ===== src/CspPeriod/Tests.antt =====
-- A bus period of two milliseconds, and a drive that holds 4 ms as 4 * 10^-3 s.
use robot_ethercat_master_ig.Prelude.{◌≤◌, ◌≡◌, refl, true, arith, some}
use robot_ethercat_master_ig.Prelude.Int.{negsuc}
use robot_ethercat_master_ig.CspPeriod.{
  CspInterpolationPeriod, encode_csp_interpolation_period, encode_loop,
  decode_csp_interpolation_period_ns, interpolation_period_matches_bus,
}
use robot_ethercat_master_ig.CspPeriod.RoundTrip.{decode-encode, encode-decode}

abbrev two_ms : CspInterpolationPeriod
two_ms = record { value = 2; exponent = negsuc 2 }

abbrev four_ms : CspInterpolationPeriod
four_ms = record { value = 4; exponent = negsuc 2 }

decode-encode_example :
    (decode_csp_interpolation_period_ns two_ms ≡ 2000000)
    × (1 ≤ 2)
    × (2 ≤ 255)
    × (interpolation_period_matches_bus 2 (negsuc 2) 2000000 ≡ true)
unfolding encode_csp_interpolation_period encode_loop
decode-encode_example = decode-encode 2000000 {p = two_ms} refl

decoded_period_is_kept :
    (q : CspInterpolationPeriod) × (encode_csp_interpolation_period
        (decode_csp_interpolation_period_ns four_ms)
      ≡ some q)
    × (decode_csp_interpolation_period_ns q ≡ decode_csp_interpolation_period_ns four_ms)
unfolding decode_csp_interpolation_period_ns
decoded_period_is_kept = encode-decode four_ms (omega arith) (omega arith)
