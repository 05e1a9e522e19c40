-- ===== src/Servo/Evidence.antt =====
-- What a passed gate on object 0x60C2 says of the drives.
use robot_ethercat_master_ig.Prelude.{
  ℕ, ◌≡◌, ◌⊎◌, inl, inr, refl, Bool, true, false, not, ◌&&◌, ◌||◌, Option, none, some, List, [],
  ◌∷◌, arith, Bool-cases,
}
use robot_ethercat_master_ig.Prelude.Int.{equal_ℤ→≡}
use robot_ethercat_master_ig.CspPeriod.{
  CspInterpolationPeriod, encode_csp_interpolation_period, decode_csp_interpolation_period_ns,
  interpolation_period_matches_bus,
}
use robot_ethercat_master_ig.CspPeriod.RoundTrip.{decode-encode}
use robot_ethercat_master_ig.Kinematics.{Doubles}
use robot_ethercat_master_ig.Profiles.{MotorConfig}
use robot_ethercat_master_ig.Axis.{is_non_motion_slave}
use robot_ethercat_master_ig.Servo.Startup.{
  SdoAnswers, pair_period, read_period, same_period, rewrite_period, verify_axis_period,
  judge_period, requires_gate, verify_interpolation_period_gate,
}

-- The drive reported, first or after the writes, a period that is the bus cycle.
abbrev pub Reports : SdoAnswers → ℕ → Type 0
Reports a bus_cycle_ns =
    (p : CspInterpolationPeriod) × ((read_period a ≡ some p)
      ⊎ (pair_period (a.reread_u8 1) (a.reread_u8 2) ≡ some p))
    × (decode_csp_interpolation_period_ns p ≡ bus_cycle_ns)

matches_decode :
    (p : CspInterpolationPeriod) (bus : ℕ)
    → interpolation_period_matches_bus p.value p.exponent bus ≡ true
    → decode_csp_interpolation_period_ns p ≡ bus
unfolding interpolation_period_matches_bus
matches_decode p bus h = ground (arith, h)

same_period_lem :
    (o : Option CspInterpolationPeriod) (e : CspInterpolationPeriod)
    → same_period o e ≡ true
    → o ≡ some e
unfolding same_period
same_period_lem none e h = absurd (ground (arith, h))
same_period_lem (some p) e h = ground (arith, h, equal_ℤ→≡ p.exponent e.exponent)

rewrite_period_lem :
    (a : SdoAnswers) (e : CspInterpolationPeriod)
    → rewrite_period a e ≡ true
    → pair_period (a.reread_u8 1) (a.reread_u8 2) ≡ some e
unfolding rewrite_period
rewrite_period_lem a e h =
    same_period_lem (pair_period (a.reread_u8 1) (a.reread_u8 2)) e (ground (arith, h))

and_left : (a b : Bool) → (a && b) ≡ true → a ≡ true
and_left a b h = ground (arith, h)

and_right : (a b : Bool) → (a && b) ≡ true → b ≡ true
and_right a b h = ground (arith, h)

or_false : (a b : Bool) → (a || b) ≡ true → a ≡ false → b ≡ true
or_false a b h k = ground (arith, h, k)

judge_period-Reports :
    (a : SdoAnswers) (bus : ℕ) (expected seen : Option CspInterpolationPeriod)
    → encode_csp_interpolation_period bus ≡ expected
    → read_period a ≡ seen
    → judge_period a bus expected seen ≡ true
    → Reports a bus
unfolding judge_period
judge_period-Reports a bus none seen he hs h = absurd (ground (arith, h))
judge_period-Reports a bus (some e) none he hs h = absurd (ground (arith, h))
judge_period-Reports a bus (some e) (some p) he hs h =
    elim (Bool-cases (interpolation_period_matches_bus p.value p.exponent bus)) [
      | inl fits ↦ (p, inl hs, matches_decode p bus fits)
      | inr differs ↦
          (e, inr (rewrite_period_lem a e (ground (arith, h, differs))), (decode-encode bus he).0)
    ]

verify_axis_period-Reports :
    (a : SdoAnswers) (bus : ℕ) → verify_axis_period a bus ≡ true → Reports a bus
unfolding verify_axis_period
verify_axis_period-Reports a bus h =
    judge_period-Reports a bus (encode_csp_interpolation_period bus) (read_period a) refl refl h

module _ {ℓ} {R : Type ℓ} (d : Doubles R) where
  -- Every motor that has the gate has reported the bus cycle.
  abbrev pub AllReport : List (MotorConfig × SdoAnswers) → ℕ → Type 0
  AllReport [] bus = Unit
  AllReport ((config, a) ∷ rest) bus =
      ((is_non_motion_slave config || not (requires_gate d config)) ≡ false → Reports a bus)
      × AllReport rest bus

  -- Where the gate passes, every motor whose profile asks for it has reported, at first or after the
  -- expected period was written, a period that is exactly the bus cycle.
  pub verify_interpolation_period_gate-AllReport :
      (drives : List (MotorConfig × SdoAnswers)) (bus_cycle_ns : ℕ)
      → verify_interpolation_period_gate d drives bus_cycle_ns ≡ true
      → AllReport drives bus_cycle_ns
  unfolding verify_interpolation_period_gate
  verify_interpolation_period_gate-AllReport [] bus h = tt
  verify_interpolation_period_gate-AllReport ((config, a) ∷ rest) bus h =
      let spared = is_non_motion_slave config || not (requires_gate d config) in
      let here = spared || verify_axis_period a bus in
      let later = verify_interpolation_period_gate d rest bus in
      (
        λ gated.
            verify_axis_period-Reports a bus
              (or_false spared (verify_axis_period a bus) (and_left here later h) gated),
        verify_interpolation_period_gate-AllReport rest bus (and_right here later h),
      )
