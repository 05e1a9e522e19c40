-- ===== src/Kinematics/RoundTrip.antt =====
-- The conversions of positions and speeds against their inverses, in exact arithmetic.
use robot_ethercat_master_ig.Prelude.{◌≡◌, ◌∙◌, ap}
use robot_ethercat_master_ig.Prelude.Int.{ℤ}
use robot_ethercat_master_ig.Kinematics.{
  Doubles, MotorKinematicsParams, degrees_per_revolution, pulse_to_degree, degree_to_pulse,
  pulse_per_sec_to_degree_per_sec, degree_per_sec_to_pulse_per_sec, encoder_factor,
  velocity_encoder_factor,
}

module _ {ℓ} {R : Type ℓ} (d : Doubles R) where
  -- What exact arithmetic gives for one factor, direction and offset.
  pub record IsExact (factor direction offset : R) : Type ℓ where
    pub offset_cancels : (x : R) → d.sub (d.add x offset) offset ≡ x
    pub direction_cancels : (x : R) → d.div (d.mul x direction) direction ≡ x
    pub revolution_cancels :
        (x : R) → d.div (d.mul x (degrees_per_revolution d)) (degrees_per_revolution d) ≡ x
    pub factor_cancels : (x : R) → d.mul (d.div x factor) factor ≡ x
    pub int_cancels : (n : ℤ) → d.to_int32 (d.of_int n) ≡ n

  -- What both conversions do beside the offset.
  scaled_back :
      (factor direction offset : R) (n : ℤ)
      → IsExact factor direction offset
      → d.to_int32 (
          d.mul
            (d.div
              (d.div
                (d.mul (d.mul (d.div (d.of_int n) factor) (degrees_per_revolution d)) direction)
                direction)
              (degrees_per_revolution d))
            factor)
        ≡ n
  scaled_back factor direction offset n e =
      let turns = d.div (d.of_int n) factor in
      ap (λ (x : R). d.to_int32 (d.mul (d.div x (degrees_per_revolution d)) factor))
        (e.direction_cancels (d.mul turns (degrees_per_revolution d)))
      ∙ ap (λ (x : R). d.to_int32 (d.mul x factor)) (e.revolution_cancels turns)
      ∙ ap d.to_int32 (e.factor_cancels (d.of_int n))
      ∙ e.int_cancels n

  -- Where adding and taking off the offset, multiplying and dividing by the direction and by 360, and
  -- dividing and multiplying by the encoder's factor undo each other, an angle made from a count is
  -- sent back as the same count.
  pub degree_to_pulse-pulse_to_degree :
      (p : MotorKinematicsParams R) (pulse : ℤ)
      → IsExact (encoder_factor d p) p.joint_direction p.position_offset_deg
      → degree_to_pulse d p (pulse_to_degree d p pulse) ≡ pulse
  unfolding degree_to_pulse pulse_to_degree
  degree_to_pulse-pulse_to_degree p pulse e =
      let factor = encoder_factor d p in
      let motor_degree = d.mul (d.div (d.of_int pulse) factor) (degrees_per_revolution d) in
      ap
        (λ (x : R).
          d.to_int32 (d.mul (d.div (d.div x p.joint_direction) (degrees_per_revolution d)) factor))
        (e.offset_cancels (d.mul motor_degree p.joint_direction))
      ∙ scaled_back factor p.joint_direction p.position_offset_deg pulse e

  pub degree_per_sec_to_pulse_per_sec-pulse_per_sec_to_degree_per_sec :
      (p : MotorKinematicsParams R) (speed : ℤ)
      → IsExact (velocity_encoder_factor d p) p.joint_direction p.position_offset_deg
      → degree_per_sec_to_pulse_per_sec d p (pulse_per_sec_to_degree_per_sec d p speed) ≡ speed
  unfolding degree_per_sec_to_pulse_per_sec pulse_per_sec_to_degree_per_sec
  degree_per_sec_to_pulse_per_sec-pulse_per_sec_to_degree_per_sec p speed e =
      scaled_back (velocity_encoder_factor d p) p.joint_direction p.position_offset_deg speed e
