-- ===== src/CspPeriod/RoundTrip.antt =====
-- Encoding and decoding are inverse, and the encoder finds a code whenever there is one.
use robot_ethercat_master_ig.Prelude.{
  ℕ, zero, suc, ◌+◌, ◌*◌, ◌/◌, ◌≤◌, ◌<◌, ◌≡◌, ◌≢◌, refl, sym, ap, subst, ◌∙◌, ℕ_discrete, Bool,
  true, false, some, arith, ltb, ◌==◌, if◌then◌else◌, Bool-cases, inl, inr,
}
use robot_ethercat_master_ig.Prelude.Int.{ℤ, pos, negsuc, neg_part, pos_part}
use robot_ethercat_master_ig.CspPeriod.{
  CspInterpolationPeriod, second_ns, minus, fits_unit, encode_loop, encode_csp_interpolation_period,
  unit_loop, decode_csp_interpolation_period_ns, interpolation_period_matches_bus,
}
use native.Mathlib.Nat.{div-add-mod, mul-mod_left, mul-div_cancel}

-- The unit at exponent -k.
abbrev pub unit_at : ℕ → ℕ
unit_at k = unit_loop k second_ns

unit_at-suc : (k : ℕ) → unit_at (suc k) ≡ unit_at k / 10
unit_at-suc k = go k second_ns
  where
    go : (k u : ℕ) → unit_loop (suc k) u ≡ unit_loop k u / 10
    go zero u = refl
    go (suc k) u = go k (u / 10)

unit_at_pos : (k : ℕ) → k ≤ 9 → 0 < unit_at k
unit_at_pos zero h = omega arith
unit_at_pos (suc zero) h = omega arith
unit_at_pos (suc (suc zero)) h = omega arith
unit_at_pos (suc (suc (suc zero))) h = omega arith
unit_at_pos (suc (suc (suc (suc zero)))) h = omega arith
unit_at_pos (suc (suc (suc (suc (suc zero))))) h = omega arith
unit_at_pos (suc (suc (suc (suc (suc (suc zero)))))) h = omega arith
unit_at_pos (suc (suc (suc (suc (suc (suc (suc zero))))))) h = omega arith
unit_at_pos (suc (suc (suc (suc (suc (suc (suc (suc zero)))))))) h = omega arith
unit_at_pos (suc (suc (suc (suc (suc (suc (suc (suc (suc zero))))))))) h = omega arith
unit_at_pos (suc (suc (suc (suc (suc (suc (suc (suc (suc (suc k)))))))))) h = absurd (omega arith)

-- A code of a period: a value of 1 to 255 at an exponent of 0 to -9.
pub record Encodes (p : CspInterpolationPeriod) (period_ns : ℕ) : Type 0 where
  pub down : ℕ
  pub shallow : down ≤ 9
  pub at : p.exponent ≡ minus down
  pub positive : 1 ≤ p.value
  pub byte : p.value ≤ 255
  pub exact : p.value * unit_at down ≡ period_ns

minus_parts : (k : ℕ) → (neg_part (minus k) ≡ k) × (pos_part (minus k) ≡ 0)
minus_parts zero = (refl, refl)
minus_parts (suc k) = (refl, refl)

decode_at : ℕ → ℤ → ℕ
unfolding decode_csp_interpolation_period_ns
decode_at v e = decode_csp_interpolation_period_ns (record { value = v; exponent = e })

decode-minus : (v k : ℕ) → k ≤ 9 → 1 ≤ v → decode_at v (minus k) ≡ v * unit_at k
unfolding decode_at
decode-minus v zero h lo = ground arith
decode-minus v (suc k) h lo = ground arith

decode-Encodes :
    {p : CspInterpolationPeriod} {t : ℕ} → Encodes p t → decode_csp_interpolation_period_ns p ≡ t
unfolding decode_at
decode-Encodes {p} v =
    ap (decode_at p.value) v.at ∙ decode-minus p.value v.down v.shallow v.positive ∙ v.exact

fits_unit-exact : (t u : ℕ) → fits_unit t u ≡ true → (1 ≤ t / u) × (t / u ≤ 255) × (t / u * u ≡ t)
fits_unit-exact t u h = ground (arith, div-add-mod t u)

exact-fits_unit : (v u : ℕ) → 0 < u → 1 ≤ v → v ≤ 255 → fits_unit (v * u) u ≡ true
exact-fits_unit v u h lo hi = ground (arith, mul-mod_left v u, mul-div_cancel v {n = u} h)

code-Encodes :
    (down u t : ℕ)
    → down ≤ 9
    → u ≡ unit_at down
    → fits_unit t u ≡ true
    → Encodes (record { value = t / u; exponent = minus down }) t
code-Encodes down u t h e fit =
    let (lo, hi, exact) = fits_unit-exact t u fit in
    record {
      down = down;
      shallow = h;
      at = refl;
      positive = lo;
      byte = hi;
      exact = ap (λ w. t / u * w) (sym e) ∙ exact;
    }

same_code : {p q : CspInterpolationPeriod} → some p ≡ some q → p ≡ q
same_code h = cc

clash : {b : Bool} → b ≡ false → b ≡ true → ⊥
clash e f = cc

next_unit :
    (down u : ℕ)
    → down < 9
    → u ≡ unit_at down
    → (if ltb down 9 then u / 10 else u) ≡ unit_at (down + 1)
next_unit down u h e =
    let next : down + 1 ≡ suc down = omega arith in rw (next, unit_at-suc down) (ground arith)

encode_loop-Encodes :
    (rounds down u t : ℕ) {p : CspInterpolationPeriod}
    → rounds + down ≡ 10
    → (0 < rounds → u ≡ unit_at down)
    → encode_loop rounds down u t ≡ some p
    → Encodes p t
unfolding encode_loop
encode_loop-Encodes zero down u t sum at found = cc
encode_loop-Encodes (suc rounds) down u t {p} sum at found = elim (Bool-cases (fits_unit t u)) [
  | inl fit ↦
      subst (λ q. Encodes q t) (same_code (rw fit at found))
        (code-Encodes down u t (omega arith) (at (omega arith)) fit)
  | inr miss ↦
      encode_loop-Encodes rounds (down + 1) (if ltb down 9 then u / 10 else u) t (omega arith)
        (λ more. next_unit down u (omega arith) (at (omega arith))) (rw miss at found)
]

encode_loop-finds :
    (rounds down u v k : ℕ)
    → rounds + down ≡ 10
    → (0 < rounds → u ≡ unit_at down)
    → down ≤ k
    → k ≤ 9
    → 1 ≤ v
    → v ≤ 255
    → (p : CspInterpolationPeriod) × (encode_loop rounds down u (v * unit_at k) ≡ some p)
unfolding encode_loop
encode_loop-finds zero down u v k sum at h deep lo hi = absurd (omega arith)
encode_loop-finds (suc rounds) down u v k sum at h deep lo hi =
    elim (Bool-cases (fits_unit (v * unit_at k) u)) [
      | inl fit ↦ (record { value = v * unit_at k / u; exponent = minus down }, rw fit)
      | inr miss ↦
          let (p, e) =
            encode_loop-finds rounds (down + 1) (if ltb down 9 then u / 10 else u) v k (omega arith)
              (λ more. next_unit down u (omega arith) (at (omega arith))) (passed miss) deep lo
              hi in
          (p, rw miss e)
    ]
  where
    passed : fits_unit (v * unit_at k) u ≡ false → down + 1 ≤ k
    passed miss = elim (ℕ_discrete down k) [
      | yes e ↦ absurd (
          clash miss (
            ap (λ w. fits_unit (v * unit_at k) w) (at (omega arith) ∙ ap unit_at e)
            ∙ exact-fits_unit v (unit_at k) (unit_at_pos k deep) lo hi))
      | no d ↦ omega arith
    ]

encode-Encodes :
    (t : ℕ) {p : CspInterpolationPeriod} → encode_csp_interpolation_period t ≡ some p → Encodes p t
unfolding encode_csp_interpolation_period
encode-Encodes t {p} h = elim (Bool-cases (t == 0)) [
  | inl z ↦ cc (rw z at h)
  | inr nz ↦ encode_loop-Encodes 10 0 second_ns t refl (λ _. refl) (rw nz at h)
]

-- A period that the encoder gives a code for is decoded from that code exactly, its value is 1 to
-- 255, and the drive that answers with the code matches the bus.
pub decode-encode :
    (t : ℕ) {p : CspInterpolationPeriod}
    → encode_csp_interpolation_period t ≡ some p
    → (decode_csp_interpolation_period_ns p ≡ t)
      × (1 ≤ p.value)
      × (p.value ≤ 255)
      × (interpolation_period_matches_bus p.value p.exponent t ≡ true)
decode-encode t {p} h =
    let v = encode-Encodes t h in
    (decode-Encodes v, v.positive, v.byte, matches (decode-Encodes v) (omega (arith, nonzero v)))
  where
    nonzero : Encodes p t → 0 < t
    nonzero v = grind (arith, v.exact, v.positive, unit_at_pos v.down v.shallow)

    matches :
        decode_csp_interpolation_period_ns p ≡ t
        → t ≢ 0
        → interpolation_period_matches_bus p.value p.exponent t ≡ true
    matches e n = unfold interpolation_period_matches_bus in ground arith

depth_of :
    (v : ℕ) (e : ℤ)
    → decode_at v e ≢ 0
    → (k : ℕ) × (k ≤ 9) × (e ≡ minus k) × (1 ≤ v) × (v * unit_at k ≡ decode_at v e)
unfolding decode_at
depth_of v (pos zero) n = (0, omega arith, refl, ground arith, ground arith)
depth_of v (pos (suc k)) n = absurd (n (ground arith))
depth_of v (negsuc k) n = (suc k, ground arith, refl, ground arith, ground arith)

decoded-Encodes :
    (p : CspInterpolationPeriod)
    → p.value ≤ 255
    → decode_csp_interpolation_period_ns p ≢ 0
    → Encodes p (decode_csp_interpolation_period_ns p)
unfolding decode_at
decoded-Encodes p byte n =
    let (k, shallow, at, lo, exact) = depth_of p.value p.exponent n in
    record { down = k; shallow = shallow; at = at; positive = lo; byte = byte; exact = exact }

encode-finds :
    (v k : ℕ)
    → k ≤ 9
    → 1 ≤ v
    → v ≤ 255
    → (q : CspInterpolationPeriod) × (encode_csp_interpolation_period (v * unit_at k) ≡ some q)
unfolding encode_csp_interpolation_period
encode-finds v k deep lo hi =
    let (q, e) = encode_loop-finds 10 0 second_ns v k refl (λ _. refl) (omega arith) deep lo hi in
    (q, rw nonzero e)
  where
    nonzero : (v * unit_at k == 0) ≡ false
    nonzero = grind (arith, unit_at_pos k deep)

-- Every code with a byte for its value that stands for a positive period is found again: the encoder
-- gives that period a code, perhaps with a larger unit, which decodes to the same period.
pub encode-decode :
    (p : CspInterpolationPeriod)
    → p.value ≤ 255
    → decode_csp_interpolation_period_ns p ≢ 0
    → (q : CspInterpolationPeriod) × (encode_csp_interpolation_period
          (decode_csp_interpolation_period_ns p)
        ≡ some q)
      × (decode_csp_interpolation_period_ns q ≡ decode_csp_interpolation_period_ns p)
encode-decode p byte n =
    let v = decoded-Encodes p byte n in
    let (q, e) = encode-finds p.value v.down v.shallow v.positive v.byte in
    let found = ap encode_csp_interpolation_period (sym v.exact) ∙ e in
    (q, found, (decode-encode _ found).0)
