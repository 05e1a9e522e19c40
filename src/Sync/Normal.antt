-- ===== src/Sync/Normal.antt =====
-- The normalised difference against the measured one.
use robot_ethercat_master_ig.Prelude.{
  ℕ, suc, ◌+◌, ◌-◌, ◌*◌, ◌/◌, ◌%◌, ◌≤◌, ◌<◌, ◌≡◌, ◌⊎◌, inl, inr, refl, Option, Bool, if_both, arith,
}
use native.Mathlib.Nat.{mod-lt, add-mul}
use robot_ethercat_master_ig.Prelude.Int.{
  ℤ, pos, negsuc, pos_part, neg_part, ◌+ℤ◌, ◌-ℤ◌, rem_ℤ, int_laws,
}
use robot_ethercat_master_ig.Sync.{Reader, EthercatSync, normalize, follow, process, read_reference}
use robot_ethercat_master_ig.Sync.Adjust.{skips}

-- In [-cycle/2, cycle/2).
abbrev pub IsNormal : ℕ → ℤ → Type 0
IsNormal cycle x = (neg_part x ≤ cycle / 2) × (pos_part x < cycle - cycle / 2)

-- The two differ by a whole number of cycles.
abbrev pub Congruent : ℕ → ℤ → ℤ → Type 0
Congruent cycle a b =
    (k : ℕ) × (l : ℕ) × (pos_part a + neg_part b + k * cycle ≡ pos_part b + neg_part a + l * cycle)

rem_ℤ-Congruent : (a : ℤ) (c : ℕ) → 0 < c → Congruent c a (rem_ℤ a c)
unfolding rem_ℤ
rem_ℤ-Congruent (pos a) c h = (0, a / c, omega arith)
rem_ℤ-Congruent (negsuc a) c h = (suc a / c, 0, ground arith)

rem_ℤ_bounds : (a : ℤ) (c : ℕ) → 0 < c → (pos_part (rem_ℤ a c) < c) × (neg_part (rem_ℤ a c) < c)
unfolding rem_ℤ
rem_ℤ_bounds (pos a) c h = omega arith
rem_ℤ_bounds (negsuc a) c h = ground (arith, mod-lt (suc a) h)

shift_up : (r : ℤ) (c : ℕ) → neg_part r < c → r +ℤ pos c ≡ pos (pos_part r + c - neg_part r)
unfolding ◌+ℤ◌
shift_up r c h = ground arith

shift_down :
    (m c : ℕ)
    → m < c
    → (neg_part (pos m -ℤ pos (c / 2)) ≤ c / 2) × (pos_part (pos m -ℤ pos (c / 2)) < c - c / 2)
unfolding ◌-ℤ◌
shift_down m c h = ground arith

-- The steps of `normalize`: shift up by half a cycle, into (-cycle, cycle), up by one, into
-- [0, cycle), and back down.
normalize-IsNormal : (d : ℤ) (c : ℕ) → 0 < c → IsNormal c (normalize d c)
unfolding normalize rem_ℤ
normalize-IsNormal d c h =
    let r = rem_ℤ (d +ℤ pos (c / 2)) c in
    rw (shift_up r c (rem_ℤ_bounds (d +ℤ pos (c / 2)) c h).1)
      (shift_down ((pos_part r + c - neg_part r) % c) c (mod-lt (pos_part r + c - neg_part r) h))

shifts-Congruent :
    (d r t : ℤ) (half c : ℕ)
    → Congruent c (d +ℤ pos half) r
    → Congruent c (r +ℤ pos c) t
    → Congruent c d (t -ℤ pos half)
shifts-Congruent d r t half c p q = (
  p.0 + q.0 + 1,
  p.1 + q.1,
  omega (int_laws, p.2, q.2, add-mul p.0 q.0 c, add-mul (p.0 + q.0) 1 c, add-mul p.1 q.1 c),
)

normalize-Congruent : (d : ℤ) (c : ℕ) → 0 < c → Congruent c d (normalize d c)
unfolding normalize
normalize-Congruent d c h =
    let r = rem_ℤ (d +ℤ pos (c / 2)) c in
    shifts-Congruent d r (rem_ℤ (r +ℤ pos c) c) (c / 2) c (rem_ℤ-Congruent (d +ℤ pos (c / 2)) c h)
      (rem_ℤ-Congruent (r +ℤ pos c) c h)

abbrev Result : ℕ → ℤ → ℤ → Type 0
Result cycle raw x = IsNormal cycle x × ((x ≡ pos 0) ⊎ Congruent cycle raw x)

zero-Result : (c : ℕ) (raw : ℤ) → 0 < c → Result c raw (pos 0)
zero-Result c raw h = ((omega arith, omega arith), inl refl)

normalize-Result : (c : ℕ) (raw : ℤ) → 0 < c → Result c raw (normalize raw c)
normalize-Result c raw h = (normalize-IsNormal raw c h, inr (normalize-Congruent raw c h))

follow-Result :
    (s : EthercatSync) (app : ℕ) (r : Reader) (have : Bool)
    → 0 < s.cycle_time_ns
    → Result s.cycle_time_ns r.dc_diff_ns (follow s app r have).1
unfolding follow
follow-Result s app r have h =
    if_both (λ (t : EthercatSync × ℤ). Result s.cycle_time_ns r.dc_diff_ns t.1) (skips r have)
      (zero-Result s.cycle_time_ns r.dc_diff_ns h) (normalize-Result s.cycle_time_ns r.dc_diff_ns h)

-- With a positive cycle time, what `process` returns is in [-cycle/2, cycle/2), and it is 0 or
-- differs by a whole number of cycles from the difference that this call has read.
pub process-IsNormal :
    (s : EthercatSync) (app : ℕ) (answer : Option ℕ)
    → 0 < s.cycle_time_ns
    → IsNormal s.cycle_time_ns (process s app answer).1
      × (((process s app answer).1 ≡ pos 0)
          ⊎ Congruent s.cycle_time_ns
              (read_reference s.reader app answer).0.dc_diff_ns
              (process s app answer).1)
unfolding process
process-IsNormal s app answer h =
    let read = read_reference s.reader app answer in
    if_both (λ (t : EthercatSync × ℤ). Result s.cycle_time_ns read.0.dc_diff_ns t.1) s.has_master
      (follow-Result s app read.0 read.1 h) (zero-Result s.cycle_time_ns read.0.dc_diff_ns h)
