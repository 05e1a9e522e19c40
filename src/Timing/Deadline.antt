-- ===== src/Timing/Deadline.antt =====
-- The next deadline: on the grid of the period, in the future, and never far ahead.
use robot_ethercat_master_ig.Prelude.{
  ℕ, zero, suc, ◌+◌, ◌-◌, ◌*◌, ◌/◌, ◌≤◌, ◌<◌, ◌≡◌, ◌∙◌, arith, ltb, dec_lt, max, if◌then◌else◌,
}
use robot_ethercat_master_ig.Prelude.Word.{u64_max}
use robot_ethercat_master_ig.Timing.{
  max_catch_up_slots, catch_up, next_cycle_deadline, skipped_slots_between,
}
use native.Mathlib.Nat.{le-div_iff_mul-le, div-eq_of_lt-le}

floor : (a p : ℕ) → 0 < p → (a / p * p ≤ a) × (a < a / p * p + p)
floor a p h = grind arith

room :
    (q next now p : ℕ)
    → 0 < p
    → next ≤ now
    → now + p ≤ u64_max
    → q * p ≤ now - next
    → q + 1 ≤ (u64_max - next) / p
room q next now p pos behind fits h =
    (le-div_iff_mul-le {x = q + 1} {y = u64_max - next} pos).1 (omega arith)

-- The value of `catch_up` when no more than sixteen slots were missed.
catch_up-few :
    (next now p : ℕ)
    → 0 < p
    → next ≤ now
    → now + p ≤ u64_max
    → (now - next) / p + 1 ≤ max_catch_up_slots
    → catch_up next now p ≡ next + ((now - next) / p + 1) * p
unfolding catch_up
catch_up-few next now p pos behind fits few =
    ground (arith, room ((now - next) / p) next now p pos behind fits (floor (now - next) p pos).0)

catch_up-many :
    (next now p : ℕ)
    → now + p ≤ u64_max
    → max_catch_up_slots < (now - next) / p + 1
    → catch_up next now p ≡ now + p
unfolding catch_up
catch_up-many next now p fits many = ground arith

-- How many periods the deadline lies after the last one, when the cycle is not rebased.
abbrev pub slots_ahead : ℕ → ℕ → ℕ → ℕ
slots_ahead s n p = if ltb n (s + p) then 1 else (n - (s + p)) / p + 2

ahead_bounds :
    (s n p : ℕ)
    → 0 < p
    → s + p ≤ n
    → (n < s + ((n - (s + p)) / p + 2) * p) × (s + ((n - (s + p)) / p + 2) * p ≤ n + p)
ahead_bounds s n p pos h = omega (arith, floor (n - (s + p)) p pos)

div-mul : (k p : ℕ) → 0 < p → k * p / p ≡ k
div-mul k p pos = div-eq_of_lt-le p {m = k * p} (omega arith) (omega arith)

skipped-mul : (s k p : ℕ) → 0 < p → 1 ≤ k → skipped_slots_between s (s + k * p) p ≡ k - 1
unfolding skipped_slots_between
skipped-mul s (suc zero) p pos h = ground arith
skipped-mul s (suc (suc k)) p pos h =
    ground (arith, div-mul (suc (suc k)) p pos, cancel s (suc (suc k) * p), twice k p pos)
  where
    twice : (k p : ℕ) → 0 < p → p < suc (suc k) * p
    twice k p pos = grind arith

    cancel : (s m : ℕ) → s + m - s ≡ m
    cancel s m = omega arith
skipped-mul s zero p pos h = absurd (omega arith)

module _ (s n p : ℕ) (pos : 0 < p) (fits : s + p ≤ u64_max) (now_fits : n + p ≤ u64_max) where
  on_time : n < s + p → next_cycle_deadline s n p ≡ s + p
  unfolding next_cycle_deadline
  on_time h = ground arith

  late : s + p ≤ n → next_cycle_deadline s n p ≡ catch_up (s + p) n p
  unfolding next_cycle_deadline
  late h = ground arith

  late_few :
      s + p ≤ n
      → (n - (s + p)) / p + 1 ≤ max_catch_up_slots
      → next_cycle_deadline s n p ≡ s + ((n - (s + p)) / p + 2) * p
  late_few h few = late h ∙ catch_up-few (s + p) n p pos h now_fits few ∙ omega arith

  late_many :
      s + p ≤ n → max_catch_up_slots < (n - (s + p)) / p + 1 → next_cycle_deadline s n p ≡ n + p
  late_many h many = late h ∙ catch_up-many (s + p) n p now_fits many

  -- For a positive period, and times that leave room for one more period in uint64_t, the next
  -- deadline lies in the future, at least one period after the last one, and not more than one period
  -- after the later of the last deadline and now: missed slots are skipped, not run in a burst.
  pub next_cycle_deadline_bounds :
      (n < next_cycle_deadline s n p)
      × (s + p ≤ next_cycle_deadline s n p)
      × (next_cycle_deadline s n p ≤ max s n + p)
  next_cycle_deadline_bounds = elim (dec_lt n (s + p)) [
    | yes h ↦ rw (on_time h) (omega arith)
    | no h ↦ elim (dec_lt max_catch_up_slots ((n - (s + p)) / p + 1)) [
      | yes many ↦ rw (late_many (omega arith) many) (omega arith)
      | no few ↦
          rw (late_few (omega arith) (omega arith))
            (omega (arith, ahead_bounds s n p pos (omega arith)))
    ]
  ]

  on_grid : n < s + 17 * p → next_cycle_deadline s n p ≡ s + slots_ahead s n p * p
  on_grid near = elim (dec_lt n (s + p)) [
    | yes h ↦ on_time h ∙ ground arith
    | no h ↦ late_few (omega arith) (sixteen (omega arith)) ∙ ground arith
  ]
    where
      sixteen : s + p ≤ n → (n - (s + p)) / p + 1 ≤ max_catch_up_slots
      sixteen h = grind (arith, floor (n - (s + p)) p pos)

  -- For a positive period, times that leave room for one more period in uint64_t, and a delay of less
  -- than 17 periods, the next deadline is the first one after now on the grid of the period through the
  -- last one, and the slots reported as skipped are the grid points between the two.
  pub next_cycle_deadline_grid :
      n < s + 17 * p
      → (next_cycle_deadline s n p ≡ s + slots_ahead s n p * p)
        × (next_cycle_deadline s n p ≤ max (s + p) (n + p))
        × (skipped_slots_between s (next_cycle_deadline s n p) p ≡ slots_ahead s n p - 1)
  next_cycle_deadline_grid near = (
    on_grid near,
    omega (arith, next_cycle_deadline_bounds),
    rw (on_grid near) (skipped-mul s (slots_ahead s n p) p pos (ground arith)),
  )

  -- For a positive period, times that leave room for one more period in uint64_t, and a delay of 17
  -- periods or more, the grid is given up: the next deadline is one period from now.
  pub next_cycle_deadline_rebase : s + 17 * p ≤ n → next_cycle_deadline s n p ≡ n + p
  next_cycle_deadline_rebase far =
      late_many (omega arith) (grind (arith, floor (n - (s + p)) p pos))
