-- ===== src/Anomaly/Slots.antt =====
-- Where the ring of window bits keeps an earlier observation, and counts over recent observations.
use robot_ethercat_master_ig.Prelude.{
  ℕ, zero, suc, ◌+◌, ◌-◌, ◌%◌, ◌≤◌, ◌<◌, ◌≡◌, refl, Bool, true, false, List, [], ◌∷◌, arith, ltb,
  if◌then◌else◌, get_or, take,
}
use native.Mathlib.Nat.{mod-eq_of_lt, mod-eq-sub-mod}
use native.Mathlib.Decide.{dec_lt}

-- The position of the observation made `i` calls ago, in a ring of `w` bits whose next write goes
-- to `c`.
abbrev pub slot : ℕ → ℕ → ℕ → ℕ
slot c w i = if ltb i c then c - 1 - i else c + w - 1 - i

abbrev pub count_true : List Bool → ℕ
count_true [] = 0
count_true (true ∷ l) = suc (count_true l)
count_true (false ∷ l) = count_true l

-- The anomalies at the head of the list, up to the first healthy observation.
abbrev pub leading_true : List Bool → ℕ
leading_true [] = 0
leading_true (true ∷ l) = suc (leading_true l)
leading_true (false ∷ l) = 0

pub next_cursor : (c w : ℕ) → c < w → (c + 1) % w ≡ (if ltb (c + 1) w then c + 1 else 0)
next_cursor c w h = elim (dec_lt (c + 1) w) [
  | yes p ↦ ground (arith, mod-eq_of_lt p)
  | no p ↦ ground (arith, mod-eq-sub-mod {n = c + 1} {m = w} (omega arith), wrapped (omega arith))
]
  where
    wrapped : c + 1 ≡ w → (c + 1 - w) % w ≡ 0
    wrapped e = grind (arith, mod-eq_of_lt {n = 0} {m = w} (omega arith))

-- Lengthening the counted prefix by one adds the observation there.
pub count_true-take :
    (n : ℕ) (l : List Bool)
    → count_true (take (suc n) l) ≡ count_true (take n l) + (if get_or l n false then 1 else 0)
count_true-take zero [] = refl
count_true-take zero (true ∷ l) = refl
count_true-take zero (false ∷ l) = refl
count_true-take (suc n) [] = refl
count_true-take (suc n) (true ∷ l) = ground (arith, count_true-take n l)
count_true-take (suc n) (false ∷ l) = count_true-take n l

-- The same at a window that is not empty: what leaves it next is its last observation.
pub count_true-take_pred :
    (w : ℕ) (l : List Bool)
    → 1 ≤ w
    → count_true (take w l)
      ≡ count_true (take (w - 1) l) + (if get_or l (w - 1) false then 1 else 0)
count_true-take_pred zero l h = absurd (omega arith)
count_true-take_pred (suc n) l h = let e : suc n - 1 ≡ n = omega arith in rw e (count_true-take n l)

-- A new observation at the head of the window.
pub count_true-take_cons :
    (w : ℕ) (a : Bool) (l : List Bool)
    → 1 ≤ w
    → count_true (take w (a ∷ l)) ≡ count_true (take (w - 1) l) + (if a then 1 else 0)
count_true-take_cons zero a l h = absurd (omega arith)
count_true-take_cons (suc n) true l h = let e : suc n - 1 ≡ n = omega arith in rw e (omega arith)
count_true-take_cons (suc n) false l h = let e : suc n - 1 ≡ n = omega arith in rw e (omega arith)

pub count_true-take_le : (n : ℕ) (l : List Bool) → count_true (take n l) ≤ n
count_true-take_le zero l = omega arith
count_true-take_le (suc n) [] = omega arith
count_true-take_le (suc n) (true ∷ l) = omega (arith, count_true-take_le n l)
count_true-take_le (suc n) (false ∷ l) = omega (arith, count_true-take_le n l)
