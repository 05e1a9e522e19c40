-- ===== src/RefClock/Tracking.antt =====
-- The 64-bit time against the reference clock's own, in src/master/igh/ethercat_servo.cpp.
use robot_ethercat_master_ig.Prelude.{
  ℕ, ◌+◌, ◌-◌, ◌%◌, ◌^◌, ◌≤◌, ◌<◌, ◌≡◌, ◌⊎◌, refl, sym, subst, Bool, true, false, not, Option, none,
  some, List, [], ◌∷◌, arith, if◌then◌else◌,
}
use robot_ethercat_master_ig.RefClock.{
  RefClock, align_dc_time_base, align_first, extend, judge_stable, read_failed, ask, asks,
  full_time, get_reference_clock_time,
}

-- Both halves fit their types.
pub record Fits (c : RefClock) : Type 0 where
  pub high : c.dc_high_bits < 2 ^ 32
  pub low : c.last_time_low < 2 ^ 32

-- The 64-bit time that stands for a moment `t` of the clock, where `c` stood for moment `last`.
abbrev pub moved : RefClock → ℕ → ℕ → ℕ
moved c last t = (full_time c + (t - last)) % 2 ^ 64

extend-moved :
    (c : RefClock) (last t : ℕ)
    → Fits c
    → c.last_time_low ≡ last % 2 ^ 32
    → last ≤ t
    → t < last + 2 ^ 32
    → full_time (extend (t % 2 ^ 32) c) ≡ moved c last t
unfolding extend
extend-moved c last t v same after near = ground (arith, v.high, v.low)

-- `c` is aligned and stands for moment `last`, when moment `origin` is given as `base`.
pub record StandsFor (base origin last : ℕ) (c : RefClock) : Type 0 where
  pub fits : Fits c
  pub aligned : c.dc_high_bits_aligned ≡ true
  pub same_low : c.last_time_low ≡ last % 2 ^ 32
  pub since : origin ≤ last
  pub given : full_time c ≡ (base + (last - origin)) % 2 ^ 64

extend-StandsFor :
    (base origin last t : ℕ) (c : RefClock)
    → StandsFor base origin last c
    → last ≤ t
    → t < last + 2 ^ 32
    → StandsFor base origin t (extend (t % 2 ^ 32) c)
unfolding extend
extend-StandsFor base origin last t c v after near = record {
  fits = record { high = ground (arith, v.fits.high); low = omega arith };
  aligned = v.aligned;
  same_low = refl;
  since = omega (arith, v.since);
  given =
      let e = extend-moved c last t v.fits v.same_low after near in
      omega (arith, e, v.since, v.given);
}

-- What a call gives for an answer `t` of the clock: nothing, or the moment that `t` stands for.
abbrev pub Gives : ℕ → ℕ → ℕ → ℕ → Type 0
Gives base origin t r = (r ≡ 0) ⊎ (r ≡ (base + (t - origin)) % 2 ^ 64)

-- The library gives the lower half.
abbrev pub low_half : Option ℕ → Option ℕ
low_half none = none
low_half (some t) = some (t % 2 ^ 32)

-- What the counters are does not matter here.
recount :
    (base origin last : ℕ) (c c' : RefClock)
    → c'.dc_high_bits ≡ c.dc_high_bits
    → c'.last_time_low ≡ c.last_time_low
    → c'.dc_high_bits_aligned ≡ c.dc_high_bits_aligned
    → StandsFor base origin last c
    → StandsFor base origin last c'
recount base origin last c c' h l a v = record {
  fits = record { high = omega (arith, h, v.fits.high); low = omega (arith, l, v.fits.low) };
  aligned = ground (arith, a, v.aligned);
  same_low = omega (arith, l, v.same_low);
  since = v.since;
  given = omega (arith, h, l, v.given);
}

-- A call's state and result where the clock stood for `last` and the answer was `answer`.
abbrev After : ℕ → ℕ → ℕ → Option ℕ → RefClock × ℕ → Type 0
After base origin last none u = StandsFor base origin last u.0 × (u.1 ≡ 0)
After base origin last (some t) u =
    StandsFor base origin t u.0 × (u.1 ≡ (base + (t - origin)) % 2 ^ 64)

align_first-aligned :
    (sys_now low : ℕ) (c : RefClock) → c.dc_high_bits_aligned ≡ true → align_first sys_now low c ≡ c
unfolding align_first
align_first-aligned sys_now low c h = ground (arith, h)

answered-After :
    (base origin last t : ℕ) (c : RefClock)
    → StandsFor base origin t (extend (t % 2 ^ 32) c)
    → After base origin last
        (some t)
        (judge_stable (extend (t % 2 ^ 32) c), full_time (extend (t % 2 ^ 32) c))
unfolding judge_stable
answered-After base origin last t c v =
    let e = extend (t % 2 ^ 32) c in
    (recount base origin t e (judge_stable e) refl refl refl v, v.given)

ask-After :
    (base origin last sys_now : ℕ) (answer : Option ℕ) (c : RefClock)
    → StandsFor base origin last c
    → ((t : ℕ) → answer ≡ some t → (last ≤ t) × (t < last + 2 ^ 32))
    → After base origin last answer (ask sys_now (low_half answer) c)
unfolding ask read_failed
ask-After base origin last sys_now none c v near =
    (recount base origin last c (read_failed c) refl refl refl v, refl)
ask-After base origin last sys_now (some t) c v near =
    let n = near t refl in
    let low = t % 2 ^ 32 in
    subst
      (λ d. After base origin last (some t) (judge_stable (extend low d), full_time (extend low d)))
      (sym (align_first-aligned sys_now low c v.aligned))
      (answered-After base origin last t c (extend-StandsFor base origin last t c v n.0 n.1))

-- The clock of a call's own answer, where it asks.
abbrev pub moment : Bool → ℕ → Option ℕ → ℕ
moment true last (some t) = t
moment _ last _ = last

-- Where a call asks, its answer is at most one round of the lower half after the last one.
abbrev pub IsNear : Bool → ℕ → Option ℕ → Type 0
IsNear true last (some t) = (last ≤ t) × (t < last + 2 ^ 32)
IsNear _ last _ = Unit

-- What a call tells: the moment of the answer where it asks and is answered, and else nothing.
abbrev pub Tells : ℕ → ℕ → Bool → Option ℕ → ℕ → Type 0
Tells base origin true (some t) r = r ≡ (base + (t - origin)) % 2 ^ 64
Tells base origin _ _ r = r ≡ 0

abbrev Outcome : ℕ → ℕ → ℕ → Bool → Option ℕ → RefClock × ℕ → Type 0
Outcome base origin last asked answer u =
    StandsFor base origin (moment asked last answer) u.0 × Tells base origin asked answer u.1

choose :
    (base origin last : ℕ) (asked : Bool) (answer : Option ℕ) (x y : RefClock × ℕ)
    → (asked ≡ false → StandsFor base origin last x.0 × (x.1 ≡ 0))
    → (asked ≡ true → After base origin last answer y)
    → Outcome base origin last asked answer (if not asked then x else y)
choose base origin last true none x y p q = q refl
choose base origin last true (some t) x y p q = q refl
choose base origin last false none x y p q = p refl
choose base origin last false (some t) x y p q = p refl

near_answer :
    (asked : Bool) (last : ℕ) (answer : Option ℕ) (t : ℕ)
    → IsNear asked last answer
    → asked ≡ true
    → answer ≡ some t
    → (last ≤ t) × (t < last + 2 ^ 32)
near_answer true last none t n h e = cc
near_answer true last (some u) t n h e = ground (arith, n, e)
near_answer false last answer t n h e = cc

call-Outcome :
    (base origin last sys_now : ℕ) (answer : Option ℕ) (c : RefClock)
    → StandsFor base origin last c
    → IsNear (asks c) last answer
    → Outcome base origin last
        (asks c)
        answer
        (get_reference_clock_time true sys_now (low_half answer) c)
unfolding get_reference_clock_time
call-Outcome base origin last sys_now answer c v near =
    let waiting = record c { retry_counter = c.retry_counter + 1 } in
    let asking = record c { retry_counter = if c.dc_available then c.retry_counter else 0 } in
    choose base origin last (asks c) answer (waiting, 0) (ask sys_now (low_half answer) asking)
      (λ _. (recount base origin last c waiting refl refl refl v, refl))
      (λ h.
        ask-After base origin last sys_now answer asking
          (recount base origin last c asking refl refl refl v)
          (λ t e. near_answer (asks c) last answer t near h e))

-- A run of calls of an active servo: the system's time and the clock's answer, of 64 bits, at each.
unfoldable pub run_clock : RefClock → List (ℕ × Option ℕ) → RefClock × List ℕ
run_clock c [] = (c, [])
run_clock c ((sys_now, answer) ∷ rest) =
    let (c', told) = get_reference_clock_time true sys_now (low_half answer) c in
    let (end, later) = run_clock c' rest in (end, told ∷ later)

-- Each answer that is asked for is near the one before.
abbrev pub AllNear : RefClock → ℕ → List (ℕ × Option ℕ) → Type 0
AllNear c last [] = Unit
AllNear c last ((sys_now, answer) ∷ rest) =
    IsNear (asks c) last answer
    × AllNear (get_reference_clock_time true sys_now (low_half answer) c).0
        (moment (asks c) last answer) rest

-- Each result tells the moment of its answer, or nothing.
abbrev pub AllTell : ℕ → ℕ → RefClock → List (ℕ × Option ℕ) → List ℕ → Type 0
AllTell base origin c [] rs = rs ≡ []
AllTell base origin c (_ ∷ _) [] = ⊥
AllTell base origin c ((sys_now, answer) ∷ rest) (r ∷ rs) =
    Tells base origin (asks c) answer r
    × AllTell base origin (get_reference_clock_time true sys_now (low_half answer) c).0 rest rs

-- The 64-bit time runs with the reference clock: from a state that is aligned and stands for a moment
-- of the clock, and while each answer that is asked for comes less than 2^32 ns after the one before,
-- every call that asks and is answered gives exactly the base that `origin` was given as, advanced by
-- what the clock has advanced since (modulo 2^64), however often the lower half has come round and
-- whatever calls failed or did not ask between; all other calls give 0.
pub run_clock-AllTell :
    (base origin last : ℕ) (c : RefClock) (calls : List (ℕ × Option ℕ))
    → StandsFor base origin last c
    → AllNear c last calls
    → AllTell base origin c calls (run_clock c calls).1
unfolding run_clock
run_clock-AllTell base origin last c [] v near = refl
run_clock-AllTell base origin last c ((sys_now, answer) ∷ rest) v near =
    let o = call-Outcome base origin last sys_now answer c v near.0 in
    (
      o.1,
      run_clock-AllTell base origin (moment (asks c) last answer)
          (get_reference_clock_time true sys_now (low_half answer) c).0 rest o.0 near.1,
    )

-- What `alignDcTimeBase` is given is a moment that its state stands for.
pub align_dc_time_base-StandsFor :
    (t : ℕ) (c : RefClock) → t < 2 ^ 64 → StandsFor t t t (align_dc_time_base t c)
unfolding align_dc_time_base
align_dc_time_base-StandsFor t c h = record {
  fits = record { high = omega arith; low = omega arith };
  aligned = refl;
  same_low = refl;
  since = omega arith;
  given = omega arith;
}

-- Where the clock moves on by 2^32 ns or more between two answers, whole rounds of its lower half are
-- lost: what is given lies behind by at least 2^32.
pub extend_loses :
    (c : RefClock) (last t : ℕ)
    → Fits c
    → c.last_time_low ≡ last % 2 ^ 32
    → last + 2 ^ 32 ≤ t
    → full_time c + (t - last) < 2 ^ 64
    → full_time (extend (t % 2 ^ 32) c) + 2 ^ 32 ≤ full_time c + (t - last)
unfolding extend
extend_loses c last t v same far fits = ground (arith, v.high, v.low)
