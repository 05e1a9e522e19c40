-- ===== src/Anomaly/Window.antt =====
-- The tracker's counters and its ring of bits, against the list of all that it has observed.
use robot_ethercat_master_ig.Prelude.{
  ℕ, zero, suc, ◌+◌, ◌-◌, ◌%◌, ◌≤◌, ◌<◌, ◌≡◌, ◌≢◌, refl, sym, ap, ◌∙◌, Bool, true, false, ◌||◌,
  List, [], ◌∷◌, arith, ltb, leb, if◌then◌else◌, get_or, take, min,
}
use robot_ethercat_master_ig.Prelude.Bits.{
  test_bit, test_bit-zero, test_bit-set_bit, test_bit-clear_bit, test_bit-set_bit_ne,
  test_bit-clear_bit_ne,
}
use robot_ethercat_master_ig.Prelude.Word.{u32_max, u64_max, saturating_inc-min}
use robot_ethercat_master_ig.Anomaly.{
  AnomalyPolicy, AnomalyTracker, sanitize, make_tracker, stats, observe, reset, observe_all, evict,
}
use robot_ethercat_master_ig.Anomaly.Slots.{
  slot, count_true, leading_true, next_cursor, count_true-take_pred, count_true-take_cons,
  count_true-take_le,
}

pub record IsSane (p : AnomalyPolicy) : Type 0 where
  pub stops : 1 ≤ p.consecutive_stop
  pub nonempty : 1 ≤ p.window_size
  pub fits : p.window_size ≤ 64
  pub counts : 1 ≤ p.window_stop
  pub reachable : p.window_stop ≤ p.window_size

-- Whatever is configured, the policy in force has a window of 1 to 64 cycles and positive
-- thresholds, and its window threshold can be reached.
pub sanitize-IsSane : (p : AnomalyPolicy) → IsSane (sanitize p)
unfolding sanitize
sanitize-IsSane p = ground arith

consecutive_stop-sanitize :
    (p : AnomalyPolicy) → p.consecutive_stop ≤ u32_max → (sanitize p).consecutive_stop ≤ u32_max
unfolding sanitize
consecutive_stop-sanitize p h = ground arith

-- What the tracker's fields say of the observations made since the last reset, newest first.
pub record IsTracking (t : AnomalyTracker) (hs : List Bool) : Type 0 where
  pub sane : IsSane t.policy
  pub inside : t.cursor < t.policy.window_size
  pub total : t.total ≡ min (count_true hs) u64_max
  pub consecutive : t.consecutive ≡ min (leading_true hs) u32_max
  pub window : t.window_count ≡ count_true (take t.policy.window_size hs)
  pub bits :
      (i : ℕ)
      → i < t.policy.window_size
      → test_bit t.window_bits (slot t.cursor t.policy.window_size i) ≡ get_or hs i false

get_or-nil : (i : ℕ) → get_or [] i false ≡ false
get_or-nil i = refl

take-nil : (n : ℕ) → count_true (take n []) ≡ 0
take-nil zero = refl
take-nil (suc n) = refl

pub reset-IsTracking : (t : AnomalyTracker) → IsSane t.policy → IsTracking (reset t) []
unfolding reset
reset-IsTracking t s = record {
  sane = s;
  inside = omega (arith, s);
  total = refl;
  consecutive = refl;
  window = ground (arith, take-nil t.policy.window_size);
  bits = λ i h. test_bit-zero (slot 0 t.policy.window_size i);
}

pub make_tracker-IsTracking : (p : AnomalyPolicy) → IsTracking (make_tracker p) []
unfolding make_tracker reset
make_tracker-IsTracking p = reset-IsTracking (make_tracker p) (sanitize-IsSane p)

-- The cursor stands on the oldest observation of the window.
slot-last : (c w : ℕ) → c < w → slot c w (w - 1) ≡ c
slot-last c w h = ground arith

slot-next :
    (c w i : ℕ)
    → c < w
    → suc i < w
    → (slot (if ltb (c + 1) w then c + 1 else 0) w (suc i) ≡ slot c w i) × (c ≢ slot c w i)
slot-next c w i h k = ground arith

slot-newest : (c w : ℕ) → c < w → slot (if ltb (c + 1) w then c + 1 else 0) w 0 ≡ c
slot-newest c w h = ground arith

-- The ring of bits after one more write.
ring-write :
    (w c x x' : ℕ) (a : Bool) (hs : List Bool)
    → c < w
    → test_bit x' c ≡ a
    → ((j : ℕ) → c ≢ j → test_bit x' j ≡ test_bit x j)
    → ((i : ℕ) → i < w → test_bit x (slot c w i) ≡ get_or hs i false)
    → (i : ℕ) → i < w
    → test_bit x' (slot (if ltb (c + 1) w then c + 1 else 0) w i) ≡ get_or (a ∷ hs) i false
ring-write w c x x' a hs h new other old zero k = ap (test_bit x') (slot-newest c w h) ∙ new
ring-write w c x x' a hs h new other old (suc i) k =
    let (same, apart) = slot-next c w i h k in
    ap (test_bit x') same ∙ other (slot c w i) apart ∙ old i (omega arith)

-- The observation that leaves the window is the bit under the cursor.
oldest :
    {t : AnomalyTracker} {hs : List Bool}
    → IsTracking t hs
    → test_bit t.window_bits t.cursor ≡ get_or hs (t.policy.window_size - 1) false
oldest {t} v =
    ap (test_bit t.window_bits) (sym (slot-last t.cursor t.policy.window_size v.inside))
    ∙ v.bits (t.policy.window_size - 1) (omega (arith, v.sane, v.inside))

evict-count :
    {t : AnomalyTracker} {hs : List Bool}
    → IsTracking t hs
    → evict t ≡ count_true (take (t.policy.window_size - 1) hs)
evict-count {t} {hs} v =
    ground (arith, oldest v, v.window, count_true-take_pred t.policy.window_size hs v.sane.nonempty)

observe-counts :
    {t : AnomalyTracker} {hs : List Bool} (a : Bool)
    → IsTracking t hs
    → ((observe t a).0.total ≡ min (count_true (a ∷ hs)) u64_max)
      × ((observe t a).0.consecutive ≡ min (leading_true (a ∷ hs)) u32_max)
unfolding observe
observe-counts {t} {hs} true v = ground (
  arith,
  v.total,
  v.consecutive,
  saturating_inc-min u64_max (count_true hs),
  saturating_inc-min u32_max (leading_true hs),
)
observe-counts {t} {hs} false v = ground (arith, v.total, v.consecutive)

observe-window :
    {t : AnomalyTracker} {hs : List Bool} (a : Bool)
    → IsTracking t hs
    → (observe t a).0.window_count ≡ count_true (take t.policy.window_size (a ∷ hs))
unfolding observe
observe-window {t} {hs} a v = ground (
  arith,
  evict-count v,
  v.sane,
  count_true-take_le (t.policy.window_size - 1) hs,
  count_true-take_cons t.policy.window_size a hs v.sane.nonempty,
)

observe-cursor :
    {t : AnomalyTracker} {hs : List Bool} (a : Bool)
    → IsTracking t hs
    → (observe t a).0.cursor ≡ (if ltb (t.cursor + 1) t.policy.window_size then t.cursor + 1 else 0)
unfolding observe
observe-cursor {t} a v =
    ap (λ n. n % t.policy.window_size) (omega (arith, v.inside, v.sane))
    ∙ next_cursor t.cursor t.policy.window_size v.inside

observe-bits :
    {t : AnomalyTracker} {hs : List Bool} (a : Bool)
    → IsTracking t hs
    → (test_bit (observe t a).0.window_bits t.cursor ≡ a)
      × ((j : ℕ) → t.cursor ≢ j → test_bit (observe t a).0.window_bits j ≡ test_bit t.window_bits j)
unfolding observe
observe-bits {t} true v =
    (test_bit-set_bit t.window_bits t.cursor, test_bit-set_bit_ne t.window_bits t.cursor)
observe-bits {t} false v =
    (test_bit-clear_bit t.window_bits t.cursor, test_bit-clear_bit_ne t.window_bits t.cursor)

pub policy-observe : (t : AnomalyTracker) (a : Bool) → (observe t a).0.policy ≡ t.policy
unfolding observe
policy-observe t a = refl

-- An observation that asks for no stop leaves the run of anomalies below its threshold.
pub consecutive-observe :
    (t : AnomalyTracker) (a : Bool)
    → (observe t a).1.stop_required ≡ false
    → (observe t a).0.consecutive < t.policy.consecutive_stop
unfolding observe
consecutive-observe t a h = ground arith

-- One more observation keeps the correspondence.
pub observe-IsTracking :
    {t : AnomalyTracker} {hs : List Bool} (a : Bool)
    → IsTracking t hs
    → IsTracking (observe t a).0 (a ∷ hs)
observe-IsTracking {t} {hs} a v = record {
  sane = rw (policy-observe t a) v.sane;
  inside = rw (policy-observe t a, observe-cursor a v) (ground (arith, v.inside, v.sane));
  total = (observe-counts a v).0;
  consecutive = (observe-counts a v).1;
  window = rw (policy-observe t a) (observe-window a v);
  bits =
      rw (policy-observe t a, observe-cursor a v)
        (ring-write t.policy.window_size t.cursor t.window_bits (observe t a).0.window_bits a hs
          v.inside (observe-bits a v).0 (observe-bits a v).1 v.bits);
}

policy-observe_all : (t : AnomalyTracker) (hs : List Bool) → (observe_all t hs).policy ≡ t.policy
unfolding observe_all
policy-observe_all t [] = refl
policy-observe_all t (a ∷ hs) = policy-observe (observe_all t hs) a ∙ policy-observe_all t hs

-- Having observed `hs`, newest first, since it was made, the tracker holds a total of the
-- anomalies in `hs` and the length of the run of anomalies at its head, each up to the largest value
-- of its counter, and counts in its window the anomalies among the last `window_size` observations.
pub observe_all-IsTracking :
    (p : AnomalyPolicy) (hs : List Bool) → IsTracking (observe_all (make_tracker p) hs) hs
unfolding observe_all
observe_all-IsTracking p [] = make_tracker-IsTracking p
observe_all-IsTracking p (a ∷ hs) = observe-IsTracking a (observe_all-IsTracking p hs)

policy-make_tracker : (p : AnomalyPolicy) → (make_tracker p).policy ≡ sanitize p
unfolding make_tracker
policy-make_tracker p = refl

-- For a consecutive threshold that fits its counter, the tracker asks to stop after `hs`, newest
-- first, exactly when the run of anomalies at the head of `hs` reaches that threshold or the
-- anomalies among the last `window_size` observations reach the window threshold, with the
-- sanitised policy.
pub stop_required_lem :
    (p : AnomalyPolicy) (hs : List Bool)
    → p.consecutive_stop ≤ u32_max
    → (stats (observe_all (make_tracker p) hs)).stop_required ≡ (
        leb (sanitize p).consecutive_stop (leading_true hs)
        || leb (sanitize p).window_stop (count_true (take (sanitize p).window_size hs)))
unfolding stats
stop_required_lem p hs small = ground (
  arith,
  observe_all-IsTracking p hs,
  policy-observe_all (make_tracker p) hs,
  policy-make_tracker p,
  consecutive_stop-sanitize p small,
)
