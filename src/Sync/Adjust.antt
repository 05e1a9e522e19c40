-- ===== src/Sync/Adjust.antt =====
-- How far the time base moves, and what `process` returns.
use robot_ethercat_master_ig.Prelude.{
  ℕ, ◌+◌, ◌*◌, ◌/◌, ◌≡◌, refl, subst, Bool, true, false, if_both, not, ◌||◌, Option, none, List, [],
  ◌∷◌, arith, ltb, length, if◌then◌else◌,
}
use robot_ethercat_master_ig.Prelude.Int.{ℤ, pos, negsuc, ◌+ℤ◌, ◌-ℤ◌, quot_ℤ, sign, IsWithin}
use robot_ethercat_master_ig.Sync.{
  Pll, Reader, EthercatSync, follow, adjust_limit_ns, dc_filter_cnt, clamp_adjust, smooth_adjust,
  filter, update, normalize, read_reference, read_due, process, process_all,
  ref_clock_required_successes,
}

clamp_adjust-IsWithin : (a : ℤ) → IsWithin adjust_limit_ns (clamp_adjust a)
clamp_adjust-IsWithin (pos n) = ground arith
clamp_adjust-IsWithin (negsuc n) = ground arith

halve-IsWithin :
    (a b : ℤ)
    → IsWithin adjust_limit_ns a
    → IsWithin adjust_limit_ns b
    → IsWithin adjust_limit_ns (quot_ℤ (a +ℤ b) 2)
unfolding quot_ℤ ◌+ℤ◌
halve-IsWithin a b h k = ground arith

smooth_adjust-IsWithin :
    (a delta diff : ℤ)
    → IsWithin adjust_limit_ns a
    → IsWithin adjust_limit_ns (smooth_adjust a delta diff)
unfolding smooth_adjust
smooth_adjust-IsWithin a delta diff h =
    let target =
      quot_ℤ (delta +ℤ pos (dc_filter_cnt / 2)) dc_filter_cnt +ℤ sign (quot_ℤ diff dc_filter_cnt) in
    halve-IsWithin a (clamp_adjust target) h (clamp_adjust-IsWithin target)

filter-IsWithin :
    (p : Pll) (delta diff : ℤ)
    → IsWithin adjust_limit_ns p.dc_adjust_ns
    → IsWithin adjust_limit_ns (filter p delta diff).dc_adjust_ns
unfolding filter
filter-IsWithin p delta diff h = ground (
  arith,
  smooth_adjust-IsWithin p.dc_adjust_ns (p.dc_delta_total_ns +ℤ delta) (p.dc_diff_total_ns +ℤ diff)
      h,
)

filter_keeps :
    (p : Pll) (delta diff : ℤ)
    → ((filter p delta diff).sys_time_base ≡ p.sys_time_base)
      × ((filter p delta diff).dc_started ≡ p.dc_started)
unfolding filter
filter_keeps p delta diff = ground arith

-- No adjustment is past the limit, and the base is within the limit times `n` of 0.
pub record IsPaced (n : ℕ) (p : Pll) : Type 0 where
  pub adjust : IsWithin adjust_limit_ns p.dc_adjust_ns
  pub base : IsWithin (adjust_limit_ns * n) p.sys_time_base

move-IsWithin :
    (n : ℕ) (a b : ℤ)
    → IsWithin adjust_limit_ns a
    → IsWithin (adjust_limit_ns * n) b
    → IsWithin (adjust_limit_ns * (n + 1)) (b +ℤ a)
unfolding ◌+ℤ◌
move-IsWithin n a b h k = ground arith

-- The filter on the state that `update` hands it.
abbrev filtered : Pll → ℤ → ℤ → Pll
filtered p raw diff = filter (record p { prev_dc_diff_ns = raw }) (raw -ℤ p.prev_dc_diff_ns) diff

filtered-IsWithin :
    (p : Pll) (raw diff : ℤ)
    → IsWithin adjust_limit_ns p.dc_adjust_ns
    → IsWithin adjust_limit_ns (filtered p raw diff).dc_adjust_ns
filtered-IsWithin p raw diff h =
    filter-IsWithin (record p { prev_dc_diff_ns = raw }) (raw -ℤ p.prev_dc_diff_ns) diff h

-- A running loop adds the adjustment to the base; one that starts sets the base to 0.
pub update_moves :
    (p : Pll) (raw diff : ℤ)
    → (update p raw diff).sys_time_base
      ≡ (if p.dc_started then p.sys_time_base +ℤ (update p raw diff).dc_adjust_ns else pos 0)
unfolding update
update_moves p raw diff =
    ground
      (arith, filter_keeps (record p { prev_dc_diff_ns = raw }) (raw -ℤ p.prev_dc_diff_ns) diff)

update-IsWithin :
    (p : Pll) (raw diff : ℤ)
    → IsWithin adjust_limit_ns p.dc_adjust_ns
    → IsWithin adjust_limit_ns (update p raw diff).dc_adjust_ns
unfolding update
update-IsWithin p raw diff h = ground (arith, filtered-IsWithin p raw diff h)

update-IsPaced :
    (n : ℕ) (p : Pll) (raw diff : ℤ) → IsPaced n p → IsPaced (n + 1) (update p raw diff)
update-IsPaced n p raw diff v = record {
  adjust = update-IsWithin p raw diff v.adjust;
  base = ground (
    arith,
    update_moves p raw diff,
    move-IsWithin n (update p raw diff).dc_adjust_ns p.sys_time_base
        (update-IsWithin p raw diff v.adjust) v.base,
  );
}

IsPaced-suc : (n : ℕ) (p : Pll) → IsPaced n p → IsPaced (n + 1) p
IsPaced-suc n p v = record { adjust = v.adjust; base = omega (arith, v.base) }

-- Whether this cycle's reading reaches the loop.
abbrev pub skips : Reader → Bool → Bool
skips r have_reference_time =
    not have_reference_time || ltb r.consecutive_ref_successes ref_clock_required_successes

follow-IsPaced :
    (n : ℕ) (s : EthercatSync) (app : ℕ) (r : Reader) (have : Bool)
    → IsPaced n s.pll
    → IsPaced (n + 1) (follow s app r have).0.pll
unfolding follow
follow-IsPaced n s app r have v =
    if_both (λ (t : EthercatSync × ℤ). IsPaced (n + 1) t.0.pll) (skips r have)
      (IsPaced-suc n s.pll v)
      (update-IsPaced n s.pll r.dc_diff_ns (normalize r.dc_diff_ns s.cycle_time_ns) v)

process-IsPaced :
    (n : ℕ) (s : EthercatSync) (app : ℕ) (answer : Option ℕ)
    → IsPaced n s.pll
    → IsPaced (n + 1) (process s app answer).0.pll
unfolding process
process-IsPaced n s app answer v =
    let read = read_reference s.reader app answer in
    if_both (λ (t : EthercatSync × ℤ). IsPaced (n + 1) t.0.pll) s.has_master
      (follow-IsPaced n s app read.0 read.1 v) (IsPaced-suc n s.pll v)

-- Whatever the calls' times and readings are: from an adjustment of at most 1000 ns either way and a
-- base within `n` times that, no call of a run makes a larger adjustment, and after `k` calls the
-- base is within (n + k) times 1000 ns of 0, so that 64 bits hold it for any run of fewer than 2^53 calls.
pub process_all-IsPaced :
    (n : ℕ) (s : EthercatSync) (calls : List (ℕ × Option ℕ))
    → IsPaced n s.pll
    → IsPaced (n + length calls) (process_all s calls).pll
unfolding process_all
process_all-IsPaced n s [] v = subst (λ k. IsPaced k s.pll) (omega arith) v
process_all-IsPaced n s (c ∷ cs) v =
    subst (λ k. IsPaced k (process_all (process s c.0 c.1).0 cs).pll) (omega arith)
      (process_all-IsPaced (n + 1) (process s c.0 c.1).0 cs (process-IsPaced n s c.0 c.1 v))

-- Without an answer of the reference clock.
pub read_reference-none : (r : Reader) (app : ℕ) → (read_reference r app none).1 ≡ false
unfolding read_reference read_due
read_reference-none r app = ground arith

follow_still :
    (s : EthercatSync) (app : ℕ) (r : Reader) (have : Bool)
    → have ≡ false
    → ((follow s app r have).0.pll ≡ s.pll) × ((follow s app r have).1 ≡ pos 0)
unfolding follow
follow_still s app r true h = ground (arith, h)
follow_still s app r false h = (refl, refl)

-- A cycle whose read fails or is put off neither moves the time base nor counts in the filter, and
-- `process` returns 0.
pub process-none :
    (s : EthercatSync) (app : ℕ)
    → ((process s app none).0.pll ≡ s.pll) × ((process s app none).1 ≡ pos 0)
unfolding process
process-none s app =
    let read = read_reference s.reader app none in
    if_both (λ (t : EthercatSync × ℤ). (t.0.pll ≡ s.pll) × (t.1 ≡ pos 0)) s.has_master
      (follow_still s app read.0 read.1 (read_reference-none s.reader app)) (refl, refl)
