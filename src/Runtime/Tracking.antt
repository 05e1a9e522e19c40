-- ===== src/Runtime/Tracking.antt =====
-- src/ethercat_master_igh/src/master/igh/igh_master_runtime.cpp: the dwell against the list of how the
-- cycles were judged, newest first.
use robot_ethercat_master_ig.Prelude.{
  ℕ, zero, suc, ◌≤◌, ◌≡◌, ◌⊎◌, inl, inr, refl, sym, ap, ◌∙◌, subst, Bool, true, false, List, [],
  ◌∷◌, ◌++◌, arith, replicate,
}
use robot_ethercat_master_ig.Prelude.Int.{ℤ}
use robot_ethercat_master_ig.Dwell
use robot_ethercat_master_ig.Dwell.{HealthyDwell}
use robot_ethercat_master_ig.Dwell.Runs.{HasRun}
use robot_ethercat_master_ig.DcMonitor.{DcStatusSample}
use robot_ethercat_master_ig.Runtime.{
  IghMasterRuntime, request_safe_output, release_safe_output, set_operational,
}
use robot_ethercat_master_ig.Runtime.Job.{
  JobInput, job_begin, watch_wkc, record_timing, watch_deadline, sample_dc_monitor, job_watch,
  feed_dwell, judge_dc, note_dc, arm_dc,
}

-- The healthy cycles in a row at the newest end.
abbrev pub leading : List Bool → ℕ
leading [] = 0
leading (true ∷ hs) = suc (leading hs)
leading (false ∷ hs) = 0

leading-HasRun : (n : ℕ) (hs : List Bool) → n ≤ leading hs → HasRun n hs
leading-HasRun n hs low = let (after, e) = split n hs low in ([], after, e)
  where
    split :
        (n : ℕ) (hs : List Bool)
        → n ≤ leading hs
        → (after : List Bool) × (hs ≡ replicate n true ++ after)
    split zero hs low = (hs, refl)
    split (suc n) [] low = absurd (omega arith)
    split (suc n) (false ∷ hs) low = absurd (omega arith)
    split (suc n) (true ∷ hs) low =
        let (after, e) = split n hs (omega arith) in (after, ap (λ l. true ∷ l) e)

HasRun-cons : (n : ℕ) (h : Bool) (hs : List Bool) → HasRun n hs → HasRun n (h ∷ hs)
HasRun-cons n h hs (before, after, e) = (h ∷ before, after, ap (λ l. h ∷ l) e)

-- The dwell against the judgements.
pub record Tracks (hs : List Bool) (d : HealthyDwell) : Type 0 where
  pub counted : d.armed ≡ true → d.consecutive_ok ≤ leading hs
  pub reached : d.allow_enable ≡ true → HasRun d.required hs

abbrev pub IsShut : HealthyDwell → Type 0
IsShut d = (d.armed ≡ false) × (d.allow_enable ≡ false)

pub IsShut-Tracks : (hs : List Bool) (d : HealthyDwell) → IsShut d → Tracks hs d
IsShut-Tracks hs d (disarmed, shut) = record {
  counted = λ e. absurd (ground (arith, e));
  reached = λ e. absurd (ground (arith, e));
}

-- A part of the cycle leaves the dwell alone or shuts it.
abbrev pub Keeps : HealthyDwell → HealthyDwell → Type 0
Keeps d d' = (d' ≡ d) ⊎ IsShut d'

Keeps-trans : (a b c : HealthyDwell) → Keeps a b → Keeps b c → Keeps a c
Keeps-trans a b c (inl p) (inl q) = inl (q ∙ p)
Keeps-trans a b c (inr p) (inl q) =
    inr (ap (λ d. d.armed) q ∙ p.0, ap (λ d. d.allow_enable) q ∙ p.1)
Keeps-trans a b c p (inr q) = inr q

pub Keeps-Tracks : (hs : List Bool) (d d' : HealthyDwell) → Keeps d d' → Tracks hs d → Tracks hs d'
Keeps-Tracks hs d d' (inl e) v = subst (Tracks hs) (sym e) v
Keeps-Tracks hs d d' (inr shut) v = IsShut-Tracks hs d' shut

watch_wkc-Keeps :
    (armed rx : Bool) (r : IghMasterRuntime)
    → Keeps r.healthy_dwell (watch_wkc armed rx r).healthy_dwell
unfolding watch_wkc
watch_wkc-Keeps armed rx r = ground arith

record_timing-Keeps :
    (c : JobInput) (r : IghMasterRuntime) → (record_timing c r).healthy_dwell ≡ r.healthy_dwell
unfolding record_timing
record_timing-Keeps c r = refl

watch_deadline-Keeps :
    (armed : Bool) (r : IghMasterRuntime)
    → Keeps r.healthy_dwell (watch_deadline armed r).healthy_dwell
unfolding watch_deadline
watch_deadline-Keeps armed r = ground arith

arm_dc-Keeps :
    (anomaly : Bool) (r : IghMasterRuntime) → Keeps r.healthy_dwell (arm_dc anomaly r).healthy_dwell
unfolding arm_dc judge_dc
arm_dc-Keeps anomaly r = ground arith

note_dc-Keeps :
    (sample : DcStatusSample) (r : IghMasterRuntime)
    → (note_dc sample r).healthy_dwell ≡ r.healthy_dwell
unfolding note_dc
note_dc-Keeps sample r = refl

sample_dc_monitor-Keeps :
    (valid : Bool) (diff : ℤ) (r : IghMasterRuntime)
    → Keeps r.healthy_dwell (sample_dc_monitor valid diff r).healthy_dwell
unfolding sample_dc_monitor
sample_dc_monitor-Keeps valid diff r =
    Keeps-trans _ _ _ (inl (note_dc-Keeps _ r)) (arm_dc-Keeps _ (note_dc _ r))

pub job_watch-Keeps :
    (armed : Bool) (c : JobInput) (r : IghMasterRuntime)
    → Keeps r.healthy_dwell (job_watch armed c r).healthy_dwell
unfolding job_watch
job_watch-Keeps armed c r =
    let received = record r { last_rx_ok = c.rx_ok } in
    let wkc = watch_wkc armed c.rx_ok received in
    let timed = record_timing c wkc in
    let late = watch_deadline armed timed in
    Keeps-trans r.healthy_dwell wkc.healthy_dwell _ (watch_wkc-Keeps armed c.rx_ok received) (
      Keeps-trans wkc.healthy_dwell timed.healthy_dwell _ (inl (record_timing-Keeps c wkc)) (
        Keeps-trans timed.healthy_dwell late.healthy_dwell _ (watch_deadline-Keeps armed timed)
          (sample_dc_monitor-Keeps c.dc_valid c.dc_diff late)))

-- The dwell's own step.
module _ (d : HealthyDwell) (h : Bool) where
  observe-required : (Dwell.observe d h).required ≡ d.required
  unfolding Dwell.observe
  observe-required = ground arith

  observe-counted :
      (hs : List Bool)
      → (d.armed ≡ true → d.consecutive_ok ≤ leading hs)
      → (Dwell.observe d h).armed ≡ true
      → (Dwell.observe d h).consecutive_ok ≤ leading (h ∷ hs)
  unfolding Dwell.observe
  observe-counted hs counted = ground arith

  -- Motion is allowed that was allowed before, or whose run is completed now.
  observe-allowed :
      (hs : List Bool)
      → (d.armed ≡ true → d.consecutive_ok ≤ leading hs)
      → (Dwell.observe d h).allow_enable ≡ true
      → (d.allow_enable ≡ true) ⊎ (d.required ≤ leading (h ∷ hs))
  unfolding Dwell.observe
  observe-allowed hs counted e = ground (arith, e)

  pub observe-Tracks : (hs : List Bool) → Tracks hs d → Tracks (h ∷ hs) (Dwell.observe d h)
  observe-Tracks hs v = record {
    counted = observe-counted hs v.counted;
    reached = λ e.
        subst (λ n. HasRun n (h ∷ hs)) (sym observe-required)
          (elim (observe-allowed hs v.counted e) [
            | inl old ↦ HasRun-cons d.required h hs (v.reached old)
            | inr now ↦ leading-HasRun d.required (h ∷ hs) now
          ]);
  }

pub feed_dwell-observe :
    (healthy : Bool) (r : IghMasterRuntime)
    → (feed_dwell healthy r).healthy_dwell ≡ Dwell.observe r.healthy_dwell healthy
unfolding feed_dwell
feed_dwell-observe healthy r = refl

pub observe-IsShut : (d : HealthyDwell) (h : Bool) → IsShut d → IsShut (Dwell.observe d h)
unfolding Dwell.observe
observe-IsShut d h shut = ground arith

-- The calls, and the start of a cycle.
pub request_safe_output-Keeps :
    (r : IghMasterRuntime) → Keeps r.healthy_dwell (request_safe_output r).healthy_dwell
unfolding request_safe_output
request_safe_output-Keeps r = ground arith

pub release_safe_output-Keeps :
    (r : IghMasterRuntime) → Keeps r.healthy_dwell (release_safe_output r).0.healthy_dwell
unfolding release_safe_output
release_safe_output-Keeps r = ground arith

pub set_operational-Keeps :
    (b : Bool) (r : IghMasterRuntime) → Keeps r.healthy_dwell (set_operational r b).healthy_dwell
unfolding set_operational
set_operational-Keeps b r = inl refl

pub job_begin-Keeps : (r : IghMasterRuntime) → Keeps r.healthy_dwell (job_begin r).healthy_dwell
unfolding job_begin
job_begin-Keeps r = ground arith
