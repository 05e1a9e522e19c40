-- ===== src/Runtime/Watchdogs.antt =====
-- The working-counter watchdog of the Job cycle: a run of failed exchanges trips the fault latch.
use robot_ethercat_master_ig.Prelude.{
  ℕ, suc, ◌+◌, ◌≤◌, ◌≡◌, ◌⊎◌, refl, sym, ap, subst, ◌∙◌, ◌<◌, inl, inr, Bool, true, false, List, [],
  ◌∷◌, arith, length, min,
}
use mathlib.Core.Path.{subst₂}
use robot_ethercat_master_ig.Prelude.Word.{u32_max}
use robot_ethercat_master_ig.Anomaly
use robot_ethercat_master_ig.Anomaly.{AnomalyPolicy}
use robot_ethercat_master_ig.Anomaly.Slots.{leading_true}
use robot_ethercat_master_ig.Anomaly.Window.{
  IsTracking, observe-IsTracking, policy-observe, consecutive-observe,
}
use robot_ethercat_master_ig.DcMonitor.{DcStatusSample}
use robot_ethercat_master_ig.Runtime.{IghMasterRuntime}
use robot_ethercat_master_ig.Runtime.Job.{
  JobInput, job_begin, watch_wkc, record_timing, watch_deadline, sample_dc_monitor, job_watch,
  feed_dwell, job_end, judge_dc, note_dc, arm_dc,
}
use robot_ethercat_master_ig.Runtime.Trips.{run_cycle, run_cycles}

-- A stage that leaves the armed state and the working-counter tracker alone, and keeps a fault.
record Keeps (r r' : IghMasterRuntime) : Type 0 where
  armed : r'.operational ≡ r.operational
  tracker : r'.wkc_tracker ≡ r.wkc_tracker
  fault : r.comm_fault ≡ true → r'.comm_fault ≡ true

and_then : {r r' r'' : IghMasterRuntime} → Keeps r r' → Keeps r' r'' → Keeps r r''
and_then p q = record {
  armed = q.armed ∙ p.armed;
  tracker = q.tracker ∙ p.tracker;
  fault = λ f. q.fault (p.fault f);
}

job_begin-Keeps : (r : IghMasterRuntime) → Keeps r (job_begin r)
unfolding job_begin
job_begin-Keeps r = ground arith

record_timing-Keeps : (c : JobInput) (r : IghMasterRuntime) → Keeps r (record_timing c r)
unfolding record_timing
record_timing-Keeps c r = record { armed = refl; tracker = refl; fault = λ f. f }

watch_deadline-Keeps : (armed : Bool) (r : IghMasterRuntime) → Keeps r (watch_deadline armed r)
unfolding watch_deadline
watch_deadline-Keeps armed r = ground arith

judge_dc-Keeps : (anomaly : Bool) (r : IghMasterRuntime) → Keeps r (judge_dc anomaly r)
unfolding judge_dc
judge_dc-Keeps anomaly r = ground arith

note_dc-Keeps : (sample : DcStatusSample) (r : IghMasterRuntime) → Keeps r (note_dc sample r)
unfolding note_dc
note_dc-Keeps sample r = record { armed = refl; tracker = refl; fault = λ f. f }

arm_dc-Keeps : (anomaly : Bool) (r : IghMasterRuntime) → Keeps r (arm_dc anomaly r)
unfolding arm_dc
arm_dc-Keeps anomaly r = ground (arith, judge_dc-Keeps anomaly r)

feed_dwell-Keeps : (h : Bool) (r : IghMasterRuntime) → Keeps r (feed_dwell h r)
unfolding feed_dwell
feed_dwell-Keeps h r = record { armed = refl; tracker = refl; fault = λ f. f }

-- The runtime just before the cycle's watchdogs.
abbrev received : JobInput → IghMasterRuntime → IghMasterRuntime
received c r = record (job_begin r) { last_rx_ok = c.rx_ok }

received-Keeps : (c : JobInput) (r : IghMasterRuntime) → Keeps r (received c r)
unfolding job_begin
received-Keeps c r = ground arith

-- Everything in a cycle behind the working-counter watchdog.
after_wkc-Keeps :
    (c : JobInput) (r : IghMasterRuntime)
    → Keeps (watch_wkc (job_begin r).operational c.rx_ok (received c r)) (run_cycle c r)
unfolding job_end job_watch sample_dc_monitor
after_wkc-Keeps c r =
    and_then
      (and_then (and_then (record_timing-Keeps c _) (watch_deadline-Keeps _ _))
        (and_then (note_dc-Keeps _ _) (arm_dc-Keeps _ _)))
      (feed_dwell-Keeps _ _)

-- A fault is latched, or the watchdog is armed and has seen `k` bad exchanges in a row without
-- asking for a stop.
data Progress (p : AnomalyPolicy) (k : ℕ) (r : IghMasterRuntime) : Type 0 where
  tripped : r.comm_fault ≡ true → Progress p k r
  watching :
      (hs : List Bool)
      → r.operational ≡ true
      → r.wkc_tracker.policy ≡ p
      → IsTracking r.wkc_tracker hs
      → k ≤ leading_true hs
      → (k ≡ 0) ⊎ (r.wkc_tracker.consecutive < p.consecutive_stop)
      → Progress p k r

watch_wkc-bad :
    (r : IghMasterRuntime)
    → ((watch_wkc true false r).comm_fault ≡ true)
      ⊎ (((watch_wkc true false r).wkc_tracker ≡ (Anomaly.observe r.wkc_tracker true).0)
          × ((watch_wkc true false r).operational ≡ r.operational)
          × ((Anomaly.observe r.wkc_tracker true).1.stop_required ≡ false))
unfolding watch_wkc
watch_wkc-bad r = ground arith

Progress-Keeps :
    {p : AnomalyPolicy} {k : ℕ} {r r' : IghMasterRuntime}
    → Progress p k r
    → Keeps r r'
    → Progress p k r'
Progress-Keeps (tripped f) q = tripped (q.fault f)
Progress-Keeps {p} {k} (watching hs op pol t lead low) q =
    watching hs (q.armed ∙ op) (ap (λ x. x.policy) q.tracker ∙ pol)
      (subst (λ x. IsTracking x hs) (sym q.tracker) t) lead
      (subst (λ x. (k ≡ 0) ⊎ (x.consecutive < p.consecutive_stop)) (sym q.tracker) low)

watch_wkc-Progress :
    {p : AnomalyPolicy} {k : ℕ} {r : IghMasterRuntime}
    → Progress p k r
    → Progress p (suc k) (watch_wkc true false r)
watch_wkc-Progress {r = r} (tripped f) = tripped (stays r f)
  where
    stays :
        (r : IghMasterRuntime) → r.comm_fault ≡ true → (watch_wkc true false r).comm_fault ≡ true
    stays r f = unfold watch_wkc in ground arith
watch_wkc-Progress {p} {k} {r} (watching hs op pol t lead low) = elim (watch_wkc-bad r) [
  | inl f ↦ tripped f
  | inr (e, same, more) ↦
      let fewer : (Anomaly.observe r.wkc_tracker true).0.consecutive < p.consecutive_stop =
        subst (λ x. (Anomaly.observe r.wkc_tracker true).0.consecutive < x.consecutive_stop) pol
          (consecutive-observe r.wkc_tracker true more) in
      watching (true ∷ hs) (same ∙ op)
        (ap (λ x. x.policy) e ∙ policy-observe r.wkc_tracker true ∙ pol)
        (subst (λ x. IsTracking x (true ∷ hs)) (sym e) (observe-IsTracking true t))
        (omega (arith, lead)) (inr (subst (λ x. x.consecutive < p.consecutive_stop) (sym e) fewer))
]

-- Every exchange of the list failed.
abbrev pub AllBad : List JobInput → Type 0
AllBad [] = Unit
AllBad (c ∷ cs) = (c.rx_ok ≡ false) × AllBad cs

watch_wkc-fault :
    (armed rx : Bool) (r : IghMasterRuntime)
    → r.comm_fault ≡ true
    → (watch_wkc armed rx r).comm_fault ≡ true
unfolding watch_wkc
watch_wkc-fault armed rx r f = ground arith

watch-Progress :
    (c : JobInput) {p : AnomalyPolicy} {k : ℕ} {r : IghMasterRuntime}
    → c.rx_ok ≡ false
    → Progress p k r
    → Progress p (suc k) (watch_wkc (job_begin r).operational c.rx_ok (received c r))
watch-Progress c {r = r} bad (tripped f) =
    tripped (watch_wkc-fault _ _ _ ((received-Keeps c r).fault f))
watch-Progress c {p} {k} {r} bad (watching hs op pol t lead low) =
    subst₂ (λ a b. Progress p (suc k) (watch_wkc a b (received c r)))
      (sym ((job_begin-Keeps r).armed ∙ op)) (sym bad)
      (watch_wkc-Progress (Progress-Keeps (watching hs op pol t lead low) (received-Keeps c r)))

run_cycles-Progress :
    (cs : List JobInput) {p : AnomalyPolicy} {k : ℕ} {r : IghMasterRuntime}
    → AllBad cs
    → Progress p k r
    → Progress p (k + length cs) (run_cycles cs r)
unfolding run_cycles
run_cycles-Progress [] {p} {k} {r} bad v = subst (λ n. Progress p n r) (omega arith) v
run_cycles-Progress (c ∷ cs) {p} {k} {r} bad v =
    subst (λ n. Progress p n (run_cycles cs (run_cycle c r))) (omega arith)
      (run_cycles-Progress cs bad.1
        (Progress-Keeps (watch-Progress c bad.0 v) (after_wkc-Keeps c r)))

-- While the runtime is operational, a run of failed exchanges as long as the consecutive threshold of
-- the working-counter watchdog latches the communication fault, whatever the watchdog saw before; the
-- threshold is assumed to fit its counter.
pub wkc_trips :
    (r : IghMasterRuntime) (hs : List Bool) (cs : List JobInput)
    → r.operational ≡ true
    → IsTracking r.wkc_tracker hs
    → r.wkc_tracker.policy.consecutive_stop ≤ u32_max
    → length cs ≡ r.wkc_tracker.policy.consecutive_stop
    → AllBad cs
    → (run_cycles cs r).comm_fault ≡ true
wkc_trips r hs cs op t fits long bad =
    conclude (run_cycles-Progress cs bad (watching hs op refl t (omega arith) (inl refl)))
  where
    conclude :
        Progress r.wkc_tracker.policy (0 + length cs) (run_cycles cs r)
        → (run_cycles cs r).comm_fault ≡ true
    conclude (tripped f) = f
    conclude (watching hs' op' pol t' lead low) = absurd (over low t'.consecutive t.sane.stops)
      where
        over :
            (0 + length cs ≡ 0)
              ⊎ ((run_cycles cs r).wkc_tracker.consecutive < r.wkc_tracker.policy.consecutive_stop)
            → (run_cycles cs r).wkc_tracker.consecutive ≡ min (leading_true hs') u32_max
            → 1 ≤ r.wkc_tracker.policy.consecutive_stop
            → ⊥
        over l e s = omega arith
