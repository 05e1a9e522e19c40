-- ===== src/Runtime/Trips.antt =====
-- Runs of Job cycles with no call from outside: when a fault is latched, and when motion may be
-- enabled again after a reset.
use robot_ethercat_master_ig.Prelude.{
  ◌≤◌, ◌≡◌, ◌⊎◌, ◌↔◌, refl, ap, ◌∙◌, inl, inr, Bool, true, false, List, [], ◌∷◌, arith,
}
use robot_ethercat_master_ig.Prelude.Word.{u32_max}
use robot_ethercat_master_ig.Dwell
use robot_ethercat_master_ig.Dwell.{HealthyDwell}
use robot_ethercat_master_ig.Dwell.Runs.{HasRun, allow_enable_iff_run}
use robot_ethercat_master_ig.DcMonitor.{DcStatusSample}
use robot_ethercat_master_ig.Runtime.{IghMasterRuntime, clear_comm_fault}
use robot_ethercat_master_ig.Runtime.Job.{
  JobInput, job_begin, watch_wkc, record_timing, watch_deadline, sample_dc_monitor, job_watch,
  feed_dwell, is_healthy, job_end, judge_dc, note_dc, arm_dc,
}

-- One cycle, undisturbed.
abbrev pub run_cycle : JobInput → IghMasterRuntime → IghMasterRuntime
run_cycle c r = job_end (job_begin r).operational c (job_begin r)

-- The cycle's health as the dwell is told it.
abbrev pub cycle_health : JobInput → IghMasterRuntime → Bool
cycle_health c r = is_healthy c.rx_ok (job_watch (job_begin r).operational c (job_begin r))

-- Oldest cycle first.
unfoldable pub run_cycles : List JobInput → IghMasterRuntime → IghMasterRuntime
run_cycles [] r = r
run_cycles (c ∷ cs) r = run_cycles cs (run_cycle c r)

unfoldable pub healths : List JobInput → IghMasterRuntime → List Bool
healths [] r = []
healths (c ∷ cs) r = cycle_health c r ∷ healths cs (run_cycle c r)

record IsLatched (r : IghMasterRuntime) : Type 0 where
  fault : r.comm_fault ≡ true
  disarmed : r.healthy_dwell.armed ≡ false
  shut : r.healthy_dwell.allow_enable ≡ false

-- A stage that has left the latch and the dwell alone.
record IsQuiet (r r' : IghMasterRuntime) : Type 0 where
  fault : r'.comm_fault ≡ r.comm_fault
  pending : r'.pending_dwell_fault ≡ r.pending_dwell_fault
  dwell : r'.healthy_dwell ≡ r.healthy_dwell

abbrev Outcome : IghMasterRuntime → IghMasterRuntime → Type 0
Outcome r r' = IsQuiet r r' ⊎ IsLatched r'

IsLatched-IsQuiet : {r r' : IghMasterRuntime} → IsLatched r → IsQuiet r r' → IsLatched r'
IsLatched-IsQuiet v q = ground arith

and_then : {r r' r'' : IghMasterRuntime} → Outcome r r' → Outcome r' r'' → Outcome r r''
and_then (inl p) (inl q) = inl (ground arith)
and_then (inr l) (inl q) = inr (IsLatched-IsQuiet l q)
and_then p (inr l) = inr l

watch_wkc-Outcome : (armed rx : Bool) (r : IghMasterRuntime) → Outcome r (watch_wkc armed rx r)
unfolding watch_wkc
watch_wkc-Outcome armed rx r = ground arith

record_timing-Outcome : (c : JobInput) (r : IghMasterRuntime) → Outcome r (record_timing c r)
unfolding record_timing
record_timing-Outcome c r = inl (ground arith)

watch_deadline-Outcome : (armed : Bool) (r : IghMasterRuntime) → Outcome r (watch_deadline armed r)
unfolding watch_deadline
watch_deadline-Outcome armed r = ground arith

judge_dc-Outcome : (anomaly : Bool) (r : IghMasterRuntime) → Outcome r (judge_dc anomaly r)
unfolding judge_dc
judge_dc-Outcome anomaly r = ground arith

note_dc-Outcome : (sample : DcStatusSample) (r : IghMasterRuntime) → Outcome r (note_dc sample r)
unfolding note_dc
note_dc-Outcome sample r = inl (ground arith)

arm_dc-Outcome : (anomaly : Bool) (r : IghMasterRuntime) → Outcome r (arm_dc anomaly r)
unfolding arm_dc
arm_dc-Outcome anomaly r = ground (arith, judge_dc-Outcome anomaly r)

job_watch-Outcome :
    (armed : Bool) (c : JobInput) (r : IghMasterRuntime) → Outcome r (job_watch armed c r)
unfolding job_watch sample_dc_monitor
job_watch-Outcome armed c r =
    and_then
      (and_then
        (and_then (and_then received (watch_wkc-Outcome armed c.rx_ok _))
          (record_timing-Outcome c _))
        (watch_deadline-Outcome armed _))
      (and_then (note_dc-Outcome _ _) (arm_dc-Outcome _ _))
  where
    received : Outcome r (record r { last_rx_ok = c.rx_ok })
    received = inl (ground arith)

-- A stage never takes a latched fault away.
job_watch-IsLatched :
    (armed : Bool) (c : JobInput) {r : IghMasterRuntime}
    → IsLatched r
    → IsLatched (job_watch armed c r)
job_watch-IsLatched armed c {r} v = elim (job_watch-Outcome armed c r) [
  | inl q ↦ IsLatched-IsQuiet v q
  | inr l ↦ l
]

-- Between cycles: no fault is latched and the dwell is `d`, or a fault is latched.
data State (d : HealthyDwell) (r : IghMasterRuntime) : Type 0 where
  counting :
      r.comm_fault ≡ false
      → r.pending_dwell_fault ≡ false
      → r.healthy_dwell ≡ d
      → r.motion_reenable_allowed ≡ d.allow_enable
      → State d r
  latched : IsLatched r → r.motion_reenable_allowed ≡ false → State d r

job_begin-IsQuiet : (r : IghMasterRuntime) → r.pending_dwell_fault ≡ false → IsQuiet r (job_begin r)
unfolding job_begin
job_begin-IsQuiet r e = ground arith

job_begin-IsLatched : {r : IghMasterRuntime} → IsLatched r → IsLatched (job_begin r)
unfolding job_begin
job_begin-IsLatched v = ground arith

feed_dwell-IsLatched :
    (h : Bool) {r : IghMasterRuntime}
    → IsLatched r
    → IsLatched (feed_dwell h r) × ((feed_dwell h r).motion_reenable_allowed ≡ false)
unfolding feed_dwell Dwell.observe
feed_dwell-IsLatched h v = ground arith

feed_dwell-counting :
    (h : Bool) {d : HealthyDwell} (r : IghMasterRuntime)
    → r.comm_fault ≡ false
    → r.pending_dwell_fault ≡ false
    → r.healthy_dwell ≡ d
    → State (Dwell.observe d h) (feed_dwell h r)
unfolding feed_dwell
feed_dwell-counting h r f p e =
    counting f p (ap (λ x. Dwell.observe x h) e) (ap (λ x. (Dwell.observe x h).allow_enable) e)

feed_dwell-latched :
    (h : Bool) {d : HealthyDwell} {r : IghMasterRuntime} → IsLatched r → State d (feed_dwell h r)
feed_dwell-latched h l = let (l', shut) = feed_dwell-IsLatched h l in latched l' shut

run_cycle-State :
    (c : JobInput) {d : HealthyDwell} {r : IghMasterRuntime}
    → State d r
    → State (Dwell.observe d (cycle_health c r)) (run_cycle c r)
unfolding job_end
run_cycle-State c {r = r} (latched l shut) =
    feed_dwell-latched _ (job_watch-IsLatched _ c (job_begin-IsLatched l))
run_cycle-State c {r = r} (counting f p e flag) =
    elim (and_then (inl (job_begin-IsQuiet r p)) (job_watch-Outcome _ c (job_begin r))) [
      | inl q ↦ feed_dwell-counting _ _ (q.fault ∙ f) (q.pending ∙ p) (q.dwell ∙ e)
      | inr l ↦ feed_dwell-latched _ l
    ]

run_cycles-State :
    (cs : List JobInput) {d : HealthyDwell} {r : IghMasterRuntime}
    → State d r
    → State (Dwell.observe_all d (healths cs r)) (run_cycles cs r)
unfolding run_cycles healths Dwell.observe_all
run_cycles-State [] v = v
run_cycles-State (c ∷ cs) v = run_cycles-State cs (run_cycle-State c v)

clear-State :
    (r : IghMasterRuntime) → State (Dwell.request_reset r.healthy_dwell) (clear_comm_fault r)
unfolding clear_comm_fault
clear-State r = counting refl refl refl refl

State-flag :
    {d : HealthyDwell} {r : IghMasterRuntime}
    → State d r
    → (r.motion_reenable_allowed ≡ true) ↔ ((r.comm_fault ≡ false) × (d.allow_enable ≡ true))
State-flag (counting f p e flag) = ground arith
State-flag (latched l shut) = ground arith

-- After a safety reset and any undisturbed Job cycles, with a dwell requirement that is positive and
-- fits its counter, motion may be enabled again exactly when no fault has been latched and the cycles
-- have a stretch of as many healthy ones in a row as the dwell requires.
pub reenabled_iff_dwelled :
    (r : IghMasterRuntime) (cs : List JobInput)
    → 1 ≤ r.healthy_dwell.required
    → r.healthy_dwell.required ≤ u32_max
    → ((run_cycles cs (clear_comm_fault r)).motion_reenable_allowed ≡ true) ↔ (
        ((run_cycles cs (clear_comm_fault r)).comm_fault ≡ false)
        × HasRun r.healthy_dwell.required (healths cs (clear_comm_fault r)))
reenabled_iff_dwelled r cs lo hi =
    let flag = State-flag (run_cycles-State cs (clear-State r)) in
    let gate = allow_enable_iff_run r.healthy_dwell (healths cs (clear_comm_fault r)) lo hi in
    (λ e. ((flag.0 e).0, gate.0 (flag.0 e).1), λ (fault, run). flag.1 (fault, gate.1 run))
