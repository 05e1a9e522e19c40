-- ===== src/Dwell/Runs.antt =====
-- When the dwell lets motion be enabled again: after a long enough run of healthy cycles.
use robot_ethercat_master_ig.Prelude.{
  ℕ, zero, suc, ◌+◌, ◌-◌, ◌≤◌, ◌<◌, ◌≡◌, ◌⊎◌, ◌↔◌, refl, ap, ◌∙◌, Bool-cases, inl, inr, Bool, true,
  false, List, [], ◌∷◌, ◌++◌, arith, leb, if◌then◌else◌, replicate,
}
use robot_ethercat_master_ig.Prelude.Word.{u32_max}
use robot_ethercat_master_ig.Dwell.{HealthyDwell, on_fault, request_reset, observe, observe_all}

-- Scanning with `seen` healthy cycles just before the list, a run of `need` is completed.
abbrev pub completes : ℕ → ℕ → List Bool → Bool
completes need seen [] = false
completes need seen (true ∷ l) = if leb need (seen + 1) then true else completes need (seen + 1) l
completes need seen (false ∷ l) = completes need 0 l

-- The list has a stretch of `need` healthy cycles in a row.
abbrev pub HasRun : ℕ → List Bool → Type 0
HasRun need l =
    (before : List Bool) × (after : List Bool) × (l ≡ before ++ (replicate need true ++ after))

-- Once released the dwell stays as it is, whatever is observed.
observe_all-released : (d : HealthyDwell) (l : List Bool) → d.armed ≡ false → observe_all d l ≡ d
unfolding observe_all
observe_all-released d [] h = refl
observe_all-released d (x ∷ l) h =
    ap (λ e. observe_all e l) (observe-released d x h) ∙ observe_all-released d l h
  where
    observe-released : (e : HealthyDwell) (y : Bool) → e.armed ≡ false → observe e y ≡ e
    observe-released e y k = unfold observe in ground arith

-- The dwell in the middle of its count.
record IsCounting (d : HealthyDwell) (seen : ℕ) : Type 0 where
  armed : d.armed ≡ true
  shut : d.allow_enable ≡ false
  ok : d.consecutive_ok ≡ seen
  short : seen < d.required
  fits : d.required ≤ u32_max

required-observe : (d : HealthyDwell) (h : Bool) → (observe d h).required ≡ d.required
unfolding observe
required-observe d h = ground arith

observe-last :
    {d : HealthyDwell} {seen : ℕ}
    → IsCounting d seen
    → leb d.required (seen + 1) ≡ true
    → ((observe d true).armed ≡ false) × ((observe d true).allow_enable ≡ true)
unfolding observe
observe-last v h = ground arith

observe-more :
    {d : HealthyDwell} {seen : ℕ}
    → IsCounting d seen
    → leb d.required (seen + 1) ≡ false
    → IsCounting (observe d true) (seen + 1)
unfolding observe
observe-more v h = ground arith

observe-break : {d : HealthyDwell} {seen : ℕ} → IsCounting d seen → IsCounting (observe d false) 0
unfolding observe
observe-break v = ground arith

allow_enable-counting :
    (l : List Bool) {d : HealthyDwell} {seen : ℕ}
    → IsCounting d seen
    → (observe_all d l).allow_enable ≡ completes d.required seen l
unfolding observe_all
allow_enable-counting [] v = v.shut
allow_enable-counting (false ∷ l) {d} v =
    allow_enable-counting l (observe-break v) ∙ ap (λ n. completes n 0 l) (required-observe d false)
allow_enable-counting (true ∷ l) {d} {seen} v = elim (Bool-cases (leb d.required (seen + 1))) [
  | inl done ↦ rw done (
      ap (λ e. e.allow_enable) (observe_all-released (observe d true) l (observe-last v done).0)
      ∙ (observe-last v done).1)
  | inr more ↦ rw more (
      allow_enable-counting l (observe-more v more)
      ∙ ap (λ n. completes n (seen + 1) l) (required-observe d true))
]

sub-zero : (n : ℕ) → n - 0 ≡ n
sub-zero n = omega arith

-- A run is completed in the list, or right at its head by help of the cycles already seen.
completes-split :
    (need seen : ℕ) (l : List Bool)
    → seen < need
    → completes need seen l ≡ true
    → HasRun need l ⊎ ((after : List Bool) × (l ≡ replicate (need - seen) true ++ after))
completes-split need seen [] h c = cc
completes-split need seen (false ∷ l) h c = elim (completes-split need 0 l (omega arith) c) [
  | inl (before, after, e) ↦ inl (false ∷ before, after, ap (λ t. false ∷ t) e)
  | inr (after, e) ↦ inl (false ∷ [], after, ap (λ t. false ∷ t) (rw (sub-zero need) at e))
]
completes-split need seen (true ∷ l) h c = elim (Bool-cases (leb need (seen + 1))) [
  | inl done ↦ let one : need - seen ≡ 1 = ground arith in inr (l, rw one)
  | inr more ↦
      let next : need - seen ≡ suc (need - (seen + 1)) = ground arith in
      elim (completes-split need (seen + 1) l (ground arith) (rw more at c)) [
        | inl (before, after, e) ↦ inl (true ∷ before, after, ap (λ t. true ∷ t) e)
        | inr (after, e) ↦ inr (after, rw next (ap (λ t. true ∷ t) e))
      ]
]

completes-head :
    (need seen k : ℕ) (after : List Bool)
    → 1 ≤ k
    → need ≤ seen + k
    → completes need seen (replicate k true ++ after) ≡ true
completes-head need seen zero after h e = absurd (omega arith)
completes-head need seen (suc zero) after h e = ground arith
completes-head need seen (suc (suc k)) after h e =
    ground (arith, completes-head need (seen + 1) (suc k) after (omega arith) (omega arith))

completes-HasRun :
    (need seen : ℕ) (before after : List Bool)
    → 1 ≤ need
    → completes need seen (before ++ (replicate need true ++ after)) ≡ true
completes-HasRun need seen [] after h = completes-head need seen need after h (omega arith)
completes-HasRun need seen (false ∷ b) after h = completes-HasRun need 0 b after h
completes-HasRun need seen (true ∷ b) after h =
    ground (arith, completes-HasRun need (seen + 1) b after h)

completes_iff : (need : ℕ) (l : List Bool) → 1 ≤ need → (completes need 0 l ≡ true) ↔ HasRun need l
completes_iff need l h = (
  λ c. elim (completes-split need 0 l h c) [
    | inl r ↦ r
    | inr (after, e) ↦ ([], after, rw (sub-zero need) at e)
  ],
  λ (before, after, e). rw e (completes-HasRun need 0 before after h),
)

-- After a safety reset of a dwell whose requirement is positive and fits its counter, motion may be
-- enabled after the cycles of `l`, oldest first, exactly when `l` has a stretch of `required` healthy
-- cycles in a row.
pub allow_enable_iff_run :
    (d : HealthyDwell) (l : List Bool)
    → 1 ≤ d.required
    → d.required ≤ u32_max
    → ((observe_all (request_reset d) l).allow_enable ≡ true) ↔ HasRun d.required l
unfolding request_reset
allow_enable_iff_run d l h k =
    rw (allow_enable-counting l {d = request_reset d} {seen = 0} (ground arith))
      (completes_iff d.required l h)

-- After a fault nothing that is observed lets motion be enabled: that takes a reset.
pub observe_all-on_fault :
    (d : HealthyDwell) (l : List Bool) → (observe_all (on_fault d) l).allow_enable ≡ false
unfolding on_fault
observe_all-on_fault d l = ap (λ e. e.allow_enable) (observe_all-released (on_fault d) l refl)
