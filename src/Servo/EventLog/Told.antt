-- ===== src/Servo/EventLog/Told.antt =====
-- What one cycle of a motor's log tells of its status word and control word (sendDataCommon of
-- src/master/igh/ethercat_servo.cpp).
use robot_ethercat_master_ig.Prelude.{
  ℕ, ltb, ◌+◌, ◌<◌, ◌≡◌, inl, inr, refl, ◌∙◌, ap, ap₂, Bool, true, false, not, ◌&&◌, ◌==◌, Option,
  none, some, List, [], ◌∷◌, ◌++◌, if◌then◌else◌, arith, if_cases, if_both, Bool-cases,
}
use robot_ethercat_master_ig.Cia402.{Cia402State, state_value, decode_cia402_state, is_fault}
use robot_ethercat_master_ig.Logger.{RuntimeLogEvent, RuntimeLogEventType}
use robot_ethercat_master_ig.Servo.EventLog.{
  LogMemory, Sample, is_news, log_state, log_word, maybe_log_target_setpoint, is_changed,
  target_log_interval_cycles, log_cycle,
}

-- What an event tells, by its kind.
abbrev pub status_told : RuntimeLogEvent → Option ℕ
status_told e = elim e.type [ RuntimeLogEventType.cia402_state ↦ some e.status_word | _ ↦ none ]

abbrev pub fault_told : RuntimeLogEvent → Option ℕ
fault_told e = elim e.type [ RuntimeLogEventType.error_code ↦ some e.status_word | _ ↦ none ]

abbrev pub word_told : RuntimeLogEvent → Option ℕ
word_told e = elim e.type [ RuntimeLogEventType.control_word ↦ some e.control_word | _ ↦ none ]

unfoldable pub select : (RuntimeLogEvent → Option ℕ) → List RuntimeLogEvent → List ℕ
select tell [] = []
select tell (e ∷ es) =
    let rest = select tell es in elim (tell e) [ none ↦ rest | some w ↦ w ∷ rest ]

-- A list without the entries that repeat the one before them, `known` being the one before the first.
abbrev pub is_known : Option ℕ → ℕ → Bool
is_known none w = false
is_known (some v) w = w == v

unfoldable pub changes : Option ℕ → List ℕ → List ℕ
changes known [] = []
changes known (w ∷ ws) =
    let rest = changes (some w) ws in if is_known known w then rest else w ∷ rest

unfoldable pub faults : List ℕ → List ℕ
faults [] = []
faults (w ∷ ws) = let rest = faults ws in if is_fault w then w ∷ rest else rest

pub select-append :
    (tell : RuntimeLogEvent → Option ℕ) (xs ys : List RuntimeLogEvent)
    → select tell (xs ++ ys) ≡ select tell xs ++ select tell ys
unfolding select
select-append tell [] ys = refl
select-append tell (e ∷ es) ys = with_first (tell e) (select-append tell es ys)
  where
    with_first :
        (o : Option ℕ)
        → select tell (es ++ ys) ≡ select tell es ++ select tell ys
        → (elim o [ none ↦ select tell (es ++ ys) | some w ↦ w ∷ select tell (es ++ ys) ])
          ≡ (elim o [ none ↦ select tell es | some w ↦ w ∷ select tell es ]) ++ select tell ys
    with_first none h = h
    with_first (some w) h = ap (λ l. w ∷ l) h

pub append_nil : (xs : List ℕ) → xs ++ [] ≡ xs
append_nil [] = refl
append_nil (x ∷ xs) = ap (λ l. x ∷ l) (append_nil xs)

-- The memory holds the status word that was met last, or that none was.
abbrev pub StatusKnown : Option ℕ → LogMemory → Type 0
StatusKnown none m = m.last_logged_cia402_state ≡ 0xFFFF
StatusKnown (some v) m =
    (m.last_logged_status_word ≡ v)
    × (m.last_logged_cia402_state ≡ state_value (decode_cia402_state v))

state_value_fits : (s : Cia402State) → state_value s < 0xFFFF
state_value_fits Cia402State.not_ready_to_switch_on = omega arith
state_value_fits Cia402State.switch_on_disabled = omega arith
state_value_fits Cia402State.ready_to_switch_on = omega arith
state_value_fits Cia402State.switched_on = omega arith
state_value_fits Cia402State.operation_enabled = omega arith
state_value_fits Cia402State.quick_stop_active = omega arith
state_value_fits Cia402State.fault_reaction_active = omega arith
state_value_fits Cia402State.fault = omega arith

-- A status word is news exactly where it differs from the one before.
is_news_lem :
    (s : Sample) (known : Option ℕ) (m : LogMemory)
    → StatusKnown known m
    → is_news s m ≡ not (is_known known s.status_word)
is_news_lem s none m h =
    let f = state_value_fits (decode_cia402_state s.status_word) in ground (arith, h, f)
is_news_lem s (some v) m h = elim (Bool-cases (s.status_word == v)) [
  | inl same ↦
      let e : s.status_word ≡ v = ground (arith, same) in
      let d = ap (λ w. state_value (decode_cia402_state w)) e in ground (arith, h, e, d)
  | inr other ↦ ground (arith, h, other)
]

-- What the parts of a cycle tell.
log_state_tells :
    (s : Sample) (m : LogMemory)
    → (select status_told (log_state s m).1 ≡ (if is_news s m then s.status_word ∷ [] else []))
      × (select fault_told (log_state s m).1
          ≡ (if is_news s m && is_fault s.status_word then s.status_word ∷ [] else []))
      × (select word_told (log_state s m).1 ≡ [])
unfolding log_state select
log_state_tells s m = elim (Bool-cases (is_news s m)) [
  | inl news ↦ elim (Bool-cases (is_fault s.status_word)) [
    | inl bad ↦ rw (news, bad) (refl, refl, refl)
    | inr good ↦ rw (news, good) (refl, refl, refl)
  ]
  | inr old ↦ rw (old) (refl, refl, refl)
]

log_word_tells :
    (s : Sample) (m : LogMemory)
    → (select status_told (log_word s m).1 ≡ [])
      × (select fault_told (log_word s m).1 ≡ [])
      × (select word_told (log_word s m).1
          ≡ (if s.sent == m.last_logged_control_word then [] else s.sent ∷ []))
unfolding log_word select
log_word_tells s m = elim (Bool-cases (s.sent == m.last_logged_control_word)) [
  | inl same ↦ rw (same) (refl, refl, refl)
  | inr other ↦ rw (other) (refl, refl, refl)
]

-- A part that tells nothing and leaves what is known as it was.
abbrev IsSilent : LogMemory → LogMemory × List RuntimeLogEvent → Type 0
IsSilent m t =
    (select status_told t.1 ≡ [])
    × (select fault_told t.1 ≡ [])
    × (select word_told t.1 ≡ [])
    × (t.0.last_logged_status_word ≡ m.last_logged_status_word)
    × (t.0.last_logged_cia402_state ≡ m.last_logged_cia402_state)
    × (t.0.last_logged_control_word ≡ m.last_logged_control_word)

setpoint-IsSilent :
    (activated : Bool) (s : Sample) (m : LogMemory)
    → IsSilent m (maybe_log_target_setpoint activated s m)
unfolding maybe_log_target_setpoint select
setpoint-IsSilent activated s m =
    if_both (IsSilent m) (not activated) (refl, refl, refl, refl, refl, refl)
      (if_both (IsSilent m) (ltb (m.target_setpoint_log_counter + 1) target_log_interval_cycles)
        (refl, refl, refl, refl, refl, refl)
        (if_both (IsSilent m) (not s.in_motion && not (is_changed s m))
          (refl, refl, refl, refl, refl, refl) (refl, refl, refl, refl, refl, refl)))

-- What is known after the status word is looked at.
log_state-StatusKnown :
    (s : Sample) (m : LogMemory)
    → StatusKnown (some s.status_word) (log_state s m).0
      × ((log_state s m).0.last_logged_control_word ≡ m.last_logged_control_word)
unfolding log_state
log_state-StatusKnown s m =
    if_cases
      (λ (t : LogMemory × List RuntimeLogEvent).
        StatusKnown (some s.status_word) t.0
        × (t.0.last_logged_control_word ≡ m.last_logged_control_word))
      (is_news s m) (λ news. ((refl, refl), refl))
      (λ old. ((ground (arith, old), ground (arith, old)), refl))

log_word_keeps :
    (s : Sample) (m : LogMemory)
    → ((log_word s m).0.last_logged_status_word ≡ m.last_logged_status_word)
      × ((log_word s m).0.last_logged_cia402_state ≡ m.last_logged_cia402_state)
      × ((log_word s m).0.last_logged_control_word ≡ s.sent)
unfolding log_word
log_word_keeps s m =
    if_cases
      (λ (t : LogMemory × List RuntimeLogEvent).
        (t.0.last_logged_status_word ≡ m.last_logged_status_word)
        × (t.0.last_logged_cia402_state ≡ m.last_logged_cia402_state)
        × (t.0.last_logged_control_word ≡ s.sent))
      (s.sent == m.last_logged_control_word) (λ same. (refl, refl, ground (arith, same)))
      (λ other. (refl, refl, refl))

-- The three parts of a cycle.
glue :
    (tell : RuntimeLogEvent → Option ℕ) (xs ys zs : List RuntimeLogEvent) {a b c : List ℕ}
    → select tell xs ≡ a
    → select tell ys ≡ b
    → select tell zs ≡ c
    → select tell (xs ++ (ys ++ zs)) ≡ a ++ (b ++ c)
glue tell xs ys zs p q r =
    select-append tell xs (ys ++ zs)
    ∙ ap₂ (λ k l. k ++ l) p (select-append tell ys zs ∙ ap₂ (λ k l. k ++ l) q r)

-- News is what is not known.
as_news : (n k : Bool) (ws : List ℕ) → n ≡ not k → (if n then ws else []) ≡ (if k then [] else ws)
as_news n true ws e = rw (e) refl
as_news n false ws e = rw (e) refl

as_fault :
    (n k : Bool) (w : ℕ)
    → n ≡ not k
    → (if n && is_fault w then w ∷ [] else []) ≡ faults (if k then [] else w ∷ [])
unfolding faults
as_fault n true w e = rw (e) refl
as_fault n false w e = rw (e) refl

-- A cycle tells of its status word and of its control word, each where it is another than before.
pub log_cycle_tells :
    (activated : Bool) (s : Sample) (known : Option ℕ) (m : LogMemory)
    → StatusKnown known m
    → let told = (log_cycle activated s m).1 in
      (select status_told told ≡ (if is_known known s.status_word then [] else s.status_word ∷ []))
      × (select fault_told told
          ≡ faults (if is_known known s.status_word then [] else s.status_word ∷ []))
      × (select word_told told ≡ (if s.sent == m.last_logged_control_word then [] else s.sent ∷ []))
unfolding log_cycle
log_cycle_tells activated s known m h =
    let st = log_state s m in
    let wd = log_word s st.0 in
    let sp = maybe_log_target_setpoint activated s wd.0 in
    let news = is_news_lem s known m h in
    let p = log_state_tells s m in
    let q = log_word_tells s st.0 in
    let r = setpoint-IsSilent activated s wd.0 in
    let kept = (log_state-StatusKnown s m).1 in
    (
      glue status_told st.1 wd.1 sp.1 p.0 q.0 r.0
          ∙ (append_nil _
              ∙ as_news (is_news s m) (is_known known s.status_word) (s.status_word ∷ []) news),
      glue fault_told st.1 wd.1 sp.1 p.1 q.1 r.1
          ∙ (append_nil _
              ∙ as_fault (is_news s m) (is_known known s.status_word) s.status_word news),
      glue word_told st.1 wd.1 sp.1 p.2 q.2 r.2
          ∙ append_nil _
          ∙ ap (λ w. if s.sent == w then [] else s.sent ∷ []) kept,
    )

-- What is known after a cycle.
pub log_cycle-StatusKnown :
    (activated : Bool) (s : Sample) (m : LogMemory)
    → StatusKnown (some s.status_word) (log_cycle activated s m).0
      × ((log_cycle activated s m).0.last_logged_control_word ≡ s.sent)
unfolding log_cycle
log_cycle-StatusKnown activated s m =
    let st = log_state s m in
    let wd = log_word s st.0 in
    let (_, _, _, status, state, word) = setpoint-IsSilent activated s wd.0 in
    let (status', state', word') = log_word_keeps s st.0 in
    let k = (log_state-StatusKnown s m).0 in
    ((status ∙ status' ∙ k.0, state ∙ state' ∙ k.1), word ∙ word')
