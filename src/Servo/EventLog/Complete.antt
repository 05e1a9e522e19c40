-- ===== src/Servo/EventLog/Complete.antt =====
-- What the events made for a motor tell of its status words and control words (sendDataCommon of
-- src/master/igh/ethercat_servo.cpp).
use robot_ethercat_master_ig.Prelude.{
  ℕ, ◌≡◌, inl, inr, refl, sym, ◌∙◌, ap, ap₂, Bool, Option, none, some, List, [], ◌∷◌, ◌++◌, map,
  if◌then◌else◌, Bool-cases,
}
use robot_ethercat_master_ig.Cia402.{is_fault}
use robot_ethercat_master_ig.Logger.{RuntimeLogEvent}
use robot_ethercat_master_ig.Servo.EventLog.{LogMemory, fresh_memory, Sample, log_cycle, log_cycles}
use robot_ethercat_master_ig.Servo.EventLog.Told.{
  status_told, fault_told, word_told, select, is_known, changes, faults, StatusKnown, select-append,
  log_cycle_tells, log_cycle-StatusKnown,
}

-- The list of changes, by what its first entry adds.
changes-cons :
    (known : Option ℕ) (w : ℕ) (ws : List ℕ)
    → changes known (w ∷ ws) ≡ (if is_known known w then [] else w ∷ []) ++ changes (some w) ws
unfolding changes
changes-cons known w ws = elim (Bool-cases (is_known known w)) [
  | inl old ↦ rw (old) refl
  | inr new ↦ rw (new) refl
]

faults-append : (xs ys : List ℕ) → faults (xs ++ ys) ≡ faults xs ++ faults ys
unfolding faults
faults-append [] ys = refl
faults-append (x ∷ xs) ys = elim (Bool-cases (is_fault x)) [
  | inl bad ↦ rw (bad, faults-append xs ys) refl
  | inr good ↦ rw (good, faults-append xs ys) refl
]

abbrev pub statuses : List (Bool × Sample) → List ℕ
statuses = map (λ c. c.1.status_word)

abbrev pub sent_words : List (Bool × Sample) → List ℕ
sent_words = map (λ c. c.1.sent)

run_on :
    (tell : RuntimeLogEvent → Option ℕ) (es : List RuntimeLogEvent) (m : LogMemory)
    (rest : List (Bool × Sample)) {a b : List ℕ}
    → select tell es ≡ a
    → select tell (log_cycles m rest) ≡ b
    → select tell (es ++ log_cycles m rest) ≡ a ++ b
run_on tell es m rest p q = select-append tell es (log_cycles m rest) ∙ ap₂ (λ k l. k ++ l) p q

log_cycles_tell :
    (run : List (Bool × Sample)) (known : Option ℕ) (m : LogMemory)
    → StatusKnown known m
    → (select status_told (log_cycles m run) ≡ changes known (statuses run))
      × (select fault_told (log_cycles m run) ≡ faults (changes known (statuses run)))
      × (select word_told (log_cycles m run)
          ≡ changes (some m.last_logged_control_word) (sent_words run))
unfolding log_cycles changes select faults
log_cycles_tell [] known m h = (refl, refl, refl)
log_cycles_tell ((activated, s) ∷ rest) known m h =
    let one = log_cycle activated s m in
    let told = log_cycle_tells activated s known m h in
    let next = log_cycle-StatusKnown activated s m in
    let later = log_cycles_tell rest (some s.status_word) one.0 next.0 in
    let w = s.status_word in
    let ws = statuses rest in
    let first = if is_known known w then [] else w ∷ [] in
    (
      run_on status_told one.1 one.0 rest told.0 later.0 ∙ sym (changes-cons known w ws),
      run_on fault_told one.1 one.0 rest told.1 later.1
          ∙ sym (ap faults (changes-cons known w ws) ∙ faults-append first (changes (some w) ws)),
      run_on word_told one.1 one.0 rest told.2
            (later.2 ∙ ap (λ v. changes (some v) (sent_words rest)) next.1)
          ∙ sym (changes-cons (some m.last_logged_control_word) s.sent (sent_words rest)),
    )

-- The events that are made from the start on, put into a log or not: the status words and the words
-- sent without repetitions, and the status words among them that show a fault.
pub log_cycles_complete :
    (run : List (Bool × Sample))
    → (select status_told (log_cycles fresh_memory run) ≡ changes none (statuses run))
      × (select fault_told (log_cycles fresh_memory run) ≡ faults (changes none (statuses run)))
      × (select word_told (log_cycles fresh_memory run) ≡ changes (some 0xFFFF) (sent_words run))
log_cycles_complete run = log_cycles_tell run none fresh_memory refl
