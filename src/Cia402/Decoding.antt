-- ===== src/Cia402/Decoding.antt =====
-- What the decoded state says of the bits of the status word. The facts range over all words of
-- 16 bits, and are checked for each of them.
use robot_ethercat_master_ig.Prelude.{
  ℕ, zero, suc, ◌+◌, ◌^◌, ◌≤◌, ◌<◌, subst, ℕ_discrete, if◌then◌else◌, ◌≡◌, ◌⊎◌, refl, Bool, true,
  false, not, arith, bit_and, ◌==◌, ==_iff,
}
use robot_ethercat_master_ig.Cia402.{
  Cia402State, not_ready_to_switch_on, switch_on_disabled, operation_enabled, quick_stop_active,
  fault_reaction_active, fault, state_value, is_operation_enabled, is_fault, decode_cia402_state,
}

-- A fault, or the reaction to one.
abbrev pub is_faulty : Cia402State → Bool
is_faulty fault_reaction_active = true
is_faulty fault = true
is_faulty _ = false

-- The bits that define a state in DS402: bit 5 counts only in the ready and running states.
abbrev pub state_mask : Cia402State → ℕ
state_mask not_ready_to_switch_on = 0x4F
state_mask switch_on_disabled = 0x4F
state_mask fault_reaction_active = 0x4F
state_mask fault = 0x4F
state_mask _ = 0x6F

abbrev agree : Bool → Bool → Bool
agree true b = b
agree false b = not b

abbrev implies : Bool → Bool → Bool
implies true b = b
implies false b = true

abbrev is_running : Cia402State → Bool
is_running operation_enabled = true
is_running quick_stop_active = true
is_running _ = false

-- A test of `count` words in a row, the first of which is `word`.
sweep : (ℕ → Bool) → ℕ → ℕ → Bool
sweep test word zero = true
sweep test word (suc count) =
    let later = sweep test (suc word) count in if test word then later else false

sweep-passed :
    (test : ℕ → Bool) (count word sw : ℕ)
    → sweep test word count ≡ true
    → word ≤ sw
    → sw < word + count
    → test sw ≡ true
unfolding sweep
sweep-passed test zero word sw passed from before = absurd (omega arith)
sweep-passed test (suc count) word sw passed from before = elim (ℕ_discrete word sw) [
  | yes same ↦ subst (λ w. test w ≡ true) same (ground arith)
  | no other ↦ sweep-passed test count (suc word) sw (ground arith) (omega arith) (omega arith)
]

-- A test that all words of 16 bits pass.
every_word :
    (test : ℕ → Bool) → sweep test 0 (2 ^ 16) ≡ true → (sw : ℕ) → sw < 2 ^ 16 → test sw ≡ true
every_word test passed sw h = sweep-passed test (2 ^ 16) 0 sw passed (omega arith) (omega arith)

fault_test : ℕ → Bool
unfolding is_fault decode_cia402_state
fault_test sw = agree (is_fault sw) (is_faulty (decode_cia402_state sw))

fault_table : sweep fault_test 0 (2 ^ 16) ≡ true
unfolding sweep fault_test
fault_table = refl

-- On every status word of 16 bits the fault bit is set exactly when the decoded state is Fault or
-- Fault reaction active.
pub is_fault-decode : (sw : ℕ) → sw < 2 ^ 16 → is_fault sw ≡ is_faulty (decode_cia402_state sw)
unfolding fault_test
is_fault-decode sw h = both (is_fault sw) _ (every_word fault_test fault_table sw h)
  where
    both : (a b : Bool) → agree a b ≡ true → a ≡ b
    both a b e = ground arith

same_state : Cia402State → Cia402State → Bool
same_state s t = state_value s == state_value t

pattern_test : Cia402State → ℕ → Bool
unfolding decode_cia402_state same_state
pattern_test s sw =
    implies (bit_and sw (state_mask s) == state_value s) (same_state (decode_cia402_state sw) s)

pattern_table : (s : Cia402State) → sweep (pattern_test s) 0 (2 ^ 16) ≡ true
unfolding sweep pattern_test
pattern_table not_ready_to_switch_on = refl
pattern_table _ = refl

same_state_sound : (s t : Cia402State) → same_state s t ≡ true → s ≡ t
unfolding same_state
same_state_sound s t h = ground arith

-- A status word of 16 bits that shows the bit pattern of a DS402 state is decoded as that state.
pub decode-pattern :
    (s : Cia402State) (sw : ℕ)
    → sw < 2 ^ 16
    → bit_and sw (state_mask s) ≡ state_value s
    → decode_cia402_state sw ≡ s
unfolding pattern_test
decode-pattern s sw h e =
    same_state_sound _ s
      (apply (every_word (pattern_test s) (pattern_table s) sw h) ((==_iff _ _).1 e))
  where
    apply : {a b : Bool} → implies a b ≡ true → a ≡ true → b ≡ true
    apply {a} {b} f x = ground arith

enabled_test : ℕ → Bool
unfolding is_operation_enabled decode_cia402_state
enabled_test sw = implies (is_running (decode_cia402_state sw)) (is_operation_enabled sw)

enabled_table : sweep enabled_test 0 (2 ^ 16) ≡ true
unfolding sweep enabled_test
enabled_table = refl

-- On every status word of 16 bits that is decoded as Operation enabled or as Quick stop active the
-- test for an enabled operation succeeds: it does not tell the two states apart.
pub is_operation_enabled-running :
    (sw : ℕ)
    → sw < 2 ^ 16
    → (decode_cia402_state sw ≡ operation_enabled) ⊎ (decode_cia402_state sw ≡ quick_stop_active)
    → is_operation_enabled sw ≡ true
unfolding enabled_test
is_operation_enabled-running sw h r =
    apply (decode_cia402_state sw) r (every_word enabled_test enabled_table sw h)
  where
    apply :
        (s : Cia402State) {b : Bool}
        → (s ≡ operation_enabled) ⊎ (s ≡ quick_stop_active)
        → implies (is_running s) b ≡ true
        → b ≡ true
    apply s {b} e i = ground arith
