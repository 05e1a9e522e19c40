-- ===== src/Seqlock/Snapshot.antt =====
-- A value that a reader accepts was not torn by the writer.
use robot_ethercat_master_ig.Prelude.{
  ℕ, suc, ◌+◌, ◌%◌, ◌^◌, ◌≤◌, ◌<◌, ◌≡◌, refl, ap, ◌∙◌, sym, subst, Bool, true, false, not, arith,
  some, List, [], ◌∷◌, ◌++◌, length, get_or, set,
}
use robot_ethercat_master_ig.Prelude.Int.{ℤ}
use robot_ethercat_master_ig.Seqlock.{
  Cache, write_begin, write_end, is_writing, read_begin, read_retry, read_index,
}

-- What the writer does between its entry and its exit, and these two.
pub data Write : Type 0 where
  begins ends : Write
  stores : ℕ → ℤ → Write

unfoldable pub write : Write → Cache → Cache
write Write.begins c = write_begin c
write Write.ends c = write_end c
write (Write.stores i v) c = record c { cells = set c.cells i v }

abbrev pub writes : List Write → Cache → Cache
writes [] c = c
writes (w ∷ ws) c = writes ws (write w c)

-- There is one writer, which stores only between its entry and its exit: whether it stands there after
-- a step, by its own steps.
abbrev pub enters : Write → Bool → Bool
enters Write.begins inside = true
enters Write.ends inside = false
enters (Write.stores i v) inside = inside

abbrev pub stands : List Write → Bool → Bool
stands [] inside = inside
stands (w ∷ ws) inside = stands ws (enters w inside)

abbrev pub is_allowed : Write → Bool → Bool
is_allowed Write.begins inside = not inside
is_allowed Write.ends inside = inside
is_allowed (Write.stores i v) inside = inside

abbrev pub Legal : List Write → Bool → Type 0
Legal [] inside = Unit
Legal (w ∷ ws) inside = (is_allowed w inside ≡ true) × Legal ws (enters w inside)

-- How often the sequence number is counted up.
abbrev ticks : List Write → ℕ
ticks [] = 0
ticks (Write.begins ∷ ws) = suc (ticks ws)
ticks (Write.ends ∷ ws) = suc (ticks ws)
ticks (Write.stores i v ∷ ws) = ticks ws

ticks-length : (ws : List Write) → ticks ws ≤ length ws
ticks-length [] = omega arith
ticks-length (Write.begins ∷ ws) = omega (arith, ticks-length ws)
ticks-length (Write.ends ∷ ws) = omega (arith, ticks-length ws)
ticks-length (Write.stores i v ∷ ws) = omega (arith, ticks-length ws)

seq-writes :
    (ws : List Write) (c : Cache) → c.seq < 2 ^ 64 → (writes ws c).seq ≡ (c.seq + ticks ws) % 2 ^ 64
unfolding write write_begin write_end
seq-writes [] c h = omega arith
seq-writes (Write.begins ∷ ws) c h = omega (arith, seq-writes ws (write_begin c) (omega arith))
seq-writes (Write.ends ∷ ws) c h = omega (arith, seq-writes ws (write_end c) (omega arith))
seq-writes (Write.stores i v ∷ ws) c h = seq-writes ws (record c { cells = set c.cells i v }) h

writes-append : (us ws : List Write) (c : Cache) → writes (us ++ ws) c ≡ writes ws (writes us c)
writes-append [] ws c = refl
writes-append (u ∷ us) ws c = writes-append us ws (write u c)

ticks-append : (us ws : List Write) → ticks (us ++ ws) ≡ ticks us + ticks ws
ticks-append [] ws = omega arith
ticks-append (Write.begins ∷ us) ws = omega (arith, ticks-append us ws)
ticks-append (Write.ends ∷ us) ws = omega (arith, ticks-append us ws)
ticks-append (Write.stores i v ∷ us) ws = ticks-append us ws

-- The number is odd exactly while the writer stands between its entry and its exit.
write-parity :
    (w : Write) (inside : Bool) (c : Cache)
    → is_writing c ≡ inside
    → is_allowed w inside ≡ true
    → is_writing (write w c) ≡ enters w inside
unfolding write write_begin write_end
write-parity Write.begins inside c odd allowed = ground arith
write-parity Write.ends inside c odd allowed = ground arith
write-parity (Write.stores i v) inside c odd allowed = odd

writes-parity :
    (ws : List Write) (inside : Bool) (c : Cache)
    → is_writing c ≡ inside
    → Legal ws inside
    → is_writing (writes ws c) ≡ stands ws inside
writes-parity [] inside c odd legal = odd
writes-parity (w ∷ ws) inside c odd (allowed, legal) =
    writes-parity ws (enters w inside) (write w c) (write-parity w inside c odd allowed) legal

seq-fits : (ws : List Write) (c : Cache) → c.seq < 2 ^ 64 → (writes ws c).seq < 2 ^ 64
seq-fits ws c h = omega (arith, seq-writes ws c h)

-- Out of a write, a first step counts the number up.
ticks-Legal : (us : List Write) → Legal us false → ticks us ≡ 0 → us ≡ []
ticks-Legal [] legal counted = refl
ticks-Legal (Write.begins ∷ us) legal counted = absurd (omega arith)
ticks-Legal (Write.ends ∷ us) legal counted = absurd (omega arith)
ticks-Legal (Write.stores i v ∷ us) (allowed, legal) counted = absurd (ground arith)

Legal-split :
    (us ws : List Write) (inside : Bool)
    → Legal (us ++ ws) inside
    → Legal us inside × Legal ws (stands us inside)
Legal-split [] ws inside legal = (tt, legal)
Legal-split (u ∷ us) ws inside (allowed, legal) =
    let (first, later) = Legal-split us ws (enters u inside) legal in ((allowed, first), later)

append-nil_left : (us ws : List Write) → us ++ ws ≡ [] → us ≡ []
append-nil_left [] ws e = refl
append-nil_left (u ∷ us) ws e = absurd (ground (arith, e))

read_index-accepted :
    (first middle last : Cache) (i : ℕ) (d v : ℤ)
    → read_index first middle last i d ≡ some v
    → (is_writing first ≡ false) × (last.seq ≡ first.seq) × (get_or middle.cells i d ≡ v)
unfolding read_index read_begin read_retry
read_index-accepted first middle last i d v h = ground arith

-- Let the cache start with an even number and the writer outside, storing only between its entry and
-- its exit. Let it have taken the steps `past` when a read begins, take `us` from there to the read's
-- look at the data, and `ws` from there to the check at the end, fewer than 2^64 steps in all within the
-- read. Where the read accepts a value, the writer stood outside when the read began, so that all its
-- entries had been followed by their exits; it took no step within the read; and the value is the one
-- that `past` has left.
pub read_index_consistent :
    (past us ws : List Write) (c : Cache) (i : ℕ) (d v : ℤ)
    → c.seq < 2 ^ 64
    → is_writing c ≡ false
    → Legal (past ++ (us ++ ws)) false
    → length us + length ws < 2 ^ 64
    → let first = writes past c in
      read_index first (writes us first) (writes ws (writes us first)) i d ≡ some v
      → (stands past false ≡ false) × (us ++ ws ≡ []) × (v ≡ get_or (writes past c).cells i d)
read_index_consistent past us ws c i d v h fresh legal short accepted =
    let first = writes past c in
    let (even, same, value) =
      read_index-accepted first (writes us first) (writes ws (writes us first)) i d v accepted in
    let (before, within) = Legal-split past (us ++ ws) false legal in
    let outside = sym (writes-parity past false c fresh before) ∙ even in
    let final = ap (λ x. x.seq) (writes-append us ws first) in
    let counted : ticks (us ++ ws) ≡ 0 = omega (
      arith,
      seq-writes (us ++ ws) first (seq-fits past c h),
      seq-fits past c h,
      ticks-append us ws,
      ticks-length us,
      ticks-length ws,
      final,
      same,
    ) in
    let quiet = ticks-Legal (us ++ ws) (subst (Legal (us ++ ws)) outside within) counted in
    let unchanged = ap (λ l. writes l first) (append-nil_left us ws quiet) in
    (outside, quiet, sym value ∙ ap (λ x. get_or x.cells i d) unchanged)
