-- ===== src/Seqlock.antt =====
-- src/ethercat_master_igh/include/ethercat_joint/util/seqlock.hpp and pdo_cache_helpers.hpp: the
-- sequence lock between the one writer of the cached process data and its readers. Steps take effect
-- in one order that all threads see; the effects of weaker memory orders are not in the model.
pub mod Snapshot
mod Tests
use robot_ethercat_master_ig.Prelude.{
  ℕ, ◌+◌, ◌%◌, Bool, not, Option, none, some, List, [], ◌∷◌, ◌==◌, if◌then◌else◌, get_or, set,
}
use robot_ethercat_master_ig.Prelude.Int.{ℤ}
use robot_ethercat_master_ig.Prelude.Word.{u64}

-- The sequence number and the data that it guards.
pub record Cache : Type 0 where
  pub seq : ℕ  -- uint64_t
  pub cells : List ℤ

unfoldable pub write_begin : Cache → Cache
write_begin c = record c { seq = u64 (c.seq + 1) }

unfoldable pub write_end : Cache → Cache
write_end c = record c { seq = u64 (c.seq + 1) }

abbrev pub is_writing : Cache → Bool
is_writing c = c.seq % 2 == 1

-- One pass of the loop in `readBegin`: `none` where it goes round again.
unfoldable pub read_begin : Cache → Option ℕ
read_begin c = if is_writing c then none else some c.seq

unfoldable pub read_retry : Cache → ℕ → Bool
read_retry c start = not (c.seq == start)

-- One pass of the loop in `seqlockReadIndex`, which looks at the cache at three moments.
unfoldable pub read_index : Cache → Cache → Cache → ℕ → ℤ → Option ℤ
unfolding read_begin read_retry
read_index first middle last index fallback = elim (read_begin first) [
  | none ↦ none
  | some s ↦ if read_retry last s then none else some (get_or middle.cells index fallback)
]
