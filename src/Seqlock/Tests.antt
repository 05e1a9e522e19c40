-- ===== src/Seqlock/Tests.antt =====
-- A read while the writer is at rest, and one that the writer disturbs.
use robot_ethercat_master_ig.Prelude.{◌≡◌, refl, arith, none, false, List, [], ◌∷◌, ◌++◌, get_or}
use robot_ethercat_master_ig.Prelude.Int.{pos}
use robot_ethercat_master_ig.Seqlock.{
  Cache, write_begin, write_end, read_begin, read_retry, read_index,
}
use robot_ethercat_master_ig.Seqlock.Snapshot.{Write, write, writes, stands, read_index_consistent}

abbrev cache : Cache
cache = record { seq = 4; cells = pos 10 ∷ pos 20 ∷ [] }

disturbed :
    read_index cache
      (writes (Write.begins ∷ Write.stores 0 (pos 11) ∷ []) cache)
      (writes (Write.begins ∷ Write.stores 0 (pos 11) ∷ Write.ends ∷ []) cache)
      1
      (pos 0)
    ≡ none
unfolding read_index read_begin read_retry write write_begin write_end
disturbed = refl

-- A whole write before the read.
abbrev written : List Write
written = Write.begins ∷ Write.stores 1 (pos 21) ∷ Write.ends ∷ []

read_index_consistent_example :
    (stands written false ≡ false)
    × (◌++◌ {A = Write} [] [] ≡ [])
    × (pos 21 ≡ get_or (writes written cache).cells 1 (pos 0))
unfolding read_index read_begin read_retry write write_begin write_end
read_index_consistent_example =
    read_index_consistent written [] [] cache 1 (pos 0) (pos 21) (omega arith) refl
      (refl, (refl, (refl, _))) (omega arith) refl
