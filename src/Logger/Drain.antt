-- ===== src/Logger/Drain.antt =====
-- The loop of src/diagnostics/runtime_logger.cpp that drains the ring into the file.
use robot_ethercat_master_ig.Prelude.{
  refl, ℕ, zero, suc, ◌+◌, ◌<◌, ◌≡◌, ap, ◌∙◌, true, Option, some, List, [], ◌∷◌, ◌++◌, map, arith,
  length,
}
use robot_ethercat_master_ig.Logger.{
  RuntimeLogEvent, RuntimeLogger, Ring, Row, ring_capacity, next_index, drain_loop, drain, row_of,
}
use robot_ethercat_master_ig.Logger.Queue.{
  Represents, pop_empty, pop_first, leave-Represents, length-Represents,
}
use Prim.Native.String.{String}
use mathlib.Core.List.{append_assoc, append-nil}

-- The ring with nothing left in it.
abbrev pub emptied : Ring → Ring
emptied r = record r { tail = r.head }

abbrev emptied_by_one : Ring → Ring
emptied_by_one r = record r { tail = next_index r.tail }

empty_is_emptied : (r : Ring) → r.tail ≡ r.head → r ≡ emptied r
empty_is_emptied r same = ap (λ i. record r { tail = i }) same

drain_loop_lem :
    (fuel : ℕ) (write : RuntimeLogEvent → Row) (r : Ring) (queue : List RuntimeLogEvent)
    (rows : List Row) (count : ℕ)
    → length queue < fuel
    → Represents r queue
    → drain_loop fuel write r rows count
      ≡ some (emptied r, rows ++ map write queue, count + length queue)
unfolding drain_loop
drain_loop_lem zero write r queue rows count room v = absurd (omega arith)
drain_loop_lem (suc fuel) write r [] rows count room v =
    rw (pop_empty r v, drain_loop) cc (empty_is_emptied r v.held, append-nil rows, no_more)
  where
    no_more : count + 0 ≡ count
    no_more = omega arith
drain_loop_lem (suc fuel) write r (e ∷ es) rows count room v =
    rw (pop_first r e es v, drain_loop)
      (drain_loop_lem fuel write (emptied_by_one r) es (rows ++ write e ∷ []) (count + 1)
          (omega arith) (leave-Represents r e es v)
        ∙ cc (append_assoc rows (write e ∷ []) (map write es), one_more))
  where
    one_more : count + 1 + length es ≡ count + suc (length es)
    one_more = omega arith

-- On a ring that holds the events `queue`, with the log enabled and its file open, the loop of `drain`
-- comes to its end on the fuel that `drain` gives it: every event has been written once, oldest
-- first, behind the lines that were there, the ring is empty, and the count is the number of events.
pub drain-Represents :
    (l : RuntimeLogger) (queue : List RuntimeLogEvent) (fetcher : Option (ℕ → ℕ)) (iso : ℕ → String)
    → Represents l.ring queue
    → l.enabled ≡ true
    → l.is_open ≡ true
    → (r : Ring) × (drain l fetcher iso
        ≡ some (
          record l { ring = r; rows = l.rows ++ map (row_of fetcher iso l.mono_base_ns) queue },
          length queue,
        ))
      × Represents r []
unfolding drain
drain-Represents l queue fetcher iso v on file_open = (
  emptied l.ring,
  ground (
    arith,
    drain_loop_lem ring_capacity (row_of fetcher iso l.mono_base_ns) l.ring queue l.rows 0
        (length-Represents l.ring queue v) v,
  ),
  record { sized = v.sized; head_in = v.head_in; tail_in = v.head_in; held = refl },
)
