-- ===== src/Logger/Queue.antt =====
-- The ring of the log against the queue of events that it stands for.
use robot_ethercat_master_ig.Prelude.{
  ℕ, zero, suc, ◌+◌, ◌-◌, ◌<◌, ◌≡◌, ◌≢◌, sym, ap, ◌∙◌, inl, inr, Bool-cases, none, some, List, [],
  ◌∷◌, ◌++◌, arith, leb, ◌==◌, if◌then◌else◌, length, get_elem?, get_or, set, length-set,
  get_elem?-set_self, get_elem?-set_ne,
}
use mathlib.Core.Option.{some-injective, none-ne-some}
use robot_ethercat_master_ig.Logger.{
  RuntimeLogEvent, Ring, blank, ring_capacity, next_index, try_push_to_ring, try_pop_from_ring,
}

-- From index `tail` up to `head` the buffer holds these events, the oldest first.
abbrev pub Holds : List RuntimeLogEvent → ℕ → ℕ → List RuntimeLogEvent → Type 0
Holds buffer tail head [] = tail ≡ head
Holds buffer tail head (e ∷ es) =
    (tail ≢ head) × (get_elem? buffer tail ≡ some e) × Holds buffer (next_index tail) head es

pub record Represents (r : Ring) (queue : List RuntimeLogEvent) : Type 0 where
  pub sized : length r.buffer ≡ ring_capacity
  pub head_in : r.head < ring_capacity
  pub tail_in : r.tail < ring_capacity
  pub held : Holds r.buffer r.tail r.head queue

-- The number of steps from one index round to another.
abbrev gap : ℕ → ℕ → ℕ
gap tail head = if leb tail head then head - tail else head + ring_capacity - tail

gap_next :
    (tail head : ℕ)
    → tail < ring_capacity
    → head < ring_capacity
    → tail ≢ head
    → gap tail head ≡ gap (next_index tail) head + 1
gap_next tail head t h ne = ground arith

next_in : (i : ℕ) → next_index i < ring_capacity
next_in i = omega arith

gap_full :
    (tail head : ℕ)
    → tail < ring_capacity
    → head < ring_capacity
    → tail ≡ next_index head
    → gap tail head ≡ ring_capacity - 1
gap_full tail head t h e = ground arith

next_ne : (i : ℕ) → i ≢ next_index i
next_ne i e = omega arith

length-gap :
    (buffer queue : List RuntimeLogEvent) (tail head : ℕ)
    → tail < ring_capacity
    → head < ring_capacity
    → Holds buffer tail head queue
    → length queue ≡ gap tail head
length-gap buffer [] tail head t h held = ground arith
length-gap buffer (e ∷ es) tail head t h held = omega (
  arith,
  length-gap buffer es (next_index tail) head (next_in tail) h held.2,
  gap_next tail head t h held.0,
)

-- One slot stays free, which tells a full ring from an empty one.
pub room_iff :
    (r : Ring) (queue : List RuntimeLogEvent)
    → Represents r queue
    → (next_index r.head == r.tail) ≡ (leb (ring_capacity - 1) (length queue))
room_iff r queue v =
    ground (arith, length-gap r.buffer queue r.tail r.head v.tail_in v.head_in v.held)

-- A write at `head` touches no slot that holds an event.
Holds-set :
    (buffer queue : List RuntimeLogEvent) (tail head : ℕ) (e : RuntimeLogEvent)
    → Holds buffer tail head queue
    → Holds (set buffer head e) tail head queue
Holds-set buffer [] tail head e held = held
Holds-set buffer (x ∷ xs) tail head e held = (
  held.0,
  rw (get_elem?-set_ne buffer e (λ (same : head ≡ tail). held.0 (sym same))) held.1,
  Holds-set buffer xs (next_index tail) head e held.2,
)

-- With a slot to spare, moving `head` on takes in what stands there.
Holds-next :
    (buffer queue : List RuntimeLogEvent) (tail head : ℕ) (e : RuntimeLogEvent)
    → tail < ring_capacity
    → head < ring_capacity
    → gap tail head < ring_capacity - 1
    → get_elem? buffer head ≡ some e
    → Holds buffer tail head queue
    → Holds buffer tail (next_index head) (queue ++ e ∷ [])
Holds-next buffer [] tail head e t h room here held =
    (λ same. next_ne head (sym held ∙ same), rw held here, ap next_index held)
Holds-next buffer (x ∷ xs) tail head e t h room here held = (
  λ same. omega (arith, gap_full tail head t h same),
  held.1,
  Holds-next buffer xs (next_index tail) head e (next_in tail) h
      (omega (arith, gap_next tail head t h held.0)) here held.2,
)

pub store-Represents :
    (r : Ring) (queue : List RuntimeLogEvent) (e : RuntimeLogEvent)
    → Represents r queue
    → Represents (record r { buffer = set r.buffer r.head e }) queue
store-Represents r queue e v = record {
  sized = length-set r.buffer r.head e ∙ v.sized;
  head_in = v.head_in;
  tail_in = v.tail_in;
  held = Holds-set r.buffer queue r.tail r.head e v.held;
}

pub publish-Represents :
    (r : Ring) (queue : List RuntimeLogEvent) (e : RuntimeLogEvent)
    → Represents r queue
    → length queue < ring_capacity - 1
    → get_elem? r.buffer r.head ≡ some e
    → Represents (record r { head = next_index r.head }) (queue ++ e ∷ [])
publish-Represents r queue e v room here = record {
  sized = v.sized;
  head_in = next_in r.head;
  tail_in = v.tail_in;
  held =
      Holds-next r.buffer queue r.tail r.head e v.tail_in v.head_in
        (omega (arith, length-gap r.buffer queue r.tail r.head v.tail_in v.head_in v.held)) here
        v.held;
}

-- What the abstract queue does with one more event: the ring's capacity less one is its bound.
unfoldable pub enqueue : RuntimeLogEvent → List RuntimeLogEvent → List RuntimeLogEvent
enqueue event queue = if leb (ring_capacity - 1) (length queue) then queue else queue ++ event ∷ []

push_room :
    (r : Ring) (queue : List RuntimeLogEvent) (event : RuntimeLogEvent)
    → Represents r queue
    → length queue < ring_capacity - 1
    → Represents
        (record r { buffer = set r.buffer r.head event; head = next_index r.head })
        (queue ++ event ∷ [])
push_room r queue event v room =
    publish-Represents (record r { buffer = set r.buffer r.head event }) queue event
      (store-Represents r queue event v) room
      (get_elem?-set_self r.buffer r.head event (omega (arith, v.sized, v.head_in)))

pub push-Represents :
    (r : Ring) (queue : List RuntimeLogEvent) (event : RuntimeLogEvent)
    → Represents r queue
    → Represents (try_push_to_ring r event).0 (enqueue event queue)
unfolding try_push_to_ring enqueue
push-Represents r queue event v = elim (Bool-cases (leb (ring_capacity - 1) (length queue))) [
  | inl full ↦ rw (room_iff r queue v) (rw full v)
  | inr room ↦ rw (room_iff r queue v) (rw room (push_room r queue event v (ground arith)))
]

pub pop_empty : (r : Ring) → Represents r [] → try_pop_from_ring r ≡ none
unfolding try_pop_from_ring
pop_empty r v = ground (arith, v.held)

pub get_or-get_elem? :
    (xs : List RuntimeLogEvent) (i : ℕ) (d x : RuntimeLogEvent)
    → get_elem? xs i ≡ some x
    → get_or xs i d ≡ x
get_or-get_elem? [] i d x h = absurd (none-ne-some x h)
get_or-get_elem? (y ∷ ys) zero d x h = some-injective y x h
get_or-get_elem? (y ∷ ys) (suc i) d x h = get_or-get_elem? ys i d x h

pub leave-Represents :
    (r : Ring) (e : RuntimeLogEvent) (es : List RuntimeLogEvent)
    → Represents r (e ∷ es)
    → Represents (record r { tail = next_index r.tail }) es
leave-Represents r e es v = record {
  sized = v.sized;
  head_in = v.head_in;
  tail_in = next_in r.tail;
  held = v.held.2;
}

pub first_lem :
    (r : Ring) (e : RuntimeLogEvent) (es : List RuntimeLogEvent)
    → Represents r (e ∷ es)
    → get_or r.buffer r.tail blank ≡ e
first_lem r e es v = get_or-get_elem? r.buffer r.tail blank e v.held.1

pub pop_first :
    (r : Ring) (e : RuntimeLogEvent) (es : List RuntimeLogEvent)
    → Represents r (e ∷ es)
    → try_pop_from_ring r ≡ some (record r { tail = next_index r.tail }, e)
unfolding try_pop_from_ring
pop_first r e es v = ground (arith, v.held.0, first_lem r e es v)

pub length-Represents :
    (r : Ring) (queue : List RuntimeLogEvent) → Represents r queue → length queue < ring_capacity
length-Represents r queue v =
    grind (arith, length-gap r.buffer queue r.tail r.head v.tail_in v.head_in v.held)
