-- ===== src/Logger/Interleaving.antt =====
-- The ring with its two threads: the real-time thread that pushes and the one that drains, each
-- between two accesses of the shared indices when the other moves. Every access takes effect at
-- once, in one order that both threads see; the effects of weaker memory orders are not in the model.
use robot_ethercat_master_ig.Prelude.{
  ◌-◌, ◌<◌, ◌≡◌, ◌∙◌, ap, sym, false, some, List, [], ◌∷◌, ◌++◌, arith, ◌==◌, if◌then◌else◌, length,
  get_elem?, get_elem?-set_self, get_or, set, inl, inr, Bool-cases,
}
use robot_ethercat_master_ig.Logger.{RuntimeLogEvent, Ring, blank, ring_capacity, next_index}
use robot_ethercat_master_ig.Logger.Queue.{
  Represents, room_iff, store-Represents, publish-Represents, leave-Represents, first_lem,
}
use mathlib.Core.List.{append_assoc}

-- Where `tryPushToRing` stands: not running; past its look at `ring_tail_`; past the write of the slot.
pub data Producer : Type 0 where
  idle : Producer
  admitted : RuntimeLogEvent → Producer
  stored : RuntimeLogEvent → Producer

-- Where `tryPopFromRing` stands: not running; past its look at `ring_head_`; past the read of the slot.
pub data Consumer : Type 0 where
  waiting : Consumer
  available : Consumer
  taken : RuntimeLogEvent → Consumer

-- `accepted` and `popped` are the events that the calls so far have taken in and given out.
pub record Shared : Type 0 where
  pub ring : Ring
  pub producer : Producer
  pub consumer : Consumer
  pub accepted : List RuntimeLogEvent
  pub popped : List RuntimeLogEvent

-- One access of one thread: the producer's with the event of a new call.
pub data Access : Type 0 where
  produce : RuntimeLogEvent → Access
  consume : Access

unfoldable pub step_producer : Shared → Producer → RuntimeLogEvent → Shared
step_producer s Producer.idle e =
    if next_index s.ring.head == s.ring.tail then s else record s { producer = Producer.admitted e }
step_producer s (Producer.admitted e) _ = record s {
  ring = record s.ring { buffer = set s.ring.buffer s.ring.head e };
  producer = Producer.stored e;
}
step_producer s (Producer.stored e) _ = record s {
  ring = record s.ring { head = next_index s.ring.head };
  producer = Producer.idle;
  accepted = s.accepted ++ e ∷ [];
}

unfoldable pub step_consumer : Shared → Consumer → Shared
step_consumer s Consumer.waiting =
    if s.ring.tail == s.ring.head then s else record s { consumer = Consumer.available }
step_consumer s Consumer.available = record s {
  consumer = Consumer.taken (get_or s.ring.buffer s.ring.tail blank);
}
step_consumer s (Consumer.taken e) = record s {
  ring = record s.ring { tail = next_index s.ring.tail };
  consumer = Consumer.waiting;
  popped = s.popped ++ e ∷ [];
}

unfoldable pub access : Shared → Access → Shared
unfolding step_producer step_consumer
access s (Access.produce e) = step_producer s s.producer e
access s Access.consume = step_consumer s s.consumer

unfoldable pub accesses : Shared → List Access → Shared
accesses s [] = s
accesses s (a ∷ rest) = accesses (access s a) rest

-- What the producer knows of the ring and of the queue in it.
abbrev Room : Producer → Ring → List RuntimeLogEvent → Type 0
Room Producer.idle r queue = Unit
Room (Producer.admitted e) r queue = length queue < ring_capacity - 1
Room (Producer.stored e) r queue =
    (length queue < ring_capacity - 1) × (get_elem? r.buffer r.head ≡ some e)

-- What the consumer knows of the queue.
abbrev Front : Consumer → List RuntimeLogEvent → Type 0
Front Consumer.waiting queue = Unit
Front Consumer.available queue = 0 < length queue
Front (Consumer.taken e) [] = ⊥
Front (Consumer.taken e) (x ∷ xs) = e ≡ x

pub record Agrees (s : Shared) (queue : List RuntimeLogEvent) : Type 0 where
  pub shape : Represents s.ring queue
  pub room : Room s.producer s.ring queue
  pub front : Front s.consumer queue
  pub ordered : s.accepted ≡ s.popped ++ queue

-- What a step has to keep: the agreement with some queue.
abbrev Kept : Shared → Type 0
Kept s = (queue : List RuntimeLogEvent) × Agrees s queue

Front-append :
    (c : Consumer) (queue : List RuntimeLogEvent) (e : RuntimeLogEvent)
    → Front c queue
    → Front c (queue ++ e ∷ [])
Front-append Consumer.waiting queue e f = tt
Front-append Consumer.available [] e f = omega arith
Front-append Consumer.available (x ∷ xs) e f = omega arith
Front-append (Consumer.taken y) [] e f = absurd f
Front-append (Consumer.taken y) (x ∷ xs) e f = f

Room-tail :
    (p : Producer) (r : Ring) (e : RuntimeLogEvent) (queue : List RuntimeLogEvent)
    → Room p r (e ∷ queue)
    → Room p (record r { tail = next_index r.tail }) queue
Room-tail Producer.idle r e queue room = tt
Room-tail (Producer.admitted x) r e queue room = omega arith
Room-tail (Producer.stored x) r e queue room = (omega (arith, room.0), room.1)

admit-Kept :
    (s : Shared) (e : RuntimeLogEvent) (queue : List RuntimeLogEvent)
    → Agrees s queue
    → Kept (step_producer s Producer.idle e)
unfolding step_producer
admit-Kept s e queue v = elim (Bool-cases (next_index s.ring.head == s.ring.tail)) [
  | inl full ↦ rw full (queue, v)
  | inr free ↦ rw free (
    queue,
    record {
      shape = v.shape;
      room = ground (arith, room_iff s.ring queue v.shape);
      front = v.front;
      ordered = v.ordered;
    },
  )
]

store-Kept :
    (s : Shared) (e x : RuntimeLogEvent) (queue : List RuntimeLogEvent)
    → Agrees s queue
    → Room (Producer.admitted e) s.ring queue
    → Kept (step_producer s (Producer.admitted e) x)
unfolding step_producer
store-Kept s e x queue v room = (
  queue,
  record {
    shape = store-Represents s.ring queue e v.shape;
    room = (
      room,
      get_elem?-set_self s.ring.buffer s.ring.head e
          (omega (arith, v.shape.sized, v.shape.head_in)),
    );
    front = v.front;
    ordered = v.ordered;
  },
)

publish-Kept :
    (s : Shared) (e x : RuntimeLogEvent) (queue : List RuntimeLogEvent)
    → Agrees s queue
    → Room (Producer.stored e) s.ring queue
    → Kept (step_producer s (Producer.stored e) x)
unfolding step_producer
publish-Kept s e x queue v room = (
  queue ++ e ∷ [],
  record {
    shape = publish-Represents s.ring queue e v.shape room.0 room.1;
    room = tt;
    front = Front-append s.consumer queue e v.front;
    ordered = ap (λ l. l ++ e ∷ []) v.ordered ∙ append_assoc s.popped queue (e ∷ []);
  },
)

produce-Kept :
    (p : Producer) (s : Shared) (e : RuntimeLogEvent) (queue : List RuntimeLogEvent)
    → Agrees s queue
    → Room p s.ring queue
    → Kept (step_producer s p e)
produce-Kept Producer.idle s e queue v room = admit-Kept s e queue v
produce-Kept (Producer.admitted x) s e queue v room = store-Kept s x e queue v room
produce-Kept (Producer.stored x) s e queue v room = publish-Kept s x e queue v room

not_empty :
    (s : Shared) (e : RuntimeLogEvent) (es : List RuntimeLogEvent)
    → Agrees s (e ∷ es)
    → (s.ring.tail == s.ring.head) ≡ false
not_empty s e es v = ground (arith, v.shape.held.0)

look-Kept :
    (s : Shared) (queue : List RuntimeLogEvent)
    → Agrees s queue
    → Kept (step_consumer s Consumer.waiting)
unfolding step_consumer
look-Kept s [] v = ([], ground (arith, v, v.shape.held))
look-Kept s (e ∷ es) v =
    rw (not_empty s e es v)
      (e ∷ es, record { shape = v.shape; room = v.room; front = omega arith; ordered = v.ordered })

consume-Kept :
    (c : Consumer) (s : Shared) (queue : List RuntimeLogEvent)
    → Agrees s queue
    → Front c queue
    → Kept (step_consumer s c)
unfolding step_consumer
consume-Kept Consumer.waiting s queue v f = look-Kept s queue v
consume-Kept Consumer.available s [] v f = absurd (omega arith)
consume-Kept Consumer.available s (e ∷ es) v f = (
  e ∷ es,
  record {
    shape = v.shape;
    room = v.room;
    front = first_lem s.ring e es v.shape;
    ordered = v.ordered;
  },
)
consume-Kept (Consumer.taken x) s [] v f = absurd f
consume-Kept (Consumer.taken x) s (e ∷ es) v f = (
  es,
  record {
    shape = leave-Represents s.ring e es v.shape;
    room = Room-tail s.producer s.ring e es v.room;
    front = tt;
    ordered =
        v.ordered ∙ ap (λ y. s.popped ++ y ∷ es) (sym f) ∙ sym (append_assoc s.popped (x ∷ []) es);
  },
)

access-Kept :
    (s : Shared) (a : Access) (queue : List RuntimeLogEvent) → Agrees s queue → Kept (access s a)
unfolding access
access-Kept s (Access.produce e) queue v = produce-Kept s.producer s e queue v v.room
access-Kept s Access.consume queue v = consume-Kept s.consumer s queue v v.front

-- From a ring that holds some queue, with what each thread has found inside its call still true, any
-- interleaving of their accesses leaves a ring that holds a queue again, and the events that the
-- finished calls have taken in are those that they have given out, followed by that queue: none is
-- lost, doubled or out of order.
pub accesses-Agrees :
    (made : List Access) (s : Shared) (queue : List RuntimeLogEvent)
    → Agrees s queue
    → (rest : List RuntimeLogEvent) × Agrees (accesses s made) rest
unfolding accesses
accesses-Agrees [] s queue v = (queue, v)
accesses-Agrees (a ∷ more) s queue v =
    let kept = access-Kept s a queue v in accesses-Agrees more (access s a) kept.0 kept.1
