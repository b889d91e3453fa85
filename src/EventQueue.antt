-- ===== src/EventQueue.antt =====
-- kernel/core/events/event_queue.c and event_queue.h: the ring between the interrupt handlers and
-- the kernel's main loop. The globals are the fields of `EventQueue`; the counters are uint64_t.
-- A producer masks interrupts for its whole critical section, so a push is one step.
pub mod Valid
pub mod Refine
pub mod Accounting
pub mod Nested
pub mod Tests
use nexus_os.Base.{
  ℕ, ◌+◌, ◌-◌, ◌%◌, ◌^◌, Bool, true, false, ◌||◌, not, Option, none, some, List, [], ◌∷◌, leb, ◌==◌,
  if◌then◌else◌, get_or, set,
}

abbrev pub event_none : ℕ
event_none = 0

abbrev pub capacity : ℕ
capacity = 256

-- `nexus_event_t`; `payload` is its field `data`.
pub record Event : Type 0 where
  pub type : ℕ
  pub source : ℕ
  pub payload : ℕ

-- A slot that was never written holds zeros.
abbrev pub no_event : Event
no_event = record { type = 0; source = 0; payload = 0 }

pub record EventQueue : Type 0 where
  pub queue : List Event
  pub head : ℕ
  pub tail : ℕ
  pub pushed : ℕ
  pub dropped : ℕ
  pub popped : ℕ
  pub ready : Bool

-- A uint64_t counter.
abbrev pub increment : ℕ → ℕ
increment n = (n + 1) % 2 ^ 64

pub event_queue_init : EventQueue → EventQueue
event_queue_init q = record q {
  head = 0;
  tail = 0;
  pushed = 0;
  dropped = 0;
  popped = 0;
  ready = true;
}

abbrev pub next_index : ℕ → ℕ
next_index i = (i + 1) % capacity

-- The Boolean is the returned int.
pub event_queue_push : EventQueue → ℕ → ℕ → ℕ → Bool × EventQueue
event_queue_push q type source payload =
    if not q.ready || type == event_none
    then (false, q)
    else if next_index q.head == q.tail
    then (false, record q { dropped = increment q.dropped })
    else (
      true,
      record q {
        queue = set q.queue q.head (record { type = type; source = source; payload = payload });
        head = next_index q.head;
        pushed = increment q.pushed;
      },
    )

-- The option is what the call writes through its argument.
pub event_queue_pop : EventQueue → Option Event × EventQueue
event_queue_pop q = if not q.ready then (none, q) else if q.tail == q.head then (none, q) else (
  some (get_or q.queue q.tail no_event),
  record q { tail = next_index q.tail; popped = increment q.popped },
)

pub event_queue_count : EventQueue → ℕ
event_queue_count q = if leb q.tail q.head then q.head - q.tail else capacity - q.tail + q.head

-- What a producer or the consumer asks of the queue.
pub data Op : Type 0 where
  push : (type source payload : ℕ) → Op
  pop : Op

-- What the caller sees of a call.
pub data Reply : Type 0 where
  pushed : Bool → Reply
  popped : Option Event → Reply

pub step : EventQueue → Op → Reply × EventQueue
step q (push type source payload) =
    let (done, q') = event_queue_push q type source payload in (pushed done, q')
step q pop = let (event, q') = event_queue_pop q in (popped event, q')

pub run : EventQueue → List Op → List Reply × EventQueue
run q [] = ([], q)
run q (op ∷ ops) =
    let (reply, q') = step q op in let (replies, q'') = run q' ops in (reply ∷ replies, q'')
