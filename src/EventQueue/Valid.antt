-- ===== src/EventQueue/Valid.antt =====
-- The invariant of the event ring, and the events that it holds.
use nexus_os.Base.{ℕ, ◌+◌, ◌%◌, ◌<◌, ◌≡◌, true, List, arith, length, length-set}
use nexus_os.Base.Ring.{around, length-around}
use nexus_os.EventQueue.{
  Event, EventQueue, no_event, capacity, event_queue_init, event_queue_push, event_queue_pop,
  event_queue_count, Op, push, pop, step,
}

pub record IsValid (q : EventQueue) : Type 0 where
  pub slots : length q.queue ≡ capacity
  pub head_in : q.head < capacity
  pub tail_in : q.tail < capacity
  pub started : q.ready ≡ true

-- Oldest first.
abbrev pub contents : EventQueue → List Event
contents q = around no_event capacity q.queue q.tail (event_queue_count q)

pub length-contents : (q : EventQueue) → length (contents q) ≡ event_queue_count q
length-contents q = length-around no_event capacity q.queue q.tail (event_queue_count q)

pub head-slot : (q : EventQueue) → IsValid q → q.head ≡ (q.tail + event_queue_count q) % capacity
unfolding event_queue_count
head-slot q v = ground arith

pub count-lt-capacity : (q : EventQueue) → IsValid q → event_queue_count q < capacity
unfolding event_queue_count
count-lt-capacity q v = ground arith

pub event_queue_init-IsValid :
    (q : EventQueue) → length q.queue ≡ capacity → IsValid (event_queue_init q)
unfolding event_queue_init
event_queue_init-IsValid q h = ground arith

pub event_queue_push-IsValid :
    (q : EventQueue) (type source payload : ℕ)
    → IsValid q
    → IsValid (event_queue_push q type source payload).1
unfolding event_queue_push
event_queue_push-IsValid q type source payload v =
    ground (
      arith,
      length-set q.queue q.head (record { type = type; source = source; payload = payload }),
    )

pub event_queue_pop-IsValid : (q : EventQueue) → IsValid q → IsValid (event_queue_pop q).1
unfolding event_queue_pop
event_queue_pop-IsValid q v = ground arith

pub step-IsValid : (q : EventQueue) (op : Op) → IsValid q → IsValid (step q op).1
unfolding step
step-IsValid q (push type source payload) v = event_queue_push-IsValid q type source payload v
step-IsValid q pop v = event_queue_pop-IsValid q v
