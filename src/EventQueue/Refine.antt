-- ===== src/EventQueue/Refine.antt =====
-- The event ring against a mailbox: a list of at most 255 waiting events, oldest first, with the
-- three counters.
use nexus_os.Base.{
  ℕ, zero, suc, ◌≡◌, refl, ◌≢◌, Bool, true, false, none, some, List, [], ◌∷◌, ◌++◌, arith, ◌==◌,
  if◌then◌else◌, length, get_or, set,
}
use nexus_os.Base.Ring.{around_start, around-set}
use nexus_os.EventQueue.{
  Event, EventQueue, no_event, event_none, capacity, increment, next_index, event_queue_push,
  event_queue_pop, event_queue_count, Op, push, pop, Reply, pushed, popped, step, run,
}
use nexus_os.EventQueue.Valid.{
  IsValid, contents, length-contents, head-slot, count-lt-capacity, step-IsValid,
}

pub record Mailbox : Type 0 where
  pub waiting : List Event
  pub accepted : ℕ
  pub lost : ℕ
  pub taken : ℕ

abbrev pub view : EventQueue → Mailbox
view q = record { waiting = contents q; accepted = q.pushed; lost = q.dropped; taken = q.popped }

abbrev post : Mailbox → Event → Bool × Mailbox
post m e =
    if e.type == event_none
    then (false, m)
    else if length m.waiting == 255
    then (false, record m { lost = increment m.lost })
    else (true, record m { waiting = m.waiting ++ (e ∷ []); accepted = increment m.accepted })

abbrev collect : List Event → Mailbox → Reply × Mailbox
collect [] m = (popped none, m)
collect (e ∷ es) m = (popped (some e), record m { waiting = es; taken = increment m.taken })

pub mailbox_step : Mailbox → Op → Reply × Mailbox
mailbox_step m (push type source payload) =
    let (done, m') = post m (record { type = type; source = source; payload = payload }) in
    (pushed done, m')
mailbox_step m pop = collect m.waiting m

pub mailbox_run : Mailbox → List Op → List Reply × Mailbox
mailbox_run m [] = ([], m)
mailbox_run m (op ∷ ops) =
    let (reply, m') = mailbox_step m op in
    let (replies, m'') = mailbox_run m' ops in (reply ∷ replies, m'')

pub push_contents :
    (q : EventQueue) (e : Event)
    → IsValid q
    → next_index q.head ≢ q.tail
    → contents (record q { queue = set q.queue q.head e; head = next_index q.head })
      ≡ contents q ++ (e ∷ [])
unfolding event_queue_count
push_contents q e v room = ground (
  arith,
  head-slot q v,
  count-lt-capacity q v,
  around-set no_event capacity q.queue q.tail (event_queue_count q) e,
)

full_count : (q : EventQueue) → IsValid q → (next_index q.head ≡ q.tail) → length (contents q) ≡ 255
unfolding event_queue_count
full_count q v full = ground (arith, length-contents q)

room_count : (q : EventQueue) → IsValid q → (next_index q.head ≢ q.tail) → length (contents q) ≢ 255
unfolding event_queue_count
room_count q v full = ground (arith, length-contents q)

push_refines :
    (q : EventQueue) (type source payload : ℕ)
    → IsValid q
    → let (r, q') = step q (push type source payload) in
      let (r', m) = mailbox_step (view q) (push type source payload) in (r ≡ r') × (view q' ≡ m)
unfolding step event_queue_push mailbox_step event_queue_count
push_refines q type source payload v = ground (
  arith,
  push_contents q (record { type = type; source = source; payload = payload }) v,
  full_count q v,
  room_count q v,
)

pub pop_contents :
    (q : EventQueue) (n : ℕ)
    → IsValid q
    → event_queue_count q ≡ suc n
    → (event_queue_count (record q { tail = next_index q.tail }) ≡ n)
      × (contents q
          ≡ get_or q.queue q.tail no_event ∷ contents (record q { tail = next_index q.tail }))
unfolding event_queue_count
pop_contents q n v more =
    ground (arith, around_start no_event capacity q.queue (suc q.tail) (next_index q.tail) n)

pop_refines :
    (q : EventQueue) (n : ℕ)
    → IsValid q
    → event_queue_count q ≡ n
    → let (r, q') = step q pop in
      let (r', m) = mailbox_step (view q) pop in (r ≡ r') × (view q' ≡ m)
unfolding step event_queue_pop mailbox_step event_queue_count
pop_refines q zero v e = ground arith
pop_refines q (suc n) v e = ground (arith, pop_contents q n v e)

step_refines :
    (q : EventQueue) (op : Op)
    → IsValid q
    → let (r, q') = step q op in let (r', m) = mailbox_step (view q) op in (r ≡ r') × (view q' ≡ m)
step_refines q (push type source payload) v = push_refines q type source payload v
step_refines q pop v = pop_refines q _ v refl

-- From a valid ring, every sequence of pushes and pops gets the replies of the mailbox that starts
-- with the ring's events and counters, and ends at the mailbox's events and counters.
pub run_refines :
    (q : EventQueue) (ops : List Op)
    → IsValid q
    → let (rs, q') = run q ops in
      let (rs', m) = mailbox_run (view q) ops in (rs ≡ rs') × (view q' ≡ m)
unfolding run mailbox_run
run_refines q [] v = (refl, refl)
run_refines q (op ∷ ops) v =
    ground (arith, step_refines q op v, run_refines (step q op).1 ops (step-IsValid q op v))
