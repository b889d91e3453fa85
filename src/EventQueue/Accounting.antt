-- ===== src/EventQueue/Accounting.antt =====
-- The statistics of the event ring.
use nexus_os.Base.{◌+◌, ◌%◌, ◌^◌, ◌≡◌, List, [], ◌∷◌, arith, length}
use nexus_os.EventQueue.{
  EventQueue, capacity, event_queue_init, event_queue_push, event_queue_pop, event_queue_count, Op,
  push, pop, step, run,
}
use nexus_os.EventQueue.Valid.{IsValid, event_queue_init-IsValid, step-IsValid}

-- Modulo 2 ^ 64, what was pushed was popped or is still there.
abbrev pub IsBalanced : EventQueue → Type 0
IsBalanced q = (q.popped + event_queue_count q) % 2 ^ 64 ≡ q.pushed

step-IsBalanced : (q : EventQueue) (op : Op) → IsValid q → IsBalanced q → IsBalanced (step q op).1
unfolding step event_queue_push event_queue_pop event_queue_count
step-IsBalanced q (push type source payload) v b = ground arith
step-IsBalanced q pop v b = ground arith

run-IsBalanced :
    (q : EventQueue) (ops : List Op) → IsValid q → IsBalanced q → IsBalanced (run q ops).1
unfolding run
run-IsBalanced q [] v b = b
run-IsBalanced q (op ∷ ops) v b =
    run-IsBalanced (step q op).1 ops (step-IsValid q op v) (step-IsBalanced q op v b)

event_queue_init-IsBalanced : (q : EventQueue) → IsBalanced (event_queue_init q)
unfolding event_queue_init event_queue_count
event_queue_init-IsBalanced q = omega arith

-- After event_queue_init on an array of full size and any pushes and pops, the events pushed are
-- those popped and those that wait, counted modulo 2 ^ 64.
pub run-init-IsBalanced :
    (q : EventQueue) (ops : List Op)
    → length q.queue ≡ capacity
    → IsBalanced (run (event_queue_init q) ops).1
run-init-IsBalanced q ops slots =
    run-IsBalanced (event_queue_init q) ops (event_queue_init-IsValid q slots)
      (event_queue_init-IsBalanced q)
