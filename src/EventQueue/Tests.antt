-- ===== src/EventQueue/Tests.antt =====
-- The event ring at concrete inputs.
use nexus_os.Base.{◌≡◌, refl, true, false, none, some, List, [], ◌∷◌, ◌++◌, arith, replicate, set}
use nexus_os.EventQueue.{
  Event, EventQueue, no_event, capacity, event_queue_init, event_queue_push, event_queue_pop,
  event_queue_count, Op, push, pop, pushed, popped, step, run,
}
use nexus_os.EventQueue.Valid.{IsValid, contents}
use nexus_os.EventQueue.Refine.{view, mailbox_run, run_refines}
use nexus_os.EventQueue.Accounting.{IsBalanced, run-init-IsBalanced}
use nexus_os.EventQueue.Nested.{interrupt, interrupted_pop, interrupted_pop_oldest}

abbrev key_press : Event
key_press = record { type = 2; source = 1; payload = 30 }

abbrev tick : Event
tick = record { type = 1; source = 0; payload = 0 }

-- One key press in the last slot, so that the head has gone round.
abbrev wrapped : EventQueue
wrapped = record {
  queue = set (replicate capacity no_event) 255 key_press;
  head = 0;
  tail = 255;
  pushed = 256;
  dropped = 0;
  popped = 255;
  ready = true;
}

abbrev script : List Op
script = push 1 0 0 ∷ push 0 0 0 ∷ pop ∷ pop ∷ pop ∷ []

wrapped-IsValid : IsValid wrapped
wrapped-IsValid = record {
  slots = refl;
  head_in = omega arith;
  tail_in = omega arith;
  started = refl;
}

run-wrapped :
    (run wrapped script).0
    ≡ pushed true ∷ pushed false ∷ popped (some key_press) ∷ popped (some tick) ∷ popped none ∷ []
unfolding run step event_queue_push event_queue_pop
run-wrapped = refl

run_refines_example :
    ((run wrapped script).0 ≡ (mailbox_run (view wrapped) script).0)
    × (view (run wrapped script).1 ≡ (mailbox_run (view wrapped) script).1)
run_refines_example = run_refines wrapped script wrapped-IsValid

run-init-IsBalanced_example : IsBalanced (run (event_queue_init wrapped) script).1
run-init-IsBalanced_example = run-init-IsBalanced wrapped script refl

interrupted_pop_oldest_example :
    let (r, left) = interrupted_pop wrapped [] (tick ∷ []) (tick ∷ []) (tick ∷ []) in
    let q3 = interrupt (interrupt (interrupt wrapped []) (tick ∷ [])) (tick ∷ []) in
    (r ≡ some key_press)
    × IsValid left
    × (xs : List Event) × (contents q3 ≡ key_press ∷ [] ++ xs)
    × (ys : List Event) × (contents left ≡ ([] ++ xs) ++ ys)
    × (left.popped ≡ 256)
unfolding interrupt event_queue_count
interrupted_pop_oldest_example =
    interrupted_pop_oldest wrapped [] (tick ∷ []) (tick ∷ []) (tick ∷ []) key_press []
      wrapped-IsValid refl
