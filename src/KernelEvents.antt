-- ===== src/KernelEvents.antt =====
-- kernel/core/events/kernel_events.c: the counters of processed events and the threads that wait
-- for an event of a type. The calls of the device drivers in the loop over the queue are not here.
pub mod Wakes
pub mod Broadcast
mod Tests
use nexus_os.Base.{
  ℕ, zero, suc, ◌+◌, ◌%◌, ◌^◌, Bool, true, false, ◌&&◌, not, ltb, ◌==◌, if◌then◌else◌,
}
use nexus_os.Scheduler.Waiting.{
  WaitQueue, max_threads, scheduler_wait_queue_init, scheduler_wait_queue_pop_locked,
}
use nexus_os.Scheduler.{Scheduler, scheduler_wake_thread_locked}

-- KERNEL_EVENT_TYPE_COUNT
abbrev pub type_count : ℕ
type_count = 4

pub record KernelEvents : Type 0 where
  pub processed : ℕ
  pub sequence : ℕ → ℕ
  pub waiters : ℕ → WaitQueue

abbrev pub valid_type : ℕ → Bool
valid_type type = ltb type type_count && not (type == 0)

-- kernel_events_init, without the event queue that it also sets up.
abbrev pub kernel_events_init : KernelEvents
kernel_events_init = record {
  processed = 0;
  sequence = λ _. 0;
  waiters = λ _. scheduler_wait_queue_init;
}

-- The loop of wake_event_waiters_locked; it ends when the queue gives 0.
pub wake_all : ℕ → WaitQueue → Scheduler → WaitQueue × Scheduler
wake_all zero q s = (q, s)
wake_all (suc fuel) q s =
    let (tid, rest) = scheduler_wait_queue_pop_locked q in
    let next = wake_all fuel rest (scheduler_wake_thread_locked tid s) in
    if tid == 0 then (rest, s) else next

-- A queue holds at most max_threads ids, and one more round finds it empty.
abbrev pub wake_fuel : ℕ
wake_fuel = max_threads + 1

abbrev pub set_waiters : KernelEvents → ℕ → WaitQueue → KernelEvents
set_waiters e type q = record e { waiters = λ j. if type == j then q else e.waiters j }

pub wake_event_waiters_locked : ℕ → KernelEvents → Scheduler → KernelEvents × Scheduler
wake_event_waiters_locked type e s =
    let (q, woken) = wake_all wake_fuel (e.waiters type) s in
    if valid_type type then (set_waiters e type q, woken) else (e, s)

-- What kernel_events_process does for an event after its driver has seen it.
pub finish_event : ℕ → KernelEvents → Scheduler → KernelEvents × Scheduler
finish_event type e s =
    let counted = record e {
      sequence = λ j. if type == j then (e.sequence j + 1) % 2 ^ 64 else e.sequence j;
    } in
    let (told, woken) = wake_event_waiters_locked type counted s in
    if valid_type type
    then (record told { processed = (told.processed + 1) % 2 ^ 64 }, woken)
    else (record e { processed = (e.processed + 1) % 2 ^ 64 }, s)

pub kernel_events_sequence : KernelEvents → ℕ → ℕ
kernel_events_sequence e type = if valid_type type then e.sequence type else 0
