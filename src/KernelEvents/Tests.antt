-- ===== src/KernelEvents/Tests.antt =====
-- An event of type 1 for which the blocked thread 2 waits.
use nexus_os.Base.{
  zero, suc, ap, length, ℕ, ◌≡◌, ◌≢◌, refl, ◌==◌, if◌then◌else◌, [], ◌∷◌, arith, replicate,
}
use nexus_os.Scheduler.Waiting.{WaitQueue, scheduler_wait_queue_init}
use nexus_os.Scheduler.Waiting.Fifo
use nexus_os.Scheduler.Waiting.Fifo.{is_line, elem}
use nexus_os.Scheduler.Tests.{three_threads, three_threads-Queued}
use nexus_os.Scheduler.{find_thread_by_id, find_from}
use nexus_os.Scheduler.Chain.{Apart}
use nexus_os.KernelEvents.Wakes.{sleepers, Wakes, AllAwake}
use nexus_os.KernelEvents.{KernelEvents, finish_event}
use nexus_os.KernelEvents.Broadcast.{Woken, finish_event-Woken}

abbrev one_waits : WaitQueue
one_waits = record { ids = 2 ∷ replicate 7 0; head = 0; count = 1 }

one_waits-IsValid : Fifo.IsValid one_waits
unfolding is_line elem
one_waits-IsValid = record {
  slots = refl;
  head_in = omega arith;
  count_in = omega arith;
  ordered = refl;
}

abbrev awaited : KernelEvents
awaited = record {
  processed = 9;
  sequence = λ _. 3;
  waiters = λ j. if j == 1 then one_waits else scheduler_wait_queue_init;
}

two_sleeps : sleepers three_threads (2 ∷ []) ≡ 2 ∷ []
unfolding sleepers find_thread_by_id find_from
two_sleeps = refl

awake_list : AllAwake three_threads (0 ∷ [])
unfolding Apart
awake_list zero h = cc
awake_list (suc j) h = (omega arith, tt)

finish_event-Woken_example :
    Woken
      (2 ∷ [])
      three_threads
      ((finish_event 1 awaited three_threads).0.waiters 1)
      (finish_event 1 awaited three_threads).1
    × Wakes three_threads
        (finish_event 1 awaited three_threads).1
        (0 ∷ [])
        (sleepers three_threads (2 ∷ []))
    × ((finish_event 1 awaited three_threads).0.sequence 1 ≡ 4)
    × ((finish_event 1 awaited three_threads).0.processed ≡ 10)
    × ((j : ℕ)
        → j ≢ 1
        → ((finish_event 1 awaited three_threads).0.waiters j ≡ awaited.waiters j)
          × ((finish_event 1 awaited three_threads).0.sequence j ≡ 3))
finish_event-Woken_example =
    finish_event-Woken 1 awaited three_threads (0 ∷ []) refl one_waits-IsValid three_threads-Queued
      awake_list (omega (arith, ap length two_sleeps))
