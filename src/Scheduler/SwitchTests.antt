-- ===== src/Scheduler/SwitchTests.antt =====
-- Threads that take turns; the process 7 has ended.
use nexus_os.Base.{ℕ, ◌+◌, ◌≡◌, refl, true, [], ◌∷◌, arith, ◌==◌, if◌then◌else◌, none, some}
use nexus_os.Scheduler.{
  Scheduler, thread_ready, thread_running, thread_zombie, find_thread_by_id, find_from,
}
use nexus_os.Scheduler.Chain.{Chain, Apart, Distinct}
use nexus_os.Scheduler.Due.{Disjoint, Lists, all_due}
use nexus_os.Scheduler.Frame.{Lists-same}
use nexus_os.Scheduler.Services.{Services}
use nexus_os.Scheduler.Switch.{halts, scheduler_process}
use nexus_os.Scheduler.Switch.Reap.{AllAlive}
use nexus_os.Scheduler.Switch.Round.{Switched, scheduler_process-Switched}
use nexus_os.Scheduler.Tests.{threads, three_threads, sleepers, sleepers-Lists}
use nexus_os.Scheduler.Threads.{thread_exit, thread_wakeup}
use nexus_os.Scheduler.Threads.Exit.{thread_exit-revives}
use nexus_os.Scheduler.Threads.Wakeup.{thread_wakeup-Lists}

-- A heap whose state is the next address.
abbrev services : Services ℕ
services = record {
  process_get = λ pid w.
      if pid == 7
      then some
          (record { pid = 7; ended = true; address_space_cr3 = 4096; scheduler_thread_id = 3 })
      else none;
  process_reap = λ pid tid w. (true, w);
  process_set_current = λ pid w. w;
  process_clear_current = λ w. w;
  process_account_cpu_tick = λ pid w. w;
  attach_thread = λ pid tid stack w. w;
  usermode_ready = λ w. true;
  heap_is_ready = λ w. true;
  kmalloc = λ size w. (w, w + size);
  kfree = λ address w. w;
  paging_kernel_cr3 = λ w. 8192;
  paging_switch_cr3 = λ cr3 w. w;
  nexus_watchdog_timer_tick = λ w. w;
}

-- Thread 1 runs, 0 is ready, 2 is due and 3 sleeps.
abbrev busy : Scheduler
busy = record sleepers {
  reschedule_pending = true;
  tcbs =
      λ i. if i == 1 then record (sleepers.tcbs 1) { state = thread_running } else sleepers.tcbs i;
}

busy-Lists : Lists busy (0 ∷ []) (2 ∷ 3 ∷ [])
busy-Lists =
    Lists-same sleepers busy (0 ∷ []) (2 ∷ 3 ∷ []) sleepers-Lists (λ j. next_same j)
      (refl, refl, refl, refl, refl)
  where
    next_same : (j : ℕ) → (busy.tcbs j).next ≡ (sleepers.tcbs j).next
    next_same j = ground arith

scheduler_process-Switched_example :
    Switched services 1 0 (2 ∷ 1 ∷ []) (3 ∷ []) (scheduler_process services busy 0)
unfolding all_due Apart AllAlive
scheduler_process-Switched_example =
    scheduler_process-Switched services busy 0 1 0 (0 ∷ []) (2 ∷ []) (3 ∷ []) (2 ∷ []) busy-Lists
      refl refl (omega arith) refl refl refl refl (omega arith, (omega arith, tt)) (omega arith, tt)
      (refl, (refl, tt)) (refl, tt) refl refl

-- Thread 0 belongs to the process that has ended; 1 exits.
abbrev ending : Scheduler
ending = record three_threads {
  tcbs = λ i. if i == 0 then record (threads 0) { process_pid = 7 } else threads i;
}

ending-Lists : Lists ending (0 ∷ []) []
unfolding Chain Distinct Apart Disjoint
ending-Lists = record {
  queued = record { chain = (refl, refl); tail = refl; counted = refl; distinct = (tt, tt) };
  sleeping = record { chain = refl; counted = refl; distinct = tt };
  disjoint = tt;
  room = omega arith;
}

thread_exit-revives_example :
    ((thread_exit services ending 0).0 ≡ halts)
    × ((thread_exit services ending 0).1.current ≡ some 1)
    × (((thread_exit services ending 0).1.tcbs 1).state ≡ thread_running)
    × (((thread_exit services ending 0).1.tcbs 0).state ≡ thread_zombie)
unfolding Apart AllAlive
thread_exit-revives_example =
    thread_exit-revives services ending 0 1 0 [] [] ending-Lists refl refl refl (omega arith)
      (omega arith, tt) tt (refl, tt) tt refl

finds_three : find_thread_by_id sleepers 2 ≡ some 2
unfolding find_thread_by_id find_from
finds_three = refl

thread_wakeup-Lists_example :
    ((thread_wakeup 2 sleepers).0 ≡ true)
    × Lists (thread_wakeup 2 sleepers).1 (0 ∷ 2 ∷ []) (3 ∷ [])
    × (((thread_wakeup 2 sleepers).1.tcbs 2).state ≡ thread_ready)
    × ((thread_wakeup 2 sleepers).1.reschedule_pending ≡ true)
thread_wakeup-Lists_example =
    thread_wakeup-Lists sleepers 2 2 (0 ∷ []) [] (3 ∷ []) sleepers-Lists refl finds_three refl
