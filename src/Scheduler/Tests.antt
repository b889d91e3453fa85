-- ===== src/Scheduler/Tests.antt =====
-- Three threads: one runs, one is ready and one is blocked.
use nexus_os.Base.{
  ℕ, ◌≡◌, leb, refl, true, false, [], ◌∷◌, arith, ltb, ◌==◌, if◌then◌else◌, none, some,
}
use nexus_os.Scheduler.{
  Scheduler, Tcb, thread_ready, thread_running, thread_blocked, thread_sleeping, sleep_insert,
  wake_due_threads, find_thread_by_id, find_from,
}
use nexus_os.Scheduler.Chain.{Chain, Apart, Distinct}
use nexus_os.Scheduler.Sleep.{Sleeping, insert, sleep_insert-Sleeping}
use nexus_os.Scheduler.Due.{Disjoint, Lists, all_due, wake_due_threads-Lists}
use nexus_os.Scheduler.Ready.{Queued}

abbrev pub threads : ℕ → Tcb
threads i = record {
  id = i;
  process_pid = 0;
  switches = 0;
  runtime_ticks = 0;
  wake_tick = 0;
  stack_base = 0;
  stack_size = 0;
  entry = 0;
  arg = 0;
  live = ltb i 3;
  state = if i == 2 then thread_blocked else if i == 1 then thread_running else thread_ready;
  next = none;
}

abbrev pub three_threads : Scheduler
three_threads = record {
  ticks = 0;
  quantum_expirations = 0;
  context_switches = 0;
  quantum_ticks = 10;
  quantum_remaining = 10;
  timer_hz = 100;
  reschedule_pending = false;
  wakeup_pending = false;
  ready = true;
  tcbs = threads;
  current = some 1;
  ready_head = some 0;
  ready_tail = some 0;
  sleep_head = none;
  thread_count = 3;
  ready_count = 1;
  sleeping_count = 0;
  next_tid = 3;
}

pub three_threads-Queued : Queued three_threads (0 ∷ [])
unfolding Chain Distinct Apart
three_threads-Queued = record {
  chain = (refl, refl);
  tail = refl;
  counted = refl;
  distinct = (tt, tt);
}

pub two-Apart : Apart 2 (0 ∷ [])
unfolding Apart
two-Apart = (omega arith, tt)

pub finds_two : find_thread_by_id three_threads 2 ≡ some 2
unfolding find_thread_by_id find_from
finds_two = refl

-- Threads 2 and 3 sleep until the ticks 5 and 9.
abbrev pub sleepers : Scheduler
sleepers = record three_threads {
  ticks = 5;
  tcbs = λ i. record (threads i) {
    state = if leb 2 i then thread_sleeping else thread_ready;
    wake_tick = if i == 2 then 5 else if i == 3 then 9 else 7;
    next = if i == 2 then some 3 else none;
  };
  sleep_head = some 2;
  sleeping_count = 2;
}

sleepers-Sleeping : Sleeping sleepers (2 ∷ 3 ∷ [])
unfolding Chain Distinct Apart
sleepers-Sleeping = record {
  chain = (refl, (refl, refl));
  counted = refl;
  distinct = ((omega arith, tt), (tt, tt));
}

one-Apart : Apart 1 (2 ∷ 3 ∷ [])
unfolding Apart
one-Apart = (omega arith, (omega arith, tt))

sleep_insert-Sleeping_example :
    Sleeping (sleep_insert 1 sleepers) (insert sleepers.tcbs 1 (2 ∷ 3 ∷ []))
sleep_insert-Sleeping_example =
    sleep_insert-Sleeping sleepers 1 (2 ∷ 3 ∷ []) sleepers-Sleeping one-Apart (omega arith)

pub sleepers-Lists : Lists sleepers (0 ∷ []) (2 ∷ 3 ∷ [])
unfolding Chain Distinct Apart Disjoint
sleepers-Lists = record {
  queued = record { chain = (refl, refl); tail = refl; counted = refl; distinct = (tt, tt) };
  sleeping = sleepers-Sleeping;
  disjoint = ((omega arith, tt), ((omega arith, tt), tt));
  room = omega arith;
}

wake_due_threads-Lists_example :
    Lists (wake_due_threads sleepers) (0 ∷ 2 ∷ []) (3 ∷ [])
    × ((wake_due_threads sleepers).wakeup_pending ≡ false)
unfolding all_due
wake_due_threads-Lists_example =
    wake_due_threads-Lists sleepers (0 ∷ []) (2 ∷ []) (3 ∷ []) sleepers-Lists refl refl
