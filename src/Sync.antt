-- ===== src/Sync.antt =====
-- kernel/core/sync/sync.c: the spinlock's word and the mutex. Threads switch only in
-- scheduler_process and no interrupt handler uses a mutex, so what a call does up to a switch is
-- one step. The checks for a null mutex are left out.
pub mod Line
pub mod Handover
mod Tests
use nexus_os.Base.{
  ℕ, ◌+◌, ◌≡◌, Bool, true, false, ◌||◌, ◌&&◌, not, List, [], ◌∷◌, ltb, ◌==◌, if◌then◌else◌,
}
use nexus_os.Scheduler.Waiting.{
  WaitQueue, scheduler_wait_queue_init, scheduler_wait_queue_contains,
  scheduler_wait_queue_push_locked, scheduler_wait_queue_pop_locked,
}
use nexus_os.Scheduler.{
  Scheduler, scheduler_current_thread_id, scheduler_wake_thread_locked, enter,
  thread_block_on_wait_queue,
}

-- `nexus_mutex_t`
pub record Mutex : Type 0 where
  pub owner : ℕ
  pub locked : Bool
  pub waiters : WaitQueue

abbrev pub mutex_init : Mutex
mutex_init = record { owner = 0; locked = false; waiters = scheduler_wait_queue_init }

pub mutex_try_lock : Mutex → Scheduler → Bool × Mutex
mutex_try_lock m s =
    if not s.ready
    then (false, m)
    else if m.locked
    then (false, m)
    else (true, record m { locked = true; owner = scheduler_current_thread_id s })

-- How a round of the loop in mutex_lock ends.
pub data Round : Type 0 where
  acquires leaves blocks : Round

-- One round of the loop, up to the switch to another thread.
pub mutex_lock_round : Mutex → Scheduler → Round × Mutex × Scheduler
mutex_lock_round m s =
    let (taken, m1) = mutex_try_lock m s in
    let tid = scheduler_current_thread_id s in
    let (slept, line, s1) = thread_block_on_wait_queue (enter m1.waiters tid) s in
    if not s.ready
    then (leaves, m, s)
    else if taken
    then (acquires, m1, s)
    else if tid == 0
    then (leaves, m1, s)
    else if not m1.locked
    then (acquires, record m1 { locked = true; owner = tid }, s)
    else (blocks, record m1 { waiters = line }, s1)

-- The test after the thread runs again: the loop ends if the mutex was handed over.
pub mutex_lock_returns : Mutex → ℕ → Bool
mutex_lock_returns m tid = m.locked && m.owner == tid

pub mutex_unlock : Mutex → Scheduler → Mutex × Scheduler
mutex_unlock m s =
    let (next, line) = scheduler_wait_queue_pop_locked m.waiters in
    if not s.ready
    then (m, s)
    else if not m.locked || not (m.owner == scheduler_current_thread_id s)
    then (m, s)
    else if not (next == 0)
    then (
      record { owner = next; locked = true; waiters = line },
      scheduler_wake_thread_locked next s,
    )
    else (record { owner = 0; locked = false; waiters = line }, s)

-- The calls on a mutex; each finds the scheduler in the state it comes with.
pub data Op : Type 0 where
  try_lock lock unlock : (s : Scheduler) → Op

abbrev pub apply : Mutex → Op → Mutex
apply m (try_lock s) = (mutex_try_lock m s).1
apply m (lock s) = (mutex_lock_round m s).1
apply m (unlock s) = (mutex_unlock m s).0

pub run : Mutex → List Op → Mutex
run m [] = m
run m (op ∷ ops) = run (apply m op) ops
