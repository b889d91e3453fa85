-- ===== src/Scheduler/Waiting.antt =====
-- kernel/core/scheduler/scheduler.c: the wait queues, rings of thread ids. The check for a null
-- queue is left out: every caller passes the address of a structure.
pub mod Fifo
use nexus_os.Base.{
  ℕ, zero, suc, ◌+◌, ◌-◌, ◌%◌, ◌^◌, Bool, true, false, ◌||◌, List, ltb, leb, ◌==◌, if◌then◌else◌,
  get_or, set, replicate,
}

-- NEXUS_SCHEDULER_MAX_THREADS
abbrev pub max_threads : ℕ
max_threads = 8

pub record WaitQueue : Type 0 where
  pub ids : List ℕ
  pub head : ℕ
  pub count : ℕ

abbrev pub scheduler_wait_queue_init : WaitQueue
scheduler_wait_queue_init = record { ids = replicate max_threads 0; head = 0; count = 0 }

-- The loop, from index `i` on.
pub contains_from : WaitQueue → ℕ → ℕ → ℕ → Bool
contains_from q id zero i = false
contains_from q id (suc rounds) i =
    get_or q.ids ((q.head + i) % max_threads) 0 == id || contains_from q id rounds (i + 1)

pub scheduler_wait_queue_contains : WaitQueue → ℕ → Bool
scheduler_wait_queue_contains q id = if id == 0 then false else contains_from q id q.count 0

pub scheduler_wait_queue_push_locked : WaitQueue → ℕ → WaitQueue
scheduler_wait_queue_push_locked q id =
    if id == 0 || leb max_threads q.count || scheduler_wait_queue_contains q id
    then q
    else record q {
      ids = set q.ids ((q.head + q.count) % max_threads) id;
      count = (q.count + 1) % 2 ^ 32;
    }

-- 0 from an empty queue.
pub scheduler_wait_queue_pop_locked : WaitQueue → ℕ × WaitQueue
scheduler_wait_queue_pop_locked q = if q.count == 0 then (0, q) else (
  get_or q.ids q.head 0,
  record q { ids = set q.ids q.head 0; head = (q.head + 1) % max_threads; count = q.count - 1 },
)
