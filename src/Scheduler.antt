-- ===== src/Scheduler.antt =====
-- kernel/core/scheduler/scheduler.c: the thread table, the ready list and the sleep list. The
-- globals are the fields of `Scheduler`; a pointer to a TCB is the option of its index. The pairs
-- irq_save and irq_restore make a function one step of the model.
pub mod Waiting
pub mod Chain
pub mod Ready
pub mod Sleep
pub mod Due
pub mod Wake
pub mod Services
pub mod Switch
pub mod Threads
pub mod Frame
pub mod Tests
mod SwitchTests
use nexus_os.Base.{
  ℕ, zero, suc, ◌+◌, ◌-◌, ◌*◌, ◌/◌, ◌%◌, ◌^◌, Bool, true, false, ◌||◌, ◌&&◌, not, Option, none,
  some, ltb, leb, ◌==◌, if◌then◌else◌,
}
use nexus_os.Scheduler.Waiting.{
  max_threads, WaitQueue, scheduler_wait_queue_contains, scheduler_wait_queue_push_locked,
}

-- 0 and the THREAD_ constants
pub data ThreadState : Type 0 where
  thread_free thread_ready thread_running thread_sleeping thread_blocked thread_zombie : ThreadState

abbrev pub is_sleeping : ThreadState → Bool
is_sleeping thread_sleeping = true
is_sleeping _ = false

abbrev pub is_running : ThreadState → Bool
is_running thread_running = true
is_running _ = false

abbrev pub is_ready : ThreadState → Bool
is_ready thread_ready = true
is_ready _ = false

abbrev pub is_zombie : ThreadState → Bool
is_zombie thread_zombie = true
is_zombie _ = false

abbrev pub is_blocked : ThreadState → Bool
is_blocked thread_blocked = true
is_blocked _ = false

-- `nexus_tcb_t` without the saved stack pointer and `wait_next`, which nothing reads; `live` says that magic is THREAD_MAGIC and not 0.
pub record Tcb : Type 0 where
  pub id : ℕ
  pub process_pid : ℕ
  pub switches : ℕ
  pub runtime_ticks : ℕ
  pub wake_tick : ℕ
  pub stack_base : ℕ
  pub stack_size : ℕ
  pub entry : ℕ
  pub arg : ℕ
  pub live : Bool
  pub state : ThreadState
  pub next : Option ℕ

pub record Scheduler : Type 0 where
  pub ticks : ℕ
  pub quantum_expirations : ℕ
  pub context_switches : ℕ
  pub quantum_ticks : ℕ
  pub quantum_remaining : ℕ
  pub timer_hz : ℕ
  pub reschedule_pending : Bool
  pub wakeup_pending : Bool
  pub ready : Bool
  pub tcbs : ℕ → Tcb
  pub current : Option ℕ
  pub ready_head : Option ℕ
  pub ready_tail : Option ℕ
  pub sleep_head : Option ℕ
  pub thread_count : ℕ
  pub ready_count : ℕ
  pub sleeping_count : ℕ
  pub next_tid : ℕ

abbrev pub store : (ℕ → Tcb) → ℕ → Tcb → ℕ → Tcb
store f i v j = if i == j then v else f j

-- f[i].next = p
abbrev pub link : (ℕ → Tcb) → ℕ → Option ℕ → ℕ → Tcb
link f i p = store f i (record (f i) { next = p })

-- f[i].state = v
abbrev pub mark : (ℕ → Tcb) → ℕ → ThreadState → ℕ → Tcb
mark f i v = store f i (record (f i) { state = v })

pub ready_append : ℕ → Scheduler → Scheduler
ready_append t s =
    let f = link s.tcbs t none in
    elim s.ready_tail [
      | none ↦ record s {
        tcbs = f;
        ready_head = some t;
        ready_tail = some t;
        ready_count = (s.ready_count + 1) % 2 ^ 32;
      }
      | some l ↦ record s {
        tcbs = link f l (some t);
        ready_tail = some t;
        ready_count = (s.ready_count + 1) % 2 ^ 32;
      }
    ]

pub ready_pop : Scheduler → Option ℕ × Scheduler
ready_pop s = elim s.ready_head [
  | none ↦ (none, s)
  | some t ↦
      let rest = (s.tcbs t).next in
      (
        some t,
        record s {
          tcbs = link s.tcbs t none;
          ready_head = rest;
          ready_tail = elim rest [ none ↦ none | some _ ↦ s.ready_tail ];
          ready_count = s.ready_count - 1;
        },
      )
]

-- The walk of sleep_insert from the cursor on. A walk visits every sleeping thread at most once.
pub seek : ℕ → (ℕ → Tcb) → ℕ → ℕ → ℕ
seek zero f wake cursor = cursor
seek (suc fuel) f wake cursor = elim (f cursor).next [
  | none ↦ cursor
  | some n ↦ let rest = seek fuel f wake n in if leb (f n).wake_tick wake then rest else cursor
]

pub sleep_insert : ℕ → Scheduler → Scheduler
sleep_insert t s =
    let f = link s.tcbs t none in
    let wake = (f t).wake_tick in
    let count = (s.sleeping_count + 1) % 2 ^ 32 in
    elim s.sleep_head [
      | none ↦ record s { tcbs = link f t none; sleep_head = some t; sleeping_count = count }
      | some h ↦
          let cursor = seek max_threads f wake h in
          if ltb wake (f h).wake_tick
          then record s { tcbs = link f t (some h); sleep_head = some t; sleeping_count = count }
          else record s {
            tcbs = link (link f t (f cursor).next) cursor (some t);
            sleeping_count = count;
          }
    ]

-- The search of find_thread_by_id from slot `i` on, `rounds` slots.
unfoldable pub find_from : (ℕ → Tcb) → ℕ → ℕ → ℕ → Option ℕ
find_from f id zero i = none
find_from f id (suc rounds) i =
    let rest = find_from f id rounds (i + 1) in
    if (f i).live && (f i).id == id then some i else rest

unfoldable pub find_thread_by_id : Scheduler → ℕ → Option ℕ
find_thread_by_id s id = find_from s.tcbs id max_threads 0

-- state = THREAD_READY; ready_append
abbrev pub make_ready : ℕ → Scheduler → Scheduler
make_ready t s = ready_append t (record s { tcbs = mark s.tcbs t thread_ready })

-- The sleep list starts with a thread whose time has come.
abbrev pub is_due : Scheduler → Bool
is_due s = elim s.sleep_head [ none ↦ false | some t ↦ leb (s.tcbs t).wake_tick s.ticks ]

-- One round of the loop in wake_due_threads.
abbrev pub wake_first : ℕ → Scheduler → Scheduler
wake_first t s = make_ready t (record s {
  tcbs = link s.tcbs t none;
  sleep_head = (s.tcbs t).next;
  sleeping_count = s.sleeping_count - 1;
})

-- The loop; every round takes one of at most max_threads sleeping threads.
pub wake_due : ℕ → Scheduler → Scheduler
wake_due zero s = s
wake_due (suc fuel) s = elim s.sleep_head [
  | none ↦ s
  | some t ↦
      let rest = wake_due fuel (wake_first t s) in
      if leb (s.tcbs t).wake_tick s.ticks then rest else s
]

pub wake_due_threads : Scheduler → Scheduler
wake_due_threads s =
    let woken = wake_due max_threads s in record woken { wakeup_pending = is_due woken }

unfoldable pub scheduler_wake_thread_locked : ℕ → Scheduler → Scheduler
scheduler_wake_thread_locked id s = elim (find_thread_by_id s id) [
  | none ↦ s
  | some t ↦
      if is_blocked (s.tcbs t).state
      then record (make_ready t s) { wakeup_pending = true; reschedule_pending = true }
      else s
]

pub scheduler_wake_thread : ℕ → Scheduler → Bool × Scheduler
scheduler_wake_thread id s = elim (find_thread_by_id s id) [
  | none ↦ (false, s)
  | some t ↦
      if not s.ready || id == 0
      then (false, s)
      else if is_blocked (s.tcbs t).state
      then (true, scheduler_wake_thread_locked id s)
      else (false, s)
]

unfoldable pub scheduler_current_thread_id : Scheduler → ℕ
scheduler_current_thread_id s = elim s.current [ none ↦ 0 | some t ↦ (s.tcbs t).id ]

pub scheduler_request_reschedule : Scheduler → Scheduler
scheduler_request_reschedule s = if s.ready then record s { reschedule_pending = true } else s

-- `if (!contains(queue, id)) push(queue, id)`
abbrev pub enter : WaitQueue → ℕ → WaitQueue
enter q id = if scheduler_wait_queue_contains q id then q else scheduler_wait_queue_push_locked q id

-- Up to the call of scheduler_process, which switches to another thread.
unfoldable pub thread_block_on_wait_queue : WaitQueue → Scheduler → Bool × WaitQueue × Scheduler
thread_block_on_wait_queue q s = elim s.current [
  | none ↦ (false, q, s)
  | some t ↦
      let tid = (s.tcbs t).id in
      if not s.ready || tid == 0 then (false, q, s) else (
        true,
        enter q tid,
        record s { tcbs = mark s.tcbs t thread_blocked; reschedule_pending = true },
      )
]
