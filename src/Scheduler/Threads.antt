-- ===== src/Scheduler/Threads.antt =====
-- kernel/core/scheduler/scheduler.c: starting the scheduler; creating, delaying, waking and ending
-- threads.
pub mod Exit
pub mod Create
pub mod Wakeup
use nexus_os.Base.{
  ℕ, zero, suc, ◌+◌, ◌-◌, ◌*◌, ◌/◌, ◌%◌, ◌^◌, Bool, true, false, ◌||◌, ◌&&◌, not, Option, none,
  some, ltb, leb, ◌==◌, if◌then◌else◌,
}
use nexus_os.Scheduler.Waiting.{max_threads}
use nexus_os.Scheduler.{
  Tcb, Scheduler, ThreadState, thread_free, thread_ready, thread_running, thread_sleeping,
  thread_zombie, is_sleeping, store, link, mark, ready_append, sleep_insert, find_from,
  find_thread_by_id, scheduler_request_reschedule,
}
use nexus_os.Scheduler.Services.{Services, ProcessView}
use nexus_os.Scheduler.Switch.{Switch, stays, halts, switches_to, scheduler_process}

-- NEXUS_SCHEDULER_DEFAULT_QUANTUM_MS and SCHED_STACK_SIZE
abbrev pub quantum_ms : ℕ
quantum_ms = 100

abbrev pub stack_bytes : ℕ
stack_bytes = 16384

pub calculate_quantum_ticks : ℕ → ℕ
calculate_quantum_ticks timer_hz =
    let ticks = timer_hz * quantum_ms / 1000 in
    if ticks == 0 then 1 else if ltb 0xFFFFFFFF ticks then 0xFFFFFFFF else ticks

-- The first thread, whose stack is the one that is in use.
abbrev pub first_tcb : Tcb
first_tcb = record {
  id = 0;
  process_pid = 0;
  switches = 0;
  runtime_ticks = 0;
  wake_tick = 0;
  stack_base = 0;
  stack_size = 0;
  entry = 0;
  arg = 0;
  live = true;
  state = thread_running;
  next = none;
}

pub scheduler_init : ℕ → Scheduler → Scheduler
scheduler_init timer_hz s =
    let hz = if timer_hz == 0 then 100 else timer_hz in
    record s {
      ticks = 0;
      quantum_expirations = 0;
      context_switches = 0;
      quantum_ticks = calculate_quantum_ticks hz;
      quantum_remaining = calculate_quantum_ticks hz;
      timer_hz = hz;
      reschedule_pending = false;
      wakeup_pending = false;
      ready = true;
      tcbs = λ i.
          if i == 0
          then first_tcb
          else record (s.tcbs i) { live = false; state = thread_free; next = none; wake_tick = 0 };
      current = some 0;
      ready_head = none;
      ready_tail = none;
      sleep_head = none;
      thread_count = 1;
      ready_count = 0;
      sleeping_count = 0;
      next_tid = 1;
    }

-- The search for a slot of thread_create.
unfoldable pub free_from : (ℕ → Tcb) → ℕ → ℕ → Option ℕ
free_from f zero i = none
free_from f (suc rounds) i =
    let rest = free_from f rounds (i + 1) in if (f i).live then rest else some i

abbrev pub new_tcb : ℕ → ℕ → ℕ → ℕ → Tcb
new_tcb id stack entry arg = record {
  id = id;
  process_pid = 0;
  switches = 0;
  runtime_ticks = 0;
  wake_tick = 0;
  stack_base = stack;
  stack_size = stack_bytes;
  entry = entry;
  arg = arg;
  live = true;
  state = thread_ready;
  next = none;
}

-- A thread with this stack in a free slot.
pub start_thread : ℕ → ℕ → ℕ → ℕ → Scheduler → Scheduler
start_thread slot stack entry arg s =
    let s1 = ready_append slot (record s {
      tcbs = store s.tcbs slot (new_tcb s.next_tid stack entry arg);
      next_tid = (s.next_tid + 1) % 2 ^ 64;
    }) in
    record s1 { thread_count = (s1.thread_count + 1) % 2 ^ 32 }

-- The walk along the sleep list to the thread in front of `t`.
unfoldable pub seek_before : ℕ → (ℕ → Tcb) → ℕ → ℕ → Option ℕ
seek_before zero f t cursor = none
seek_before (suc fuel) f t cursor = elim (f cursor).next [
  | none ↦ none
  | some n ↦ let rest = seek_before fuel f t n in if n == t then some cursor else rest
]

-- What wake_thread_locked does with a thread that is out of the sleep list.
abbrev pub rouse : ℕ → Scheduler → Scheduler
rouse t s = ready_append t (record s {
  tcbs = store s.tcbs t (record (s.tcbs t) { next = none; wake_tick = 0; state = thread_ready });
  sleeping_count = s.sleeping_count - 1;
})

pub wake_thread_locked : ℕ → Scheduler → Scheduler
wake_thread_locked t s =
    let after = (s.tcbs t).next in
    let woken : Scheduler = elim s.sleep_head [
      | none ↦ s
      | some h ↦
          if h == t
          then rouse t (record s { sleep_head = after })
          else elim (seek_before max_threads s.tcbs t h) [
            | none ↦ s
            | some c ↦ rouse t (record s { tcbs = link s.tcbs c after })
          ]
    ] in
    if is_sleeping (s.tcbs t).state then woken else s

pub thread_wakeup : ℕ → Scheduler → Bool × Scheduler
thread_wakeup id s = elim (find_thread_by_id s id) [
  | none ↦ (false, s)
  | some t ↦ if not s.ready || not (is_sleeping (s.tcbs t).state) then (false, s) else (
    true,
    record (wake_thread_locked t s) { wakeup_pending = true; reschedule_pending = true },
  )
]

-- The number of ticks to sleep; the product and the sum are of 64 bits.
pub sleep_ticks : ℕ → ℕ → ℕ
sleep_ticks hz milliseconds =
    let ticks = (milliseconds * hz + 999) % 2 ^ 64 / 1000 in if ticks == 0 then 1 else ticks

module _ {W : Type 0} (k : Services W) where
  pub thread_create : ℕ → ℕ → Scheduler → W → ℕ × Scheduler × W
  thread_create entry arg s w =
      if not s.ready || entry == 0 || not (k.heap_is_ready w)
      then (0, s, w)
      else elim (free_from s.tcbs (max_threads - 1) 1) [
        | none ↦ (0, s, w)
        | some slot ↦
            let (stack, w1) = k.kmalloc stack_bytes w in
            if stack == 0 then (0, s, w1) else (s.next_tid, start_thread slot stack entry arg s, w1)
      ]

  -- `bootstrap` is the address of user_process_bootstrap.
  pub thread_create_user_process : ℕ → ℕ → Scheduler → W → ℕ × Scheduler × W
  thread_create_user_process bootstrap pid s w =
      let (tid, s1, w1) = thread_create bootstrap pid s w in
      let attached : ℕ × Scheduler × W = elim (find_from s1.tcbs tid (max_threads - 1) 1) [
        | none ↦ (0, s1, w1)
        | some i ↦
            let t = s1.tcbs i in
            (
              tid,
              record s1 { tcbs = store s1.tcbs i (record t { process_pid = pid }) },
              k.attach_thread pid ((t.stack_base + t.stack_size) % 2 ^ 64) tid w1,
            )
      ] in
      let started = if tid == 0 then (0, s1, w1) else attached in
      if not s.ready || pid == 0 || not (k.heap_is_ready w) || not (k.usermode_ready w)
      then (0, s, w)
      else elim (k.process_get pid w) [
        | none ↦ (0, s, w)
        | some p ↦ if p.ended || not (p.scheduler_thread_id == 0) then (0, s, w) else started
      ]

  pub thread_yield : Scheduler → W → Switch × Scheduler × W
  thread_yield s w =
      if s.ready then scheduler_process k (scheduler_request_reschedule s) w else (stays, s, w)

  -- No current thread, or the first.
  abbrev pub cannot_leave : Scheduler → Bool
  cannot_leave s = not s.ready || elim s.current [ none ↦ true | some c ↦ (s.tcbs c).id == 0 ]

  -- The thread is put into the sleep list.
  abbrev pub fall_asleep : ℕ → ℕ → Scheduler → Scheduler
  fall_asleep c milliseconds s =
      let s1 = sleep_insert c (record s {
        tcbs = store s.tcbs c (record (s.tcbs c) {
          wake_tick = (s.ticks + sleep_ticks s.timer_hz milliseconds) % 2 ^ 64;
          state = thread_sleeping;
        });
      }) in
      record s1 { reschedule_pending = true }

  pub thread_sleep_ms : ℕ → Scheduler → W → Switch × Scheduler × W
  thread_sleep_ms milliseconds s w = if cannot_leave s then (stays, s, w) else elim s.current [
    | none ↦ (stays, s, w)
    | some c ↦ scheduler_process k (fall_asleep c milliseconds s) w
  ]

  -- The thread is a zombie.
  abbrev pub give_up_thread : ℕ → Scheduler → Scheduler
  give_up_thread c s = record s {
    tcbs = mark s.tcbs c thread_zombie;
    thread_count = s.thread_count - 1;
    reschedule_pending = true;
  }

  -- Behind scheduler_process the processor is stopped with interrupts off.
  abbrev pub stop : Switch × Scheduler × W → Switch × Scheduler × W
  stop (switches_to old next, s, w) = (switches_to old next, s, w)
  stop (_, s, w) = (halts, s, w)

  pub thread_exit : Scheduler → W → Switch × Scheduler × W
  thread_exit s w = if cannot_leave s then (stays, s, w) else elim s.current [
    | none ↦ (stays, s, w)
    | some c ↦ stop (scheduler_process k (give_up_thread c s) w)
  ]

pub scheduler_elapsed_ms : Scheduler → ℕ
scheduler_elapsed_ms s = if s.timer_hz == 0 then 0 else s.ticks * 1000 % 2 ^ 64 / s.timer_hz

pub scheduler_thread_switches : Scheduler → ℕ → ℕ
scheduler_thread_switches s id = elim (find_thread_by_id s id) [
  | none ↦ 0
  | some t ↦ (s.tcbs t).switches
]

pub scheduler_thread_runtime_ticks : Scheduler → ℕ → ℕ
scheduler_thread_runtime_ticks s id = elim (find_thread_by_id s id) [
  | none ↦ 0
  | some t ↦ (s.tcbs t).runtime_ticks
]
