-- ===== src/Lifecycle.antt =====
-- kernel/core/process/process.c: creation, choice, end and reaping of processes. `Processes` has the
-- globals of the file, with the channels of kernel/core/ipc/ipc.c, which share the process table.
-- The calls of kernel/mm/paging.c and of the scheduler's clock are `SpaceServices`.
pub mod Counts
pub mod Current
pub mod Accounting
mod Tests
use nexus_os.Base.{
  ℕ, ◌+◌, ◌-◌, ◌%◌, ◌^◌, Bool, true, false, ◌&&◌, ◌||◌, not, Option, none, some, List, [], ◌∷◌,
  ◌==◌, if◌then◌else◌, map, replicate, find_index, get_or, set, length,
}
use nexus_os.Process.{
  Process, ProcessState, unused, ready, running, zombie, ProcessTable, ProcessInfo, Fd, FdType,
  stdin_console, stdout_console, stderr_console, is_unused, is_zombie, invalid_pid, max_channels,
  max_fds, no_fd, no_info, no_memory, process_get, process_at, put_process,
}
use nexus_os.UserMemory.{PagingServices, process_unmap_user_memory}
use nexus_os.Ipc.{Ipc, nexus_ipc_process_terminate}

pub record Processes : Type 0 where
  pub ipc : Ipc
  pub next_pid : ℕ
  pub current_pid : ℕ
  pub process_count : ℕ
  pub zombie_count : ℕ

pub record SpaceServices (W : Type 0) : Type 0 where
  pub paging_create_address_space : W → ℕ × W
  pub paging_destroy_address_space : ℕ → W → W
  pub scheduler_ticks : W → ℕ

-- NEXUS_CAP_ALL, and the start of the heap of a process
abbrev pub cap_all : ℕ
cap_all = 0x7FF

abbrev pub heap_start : ℕ
heap_start = 0x10000000

abbrev pub increment64 : ℕ → ℕ
increment64 n = (n + 1) % 2 ^ 64

abbrev pub table_of : Processes → ProcessTable
table_of s = s.ipc.table

abbrev pub with_table : Processes → ProcessTable → Processes
with_table s t = record s { ipc = record (s.ipc) { table = t } }

abbrev pub set_state : ProcessState → Process → Process
set_state state p = record p { state = state }

pub process_init : Processes → Processes
process_init s = record s {
  ipc = record (s.ipc) {
    table = record {
      processes = map (set_state unused) (table_of s).processes;
      table_ready = true;
    };
  };
  next_pid = 1;
  current_pid = invalid_pid;
  process_count = 0;
  zombie_count = 0;
}

-- p->pid = g_next_pid++, once more if that is PROCESS_INVALID_PID: the pid and the next one.
abbrev pub take_pid : ℕ → ℕ × ℕ
take_pid next =
    if next == invalid_pid
    then (increment64 next, increment64 (increment64 next))
    else (next, increment64 next)

abbrev console : FdType → Fd
console type = record no_fd { type = type }

abbrev pub first_fds : List Fd
first_fds =
    console stdin_console
    ∷ console stdout_console
    ∷ console stderr_console
    ∷ replicate (max_fds - 3) no_fd

-- The new process, up to the address space.
abbrev pub begun : ProcessTable → ℕ → ℕ → ℕ → ℕ → Process → Process
begun t pid parent_pid tick cr3 p = record p {
  pid = pid;
  memory = record (p.memory) { address_space_cr3 = cr3; heap_end = heap_start };
  env = [];
  info = record (p.info) {
    parent_pid = parent_pid;
    capabilities = elim (process_get t parent_pid) [
      | none ↦ cap_all
      | some parent ↦ (process_at t parent).info.capabilities
    ];
    start_tick = tick;
    cpu_ticks = 0;
    heap_base = heap_start;
    memory_limit_bytes = 0;
    priority = 16;
    name = [];
    cwd = 47 ∷ [];
  };
}

-- And the rest of it.
abbrev pub completed : Process → Process
completed p = record p {
  state = ready;
  ipc_handles = replicate max_channels 0;
  memory = record no_memory {
    address_space_cr3 = p.memory.address_space_cr3;
    heap_end = p.memory.heap_end;
  };
  info = record (p.info) {
    user_entry = 0;
    kernel_stack = 0;
    scheduler_thread_id = 0;
    fds = first_fds;
    exit_code = 0;
    exit_reason = 0;
  };
}

-- next->state and old->state in process_set_current.
abbrev may_run : ProcessState → Bool
may_run ready = true
may_run running = true
may_run _ = false

abbrev is_running : ProcessState → Bool
is_running running = true
is_running _ = false

-- if (old && old->state == PROCESS_RUNNING) old->state = PROCESS_READY
pub stop_running : ProcessTable → Option ℕ → ProcessTable
stop_running t none = t
stop_running t (some old) =
    if is_running (process_at t old).state
    then put_process t old (set_state ready (process_at t old))
    else t

pub process_set_current : ℕ → Processes → Bool × Processes
process_set_current pid s =
    let t = table_of s in
    elim (process_get t pid) [
      | none ↦ (false, s)
      | some next ↦
          let old = process_get t s.current_pid in
          let other : Option ℕ = elim old [
            | none ↦ none
            | some o ↦ if o == next then none else some o
          ] in
          let t1 = stop_running t other in
          if may_run (process_at t next).state
          then (
            true,
            record (with_table s (put_process t1 next (set_state running (process_at t1 next)))) {
              current_pid = pid;
            },
          )
          else (false, s)
    ]

pub process_clear_current : Processes → Processes
process_clear_current s =
    let t = table_of s in
    record (with_table s (stop_running t (process_get t s.current_pid))) {
      current_pid = invalid_pid;
    }

abbrev ended : ℕ → ℕ → Process → Process
ended code reason p = record p {
  state = zombie;
  info = record (p.info) { exit_code = code; exit_reason = reason };
}

pub process_exit_with_code : ℕ → ℕ → ℕ → Processes → Bool × Processes
process_exit_with_code pid code reason s = elim (process_get (table_of s) pid) [
  | none ↦ (false, s)
  | some slot ↦
      let ipc = nexus_ipc_process_terminate s.ipc pid in
      let t = put_process ipc.table slot (ended code reason (process_at ipc.table slot)) in
      if is_zombie (process_at (table_of s) slot).state then (false, s) else (
        true,
        record s {
          ipc = record ipc { table = t };
          process_count = s.process_count - 1;
          zombie_count = increment64 s.zombie_count;
        },
      )
]

pub process_exit : ℕ → Processes → Bool × Processes
process_exit pid s = process_exit_with_code pid 0 0 s

-- The process as process_reap leaves it in its slot.
abbrev pub reaped : Process → Process
reaped p = record p {
  pid = invalid_pid;
  state = unused;
  ipc_handles = replicate max_channels 0;
  memory = record (p.memory) {
    address_space_cr3 = 0;
    stack_base = 0;
    stack_size = 0;
    heap_end = 0;
    has_memory = false;
  };
  env = [];
  info = record no_info { capabilities = p.info.capabilities };
}

-- The thread that has ended must be the one of the process.
abbrev pub is_own_thread : ℕ → Process → Bool
is_own_thread thread p = p.info.scheduler_thread_id == thread

module _ {W : Type 0} (k : PagingServices W) (spaces : SpaceServices W) where
  -- process_create, when the table is ready.
  pub create_ready : ℕ → Processes → W → ℕ × Processes × W
  create_ready parent_pid s w =
      let t = table_of s in
      elim (find_index (λ (p : Process). is_unused p.state) t.processes) [
        | none ↦ (invalid_pid, s, w)
        | some slot ↦
            let (pid, next) = take_pid s.next_pid in
            let (cr3, w1) = spaces.paging_create_address_space w in
            let p = begun t pid parent_pid (spaces.scheduler_ticks w) cr3 (process_at t slot) in
            let s1 = record s { next_pid = next } in
            if cr3 == 0 then (invalid_pid, with_table s1 (put_process t slot p), w1) else (
              pid,
              record (with_table s1 (put_process t slot (completed p))) {
                process_count = increment64 s.process_count;
              },
              w1,
            )
      ]

  pub process_create : ℕ → Processes → W → ℕ × Processes × W
  process_create parent_pid s w =
      if (table_of s).table_ready then create_ready parent_pid s w else (invalid_pid, s, w)

  pub process_reap : ℕ → ℕ → Processes → W → Bool × Processes × W
  process_reap pid thread s w = elim (process_get (table_of s) pid) [
    | none ↦ (false, s, w)
    | some slot ↦
        let p = process_at (table_of s) slot in
        let (unmapped, t, w1) = process_unmap_user_memory k (table_of s) pid w in
        let cr3 = (process_at t slot).memory.address_space_cr3 in
        if not (is_zombie p.state) || not (is_own_thread thread p) then (false, s, w) else (
          true,
          record (with_table s (put_process t slot (reaped (process_at t slot)))) {
            zombie_count = s.zombie_count - 1;
          },
          if cr3 == 0 then w1 else spaces.paging_destroy_address_space cr3 w1,
        )
  ]

  -- The calls that change the globals, and any sequence of them.
  pub data Op : Type 0 where
    create : (parent_pid : ℕ) → Op
    choose : (pid : ℕ) → Op
    clear_current : Op
    exit : (pid code reason : ℕ) → Op
    reap : (pid thread : ℕ) → Op

  abbrev pub without_result : Bool × Processes × W → Processes × W
  without_result (ok, s, w) = (s, w)

  pub step : Processes × W → Op → Processes × W
  step (s, w) (create parent_pid) = let (pid, s', w') = process_create parent_pid s w in (s', w')
  step (s, w) (choose pid) = ((process_set_current pid s).1, w)
  step (s, w) clear_current = (process_clear_current s, w)
  step (s, w) (exit pid code reason) = ((process_exit_with_code pid code reason s).1, w)
  step (s, w) (reap pid thread) = without_result (process_reap pid thread s w)

  pub run : Processes × W → List Op → Processes × W
  run m [] = m
  run m (op ∷ ops) = run (step m op) ops
