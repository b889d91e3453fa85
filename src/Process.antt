-- ===== src/Process.antt =====
-- kernel/core/process/process.c: the process table. The fields of `nexus_process_t` that the
-- modelled code reads or writes are those of `Process`; a pointer to a process is the index of its
-- slot. The table's spinlock masks interrupts, so each call is one step.
use nexus_os.Base.{
  ℕ, Bool, true, false, Option, none, List, [], ◌==◌, if◌then◌else◌, get_or, set, replicate,
  find_index,
}

pub data ProcessState : Type 0 where
  unused ready running zombie : ProcessState

abbrev pub is_unused : ProcessState → Bool
is_unused unused = true
is_unused _ = false

abbrev pub is_zombie : ProcessState → Bool
is_zombie zombie = true
is_zombie _ = false

-- PROCESS_MAX_COUNT, PROCESS_INVALID_PID and PROCESS_MAX_CHANNELS
abbrev pub max_count : ℕ
max_count = 8

abbrev pub invalid_pid : ℕ
invalid_pid = 0

abbrev pub max_channels : ℕ
max_channels = 8

-- One entry of user_page_va, user_page_phys and user_page_flags.
pub record UserPage : Type 0 where
  pub va : ℕ
  pub phys : ℕ
  pub flags : ℕ

-- The user memory of a process; `pages` are the first user_page_count entries of the three arrays
-- and `has_memory` is PROCESS_FLAG_USER_MEMORY.
pub record UserMemory : Type 0 where
  pub address_space_cr3 : ℕ
  pub pages : List UserPage
  pub page_base : ℕ
  pub pages_reserved : ℕ
  pub stack_base : ℕ
  pub stack_size : ℕ
  pub heap_end : ℕ
  pub has_memory : Bool

-- One entry of the environment.
pub record EnvEntry : Type 0 where
  pub key : List ℕ
  pub value : List ℕ

pub data FdType : Type 0 where
  fd_unused stdin_console stdout_console stderr_console vfs_file vfs_dir : FdType

pub record Fd : Type 0 where
  pub type : FdType
  pub flags : ℕ
  pub object : ℕ
  pub offset : ℕ
  pub path : List ℕ

-- The fields of a process that its creation and its end write.
pub record ProcessInfo : Type 0 where
  pub parent_pid : ℕ
  pub capabilities : ℕ
  pub start_tick : ℕ
  pub cpu_ticks : ℕ
  pub heap_base : ℕ
  pub memory_limit_bytes : ℕ
  pub priority : ℕ
  pub name : List ℕ
  pub cwd : List ℕ
  pub user_entry : ℕ
  pub kernel_stack : ℕ
  pub scheduler_thread_id : ℕ
  pub fds : List Fd
  pub exit_code : ℕ
  pub exit_reason : ℕ

-- `env` are the first env_count entries of the array.
pub record Process : Type 0 where
  pub pid : ℕ
  pub state : ProcessState
  pub ipc_handles : List ℕ
  pub memory : UserMemory
  pub env : List EnvEntry
  pub info : ProcessInfo

abbrev pub no_memory : UserMemory
no_memory = record {
  address_space_cr3 = 0;
  pages = [];
  page_base = 0;
  pages_reserved = 0;
  stack_base = 0;
  stack_size = 0;
  heap_end = 0;
  has_memory = false;
}

-- PROCESS_MAX_FDS
abbrev pub max_fds : ℕ
max_fds = 16

abbrev pub no_fd : Fd
no_fd = record { type = fd_unused; flags = 0; object = 0; offset = 0; path = [] }

abbrev pub no_info : ProcessInfo
no_info = record {
  parent_pid = 0;
  capabilities = 0;
  start_tick = 0;
  cpu_ticks = 0;
  heap_base = 0;
  memory_limit_bytes = 0;
  priority = 0;
  name = [];
  cwd = [];
  user_entry = 0;
  kernel_stack = 0;
  scheduler_thread_id = 0;
  fds = replicate max_fds no_fd;
  exit_code = 0;
  exit_reason = 0;
}

abbrev pub no_process : Process
no_process = record {
  pid = 0;
  state = unused;
  ipc_handles = replicate max_channels 0;
  memory = no_memory;
  env = [];
  info = no_info;
}

pub record ProcessTable : Type 0 where
  pub processes : List Process
  pub table_ready : Bool

abbrev pub owns_pid : ℕ → Process → Bool
owns_pid pid p = elim (is_unused p.state) [ true ↦ false | false ↦ p.pid == pid ]

-- The slot of a process.
unfoldable pub process_get : ProcessTable → ℕ → Option ℕ
process_get t pid =
    if t.table_ready
    then if pid == invalid_pid then none else find_index (owns_pid pid) t.processes
    else none

abbrev pub process_at : ProcessTable → ℕ → Process
process_at t slot = get_or t.processes slot no_process

-- A store through the pointer of a slot.
abbrev pub put_process : ProcessTable → ℕ → Process → ProcessTable
put_process t slot p = record t { processes = set t.processes slot p }
