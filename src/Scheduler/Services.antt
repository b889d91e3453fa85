-- ===== src/Scheduler/Services.antt =====
-- What kernel/core/scheduler/scheduler.c calls of the process table, the heap, the page tables and
-- the watchdog, with `W` for their state.
use nexus_os.Base.{ℕ, Bool, Option}

-- The fields of `nexus_process_t` that the scheduler reads; `ended` is the state PROCESS_ZOMBIE.
pub record ProcessView : Type 0 where
  pub pid : ℕ
  pub ended : Bool
  pub address_space_cr3 : ℕ
  pub scheduler_thread_id : ℕ

-- `attach_thread` are the writes of thread_create_user_process to the process. A null pointer of
-- kmalloc is 0.
pub record Services (W : Type 0) : Type 0 where
  pub process_get : ℕ → W → Option ProcessView
  pub process_reap : ℕ → ℕ → W → Bool × W
  pub process_set_current : ℕ → W → W
  pub process_clear_current : W → W
  pub process_account_cpu_tick : ℕ → W → W
  pub attach_thread : ℕ → ℕ → ℕ → W → W
  pub usermode_ready : W → Bool
  pub heap_is_ready : W → Bool
  pub kmalloc : ℕ → W → ℕ × W
  pub kfree : ℕ → W → W
  pub paging_kernel_cr3 : W → ℕ
  pub paging_switch_cr3 : ℕ → W → W
  pub nexus_watchdog_timer_tick : W → W
