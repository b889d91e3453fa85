-- ===== src/Lib.antt =====
-- Verification library of NexusOS, a kernel in C for x86_64.
--
-- Parts and files (C paths from the root of the repository):
--   Base           numbers, lists, options and ring buffers that the parts share
--   EventQueue     kernel/core/events/event_queue.c: the ring of 256 slots between the interrupt
--                  handlers and the main loop. `EventQueue` is g_queue; Refine gives the mailbox
--                  that it implements, Accounting its counters, Nested the pop between whose
--                  accesses interrupts push.
--   Process        kernel/core/process/process.c: the process table as far as the other parts read it
--   UserMemory     kernel/core/process/process.c: the user pages of a process; Access has the reads
--                  and writes of the kernel in user memory, Allocation the functions that map several
--                  pages; Range is about process_user_range_valid and the access, Success about
--                  process_map_user_page
--   Lifecycle      kernel/core/process/process.c: creation, choice, end and reaping of processes;
--                  Counts, Current and Accounting are about the counts of processes and of zombies
--   ProcessEnv     kernel/core/process/process.c: the environment variables of a process; Entries
--                  is about the list of entries, Lookup about the calls
--   Channel        kernel/core/ipc/ipc.c: one channel with its two ports; Fifo gives the messages
--                  that wait in a port
--   Ipc            kernel/core/ipc/ipc.c: the calls, on the table of 16 channels and the handles in
--                  the process table; Transfer, Accept, Delivery, Connect, Close say what they do,
--                  Stuck, Terminate and Leak follow a channel whose process has ended
--   Pmm            kernel/mm/pmm.c: the physical page allocator; Bitmap, Alloc, Owner and Ranges are
--                  about its operations, Boot (with include/nexus/boot_info.h) about pmm_init
--   Paging         kernel/mm/paging.c: the page tables; Tree, Link, Same, Steps and Walk are about
--                  walk_create_root on a tree of tables, Mapping, Reads, Pages and Undo about
--                  map_page_root and unmap_page_root, Paths about walks that create nothing, Boot
--                  about the identity map. Space has the
--                  address spaces and kernel/mm/vmm.c, Services the calls of process.c.
--   Heap           kernel/mm/heap.c: the kernel heap; Layout is the list of blocks that a sound heap
--                  is, Valid about heap_validate, Split, Grow and Alloc about kmalloc, Merge and
--                  Free about kfree, and Pages is the mapping of new pages over its interface
--   Scheduler      kernel/core/scheduler/scheduler.c: threads, the ready list and the sleep list as
--                  linked cells (Chain, Ready, Sleep, Due, Wake, Frame) and the wait queues
--                  (Waiting). Switch is scheduler_process with the timer tick, Threads the calls
--                  that create, delay, wake and end threads; Services is the interface to the
--                  process table, the heap, the page tables and the watchdog.
--   Sync           kernel/core/sync/sync.c: the mutex; Line gives the line of threads that it
--                  keeps, Handover what an unlock does with it
--   KernelEvents   kernel/core/events/kernel_events.c: the counters of processed events and the
--                  broadcast to the threads that wait
--   Modules        kernel/core/module/module.c: the loader of modules; Soundness is about the manager
--                  between loads, Load about one module and its dependencies, All about
--                  module_load_all
--   Mount          fs/vfs/mount/mount.c: the mount table; Resolve is about vfs_mount_resolve, Table
--                  about vfs_mount
--   Gpt            fs/gpt/gpt.c: the partition table; Scan is about gpt_scan, Names about
--                  gpt_find_name
--   Network        kernel/core/network/network.c: the checksum and the checks of headers
--
-- How the parts meet: the IPC calls read and write the handle slots of the process table, which is
-- a part of their state; a mutex calls the wait queues and the ready list of the scheduler, and so do
-- the kernel events. The other parts do not share state. Threads switch only inside
-- scheduler_process, so a call up to it is one step, and the calls of different threads are a list
-- of steps, each with the scheduler as it is then. What the scheduler calls of other parts is the
-- record `Services` of operations on a state that the scheduler does not look into, and what the heap
-- calls of the page allocator and the page tables is the record `PageServices`, what the user pages
-- need of them the record `PagingServices`, which Paging.Services fills with the page tables and the
-- page allocator: the page tables allocate their tables there and the two are one state.
--
-- The globals of a C file are the fields of one record and every function takes and returns it. A
-- C function that fails returns none, or the failure value where that value can also be a result
-- (address 0 of pmm_alloc_page). Unsigned counters keep their wrap-around. Indices of arrays are
-- taken as the C code computes them; an access out of range, which the code never makes, reads a
-- default. Interrupts are explicit: Nested takes the bursts of pushes that arrive between the
-- accesses of a pop.
--
-- Fuel: the loops of reserve_range and release_range end at PMM_MAX_PAGES, so one round more than
-- that number is enough; a walk along the sleep list has a round for each thread of the table. The
-- recursion of module_load_index marks a module per call, so one call more than there are modules is
-- enough, and each round of module_load_all settles a module. The walks along the heap's blocks end
-- at the limit of heap_validate, which comes before them. The loops over a user range have a round
-- for each page that the range can touch. All other loops run over a count that
-- is known when they start.
--
-- Not modelled: device drivers, assembly, the boot loader, the graphical interface, the shell, the
-- file systems behind the mount and partition tables and, of the scheduler, the exchange of two stacks.
-- Of the page tables the loads of CR3 and the flushes of translations are left out. The EFI memory
-- map is a parameter, a function from addresses to descriptors, and so are the init functions of
-- modules.
pub mod Base
pub mod Channel
pub mod EventQueue
pub mod Gpt
pub mod Heap
pub mod Ipc
pub mod KernelEvents
pub mod Lifecycle
pub mod Modules
pub mod Mount
pub mod Network
pub mod Paging
pub mod Pmm
pub mod Process
pub mod ProcessEnv
pub mod Scheduler
pub mod Sync
pub mod UserMemory
