-- ===== src/Lifecycle/Tests.antt =====
-- Two processes, of which one ends.
use nexus_os.Base.{ℕ, ◌+◌, refl, true, false, [], List, ◌∷◌, replicate}
use nexus_os.Process.{max_count, no_process}
use nexus_os.UserMemory.{PagingServices}
use nexus_os.Ipc.{max_ipc_channels, no_channel}
use nexus_os.Lifecycle.{Processes, SpaceServices, process_init, Op, create, choose, exit, reap, run}
use nexus_os.Lifecycle.Counts.{IsCounted}
use nexus_os.Lifecycle.Accounting.{run-IsCounted}

-- The state is the next free address.
abbrev paging : PagingServices ℕ
paging = record {
  pmm_alloc_page = λ w. (w, w + 4096);
  pmm_free_page = λ phys w. w;
  paging_map_page_in_cr3 = λ cr3 va phys flags w. (true, w);
  paging_unmap_page_in_cr3 = λ cr3 va w. w;
  paging_virt_to_phys_in_cr3 = λ cr3 va w. va;
  read_byte = λ phys w. 0;
  write_byte = λ phys v w. w;
}

abbrev spaces : SpaceServices ℕ
spaces = record {
  paging_create_address_space = λ w. (w, w + 4096);
  paging_destroy_address_space = λ cr3 w. w;
  scheduler_ticks = λ w. 0;
}

abbrev processes : Processes
processes = record {
  ipc = record {
    channels = replicate max_ipc_channels no_channel;
    ready = true;
    table = record { processes = replicate max_count no_process; table_ready = false };
  };
  next_pid = 0;
  current_pid = 0;
  process_count = 0;
  zombie_count = 0;
}

abbrev calls : List (Op paging spaces)
calls = create 0 ∷ create 1 ∷ choose 1 ∷ exit 1 7 0 ∷ reap 1 0 ∷ exit 2 0 0 ∷ []

run-IsCounted_example : IsCounted (run paging spaces (process_init processes, 4096) calls).0
run-IsCounted_example = run-IsCounted paging spaces processes 4096 calls refl
