-- ===== src/UserMemory/Tests.antt =====
-- A process with a page of code, a page of data and a page of stack.
use nexus_os.Base.{
  ℕ, ◌+◌, ◌<◌, ◌≤◌, ◌≡◌, ◌↔◌, refl, true, false, none, some, [], ◌∷◌, ◌==◌, if◌then◌else◌, arith,
  replicate, find_index,
}
use nexus_os.Process.{
  no_info, ProcessTable, UserMemory, UserPage, is_zombie, max_channels, no_memory, process_at,
  process_get, ready,
}
use nexus_os.UserMemory.{
  PagingServices, page_flags, page_nx, page_writable, process_user_range_valid, user_base,
  user_limit,
}
use nexus_os.UserMemory.Access.{process_user_read, process_user_write}
use nexus_os.UserMemory.Range.{byte_allowed, process_user_range_valid_lem, user_access-refuses_nx}

abbrev stack : ℕ
stack = 0x7FFFF000

abbrev user_page : ℕ → ℕ → UserPage
user_page va flags = record { va = va; phys = va; flags = flags }

abbrev memory : UserMemory
memory = record no_memory {
  address_space_cr3 = 4096;
  pages =
      user_page user_base 0
      ∷ user_page (user_base + 4096) page_writable
      ∷ user_page stack (page_writable + page_nx)
      ∷ [];
}

abbrev table : ProcessTable
table = record {
  processes =
      record {
        pid = 1;
        state = ready;
        ipc_handles = replicate max_channels 0;
        memory = memory;
        env = [];
        info = no_info;
      }
      ∷ [];
  table_ready = true;
}

-- Memory that maps every address to itself.
abbrev paging : PagingServices (ℕ → ℕ)
paging = record {
  pmm_alloc_page = λ w. (0, w);
  pmm_free_page = λ phys w. w;
  paging_map_page_in_cr3 = λ cr3 va phys flags w. (true, w);
  paging_unmap_page_in_cr3 = λ cr3 va w. w;
  paging_virt_to_phys_in_cr3 = λ cr3 va w. va;
  read_byte = λ phys w. w phys;
  write_byte = λ phys v w. λ a. if a == phys then v else w a;
}

abbrev empty : ℕ → ℕ
empty a = 0

finds_one : process_get table 1 ≡ some 0
unfolding process_get find_index
finds_one = refl

process_user_range_valid_lem_example :
    (process_user_range_valid table 1 (user_base + 4090) 10 0 ≡ true) ↔ (
      (is_zombie (process_at table 0).state ≡ false)
      × (0 < 10)
      × (user_base ≤ user_base + 4090)
      × (user_base + 4090 + 10 ≤ user_limit)
      × ((b : ℕ)
          → user_base + 4090 ≤ b
          → b < user_base + 4090 + 10
          → byte_allowed (process_at table 0).memory.pages 0 b ≡ true))
process_user_range_valid_lem_example =
    process_user_range_valid_lem table 1 0 (user_base + 4090) 10 0 finds_one (omega arith)
      (λ above. absurd (omega arith))

user_access-refuses_nx_example :
    (process_user_read paging table 1 (stack + 16) 2 empty ≡ none)
    × (process_user_write paging table 1 (stack + 16) (7 ∷ 8 ∷ []) empty ≡ (false, empty))
unfolding page_flags
user_access-refuses_nx_example =
    user_access-refuses_nx paging table 1 0 (stack + 16) (stack + 17) (page_writable + page_nx)
      (7 ∷ 8 ∷ []) empty finds_one (omega arith) (omega arith) (omega arith) refl refl
