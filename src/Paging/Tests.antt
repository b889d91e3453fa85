-- ===== src/Paging/Tests.antt =====
-- An address space with a 2 MiB page of the identity map, and the tables of paging_init.
use nexus_os.Base.{
  ℕ, ◌+◌, ◌*◌, ◌≡◌, inl, inr, refl, ap, true, false, ◌&&◌, some, [], ◌∷◌, arith, ◌==◌,
  if◌then◌else◌, Bool-cases, replicate, find_index,
}
use nexus_os.Base.Count.{count_free}
use nexus_os.Pmm.{Pmm, page_size, pmm_alloc_page, alloc_from, bitmap_set, bitmap_test}
use nexus_os.Pmm.Alloc.{IsExact, is_used}
use nexus_os.Process.{no_info, ProcessTable, max_channels, no_memory, process_get, ready}
use nexus_os.UserMemory.{process_map_user_page, page_flags}
use nexus_os.Paging.{
  Paging, mapped, map_page_root, unmap_page_root, walk_create_root, walk_pdpt, walk_pd,
  present_entry, link_table, alloc_table_page, virt_to_phys_root,
}
use nexus_os.Paging.Tree.{IsTree}
use nexus_os.Paging.Pages.{IsSpace, Maps, Unmaps, map_page_root-Maps, unmap_page_root-Unmaps}
use nexus_os.Paging.Undo.{unmap-map}
use nexus_os.Paging.Services.{Machine, paging_services, process_map_user_page-maps_nothing}
use nexus_os.Paging.Boot.{Statics, map_2m_page}
use nexus_os.Paging.Boot.Identity.{IsLayout, IsBuilt, map_2m_page-sees}

-- Sixteen pages; the first eight are used.
abbrev half_free : Pmm
half_free = record {
  bitmap = λ i. if i == 0 then 255 else if i == 1 then 0 else 255;
  total_pages = 16;
  free_pages = 8;
  max_physical_address = 0x10000;
  ready = true;
}

half_free-IsExact : IsExact half_free
unfolding count_free bitmap_test
half_free-IsExact = record { bytes = λ i. ground arith; small = omega arith; counted = refl }

abbrev tables : ℕ → ℕ → ℕ
tables t i =
    if t == 0x1000 && i == 0
    then 0x2003
    else if t == 0x2000 && i == 0
    then 0x3003
    else if t == 0x3000 && i == 2
    then 0x400083
    else 0

abbrev state : Paging
state = record { pmm = half_free; tables = tables; owners = [] }

abbrev level : ℕ → ℕ
level t = if t == 0x1000 then 4 else if t == 0x2000 then 3 else if t == 0x3000 then 2 else 0

used_one : is_used half_free 1 ≡ true
unfolding bitmap_test
used_one = refl

used_two : is_used half_free 2 ≡ true
unfolding bitmap_test
used_two = refl

used_three : is_used half_free 3 ≡ true
unfolding bitmap_test
used_three = refl

-- The tables stand in the used pages 1, 2 and 3.
level_used : (page : ℕ) → is_used half_free page ≡ false → level (page * page_size) ≡ 0
level_used page unused = elim (Bool-cases (page == 1)) [
  | inl one ↦ absurd (used_at 1 (ground (arith, one)) used_one)
  | inr not_one ↦ elim (Bool-cases (page == 2)) [
    | inl two ↦ absurd (used_at 2 (ground (arith, two)) used_two)
    | inr not_two ↦ elim (Bool-cases (page == 3)) [
      | inl three ↦ absurd (used_at 3 (ground (arith, three)) used_three)
      | inr not_three ↦ ground (arith, not_one, not_two, not_three)
    ]
  ]
]
  where
    used_at : (p : ℕ) → page ≡ p → is_used half_free p ≡ true → ⊥
    used_at p e used = cc (ap (is_used half_free) e)

state-IsTree : IsTree level (λ t. 0) 0x1000 state
state-IsTree = record {
  fits = record {
    exact = half_free-IsExact;
    free_level = λ page small unused. level_used page unused;
  };
  root_level = refl;
  root_covers = refl;
  child = λ t i deep small here side. ground (arith, deep, here, side);
}

space : IsSpace 0x1000 state
space = record { level = level; covers = λ t. 0; tree = state-IsTree }

maps_one : (map_page_root 0x1000 0x600000 0x9000 7 state).0 ≡ mapped
unfolding map_page_root walk_create_root walk_pdpt walk_pd present_entry link_table alloc_table_page
    pmm_alloc_page alloc_from bitmap_set bitmap_test
maps_one = refl

-- A page that is not to be executed.
map_page_root-Maps_example :
    Maps 0x1000 0x600000 0x8000000000009000 state
      (map_page_root 0x1000 0x600000 0x9000 0x8000000000000007 state)
map_page_root-Maps_example =
    map_page_root-Maps 0x1000 0x600000 0x9000 0x8000000000000007 state space refl refl (omega arith)
      (omega arith) (omega arith)

unmap_page_root-Unmaps_example :
    Unmaps 0x1000 0x600000 state (unmap_page_root 0x1000 0x600000 state)
unmap_page_root-Unmaps_example = unmap_page_root-Unmaps 0x1000 0x600000 state space refl

unmap-map_example :
    ((unmap_page_root 0x1000 0x600000 (map_page_root 0x1000 0x600000 0x9000 7 state).1).0 ≡ true)
    × ((a : ℕ)
        → virt_to_phys_root 0x1000 a
            (unmap_page_root 0x1000 0x600000 (map_page_root 0x1000 0x600000 0x9000 7 state).1).1
          ≡ virt_to_phys_root 0x1000 a state)
unmap-map_example = unmap-map 0x1000 0x600000 0x9000 7 state space refl refl maps_one

abbrev machine : Machine
machine = record { paging = state; bytes = λ a. 0 }

abbrev table : ProcessTable
table = record {
  processes =
      record {
        pid = 1;
        state = ready;
        ipc_handles = replicate max_channels 0;
        memory = record no_memory { address_space_cr3 = 0x1000 };
        env = [];
        info = no_info;
      }
      ∷ [];
  table_ready = true;
}

finds_one : process_get table 1 ≡ some 0
unfolding process_get find_index
finds_one = refl

-- The first user page, which the identity map covers.
succeeds : (process_map_user_page paging_services table 1 0x400000 2 machine).0 ≡ true
unfolding process_map_user_page process_get find_index page_flags map_page_root walk_create_root
    walk_pdpt walk_pd present_entry link_table alloc_table_page pmm_alloc_page alloc_from bitmap_set
    bitmap_test
succeeds = refl

process_map_user_page-maps_nothing_example :
    virt_to_phys_root 0x1000 0x400000
      (process_map_user_page paging_services table 1 0x400000 2 machine).2.paging
    ≡ virt_to_phys_root 0x1000 0x400000 state
process_map_user_page-maps_nothing_example =
    process_map_user_page-maps_nothing table 1 0 0x400000 2 machine finds_one space succeeds
      0x400000

abbrev statics : Statics
statics = record {
  pml4 = 0x1000;
  pdpt = 0x2000;
  pd_base = λ i. 0x10000 + i * 0x1000;
  pd_extra = λ i. 0x20000 + i * 0x1000;
}

statics-IsLayout : IsLayout statics
statics-IsLayout = record {
  pml4_reach = refl;
  pdpt_reach = refl;
  pdpt_page = refl;
  base_reach = λ i small. ground (arith, small);
  base_page = λ i small. omega arith;
  base_pml4 = λ i small e. omega (arith, e);
  base_pdpt = λ i small e. omega (arith, e);
  extra_reach = λ i small. ground (arith, small);
  extra_page = λ i small. omega arith;
  extra_pml4 = λ i small e. omega (arith, e);
  extra_pdpt = λ i small e. omega (arith, e);
  pml4_pdpt = λ e. omega (arith, e);
}

abbrev built : Paging
built = record state { tables = λ t i. if t == 0x1000 && i == 0 then 0x2003 else 0 }

built-IsBuilt : IsBuilt statics built
unfolding find_index
built-IsBuilt = record {
  at_root = refl;
  at_base = λ i small. inl refl;
  at_extra = λ i slot taken. cc taken;
  room = omega arith;
}

-- A device page 2 MiB above 512 GiB takes the place of the kernel's page at 2 MiB.
map_2m_page-sees_example :
    virt_to_phys_root 0x1000 0x200000 (map_2m_page statics 0x8000200000 0x18 built) ≡ 0x8000200000
map_2m_page-sees_example =
    map_2m_page-sees statics 0x8000200000 0x18 0 built statics-IsLayout built-IsBuilt refl
      (omega arith) (inr refl) (omega arith)
