-- ===== src/Paging/Space.antt =====
-- kernel/mm/paging.c and kernel/mm/vmm.c: address spaces, and the pages of the kernel's own one.
-- `pml4` is the address of the kernel's root table.
use nexus_os.Base.{
  ◌%◌, ◌^◌, ℕ, zero, suc, ◌+◌, ◌-◌, ◌%◌, Bool, true, false, ◌&&◌, ◌||◌, not, Option, none, some,
  ◌==◌, if◌then◌else◌,
}
use nexus_os.Pmm.{pmm_free_page}
use nexus_os.Paging.{
  Paging, MapResult, mapped, is_present, is_huge, frame, is_reachable, put_entry, entries_per_table,
  alloc_table_page, map_page_root, unmap_page_root, virt_to_phys_root,
}

abbrev free_table : ℕ → Paging → Paging
free_table phys s = record s { pmm = pmm_free_page phys s.pmm }

abbrev copy_entry : ℕ → ℕ → ℕ → Paging → Paging
copy_entry dst i e s = record s { tables = put_entry s.tables dst i e }

-- The loop of clone_table over the entries from i on; `child` clones a table of the next level.
pub clone_entries :
    (ℕ → Paging → Option ℕ × Paging) → ℕ → ℕ → ℕ → ℕ → ℕ → Paging → Option ℕ × Paging
clone_entries child level src dst zero i s = (some dst, s)
clone_entries child level src dst (suc rounds) i s =
    let e = s.tables src i in
    elim (not (is_present e)) [
      | true ↦ clone_entries child level src dst rounds (i + 1) s
      | false ↦ elim (level == 2 && is_huge e || level == 1) [
        | true ↦ clone_entries child level src dst rounds (i + 1) (copy_entry dst i e s)
        | false ↦
            let (cloned, s1) = child (frame e) s in
            elim cloned [
              | none ↦ (none, free_table dst s1)
              | some c ↦
                  clone_entries child level src dst rounds (i + 1)
                    (copy_entry dst i (c + e % 4096) s1)
            ]
      ]
    ]

-- none is *ok = 0.
pub clone_table : ℕ → ℕ → Paging → Option ℕ × Paging
clone_table zero src s = (none, s)
clone_table (suc level) src s =
    let (dst, s1) = alloc_table_page s in
    if not (is_reachable src)
    then (none, s)
    else if dst == 0
    then (none, s1)
    else clone_entries (clone_table level) (suc level) src dst entries_per_table 0 s1

-- The loop of destroy_table over the entries from i on.
pub destroy_entries : (ℕ → Paging → Paging) → ℕ → ℕ → ℕ → ℕ → Paging → Paging
destroy_entries child level phys zero i s = s
destroy_entries child level phys (suc rounds) i s =
    let e = s.tables phys i in
    elim (not (is_present e) || level == 2 && is_huge e) [
      | true ↦ destroy_entries child level phys rounds (i + 1) s
      | false ↦ destroy_entries child level phys rounds (i + 1) (child (frame e) s)
    ]

pub destroy_table : ℕ → ℕ → Paging → Paging
destroy_table zero phys s = s
destroy_table (suc level) phys s =
    if not (is_reachable phys)
    then s
    else if level == 0
    then free_table phys s
    else free_table phys
        (destroy_entries (destroy_table level) (suc level) phys entries_per_table 0 s)

module _ (pml4 : ℕ) where
  -- 0 is the failure.
  pub paging_create_address_space : Paging → ℕ × Paging
  paging_create_address_space s =
      let (root, s1) = clone_table 4 pml4 s in elim root [ none ↦ (0, s1) | some r ↦ (r, s1) ]

  pub paging_destroy_address_space : ℕ → Paging → Paging
  paging_destroy_address_space cr3 s = if cr3 == 0 || cr3 == pml4 then s else destroy_table 4 cr3 s

  pub paging_map_page : ℕ → ℕ → ℕ → Paging → MapResult × Paging
  paging_map_page va pa flags s = map_page_root pml4 va pa flags s

  pub paging_unmap_page : ℕ → Paging → Bool × Paging
  paging_unmap_page va s = unmap_page_root pml4 va s

  pub paging_virt_to_phys : ℕ → Paging → ℕ
  paging_virt_to_phys va s = virt_to_phys_root pml4 va s

-- The globals of vmm.c.
pub record Vmm : Type 0 where
  pub ready : Bool
  pub mapped_pages : ℕ

abbrev pub is_mapped_now : MapResult → Bool
is_mapped_now mapped = true
is_mapped_now _ = false

pub vmm_init : Vmm
vmm_init = record { ready = true; mapped_pages = 0 }

module _ (pml4 : ℕ) where
  pub vmm_map_page : ℕ → ℕ → ℕ → Vmm → Paging → Bool × Vmm × Paging
  vmm_map_page va pa flags v s =
      let (r, s1) = paging_map_page pml4 va pa flags s in
      if not v.ready || not (va % 4096 == 0) || not (pa % 4096 == 0)
      then (false, v, s)
      else if is_mapped_now r
      then (true, record v { mapped_pages = (v.mapped_pages + 1) % 2 ^ 64 }, s1)
      else (false, v, s1)

  pub vmm_unmap_page : ℕ → Vmm → Paging → Bool × Vmm × Paging
  vmm_unmap_page va v s =
      let (r, s1) = paging_unmap_page pml4 va s in
      if not v.ready || not (va % 4096 == 0)
      then (false, v, s)
      else if r
      then (true, record v { mapped_pages = v.mapped_pages - 1 }, s1)
      else (false, v, s1)

  pub vmm_virt_to_phys : ℕ → Vmm → Paging → ℕ
  vmm_virt_to_phys va v s = if v.ready then paging_virt_to_phys pml4 va s else 0

  pub vmm_is_mapped : ℕ → Vmm → Paging → Bool
  vmm_is_mapped va v s = v.ready && not (paging_virt_to_phys pml4 va s == 0)
