-- ===== src/Paging/Boot.antt =====
-- kernel/mm/paging.c: the identity map of 2 MiB pages that paging_init builds, and paging_map_region.
-- `Statics` are the addresses of the static tables; the load of CR3 is left out.
pub mod Identity
use nexus_os.Base.{
  ℕ, zero, suc, ◌+◌, ◌-◌, ◌*◌, ◌/◌, ◌%◌, ◌^◌, Bool, true, false, ◌&&◌, ◌||◌, not, Option, none,
  some, List, [], ◌∷◌, ◌++◌, ltb, leb, ◌==◌, if◌then◌else◌, length, find_index,
}
use nexus_os.Pmm.Boot.{BootInfo, MmapEntry, add64, entry_count}
use nexus_os.Paging.{
  Paging, is_present, put_entry, put_table, zero_table, link_to, pdpt_index, pd_index,
}

pub record Statics : Type 0 where
  pub pml4 : ℕ
  pub pdpt : ℕ
  pub pd_base : ℕ → ℕ
  pub pd_extra : ℕ → ℕ

-- BASE_IDENTITY_GIB and EXTRA_PD_SLOTS
abbrev pub base_identity_gib : ℕ
base_identity_gib = 4

abbrev pub extra_pd_slots : ℕ
extra_pd_slots = 512

-- PTE_PCD | PTE_PWT
abbrev pub uncached : ℕ
uncached = 0x18

abbrev pub put : ℕ → ℕ → ℕ → Paging → Paging
put t i e s = record s { tables = put_entry s.tables t i e }

abbrev pub clear : ℕ → Paging → Paging
clear t s = record s { tables = put_table s.tables t zero_table }

-- The address of a page directory for a physical address; none is NULL.
pub pd_table_for : Statics → ℕ → Paging → Option ℕ × Paging
pd_table_for st phys s =
    let i = pdpt_index phys in
    if ltb i base_identity_gib
    then (
      some (st.pd_base i),
      if is_present (s.tables st.pdpt i) then s else put st.pdpt i (link_to (st.pd_base i)) s,
    )
    else elim (find_index (λ owner. owner == i) s.owners) [
      | some slot ↦ (some (st.pd_extra slot), s)
      | none ↦
          let slot = length s.owners in
          let s1 = record s { owners = s.owners ++ (i ∷ []) } in
          if leb extra_pd_slots slot then (none, s) else (
            some (st.pd_extra slot),
            put st.pdpt i (link_to (st.pd_extra slot)) (clear (st.pd_extra slot) s1),
          )
    ]

-- phys | PTE_PRESENT | PTE_WRITABLE | PTE_HUGE | extra_flags
abbrev pub large_entry : ℕ → ℕ → ℕ
large_entry phys extra = phys + 0x83 + extra

pub map_2m_page : Statics → ℕ → ℕ → Paging → Paging
map_2m_page st phys extra s =
    let (pd, s1) = pd_table_for st phys s in
    elim pd [ none ↦ s1 | some t ↦ put t (pd_index phys) (large_entry phys extra) s1 ]

-- The loop of map_region, `rounds` pages from `phys` on.
pub map_pages_from : Statics → ℕ → ℕ → ℕ → Paging → Paging
map_pages_from st zero phys extra s = s
map_pages_from st (suc rounds) phys extra s =
    map_pages_from st rounds (phys + 0x200000) extra (map_2m_page st phys extra s)

pub map_region : Statics → ℕ → ℕ → ℕ → Paging → Paging
map_region st start end extra s =
    let first = start / 0x200000 * 0x200000 in
    let last = add64 end 0x1FFFFF / 0x200000 * 0x200000 in
    if leb end start then s else map_pages_from st ((last - first) / 0x200000) first extra s

-- The loop over the EFI memory map from descriptor i on.
pub map_entries : Statics → BootInfo → (ℕ → MmapEntry) → ℕ → ℕ → Paging → Paging
map_entries st bi memory zero i s = s
map_entries st bi memory (suc rounds) i s =
    let e = memory (add64 bi.map_base (i * bi.descriptor_size)) in
    map_entries st bi memory rounds (i + 1)
      (map_region st e.physical_start (add64 e.physical_start (e.number_of_pages * 4096)) 0 s)

abbrev pub map_framebuffer : Statics → BootInfo → Paging → Paging
map_framebuffer st bi s =
    if not (bi.fb_base == 0) && not (bi.fb_size == 0)
    then map_region st bi.fb_base (add64 bi.fb_base bi.fb_size) 0 s
    else s

abbrev pub map_memory : Statics → BootInfo → (ℕ → MmapEntry) → Paging → Paging
map_memory st bi memory s =
    if not (bi.descriptor_size == 0) && not (bi.map_base == 0)
    then map_entries st bi memory (entry_count bi) 0 s
    else s

-- The tables cleared, and the base range mapped.
pub base_tables : Statics → Paging → Paging
base_tables st s =
    let s1 = clear st.pdpt (clear st.pml4 s) in
    let s2 = clear (st.pd_base 1) (clear (st.pd_base 0) s1) in
    let s3 = clear (st.pd_base 3) (clear (st.pd_base 2) s2) in
    let s4 = put st.pml4 0 (link_to st.pdpt) (record s3 { owners = [] }) in
    map_region st 0 (base_identity_gib * 0x40000000) 0 s4

pub paging_init : Statics → Option BootInfo → (ℕ → MmapEntry) → Paging → Paging
paging_init st none memory s = base_tables st s
paging_init st (some bi) memory s =
    map_framebuffer st bi (map_memory st bi memory (base_tables st s))

pub paging_map_region : Statics → ℕ → ℕ → Paging → Paging
paging_map_region st start end s = map_region st start end uncached s
