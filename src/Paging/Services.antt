-- ===== src/Paging/Services.antt =====
-- kernel/mm/paging.c as process.c calls it: the interface of the user memory over the page tables
-- and the page allocator. `bytes` is the memory outside of the tables.
use nexus_os.Base.{
  ℕ, ◌%◌, ◌≡◌, ◌≢◌, inl, inr, refl, sym, ap, ◌∙◌, subst, Bool, true, false, some, arith, Bool-cases,
  ◌==◌, if◌then◌else◌,
}
use nexus_os.Pmm.{Pmm, pmm_alloc_page, pmm_free_page}
use nexus_os.Pmm.Alloc.{lowest, full, pmm_alloc_page-Allocates, alloc_idle}
use nexus_os.Process.{ProcessTable, process_get, process_at}
use nexus_os.UserMemory.{PagingServices, process_map_user_page, user_flags, user_page_size, zeros}
use nexus_os.UserMemory.Success.{map_user_page_success, write_bytes_inv}
use nexus_os.Paging.{
  Paging, MapResult, mapped, already, failed, map_page_root, unmap_page_root, virt_to_phys_root,
}
use nexus_os.Paging.Tree.{taken-Fits}
use nexus_os.Paging.Pages.{IsSpace, maps, rejects, map_page_root-stores}

pub record Machine : Type 0 where
  pub paging : Paging
  pub bytes : ℕ → ℕ

-- What C makes of the result as a condition.
abbrev pub is_nonzero : MapResult → Bool
is_nonzero mapped = false
is_nonzero already = true
is_nonzero failed = true

abbrev with_paging : Machine → Paging → Machine
with_paging w s = record w { paging = s }

abbrev with_pmm : Machine → Pmm → Machine
with_pmm w m = with_paging w (record (w.paging) { pmm = m })

abbrev store_byte : (ℕ → ℕ) → ℕ → ℕ → ℕ → ℕ
store_byte f a v b = if a == b then v else f b

abbrev pub paging_services : PagingServices Machine
paging_services = record {
  pmm_alloc_page = λ w. let (phys, m) = pmm_alloc_page w.paging.pmm in (phys, with_pmm w m);
  pmm_free_page = λ phys w. with_pmm w (pmm_free_page phys w.paging.pmm);
  paging_map_page_in_cr3 = λ cr3 va phys flags w.
      let (r, s) = map_page_root cr3 va phys flags w.paging in (is_nonzero r, with_paging w s);
  paging_unmap_page_in_cr3 =
      λ cr3 va w. let (r, s) = unmap_page_root cr3 va w.paging in with_paging w s;
  paging_virt_to_phys_in_cr3 = λ cr3 va w. virt_to_phys_root cr3 va w.paging;
  read_byte = λ phys w. w.bytes phys;
  write_byte = λ phys v w. record w { bytes = store_byte w.bytes phys v };
}

-- The allocator gives an aligned address and no table.
alloc_lem :
    (cr3 : ℕ) (s : Paging)
    → IsSpace cr3 s
    → IsSpace cr3 (record s { pmm = (pmm_alloc_page s.pmm).1 })
      × ((pmm_alloc_page s.pmm).0 % 4096 ≡ 0)
alloc_lem cr3 s space = elim (Bool-cases s.pmm.ready) [
  | inr idle ↦ let e = alloc_idle s.pmm idle in same e
  | inl ready ↦ elim (pmm_alloc_page-Allocates s.pmm ready) [
    | full all e ↦ same e
    | lowest page small unused before e ↦
        let tree = space.tree in
        (
          subst (λ r. IsSpace cr3 (record s { pmm = r.1 })) (sym e)
              (record {
                level = space.level;
                covers = space.covers;
                tree = record {
                  fits = taken-Fits space.level s.pmm page tree.fits small unused;
                  root_level = tree.root_level;
                  root_covers = tree.root_covers;
                  child = tree.child;
                };
              }),
          subst (λ r. r.0 % 4096 ≡ 0) (sym e) (omega arith),
        )
  ]
]
  where
    same :
        pmm_alloc_page s.pmm ≡ (0, s.pmm)
        → IsSpace cr3 (record s { pmm = (pmm_alloc_page s.pmm).1 })
          × ((pmm_alloc_page s.pmm).0 % 4096 ≡ 0)
    same e = (
      subst (λ r. IsSpace cr3 (record s { pmm = r.1 })) (sym e) space,
      subst (λ r. r.0 % 4096 ≡ 0) (sym e) refl,
    )

abbrev cr3_of : ProcessTable → ℕ → ℕ
cr3_of t slot = (process_at t slot).memory.address_space_cr3

-- The machine after the allocation and the attempt to map.
abbrev tried : ℕ → ℕ → ℕ → Machine → MapResult × Paging
tried cr3 va flags w =
    map_page_root cr3 va (pmm_alloc_page w.paging.pmm).0 (user_flags flags)
      (record (w.paging) { pmm = (pmm_alloc_page w.paging.pmm).1 })

nonzero_lem : (r : MapResult) → is_nonzero r ≡ true → r ≢ mapped
nonzero_lem mapped e m = cc
nonzero_lem already e m = cc
nonzero_lem failed e m = cc

-- For a process whose tables form a tree that holds no free page: process_map_user_page, over the page
-- tables and the page allocator, never adds a translation when it reports success, whatever the flags.
-- Every address of the process then translates as it did before the call.
pub process_map_user_page-maps_nothing :
    (t : ProcessTable) (pid slot va flags : ℕ) (w : Machine)
    → process_get t pid ≡ some slot
    → IsSpace (cr3_of t slot) w.paging
    → (process_map_user_page paging_services t pid va flags w).0 ≡ true
    → (a : ℕ)
    → virt_to_phys_root
        (cr3_of t slot)
        a
        (process_map_user_page paging_services t pid va flags w).2.paging
      ≡ virt_to_phys_root (cr3_of t slot) a w.paging
unfolding virt_to_phys_root
process_map_user_page-maps_nothing t pid slot va flags w live space done a =
    let cr3 = cr3_of t slot in
    let (aligned, nonzero, after) =
      map_user_page_success paging_services t pid slot va flags w live done in
    let not_mapped = nonzero_lem (tried cr3 va flags w).0 nonzero in
    let left : (process_map_user_page paging_services t pid va flags w).2.paging
        ≡ (tried cr3 va flags w).1 =
      ap (λ (m : Machine). m.paging) after
      ∙ write_bytes_inv paging_services (λ (m : Machine). m.paging) (λ phys v m. refl)
          (pmm_alloc_page w.paging.pmm).0 (zeros user_page_size)
          (with_paging (with_pmm w (pmm_alloc_page w.paging.pmm).1) (tried cr3 va flags w).1) in
    let (space1, frame_ok) = alloc_lem cr3 w.paging space in
    ap (virt_to_phys_root cr3 a) left
    ∙ elim (map_page_root-stores cr3 va (pmm_alloc_page w.paging.pmm).0 (user_flags flags)
        (record (w.paging) { pmm = (pmm_alloc_page w.paging.pmm).1 }) space1 aligned frame_ok) [
          | maps space2 yes_mapped here others ↦ absurd (not_mapped yes_mapped)
          | rejects space2 no_map same ↦ same a
        ]
