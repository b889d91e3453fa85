-- ===== src/Paging/Paths.antt =====
-- kernel/mm/paging.c: walk_create_root where the tables are there, or where none may be created.
use nexus_os.Base.{ℕ, ◌≡◌, Bool, false, some, arith}
use nexus_os.Paging.{
  Paging, frame, walk_create_root, walk_pd, walk_pdpt, present_entry, pml4_index, pdpt_index,
}
use nexus_os.Paging.Walk.{PdPath, PdptPath, RootPath}

walk_pd-path :
    (create : Bool) (t va : ℕ) (s : Paging) (pt : ℕ)
    → PdPath t va s pt
    → walk_pd create t va s ≡ (some pt, s)
unfolding walk_pd present_entry
walk_pd-path create t va s pt p =
    ground (arith, p.reach_pd, p.here_pd, p.small_pd, p.to_pt, p.reach_pt)

walk_pdpt-path :
    (create : Bool) (t va : ℕ) (s : Paging) (pt : ℕ)
    → PdptPath t va s pt
    → walk_pdpt create t va s ≡ (some pt, s)
unfolding walk_pdpt present_entry
walk_pdpt-path create t va s pt p = ground (
  arith,
  p.reach_pdpt,
  p.here_pdpt,
  p.small_pdpt,
  walk_pd-path create (frame (s.tables t (pdpt_index va))) va s pt p.next_pd,
)

-- Where the tables are there, the walk finds the page table and changes nothing.
pub walk_root-path :
    (create : Bool) (root va : ℕ) (s : Paging) (pt : ℕ)
    → RootPath root va s pt
    → walk_create_root create root va s ≡ (some pt, s)
unfolding walk_create_root present_entry
walk_root-path create root va s pt p = ground (
  arith,
  p.reach_root,
  p.here_root,
  walk_pdpt-path create (frame (s.tables root (pml4_index va))) va s pt p.next_pdpt,
)

-- A walk that creates nothing leaves the tables.
walk_pd_reads : (t va : ℕ) (s : Paging) → (walk_pd false t va s).1 ≡ s
unfolding walk_pd present_entry
walk_pd_reads t va s = ground arith

walk_pdpt_reads : (t va : ℕ) (s : Paging) → (walk_pdpt false t va s).1 ≡ s
unfolding walk_pdpt present_entry
walk_pdpt_reads t va s = ground (arith, walk_pd_reads (frame (s.tables t (pdpt_index va))) va s)

pub walk_reads : (root va : ℕ) (s : Paging) → (walk_create_root false root va s).1 ≡ s
unfolding walk_create_root present_entry
walk_reads root va s = ground (arith, walk_pdpt_reads (frame (s.tables root (pml4_index va))) va s)
