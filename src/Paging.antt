-- ===== src/Paging.antt =====
-- kernel/mm/paging.c: the page tables with pages of 4 KiB over the physical page allocator.
-- `tables t i` is entry i of the table at physical address t, a number of 64 bits. Where an operand
-- of `|` has only zeros where the other has bits, `|` is written `+`; `>>` and `&` with a mask of
-- low bits are `/` and `%`. The instruction invlpg changes no table.
pub mod Tree
pub mod Link
pub mod Same
pub mod Steps
pub mod Walk
pub mod Paths
pub mod Mapping
pub mod Reads
pub mod Pages
pub mod Undo
pub mod Services
pub mod Space
pub mod Boot
mod Tests
use Prim.Native.Nat.{bit_or}
use nexus_os.Base.{
  ℕ, zero, suc, ◌+◌, ◌-◌, ◌*◌, ◌/◌, ◌%◌, ◌^◌, Bool, true, false, ◌&&◌, ◌||◌, not, Option, none,
  some, List, ltb, leb, ◌==◌, if◌then◌else◌,
}
use nexus_os.Pmm.{Pmm, pmm_alloc_page, pmm_free_page}

-- `owners` is the used part of extra_slot_owner.
pub record Paging : Type 0 where
  pub pmm : Pmm
  pub tables : ℕ → ℕ → ℕ
  pub owners : List ℕ

-- PTE_PRESENT and PTE_HUGE
abbrev pub is_present : ℕ → Bool
is_present e = e % 2 == 1

abbrev pub is_huge : ℕ → Bool
is_huge e = e / 128 % 2 == 1

-- entry & ~0xFFF
abbrev pub frame : ℕ → ℕ
frame e = e / 4096 * 4096

-- PTE_PRESENT | PTE_WRITABLE
abbrev pub link_flags : ℕ
link_flags = 3

abbrev pub entries_per_table : ℕ
entries_per_table = 512

-- phys | PTE_PRESENT | PTE_WRITABLE
abbrev pub link_to : ℕ → ℕ
link_to phys = phys + link_flags

abbrev pub pml4_index : ℕ → ℕ
pml4_index va = va / 0x8000000000 % 512

abbrev pub pdpt_index : ℕ → ℕ
pdpt_index va = va / 0x40000000 % 512

abbrev pub pd_index : ℕ → ℕ
pd_index va = va / 0x200000 % 512

abbrev pub pt_index : ℕ → ℕ
pt_index va = va / 4096 % 512

-- table_from_phys gives a table.
abbrev pub is_reachable : ℕ → Bool
is_reachable phys = ltb phys 0x100000000

abbrev pub put_entry : (ℕ → ℕ → ℕ) → ℕ → ℕ → ℕ → ℕ → ℕ → ℕ
put_entry f t i e t' i' = if t == t' && i == i' then e else f t' i'

-- A table with the entries `f` at t.
abbrev pub put_table : (ℕ → ℕ → ℕ) → ℕ → (ℕ → ℕ) → ℕ → ℕ → ℕ
put_table tables t f t' i = if t == t' then f i else tables t' i

abbrev pub zero_table : ℕ → ℕ
zero_table i = 0

-- The physical address of a zeroed page; 0 is the failure.
pub alloc_table_page : Paging → ℕ × Paging
alloc_table_page s =
    let (phys, pmm) = pmm_alloc_page s.pmm in
    if phys == 0
    then (0, record s { pmm = pmm })
    else if is_reachable phys
    then (phys, record s { pmm = pmm; tables = put_table s.tables phys zero_table })
    else (0, record s { pmm = pmm_free_page phys pmm })

-- A page table for the entries of `f`, linked from entry i of table t.
pub link_table : ℕ → ℕ → (ℕ → ℕ) → Paging → Option ℕ × Paging
link_table t i f s =
    let (phys, s1) = alloc_table_page s in
    if phys == 0 then (none, s1) else (
      some (link_to phys),
      record s1 { tables = put_entry (put_table s1.tables phys f) t i (link_to phys) },
    )

-- if (!(entry & PTE_PRESENT)) { ... }: the entry afterwards, and none for a return of NULL.
pub present_entry : Bool → ℕ → ℕ → Paging → Option ℕ × Paging
present_entry create t i s =
    if is_present (s.tables t i)
    then (some (s.tables t i), s)
    else if create
    then link_table t i zero_table s
    else (none, s)

-- The base and the flags of the entries that a 2 MiB entry is split into.
abbrev pub large_base : ℕ → ℕ
large_base e = e % 0x1000000000000 / 0x200000 * 0x200000

abbrev pub split_entry : ℕ → ℕ → ℕ
split_entry e i = large_base e + i * 4096 + (e % 4096 - 128)

abbrev pub table_at : ℕ → Option ℕ
table_at phys = if is_reachable phys then some phys else none

-- Goes on with the entry or the table that there is, or returns `x`.
abbrev pub with_some : {A : Type 0} → A → (ℕ → Paging → A × Paging) → Option ℕ × Paging → A × Paging
with_some x f (none, s) = (x, s)
with_some x f (some n, s) = f n s

-- entry & PTE_HUGE at a page directory: the split, which needs `create`.
abbrev pub table_below : Bool → ℕ → ℕ → ℕ → Paging → Option ℕ × Paging
table_below create t i e s =
    if not (is_huge e)
    then (table_at (frame e), s)
    else if create
    then with_some none (λ e' s1. (table_at (frame e'), s1)) (link_table t i (split_entry e) s)
    else (none, s)

-- The part of walk_create_root at a page directory.
pub walk_pd : Bool → ℕ → ℕ → Paging → Option ℕ × Paging
walk_pd create t va s =
    if is_reachable t
    then with_some none (table_below create t (pd_index va))
        (present_entry create t (pd_index va) s)
    else (none, s)

pub walk_pdpt : Bool → ℕ → ℕ → Paging → Option ℕ × Paging
walk_pdpt create t va s =
    if is_reachable t
    then with_some none (λ e s1. if is_huge e then (none, s1) else walk_pd create (frame e) va s1)
        (present_entry create t (pdpt_index va) s)
    else (none, s)

-- The page table for an address, and none for NULL.
pub walk_create_root : Bool → ℕ → ℕ → Paging → Option ℕ × Paging
walk_create_root create root va s =
    if is_reachable root
    then with_some none (λ e s1. walk_pdpt create (frame e) va s1)
        (present_entry create root (pml4_index va) s)
    else (none, s)

-- (physical_address & ~0xFFF) | flags | PTE_PRESENT, its low 12 bits apart from the others
abbrev pub leaf_entry : ℕ → ℕ → ℕ
leaf_entry pa flags = bit_or (flags / 4096) (pa / 4096) * 4096 + (flags % 4096 / 2 * 2 + 1)

-- The results 0, 1 and -1 of map_page_root.
pub data MapResult : Type 0 where
  mapped already failed : MapResult

-- The end of map_page_root, at the page table.
abbrev pub map_leaf : ℕ → ℕ → ℕ → ℕ → Paging → MapResult × Paging
map_leaf va pa flags pt s =
    if is_present (s.tables pt (pt_index va))
    then (already, s)
    else (mapped, record s { tables = put_entry s.tables pt (pt_index va) (leaf_entry pa flags) })

pub map_page_root : ℕ → ℕ → ℕ → ℕ → Paging → MapResult × Paging
map_page_root root va pa flags s =
    if not (va % 4096 == 0) || not (pa % 4096 == 0)
    then (failed, s)
    else with_some failed (map_leaf va pa flags) (walk_create_root true root va s)

abbrev pub unmap_leaf : ℕ → ℕ → Paging → Bool × Paging
unmap_leaf va pt s =
    if is_present (s.tables pt (pt_index va))
    then (true, record s { tables = put_entry s.tables pt (pt_index va) 0 })
    else (false, s)

pub unmap_page_root : ℕ → ℕ → Paging → Bool × Paging
unmap_page_root root va s =
    if not (va % 4096 == 0)
    then (false, s)
    else with_some false (unmap_leaf va) (walk_create_root false root va s)

-- The parts of virt_to_phys_root at a table of each kind. 0 is no translation.
unfoldable pub phys_pt : (ℕ → ℕ → ℕ) → ℕ → ℕ → ℕ
phys_pt f t va =
    if is_reachable t && is_present (f t (pt_index va))
    then frame (f t (pt_index va)) + va % 4096
    else 0

unfoldable pub phys_pd : (ℕ → ℕ → ℕ) → ℕ → ℕ → ℕ
phys_pd f t va =
    let e = f t (pd_index va) in
    if is_reachable t && is_present e
    then if is_huge e then large_base e + va % 0x200000 else phys_pt f (frame e) va
    else 0

unfoldable pub phys_pdpt : (ℕ → ℕ → ℕ) → ℕ → ℕ → ℕ
phys_pdpt f t va =
    let e = f t (pdpt_index va) in
    if is_reachable t && is_present e
    then if is_huge e
      then e % 0x10000000000000 / 0x40000000 * 0x40000000 + va % 0x40000000
      else phys_pd f (frame e) va
    else 0

unfoldable pub virt_to_phys_root : ℕ → ℕ → Paging → ℕ
virt_to_phys_root root va s =
    let e = s.tables root (pml4_index va) in
    if is_reachable root && is_present e then phys_pdpt s.tables (frame e) va else 0
