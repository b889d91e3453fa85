-- ===== src/Pmm/Boot.antt =====
-- kernel/mm/pmm.c and include/nexus/boot_info.h: pmm_init. The memory behind the EFI map is a
-- function from the address of a descriptor to the descriptor there.
pub mod Passes
pub mod Reserves
pub mod Outcome
use nexus_os.Base.{
  ℕ, zero, suc, ◌+◌, ◌-◌, ◌*◌, ◌/◌, ◌%◌, ◌^◌, Bool, true, false, ◌&&◌, ◌||◌, not, Option, none,
  some, ltb, leb, ◌==◌, if◌then◌else◌,
}
use nexus_os.Pmm.{
  Pmm, page_size, max_phys, max_pages, uint64_max, bitmap_test, reserve_range, release_range,
}

-- `nexus_efi_mmap_entry_t` with the fields that are read, and its size.
pub record MmapEntry : Type 0 where
  pub type : ℕ
  pub physical_start : ℕ
  pub number_of_pages : ℕ

abbrev pub mmap_entry_size : ℕ
mmap_entry_size = 40

abbrev pub mem_conventional : ℕ
mem_conventional = 7

-- `nexus_boot_info_t` with the fields that are read, the address of the structure, and its size.
pub record BootInfo : Type 0 where
  pub address : ℕ
  pub map_base : ℕ
  pub map_size : ℕ
  pub descriptor_size : ℕ
  pub kernel_phys_base : ℕ
  pub kernel_phys_end : ℕ
  pub fb_base : ℕ
  pub fb_size : ℕ

abbrev pub boot_info_size : ℕ
boot_info_size = 368

abbrev pub add64 : ℕ → ℕ → ℕ
add64 a b = (a + b) % 2 ^ 64

-- The bytes of a descriptor's pages, at most UINT64_MAX.
abbrev pub entry_bytes : MmapEntry → ℕ
entry_bytes e =
    if ltb (uint64_max / page_size) e.number_of_pages
    then uint64_max
    else e.number_of_pages * page_size

-- The highest end seen so far.
unfoldable pub consider_max : MmapEntry → Pmm → Pmm
consider_max e m =
    let sum = add64 e.physical_start (entry_bytes e) in
    let end = if ltb sum e.physical_start || ltb max_phys sum then max_phys else sum in
    if e.number_of_pages == 0 || leb max_phys e.physical_start
    then m
    else if ltb m.max_physical_address end
    then record m { max_physical_address = end }
    else m

-- The end of a descriptor's region in the second pass.
abbrev pub entry_end : MmapEntry → ℕ
entry_end e =
    let sum = add64 e.physical_start (entry_bytes e) in
    if ltb sum e.physical_start then uint64_max else sum

-- One round of the second pass.
pub release_entry : MmapEntry → Pmm → Pmm
release_entry e m =
    if e.type == mem_conventional then release_range e.physical_start (entry_end e) m else m

-- A pass over the descriptors from address `at` on.
unfoldable pub for_entries : (ℕ → MmapEntry) → ℕ → ℕ → ℕ → (MmapEntry → Pmm → Pmm) → Pmm → Pmm
for_entries memory stride zero at body m = m
for_entries memory stride (suc rounds) at body m =
    for_entries memory stride rounds (add64 at stride) body (body (memory at) m)

-- The final count of free pages, from `page` on.
pub recount : ℕ → ℕ → Pmm → Pmm
recount zero page m = m
recount (suc rounds) page m =
    recount rounds (page + 1) (
      if bitmap_test m.bitmap page
      then m
      else record m { free_pages = (m.free_pages + 1) % 2 ^ 64 })

abbrev pub cleared : Pmm
cleared = record {
  bitmap = λ _. 255;
  total_pages = 0;
  free_pages = 0;
  max_physical_address = 0;
  ready = false;
}

abbrev pub entry_count : BootInfo → ℕ
entry_count bi = bi.map_size / bi.descriptor_size

abbrev pub is_usable : BootInfo → Bool
is_usable bi =
    not (bi.map_base == 0) && not (bi.map_size == 0) && leb mmap_entry_size bi.descriptor_size

-- The first pass, and the number of pages that it gives.
unfoldable pub measure : BootInfo → (ℕ → MmapEntry) → Pmm
measure bi memory =
    let m =
      for_entries memory bi.descriptor_size (entry_count bi) bi.map_base consider_max cleared in
    let total = m.max_physical_address / page_size in
    record m { total_pages = if ltb max_pages total then max_pages else total }

-- The second pass.
pub release_all : BootInfo → (ℕ → MmapEntry) → Pmm → Pmm
release_all bi memory =
    for_entries memory bi.descriptor_size (entry_count bi) bi.map_base release_entry

pub reserve_kernel : BootInfo → Pmm → Pmm
reserve_kernel bi m =
    if ltb bi.kernel_phys_base bi.kernel_phys_end
    then reserve_range bi.kernel_phys_base bi.kernel_phys_end m
    else m

pub reserve_framebuffer : BootInfo → Pmm → Pmm
reserve_framebuffer bi m =
    if not (bi.fb_base == 0) && not (bi.fb_size == 0)
    then reserve_range bi.fb_base (add64 bi.fb_base bi.fb_size) m
    else m

-- The reservations, in the order of the code.
pub reserve_all : BootInfo → Pmm → Pmm
reserve_all bi m =
    let low = reserve_range 0 0x200000 m in
    let kernel = reserve_kernel bi low in
    let info = reserve_range bi.address (add64 bi.address boot_info_size) kernel in
    let map = reserve_range bi.map_base (add64 bi.map_base bi.map_size) info in
    reserve_framebuffer bi map

pub pmm_init : Option BootInfo → (ℕ → MmapEntry) → Pmm
pmm_init none memory = cleared
pmm_init (some bi) memory =
    let m = reserve_all bi (release_all bi memory (measure bi memory)) in
    let counted = recount m.total_pages 0 (record m { free_pages = 0 }) in
    if is_usable bi then record counted { ready = true } else cleared
