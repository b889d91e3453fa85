-- ===== src/Pmm.antt =====
-- kernel/mm/pmm.c: the physical page allocator. The globals are the fields of `Pmm`; addresses and
-- counters are uint64_t. `x >> 3` is written `x / 8` and `x & 7` is written `x % 8`.
pub mod Bitmap
pub mod Alloc
pub mod Owner
pub mod Release
pub mod Ranges
pub mod Boot
mod Tests
use Prim.Native.Nat.{bit_and, bit_or}
use nexus_os.Base.{
  ℕ, zero, suc, ◌+◌, ◌-◌, ◌*◌, ◌/◌, ◌%◌, ◌^◌, Bool, true, false, ◌||◌, ◌&&◌, not, Option, none,
  some, ltb, leb, ◌==◌, if◌then◌else◌,
}

abbrev pub page_size : ℕ
page_size = 4096

-- PMM_MAX_PHYS, PMM_MAX_PAGES and PMM_BITMAP_BYTES
abbrev pub max_phys : ℕ
max_phys = 2 ^ 36

abbrev pub max_pages : ℕ
max_pages = 2 ^ 24

-- UINT64_MAX
abbrev pub uint64_max : ℕ
uint64_max = 2 ^ 64 - 1

pub record Pmm : Type 0 where
  pub bitmap : ℕ → ℕ
  pub total_pages : ℕ
  pub free_pages : ℕ
  pub max_physical_address : ℕ
  pub ready : Bool

abbrev pub store : (ℕ → ℕ) → ℕ → ℕ → ℕ → ℕ
store f i v j = if i == j then v else f j

unfoldable pub bitmap_set : (ℕ → ℕ) → ℕ → ℕ → ℕ
bitmap_set b page = store b (page / 8) (bit_or (b (page / 8)) (2 ^ (page % 8)))

pub bitmap_clear : (ℕ → ℕ) → ℕ → ℕ → ℕ
bitmap_clear b page = store b (page / 8) (bit_and (b (page / 8)) (255 - 2 ^ (page % 8)))

unfoldable pub bitmap_test : (ℕ → ℕ) → ℕ → Bool
bitmap_test b page = not (bit_and (b (page / 8)) (2 ^ (page % 8)) == 0)

-- value & ~(PAGE_SIZE - 1)
abbrev pub align_down : ℕ → ℕ
align_down value = value / page_size * page_size

abbrev pub align_up : ℕ → ℕ
align_up value =
    if ltb (uint64_max - (page_size - 1)) value
    then align_down uint64_max
    else align_down (value + page_size - 1)

-- if (!bitmap_test(page)) { bitmap_set(page); if (g_free_pages != 0) g_free_pages--; }
pub take_page : ℕ → Pmm → Pmm
take_page page m =
    if bitmap_test m.bitmap page
    then m
    else record m { bitmap = bitmap_set m.bitmap page; free_pages = m.free_pages - 1 }

-- if (bitmap_test(page)) { bitmap_clear(page); g_free_pages++; }
pub give_page : ℕ → Pmm → Pmm
give_page page m =
    if bitmap_test m.bitmap page
    then record m { bitmap = bitmap_clear m.bitmap page; free_pages = (m.free_pages + 1) % 2 ^ 64 }
    else m

-- for (addr; addr < end; addr += PAGE_SIZE) with the break at PMM_MAX_PAGES. A page more than
-- max_pages rounds are never made.
pub for_pages : ℕ → ℕ → ℕ → (ℕ → Pmm → Pmm) → Pmm → Pmm
for_pages zero addr end body m = m
for_pages (suc fuel) addr end body m = elim (ltb addr end && ltb (addr / page_size) max_pages) [
  | true ↦ for_pages fuel (addr + page_size) end body (body (addr / page_size) m)
  | false ↦ m
]

abbrev pub loop_fuel : ℕ
loop_fuel = max_pages + 1

abbrev pub clip : ℕ → ℕ → ℕ
clip end limit = if ltb limit end then limit else end

pub reserve_range : ℕ → ℕ → Pmm → Pmm
reserve_range start end m =
    if leb end start || m.max_physical_address == 0
    then m
    else if leb m.max_physical_address (align_down start)
    then m
    else for_pages loop_fuel (align_down start) (clip (align_up end) m.max_physical_address)
        take_page m

pub release_range : ℕ → ℕ → Pmm → Pmm
release_range start end m =
    if leb end start || m.max_physical_address == 0
    then m
    else if leb m.max_physical_address (align_up start)
    then m
    else for_pages loop_fuel (align_up start) (clip (align_down end) m.max_physical_address)
        give_page m

-- The scan of pmm_alloc_page from `page` on, `rounds` pages; 0 is its failure.
unfoldable pub alloc_from : ℕ → ℕ → Pmm → ℕ × Pmm
alloc_from zero page m = (0, m)
alloc_from (suc rounds) page m = elim (bitmap_test m.bitmap page) [
  | true ↦ alloc_from rounds (page + 1) m
  | false ↦ (
    page * page_size,
    record m { bitmap = bitmap_set m.bitmap page; free_pages = m.free_pages - 1 },
  )
]

unfoldable pub pmm_alloc_page : Pmm → ℕ × Pmm
pmm_alloc_page m = if m.ready then alloc_from m.total_pages 0 m else (0, m)

-- The page of an aligned address below the limit.
abbrev pub page_of : Pmm → ℕ → Option ℕ
page_of m address =
    if not m.ready || not (address % page_size == 0)
    then none
    else if leb m.total_pages (address / page_size) || leb max_pages (address / page_size)
    then none
    else some (address / page_size)

pub pmm_free_page : ℕ → Pmm → Pmm
pmm_free_page address m = elim (page_of m address) [ none ↦ m | some page ↦ give_page page m ]

pub pmm_is_page_free : Pmm → ℕ → Bool
pmm_is_page_free m address = elim (page_of m address) [
  | none ↦ false
  | some page ↦ not (bitmap_test m.bitmap page)
]

pub pmm_used_pages : Pmm → ℕ
pmm_used_pages m = (m.total_pages + 2 ^ 64 - m.free_pages) % 2 ^ 64

-- What the rest of the kernel asks of the allocator once it is set up.
pub data Op : Type 0 where
  alloc : Op
  free : (address : ℕ) → Op

-- The address returned, 0 for a free.
pub step : Pmm → Op → ℕ × Pmm
step m alloc = pmm_alloc_page m
step m (free address) = (0, pmm_free_page address m)
