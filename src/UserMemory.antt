-- ===== src/UserMemory.antt =====
-- kernel/core/process/process.c: the user pages of a process and the access of the kernel to them.
-- What it calls of kernel/mm/pmm.c and kernel/mm/paging.c is an interface, with `W` for their state.
pub mod Access
pub mod Allocation
pub mod Range
pub mod Success
mod Tests
use Prim.Native.Nat.{bit_or}
use nexus_os.Base.{
  ℕ, zero, suc, ◌+◌, ◌-◌, ◌*◌, ◌/◌, ◌%◌, ◌^◌, Bool, true, false, ◌&&◌, ◌||◌, not, Option, none,
  some, List, [], ◌∷◌, ◌++◌, ltb, leb, ◌==◌, if◌then◌else◌, length, take, drop, get_or, set,
}
use nexus_os.Process.{
  Process, ProcessTable, UserMemory, UserPage, is_zombie, process_get, process_at, put_process,
}

-- PROCESS_USER_BASE, PROCESS_USER_LIMIT, PAGE_SIZE, PROCESS_USER_MAX_PAGES
abbrev pub user_base : ℕ
user_base = 0x400000

abbrev pub user_limit : ℕ
user_limit = 0x7FFFFFFFF000

abbrev pub user_page_size : ℕ
user_page_size = 4096

abbrev pub max_user_pages : ℕ
max_user_pages = 16

-- VMM_PAGE_WRITABLE and VMM_PAGE_NX
abbrev pub page_writable : ℕ
page_writable = 2

abbrev pub page_nx : ℕ
page_nx = 2 ^ 63

abbrev pub is_writable : ℕ → Bool
is_writable flags = flags / 2 % 2 == 1

abbrev pub is_nx : ℕ → Bool
is_nx flags = flags / 2 ^ 63 % 2 == 1

abbrev pub user_page_of : ℕ → ℕ
user_page_of va = va / user_page_size * user_page_size

pub aligned_range : ℕ → ℕ → Bool
aligned_range base size =
    not (size == 0)
    && base % user_page_size == 0
    && size % user_page_size == 0
    && leb user_base base
    && ltb base user_limit
    && leb size (user_limit - base)

abbrev pub no_page : UserPage
no_page = record { va = 0; phys = 0; flags = 0 }

-- The checks before an access; the difference is of 64 bits.
abbrev pub range_in_user : ℕ → ℕ → Bool
range_in_user va size =
    not (size == 0) && leb user_base va && leb size ((user_limit + 2 ^ 64 - va) % 2 ^ 64)

-- The flags of the first entry with the address of the page.
unfoldable pub page_flags : List UserPage → ℕ → Option ℕ
page_flags [] page = none
page_flags (p ∷ ps) page = if p.va == page then some p.flags else page_flags ps page

-- The three tests on the flags of a page.
abbrev pub allows : ℕ → ℕ → Bool
allows required flags =
    (not (is_writable required) || is_writable flags)
    && (not (is_nx required) || is_nx flags)
    && (is_nx required || not (is_nx flags))

abbrev pub page_allows : List UserPage → ℕ → ℕ → Bool
page_allows pages required page = elim (page_flags pages page) [
  | none ↦ false
  | some flags ↦ allows required flags
]

abbrev pub min_nat : ℕ → ℕ → ℕ
min_nat a b = if ltb b a then b else a

-- The bytes up to the end of the page or of the range.
abbrev pub chunk_at : ℕ → ℕ → ℕ
chunk_at a left = min_nat (user_page_size - a % user_page_size) left

-- The loop of process_user_range_valid from offset `off` on.
pub range_from : ℕ → List UserPage → ℕ → ℕ → ℕ → ℕ → Bool
range_from zero pages required va size off = leb size off
range_from (suc fuel) pages required va size off =
    let a = (va + off) % 2 ^ 64 in
    elim (ltb off size) [
      | false ↦ true
      | true ↦ elim (page_allows pages required (user_page_of a)) [
        | false ↦ false
        | true ↦ range_from fuel pages required va size (off + chunk_at a (size - off))
      ]
    ]

-- A round for each page that the range can touch.
abbrev pub rounds_for : ℕ → ℕ
rounds_for size = size / user_page_size + 2

-- On the process found; no process is none.
pub process_user_range_valid : ProcessTable → ℕ → ℕ → ℕ → ℕ → Bool
process_user_range_valid t pid va size required = elim (process_get t pid) [
  | none ↦ false
  | some slot ↦
      let p = process_at t slot in
      if is_zombie p.state || not (range_in_user va size)
      then false
      else range_from (rounds_for size) p.memory.pages required va size 0
]

pub process_reserve_user_range : ProcessTable → ℕ → ℕ → ℕ → Bool × ProcessTable
process_reserve_user_range t pid base size = elim (process_get t pid) [
  | none ↦ (false, t)
  | some slot ↦
      let p = process_at t slot in
      if not (aligned_range base size) || is_zombie p.state || not (p.memory.pages_reserved == 0)
      then (false, t)
      else (
        true,
        put_process t slot (record p {
          memory = record (p.memory) {
            stack_base = base;
            stack_size = size;
            pages_reserved = size / user_page_size;
          };
        }),
      )
]

-- `memory` is the physical memory. The address 0 is no page.
pub record PagingServices (W : Type 0) : Type 0 where
  pub pmm_alloc_page : W → ℕ × W
  pub pmm_free_page : ℕ → W → W
  pub paging_map_page_in_cr3 : ℕ → ℕ → ℕ → ℕ → W → Bool × W
  pub paging_unmap_page_in_cr3 : ℕ → ℕ → W → W
  pub paging_virt_to_phys_in_cr3 : ℕ → ℕ → W → ℕ
  pub read_byte : ℕ → W → ℕ
  pub write_byte : ℕ → ℕ → W → W

pub zeros : ℕ → List ℕ
zeros zero = []
zeros (suc n) = 0 ∷ zeros n

-- VMM_PAGE_PRESENT | VMM_PAGE_USER | flags
abbrev pub user_flags : ℕ → ℕ
user_flags flags = bit_or 5 flags

module _ {W : Type 0} (k : PagingServices W) where
  -- Writes the bytes at a physical address and those behind it.
  pub write_bytes : ℕ → List ℕ → W → W
  write_bytes phys [] w = w
  write_bytes phys (b ∷ bs) w = write_bytes (phys + 1) bs (k.write_byte phys b w)

  pub read_bytes : ℕ → ℕ → W → List ℕ
  read_bytes zero phys w = []
  read_bytes (suc n) phys w = k.read_byte phys w ∷ read_bytes n (phys + 1) w

  unfoldable pub process_map_user_page : ProcessTable → ℕ → ℕ → ℕ → W → Bool × ProcessTable × W
  process_map_user_page t pid va flags w = elim (process_get t pid) [
    | none ↦ (false, t, w)
    | some slot ↦
        let p = process_at t slot in
        let m = p.memory in
        let (phys, w1) = k.pmm_alloc_page w in
        let (ok, w2) = k.paging_map_page_in_cr3 m.address_space_cr3 va phys (user_flags flags) w1 in
        let page : UserPage = record { va = va; phys = phys; flags = flags } in
        if not (va % user_page_size == 0) || ltb va user_base || leb user_limit va
        then (false, t, w)
        else if is_zombie p.state || leb max_user_pages (length m.pages)
        then (false, t, w)
        else elim (page_flags m.pages va) [
          | some _ ↦ (false, t, w)
          | none ↦
              if phys == 0
              then (false, t, w1)
              else if not ok
              then (false, t, k.pmm_free_page phys w2)
              else (
                true,
                put_process t slot (record p {
                  memory = record m { pages = m.pages ++ (page ∷ []); has_memory = true };
                }),
                write_bytes phys (zeros user_page_size) w2,
              )
        ]
  ]

  -- if (phys) pmm_free_page(phys)
  abbrev pub free_phys : ℕ → W → W
  free_phys phys w = if phys == 0 then w else k.pmm_free_page phys w

  -- The loop of process_unmap_user_memory.
  pub release_pages : ℕ → List UserPage → W → W
  release_pages cr3 [] w = w
  release_pages cr3 (p ∷ ps) w =
      let w1 = if cr3 == 0 || p.va == 0 then w else k.paging_unmap_page_in_cr3 cr3 p.va w in
      release_pages cr3 ps (free_phys p.phys w1)

  pub process_unmap_user_memory : ProcessTable → ℕ → W → Bool × ProcessTable × W
  process_unmap_user_memory t pid w = elim (process_get t pid) [
    | none ↦ (false, t, w)
    | some slot ↦
        let p = process_at t slot in
        let m = p.memory in
        (
          true,
          put_process t slot (record p {
            memory = record m { pages = []; page_base = 0; pages_reserved = 0; has_memory = false };
          }),
          release_pages m.address_space_cr3 m.pages w,
        )
  ]

  -- The loop of process_unmap_user_range from entry `i` on: an entry that is taken out is replaced by
  -- the last one. Each round leaves one entry less to look at.
  pub unmap_from : ℕ → ℕ → ℕ → ℕ → ℕ → List UserPage → W → List UserPage × W
  unmap_from zero cr3 base end i pages w = (pages, w)
  unmap_from (suc fuel) cr3 base end i pages w =
      let p = get_or pages i no_page in
      let last = length pages - 1 in
      let w1 = if cr3 == 0 then w else k.paging_unmap_page_in_cr3 cr3 p.va w in
      elim (ltb i (length pages)) [
        | false ↦ (pages, w)
        | true ↦ elim (leb base p.va && ltb p.va end) [
          | false ↦ unmap_from fuel cr3 base end (i + 1) pages w
          | true ↦
              unmap_from fuel cr3 base end i (take last (set pages i (get_or pages last no_page)))
                (free_phys p.phys w1)
        ]
      ]

  pub process_unmap_user_range : ProcessTable → ℕ → ℕ → ℕ → W → Bool × ProcessTable × W
  process_unmap_user_range t pid base size w = elim (process_get t pid) [
    | none ↦ (false, t, w)
    | some slot ↦
        let p = process_at t slot in
        let m = p.memory in
        let end = (base + size) % 2 ^ 64 in
        let (pages, w1) = unmap_from (length m.pages) m.address_space_cr3 base end 0 m.pages w in
        if size == 0
          || not (base % user_page_size == 0)
          || not (size % user_page_size == 0)
          || ltb end base
        then (false, t, w)
        else (true, put_process t slot (record p { memory = record m { pages = pages } }), w1)
  ]
