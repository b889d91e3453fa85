-- ===== src/Heap.antt =====
-- kernel/mm/heap.c: the kernel heap. A block is addressed by its header; `blocks` are the headers in
-- memory, which the owners of the payloads do not write to. Interrupts are off in every call.
pub mod Pages
pub mod Layout
pub mod Valid
pub mod Merge
pub mod Free
pub mod Split
pub mod Grow
pub mod Alloc
mod Tests
use nexus_os.Base.{
  ℕ, zero, suc, ◌+◌, ◌-◌, ◌*◌, ◌/◌, ◌%◌, ◌^◌, Bool, true, false, ◌&&◌, ◌||◌, not, Option, none,
  some, ltb, leb, ◌==◌, if◌then◌else◌,
}
use nexus_os.Heap.Pages.{PageServices, map_new_pages, heap_page_size}

-- HEAP_BASE, HEAP_LIMIT, HEAP_ALIGNMENT, BLOCK_MAGIC and HEADER_SIZE, the size of a header
abbrev pub heap_base : ℕ
heap_base = 0xFFFF800000000000

abbrev pub heap_limit : ℕ
heap_limit = 0xFFFF900000000000

abbrev pub heap_alignment : ℕ
heap_alignment = 16

abbrev pub block_magic : ℕ
block_magic = 0x4E58484C424C4B31

abbrev pub header_size : ℕ
header_size = 48

-- `heap_block_t`; a null pointer is none.
pub record Block : Type 0 where
  pub magic : ℕ
  pub size : ℕ
  pub capacity : ℕ
  pub flags : ℕ
  pub prev : Option ℕ
  pub next : Option ℕ

pub record Heap : Type 0 where
  pub blocks : ℕ → Block
  pub head : Option ℕ
  pub heap_next : ℕ
  pub heap_pages : ℕ
  pub used_bytes : ℕ
  pub free_bytes : ℕ
  pub allocations : ℕ
  pub corruption_count : ℕ
  pub ready : Bool

-- Sums and differences of 64 bits.
abbrev pub add64 : ℕ → ℕ → ℕ
add64 a b = (a + b) % 2 ^ 64

abbrev pub sub64 : ℕ → ℕ → ℕ
sub64 a b = (a + 2 ^ 64 - b) % 2 ^ 64

-- The alignment is a power of two, so the mask rounds down to its multiples.
abbrev pub align_up_u64 : ℕ → ℕ → ℕ
align_up_u64 value alignment =
    if ltb (2 ^ 64 - 1 - (alignment - 1)) value
    then 2 ^ 64 - 1
    else (value + (alignment - 1)) / alignment * alignment

-- 0 for a size that is too large.
pub align_size : ℕ → ℕ
align_size size =
    let aligned = align_up_u64 size heap_alignment in if aligned == 2 ^ 64 - 1 then 0 else aligned

abbrev pub pages_for_block : ℕ → ℕ
pages_for_block payload = add64 (add64 header_size payload) (heap_page_size - 1) / heap_page_size

abbrev pub put : (ℕ → Block) → ℕ → Block → ℕ → Block
put f x b y = if x == y then b else f y

-- BLOCK_FREE, the lowest bit of the flags
abbrev pub is_free : Block → Bool
is_free b = b.flags % 2 == 1

abbrev pub set_free : ℕ → ℕ
set_free flags = flags - flags % 2 + 1

-- The mask ~BLOCK_FREE has 32 bits, here and in the check of the flags.
abbrev pub clear_free : ℕ → ℕ
clear_free flags = flags % 2 ^ 32 / 2 * 2

-- if (n != NULL) n->prev = x
abbrev pub set_prev : (ℕ → Block) → Option ℕ → ℕ → ℕ → Block
set_prev f none x = f
set_prev f (some n) x = put f n (record (f n) { prev = some x })

-- `requested` is at most the capacity.
pub split_block : ℕ → ℕ → Heap → Heap
split_block x requested h =
    let b = h.blocks x in
    let remaining = b.capacity - requested in
    let t = x + header_size + requested in
    let tail : Block = record {
      magic = block_magic;
      size = remaining - header_size;
      capacity = remaining - header_size;
      flags = 1;
      prev = some x;
      next = b.next;
    } in
    let f = set_prev (put h.blocks t tail) b.next t in
    if ltb remaining (header_size + heap_alignment)
    then record h { blocks = put h.blocks x (record b { size = b.capacity }) }
    else record h {
      blocks = put f x (record b { next = some t; size = requested; capacity = requested });
      free_bytes = add64 h.free_bytes (remaining - header_size);
    }

pub merge_with_next : ℕ → Heap → Heap
merge_with_next x h =
    let b = h.blocks x in
    elim b.next [
      | none ↦ h
      | some n ↦
          let m = h.blocks n in
          let capacity = add64 b.capacity (header_size + m.capacity) in
          let f =
            put h.blocks x (record b { capacity = capacity; size = capacity; next = m.next }) in
          if not (is_free m) then h else record h {
            blocks = set_prev f m.next x;
            free_bytes = add64 h.free_bytes header_size;
          }
    ]

abbrev pub ptr_in_heap : Heap → ℕ → Bool
ptr_in_heap h a = leb heap_base a && ltb a h.heap_next

abbrev pub link_in_heap : Heap → Option ℕ → Bool
link_in_heap h none = true
link_in_heap h (some a) = ptr_in_heap h a

abbrev pub block_basic_valid : Heap → ℕ → Bool
block_basic_valid h x =
    let b = h.blocks x in
    let end = add64 (x + header_size) b.capacity in
    ptr_in_heap h x
    && b.magic == block_magic
    && not (b.capacity == 0 || ltb b.capacity b.size)
    && not (ltb end x || ltb h.heap_next end)
    && link_in_heap h b.prev
    && link_in_heap h b.next

abbrev pub same_link : Option ℕ → Option ℕ → Bool
same_link none none = true
same_link (some a) (some b) = a == b
same_link _ _ = false

-- if (block->next != NULL && block->next->prev != block)
abbrev pub next_points_back : Heap → ℕ → Bool
next_points_back h x = elim (h.blocks x).next [
  | none ↦ true
  | some n ↦ same_link (h.blocks n).prev (some x)
]

-- The checks of one round of the loop in heap_validate.
abbrev pub block_ok : Heap → Option ℕ → ℕ → Bool
block_ok h prev x =
    block_basic_valid h x
    && same_link (h.blocks x).prev prev
    && next_points_back h x
    && (h.blocks x).flags % 2 ^ 32 / 2 == 0

-- The loop; its limit is the fuel.
pub validate_from : ℕ → Heap → Option ℕ → Option ℕ → Bool
validate_from fuel h prev none = true
validate_from zero h prev (some x) = false
validate_from (suc fuel) h prev (some x) =
    let rest = validate_from fuel h (some x) (h.blocks x).next in
    if block_ok h prev x then rest else false

-- `seen` is at most 1000000 when a block is checked.
abbrev pub max_blocks : ℕ
max_blocks = 1000001

abbrev pub head_is_first : Heap → Bool
head_is_first h = elim h.head [ none ↦ true | some x ↦ same_link (h.blocks x).prev none ]

pub heap_validate : Heap → Bool × Heap
heap_validate h =
    let corrupt = record h { corruption_count = add64 h.corruption_count 1 } in
    if not h.ready
    then (false, h)
    else if not (validate_from max_blocks h none h.head) || not (head_is_first h)
    then (false, corrupt)
    else (true, h)

-- `geometry` says that the page size is PAGE_SIZE and that there are pages.
pub heap_init : Bool → Heap → Heap
heap_init geometry h = record h {
  head = none;
  heap_next = heap_base;
  heap_pages = 0;
  used_bytes = 0;
  free_bytes = 0;
  allocations = 0;
  corruption_count = 0;
  ready = geometry;
}

-- The walks of kmalloc, which come after a successful heap_validate and so end within its limit.
pub first_fit : ℕ → Heap → ℕ → Option ℕ → Option ℕ
first_fit fuel h requested none = none
first_fit zero h requested (some x) = none
first_fit (suc fuel) h requested (some x) =
    let rest = first_fit fuel h requested (h.blocks x).next in
    if is_free (h.blocks x) && leb requested (h.blocks x).capacity then some x else rest

pub last_block : ℕ → (ℕ → Block) → ℕ → ℕ
last_block zero f x = x
last_block (suc fuel) f x = elim (f x).next [ none ↦ x | some n ↦ last_block fuel f n ]

-- What kmalloc does with a free block that is large enough.
pub reuse : ℕ → ℕ → Heap → Heap
reuse x requested h =
    let b = h.blocks x in
    let s = split_block x requested (record h {
      free_bytes = sub64 h.free_bytes b.capacity;
      blocks = put h.blocks x (record b { flags = clear_free b.flags; size = requested });
    }) in
    record s { used_bytes = add64 s.used_bytes requested; allocations = add64 s.allocations 1 }

-- The new block behind the last one.
pub append_block : ℕ → ℕ → Heap → Heap
append_block requested pages h =
    let x = h.heap_next in
    let b : Block = record {
      magic = block_magic;
      size = requested;
      capacity = sub64 (pages * heap_page_size) header_size;
      flags = 0;
      prev = none;
      next = none;
    } in
    let f = put h.blocks x b in
    let linked = record h {
      heap_next = x + pages * heap_page_size;
      heap_pages = add64 h.heap_pages pages;
      used_bytes = add64 h.used_bytes requested;
      allocations = add64 h.allocations 1;
    } in
    elim h.head [
      | none ↦ record linked { blocks = f; head = some x }
      | some first ↦
          let tail = last_block max_blocks f first in
          record linked {
            blocks =
                put (put f tail (record (f tail) { next = some x })) x
                  (record b { prev = some tail });
          }
    ]

-- The heap cannot grow by so many pages.
abbrev pub no_room : ℕ → ℕ → Heap → Bool
no_room requested pages h =
    pages == 0
    || ltb (sub64 (pages * heap_page_size) header_size) requested
    || ltb heap_limit h.heap_next
    || ltb ((heap_limit - h.heap_next) / heap_page_size) pages

module _ {W : Type 0} (k : PageServices W) where
  pub grow : ℕ → Heap → W → Option ℕ × Heap × W
  grow requested h w =
      let pages = pages_for_block requested in
      let (ok, w1) = map_new_pages k h.heap_next pages w in
      if no_room requested pages h
      then (none, h, w)
      else if not ok
      then (none, h, w1)
      else (some (h.heap_next + header_size), append_block requested pages h, w1)

  -- The address of the payload; none for NULL.
  pub kmalloc : ℕ → Heap → W → Option ℕ × Heap × W
  kmalloc size h w =
      let requested = align_size size in
      let (ok, h1) = heap_validate h in
      if not h.ready || size == 0 || requested == 0
      then (none, h, w)
      else if not ok
      then (none, h1, w)
      else elim (first_fit max_blocks h1 requested h1.head) [
        | none ↦ grow requested h1 w
        | some x ↦ (some (x + header_size), reuse x requested h1, w)
      ]

-- The release of a block, before it is Merged.
abbrev pub release : ℕ → Heap → Heap
release x h =
    let b = h.blocks x in
    record h {
      blocks = put h.blocks x (record b { flags = set_free b.flags });
      used_bytes = if leb b.size h.used_bytes then h.used_bytes - b.size else h.used_bytes;
      free_bytes = add64 h.free_bytes b.capacity;
      allocations = if h.allocations == 0 then 0 else h.allocations - 1;
    }

-- Forward, then backward.
pub merge_around : ℕ → Heap → Heap
merge_around x h =
    let s = merge_with_next x h in
    elim (s.blocks x).prev [
      | none ↦ s
      | some p ↦ if is_free (s.blocks p) then merge_with_next p s else s
    ]

-- The tests before the heap is validated; they are made again after it, on the same block.
abbrev pub is_allocated : Heap → ℕ → Bool
is_allocated h x = (h.blocks x).magic == block_magic && not (is_free (h.blocks x))

-- The pointer is not null.
pub kfree : ℕ → Heap → Heap
kfree ptr h =
    let x = ptr - header_size in
    let (ok, h1) = heap_validate h in
    if not h.ready || ltb ptr (heap_base + header_size) || leb h.heap_next ptr
    then h
    else if not (is_allocated h x)
    then h
    else if not ok || not (is_allocated h1 x)
    then h1
    else merge_around x (release x h1)
