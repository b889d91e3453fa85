-- ===== src/Heap/Tests.antt =====
-- A heap of three blocks: 64 bytes in use, 128 free bytes and 32 bytes in use.
use nexus_os.Base.{
  ℕ, ◌+◌, ◌<◌, ◌≡◌, refl, true, Option, none, some, List, [], ◌∷◌, ◌==◌, if◌then◌else◌, arith,
}
use nexus_os.Heap.{Block, Heap, block_magic, header_size, heap_base, kfree, kmalloc}
use nexus_os.Heap.Alloc.{Allocates, kmalloc-adds}
use nexus_os.Heap.Free.{kfree-removes}
use nexus_os.Heap.Layout.{Good, Tiled, used}
use nexus_os.Heap.Pages.{PageServices}
use nexus_os.Heap.Valid.{Holds}

-- The addresses of the blocks.
abbrev first : ℕ
first = heap_base

abbrev second : ℕ
second = heap_base + 112

abbrev third : ℕ
third = heap_base + 288

abbrev block : ℕ → ℕ → Option ℕ → Option ℕ → Block
block capacity flags prev next = record {
  magic = block_magic;
  size = capacity;
  capacity = capacity;
  flags = flags;
  prev = prev;
  next = next;
}

abbrev three_blocks : Heap
three_blocks = record {
  blocks = λ a.
      if a == first
      then block 64 0 none (some second)
      else if a == second
      then block 128 1 (some first) (some third)
      else block 32 0 (some second) none;
  head = some first;
  heap_next = heap_base + 368;
  heap_pages = 1;
  used_bytes = 96;
  free_bytes = 128;
  allocations = 2;
  corruption_count = 0;
  ready = true;
}

-- Memory that is never used up; the state counts its pages.
abbrev pages : PageServices ℕ
pages = record {
  pmm_alloc_page = λ w. ((w + 1), w + 1);
  pmm_free_page = λ page w. w;
  vmm_map_page = λ va page w. (true, w);
  vmm_unmap_page = λ va w. w;
  vmm_virt_to_phys = λ va w. 0;
}

Good-block :
    (capacity flags : ℕ) (prev next : Option ℕ)
    → 0 < capacity
    → flags < 2
    → Good (block capacity flags prev next) prev
Good-block capacity flags prev next positive small = record {
  magic = refl;
  prev_link = refl;
  some_bytes = positive;
  fits = omega arith;
  flags = small;
}

three_blocks-Holds : Holds three_blocks (first ∷ second ∷ third ∷ [])
unfolding Tiled
three_blocks-Holds = record {
  on = refl;
  tiled = (
    refl,
    refl,
    Good-block 64 0 none (some second) (omega arith) (omega arith),
    (
      refl,
      refl,
      Good-block 128 1 (some first) (some third) (omega arith) (omega arith),
      (refl, refl, Good-block 32 0 (some second) none (omega arith) (omega arith), (refl, refl)),
    ),
  );
  limit = omega arith;
  few = omega arith;
}

kmalloc-adds_example :
    Allocates 20 three_blocks
      (first ∷ second ∷ third ∷ [])
      (kmalloc pages 20 three_blocks 0).0
      (kmalloc pages 20 three_blocks 0).1
kmalloc-adds_example =
    kmalloc-adds pages 20 three_blocks 0 (first ∷ second ∷ third ∷ []) three_blocks-Holds
      (omega arith)

kfree-removes_example :
    (ys : List ℕ) × Holds (kfree (third + header_size) three_blocks) ys
    × (used (kfree (third + header_size) three_blocks).blocks ys ≡ (first, 64) ∷ [])
unfolding used
kfree-removes_example =
    kfree-removes three_blocks (first ∷ second ∷ third ∷ []) ((first, 64) ∷ []) third 32 []
      three_blocks-Holds refl
