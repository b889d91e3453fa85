-- ===== src/Heap/Pages.antt =====
-- kernel/mm/heap.c: the mapping of new pages. What it calls of kernel/mm/pmm.c and kernel/mm/vmm.c is
-- an interface, with `W` for their state.
use nexus_os.Base.{ℕ, zero, suc, ◌+◌, ◌-◌, ◌*◌, ◌%◌, Bool, true, false, ◌==◌, if◌then◌else◌}

abbrev pub heap_page_size : ℕ
heap_page_size = 4096

-- The address 0 is no page.
pub record PageServices (W : Type 0) : Type 0 where
  pub pmm_alloc_page : W → ℕ × W
  pub pmm_free_page : ℕ → W → W
  pub vmm_map_page : ℕ → ℕ → W → Bool × W
  pub vmm_unmap_page : ℕ → W → W
  pub vmm_virt_to_phys : ℕ → W → ℕ

module _ {W : Type 0} (k : PageServices W) where
  -- The loop that takes back the first pages, from page `j` on.
  unfoldable pub roll_back : ℕ → ℕ → ℕ → W → W
  roll_back zero j start w = w
  roll_back (suc rounds) j start w =
      let va = start + j * heap_page_size in
      let old_phys = k.vmm_virt_to_phys va w in
      let freed = k.pmm_free_page (old_phys - old_phys % heap_page_size) (k.vmm_unmap_page va w) in
      roll_back rounds (j + 1) start (if old_phys == 0 then w else freed)

  -- The loop from page `i` on.
  pub map_from : ℕ → ℕ → ℕ → W → Bool × W
  map_from zero i start w = (true, w)
  map_from (suc rounds) i start w =
      let (phys, w1) = k.pmm_alloc_page w in
      let (ok, w2) = k.vmm_map_page (start + i * heap_page_size) phys w1 in
      elim (phys == 0) [
        | true ↦ (false, roll_back i 0 start w1)
        | false ↦ elim ok [
          | true ↦ map_from rounds (i + 1) start w2
          | false ↦ (false, roll_back i 0 start (k.pmm_free_page phys w2))
        ]
      ]

  abbrev pub map_new_pages : ℕ → ℕ → W → Bool × W
  map_new_pages start pages w = map_from pages 0 start w
