-- ===== src/Pmm/Tests.antt =====
-- Runs of the page allocator.
use nexus_os.Base.{ℕ, ◌≡◌, refl, true, not, ◌||◌, List, [], ◌∷◌, some, arith, ◌==◌, if◌then◌else◌}
use nexus_os.Base.Count.{count_free}
use nexus_os.Pmm.{Pmm, Op, alloc, free, bitmap_test, pmm_alloc_page}
use nexus_os.Pmm.Alloc.{is_used, IsExact, Allocates, pmm_alloc_page-Allocates}
use nexus_os.Pmm.Owner.{IsOwned, Spares, NeverReturns, owned-NeverReturns}
use nexus_os.Pmm.Boot.{MmapEntry, BootInfo, measure, consider_max, for_entries, pmm_init}
use nexus_os.Pmm.Boot.Passes.{is_conventional, is_reserved}
use nexus_os.Pmm.Boot.Outcome.{pmm_init-total, pmm_init-classifies}

-- Four pages; the first and the last are used.
abbrev two_free : Pmm
two_free = record {
  bitmap = λ i. if i == 0 then 0xF9 else 255;
  total_pages = 4;
  free_pages = 2;
  max_physical_address = 0x4000;
  ready = true;
}

two_free-IsExact : IsExact two_free
unfolding count_free bitmap_test
two_free-IsExact = record { bytes = λ i. ground arith; small = omega arith; counted = refl }

pmm_alloc_page-Allocates_example : Allocates two_free (pmm_alloc_page two_free)
pmm_alloc_page-Allocates_example = pmm_alloc_page-Allocates two_free refl

last-IsOwned : IsOwned two_free 3
unfolding bitmap_test
last-IsOwned = record { exact = two_free-IsExact; used = refl; not_null = omega arith }

abbrev requests : List Op
requests = alloc ∷ free 0x1000 ∷ alloc ∷ alloc ∷ []

requests-Spares : Spares 3 requests
requests-Spares = ground arith

owned-NeverReturns_example : NeverReturns 3 two_free requests
owned-NeverReturns_example = owned-NeverReturns two_free 3 requests last-IsOwned requests-Spares

-- One conventional region of 8 MiB and a firmware region after it.
abbrev memory : ℕ → MmapEntry
memory at =
    if at == 0x5000
    then record { type = 7; physical_start = 0; number_of_pages = 2048 }
    else record { type = 0; physical_start = 0x800000; number_of_pages = 16 }

abbrev boot_info : BootInfo
boot_info = record {
  address = 0x4000;
  map_base = 0x5000;
  map_size = 96;
  descriptor_size = 48;
  kernel_phys_base = 0x200000;
  kernel_phys_end = 0x2FF123;
  fb_base = 0x80000000;
  fb_size = 0x1000;
}

measured : (measure boot_info memory).total_pages ≡ 2064
unfolding measure for_entries consider_max
measured = refl

pmm_init-classifies_example :
    is_used (pmm_init (some boot_info) memory) 0x2FF
    ≡ (is_reserved boot_info 0x2FF || not (is_conventional boot_info memory 0x2FF))
pmm_init-classifies_example =
    pmm_init-classifies boot_info memory 0x2FF refl (omega arith)
      (omega (arith, measured, pmm_init-total boot_info memory refl (omega arith)))
