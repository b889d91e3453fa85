-- ===== src/Pmm/Boot/Passes.antt =====
-- The two passes of pmm_init over the memory map.
use nexus_os.Base.{
  ℕ, zero, suc, ◌≤◌, ◌≡◌, refl, ◌∙◌, inl, inr, Bool, false, not, ◌&&◌, ◌||◌, arith, ◌==◌,
  if◌then◌else◌, Bool-cases,
}
use nexus_os.Pmm.{Pmm, max_phys}
use nexus_os.Pmm.Bitmap.{AreBytes}
use nexus_os.Pmm.Alloc.{is_used}
use nexus_os.Pmm.Ranges.{
  Keeps, Keeps-refl, Keeps-trans, overlaps, contains, IsBelow, release_range-Keeps,
  release_range-marks,
}
use nexus_os.Pmm.Boot.{
  MmapEntry, BootInfo, mem_conventional, boot_info_size, add64, entry_end, consider_max,
  release_entry, for_entries, entry_count,
}

-- A descriptor in the map passes the test.
pub any_entry : (ℕ → MmapEntry) → ℕ → ℕ → ℕ → (MmapEntry → Bool) → Bool
any_entry memory stride zero at p = false
any_entry memory stride (suc rounds) at p =
    p (memory at) || any_entry memory stride rounds (add64 at stride) p

-- The page lies in the descriptor's region, which is conventional memory.
abbrev pub offers : ℕ → MmapEntry → Bool
offers q e = e.type == mem_conventional && contains e.physical_start (entry_end e) q

abbrev pub is_conventional : BootInfo → (ℕ → MmapEntry) → ℕ → Bool
is_conventional bi memory q =
    any_entry memory bi.descriptor_size (entry_count bi) bi.map_base (offers q)

-- The page touches the low 2 MiB, the kernel image, the boot information, the memory map or the
-- framebuffer.
abbrev pub is_reserved : BootInfo → ℕ → Bool
is_reserved bi q =
    overlaps 0 0x200000 q
    || overlaps bi.kernel_phys_base bi.kernel_phys_end q
    || overlaps bi.address (add64 bi.address boot_info_size) q
    || overlaps bi.map_base (add64 bi.map_base bi.map_size) q
    || (not (bi.fb_base == 0)
        && not (bi.fb_size == 0)
        && overlaps bi.fb_base (add64 bi.fb_base bi.fb_size) q)

-- The first pass changes the maximum only, which stays below PMM_MAX_PHYS.
consider_max-le :
    (e : MmapEntry) (m : Pmm)
    → m.max_physical_address ≤ max_phys
    → ((consider_max e m).max_physical_address ≤ max_phys) × ((consider_max e m).bitmap ≡ m.bitmap)
unfolding consider_max
consider_max-le e m h = ground arith

pub first_pass :
    (memory : ℕ → MmapEntry) (stride rounds at : ℕ) (m : Pmm)
    → m.max_physical_address ≤ max_phys
    → ((for_entries memory stride rounds at consider_max m).max_physical_address ≤ max_phys)
      × ((for_entries memory stride rounds at consider_max m).bitmap ≡ m.bitmap)
unfolding for_entries
first_pass memory stride zero at m h = (h, refl)
first_pass memory stride (suc rounds) at m h =
    let (small, same) = consider_max-le (memory at) m h in
    let (small', same') =
      first_pass memory stride rounds (add64 at stride) (consider_max (memory at) m) small in
    (small', same' ∙ same)

release_entry-Keeps : (e : MmapEntry) (m : Pmm) → AreBytes m.bitmap → Keeps m (release_entry e m)
unfolding release_entry
release_entry-Keeps e m b = elim (Bool-cases (e.type == mem_conventional)) [
  | inl t ↦ rw (t, release_entry) (release_range-Keeps e.physical_start (entry_end e) m b)
  | inr f ↦ rw (f, release_entry) (Keeps-refl m b)
]

release_entry-marks :
    (e : MmapEntry) (m : Pmm) (q : ℕ)
    → AreBytes m.bitmap
    → IsBelow m q
    → is_used (release_entry e m) q ≡ (if offers q e then false else is_used m q)
unfolding release_entry
release_entry-marks e m q b below =
    ground (arith, release_range-marks e.physical_start (entry_end e) m q b below)

pub Keeps-IsBelow : (m m' : Pmm) (q : ℕ) → Keeps m m' → IsBelow m q → IsBelow m' q
Keeps-IsBelow m m' q k below = omega (arith, k.same_max, below.in_max, below.in_phys)

pub second_pass :
    (memory : ℕ → MmapEntry) (stride rounds at : ℕ) (m : Pmm) (q : ℕ)
    → AreBytes m.bitmap
    → Keeps m (for_entries memory stride rounds at release_entry m)
      × (IsBelow m q
          → is_used (for_entries memory stride rounds at release_entry m) q
            ≡ (if any_entry memory stride rounds at (offers q) then false else is_used m q))
unfolding for_entries any_entry
second_pass memory stride zero at m q b = (Keeps-refl m b, λ below. refl)
second_pass memory stride (suc rounds) at m q b =
    let next = release_entry (memory at) m in
    let first = release_entry-Keeps (memory at) m b in
    let (rest, marked) = second_pass memory stride rounds (add64 at stride) next q first.bytes in
    (
      Keeps-trans first rest,
      λ below.
          marked (Keeps-IsBelow m next q first below)
          ∙ ground (arith, release_entry-marks (memory at) m q b below),
    )
