-- ===== src/Pmm/Boot/Outcome.antt =====
-- Which pages are free after pmm_init, and the count of them.
use nexus_os.Base.{
  ℕ, zero, suc, ◌+◌, ◌%◌, ◌^◌, ◌≤◌, ◌<◌, ◌≡◌, refl, sym, ap, ◌∙◌, inl, inr, true, not, ◌||◌, some,
  arith, if◌then◌else◌, Bool-cases, subst,
}
use nexus_os.Base.Count.{count_free, count_free-le}
use nexus_os.Pmm.{Pmm, max_pages, uint64_max, bitmap_test}
use nexus_os.Pmm.Bitmap.{AreBytes, bitmap_test-full}
use nexus_os.Pmm.Alloc.{is_used, IsExact}
use nexus_os.Pmm.Ranges.{IsBelow}
use nexus_os.Pmm.Boot.{
  MmapEntry, BootInfo, recount, cleared, entry_count, is_usable, measure, release_all, reserve_all,
  pmm_init,
}
use nexus_os.Pmm.Boot.Passes.{is_conventional, is_reserved, first_pass, second_pass, Keeps-IsBelow}
use nexus_os.Pmm.Boot.Reserves.{reserve_all-Reserves}

-- The recount changes the counter only, to the number of pages that are free.
recount-keeps :
    (rounds page : ℕ) (m : Pmm)
    → ((recount rounds page m).bitmap ≡ m.bitmap)
      × ((recount rounds page m).total_pages ≡ m.total_pages)
unfolding recount
recount-keeps zero page m = (refl, refl)
recount-keeps (suc rounds) page m =
    let rest = recount-keeps rounds (page + 1) (
      if bitmap_test m.bitmap page
      then m
      else record m { free_pages = (m.free_pages + 1) % 2 ^ 64 }) in
    ground (arith, rest)

recount-counts :
    (rounds page : ℕ) (m : Pmm)
    → page + rounds ≤ max_pages
    → m.free_pages ≡ count_free (is_used m) page
    → (recount rounds page m).free_pages ≡ count_free (is_used m) (page + rounds)
unfolding recount count_free
recount-counts zero page m small h = ground (arith, h)
recount-counts (suc rounds) page m small h = elim (Bool-cases (bitmap_test m.bitmap page)) [
  | inl used ↦
      rw (used, recount)
        (recount-counts rounds (page + 1) m (omega arith)
            (ground (arith, ap (count_free (is_used m)) {x = page + 1} {y = suc page}))
          ∙ ap (count_free (is_used m)) (omega arith))
  | inr free ↦
      let next = record m { free_pages = (m.free_pages + 1) % 2 ^ 64 } in
      rw (free, recount)
        (recount-counts rounds (page + 1) next (omega arith) (
            ground (
              arith,
              count_free-le (is_used m) page,
              ap (count_free (is_used m)) {x = page + 1} {y = suc page},
            ))
          ∙ ap (count_free (is_used m)) (omega arith))
]

recount_all :
    (m : Pmm)
    → m.total_pages ≤ max_pages
    → m.free_pages ≡ 0
    → (recount m.total_pages 0 m).free_pages ≡ count_free (is_used m) m.total_pages
unfolding count_free
recount_all m small none_yet =
    recount-counts m.total_pages 0 m (omega arith) none_yet
    ∙ ap (count_free (is_used m)) (omega arith)

module _ (bi : BootInfo) (memory : ℕ → MmapEntry) where
  -- After the passes and the reservations.
  record Prepared (m : Pmm) : Type 0 where
    bytes : AreBytes m.bitmap
    small : m.total_pages ≤ max_pages
    marked :
        (q : ℕ)
        → q < m.total_pages
        → is_used m q ≡ (is_reserved bi q || not (is_conventional bi memory q))

  measure-IsBelow :
      ((measure bi memory).bitmap ≡ (λ _. 255))
      × ((measure bi memory).total_pages ≤ max_pages)
      × ((q : ℕ) → q < (measure bi memory).total_pages → IsBelow (measure bi memory) q)
  unfolding measure
  measure-IsBelow =
      let (small, same) =
        first_pass memory bi.descriptor_size (entry_count bi) bi.map_base cleared (omega arith) in
      (same, ground arith, λ q h. record { in_max = ground arith; in_phys = small })

  prepared : Pmm
  prepared = reserve_all bi (release_all bi memory (measure bi memory))

  prepared-Prepared : bi.kernel_phys_end ≤ uint64_max → Prepared prepared
  unfolding release_all prepared
  prepared-Prepared fits =
      let (full, small, below) = measure-IsBelow in
      let m0 = measure bi memory in
      let bytes0 : AreBytes m0.bitmap = subst AreBytes (sym full) (λ i. omega arith) in
      let pass = second_pass memory bi.descriptor_size (entry_count bi) bi.map_base m0 in
      let keeps = (pass 0 bytes0).0 in
      let m1 = release_all bi memory m0 in
      let r = reserve_all-Reserves bi fits m1 keeps.bytes in
      let same_total = r.keeps.same_total ∙ keeps.same_total in
      record {
        bytes = r.keeps.bytes;
        small = omega (arith, same_total, small);
        marked = λ q h.
            let b0 = below q (omega (arith, same_total)) in
            r.marks q (Keeps-IsBelow m0 m1 q keeps b0)
            ∙ ground
                (arith, (pass q bytes0).1 b0, ap (λ b. bitmap_test b q) full, bitmap_test-full q);
      }

  -- The state that a usable map leads to.
  outcome : Pmm
  outcome = record (recount prepared.total_pages 0 (record prepared { free_pages = 0 })) {
    ready = true;
  }

  ready_outcome : is_usable bi ≡ true → pmm_init (some bi) memory ≡ outcome
  unfolding pmm_init outcome prepared
  ready_outcome usable = ground (arith, usable)

  outcome_total :
      bi.kernel_phys_end ≤ uint64_max → outcome.total_pages ≡ (measure bi memory).total_pages
  unfolding outcome prepared release_all
  outcome_total fits =
      let (full, small, below) = measure-IsBelow in
      let m0 = measure bi memory in
      let bytes0 : AreBytes m0.bitmap = subst AreBytes (sym full) (λ i. omega arith) in
      let keeps =
        (second_pass memory bi.descriptor_size (entry_count bi) bi.map_base m0 0 bytes0).0 in
      let m1 = release_all bi memory m0 in
      let r = reserve_all-Reserves bi fits m1 keeps.bytes in
      (recount-keeps prepared.total_pages 0 (record prepared { free_pages = 0 })).1
      ∙ r.keeps.same_total
      ∙ keeps.same_total

  outcome-Prepared : bi.kernel_phys_end ≤ uint64_max → Prepared outcome × IsExact outcome
  unfolding outcome
  outcome-Prepared fits =
      let p = prepared-Prepared fits in
      let start = record prepared { free_pages = 0 } in
      let (bits, total) = recount-keeps prepared.total_pages 0 start in
      let bytes = subst AreBytes (sym bits) p.bytes in
      let small : outcome.total_pages ≤ max_pages = omega (arith, total, p.small) in
      (
        record {
          bytes = bytes;
          small = small;
          marked = λ q h. ap (λ b. bitmap_test b q) bits ∙ p.marked q (omega (arith, total));
        },
        record {
          bytes = bytes;
          small = small;
          counted =
              recount_all start p.small refl
              ∙ ap (λ b. count_free (bitmap_test b) prepared.total_pages) (sym bits)
              ∙ ap (count_free (is_used outcome)) (sym total);
        },
      )

-- The number of pages is what the first pass found.
pub pmm_init-total :
    (bi : BootInfo) (memory : ℕ → MmapEntry)
    → is_usable bi ≡ true
    → bi.kernel_phys_end ≤ uint64_max
    → (pmm_init (some bi) memory).total_pages ≡ (measure bi memory).total_pages
pmm_init-total bi memory usable fits =
    ap (λ m. m.total_pages) (ready_outcome bi memory usable) ∙ outcome_total bi memory fits

-- On a usable memory map, and with a kernel image whose end fits in 64 bits, after pmm_init a page
-- below the limit is used exactly if it touches a reserved region or lies in no conventional
-- region.
pub pmm_init-classifies :
    (bi : BootInfo) (memory : ℕ → MmapEntry) (q : ℕ)
    → is_usable bi ≡ true
    → bi.kernel_phys_end ≤ uint64_max
    → q < (pmm_init (some bi) memory).total_pages
    → is_used (pmm_init (some bi) memory) q
      ≡ (is_reserved bi q || not (is_conventional bi memory q))
pmm_init-classifies bi memory q usable fits h =
    let e = ready_outcome bi memory usable in
    let p = (outcome-Prepared bi memory fits).0 in
    ap (λ m. is_used m q) e ∙ p.marked q (subst (λ m. q < m.total_pages) e h)

-- After pmm_init on a usable memory map, with a kernel image whose end fits in 64 bits, the count
-- of free pages is exact.
pub pmm_init-IsExact :
    (bi : BootInfo) (memory : ℕ → MmapEntry)
    → is_usable bi ≡ true
    → bi.kernel_phys_end ≤ uint64_max
    → IsExact (pmm_init (some bi) memory)
pmm_init-IsExact bi memory usable fits =
    subst IsExact (sym (ready_outcome bi memory usable)) (outcome-Prepared bi memory fits).1
