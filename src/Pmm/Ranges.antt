-- ===== src/Pmm/Ranges.antt =====
-- reserve_range and release_range: which pages they change.
use nexus_os.Base.{
  ℕ, zero, suc, ◌+◌, ◌*◌, ◌/◌, ◌≤◌, ◌<◌, ◌≡◌, refl, ap, ◌∙◌, inl, inr, Bool, true, false, ◌&&◌,
  ◌||◌, arith, ltb, leb, ◌==◌, if◌then◌else◌, Bool-cases,
}
use nexus_os.Pmm.{
  Pmm, page_size, max_phys, max_pages, uint64_max, bitmap_test, align_down, align_up, take_page,
  give_page, for_pages, loop_fuel, clip, reserve_range, release_range,
}
use nexus_os.Pmm.Bitmap.{
  AreBytes, bitmap_set-AreBytes, bitmap_clear-AreBytes, bitmap_test-set, bitmap_test-clear,
}
use nexus_os.Pmm.Alloc.{is_used}

-- What the range operations leave alone.
pub record Keeps (m m' : Pmm) : Type 0 where
  pub same_total : m'.total_pages ≡ m.total_pages
  pub same_max : m'.max_physical_address ≡ m.max_physical_address
  pub same_ready : m'.ready ≡ m.ready
  pub bytes : AreBytes m'.bitmap

pub Keeps-refl : (m : Pmm) → AreBytes m.bitmap → Keeps m m
Keeps-refl m b = record { same_total = refl; same_max = refl; same_ready = refl; bytes = b }

pub Keeps-trans : {l m n : Pmm} → Keeps l m → Keeps m n → Keeps l n
Keeps-trans h k = record {
  same_total = k.same_total ∙ h.same_total;
  same_max = k.same_max ∙ h.same_max;
  same_ready = k.same_ready ∙ h.same_ready;
  bytes = k.bytes;
}

take_page-Keeps : (page : ℕ) (m : Pmm) → AreBytes m.bitmap → Keeps m (take_page page m)
unfolding take_page
take_page-Keeps page m b = elim (Bool-cases (bitmap_test m.bitmap page)) [
  | inl e ↦ rw (e, take_page) (Keeps-refl m b)
  | inr e ↦
      rw (e, take_page)
        (record {
          same_total = refl;
          same_max = refl;
          same_ready = refl;
          bytes = bitmap_set-AreBytes m.bitmap b page;
        })
]

give_page-Keeps : (page : ℕ) (m : Pmm) → AreBytes m.bitmap → Keeps m (give_page page m)
unfolding give_page
give_page-Keeps page m b = elim (Bool-cases (bitmap_test m.bitmap page)) [
  | inr e ↦ rw (e, give_page) (Keeps-refl m b)
  | inl e ↦
      rw (e, give_page)
        (record {
          same_total = refl;
          same_max = refl;
          same_ready = refl;
          bytes = bitmap_clear-AreBytes m.bitmap b page;
        })
]

-- A body that gives one page the value `v`.
record Marks (v : Bool) (body : ℕ → Pmm → Pmm) : Type 0 where
  keeps : (page : ℕ) (m : Pmm) → AreBytes m.bitmap → Keeps m (body page m)
  marks :
      (page : ℕ) (m : Pmm) (q : ℕ)
      → AreBytes m.bitmap
      → is_used (body page m) q ≡ (if page == q then v else is_used m q)

take_page-Marks : Marks true take_page
unfolding take_page
take_page-Marks = record {
  keeps = take_page-Keeps;
  marks = λ page m q b.
      ground (arith, bitmap_test-set m.bitmap b page q, ap (is_used m) {x = page} {y = q});
}

give_page-Marks : Marks false give_page
unfolding give_page
give_page-Marks = record {
  keeps = give_page-Keeps;
  marks = λ page m q b.
      ground (arith, bitmap_test-clear m.bitmap b page q, ap (is_used m) {x = page} {y = q});
}

-- The pages from `k` on that start below `end`.
abbrev in_run : ℕ → ℕ → ℕ → Bool
in_run k end q = leb k q && ltb (q * page_size) end && ltb q max_pages

module _ (v : Bool) (body : ℕ → Pmm → Pmm) (h : Marks v body) where
  for_pages-Keeps :
      (fuel addr end : ℕ) (m : Pmm) → AreBytes m.bitmap → Keeps m (for_pages fuel addr end body m)
  unfolding for_pages
  for_pages-Keeps zero addr end m b = Keeps-refl m b
  for_pages-Keeps (suc fuel) addr end m b =
      elim (Bool-cases (ltb addr end && ltb (addr / page_size) max_pages)) [
        | inl e ↦
            let first = h.keeps (addr / page_size) m b in
            rw (e, for_pages)
              (Keeps-trans first (
                for_pages-Keeps fuel (addr + page_size) end (body (addr / page_size) m)
                  first.bytes))
        | inr e ↦ rw (e, for_pages) (Keeps-refl m b)
      ]

  -- With more fuel than pages are left the loop marks the whole run.
  for_pages-marks :
      (fuel k addr end : ℕ) (m : Pmm) (q : ℕ)
      → AreBytes m.bitmap
      → addr ≡ k * page_size
      → max_pages < k + fuel
      → is_used (for_pages fuel addr end body m) q ≡ (if in_run k end q then v else is_used m q)
  unfolding for_pages
  for_pages-marks zero k addr end m q b e enough = ground arith
  for_pages-marks (suc fuel) k addr end m q b e enough =
      elim (Bool-cases (ltb addr end && ltb (addr / page_size) max_pages)) [
        | inl more ↦
            let page : addr / page_size ≡ k = omega arith in
            let first = h.keeps k m b in
            rw (more, page, for_pages)
              (for_pages-marks fuel (k + 1) (addr + page_size) end (body k m) q first.bytes
                  (omega arith) (omega arith)
                ∙ ground (arith, h.marks k m q b))
        | inr done ↦ rw (done, for_pages) (ground arith)
      ]

-- A byte of the page lies in [start, end).
abbrev pub overlaps : ℕ → ℕ → ℕ → Bool
overlaps start end q = ltb start end && ltb start ((q + 1) * page_size) && ltb (q * page_size) end

-- The whole page lies in [start, end).
abbrev pub contains : ℕ → ℕ → ℕ → Bool
contains start end q = leb start (q * page_size) && leb ((q + 1) * page_size) end

-- The page is one that the bitmap represents.
pub record IsBelow (m : Pmm) (q : ℕ) : Type 0 where
  pub in_max : (q + 1) * page_size ≤ m.max_physical_address
  pub in_phys : m.max_physical_address ≤ max_phys

pub reserve_range-Keeps :
    (start end : ℕ) (m : Pmm) → AreBytes m.bitmap → Keeps m (reserve_range start end m)
unfolding reserve_range
reserve_range-Keeps start end m b =
    elim (Bool-cases (leb end start || m.max_physical_address == 0)) [
      | inl e ↦ rw (e, reserve_range) (Keeps-refl m b)
      | inr e ↦ elim (Bool-cases (leb m.max_physical_address (align_down start))) [
        | inl f ↦ rw (e, f, reserve_range) (Keeps-refl m b)
        | inr f ↦
            rw (e, f, reserve_range)
              (for_pages-Keeps true take_page take_page-Marks loop_fuel _ _ m b)
      ]
    ]

pub release_range-Keeps :
    (start end : ℕ) (m : Pmm) → AreBytes m.bitmap → Keeps m (release_range start end m)
unfolding release_range
release_range-Keeps start end m b =
    elim (Bool-cases (leb end start || m.max_physical_address == 0)) [
      | inl e ↦ rw (e, release_range) (Keeps-refl m b)
      | inr e ↦ elim (Bool-cases (leb m.max_physical_address (align_up start))) [
        | inl f ↦ rw (e, f, release_range) (Keeps-refl m b)
        | inr f ↦
            rw (e, f, release_range)
              (for_pages-Keeps false give_page give_page-Marks loop_fuel _ _ m b)
      ]
    ]

-- On a bitmap of bytes reserve_range marks, of the pages below the represented maximum, those that
-- the range touches, and leaves the others; the end of the range fits in 64 bits.
pub reserve_range-marks :
    (start end : ℕ) (m : Pmm) (q : ℕ)
    → AreBytes m.bitmap
    → IsBelow m q
    → end ≤ uint64_max
    → is_used (reserve_range start end m) q ≡ (if overlaps start end q then true else is_used m q)
unfolding reserve_range
reserve_range-marks start end m q b below fits =
    elim (Bool-cases (leb end start || m.max_physical_address == 0)) [
      | inl e ↦ rw (e, reserve_range) (ground arith)
      | inr e ↦ elim (Bool-cases (leb m.max_physical_address (align_down start))) [
        | inl f ↦ rw (e, f, reserve_range) (ground arith)
        | inr f ↦
            rw (e, f, reserve_range)
              (for_pages-marks true take_page take_page-Marks loop_fuel (start / page_size)
                  (align_down start) (clip (align_up end) m.max_physical_address) m q b refl
                  (omega arith)
                ∙ ground arith)
      ]
    ]

-- On a bitmap of bytes release_range frees, of the pages below the represented maximum, those that
-- lie in the range as a whole, and leaves the others.
pub release_range-marks :
    (start end : ℕ) (m : Pmm) (q : ℕ)
    → AreBytes m.bitmap
    → IsBelow m q
    → is_used (release_range start end m) q ≡ (if contains start end q then false else is_used m q)
unfolding release_range
release_range-marks start end m q b below =
    elim (Bool-cases (leb end start || m.max_physical_address == 0)) [
      | inl e ↦ rw (e, release_range) (ground arith)
      | inr e ↦ elim (Bool-cases (leb m.max_physical_address (align_up start))) [
        | inl f ↦ rw (e, f, release_range) (ground arith)
        | inr f ↦
            rw (e, f, release_range)
              (for_pages-marks false give_page give_page-Marks loop_fuel
                  (align_up start / page_size) (align_up start)
                  (clip (align_down end) m.max_physical_address) m q b (ground arith) (omega arith)
                ∙ ground arith)
      ]
    ]
