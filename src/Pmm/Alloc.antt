-- ===== src/Pmm/Alloc.antt =====
-- pmm_alloc_page and pmm_free_page.
use nexus_os.Base.{
  ℕ, zero, suc, ◌+◌, ◌-◌, ◌*◌, ◌≤◌, ◌<◌, ◌≡◌, refl, sym, inl, inr, Bool, true, false, arith, ◌==◌,
  if◌then◌else◌, Bool-cases, subst,
}
use nexus_os.Base.Count.{count_free, count_free_take, count_free-le}
use nexus_os.Pmm.{
  Pmm, page_size, max_pages, bitmap_set, bitmap_clear, bitmap_test, give_page, alloc_from,
  pmm_alloc_page,
}
use nexus_os.Pmm.Bitmap.{
  AreBytes, bitmap_set-AreBytes, bitmap_clear-AreBytes, bitmap_test-set, bitmap_test-clear,
}

abbrev pub is_used : Pmm → ℕ → Bool
is_used m page = bitmap_test m.bitmap page

pub record IsExact (m : Pmm) : Type 0 where
  pub bytes : AreBytes m.bitmap
  pub small : m.total_pages ≤ max_pages
  pub counted : m.free_pages ≡ count_free (is_used m) m.total_pages

-- The state after the page of the bitmap has been taken.
abbrev pub taken : Pmm → ℕ → Pmm
taken m page = record m { bitmap = bitmap_set m.bitmap page; free_pages = m.free_pages - 1 }

-- What pmm_alloc_page does on a ready allocator: the lowest free page, or 0 if there is none.
pub data Allocates (m : Pmm) (r : ℕ × Pmm) : Type 0 where
  lowest :
      (page : ℕ)
      → page < m.total_pages
      → is_used m page ≡ false
      → ((j : ℕ) → j < page → is_used m j ≡ true)
      → r ≡ (page * page_size, taken m page)
      → Allocates m r
  full : ((j : ℕ) → j < m.total_pages → is_used m j ≡ true) → r ≡ (0, m) → Allocates m r

alloc_from-Allocates :
    (rounds page : ℕ) (m : Pmm)
    → page + rounds ≡ m.total_pages
    → ((j : ℕ) → j < page → is_used m j ≡ true)
    → Allocates m (alloc_from rounds page m)
unfolding alloc_from
alloc_from-Allocates zero page m e before = full (λ j h. before j (omega arith)) refl
alloc_from-Allocates (suc rounds) page m e before = elim (Bool-cases (bitmap_test m.bitmap page)) [
  | inl used ↦
      rw (used, alloc_from)
        (alloc_from-Allocates rounds (page + 1) m (omega arith) (λ j h. ground (arith, before j)))
  | inr free ↦ rw (free, alloc_from) (lowest page (omega arith) free before refl)
]

alloc_ready : (m : Pmm) → m.ready ≡ true → pmm_alloc_page m ≡ alloc_from m.total_pages 0 m
unfolding pmm_alloc_page
alloc_ready m ready = ground arith

pub alloc_idle : (m : Pmm) → m.ready ≡ false → pmm_alloc_page m ≡ (0, m)
unfolding pmm_alloc_page
alloc_idle m idle = ground arith

-- On a ready allocator pmm_alloc_page gives the address of the lowest free page and marks that
-- page used, or gives 0 and changes nothing when every page is used.
pub pmm_alloc_page-Allocates : (m : Pmm) → m.ready ≡ true → Allocates m (pmm_alloc_page m)
pmm_alloc_page-Allocates m ready =
    subst (Allocates m) (sym (alloc_ready m ready))
      (alloc_from-Allocates m.total_pages 0 m (omega arith) (λ j h. elim h [ ]))

pub taken-IsExact :
    (m : Pmm) (page : ℕ)
    → IsExact m
    → page < m.total_pages
    → is_used m page ≡ false
    → IsExact (taken m page)
taken-IsExact m page v h free = record {
  bytes = bitmap_set-AreBytes m.bitmap v.bytes page;
  small = v.small;
  counted = omega (
    arith,
    v.counted,
    count_free_take (is_used m) (is_used (taken m page)) page m.total_pages h free
        (bitmap_test-set m.bitmap v.bytes page),
  );
}

pub pmm_alloc_page-IsExact : (m : Pmm) → IsExact m → IsExact (pmm_alloc_page m).1
pmm_alloc_page-IsExact m v = elim (Bool-cases m.ready) [
  | inl ready ↦ elim (pmm_alloc_page-Allocates m ready) [
    | lowest page h free before e ↦ subst (λ r. IsExact r.1) (sym e) (taken-IsExact m page v h free)
    | full all e ↦ subst (λ r. IsExact r.1) (sym e) v
  ]
  | inr idle ↦ subst (λ r. IsExact r.1) (sym (alloc_idle m idle)) v
]

-- One page more.
pub give_page-IsExact :
    (m : Pmm) (page : ℕ) → IsExact m → page < m.total_pages → IsExact (give_page page m)
unfolding give_page
give_page-IsExact m page v h = elim (Bool-cases (bitmap_test m.bitmap page)) [
  | inr free ↦ rw (free, give_page) v
  | inl used ↦
      rw (used, give_page)
        (record {
          bytes = bitmap_clear-AreBytes m.bitmap v.bytes page;
          small = v.small;
          counted = omega (
            arith,
            v.counted,
            v.small,
            count_free-le after m.total_pages,
            count_free_take after (is_used m) page m.total_pages h (ground (arith, cleared page))
                (λ q. ground (arith, cleared q)),
          );
        })
]
  where
    after : ℕ → Bool
    after = bitmap_test (bitmap_clear m.bitmap page)

    cleared : (q : ℕ) → after q ≡ (if page == q then false else bitmap_test m.bitmap q)
    cleared = bitmap_test-clear m.bitmap v.bytes page
