-- ===== src/Pmm/Owner.antt =====
-- Who owns a page: the accounting over any calls, and that no page is handed out twice.
use nexus_os.Base.{
  ℕ, ◌+◌, ◌-◌, ◌*◌, ◌%◌, ◌^◌, ◌<◌, ◌≡◌, ap, ◌∙◌, ◌≢◌, inl, inr, true, some, List, [], ◌∷◌, arith,
  Bool-cases, Option-cases,
}
use nexus_os.Base.Count.{count_free-le, count_free_none}
use nexus_os.Pmm.{
  Pmm, page_size, bitmap_set, bitmap_clear, bitmap_test, give_page, pmm_alloc_page, page_of,
  pmm_free_page, Op, alloc, free, step,
}
use nexus_os.Pmm.Bitmap.{bitmap_set-AreBytes, bitmap_test-set, bitmap_test-clear}
use nexus_os.Pmm.Alloc.{
  is_used, IsExact, taken, lowest, full, pmm_alloc_page-Allocates, pmm_alloc_page-IsExact,
  give_page-IsExact, alloc_idle,
}

pub page_of-some :
    (m : Pmm) (address page : ℕ)
    → page_of m address ≡ some page
    → (page < m.total_pages) × (address ≡ page * page_size)
page_of-some m address page e = ground arith

-- Every allocation and every free keeps the count of free pages exact.
pub step-IsExact : (m : Pmm) (op : Op) → IsExact m → IsExact (step m op).1
unfolding step pmm_free_page
step-IsExact m alloc v = pmm_alloc_page-IsExact m v
step-IsExact m (free address) v = elim (Option-cases (page_of m address)) [
  | inl e ↦ rw (e, pmm_free_page) v
  | inr (page, e) ↦
      rw (e, pmm_free_page) (give_page-IsExact m page v (page_of-some m address page e).0)
]

-- An owned page: used, and not page 0, whose address is the failure value.
pub record IsOwned (m : Pmm) (page : ℕ) : Type 0 where
  pub exact : IsExact m
  pub used : is_used m page ≡ true
  pub not_null : 0 < page

-- Any calls but a free of the page itself.
abbrev pub Spares : ℕ → List Op → Type 0
Spares page [] = Unit
Spares page (alloc ∷ ops) = Spares page ops
Spares page (free address ∷ ops) = (address ≢ page * page_size) × Spares page ops

-- No call returns the page.
abbrev pub NeverReturns : ℕ → Pmm → List Op → Type 0
NeverReturns page m [] = Unit
NeverReturns page m (op ∷ ops) =
    ((step m op).0 ≢ page * page_size) × NeverReturns page (step m op).1 ops

alloc-IsOwned :
    (m : Pmm) (page : ℕ)
    → IsOwned m page
    → ((pmm_alloc_page m).0 ≢ page * page_size) × (is_used (pmm_alloc_page m).1 page ≡ true)
alloc-IsOwned m page o = elim (Bool-cases m.ready) [
  | inr idle ↦ ground (arith, alloc_idle m idle, o.not_null, o.used)
  | inl ready ↦ elim (pmm_alloc_page-Allocates m ready) [
    | lowest p h fresh before e ↦
        let ne : p ≢ page = λ same. cc (ap (is_used m) same) in
        ground (arith, ne, e, o.used, bitmap_test-set m.bitmap o.exact.bytes p page)
    | full all e ↦ ground (arith, o.not_null, o.used)
  ]
]

free-used :
    (m : Pmm) (page address : ℕ)
    → IsOwned m page
    → address ≢ page * page_size
    → is_used (pmm_free_page address m) page ≡ true
unfolding pmm_free_page give_page
free-used m page address o spared = elim (Option-cases (page_of m address)) [
  | inl e ↦ rw (e, pmm_free_page) o.used
  | inr (p, e) ↦ ground (
    arith,
    e,
    o.used,
    page_of-some m address p e,
    bitmap_test-clear m.bitmap o.exact.bytes p page,
  )
]

-- In an allocator whose count of free pages is exact, a page that is in use, other than page 0, is
-- not returned by pmm_alloc_page, whatever pages are allocated and freed meanwhile, as long as its
-- own address is not passed to pmm_free_page.
pub owned-NeverReturns :
    (m : Pmm) (page : ℕ) (ops : List Op)
    → IsOwned m page
    → Spares page ops
    → NeverReturns page m ops
unfolding step
owned-NeverReturns m page [] o spared = tt
owned-NeverReturns m page (alloc ∷ ops) o spared = (
  (alloc-IsOwned m page o).0,
  owned-NeverReturns (step m alloc).1 page ops
      (record {
        exact = step-IsExact m alloc o.exact;
        used = (alloc-IsOwned m page o).1;
        not_null = o.not_null;
      })
      spared,
)
owned-NeverReturns m page (free address ∷ ops) o spared = (
  omega (arith, o.not_null),
  owned-NeverReturns (step m (free address)).1 page ops
      (record {
        exact = step-IsExact m (free address) o.exact;
        used = free-used m page address o spared.0;
        not_null = o.not_null;
      })
      spared.1,
)

-- The state after the page is taken and given back.
abbrev restored : Pmm → ℕ → Pmm
restored m p = record (taken m p) {
  bitmap = bitmap_clear (bitmap_set m.bitmap p) p;
  free_pages = (m.free_pages - 1 + 1) % 2 ^ 64;
}

free-taken :
    (m : Pmm) (p : ℕ)
    → IsExact m
    → m.ready ≡ true
    → p < m.total_pages
    → pmm_free_page (p * page_size) (taken m p) ≡ restored m p
unfolding pmm_free_page give_page
free-taken m p v ready h =
    let found : page_of (taken m p) (p * page_size) ≡ some p = ground (arith, v.small) in
    let used : bitmap_test (bitmap_set m.bitmap p) p ≡ true =
      ground (arith, bitmap_test-set m.bitmap v.bytes p p) in
    rw (found, pmm_free_page) (rw (used, give_page))

-- In a ready allocator with an exact count and a free page, freeing the page that was just
-- allocated leaves the same pages used and the same number free.
pub free-alloc :
    (m : Pmm)
    → IsExact m
    → m.ready ≡ true
    → 0 < m.free_pages
    → let (address, m1) = pmm_alloc_page m in
      ((q : ℕ) → is_used (pmm_free_page address m1) q ≡ is_used m q)
      × ((pmm_free_page address m1).free_pages ≡ m.free_pages)
free-alloc m v ready some_free = elim (pmm_alloc_page-Allocates m ready) [
  | lowest p h fresh before e ↦ (
    λ q.
        ap (λ r. is_used (pmm_free_page r.0 r.1) q) e
        ∙ ap (λ r. is_used r q) (free-taken m p v ready h)
        ∙ ground (
          arith,
          fresh,
          bitmap_test-set m.bitmap v.bytes p q,
          bitmap_test-clear (bitmap_set m.bitmap p) (bitmap_set-AreBytes m.bitmap v.bytes p) p q,
          ap (is_used m) {x = p} {y = q},
        ),
    ap (λ r. (pmm_free_page r.0 r.1).free_pages) e
        ∙ ap (λ r. r.free_pages) (free-taken m p v ready h)
        ∙ omega (arith, v.counted, v.small, count_free-le (is_used m) m.total_pages),
  )
  | full all e ↦ absurd (omega (arith, v.counted, count_free_none (is_used m) m.total_pages all))
]
