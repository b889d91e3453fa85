-- ===== src/Pmm/Release.antt =====
-- pmm_free_page: which pages are free afterwards.
use nexus_os.Base.{ℕ, ◌*◌, ◌≡◌, ◌⊎◌, inl, inr, false, arith, Bool-cases, Option-cases, ◌==◌}
use nexus_os.Pmm.{Pmm, page_size, bitmap_test, give_page, page_of, pmm_free_page, step, free}
use nexus_os.Pmm.Bitmap.{bitmap_test-clear}
use nexus_os.Pmm.Alloc.{is_used, IsExact}
use nexus_os.Pmm.Owner.{step-IsExact, page_of-some}

give_page-used :
    (m : Pmm) (page q : ℕ)
    → IsExact m
    → is_used (give_page page m) q ≡ false
    → (is_used m q ≡ false) ⊎ (page ≡ q)
unfolding give_page
give_page-used m page q v e = elim (Bool-cases (bitmap_test m.bitmap page)) [
  | inr was_free ↦ inl (ground (arith, was_free, e))
  | inl used ↦ elim (Bool-cases (page == q)) [
    | inl same ↦ inr (ground (arith, same))
    | inr apart ↦ inl (ground (arith, used, apart, e, bitmap_test-clear m.bitmap v.bytes page q))
  ]
]

-- A page that is free after a call was free before it or is the page of the call.
pub pmm_free_page-used :
    (m : Pmm) (address page : ℕ)
    → IsExact m
    → is_used (pmm_free_page address m) page ≡ false
    → (is_used m page ≡ false) ⊎ (address ≡ page * page_size)
unfolding pmm_free_page
pmm_free_page-used m address page v e = elim (Option-cases (page_of m address)) [
  | inl none_at ↦ inl (ground (arith, none_at, e))
  | inr (p, at) ↦ elim (give_page-used m p page v (ground (arith, at, e))) [
    | inl before ↦ inl before
    | inr same ↦ inr (ground (arith, same, page_of-some m address p at))
  ]
]

pub pmm_free_page-total :
    (m : Pmm) (address : ℕ) → (pmm_free_page address m).total_pages ≡ m.total_pages
unfolding pmm_free_page give_page
pmm_free_page-total m address = ground arith

pub pmm_free_page-IsExact : (m : Pmm) (address : ℕ) → IsExact m → IsExact (pmm_free_page address m)
unfolding step
pmm_free_page-IsExact m address v = step-IsExact m (free address) v
