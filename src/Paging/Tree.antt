-- ===== src/Paging/Tree.antt =====
-- kernel/mm/paging.c: the tables below a root as a tree. `level t` is 4 to 1 for a table, from the
-- root down, and 0 for any other page; `covers t` is the number of the address range of the table,
-- counted in ranges of that level.
use nexus_os.Base.{
  ℕ, suc, ◌+◌, ◌*◌, ◌%◌, ◌≤◌, ◌<◌, ◌≡◌, ◌≢◌, ◌⊎◌, inl, inr, subst, true, false, arith, Bool-cases,
  ◌==◌,
}
use nexus_os.Pmm.{Pmm, page_size, pmm_free_page}
use nexus_os.Pmm.Bitmap.{bitmap_test-set}
use nexus_os.Pmm.Alloc.{
  is_used, IsExact, taken, lowest, full, pmm_alloc_page-Allocates, taken-IsExact, alloc_idle,
}
use nexus_os.Pmm.Release.{pmm_free_page-used, pmm_free_page-total, pmm_free_page-IsExact}
use nexus_os.Paging.{
  Paging, is_present, is_huge, frame, is_reachable, put_table, zero_table, alloc_table_page,
}

-- The allocator gives no page that is a table.
pub record Fits (level : ℕ → ℕ) (m : Pmm) : Type 0 where
  pub exact : IsExact m
  pub free_level :
      (page : ℕ) → page < m.total_pages → is_used m page ≡ false → level (page * page_size) ≡ 0

pub record IsTree (level covers : ℕ → ℕ) (root : ℕ) (s : Paging) : Type 0 where
  pub fits : Fits level s.pmm
  pub root_level : level root ≡ 4
  pub root_covers : covers root ≡ 0
  pub child :
      (t i : ℕ)
      → 2 ≤ level t
      → i < 512
      → is_present (s.tables t i) ≡ true
      → (level t ≡ 4) ⊎ (is_huge (s.tables t i) ≡ false)
      → (suc (level (frame (s.tables t i))) ≡ level t)
        × (covers (frame (s.tables t i)) ≡ covers t * 512 + i)

free-Fits :
    (level : ℕ → ℕ) (m : Pmm) (address : ℕ)
    → Fits level m
    → level address ≡ 0
    → Fits level (pmm_free_page address m)
free-Fits level m address v bare = record {
  exact = pmm_free_page-IsExact m address v.exact;
  free_level = λ page small unused. elim (pmm_free_page-used m address page v.exact unused) [
    | inl before ↦
        v.free_level page (subst (λ n. page < n) (pmm_free_page-total m address) small) before
    | inr same ↦ subst (λ a. level a ≡ 0) same bare
  ];
}

pub taken-Fits :
    (level : ℕ → ℕ) (m : Pmm) (page : ℕ)
    → Fits level m
    → page < m.total_pages
    → is_used m page ≡ false
    → Fits level (taken m page)
taken-Fits level m page v small unused = record {
  exact = taken-IsExact m page v.exact small unused;
  free_level = λ q below free_q.
      v.free_level q below (ground (arith, free_q, bitmap_test-set m.bitmap v.exact.bytes page q));
}

-- What alloc_table_page does: a zeroed page that was no table, or a failure that changes no table.
pub data Takes (level : ℕ → ℕ) (s : Paging) (r : ℕ × Paging) : Type 0 where
  new :
      (phys : ℕ) (m : Pmm)
      → level phys ≡ 0
      → phys % 4096 ≡ 0
      → 0 < phys
      → is_reachable phys ≡ true
      → Fits level m
      → ((page : ℕ) → page < m.total_pages → is_used m page ≡ false → page * page_size ≢ phys)
      → r ≡ (phys, record s { pmm = m; tables = put_table s.tables phys zero_table })
      → Takes level s r
  refused : (m : Pmm) → Fits level m → r ≡ (0, record s { pmm = m }) → Takes level s r

pub alloc_table_page-Takes :
    (level : ℕ → ℕ) (s : Paging) → Fits level s.pmm → Takes level s (alloc_table_page s)
unfolding alloc_table_page
alloc_table_page-Takes level s v = elim (Bool-cases s.pmm.ready) [
  | inr idle ↦ refused s.pmm v (ground (arith, alloc_idle s.pmm idle))
  | inl ready ↦ elim (pmm_alloc_page-Allocates s.pmm ready) [
    | full all e ↦ refused s.pmm v (ground (arith, e))
    | lowest page small unused before e ↦
        let after = taken s.pmm page in
        let kept = taken-Fits level s.pmm page v small unused in
        let bare = v.free_level page small unused in
        elim (Bool-cases (page == 0)) [
          | inl null ↦ refused after kept (ground (arith, e, null))
          | inr page_ok ↦ elim (Bool-cases (is_reachable (page * page_size))) [
            | inl reach ↦
                new (page * page_size) after bare (omega arith) (ground (arith, page_ok)) reach kept
                  (λ q below free_q same.
                    ground (arith, free_q, bitmap_test-set s.pmm.bitmap v.exact.bytes page q, same))
                  (ground (arith, e, page_ok, reach))
            | inr far ↦
                refused (pmm_free_page (page * page_size) after)
                  (free-Fits level after (page * page_size) kept bare)
                  (ground (arith, e, page_ok, far))
          ]
        ]
  ]
]
