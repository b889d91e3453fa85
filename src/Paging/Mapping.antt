-- ===== src/Paging/Mapping.antt =====
-- kernel/mm/paging.c: what a page that is mapped or unmapped changes in the translations.
use nexus_os.Base.{
  ℕ, ◌+◌, ◌*◌, ◌/◌, ◌%◌, ◌≤◌, ◌≡◌, ◌≢◌, inl, inr, sym, ap, subst, false, ◌&&◌, arith, Bool-cases,
  ◌==◌,
}
use nexus_os.Paging.{
  Paging, frame, put_entry, pt_index, pd_index, pdpt_index, pml4_index, phys_pt, phys_pd, phys_pdpt,
  virt_to_phys_root,
}
use nexus_os.Paging.Tree.{IsTree}
use nexus_os.Paging.Link.{level_ne}
use nexus_os.Paging.Same.{cong_pd, cong_pdpt, cong_root}
use nexus_os.Paging.Walk.{PdPath, PdptPath, RootPath}

-- The page of an address, of the 2 ^ 36 that four tables tell apart.
abbrev pub page_number : ℕ → ℕ
page_number va = va / 4096 % 0x1000000000

path_pd :
    (t va : ℕ) (s : Paging) (pt : ℕ)
    → PdPath t va s pt
    → phys_pd s.tables t va ≡ phys_pt s.tables pt va
unfolding phys_pd
path_pd t va s pt p = rw p.to_pt (ground (arith, p.reach_pd, p.here_pd, p.small_pd))

path_pdpt :
    (t va : ℕ) (s : Paging) (pt : ℕ)
    → PdptPath t va s pt
    → phys_pdpt s.tables t va ≡ phys_pt s.tables pt va
unfolding phys_pdpt
path_pdpt t va s pt p = ground (
  arith,
  p.reach_pdpt,
  p.here_pdpt,
  p.small_pdpt,
  path_pd (frame (s.tables t (pdpt_index va))) va s pt p.next_pd,
)

pub path_root :
    (t va : ℕ) (s : Paging) (pt : ℕ)
    → RootPath t va s pt
    → virt_to_phys_root t va s ≡ phys_pt s.tables pt va
unfolding virt_to_phys_root
path_root t va s pt p = ground (
  arith,
  p.reach_root,
  p.here_root,
  path_pdpt (frame (s.tables t (pml4_index va))) va s pt p.next_pdpt,
)

-- A write to entry i of a page table.
module _ (level covers : ℕ → ℕ) (root pt i e : ℕ) (s : Paging) (v : IsTree level covers root s)
    (one : level pt ≡ 1) where
  abbrev pub wrote : Paging
  wrote = record s { tables = put_entry s.tables pt i e }

  deep_same : (a b : ℕ) → 2 ≤ level a → wrote.tables a b ≡ s.tables a b
  deep_same a b deep = ground (arith, level_ne level a pt 1 one deep)

  pub wrote-IsTree : IsTree level covers root wrote
  wrote-IsTree = record {
    fits = v.fits;
    root_level = v.root_level;
    root_covers = v.root_covers;
    child = λ t j deep small here side.
        let at = deep_same t j deep in
        rw at (v.child t j deep small (rw (← at) here) (rw (← at) side));
  }

  different : (a va : ℕ) → (pt ≡ a → i ≡ pt_index va → ⊥) → (pt == a && i == pt_index va) ≡ false
  different a va apart = elim (Bool-cases (pt == a && i == pt_index va)) [
    | inr other ↦ other
    | inl both ↦ absurd (apart (ground (arith, both)) (ground (arith, both)))
  ]

  -- The other pages are translated as before.
  other_pt :
      (a va : ℕ)
      → (pt == a && i == pt_index va) ≡ false
      → phys_pt wrote.tables a va ≡ phys_pt s.tables a va
  unfolding phys_pt
  other_pt a va other = ground (arith, other)

  other_pd :
      (a va : ℕ)
      → level a ≡ 2
      → covers pt * 512 + i ≢ (covers a * 512 + pd_index va) * 512 + pt_index va
      → phys_pd wrote.tables a va ≡ phys_pd s.tables a va
  other_pd a va two apart =
      cong_pd wrote.tables s.tables a va (deep_same a (pd_index va) (omega (arith, two)))
        (λ here small.
          let next = frame (s.tables a (pd_index va)) in
          let child = v.child a (pd_index va) (omega (arith, two)) (omega arith) here (inr small) in
          other_pt next va (
            different next va
              (λ same_t same_i. apart (omega (arith, ap covers same_t, same_i, child.1)))))

  other_pdpt :
      (a va : ℕ)
      → level a ≡ 3
      → covers pt * 512 + i
        ≢ ((covers a * 512 + pdpt_index va) * 512 + pd_index va) * 512 + pt_index va
      → phys_pdpt wrote.tables a va ≡ phys_pdpt s.tables a va
  other_pdpt a va three apart =
      cong_pdpt wrote.tables s.tables a va (deep_same a (pdpt_index va) (omega (arith, three)))
        (λ here small.
          let child =
            v.child a (pdpt_index va) (omega (arith, three)) (omega arith) here (inr small) in
          other_pd (frame (s.tables a (pdpt_index va))) va (omega (arith, child.0, three))
            (λ same. apart (omega (arith, same, child.1))))

  pub other_root :
      (va : ℕ)
      → covers pt * 512 + i ≢ page_number va
      → virt_to_phys_root root va wrote ≡ virt_to_phys_root root va s
  other_root va apart =
      cong_root s wrote root va (deep_same root (pml4_index va) (omega (arith, v.root_level)))
        (λ here.
          let child =
            v.child root (pml4_index va) (omega (arith, v.root_level)) (omega arith) here
              (inl v.root_level) in
          other_pdpt (frame (s.tables root (pml4_index va))) va
            (omega (arith, child.0, v.root_level))
            (λ same. apart (omega (arith, same, child.1, v.root_covers))))

  -- The path to the page table is as before.
  still_pd : (a va : ℕ) → level a ≡ 2 → PdPath a va s pt → PdPath a va wrote pt
  still_pd a va two p =
      let at = deep_same a (pd_index va) (omega (arith, two)) in
      record {
        reach_pd = p.reach_pd;
        here_pd = rw at p.here_pd;
        small_pd = rw at p.small_pd;
        to_pt = rw at p.to_pt;
        reach_pt = p.reach_pt;
      }

  still_pdpt : (a va : ℕ) → level a ≡ 3 → PdptPath a va s pt → PdptPath a va wrote pt
  still_pdpt a va three p =
      let at = deep_same a (pdpt_index va) (omega (arith, three)) in
      let child =
        v.child a (pdpt_index va) (omega (arith, three)) (omega arith) p.here_pdpt
          (inr p.small_pdpt) in
      record {
        reach_pdpt = p.reach_pdpt;
        here_pdpt = rw at p.here_pdpt;
        small_pdpt = rw at p.small_pdpt;
        next_pd =
            subst (λ c. PdPath (frame c) va wrote pt) (sym at)
              (still_pd (frame (s.tables a (pdpt_index va))) va (omega (arith, child.0, three))
                p.next_pd);
      }

  pub still_root : (va : ℕ) → RootPath root va s pt → RootPath root va wrote pt
  still_root va p =
      let at = deep_same root (pml4_index va) (omega (arith, v.root_level)) in
      let child =
        v.child root (pml4_index va) (omega (arith, v.root_level)) (omega arith) p.here_root
          (inl v.root_level) in
      record {
        reach_root = p.reach_root;
        here_root = rw at p.here_root;
        next_pdpt =
            subst (λ c. PdptPath (frame c) va wrote pt) (sym at)
              (still_pdpt (frame (s.tables root (pml4_index va))) va
                (omega (arith, child.0, v.root_level)) p.next_pdpt);
      }
