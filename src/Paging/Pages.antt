-- ===== src/Paging/Pages.antt =====
-- kernel/mm/paging.c: mapping and unmapping pages.
use nexus_os.Base.{
  ◌^◌, ◌*◌, ◌/◌, Option, some, ap, ℕ, ◌+◌, ◌%◌, ◌<◌, ◌≡◌, ◌≢◌, inl, inr, refl, sym, ◌∙◌, subst,
  Bool, true, false, arith, Bool-cases,
}
use nexus_os.Paging.{
  Paging, is_present, frame, leaf_entry, MapResult, mapped, already, failed, pt_index,
  map_page_root, unmap_page_root, virt_to_phys_root,
}
use nexus_os.Paging.Tree.{IsTree}
use nexus_os.Paging.Walk.{RootPath, finds, misses, walk_create_root-Finds}
use nexus_os.Paging.Mapping.{page_number, wrote-IsTree, other_root}
use nexus_os.Paging.Reads.{leaf_frame, inside, write_leaf, read_entry, read_written, number_lem}
use nexus_os.Paging.Paths.{walk_root-path, walk_reads}

-- The tables below the root form a tree that holds no free page.
pub record IsSpace (root : ℕ) (s : Paging) : Type 0 where
  pub level : ℕ → ℕ
  pub covers : ℕ → ℕ
  pub tree : IsTree level covers root s

-- What map_page_root does to the translations, by its result: the page goes to `target`.
pub data Maps (root va target : ℕ) (s : Paging) (r : MapResult × Paging) : Type 0 where
  maps :
      IsSpace root r.1
      → r.0 ≡ mapped
      → ((off : ℕ)
          → off < 4096
          → (virt_to_phys_root root (va + off) r.1 ≡ target + off)
            × (virt_to_phys_root root (va + off) s ≡ 0))
      → ((a : ℕ)
          → page_number a ≢ page_number va
          → virt_to_phys_root root a r.1 ≡ virt_to_phys_root root a s)
      → Maps root va target s r
  rejects :
      IsSpace root r.1
      → r.0 ≢ mapped
      → ((a : ℕ) → virt_to_phys_root root a r.1 ≡ virt_to_phys_root root a s)
      → Maps root va target s r

-- With any flags the page goes where its new entry says.
pub map_page_root-stores :
    (root va pa flags : ℕ) (s : Paging)
    → IsSpace root s
    → va % 4096 ≡ 0
    → pa % 4096 ≡ 0
    → Maps root va (frame (leaf_entry pa flags)) s (map_page_root root va pa flags s)
unfolding map_page_root
map_page_root-stores root va pa flags s space at_page at_frame =
    let e = leaf_entry pa flags in
    elim (walk_create_root-Finds space.level space.covers root va s space.tree true) [
      | misses l c s1 g eq ↦
          let now : map_page_root root va pa flags s ≡ (failed, s1) =
            ground (arith, eq, at_page, at_frame) in
          subst (Maps root va (frame e) s) (sym now)
            (rejects (record { level = l; covers = c; tree = g.tree }) (λ e. cc) (λ a. g.same a))
      | finds l c pt s1 g one number path above eq ↦
          elim (Bool-cases (is_present (s1.tables pt (pt_index va)))) [
            | inl here ↦
                let now : map_page_root root va pa flags s ≡ (already, s1) =
                  ground (arith, eq, at_page, at_frame, here) in
                subst (Maps root va (frame e) s) (sym now) (
                  rejects (record { level = l; covers = c; tree = g.tree }) (λ e. cc)
                    (λ a. g.same a))
            | inr absent ↦
                let now : map_page_root root va pa flags s
                    ≡ (mapped, write_leaf pt (pt_index va) e s1) =
                  ground (arith, eq, at_page, at_frame, absent) in
                let odd : e % 2 ≡ 1 = omega arith in
                subst (Maps root va (frame e) s) (sym now) (
                  maps
                    (record {
                      level = l;
                      covers = c;
                      tree = wrote-IsTree l c root pt (pt_index va) e s1 g.tree one;
                    })
                    refl
                    (λ off small.
                      let same = inside va off at_page small in
                      let low : (va + off) % 4096 ≡ off = omega (arith, at_page, small) in
                      (
                        read_written l c root va (va + off) pt e s1 g.tree one path same
                            ∙ ground (arith, odd, low),
                        sym (g.same (va + off))
                            ∙ read_entry root va (va + off) pt s1 path same
                            ∙ ground (arith, absent),
                      ))
                    (λ a other.
                      other_root l c root pt (pt_index va) e s1 g.tree one a
                        (λ same. other (sym same ∙ number_lem (c pt) va number))
                      ∙ g.same a))
          ]
    ]

-- Where the tables below the root form a tree that holds no free page, map_page_root on a page and an
-- aligned physical address below 2 ^ 63, with flags of the low 12 bits and the no-execute flag, keeps
-- that so. If it maps, no address of the page translated before, and then each translates to the same
-- offset in the physical page, with the no-execute flag in bit 63 of the result; every other page
-- translates as before. Else nothing changes for any address.
pub map_page_root-Maps :
    (root va pa flags : ℕ) (s : Paging)
    → IsSpace root s
    → va % 4096 ≡ 0
    → pa % 4096 ≡ 0
    → pa < 2 ^ 63
    → flags < 2 ^ 64
    → flags % 2 ^ 63 < 4096
    → Maps root va (pa + flags / 2 ^ 63 * 2 ^ 63) s (map_page_root root va pa flags s)
map_page_root-Maps root va pa flags s space at_page at_frame small word low =
    subst (λ target. Maps root va target s (map_page_root root va pa flags s))
      (leaf_frame pa flags at_frame small word low)
      (map_page_root-stores root va pa flags s space at_page at_frame)

-- The tables lead to a page table with a present entry for the address. No large page does.
pub record IsSmallPage (root va : ℕ) (s : Paging) : Type 0 where
  pub table : ℕ
  pub path : RootPath root va s table
  pub present : is_present (s.tables table (pt_index va)) ≡ true

-- What unmap_page_root does to the translations, by its result.
pub data Unmaps (root va : ℕ) (s : Paging) (r : Bool × Paging) : Type 0 where
  unmaps :
      IsSpace root r.1
      → r.0 ≡ true
      → IsSmallPage root va s
      → ((off : ℕ) → off < 4096 → virt_to_phys_root root (va + off) r.1 ≡ 0)
      → ((a : ℕ)
          → page_number a ≢ page_number va
          → virt_to_phys_root root a r.1 ≡ virt_to_phys_root root a s)
      → Unmaps root va s r
  keeps_all :
      IsSpace root r.1
      → r.0 ≡ false
      → ¬ IsSmallPage root va s
      → ((a : ℕ) → virt_to_phys_root root a r.1 ≡ virt_to_phys_root root a s)
      → Unmaps root va s r

-- Where the tables below the root form a tree, unmap_page_root on a page keeps the tree. When the
-- tables lead to a page table with a present entry for the page, it reports 1: then no address of the
-- page translates any more and every other page translates as before. Else, which includes a page
-- that lies in a large one, it reports 0 and nothing changes for any address.
pub unmap_page_root-Unmaps :
    (root va : ℕ) (s : Paging)
    → IsSpace root s
    → va % 4096 ≡ 0
    → Unmaps root va s (unmap_page_root root va s)
unfolding unmap_page_root
unmap_page_root-Unmaps root va s space at_page =
    elim (walk_create_root-Finds space.level space.covers root va s space.tree false) [
      | misses l c s1 g eq ↦
          let now : unmap_page_root root va s ≡ (false, s1) = ground (arith, eq, at_page) in
          subst (Unmaps root va s) (sym now) (
            keeps_all (record { level = l; covers = c; tree = g.tree }) refl
              (λ p. cc (walk_root-path false root va s p.table p.path)) (λ a. g.same a))
      | finds l c pt s1 g one number path above eq ↦
          let kept : s1 ≡ s = sym (ap (λ (r : Option ℕ × Paging). r.1) eq) ∙ walk_reads root va s in
          elim (Bool-cases (is_present (s1.tables pt (pt_index va)))) [
            | inr absent ↦
                let now : unmap_page_root root va s ≡ (false, s1) =
                  ground (arith, eq, at_page, absent) in
                subst (Unmaps root va s) (sym now) (
                  keeps_all (record { level = l; covers = c; tree = g.tree }) refl
                    (λ p.
                      let one_table : some p.table ≡ some pt =
                        ap (λ (r : Option ℕ × Paging). r.0)
                          (sym (walk_root-path false root va s p.table p.path) ∙ eq) in
                      let entry : is_present (s1.tables p.table (pt_index va)) ≡ true =
                        subst (λ (u : Paging). is_present (u.tables p.table (pt_index va)) ≡ true)
                          (sym kept) p.present in
                      ground (
                        arith,
                        one_table,
                        absent,
                        entry,
                        ap (λ k. is_present (s1.tables k (pt_index va))) {x = p.table} {y = pt},
                      ))
                    (λ a. g.same a))
            | inl here ↦
                let now : unmap_page_root root va s ≡ (true, write_leaf pt (pt_index va) 0 s1) =
                  ground (arith, eq, at_page, here) in
                subst (Unmaps root va s) (sym now) (
                  unmaps
                    (record {
                      level = l;
                      covers = c;
                      tree = wrote-IsTree l c root pt (pt_index va) 0 s1 g.tree one;
                    })
                    refl
                    (subst (IsSmallPage root va) kept
                      (record { table = pt; path = path; present = here }))
                    (λ off small.
                      read_written l c root va (va + off) pt 0 s1 g.tree one path
                        (inside va off at_page small)
                      ∙ ground arith)
                    (λ a other.
                      other_root l c root pt (pt_index va) 0 s1 g.tree one a
                        (λ same. other (sym same ∙ number_lem (c pt) va number))
                      ∙ g.same a))
          ]
    ]
