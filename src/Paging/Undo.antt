-- ===== src/Paging/Undo.antt =====
-- kernel/mm/paging.c: a page that is mapped and unmapped again.
use nexus_os.Base.{
  ℕ, ◌+◌, ◌*◌, ◌%◌, ◌≡◌, ◌≢◌, inl, inr, sym, ap, ◌∙◌, Bool, true, false, arith, Bool-cases, ◌==◌,
  if◌then◌else◌,
}
use nexus_os.Paging.{
  Paging, is_present, put_entry, leaf_entry, mapped, pt_index, map_page_root, unmap_page_root,
  virt_to_phys_root,
}
use nexus_os.Paging.Walk.{RootPath, finds, misses, walk_create_root-Finds}
use nexus_os.Paging.Mapping.{page_number, wrote-IsTree, other_root, still_root}
use nexus_os.Paging.Reads.{write_leaf, read_entry, read_written, number_lem}
use nexus_os.Paging.Pages.{IsSpace}
use nexus_os.Paging.Paths.{walk_root-path}

not_same : (m n k : ℕ) → (m == n) ≡ false → k ≡ m → k ≢ n
not_same m n k apart e same = ground (arith, apart, e, same)

absent_zero : (b : Bool) (n : ℕ) → b ≡ false → (if b then n else 0) ≡ 0
absent_zero b n e = ground (arith, e)

-- Where the tables and the entry are there, unmap_page_root clears the entry.
unmap_there :
    (root va : ℕ) (s : Paging) (pt : ℕ)
    → RootPath root va s pt
    → va % 4096 ≡ 0
    → is_present (s.tables pt (pt_index va)) ≡ true
    → unmap_page_root root va s ≡ (true, write_leaf pt (pt_index va) 0 s)
unfolding unmap_page_root
unmap_there root va s pt path at_page here =
    ground (arith, walk_root-path false root va s pt path, at_page, here)

put_same : (f : ℕ → ℕ → ℕ) (t i e : ℕ) → put_entry f t i e t i ≡ e
put_same f t i e = ground arith

are_equal : (m n : ℕ) → (m == n) ≡ true → m ≡ n
are_equal m n e = ground (arith, e)

odd_present : (e : ℕ) → e % 2 ≡ 1 → is_present e ≡ true
odd_present e odd = ground (arith, odd)

-- When map_page_root has mapped a page, unmap_page_root of the page reports 1, and every address
-- translates as it did before the two calls.
pub unmap-map :
    (root va pa flags : ℕ) (s : Paging)
    → IsSpace root s
    → va % 4096 ≡ 0
    → pa % 4096 ≡ 0
    → (map_page_root root va pa flags s).0 ≡ mapped
    → ((unmap_page_root root va (map_page_root root va pa flags s).1).0 ≡ true)
      × ((a : ℕ)
          → virt_to_phys_root root a
              (unmap_page_root root va (map_page_root root va pa flags s).1).1
            ≡ virt_to_phys_root root a s)
unfolding map_page_root
unmap-map root va pa flags s space at_page at_frame done =
    elim (walk_create_root-Finds space.level space.covers root va s space.tree true) [
      | misses l c s1 g eq ↦ absurd (ground (arith, eq, at_page, at_frame, done))
      | finds l c pt s1 g one number path above eq ↦
          elim (Bool-cases (is_present (s1.tables pt (pt_index va)))) [
            | inl here ↦ absurd (ground (arith, eq, at_page, at_frame, here, done))
            | inr absent ↦
                let e = leaf_entry pa flags in
                let i = pt_index va in
                let s2 = write_leaf pt i e s1 in
                let s3 = write_leaf pt i 0 s2 in
                let tree2 = wrote-IsTree l c root pt i e s1 g.tree one in
                let path2 = still_root l c root pt i e s1 g.tree one va path in
                let now : map_page_root root va pa flags s ≡ (mapped, s2) =
                  ground (arith, eq, at_page, at_frame, absent) in
                let odd : e % 2 ≡ 1 = omega arith in
                let there : is_present (s2.tables pt i) ≡ true =
                  rw (put_same s1.tables pt i e) (odd_present e odd) in
                let then_ : unmap_page_root root va s2 ≡ (true, s3) =
                  unmap_there root va s2 pt path2 at_page there in
                let both : unmap_page_root root va (map_page_root root va pa flags s).1
                    ≡ (true, s3) =
                  ap (λ r. unmap_page_root root va r.1) now ∙ then_ in
                (
                  ap (λ r. r.0) both,
                  λ a.
                      ap (λ r. virt_to_phys_root root a r.1) both
                      ∙ elim (Bool-cases (page_number va == page_number a)) [
                        | inl same ↦
                            let eq_page : page_number va ≡ page_number a =
                              are_equal (page_number va) (page_number a) same in
                            read_written l c root va a pt 0 s2 tree2 one path2 eq_page
                            ∙ sym (read_entry root va a pt s1 path eq_page ∙ absent_zero _ _ absent)
                            ∙ g.same a
                        | inr apart ↦
                            let number_of = number_lem (c pt) va number in
                            let other : c pt * 512 + i ≢ page_number a =
                              not_same (page_number va) (page_number a) _ apart number_of in
                            other_root l c root pt i 0 s2 tree2 one a other
                            ∙ other_root l c root pt i e s1 g.tree one a other
                            ∙ g.same a
                      ],
                )
          ]
    ]
