-- ===== src/Paging/Reads.antt =====
-- kernel/mm/paging.c: what is read through the entry of a page.
use Prim.Native.Nat.{bit_or, bit_or-bitwise}
use nexus_os.Base.{
  ℕ, ◌+◌, ◌*◌, ◌/◌, ◌%◌, ◌^◌, ◌<◌, ◌≤◌, ◌≡◌, ◌∙◌, ap, subst, inl, inr, true, false, arith, ltb,
  Bool-cases, if◌then◌else◌,
}
use nexus_os.Base.Digits.{bit_or-power}
use nexus_os.Paging.{
  Paging, is_present, is_huge, frame, is_reachable, put_entry, leaf_entry, pt_index, phys_pt,
  virt_to_phys_root, pml4_index, pdpt_index, pd_index,
}
use nexus_os.Paging.Tree.{IsTree}
use nexus_os.Paging.Walk.{PdPath, PdptPath, RootPath}
use nexus_os.Paging.Mapping.{page_number, path_root, still_root}

-- An address in the same page takes the same way.
same_pd :
    (t a b : ℕ) (s : Paging) (pt : ℕ) → pd_index a ≡ pd_index b → PdPath t a s pt → PdPath t b s pt
same_pd t a b s pt e p = record {
  reach_pd = p.reach_pd;
  here_pd = subst (λ j. is_present (s.tables t j) ≡ true) e p.here_pd;
  small_pd = subst (λ j. is_huge (s.tables t j) ≡ false) e p.small_pd;
  to_pt = subst (λ j. frame (s.tables t j) ≡ pt) e p.to_pt;
  reach_pt = p.reach_pt;
}

same_pdpt :
    (t a b : ℕ) (s : Paging) (pt : ℕ)
    → pdpt_index a ≡ pdpt_index b
    → pd_index a ≡ pd_index b
    → PdptPath t a s pt
    → PdptPath t b s pt
same_pdpt t a b s pt e3 e2 p = record {
  reach_pdpt = p.reach_pdpt;
  here_pdpt = subst (λ j. is_present (s.tables t j) ≡ true) e3 p.here_pdpt;
  small_pdpt = subst (λ j. is_huge (s.tables t j) ≡ false) e3 p.small_pdpt;
  next_pd =
      subst (λ j. PdPath (frame (s.tables t j)) b s pt) e3
        (same_pd (frame (s.tables t (pdpt_index a))) a b s pt e2 p.next_pd);
}

same_path :
    (root a b : ℕ) (s : Paging) (pt : ℕ)
    → page_number a ≡ page_number b
    → RootPath root a s pt
    → RootPath root b s pt
same_path root a b s pt same p =
    let e4 : pml4_index a ≡ pml4_index b = omega (arith, same) in
    let e3 : pdpt_index a ≡ pdpt_index b = omega (arith, same) in
    let e2 : pd_index a ≡ pd_index b = omega (arith, same) in
    record {
      reach_root = p.reach_root;
      here_root = subst (λ j. is_present (s.tables root j) ≡ true) e4 p.here_root;
      next_pdpt =
          subst (λ j. PdptPath (frame (s.tables root j)) b s pt) e4
            (same_pdpt (frame (s.tables root (pml4_index a))) a b s pt e3 e2 p.next_pdpt);
    }

pub inside : (va off : ℕ) → va % 4096 ≡ 0 → off < 4096 → page_number va ≡ page_number (va + off)
inside va off at_page small = omega arith

pub leaf_low :
    (pa flags : ℕ) → pa % 4096 ≡ 0 → flags < 4096 → leaf_entry pa flags ≡ pa + (flags / 2 * 2 + 1)
leaf_low pa flags aligned small =
    let none_high : flags / 4096 ≡ 0 = omega (arith, small) in
    rw none_high (omega (arith, bit_or-bitwise 0 (pa / 4096), aligned, small))

-- The address that an entry holds, with the no-execute flag in front.
pub leaf_frame :
    (pa flags : ℕ)
    → pa % 4096 ≡ 0
    → pa < 2 ^ 63
    → flags < 2 ^ 64
    → flags % 2 ^ 63 < 4096
    → frame (leaf_entry pa flags) ≡ pa + flags / 2 ^ 63 * 2 ^ 63
leaf_frame pa flags aligned small word low = elim (Bool-cases (ltb flags 4096)) [
  | inl plain ↦
      let short : flags < 4096 = ground (arith, plain) in
      omega (arith, leaf_low pa flags aligned short, aligned, short)
  | inr nx ↦
      let long : 4096 ≤ flags = ground (arith, nx) in
      let high : flags / 4096 ≡ 2 ^ 51 = omega (arith, long, word, low) in
      omega (
        arith,
        ap (λ h. bit_or h (pa / 4096)) high,
        bit_or-power 51 (pa / 4096) (omega (arith, small)),
        long,
        word,
        low,
        aligned,
      )
]

path_reach_pt : (root va pt : ℕ) (s : Paging) → RootPath root va s pt → is_reachable pt ≡ true
path_reach_pt root va pt s p = p.next_pdpt.next_pd.reach_pt

-- The state after a write of an entry of a page table.
abbrev pub write_leaf : ℕ → ℕ → ℕ → Paging → Paging
write_leaf pt i e s = record s { tables = put_entry s.tables pt i e }

-- What an address of the page of `va` translates to.
pub read_entry :
    (root va b pt : ℕ) (s : Paging)
    → RootPath root va s pt
    → page_number va ≡ page_number b
    → virt_to_phys_root root b s ≡ (
        if is_present (s.tables pt (pt_index va))
        then frame (s.tables pt (pt_index va)) + b % 4096
        else 0)
unfolding phys_pt
read_entry root va b pt s p same =
    let reach = path_reach_pt root va pt s p in
    let e1 : pt_index b ≡ pt_index va = omega (arith, same) in
    path_root root b s pt (same_path root va b s pt same p) ∙ rw e1 (ground (arith, reach))

pub read_written :
    (level covers : ℕ → ℕ) (root va b pt e : ℕ) (s : Paging)
    → IsTree level covers root s
    → level pt ≡ 1
    → RootPath root va s pt
    → page_number va ≡ page_number b
    → virt_to_phys_root root b (write_leaf pt (pt_index va) e s)
      ≡ (if is_present e then frame e + b % 4096 else 0)
read_written level covers root va b pt e s v one p same =
    read_entry root va b pt (write_leaf pt (pt_index va) e s)
      (still_root level covers root pt (pt_index va) e s v one va p) same
    ∙ ground arith

-- The number of a page, from that of its table.
pub number_lem :
    (n va : ℕ)
    → n ≡ (pml4_index va * 512 + pdpt_index va) * 512 + pd_index va
    → n * 512 + pt_index va ≡ page_number va
number_lem n va e = omega (arith, e)
