-- ===== src/Paging/Same.antt =====
-- kernel/mm/paging.c: a link keeps all translations, when the entry was not present or when the new
-- table has the pages of the 2 MiB entry.
use nexus_os.Base.{
  ℕ, ◌+◌, ◌/◌, ◌%◌, ◌≤◌, ◌<◌, ◌≡◌, ◌⊎◌, inl, inr, refl, sym, ap, ◌∙◌, subst, Bool, true, false,
  ◌&&◌, arith, Bool-cases, ◌==◌, if◌then◌else◌,
}
use nexus_os.Paging.{
  Paging, is_present, is_huge, frame, is_reachable, zero_table, link_to, split_entry, large_base,
  pt_index, pd_index, pdpt_index, pml4_index, phys_pt, phys_pd, phys_pdpt, virt_to_phys_root,
}
use nexus_os.Paging.Tree.{IsTree}
use nexus_os.Paging.Link.{with_table, level_ne}

-- The entry before, against the table that is linked there.
abbrev pub Replaces : ℕ → ℕ → (ℕ → ℕ) → Type 0
Replaces level old f =
    ((is_present old ≡ false) × (f ≡ zero_table))
    ⊎ ((level ≡ 2) × (is_present old ≡ true) × (is_huge old ≡ true) × (f ≡ split_entry old))

phys_pt_zero : (f : ℕ → ℕ → ℕ) (t va : ℕ) → f t (pt_index va) ≡ 0 → phys_pt f t va ≡ 0
unfolding phys_pt
phys_pt_zero f t va e = ground (arith, e)

phys_pd_zero : (f : ℕ → ℕ → ℕ) (t va : ℕ) → f t (pd_index va) ≡ 0 → phys_pd f t va ≡ 0
unfolding phys_pd
phys_pd_zero f t va e = ground (arith, e)

phys_pdpt_zero : (f : ℕ → ℕ → ℕ) (t va : ℕ) → f t (pdpt_index va) ≡ 0 → phys_pdpt f t va ≡ 0
unfolding phys_pdpt
phys_pdpt_zero f t va e = ground (arith, e)

-- The entry for a page in the split of a 2 MiB entry.
split_at :
    (e va : ℕ)
    → is_present e ≡ true
    → is_huge e ≡ true
    → (is_present (split_entry e (pt_index va)) ≡ true)
      × (frame (split_entry e (pt_index va)) + va % 4096 ≡ large_base e + va % 0x200000)
split_at e va here huge =
    let odd : e % 2 ≡ 1 = ground (arith, here) in
    let bit : e / 128 % 2 ≡ 1 = ground (arith, huge) in
    let odd' : split_entry e (pt_index va) % 2 ≡ 1 = omega (arith, odd, bit) in
    (ground (arith, odd'), omega (arith, bit))

-- A table whose entry is a link goes on at the linked table.
link_pd :
    (f : ℕ → ℕ → ℕ) (t phys va : ℕ)
    → phys % 4096 ≡ 0
    → f t (pd_index va) ≡ link_to phys
    → phys_pd f t va ≡ (if is_reachable t then phys_pt f phys va else 0)
unfolding phys_pd
link_pd f t phys va aligned e =
    let to : frame (link_to phys) ≡ phys = omega (arith, aligned) in
    let odd : link_to phys % 2 ≡ 1 = omega (arith, aligned) in
    let small : link_to phys / 128 % 2 ≡ 0 = omega (arith, aligned) in
    rw (e, to) (ground (arith, odd, small))

link_pdpt :
    (f : ℕ → ℕ → ℕ) (t phys va : ℕ)
    → phys % 4096 ≡ 0
    → f t (pdpt_index va) ≡ link_to phys
    → phys_pdpt f t va ≡ (if is_reachable t then phys_pd f phys va else 0)
unfolding phys_pdpt
link_pdpt f t phys va aligned e =
    let to : frame (link_to phys) ≡ phys = omega (arith, aligned) in
    let odd : link_to phys % 2 ≡ 1 = omega (arith, aligned) in
    let small : link_to phys / 128 % 2 ≡ 0 = omega (arith, aligned) in
    rw (e, to) (ground (arith, odd, small))

-- Translations agree at a table when its entries do and the translations at the next table.
pub cong_pd :
    (f g : ℕ → ℕ → ℕ) (t va : ℕ)
    → f t (pd_index va) ≡ g t (pd_index va)
    → (is_present (g t (pd_index va)) ≡ true
        → is_huge (g t (pd_index va)) ≡ false
        → phys_pt f (frame (g t (pd_index va))) va ≡ phys_pt g (frame (g t (pd_index va))) va)
    → phys_pd f t va ≡ phys_pd g t va
unfolding phys_pd
cong_pd f g t va e next = elim (Bool-cases (is_present (g t (pd_index va)))) [
  | inr absent ↦ rw e (ground (arith, absent))
  | inl here ↦ elim (Bool-cases (is_huge (g t (pd_index va)))) [
    | inl huge ↦ rw e (ground (arith, huge))
    | inr small ↦ rw e (ground (arith, next here small, small))
  ]
]

pub cong_pdpt :
    (f g : ℕ → ℕ → ℕ) (t va : ℕ)
    → f t (pdpt_index va) ≡ g t (pdpt_index va)
    → (is_present (g t (pdpt_index va)) ≡ true
        → is_huge (g t (pdpt_index va)) ≡ false
        → phys_pd f (frame (g t (pdpt_index va))) va ≡ phys_pd g (frame (g t (pdpt_index va))) va)
    → phys_pdpt f t va ≡ phys_pdpt g t va
unfolding phys_pdpt
cong_pdpt f g t va e next = elim (Bool-cases (is_present (g t (pdpt_index va)))) [
  | inr absent ↦ rw e (ground (arith, absent))
  | inl here ↦ elim (Bool-cases (is_huge (g t (pdpt_index va)))) [
    | inl huge ↦ rw e (ground (arith, huge))
    | inr small ↦ rw e (ground (arith, next here small, small))
  ]
]

pub cong_root :
    (s s' : Paging) (t va : ℕ)
    → s'.tables t (pml4_index va) ≡ s.tables t (pml4_index va)
    → (is_present (s.tables t (pml4_index va)) ≡ true
        → phys_pdpt s'.tables (frame (s.tables t (pml4_index va))) va
          ≡ phys_pdpt s.tables (frame (s.tables t (pml4_index va))) va)
    → virt_to_phys_root t va s' ≡ virt_to_phys_root t va s
unfolding virt_to_phys_root
cong_root s s' t va e next = elim (Bool-cases (is_present (s.tables t (pml4_index va)))) [
  | inr absent ↦ rw e (ground (arith, absent))
  | inl here ↦ rw e (ground (arith, next here))
]

absent_pd : (f : ℕ → ℕ → ℕ) (t va : ℕ) → is_present (f t (pd_index va)) ≡ false → phys_pd f t va ≡ 0
unfolding phys_pd
absent_pd f t va e = ground (arith, e)

absent_pdpt :
    (f : ℕ → ℕ → ℕ) (t va : ℕ) → is_present (f t (pdpt_index va)) ≡ false → phys_pdpt f t va ≡ 0
unfolding phys_pdpt
absent_pdpt f t va e = ground (arith, e)

if_zero : (b : Bool) (n : ℕ) → n ≡ 0 → (if b then n else 0) ≡ 0
if_zero b n e = ground arith

module _ (level covers : ℕ → ℕ) (root t i : ℕ) (f : ℕ → ℕ) (s : Paging)
    (v : IsTree level covers root s) (deep : 2 ≤ level t) (phys : ℕ) (bare : level phys ≡ 0)
    (aligned : phys % 4096 ≡ 0) (reach : is_reachable phys ≡ true)
    (replaces : Replaces (level t) (s.tables t i) f) where
  abbrev after : ℕ → ℕ → ℕ
  after = with_table s.tables t i f phys

  -- Another entry of an old table is as before.
  kept : (a b : ℕ) → 0 < level a → (t == a && i == b) ≡ false → after a b ≡ s.tables a b
  kept a b deep_a other = ground (arith, level_ne level a phys 0 bare deep_a, other)

  at_new : (b : ℕ) → after phys b ≡ f b
  at_new b = ground (arith, level_ne level t phys 0 bare (omega (arith, deep)))

  at_slot : after t i ≡ link_to phys
  at_slot = ground arith

  same_pt : (a va : ℕ) → level a ≡ 1 → phys_pt after a va ≡ phys_pt s.tables a va
  unfolding phys_pt
  same_pt a va e =
      let apart = level_ne level t a 1 e deep in
      rw (kept a (pt_index va) (omega (arith, e)) (ground (arith, apart))) refl

  slot_at : (j : ℕ) → j ≡ i → after t j ≡ link_to phys
  slot_at j e = ap (after t) e ∙ at_slot

  split_same :
      (va : ℕ)
      → is_reachable phys ≡ true
      → is_present (s.tables t i) ≡ true
      → is_huge (s.tables t i) ≡ true
      → f ≡ split_entry (s.tables t i)
      → pd_index va ≡ i
      → (if is_reachable t then phys_pt after phys va else 0) ≡ phys_pd s.tables t va
  unfolding phys_pt phys_pd
  split_same va reach here huge split_f at =
      let old = s.tables t i in
      let entry : after phys (pt_index va) ≡ split_entry old (pt_index va) =
        at_new (pt_index va) ∙ ap (λ (g : ℕ → ℕ). g (pt_index va)) split_f in
      let (odd, sum) = split_at old va here huge in
      rw (entry, at) (ground (arith, odd, sum, here, huge, reach))

  same_pd_slot :
      (va : ℕ) → level t ≡ 2 → pd_index va ≡ i → phys_pd after t va ≡ phys_pd s.tables t va
  same_pd_slot va e at =
      let through = link_pd after t phys va aligned (slot_at (pd_index va) at) in
      elim replaces [
        | inl (absent, zero_f) ↦
            through
            ∙ if_zero (is_reachable t) (phys_pt after phys va) (
                phys_pt_zero after phys va
                  (at_new (pt_index va) ∙ ap (λ (g : ℕ → ℕ). g (pt_index va)) zero_f))
            ∙ sym (absent_pd s.tables t va (rw at absent))
        | inr (two, here, huge, split_f) ↦ through ∙ split_same va reach here huge split_f at
      ]

  same_pd : (a va : ℕ) → level a ≡ 2 → phys_pd after a va ≡ phys_pd s.tables a va
  same_pd a va e = elim (Bool-cases (t == a && i == pd_index va)) [
    | inl slot ↦
        let same_t : t ≡ a = ground (arith, slot) in
        subst (λ c. phys_pd after c va ≡ phys_pd s.tables c va) same_t
          (same_pd_slot va (ap level same_t ∙ e) (ground (arith, slot)))
    | inr other ↦
        cong_pd after s.tables a va (kept a (pd_index va) (omega (arith, e)) other) (λ here small.
          same_pt (frame (s.tables a (pd_index va))) va (
            omega (
              arith,
              e,
              (v.child a (pd_index va) (omega (arith, e)) (omega arith) here (inr small)).0,
            )))
  ]

  same_pdpt_slot :
      (va : ℕ) → level t ≡ 3 → pdpt_index va ≡ i → phys_pdpt after t va ≡ phys_pdpt s.tables t va
  same_pdpt_slot va e at = elim replaces [
    | inr (two, here, huge, split_f) ↦ absurd (omega (arith, two, e))
    | inl (absent, zero_f) ↦
        link_pdpt after t phys va aligned (slot_at (pdpt_index va) at)
        ∙ if_zero (is_reachable t) (phys_pd after phys va) (
            phys_pd_zero after phys va
              (at_new (pd_index va) ∙ ap (λ (g : ℕ → ℕ). g (pd_index va)) zero_f))
        ∙ sym (absent_pdpt s.tables t va (rw at absent))
  ]

  same_pdpt : (a va : ℕ) → level a ≡ 3 → phys_pdpt after a va ≡ phys_pdpt s.tables a va
  same_pdpt a va e = elim (Bool-cases (t == a && i == pdpt_index va)) [
    | inl slot ↦
        let same_t : t ≡ a = ground (arith, slot) in
        subst (λ c. phys_pdpt after c va ≡ phys_pdpt s.tables c va) same_t
          (same_pdpt_slot va (ap level same_t ∙ e) (ground (arith, slot)))
    | inr other ↦
        cong_pdpt after s.tables a va (kept a (pdpt_index va) (omega (arith, e)) other)
          (λ here small. same_pd (frame (s.tables a (pdpt_index va))) va (
            omega (
              arith,
              e,
              (v.child a (pdpt_index va) (omega (arith, e)) (omega arith) here (inr small)).0,
            )))
  ]

  same_root_slot :
      (va : ℕ) (s' : Paging)
      → s'.tables ≡ after
      → level t ≡ 4
      → pml4_index va ≡ i
      → virt_to_phys_root t va s' ≡ virt_to_phys_root t va s
  unfolding virt_to_phys_root
  same_root_slot va s' tables e at = elim replaces [
    | inr (two, here, huge, split_f) ↦ absurd (omega (arith, two, e))
    | inl (absent, zero_f) ↦
        let at_t : s'.tables t (pml4_index va) ≡ link_to phys =
          ap (λ (g : ℕ → ℕ → ℕ). g t (pml4_index va)) tables ∙ slot_at (pml4_index va) at in
        let to : frame (link_to phys) ≡ phys = omega (arith, aligned) in
        let below : phys_pdpt s'.tables phys va ≡ 0 = phys_pdpt_zero s'.tables phys va (
          ap (λ (g : ℕ → ℕ → ℕ). g phys (pdpt_index va)) tables
          ∙ at_new (pdpt_index va)
          ∙ ap (λ (g : ℕ → ℕ). g (pdpt_index va)) zero_f) in
        let gone : is_present (s.tables t (pml4_index va)) ≡ false = rw at absent in
        rw (at_t, to) (ground (arith, below, gone))
  ]

  pub link-keeps_phys :
      (va : ℕ) (s' : Paging)
      → s'.tables ≡ after
      → virt_to_phys_root root va s' ≡ virt_to_phys_root root va s
  link-keeps_phys va s' tables = elim (Bool-cases (t == root && i == pml4_index va)) [
    | inl slot ↦
        let same_t : t ≡ root = ground (arith, slot) in
        subst (λ c. virt_to_phys_root c va s' ≡ virt_to_phys_root c va s) same_t
          (same_root_slot va s' tables (ap level same_t ∙ v.root_level) (ground (arith, slot)))
    | inr other ↦
        cong_root s s' root va
          (ap (λ (g : ℕ → ℕ → ℕ). g root (pml4_index va)) tables
            ∙ kept root (pml4_index va) (omega (arith, v.root_level)) other)
          (λ here.
            ap (λ (g : ℕ → ℕ → ℕ). phys_pdpt g (frame (s.tables root (pml4_index va))) va) tables
            ∙ same_pdpt (frame (s.tables root (pml4_index va))) va (
                omega (
                  arith,
                  v.root_level,
                  (v.child root (pml4_index va) (omega (arith, v.root_level)) (omega arith) here
                      (inl v.root_level)).0,
                )))
  ]
