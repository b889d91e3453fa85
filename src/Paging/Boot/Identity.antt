-- ===== src/Paging/Boot/Identity.antt =====
-- kernel/mm/paging.c: where a 2 MiB page of the identity map is seen.
use nexus_os.Base.{
  Option, ◌≤◌, some, none, find_index, find_index-some, length, ltb, Option-cases, [], ◌∷◌, ◌++◌, ℕ,
  ◌+◌, ◌/◌, ◌%◌, ◌<◌, ◌≡◌, ◌≢◌, ◌⊎◌, inl, inr, sym, ap, ◌∙◌, true, false, arith, Bool-cases, ◌==◌,
}
use nexus_os.Paging.{
  Paging, is_present, is_huge, is_reachable, frame, link_to, pml4_index, pdpt_index, pd_index,
  phys_pd, phys_pdpt, virt_to_phys_root, large_base,
}
use nexus_os.Paging.Boot.{
  clear, extra_pd_slots, Statics, put, pd_table_for, map_2m_page, large_entry,
}

-- The tables stand below 4 GiB, in different pages.
pub record IsLayout (st : Statics) : Type 0 where
  pub pml4_reach : is_reachable st.pml4 ≡ true
  pub pdpt_reach : is_reachable st.pdpt ≡ true
  pub pdpt_page : st.pdpt % 4096 ≡ 0
  pub base_reach : (i : ℕ) → i < 4 → is_reachable (st.pd_base i) ≡ true
  pub base_page : (i : ℕ) → i < 4 → st.pd_base i % 4096 ≡ 0
  pub base_pml4 : (i : ℕ) → i < 4 → st.pd_base i ≢ st.pml4
  pub base_pdpt : (i : ℕ) → i < 4 → st.pd_base i ≢ st.pdpt
  pub extra_reach : (i : ℕ) → i < extra_pd_slots → is_reachable (st.pd_extra i) ≡ true
  pub extra_page : (i : ℕ) → i < extra_pd_slots → st.pd_extra i % 4096 ≡ 0
  pub extra_pml4 : (i : ℕ) → i < extra_pd_slots → st.pd_extra i ≢ st.pml4
  pub extra_pdpt : (i : ℕ) → i < extra_pd_slots → st.pd_extra i ≢ st.pdpt
  pub pml4_pdpt : st.pml4 ≢ st.pdpt

-- The upper tables as paging_init builds them; a directory beyond the base range is free.
pub record IsBuilt (st : Statics) (s : Paging) : Type 0 where
  pub at_root : s.tables st.pml4 0 ≡ link_to st.pdpt
  pub at_base :
      (i : ℕ)
      → i < 4
      → (is_present (s.tables st.pdpt i) ≡ false) ⊎ (s.tables st.pdpt i ≡ link_to (st.pd_base i))
  pub at_extra :
      (i slot : ℕ)
      → find_index (λ owner. owner == i) s.owners ≡ some slot
      → s.tables st.pdpt i ≡ link_to (st.pd_extra slot)
  pub room : length s.owners < extra_pd_slots

-- What the tables say of an address through a large page.
large_read :
    (root pdpt pd va e : ℕ) (s : Paging)
    → is_reachable root ≡ true
    → is_reachable pdpt ≡ true
    → is_reachable pd ≡ true
    → pdpt % 4096 ≡ 0
    → pd % 4096 ≡ 0
    → s.tables root (pml4_index va) ≡ link_to pdpt
    → s.tables pdpt (pdpt_index va) ≡ link_to pd
    → s.tables pd (pd_index va) ≡ e
    → is_present e ≡ true
    → is_huge e ≡ true
    → virt_to_phys_root root va s ≡ large_base e + va % 0x200000
unfolding virt_to_phys_root phys_pdpt phys_pd
large_read root pdpt pd va e s r4 r3 r2 a3 a2 e4 e3 e2 here huge =
    let to3 : frame (link_to pdpt) ≡ pdpt = omega (arith, a3) in
    let to2 : frame (link_to pd) ≡ pd = omega (arith, a2) in
    let odd3 : link_to pdpt % 2 ≡ 1 = omega (arith, a3) in
    let odd2 : link_to pd % 2 ≡ 1 = omega (arith, a2) in
    let small2 : link_to pd / 128 % 2 ≡ 0 = omega (arith, a2) in
    rw (e4, to3, e3, to2, e2) (ground (arith, odd3, odd2, small2, here, huge, r4, r3, r2))

large_entry_lem :
    (phys extra : ℕ)
    → phys % 0x200000 ≡ 0
    → phys < 0x1000000000000
    → (extra ≡ 0) ⊎ (extra ≡ 0x18)
    → (large_entry phys extra % 2 ≡ 1)
      × (large_entry phys extra / 128 % 2 ≡ 1)
      × (large_base (large_entry phys extra) ≡ phys)
large_entry_lem phys extra aligned small (inl e) =
    (omega (arith, aligned, e), omega (arith, aligned, e), omega (arith, aligned, small, e))
large_entry_lem phys extra aligned small (inr e) =
    (omega (arith, aligned, e), omega (arith, aligned, e), omega (arith, aligned, small, e))

is_one : (n : ℕ) → n ≡ 1 → (n == 1) ≡ true
is_one n e = ground (arith, e)

-- The tables lead to a page directory for the number of a GiB.
record Leads (st : Statics) (i pd : ℕ) (s : Paging) : Type 0 where
  reach : is_reachable pd ≡ true
  page : pd % 4096 ≡ 0
  from_pml4 : s.tables st.pml4 0 ≡ link_to st.pdpt
  from_pdpt : s.tables st.pdpt i ≡ link_to pd
  not_pml4 : pd ≢ st.pml4
  not_pdpt : pd ≢ st.pdpt

differs : (a b : ℕ) → a ≢ b → (a == b) ≡ false
differs a b apart = ground (arith, apart)

module _ (st : Statics) (phys : ℕ) (s : Paging) (layout : IsLayout st) (built : IsBuilt st s) where
  -- A page directory of the base range.
  base_directory :
      pdpt_index phys < 4
      → (s1 : Paging) × (pd_table_for st phys s ≡ (some (st.pd_base (pdpt_index phys)), s1))
        × Leads st (pdpt_index phys) (st.pd_base (pdpt_index phys)) s1
  unfolding pd_table_for
  base_directory low =
      let i = pdpt_index phys in
      let pd = st.pd_base i in
      let leads : (s1 : Paging)
          → s1.tables st.pml4 0 ≡ link_to st.pdpt
          → s1.tables st.pdpt i ≡ link_to pd
          → Leads st i pd s1 =
        λ s1 e4 e3. record {
          reach = layout.base_reach i low;
          page = layout.base_page i low;
          from_pml4 = e4;
          from_pdpt = e3;
          not_pml4 = layout.base_pml4 i low;
          not_pdpt = layout.base_pdpt i low;
        } in
      let far3 = differs st.pdpt st.pml4 (λ e. layout.pml4_pdpt (sym e)) in
      elim (Bool-cases (is_present (s.tables st.pdpt i))) [
        | inl here ↦
            let linked : s.tables st.pdpt i ≡ link_to pd = elim (built.at_base i low) [
              | inl absent ↦ absurd (cc (here, absent))
              | inr e ↦ e
            ] in
            (s, ground (arith, low, here), leads s built.at_root linked)
        | inr absent ↦ (
          put st.pdpt i (link_to pd) s,
          ground (arith, low, absent),
          leads (put st.pdpt i (link_to pd) s) (ground (arith, far3, built.at_root)) (ground arith),
        )
      ]

  -- One beyond it, which is there or is taken now.
  extra_directory :
      4 ≤ pdpt_index phys
      → (pd : ℕ) × (s1 : Paging) × (pd_table_for st phys s ≡ (some pd, s1))
        × Leads st (pdpt_index phys) pd s1
  unfolding pd_table_for
  extra_directory high =
      let i = pdpt_index phys in
      let leads : (slot : ℕ) (s1 : Paging)
          → slot < extra_pd_slots
          → s1.tables st.pml4 0 ≡ link_to st.pdpt
          → s1.tables st.pdpt i ≡ link_to (st.pd_extra slot)
          → Leads st i (st.pd_extra slot) s1 =
        λ slot s1 small e4 e3. record {
          reach = layout.extra_reach slot small;
          page = layout.extra_page slot small;
          from_pml4 = e4;
          from_pdpt = e3;
          not_pml4 = layout.extra_pml4 slot small;
          not_pdpt = layout.extra_pdpt slot small;
        } in
      elim (Option-cases (find_index (λ owner. owner == i) s.owners)) [
        | inr (slot, taken) ↦
            let (in_list, here, before) =
              find_index-some (λ owner. owner == i) s.owners 0 slot taken in
            (
              st.pd_extra slot,
              s,
              ground (arith, high, taken),
              leads slot s (omega (arith, in_list, built.room)) built.at_root
                  (built.at_extra i slot taken),
            )
        | inl free ↦
            let slot = length s.owners in
            let pd = st.pd_extra slot in
            let far3 = differs st.pdpt st.pml4 (λ e. layout.pml4_pdpt (sym e)) in
            let far = differs pd st.pml4 (layout.extra_pml4 slot built.room) in
            let s1 = record s { owners = s.owners ++ (i ∷ []) } in
            let s2 = put st.pdpt i (link_to pd) (clear pd s1) in
            (
              pd,
              s2,
              ground (arith, high, free, built.room),
              leads slot s2 built.room (ground (arith, far3, far, built.at_root)) (ground arith),
            )
      ]

  directory :
      (pd : ℕ) × (s1 : Paging) × (pd_table_for st phys s ≡ (some pd, s1))
      × Leads st (pdpt_index phys) pd s1
  directory = elim (Bool-cases (ltb (pdpt_index phys) 4)) [
    | inl low ↦
        let (s1, e, leads) = base_directory (ground (arith, low)) in
        (st.pd_base (pdpt_index phys), s1, e, leads)
    | inr high ↦ extra_directory (ground (arith, high))
  ]

map_2m_page_eq :
    (st : Statics) (phys extra pd : ℕ) (s s1 : Paging)
    → pd_table_for st phys s ≡ (some pd, s1)
    → map_2m_page st phys extra s ≡ put pd (pd_index phys) (large_entry phys extra) s1
unfolding map_2m_page
map_2m_page_eq st phys extra pd s s1 e =
    ap
      (λ (r : Option ℕ × Paging). elim (r.0) as (λ _. Paging) [
        | none ↦ r.1
        | some t ↦ put t (pd_index phys) (large_entry phys extra) r.1
      ])
      e

-- Where the static tables stand in different pages below 4 GiB, on the upper tables as paging_init
-- builds them, with an extra page directory free: map_2m_page of an aligned physical address below
-- 2 ^ 48 makes the address modulo 512 GiB translate to it, with the offset in the page, whatever that
-- address translated to before.
pub map_2m_page-sees :
    (st : Statics) (phys extra off : ℕ) (s : Paging)
    → IsLayout st
    → IsBuilt st s
    → phys % 0x200000 ≡ 0
    → phys < 0x1000000000000
    → (extra ≡ 0) ⊎ (extra ≡ 0x18)
    → off < 0x200000
    → virt_to_phys_root st.pml4 (phys % 0x8000000000 + off) (map_2m_page st phys extra s)
      ≡ phys + off
map_2m_page-sees st phys extra off s layout built aligned small flags inside =
    let va = phys % 0x8000000000 + off in
    let i4 : pml4_index va ≡ 0 = omega (arith, inside, aligned) in
    let i3 : pdpt_index va ≡ pdpt_index phys = omega (arith, inside, aligned) in
    let i2 : pd_index va ≡ pd_index phys = omega (arith, inside, aligned) in
    let (odd, huge, base) = large_entry_lem phys extra aligned small flags in
    let part : va % 0x200000 ≡ off = omega (arith, inside, aligned) in
    let (pd, s1, found, leads) = directory st phys s layout built in
    let after = put pd (pd_index phys) (large_entry phys extra) s1 in
    let far4 = differs pd st.pml4 leads.not_pml4 in
    let far3 = differs pd st.pdpt leads.not_pdpt in
    ap (virt_to_phys_root st.pml4 va) (map_2m_page_eq st phys extra pd s s1 found)
    ∙ large_read st.pml4 st.pdpt pd va (large_entry phys extra) after layout.pml4_reach
        layout.pdpt_reach leads.reach layout.pdpt_page leads.page
        (rw i4 (ground (arith, far4, leads.from_pml4)))
        (rw i3 (ground (arith, far3, leads.from_pdpt))) (rw i2 (ground arith))
        (is_one (large_entry phys extra % 2) odd) (is_one (large_entry phys extra / 128 % 2) huge)
    ∙ omega (arith, base, part)
