-- ===== src/Paging/Steps.antt =====
-- kernel/mm/paging.c: the steps of walk_create_root in a tree of tables.
use nexus_os.Base.{
  ℕ, ◌+◌, ◌-◌, ◌*◌, ◌/◌, ◌%◌, ◌≤◌, ◌<◌, ◌≡◌, inl, inr, refl, ◌∙◌, subst, Bool, true, false, ◌&&◌,
  Option, none, some, arith, Bool-cases, ◌==◌,
}
use nexus_os.Paging.{
  Paging, is_present, is_huge, zero_table, link_to, present_entry, link_table, virt_to_phys_root,
}
use nexus_os.Paging.Tree.{IsTree}
use nexus_os.Paging.Link.{linked, unlinked, link_table-Links, update, with_table, level_ne}
use nexus_os.Paging.Same.{Replaces, link-keeps_phys, cong_root}

-- The tree has grown by tables, and translates every address as before.
pub record Grows (level covers level' covers' : ℕ → ℕ) (root : ℕ) (s s' : Paging) : Type 0 where
  pub tree : IsTree level' covers' root s'
  pub keeps : (a : ℕ) → 0 < level a → (level' a ≡ level a) × (covers' a ≡ covers a)
  pub same : (va : ℕ) → virt_to_phys_root root va s' ≡ virt_to_phys_root root va s

pub stays :
    (level covers : ℕ → ℕ) (root : ℕ) (s : Paging)
    → IsTree level covers root s
    → Grows level covers level covers root s s
stays level covers root s v = record { tree = v; keeps = λ a h. (refl, refl); same = λ va. refl }

pub Grows-trans :
    (l c l1 c1 l2 c2 : ℕ → ℕ) (root : ℕ) (s s1 s2 : Paging)
    → Grows l c l1 c1 root s s1
    → Grows l1 c1 l2 c2 root s1 s2
    → Grows l c l2 c2 root s s2
Grows-trans l c l1 c1 l2 c2 root s s1 s2 g h = record {
  tree = h.tree;
  keeps = λ a pos.
      let first = g.keeps a pos in
      let second = h.keeps a (omega (arith, pos, first.0)) in
      (second.0 ∙ first.0, second.1 ∙ first.1);
  same = λ va. h.same va ∙ g.same va;
}

abbrev pub IsSmall : ℕ → Type 0
IsSmall e = is_huge e ≡ false

abbrev pub IsAny : ℕ → Type 0
IsAny e = Unit

-- One step down from entry i of table t, to the entry e.
pub data Steps (P : ℕ → Type 0) (level covers : ℕ → ℕ) (root t i : ℕ) (s : Paging)
    (r : Option ℕ × Paging) : Type 0 where
  down :
      (level' covers' : ℕ → ℕ) (e : ℕ) (s' : Paging)
      → Grows level covers level' covers' root s s'
      → P e
      → is_present e ≡ true
      → s'.tables t i ≡ e
      → ((a b : ℕ) → 0 < level a → (t == a && i == b) ≡ false → s'.tables a b ≡ s.tables a b)
      → r ≡ (some e, s')
      → Steps P level covers root t i s r
  stuck :
      (s' : Paging)
      → Grows level covers level covers root s s'
      → r ≡ (none, s')
      → Steps P level covers root t i s r

link_odd : (phys : ℕ) → phys % 4096 ≡ 0 → link_to phys % 2 ≡ 1
link_odd phys aligned = omega arith

link_small : (phys : ℕ) → phys % 4096 ≡ 0 → link_to phys / 128 % 2 ≡ 0
link_small phys aligned = omega arith

Steps-weaken :
    {level covers : ℕ → ℕ} {root t i : ℕ} {s : Paging} {r : Option ℕ × Paging}
    → Steps IsSmall level covers root t i s r
    → Steps IsAny level covers root t i s r
Steps-weaken (down l c e s' g small here at other eq) = down l c e s' g tt here at other eq
Steps-weaken (stuck s' g eq) = stuck s' g eq

module _ (level covers : ℕ → ℕ) (root t i : ℕ) (s : Paging) (v : IsTree level covers root s)
    (deep : 2 ≤ level t) (small : i < 512) where
  pub link_table-Steps :
      (f : ℕ → ℕ)
      → Replaces (level t) (s.tables t i) f
      → Steps IsSmall level covers root t i s (link_table t i f s)
  link_table-Steps f replaces =
      elim (link_table-Links level covers root t i f s v deep small (elim replaces [
        | inl (absent, zero_f) ↦ inr zero_f
        | inr (two, here, huge, split_f) ↦ inl two
      ])) [
        | unlinked m tree e ↦
            stuck (record s { pmm = m })
              (record {
                tree = tree;
                keeps = λ a h. (refl, refl);
                same = λ va. cong_root s (record s { pmm = m }) root va refl (λ h. refl);
              })
              e
        | linked phys m bare aligned reach tree e ↦
            down (update level phys (level t - 1)) (update covers phys (covers t * 512 + i))
              (link_to phys) (record s { pmm = m; tables = with_table s.tables t i f phys })
              (record {
                tree = tree;
                keeps = λ a pos. ground (arith, level_ne level a phys 0 bare pos);
                same = λ va.
                    link-keeps_phys level covers root t i f s v deep phys bare aligned reach
                      replaces va _ refl;
              })
              (ground (arith, link_small phys aligned)) (ground (arith, link_odd phys aligned))
              (ground arith)
              (λ a b pos other. ground (arith, level_ne level a phys 0 bare pos, other)) e
      ]

  pub present_entry-Steps :
      (create : Bool) → Steps IsAny level covers root t i s (present_entry create t i s)
  unfolding present_entry
  present_entry-Steps create = elim (Bool-cases (is_present (s.tables t i))) [
    | inl here ↦
        down level covers (s.tables t i) s (stays level covers root s v) tt here refl
          (λ a b pos other. refl) (ground (arith, here))
    | inr absent ↦ elim (Bool-cases create) [
      | inl yes_create ↦
          subst (Steps IsAny level covers root t i s) (ground (arith, absent, yes_create))
            (Steps-weaken (link_table-Steps zero_table (inl (absent, refl))))
      | inr no_create ↦ stuck s (stays level covers root s v) (ground (arith, absent, no_create))
    ]
  ]
