-- ===== src/Paging/Link.antt =====
-- kernel/mm/paging.c: a new table that is linked into a tree of tables.
use nexus_os.Base.{
  ℕ, suc, ◌+◌, ◌-◌, ◌*◌, ◌%◌, ◌≤◌, ◌<◌, ◌≡◌, ◌≢◌, ◌⊎◌, inl, inr, ap, subst, true, false, ◌&&◌,
  Option, none, some, arith, Bool-cases, ◌==◌, if◌then◌else◌,
}
use nexus_os.Pmm.{Pmm, page_size}
use nexus_os.Pmm.Alloc.{is_used}
use nexus_os.Paging.{
  Paging, is_present, is_huge, frame, is_reachable, put_table, put_entry, zero_table, link_table,
  link_to,
}
use nexus_os.Paging.Tree.{Fits, IsTree, new, refused, alloc_table_page-Takes}

abbrev pub update : (ℕ → ℕ) → ℕ → ℕ → ℕ → ℕ
update f a v b = if a == b then v else f b

-- The tables after the link, and a read of them.
abbrev pub with_table : (ℕ → ℕ → ℕ) → ℕ → ℕ → (ℕ → ℕ) → ℕ → ℕ → ℕ → ℕ
with_table tables t i f phys =
    put_entry (put_table (put_table tables phys zero_table) phys f) t i (link_to phys)

pub level_ne : (level : ℕ → ℕ) (a b n : ℕ) → level b ≡ n → n < level a → (a == b) ≡ false
level_ne level a b n e lt = elim (Bool-cases (a == b)) [
  | inr apart ↦ apart
  | inl same ↦
      let eq : a ≡ b = ground (arith, same) in
      absurd (omega (arith, subst (λ c. n < level c) eq lt, e))
]

-- What a link does to a tree: a table that was none before stands at the entry, or no table changes.
pub data Links (level covers : ℕ → ℕ) (root t i : ℕ) (f : ℕ → ℕ) (s : Paging)
    (r : Option ℕ × Paging) : Type 0 where
  linked :
      (phys : ℕ) (m : Pmm)
      → level phys ≡ 0
      → phys % 4096 ≡ 0
      → is_reachable phys ≡ true
      → IsTree
          (update level phys (level t - 1))
          (update covers phys (covers t * 512 + i))
          root
          (record s { pmm = m; tables = with_table s.tables t i f phys })
      → r ≡ (some (link_to phys), record s { pmm = m; tables = with_table s.tables t i f phys })
      → Links level covers root t i f s r
  unlinked :
      (m : Pmm)
      → IsTree level covers root (record s { pmm = m })
      → r ≡ (none, record s { pmm = m })
      → Links level covers root t i f s r

module _ (level covers : ℕ → ℕ) (root t i : ℕ) (f : ℕ → ℕ) (s : Paging)
    (v : IsTree level covers root s) (deep : 2 ≤ level t) (small : i < 512)
    (blank : (level t ≡ 2) ⊎ (f ≡ zero_table)) where
  linked_child :
      (phys : ℕ)
      → level phys ≡ 0
      → phys % 4096 ≡ 0
      → (a b : ℕ) → 2 ≤ update level phys (level t - 1) a
      → b < 512
      → is_present (with_table s.tables t i f phys a b) ≡ true
      → (update level phys (level t - 1) a ≡ 4)
        ⊎ (is_huge (with_table s.tables t i f phys a b) ≡ false)
      → (suc (update level phys (level t - 1) (frame (with_table s.tables t i f phys a b)))
          ≡ update level phys (level t - 1) a)
        × (update covers phys (covers t * 512 + i) (frame (with_table s.tables t i f phys a b))
            ≡ update covers phys (covers t * 512 + i) a * 512 + b)
  linked_child phys bare aligned a b two below here side = elim (Bool-cases (phys == a)) [
    | inl fresh ↦
        let apart = level_ne level t phys 0 bare (omega (arith, deep)) in
        absurd (elim blank [
          | inl leaf ↦ ground (arith, fresh, two, leaf)
          | inr zero_f ↦ ground (arith, fresh, here, ap (λ (g : ℕ → ℕ). g b) zero_f, apart)
        ])
    | inr old ↦ elim (Bool-cases (t == a && i == b)) [
      | inl slot ↦
          let same_t : t ≡ a = ground (arith, slot) in
          let same_i : i ≡ b = ground (arith, slot) in
          let at : with_table s.tables t i f phys a b ≡ link_to phys = ground (arith, slot) in
          let to_new : frame (link_to phys) ≡ phys = omega (arith, aligned) in
          rw (at, to_new) (ground (arith, old, ap level same_t, ap covers same_t, same_i, deep))
      | inr other ↦
          let at : with_table s.tables t i f phys a b ≡ s.tables a b = ground (arith, other, old) in
          let old_level : update level phys (level t - 1) a ≡ level a = ground (arith, old) in
          let deep_a : 2 ≤ level a = ground (arith, old, two) in
          let (down, number) =
            v.child a b deep_a below (ground (arith, at, here)) (rw (← old_level, ← at) side) in
          let apart : (phys == frame (s.tables a b)) ≡ false = ground (
            arith,
            level_ne level (frame (s.tables a b)) phys 0 bare (omega (arith, deep_a, down)),
          ) in
          rw at (ground (arith, old, apart, down, number))
    ]
  ]

  linked-IsTree :
      (phys : ℕ) (m : Pmm)
      → level phys ≡ 0
      → phys % 4096 ≡ 0
      → Fits level m
      → ((page : ℕ) → page < m.total_pages → is_used m page ≡ false → page * page_size ≢ phys)
      → IsTree
          (update level phys (level t - 1))
          (update covers phys (covers t * 512 + i))
          root
          (record s { pmm = m; tables = with_table s.tables t i f phys })
  linked-IsTree phys m bare aligned fits apart = record {
    fits = record {
      exact = fits.exact;
      free_level = λ page below unused.
          ground (arith, fits.free_level page below unused, apart page below unused);
    };
    root_level = ground (arith, v.root_level, bare);
    root_covers = ground (arith, v.root_covers, v.root_level, bare, ap level);
    child = linked_child phys bare aligned;
  }

  pub link_table-Links : Links level covers root t i f s (link_table t i f s)
  unfolding link_table
  link_table-Links = elim (alloc_table_page-Takes level s v.fits) [
    | refused m fits e ↦
        unlinked m
          (record {
            fits = fits;
            root_level = v.root_level;
            root_covers = v.root_covers;
            child = v.child;
          })
          (ground (arith, e))
    | new phys m bare aligned positive reach fits apart e ↦
        linked phys m bare aligned reach (linked-IsTree phys m bare aligned fits apart)
          (ground (arith, e, positive))
  ]
