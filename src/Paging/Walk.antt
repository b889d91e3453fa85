-- ===== src/Paging/Walk.antt =====
-- kernel/mm/paging.c: walk_create_root in a tree of tables.
use nexus_os.Base.{
  ℕ, ◌+◌, ◌*◌, ◌≤◌, ◌≡◌, inl, inr, sym, ap, ◌∙◌, subst, Bool, true, false, ◌&&◌, Option, none, some,
  arith, Bool-cases, ◌==◌,
}
use nexus_os.Paging.{
  Paging, is_present, is_huge, frame, is_reachable, split_entry, table_at, table_below, pd_index,
  pdpt_index, pml4_index, walk_pd, walk_pdpt, walk_create_root,
}
use nexus_os.Paging.Tree.{IsTree}
use nexus_os.Paging.Link.{level_ne}
use nexus_os.Paging.Steps.{
  Grows, Grows-trans, stays, down, stuck, link_table-Steps, present_entry-Steps,
}

-- The walk to the page table of an address: what the tables say on the way, from table t on.
pub data Finds (high : ℕ) (level covers : ℕ → ℕ) (root number : ℕ) (s : Paging)
    (Path' : Paging → ℕ → Type 0) (r : Option ℕ × Paging) : Type 0 where
  finds :
      (level' covers' : ℕ → ℕ) (pt : ℕ) (s' : Paging)
      → Grows level covers level' covers' root s s'
      → level' pt ≡ 1
      → covers' pt ≡ number
      → Path' s' pt
      → ((a b : ℕ) → high ≤ level a → s'.tables a b ≡ s.tables a b)
      → r ≡ (some pt, s')
      → Finds high level covers root number s Path' r
  misses :
      (level' covers' : ℕ → ℕ) (s' : Paging)
      → Grows level covers level' covers' root s s'
      → r ≡ (none, s')
      → Finds high level covers root number s Path' r

-- What is read on the way down.
pub record PdPath (t va : ℕ) (s : Paging) (pt : ℕ) : Type 0 where
  pub reach_pd : is_reachable t ≡ true
  pub here_pd : is_present (s.tables t (pd_index va)) ≡ true
  pub small_pd : is_huge (s.tables t (pd_index va)) ≡ false
  pub to_pt : frame (s.tables t (pd_index va)) ≡ pt
  pub reach_pt : is_reachable pt ≡ true

module _ (level covers : ℕ → ℕ) (root t va : ℕ) (s : Paging) (v : IsTree level covers root s)
    (two : level t ≡ 2) where
  abbrev pd_number : ℕ
  pd_number = covers t * 512 + pd_index va

  -- An entry that is small leads to the table for the address.
  small_Finds :
      (level' covers' : ℕ → ℕ) (e : ℕ) (s' : Paging)
      → Grows level covers level' covers' root s s'
      → is_reachable t ≡ true
      → is_present e ≡ true
      → is_huge e ≡ false
      → s'.tables t (pd_index va) ≡ e
      → ((a b : ℕ) → 3 ≤ level a → s'.tables a b ≡ s.tables a b)
      → Finds 3 level covers root pd_number s (PdPath t va) (table_at (frame e), s')
  small_Finds level' covers' e s' g reach here small at above =
      elim (Bool-cases (is_reachable (frame e))) [
        | inr far ↦ misses level' covers' s' g (ground (arith, far))
        | inl near ↦
            let kept = g.keeps t (omega (arith, two)) in
            let below =
              g.tree.child t (pd_index va) (omega (arith, kept.0, two)) (omega arith) (rw at here)
                (inr (rw at small)) in
            finds level' covers' (frame e) s' g
              (ap level' (ap frame (sym at)) ∙ omega (arith, below.0, kept.0, two))
              (ap covers' (ap frame (sym at)) ∙ omega (arith, below.1, kept.1))
              (record {
                reach_pd = reach;
                here_pd = rw at here;
                small_pd = rw at small;
                to_pt = ap frame at;
                reach_pt = near;
              })
              above (ground (arith, near))
      ]

  above_pd : (a b : ℕ) → 3 ≤ level a → (t == a && pd_index va == b) ≡ false
  above_pd a b high = ground (arith, level_ne level a t 2 two high)

  table_below-Finds :
      (create : Bool) (l1 c1 : ℕ → ℕ) (e : ℕ) (s1 : Paging)
      → Grows level covers l1 c1 root s s1
      → is_reachable t ≡ true
      → is_present e ≡ true
      → s1.tables t (pd_index va) ≡ e
      → ((a b : ℕ) → 3 ≤ level a → s1.tables a b ≡ s.tables a b)
      → Finds 3 level covers root pd_number s
          (PdPath t va)
          (table_below create t (pd_index va) e s1)
  table_below-Finds create l1 c1 e s1 g reach here at above = elim (Bool-cases (is_huge e)) [
    | inr small ↦
        subst (Finds 3 level covers root pd_number s (PdPath t va)) (ground (arith, small))
          (small_Finds l1 c1 e s1 g reach here small at above)
    | inl huge ↦ elim (Bool-cases create) [
      | inr no_create ↦ misses l1 c1 s1 g (ground (arith, huge, no_create))
      | inl yes_create ↦
          let two1 : l1 t ≡ 2 = (g.keeps t (omega (arith, two))).0 ∙ two in
          elim (link_table-Steps l1 c1 root t (pd_index va) s1 g.tree (omega (arith, two1))
            (omega arith) (split_entry e)
            (inr (two1, rw at here, rw at huge, ap split_entry (sym at)))) [
              | stuck s2 h eq ↦
                  misses l1 c1 s2 (Grows-trans level covers l1 c1 l1 c1 root s s1 s2 g h)
                    (ground (arith, huge, yes_create, eq))
              | down l2 c2 e2 s2 h small here2 at2 other2 eq ↦
                  subst (Finds 3 level covers root pd_number s (PdPath t va))
                    (ground (arith, huge, yes_create, eq))
                    (small_Finds l2 c2 e2 s2 (Grows-trans level covers l1 c1 l2 c2 root s s1 s2 g h)
                      reach here2 small at2
                      (λ a b high.
                        let kept = g.keeps a (omega (arith, high)) in
                        other2 a b (omega (arith, kept.0, high)) (above_pd a b high)
                        ∙ above a b high))
            ]
    ]
  ]

  pub walk_pd-Finds :
      (create : Bool) → Finds 3 level covers root pd_number s (PdPath t va) (walk_pd create t va s)
  unfolding walk_pd
  walk_pd-Finds create = elim (Bool-cases (is_reachable t)) [
    | inr far ↦ misses level covers s (stays level covers root s v) (ground (arith, far))
    | inl reach ↦
        elim (present_entry-Steps level covers root t (pd_index va) s v (omega (arith, two))
          (omega arith) create) [
            | stuck s' g eq ↦ misses level covers s' g (ground (arith, reach, eq))
            | down l1 c1 e s1 g any here at other eq ↦
                let now : walk_pd create t va s ≡ table_below create t (pd_index va) e s1 =
                  ground (arith, reach, eq) in
                subst (Finds 3 level covers root pd_number s (PdPath t va)) (sym now) (
                  table_below-Finds create l1 c1 e s1 g reach here at
                    (λ a b high. other a b (omega (arith, high)) (above_pd a b high)))
          ]
  ]

-- The same from a page directory pointer table on.
pub record PdptPath (t va : ℕ) (s : Paging) (pt : ℕ) : Type 0 where
  pub reach_pdpt : is_reachable t ≡ true
  pub here_pdpt : is_present (s.tables t (pdpt_index va)) ≡ true
  pub small_pdpt : is_huge (s.tables t (pdpt_index va)) ≡ false
  pub next_pd : PdPath (frame (s.tables t (pdpt_index va))) va s pt

module _ (level covers : ℕ → ℕ) (root t va : ℕ) (s : Paging) (v : IsTree level covers root s)
    (three : level t ≡ 3) where
  abbrev pdpt_number : ℕ
  pdpt_number = (covers t * 512 + pdpt_index va) * 512 + pd_index va

  above_pdpt : (a b : ℕ) → 4 ≤ level a → (t == a && pdpt_index va == b) ≡ false
  above_pdpt a b high = ground (arith, level_ne level a t 3 three high)

  pub walk_pdpt-Finds :
      (create : Bool)
      → Finds 4 level covers root pdpt_number s (PdptPath t va) (walk_pdpt create t va s)
  unfolding walk_pdpt
  walk_pdpt-Finds create = elim (Bool-cases (is_reachable t)) [
    | inr far ↦ misses level covers s (stays level covers root s v) (ground (arith, far))
    | inl reach ↦
        elim (present_entry-Steps level covers root t (pdpt_index va) s v (omega (arith, three))
          (omega arith) create) [
            | stuck s' g eq ↦ misses level covers s' g (ground (arith, reach, eq))
            | down l1 c1 e s1 g any here at other eq ↦ elim (Bool-cases (is_huge e)) [
              | inl huge ↦ misses l1 c1 s1 g (ground (arith, reach, eq, huge))
              | inr small ↦
                  let kept = g.keeps t (omega (arith, three)) in
                  let below =
                    g.tree.child t (pdpt_index va) (omega (arith, kept.0, three)) (omega arith)
                      (rw at here) (inr (rw at small)) in
                  let two : l1 (frame e) ≡ 2 =
                    ap l1 (ap frame (sym at)) ∙ omega (arith, below.0, kept.0, three) in
                  let number : c1 (frame e) ≡ covers t * 512 + pdpt_index va =
                    ap c1 (ap frame (sym at)) ∙ omega (arith, below.1, kept.1) in
                  elim (walk_pd-Finds l1 c1 root (frame e) va s1 g.tree two create) [
                    | misses l2 c2 s2 h eq2 ↦
                        misses l2 c2 s2 (Grows-trans level covers l1 c1 l2 c2 root s s1 s2 g h)
                          (ground (arith, reach, eq, small, eq2))
                    | finds l2 c2 pt s2 h one covered path above eq2 ↦
                        let still : s2.tables t (pdpt_index va) ≡ e =
                          above t (pdpt_index va) (omega (arith, kept.0, three)) ∙ at in
                        finds l2 c2 pt s2 (Grows-trans level covers l1 c1 l2 c2 root s s1 s2 g h)
                          one (covered ∙ omega (arith, number))
                          (record {
                            reach_pdpt = reach;
                            here_pdpt = rw still here;
                            small_pdpt = rw still small;
                            next_pd = subst (λ c. PdPath (frame c) va s2 pt) (sym still) path;
                          })
                          (λ a b high.
                            above a b (omega (arith, (g.keeps a (omega (arith, high))).0, high))
                            ∙ other a b (omega (arith, high)) (above_pdpt a b high))
                          (ground (arith, reach, eq, small, eq2))
                  ]
            ]
          ]
  ]

-- And from the root on.
pub record RootPath (t va : ℕ) (s : Paging) (pt : ℕ) : Type 0 where
  pub reach_root : is_reachable t ≡ true
  pub here_root : is_present (s.tables t (pml4_index va)) ≡ true
  pub next_pdpt : PdptPath (frame (s.tables t (pml4_index va))) va s pt

module _ (level covers : ℕ → ℕ) (root va : ℕ) (s : Paging) (v : IsTree level covers root s) where
  abbrev root_number : ℕ
  root_number = (pml4_index va * 512 + pdpt_index va) * 512 + pd_index va

  above_root : (a b : ℕ) → 5 ≤ level a → (root == a && pml4_index va == b) ≡ false
  above_root a b high = ground (arith, level_ne level a root 4 v.root_level high)

  pub walk_create_root-Finds :
      (create : Bool)
      → Finds 5 level covers root root_number s
          (RootPath root va)
          (walk_create_root create root va s)
  unfolding walk_create_root
  walk_create_root-Finds create = elim (Bool-cases (is_reachable root)) [
    | inr far ↦ misses level covers s (stays level covers root s v) (ground (arith, far))
    | inl reach ↦
        elim (present_entry-Steps level covers root root (pml4_index va) s v
          (omega (arith, v.root_level)) (omega arith) create) [
            | stuck s' g eq ↦ misses level covers s' g (ground (arith, reach, eq))
            | down l1 c1 e s1 g any here at other eq ↦
                let kept = g.keeps root (omega (arith, v.root_level)) in
                let below =
                  g.tree.child root (pml4_index va) (omega (arith, g.tree.root_level)) (omega arith)
                    (rw at here) (inl g.tree.root_level) in
                let three : l1 (frame e) ≡ 3 =
                  ap l1 (ap frame (sym at)) ∙ omega (arith, below.0, g.tree.root_level) in
                let number : c1 (frame e) ≡ pml4_index va =
                  ap c1 (ap frame (sym at)) ∙ omega (arith, below.1, g.tree.root_covers) in
                elim (walk_pdpt-Finds l1 c1 root (frame e) va s1 g.tree three create) [
                  | misses l2 c2 s2 h eq2 ↦
                      misses l2 c2 s2 (Grows-trans level covers l1 c1 l2 c2 root s s1 s2 g h)
                        (ground (arith, reach, eq, eq2))
                  | finds l2 c2 pt s2 h one covered path above eq2 ↦
                      let still : s2.tables root (pml4_index va) ≡ e =
                        above root (pml4_index va) (omega (arith, g.tree.root_level)) ∙ at in
                      finds l2 c2 pt s2 (Grows-trans level covers l1 c1 l2 c2 root s s1 s2 g h) one
                        (covered ∙ omega (arith, number))
                        (record {
                          reach_root = reach;
                          here_root = rw still here;
                          next_pdpt = subst (λ c. PdptPath (frame c) va s2 pt) (sym still) path;
                        })
                        (λ a b high.
                          above a b (omega (arith, (g.keeps a (omega (arith, high))).0, high))
                          ∙ other a b (omega (arith, high)) (above_root a b high))
                        (ground (arith, reach, eq, eq2))
                ]
          ]
  ]
