-- ===== src/Heap/Alloc.antt =====
-- kmalloc adds a block to the allocated blocks.
use nexus_os.Base.{
  ℕ, zero, suc, ◌+◌, ◌*◌, ◌≤◌, ◌<◌, ◌≡◌, ◌≢◌, ◌⊎◌, refl, sym, ap, ◌∙◌, Bool, true, not, ◌&&◌, ◌||◌,
  Option, none, some, List, [], ◌∷◌, ◌++◌, inl, inr, arith, ◌==◌, leb, length, subst, Bool-cases,
  Option-cases, append-nil,
}
use nexus_os.Heap.{
  Block, Heap, header_size, heap_base, is_free, sub64, max_blocks, align_size, first_fit, reuse,
  append_block, no_room, pages_for_block, grow, kmalloc,
}
use nexus_os.Heap.Merge.{used_free}
use nexus_os.Heap.Layout.{Tiled, used, used-append}
use nexus_os.Heap.Pages.{PageServices, map_new_pages, heap_page_size}
use nexus_os.Heap.Valid.{Holds, heap_validate_good}
use nexus_os.Heap.Split.{Added, reuse-Added}
use nexus_os.Heap.Grow.{append_block-Holds}

-- The block that the walk of kmalloc finds.
first_fit-some :
    (fuel : ℕ) (h : Heap) (r : ℕ) (prev p : Option ℕ) (a e x : ℕ) (xs : List ℕ)
    → Tiled h.blocks prev p a e xs
    → first_fit fuel h r p ≡ some x
    → (ys zs : List ℕ) × (xs ≡ ys ++ (x ∷ zs))
      × (is_free (h.blocks x) ≡ true)
      × (r ≤ (h.blocks x).capacity)
unfolding Tiled first_fit
first_fit-some fuel h r prev p a e x [] t found = absurd (ground (arith, t.0, found))
first_fit-some zero h r prev p a e x (w ∷ xs) t found = absurd (ground (arith, t.0, found))
first_fit-some (suc fuel) h r prev p a e x (w ∷ xs) t found =
    elim (Bool-cases (is_free (h.blocks w) && leb r (h.blocks w).capacity)) [
      | inl fit ↦
          let same : w ≡ x = ground (arith, t.0, found, fit) in
          (
            [],
            xs,
            ap (λ q. q ∷ xs) same,
            subst (λ q. is_free (h.blocks q) ≡ true) same (ground (arith, fit)),
            subst (λ q. r ≤ (h.blocks q).capacity) same (ground (arith, fit)),
          )
      | inr unfit ↦
          let end = w + header_size + (h.blocks w).capacity in
          let (ys, zs, split, free, fits) =
            first_fit-some fuel h r (some w) (h.blocks w).next end e x xs t.3
              (ground (arith, t.0, found, unfit)) in
          (w ∷ ys, zs, ap (◌∷◌ w) split, free, fits)
    ]

-- No free block has so many bytes.
unfoldable pub none_fits : (ℕ → Block) → ℕ → List ℕ → Bool
none_fits f r [] = true
none_fits f r (x ∷ xs) = not (is_free (f x) && leb r (f x).capacity) && none_fits f r xs

first_fit-none :
    (fuel : ℕ) (h : Heap) (r : ℕ) (prev p : Option ℕ) (a e : ℕ) (xs : List ℕ)
    → Tiled h.blocks prev p a e xs
    → length xs ≤ fuel
    → first_fit fuel h r p ≡ none
    → none_fits h.blocks r xs ≡ true
unfolding Tiled first_fit none_fits
first_fit-none fuel h r prev p a e [] t enough found = refl
first_fit-none zero h r prev p a e (w ∷ xs) t enough found = absurd (omega arith)
first_fit-none (suc fuel) h r prev p a e (w ∷ xs) t enough found =
    elim (Bool-cases (is_free (h.blocks w) && leb r (h.blocks w).capacity)) [
      | inl fit ↦ absurd (ground (arith, t.0, found, fit))
      | inr unfit ↦
          let end = w + header_size + (h.blocks w).capacity in
          let rest =
            first_fit-none fuel h r (some w) (h.blocks w).next end e xs t.3 (omega (arith, enough))
              (ground (arith, t.0, found, unfit)) in
          ground (arith, unfit, rest)
    ]

align_size-le : (size : ℕ) → align_size size ≢ 0 → size ≤ align_size size
unfolding align_size
align_size-le size real = ground (arith, real)

align_size_zero : align_size 0 ≡ 0
unfolding align_size
align_size_zero = refl

-- The result of a call: a new allocation of at least `size` bytes among the others, or a failure
-- that leaves the heap as it was.
abbrev pub Allocates : ℕ → Heap → List ℕ → Option ℕ → Heap → Type 0
Allocates size h xs r h' =
    ((x c : ℕ) × (us vs : List (ℕ × ℕ)) × (ys : List ℕ) × (r ≡ some (x + header_size))
      × (size ≤ c)
      × Holds h' ys
      × (used h.blocks xs ≡ us ++ vs)
      × (used h'.blocks ys ≡ us ++ ((x, c) ∷ vs)))
    ⊎ ((r ≡ none)
        × (h' ≡ h)
        × ((align_size size ≡ 0) ⊎ (none_fits h.blocks (align_size size) xs ≡ true)))

module _ {W : Type 0} (k : PageServices W) where
  reuses :
      (size : ℕ) (h : Heap) (xs : List ℕ) (x : ℕ)
      → Holds h xs
      → length xs < max_blocks
      → align_size size ≢ 0
      → first_fit max_blocks h (align_size size) h.head ≡ some x
      → Allocates size h xs (some (x + header_size)) (reuse x (align_size size) h)
  unfolding Added
  reuses size h xs x v few real found =
      let r = align_size size in
      let (ys, zs, split, free, fits) =
        first_fit-some max_blocks h r none h.head heap_base h.heap_next x xs v.tiled found in
      let (c, zs', enough, v', used') =
        reuse-Added h ys x r zs (subst (Holds h) split v)
          (subst (λ l. length l < max_blocks) split few) (omega (arith, real)) fits in
      inl (
        x,
        c,
        used h.blocks ys,
        used h.blocks zs,
        ys ++ (x ∷ zs'),
        refl,
        omega (arith, align_size-le size real, enough),
        v',
        ap (used h.blocks) split
            ∙ used-append h.blocks ys (x ∷ zs)
            ∙ ap (λ us. used h.blocks ys ++ us) (used_free h.blocks x zs free),
        used',
      )

  grows :
      (size : ℕ) (h : Heap) (w : W) (xs : List ℕ)
      → Holds h xs
      → length xs < max_blocks
      → align_size size ≢ 0
      → none_fits h.blocks (align_size size) xs ≡ true
      → Allocates size h xs (grow k (align_size size) h w).0 (grow k (align_size size) h w).1
  unfolding grow
  grows size h w xs v few real small =
      let r = align_size size in
      let pages = pages_for_block r in
      elim (Bool-cases (no_room r pages h)) [
        | inl full ↦ inr (ground (arith, full), ground (arith, full), inr small)
        | inr room ↦ elim (Bool-cases (map_new_pages k h.heap_next pages w).0) [
          | inr unmapped ↦
              inr (ground (arith, room, unmapped), ground (arith, room, unmapped), inr small)
          | inl mapped ↦
              let (v', used', fits) =
                append_block-Holds h r pages xs v few (omega (arith, real)) room in
              let made : grow k r h w ≡ (
                some (h.heap_next + header_size),
                append_block r pages h,
                (map_new_pages k h.heap_next pages w).1,
              ) =
                ground (arith, room, mapped) in
              subst (λ q. Allocates size h xs q.0 q.1) (sym made)
                (inl (
                  h.heap_next,
                  sub64 (pages * heap_page_size) header_size,
                  used h.blocks xs,
                  [],
                  xs ++ (h.heap_next ∷ []),
                  refl,
                  omega (arith, align_size-le size real, fits),
                  v',
                  sym (append-nil (used h.blocks xs)),
                  used',
                ))
        ]
      ]

  -- On a sound heap of fewer than 1000001 blocks kmalloc either gives the address behind the header
  -- of a block of at least the size asked for and leaves a sound heap whose allocated blocks are the
  -- former ones, unchanged and in their order, with this block inserted; or it gives NULL and leaves
  -- the heap as it was, which happens only if the aligned size is 0 or no free block is large enough.
  pub kmalloc-adds :
      (size : ℕ) (h : Heap) (w : W) (xs : List ℕ)
      → Holds h xs
      → length xs < max_blocks
      → Allocates size h xs (kmalloc k size h w).0 (kmalloc k size h w).1
  unfolding kmalloc
  kmalloc-adds size h w xs v few =
      let r = align_size size in
      let ok = heap_validate_good h xs v in
      elim (Bool-cases (size == 0 || r == 0)) [
        | inl nothing ↦ inr (
          ground (arith, v.on, nothing),
          ground (arith, v.on, nothing),
          inl (ground (arith, nothing, align_size_zero, ap align_size {x = size} {y = 0})),
        )
        | inr real ↦ elim (Option-cases (first_fit max_blocks h r h.head)) [
          | inl absent ↦
              let small =
                first_fit-none max_blocks h r none h.head heap_base h.heap_next xs v.tiled v.few
                  absent in
              let goes : kmalloc k size h w ≡ grow k r h w =
                ground (arith, v.on, real, ok, absent) in
              subst (λ q. Allocates size h xs q.0 q.1) (sym goes)
                (grows size h w xs v few (ground (arith, real)) small)
          | inr (x, found) ↦
              let goes : kmalloc k size h w ≡ (some (x + header_size), reuse x r h, w) =
                ground (arith, v.on, real, ok, found) in
              subst (λ q. Allocates size h xs q.0 q.1) (sym goes)
                (reuses size h xs x v few (ground (arith, real)) found)
        ]
      ]
