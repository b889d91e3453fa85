-- ===== src/Heap/Split.antt =====
-- The reuse of a free block, split if enough is left.
use nexus_os.Base.{
  ℕ, ◌+◌, ◌-◌, ◌≤◌, ◌<◌, ◌≡◌, refl, sym, ap, ◌∙◌, false, Option, none, some, List, ◌∷◌, ◌++◌, inl,
  inr, arith, ltb, length, subst, Bool-cases,
}
use nexus_os.Heap.{
  Block, Heap, block_magic, header_size, heap_base, heap_alignment, is_free, put, set_prev,
  clear_free, add64, sub64, max_blocks, split_block, reuse,
}
use nexus_os.Heap.Free.{flags_at}
use nexus_os.Heap.Merge.{set_prev-Tiled, set_prev_below, length-both, used_free}
use nexus_os.Heap.Layout.{
  Good, Tiled, Tiled-frame, used, used-frame, last_of, Tiled-from, Tiled-replace, Tiled-put,
  used_before,
}
use nexus_os.Heap.Valid.{Holds}

pub used_taken :
    (f : ℕ → Block) (x : ℕ) (xs : List ℕ)
    → is_free (f x) ≡ false
    → used f (x ∷ xs) ≡ (x, (f x).capacity) ∷ used f xs
unfolding used
used_taken f x xs taken = ground (arith, taken)

-- What an allocation in the place of `x` leaves.
unfoldable pub Added : Heap → List ℕ → ℕ → ℕ → List ℕ → Heap → Type 0
Added h ys x r zs h' =
    (c : ℕ) × (zs' : List ℕ) × (r ≤ c)
    × Holds h' (ys ++ (x ∷ zs'))
    × (used h'.blocks (ys ++ (x ∷ zs')) ≡ used h.blocks ys ++ ((x, c) ∷ used h.blocks zs))

-- The blocks behind a split with enough left for a block of its own.
split_large :
    (h : Heap) (ys : List ℕ) (x r : ℕ) (zs : List ℕ)
    → Holds h (ys ++ (x ∷ zs))
    → length (ys ++ (x ∷ zs)) < max_blocks
    → is_free (h.blocks x) ≡ false
    → 0 < r
    → r ≤ (h.blocks x).capacity
    → ltb ((h.blocks x).capacity - r) (header_size + heap_alignment) ≡ false
    → Added h ys x r zs (split_block x r h)
unfolding split_block Added Tiled
split_large h ys x r zs v few taken some_bytes fits large =
    let f = h.blocks in
    let e = h.heap_next in
    let left = (f x).capacity - r in
    let t = x + header_size + r in
    let end = x + header_size + (f x).capacity in
    let tail : Block = record {
      magic = block_magic;
      size = left - header_size;
      capacity = left - header_size;
      flags = 1;
      prev = some x;
      next = (f x).next;
    } in
    let b : Block = record (f x) { next = some t; size = r; capacity = r } in
    let f2 = put f t tail in
    let f3 = set_prev f2 (f x).next t in
    let g = put f3 x b in
    let (suffix, low) = Tiled-from f none h.head heap_base e ys x zs v.tiled in
    let same2 : (z : ℕ) → end ≤ z → f2 z ≡ f z = λ z above. ground (arith, above, large, fits) in
    let framed = Tiled-frame f f2 (some x) (f x).next end e zs same2 suffix.3 in
    let (linked, linked_used) = set_prev-Tiled f2 x t (f x).next end e zs framed in
    let same3 : (z : ℕ) → end ≤ z → g z ≡ f3 z = λ z above. ground (arith, above) in
    let behind = Tiled-frame f3 g (some t) (f x).next end e zs same3 linked in
    let behind_used : used g zs ≡ used f zs =
      used-frame f3 g (some t) (f x).next end e zs same3 linked
      ∙ linked_used
      ∙ used-frame f f2 (some x) (f x).next end e zs same2 suffix.3 in
    let below : (z : ℕ) → z < end → f3 z ≡ f2 z =
      λ z under. set_prev_below f2 (some x) (f x).next t end e z zs framed under in
    let at_x : g x ≡ b = ground arith in
    let at_t : g t ≡ tail =
      ground (arith, some_bytes) ∙ below t (ground (arith, large, fits)) ∙ ground arith in
    let good_x : Good b (last_of none ys) = record {
      magic = suffix.2.magic;
      prev_link = suffix.2.prev_link;
      some_bytes = some_bytes;
      fits = omega arith;
      flags = suffix.2.flags;
    } in
    let good_t : Good tail (some x) = record {
      magic = refl;
      prev_link = refl;
      some_bytes = ground (arith, large);
      fits = omega arith;
      flags = omega arith;
    } in
    let tail_end : t + header_size + tail.capacity ≡ end = ground (arith, large, fits) in
    let second : Tiled g (some x) (some t) (x + header_size + r) e (t ∷ zs) = (
      refl,
      refl,
      subst (λ q. Good q (some x)) (sym at_t) good_t,
      subst (λ q. Tiled g (some t) q.next (t + header_size + q.capacity) e zs) (sym at_t)
          (subst (λ a. Tiled g (some t) (f x).next a e zs) (sym tail_end) behind),
    ) in
    let changed : Tiled g (last_of none ys) (some x) x e (x ∷ t ∷ zs) = (
      refl,
      refl,
      subst (λ q. Good q (last_of none ys)) (sym at_x) good_x,
      subst (λ q. Tiled g (some x) q.next (x + header_size + q.capacity) e (t ∷ zs)) (sym at_x)
          second,
    ) in
    let front : (y : ℕ) → y < x → g y ≡ f y =
      λ y under. ground (arith, under) ∙ below y (omega arith) ∙ ground (arith, under) in
    let (tiled, all) =
      Tiled-replace f g none h.head heap_base e e ys x zs (x ∷ t ∷ zs) front v.tiled changed in
    let off : is_free (g x) ≡ false = ap is_free at_x ∙ taken in
    let size : (g x).capacity ≡ r = ap (λ (q : Block). q.capacity) at_x in
    let used_x : used g (x ∷ t ∷ zs) ≡ (x, r) ∷ used f zs =
      used_taken g x (t ∷ zs) off
      ∙ ap (λ c. (x, c) ∷ used g (t ∷ zs)) size
      ∙ ap (λ us. (x, r) ∷ us) (used_free g t zs (ap is_free at_t) ∙ behind_used) in
    let h' = record h { blocks = g; free_bytes = add64 h.free_bytes (left - header_size) } in
    let result : split_block x r h ≡ h' = ground (arith, large) in
    subst (Added h ys x r zs) (sym result) (
      r,
      t ∷ zs,
      omega arith,
      record {
        on = v.on;
        tiled = tiled;
        limit = v.limit;
        few = omega (arith, few, length-both ys (x ∷ zs), length-both ys (x ∷ t ∷ zs));
      },
      all ∙ ap (λ us. used f ys ++ us) used_x,
    )

-- Splitting an allocated block.
split_block-Added :
    (h : Heap) (ys : List ℕ) (x r : ℕ) (zs : List ℕ)
    → Holds h (ys ++ (x ∷ zs))
    → length (ys ++ (x ∷ zs)) < max_blocks
    → is_free (h.blocks x) ≡ false
    → 0 < r
    → r ≤ (h.blocks x).capacity
    → Added h ys x r zs (split_block x r h)
unfolding split_block Added Tiled
split_block-Added h ys x r zs v few taken some_bytes fits =
    elim (Bool-cases (ltb ((h.blocks x).capacity - r) (header_size + heap_alignment))) [
      | inl small ↦
          let f = h.blocks in
          let b : Block = record (f x) { size = (f x).capacity } in
          let whole_block : (split_block x r h) ≡ record h { blocks = put f x b } =
            ground (arith, small) in
          let good : (prev : Option ℕ) → Good (f x) prev → Good b prev = λ prev q. record {
            magic = q.magic;
            prev_link = q.prev_link;
            some_bytes = q.some_bytes;
            fits = omega arith;
            flags = q.flags;
          } in
          let (tiled, all, behind) =
            Tiled-put f h.head heap_base h.heap_next ys x zs b v.tiled good refl refl in
          let here : put f x b x ≡ b = ground arith in
          let off : is_free (put f x b x) ≡ false = ap is_free here ∙ taken in
          subst (Added h ys x r zs) (sym whole_block) (
            (f x).capacity,
            zs,
            fits,
            record { on = v.on; tiled = tiled; limit = v.limit; few = v.few },
            all
                ∙ ap (λ us. used f ys ++ us)
                    (used_taken (put f x b) x zs off
                      ∙ ground (arith, behind, ap (λ (q : Block). q.capacity) here)),
          )
      | inr large ↦ split_large h ys x r zs v few taken some_bytes fits large
    ]

pub reuse-Added :
    (h : Heap) (ys : List ℕ) (x r : ℕ) (zs : List ℕ)
    → Holds h (ys ++ (x ∷ zs))
    → length (ys ++ (x ∷ zs)) < max_blocks
    → 0 < r
    → r ≤ (h.blocks x).capacity
    → Added h ys x r zs (reuse x r h)
unfolding reuse Added
reuse-Added h ys x r zs v few some_bytes fits =
    let f = h.blocks in
    let b : Block = record (f x) { flags = clear_free (f x).flags; size = r } in
    let h1 = record h { free_bytes = sub64 h.free_bytes (f x).capacity; blocks = put f x b } in
    let good : (prev : Option ℕ) → Good (f x) prev → Good b prev = λ prev q. record {
      magic = q.magic;
      prev_link = q.prev_link;
      some_bytes = q.some_bytes;
      fits = fits;
      flags = omega (arith, q.flags);
    } in
    let (tiled, all, behind) =
      Tiled-put f h.head heap_base h.heap_next ys x zs b v.tiled good refl refl in
    let here : put f x b x ≡ b = ground arith in
    let off : is_free (put f x b x) ≡ false =
      ap is_free here ∙ ground (arith, flags_at f h.head h.heap_next ys x zs v.tiled) in
    let v1 : Holds h1 (ys ++ (x ∷ zs)) = record {
      on = v.on;
      tiled = tiled;
      limit = v.limit;
      few = v.few;
    } in
    let (c, zs', enough, v2, used2) =
      split_block-Added h1 ys x r zs v1 few off some_bytes
        (subst (λ (q : Block). r ≤ q.capacity) (sym here) fits) in
    let front : used (put f x b) ys ≡ used f ys =
      used_before f (put f x b) none h.head heap_base h.heap_next ys x zs
        (λ y low. ground (arith, low)) v.tiled in
    (
      c,
      zs',
      enough,
      record { on = v2.on; tiled = v2.tiled; limit = v2.limit; few = v2.few },
      used2
          ∙ ap (λ us. us ++ ((x, c) ∷ used (put f x b) zs)) front
          ∙ ap (λ us. used f ys ++ ((x, c) ∷ us)) behind,
    )
