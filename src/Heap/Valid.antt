-- ===== src/Heap/Valid.antt =====
-- heap_validate accepts every sound heap.
use nexus_os.Base.{
  ℕ, zero, suc, ◌+◌, ◌≤◌, ◌≡◌, refl, sym, ap, ◌∙◌, true, Option, none, some, List, [], ◌∷◌, arith,
  length,
}
use nexus_os.Heap.{
  Heap, header_size, heap_base, heap_limit, link_in_heap, same_link, next_points_back, block_ok,
  validate_from, max_blocks, head_is_first, heap_validate,
}
use nexus_os.Heap.Layout.{Good, Tiled, Tiled-le}

-- A heap whose blocks are `xs`.
pub record Holds (h : Heap) (xs : List ℕ) : Type 0 where
  pub on : h.ready ≡ true
  pub tiled : Tiled h.blocks none h.head heap_base h.heap_next xs
  pub limit : h.heap_next ≤ heap_limit
  pub few : length xs ≤ max_blocks

same_link_refl : (p : Option ℕ) → same_link p p ≡ true
same_link_refl none = refl
same_link_refl (some a) = ground arith

-- The pointer to the next block.
module _ (h : Heap) (x e : ℕ) (p : Option ℕ) (xs : List ℕ) (low : heap_base ≤ x)
    (t : Tiled h.blocks (some x) p e h.heap_next xs) (above : heap_base ≤ e) where
  next_in_heap : link_in_heap h p ≡ true
  unfolding Tiled
  next_in_heap = go xs t
    where
      go : (ys : List ℕ) → Tiled h.blocks (some x) p e h.heap_next ys → link_in_heap h p ≡ true
      go [] u = rw u.0 refl
      go (y ∷ ys) u =
          let le =
            Tiled-le h.blocks (some y) (h.blocks y).next (y + header_size + (h.blocks y).capacity)
              h.heap_next ys u.3 in
          rw u.0 (ground (arith, le, u.1, above, u.2.some_bytes))

  points_back : p ≡ (h.blocks x).next → next_points_back h x ≡ true
  unfolding Tiled
  points_back here = go xs t
    where
      go : (ys : List ℕ) → Tiled h.blocks (some x) p e h.heap_next ys → next_points_back h x ≡ true
      go [] u = ground (arith, sym here ∙ u.0)
      go (y ∷ ys) u =
          let back = ap (λ q. same_link q (some x)) u.2.prev_link ∙ same_link_refl (some x) in
          ground (arith, sym here ∙ u.0, back)

block_ok-Good :
    (h : Heap) (prev : Option ℕ) (x : ℕ) (xs : List ℕ)
    → heap_base ≤ x
    → h.heap_next ≤ heap_limit
    → link_in_heap h prev ≡ true
    → Good (h.blocks x) prev
    → Tiled h.blocks
        (some x)
        (h.blocks x).next
        (x + header_size + (h.blocks x).capacity)
        h.heap_next
        xs
    → block_ok h prev x ≡ true
block_ok-Good h prev x xs low limit link g t =
    let e = x + header_size + (h.blocks x).capacity in
    let le = Tiled-le h.blocks (some x) (h.blocks x).next e h.heap_next xs t in
    let next = next_in_heap h x e (h.blocks x).next xs low t (omega arith) in
    let back = points_back h x e (h.blocks x).next xs low t (omega arith) refl in
    let front : same_link (h.blocks x).prev prev ≡ true =
      ap (λ q. same_link q prev) g.prev_link ∙ same_link_refl prev in
    let linked : link_in_heap h (h.blocks x).prev ≡ true = ap (link_in_heap h) g.prev_link ∙ link in
    ground
      (arith, next, back, front, linked, le, low, limit, g.magic, g.some_bytes, g.fits, g.flags)

validate_from_good :
    (fuel : ℕ) (h : Heap) (prev p : Option ℕ) (a : ℕ) (xs : List ℕ)
    → heap_base ≤ a
    → h.heap_next ≤ heap_limit
    → link_in_heap h prev ≡ true
    → Tiled h.blocks prev p a h.heap_next xs
    → length xs ≤ fuel
    → validate_from fuel h prev p ≡ true
unfolding validate_from Tiled
validate_from_good zero h prev p a [] low limit link t enough = rw t.0 refl
validate_from_good (suc fuel) h prev p a [] low limit link t enough = rw t.0 refl
validate_from_good zero h prev p a (x ∷ xs) low limit link t enough = absurd (omega arith)
validate_from_good (suc fuel) h prev p a (x ∷ xs) low limit link t enough =
    let e = x + header_size + (h.blocks x).capacity in
    let le = Tiled-le h.blocks (some x) (h.blocks x).next e h.heap_next xs t.3 in
    let ok = block_ok-Good h prev x xs (omega (arith, t.1, low)) limit link t.2 t.3 in
    let inside : link_in_heap h (some x) ≡ true = ground (arith, t.1, low, le, t.2.some_bytes) in
    rw (t.0, ok, validate_from)
      (validate_from_good fuel h (some x) (h.blocks x).next e xs (omega (arith, t.1, low)) limit
        inside t.3 (omega (arith, enough)))

head_first : (h : Heap) (xs : List ℕ) → Holds h xs → head_is_first h ≡ true
unfolding Tiled
head_first h [] v = ground (arith, v.tiled.0)
head_first h (x ∷ xs) v = rw (v.tiled.0, v.tiled.2.prev_link) refl

-- heap_validate reports no corruption of a heap whose blocks cover it without gaps, each with the
-- magic number, the right links, a size within its capacity and no flag but BLOCK_FREE, if they are
-- at most 1000001 and lie below HEAP_LIMIT; and it changes nothing.
pub heap_validate_good : (h : Heap) (xs : List ℕ) → Holds h xs → heap_validate h ≡ (true, h)
unfolding heap_validate
heap_validate_good h xs v =
    let walk =
      validate_from_good max_blocks h none h.head heap_base xs (omega arith) v.limit refl v.tiled
        v.few in
    ground (arith, v.on, walk, head_first h xs v)
