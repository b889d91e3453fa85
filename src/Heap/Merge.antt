-- ===== src/Heap/Merge.antt =====
-- Merging a free block with the next one.
use nexus_os.Base.{
  ℕ, ◌+◌, ◌≤◌, ◌<◌, ◌≡◌, refl, sym, ap, ◌∙◌, true, Option, none, some, List, [], ◌∷◌, ◌++◌, inl,
  inr, arith, length, subst, Bool-cases,
}
use nexus_os.Heap.{
  Block, Heap, header_size, heap_base, heap_limit, is_free, put, set_prev, add64, merge_with_next,
}
use nexus_os.Heap.Layout.{
  Good, Tiled, Tiled-le, Tiled-frame, used, used-frame, last_of, Tiled-from, Tiled-replace,
  used-append,
}
use nexus_os.Heap.Valid.{Holds}

-- Another block in front of a list of blocks.
pub set_prev-Tiled :
    (f : ℕ → Block) (old new : ℕ) (p : Option ℕ) (a e : ℕ) (xs : List ℕ)
    → Tiled f (some old) p a e xs
    → Tiled (set_prev f p new) (some new) p a e xs × (used (set_prev f p new) xs ≡ used f xs)
unfolding Tiled used
set_prev-Tiled f old new p a e [] t = (t, refl)
set_prev-Tiled f old new p a e (y ∷ ys) t =
    let g = put f y (record (f y) { prev = some new }) in
    let end = y + header_size + (f y).capacity in
    let same : (z : ℕ) → end ≤ z → g z ≡ f z = λ z low. ground (arith, low) in
    let rest = Tiled-frame f g (some y) (f y).next end e ys same t.3 in
    let rest_used = used-frame f g (some y) (f y).next end e ys same t.3 in
    let here : g y ≡ record (f y) { prev = some new } = ground arith in
    let good : Good (record (f y) { prev = some new }) (some new) = record {
      magic = t.2.magic;
      prev_link = refl;
      some_bytes = t.2.some_bytes;
      fits = t.2.fits;
      flags = t.2.flags;
    } in
    subst
      (λ q.
        Tiled (set_prev f q new) (some new) q a e (y ∷ ys)
        × (used (set_prev f q new) (y ∷ ys) ≡ used f (y ∷ ys)))
      (sym t.0)
      (
        (
          refl,
          t.1,
          subst (λ b. Good b (some new)) (sym here) good,
          subst (λ b. Tiled g (some y) b.next (y + header_size + b.capacity) e ys) (sym here) rest,
        ),
        ground (arith, rest_used, ap is_free here, ap (λ (b : Block). b.capacity) here),
      )

pub set_prev_below :
    (f : ℕ → Block) (prev p : Option ℕ) (new a e y : ℕ) (xs : List ℕ)
    → Tiled f prev p a e xs
    → y < a
    → set_prev f p new y ≡ f y
unfolding Tiled
set_prev_below f prev p new a e y [] t low = rw t.0 refl
set_prev_below f prev p new a e y (x ∷ xs) t low =
    subst (λ q. set_prev f q new y ≡ f y) (sym t.0) (ground (arith, t.1, low))

pub used_free :
    (f : ℕ → Block) (x : ℕ) (xs : List ℕ) → is_free (f x) ≡ true → used f (x ∷ xs) ≡ used f xs
unfolding used
used_free f x xs free = ground (arith, free)

-- The block behind `x` is Merged into it if it is free; `x` itself is free.
Merged : (f : ℕ → Block) (prev : Option ℕ) (x e : ℕ) (xs : List ℕ) (g : ℕ → Block) → Type 0
Merged f prev x e xs g =
    (zs : List ℕ) × Tiled g prev (some x) x e (x ∷ zs)
    × (used g (x ∷ zs) ≡ used f (x ∷ xs))
    × (is_free (g x) ≡ true)
    × ((y : ℕ) → y < x → g y ≡ f y)
    × (length zs ≤ length xs)

merge_with_next_lem :
    (h : Heap) (prev : Option ℕ) (x : ℕ) (xs : List ℕ)
    → Tiled h.blocks prev (some x) x h.heap_next (x ∷ xs)
    → is_free (h.blocks x) ≡ true
    → h.heap_next ≤ heap_limit
    → Merged h.blocks prev x h.heap_next xs (merge_with_next x h).blocks
unfolding merge_with_next Merged Tiled
merge_with_next_lem h prev x [] t free limit =
    let f = h.blocks in
    let stays : (merge_with_next x h).blocks ≡ f = ground (arith, t.3.0) in
    (
      [],
      subst (λ g. Tiled g prev (some x) x h.heap_next (x ∷ [])) (sym stays) t,
      ap (λ g. used g (x ∷ [])) stays,
      ap (λ g. is_free (g x)) stays ∙ free,
      λ y low. ap (λ g. g y) stays,
      omega arith,
    )
merge_with_next_lem h prev x (n ∷ zs) t free limit = elim (Bool-cases (is_free (h.blocks n))) [
  | inr taken ↦
      let f = h.blocks in
      let stays : (merge_with_next x h).blocks ≡ f = ground (arith, t.3.0, taken) in
      (
        n ∷ zs,
        subst (λ g. Tiled g prev (some x) x h.heap_next (x ∷ n ∷ zs)) (sym stays) t,
        ap (λ g. used g (x ∷ n ∷ zs)) stays,
        ap (λ g. is_free (g x)) stays ∙ free,
        λ y low. ap (λ g. g y) stays,
        omega arith,
      )
  | inl vacant ↦
      let f = h.blocks in
      let b : Block = record (f x) {
        capacity = add64 (f x).capacity (header_size + (f n).capacity);
        size = add64 (f x).capacity (header_size + (f n).capacity);
        next = (f n).next;
      } in
      let g0 = put f x b in
      let g = set_prev g0 (f n).next x in
      let end = n + header_size + (f n).capacity in
      let joins : (merge_with_next x h).blocks ≡ g = ground (arith, t.3.0, vacant) in
      let behind = t.3.3 in
      let same : (z : ℕ) → end ≤ z → g0 z ≡ f z = λ z low. ground (arith, low, t.3.1) in
      let framed = Tiled-frame f g0 (some n) (f n).next end h.heap_next zs same behind in
      let (linked, linked_used) = set_prev-Tiled g0 n x (f n).next end h.heap_next zs framed in
      let below : (y : ℕ) → y < end → g y ≡ g0 y =
        λ y low. set_prev_below g0 (some n) (f n).next x end h.heap_next y zs framed low in
      let at_x : g x ≡ b = below x (omega (arith, t.3.1)) ∙ ground arith in
      let last = Tiled-le f (some n) (f n).next end h.heap_next zs behind in
      let whole : add64 (f x).capacity (header_size + (f n).capacity)
          ≡ (f x).capacity + header_size + (f n).capacity =
        omega (arith, last, limit, t.3.1) in
      let good : Good b prev = record {
        magic = t.2.magic;
        prev_link = t.2.prev_link;
        some_bytes = omega (arith, whole, t.2.some_bytes);
        fits = omega arith;
        flags = t.2.flags;
      } in
      let next_end : x + header_size + b.capacity ≡ end = omega (arith, whole, t.3.1) in
      let frees : is_free b ≡ true = free in
      let tiled : Tiled g prev (some x) x h.heap_next (x ∷ zs) = (
        refl,
        refl,
        subst (λ c. Good c prev) (sym at_x) good,
        subst (λ c. Tiled g (some x) c.next (x + header_size + c.capacity) h.heap_next zs)
            (sym at_x)
            (subst (λ a. Tiled g (some x) (f n).next a h.heap_next zs) (sym next_end) linked),
      ) in
      (
        zs,
        subst (λ q. Tiled q prev (some x) x h.heap_next (x ∷ zs)) (sym joins) tiled,
        ap (λ q. used q (x ∷ zs)) joins
            ∙ used_free g x zs (ap is_free at_x ∙ frees)
            ∙ linked_used
            ∙ used-frame f g0 (some n) (f n).next end h.heap_next zs same behind
            ∙ sym (used_free f x (n ∷ zs) free ∙ used_free f n zs vacant),
        ap (λ q. is_free (q x)) joins ∙ ap is_free at_x ∙ frees,
        λ y low. ap (λ q. q y) joins ∙ below y (omega (arith, low, t.3.1)) ∙ ground (arith, low),
        omega arith,
      )
]

pub length-both : (xs ys : List ℕ) → length (xs ++ ys) ≡ length xs + length ys
length-both [] ys = omega arith
length-both (x ∷ xs) ys = omega (arith, length-both xs ys)

merge_keeps :
    (x : ℕ) (h : Heap)
    → ((merge_with_next x h).head ≡ h.head)
      × ((merge_with_next x h).heap_next ≡ h.heap_next)
      × ((merge_with_next x h).ready ≡ h.ready)
unfolding merge_with_next
merge_keeps x h = (ground arith, ground arith, ground arith)

-- Merging anywhere in the heap keeps it sound and keeps the allocated blocks.
pub merge-Holds :
    (h : Heap) (ys : List ℕ) (x : ℕ) (zs : List ℕ)
    → Holds h (ys ++ (x ∷ zs))
    → is_free (h.blocks x) ≡ true
    → (zs' : List ℕ) × Holds (merge_with_next x h) (ys ++ (x ∷ zs'))
      × (used (merge_with_next x h).blocks (ys ++ (x ∷ zs')) ≡ used h.blocks (ys ++ (x ∷ zs)))
      × (is_free ((merge_with_next x h).blocks x) ≡ true)
unfolding Merged
merge-Holds h ys x zs v free =
    let g = (merge_with_next x h).blocks in
    let (suffix, low) = Tiled-from h.blocks none h.head heap_base h.heap_next ys x zs v.tiled in
    let (zs', tiled, same, frees, front, shorter) =
      merge_with_next_lem h (last_of none ys) x zs suffix free v.limit in
    let (whole, whole_used) =
      Tiled-replace h.blocks g none h.head heap_base h.heap_next h.heap_next ys x zs (x ∷ zs') front
        v.tiled tiled in
    let (head, next, ready) = merge_keeps x h in
    (
      zs',
      record {
        on = ready ∙ v.on;
        tiled =
            subst (λ p. Tiled g none p heap_base (merge_with_next x h).heap_next (ys ++ (x ∷ zs')))
              (sym head)
              (subst (λ e. Tiled g none h.head heap_base e (ys ++ (x ∷ zs'))) (sym next) whole);
        limit = omega (arith, next, v.limit);
        few = omega (arith, v.few, shorter, length-both ys (x ∷ zs), length-both ys (x ∷ zs'));
      },
      whole_used ∙ ap (λ us. used h.blocks ys ++ us) same ∙ sym (used-append h.blocks ys (x ∷ zs)),
      frees,
    )
