-- ===== src/Heap/Grow.antt =====
-- The growth of the heap by a block behind the last one.
use nexus_os.Base.{
  ℕ, zero, suc, ◌+◌, ◌*◌, ◌≤◌, ◌<◌, ◌≡◌, refl, sym, ap, ◌∙◌, false, Option, none, some, List, [],
  ◌∷◌, ◌++◌, arith, length, subst, append_assoc,
}
use nexus_os.Heap.{
  Block, Heap, block_magic, header_size, heap_base, is_free, put, add64, sub64, max_blocks,
  last_block, append_block, no_room,
}
use nexus_os.Heap.Free.{snoc_view, last_of-snoc}
use nexus_os.Heap.Merge.{length-both}
use nexus_os.Heap.Layout.{
  Good, Tiled, used, last_of, Tiled-from, Tiled-replace, Tiled-below, used-append,
}
use nexus_os.Heap.Pages.{heap_page_size}
use nexus_os.Heap.Valid.{Holds}
use nexus_os.Heap.Split.{used_taken}

-- The walk to the last block.
last_block-last :
    (fuel : ℕ) (f : ℕ → Block) (prev p : Option ℕ) (a e x : ℕ) (xs : List ℕ)
    → Tiled f prev p a e (x ∷ xs)
    → length xs ≤ fuel
    → last_of prev (x ∷ xs) ≡ some (last_block fuel f x)
unfolding Tiled last_block last_of
last_block-last zero f prev p a e x [] t enough = refl
last_block-last (suc fuel) f prev p a e x [] t enough = rw (t.3.0, last_block) refl
last_block-last zero f prev p a e x (y ∷ xs) t enough = absurd (omega arith)
last_block-last (suc fuel) f prev p a e x (y ∷ xs) t enough =
    rw (t.3.0, last_block)
      (last_block-last fuel f (some x) (f x).next (x + header_size + (f x).capacity) e y xs t.3
        (omega (arith, enough)))

some_eq : (a b : ℕ) → some a ≡ some b → a ≡ b
some_eq a b e = cc

pub append_block-Holds :
    (h : Heap) (r pages : ℕ) (xs : List ℕ)
    → Holds h xs
    → length xs < max_blocks
    → 0 < r
    → no_room r pages h ≡ false
    → Holds (append_block r pages h) (xs ++ (h.heap_next ∷ []))
      × (used (append_block r pages h).blocks (xs ++ (h.heap_next ∷ []))
          ≡ used h.blocks xs ++ ((h.heap_next, sub64 (pages * heap_page_size) header_size) ∷ []))
      × (r ≤ sub64 (pages * heap_page_size) header_size)
unfolding append_block Tiled used
append_block-Holds h r pages [] v few some_bytes room =
    let x = h.heap_next in
    let c = sub64 (pages * heap_page_size) header_size in
    let exact : c + header_size ≡ pages * heap_page_size = ground (arith, room) in
    let b : Block = record {
      magic = block_magic;
      size = r;
      capacity = c;
      flags = 0;
      prev = none;
      next = none;
    } in
    let f = put h.blocks x b in
    let here : f x ≡ b = ground arith in
    let h' = record h {
      blocks = f;
      head = some x;
      heap_next = x + pages * heap_page_size;
      heap_pages = add64 h.heap_pages pages;
      used_bytes = add64 h.used_bytes r;
      allocations = add64 h.allocations 1;
    } in
    let result : append_block r pages h ≡ h' = ground (arith, v.tiled.0) in
    let fits : r ≤ c = ground (arith, room) in
    let good : Good b none = record {
      magic = refl;
      prev_link = refl;
      some_bytes = omega arith;
      fits = fits;
      flags = omega arith;
    } in
    let taken : is_free (f x) ≡ false = ap is_free here in
    subst (λ (q : Heap). Holds q (x ∷ []) × (used q.blocks (x ∷ []) ≡ (x, c) ∷ []) × (r ≤ c))
      (sym result)
      (
        record {
          on = v.on;
          tiled = (
            refl,
            sym v.tiled.1,
            subst (λ q. Good q none) (sym here) good,
            (
              ap (λ (q : Block). q.next) here,
              ap (λ (q : Block). x + header_size + q.capacity) here ∙ omega (arith, exact),
            ),
          );
          limit = ground (arith, room);
          few = omega arith;
        },
        used_taken f x [] taken ∙ ap (λ (q : Block). (x, q.capacity) ∷ []) here,
        fits,
      )
append_block-Holds h r pages (first ∷ rest) v few some_bytes room =
    let x = h.heap_next in
    let e' = x + pages * heap_page_size in
    let c = sub64 (pages * heap_page_size) header_size in
    let exact : c + header_size ≡ pages * heap_page_size = ground (arith, room) in
    let b : Block = record {
      magic = block_magic;
      size = r;
      capacity = c;
      flags = 0;
      prev = none;
      next = none;
    } in
    let f = put h.blocks x b in
    let t = last_block max_blocks f first in
    let bt : Block = record (f t) { next = some x } in
    let bx : Block = record b { prev = some t } in
    let g = put (put f t bt) x bx in
    let (tiled, same_used) =
      Tiled-below h.blocks f none h.head heap_base x (first ∷ rest) (λ y low. ground (arith, low))
        v.tiled in
    let (ws, w, split) = snoc_view first rest in
    let last : t ≡ w = some_eq t w (
      sym
        (last_block-last max_blocks f none h.head heap_base x first rest tiled (omega (arith, few)))
      ∙ ap (last_of none) split
      ∙ last_of-snoc none ws w) in
    let split' : first ∷ rest ≡ ws ++ (t ∷ []) = split ∙ ap (λ q. ws ++ (q ∷ [])) (sym last) in
    let tiled' = subst (Tiled f none h.head heap_base x) split' tiled in
    let (suffix, low) = Tiled-from f none h.head heap_base x ws t [] tiled' in
    let at_t : g t ≡ bt = ground (arith, suffix.3.1, suffix.2.some_bytes) in
    let at_x : g x ≡ bx = ground arith in
    let fits : r ≤ c = ground (arith, room) in
    let good_t : Good bt (last_of none ws) = record {
      magic = suffix.2.magic;
      prev_link = suffix.2.prev_link;
      some_bytes = suffix.2.some_bytes;
      fits = suffix.2.fits;
      flags = suffix.2.flags;
    } in
    let good_x : Good bx (some t) = record {
      magic = refl;
      prev_link = refl;
      some_bytes = omega arith;
      fits = fits;
      flags = omega arith;
    } in
    let new : Tiled g (some t) (some x) (t + header_size + (f t).capacity) e' (x ∷ []) = (
      refl,
      sym suffix.3.1,
      subst (λ q. Good q (some t)) (sym at_x) good_x,
      (
        ap (λ (q : Block). q.next) at_x,
        ap (λ (q : Block). x + header_size + q.capacity) at_x ∙ omega (arith, exact),
      ),
    ) in
    let changed : Tiled g (last_of none ws) (some t) t e' (t ∷ x ∷ []) = (
      refl,
      refl,
      subst (λ q. Good q (last_of none ws)) (sym at_t) good_t,
      subst (λ q. Tiled g (some t) q.next (t + header_size + q.capacity) e' (x ∷ [])) (sym at_t)
          new,
    ) in
    let (whole, whole_used) =
      Tiled-replace f g none h.head heap_base x e' ws t [] (t ∷ x ∷ [])
        (λ y under. ground (arith, under, suffix.3.1)) tiled' changed in
    let regroup : ws ++ (t ∷ x ∷ []) ≡ (first ∷ rest) ++ (x ∷ []) =
      sym (ap (λ l. l ++ (x ∷ [])) split' ∙ append_assoc ws (t ∷ []) (x ∷ [])) in
    let ending : used g (t ∷ x ∷ []) ≡ used f (t ∷ []) ++ ((x, c) ∷ []) = ground (
      arith,
      ap is_free at_t,
      ap is_free at_x,
      ap (λ (q : Block). q.capacity) at_t,
      ap (λ (q : Block). q.capacity) at_x,
    ) in
    let all_used : used g (ws ++ (t ∷ x ∷ [])) ≡ used h.blocks (first ∷ rest) ++ ((x, c) ∷ []) =
      whole_used
      ∙ ap (λ us. used f ws ++ us) ending
      ∙ sym (append_assoc (used f ws) (used f (t ∷ [])) ((x, c) ∷ []))
      ∙ ap (λ us. us ++ ((x, c) ∷ []))
          (sym (used-append f ws (t ∷ [])) ∙ ap (used f) (sym split') ∙ same_used) in
    let h' = record h {
      blocks = g;
      heap_next = e';
      heap_pages = add64 h.heap_pages pages;
      used_bytes = add64 h.used_bytes r;
      allocations = add64 h.allocations 1;
    } in
    let result : append_block r pages h ≡ h' = ground (arith, v.tiled.0) in
    let xs' = (first ∷ rest) ++ (x ∷ []) in
    subst
      (λ (q : Heap).
        Holds q xs' × (used q.blocks xs' ≡ used h.blocks (first ∷ rest) ++ ((x, c) ∷ [])) × (r ≤ c))
      (sym result)
      (
        record {
          on = v.on;
          tiled = subst (Tiled g none h.head heap_base e') regroup whole;
          limit = ground (arith, room);
          few = omega (arith, few, length-both (first ∷ rest) (x ∷ []));
        },
        ap (used g) (sym regroup) ∙ all_used,
        fits,
      )
