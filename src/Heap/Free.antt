-- ===== src/Heap/Free.antt =====
-- kfree takes a block out of the allocated blocks.
use nexus_os.Base.{
  ℕ, ◌+◌, ◌<◌, ◌≡◌, refl, sym, ap, ◌∙◌, true, false, Option, none, some, List, [], ◌∷◌, ◌++◌, inl,
  inr, arith, subst, Bool-cases, append_assoc,
}
use nexus_os.Heap.{
  Block, Heap, header_size, heap_base, is_free, put, merge_with_next, set_free, release,
  merge_around, kfree,
}
use nexus_os.Heap.Layout.{Good, Tiled, Tiled-le, used, last_of, Tiled-from, Tiled-put}
use nexus_os.Heap.Valid.{Holds, heap_validate_good}
use nexus_os.Heap.Merge.{merge-Holds, used_free}

-- The block of an allocation.
abbrev IsSplit : (ℕ → Block) → List ℕ → List (ℕ × ℕ) → ℕ → List (ℕ × ℕ) → Type 0
IsSplit f xs us x vs =
    (ys zs : List ℕ) × (xs ≡ ys ++ (x ∷ zs))
    × (is_free (f x) ≡ false)
    × (used f ys ≡ us)
    × (used f zs ≡ vs)

IsSplit-at_used :
    (f : ℕ → Block) (w : ℕ) (xs : List ℕ) (us : List (ℕ × ℕ)) (x c : ℕ) (vs : List (ℕ × ℕ))
    → ((us' : List (ℕ × ℕ)) → used f xs ≡ us' ++ ((x, c) ∷ vs) → IsSplit f xs us' x vs)
    → (w, (f w).capacity) ∷ used f xs ≡ us ++ ((x, c) ∷ vs)
    → is_free (f w) ≡ false
    → IsSplit f (w ∷ xs) us x vs
unfolding used
IsSplit-at_used f w xs [] x c vs rest e taken =
    let same : w ≡ x = cc in
    ([], xs, ap (λ q. q ∷ xs) same, subst (λ q. is_free (f q) ≡ false) same taken, refl, cc)
IsSplit-at_used f w xs (u ∷ us) x c vs rest e taken =
    let (ys, zs, split, off, front, back) = rest us cc in
    let head : (w, (f w).capacity) ≡ u = cc in
    (w ∷ ys, zs, ap (◌∷◌ w) split, off, ground (arith, front, taken, head), back)

used-IsSplit :
    (f : ℕ → Block) (xs : List ℕ) (us : List (ℕ × ℕ)) (x c : ℕ) (vs : List (ℕ × ℕ))
    → used f xs ≡ us ++ ((x, c) ∷ vs)
    → IsSplit f xs us x vs
unfolding used
used-IsSplit f [] [] x c vs e = cc
used-IsSplit f [] (u ∷ us) x c vs e = cc
used-IsSplit f (w ∷ xs) us x c vs e = elim (Bool-cases (is_free (f w))) [
  | inl free ↦
      let (ys, zs, split, taken, front, back) =
        used-IsSplit f xs us x c vs (ground (arith, e, free)) in
      (w ∷ ys, zs, ap (◌∷◌ w) split, taken, ground (arith, front, free), back)
  | inr taken ↦
      IsSplit-at_used f w xs us x c vs (λ us' e'. used-IsSplit f xs us' x c vs e')
        (ground (arith, e, taken)) taken
]

-- A list that is not empty ends with a block.
pub snoc_view : (y : ℕ) (ys : List ℕ) → (ws : List ℕ) × (w : ℕ) × (y ∷ ys ≡ ws ++ (w ∷ []))
snoc_view y [] = ([], y, refl)
snoc_view y (z ∷ zs) = let (ws, w, e) = snoc_view z zs in (y ∷ ws, w, ap (◌∷◌ y) e)

pub last_of-snoc : (p : Option ℕ) (ws : List ℕ) (w : ℕ) → last_of p (ws ++ (w ∷ [])) ≡ some w
unfolding last_of
last_of-snoc p [] w = refl
last_of-snoc p (x ∷ ws) w = last_of-snoc (some x) ws w

pub flags_at :
    (f : ℕ → Block) (p : Option ℕ) (e : ℕ) (ys : List ℕ) (x : ℕ) (zs : List ℕ)
    → Tiled f none p heap_base e (ys ++ (x ∷ zs))
    → (f x).flags < 2
unfolding Tiled
flags_at f p e ys x zs t =
    let (suffix, low) = Tiled-from f none p heap_base e ys x zs t in suffix.2.flags

release-Holds :
    (h : Heap) (ys : List ℕ) (x : ℕ) (zs : List ℕ)
    → Holds h (ys ++ (x ∷ zs))
    → is_free (h.blocks x) ≡ false
    → Holds (release x h) (ys ++ (x ∷ zs))
      × (used (release x h).blocks (ys ++ (x ∷ zs)) ≡ used h.blocks ys ++ used h.blocks zs)
      × (is_free ((release x h).blocks x) ≡ true)
release-Holds h ys x zs v taken =
    let f = h.blocks in
    let b : Block = record (f x) { flags = set_free (f x).flags } in
    let good : (prev : Option ℕ) → Good (f x) prev → Good b prev = λ prev q. record {
      magic = q.magic;
      prev_link = q.prev_link;
      some_bytes = q.some_bytes;
      fits = q.fits;
      flags = ground (arith, taken, q.flags);
    } in
    let (tiled, whole, behind) =
      Tiled-put f h.head heap_base h.heap_next ys x zs b v.tiled good refl refl in
    let here : put f x b x ≡ b = ground arith in
    let frees : is_free (put f x b x) ≡ true =
      ap is_free here ∙ ground (arith, taken, flags_at f h.head h.heap_next ys x zs v.tiled) in
    (
      record { on = v.on; tiled = tiled; limit = v.limit; few = v.few },
      whole ∙ ap (λ us. used f ys ++ us) (used_free (put f x b) x zs frees ∙ behind),
      frees,
    )

-- Backward merging, if there is a free block in front.
merge_around-Holds :
    (h : Heap) (ys : List ℕ) (x : ℕ) (zs : List ℕ)
    → Holds h (ys ++ (x ∷ zs))
    → is_free (h.blocks x) ≡ true
    → (xs : List ℕ) × Holds (merge_around x h) xs
      × (used (merge_around x h).blocks xs ≡ used h.blocks (ys ++ (x ∷ zs)))
unfolding merge_around Tiled
merge_around-Holds h [] x zs v free =
    let (zs', v1, same, free1) = merge-Holds h [] x zs v free in
    let s = merge_with_next x h in
    let first : (s.blocks x).prev ≡ none = v1.tiled.2.prev_link in
    let stays : merge_around x h ≡ s = ground (arith, first) in
    (
      x ∷ zs',
      subst (λ h'. Holds h' (x ∷ zs')) (sym stays) v1,
      ap (λ (h' : Heap). used h'.blocks (x ∷ zs')) stays ∙ same,
    )
merge_around-Holds h (y ∷ ys) x zs v free =
    let (zs', v1, same, free1) = merge-Holds h (y ∷ ys) x zs v free in
    let s = merge_with_next x h in
    let (ws, w, e) = snoc_view y ys in
    let (suffix, low) =
      Tiled-from s.blocks none s.head heap_base s.heap_next (y ∷ ys) x zs' v1.tiled in
    let before : (s.blocks x).prev ≡ some w =
      suffix.2.prev_link ∙ ap (last_of none) e ∙ last_of-snoc none ws w in
    let regroup : (y ∷ ys) ++ (x ∷ zs') ≡ ws ++ (w ∷ x ∷ zs') =
      ap (λ l. l ++ (x ∷ zs')) e ∙ append_assoc ws (w ∷ []) (x ∷ zs') in
    elim (Bool-cases (is_free (s.blocks w))) [
      | inr taken ↦
          let stays : merge_around x h ≡ s = ground (arith, before, taken) in
          (
            (y ∷ ys) ++ (x ∷ zs'),
            subst (λ h'. Holds h' ((y ∷ ys) ++ (x ∷ zs'))) (sym stays) v1,
            ap (λ (h' : Heap). used h'.blocks ((y ∷ ys) ++ (x ∷ zs'))) stays ∙ same,
          )
      | inl vacant ↦
          let joins : merge_around x h ≡ merge_with_next w s = ground (arith, before, vacant) in
          let (zs2, v2, same2, free2) =
            merge-Holds s ws w (x ∷ zs') (subst (Holds s) regroup v1) vacant in
          (
            ws ++ (w ∷ zs2),
            subst (λ h'. Holds h' (ws ++ (w ∷ zs2))) (sym joins) v2,
            ap (λ (h' : Heap). used h'.blocks (ws ++ (w ∷ zs2))) joins
                ∙ same2
                ∙ ap (used s.blocks) (sym regroup)
                ∙ same,
          )
    ]

-- On a sound heap, where the payload at `x` plus the size of a header belongs to an allocated block,
-- kfree leaves a sound heap whose allocated blocks are the others, unchanged and in their order.
pub kfree-removes :
    (h : Heap) (xs : List ℕ) (us : List (ℕ × ℕ)) (x c : ℕ) (vs : List (ℕ × ℕ))
    → Holds h xs
    → used h.blocks xs ≡ us ++ ((x, c) ∷ vs)
    → (ys : List ℕ) × Holds (kfree (x + header_size) h) ys
      × (used (kfree (x + header_size) h).blocks ys ≡ us ++ vs)
unfolding kfree Tiled
kfree-removes h xs us x c vs v e =
    let (ys, zs, split, taken, front, back) = used-IsSplit h.blocks xs us x c vs e in
    let v0 = subst (Holds h) split v in
    let (suffix, low) = Tiled-from h.blocks none h.head heap_base h.heap_next ys x zs v0.tiled in
    let last =
      Tiled-le h.blocks (some x) (h.blocks x).next (x + header_size + (h.blocks x).capacity)
        h.heap_next zs suffix.3 in
    let (v1, used1, free1) = release-Holds h ys x zs v0 taken in
    let (ws, v2, used2) = merge_around-Holds (release x h) ys x zs v1 free1 in
    let ok = heap_validate_good h xs v in
    let done : kfree (x + header_size) h ≡ merge_around x (release x h) =
      ground (arith, v.on, ok, taken, suffix.2.magic, suffix.2.some_bytes, low, last) in
    (
      ws,
      subst (λ h'. Holds h' ws) (sym done) v2,
      ap (λ (h' : Heap). used h'.blocks ws) done
          ∙ used2
          ∙ used1
          ∙ ap (λ l. l ++ used h.blocks zs) front
          ∙ ap (λ l. us ++ l) back,
    )
