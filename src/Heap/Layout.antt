-- ===== src/Heap/Layout.antt =====
-- The blocks of a sound heap: a doubly linked list that covers the heap without gaps.
use nexus_os.Base.{
  ℕ, ◌+◌, ◌≤◌, ◌<◌, ◌≡◌, refl, sym, ap, Option, none, some, List, [], ◌∷◌, ◌++◌, arith,
  if◌then◌else◌, subst,
}
use nexus_os.Heap.{Block, block_magic, header_size, is_free, put}

-- A block with the right neighbour in front of it.
pub record Good (b : Block) (prev : Option ℕ) : Type 0 where
  pub magic : b.magic ≡ block_magic
  pub prev_link : b.prev ≡ prev
  pub some_bytes : 0 < b.capacity
  pub fits : b.size ≤ b.capacity
  pub flags : b.flags < 2

-- The list behind `prev` that starts with the pointer `p` at the address `a`, goes through these
-- blocks, each where the one before it ends, and ends in null at the address `e`.
unfoldable pub Tiled : (ℕ → Block) → Option ℕ → Option ℕ → ℕ → ℕ → List ℕ → Type 0
Tiled f prev p a e [] = (p ≡ none) × (a ≡ e)
Tiled f prev p a e (x ∷ xs) =
    (p ≡ some x)
    × (x ≡ a)
    × Good (f x) prev
    × Tiled f (some x) (f x).next (x + header_size + (f x).capacity) e xs

-- The block in front of what follows the list.
unfoldable pub last_of : Option ℕ → List ℕ → Option ℕ
last_of prev [] = prev
last_of prev (x ∷ xs) = last_of (some x) xs

-- The allocated blocks with their capacities.
unfoldable pub used : (ℕ → Block) → List ℕ → List (ℕ × ℕ)
used f [] = []
used f (x ∷ xs) = if is_free (f x) then used f xs else (x, (f x).capacity) ∷ used f xs

-- Blocks from an address on.
pub Tiled-le :
    (f : ℕ → Block) (prev p : Option ℕ) (a e : ℕ) (xs : List ℕ) → Tiled f prev p a e xs → a ≤ e
unfolding Tiled
Tiled-le f prev p a e [] t = omega (arith, t.1)
Tiled-le f prev p a e (x ∷ xs) t =
    omega (arith, t.1, Tiled-le f (some x) (f x).next (x + header_size + (f x).capacity) e xs t.3)

-- A block that does not change from `a` on leaves the list from `a` on.
pub Tiled-frame :
    (f g : ℕ → Block) (prev p : Option ℕ) (a e : ℕ) (xs : List ℕ)
    → ((y : ℕ) → a ≤ y → g y ≡ f y)
    → Tiled f prev p a e xs
    → Tiled g prev p a e xs
unfolding Tiled
Tiled-frame f g prev p a e [] h t = t
Tiled-frame f g prev p a e (x ∷ xs) h t =
    let same = h x (omega (arith, t.1)) in
    (
      t.0,
      t.1,
      subst (λ b. Good b prev) (sym same) t.2,
      subst (λ b. Tiled g (some x) b.next (x + header_size + b.capacity) e xs) (sym same)
          (Tiled-frame f g (some x) (f x).next (x + header_size + (f x).capacity) e xs
            (λ y low. h y (omega (arith, low, t.1))) t.3),
    )

pub used-frame :
    (f g : ℕ → Block) (prev p : Option ℕ) (a e : ℕ) (xs : List ℕ)
    → ((y : ℕ) → a ≤ y → g y ≡ f y)
    → Tiled f prev p a e xs
    → used g xs ≡ used f xs
unfolding Tiled used
used-frame f g prev p a e [] h t = refl
used-frame f g prev p a e (x ∷ xs) h t =
    let same = h x (omega (arith, t.1)) in
    let rest =
      used-frame f g (some x) (f x).next (x + header_size + (f x).capacity) e xs
        (λ y low. h y (omega (arith, low, t.1))) t.3 in
    rw (same, rest) refl

-- The part of the list from a block on.
pub Tiled-from :
    (f : ℕ → Block) (prev p : Option ℕ) (a e : ℕ) (xs : List ℕ) (x : ℕ) (ys : List ℕ)
    → Tiled f prev p a e (xs ++ (x ∷ ys))
    → Tiled f (last_of prev xs) (some x) x e (x ∷ ys) × (a ≤ x)
unfolding Tiled last_of
Tiled-from f prev p a e [] x ys t = ((refl, refl, t.2, t.3), omega (arith, t.1))
Tiled-from f prev p a e (w ∷ xs) x ys t =
    let (rest, low) =
      Tiled-from f (some w) (f w).next (w + header_size + (f w).capacity) e xs x ys t.3 in
    (rest, omega (arith, low, t.1))

-- Another part from the block on, with the blocks in front of it as they were.
pub Tiled-replace :
    (f g : ℕ → Block) (prev p : Option ℕ) (a e e' : ℕ) (xs : List ℕ) (x : ℕ) (ys zs : List ℕ)
    → ((y : ℕ) → y < x → g y ≡ f y)
    → Tiled f prev p a e (xs ++ (x ∷ ys))
    → Tiled g (last_of prev xs) (some x) x e' zs
    → Tiled g prev p a e' (xs ++ zs) × (used g (xs ++ zs) ≡ used f xs ++ used g zs)
unfolding Tiled last_of used
Tiled-replace f g prev p a e e' [] x ys zs h t r = (
  subst (λ q. Tiled g prev q a e' zs) (sym t.0) (subst (λ b. Tiled g prev (some x) b e' zs) t.1 r),
  refl,
)
Tiled-replace f g prev p a e e' (w ∷ xs) x ys zs h t r =
    let (from, low) =
      Tiled-from f (some w) (f w).next (w + header_size + (f w).capacity) e xs x ys t.3 in
    let same = h w (omega (arith, low)) in
    let (tiled, same_used) =
      Tiled-replace f g (some w) (f w).next (w + header_size + (f w).capacity) e e' xs x ys zs h t.3
        r in
    (
      (
        t.0,
        t.1,
        subst (λ b. Good b prev) (sym same) t.2,
        subst (λ b. Tiled g (some w) b.next (w + header_size + b.capacity) e' (xs ++ zs)) (sym same)
            tiled,
      ),
      ground (arith, same_used, ap is_free same, ap (λ (b : Block). b.capacity) same),
    )

pub used-append : (f : ℕ → Block) (xs ys : List ℕ) → used f (xs ++ ys) ≡ used f xs ++ used f ys
unfolding used
used-append f [] ys = refl
used-append f (x ∷ xs) ys = ground (arith, used-append f xs ys)

-- Another block in the place of `x`, with the same capacity and the same links.
pub Tiled-put :
    (f : ℕ → Block) (p : Option ℕ) (a e : ℕ) (ys : List ℕ) (x : ℕ) (zs : List ℕ) (b : Block)
    → Tiled f none p a e (ys ++ (x ∷ zs))
    → ((prev : Option ℕ) → Good (f x) prev → Good b prev)
    → b.next ≡ (f x).next
    → b.capacity ≡ (f x).capacity
    → Tiled (put f x b) none p a e (ys ++ (x ∷ zs))
      × (used (put f x b) (ys ++ (x ∷ zs)) ≡ used f ys ++ used (put f x b) (x ∷ zs))
      × (used (put f x b) zs ≡ used f zs)
unfolding Tiled
Tiled-put f p a e ys x zs b t good next capacity =
    let g = put f x b in
    let (suffix, low) = Tiled-from f none p a e ys x zs t in
    let end = x + header_size + (f x).capacity in
    let same : (z : ℕ) → end ≤ z → g z ≡ f z = λ z above. ground (arith, above) in
    let here : g x ≡ b = ground arith in
    let behind =
      subst (λ q. Tiled g (some x) q end e zs) (sym next)
        (Tiled-frame f g (some x) (f x).next end e zs same suffix.3) in
    let changed : Tiled g (last_of none ys) (some x) x e (x ∷ zs) = (
      refl,
      refl,
      subst (λ q. Good q (last_of none ys)) (sym here) (good (last_of none ys) suffix.2),
      subst (λ q. Tiled g (some x) q.next (x + header_size + q.capacity) e zs) (sym here)
          (subst (λ c. Tiled g (some x) b.next (x + header_size + c) e zs) (sym capacity) behind),
    ) in
    let (tiled, whole) =
      Tiled-replace f g none p a e e ys x zs (x ∷ zs) (λ y below. ground (arith, below)) t
        changed in
    (tiled, whole, used-frame f g (some x) (f x).next end e zs same suffix.3)

-- The blocks in front of `x`.
pub used_before :
    (f g : ℕ → Block) (prev p : Option ℕ) (a e : ℕ) (xs : List ℕ) (x : ℕ) (ys : List ℕ)
    → ((y : ℕ) → y < x → g y ≡ f y)
    → Tiled f prev p a e (xs ++ (x ∷ ys))
    → used g xs ≡ used f xs
unfolding Tiled used
used_before f g prev p a e [] x ys h t = refl
used_before f g prev p a e (w ∷ xs) x ys h t =
    let end = w + header_size + (f w).capacity in
    let (from, low) = Tiled-from f (some w) (f w).next end e xs x ys t.3 in
    let same = h w (omega (arith, low)) in
    ground (
      arith,
      used_before f g (some w) (f w).next end e xs x ys h t.3,
      ap is_free same,
      ap (λ (b : Block). b.capacity) same,
    )

-- Blocks that do not change below the end of the list.
pub Tiled-below :
    (f g : ℕ → Block) (prev p : Option ℕ) (a e : ℕ) (xs : List ℕ)
    → ((y : ℕ) → y < e → g y ≡ f y)
    → Tiled f prev p a e xs
    → Tiled g prev p a e xs × (used g xs ≡ used f xs)
unfolding Tiled used
Tiled-below f g prev p a e [] h t = (t, refl)
Tiled-below f g prev p a e (x ∷ xs) h t =
    let end = x + header_size + (f x).capacity in
    let same = h x (omega (arith, Tiled-le f (some x) (f x).next end e xs t.3)) in
    let (rest, rest_used) = Tiled-below f g (some x) (f x).next end e xs h t.3 in
    (
      (
        t.0,
        t.1,
        subst (λ b. Good b prev) (sym same) t.2,
        subst (λ b. Tiled g (some x) b.next (x + header_size + b.capacity) e xs) (sym same) rest,
      ),
      ground (arith, rest_used, ap is_free same, ap (λ (b : Block). b.capacity) same),
    )
