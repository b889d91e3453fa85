-- ===== src/Scheduler/Chain.antt =====
-- The lists of threads: which indices a chain of next pointers goes through.
use nexus_os.Base.{
  ℕ, ◌+◌, ◌≡◌, refl, sym, ◌≢◌, Option, none, some, List, [], ◌∷◌, ◌++◌, arith, ◌==◌, if◌then◌else◌,
  length, subst,
}
use nexus_os.Scheduler.{Tcb, link}

-- The chain that starts at the pointer goes through these threads and ends in null.
unfoldable pub Chain : (ℕ → Tcb) → Option ℕ → List ℕ → Type 0
Chain f p [] = p ≡ none
Chain f p (t ∷ ts) = (p ≡ some t) × Chain f (f t).next ts

-- The thread is not in the list.
unfoldable pub Apart : ℕ → List ℕ → Type 0
Apart t [] = Unit
Apart t (x ∷ xs) = (x ≢ t) × Apart t xs

unfoldable pub Distinct : List ℕ → Type 0
Distinct [] = Unit
Distinct (x ∷ xs) = Apart x xs × Distinct xs

abbrev pub last : List ℕ → Option ℕ
last [] = none
last (x ∷ []) = some x
last (x ∷ y ∷ xs) = last (y ∷ xs)

-- Two tables with the same next pointers along the list.
pub Chain-same :
    (f g : ℕ → Tcb) (p : Option ℕ) (xs : List ℕ) (t : ℕ)
    → Chain f p xs
    → Apart t xs
    → ((j : ℕ) → j ≢ t → (g j).next ≡ (f j).next)
    → Chain g p xs
unfolding Chain Apart
Chain-same f g p [] t c a h = c
Chain-same f g p (x ∷ xs) t (e, c) (ne, a) h =
    (e, subst (λ n. Chain g n xs) (sym (h x ne)) (Chain-same f g (f x).next xs t c a h))

pub last-Apart : (x l : ℕ) (xs : List ℕ) → Apart x xs → last xs ≡ some l → x ≢ l
unfolding Apart
last-Apart x l [] a e = absurd (ground (arith, e))
last-Apart x l (y ∷ []) (ne, _) e = ground (arith, e)
last-Apart x l (y ∷ z ∷ zs) (_, a) e = last-Apart x l (z ∷ zs) a e

-- The same with two threads outside of the list.
pub Chain-frame :
    (f g : ℕ → Tcb) (p : Option ℕ) (xs : List ℕ) (a b : ℕ)
    → Chain f p xs
    → Apart a xs
    → Apart b xs
    → ((j : ℕ) → j ≢ a → j ≢ b → (g j).next ≡ (f j).next)
    → Chain g p xs
unfolding Chain Apart
Chain-frame f g p [] a b c _ _ h = c
Chain-frame f g p (x ∷ xs) a b (e, c) (na, ra) (nb, rb) h =
    (e, subst (λ n. Chain g n xs) (sym (h x na nb)) (Chain-frame f g (f x).next xs a b c ra rb h))

pub Chain-ext :
    (f g : ℕ → Tcb) (p : Option ℕ) (xs : List ℕ)
    → Chain f p xs
    → ((j : ℕ) → (g j).next ≡ (f j).next)
    → Chain g p xs
unfolding Chain
Chain-ext f g p [] c h = c
Chain-ext f g p (x ∷ xs) (e, c) h =
    (e, subst (λ n. Chain g n xs) (sym (h x)) (Chain-ext f g (f x).next xs c h))

-- Linking a thread behind the last one appends it.
pub Chain-append :
    (f g : ℕ → Tcb) (p : Option ℕ) (xs : List ℕ) (l t : ℕ)
    → Chain f p xs
    → Distinct xs
    → last xs ≡ some l
    → (g l).next ≡ some t
    → (g t).next ≡ none
    → ((j : ℕ) → j ≢ l → j ≢ t → (g j).next ≡ (f j).next)
    → Apart t xs
    → Chain g p (xs ++ (t ∷ []))
unfolding Chain Apart Distinct
Chain-append f g p [] l t c d e at_l at_t h a = absurd (ground (arith, e))
Chain-append f g p (x ∷ []) l t (c, _) d e at_l at_t h a =
    (c, (subst (λ i. (g i).next ≡ some t) (ground (arith, e)) at_l, at_t))
Chain-append f g p (x ∷ y ∷ ys) l t (c, cs) (ax, d) e at_l at_t h (ne, a) = (
  c,
  subst (λ n. Chain g n (y ∷ ys ++ (t ∷ []))) (sym (h x (last-Apart x l (y ∷ ys) ax e) ne))
      (Chain-append f g (f x).next (y ∷ ys) l t cs d e at_l at_t h a),
)

pub Apart-append : (x t : ℕ) (xs : List ℕ) → Apart x xs → t ≢ x → Apart x (xs ++ (t ∷ []))
unfolding Apart
Apart-append x t [] a ne = (ne, tt)
Apart-append x t (y ∷ ys) (h, a) ne = (h, Apart-append x t ys a ne)

pub Distinct-append : (t : ℕ) (xs : List ℕ) → Distinct xs → Apart t xs → Distinct (xs ++ (t ∷ []))
unfolding Distinct Apart
Distinct-append t [] d a = (tt, tt)
Distinct-append t (x ∷ xs) (ax, d) (ne, a) =
    (Apart-append x t xs ax (λ e. ne (sym e)), Distinct-append t xs d a)

pub last-append : (t : ℕ) (xs : List ℕ) → last (xs ++ (t ∷ [])) ≡ some t
last-append t [] = refl
last-append t (x ∷ []) = refl
last-append t (x ∷ y ∷ xs) = last-append t (y ∷ xs)

pub length-append : (t : ℕ) (xs : List ℕ) → length (xs ++ (t ∷ [])) ≡ length xs + 1
length-append t [] = refl
length-append t (x ∷ xs) = ground (arith, length-append t xs)

pub last-some : (x : ℕ) (xs : List ℕ) → last (x ∷ xs) ≢ none
last-some x [] e = ground (arith, e)
last-some x (y ∷ ys) e = last-some y ys e

pub link_next :
    (f : ℕ → Tcb) (i j : ℕ) (p : Option ℕ)
    → (link f i p j).next ≡ (if i == j then p else (f j).next)
link_next f i j p = ground arith
