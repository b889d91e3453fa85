-- ===== src/Base/Ring.antt =====
-- Circular buffers: what an array holds from a start index on, going round at its capacity.
-- Indices run on past the capacity and are reduced where the array is read.
use Prim.Native.Nat.{ℕ, zero, suc, ◌+◌, ◌-◌, ◌%◌, ◌≤◌, ◌<◌}
use mathlib.Core.Path.{◌≡◌, refl, ap, ap₂, ◌∙◌}
use mathlib.Core.Logic.{◌≢◌}
use mathlib.Core.List.{List, [], ◌∷◌, ◌++◌}
use native.Mathlib.Nat.{mod-add-mod, mod-eq_of_lt, mod-eq-sub-mod, mod-lt}
use native.Mathlib.Decide.{dec_lt}
use native.Mathlib.Omega.{arith}
use nexus_os.Base.Lists.{length, get_or, set, get_or-set_self, get_or-set_ne}

-- Indices less than one turn apart are different slots.
below_turn : (cap r m : ℕ) → r < cap → suc m < cap → (r + suc m) % cap ≢ r
below_turn cap r m hr hm = elim (dec_lt (r + suc m) cap) [
  | yes fits ↦ omega (arith, mod-eq_of_lt fits)
  | no wraps ↦ omega (
    arith,
    mod-eq-sub-mod {n = r + suc m} {m = cap} (omega arith),
    mod-eq_of_lt {n = r + suc m - cap} {m = cap} (omega arith),
  )
]

pub slots-ne : (cap k m : ℕ) → suc m < cap → (k + suc m) % cap ≢ k % cap
slots-ne cap k m h e =
    below_turn cap (k % cap) m (mod-lt k (omega arith)) h (mod-add-mod k cap (suc m) ∙ e)

module _ {ℓ} {A : Type ℓ} (d : A) (cap : ℕ) where
  -- The `n` entries from index `k` on.
  abbrev pub around : List A → ℕ → ℕ → List A
  around buf k zero = []
  around buf k (suc n) = get_or buf (k % cap) d ∷ around buf (suc k) n

  pub length-around : (buf : List A) (k n : ℕ) → length (around buf k n) ≡ n
  length-around buf k zero = refl
  length-around buf k (suc n) = ap suc (length-around buf (suc k) n)

  -- Only the start's slot matters.
  pub around_start :
      (buf : List A) (k j n : ℕ) → k % cap ≡ j % cap → around buf k n ≡ around buf j n
  around_start buf k j zero e = refl
  around_start buf k j (suc n) e =
      ap₂ ◌∷◌ (ap (λ i. get_or buf i d) e) (around_start buf (suc k) (suc j) n next)
    where
      next : suc k % cap ≡ suc j % cap
      next = omega (
        arith,
        mod-add-mod k cap 1,
        mod-add-mod j cap 1,
        ap (λ (i : ℕ). (i + 1) % cap) e,
        ap (λ (i : ℕ). i % cap) {x = k + 1} {y = suc k} (omega arith),
        ap (λ (i : ℕ). i % cap) {x = j + 1} {y = suc j} (omega arith),
      )

  pub around-suc :
      (buf : List A) (k n : ℕ)
      → around buf k (suc n) ≡ around buf k n ++ (get_or buf ((k + n) % cap) d ∷ [])
  around-suc buf k zero = ap (λ i. get_or buf (i % cap) d ∷ []) (omega arith)
  around-suc buf k (suc n) = ap (◌∷◌ (get_or buf (k % cap) d)) (
      around-suc buf (suc k) n
      ∙ ap (λ i. around buf (suc k) n ++ (get_or buf (i % cap) d ∷ [])) (omega arith))

  -- A write to a slot past the entries does not change them.
  pub around-set_past :
      (buf : List A) (k n m : ℕ) (x : A)
      → n ≤ m
      → m < cap
      → around (set buf ((k + m) % cap) x) k n ≡ around buf k n
  around-set_past buf k zero m x h b = refl
  around-set_past buf k (suc n) zero x h b = absurd (omega arith)
  around-set_past buf k (suc n) (suc m) x h b =
      ap₂ ◌∷◌ (get_or-set_ne buf ((k + suc m) % cap) (k % cap) x d (slots-ne cap k m b)) (
        ap (λ i. around (set buf (i % cap) x) (suc k) n) (omega arith)
        ∙ around-set_past buf (suc k) n m x (omega arith) (omega arith))

  -- A write to the slot just past the entries appends the value.
  pub around-set :
      (buf : List A) (k n : ℕ) (x : A)
      → cap ≤ length buf
      → n < cap
      → around (set buf ((k + n) % cap) x) k (suc n) ≡ around buf k n ++ (x ∷ [])
  around-set buf k n x room h =
      around-suc (set buf ((k + n) % cap) x) k n
      ∙ ap₂ (λ xs y. xs ++ (y ∷ [])) (around-set_past buf k n n x (omega arith) h)
          (get_or-set_self buf ((k + n) % cap) x d
            (omega (arith, mod-lt (k + n) {m = cap} (omega arith))))
