-- ===== src/Base/Lists.antt =====
-- C arrays as lists with native indices, under the library's names.
use Prim.Native.Nat.{ℕ, zero, suc, ◌+◌, ◌≤◌, ◌<◌, min}
use mathlib.Core.Path.{◌≡◌, refl, ap}
use mathlib.Core.Logic.{◌≢◌, ◌⊎◌, inl, inr}
use mathlib.Core.List.{List, [], ◌∷◌, ◌++◌}
use mathlib.Core.Option.{Option, none, some}
use mathlib.Core.Bool.{Bool, true, false}
use native.Mathlib.Omega.{arith}
use nexus_os.Base.Tests.{if◌then◌else◌}

module _ {ℓ} {A : Type ℓ} where
  abbrev pub length : List A → ℕ
  length [] = 0
  length (x ∷ xs) = suc (length xs)

  abbrev pub get_elem? : List A → ℕ → Option A
  get_elem? [] i = none
  get_elem? (x ∷ xs) zero = some x
  get_elem? (x ∷ xs) (suc i) = get_elem? xs i

  -- A read out of bounds gives the default.
  abbrev pub get_or : List A → ℕ → A → A
  get_or [] i d = d
  get_or (x ∷ xs) zero d = x
  get_or (x ∷ xs) (suc i) d = get_or xs i d

  -- A write out of bounds changes nothing.
  abbrev pub set : List A → ℕ → A → List A
  set [] i v = []
  set (x ∷ xs) zero v = v ∷ xs
  set (x ∷ xs) (suc i) v = x ∷ set xs i v

  abbrev pub take : ℕ → List A → List A
  take zero xs = []
  take (suc n) [] = []
  take (suc n) (x ∷ xs) = x ∷ take n xs

  abbrev pub drop : ℕ → List A → List A
  drop zero xs = xs
  drop (suc n) [] = []
  drop (suc n) (x ∷ xs) = drop n xs

  -- for (i = 0; i < n; i++) dst[i] = src[i]. A source that is too short ends the copy.
  abbrev pub overwrite : ℕ → List A → List A → List A
  overwrite zero src dst = dst
  overwrite (suc n) [] dst = dst
  overwrite (suc n) (x ∷ src) [] = []
  overwrite (suc n) (x ∷ src) (y ∷ dst) = x ∷ overwrite n src dst

  -- The first index whose entry passes the test.
  unfoldable pub find_index : (A → Bool) → List A → Option ℕ
  find_index p [] = none
  find_index p (x ∷ xs) =
      if p x then some 0 else elim (find_index p xs) [ none ↦ none | some i ↦ some (suc i) ]

  abbrev pub replicate : ℕ → A → List A
  replicate zero a = []
  replicate (suc n) a = a ∷ replicate n a

module _ {ℓ} {A : Type ℓ} where
  pub length-append : (xs ys : List A) → length (xs ++ ys) ≡ length xs + length ys
  length-append [] ys = omega arith
  length-append (x ∷ xs) ys = omega (arith, length-append xs ys)

  pub length-set : (xs : List A) (i : ℕ) (v : A) → length (set xs i v) ≡ length xs
  length-set [] i v = refl
  length-set (x ∷ xs) zero v = refl
  length-set (x ∷ xs) (suc i) v = ap suc (length-set xs i v)

  pub length-take : (n : ℕ) (xs : List A) → length (take n xs) ≡ min n (length xs)
  length-take zero xs = omega arith
  length-take (suc n) [] = omega arith
  length-take (suc n) (x ∷ xs) = omega (arith, length-take n xs)

  pub length-replicate : (n : ℕ) (a : A) → length (replicate n a) ≡ n
  length-replicate zero a = refl
  length-replicate (suc n) a = ap suc (length-replicate n a)

  pub get_or-set_self :
      (xs : List A) (i : ℕ) (v d : A) → i < length xs → get_or (set xs i v) i d ≡ v
  get_or-set_self [] i v d h = absurd (omega arith)
  get_or-set_self (x ∷ xs) zero v d h = refl
  get_or-set_self (x ∷ xs) (suc i) v d h = get_or-set_self xs i v d (omega arith)

  pub get_or-set_ne :
      (xs : List A) (i j : ℕ) (v d : A) → i ≢ j → get_or (set xs i v) j d ≡ get_or xs j d
  get_or-set_ne [] i j v d h = refl
  get_or-set_ne (x ∷ xs) zero zero v d h = absurd (h refl)
  get_or-set_ne (x ∷ xs) zero (suc j) v d h = refl
  get_or-set_ne (x ∷ xs) (suc i) zero v d h = refl
  get_or-set_ne (x ∷ xs) (suc i) (suc j) v d h = get_or-set_ne xs i j v d (λ e. h (ap suc e))

  pub take-overwrite :
      (n : ℕ) (src dst : List A)
      → n ≤ length src
      → n ≤ length dst
      → take n (overwrite n src dst) ≡ take n src
  take-overwrite zero src dst h k = refl
  take-overwrite (suc n) [] dst h k = absurd (omega arith)
  take-overwrite (suc n) (x ∷ src) [] h k = absurd (omega arith)
  take-overwrite (suc n) (x ∷ src) (y ∷ dst) h k =
      ap (◌∷◌ x) (take-overwrite n src dst (omega arith) (omega arith))

  pub length-overwrite : (n : ℕ) (src dst : List A) → length (overwrite n src dst) ≡ length dst
  length-overwrite zero src dst = refl
  length-overwrite (suc n) [] dst = refl
  length-overwrite (suc n) (x ∷ src) [] = refl
  length-overwrite (suc n) (x ∷ src) (y ∷ dst) = ap suc (length-overwrite n src dst)

  find_index_later :
      (p : A → Bool) (x : A) (xs : List A) (i : ℕ)
      → find_index p (x ∷ xs) ≡ some (suc i)
      → (p x ≡ false) × (find_index p xs ≡ some i)
  unfolding find_index
  find_index_later p x xs i e = ground arith

  find_index_now :
      (p : A → Bool) (x : A) (xs : List A) → find_index p (x ∷ xs) ≡ some 0 → p x ≡ true
  unfolding find_index
  find_index_now p x xs e = ground arith

  -- What the search finds is in range and passes, and nothing before it does.
  pub find_index-some :
      (p : A → Bool) (xs : List A) (d : A) (i : ℕ)
      → find_index p xs ≡ some i
      → (i < length xs) × (p (get_or xs i d) ≡ true) × ((j : ℕ) → j < i → p (get_or xs j d) ≡ false)
  find_index-some p [] d i e = unfold find_index in (cc e)
  find_index-some p (x ∷ xs) d zero e =
      (omega arith, find_index_now p x xs e, λ j h. absurd (omega arith))
  find_index-some p (x ∷ xs) d (suc i) e =
      let (no_match, later) = find_index_later p x xs i e in
      let (in_range, passes, before) = find_index-some p xs d i later in
      (omega arith, passes, elim [ zero ↦ λ h. no_match | suc j ↦ λ h. before j (omega arith) ])

  pub find_index-none :
      (p : A → Bool) (xs : List A) (d : A) (j : ℕ)
      → find_index p xs ≡ none
      → j < length xs
      → p (get_or xs j d) ≡ false
  unfolding find_index
  find_index-none p [] d j e h = absurd (omega arith)
  find_index-none p (x ∷ xs) d zero e h = ground arith
  find_index-none p (x ∷ xs) d (suc j) e h = ground (arith, find_index-none p xs d j)

  -- A write that the test cannot tell apart does not change the search.
  pub find_index-set :
      (p : A → Bool) (xs : List A) (i : ℕ) (x d : A)
      → p x ≡ p (get_or xs i d)
      → find_index p (set xs i x) ≡ find_index p xs
  unfolding find_index
  find_index-set p [] i x d e = refl
  find_index-set p (y ∷ xs) zero x d e = ground arith
  find_index-set p (y ∷ xs) (suc i) x d e = ground (arith, find_index-set p xs i x d e)

  -- Reading after a write gives the value written or what was there.
  pub get_or-set_cases :
      (xs : List A) (i j : ℕ) (v d : A)
      → (get_or (set xs i v) j d ≡ v) ⊎ (get_or (set xs i v) j d ≡ get_or xs j d)
  get_or-set_cases [] i j v d = inr refl
  get_or-set_cases (x ∷ xs) zero zero v d = inl refl
  get_or-set_cases (x ∷ xs) zero (suc j) v d = inr refl
  get_or-set_cases (x ∷ xs) (suc i) zero v d = inr refl
  get_or-set_cases (x ∷ xs) (suc i) (suc j) v d = get_or-set_cases xs i j v d

  -- A slot that is reset to the default reads so, in range or not.
  pub get_or-set_default : (xs : List A) (i : ℕ) (d : A) → get_or (set xs i d) i d ≡ d
  get_or-set_default [] i d = refl
  get_or-set_default (x ∷ xs) zero d = refl
  get_or-set_default (x ∷ xs) (suc i) d = get_or-set_default xs i d

  pub get_or-replicate : (n i : ℕ) (a : A) → get_or (replicate n a) i a ≡ a
  get_or-replicate zero i a = refl
  get_or-replicate (suc n) zero a = refl
  get_or-replicate (suc n) (suc i) a = get_or-replicate n i a
