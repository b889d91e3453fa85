-- ===== src/Base/Count.antt =====
-- Counting the numbers below a bound that a test leaves free.
use Prim.Native.Nat.{ℕ, zero, suc, ◌+◌, ◌≤◌, ◌<◌}
use mathlib.Core.Path.{◌≡◌, refl, ap}
use mathlib.Core.Logic.{inl, inr}
use mathlib.Core.Bool.{Bool, true, false}
use native.Mathlib.Omega.{arith}
use nexus_os.Base.Tests.{◌==◌, if◌then◌else◌, Bool-cases}

-- The numbers below `n` that the test leaves free.
unfoldable pub count_free : (ℕ → Bool) → ℕ → ℕ
count_free used zero = 0
count_free used (suc n) = count_free used n + (if used n then 0 else 1)

pub count_free_same :
    (f g : ℕ → Bool) (n : ℕ) → ((q : ℕ) → q < n → f q ≡ g q) → count_free f n ≡ count_free g n
unfolding count_free
count_free_same f g zero h = refl
count_free_same f g (suc n) h =
    ground (arith, h n, count_free_same f g n (λ q lt. h q (omega arith)))

pub count_free_none : (f : ℕ → Bool) (n : ℕ) → ((q : ℕ) → q < n → f q ≡ true) → count_free f n ≡ 0
unfolding count_free
count_free_none f zero h = refl
count_free_none f (suc n) h = ground (arith, h n, count_free_none f n (λ q lt. h q (omega arith)))

-- One number less.
pub count_free_take :
    (f g : ℕ → Bool) (p n : ℕ)
    → p < n
    → f p ≡ false
    → ((q : ℕ) → g q ≡ (if p == q then true else f q))
    → count_free g n + 1 ≡ count_free f n
unfolding count_free
count_free_take f g p zero h e same = elim h [ ]
count_free_take f g p (suc n) h e same = elim (Bool-cases (p == n)) [
  | inl last ↦ ground (arith, same n, count_free_same f g n (λ q lt. ground (arith, same q)))
  | inr before ↦ ground (arith, same n, count_free_take f g p n (ground arith) e same)
]

pub count_free-le : (f : ℕ → Bool) (n : ℕ) → count_free f n ≤ n
unfolding count_free
count_free-le f zero = omega arith
count_free-le f (suc n) = ground (arith, count_free-le f n)

-- The more the test takes, the fewer are left.
pub count_free-monotone :
    (f g : ℕ → Bool) (n : ℕ) → ((q : ℕ) → f q ≡ true → g q ≡ true) → count_free g n ≤ count_free f n
unfolding count_free
count_free-monotone f g zero h = omega arith
count_free-monotone f g (suc n) h = ground (arith, h n, count_free-monotone f g n h)

pub count_free-lt :
    (f g : ℕ → Bool) (p n : ℕ)
    → ((q : ℕ) → f q ≡ true → g q ≡ true)
    → p < n
    → f p ≡ false
    → g p ≡ true
    → count_free g n < count_free f n
unfolding count_free
count_free-lt f g p zero h small free taken = elim small [ ]
count_free-lt f g p (suc n) h small free taken = elim (Bool-cases (p == n)) [
  | inl last ↦ ground (
    arith,
    last,
    free,
    taken,
    ap f {x = p} {y = n},
    ap g {x = p} {y = n},
    count_free-monotone f g n h,
  )
  | inr before ↦ ground (arith, h n, count_free-lt f g p n h (ground arith) free taken)
]
