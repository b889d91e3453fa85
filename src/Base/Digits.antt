-- ===== src/Base/Digits.antt =====
-- The bitwise or of a power of two and a smaller number is their sum.
use Prim.Native.Nat.{bit_or, bit_or-bitwise, digits, max}
use nexus_os.Base.{◌∙◌, ℕ, zero, suc, ◌+◌, ◌*◌, ◌/◌, ◌≤◌, ◌<◌, ◌≡◌, refl, ap, arith}

abbrev pub power : ℕ → ℕ
power zero = 1
power (suc k) = power k * 2

abbrev or_digits : ℕ → ℕ → ℕ → ℕ
or_digits n a b = digits (λ d. d) max n a b

or_digits-zero : (n b : ℕ) → or_digits n 0 b ≡ b
or_digits-zero zero b = refl
or_digits-zero (suc n) b = refl

or_digits-power : (k n a b : ℕ) → a ≡ power k → a ≤ n → b < power k → or_digits n a b ≡ a + b
or_digits-power k zero a b e fuel small = absurd (omega arith)
or_digits-power k (suc n) zero b e fuel small = absurd (omega arith)
or_digits-power zero (suc n) (suc a) b e fuel small =
    let none_left : suc a / 2 ≡ 0 = omega arith in
    omega (arith, ap (λ h. or_digits n h (b / 2)) none_left, or_digits-zero n (b / 2))
or_digits-power (suc k) (suc n) (suc a) b e fuel small =
    omega (arith, or_digits-power k n (suc a / 2) (b / 2) (omega arith) (omega arith) (omega arith))

pub bit_or-power : (k b : ℕ) → b < power k → bit_or (power k) b ≡ power k + b
bit_or-power k b small =
    bit_or-bitwise (power k) b ∙ or_digits-power k (power k) (power k) b refl (omega arith) small
