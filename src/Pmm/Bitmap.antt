-- ===== src/Pmm/Bitmap.antt =====
-- The bitmap behaves as a set of pages.
use Prim.Native.Nat.{bit_and, bit_or}
use nexus_os.Base.{
  ℕ, zero, suc, ◌-◌, ◌/◌, ◌%◌, ◌^◌, ◌<◌, ◌≡◌, refl, sym, Bool, true, false, ◌&&◌, not, arith, ltb,
  ◌==◌, if◌then◌else◌,
}
use nexus_os.Pmm.{bitmap_set, bitmap_clear, bitmap_test}

-- Every entry is a byte.
abbrev pub AreBytes : (ℕ → ℕ) → Type 0
AreBytes b = (i : ℕ) → b i < 256

-- Finite checks by evaluation.
every : ℕ → (ℕ → Bool) → Bool
every zero p = true
every (suc n) p = p n && every n p

every_sound : (n : ℕ) (p : ℕ → Bool) (x : ℕ) → every n p ≡ true → x < n → p x ≡ true
unfolding every
every_sound zero p x h lt = absurd (omega arith)
every_sound (suc n) p x h lt = ground (arith, every_sound n p x)

abbrev bit : ℕ → ℕ → Bool
bit byte k = not (bit_and byte (2 ^ k) == 0)

abbrev same : Bool → Bool → Bool
same true b = b
same false b = not b

same_eq : (a b : Bool) → same a b ≡ true → a ≡ b
same_eq true b h = sym h
same_eq false b h = ground arith

abbrev reads_set : ℕ → ℕ → ℕ → Bool
reads_set byte k j = same (bit (bit_or byte (2 ^ k)) j) (if k == j then true else bit byte j)

abbrev reads_clear : ℕ → ℕ → ℕ → Bool
reads_clear byte k j =
    same (bit (bit_and byte (255 - 2 ^ k)) j) (if k == j then false else bit byte j)

abbrev both_bytes : ℕ → ℕ → ℕ → Bool
both_bytes byte k _ = ltb (bit_or byte (2 ^ k)) 256 && ltb (bit_and byte (255 - 2 ^ k)) 256

abbrev everywhere : (ℕ → ℕ → ℕ → Bool) → Bool
everywhere f = every 256 (λ byte. every 8 (λ k. every 8 (f byte k)))

set_table : everywhere reads_set ≡ true
unfolding every
set_table = refl

clear_table : everywhere reads_clear ≡ true
unfolding every
clear_table = refl

byte_table : everywhere both_bytes ≡ true
unfolding every
byte_table = refl

table_at :
    (f : ℕ → ℕ → ℕ → Bool)
    → everywhere f ≡ true
    → (byte k j : ℕ) → byte < 256
    → k < 8
    → j < 8
    → f byte k j ≡ true
table_at f h byte k j hb hk hj =
    every_sound 8 (f byte k) j
      (every_sound 8 (λ k. every 8 (f byte k)) k
        (every_sound 256 (λ byte. every 8 (λ k. every 8 (f byte k))) byte h hb) hk)
      hj

module _ (b : ℕ → ℕ) (bytes : AreBytes b) (p : ℕ) where
  pub bitmap_set-AreBytes : AreBytes (bitmap_set b p)
  unfolding bitmap_set
  bitmap_set-AreBytes i =
      ground (arith, bytes i, table_at both_bytes byte_table (b (p / 8)) (p % 8) 0 (bytes (p / 8)))

  pub bitmap_clear-AreBytes : AreBytes (bitmap_clear b p)
  unfolding bitmap_clear
  bitmap_clear-AreBytes i =
      ground (arith, bytes i, table_at both_bytes byte_table (b (p / 8)) (p % 8) 0 (bytes (p / 8)))

  bit_set :
      (j : ℕ)
      → j < 8
      → bit (bit_or (b (p / 8)) (2 ^ (p % 8))) j ≡ (if p % 8 == j then true else bit (b (p / 8)) j)
  bit_set j h =
      same_eq _ _
        (table_at reads_set set_table (b (p / 8)) (p % 8) j (bytes (p / 8)) (omega arith) h)

  bit_clear :
      (j : ℕ)
      → j < 8
      → bit (bit_and (b (p / 8)) (255 - 2 ^ (p % 8))) j
        ≡ (if p % 8 == j then false else bit (b (p / 8)) j)
  bit_clear j h =
      same_eq _ _
        (table_at reads_clear clear_table (b (p / 8)) (p % 8) j (bytes (p / 8)) (omega arith) h)

  -- Setting a page's bit makes that page used, and no other.
  pub bitmap_test-set :
      (q : ℕ) → bitmap_test (bitmap_set b p) q ≡ (if p == q then true else bitmap_test b q)
  unfolding bitmap_test bitmap_set
  bitmap_test-set q = ground (arith, bit_set (q % 8) (omega arith))

  pub bitmap_test-clear :
      (q : ℕ) → bitmap_test (bitmap_clear b p) q ≡ (if p == q then false else bitmap_test b q)
  unfolding bitmap_test bitmap_clear
  bitmap_test-clear q = ground (arith, bit_clear (q % 8) (omega arith))

full_table : every 8 (bit 255) ≡ true
unfolding every
full_table = refl

pub bitmap_test-full : (q : ℕ) → bitmap_test (λ _. 255) q ≡ true
unfolding bitmap_test
bitmap_test-full q = every_sound 8 (bit 255) (q % 8) full_table (omega arith)
