-- ===== src/Network/Checksum.antt =====
-- The checksum is the complement of the sum of the words modulo 65535.
use nexus_os.Base.{
  ℕ, ◌+◌, ◌-◌, ◌*◌, ◌/◌, ◌%◌, ◌^◌, ◌≤◌, ◌<◌, ◌≡◌, refl, ap, ◌∙◌, List, [], ◌∷◌, ◌++◌, arith, ◌==◌,
  if◌then◌else◌, length,
}
use nexus_os.Network.{be16, sum_words, fold_carries, fold_fuel, nexus_network_checksum}

-- The sum without a bound; a byte that is left over is the high byte of a word.
pub total : List ℕ → ℕ
total [] = 0
total (high ∷ []) = high * 256 % 2 ^ 16
total (high ∷ low ∷ rest) = be16 high low + total rest

sum_words_lem :
    (bytes : List ℕ) (sum : ℕ)
    → sum + total bytes < 2 ^ 32
    → sum_words bytes sum ≡ sum + total bytes
unfolding sum_words total
sum_words_lem [] sum h = omega arith
sum_words_lem (high ∷ []) sum h = omega arith
sum_words_lem (high ∷ low ∷ rest) sum h =
    ap (sum_words rest) {y = sum + be16 high low} (omega arith)
    ∙ sum_words_lem rest (sum + be16 high low) (omega arith)
    ∙ omega arith

total-le : (bytes : List ℕ) → 2 * total bytes ≤ 65535 * (length bytes + 1)
unfolding total
total-le [] = omega arith
total-le (high ∷ []) = omega arith
total-le (high ∷ low ∷ rest) = omega (arith, total-le rest)

-- The representative of a sum from 1 to 65535, or 0 for 0.
abbrev pub folded : ℕ → ℕ
folded sum = if sum == 0 then 0 else (sum - 1) % 65535 + 1

fold_carries_lem : (sum : ℕ) → sum < 2 ^ 32 → fold_carries fold_fuel sum ≡ folded sum
unfolding fold_carries
fold_carries_lem sum h = ground arith

-- For up to 131072 bytes the checksum is 65535 less the folded sum of the words: two rounds of
-- folding are enough and the sum does not wrap around.
pub nexus_network_checksum_lem :
    (bytes : List ℕ)
    → length bytes ≤ 131072
    → nexus_network_checksum bytes ≡ 65535 - folded (total bytes)
unfolding nexus_network_checksum
nexus_network_checksum_lem bytes small =
    let bound : total bytes < 2 ^ 32 = omega (arith, total-le bytes) in
    let sum = sum_words_lem bytes 0 (omega arith) in
    ground (arith, ap (fold_carries fold_fuel) sum, fold_carries_lem (total bytes) bound)

total-append :
    (bytes : List ℕ) (high low : ℕ)
    → length bytes % 2 ≡ 0
    → total (bytes ++ (high ∷ low ∷ [])) ≡ total bytes + be16 high low
unfolding total
total-append [] high low even = omega arith
total-append (a ∷ []) high low even = absurd (omega arith)
total-append (a ∷ b ∷ rest) high low even = omega (arith, total-append rest high low (omega arith))

length-pair : (bytes : List ℕ) (a b : ℕ) → length (bytes ++ (a ∷ b ∷ [])) ≡ length bytes + 2
length-pair [] a b = refl
length-pair (x ∷ xs) a b = omega (arith, length-pair xs a b)

-- A sum and the checksum of it fold to 65535.
cancels : (t c : ℕ) → c ≡ 65535 - folded t → 65535 - folded (t + be16 (c / 256) (c % 256)) ≡ 0
cancels t c e = ground arith

-- A receiver's check: over data of even length, up to 131070 bytes, with its checksum behind it,
-- the checksum is 0.
pub checksum-append :
    (bytes : List ℕ)
    → length bytes % 2 ≡ 0
    → length bytes ≤ 131070
    → let c = nexus_network_checksum bytes in
      nexus_network_checksum (bytes ++ (c / 256 ∷ c % 256 ∷ [])) ≡ 0
checksum-append bytes even small =
    let c = nexus_network_checksum bytes in
    nexus_network_checksum_lem (bytes ++ (c / 256 ∷ c % 256 ∷ []))
      (omega (arith, length-pair bytes (c / 256) (c % 256)))
    ∙ ap (λ t. 65535 - folded t) (total-append bytes (c / 256) (c % 256) even)
    ∙ cancels (total bytes) c (nexus_network_checksum_lem bytes (omega arith))
