-- ===== src/Network.antt =====
-- kernel/core/network/network.c: the checksum and the checks of frame and packet headers. A buffer
-- with its length is the list of its bytes. `a << 8 | b` on bytes is written `a * 256 + b`.
pub mod Checksum
pub mod Headers
mod Tests
use nexus_os.Base.{
  ℕ, zero, suc, ◌+◌, ◌-◌, ◌*◌, ◌/◌, ◌%◌, ◌^◌, Bool, true, false, ◌||◌, not, Option, none, some,
  List, [], ◌∷◌, ltb, ◌==◌, if◌then◌else◌, length, get_or,
}

abbrev pub be16 : ℕ → ℕ → ℕ
be16 high low = (high * 256 + low) % 2 ^ 16

-- The sum of the words, on a uint32_t.
pub sum_words : List ℕ → ℕ → ℕ
sum_words [] sum = sum
sum_words (high ∷ []) sum = (sum + high * 256 % 2 ^ 16) % 2 ^ 32
sum_words (high ∷ low ∷ rest) sum = sum_words rest ((sum + be16 high low) % 2 ^ 32)

-- while (sum >> 16) sum = (sum & 0xffff) + (sum >> 16)
pub fold_carries : ℕ → ℕ → ℕ
fold_carries zero sum = sum
fold_carries (suc fuel) sum =
    let rest = fold_carries fuel ((sum % 2 ^ 16 + sum / 2 ^ 16) % 2 ^ 32) in
    if sum / 2 ^ 16 == 0 then sum else rest

-- A 32-bit sum has no carry left after two rounds.
abbrev pub fold_fuel : ℕ
fold_fuel = 2

pub nexus_network_checksum : List ℕ → ℕ
nexus_network_checksum bytes = (2 ^ 32 - 1 - fold_carries fold_fuel (sum_words bytes 0)) % 2 ^ 16

-- The result, with the counter dropped_packets.
pub nexus_network_parse_ethernet : Option (List ℕ) → ℕ → Option ℕ × ℕ
nexus_network_parse_ethernet none dropped = (none, (dropped + 1) % 2 ^ 64)
nexus_network_parse_ethernet (some frame) dropped =
    if ltb (length frame) 14
    then (none, (dropped + 1) % 2 ^ 64)
    else (some (be16 (get_or frame 12 0) (get_or frame 13 0)), dropped)

-- The length of the header in bytes, from the first byte.
abbrev pub header_bytes : List ℕ → ℕ
header_bytes packet = get_or packet 0 0 % 16 * 4

pub nexus_network_parse_ipv4 : Option (List ℕ) → ℕ → Option ℕ × ℕ
nexus_network_parse_ipv4 none dropped = (none, (dropped + 1) % 2 ^ 64)
nexus_network_parse_ipv4 (some packet) dropped =
    let ihl = header_bytes packet in
    if ltb (length packet) 20 || not (get_or packet 0 0 / 16 == 4)
    then (none, (dropped + 1) % 2 ^ 64)
    else if ltb ihl 20
        || ltb (length packet) ihl
        || ltb (be16 (get_or packet 2 0) (get_or packet 3 0)) ihl
    then (none, (dropped + 1) % 2 ^ 64)
    else (some (get_or packet 9 0), dropped)
