-- ===== src/Network/Headers.antt =====
-- What the header checks accept.
use nexus_os.Base.{
  ℕ, ◌+◌, ◌/◌, ◌%◌, ◌^◌, ◌≤◌, ◌≡◌, ◌⊎◌, inl, inr, Bool, ◌&&◌, leb, none, some, List, arith, ◌==◌,
  length, get_or, Bool-cases,
}
use nexus_os.Network.{be16, header_bytes, nexus_network_parse_ipv4}

-- The header of an IPv4 packet fits: it has at least 20 bytes and lies inside the buffer and inside
-- the length that the packet states.
pub record HeaderFits (packet : List ℕ) : Type 0 where
  pub version : get_or packet 0 0 / 16 ≡ 4
  pub at_least : 20 ≤ header_bytes packet
  pub inside : header_bytes packet ≤ length packet
  pub stated : header_bytes packet ≤ be16 (get_or packet 2 0) (get_or packet 3 0)

abbrev fits : List ℕ → Bool
fits packet =
    get_or packet 0 0 / 16 == 4
    && leb 20 (header_bytes packet)
    && leb (header_bytes packet) (length packet)
    && leb (header_bytes packet) (be16 (get_or packet 2 0) (get_or packet 3 0))

-- nexus_network_parse_ipv4 gives the protocol of a packet whose header fits and drops every other,
-- counting it.
pub nexus_network_parse_ipv4_lem :
    (packet : List ℕ) (dropped : ℕ)
    → (HeaderFits packet
        × (nexus_network_parse_ipv4 (some packet) dropped ≡ (some (get_or packet 9 0), dropped)))
      ⊎ ((¬ HeaderFits packet)
          × (nexus_network_parse_ipv4 (some packet) dropped ≡ (none, (dropped + 1) % 2 ^ 64)))
unfolding nexus_network_parse_ipv4
nexus_network_parse_ipv4_lem packet dropped = elim (Bool-cases (fits packet)) [
  | inl yes_fits ↦ inl (
    record {
      version = ground arith;
      at_least = ground arith;
      inside = ground arith;
      stated = ground arith;
    },
    ground (arith, yes_fits),
  )
  | inr no_fit ↦ inr (
    λ h. absurd (ground (arith, h.version, h.at_least, h.inside, h.stated, no_fit)),
    ground (arith, no_fit),
  )
]
