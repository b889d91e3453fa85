-- ===== src/Network/Tests.antt =====
-- A packet header of 20 bytes, and its checksum.
use nexus_os.Base.{ℕ, ◌/◌, ◌%◌, ◌-◌, ◌≡◌, ◌⊎◌, refl, none, some, List, [], ◌∷◌, ◌++◌, arith}
use nexus_os.Network.{nexus_network_checksum, nexus_network_parse_ipv4}
use nexus_os.Network.Checksum.{total, folded, nexus_network_checksum_lem, checksum-append}
use nexus_os.Network.Headers.{HeaderFits, nexus_network_parse_ipv4_lem}

abbrev packet : List ℕ
packet =
    0x45 ∷ 0 ∷ 0 ∷ 0x54 ∷ 0x12 ∷ 0x34 ∷ 0x40 ∷ 0 ∷ 0x40 ∷ 17 ∷ 0 ∷ 0 ∷ 10 ∷ 0 ∷ 0 ∷ 1 ∷ 10 ∷ 0 ∷ 0
    ∷ 2 ∷ []

nexus_network_checksum_lem_example : nexus_network_checksum packet ≡ 65535 - folded (total packet)
nexus_network_checksum_lem_example = nexus_network_checksum_lem packet (omega arith)

checksum-append_example :
    nexus_network_checksum
      (packet ++ (nexus_network_checksum packet / 256 ∷ nexus_network_checksum packet % 256 ∷ []))
    ≡ 0
checksum-append_example = checksum-append packet refl (omega arith)

nexus_network_parse_ipv4_lem_example :
    (HeaderFits packet × (nexus_network_parse_ipv4 (some packet) 7 ≡ (some 17, 7)))
    ⊎ ((¬ HeaderFits packet) × (nexus_network_parse_ipv4 (some packet) 7 ≡ (none, 8)))
nexus_network_parse_ipv4_lem_example = nexus_network_parse_ipv4_lem packet 7
