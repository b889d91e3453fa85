-- ===== src/Gpt.antt =====
-- fs/gpt/gpt.c and gpt.h: the partition table of the disk. The disk driver is a parameter, and a
-- buffer is the function from an offset to its byte.
pub mod Scan
pub mod Names
mod Tests
use nexus_os.Base.{
  ℕ, zero, suc, ◌+◌, ◌-◌, ◌*◌, ◌/◌, ◌%◌, ◌^◌, Bool, true, false, ◌&&◌, ◌||◌, not, Option, none,
  some, List, [], ◌∷◌, ◌++◌, ltb, leb, ◌==◌, if◌then◌else◌, length,
}
use nexus_os.Base.Text.{str_eq}

-- drivers/storage/ahci: the state of the driver, and the bytes that a read of `count` sectors gives.
pub record Disk : Type 0 where
  pub ahci_is_ready : Bool
  pub ahci_read_sectors : (lba count : ℕ) → Option (ℕ → ℕ)

-- NEXUS_GPT_MAX_PARTITIONS, NEXUS_GPT_NAME_LEN, GPT_ENTRY_SIZE, GPT_HEADER_SIZE, GPT_SIGNATURE
abbrev pub max_partitions : ℕ
max_partitions = 16

abbrev pub name_len : ℕ
name_len = 40

abbrev pub gpt_entry_size : ℕ
gpt_entry_size = 128

abbrev pub gpt_header_size : ℕ
gpt_header_size = 92

abbrev pub gpt_signature : ℕ
gpt_signature = 0x5452415020494645

-- `nexus_gpt_partition_t`; the texts without the 0 at their end
pub record Partition : Type 0 where
  pub index : ℕ
  pub first_lba : ℕ
  pub last_lba : ℕ
  pub attributes : ℕ
  pub type_guid : List ℕ
  pub name : List ℕ

abbrev pub hex : ℕ → ℕ
hex v = if ltb v 10 then b'0' + v else b'A' + (v - 10)

-- `order` of guid_to_text
abbrev pub guid_order : List ℕ
guid_order = 3 ∷ 2 ∷ 1 ∷ 0 ∷ 5 ∷ 4 ∷ 7 ∷ 6 ∷ 8 ∷ 9 ∷ 10 ∷ 11 ∷ 12 ∷ 13 ∷ 14 ∷ 15 ∷ []

pub hex_digits : (ℕ → ℕ) → List ℕ → List ℕ
hex_digits g [] = []
hex_digits g (i ∷ is) = hex (g i / 16) ∷ hex (g i % 16) ∷ hex_digits g is

abbrev pub guid_to_text : (ℕ → ℕ) → List ℕ
guid_to_text g = hex_digits g guid_order

-- The loop over the bytes from `i` on.
pub zero_from : (ℕ → ℕ) → ℕ → ℕ → Bool
zero_from g zero i = true
zero_from g (suc rounds) i = g i == 0 && zero_from g rounds (i + 1)

abbrev pub guid_zero : (ℕ → ℕ) → Bool
guid_zero g = zero_from g 16 0

-- `bytes` bytes from the offset on, the lowest first; disjoint bits are added.
pub little_endian : ℕ → (ℕ → ℕ) → ℕ → ℕ
little_endian zero p off = 0
little_endian (suc bytes) p off = p off + 256 * little_endian bytes p (off + 1)

abbrev pub le64 : (ℕ → ℕ) → ℕ → ℕ
le64 p off = little_endian 8 p off

abbrev pub le32 : (ℕ → ℕ) → ℕ → ℕ
le32 p off = little_endian 4 p off

-- The loop of decode_name from byte `i` on, with `n` characters written; it has a round for each
-- second byte below 36.
pub decode_from : ℕ → (ℕ → ℕ) → ℕ → ℕ → ℕ → List ℕ
decode_from zero p i n max = []
decode_from (suc rounds) p i n max =
    let c = p i + 256 * p (i + 1) in
    let rest = decode_from rounds p (i + 2) (n + 1) max in
    if ltb n (max - 1) && not (c == 0) then (if ltb c 128 then c else b'?') ∷ rest else []

abbrev pub decode_name : (ℕ → ℕ) → ℕ → List ℕ
decode_name p max = decode_from 18 p 0 0 max

-- Entry `i` of the table, which may cross the end of a sector; none if it cannot be read.
pub read_entry : Disk → ℕ → ℕ → ℕ → Option (ℕ → ℕ)
read_entry d entries_lba entry_size i =
    let byte_off = i * entry_size in
    let off = byte_off % 512 in
    let sectors = if ltb 512 (off + gpt_entry_size) then 2 else 1 in
    elim (d.ahci_read_sectors ((entries_lba + byte_off / 512) % 2 ^ 64) sectors) [
      | none ↦ none
      | some buffer ↦ some (λ j. buffer (off + j))
    ]

abbrev pub partition_of : ℕ → (ℕ → ℕ) → Partition
partition_of i e = record {
  index = i + 1;
  first_lba = le64 e 32;
  last_lba = le64 e 40;
  attributes = le64 e 48;
  type_guid = guid_to_text e;
  name = decode_name (λ j. e (56 + j)) name_len;
}

abbrev pub add_entry : ℕ → (ℕ → ℕ) → List Partition → List Partition
add_entry i e parts = if guid_zero e then parts else parts ++ (partition_of i e ∷ [])

-- The loop over the entries from `i` on, with the partitions found before.
pub scan_from : Disk → ℕ → ℕ → ℕ → ℕ → List Partition → List Partition
scan_from d entries_lba entry_size zero i parts = parts
scan_from d entries_lba entry_size (suc rounds) i parts = elim (ltb (length parts) max_partitions) [
  | false ↦ parts
  | true ↦ elim (read_entry d entries_lba entry_size i) [
    | none ↦ parts
    | some e ↦ scan_from d entries_lba entry_size rounds (i + 1) (add_entry i e parts)
  ]
]

-- The checks of the header's sizes.
abbrev pub sizes_fit : (ℕ → ℕ) → Bool
sizes_fit h =
    not (ltb (le32 h 12) gpt_header_size || ltb 512 (le32 h 12))
    && not (le32 h 80 == 0 || ltb (le32 h 84) gpt_entry_size || ltb 512 (le32 h 84))

-- g_parts up to g_count
pub gpt_scan : Disk → List Partition
gpt_scan d = if not d.ahci_is_ready then [] else elim (d.ahci_read_sectors 1 1) [
  | none ↦ []
  | some h ↦
      if le64 h 0 == gpt_signature && sizes_fit h
      then scan_from d (le64 h 72) (le32 h 84) (le32 h 80) 0 []
      else []
]

pub gpt_partition : List Partition → ℕ → Option Partition
gpt_partition [] i = none
gpt_partition (p ∷ ps) zero = some p
gpt_partition (p ∷ ps) (suc i) = gpt_partition ps i

pub gpt_find_type : List Partition → List ℕ → Option Partition
gpt_find_type [] type_guid = none
gpt_find_type (p ∷ ps) type_guid =
    if str_eq p.type_guid type_guid then some p else gpt_find_type ps type_guid

pub gpt_find_name : List Partition → List ℕ → Option Partition
gpt_find_name [] name = none
gpt_find_name (p ∷ ps) name = if str_eq p.name name then some p else gpt_find_name ps name
