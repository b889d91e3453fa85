-- ===== src/Gpt/Names.antt =====
-- No partition is found by a name of more than 18 characters.
use nexus_os.Base.{
  ℕ, zero, suc, ◌+◌, ◌≤◌, ◌<◌, ◌≡◌, refl, ap, ◌&&◌, none, List, [], ◌∷◌, ◌++◌, inl, inr, arith, ltb,
  ◌==◌, length, Bool-cases, Option-cases,
}
use nexus_os.Base.Text.{str_eq, str_eq_sound}
use nexus_os.Gpt.{
  Disk, Partition, max_partitions, guid_zero, partition_of, read_entry, scan_from, decode_from,
  name_len, gpt_scan, gpt_find_name, gpt_signature, le32, le64, sizes_fit,
}

decode_from-length :
    (rounds : ℕ) (p : ℕ → ℕ) (i n max : ℕ) → length (decode_from rounds p i n max) ≤ rounds
unfolding decode_from
decode_from-length zero p i n max = omega arith
decode_from-length (suc rounds) p i n max =
    ground (arith, decode_from-length rounds p (i + 2) (n + 1) max)

AllShort : List Partition → Type 0
AllShort [] = Unit
AllShort (p ∷ ps) = (length p.name ≤ 18) × AllShort ps

AllShort-append :
    (ps : List Partition) (p : Partition)
    → AllShort ps
    → length p.name ≤ 18
    → AllShort (ps ++ (p ∷ []))
unfolding AllShort
AllShort-append [] p a short = (short, tt)
AllShort-append (q ∷ ps) p a short = (a.0, AllShort-append ps p a.1 short)

scan_from-AllShort :
    (d : Disk) (lba size rounds i : ℕ) (parts : List Partition)
    → AllShort parts
    → AllShort (scan_from d lba size rounds i parts)
unfolding scan_from
scan_from-AllShort d lba size zero i parts a = a
scan_from-AllShort d lba size (suc rounds) i parts a =
    elim (Bool-cases (ltb (length parts) max_partitions)) [
      | inr full ↦ rw (full, scan_from) a
      | inl room ↦ elim (Option-cases (read_entry d lba size i)) [
        | inl unreadable ↦ rw (room, unreadable, scan_from) a
        | inr (e, found) ↦ elim (Bool-cases (guid_zero e)) [
          | inl unused ↦
              rw (room, found, unused, scan_from)
                (scan_from-AllShort d lba size rounds (i + 1) parts a)
          | inr used ↦
              rw (room, found, used, scan_from)
                (scan_from-AllShort d lba size rounds (i + 1) (parts ++ (partition_of i e ∷ [])) (
                  AllShort-append parts (partition_of i e) a
                    (decode_from-length 18 (λ j. e (56 + j)) 0 0 name_len)))
        ]
      ]
    ]

gpt_scan-AllShort : (d : Disk) → AllShort (gpt_scan d)
unfolding gpt_scan AllShort
gpt_scan-AllShort d = elim (Bool-cases d.ahci_is_ready) [
  | inr off ↦ rw (off, gpt_scan) tt
  | inl on ↦ elim (Option-cases (d.ahci_read_sectors 1 1)) [
    | inl failed ↦ rw (on, failed, gpt_scan) tt
    | inr (h, read) ↦ elim (Bool-cases (le64 h 0 == gpt_signature && sizes_fit h)) [
      | inr bad ↦ rw (on, read, bad, gpt_scan) tt
      | inl good ↦
          rw (on, read, good, gpt_scan)
            (scan_from-AllShort d (le64 h 72) (le32 h 84) (le32 h 80) 0 [] tt)
    ]
  ]
]

find_name_short :
    (ps : List Partition) (name : List ℕ)
    → AllShort ps
    → 18 < length name
    → gpt_find_name ps name ≡ none
unfolding AllShort gpt_find_name
find_name_short [] name a long = refl
find_name_short (p ∷ ps) name a long = elim (Bool-cases (str_eq p.name name)) [
  | inl same ↦ absurd (omega (arith, ap length (str_eq_sound p.name name same), a.0))
  | inr other ↦ ground (arith, other, find_name_short ps name a.1 long)
]

-- Whatever the disk holds, gpt_find_name finds no partition by a name of more than 18 characters.
pub gpt_find_name-misses_long :
    (d : Disk) (name : List ℕ) → 18 < length name → gpt_find_name (gpt_scan d) name ≡ none
gpt_find_name-misses_long d name long = find_name_short (gpt_scan d) name (gpt_scan-AllShort d) long
