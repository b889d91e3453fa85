-- ===== src/Gpt/Scan.antt =====
-- The loop of gpt_scan finds the first 16 partitions of the entries that can be read.
use nexus_os.Base.{
  ℕ, zero, suc, ◌+◌, ◌≤◌, ◌≡◌, refl, sym, ap, ◌∙◌, true, none, some, List, [], ◌∷◌, ◌++◌,
  append_assoc, append-nil, inl, inr, arith, ltb, ◌==◌, ◌&&◌, if◌then◌else◌, length, take,
  Bool-cases, Option-cases,
}
use nexus_os.Base.Text.{take_all}
use nexus_os.Gpt.{
  Disk, Partition, max_partitions, guid_zero, partition_of, read_entry, scan_from, gpt_scan, le64,
  le32, sizes_fit, gpt_signature,
}

-- The partitions of all the entries from `i` on, up to the first that cannot be read.
unfoldable pub partitions_from : Disk → ℕ → ℕ → ℕ → ℕ → List Partition
partitions_from d entries_lba entry_size zero i = []
partitions_from d entries_lba entry_size (suc rounds) i =
    elim (read_entry d entries_lba entry_size i) [
      | none ↦ []
      | some e ↦
          let rest = partitions_from d entries_lba entry_size rounds (i + 1) in
          if guid_zero e then rest else partition_of i e ∷ rest
    ]

length-append {ℓ} : {A : Type ℓ} (xs ys : List A) → length (xs ++ ys) ≡ length xs + length ys
length-append [] ys = omega arith
length-append (x ∷ xs) ys = omega (arith, length-append xs ys)

take_front {ℓ} : {A : Type ℓ} (n : ℕ) (xs ys : List A) → length xs ≡ n → take n (xs ++ ys) ≡ xs
take_front zero [] [] e = refl
take_front zero [] (y ∷ ys) e = refl
take_front zero (x ∷ xs) ys e = absurd (omega arith)
take_front (suc n) [] ys e = absurd (omega arith)
take_front (suc n) (x ∷ xs) ys e = ap (◌∷◌ x) (take_front n xs ys (omega arith))

-- The loop started with some partitions.
scan_from-takes :
    (d : Disk) (entries_lba entry_size rounds i : ℕ) (parts : List Partition)
    → length parts ≤ max_partitions
    → scan_from d entries_lba entry_size rounds i parts
      ≡ take max_partitions (parts ++ partitions_from d entries_lba entry_size rounds i)
unfolding scan_from partitions_from
scan_from-takes d lba size zero i parts small =
    sym (ap (take max_partitions) (append-nil parts) ∙ take_all max_partitions parts small)
scan_from-takes d lba size (suc rounds) i parts small =
    elim (Bool-cases (ltb (length parts) max_partitions)) [
      | inr full ↦
          let stops : scan_from d lba size (suc rounds) i parts ≡ parts = ground (arith, full) in
          stops
          ∙ sym (
              take_front max_partitions parts (partitions_from d lba size (suc rounds) i)
                (ground (arith, full, small)))
      | inl room ↦ elim (Option-cases (read_entry d lba size i)) [
        | inl unreadable ↦
            rw (room, unreadable, scan_from, partitions_from)
              (sym
                (ap (take max_partitions) (append-nil parts) ∙ take_all max_partitions parts small))
        | inr (e, found) ↦ elim (Bool-cases (guid_zero e)) [
          | inl unused ↦
              rw (room, found, unused, scan_from, partitions_from)
                (scan_from-takes d lba size rounds (i + 1) parts small)
          | inr used ↦
              rw (room, found, used, scan_from, partitions_from)
                (scan_from-takes d lba size rounds (i + 1) (parts ++ (partition_of i e ∷ []))
                    (ground (arith, room, length-append parts (partition_of i e ∷ [])))
                  ∙ ap (take max_partitions) (
                      append_assoc parts (partition_of i e ∷ [])
                        (partitions_from d lba size rounds (i + 1))))
        ]
      ]
    ]

-- With a ready driver and a readable header that has the signature and sizes in their bounds,
-- gpt_scan finds the first 16 of the partitions of all the entries that the header announces, up to
-- the first that cannot be read, where an entry whose type is zero has no partition.
pub gpt_scan-takes :
    (d : Disk) (h : ℕ → ℕ)
    → d.ahci_is_ready ≡ true
    → d.ahci_read_sectors 1 1 ≡ some h
    → le64 h 0 ≡ gpt_signature
    → sizes_fit h ≡ true
    → gpt_scan d ≡ take max_partitions (partitions_from d (le64 h 72) (le32 h 84) (le32 h 80) 0)
unfolding gpt_scan
gpt_scan-takes d h on read signed fit =
    let good : (le64 h 0 == gpt_signature && sizes_fit h) ≡ true = ground (arith, signed, fit) in
    let scans : gpt_scan d ≡ scan_from d (le64 h 72) (le32 h 84) (le32 h 80) 0 [] =
      ground (arith, on, read, good) in
    scans ∙ scan_from-takes d (le64 h 72) (le32 h 84) (le32 h 80) 0 [] (omega arith)
